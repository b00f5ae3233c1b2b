-- ===== src/Pipe/Progress.antt =====
-- What is bound to happen, in whatever order the two threads run.
pub mod Shutdown
pub mod Draw
use vole_zk.Common.{ℕ, zero, suc, ◌≤◌, ◌<◌, ◌⊎◌, inl, inr, arith}
use vole_zk.Pipe.System.{Writer, System, Step}

-- How far the producer is from its next test of `acquire_free`, in the measures.
unfoldable pub writer_phase : Writer → ℕ
writer_phase Writer.idle = 5
writer_phase Writer.asleep = 1
writer_phase (Writer.filling i) = 4
writer_phase (Writer.filled i) = 3
writer_phase Writer.notifying = 7
writer_phase Writer.stopped = 0

pub phase_le : (w : Writer) → writer_phase w ≤ 7
unfolding writer_phase
phase_le Writer.idle = omega arith
phase_le Writer.asleep = omega arith
phase_le (Writer.filling i) = omega arith
phase_le (Writer.filled i) = omega arith
phase_le Writer.notifying = omega arith
phase_le Writer.stopped = omega arith

-- Whatever steps the threads take, `P` holds after at most `k` of them, and until then there is
-- always one that can be taken.
pub data Inevitable {ℓ κ} {A : Type ℓ} (vole : ℕ → A) (n batch : ℕ) (P : System A → Type κ)
    : ℕ → System A → Type (ℓ ⊔ κ) where
  now : {k : ℕ} {s : System A} → P s → Inevitable vole n batch P k s
  next :
      {k : ℕ} {s t : System A}
      → Step vole n batch s t
      → ((u : System A) → Step vole n batch s u → Inevitable vole n batch P k u)
      → Inevitable vole n batch P (suc k) s

module _ {ℓ} {A : Type ℓ} (vole : ℕ → A) (n batch : ℕ) where
  -- A measure that every step lowers, unless it reaches `P`.
  pub by_measure {κ μ} :
      {P : System A → Type κ} {Good : System A → Type μ} (rank : System A → ℕ)
      → ((s : System A)
          → Good s
          → P s
            ⊎ (((t : System A) × Step vole n batch s t)
                × ((u : System A) → Step vole n batch s u → P u ⊎ (Good u × (rank u < rank s)))))
      → (k : ℕ) (s : System A) → Good s
      → rank s < k
      → Inevitable vole n batch P k s
  by_measure rank go zero s g lt = absurd (omega arith)
  by_measure rank go (suc k) s g lt = elim (go s g) [
    | inl reached ↦ now reached
    | inr more ↦ next more.0.1 λ u e. elim (more.1 u e) [
      | inl reached ↦ now reached
      | inr lower ↦ by_measure rank go k u lower.0 (omega (arith, lower.1))
    ]
  ]
