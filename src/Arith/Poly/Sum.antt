-- ===== src/Arith/Poly/Sum.antt =====
-- The sum over the workers is the sum.
use vole_zk.Common.{ℕ, ◌<◌, false, ltb, leb, ◌||◌, Bool-cases, ◌≡◌, inl, inr, arith}
use vole_zk.Field.{Field}
use vole_zk.Field.Sum.{sum_to}
use vole_zk.Arith.Engine.Slices.{slices_cover}
use vole_zk.Arith.Poly.{par_sum}

several : (threads n : ℕ) → (leb threads 1 || ltb n 64) ≡ false → 0 < threads
several threads n h = ground arith

-- `par_sum_` is the plain sum, for every number of threads and of terms.
pub par_sum_lem {ℓ} :
    {A : Type ℓ} ⦃f : Field A⦄ (threads n : ℕ) (g : ℕ → A) → par_sum threads n g ≡ sum_to g n
unfolding par_sum
par_sum_lem threads n g = elim (Bool-cases (leb threads 1 || ltb n 64)) [
  | inl h ↦ rw h
  | inr h ↦ rw h (slices_cover g threads n (several threads n h))
]
