-- ===== src/Arith/Poly.antt =====
-- `FpPolyProof` of emp-zk-arith/polynomial.h: statements `c + sum c_i x_i y_i = 0` on wires, put
-- into a buffer and checked together.
pub mod Sum
pub mod Check
pub mod Push
use vole_zk.Common.{ℕ, ◌+◌, ltb, leb, ◌==◌, ◌||◌, if◌then◌else◌, List, [], ◌∷◌, update, ◌≡◌}
use vole_zk.Field.{Field, ◌⊕◌, ◌⊗◌}
use vole_zk.Field.Sum.{sum_to}
use vole_zk.Arith.Wire.{Auth}
use vole_zk.Arith.Engine.{Result, done, abort, ◌>>=◌, recv, slice_start, slice_size}

-- `drawn` counts the correlations of the engine that it has drawn; the verifier has no `buffer1`.
pub record PolyProof {ℓ} (A : Type ℓ) : Type ℓ where
  pub num : ℕ
  pub buffer : ℕ → A
  pub buffer1 : ℕ → A
  pub drawn : ℕ
  pub checks : ℕ

-- `inner` is `vector_inn_prdt_sum_red` of the vole library; `chi` gives the coefficients that
-- `prg_coeff_gen_zk` expands from the seed of each check.
pub record PolySetup {ℓ} (A : Type ℓ) ⦃f : Field A⦄ : Type ℓ where
  pub buffer_sz : ℕ
  pub threads : ℕ
  pub chi : ℕ → ℕ → A
  pub inner : (ℕ → A) → (ℕ → A) → ℕ → A
  pub inner_lem : (x y : ℕ → A) (n : ℕ) → inner x y n ≡ sum_to (λ k. x k ⊗ y k) n

module _ {ℓ} {A : Type ℓ} ⦃f : Field A⦄ where
  -- `par_sum_`; there is a pool only with two threads or more.
  unfoldable pub par_sum : ℕ → ℕ → (ℕ → A) → A
  par_sum threads n g =
      if leb threads 1 || ltb n 64
      then sum_to g n
      else sum_to (λ t. sum_to (λ k. g (k + slice_start threads n t)) (slice_size threads n t))
          threads

  module _ (c : PolySetup A) where
    -- ALICE and BOB of `batch_check`.
    unfoldable pub batch_check_send : (ℕ → Auth A) → PolyProof A → PolyProof A × List A
    batch_check_send vole s =
        let sum0 = c.inner (c.chi s.checks) s.buffer s.num in
        let sum1 = c.inner (c.chi s.checks) s.buffer1 s.num in
        let ope_data = vole s.drawn in
        if s.num == 0 then (s, []) else (
          record s { num = 0; drawn = s.drawn + 1; checks = s.checks + 1 },
          (sum0 ⊕ ope_data.mac) ∷ (sum1 ⊕ ope_data.val) ∷ [],
        )

    unfoldable pub batch_check_recv :
        A → (ℕ → Auth A) → PolyProof A → List A → Result (PolyProof A × List A)
    unfolding recv
    batch_check_recv delta vole s inbox =
        if s.num == 0
        then done (s, inbox)
        else recv inbox >>= λ (sum0, rest). recv rest >>= λ (sum1, rest').
            let b = c.inner (c.chi s.checks) s.buffer s.num in
            let ope_data = vole s.drawn in
            if f.beq ((b ⊕ ope_data.mac) ⊕ sum1 ⊗ delta) sum0
            then done (record s { num = 0; drawn = s.drawn + 1; checks = s.checks + 1 }, rest')
            else abort

    -- `if (num >= buffer_sz) batch_check();`
    unfoldable pub room_send : (ℕ → Auth A) → PolyProof A → PolyProof A × List A
    room_send vole s = if leb c.buffer_sz s.num then batch_check_send vole s else (s, [])

    unfoldable pub room_recv :
        A → (ℕ → Auth A) → PolyProof A → List A → Result (PolyProof A × List A)
    room_recv delta vole s inbox =
        if leb c.buffer_sz s.num then batch_check_recv delta vole s inbox else done (s, inbox)

    abbrev pub push_send : A → A → PolyProof A → PolyProof A
    push_send a0 a1 s = record s {
      buffer = update s.buffer s.num a0;
      buffer1 = update s.buffer1 s.num a1;
      num = s.num + 1;
    }

    -- `tmp` is the term of the constant.
    abbrev pub push_recv : A → A → A → PolyProof A → PolyProof A
    push_recv delta constant b s = record s {
      buffer = update s.buffer s.num (b ⊕ constant ⊗ (delta ⊗ delta));
      num = s.num + 1;
    }

    unfoldable pub zkp_poly_deg2_send :
        (ℕ → Auth A) → (x y : ℕ → Auth A) → (coeff : ℕ → A) → ℕ → PolyProof A → PolyProof A × List A
    zkp_poly_deg2_send vole x y coeff len s =
        let (s', sent) = room_send vole s in
        let a0 = par_sum c.threads len (λ i. coeff (i + 1) ⊗ ((x i).mac ⊗ (y i).mac)) in
        let a1 =
          par_sum c.threads len
            (λ i. coeff (i + 1) ⊗ ((x i).mac ⊗ (y i).val ⊕ (y i).mac ⊗ (x i).val)) in
        (push_send a0 a1 s', sent)

    unfoldable pub zkp_poly_deg2_recv :
        A
        → (ℕ → Auth A)
        → (x y : ℕ → Auth A) → (coeff : ℕ → A) → ℕ
        → PolyProof A
        → List A
        → Result (PolyProof A × List A)
    zkp_poly_deg2_recv delta vole x y coeff len s inbox =
        room_recv delta vole s inbox >>= λ (s', rest).
        let b = par_sum c.threads len (λ i. coeff (i + 1) ⊗ ((x i).mac ⊗ (y i).mac)) in
        done (push_recv delta (coeff 0) b s', rest)

    unfoldable pub zkp_inner_prdt_send :
        (ℕ → Auth A) → (x y : ℕ → Auth A) → ℕ → PolyProof A → PolyProof A × List A
    zkp_inner_prdt_send vole x y len s =
        let (s', sent) = room_send vole s in
        let a0 = par_sum c.threads len (λ i. (x i).mac ⊗ (y i).mac) in
        let a1 = par_sum c.threads len (λ i. (x i).mac ⊗ (y i).val ⊕ (y i).mac ⊗ (x i).val) in
        (push_send a0 a1 s', sent)

    unfoldable pub zkp_inner_prdt_recv :
        A
        → (ℕ → Auth A)
        → (x y : ℕ → Auth A) → A
        → ℕ
        → PolyProof A
        → List A
        → Result (PolyProof A × List A)
    zkp_inner_prdt_recv delta vole x y constant len s inbox =
        room_recv delta vole s inbox >>= λ (s', rest).
        let b = par_sum c.threads len (λ i. (x i).mac ⊗ (y i).mac) in
        done (push_recv delta constant b s', rest)
