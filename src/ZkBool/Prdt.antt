-- ===== src/ZkBool/Prdt.antt =====
-- `RamPolyPrdt` of emp-zk-bool/zk_perm_proof.h: a product of 3 to 5 authenticated elements of
-- GF(2^128), proved by the coefficients of a polynomial in Δ; many of them are checked together.
pub mod Coeffs
pub mod Expand
pub mod Row
pub mod Check
pub mod Push
use vole_zk.Common.{
  ℕ, zero, suc, ◌+◌, ◌-◌, ltb, leb, ◌==◌, if◌then◌else◌, List, [], ◌∷◌, update, ◌≡◌,
}
use vole_zk.Field.{Field, ◌⊕◌, ◌⊗◌}
use vole_zk.Field.Sum.{sum_to}
use vole_zk.Arith.Wire.{Auth}
use vole_zk.Arith.Engine.{Result, done, abort, ◌>>=◌}
use vole_zk.ZkBool.Check.{Message, block, recv_block}

-- `buffer j` has the coefficients of Δ^j of all products; at the verifier only `buffer 0` is used.
-- `checks` counts the checks, each with a new seed.
pub record RamPolyPrdt {ℓ} (A : Type ℓ) : Type ℓ where
  pub num : ℕ
  pub buffer : ℕ → ℕ → A
  pub checks : ℕ

-- `red` is `vector_inn_prdt_sum_red` of emp-tool; `chi` gives the coefficients that
-- `uni_hash_coeff_gen` makes from the seed of each check.
pub record PrdtSetup {ℓ} (A : Type ℓ) ⦃f : Field A⦄ : Type ℓ where
  pub buffer_sz : ℕ
  pub chi : ℕ → ℕ → A
  pub red : (ℕ → A) → (ℕ → A) → ℕ → A
  pub red_lem : (x y : ℕ → A) (n : ℕ) → red x y n ≡ sum_to (λ i. x i ⊗ y i) n

module _ {ℓ} {A : Type ℓ} ⦃f : Field A⦄ where
  -- The array `delta`: `delta[k]` is Δ^(k+1).
  unfoldable pub deltas : A → ℕ → A
  deltas d zero = d
  deltas d (suc k) = deltas d k ⊗ d

  -- (k_1 + x_1 Δ)(k_2 + x_2 Δ)
  unfoldable pub first_poly : (x m : ℕ → A) → ℕ → A
  first_poly x m zero = m 0 ⊗ m 1
  first_poly x m (suc zero) = m 0 ⊗ x 1 ⊕ x 0 ⊗ m 1
  first_poly x m (suc (suc zero)) = x 0 ⊗ x 1
  first_poly x m (suc (suc (suc j))) = f.zero

  -- Coefficient `j` once the factor `i`, of value `x` and MAC `m`, is multiplied in.
  unfoldable pub new_coeff : (ℕ → A) → A → A → ℕ → ℕ → A
  new_coeff poly x m i j =
      (if leb j i then poly j ⊗ m else f.zero) ⊕ (if leb 1 j then poly (j - 1) ⊗ x else f.zero)

  -- The loop body: the last one of `n` leaves out the new top coefficient.
  unfoldable pub expand_step : ℕ → (ℕ → A) → A → A → ℕ → ℕ → A
  unfolding new_coeff
  expand_step n poly x m i j =
      let top = if i == n - 1 then n - 1 else i + 1 in
      if leb j top then new_coeff poly x m i j else poly j

  -- `rounds` rounds of the loop, which starts at 2.
  unfoldable pub expand : ℕ → (x m : ℕ → A) → ℕ → ℕ → A
  unfolding first_poly expand_step
  expand n x m zero = first_poly x m
  expand n x m (suc r) = expand_step n (expand n x m r) (x (r + 2)) (m (r + 2)) (r + 2)

  -- What ALICE puts into the buffers: the Δ^(n-1) one takes the MAC of the product, too.
  unfoldable pub prdt_coeffs : ℕ → (x m : ℕ → A) → A → ℕ → A
  unfolding expand
  prdt_coeffs n x m m_last j =
      let poly = expand n x m (n - 2) in
      if ltb j (n - 1) then poly j else if j == n - 1 then poly (n - 1) ⊕ m_last else f.zero

  -- `prod` of BOB after `r` rounds.
  unfoldable pub key_product : (ℕ → A) → ℕ → A
  key_product m zero = m 0
  key_product m (suc r) = key_product m r ⊗ m (suc r)

  -- `f2k_mul_v` of ALICE after `r` rounds.
  unfoldable pub f2k_mul_v : (ℕ → A) → ℕ → A
  f2k_mul_v vals zero = vals 0
  f2k_mul_v vals (suc r) = vals (suc r) ⊗ f2k_mul_v vals r

  -- What BOB puts into the buffer.
  unfoldable pub prdt_value : A → ℕ → (ℕ → A) → A → A
  unfolding key_product deltas
  prdt_value delta n m m_last = key_product m (n - 1) ⊕ m_last ⊗ deltas delta (n - 2)

  module _ (c : PrdtSetup A) where
    -- ALICE and BOB of `batch_check`.
    unfoldable pub prdt_check_send : RamPolyPrdt A → RamPolyPrdt A × List (Message A)
    prdt_check_send s =
        let sum = λ (j : ℕ). c.red (c.chi s.checks) (s.buffer j) s.num in
        if s.num == 0 then (s, []) else (
          record s { num = 0; checks = s.checks + 1 },
          block (sum 0) ∷ block (sum 1) ∷ block (sum 2) ∷ block (sum 3) ∷ block (sum 4) ∷ [],
        )

    unfoldable pub prdt_check_recv :
        A → RamPolyPrdt A → List (Message A) → Result (RamPolyPrdt A × List (Message A))
    unfolding deltas recv_block
    prdt_check_recv delta s inbox =
        if s.num == 0
        then done (s, inbox)
        else recv_block inbox >>= λ (c0, i0). recv_block i0 >>= λ (c1, i1).
            recv_block i1 >>= λ (c2, i2). recv_block i2 >>= λ (c3, i3).
            recv_block i3 >>= λ (c4, rest).
            let t = λ (x : A) (k : ℕ). x ⊗ deltas delta k in
            let sum = c0 ⊕ (((t c1 0 ⊕ t c2 1) ⊕ t c3 2) ⊕ t c4 3) in
            if f.beq (c.red (c.chi s.checks) (s.buffer 0) s.num) sum
            then done (record s { num = 0; checks = s.checks + 1 }, rest)
            else abort

    -- `polyPrdtN` with `n` factors.
    unfoldable pub poly_prdt_send :
        ℕ → (x m : ℕ → A) → A → RamPolyPrdt A → RamPolyPrdt A × List (Message A)
    unfolding prdt_coeffs
    poly_prdt_send n x m m_last s =
        let (s', sent) = if leb c.buffer_sz s.num then prdt_check_send s else (s, []) in
        (
          record s' {
            buffer = λ j. update (s'.buffer j) s'.num (prdt_coeffs n x m m_last j);
            num = s'.num + 1;
          },
          sent,
        )

    unfoldable pub poly_prdt_recv :
        A
        → ℕ
        → (ℕ → A)
        → A
        → RamPolyPrdt A
        → List (Message A)
        → Result (RamPolyPrdt A × List (Message A))
    unfolding prdt_value
    poly_prdt_recv delta n m m_last s inbox =
        let room =
          if leb c.buffer_sz s.num then prdt_check_recv delta s inbox else done (s, inbox) in
        room >>= λ (s', rest). done (
          record s' {
            buffer = λ j.
                if j == 0
                then update (s'.buffer 0) s'.num (prdt_value delta n m m_last)
                else s'.buffer j;
            num = s'.num + 1;
          },
          rest,
        )
