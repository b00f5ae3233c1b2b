-- ===== src/ZkBool/Prdt/Expand.antt =====
-- The rounds in which the prover multiplies its factors, and what it puts into the buffers.
use vole_zk.Common.{
  ℕ, zero, suc, ◌+◌, ◌-◌, ◌≤◌, ◌<◌, leb, ◌==◌, true, false, ◌≡◌, refl, sym, ap, ap₂, ◌∙◌, arith,
}
use vole_zk.Field.{Field, ◌⊕◌, ◌⊗◌}
use vole_zk.Field.Laws.{add-zero, zero-add, zero-mul, one-mul, mul-one, mul_comm, ring_laws}
use vole_zk.Field.Sum.{sum_to, sum_to_congr}
use vole_zk.ZkBool.Prdt.{
  first_poly, new_coeff, expand_step, expand, prdt_coeffs, key_product, f2k_mul_v,
}
use vole_zk.ZkBool.Prdt.Coeffs.{power, at_delta, step_value, top_coeff}

module _ {ℓ} {A : Type ℓ} ⦃f : Field A⦄ (d : A) (x m : ℕ → A) where
  -- The prover's factors, as polynomials at `d`.
  abbrev pub factor : ℕ → A
  factor i = m i ⊕ x i ⊗ d

  first_value : at_delta d (first_poly x m) 3 ≡ factor 0 ⊗ factor 1
  unfolding first_poly sum_to power
  first_value = expanded (m 0) (x 0) (m 1) (x 1)
    where
      spread :
          (a b a' b' : A)
          → (a ⊗ a' ⊕ (a ⊗ b' ⊕ b ⊗ a') ⊗ d) ⊕ (b ⊗ b') ⊗ (d ⊗ d) ≡ (a ⊕ b ⊗ d) ⊗ (a' ⊕ b' ⊗ d)
      spread a b a' b' = simp ring_laws

      expanded :
          (a b a' b' : A)
          → ((f.zero ⊕ (a ⊗ a') ⊗ f.one) ⊕ (a ⊗ b' ⊕ b ⊗ a') ⊗ (f.one ⊗ d))
              ⊕ (b ⊗ b') ⊗ (f.one ⊗ d ⊗ d)
            ≡ (a ⊕ b ⊗ d) ⊗ (a' ⊕ b' ⊗ d)
      expanded a b a' b' =
          ap₂ (λ u v. ((f.zero ⊕ u) ⊕ (a ⊗ b' ⊕ b ⊗ a') ⊗ v) ⊕ (b ⊗ b') ⊗ (v ⊗ d))
            (mul-one (a ⊗ a')) (one-mul d)
          ∙ ap (λ u. (u ⊕ (a ⊗ b' ⊕ b ⊗ a') ⊗ d) ⊕ (b ⊗ b') ⊗ (d ⊗ d)) (zero-add (a ⊗ a'))
          ∙ spread a b a' b'

  two_more : (r : ℕ) → r + 2 ≡ suc (suc r)
  two_more r = omega arith

  -- A round before the last one.
  inner_step :
      (n r : ℕ)
      → suc (suc (suc r)) < n
      → (j : ℕ) → j < suc (suc (suc (suc r)))
      → expand n x m (suc r) j
        ≡ new_coeff (expand n x m r) (x (suc (suc r))) (m (suc (suc r))) (suc (suc r)) j
  unfolding expand expand_step
  inner_step n r lt j lt' = rw (two_more r, not_last n r lt, inside r j lt') refl
    where
      not_last : (n r : ℕ) → suc (suc (suc r)) < n → (suc (suc r) == n - 1) ≡ false
      not_last n r lt = ground arith

      inside : (r j : ℕ) → j < suc (suc (suc (suc r))) → leb j (suc (suc r) + 1) ≡ true
      inside r j lt' = ground arith

  last_step :
      (r j : ℕ)
      → j < suc (suc (suc r))
      → expand (suc (suc (suc r))) x m (suc r) j
        ≡ new_coeff
            (expand (suc (suc (suc r))) x m r)
            (x (suc (suc r)))
            (m (suc (suc r)))
            (suc (suc r))
            j
  unfolding expand expand_step
  last_step r j lt' = rw (two_more r, last r, inside r j lt') refl
    where
      last : (r : ℕ) → (suc (suc r) == suc (suc (suc r)) - 1) ≡ true
      last r = ground arith

      inside : (r j : ℕ) → j < suc (suc (suc r)) → leb j (suc (suc (suc r)) - 1) ≡ true
      inside r j lt' = ground arith

  -- The coefficients before the last round are those of the product of the first factors.
  inner_value :
      (n r : ℕ)
      → suc (suc r) < n
      → at_delta d (expand n x m r) (suc (suc (suc r))) ≡ key_product factor (suc r)
  unfolding expand key_product
  inner_value n zero lt = first_value
  inner_value n (suc r) lt =
      sum_to_congr _ _ (suc (suc (suc (suc r))))
        (λ j lt'. ap (λ t. t ⊗ power d j) (inner_step n r lt j lt'))
      ∙ step_value d (expand n x m r) (x (suc (suc r))) (m (suc (suc r))) (suc (suc r))
      ∙ ap (λ t. t ⊗ factor (suc (suc r))) (inner_value n r (omega (arith, lt)))

  -- The top one is the product of the first values.
  inner_top : (n r : ℕ) → suc (suc r) < n → expand n x m r (suc (suc r)) ≡ f2k_mul_v x (suc r)
  unfolding expand f2k_mul_v first_poly
  inner_top n zero lt = mul_comm (x 0) (x 1)
  inner_top n (suc r) lt =
      inner_step n r lt (suc (suc (suc r))) (omega arith)
      ∙ top_coeff d (expand n x m r) (x (suc (suc r))) (m (suc (suc r))) (suc (suc r))
      ∙ mul_comm _ _
      ∙ ap (λ t. x (suc (suc r)) ⊗ t) (inner_top n r (omega (arith, lt)))

  -- With the product of all values for the top coefficient that the code leaves out.
  pub whole_value :
      (r : ℕ)
      → at_delta d (expand (suc (suc (suc r))) x m (suc r)) (suc (suc (suc r)))
          ⊕ f2k_mul_v x (suc (suc r)) ⊗ power d (suc (suc (suc r)))
        ≡ key_product factor (suc (suc r))
  unfolding key_product f2k_mul_v
  whole_value r =
      ap₂ ◌⊕◌
        (sum_to_congr _ _ (suc (suc (suc r))) λ j lt. ap (λ t. t ⊗ power d j) (last_step r j lt))
        (ap (λ t. t ⊗ power d (suc (suc (suc r)))) (sym top))
      ∙ closed
      ∙ step_value d p (x (suc (suc r))) (m (suc (suc r))) (suc (suc r))
      ∙ ap (λ t. t ⊗ factor (suc (suc r))) (inner_value (suc (suc (suc r))) r (omega arith))
    where
      p : ℕ → A
      p = expand (suc (suc (suc r))) x m r

      top :
          new_coeff p (x (suc (suc r))) (m (suc (suc r))) (suc (suc r)) (suc (suc (suc r)))
          ≡ x (suc (suc r)) ⊗ f2k_mul_v x (suc r)
      top =
          top_coeff d p (x (suc (suc r))) (m (suc (suc r))) (suc (suc r))
          ∙ mul_comm _ _
          ∙ ap (λ t. x (suc (suc r)) ⊗ t) (inner_top (suc (suc (suc r))) r (omega arith))

      closed :
          at_delta d
              (new_coeff p (x (suc (suc r))) (m (suc (suc r))) (suc (suc r)))
              (suc (suc (suc r)))
            ⊕ new_coeff p (x (suc (suc r))) (m (suc (suc r))) (suc (suc r)) (suc (suc (suc r)))
              ⊗ power d (suc (suc (suc r)))
          ≡ at_delta d
              (new_coeff p (x (suc (suc r))) (m (suc (suc r))) (suc (suc r)))
              (suc (suc (suc (suc r))))
      closed = unfold sum_to in refl

  one_zero : (t y : A) → t ⊕ f.zero ⊗ y ≡ t
  one_zero t y = ap (λ q. t ⊕ q) (zero-mul y) ∙ add-zero t

  two_zeros : (t y z : A) → (t ⊕ f.zero ⊗ y) ⊕ f.zero ⊗ z ≡ t
  two_zeros t y z = one_zero _ z ∙ one_zero t y

  apart : (t u v y : A) → t ⊕ (u ⊕ v) ⊗ y ≡ (t ⊕ u ⊗ y) ⊕ v ⊗ y
  apart t u v y = simp ring_laws

  -- The buffers hold the coefficients, and the MAC of the product with the last one.
  pub buffers_value :
      (m_last : A) (r : ℕ)
      → r ≤ 2
      → at_delta d (prdt_coeffs (suc (suc (suc r))) x m m_last) 5
        ≡ at_delta d (expand (suc (suc (suc r))) x m (suc r)) (suc (suc (suc r)))
          ⊕ m_last ⊗ power d (suc (suc r))
  unfolding prdt_coeffs sum_to
  buffers_value m_last zero le = two_zeros _ _ _ ∙ apart _ _ m_last _
  buffers_value m_last (suc zero) le = one_zero _ _ ∙ apart _ _ m_last _
  buffers_value m_last (suc (suc zero)) le = apart _ _ m_last _
  buffers_value m_last (suc (suc (suc r))) le = absurd (omega (arith, le))
