-- ===== src/ZkBool/Prdt/Row.antt =====
-- What both sides put into the buffers for one product.
use vole_zk.Common.{ℕ, zero, suc, ◌-◌, ◌≤◌, ◌<◌, ◌≡◌, sym, ap, ap₂, ◌∙◌, arith}
use vole_zk.Field.{Field, ◌⊕◌, ◌⊗◌}
use vole_zk.Field.Laws.{add_comm, ring_laws}
use vole_zk.ZkBool.Block.{Blocks, add_move}
use vole_zk.ZkBool.Prdt.{deltas, prdt_coeffs, key_product, f2k_mul_v, prdt_value}
use vole_zk.ZkBool.Prdt.Coeffs.{power, deltas_lem, at_delta}
use vole_zk.ZkBool.Prdt.Expand.{factor, buffers_value, whole_value}

module _ {ℓ} {A : Type ℓ} ⦃f : Field A⦄ ⦃b : Blocks A⦄ (d : A) (x m k : ℕ → A) where
  key_factors :
      (n : ℕ)
      → ((i : ℕ) → i ≤ n → m i ≡ x i ⊗ d ⊕ k i)
      → key_product k n ≡ key_product (factor d x m) n
  unfolding key_product
  key_factors zero linked = sym (add_move _ _ _ (linked 0 (omega arith) ∙ add_comm _ _))
  key_factors (suc n) linked =
      ap₂ ◌⊗◌ (key_factors n λ i le. linked i (omega (arith, le)))
        (sym (add_move _ _ _ (linked (suc n) (omega arith) ∙ add_comm _ _)))

  -- Of 3 to 5 factors whose MACs match the keys, and of any wire `p` that is claimed for the
  -- product: the coefficients at Δ are the verifier's value, up to the difference of the product
  -- and `p` times Δ^n.
  pub prdt_coeffs_lem :
      (r : ℕ) (m_last k_last p : A)
      → r ≤ 2
      → ((i : ℕ) → i < suc (suc (suc r)) → m i ≡ x i ⊗ d ⊕ k i)
      → m_last ≡ p ⊗ d ⊕ k_last
      → at_delta d (prdt_coeffs (suc (suc (suc r))) x m m_last) 5
        ≡ prdt_value d (suc (suc (suc r))) k k_last
          ⊕ (f2k_mul_v x (suc (suc r)) ⊕ p) ⊗ power d (suc (suc (suc r)))
  unfolding prdt_value power
  prdt_coeffs_lem r m_last k_last p le linked last =
      buffers_value d x m m_last r le
      ∙ ap₂ ◌⊕◌ (sym (add_move _ _ _ (sym (whole_value d x m r))))
          (ap (λ t. t ⊗ power d (suc (suc r))) last)
      ∙ collect (key_product (factor d x m) (suc (suc r))) (f2k_mul_v x (suc (suc r))) p k_last
          (power d (suc (suc r)))
      ∙ ap (λ t. t ⊕ (f2k_mul_v x (suc (suc r)) ⊕ p) ⊗ (power d (suc (suc r)) ⊗ d))
          (ap₂ (λ u v. u ⊕ k_last ⊗ v)
            (sym (key_factors (suc (suc r)) λ i le'. linked i (omega (arith, le')))
              ∙ ap (key_product k) {x = suc (suc r)} {y = suc (suc (suc r)) - 1} (omega arith))
            (sym (deltas_lem d (suc r))
              ∙ ap (deltas d) {x = suc r} {y = suc (suc (suc r)) - 2} (omega arith)))
    where
      collect :
          (u v p l w : A) → (u ⊕ v ⊗ (w ⊗ d)) ⊕ (p ⊗ d ⊕ l) ⊗ w ≡ (u ⊕ l ⊗ w) ⊕ (v ⊕ p) ⊗ (w ⊗ d)
      collect u v p l w = simp ring_laws
