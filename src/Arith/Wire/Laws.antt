-- ===== src/Arith/Wire/Laws.antt =====
-- The helpers of ostriple.h keep MAC = v Δ + key, on the value that each computes.
use vole_zk.Common.{◌≡◌, refl, sym, ap, ap₂, ◌∙◌}
use vole_zk.Field.{Field, ◌⊕◌, ◌⊗◌, ◌⊖◌}
use vole_zk.Field.Laws.{add-zero, add_cancel, sub-add, eq-sub_of_add, ring_laws}
use vole_zk.Arith.Wire.{
  Auth, Matches, auth_mac_add, auth_mac_add_const, auth_mac_subtract, auth_mac_mul_const,
  auth_key_add, auth_key_add_const, auth_key_subtract, auth_key_mul_const, compute_mu_prv_opt,
  compute_mu_vrf_opt,
}

module _ {ℓ} {A : Type ℓ} ⦃f : Field A⦄ where
  pub linked_add : (d x y k l : A) → (x ⊗ d ⊕ k) ⊕ (y ⊗ d ⊕ l) ≡ (x ⊕ y) ⊗ d ⊕ (k ⊕ l)
  linked_add d x y k l = simp ring_laws

  pub linked_sub : (d x y k l : A) → (x ⊗ d ⊕ k) ⊖ (y ⊗ d ⊕ l) ≡ (x ⊖ y) ⊗ d ⊕ (k ⊖ l)
  linked_sub d x y k l = sym (
      eq-sub_of_add _ _ _
        (linked_add d (x ⊖ y) y (k ⊖ l) l ∙ ap₂ (λ s t. s ⊗ d ⊕ t) (sub-add x y) (sub-add k l)))

  pub linked_mul : (d x k c : A) → (x ⊗ d ⊕ k) ⊗ c ≡ (x ⊗ c) ⊗ d ⊕ k ⊗ c
  linked_mul d x k c = simp ring_laws

  -- The key of a value that grows by a public `c` drops by `c Δ`.
  pub linked_const : (d x k c : A) → x ⊗ d ⊕ k ≡ (x ⊕ c) ⊗ d ⊕ (k ⊖ c ⊗ d)
  linked_const d x k c =
      add_cancel _ _ (c ⊗ d)
        (grow d x k c ∙ ap (λ t. (x ⊕ c) ⊗ d ⊕ t) (sym (sub-add k (c ⊗ d))) ∙ regroup _ _ _)
    where
      grow : (d x k c : A) → (x ⊗ d ⊕ k) ⊕ c ⊗ d ≡ (x ⊕ c) ⊗ d ⊕ k
      grow d x k c = simp ring_laws

      regroup : (p q r : A) → p ⊕ (q ⊕ r) ≡ (p ⊕ q) ⊕ r
      regroup p q r = simp ring_laws

  module _ {d : A} where
    pub auth_add-Matches :
        {a b k l : Auth A}
        → Matches d a k
        → Matches d b l
        → Matches d (auth_mac_add a b) (auth_key_add k l)
    unfolding auth_mac_add auth_key_add
    auth_add-Matches {a} {b} {k} {l} p q = record {
      linked = ap₂ ◌⊕◌ p.linked q.linked ∙ linked_add d a.val b.val k.mac l.mac;
      keyed = refl;
    }

    pub auth_subtract-Matches :
        {a b k l : Auth A}
        → Matches d a k
        → Matches d b l
        → Matches d (auth_mac_subtract a b) (auth_key_subtract k l)
    unfolding auth_mac_subtract auth_key_subtract
    auth_subtract-Matches {a} {b} {k} {l} p q = record {
      linked = ap₂ ◌⊖◌ p.linked q.linked ∙ linked_sub d a.val b.val k.mac l.mac;
      keyed = refl;
    }

    pub auth_mul_const-Matches :
        {a k : Auth A} (c : A)
        → Matches d a k
        → Matches d (auth_mac_mul_const a c) (auth_key_mul_const k c)
    unfolding auth_mac_mul_const auth_key_mul_const
    auth_mul_const-Matches {a} {k} c p = record {
      linked = ap (λ t. t ⊗ c) p.linked ∙ linked_mul d a.val k.mac c;
      keyed = refl;
    }

    pub auth_add_const-Matches :
        {a k : Auth A} (c : A)
        → Matches d a k
        → Matches d (auth_mac_add_const a c) (auth_key_add_const d k c)
    unfolding auth_mac_add_const auth_key_add_const
    auth_add_const-Matches {a} {k} c p = record {
      linked = add-zero _ ∙ p.linked ∙ linked_const d a.val k.mac c;
      keyed = refl;
    }

    compute_mu-Matches :
        {eta t0 t1 t2 eta' k0 k1 k2 : Auth A} (la lb : A)
        → Matches d eta eta'
        → Matches d t0 k0
        → Matches d t1 k1
        → Matches d t2 k2
        → Matches d
            (compute_mu_prv_opt la lb eta t0 t1 t2)
            (compute_mu_vrf_opt d la lb eta' k0 k1 k2)
    unfolding compute_mu_prv_opt compute_mu_vrf_opt
    compute_mu-Matches la lb e p q r = auth_add_const-Matches (la ⊗ lb) (
        auth_add-Matches
          (auth_add-Matches (auth_subtract-Matches r e) (auth_mul_const-Matches lb p))
          (auth_mul_const-Matches la q))

  mu_value :
      (la lb : A) (eta t0 t1 t2 : Auth A)
      → (compute_mu_prv_opt la lb eta t0 t1 t2).val
        ≡ ((t2.val ⊕ t0.val ⊗ lb) ⊕ t1.val ⊗ la ⊕ la ⊗ lb) ⊖ eta.val
  unfolding compute_mu_prv_opt auth_mac_add auth_mac_add_const auth_mac_subtract auth_mac_mul_const
  mu_value la lb eta t0 t1 t2 = eq-sub_of_add _ _ _ (
      regroup (t2.val ⊖ eta.val) (t0.val ⊗ lb) (t1.val ⊗ la) (la ⊗ lb) eta.val
      ∙ ap (λ t. (t ⊕ t0.val ⊗ lb) ⊕ t1.val ⊗ la ⊕ la ⊗ lb) (sub-add t2.val eta.val))
    where
      regroup : (s p q r e : A) → (((s ⊕ p) ⊕ q) ⊕ r) ⊕ e ≡ (((s ⊕ e) ⊕ p) ⊕ q) ⊕ r
      regroup s p q r e = simp ring_laws

  mu_product : (x y a b : A) → ((a ⊗ b ⊕ a ⊗ (y ⊖ b)) ⊕ b ⊗ (x ⊖ a)) ⊕ (x ⊖ a) ⊗ (y ⊖ b) ≡ x ⊗ y
  mu_product x y a b = expand a b (x ⊖ a) (y ⊖ b) ∙ ap₂ ◌⊗◌ (sub-add x a) (sub-add y b)
    where
      expand : (a b u v : A) → ((a ⊗ b ⊕ a ⊗ v) ⊕ b ⊗ u) ⊕ u ⊗ v ≡ (u ⊕ a) ⊗ (v ⊕ b)
      expand a b u v = simp ring_laws

  -- The sacrifice of a triple `c = a b` against the inputs `x` and `y` and the output `eta`, with
  -- `la = x - a` and `lb = y - b` opened: the two parties' results match, and the value that they
  -- authenticate is `x y - eta`.
  pub compute_mu_lem :
      (d x y : A) (eta t0 t1 t2 eta' k0 k1 k2 : Auth A)
      → Matches d eta eta'
      → Matches d t0 k0
      → Matches d t1 k1
      → Matches d t2 k2
      → t2.val ≡ t0.val ⊗ t1.val
      → let la = x ⊖ t0.val in
        let lb = y ⊖ t1.val in
        let mu = compute_mu_prv_opt la lb eta t0 t1 t2 in
        let key = compute_mu_vrf_opt d la lb eta' k0 k1 k2 in
        Matches d mu key × (mu.val ≡ (x ⊗ y) ⊖ eta.val)
  compute_mu_lem d x y eta t0 t1 t2 eta' k0 k1 k2 e p q r product = (matched, value)
    where
      la : A
      la = x ⊖ t0.val

      lb : A
      lb = y ⊖ t1.val

      matched :
          Matches d
            (compute_mu_prv_opt la lb eta t0 t1 t2)
            (compute_mu_vrf_opt d la lb eta' k0 k1 k2)
      matched = compute_mu-Matches la lb e p q r

      value : (compute_mu_prv_opt la lb eta t0 t1 t2).val ≡ (x ⊗ y) ⊖ eta.val
      value =
          mu_value la lb eta t0 t1 t2
          ∙ ap (λ t. ((t ⊕ t0.val ⊗ lb) ⊕ t1.val ⊗ la ⊕ la ⊗ lb) ⊖ eta.val) product
          ∙ ap (λ t. t ⊖ eta.val) (mu_product x y t0.val t1.val)
