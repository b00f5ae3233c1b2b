-- ===== src/ZkBool/Block/Laws.antt =====
-- The local gates keep the relation between MAC and key, and a masking bit turns a fresh
-- correlation into a wire of any bit.
use vole_zk.Common.{Bool, true, false, xor, xor_self, ◌≡◌, refl, sym, ap, ap₂, ◌∙◌}
use vole_zk.Field.{Field, ◌⊕◌}
use vole_zk.Field.Laws.{add-zero, add_comm, add_assoc, add_left_comm, add_interchange}
use vole_zk.ZkBool.Block.{
  Blocks, select, clear_lsb, with_lsb, xor_delta_if, WireOf, lsb-select, select-xor, add_twice,
  lsb-with_lsb,
}

xor_cancel : (x y : Bool) → y ≡ xor x y → x ≡ false
xor_cancel false y e = refl
xor_cancel true true e = e
xor_cancel true false e = sym e

module _ {ℓ} {A : Type ℓ} ⦃f : Field A⦄ ⦃b : Blocks A⦄ (delta : A) (odd : b.lsb delta ≡ true) where
  -- A key ends in 0.
  pub key_lsb : {a k : A} → WireOf delta a k → b.lsb k ≡ false
  key_lsb {a} {k} w =
      xor_cancel (b.lsb k) (b.lsb a)
        (ap b.lsb w.linked ∙ b.lsb-add k _ ∙ ap (xor (b.lsb k)) (lsb-select (b.lsb a) delta odd))

  hide_twice : (k p q r s : A) → ((k ⊕ (p ⊕ q)) ⊕ (r ⊕ s)) ⊕ q ≡ ((k ⊕ p) ⊕ r) ⊕ s
  hide_twice k p q r s = ap (λ t. t ⊕ q) regroup ∙ add_twice (((k ⊕ p) ⊕ r) ⊕ s) q
    where
      regroup : (k ⊕ (p ⊕ q)) ⊕ (r ⊕ s) ≡ (((k ⊕ p) ⊕ r) ⊕ s) ⊕ q
      regroup = simp (add_assoc, add_comm, add_left_comm)

  -- The prover sends the masking bit `v ^ lsb(a)`.
  pub masked-WireOf :
      {a k : A} (v : Bool)
      → WireOf delta a k
      → WireOf delta (with_lsb a v) (clear_lsb (xor_delta_if delta k (xor (b.lsb a) v)))
  masked-WireOf {a} {k} v w = record { linked = whole }
    where
      flipped : b.lsb (xor_delta_if delta k (xor (b.lsb a) v)) ≡ xor (b.lsb a) v
      flipped =
          unfold xor_delta_if in
          (b.lsb-add k (select (xor (b.lsb a) v) delta)
            ∙ ap₂ xor (key_lsb w) (lsb-select (xor (b.lsb a) v) delta odd))

      key :
          clear_lsb (xor_delta_if delta k (xor (b.lsb a) v))
          ≡ (k ⊕ (select (b.lsb a) delta ⊕ select v delta))
            ⊕ (select (b.lsb a) f.one ⊕ select v f.one)
      key =
          unfold clear_lsb in
          (ap (λ x. xor_delta_if delta k (xor (b.lsb a) v) ⊕ select x f.one) flipped
            ∙ ap₂ ◌⊕◌ (unfold xor_delta_if in ap (λ t. k ⊕ t) (select-xor (b.lsb a) v delta))
                (select-xor (b.lsb a) v f.one))

      whole :
          with_lsb a v
          ≡ clear_lsb (xor_delta_if delta k (xor (b.lsb a) v)) ⊕ select (b.lsb (with_lsb a v)) delta
      whole =
          rw (lsb-with_lsb a v, key)
            (unfold with_lsb clear_lsb in
              (ap (λ t. (t ⊕ select (b.lsb a) f.one) ⊕ select v f.one) w.linked
                ∙ sym (
                    hide_twice k (select (b.lsb a) delta) (select v delta) (select (b.lsb a) f.one)
                      (select v f.one))))

  pub xor-WireOf :
      {a k a' k' : A} → WireOf delta a k → WireOf delta a' k' → WireOf delta (a ⊕ a') (k ⊕ k')
  xor-WireOf {a} {k} {a'} {k'} w w' = record {
    linked =
        ap₂ ◌⊕◌ w.linked w'.linked
        ∙ add_interchange k _ k' _
        ∙ ap (λ t. (k ⊕ k') ⊕ t)
            (sym (ap (λ x. select x delta) (b.lsb-add a a') ∙ select-xor _ _ delta));
  }

  -- The prover flips the last bit, the verifier adds Δ with its last bit flipped.
  pub not-WireOf : {a k : A} → WireOf delta a k → WireOf delta (a ⊕ f.one) (k ⊕ (delta ⊕ f.one))
  not-WireOf {a} {k} w = record {
    linked =
        ap (λ t. t ⊕ f.one) w.linked
        ∙ sym (ap (λ t. (k ⊕ (delta ⊕ f.one)) ⊕ t) bit ∙ hide k (select (b.lsb a) delta));
  }
    where
      bit : select (b.lsb (a ⊕ f.one)) delta ≡ select (b.lsb a) delta ⊕ delta
      bit =
          ap (λ x. select x delta) (b.lsb-add a f.one ∙ ap (xor (b.lsb a)) b.lsb_one)
          ∙ select-xor (b.lsb a) true delta
          ∙ ap (λ t. select (b.lsb a) delta ⊕ t) (unfold select in refl)

      hide : (k s : A) → (k ⊕ (delta ⊕ f.one)) ⊕ (s ⊕ delta) ≡ (k ⊕ s) ⊕ f.one
      hide k s = regroup ∙ add_twice ((k ⊕ s) ⊕ f.one) delta
        where
          regroup : (k ⊕ (delta ⊕ f.one)) ⊕ (s ⊕ delta) ≡ (((k ⊕ s) ⊕ f.one) ⊕ delta) ⊕ delta
          regroup = simp (add_assoc, add_comm, add_left_comm)

  -- A block that was cleared is a wire of 0, on both sides.
  pub lsb-clear_lsb : (r : A) → b.lsb (clear_lsb r) ≡ false
  lsb-clear_lsb r =
      unfold clear_lsb in
      (b.lsb-add r (select (b.lsb r) f.one)
        ∙ ap (xor (b.lsb r)) (lsb-select (b.lsb r) f.one b.lsb_one)
        ∙ xor_self (b.lsb r))

  pub cleared-WireOf : (r : A) → WireOf delta (clear_lsb r) (clear_lsb r)
  cleared-WireOf r = record {
    linked = sym (
        ap (λ x. clear_lsb r ⊕ select x delta) (lsb-clear_lsb r)
        ∙ (unfold select in add-zero (clear_lsb r)));
  }
