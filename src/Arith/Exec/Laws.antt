-- ===== src/Arith/Exec/Laws.antt =====
-- The gates of the two parties keep MAC = v Δ + key, on the value that the gate is for.
use vole_zk.Common.{Bool-cases, ◌≡◌, inl, inr, refl, sym, ap, ap₂, ◌∙◌, if◌then◌else◌}
use vole_zk.Field.{Field, ◌⊕◌, ◌⊗◌, ◌⊖◌}
use vole_zk.Field.Laws.{add_comm, add_assoc, zero-add, zero-mul, mul_comm, sub_self}
use vole_zk.Arith.Wire.{Auth, Matches}
use vole_zk.Arith.Wire.Laws.{linked_add, linked_sub, linked_mul}
use vole_zk.Arith.Exec.Prv
use vole_zk.Arith.Exec.Ver

module _ {ℓ} {A : Type ℓ} ⦃f : Field A⦄ where
  zero-sub : (a : A) → f.zero ⊖ a ≡ f.neg a
  unfolding ◌⊖◌ ◌⊕◌
  zero-sub a = zero-add (f.neg a)

  neg-zero : f.neg f.zero ≡ f.zero
  neg-zero = sym (zero-sub f.zero) ∙ sub_self f.zero

  neg-linked : (d x k : A) → f.neg (x ⊗ d ⊕ k) ≡ f.neg x ⊗ d ⊕ f.neg k
  neg-linked d x k =
      sym (zero-sub _)
      ∙ ap (λ t. t ⊖ (x ⊗ d ⊕ k)) (sym (zero-add f.zero) ∙ ap (λ t. t ⊕ f.zero) (sym (zero-mul d)))
      ∙ linked_sub d f.zero x f.zero k
      ∙ ap₂ (λ s t. s ⊗ d ⊕ t) (zero-sub x) (zero-sub k)

  add-neg : (a : A) → f.neg a ⊕ a ≡ f.zero
  unfolding ◌⊕◌
  add-neg a = f.add_comm (f.neg a) a ∙ f.add-neg a

  -- The verifier's test `k == 0` only picks the word 0 in place of PR.
  neg_key : (k : A) → (if f.beq k f.zero then f.zero else f.neg k) ≡ f.neg k
  neg_key k = elim (Bool-cases (f.beq k f.zero)) [
    | inl e ↦ rw (e, (f.beq_iff k f.zero).0 e) (sym neg-zero)
    | inr e ↦ rw e
  ]

  module _ {d : A} {a b k l : Auth A} (p : Matches d a k) (q : Matches d b l) where
    pub add_gate-Matches : Matches d (Prv.add_gate a b) (Ver.add_gate k l)
    unfolding Prv.add_gate Ver.add_gate
    add_gate-Matches = record {
      linked = ap₂ ◌⊕◌ p.linked q.linked ∙ linked_add d a.val b.val k.mac l.mac;
      keyed = refl;
    }

    pub sub_gate-Matches : Matches d (Prv.sub_gate a b) (Ver.sub_gate k l)
    unfolding Prv.sub_gate Ver.sub_gate
    sub_gate-Matches = record {
      linked = ap₂ ◌⊖◌ p.linked q.linked ∙ linked_sub d a.val b.val k.mac l.mac;
      keyed = refl;
    }

  module _ {d : A} {a k : Auth A} (p : Matches d a k) where
    pub neg_gate-Matches : Matches d (Prv.neg_gate a) (Ver.neg_gate k)
    unfolding Prv.neg_gate Ver.neg_gate
    neg_gate-Matches = record {
      linked =
          ap f.neg p.linked
          ∙ neg-linked d a.val k.mac
          ∙ ap (λ t. f.neg a.val ⊗ d ⊕ t) (sym (neg_key k.mac));
      keyed = refl;
    }

    pub mul_const_gate-Matches :
        (c : A) → Matches d (Prv.mul_const_gate a c) (Ver.mul_const_gate k c)
    unfolding Prv.mul_const_gate Ver.mul_const_gate
    mul_const_gate-Matches c = record {
      linked = ap (λ t. t ⊗ c) p.linked ∙ linked_mul d a.val k.mac c;
      keyed = refl;
    }

  pub pub_label-Matches :
      (d pub_mac c : A) → Matches d (Prv.pub_label pub_mac c) (Ver.pub_label d pub_mac c)
  unfolding Prv.pub_label Ver.pub_label
  pub_label-Matches d pub_mac c = record {
    linked = sym (
        sym (add_assoc _ _ _)
        ∙ ap (λ t. t ⊕ pub_mac)
            (add_comm _ _ ∙ ap (λ t. f.neg (d ⊗ c) ⊕ t) (mul_comm c d) ∙ add-neg (d ⊗ c))
        ∙ zero-add pub_mac);
    keyed = refl;
  }
