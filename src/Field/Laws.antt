-- ===== src/Field/Laws.antt =====
-- The ring laws over the operators, and the consequences that the protocol proofs use.
use vole_zk.Common.{◌≡◌, sym, ap, ◌∙◌}
use vole_zk.Field.{Field, ◌⊕◌, ◌⊗◌, ◌⊖◌}

module _ {ℓ} {A : Type ℓ} ⦃f : Field A⦄ where
  pub add_assoc : (a b c : A) → (a ⊕ b) ⊕ c ≡ a ⊕ (b ⊕ c)
  unfolding ◌⊕◌
  add_assoc = f.add_assoc

  pub add_comm : (a b : A) → a ⊕ b ≡ b ⊕ a
  unfolding ◌⊕◌
  add_comm = f.add_comm

  pub add-zero : (a : A) → a ⊕ f.zero ≡ a
  unfolding ◌⊕◌
  add-zero = f.add-zero

  pub mul_assoc : (a b c : A) → (a ⊗ b) ⊗ c ≡ a ⊗ (b ⊗ c)
  unfolding ◌⊗◌
  mul_assoc = f.mul_assoc

  pub mul_comm : (a b : A) → a ⊗ b ≡ b ⊗ a
  unfolding ◌⊗◌
  mul_comm = f.mul_comm

  pub mul-one : (a : A) → a ⊗ f.one ≡ a
  unfolding ◌⊗◌
  mul-one = f.mul-one

  pub mul-add : (a b c : A) → a ⊗ (b ⊕ c) ≡ a ⊗ b ⊕ a ⊗ c
  unfolding ◌⊕◌ ◌⊗◌
  mul-add = f.mul-add

  pub zero-add : (a : A) → f.zero ⊕ a ≡ a
  zero-add a = add_comm _ _ ∙ add-zero a

  pub one-mul : (a : A) → f.one ⊗ a ≡ a
  one-mul a = mul_comm _ _ ∙ mul-one a

  pub add_left_comm : (a b c : A) → a ⊕ (b ⊕ c) ≡ b ⊕ (a ⊕ c)
  add_left_comm a b c = sym (add_assoc a b c) ∙ rw (add_comm a b) (add_assoc b a c)

  pub mul_left_comm : (a b c : A) → a ⊗ (b ⊗ c) ≡ b ⊗ (a ⊗ c)
  mul_left_comm a b c = sym (mul_assoc a b c) ∙ rw (mul_comm a b) (mul_assoc b a c)

  pub add-mul : (a b c : A) → (a ⊕ b) ⊗ c ≡ a ⊗ c ⊕ b ⊗ c
  add-mul a b c = mul_comm _ _ ∙ mul-add c a b ∙ rw (mul_comm c a, mul_comm c b)

  pub sub-add : (a b : A) → (a ⊖ b) ⊕ b ≡ a
  unfolding ◌⊕◌ ◌⊖◌
  sub-add a b =
      f.add_assoc a (f.neg b) b ∙ ap (f.add a) (f.add_comm (f.neg b) b ∙ f.add-neg b) ∙ f.add-zero a

  add-sub : (a b : A) → (a ⊕ b) ⊖ b ≡ a
  unfolding ◌⊕◌ ◌⊖◌
  add-sub a b = f.add_assoc a b (f.neg b) ∙ ap (f.add a) (f.add-neg b) ∙ f.add-zero a

  pub add_cancel : (a b c : A) → a ⊕ c ≡ b ⊕ c → a ≡ b
  add_cancel a b c h = sym (add-sub a c) ∙ ap (λ t. t ⊖ c) h ∙ add-sub b c

  pub sub_self : (a : A) → a ⊖ a ≡ f.zero
  unfolding ◌⊖◌
  sub_self = f.add-neg

  pub neg-add : (a : A) → f.neg a ⊕ a ≡ f.zero
  unfolding ◌⊕◌
  neg-add a = f.add_comm (f.neg a) a ∙ f.add-neg a

  pub eq-sub_of_add : (a b c : A) → c ⊕ b ≡ a → c ≡ a ⊖ b
  eq-sub_of_add a b c h = sym (add-sub c b) ∙ ap (λ t. t ⊖ b) h

  -- With the empty sum on one side: x · 0 = 0.
  pub mul-zero : (a : A) → a ⊗ f.zero ≡ f.zero
  mul-zero a =
      add_cancel _ _ (a ⊗ f.zero)
        (sym (mul-add a f.zero f.zero) ∙ ap (λ t. a ⊗ t) (add-zero f.zero) ∙ sym (zero-add _))

  pub zero-mul : (a : A) → f.zero ⊗ a ≡ f.zero
  zero-mul a = mul_comm _ _ ∙ mul-zero a

  pub add_interchange : (a b c d : A) → (a ⊕ b) ⊕ (c ⊕ d) ≡ (a ⊕ c) ⊕ (b ⊕ d)
  add_interchange a b c d = simp (add_assoc, add_left_comm)

-- Sorts both sides of an equation between polynomials with no subtraction.
pub ruleset ring_laws =
    (mul-add, add-mul, mul_assoc, mul_comm, mul_left_comm, add_assoc, add_comm, add_left_comm)
