-- ===== src/ZkBool/Block.antt =====
-- The blocks of emp-zk-bool: elements of GF(2^128) whose last bit is, at the prover, the bit that
-- is authenticated.
pub mod Laws
use vole_zk.Common.{
  Bool, true, false, if◌then◌else◌, ◌&&◌, xor, xor_assoc, xor_comm, xor_self, xor-false, ◌≡◌, refl,
  sym, ap, ap₂, ◌∙◌,
}
use vole_zk.Field.{Field, ◌⊕◌, ◌⊗◌}
use vole_zk.Field.Laws.{
  add-zero, zero-add, add_assoc, add_comm, ring_laws, zero-mul, one-mul, add_cancel, mul-zero,
  mul-one,
}

-- The sum of the field is the XOR of the bits, and `makeBlock(0, 1)` is one.
pub record Blocks {ℓ} (A : Type ℓ) ⦃f : Field A⦄ : Type ℓ where
  pub lsb : A → Bool
  pub add_self : (a : A) → a ⊕ a ≡ f.zero
  pub lsb-add : (a b : A) → lsb (a ⊕ b) ≡ xor (lsb a) (lsb b)
  pub lsb_one : lsb f.one ≡ true

module _ {ℓ} {A : Type ℓ} ⦃f : Field A⦄ ⦃b : Blocks A⦄ where
  -- `getLSB`
  abbrev pub get_lsb : A → Bool
  get_lsb = b.lsb

  -- `select_mask[x] & r`
  unfoldable pub select : Bool → A → A
  select x r = if x then r else f.zero

  -- The mask that `&` takes off is the last bit.
  unfoldable pub clear_lsb : A → A
  unfolding select
  clear_lsb r = r ⊕ select (b.lsb r) f.one

  unfoldable pub with_lsb : A → Bool → A
  unfolding clear_lsb select
  with_lsb r v = clear_lsb r ⊕ select v f.one

  unfoldable pub xor_delta_if : A → A → Bool → A
  unfolding select
  xor_delta_if delta r cond = r ⊕ select cond delta

  -- What the parties hold of one bit: the MAC, whose last bit is the bit `x`, is the key plus x Δ.
  pub record WireOf (delta a k : A) : Type ℓ where
    pub linked : a ≡ k ⊕ select (b.lsb a) delta

  lsb_self : (a : A) → b.lsb (a ⊕ a) ≡ false
  lsb_self a = b.lsb-add a a ∙ xor_self (b.lsb a)

  pub lsb-select : (x : Bool) (r : A) → b.lsb r ≡ true → b.lsb (select x r) ≡ x
  unfolding select
  lsb-select true r h = h
  lsb-select false r h = ap b.lsb (sym (b.add_self r)) ∙ lsb_self r

  pub select-xor : (x y : Bool) (r : A) → select (xor x y) r ≡ select x r ⊕ select y r
  unfolding select
  select-xor true true r = sym (b.add_self r)
  select-xor true false r = sym (add-zero r)
  select-xor false y r = sym (zero-add _)

  pub add_twice : (a r : A) → (a ⊕ r) ⊕ r ≡ a
  add_twice a r = add_assoc a r r ∙ ap (λ t. a ⊕ t) (b.add_self r) ∙ add-zero a

  -- Moving a term to the other side.
  pub add_move : (a r s : A) → a ≡ r ⊕ s → a ⊕ s ≡ r
  add_move a r s e = ap (λ t. t ⊕ s) e ∙ add_twice r s

  pub lsb-with_lsb : (r : A) (v : Bool) → b.lsb (with_lsb r v) ≡ v
  unfolding with_lsb clear_lsb
  lsb-with_lsb r v =
      b.lsb-add _ _
      ∙ ap₂ xor (b.lsb-add _ _ ∙ ap (xor (b.lsb r)) (lsb-select _ _ b.lsb_one) ∙ xor_self (b.lsb r))
          (lsb-select v _ b.lsb_one)

  pub select-mul : (x : Bool) (r s : A) → select x r ⊗ s ≡ select x (r ⊗ s)
  unfolding select
  select-mul true r s = refl
  select-mul false r s = zero-mul s
