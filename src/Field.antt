-- ===== src/Field.antt =====
-- The field that the protocol code is generic in: the template parameter `T` of the
-- multi-verifier engine, and the F_p of the vole library that the arithmetic engine computes in.
pub mod Laws
pub mod Sum
use vole_zk.Common.{◌≡◌, ◌↔◌, Bool, true}

pub record Field {ℓ} (A : Type ℓ) : Type ℓ where
  pub zero : A
  pub one : A
  pub add : A → A → A
  pub mul : A → A → A
  pub neg : A → A
  pub beq : A → A → Bool
  pub add_assoc : (a b c : A) → add (add a b) c ≡ add a (add b c)
  pub add_comm : (a b : A) → add a b ≡ add b a
  pub add-zero : (a : A) → add a zero ≡ a
  pub add-neg : (a : A) → add a (neg a) ≡ zero
  pub mul_assoc : (a b c : A) → mul (mul a b) c ≡ mul a (mul b c)
  pub mul_comm : (a b : A) → mul a b ≡ mul b a
  pub mul-one : (a : A) → mul a one ≡ a
  pub mul-add : (a b c : A) → mul a (add b c) ≡ add (mul a b) (mul a c)
  pub beq_iff : (a b : A) → (beq a b ≡ true) ↔ (a ≡ b)

module _ {ℓ} {A : Type ℓ} ⦃f : Field A⦄ where
  infixl 65 ◌⊕◌ ◌⊖◌
  infixl 70 ◌⊗◌
  unfoldable pub ◌⊕◌ : A → A → A
  a ⊕ b = f.add a b

  unfoldable pub ◌⊗◌ : A → A → A
  a ⊗ b = f.mul a b

  -- `PR - b` is the word that stands for the opposite of `b`.
  unfoldable pub ◌⊖◌ : A → A → A
  a ⊖ b = f.add a (f.neg b)
