-- ===== src/Pipe/Index.antt =====
-- Indices of a ring of `n` slots: those of two counts less than `n` apart differ.
use vole_zk.Common.{
  ℕ, suc, ◌+◌, ◌*◌, ◌/◌, ◌%◌, ◌≤◌, ◌<◌, ◌≡◌, ◌≢◌, ◌∙◌, ap, inl, inr, Bool-cases, ltb, ltb→lt,
  ltb-false, arith,
}
use native.Mathlib.Nat as Nat
use native.Mathlib.Nat.{mod-add-div, mod-add-mod, mod-lt}

gap : (n q q' r a b : ℕ) → r + n * q ≡ a → r + n * q' ≡ b → a < b → a + n ≤ b
gap n q q' r a b e e' h = elim (Bool-cases (ltb q q')) [
  | inl p ↦ omega (arith, Nat.mul-le-mul_left {m = suc q} {n = q'} n (ltb→lt q q' p))
  | inr p ↦ absurd (omega (arith, Nat.mul-le-mul_left {m = q'} {n = q} n (ltb-false q q' p)))
]

pub index_ne : (n a b : ℕ) → a < b → b < a + n → a % n ≢ b % n
index_ne n a b h k e = omega (
  arith,
  gap n (a / n) (b / n) (a % n) a b (mod-add-div a n)
      (ap (λ r. r + n * (b / n)) e ∙ mod-add-div b n) h,
)

pub next_index : (n a : ℕ) → (a % n + 1) % n ≡ (a + 1) % n
next_index n a = mod-add-mod a n 1
