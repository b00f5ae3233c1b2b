-- ===== src/Arith/Program/Plain.antt =====
-- What a program over `IntFp` means, with no proof system: its wires are field elements.
use vole_zk.Common.{ℕ, ◌+◌, ◌<◌, List, [], ◌∷◌, update, ◌≡◌}
use vole_zk.Field.{Field, ◌⊕◌, ◌⊗◌, ◌⊖◌}
use vole_zk.Arith.Program.{
  Gate, feed, constant, add, sub, negate, scale, mul, Stmt, assign, reveal, reveal_check,
  reveal_zero,
}

pub record Plain {ℓ} (A : Type ℓ) : Type ℓ where
  pub vals : ℕ → A
  pub size : ℕ
  pub shown : List A

module _ {ℓ} {A : Type ℓ} ⦃f : Field A⦄ where
  abbrev pub no_wires : Plain A
  no_wires = record { vals = λ _. f.zero; size = 0; shown = [] }

  abbrev pub value : Gate A → (ℕ → A) → A
  value (feed w) v = w
  value (constant a) v = a
  value (add i j) v = v i ⊕ v j
  value (sub i j) v = v i ⊖ v j
  value (negate i) v = f.neg (v i)
  value (scale i a) v = v i ⊗ a
  value (mul i j) v = v i ⊗ v j

  abbrev pub step_plain : Stmt A → Plain A → Plain A
  step_plain (assign g) s = record s {
    vals = update s.vals s.size (value g s.vals);
    size = s.size + 1;
  }
  step_plain (reveal i) s = record s { shown = s.vals i ∷ s.shown }
  step_plain (reveal_check i a) s = s
  step_plain (reveal_zero i) s = s

  abbrev pub run_plain : List (Stmt A) → Plain A → Plain A
  run_plain [] s = s
  run_plain (p ∷ ps) s = run_plain ps (step_plain p s)

  -- The operands of a gate exist.
  abbrev pub InScope : Gate A → ℕ → Type 0
  InScope (feed w) n = Unit {0}
  InScope (constant a) n = Unit {0}
  InScope (add i j) n = (i < n) × (j < n)
  InScope (sub i j) n = (i < n) × (j < n)
  InScope (negate i) n = i < n
  InScope (scale i a) n = i < n
  InScope (mul i j) n = (i < n) × (j < n)

  abbrev pub StmtHolds : Stmt A → Plain A → Type ℓ
  StmtHolds (assign g) s = InScope g s.size × Unit {ℓ}
  StmtHolds (reveal i) s = (i < s.size) × Unit {ℓ}
  StmtHolds (reveal_check i a) s = (i < s.size) × (s.vals i ≡ a)
  StmtHolds (reveal_zero i) s = (i < s.size) × (s.vals i ≡ f.zero)

  -- Every operand exists, and what the program asserts of its wires is true.
  abbrev pub Holds : List (Stmt A) → Plain A → Type ℓ
  Holds [] s = Unit {ℓ}
  Holds (p ∷ ps) s = StmtHolds p s × Holds ps (step_plain p s)
