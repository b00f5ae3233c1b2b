-- ===== src/ZkBool/Program/Plain.antt =====
-- What a Boolean circuit means, with no proof system.
use vole_zk.Common.{ℕ, ◌+◌, ◌<◌, Bool, true, false, ◌&&◌, xor, List, [], ◌∷◌, update}
use vole_zk.ZkBool.Engine.{Party, alice, bob, public}
use vole_zk.ZkBool.Program.{
  Gate, feed, constant, xor_gate, not_gate, and_gate, Stmt, assign, reveal,
}

-- `shown` are the bits opened to the verifier and `read` those opened to anyone, newest first.
pub record Plain : Type 0 where
  pub vals : ℕ → Bool
  pub size : ℕ
  pub shown : List Bool
  pub read : List Bool

abbrev pub no_wires : Plain
no_wires = record { vals = λ _. false; size = 0; shown = []; read = [] }

abbrev pub value : Gate → (ℕ → Bool) → Bool
value (feed x) v = x
value (constant x) v = x
value (xor_gate i j) v = xor (v i) (v j)
value (not_gate i) v = xor (v i) true
value (and_gate i j) v = v i && v j

abbrev pub opened_to : Party → Bool → List Bool → List Bool
opened_to alice x shown = shown
opened_to bob x shown = x ∷ shown
opened_to public x shown = x ∷ shown

abbrev pub step_plain : Stmt → Plain → Plain
step_plain (assign g) s = record s {
  vals = update s.vals s.size (value g s.vals);
  size = s.size + 1;
}
step_plain (reveal to i) s = record s {
  shown = opened_to to (s.vals i) s.shown;
  read = s.vals i ∷ s.read;
}

abbrev pub run_plain : List Stmt → Plain → Plain
run_plain [] s = s
run_plain (p ∷ ps) s = run_plain ps (step_plain p s)

-- The operands of a gate exist.
abbrev pub InScope : Gate → ℕ → Type 0
InScope (feed x) n = Unit {0}
InScope (constant x) n = Unit {0}
InScope (xor_gate i j) n = (i < n) × (j < n)
InScope (not_gate i) n = i < n
InScope (and_gate i j) n = (i < n) × (j < n)

abbrev pub StmtInScope : Stmt → ℕ → Type 0
StmtInScope (assign g) n = InScope g n
StmtInScope (reveal to i) n = i < n

abbrev pub AllInScope : List Stmt → Plain → Type 0
AllInScope [] s = Unit {0}
AllInScope (p ∷ ps) s = StmtInScope p s.size × AllInScope ps (step_plain p s)
