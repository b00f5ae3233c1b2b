-- ===== src/Examples/Lists.antt =====
-- The lists of the permutation proof on blocks of one bit.
use vole_zk.Common.{ℕ, ◌+◌, ◌/◌, ◌<◌, Bool, true, false, [], ◌++◌, ◌≡◌, ◌↔◌, ◌⊎◌, refl, arith}
use vole_zk.Field.{◌⊕◌, ◌⊗◌}
use vole_zk.Field.Sum.{sum_to}
use vole_zk.Arith.Wire.{Auth}
use vole_zk.Arith.Engine.{done, abort}
use vole_zk.ZkBool.Check.Exact.{shifted}
use vole_zk.ZkBool.Perm.{Vec, fold_flat, open_eq_send, open_eq_recv}
use vole_zk.ZkBool.Perm.Fold.{MatchedVec, fold_flat_lem}
use vole_zk.ZkBool.Perm.Open.{open_eq_exact}
use vole_zk.Examples.{bits}
use vole_zk.Examples.Bits.{one_bit}
use vole_zk.Examples.Elements.{one_wire, zero_key, one_wire-Matches}

abbrev filled : ℕ → Auth Bool → Vec (Auth Bool)
filled n x = record { size = n; slot = λ i. x }

matching : (n : ℕ) → MatchedVec true (filled n one_wire) (filled n zero_key)
matching n = record { size = refl; wires = λ i lt. one_wire-Matches }

abbrev coefficients : ℕ → Bool
coefficients i = true

-- Two elements of two wires each, and a wire that is left over, after one element.
fold_flat_lem_example :
    let folded = fold_flat 2 coefficients (filled 5 one_wire) (filled 1 one_wire) in
    MatchedVec true folded (fold_flat 2 coefficients (filled 5 zero_key) (filled 1 zero_key))
    × (folded.size ≡ 1 + 5 / 2)
    × ((q : ℕ)
        → q < 5 / 2
        → (folded.slot (1 + q)).val ≡ sum_to (λ j. coefficients j ⊗ one_wire.val) 2)
fold_flat_lem_example = fold_flat_lem true coefficients 2 (omega arith) (matching 5) (matching 1)

open_eq_exact_example :
    let answer =
      open_eq_recv zero_key zero_key (shifted false true (open_eq_send one_wire one_wire) ++ []) in
    ((answer ≡ done []) ↔ (true ⊗ true ⊕ false ≡ true ⊗ true ⊕ true))
    × ((answer ≡ done []) ⊎ (answer ≡ abort))
open_eq_exact_example = open_eq_exact true false true [] one_wire-Matches one_wire-Matches
