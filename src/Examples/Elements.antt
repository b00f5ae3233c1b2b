-- ===== src/Examples/Elements.antt =====
-- The f2k operations on blocks of one bit.
use vole_zk.Common.{ℕ, Bool, true, false, [], ◌++◌, ◌≡◌, ◌↔◌, ◌⊎◌, refl, arith}
use vole_zk.Field.{◌⊕◌, ◌⊗◌}
use vole_zk.Field.Sum.{sum_to}
use vole_zk.Arith.Wire.{Auth, Matches}
use vole_zk.Arith.Engine.{done, abort}
use vole_zk.ZkBool.Check.Exact.{shifted}
use vole_zk.ZkBool.F2k.{
  F2k, F2kSetup, fresh, f2k_check_send, f2k_check_recv, f2k_mul_send, f2k_mul_recv,
}
use vole_zk.ZkBool.F2k.Exact.{Linked, SameProducts, output, weighted, checked, f2k_check_exact}
use vole_zk.ZkBool.F2k.Sync.{Answered, fresh-Running}
use vole_zk.ZkBool.F2k.Gates.{f2k_mul_lem}
use vole_zk.Examples.{bits}
use vole_zk.Examples.Bits.{one_bit, last_bits, ca, cb, ca-WireOf}
use vole_zk.ZkBool.Prdt.{
  RamPolyPrdt, PrdtSetup, f2k_mul_v, prdt_coeffs, prdt_value, prdt_check_send, prdt_check_recv,
  poly_prdt_send, poly_prdt_recv,
}
use vole_zk.ZkBool.Prdt.Coeffs.{at_delta, power}
use vole_zk.ZkBool.Prdt.Row.{prdt_coeffs_lem}
use vole_zk.ZkBool.Prdt.Check.{SamePrdts, all_shifted, total_error, prdt_check_exact}
use vole_zk.ZkBool.Prdt.Push.{Held, poly_prdt_lem}

dot_product : (x y : ℕ → Bool) (n : ℕ) → sum_to (λ i. x i ⊗ y i) n ≡ sum_to (λ i. x i ⊗ y i) n
dot_product x y n = refl

abbrev small_f2k : F2kSetup Bool
small_f2k = record {
  buffer_sz = 2;
  chi = λ _ _. true;
  red = λ x y n. sum_to (λ i. x i ⊗ y i) n;
  red_lem = dot_product;
  pack = last_bits;
}

-- A wire of value 1 with the key 0, under the Δ 1.
abbrev pub one_wire : Auth Bool
one_wire = record { val = true; mac = true }

abbrev pub zero_key : Auth Bool
zero_key = record { val = false; mac = false }

pub one_wire-Linked : Linked true one_wire zero_key
unfolding ◌⊕◌ ◌⊗◌
one_wire-Linked = record { linked = refl }

pub one_wire-Matches : Matches true one_wire zero_key
unfolding ◌⊕◌ ◌⊗◌
one_wire-Matches = record { linked = refl; keyed = refl }

-- One product in the buffers.
abbrev holding : Auth Bool → F2k Bool
holding x = record (fresh 0 false) {
  ready = true;
  check_cnt = 1;
  authval_cnt = 1;
  left = λ _. x;
  right = λ _. x;
  auth_buffer = λ _. x;
}

one_product : SameProducts true (holding one_wire) (holding zero_key)
unfolding fresh
one_product = record {
  cnt = refl;
  seed = refl;
  lefts = λ i lt. one_wire-Linked;
  rights = λ i lt. one_wire-Linked;
  outs = λ i lt. one_wire-Linked;
}

abbrev ones : ℕ → Auth Bool
ones i = one_wire

abbrev zeros : ℕ → Auth Bool
zeros i = zero_key

f2k_check_exact_example :
    let s = holding one_wire in
    let t = holding zero_key in
    let answer =
      f2k_check_recv small_f2k zeros true cb t
        (shifted false true (f2k_check_send small_f2k ones ca s).1 ++ []) in
    let after = checked small_f2k true ones zeros one_product in
    ((answer ≡ done (after, [])) ↔ (
      false ⊕ weighted small_f2k s (λ i. (output s i).val) ⊗ true ⊗ true
      ≡ true ⊗ true ⊕ weighted small_f2k s (λ i. (s.left i).val ⊗ (s.right i).val) ⊗ true ⊗ true))
    × ((answer ≡ done (after, [])) ⊎ (answer ≡ abort))
f2k_check_exact_example =
    f2k_check_exact small_f2k true ones zeros one_product ca cb (λ i _. ca-WireOf i) false true []

f2k_mul_lem_example :
    let (s', sent, wire) = f2k_mul_send small_f2k ones ca (fresh 0 false) one_wire one_wire in
    Answered small_f2k true s' wire []
      (f2k_mul_recv small_f2k zeros cb true (fresh 0 true) zero_key zero_key (sent ++ []))
    × (wire.val ≡ true ⊗ true)
f2k_mul_lem_example =
    f2k_mul_lem small_f2k true ones zeros (λ i. one_wire-Linked) ca cb ca-WireOf (fresh 0 false)
      (fresh 0 true) [] (omega arith)
      (fresh-Running small_f2k true ones zeros (λ i. one_wire-Linked) 0 false true) one_wire-Matches
      one_wire-Matches

abbrev small_prdt : PrdtSetup Bool
small_prdt = record {
  buffer_sz = 1;
  chi = λ _ _. true;
  red = λ x y n. sum_to (λ i. x i ⊗ y i) n;
  red_lem = dot_product;
}

-- `n` products whose coefficients are all 0, with the verifier's values `v`.
abbrev filled : ℕ → Bool → RamPolyPrdt Bool
filled n v = record { num = n; buffer = λ j i. v; checks = 0 }

abbrev yes : ℕ → Bool
yes i = true

abbrev no : ℕ → Bool
no i = false

prdt_coeffs_lem_example :
    at_delta true (prdt_coeffs 3 yes yes true) 5
    ≡ prdt_value true 3 no false ⊕ (f2k_mul_v yes 2 ⊕ true) ⊗ power true 3
prdt_coeffs_lem_example =
    prdt_coeffs_lem true yes yes no 0 true false true (omega arith) (λ i lt. one_wire-Linked.linked)
      one_wire-Linked.linked

-- One product, and the verifier's value is off by one.
off_by_one : SamePrdts true yes (filled 1 false) (filled 1 true)
unfolding sum_to power ◌⊕◌ ◌⊗◌
off_by_one = record { num = refl; seed = refl; row = λ i lt. refl }

prdt_check_exact_example :
    let answer =
      prdt_check_recv small_prdt true
        (filled 1 true)
        (all_shifted yes (prdt_check_send small_prdt (filled 1 false)).1 ++ []) in
    let after = record (filled 1 true) { num = 0; checks = 1 } in
    ((answer ≡ done (after, []))
      ↔ (at_delta true yes 5 ≡ total_error small_prdt true yes off_by_one))
    × ((answer ≡ done (after, [])) ⊎ (answer ≡ abort))
prdt_check_exact_example = prdt_check_exact small_prdt true yes off_by_one yes [] (omega arith)

-- The buffer is full, so it is checked first.
all_right : SamePrdts true no (filled 1 false) (filled 1 false)
unfolding sum_to power ◌⊕◌ ◌⊗◌
all_right = record { num = refl; seed = refl; row = λ i lt. refl }

three_ones : true ≡ f2k_mul_v yes 2 ⊗ true ⊕ false
unfolding f2k_mul_v ◌⊕◌ ◌⊗◌
three_ones = refl

poly_prdt_lem_example :
    Held small_prdt true
      (poly_prdt_send small_prdt 3 yes yes true (filled 1 false))
      (poly_prdt_recv small_prdt true 3 no false (filled 1 false))
poly_prdt_lem_example =
    poly_prdt_lem small_prdt true (filled 1 false) (filled 1 false) yes yes no 0 true false
      (omega arith) all_right (omega arith) (λ i lt. one_wire-Linked.linked) three_ones
