-- ===== src/Examples/Statements.antt =====
-- Statements on bits, and the draws of correlations, on blocks of one bit.
use vole_zk.Common.{
  ℕ, ◌+◌, ◌*◌, ◌<◌, Bool, true, false, [], ◌++◌, Option, some, ◌≡◌, ◌↔◌, ◌⊎◌, inr, refl, arith,
}
use vole_zk.Field.{◌⊕◌, ◌⊗◌}
use vole_zk.Field.Sum.{sum_to}
use vole_zk.Arith.Engine.{done, abort}
use vole_zk.ZkBool.Block.{select}
use vole_zk.ZkBool.Check.Exact.{shifted}
use vole_zk.ZkBool.Cot.{Prefetch, prefetch, Background, background, draw_cot}
use vole_zk.ZkBool.Cot.Modes.{PrefetchAt, BackgroundAt, cot_draws_lem}
use vole_zk.ZkBool.Poly.{
  PolyProof, PolySetup, batch_check_send, batch_check_recv, zkp_inner_prdt_eq_more_send,
  zkp_inner_prdt_eq_more_recv,
}
use vole_zk.ZkBool.Poly.Row.{Row}
use vole_zk.ZkBool.Poly.Check.{Paired, random_sum, bool_batch_check_exact}
use vole_zk.ZkBool.Poly.Push.{Valid, Taken, bool_inner_prdt_eq_more_lem}
use vole_zk.Examples.{bits}
use vole_zk.Examples.Bits.{one_bit, last_bits, ca, cb, ca-WireOf}

abbrev small_poly : PolySetup Bool
small_poly = record {
  buffer_sz = 2;
  threads = 2;
  chi = λ _ _. true;
  red = λ x y n. sum_to (λ i. x i ⊗ y i) n;
  red_lem = λ x y n. refl;
  pack = last_bits;
}

-- One product of true bits: 1 at Δ^2, and 0 at Δ and 1.
abbrev proof_of : Bool → ℕ → PolyProof Bool
proof_of sum num = record {
  num = num;
  buffer = λ _. sum;
  buffer1 = λ _. false;
  cots = 0;
  checks = 0;
}

one-Row : Row true (true, false) false true
unfolding ◌⊕◌ ◌⊗◌ select
one-Row = record { balanced = refl }

zero-Row : Row true (false, false) false false
unfolding ◌⊕◌ ◌⊗◌ select
zero-Row = record { balanced = refl }

Paired-false : Paired small_poly true (λ _. true) (proof_of true 1) (proof_of false 1)
Paired-false = record { num = refl; seed = refl; cots = refl; row = λ i _. one-Row }

-- A statement that is false, and a prover that adds 1 to its first block.
bool_batch_check_exact_example :
    let answer =
      batch_check_recv small_poly true cb
        (proof_of false 1)
        (shifted true false (batch_check_send small_poly ca (proof_of true 1)).1 ++ []) in
    let after : PolyProof Bool = record (proof_of false 0) { cots = 128; checks = 1 } in
    ((answer ≡ done (after, [])) ↔ (
      true
      ≡ false ⊗ true ⊕ random_sum small_poly true (λ _. true) (proof_of true 1) ⊗ (true ⊗ true)))
    × ((answer ≡ done (after, [])) ⊎ (answer ≡ abort))
bool_batch_check_exact_example =
    bool_batch_check_exact small_poly true (λ _. true) Paired-false (omega arith) ca cb
      (λ i _. ca-WireOf i) (omega arith) true false []

-- Full buffers of true statements.
full-Valid : Valid small_poly true (proof_of false 2) (proof_of false 2)
full-Valid = record {
  value = λ _. false;
  same = record { num = refl; seed = refl; cots = refl; row = λ i _. zero-Row };
  holds = λ i _. refl;
  fits = omega arith;
}

bool_inner_prdt_eq_more_lem_example :
    Taken small_poly true
      (zkp_inner_prdt_eq_more_send small_poly ca ca ca ca ca true true 3 2 (proof_of false 2))
      (zkp_inner_prdt_eq_more_recv small_poly true cb cb cb cb cb false false 3 2
        (proof_of false 2))
bool_inner_prdt_eq_more_lem_example =
    bool_inner_prdt_eq_more_lem small_poly true ca cb ca-WireOf (omega arith) (omega arith)
      full-Valid ca ca cb cb 3 (λ i _. ca-WireOf i) (λ i _. ca-WireOf i) ca ca cb cb 2
      (λ i _. ca-WireOf i) (λ i _. ca-WireOf i) true true false false (ca-WireOf 0) (ca-WireOf 0)
      refl

-- The stream 0, 1, 2, ...: a buffer of two chunks of three, and slots of four.
abbrev at_start : Prefetch ℕ
at_start = record { buf = λ _. 0; pos = 0; have = 0; produced = 0 }

abbrev no_slot : Background ℕ
no_slot = record { slot = λ _. 0; held = false; off = 0; taken = 0 }

abbrev slots : ℕ → Option (ℕ → ℕ)
slots r = some (λ i. r * 4 + i)

cot_draws_lem_example :
    ((o : (ℕ → ℕ) × Prefetch ℕ) × (draw_cot (prefetch (λ i. i) 3 7) (λ _. 0) 9 at_start ≡ done o)
      × PrefetchAt (λ i. i) o.1 9
      × ((j : ℕ) → j < 9 → o.0 j ≡ 0 + j))
    × ((o : (ℕ → ℕ) × Background ℕ) × (draw_cot (background slots 4) (λ _. 0) 9 no_slot ≡ done o)
        × BackgroundAt slots 4 (λ i. i) o.1 9
        × ((j : ℕ) → j < 9 → o.0 j ≡ 0 + j))
cot_draws_lem_example =
    cot_draws_lem (λ i. i) 3 7 (omega arith) slots 4 (omega arith)
      (λ r. ((λ i. r * 4 + i), refl, λ i _. refl)) (λ _. 0) 9 0 at_start no_slot
      (record { within = omega arith; count = omega arith; holds = λ i lt. absurd (omega arith) })
      (inr (refl, omega arith))
