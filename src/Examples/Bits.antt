-- ===== src/Examples/Bits.antt =====
-- The Boolean engine and its statements on blocks of one bit.
use vole_zk.Common.{
  ℕ, some, zero, suc, ◌+◌, ◌*◌, ◌%◌, ◌^◌, ◌<◌, ◌==◌, Bool, true, false, ◌&&◌, bit_value,
  if◌then◌else◌, xor, xor_self, List, [], ◌∷◌, ◌++◌, ◌≡◌, ◌↔◌, ◌⊎◌, refl, ◌∙◌, arith,
}
use vole_zk.Field.{◌⊕◌, ◌⊗◌}
use vole_zk.Field.Sum.{sum_to}
use vole_zk.Arith.Engine.{done, abort}
use vole_zk.ZkBool.Block.{Blocks, select, WireOf}
use vole_zk.ZkBool.Outside.{InnerProduct, Packing, word_of}
use vole_zk.ZkBool.Check.{Message, bit, batch_sum}
use vole_zk.ZkBool.Check.Sum.{batch_sum_lem}
use vole_zk.ZkBool.Check.Exact.{shifted}
use vole_zk.ZkBool.Engine.{Engine, Setup, start, public}
use vole_zk.ZkBool.Engine.Prv.{check_send}
use vole_zk.ZkBool.Engine.Ver.{check_recv}
use vole_zk.ZkBool.Engine.Exact.{SameTriples, claimed, product, random_sum, and_check_exact}
use vole_zk.ZkBool.Program.{Stmt, assign, reveal, feed, and_gate, xor_gate, not_gate, constant}
use vole_zk.ZkBool.Program.Plain.{no_wires, run_plain}
use vole_zk.ZkBool.Program.Complete.{prove, verify, bool_verify-prove}
use vole_zk.ZkBool.Vector.{and_blocks_send, blocks_send, and_blocks_recv, blocks_recv}
use vole_zk.ZkBool.Vector.Prover.{and_blocks_send_lem}
use vole_zk.ZkBool.Vector.Verifier.{and_blocks_recv_lem}
use vole_zk.Examples.{bits, both, same_bit}

pub field_xor : (a b : Bool) → a ⊕ b ≡ xor a b
unfolding ◌⊕◌
field_xor a b = refl

pub one_bit_self : (a : Bool) → a ⊕ a ≡ false
unfolding ◌⊕◌
one_bit_self = xor_self

instance abbrev pub one_bit : Blocks Bool
one_bit = record { lsb = λ a. a; add_self = one_bit_self; lsb-add = field_xor; lsb_one = refl }

abbrev pub sum_product : InnerProduct Bool Bool
sum_product = record {
  nothing = false;
  combine = ◌⊕◌;
  no_red = λ chi g n. sum_to (λ i. g i ⊗ chi i) n;
  reduce = λ x. x;
  reduce_nothing = refl;
  reduce-combine = λ x y. refl;
  reduce-no_red = λ chi g n. refl;
}

word_parity : (x : ℕ → Bool) (n : ℕ) → word_of x (suc n) % 2 ≡ bit_value (x 0)
unfolding word_of
word_parity x zero = ground arith
word_parity x (suc n) =
    even (word_of x (suc n)) (bit_value (x (suc n))) (2 ^ n) (2 ^ suc n) (omega arith)
    ∙ word_parity x n
  where
    double : (v p : ℕ) → v * (p * 2) ≡ v * p * 2
    double v p = grind arith

    even : (w v p q : ℕ) → q ≡ p * 2 → (w + v * q) % 2 ≡ w % 2
    even w v p q e = rw e (omega (arith, double v p))

low_bit : (w : ℕ) (v : Bool) → w % 2 ≡ bit_value v → (w % 2 == 1) ≡ v
low_bit w true e = ground arith
low_bit w false e = ground arith

pub both_bits : (x y : ℕ → Bool) → ((i : ℕ) → i < 128 → x i ≡ y i) → x 0 ≡ y 0
both_bits x y h = h 0 (omega arith)

pub first_bit : (x : ℕ → Bool) (d : Bool) → select (x 0) d ≡ (word_of x 64 % 2 == 1) ⊗ d
unfolding select ◌⊗◌
first_bit x d = rw (low_bit (word_of x 64) (x 0) (word_parity x 63)) (one (x 0) d)
  where
    one : (v d : Bool) → (if v then d else false) ≡ both v d
    one true d = refl
    one false d = refl

-- The sum with X = 0: the block of the last bit.
abbrev pub last_bits : Packing Bool
last_bits = record {
  packing = λ g. g 0;
  make_block = λ high low. low % 2 == 1;
  packing_reads = both_bits;
  packing-add = λ g h. refl;
  packing_bits = first_bit;
}

abbrev pub small_bool : Setup Bool Bool
small_bool = record {
  check_sz = 2;
  threads = 2;
  chi = λ _ _. true;
  inner = sum_product;
  pack = last_bits;
}

-- The prover's correlations are 1, the verifier's 0; Δ is 1.
abbrev pub ca : ℕ → Bool
ca i = true

abbrev pub cb : ℕ → Bool
cb i = false

pub ca-WireOf : (i : ℕ) → WireOf true (ca i) (cb i)
unfolding ◌⊕◌ select
ca-WireOf i = record { linked = refl }

abbrev same_bits : List Bool → List Bool → Bool
same_bits [] [] = true
same_bits (x ∷ xs) (y ∷ ys) = same_bit x y && same_bits xs ys
same_bits xs ys = false

same_bits_self : (xs : List Bool) → same_bits xs xs ≡ true
same_bits_self [] = refl
same_bits_self (true ∷ xs) = same_bits_self xs
same_bits_self (false ∷ xs) = same_bits_self xs

abbrev circuit : List Stmt
circuit =
    assign (feed true)
    ∷ assign (constant true)
    ∷ assign (and_gate 0 1)
    ∷ assign (and_gate 0 2)
    ∷ assign (not_gate 3)
    ∷ assign (xor_gate 2 4)
    ∷ assign (and_gate 5 2)
    ∷ reveal public 6
    ∷ reveal public 4
    ∷ []

bool_verify-prove_example :
    (o : List (Message Bool) × List Bool) × (prove small_bool
        (true, false)
        (λ x. x)
        same_bits
        ca
        false
        circuit
      ≡ done o)
    × (verify small_bool (true, false) (λ x. x) same_bits true cb false circuit o.0 o.1
        ≡ done (run_plain circuit no_wires).shown)
bool_verify-prove_example =
    bool_verify-prove small_bool (true, false) (λ x. x) same_bits true refl ca cb ca-WireOf
      (omega arith) (omega arith) same_bits_self circuit false false (omega arith)

circuit_shows : (run_plain circuit no_wires).shown ≡ false ∷ true ∷ []
circuit_shows = refl

abbrev held : (ℕ → Bool) → Engine Bool
held v = record {
  gid = 2;
  check_cnt = 2;
  cots = 7;
  checks = 0;
  left = v;
  right = v;
  out = v;
  stored = [];
}

same_held : SameTriples true (held ca) (held cb)
same_held = record {
  cnt = refl;
  seed = refl;
  lefts = λ i _. ca-WireOf i;
  rights = λ i _. ca-WireOf i;
  outs = λ i _. ca-WireOf i;
}

-- The prover adds 1 to both blocks.
and_check_exact_example :
    let answer =
      check_recv true small_bool cb
        (held cb)
        (shifted true true (check_send small_bool ca (held ca)).1 ++ []) in
    let after : Engine Bool = record (held cb) { cots = 135; checks = 1 } in
    ((answer ≡ done (after, [])) ↔ (
      true ⊕ random_sum small_bool true (held ca) (claimed (held ca)) ⊗ true ⊗ true
      ≡ true ⊗ true ⊕ random_sum small_bool true (held ca) (product (held ca)) ⊗ true ⊗ true))
    × ((answer ≡ done (after, [])) ⊎ (answer ≡ abort))
and_check_exact_example =
    and_check_exact small_bool true same_held (omega arith) ca cb (λ i _. ca-WireOf (7 + i)) true
      true []

batch_sum_lem_example : batch_sum sum_product 3 (λ _. true) ca 5 ≡ sum_to (λ i. ca i ⊗ true) 5
batch_sum_lem_example = batch_sum_lem sum_product (λ _. true) ca 3 5 (omega arith)

and_blocks_send_lem_example :
    and_blocks_send small_bool ca (start true) ((true, true) ∷ (true, false) ∷ (true, true) ∷ [])
    ≡ some
        (blocks_send small_bool ca (start true) ((true, true) ∷ (true, false) ∷ (true, true) ∷ []))
and_blocks_send_lem_example =
    and_blocks_send_lem small_bool ca (start true)
      ((true, true) ∷ (true, false) ∷ (true, true) ∷ []) (omega arith) (unfold start in omega arith)

and_blocks_recv_lem_example :
    and_blocks_recv small_bool cb true
      (start false)
      ((false, false) ∷ (true, false) ∷ [])
      (bit true ∷ bit false ∷ [])
    ≡ blocks_recv small_bool cb true
        (start false)
        ((false, false) ∷ (true, false) ∷ [])
        (bit true ∷ bit false ∷ [])
and_blocks_recv_lem_example =
    and_blocks_recv_lem small_bool cb true (start false) ((false, false) ∷ (true, false) ∷ [])
      (bit true ∷ bit false ∷ []) (omega arith) (unfold start in omega arith)
