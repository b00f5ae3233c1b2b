-- ===== src/Examples/Engine.antt =====
-- The engine, the batched calls and the polynomial proofs on the field of two elements.
use vole_zk.Common.{
  ℕ, ◌+◌, ◌==◌, Bool, true, false, List, [], ◌∷◌, ◌++◌, length, some, ◌≡◌, ◌↔◌, ◌⊎◌, refl, arith,
}
use vole_zk.Field.{◌⊕◌, ◌⊗◌}
use vole_zk.Field.Sum.{sum_to}
use vole_zk.Arith.Wire.{Auth}
use vole_zk.Arith.Engine.{
  Engine, done, abort, folded, check_send, check_recv, input_send, input_recv,
  auth_compute_mul_send, auth_compute_mul_recv, slice_start, slice_size,
}
use vole_zk.Arith.Engine.Check.{SameTriples, claimed, product, shifted, check_recv_exact}
use vole_zk.Arith.Engine.Slices.{slices_cover}
use vole_zk.Arith.Engine.Sync.{Sync, Answered, input_lem, auth_compute_mul_lem}
use vole_zk.Arith.Program.{Stmt, assign, reveal, reveal_zero, feed, add, mul}
use vole_zk.Arith.Program.Plain.{no_wires, run_plain, Holds}
use vole_zk.Arith.Program.Complete.{prove, verify, verify-prove}
use vole_zk.Arith.Poly.{
  PolyProof, PolySetup, batch_check_send, batch_check_recv, zkp_poly_deg2_send, zkp_poly_deg2_recv,
}
use vole_zk.Arith.Poly.Check.{Paired, random_sum, batch_check_exact}
use vole_zk.Arith.Poly.Push.{Valid, Taken, zkp_poly_deg2_lem}
use vole_zk.Arith.Batch.{mul_vector_send, each_mul}
use vole_zk.Arith.Batch.Laws.{mul_vector_send_lem}
use vole_zk.Examples.{bits, va, vb, va-Matches, small, ==_self}

true_product : true ≡ true ⊗ true
unfolding ◌⊗◌
true_product = refl

abbrev triples : (ℕ → Auth Bool) → Engine Bool
triples v = record {
  drawn = 4;
  check_cnt = 2;
  checks = 0;
  left = v;
  right = v;
  out = v;
  stored = [];
}

same_triples : SameTriples true (triples va) (triples vb)
same_triples = record {
  cnt = refl;
  seed = refl;
  lefts = λ i _. va-Matches i;
  rights = λ i _. va-Matches i;
  outs = λ i _. va-Matches i;
}

in-Sync : Sync small true (triples va) (triples vb)
in-Sync = record {
  same = same_triples;
  drawn = refl;
  multiplied = λ _ _. true_product;
  fresh = λ i _ _. va-Matches i;
  room = omega arith;
  stored = refl;
}

check_recv_exact_example :
    let answer =
      check_recv small true vb
        (triples vb)
        (shifted true false (check_send small va (triples va)).1 ++ (false ∷ [])) in
    let after = record (triples vb) { drawn = 4 + 1; checks = 0 + 1 } in
    ((answer ≡ done (after, false ∷ [])) ↔ (
      true ⊕ folded small (claimed small true (triples va)) 0 2 ⊗ true ⊗ true
      ≡ false ⊗ true ⊕ folded small (product small true (triples va)) 0 2 ⊗ true ⊗ true))
    × ((answer ≡ done (after, false ∷ [])) ⊎ (answer ≡ abort))
check_recv_exact_example =
    check_recv_exact small true same_triples va vb (va-Matches 4) true false (false ∷ [])

slices_cover_example :
    sum_to (λ t. sum_to (λ k. (k + slice_start 3 7 t) == 6) (slice_size 3 7 t)) 3
    ≡ sum_to (λ k. k == 6) 7
slices_cover_example = slices_cover (λ k. k == 6) 3 7 (omega arith)

input_lem_example :
    let (s', sent, wire) = input_send small va (triples va) false in
    Answered small true va vb s' wire [] (input_recv small true vb (triples vb) (sent ++ []))
    × (wire.val ≡ false)
input_lem_example = input_lem small true va vb va-Matches false [] in-Sync

auth_compute_mul_lem_example :
    let (s', sent, wire) = auth_compute_mul_send small va (triples va) (va 0) (va 1) in
    Answered small true va vb s' wire []
      (auth_compute_mul_recv small true vb (triples vb) (vb 0) (vb 1) (sent ++ []))
    × (wire.val ≡ true ⊗ true)
auth_compute_mul_lem_example =
    auth_compute_mul_lem small true va vb va-Matches [] (omega arith) in-Sync (va-Matches 0)
      (va-Matches 1)

-- Three multiplications, so that the buffers of two overflow once.
abbrev circuit : List (Stmt Bool)
circuit =
    assign (feed true)
    ∷ assign (feed false)
    ∷ assign (mul 0 0)
    ∷ assign (mul 0 1)
    ∷ assign (mul 2 0)
    ∷ assign (add 3 4)
    ∷ reveal 5
    ∷ reveal_zero 3
    ∷ []

circuit_holds : Holds circuit no_wires
unfolding ◌⊗◌ ◌⊕◌
circuit_holds = (
  (tt, tt),
  (
    (tt, tt),
    (
      ((omega arith, omega arith), tt),
      (
        ((omega arith, omega arith), tt),
        (
          ((omega arith, omega arith), tt),
          (((omega arith, omega arith), tt), ((omega arith, tt), ((omega arith, refl), tt))),
        ),
      ),
    ),
  ),
)

verify-prove_example :
    verify small false length ◌==◌ true vb
      (vb 0)
      circuit
      (prove small false length ◌==◌ va (va 0) circuit).0
      (prove small false length ◌==◌ va (va 0) circuit).1
    ≡ done (run_plain circuit no_wires).shown
verify-prove_example =
    verify-prove small false length ◌==◌ true va vb va-Matches (omega arith) ==_self circuit (va 0)
      (vb 0) circuit_holds

abbrev proof_setup : PolySetup Bool
proof_setup = record {
  buffer_sz = 2;
  threads = 2;
  chi = λ _ _. true;
  inner = λ x y n. sum_to (λ k. x k ⊗ y k) n;
  inner_lem = λ x y n. refl;
}

-- One statement in the buffer, `0 = 0`.
abbrev rows : PolyProof Bool
rows = record { num = 1; buffer = λ _. false; buffer1 = λ _. false; drawn = 3; checks = 0 }

rows_balance : false ⊗ true ⊕ false ≡ false ⊕ false ⊗ (true ⊗ true)
unfolding ◌⊕◌ ◌⊗◌
rows_balance = refl

paired : Paired proof_setup true (λ _. false) rows rows
paired = record { num = refl; seed = refl; drawn = refl; row = λ i _. rows_balance }

valid : Valid proof_setup true rows rows
valid = record { value = λ _. false; same = paired; holds = λ _ _. refl; fits = omega arith }

batch_check_exact_example :
    let answer =
      batch_check_recv proof_setup true vb rows
        (shifted true true (batch_check_send proof_setup va rows).1 ++ []) in
    let after = record rows { num = 0; drawn = 3 + 1; checks = 0 + 1 } in
    ((answer ≡ done (after, []))
      ↔ (true ≡ true ⊗ true ⊕ random_sum proof_setup true (λ _. false) rows ⊗ (true ⊗ true)))
    × ((answer ≡ done (after, [])) ⊎ (answer ≡ abort))
batch_check_exact_example =
    batch_check_exact proof_setup true (λ _. false) paired va vb (va-Matches 3) (omega arith) true
      true []

deg2_true : true ⊕ sum_to (λ i. true ⊗ ((va i).val ⊗ (va i).val)) 3 ≡ false
unfolding sum_to ◌⊕◌ ◌⊗◌
deg2_true = refl

zkp_poly_deg2_lem_example :
    Taken proof_setup true
      (zkp_poly_deg2_send proof_setup va va va (λ _. true) 3 rows)
      (zkp_poly_deg2_recv proof_setup true vb vb vb (λ _. true) 3 rows)
zkp_poly_deg2_lem_example =
    zkp_poly_deg2_lem proof_setup true 3 (λ i _. va-Matches i) (λ i _. va-Matches i) va vb
      va-Matches valid (omega arith) (λ _. true) deg2_true

inner_true : false ⊕ sum_to (λ i. (va i).val ⊗ (va i).val) 2 ≡ false
unfolding sum_to ◌⊕◌ ◌⊗◌
inner_true = refl

-- Three gates from a full buffer: the check runs, then two gates, a check, and one gate.
mul_vector_send_lem_example :
    mul_vector_send small va 4 (triples va) ((va 0, va 1) ∷ (va 1, va 2) ∷ (va 0, va 2) ∷ [])
    ≡ some (each_mul small va (triples va) ((va 0, va 1) ∷ (va 1, va 2) ∷ (va 0, va 2) ∷ []))
mul_vector_send_lem_example =
    mul_vector_send_lem small va 4 (triples va) ((va 0, va 1) ∷ (va 1, va 2) ∷ (va 0, va 2) ∷ [])
      (omega arith) (omega arith) (omega arith)
