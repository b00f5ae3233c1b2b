-- ===== src/Arith/Program/Steps.antt =====
-- Completeness: the verifier accepts an honest run of any program whose assertions hold, and the
-- wires of the two sides authenticate the values that the program computes.
use mathlib.Core.List.{append_assoc}
use vole_zk.Common.{
  ℕ, ◌+◌, ◌<◌, ◌==◌, Bool-cases, List, [], ◌∷◌, ◌++◌, update, ◌≡◌, inl, inr, refl, sym, ap, ap₂,
  ◌∙◌, arith,
}
use vole_zk.Field.{Field, ◌⊕◌, ◌⊗◌, ◌⊖◌}
use vole_zk.Field.Laws.{zero-add, zero-mul}
use vole_zk.Arith.Wire.{Auth, Matches}
use vole_zk.Arith.Engine.{Engine, Setup, Result, done, reveal_send, reveal_recv, reveal_check_zero}
use vole_zk.Arith.Engine.Sync.{Sync, Answered, update-Matches, input_lem, auth_compute_mul_lem}
use vole_zk.Arith.Exec.Laws.{
  add_gate-Matches, sub_gate-Matches, neg_gate-Matches, mul_const_gate-Matches, pub_label-Matches,
}
use vole_zk.Arith.Exec.Prv
use vole_zk.Arith.Program.Plain.{Plain, value, step_plain, run_plain, InScope, StmtHolds, Holds}
use vole_zk.Arith.Program.{
  Gate, feed, constant, add, sub, negate, scale, mul, Stmt, assign, reveal, reveal_check,
  reveal_zero, State, gate_send, stmt_send, run_send, gate_recv, stmt_recv, run_recv, expect,
}

-- The two parties between two statements, beside the plain values.
pub record InStep {ℓ} {A : Type ℓ} ⦃f : Field A⦄ (c : Setup A) (d : A) (s t : State A) (p : Plain A)
    : Type ℓ where
  pub engines : Sync c d s.engine t.engine
  pub sizes : s.size ≡ t.size
  pub plain_size : s.size ≡ p.size
  pub wires : (i : ℕ) → i < s.size → Matches d (s.wires i) (t.wires i)
  pub vals : (i : ℕ) → i < s.size → (s.wires i).val ≡ p.vals i
  pub prover_shown : s.shown ≡ p.shown
  pub verifier_shown : t.shown ≡ p.shown

module _ {ℓ} {A : Type ℓ} ⦃f : Field A⦄ (c : Setup A) (pub_mac d : A) (va vb : ℕ → Auth A)
    (correlated : (i : ℕ) → Matches d (va i) (vb i)) (some_room : 0 < c.check_sz) where
  local_answer :
      {s t : Engine A} {wire key : Auth A} (rest : List A)
      → Sync c d s t
      → Matches d wire key
      → Answered c d va vb s wire rest (done (t, rest, key))
  local_answer {t} {key} rest y m = record {
    engine = t;
    key = key;
    accepted = refl;
    sync = y;
    matches = m;
  }

  -- One gate: the verifier accepts, and the new wire authenticates the value of the gate.
  gate_lem :
      (g : Gate A) {s t : State A} {p : Plain A} (rest : List A)
      → InStep c d s t p
      → InScope g s.size
      → let (e, sent, wire) = gate_send c pub_mac va g s in
        Answered c d va vb e wire rest (gate_recv c pub_mac d vb g t (sent ++ rest))
        × (wire.val ≡ value g p.vals)
  unfolding gate_send gate_recv Prv.add_gate Prv.sub_gate Prv.neg_gate Prv.mul_const_gate
      Prv.pub_label
  gate_lem (feed w) rest y h = input_lem c d va vb correlated w rest y.engines
  gate_lem (constant a) rest y h =
      (local_answer rest y.engines (pub_label-Matches d pub_mac a), refl)
  gate_lem (add i j) rest y h = (
    local_answer rest y.engines (add_gate-Matches (y.wires i h.0) (y.wires j h.1)),
    ap₂ ◌⊕◌ (y.vals i h.0) (y.vals j h.1),
  )
  gate_lem (sub i j) rest y h = (
    local_answer rest y.engines (sub_gate-Matches (y.wires i h.0) (y.wires j h.1)),
    ap₂ ◌⊖◌ (y.vals i h.0) (y.vals j h.1),
  )
  gate_lem (negate i) rest y h =
      (local_answer rest y.engines (neg_gate-Matches (y.wires i h)), ap f.neg (y.vals i h))
  gate_lem (scale i a) rest y h = (
    local_answer rest y.engines (mul_const_gate-Matches (y.wires i h) a),
    ap (λ q. q ⊗ a) (y.vals i h),
  )
  gate_lem (mul i j) rest y h =
      let r =
        auth_compute_mul_lem c d va vb correlated rest some_room y.engines (y.wires i h.0)
          (y.wires j h.1) in
      (r.0, r.1 ∙ ap₂ ◌⊗◌ (y.vals i h.0) (y.vals j h.1))

  -- The verifier accepts, and is in step with the prover afterwards.
  pub record Followed (s' : State A) (p' : Plain A) (rest : List A)
      (answer : Result (State A × List A)) : Type ℓ where
    pub state : State A
    pub accepted : answer ≡ done (state, rest)
    pub in_step : InStep c d s' state p'

  assign_step :
      {s t : State A} {p : Plain A} {e e' : Engine A} {wire key : Auth A} (x : A)
      → InStep c d s t p
      → Sync c d e e'
      → Matches d wire key
      → wire.val ≡ x
      → InStep c d
          (record s { engine = e; wires = update s.wires s.size wire; size = s.size + 1 })
          (record t { engine = e'; wires = update t.wires t.size key; size = t.size + 1 })
          (record p { vals = update p.vals p.size x; size = p.size + 1 })
  assign_step {s} {p} {wire} x y sync m e = record {
    engines = sync;
    sizes = ap (λ n. n + 1) y.sizes;
    plain_size = ap (λ n. n + 1) y.plain_size;
    wires = λ i. update-Matches c d va vb correlated _ _ _ _ i y.sizes y.wires m;
    vals = updated;
    prover_shown = y.prover_shown;
    verifier_shown = y.verifier_shown;
  }
    where
      updated :
          (i : ℕ) → i < s.size + 1 → (update s.wires s.size wire i).val ≡ update p.vals p.size x i
      updated i lt = elim (Bool-cases (i == s.size)) [
        | inl at ↦ rw (← y.plain_size, at) e
        | inr other ↦ rw (← y.plain_size, other) (y.vals i (ground arith))
      ]

  -- What both sides hash of an opened wire.
  store_both :
      {s t : Engine A} (x x' : A)
      → Sync c d s t
      → x ≡ x'
      → Sync c d (record s { stored = x ∷ s.stored }) (record t { stored = x' ∷ t.stored })
  store_both x x' y e = record {
    same = record {
      cnt = y.same.cnt;
      seed = y.same.seed;
      lefts = y.same.lefts;
      rights = y.same.rights;
      outs = y.same.outs;
    };
    drawn = y.drawn;
    multiplied = y.multiplied;
    fresh = y.fresh;
    room = y.room;
    stored = ap₂ ◌∷◌ e y.stored;
  }

  shown_step :
      {s t : State A} {p : Plain A} {e e' : Engine A} (x x' x'' : A)
      → InStep c d s t p
      → Sync c d e e'
      → x ≡ x''
      → x' ≡ x''
      → InStep c d
          (record s { engine = e; shown = x ∷ s.shown })
          (record t { engine = e'; shown = x' ∷ t.shown })
          (record p { shown = x'' ∷ p.shown })
  shown_step x x' x'' y sync e e' = record {
    engines = sync;
    sizes = y.sizes;
    plain_size = y.plain_size;
    wires = y.wires;
    vals = y.vals;
    prover_shown = ap₂ ◌∷◌ e y.prover_shown;
    verifier_shown = ap₂ ◌∷◌ e' y.verifier_shown;
  }

  engine_step :
      {s t : State A} {p : Plain A} {e e' : Engine A}
      → InStep c d s t p
      → Sync c d e e'
      → InStep c d (record s { engine = e }) (record t { engine = e' }) p
  engine_step y sync = record {
    engines = sync;
    sizes = y.sizes;
    plain_size = y.plain_size;
    wires = y.wires;
    vals = y.vals;
    prover_shown = y.prover_shown;
    verifier_shown = y.verifier_shown;
  }

  opened : {x v : A} (k : A) → x ≡ v ⊗ d ⊕ k → v ≡ f.zero → x ≡ k
  opened k e z = e ∙ rw (z, zero-mul d) (zero-add k)

  -- One statement.
  stmt_lem :
      (g : Stmt A) {s t : State A} {p : Plain A} (rest : List A)
      → InStep c d s t p
      → StmtHolds g p
      → let (s', sent) = stmt_send c pub_mac va g s in
        Followed s' (step_plain g p) rest (stmt_recv c pub_mac d vb g t (sent ++ rest))
  unfolding stmt_send stmt_recv reveal_send reveal_recv reveal_check_zero expect
  stmt_lem (assign g) {s} {t} {p} rest y h =
      let r = gate_lem g {s = s} {t = t} {p = p} rest y (rw y.plain_size h.0) in
      record {
        state = _;
        accepted = rw (r.0).accepted;
        in_step = assign_step _ y (r.0).sync (r.0).matches r.1;
      }
  stmt_lem (reveal i) {s} {t} {p} rest y h =
      let lt = rw (← y.plain_size) at h.0 in
      record {
        state = _;
        accepted = refl;
        in_step =
            shown_step _ _ _ y (store_both _ _ y.engines (y.wires i lt).linked) (y.vals i lt)
              (y.vals i lt);
      }
  stmt_lem (reveal_check i a) {s} {t} {p} rest y h =
      let lt = rw (← y.plain_size) at h.0 in
      record {
        state = _;
        accepted = rw ((f.beq_iff a (s.wires i).val).1 (sym h.1 ∙ sym (y.vals i lt)));
        in_step = engine_step y (store_both _ _ y.engines (y.wires i lt).linked);
      }
  stmt_lem (reveal_zero i) {s} {t} {p} rest y h =
      let lt = rw (← y.plain_size) at h.0 in
      record {
        state = _;
        accepted = refl;
        in_step = engine_step y (
            store_both _ _ y.engines
              (opened (t.wires i).mac (y.wires i lt).linked (y.vals i lt ∙ h.1)));
      }

  -- Every honest run: the verifier accepts each message, and is in step at the end.
  pub run_lem :
      (ps : List (Stmt A)) {s t : State A} {p : Plain A} (rest : List A)
      → InStep c d s t p
      → Holds ps p
      → let (s', sent) = run_send c pub_mac va ps s in
        Followed s' (run_plain ps p) rest (run_recv c pub_mac d vb ps t (sent ++ rest))
  unfolding run_send run_recv
  run_lem [] {t} rest y h = record { state = t; accepted = refl; in_step = y }
  run_lem (g ∷ ps) {s} {t} {p} rest y h =
      let s' : State A = (stmt_send c pub_mac va g s).0 in
      let later : List A = (run_send c pub_mac va ps s').1 in
      let one = stmt_lem g {s = s} {t = t} {p = p} (later ++ rest) y h.0 in
      let two = run_lem ps {s = s'} {t = one.state} {p = step_plain g p} rest one.in_step h.1 in
      record {
        state = two.state;
        accepted = rw (append_assoc, one.accepted) two.accepted;
        in_step = two.in_step;
      }
