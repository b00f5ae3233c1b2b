-- ===== src/ZkBool/Program/Steps.antt =====
-- Each gate and each opening of a circuit, run by both engines in step.
use mathlib.Core.List.{append_assoc}
use vole_zk.Common.{
  ℕ, ◌+◌, ◌<◌, ◌==◌, Bool, true, false, ◌&&◌, xor, Bool-cases, List, [], ◌∷◌, ◌++◌, update, ◌≡◌,
  inl, inr, refl, ap, ap₂, ◌∙◌, arith,
}
use vole_zk.Field.{Field}
use vole_zk.Arith.Engine.{Result, done}
use vole_zk.ZkBool.Block.{Blocks, get_lsb, clear_lsb, xor_delta_if, WireOf, lsb-with_lsb}
use vole_zk.ZkBool.Block.Laws.{xor-WireOf, not-WireOf, cleared-WireOf, lsb-clear_lsb}
use vole_zk.ZkBool.Check.{Message, recv_bit}
use vole_zk.ZkBool.Engine.{Engine, Setup, alice, bob, public, xor_block}
use vole_zk.ZkBool.Engine.Prv
use vole_zk.ZkBool.Engine.Ver
use vole_zk.ZkBool.Engine.Sync.{Sync, Answered, embedded-WireOf, update-WireOf, and_block_lem}
use vole_zk.ZkBool.Program.{
  Gate, feed, constant, xor_gate, not_gate, and_gate, Stmt, assign, reveal, State, extended,
  gate_send, stmt_send, run_send, gate_recv, stmt_recv, run_recv,
}
use vole_zk.ZkBool.Program.Plain.{
  Plain, value, step_plain, run_plain, InScope, StmtInScope, AllInScope,
}

module _ {ℓ} {A W : Type ℓ} ⦃f : Field A⦄ ⦃b : Blocks A⦄ (c : Setup A W) (d : A) where
  -- The two parties between two statements, beside the plain bits.
  pub record InStep (s t : State A) (p : Plain) : Type ℓ where
    pub engines : Sync c d s.engine t.engine
    pub sizes : s.size ≡ t.size
    pub plain_size : s.size ≡ p.size
    pub wires : (i : ℕ) → i < s.size → WireOf d (s.wires i) (t.wires i)
    pub vals : (i : ℕ) → i < s.size → get_lsb (s.wires i) ≡ p.vals i
    pub prover_shown : s.shown ≡ p.read
    pub verifier_shown : t.shown ≡ p.shown

  module _ (labels : A × A) (odd : b.lsb d ≡ true) (ca cb : ℕ → A)
      (correlated : (i : ℕ) → WireOf d (ca i) (cb i)) (workers : 0 < c.threads)
      (some_room : 0 < c.check_sz) where
    -- The prover's part of a gate always ends.
    gate_ends :
        (g : Gate) (s : State A)
        → (o : Engine A × List (Message A) × A) × (gate_send c labels ca g s ≡ done o)
    unfolding gate_send Prv.feed_bits
    gate_ends (feed v) s = (_, refl)
    gate_ends (constant v) s = (_, refl)
    gate_ends (xor_gate i j) s = (_, refl)
    gate_ends (not_gate i) s = (_, refl)
    gate_ends (and_gate i j) s = (_, refl)

    local_answer :
        {s t : Engine A} {wire key : A} (rest : List (Message A))
        → Sync c d s t
        → WireOf d wire key
        → Answered c d s wire rest (done (t, rest, key))
    local_answer {t} {key} rest y w = record {
      engine = t;
      key = key;
      accepted = refl;
      sync = y;
      wired = w;
    }

    drawn-Sync :
        {s t : Engine A}
        → Sync c d s t
        → Sync c d (record s { cots = s.cots + 1 }) (record t { cots = t.cots + 1 })
    drawn-Sync y = record {
      same = record {
        cnt = y.same.cnt;
        seed = y.same.seed;
        lefts = y.same.lefts;
        rights = y.same.rights;
        outs = y.same.outs;
      };
      cots = ap (λ n. n + 1) y.cots;
      gates = y.gates;
      multiplied = y.multiplied;
      room = y.room;
      stored = y.stored;
    }

    label-WireOf :
        (v : Bool)
        → WireOf d (Prv.public_block labels.0 labels.1 v) (Ver.public_block d labels.0 labels.1 v)
    unfolding Prv.public_block Ver.public_block Ver.zdelta
    label-WireOf true = not-WireOf d odd (cleared-WireOf d odd labels.1)
    label-WireOf false = cleared-WireOf d odd labels.0

    lsb-label : (v : Bool) → get_lsb (Prv.public_block labels.0 labels.1 v) ≡ v
    unfolding Prv.public_block
    lsb-label true =
        b.lsb-add (clear_lsb labels.1) f.one ∙ ap₂ xor (lsb-clear_lsb d odd labels.1) b.lsb_one
    lsb-label false = lsb-clear_lsb d odd labels.0

    -- One gate: the verifier accepts, and the new wire authenticates the bit of the gate.
    gate_lem :
        (g : Gate) {s t : State A} {p : Plain} (rest : List (Message A))
        → InStep s t p
        → InScope g s.size
        → let (e, sent, wire) = (gate_ends g s).0 in
          Answered c d e wire rest (gate_recv c labels cb d g t (sent ++ rest))
          × (get_lsb wire ≡ value g p.vals)
    unfolding gate_ends gate_recv xor_block Prv.authenticated_bits_input Prv.embed_all Prv.embed
        Prv.not_block Ver.feed_bits Ver.authenticated_bits_input Ver.recv_bits recv_bit
        Ver.correct_all Ver.not_block Ver.zdelta
    gate_lem (feed v) {s} rest y h = (
      local_answer rest (drawn-Sync y.engines)
          (embedded-WireOf c d odd ca cb correlated workers _ _ v y.engines.cots),
      lsb-with_lsb (ca s.engine.cots) v,
    )
    gate_lem (constant v) rest y h = (local_answer rest y.engines (label-WireOf v), lsb-label v)
    gate_lem (xor_gate i j) {s} rest y h = (
      local_answer rest y.engines (xor-WireOf d odd (y.wires i h.0) (y.wires j h.1)),
      b.lsb-add (s.wires i) (s.wires j) ∙ ap₂ xor (y.vals i h.0) (y.vals j h.1),
    )
    gate_lem (not_gate i) {s} rest y h = (
      local_answer rest y.engines (not-WireOf d odd (y.wires i h)),
      b.lsb-add (s.wires i) f.one ∙ ap₂ xor (y.vals i h) b.lsb_one,
    )
    gate_lem (and_gate i j) rest y h =
        let both =
          and_block_lem c d odd ca cb correlated workers rest some_room y.engines (y.wires i h.0)
            (y.wires j h.1) in
        (both.0, both.1 ∙ ap₂ ◌&&◌ (y.vals i h.0) (y.vals j h.1))

    -- The verifier accepts, and is in step with the prover afterwards.
    pub record Followed (s' : State A) (p' : Plain) (rest : List (Message A))
        (answer : Result (State A × List (Message A))) : Type ℓ where
      pub state : State A
      pub accepted : answer ≡ done (state, rest)
      pub in_step : InStep s' state p'

    assign_step :
        {s t : State A} {p : Plain} {e e' : Engine A} {wire key : A} (x : Bool)
        → InStep s t p
        → Sync c d e e'
        → WireOf d wire key
        → get_lsb wire ≡ x
        → InStep
            (extended s e wire)
            (extended t e' key)
            (record p { vals = update p.vals p.size x; size = p.size + 1 })
    assign_step {s} {p} {wire} x y sync w e = record {
      engines = sync;
      sizes = ap (λ n. n + 1) y.sizes;
      plain_size = ap (λ n. n + 1) y.plain_size;
      wires = λ i. update-WireOf c d odd ca cb correlated workers _ _ _ _ i y.sizes y.wires w;
      vals = updated;
      prover_shown = y.prover_shown;
      verifier_shown = y.verifier_shown;
    }
      where
        updated :
            (i : ℕ)
            → i < s.size + 1
            → get_lsb (update s.wires s.size wire i) ≡ update p.vals p.size x i
        updated i lt = elim (Bool-cases (i == s.size)) [
          | inl at ↦ rw (← y.plain_size, at) e
          | inr other ↦ rw (← y.plain_size, other) (y.vals i (ground arith))
        ]

    -- What both sides hash of an opened wire.
    store_both :
        {s t : Engine A} (x x' : A)
        → Sync c d s t
        → x ≡ x'
        → Sync c d
            (record s { stored = s.stored ++ x ∷ [] })
            (record t { stored = t.stored ++ x' ∷ [] })
    store_both x x' y e = record {
      same = record {
        cnt = y.same.cnt;
        seed = y.same.seed;
        lefts = y.same.lefts;
        rights = y.same.rights;
        outs = y.same.outs;
      };
      cots = y.cots;
      gates = y.gates;
      multiplied = y.multiplied;
      room = y.room;
      stored = ap₂ (λ xs z. xs ++ z ∷ []) y.stored e;
    }

    reveal_step :
        {s t : State A} {p : Plain} {e e' : Engine A} {shown read shown' read' : List Bool}
        → InStep s t p
        → Sync c d e e'
        → read ≡ read'
        → shown ≡ shown'
        → InStep
            (record s { engine = e; shown = read })
            (record t { engine = e'; shown = shown })
            (record p { shown = shown'; read = read' })
    reveal_step y sync r v = record {
      engines = sync;
      sizes = y.sizes;
      plain_size = y.plain_size;
      wires = y.wires;
      vals = y.vals;
      prover_shown = r;
      verifier_shown = v;
    }

    stmt_ends :
        (g : Stmt) (s : State A)
        → (o : State A × List (Message A)) × (stmt_send c labels ca g s ≡ done o)
    unfolding stmt_send
    stmt_ends (assign g) s = let (o, e) = gate_ends g s in ((extended s o.0 o.2, o.1), rw e)
    stmt_ends (reveal to i) s = (_, refl)

    stmt_lem :
        (g : Stmt) {s t : State A} {p : Plain} (rest : List (Message A))
        → InStep s t p
        → StmtInScope g p.size
        → let (s', sent) = (stmt_ends g s).0 in
          Followed s' (step_plain g p) rest (stmt_recv c labels cb d g t (sent ++ rest))
    unfolding stmt_ends stmt_recv Prv.reveal_bits Ver.reveal_bits Prv.verify_output
        Ver.verify_output Ver.recv_bits recv_bit Ver.expected xor_delta_if
    stmt_lem (assign g) {s} {t} {p} rest y h =
        let gate = gate_lem g {s = s} {t = t} {p = p} rest y (rw y.plain_size h) in
        record {
          state = _;
          accepted = rw (gate.0).accepted;
          in_step = assign_step _ y (gate.0).sync (gate.0).wired gate.1;
        }
    stmt_lem (reveal alice i) {s} {t} {p} rest y h =
        let lt = rw (← y.plain_size) at h in
        record {
          state = _;
          accepted = refl;
          in_step = reveal_step y y.engines (ap₂ ◌∷◌ (y.vals i lt) y.prover_shown) y.verifier_shown;
        }
    stmt_lem (reveal bob i) {s} {t} {p} rest y h =
        let lt = rw (← y.plain_size) at h in
        record {
          state = _;
          accepted = refl;
          in_step =
              reveal_step y (store_both _ _ y.engines (y.wires i lt).linked)
                (ap₂ ◌∷◌ (y.vals i lt) y.prover_shown) (ap₂ ◌∷◌ (y.vals i lt) y.verifier_shown);
        }
    stmt_lem (reveal public i) {s} {t} {p} rest y h =
        let lt = rw (← y.plain_size) at h in
        record {
          state = _;
          accepted = refl;
          in_step =
              reveal_step y (store_both _ _ y.engines (y.wires i lt).linked)
                (ap₂ ◌∷◌ (y.vals i lt) y.prover_shown) (ap₂ ◌∷◌ (y.vals i lt) y.verifier_shown);
        }

    -- The prover's part of a circuit always ends.
    pub run_ends :
        (ps : List Stmt) (s : State A)
        → (o : State A × List (Message A)) × (run_send c labels ca ps s ≡ done o)
    unfolding run_send
    run_ends [] s = ((s, []), refl)
    run_ends (g ∷ ps) s =
        let (o, e) = stmt_ends g s in
        let (later, e') = run_ends ps o.0 in ((later.0, o.1 ++ later.1), rw (e, e'))

    -- Every honest run: the verifier accepts each message, and is in step at the end.
    pub run_lem :
        (ps : List Stmt) {s t : State A} {p : Plain} (rest : List (Message A))
        → InStep s t p
        → AllInScope ps p
        → let (s', sent) = (run_ends ps s).0 in
          Followed s' (run_plain ps p) rest (run_recv c labels cb d ps t (sent ++ rest))
    unfolding run_ends run_recv
    run_lem [] {t} rest y h = record { state = t; accepted = refl; in_step = y }
    run_lem (g ∷ ps) {s} {t} {p} rest y h =
        let s' : State A = (stmt_ends g s).0.0 in
        let later : List (Message A) = (run_ends ps s').0.1 in
        let one = stmt_lem g {s = s} {t = t} {p = p} (later ++ rest) y h.0 in
        let two = run_lem ps {s = s'} {t = one.state} {p = step_plain g p} rest one.in_step h.1 in
        record {
          state = two.state;
          accepted = rw (append_assoc, one.accepted) two.accepted;
          in_step = two.in_step;
        }
