-- ===== src/Arith/Program.antt =====
-- A program over `IntFp` (int_fp.h), run by both parties in lockstep, from the constructor of the
-- engine to its destructor.
pub mod Plain
pub mod Steps
pub mod Complete
use vole_zk.Common.{ℕ, ◌+◌, ◌==◌, Bool, if◌then◌else◌, List, [], ◌∷◌, ◌++◌, update}
use vole_zk.Field.{Field, ◌⊕◌, ◌⊗◌, ◌⊖◌}
use vole_zk.Arith.Wire.{Auth}
use vole_zk.Arith.Engine.{
  Engine, Setup, Result, done, abort, waiting, ◌>>=◌, check_send, check_recv, input_send,
  input_recv, auth_compute_mul_send, auth_compute_mul_recv, reveal_send, reveal_recv,
  reveal_check_zero,
}
use vole_zk.Arith.Exec.Prv
use vole_zk.Arith.Exec.Ver

-- Each makes one wire; operands are indices of earlier ones. `feed` is `IntFp(w, ALICE)`.
pub data Gate {ℓ} (A : Type ℓ) : Type ℓ where
  feed : A → Gate A
  constant : A → Gate A
  add : ℕ → ℕ → Gate A
  sub : ℕ → ℕ → Gate A
  negate : ℕ → Gate A
  scale : ℕ → A → Gate A
  mul : ℕ → ℕ → Gate A

pub data Stmt {ℓ} (A : Type ℓ) : Type ℓ where
  assign : Gate A → Stmt A
  reveal : ℕ → Stmt A
  reveal_check : ℕ → A → Stmt A
  reveal_zero : ℕ → Stmt A

-- One party in the middle of a program. `shown` are the values revealed, the newest first.
pub record State {ℓ} (A : Type ℓ) : Type ℓ where
  pub engine : Engine A
  pub wires : ℕ → Auth A
  pub size : ℕ
  pub shown : List A

module _ {ℓ} {A : Type ℓ} ⦃f : Field A⦄ (c : Setup A) (pub_mac : A) where
  module _ (vole : ℕ → Auth A) where
    unfoldable pub gate_send : Gate A → State A → Engine A × List A × Auth A
    gate_send (feed w) s = input_send c vole s.engine w
    gate_send (constant a) s = (s.engine, [], Prv.pub_label pub_mac a)
    gate_send (add i j) s = (s.engine, [], Prv.add_gate (s.wires i) (s.wires j))
    gate_send (sub i j) s = (s.engine, [], Prv.sub_gate (s.wires i) (s.wires j))
    gate_send (negate i) s = (s.engine, [], Prv.neg_gate (s.wires i))
    gate_send (scale i a) s = (s.engine, [], Prv.mul_const_gate (s.wires i) a)
    gate_send (mul i j) s = auth_compute_mul_send c vole s.engine (s.wires i) (s.wires j)

    unfoldable pub stmt_send : Stmt A → State A → State A × List A
    stmt_send (assign g) s =
        let (e, sent, wire) = gate_send g s in
        (record s { engine = e; wires = update s.wires s.size wire; size = s.size + 1 }, sent)
    stmt_send (reveal i) s =
        let (e, sent) = reveal_send c s.engine (s.wires i ∷ []) in
        (record s { engine = e; shown = (s.wires i).val ∷ s.shown }, sent)
    stmt_send (reveal_check i a) s =
        let (e, sent) = reveal_send c s.engine (s.wires i ∷ []) in (record s { engine = e }, sent)
    stmt_send (reveal_zero i) s =
        (record s { engine = reveal_check_zero c s.engine (s.wires i ∷ []) }, [])

    unfoldable pub run_send : List (Stmt A) → State A → State A × List A
    run_send [] s = (s, [])
    run_send (p ∷ ps) s =
        let (s', sent) = stmt_send p s in let (s'', later) = run_send ps s' in (s'', sent ++ later)

    -- The destructor: what is left in the buffers is checked.
    unfoldable pub finish_send : Engine A → Engine A × List A
    finish_send s = if s.check_cnt == 0 then (s, []) else check_send c vole s

  module _ (delta : A) (vole : ℕ → Auth A) where
    unfoldable pub gate_recv : Gate A → State A → List A → Result (Engine A × List A × Auth A)
    gate_recv (feed w) s inbox = input_recv c delta vole s.engine inbox
    gate_recv (constant a) s inbox = done (s.engine, inbox, Ver.pub_label delta pub_mac a)
    gate_recv (add i j) s inbox = done (s.engine, inbox, Ver.add_gate (s.wires i) (s.wires j))
    gate_recv (sub i j) s inbox = done (s.engine, inbox, Ver.sub_gate (s.wires i) (s.wires j))
    gate_recv (negate i) s inbox = done (s.engine, inbox, Ver.neg_gate (s.wires i))
    gate_recv (scale i a) s inbox = done (s.engine, inbox, Ver.mul_const_gate (s.wires i) a)
    gate_recv (mul i j) s inbox =
        auth_compute_mul_recv c delta vole s.engine (s.wires i) (s.wires j) inbox

    -- `memcmp` of the expected and the opened value.
    unfoldable pub expect : A → List A → Result (List A)
    expect a (v ∷ []) = if f.beq a v then done [] else abort
    expect a vs = abort

    unfoldable pub stmt_recv : Stmt A → State A → List A → Result (State A × List A)
    stmt_recv (assign g) s inbox = gate_recv g s inbox >>= λ (e, rest, wire).
        done (record s { engine = e; wires = update s.wires s.size wire; size = s.size + 1 }, rest)
    stmt_recv (reveal i) s inbox =
        reveal_recv c delta s.engine (s.wires i ∷ []) inbox >>= λ (e, rest, vs).
        done (record s { engine = e; shown = vs ++ s.shown }, rest)
    stmt_recv (reveal_check i a) s inbox =
        reveal_recv c delta s.engine (s.wires i ∷ []) inbox >>= λ (e, rest, vs).
        expect a vs >>= λ _. done (record s { engine = e }, rest)
    stmt_recv (reveal_zero i) s inbox =
        done (record s { engine = reveal_check_zero c s.engine (s.wires i ∷ []) }, inbox)

    unfoldable pub run_recv : List (Stmt A) → State A → List A → Result (State A × List A)
    run_recv [] s inbox = done (s, inbox)
    run_recv (p ∷ ps) s inbox = stmt_recv p s inbox >>= λ (s', rest). run_recv ps s' rest

    unfoldable pub finish_recv : Engine A → List A → Result (Engine A × List A)
    finish_recv s inbox =
        if s.check_cnt == 0 then done (s, inbox) else check_recv c delta vole s inbox

  -- `FpAuthHelper::flush`: the prover sends the digest of the MACs that it stored, the verifier
  -- compares. The hash is a parameter.
  module _ {κ} {D : Type κ} (digest : List A → D) (same : D → D → Bool) where
    unfoldable pub flush_send : Engine A → Engine A × D
    flush_send s = (record s { stored = [] }, digest s.stored)

    unfoldable pub flush_recv : Engine A → D → Result (Engine A)
    flush_recv s dig_recv =
        if same (digest s.stored) dig_recv then done (record s { stored = [] }) else abort
