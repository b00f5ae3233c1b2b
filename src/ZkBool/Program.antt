-- ===== src/ZkBool/Program.antt =====
-- A Boolean circuit run by both engines in lockstep, gate by gate, from their constructors to
-- their destructors.
pub mod Plain
pub mod Steps
pub mod Complete
use vole_zk.Common.{ℕ, ◌+◌, ◌==◌, Bool, if◌then◌else◌, List, [], ◌∷◌, ◌++◌, update}
use vole_zk.Field.{Field}
use vole_zk.Arith.Engine.{Result, done, abort, ◌>>=◌}
use vole_zk.ZkBool.Block.{Blocks}
use vole_zk.ZkBool.Check.{Message}
use vole_zk.ZkBool.Engine.{Engine, Setup, Party, alice, public, xor_block}
use vole_zk.ZkBool.Engine.Prv
use vole_zk.ZkBool.Engine.Ver

-- Each makes one wire; operands are indices of earlier ones. `feed` is an input of the prover.
pub data Gate : Type 0 where
  feed : Bool → Gate
  constant : Bool → Gate
  xor_gate : ℕ → ℕ → Gate
  not_gate : ℕ → Gate
  and_gate : ℕ → ℕ → Gate

pub data Stmt : Type 0 where
  assign : Gate → Stmt
  reveal : Party → ℕ → Stmt

-- One party in the middle of a circuit. `shown` are the bits that it learned, the newest first.
pub record State {ℓ} (A : Type ℓ) : Type ℓ where
  pub engine : Engine A
  pub wires : ℕ → A
  pub size : ℕ
  pub shown : List Bool

module _ {ℓ} {A : Type ℓ} where
  -- The new wire of a gate.
  abbrev pub extended : State A → Engine A → A → State A
  extended s e wire = record s { engine = e; wires = update s.wires s.size wire; size = s.size + 1 }

  -- The only wire of a call on one bit; `feed_bits` gives as many wires as bits.
  abbrev pub only : A → List A → A
  only junk (wire ∷ []) = wire
  only junk wires = junk

module _ {ℓ} {A W : Type ℓ} ⦃f : Field A⦄ ⦃b : Blocks A⦄ (c : Setup A W) (labels : A × A)
    (cot : ℕ → A) where
  -- `feed_bits` is called with the owners that it takes, so the prover's side gives a result.
  unfoldable pub gate_send : Gate → State A → Result (Engine A × List (Message A) × A)
  gate_send (feed v) s = Prv.feed_bits cot labels s.engine alice (v ∷ []) >>= λ (e, sent, ws).
      done (e, sent, only f.zero ws)
  gate_send (constant v) s = Prv.feed_bits cot labels s.engine public (v ∷ []) >>= λ (e, sent, ws).
      done (e, sent, only f.zero ws)
  gate_send (xor_gate i j) s = done (s.engine, [], xor_block (s.wires i) (s.wires j))
  gate_send (not_gate i) s = done (s.engine, [], Prv.not_block (s.wires i))
  gate_send (and_gate i j) s = done (Prv.and_block c cot s.engine (s.wires i) (s.wires j))

  unfoldable pub stmt_send : Stmt → State A → Result (State A × List (Message A))
  stmt_send (assign g) s = gate_send g s >>= λ (e, sent, wire). done (extended s e wire, sent)
  stmt_send (reveal to i) s =
      let (e, sent, vs) = Prv.reveal_bits s.engine to (s.wires i ∷ []) in
      done (record s { engine = e; shown = vs ++ s.shown }, sent)

  unfoldable pub run_send : List Stmt → State A → Result (State A × List (Message A))
  run_send [] s = done (s, [])
  run_send (p ∷ ps) s =
      stmt_send p s >>= λ (s', sent). run_send ps s' >>= λ (s'', later). done (s'', sent ++ later)

  -- The destructor: what is left in the buffers is checked.
  unfoldable pub finish_send : Engine A → Engine A × List (Message A)
  finish_send s = if s.check_cnt == 0 then (s, []) else Prv.check_send c cot s

  module _ (delta : A) where
    unfoldable pub gate_recv :
        Gate → State A → List (Message A) → Result (Engine A × List (Message A) × A)
    gate_recv (feed v) s inbox =
        Ver.feed_bits delta cot labels s.engine alice (v ∷ []) inbox >>= λ (e, rest, ws).
        done (e, rest, only f.zero ws)
    gate_recv (constant v) s inbox =
        Ver.feed_bits delta cot labels s.engine public (v ∷ []) inbox >>= λ (e, rest, ws).
        done (e, rest, only f.zero ws)
    gate_recv (xor_gate i j) s inbox = done (s.engine, inbox, xor_block (s.wires i) (s.wires j))
    gate_recv (not_gate i) s inbox = done (s.engine, inbox, Ver.not_block delta (s.wires i))
    gate_recv (and_gate i j) s inbox =
        Ver.and_block delta c cot s.engine (s.wires i) (s.wires j) inbox

    unfoldable pub stmt_recv :
        Stmt → State A → List (Message A) → Result (State A × List (Message A))
    stmt_recv (assign g) s inbox =
        gate_recv g s inbox >>= λ (e, rest, wire). done (extended s e wire, rest)
    stmt_recv (reveal to i) s inbox =
        Ver.reveal_bits delta s.engine to (s.wires i ∷ []) inbox >>= λ (e, rest, vs).
        done (record s { engine = e; shown = vs ++ s.shown }, rest)

    unfoldable pub run_recv :
        List Stmt → State A → List (Message A) → Result (State A × List (Message A))
    run_recv [] s inbox = done (s, inbox)
    run_recv (p ∷ ps) s inbox = stmt_recv p s inbox >>= λ (s', rest). run_recv ps s' rest

    unfoldable pub finish_recv : Engine A → List (Message A) → Result (Engine A × List (Message A))
    finish_recv s inbox =
        if s.check_cnt == 0 then done (s, inbox) else Ver.check_recv delta c cot s inbox

-- The digests of what `auth_hash` was given. The hash is a parameter.
module _ {ℓ κ} {A : Type ℓ} {D : Type κ} (digest : List A → D) (same : D → D → Bool) where
  unfoldable pub finalize_recv : Engine A → D → Result (Engine A)
  finalize_recv s received = if same (digest s.stored) received then done s else abort
