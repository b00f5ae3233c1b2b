-- ===== src/ZkBool/Vector.antt =====
-- The vectorized AND of emp-zk-bool: a wave of independent gates in one call, in both engines.
pub mod Prover
pub mod Waves
pub mod Verifier
use vole_zk.Common.{
  ℕ, zero, suc, ◌+◌, ◌-◌, min, ◌&&◌, Bool, List, [], ◌∷◌, ◌++◌, length, update, Option, none, some,
}
use mathlib.Core.Option as Option
use vole_zk.Field.{Field}
use vole_zk.Arith.Batch.{take, drop}
use vole_zk.Arith.Engine.{Result, done, abort, waiting, ◌>>=◌}
use vole_zk.ZkBool.Block.{Blocks, get_lsb}
use vole_zk.ZkBool.Check.{Message}
use vole_zk.ZkBool.Engine.{Engine, Setup}
use vole_zk.ZkBool.Engine.Prv
use vole_zk.ZkBool.Engine.Ver

-- What a call gives: the state, the messages (sent, or still in the inbox) and the wires.
abbrev pub Outcome {ℓ} : Type ℓ → Type ℓ
Outcome A = Engine A × List (Message A) × List A

abbrev pub before {ℓ} : {A : Type ℓ} → List (Message A) → List A → Outcome A → Outcome A
before sent wires (s, sent', wires') = (s, sent ++ sent', wires ++ wires')

module _ {ℓ} {A : Type ℓ} ⦃f : Field A⦄ ⦃b : Blocks A⦄ where
  -- The gates of one wave go to the slots from `base` on; `cot k` is the first of the
  -- correlations that were drawn for them. The state has the counters as they were.
  unfoldable pub wave_send : (ℕ → A) → Engine A → ℕ → ℕ → List (A × A) → Outcome A
  unfolding Prv.embed
  wave_send cot s base k [] = (s, [], [])
  wave_send cot s base k ((l, r) ∷ gates) =
      let (auth, d) = Prv.embed (cot k) (get_lsb l && get_lsb r) in
      before (d ∷ []) (auth ∷ []) (
        wave_send cot
          (record s {
            left = update s.left base l;
            right = update s.right base r;
            out = update s.out base auth;
          })
          (base + 1) (k + 1) gates)

  -- The same at the verifier, on the masking bits of the wave.
  unfoldable pub wave_recv :
      A → (ℕ → A) → Engine A → ℕ → ℕ → List (A × A) → List Bool → Engine A × List A
  unfolding Ver.correct
  wave_recv delta cot s base k [] ds = (s, [])
  wave_recv delta cot s base k ((l, r) ∷ gates) [] = (s, [])
  wave_recv delta cot s base k ((l, r) ∷ gates) (d ∷ ds) =
      let auth = Ver.correct delta (cot k) d in
      let (s', wires) =
        wave_recv delta cot
          (record s {
            left = update s.left base l;
            right = update s.right base r;
            out = update s.out base auth;
          })
          (base + 1) (k + 1) gates ds in
      (s', auth ∷ wires)

  module _ {W : Type ℓ} (c : Setup A W) (cot : ℕ → A) where
    -- The loop of the vectorized `auth_compute_and`, on fuel.
    unfoldable pub vector_send : ℕ → Engine A → List (A × A) → Option (Outcome A)
    vector_send zero s gates = none
    vector_send (suc fuel) s [] = some (s, [], [])
    vector_send (suc fuel) s (gate ∷ gates) =
        let (s', checked) = Prv.room_send c cot s in
        let size = min (c.check_sz - s'.check_cnt) (length (gate ∷ gates)) in
        let (s'', sent, wires) = wave_send cot s' s'.check_cnt s'.cots (take size (gate ∷ gates)) in
        let s''' = record s'' { check_cnt = s'.check_cnt + size; cots = s'.cots + size } in
        Option.map (before (checked ++ sent) wires)
          (vector_send fuel s''' (drop size (gate ∷ gates)))

    unfoldable pub and_blocks_send : Engine A → List (A × A) → Option (Outcome A)
    unfolding vector_send
    and_blocks_send s gates =
        vector_send (length gates + 1) (record s { gid = s.gid + length gates }) gates

    -- One gate after the other.
    unfoldable pub each_send : Engine A → List (A × A) → Outcome A
    each_send s [] = (s, [], [])
    each_send s ((l, r) ∷ gates) =
        let (s', sent, wire) = Prv.auth_compute_and c cot s l r in
        before sent (wire ∷ []) (each_send s' gates)

    -- One call of `and_block` after the other.
    unfoldable pub blocks_send : Engine A → List (A × A) → Outcome A
    blocks_send s [] = (s, [], [])
    blocks_send s ((l, r) ∷ gates) =
        let (s', sent, wire) = Prv.and_block c cot s l r in
        before sent (wire ∷ []) (blocks_send s' gates)

    module _ (delta : A) where
      -- Without fuel the loop is still `waiting`.
      unfoldable pub vector_recv :
          ℕ → Engine A → List (A × A) → List (Message A) → Result (Outcome A)
      vector_recv zero s gates inbox = waiting
      vector_recv (suc fuel) s [] inbox = done (s, inbox, [])
      vector_recv (suc fuel) s (gate ∷ gates) inbox =
          Ver.room_recv delta c cot s inbox >>= λ (s', rest).
          let size = min (c.check_sz - s'.check_cnt) (length (gate ∷ gates)) in
          Ver.recv_bits size rest >>= λ (ds, rest').
          let (s'', wires) =
            wave_recv delta cot s' s'.check_cnt s'.cots (take size (gate ∷ gates)) ds in
          let s''' = record s'' { check_cnt = s'.check_cnt + size; cots = s'.cots + size } in
          vector_recv fuel s''' (drop size (gate ∷ gates)) rest' >>= λ o. done (before [] wires o)

      unfoldable pub and_blocks_recv :
          Engine A → List (A × A) → List (Message A) → Result (Outcome A)
      unfolding vector_recv
      and_blocks_recv s gates inbox =
          vector_recv (length gates + 1) (record s { gid = s.gid + length gates }) gates inbox

      unfoldable pub each_recv : Engine A → List (A × A) → List (Message A) → Result (Outcome A)
      each_recv s [] inbox = done (s, inbox, [])
      each_recv s ((l, r) ∷ gates) inbox =
          Ver.auth_compute_and delta c cot s l r inbox >>= λ (s', rest, wire).
          each_recv s' gates rest >>= λ o. done (before [] (wire ∷ []) o)

      unfoldable pub blocks_recv : Engine A → List (A × A) → List (Message A) → Result (Outcome A)
      blocks_recv s [] inbox = done (s, inbox, [])
      blocks_recv s ((l, r) ∷ gates) inbox =
          Ver.and_block delta c cot s l r inbox >>= λ (s', rest, wire).
          blocks_recv s' gates rest >>= λ o. done (before [] (wire ∷ []) o)
