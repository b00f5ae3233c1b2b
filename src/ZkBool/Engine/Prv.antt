-- ===== src/ZkBool/Engine/Prv.antt =====
-- The prover's engine, `ZKBoolProver` of zk_bool_prover.h: each operation with the messages that
-- it sends. `cot i` is the i-th correlation of the stream.
use vole_zk.Common.{
  ℕ, ◌+◌, ◌==◌, if◌then◌else◌, Bool, true, false, ◌&&◌, xor, List, [], ◌∷◌, ◌++◌, map, length,
  update,
}
use vole_zk.Field.{Field, ◌⊕◌, ◌⊗◌}
use vole_zk.Arith.Engine.{Result, done, abort}
use vole_zk.ZkBool.Block.{Blocks, get_lsb, select, clear_lsb, with_lsb}
use vole_zk.ZkBool.Check.{Message, bit, batch_sum, aggregate_send}
use vole_zk.ZkBool.Engine.{Engine, Setup, Party, alice, bob, public}

module _ {ℓ} {A : Type ℓ} ⦃f : Field A⦄ ⦃b : Blocks A⦄ where
  unfoldable pub not_block : A → A
  not_block r = r ⊕ f.one

  -- `public_block`, from the two blocks that PRP gives.
  unfoldable pub public_block : A → A → Bool → A
  public_block label0 label1 true = clear_lsb label1 ⊕ f.one
  public_block label0 label1 false = clear_lsb label0

  -- A fresh correlation takes the bit `v`; the message is the masking bit.
  unfoldable pub embed : A → Bool → A × Message A
  embed auth v = (with_lsb auth v, bit (xor (get_lsb auth) v))

  -- `authenticated_bits_input`: the wires and the messages.
  unfoldable pub embed_all : (ℕ → A) → ℕ → List Bool → List A × List (Message A)
  embed_all cot k [] = ([], [])
  embed_all cot k (v ∷ vs) =
      let (wires, sent) = embed_all cot (k + 1) vs in
      let (wire, flip) = embed (cot k) v in (wire ∷ wires, flip ∷ sent)

  unfoldable pub authenticated_bits_input :
      (ℕ → A) → Engine A → List Bool → Engine A × List (Message A) × List A
  authenticated_bits_input cot s vs =
      let (wires, sent) = embed_all cot s.cots vs in
      (record s { cots = s.cots + length vs }, sent, wires)

  unfoldable pub feed_bits :
      (ℕ → A)
      → (A × A)
      → Engine A
      → Party
      → List Bool
      → Result (Engine A × List (Message A) × List A)
  feed_bits cot (l0, l1) s alice vs = done (authenticated_bits_input cot s vs)
  feed_bits cot (l0, l1) s public vs = done (s, [], map (public_block l0 l1) vs)
  feed_bits cot (l0, l1) s bob vs = abort

  -- `verify_output`
  unfoldable pub verify_output : Engine A → List A → Engine A × List (Message A) × List Bool
  verify_output s os =
      (record s { stored = s.stored ++ os }, map (λ o. bit (get_lsb o)) os, map get_lsb os)

  unfoldable pub reveal_bits : Engine A → Party → List A → Engine A × List (Message A) × List Bool
  reveal_bits s alice os = (s, [], map get_lsb os)
  reveal_bits s bob os = verify_output s os
  reveal_bits s public os = verify_output s os

  -- The coefficients of one buffered triple.
  abbrev pub gate_a0 : Engine A → ℕ → A
  gate_a0 s i = s.left i ⊗ s.right i

  abbrev pub gate_a1 : Engine A → ℕ → A
  gate_a1 s i =
      (select (get_lsb (s.left i)) (s.right i) ⊕ select (get_lsb (s.right i)) (s.left i)) ⊕ s.out i

  module _ {W : Type ℓ} (c : Setup A W) (cot : ℕ → A) where
    -- `andgate_correctness_check_manage`, with its aggregate.
    unfoldable pub check_send : Engine A → Engine A × List (Message A)
    check_send s =
        let sum0 = batch_sum c.inner c.threads (c.chi s.checks) (gate_a0 s) s.check_cnt in
        let sum1 = batch_sum c.inner c.threads (c.chi s.checks) (gate_a1 s) s.check_cnt in
        (
          record s { cots = s.cots + 128; checks = s.checks + 1 },
          aggregate_send c.pack (λ i. cot (s.cots + i)) sum0 sum1,
        )

    -- What an AND does first: with the buffers full, check them.
    unfoldable pub room_send : Engine A → Engine A × List (Message A)
    room_send s =
        if s.check_cnt == c.check_sz
        then (let (s', sent) = check_send s in (record s' { check_cnt = 0 }, sent))
        else (s, [])

    -- One AND with room in the buffers.
    unfoldable pub slot_send : Engine A → A → A → Engine A × List (Message A) × A
    unfolding embed
    slot_send s l r =
        let (auth, d) = embed (cot s.cots) (get_lsb l && get_lsb r) in
        (
          record s {
            left = update s.left s.check_cnt l;
            right = update s.right s.check_cnt r;
            out = update s.out s.check_cnt auth;
            check_cnt = s.check_cnt + 1;
            cots = s.cots + 1;
          },
          d ∷ [],
          auth,
        )

    unfoldable pub auth_compute_and : Engine A → A → A → Engine A × List (Message A) × A
    auth_compute_and s l r =
        let (s', checked) = room_send s in
        let (s'', sent, wire) = slot_send s' l r in (s'', checked ++ sent, wire)

    unfoldable pub and_block : Engine A → A → A → Engine A × List (Message A) × A
    and_block s l r = auth_compute_and (record s { gid = s.gid + 1 }) l r
