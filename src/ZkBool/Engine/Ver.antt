-- ===== src/ZkBool/Engine/Ver.antt =====
-- The verifier's engine, `ZKBoolVerifier` of zk_bool_verifier.h: each operation on the messages
-- that are in the inbox.
use vole_zk.Common.{
  ℕ, zero, suc, ◌+◌, ◌==◌, if◌then◌else◌, Bool, true, false, List, [], ◌∷◌, ◌++◌, map, length,
  update,
}
use vole_zk.Field.{Field, ◌⊕◌, ◌⊗◌}
use vole_zk.Arith.Engine.{Result, done, abort, ◌>>=◌}
use vole_zk.ZkBool.Block.{Blocks, clear_lsb, xor_delta_if}
use vole_zk.ZkBool.Check.{Message, recv_bit, batch_sum, aggregate_recv}
use vole_zk.ZkBool.Engine.{Engine, Setup, Party, alice, bob, public}

module _ {ℓ} {A : Type ℓ} where
  -- `n` calls of `recv_bit`
  unfoldable pub recv_bits : ℕ → List (Message A) → Result (List Bool × List (Message A))
  unfolding recv_bit
  recv_bits zero inbox = done ([], inbox)
  recv_bits (suc n) inbox =
      recv_bit inbox >>= λ (x, rest). recv_bits n rest >>= λ (xs, rest'). done (x ∷ xs, rest')

module _ {ℓ} {A : Type ℓ} ⦃f : Field A⦄ ⦃b : Blocks A⦄ (delta : A) where
  unfoldable pub zdelta : A
  zdelta = delta ⊕ f.one

  unfoldable pub not_block : A → A
  unfolding zdelta
  not_block r = r ⊕ zdelta

  unfoldable pub public_block : A → A → Bool → A
  unfolding zdelta
  public_block label0 label1 true = clear_lsb label1 ⊕ zdelta
  public_block label0 label1 false = clear_lsb label0

  -- The key of a correlation, corrected by the masking bit.
  unfoldable pub correct : A → Bool → A
  correct auth d = clear_lsb (xor_delta_if delta auth d)

  unfoldable pub correct_all : (ℕ → A) → ℕ → List Bool → List A
  correct_all cot k [] = []
  correct_all cot k (d ∷ ds) = correct (cot k) d ∷ correct_all cot (k + 1) ds

  -- `authenticated_bits_input` of `n` bits
  unfoldable pub authenticated_bits_input :
      (ℕ → A) → Engine A → ℕ → List (Message A) → Result (Engine A × List (Message A) × List A)
  authenticated_bits_input cot s n inbox = recv_bits n inbox >>= λ (ds, rest).
      done (record s { cots = s.cots + n }, rest, correct_all cot s.cots ds)

  -- The bits are the verifier's own only for a public input.
  unfoldable pub feed_bits :
      (ℕ → A)
      → (A × A)
      → Engine A
      → Party
      → List Bool
      → List (Message A)
      → Result (Engine A × List (Message A) × List A)
  feed_bits cot (l0, l1) s alice vs inbox = authenticated_bits_input cot s (length vs) inbox
  feed_bits cot (l0, l1) s public vs inbox = done (s, inbox, map (public_block l0 l1) vs)
  feed_bits cot (l0, l1) s bob vs inbox = abort

  -- What the prover's MACs must be, for the bits that it claims.
  unfoldable pub expected : List A → List Bool → List A
  expected [] vs = []
  expected (o ∷ os) [] = []
  expected (o ∷ os) (v ∷ vs) = xor_delta_if delta o v ∷ expected os vs

  unfoldable pub verify_output :
      Engine A → List A → List (Message A) → Result (Engine A × List (Message A) × List Bool)
  verify_output s os inbox = recv_bits (length os) inbox >>= λ (vs, rest).
      done (record s { stored = s.stored ++ expected os vs }, rest, vs)

  unfoldable pub reveal_bits :
      Engine A
      → Party
      → List A
      → List (Message A)
      → Result (Engine A × List (Message A) × List Bool)
  reveal_bits s alice os inbox = done (s, inbox, [])
  reveal_bits s bob os inbox = verify_output s os inbox
  reveal_bits s public os inbox = verify_output s os inbox

  abbrev pub gate_b : Engine A → ℕ → A
  gate_b s i = s.left i ⊗ s.right i ⊕ s.out i ⊗ delta

  module _ {W : Type ℓ} (c : Setup A W) (cot : ℕ → A) where
    unfoldable pub check_recv : Engine A → List (Message A) → Result (Engine A × List (Message A))
    check_recv s inbox =
        let sum0 = batch_sum c.inner c.threads (c.chi s.checks) (gate_b s) s.check_cnt in
        aggregate_recv c.pack delta (λ i. cot (s.cots + i)) sum0 inbox >>= λ rest.
        done (record s { cots = s.cots + 128; checks = s.checks + 1 }, rest)

    unfoldable pub room_recv : Engine A → List (Message A) → Result (Engine A × List (Message A))
    room_recv s inbox =
        if s.check_cnt == c.check_sz
        then (check_recv s inbox >>= λ (s', rest). done (record s' { check_cnt = 0 }, rest))
        else done (s, inbox)

    unfoldable pub slot_recv :
        Engine A → A → A → List (Message A) → Result (Engine A × List (Message A) × A)
    unfolding recv_bit correct
    slot_recv s l r inbox = recv_bit inbox >>= λ (d, rest).
        let auth = correct (cot s.cots) d in
        done (
          record s {
            left = update s.left s.check_cnt l;
            right = update s.right s.check_cnt r;
            out = update s.out s.check_cnt auth;
            check_cnt = s.check_cnt + 1;
            cots = s.cots + 1;
          },
          rest,
          auth,
        )

    unfoldable pub auth_compute_and :
        Engine A → A → A → List (Message A) → Result (Engine A × List (Message A) × A)
    auth_compute_and s l r inbox = room_recv s inbox >>= λ (s', rest). slot_recv s' l r rest

    unfoldable pub and_block :
        Engine A → A → A → List (Message A) → Result (Engine A × List (Message A) × A)
    and_block s l r inbox = auth_compute_and (record s { gid = s.gid + 1 }) l r inbox
