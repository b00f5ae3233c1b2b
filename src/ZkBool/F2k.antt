-- ===== src/ZkBool/F2k.antt =====
-- The second wire type of emp-zk-bool: authenticated elements of GF(2^128), shared with a VOLE
-- under the same Δ (the f2k operations of zk_bool_base.h, zk_bool_prover.h and
-- zk_bool_verifier.h).
pub mod Exact
pub mod Sync
pub mod Room
pub mod Gates
use vole_zk.Common.{
  ℕ, ◌+◌, ◌-◌, ltb, ◌==◌, if◌then◌else◌, Bool, true, false, List, [], ◌∷◌, ◌++◌, update, ◌≡◌,
}
use vole_zk.Field.{Field, ◌⊕◌, ◌⊗◌}
use vole_zk.Field.Sum.{sum_to}
use vole_zk.Arith.Wire.{Auth}
use vole_zk.Arith.Engine.{Result, done, ◌>>=◌}
use vole_zk.ZkBool.Block.{Blocks}
use vole_zk.ZkBool.Outside.{Packing}
use vole_zk.ZkBool.Check.{Message, block, recv_block, aggregate_send, aggregate_recv}

-- The f2k fields. `drawn` counts the values of the VOLE that were run, `cots` the correlations of
-- the engine that the checks took, `checks` the checks, each with a new seed.
pub record F2k {ℓ} (A : Type ℓ) : Type ℓ where
  pub ready : Bool
  pub drawn : ℕ
  pub auth_buffer : ℕ → Auth A
  pub authval_cnt : ℕ
  pub check_cnt : ℕ
  pub left : ℕ → Auth A
  pub right : ℕ → Auth A
  pub in_buffer : ℕ → Auth A
  pub in_cnt : ℕ
  pub cots : ℕ
  pub checks : ℕ

-- `red` is `vector_inn_prdt_sum_red` of emp-tool, `chi` the coefficients (check, position).
pub record F2kSetup {ℓ} (A : Type ℓ) ⦃f : Field A⦄ ⦃b : Blocks A⦄ : Type ℓ where
  pub buffer_sz : ℕ
  pub chi : ℕ → ℕ → A
  pub red : (ℕ → A) → (ℕ → A) → ℕ → A
  pub red_lem : (x y : ℕ → A) (n : ℕ) → red x y n ≡ sum_to (λ i. x i ⊗ y i) n
  pub pack : Packing A

module _ {ℓ} {A : Type ℓ} ⦃f : Field A⦄ ⦃b : Blocks A⦄ where
  -- `f2k_mul_const` and `f2k_add`, the same at both parties.
  unfoldable pub f2k_mul_const : Auth A → A → Auth A
  f2k_mul_const a c = record { val = c ⊗ a.val; mac = c ⊗ a.mac }

  unfoldable pub f2k_add : Auth A → Auth A → Auth A
  f2k_add a c = record { val = a.val ⊕ c.val; mac = a.mac ⊕ c.mac }

  -- ALICE and BOB of `f2k_wire` and of `f2k_add_const`.
  unfoldable pub f2k_wire_send : A → A → Auth A
  f2k_wire_send v m = record { val = v; mac = m }

  unfoldable pub f2k_wire_recv : A → A → Auth A
  f2k_wire_recv v m = record { val = f.zero; mac = m }

  unfoldable pub f2k_add_const_send : Auth A → A → Auth A
  f2k_add_const_send a c = record { val = a.val ⊕ c; mac = a.mac }

  unfoldable pub f2k_add_const_recv : A → Auth A → A → Auth A
  f2k_add_const_recv delta a c = record { val = f.zero; mac = a.mac ⊕ delta ⊗ c }

  -- The engine before the first f2k operation, `junk` in the buffers.
  unfoldable pub fresh : ℕ → A → F2k A
  fresh cots junk = record {
    ready = false;
    drawn = 0;
    auth_buffer = λ _. record { val = junk; mac = junk };
    authval_cnt = 0;
    check_cnt = 0;
    left = λ _. record { val = junk; mac = junk };
    right = λ _. record { val = junk; mac = junk };
    in_buffer = λ _. record { val = junk; mac = junk };
    in_cnt = 0;
    cots = cots;
    checks = 0;
  }

  -- The coefficients of one buffered triple. Its output is among the last of the values drawn.
  abbrev pub triple_out : F2k A → ℕ → A
  triple_out s i = (s.auth_buffer (s.authval_cnt - s.check_cnt + i)).mac

  abbrev pub triple_a0 : F2k A → ℕ → A
  triple_a0 s i = (s.left i).mac ⊗ (s.right i).mac

  abbrev pub triple_a1 : F2k A → ℕ → A
  triple_a1 s i =
      ((s.right i).val ⊗ (s.left i).mac ⊕ (s.left i).val ⊗ (s.right i).mac) ⊕ triple_out s i

  abbrev pub triple_b : A → F2k A → ℕ → A
  triple_b delta s i = (s.left i).mac ⊗ (s.right i).mac ⊕ triple_out s i ⊗ delta

  -- `f2k_check` writes its coefficients over the values of the first `n` slots.
  abbrev pub scratched : (ℕ → Auth A) → (ℕ → A) → ℕ → ℕ → Auth A
  scratched buf g n i = if ltb i n then record { val = g i; mac = (buf i).mac } else buf i

  -- `vole i` is the i-th value of the stream, at this party.
  module _ (c : F2kSetup A) (vole : ℕ → Auth A) where
    unfoldable pub f2k_pre_buffer_refill : F2k A → F2k A
    f2k_pre_buffer_refill s = record s {
      auth_buffer = λ i. vole (s.drawn + i);
      drawn = s.drawn + c.buffer_sz;
      authval_cnt = 0;
    }

    unfoldable pub f2k_init : F2k A → F2k A
    unfolding f2k_pre_buffer_refill
    f2k_init s =
        if s.ready
        then s
        else f2k_pre_buffer_refill (record s { in_cnt = c.buffer_sz; ready = true })

    -- What `f2k_input` does first: its own buffer is refilled when it is used up.
    unfoldable pub input_ready : F2k A → F2k A
    unfolding f2k_init
    input_ready s =
        let s' = f2k_init s in
        if s'.in_cnt == c.buffer_sz
        then record s' {
          in_buffer = λ i. vole (s'.drawn + i);
          drawn = s'.drawn + c.buffer_sz;
          in_cnt = 0;
        }
        else s'

    unfoldable pub f2k_input_send : A → F2k A → F2k A × List (Message A) × Auth A
    f2k_input_send v s =
        let s' = input_ready s in
        let r = s'.in_buffer s'.in_cnt in
        (
          record s' { in_cnt = s'.in_cnt + 1 },
          block (v ⊕ r.val) ∷ [],
          record { val = v; mac = r.mac },
        )

    unfoldable pub f2k_input_recv :
        A → F2k A → List (Message A) → Result (F2k A × List (Message A) × Auth A)
    unfolding recv_block
    f2k_input_recv delta s inbox =
        let s' = input_ready s in
        let r = s'.in_buffer s'.in_cnt in
        recv_block inbox >>= λ (diff, rest). done (
          record s' { in_cnt = s'.in_cnt + 1 },
          rest,
          record { val = f.zero; mac = r.mac ⊕ delta ⊗ diff },
        )

    -- `f2k_check_manage` with its `f2k_check`.
    unfoldable pub f2k_check_send : (ℕ → A) → F2k A → F2k A × List (Message A)
    f2k_check_send cot s =
        let n = s.check_cnt in
        let left' = scratched s.left (triple_a0 s) n in
        let right' = scratched s.right (triple_a1 s) n in
        let sum0 = if n == 0 then f.zero else c.red (c.chi s.checks) (λ i. (left' i).val) n in
        let sum1 = if n == 0 then f.zero else c.red (c.chi s.checks) (λ i. (right' i).val) n in
        (
          record s { left = left'; right = right'; cots = s.cots + 128; checks = s.checks + 1 },
          aggregate_send c.pack (λ i. cot (s.cots + i)) sum0 sum1,
        )

    unfoldable pub f2k_check_recv :
        A → (ℕ → A) → F2k A → List (Message A) → Result (F2k A × List (Message A))
    f2k_check_recv delta cot s inbox =
        let n = s.check_cnt in
        let left' = scratched s.left (triple_b delta s) n in
        let sum0 = if n == 0 then f.zero else c.red (c.chi s.checks) (λ i. (left' i).val) n in
        aggregate_recv c.pack delta (λ i. cot (s.cots + i)) sum0 inbox >>= λ rest.
        done (record s { left = left'; cots = s.cots + 128; checks = s.checks + 1 }, rest)

    -- What `f2k_mul` does first: full buffers are checked, and used up values drawn again.
    abbrev pub refilled : F2k A → F2k A
    refilled s = if s.authval_cnt == c.buffer_sz then f2k_pre_buffer_refill s else s

    unfoldable pub f2k_room_send : (ℕ → A) → F2k A → F2k A × List (Message A)
    f2k_room_send cot s =
        if s.check_cnt == c.buffer_sz
        then (let (s', sent) = f2k_check_send cot s in
            (refilled (record s' { check_cnt = 0 }), sent))
        else (refilled s, [])

    unfoldable pub f2k_room_recv :
        A → (ℕ → A) → F2k A → List (Message A) → Result (F2k A × List (Message A))
    f2k_room_recv delta cot s inbox =
        if s.check_cnt == c.buffer_sz
        then (f2k_check_recv delta cot s inbox >>= λ (s', rest).
            done (refilled (record s' { check_cnt = 0 }), rest))
        else done (refilled s, inbox)

  -- The product takes the next value of the buffer as its output.
  abbrev pub took : F2k A → Auth A → Auth A → Auth A → F2k A
  took s x y out = record s {
    left = update s.left s.check_cnt x;
    right = update s.right s.check_cnt y;
    auth_buffer = update s.auth_buffer s.authval_cnt out;
    check_cnt = s.check_cnt + 1;
    authval_cnt = s.authval_cnt + 1;
  }

  unfoldable pub f2k_slot_send : F2k A → Auth A → Auth A → F2k A × List (Message A) × Auth A
  f2k_slot_send s x y =
      let v = x.val ⊗ y.val in
      let r = s.auth_buffer s.authval_cnt in
      let out : Auth A = record { val = v; mac = r.mac } in
      (took s x y out, block (v ⊕ r.val) ∷ [], out)

  unfoldable pub f2k_slot_recv :
      A → F2k A → Auth A → Auth A → List (Message A) → Result (F2k A × List (Message A) × Auth A)
  unfolding recv_block
  f2k_slot_recv delta s x y inbox = recv_block inbox >>= λ (diff, rest).
      let r = s.auth_buffer s.authval_cnt in
      let mac = r.mac ⊕ diff ⊗ delta in
      done
        (took s x y (record { val = r.val; mac = mac }), rest, record { val = f.zero; mac = mac })

  module _ (c : F2kSetup A) (vole : ℕ → Auth A) (cot : ℕ → A) where
    unfoldable pub f2k_mul_send : F2k A → Auth A → Auth A → F2k A × List (Message A) × Auth A
    unfolding f2k_init
    f2k_mul_send s x y =
        let (s', checked) = f2k_room_send c vole cot (f2k_init c vole s) in
        let (s'', sent, out) = f2k_slot_send s' x y in (s'', checked ++ sent, out)

    unfoldable pub f2k_mul_recv :
        A → F2k A → Auth A → Auth A → List (Message A) → Result (F2k A × List (Message A) × Auth A)
    unfolding f2k_init
    f2k_mul_recv delta s x y inbox =
        f2k_room_recv c vole delta cot (f2k_init c vole s) inbox >>= λ (s', rest).
        f2k_slot_recv delta s' x y rest
