-- ===== src/ZkBool/Check.antt =====
-- The batched check of emp-zk-bool: the sums over the buffered triples (zk_bool_base.h and both
-- `andgate_correctness_check`), and the masked exchange that ends it.
pub mod Bits
pub mod Sum
pub mod Exact
use vole_zk.Common.{
  ℕ, zero, suc, ◌+◌, ◌-◌, ◌*◌, ◌/◌, ◌%◌, ◌^◌, ltb, leb, ◌==◌, if◌then◌else◌, Bool, bit_value, List,
  [], ◌∷◌,
}
use vole_zk.Field.{Field, ◌⊕◌, ◌⊗◌}
use vole_zk.Field.Sum.{sum_to}
use vole_zk.Arith.Engine.{Result, done, abort, waiting, ◌>>=◌, slice_start, slice_size}
use vole_zk.ZkBool.Block.{Blocks, get_lsb}
use vole_zk.ZkBool.Outside.{InnerProduct, Packing}

-- What is sent on the socket, in order.
pub data Message {ℓ} (A : Type ℓ) : Type ℓ where
  bit : Bool → Message A
  block : A → Message A

module _ {ℓ} {A : Type ℓ} where
  -- `recv_bit`. Bytes of another kind are no part of a run in lockstep, and count as not yet sent.
  unfoldable pub recv_bit : List (Message A) → Result (Bool × List (Message A))
  recv_bit [] = waiting
  recv_bit (bit x ∷ rest) = done (x, rest)
  recv_bit (block r ∷ rest) = waiting

  -- `recv_data` of one block
  unfoldable pub recv_block : List (Message A) → Result (A × List (Message A))
  recv_block [] = waiting
  recv_block (bit x ∷ rest) = waiting
  recv_block (block r ∷ rest) = done (r, rest)

abbrev pub k_chunk : ℕ
k_chunk = 1024

-- The chunk that starts at `base` of `task_n`.
unfoldable pub chunk_len : ℕ → ℕ → ℕ → ℕ
chunk_len k task_n base = if ltb (task_n - base) k then task_n - base else k

-- The rounds of `for (base = 0; base < task_n; base += k)`.
unfoldable pub chunk_rounds : ℕ → ℕ → ℕ
chunk_rounds k task_n = (task_n + (k - 1)) / k

module _ {ℓ} {A W : Type ℓ} ⦃f : Field A⦄ (inner : InnerProduct A W) where
  -- The unreduced sum of the first chunks. The generator of `chi` was sought to `start`.
  unfoldable pub fold_chunks : ℕ → (ℕ → A) → (ℕ → A) → ℕ → ℕ → ℕ → W
  unfolding chunk_len
  fold_chunks k chi g start task_n zero = inner.nothing
  fold_chunks k chi g start task_n (suc r) = inner.combine (fold_chunks k chi g start task_n r) (
      inner.no_red (λ i. chi (i + r * k + start)) (λ i. g (i + r * k + start))
        (chunk_len k task_n (r * k)))

  -- One worker's part of one coefficient.
  unfoldable pub andgate_correctness_check : (ℕ → A) → (ℕ → A) → ℕ → ℕ → A
  unfolding fold_chunks chunk_rounds
  andgate_correctness_check chi g start task_n =
      if task_n == 0
      then f.zero
      else inner.reduce (fold_chunks k_chunk chi g start task_n (chunk_rounds k_chunk task_n))

  -- `andgate_correctness_check_manage`: `g` over the `cnt` buffered triples, split on the workers.
  unfoldable pub batch_sum : ℕ → (ℕ → A) → (ℕ → A) → ℕ → A
  unfolding andgate_correctness_check
  batch_sum threads chi g cnt =
      if leb threads 1
      then andgate_correctness_check chi g 0 cnt
      else sum_to
          (λ t.
            andgate_correctness_check chi g (slice_start threads cnt t) (slice_size threads cnt t))
          threads

-- `for (j = 62; j >= 0; --j) { w <<= 1; if (x[base + j]) w++; }`, `rounds` of it left.
unfoldable pub gather_bits : (ℕ → Bool) → ℕ → ℕ → ℕ → ℕ
gather_bits x base zero w = w
gather_bits x base (suc j) w =
    gather_bits x base j ((w * 2 % 2 ^ 64 + bit_value (x (base + j))) % 2 ^ 64)

-- `ch_bits`, the word of the bits from `base` to `base + 63`.
unfoldable pub ch_bits : (ℕ → Bool) → ℕ → ℕ
unfolding gather_bits
ch_bits x base = gather_bits x base 63 (bit_value (x (base + 63)))

module _ {ℓ} {A : Type ℓ} ⦃f : Field A⦄ ⦃b : Blocks A⦄ (pack : Packing A) where
  -- `andgate_correctness_aggregate` of ALICE, on the 128 correlations `ope_data`.
  unfoldable pub aggregate_send : (ℕ → A) → A → A → List (Message A)
  unfolding ch_bits
  aggregate_send ope_data sum0 sum1 =
      let bits = λ (i : ℕ). get_lsb (ope_data i) in
      block (pack.packing ope_data ⊕ sum0)
      ∷ block (pack.make_block (ch_bits bits 64) (ch_bits bits 0) ⊕ sum1)
      ∷ []

  -- `andgate_correctness_aggregate` of BOB: the messages that follow, if the check passes.
  unfoldable pub aggregate_recv : A → (ℕ → A) → A → List (Message A) → Result (List (Message A))
  unfolding recv_block
  aggregate_recv delta ope_data sum0 inbox = recv_block inbox >>= λ (star0, inbox').
      recv_block inbox' >>= λ (star1, rest).
      if f.beq (star1 ⊗ delta ⊕ star0) (pack.packing ope_data ⊕ sum0) then done rest else abort
