-- ===== src/ZkBool/Perm.antt =====
-- `ZKPermProof` of emp-zk-bool/zk_perm_proof.h: the two lists of elements, the compression of an
-- element of several wires into one, and the last comparison of the two products.
pub mod Fold
pub mod Open
use vole_zk.Common.{
  ℕ, zero, suc, ◌+◌, ◌-◌, ◌*◌, ◌/◌, ltb, ◌==◌, ◌||◌, ◌&&◌, if◌then◌else◌, List, [], ◌∷◌, update,
}
use vole_zk.Field.{Field, ◌⊕◌, ◌⊗◌}
use vole_zk.Arith.Wire.{Auth}
use vole_zk.Arith.Engine.{Result, done, abort, ◌>>=◌}
use vole_zk.ZkBool.Block.{Blocks}
use vole_zk.ZkBool.Check.{Message, block, recv_block}
use vole_zk.ZkBool.F2k.{f2k_mul_const, f2k_add}

-- A `std::vector` that grows at its end.
pub record Vec {ℓ} (A : Type ℓ) : Type ℓ where
  pub size : ℕ
  pub slot : ℕ → A

module _ {ℓ} {A : Type ℓ} where
  abbrev pub push_back : Vec A → A → Vec A
  push_back v x = record { size = v.size + 1; slot = update v.slot v.size x }

  -- `n` elements from `e` on, at the end.
  unfoldable pub insert_end : Vec A → (ℕ → A) → ℕ → Vec A
  insert_end v e n = record {
    size = v.size + n;
    slot = λ i. if ltb i v.size then v.slot i else e (i - v.size);
  }

-- `compressions` counts the calls of `compress` that drew coefficients.
pub record PermProof {ℓ} (A : Type ℓ) : Type ℓ where
  pub n_blocks : ℕ
  pub a_pending : Vec (Auth A)
  pub b_pending : Vec (Auth A)
  pub a_elems_compressed : Vec (Auth A)
  pub b_elems_compressed : Vec (Auth A)
  pub compressions : ℕ

module _ {ℓ} {A : Type ℓ} where
  unfoldable pub add_a : (ℕ → Auth A) → PermProof A → PermProof A
  unfolding insert_end
  add_a e s =
      if s.n_blocks == 1
      then record s { a_elems_compressed = push_back s.a_elems_compressed (e 0) }
      else record s { a_pending = insert_end s.a_pending e s.n_blocks }

  unfoldable pub add_b : (ℕ → Auth A) → PermProof A → PermProof A
  unfolding insert_end
  add_b e s =
      if s.n_blocks == 1
      then record s { b_elems_compressed = push_back s.b_elems_compressed (e 0) }
      else record s { b_pending = insert_end s.b_pending e s.n_blocks }

module _ {ℓ} {A : Type ℓ} ⦃f : Field A⦄ ⦃b : Blocks A⦄ where
  -- One element: `acc` after `r` rounds of the loop over its wires.
  unfoldable pub fold_one : (ℕ → A) → (ℕ → Auth A) → ℕ → Auth A
  fold_one coeff e zero = f2k_mul_const (e 0) (coeff 0)
  fold_one coeff e (suc r) =
      f2k_add (fold_one coeff e r) (f2k_mul_const (e (suc r)) (coeff (suc r)))

  -- The first elements of `flat`, of `n` wires each.
  unfoldable pub fold_elems : ℕ → (ℕ → A) → Vec (Auth A) → Vec (Auth A) → ℕ → Vec (Auth A)
  unfolding fold_one
  fold_elems n coeff flat out zero = out
  fold_elems n coeff flat out (suc i) =
      push_back (fold_elems n coeff flat out i)
        (fold_one coeff (λ j. flat.slot (i * n + j)) (n - 1))

  -- `fold_`
  unfoldable pub fold_flat : ℕ → (ℕ → A) → Vec (Auth A) → Vec (Auth A) → Vec (Auth A)
  unfolding fold_elems
  fold_flat n coeff flat out = fold_elems n coeff flat out (flat.size / n)

  -- `coeff k` are the coefficients that the PRG makes from the transcript for the k-th compression.
  unfoldable pub compress : (ℕ → ℕ → A) → PermProof A → PermProof A
  unfolding fold_flat
  compress coeff s =
      if (s.n_blocks == 1) || ((s.a_pending.size == 0) && (s.b_pending.size == 0))
      then s
      else record s {
        a_elems_compressed =
            fold_flat s.n_blocks (coeff s.compressions) s.a_pending s.a_elems_compressed;
        b_elems_compressed =
            fold_flat s.n_blocks (coeff s.compressions) s.b_pending s.b_elems_compressed;
        a_pending = record s.a_pending { size = 0 };
        b_pending = record s.b_pending { size = 0 };
        compressions = s.compressions + 1;
      }

  -- ALICE and BOB of `open_eq_`.
  unfoldable pub open_eq_send : Auth A → Auth A → List (Message A)
  open_eq_send pa pb = block pa.mac ∷ block pb.mac ∷ []

  unfoldable pub open_eq_recv : Auth A → Auth A → List (Message A) → Result (List (Message A))
  unfolding recv_block
  open_eq_recv pa pb inbox = recv_block inbox >>= λ (m0, inbox').
      recv_block inbox' >>= λ (m1, rest).
      if f.beq (pa.mac ⊕ m0) (pb.mac ⊕ m1) then done rest else abort
