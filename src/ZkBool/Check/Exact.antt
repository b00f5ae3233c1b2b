-- ===== src/ZkBool/Check/Exact.antt =====
-- The masked exchange at the end of a check: which messages the verifier accepts.
use vole_zk.Common.{
  ℕ, ◌+◌, ◌<◌, iff_trans, List, ◌∷◌, ◌++◌, ◌≡◌, ◌↔◌, ◌⊎◌, sym, ap, ap₂, fun_ext, ◌∙◌, arith,
}
use vole_zk.Field.{Field, ◌⊕◌, ◌⊗◌}
use vole_zk.Field.Laws.{add_comm, ring_laws}
use vole_zk.Arith.Engine.{done, abort}
use vole_zk.Arith.Engine.Check.{accept_algebra, passed_iff, passed_or_abort}
use vole_zk.ZkBool.Block.{Blocks, get_lsb, select, WireOf, add_move}
use vole_zk.ZkBool.Outside.{Packing, word_of}
use vole_zk.ZkBool.Check.{Message, block, ch_bits, aggregate_send, aggregate_recv}
use vole_zk.ZkBool.Check.Bits.{ch_bits_lem}

module _ {ℓ} {A : Type ℓ} ⦃f : Field A⦄ where
  -- A prover that does not send what the code computes adds something to its two blocks.
  abbrev pub shifted : A → A → List (Message A) → List (Message A)
  shifted eu ev (block u ∷ block v ∷ rest) = block (u ⊕ eu) ∷ block (v ⊕ ev) ∷ rest
  shifted eu ev rest = rest

module _ {ℓ} {A : Type ℓ} ⦃f : Field A⦄ ⦃b : Blocks A⦄ (pack : Packing A) (d : A) (oa ob : ℕ → A)
    (fresh : (i : ℕ) → i < 128 → WireOf d (oa i) (ob i)) where
  -- The value of the mask: the block of the last bits of the prover's correlations.
  abbrev mask : A
  mask = pack.make_block (ch_bits (λ i. get_lsb (oa i)) 64) (ch_bits (λ i. get_lsb (oa i)) 0)

  pub words_linked :
      pack.packing oa
      ≡ pack.packing ob
        ⊕ pack.make_block
            (word_of (λ i. get_lsb (oa (64 + i))) 64)
            (word_of (λ i. get_lsb (oa i)) 64)
          ⊗ d
  words_linked =
      pack.packing_reads oa _ (λ i lt. (fresh i lt).linked)
      ∙ pack.packing-add ob (λ i. select (get_lsb (oa i)) d)
      ∙ ap (λ t. pack.packing ob ⊕ t) (pack.packing_bits (λ i. get_lsb (oa i)) d)

  pub from_zero : word_of (λ i. get_lsb (oa (0 + i))) 64 ≡ word_of (λ i. get_lsb (oa i)) 64
  from_zero =
      ap (λ x. word_of x 64)
        (fun_ext λ i. ap (λ j. get_lsb (oa j)) {x = 0 + i} {y = i} (omega arith))

  mask_linked : pack.packing oa ≡ pack.packing ob ⊕ mask ⊗ d
  mask_linked =
      words_linked
      ∙ sym (
          ap₂ (λ high low. pack.packing ob ⊕ pack.make_block high low ⊗ d)
            (ch_bits_lem (λ i. get_lsb (oa i)) 64)
            (ch_bits_lem (λ i. get_lsb (oa i)) 0 ∙ from_zero))

  -- With XOR for the sum, a term may change sides.
  move_iff : (x s t : A) → (x ⊕ s ≡ t) ↔ (s ≡ t ⊕ x)
  move_iff x s t =
      (λ e. sym (add_move t s x (sym e ∙ add_comm x s)), λ e. add_comm x s ∙ add_move s t x e)

  regroup : (m v ev w k : A) → (k ⊕ w) ⊕ ((m ⊕ v) ⊕ ev) ⊗ d ≡ ((v ⊗ d ⊕ w) ⊕ (k ⊕ m ⊗ d)) ⊕ ev ⊗ d
  regroup m v ev w k = simp ring_laws

  -- `u` and `v` are the prover's sums and `w` the verifier's, with the balance that honest keys
  -- give; the prover adds `eu` and `ev` to the blocks that the code sends.
  pub aggregate_iff :
      (u v w e p eu ev : A) (rest : List (Message A))
      → (v ⊗ d ⊕ w) ⊕ e ≡ u ⊕ p
      → let answer =
          aggregate_recv pack d ob w (shifted eu ev (aggregate_send pack oa u v) ++ rest) in
        ((answer ≡ done rest) ↔ (eu ⊕ e ≡ ev ⊗ d ⊕ p)) × ((answer ≡ done rest) ⊎ (answer ≡ abort))
  unfolding aggregate_send aggregate_recv
  aggregate_iff u v w e p eu ev rest balance = (
    iff_trans (passed_iff {A = A} _ _ _) (
        iff_trans
          (move_iff (((mask ⊕ v) ⊕ ev) ⊗ d) ((pack.packing oa ⊕ u) ⊕ eu) (pack.packing ob ⊕ w))
          (rw (regroup mask v ev w (pack.packing ob), ← mask_linked, add_comm (pack.packing oa) u)
            (accept_algebra u (v ⊗ d) w e p (pack.packing oa) eu (ev ⊗ d) balance))),
    passed_or_abort {A = A} _ _ _,
  )
