-- ===== src/ZkBool/Perm/Open.antt =====
-- The last comparison of the permutation proof: which messages the verifier accepts.
use vole_zk.Common.{List, ◌++◌, iff_trans, ◌≡◌, ◌↔◌, ◌⊎◌, sym, ap, ◌∙◌}
use vole_zk.Field.{Field, ◌⊕◌, ◌⊗◌}
use vole_zk.Field.Laws.{add_comm, add_assoc}
use vole_zk.Arith.Wire.{Auth, Matches}
use vole_zk.Arith.Engine.{done, abort}
use vole_zk.Arith.Engine.Check.{passed_iff, passed_or_abort}
use vole_zk.ZkBool.Block.{Blocks, add_twice}
use vole_zk.ZkBool.Check.{Message}
use vole_zk.ZkBool.Check.Exact.{shifted}
use vole_zk.ZkBool.Perm.{open_eq_send, open_eq_recv}

module _ {ℓ} {A : Type ℓ} ⦃f : Field A⦄ ⦃b : Blocks A⦄ (d : A) where
  -- The key cancels against the one in the MAC.
  recovered : (v k m e : A) → m ≡ v ⊗ d ⊕ k → k ⊕ (m ⊕ e) ≡ v ⊗ d ⊕ e
  recovered v k m e h =
      ap (λ t. k ⊕ (t ⊕ e)) h ∙ regroup (v ⊗ d) ∙ ap (λ t. t ⊕ e) (add_twice (v ⊗ d) k)
    where
      regroup : (w : A) → k ⊕ ((w ⊕ k) ⊕ e) ≡ ((w ⊕ k) ⊕ k) ⊕ e
      regroup w = sym (add_assoc k (w ⊕ k) e) ∙ ap (λ t. t ⊕ e) (add_comm k (w ⊕ k))

  -- Two wires and their keys, whatever the values are; the prover adds `eu` and `ev` to the two
  -- MACs. The verifier accepts exactly if the values times Δ, with `eu` and `ev` added, are equal;
  -- else it aborts.
  pub open_eq_exact :
      {pa pb ka kb : Auth A} (eu ev : A) (rest : List (Message A))
      → Matches d pa ka
      → Matches d pb kb
      → let answer = open_eq_recv ka kb (shifted eu ev (open_eq_send pa pb) ++ rest) in
        ((answer ≡ done rest) ↔ (pa.val ⊗ d ⊕ eu ≡ pb.val ⊗ d ⊕ ev))
        × ((answer ≡ done rest) ⊎ (answer ≡ abort))
  unfolding open_eq_send open_eq_recv
  open_eq_exact {pa} {pb} {ka} {kb} eu ev rest wa wb = (
    iff_trans (passed_iff {A = A} _ _ _) (
        rw
          (recovered pa.val ka.mac pa.mac eu wa.linked, recovered pb.val kb.mac pb.mac ev wb.linked)
          (λ e. e, λ e. e)),
    passed_or_abort {A = A} _ _ _,
  )
