-- ===== src/Mvzk/Verifier/Public.antt =====
-- What the verifiers accept in `checkPublic`, when each sends to all what the code computes.
use vole_zk.Common.{ℕ, ◌<◌, Bool, true, ◌≡◌, ◌↔◌, iff_trans, ap, ap₂, sym, ◌∙◌, arith}
use vole_zk.Field.{Field, ◌⊕◌, ◌⊗◌}
use vole_zk.Field.Laws.{add_comm, add_cancel, ring_laws}
use vole_zk.Field.Sum.{sum_to, sum_to_congr, sum_to-add, sum_to-mul, sum_to_scale, sum_to_swap}
use vole_zk.Arith.Engine.{done}
use vole_zk.Mvzk.Share.{AuthShare, Opens}
use vole_zk.Mvzk.Mesh.{echo_check}
use vole_zk.Mvzk.Verifier.{Opening, public_error, check_public}
use vole_zk.Mvzk.Verifier.Check.{all_others-true, errors_iff, message, mac_check_zero_lem}

module _ {ℓ} {A : Type ℓ} ⦃f : Field A⦄ where
  module _ {κ} {D : Type κ} (same : D → D → Bool) (hash : Opening A → D) (n : ℕ)
      (same_self : (x : D) → same x x ≡ true) (theta : ℕ → ℕ → A)
      (masks : (c : ℕ) → sum_to (λ i. theta i c) n ≡ f.zero) (salt : ℕ → ℕ) where
    abbrev sent : (ℕ → ℕ → A) → ℕ → Opening A
    sent = message same hash n same_self theta masks salt

    -- `checkPublic` on `len` wires that verifier `i` holds as `sh i`.
    module _ (delta : ℕ → A) (sh : ℕ → ℕ → AuthShare A) (claimed chi : ℕ → A) (len : ℕ) where
      abbrev pub claim_error : ℕ → ℕ → A
      claim_error i c = public_error (delta i) len chi (sh i) claimed

      claim_error_iff : (sum_to (λ i. public_error (delta i) len chi (sh i) claimed) n ≡ f.zero) ↔ (
          sum_to (λ i. sum_to (λ w. (sh i w).mac ⊗ chi w) len) n
          ≡ sum_to (λ i. sum_to (λ w. (sh i w).key ⊗ chi w) len) n
            ⊕ sum_to delta n ⊗ sum_to (λ w. claimed w ⊗ chi w) len)
      unfolding public_error
      claim_error_iff = errors_iff _ _ delta (sum_to (λ w. claimed w ⊗ chi w) len) n

      -- A lane of the shares, summed over the wires and the verifiers, in either order.
      by_wire :
          (g : ℕ → ℕ → A)
          → sum_to (λ i. sum_to (λ w. g i w ⊗ chi w) len) n
            ≡ sum_to (λ w. sum_to (λ i. g i w) n ⊗ chi w) len
      by_wire g =
          sum_to_swap (λ i w. g i w ⊗ chi w) n len
          ∙ sum_to_congr _ _ len (λ w _. sum_to-mul (λ i. g i w) (chi w) n)

      opened_sum :
          (v : ℕ → A)
          → ((w : ℕ) → w < len → Opens n delta (λ i. sh i w) (v w))
          → sum_to (λ i. sum_to (λ w. (sh i w).mac ⊗ chi w) len) n
            ≡ sum_to (λ i. sum_to (λ w. (sh i w).key ⊗ chi w) len) n
              ⊕ sum_to delta n ⊗ sum_to (λ w. v w ⊗ chi w) len
      opened_sum v opens =
          by_wire (λ i w. (sh i w).mac)
          ∙ sum_to_congr _ _ len (λ w lt. ap (λ t. t ⊗ chi w) (opens w lt).linked ∙ expand _ _ _ _)
          ∙ sum_to-add _ _ len
          ∙ ap₂ ◌⊕◌ (sym (by_wire (λ i w. (sh i w).key)))
              (sum_to_scale (sum_to delta n) (λ w. v w ⊗ chi w) len)
        where
          expand : (k d x c : A) → (k ⊕ d ⊗ x) ⊗ c ≡ k ⊗ c ⊕ d ⊗ (x ⊗ c)
          expand k d x c = simp ring_laws

      -- If the shares of `len` wires are authenticated shares of the values `v`, all verifiers were
      -- told the same values, and all is sent as the code does, each verifier accepts exactly if Δ
      -- times the random sum of `v` is Δ times that of the claimed values.
      pub check_public_exact :
          (v : ℕ → A)
          → ((w : ℕ) → w < len → Opens n delta (λ i. sh i w) (v w))
          → (digest : D) (id : ℕ) → id < n
          → (check_public same hash id n
                (delta id)
                len
                chi
                (sh id)
                claimed
                digest
                (λ _. digest)
                (theta id)
                (salt id)
                (λ j. hash (sent claim_error j))
                (sent claim_error)
              ≡ done (sent claim_error id))
            ↔ (sum_to delta n ⊗ sum_to (λ w. v w ⊗ chi w) len
                ≡ sum_to delta n ⊗ sum_to (λ w. claimed w ⊗ chi w) len)
      unfolding check_public echo_check
      check_public_exact v opens digest id h =
          rw (all_others-true id (λ _. same digest digest) n (λ _. same_self digest)) (
            iff_trans
              (mac_check_zero_lem same hash n same_self theta masks salt claim_error 1 id h).0
              (iff_trans (λ e. e 0 (omega arith), λ e c _. e)
                (iff_trans claim_error_iff (
                  λ e. left_cancel _ _ _ (sym (opened_sum v opens) ∙ e),
                  λ e.
                      opened_sum v opens
                      ∙ ap (λ t. sum_to (λ i. sum_to (λ w. (sh i w).key ⊗ chi w) len) n ⊕ t) e,
                ))))
        where
          left_cancel : (x y z : A) → x ⊕ y ≡ x ⊕ z → y ≡ z
          left_cancel x y z e = add_cancel y z x (add_comm y x ∙ e ∙ add_comm x z)
