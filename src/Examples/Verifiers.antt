-- ===== src/Examples/Verifiers.antt =====
-- Two verifiers on the field of two elements.
use vole_zk.Common.{ℕ, zero, suc, ◌<◌, ◌==◌, Bool, true, false, [], ◌∷◌, ◌≡◌, ◌↔◌, ◌⊎◌, refl, arith}
use vole_zk.Field.{◌⊕◌, ◌⊗◌}
use vole_zk.Field.Sum.{sum_to}
use vole_zk.Arith.Engine.{done, abort}
use vole_zk.Mvzk.Share.{
  AuthShare, Opens, add_share_from_diff, add_shares_diff, eval_linear, linear_value,
}
use vole_zk.Mvzk.Share.Laws.{add_share-Opens, eval_linear-Opens, at_party, at_prover}
use vole_zk.Mvzk.Mesh.{zero_shares}
use vole_zk.Mvzk.Mesh.Zero.{zero_shares_lem}
use vole_zk.Mvzk.Verifier.{Opening, mac_check_zero, open_and_check, check_public}
use vole_zk.Mvzk.Verifier.Check.{
  mac_check_zero_lem, open_and_check_exact, open_and_check_complete, message, open_error,
}
use vole_zk.Mvzk.Verifier.Public.{check_public_exact, claim_error}
use vole_zk.Examples.{bits, ==_self}

-- Δ = 1 + 0, and the shares 1 + 0 of the value 1, with the MACs 1 + 0 and the keys 0.
abbrev delta : ℕ → Bool
delta zero = true
delta (suc i) = false

abbrev one_share : ℕ → AuthShare Bool
one_share zero = record { mac = true; key = false; share = true }
one_share (suc i) = record { mac = false; key = false; share = false }

one-Opens : Opens 2 delta one_share true
unfolding sum_to ◌⊕◌ ◌⊗◌
one-Opens = record { value = refl; linked = refl }

add_share-Opens_example :
    Opens 2 delta
      (λ i. add_share_from_diff i (delta i) (one_share i) (add_shares_diff false true))
      false
add_share-Opens_example = add_share-Opens (omega arith) false true one-Opens

eval_linear-Opens_example :
    Opens 2 delta
      (λ i.
        eval_linear i
          (delta i)
          (at_party (λ (w : ℕ). one_share) i ((true, 0) ∷ (true, 1) ∷ []))
          true)
      (linear_value true (at_prover (λ (w : ℕ). true) ((true, 0) ∷ (true, 1) ∷ [])))
eval_linear-Opens_example =
    eval_linear-Opens (λ (w : ℕ). one_share) (λ w. true) (λ w. one-Opens) (omega arith)
      ((true, 0) ∷ (true, 1) ∷ []) true

zero_shares_lem_example : sum_to (λ id. zero_shares id (λ i j. i == 0) 3) 3 ≡ false
zero_shares_lem_example = zero_shares_lem 3 (λ i j. i == 0)

-- Both verifiers mask with 1; the hash of an opening is its salt.
masks_zero : (c : ℕ) → sum_to (λ i. true) 2 ≡ false
unfolding sum_to ◌⊕◌
masks_zero c = refl

mac_check_zero_lem_example :
    let o =
      message ◌==◌
        (λ (x : Opening Bool). x.salt)
        2
        ==_self
        (λ _ _. true)
        masks_zero
        (λ i. i)
        (λ _ _. true) in
    let answer = mac_check_zero ◌==◌ (λ x. x.salt) 0 2 2 (o 0) (λ j. (o j).salt) o in
    ((answer ≡ done (o 0)) ↔ ((c : ℕ) → c < 2 → sum_to (λ i. true) 2 ≡ false))
    × ((answer ≡ done (o 0)) ⊎ (answer ≡ abort))
mac_check_zero_lem_example =
    mac_check_zero_lem ◌==◌ (λ x. x.salt) 2 ==_self (λ _ _. true) masks_zero (λ i. i) (λ _ _. true)
      2 0 (omega arith)

abbrev salted : Opening Bool → ℕ
salted x = x.salt

abbrev mask : ℕ → ℕ → Bool
mask i c = true

abbrev held : ℕ → ℕ → AuthShare Bool
held i c = one_share i

abbrev said : ℕ → Opening Bool
said =
    message ◌==◌ salted 2 ==_self mask masks_zero (λ i. i)
      (open_error ◌==◌ salted 2 ==_self mask masks_zero (λ i. i) delta held)

open_and_check_exact_example :
    (open_and_check ◌==◌ salted 1 2 false
        (held 1)
        (λ j c. (held j c).share)
        (mask 1)
        1
        (λ j. salted (said j))
        said
      ≡ done (said 1))
    ↔ (((c : ℕ)
          → c < 3
          → sum_to (λ i. (one_share i).mac) 2
            ≡ sum_to (λ i. (one_share i).key) 2
              ⊕ sum_to delta 2 ⊗ sum_to (λ i. (one_share i).share) 2)
        × (sum_to (λ i. (one_share i).share) 2
            ≡ sum_to (λ i. (one_share i).share) 2 ⊗ sum_to (λ i. (one_share i).share) 2))
open_and_check_exact_example =
    open_and_check_exact ◌==◌ salted 2 ==_self mask masks_zero (λ i. i) delta held 1 (omega arith)

open_and_check_complete_example :
    (open_and_check ◌==◌ salted 1 2 false
        (held 1)
        (λ j c. (held j c).share)
        (mask 1)
        1
        (λ j. salted (said j))
        said
      ≡ done (said 1))
    ↔ (true ≡ true ⊗ true)
open_and_check_complete_example =
    open_and_check_complete ◌==◌ salted 2 ==_self mask masks_zero (λ i. i) delta held (λ _. true)
      (λ _. one-Opens) 1 (omega arith)

-- The claims are 0 and 1 of two wires that hold 1.
abbrev claims : ℕ → Bool
claims zero = false
claims (suc w) = true

abbrev told : ℕ → Opening Bool
told =
    message ◌==◌ salted 2 ==_self mask masks_zero (λ i. i)
      (claim_error ◌==◌ salted 2 ==_self mask masks_zero (λ i. i) delta held claims (λ _. true) 2)

check_public_exact_example :
    (check_public ◌==◌ salted 0 2 true 2
        (λ _. true)
        (held 0)
        claims
        7
        (λ _. 7)
        (mask 0)
        0
        (λ j. salted (told j))
        told
      ≡ done (told 0))
    ↔ (sum_to delta 2 ⊗ sum_to (λ w. true ⊗ true) 2
        ≡ sum_to delta 2 ⊗ sum_to (λ w. claims w ⊗ true) 2)
check_public_exact_example =
    check_public_exact ◌==◌ salted 2 ==_self mask masks_zero (λ i. i) delta held claims (λ _. true)
      2 (λ _. true) (λ w lt. one-Opens) 7 0 (omega arith)
