-- ===== src/Mvzk/Verifier.antt =====
-- The checks that verifier `id` runs with the others (mvzk/zk/verifier.h). The hash and the random
-- coefficients are parameters.
pub mod Check
pub mod Public
use vole_zk.Common.{ℕ, zero, suc, Bool, true, ◌&&◌, if◌then◌else◌}
use vole_zk.Field.{Field, ◌⊕◌, ◌⊗◌, ◌⊖◌}
use vole_zk.Field.Sum.{sum_to}
use vole_zk.Arith.Engine.{Result, done, abort, ◌>>=◌}
use vole_zk.Mvzk.Share.{AuthShare}
use vole_zk.Mvzk.Mesh.{add_others, all_others, echo_check}

-- `msg`: the masked values and the salt.
pub record Opening {ℓ} (A : Type ℓ) : Type ℓ where
  pub values : ℕ → A
  pub salt : ℕ

module _ {ℓ} {A : Type ℓ} ⦃f : Field A⦄ where
  -- `for (c = 0; c < cnt; ++c) if (sum[c] != 0) ...`
  unfoldable pub all_zero : (ℕ → A) → ℕ → Bool
  all_zero sum zero = true
  all_zero sum (suc cnt) = let rest = all_zero sum cnt in rest && f.beq (sum cnt) f.zero

  unfoldable pub masked : (o theta : ℕ → A) → ℕ → Opening A
  masked o theta salt = record { values = λ c. o c ⊕ theta c; salt = salt }

  -- The values that `openAndCheck` opens, from the shares of (x, y, z) and `got`, those of the
  -- others; and what its MAC check adds up to zero.
  unfoldable pub opened : (id n : ℕ) → (ℕ → AuthShare A) → (ℕ → ℕ → A) → ℕ → A
  opened id n sh got c = add_others id (sh c).share (λ j. got j c) n

  unfoldable pub mac_error : A → (ℕ → AuthShare A) → (ℕ → A) → ℕ → A
  mac_error delta sh open_val c = ((sh c).mac ⊖ (sh c).key) ⊖ open_val c ⊗ delta

  -- `checkPublic` on `len` wires; `chi` comes from the coin of all verifiers.
  unfoldable pub public_error : A → ℕ → (chi : ℕ → A) → (ℕ → AuthShare A) → (ℕ → A) → A
  public_error delta len chi sh claimed =
      (sum_to (λ i. (sh i).mac ⊗ chi i) len ⊖ sum_to (λ i. (sh i).key ⊗ chi i) len)
      ⊖ sum_to (λ i. claimed i ⊗ chi i) len ⊗ delta

  module _ {κ} {D : Type κ} (same : D → D → Bool) (hash : Opening A → D) (id n : ℕ) where
    -- `macCheckZero` on `cnt` values, after the two exchanges.
    unfoldable pub mac_check_zero :
        ℕ → (own : Opening A) → (coms : ℕ → D) → (got : ℕ → Opening A) → Result (Opening A)
    mac_check_zero cnt own coms got =
        if all_others id (λ j. same (hash (got j)) (coms j)) n
        then if all_zero (λ c. add_others id (own.values c) (λ j. (got j).values c) n) cnt
          then done own
          else abort
        else abort

    -- `openAndCheck`, with the three rounds of messages that it receives.
    unfoldable pub open_and_check :
        A
        → (ℕ → AuthShare A)
        → (shares : ℕ → ℕ → A) → (theta : ℕ → A) → (salt : ℕ) → (coms : ℕ → D)
        → (got : ℕ → Opening A) → Result (Opening A)
    open_and_check delta sh shares theta salt coms got =
        let open_val = opened id n sh shares in
        mac_check_zero 3 (masked (mac_error delta sh open_val) theta salt) coms got >>= λ own.
        if f.beq (open_val 2) (open_val 0 ⊗ open_val 1) then done own else abort

    -- `checkPublic`.
    unfoldable pub check_public :
        A
        → ℕ
        → (chi : ℕ → A) → (ℕ → AuthShare A)
        → (claimed : ℕ → A) → (digest : D) → (digests : ℕ → D) → (theta : ℕ → A) → (salt : ℕ)
        → (coms : ℕ → D) → (got : ℕ → Opening A) → Result (Opening A)
    check_public delta len chi sh claimed digest digests theta salt coms got =
        echo_check same id n digest digests >>= λ _.
        mac_check_zero 1 (masked (λ _. public_error delta len chi sh claimed) theta salt) coms got
