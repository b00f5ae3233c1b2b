-- ===== src/Mvzk/Verifier/Check.antt =====
-- What the verifiers accept, when each sends to all what the code computes.
use vole_zk.Common.{
  ℕ, zero, suc, ◌<◌, Bool, true, false, ◌==◌, ◌&&◌, if◌then◌else◌, Bool-cases, iff_trans, ltb,
  ltb→lt, ◌≡◌, ◌↔◌, ◌⊎◌, fun_ext, refl, sym, ap, ap₂, ◌∙◌, inl, inr, arith,
}
use vole_zk.Field.{Field, ◌⊕◌, ◌⊗◌, ◌⊖◌}
use vole_zk.Field.Laws.{add-zero, zero-add, add_cancel, sub-add, mul_comm, ring_laws}
use vole_zk.Field.Sum.{sum_to, sum_to_congr, sum_to-add, sum_to-mul}
use vole_zk.Arith.Engine.{Result, done, abort, ◌>>=◌}
use vole_zk.Mvzk.Share.{AuthShare, Opens}
use vole_zk.Mvzk.Mesh.{add_others, all_others}
use vole_zk.Mvzk.Mesh.Zero.{others_whole}
use vole_zk.Mvzk.Verifier.{
  Opening, all_zero, masked, mac_check_zero, opened, mac_error, open_and_check,
}

pub all_others-true :
    (id : ℕ) (p : ℕ → Bool) (n : ℕ) → ((j : ℕ) → p j ≡ true) → all_others id p n ≡ true
unfolding all_others
all_others-true id p zero h = refl
all_others-true id p (suc n) h = rw (all_others-true id p n h, h n) (same (n == id))
  where
    same : (b : Bool) → (if b then true else true) ≡ true
    same true = refl
    same false = refl

and_iff : (a b : Bool) → ((a && b) ≡ true) ↔ ((a ≡ true) × (b ≡ true))
and_iff true b = (λ e. (refl, e), λ e. e.1)
and_iff false b = (λ e. (e, absurd (ground arith)), λ e. e.0)

-- `if (!test) mvzk_fail(...)`.
test_iff {κ} :
    {B : Type κ} (b : Bool) (x : B)
    → (((if b then done x else abort) ≡ done x) ↔ (b ≡ true))
      × (((if b then done x else abort) ≡ done x) ⊎ ((if b then done x else abort) ≡ abort))
test_iff true x = ((λ _. refl, λ _. refl), inl refl)
test_iff false x = ((λ e. cc e, λ e. cc e), inr refl)

both_tests {κ} :
    {B : Type κ} (x : Result B) (own : B) (b : Bool)
    → (x ≡ done own) ⊎ (x ≡ abort)
    → ((x >>= λ w. if b then done w else abort) ≡ done own) ↔ ((x ≡ done own) × (b ≡ true))
both_tests x own b (inl e) =
    rw e (let test = (test_iff b own).0 in (λ t. (refl, test.0 t), λ p. test.1 p.1))
both_tests x own b (inr e) = rw e (λ t. cc t, λ p. cc (p.0))

module _ {ℓ} {A : Type ℓ} ⦃f : Field A⦄ where
  all_zero_iff :
      (sum : ℕ → A) (cnt : ℕ) → (all_zero sum cnt ≡ true) ↔ ((c : ℕ) → c < cnt → sum c ≡ f.zero)
  unfolding all_zero
  all_zero_iff sum zero = (λ _ c h. absurd (omega arith), λ _. refl)
  all_zero_iff sum (suc cnt) =
      let rest = all_zero_iff sum cnt in
      let both = and_iff (all_zero sum cnt) (f.beq (sum cnt) f.zero) in
      (
        λ e c lt. elim (Bool-cases (ltb c cnt)) [
          | inl h ↦ rest.0 (both.0 e).0 c (ltb→lt c cnt h)
          | inr h ↦ rw (newest c cnt lt h) ((f.beq_iff (sum cnt) f.zero).0 (both.0 e).1)
        ],
        λ h. both.1 (
          rest.1 (λ c lt. h c (omega arith)),
          (f.beq_iff (sum cnt) f.zero).1 (h cnt (omega arith)),
        ),
      )
    where
      newest : (c cnt : ℕ) → c < suc cnt → ltb c cnt ≡ false → c ≡ cnt
      newest c cnt lt h = ground arith

  sum_to-sub : (g h : ℕ → A) (n : ℕ) → sum_to (λ i. g i ⊖ h i) n ⊕ sum_to h n ≡ sum_to g n
  sum_to-sub g h n = sym (sum_to-add _ h n) ∙ sum_to_congr _ _ n (λ i _. sub-add (g i) (h i))

  -- The errors add up to zero exactly if the MACs do to the keys and Δ v.
  pub errors_iff :
      (mac key delta : ℕ → A) (v : A) (n : ℕ)
      → (sum_to (λ i. (mac i ⊖ key i) ⊖ v ⊗ delta i) n ≡ f.zero)
        ↔ (sum_to mac n ≡ sum_to key n ⊕ sum_to delta n ⊗ v)
  errors_iff mac key delta v n = (
    λ e. sym whole ∙ ap (λ t. t ⊕ (sum_to key n ⊕ sum_to delta n ⊗ v)) e ∙ zero-add _,
    λ e. add_cancel _ _ _ (whole ∙ e ∙ sym (zero-add _)),
  )
    where
      scaled : sum_to (λ i. v ⊗ delta i) n ≡ sum_to delta n ⊗ v
      scaled = sum_to_congr _ _ n (λ i _. mul_comm v (delta i)) ∙ sum_to-mul delta v n

      regroup : (x y z : A) → x ⊕ (y ⊕ z) ≡ (x ⊕ z) ⊕ y
      regroup x y z = simp ring_laws

      whole :
          sum_to (λ i. (mac i ⊖ key i) ⊖ v ⊗ delta i) n ⊕ (sum_to key n ⊕ sum_to delta n ⊗ v)
          ≡ sum_to mac n
      whole =
          regroup _ _ _
          ∙ ap (λ t. t ⊕ sum_to key n)
              (ap (λ t. sum_to (λ i. (mac i ⊖ key i) ⊖ v ⊗ delta i) n ⊕ t) (sym scaled)
                ∙ sum_to-sub (λ i. mac i ⊖ key i) (λ i. v ⊗ delta i) n)
          ∙ sum_to-sub mac key n

  module _ {κ} {D : Type κ} (same : D → D → Bool) (hash : Opening A → D) (n : ℕ)
      (same_self : (x : D) → same x x ≡ true) (theta : ℕ → ℕ → A)
      (masks : (c : ℕ) → sum_to (λ i. theta i c) n ≡ f.zero) (salt : ℕ → ℕ) where
    -- The masks go away: what is published adds up to the sum of the errors.
    masks_cancel :
        (o : ℕ → ℕ → A) (id c : ℕ)
        → id < n
        → add_others id (o id c ⊕ theta id c) (λ j. o j c ⊕ theta j c) n ≡ sum_to (λ i. o i c) n
    masks_cancel o id c h =
        others_whole id (λ j. o j c ⊕ theta j c) n h
        ∙ sum_to-add (λ j. o j c) (λ j. theta j c) n
        ∙ ap (λ t. sum_to (λ i. o i c) n ⊕ t) (masks c)
        ∙ add-zero _

    abbrev pub message : (ℕ → ℕ → A) → ℕ → Opening A
    message o i = masked (o i) (theta i) (salt i)

    -- When every verifier publishes its `cnt` values masked as the code does, with masks that add
    -- up to zero, and the comparison of digests is reflexive, each verifier accepts exactly if
    -- every value sums to zero over the verifiers, and else aborts.
    pub mac_check_zero_lem :
        (o : ℕ → ℕ → A) (cnt id : ℕ)
        → id < n
        → let answer =
            mac_check_zero same hash id n cnt
              (message o id)
              (λ j. hash (message o j))
              (message o) in
          ((answer ≡ done (message o id)) ↔ ((c : ℕ) → c < cnt → sum_to (λ i. o i c) n ≡ f.zero))
          × ((answer ≡ done (message o id)) ⊎ (answer ≡ abort))
    unfolding mac_check_zero masked
    mac_check_zero_lem o cnt id h =
        rw
          (all_others-true id (λ j. same (hash (message o j)) (hash (message o j))) n
            (λ j. same_self _))
          (let test =
              test_iff
                (all_zero (λ c. add_others id (o id c ⊕ theta id c) (λ j. o j c ⊕ theta j c) n) cnt)
                (message o id) in
            (
              iff_trans test.0 (
                  iff_trans (all_zero_iff _ cnt) (
                    λ e c lt. sym (masks_cancel o id c h) ∙ e c lt,
                    λ e c lt. masks_cancel o id c h ∙ e c lt,
                  )),
              test.1,
            ))

    module _ (delta : ℕ → A) where
      module _ (sh : ℕ → ℕ → AuthShare A) where
        -- What is opened for the value `c`.
        abbrev pub total : ℕ → A
        total c = sum_to (λ i. (sh i c).share) n

        opened-total : (id : ℕ) → id < n → opened id n (sh id) (λ j c. (sh j c).share) ≡ total
        unfolding opened
        opened-total id h = fun_ext λ c. others_whole id (λ j. (sh j c).share) n h

        abbrev pub open_error : ℕ → ℕ → A
        open_error i = mac_error (delta i) (sh i) total

        open_error_iff :
            (c : ℕ)
            → (sum_to (λ i. open_error i c) n ≡ f.zero) ↔ (
                sum_to (λ i. (sh i c).mac) n
                ≡ sum_to (λ i. (sh i c).key) n ⊕ sum_to delta n ⊗ total c)
        unfolding mac_error
        open_error_iff c = errors_iff _ _ delta (total c) n

        -- The verifiers hold any shares of three values and send the shares, then the errors of
        -- the MACs under masks that add up to zero. Each accepts exactly if, for each value, the
        -- MACs add up to the keys and Δ times the opened value, and the third opened value is the
        -- product of the others.
        pub open_and_check_exact :
            (id : ℕ)
            → id < n
            → (open_and_check same hash id n
                  (delta id)
                  (sh id)
                  (λ j c. (sh j c).share)
                  (theta id)
                  (salt id)
                  (λ j. hash (message open_error j))
                  (message open_error)
                ≡ done (message open_error id))
              ↔ (((c : ℕ)
                    → c < 3
                    → sum_to (λ i. (sh i c).mac) n
                      ≡ sum_to (λ i. (sh i c).key) n ⊕ sum_to delta n ⊗ total c)
                  × (total 2 ≡ total 0 ⊗ total 1))
        unfolding open_and_check
        open_and_check_exact id h = rw (opened-total id h) (
            let zero_check = mac_check_zero_lem open_error 3 id h in
            iff_trans
              (both_tests _ (message open_error id) (f.beq (total 2) (total 0 ⊗ total 1))
                zero_check.1)
              (
                λ (e, p).
                    (λ c lt. (open_error_iff c).0 (zero_check.0.0 e c lt), (f.beq_iff _ _).0 p),
                λ (e, p).
                    (zero_check.0.1 (λ c lt. (open_error_iff c).1 (e c lt)), (f.beq_iff _ _).1 p),
              ))

        -- If the shares are authenticated shares of (x, y, z), and all is sent as the code does,
        -- each verifier accepts exactly if z = x y.
        pub open_and_check_complete :
            (v : ℕ → A)
            → ((c : ℕ) → Opens n delta (λ i. sh i c) (v c))
            → (id : ℕ) → id < n
            → (open_and_check same hash id n
                  (delta id)
                  (sh id)
                  (λ j c. (sh j c).share)
                  (theta id)
                  (salt id)
                  (λ j. hash (message open_error j))
                  (message open_error)
                ≡ done (message open_error id))
              ↔ (v 2 ≡ v 0 ⊗ v 1)
        open_and_check_complete v opens id h = iff_trans (open_and_check_exact id h) (
          λ (_, p). sym (opens 2).value ∙ p ∙ ap₂ ◌⊗◌ (opens 0).value (opens 1).value,
          λ p. (
            λ c _.
                (opens c).linked
                ∙ ap (λ t. sum_to (λ i. (sh i c).key) n ⊕ sum_to delta n ⊗ t) (sym (opens c).value),
            (opens 2).value ∙ p ∙ sym (ap₂ ◌⊗◌ (opens 0).value (opens 1).value),
          ),
        )
