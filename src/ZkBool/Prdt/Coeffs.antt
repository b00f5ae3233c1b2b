-- ===== src/ZkBool/Prdt/Coeffs.antt =====
-- The coefficients that the prover of a product computes are those of the polynomial that the
-- verifier evaluates at Δ.
use vole_zk.Common.{
  ℕ, zero, suc, ◌-◌, ◌≤◌, ◌<◌, leb, if◌then◌else◌, true, false, ◌≡◌, sym, ap, ap₂, ◌∙◌, arith,
}
use vole_zk.Field.{Field, ◌⊕◌, ◌⊗◌}
use vole_zk.Field.Laws.{add-zero, zero-add, zero-mul, one-mul, add-mul, ring_laws}
use vole_zk.Field.Sum.{sum_to, sum_to-add, sum_to-mul, sum_to_congr}
use vole_zk.ZkBool.Prdt.{deltas, new_coeff}

module _ {ℓ} {A : Type ℓ} ⦃f : Field A⦄ where
  unfoldable pub power : A → ℕ → A
  power d zero = f.one
  power d (suc n) = power d n ⊗ d

  pub deltas_lem : (d : A) (k : ℕ) → deltas d k ≡ power d (suc k)
  unfolding deltas power
  deltas_lem d zero = sym (one-mul d)
  deltas_lem d (suc k) = ap (λ t. t ⊗ d) (deltas_lem d k)

  -- The polynomial of `n` coefficients at `d`.
  abbrev pub at_delta : A → (ℕ → A) → ℕ → A
  at_delta d p n = sum_to (λ j. p j ⊗ power d j) n

  module _ (d : A) where
    kept_terms :
        (p : ℕ → A) (m : A) (i n : ℕ)
        → n ≤ suc i
        → at_delta d (λ j. if leb j i then p j ⊗ m else f.zero) n ≡ at_delta d p n ⊗ m
    kept_terms p m i n le =
        sum_to_congr _ _ n (λ j lt.
          ap (λ w. (if w then p j ⊗ m else f.zero) ⊗ power d j) (inside j lt)
          ∙ swap (p j) m (power d j))
        ∙ sum_to-mul (λ j. p j ⊗ power d j) m n
      where
        inside : (j : ℕ) → j < n → leb j i ≡ true
        inside j lt = ground (arith, le)

        swap : (x m y : A) → (x ⊗ m) ⊗ y ≡ (x ⊗ y) ⊗ m
        swap x m y = simp ring_laws

    moved_terms :
        (p : ℕ → A) (x : A) (n : ℕ)
        → at_delta d (λ j. if leb 1 j then p (j - 1) ⊗ x else f.zero) (suc n)
          ≡ at_delta d p n ⊗ (x ⊗ d)
    unfolding sum_to power
    moved_terms p x zero = simp (zero-mul, add-zero)
    moved_terms p x (suc n) =
        ap₂ ◌⊕◌ (moved_terms p x n) (
          ap (λ w. (if w then p (suc n - 1) ⊗ x else f.zero) ⊗ power d (suc n)) (above n)
          ∙ ap (λ j. (p j ⊗ x) ⊗ power d (suc n)) {x = suc n - 1} {y = n} (omega arith))
        ∙ collect (at_delta d p n) (p n) (power d n)
      where
        above : (n : ℕ) → leb 1 (suc n) ≡ true
        above n = ground arith

        collect : (s y z : A) → s ⊗ (x ⊗ d) ⊕ (y ⊗ x) ⊗ (z ⊗ d) ≡ (s ⊕ y ⊗ z) ⊗ (x ⊗ d)
        collect s y z = simp ring_laws

    -- One factor `m + x d` more.
    pub step_value :
        (p : ℕ → A) (x m : A) (i : ℕ)
        → at_delta d (new_coeff p x m i) (suc (suc i)) ≡ at_delta d p (suc i) ⊗ (m ⊕ x ⊗ d)
    unfolding new_coeff sum_to
    step_value p x m i =
        sum_to_congr _ _ (suc (suc i)) (λ j _. add-mul _ _ (power d j))
        ∙ sum_to-add _ _ (suc (suc i))
        ∙ ap₂ ◌⊕◌
            (ap
                (λ w.
                  at_delta d (λ j. if leb j i then p j ⊗ m else f.zero) (suc i)
                  ⊕ (if w then p (suc i) ⊗ m else f.zero) ⊗ power d (suc i))
                (beyond i)
              ∙ ap (λ t. at_delta d (λ j. if leb j i then p j ⊗ m else f.zero) (suc i) ⊕ t)
                  (zero-mul _)
              ∙ add-zero _
              ∙ kept_terms p m i (suc i) (omega arith))
            (moved_terms p x (suc i))
        ∙ collect (at_delta d p (suc i)) m (x ⊗ d)
      where
        beyond : (i : ℕ) → leb (suc i) i ≡ false
        beyond i = ground arith

        collect : (s y z : A) → s ⊗ y ⊕ s ⊗ z ≡ s ⊗ (y ⊕ z)
        collect s y z = simp ring_laws

    -- The coefficient that a factor adds at the top.
    pub top_coeff : (p : ℕ → A) (x m : A) (i : ℕ) → new_coeff p x m i (suc i) ≡ p i ⊗ x
    unfolding new_coeff
    top_coeff p x m i =
        ap₂
          (λ w w'.
            (if w then p (suc i) ⊗ m else f.zero) ⊕ (if w' then p (suc i - 1) ⊗ x else f.zero))
          (beyond i) (above i)
        ∙ zero-add _
        ∙ ap (λ j. p j ⊗ x) {x = suc i - 1} {y = i} (omega arith)
      where
        beyond : (i : ℕ) → leb (suc i) i ≡ false
        beyond i = ground arith

        above : (i : ℕ) → leb 1 (suc i) ≡ true
        above i = ground arith
