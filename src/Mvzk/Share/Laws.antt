-- ===== src/Mvzk/Share/Laws.antt =====
-- What the verifiers compute on their own keeps the shares authenticated.
use vole_zk.Common.{
  ℕ, zero, suc, ◌<◌, false, ◌==◌, if◌then◌else◌, List, [], ◌∷◌, map, ◌≡◌, refl, sym, ap, ap₂, ◌∙◌,
  arith,
}
use vole_zk.Field.{Field, ◌⊕◌, ◌⊗◌, ◌⊖◌}
use vole_zk.Field.Laws.{add-zero, zero-add, add_assoc, neg-add, sub-add, mul_comm, ring_laws}
use vole_zk.Field.Sum.{sum_to, sum_to_congr, sum_to-add, sum_to-mul, sum_to_scale}
use vole_zk.Mvzk.Share.{
  AuthShare, Opens, pub_share, add_terms, eval_linear, linear_value, add_shares_diff,
  add_share_from_diff,
}

not_first : (n : ℕ) → (suc n == 0) ≡ false
not_first n = ground arith

module _ {ℓ} {A : Type ℓ} ⦃f : Field A⦄ where
  sum_zero : (g : ℕ → A) (n : ℕ) → ((k : ℕ) → k < n → g k ≡ f.zero) → sum_to g n ≡ f.zero
  unfolding sum_to
  sum_zero g zero h = refl
  sum_zero g (suc n) h =
      rw (sum_zero g n (λ k lt. h k (omega arith)), h n (omega arith)) (add-zero f.zero)

  -- A value that the first verifier alone adds.
  first_adds :
      (x : A) (g : ℕ → A) (n : ℕ)
      → sum_to (λ i. if i == 0 then x ⊕ g i else g i) (suc n) ≡ x ⊕ sum_to g (suc n)
  unfolding sum_to
  first_adds x g zero = zero-add (x ⊕ g 0) ∙ ap (λ t. x ⊕ t) (sym (zero-add (g 0)))
  first_adds x g (suc n) =
      rw (first_adds x g n, not_first n) (add_assoc x (sum_to g (suc n)) (g (suc n)))

  first_adds' :
      (x : A) (g : ℕ → A) (n : ℕ)
      → 0 < n
      → sum_to (λ i. if i == 0 then x ⊕ g i else g i) n ≡ x ⊕ sum_to g n
  first_adds' x g zero h = absurd (omega arith)
  first_adds' x g (suc n) h = first_adds x g n

  add_scaled :
      (k : A) (g h : ℕ → A) (n : ℕ) → sum_to (λ i. g i ⊕ k ⊗ h i) n ≡ sum_to g n ⊕ k ⊗ sum_to h n
  add_scaled k g h n = sum_to-add g (λ i. k ⊗ h i) n ∙ ap (λ t. sum_to g n ⊕ t) (sum_to_scale k h n)

  module _ {n : ℕ} (some : 0 < n) {delta : ℕ → A} where
    -- The verifiers' shares of a public value.
    pub pub_share-Opens : (c : A) → Opens n delta (λ i. pub_share i (delta i) c) c
    unfolding pub_share
    pub_share-Opens c = record {
      value =
          sum_to_congr _ _ n (λ i _. only_first i)
          ∙ first_adds' c (λ _. f.zero) n some
          ∙ ap (λ t. c ⊕ t) (sum_zero (λ _. f.zero) n (λ _ _. refl))
          ∙ add-zero c;
      linked =
          sum_zero (λ _. f.zero) n (λ _ _. refl)
          ∙ sym (sum_zero _ n (λ i _. cancels i))
          ∙ sum_to-add (λ i. f.neg (c ⊗ delta i)) (λ i. delta i ⊗ c) n
          ∙ ap (λ t. sum_to (λ i. f.neg (c ⊗ delta i)) n ⊕ t) (sum_to-mul delta c n);
    }
      where
        only_first :
            (i : ℕ) → (if i == 0 then c else f.zero) ≡ (if i == 0 then c ⊕ f.zero else f.zero)
        only_first i = rw (add-zero c) refl

        cancels : (i : ℕ) → f.neg (c ⊗ delta i) ⊕ delta i ⊗ c ≡ f.zero
        cancels i = rw (mul_comm (delta i) c) (neg-add (c ⊗ delta i))

    -- If the verifiers (at least one) hold shares of a preprocessed `r`, and the prover broadcasts
    -- the difference of `v` to it, what they make of the difference are shares of `v`.
    pub add_share-Opens :
        {pre : ℕ → AuthShare A} (v r : A)
        → Opens n delta pre r
        → Opens n delta (λ i. add_share_from_diff i (delta i) (pre i) (add_shares_diff v r)) v
    unfolding add_share_from_diff add_shares_diff
    add_share-Opens {pre} v r o = record {
      value =
          first_adds' (v ⊖ r) (λ i. (pre i).share) n some
          ∙ ap (λ t. (v ⊖ r) ⊕ t) o.value
          ∙ sub-add v r;
      linked =
          o.linked
          ∙ ap (λ t. t ⊕ sum_to delta n ⊗ r) (sym lowered)
          ∙ regroup _ _ _
          ∙ ap (λ t. sum_to (λ i. (pre i).key ⊖ (v ⊖ r) ⊗ delta i) n ⊕ sum_to delta n ⊗ t)
              (sub-add v r);
    }
      where
        lowered :
            sum_to (λ i. (pre i).key ⊖ (v ⊖ r) ⊗ delta i) n ⊕ sum_to delta n ⊗ (v ⊖ r)
            ≡ sum_to (λ i. (pre i).key) n
        lowered =
            ap (λ t. sum_to (λ i. (pre i).key ⊖ (v ⊖ r) ⊗ delta i) n ⊕ t)
              (sym (sum_to-mul delta (v ⊖ r) n))
            ∙ sym (sum_to-add _ _ n)
            ∙ sum_to_congr _ _ n (λ i _. rw (mul_comm (delta i) (v ⊖ r)) (sub-add _ _))

        regroup : (k d x : A) → (k ⊕ d ⊗ x) ⊕ d ⊗ r ≡ k ⊕ d ⊗ (x ⊕ r)
        regroup k d x = simp ring_laws

  -- The terms at one verifier.
  abbrev pub at_party :
      {W : Type 0} → (W → ℕ → AuthShare A) → ℕ → List (A × W) → List (A × AuthShare A)
  at_party s i = map (λ (k, w). (k, s w i))

  abbrev pub at_prover : {W : Type 0} → (W → A) → List (A × W) → List (A × A)
  at_prover v = map (λ (k, w). (k, v w))

  module _ {W : Type 0} {n : ℕ} {delta : ℕ → A} (s : W → ℕ → AuthShare A) (v : W → A)
      (opens : (w : W) → Opens n delta (s w) (v w)) where
    add_terms-Opens :
        (terms : List (A × W)) (acc : ℕ → AuthShare A) (a : A)
        → Opens n delta acc a
        → Opens n delta
            (λ i. add_terms (acc i) (at_party s i terms))
            (linear_value a (at_prover v terms))
    unfolding add_terms linear_value
    add_terms-Opens [] acc a o = o
    add_terms-Opens ((k, w) ∷ terms) acc a o = add_terms-Opens terms _ _ (record {
      value = add_scaled k _ _ n ∙ ap₂ (λ x y. x ⊕ k ⊗ y) o.value (opens w).value;
      linked =
          add_scaled k _ _ n
          ∙ ap₂ (λ x y. x ⊕ k ⊗ y) o.linked (opens w).linked
          ∙ regroup _ _ _ _ _ _
          ∙ ap (λ t. t ⊕ sum_to delta n ⊗ (a ⊕ k ⊗ v w)) (sym (add_scaled k _ _ n));
    })
      where
        regroup :
            (x y dl a k u : A) → (x ⊕ dl ⊗ a) ⊕ k ⊗ (y ⊕ dl ⊗ u) ≡ (x ⊕ k ⊗ y) ⊕ dl ⊗ (a ⊕ k ⊗ u)
        regroup x y dl a k u = simp ring_laws

    -- If the verifiers (at least one) hold shares of every wire's value, the shares that they
    -- compute of a linear expression `sum k_j w_j + c` are those of the value that the prover
    -- computes of it.
    pub eval_linear-Opens :
        0 < n
        → (terms : List (A × W)) (c : A)
        → Opens n delta
            (λ i. eval_linear i (delta i) (at_party s i terms) c)
            (linear_value c (at_prover v terms))
    unfolding eval_linear
    eval_linear-Opens some terms c = add_terms-Opens terms _ c (pub_share-Opens some c)
