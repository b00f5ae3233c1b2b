-- ===== src/Field/Sum.antt =====
-- Loops `for (k = 0; k < n; ++k) acc = acc + f(k);` that start at zero, and their laws.
use vole_zk.Common.{ℕ, zero, suc, ◌+◌, ◌-◌, ◌<◌, ◌≡◌, refl, sym, ap, ap₂, ◌∙◌, arith}
use vole_zk.Field.{Field, ◌⊕◌, ◌⊗◌}
use vole_zk.Field.Laws.{
  add-zero, zero-add, add_comm, mul_comm, add_assoc, add_interchange, zero-mul, add-mul, ring_laws,
}

module _ {ℓ} {A : Type ℓ} ⦃f : Field A⦄ where
  unfoldable pub sum_to : (ℕ → A) → ℕ → A
  sum_to g zero = f.zero
  sum_to g (suc n) = sum_to g n ⊕ g n

  pub sum_to_congr : (g h : ℕ → A) (n : ℕ) → ((k : ℕ) → k < n → g k ≡ h k) → sum_to g n ≡ sum_to h n
  unfolding sum_to
  sum_to_congr g h zero e = refl
  sum_to_congr g h (suc n) e =
      rw (sum_to_congr g h n (λ k lt. e k (omega arith)), e n (omega arith))

  pub sum_to-add : (g h : ℕ → A) (n : ℕ) → sum_to (λ k. g k ⊕ h k) n ≡ sum_to g n ⊕ sum_to h n
  unfolding sum_to
  sum_to-add g h zero = sym (add-zero f.zero)
  sum_to-add g h (suc n) = rw (sum_to-add g h n) (add_interchange _ _ _ _)

  pub sum_to-mul : (g : ℕ → A) (x : A) (n : ℕ) → sum_to (λ k. g k ⊗ x) n ≡ sum_to g n ⊗ x
  unfolding sum_to
  sum_to-mul g x zero = sym (zero-mul x)
  sum_to-mul g x (suc n) = rw (sum_to-mul g x n) (sym (add-mul (sum_to g n) (g n) x))

  pub sum_to_zeros : (n : ℕ) → sum_to (λ _. f.zero) n ≡ f.zero
  unfolding sum_to
  sum_to_zeros zero = refl
  sum_to_zeros (suc n) = rw (sum_to_zeros n) (add-zero f.zero)

  -- Two nested loops in the other order.
  pub sum_to_swap :
      (g : ℕ → ℕ → A) (n m : ℕ)
      → sum_to (λ i. sum_to (g i) m) n ≡ sum_to (λ j. sum_to (λ i. g i j) n) m
  unfolding sum_to
  sum_to_swap g zero m = sym (sum_to_zeros m)
  sum_to_swap g (suc n) m =
      ap (λ t. t ⊕ sum_to (g n) m) (sum_to_swap g n m)
      ∙ sym (sum_to-add (λ j. sum_to (λ i. g i j) n) (g n) m)

  -- A loop over `m + n` rounds is a loop over `m`, then one over the other `n`.
  pub sum_to_split :
      (g : ℕ → A) (m n : ℕ) → sum_to g (n + m) ≡ sum_to g m ⊕ sum_to (λ k. g (k + m)) n
  unfolding sum_to
  sum_to_split g m zero = rw (ap (sum_to g) {x = zero + m} {y = m} (omega arith)) (sym (add-zero _))
  sum_to_split g m (suc n) =
      ap (sum_to g) {x = suc n + m} {y = suc (n + m)} (omega arith)
      ∙ ap (λ t. t ⊕ g (n + m)) (sum_to_split g m n)
      ∙ add_assoc _ _ _

  -- The terms from the last one on.
  pub sum_to_reverse : (g : ℕ → A) (n : ℕ) → sum_to (λ k. g (n - 1 - k)) n ≡ sum_to g n
  unfolding sum_to
  sum_to_reverse g zero = refl
  sum_to_reverse g (suc n) =
      ap (sum_to (λ k. g (suc n - 1 - k))) {x = suc n} {y = n + 1} (omega arith)
      ∙ sum_to_split (λ k. g (suc n - 1 - k)) 1 n
      ∙ ap₂ ◌⊕◌ (zero-add _ ∙ ap g (omega arith))
          (sum_to_congr _ _ n (λ k _. ap g (omega arith)) ∙ sum_to_reverse g n)
      ∙ add_comm _ _

  pub sum_to_scale : (x : A) (g : ℕ → A) (n : ℕ) → sum_to (λ i. x ⊗ g i) n ≡ x ⊗ sum_to g n
  sum_to_scale x g n =
      sum_to_congr _ _ n (λ i _. mul_comm x (g i)) ∙ sum_to-mul g x n ∙ mul_comm (sum_to g n) x

  -- Relations of the form of the multiplication check, from the terms to their sums.
  pub sum_to_linear :
      (d : A) (a1 b e a0 p : ℕ → A) (n : ℕ)
      → ((k : ℕ) → k < n → (a1 k ⊗ d ⊕ b k) ⊕ e k ⊗ d ⊗ d ≡ a0 k ⊕ p k ⊗ d ⊗ d)
      → (sum_to a1 n ⊗ d ⊕ sum_to b n) ⊕ sum_to e n ⊗ d ⊗ d ≡ sum_to a0 n ⊕ sum_to p n ⊗ d ⊗ d
  unfolding sum_to
  sum_to_linear d a1 b e a0 p zero h = simp (zero-mul, add-zero)
  sum_to_linear d a1 b e a0 p (suc n) h =
      left (sum_to a1 n) (a1 n) (sum_to b n) (b n) (sum_to e n) (e n)
      ∙ ap₂ ◌⊕◌ (sum_to_linear d a1 b e a0 p n (λ k lt. h k (omega arith))) (h n (omega arith))
      ∙ right (sum_to a0 n) (a0 n) (sum_to p n) (p n)
    where
      left :
          (s x t y u z : A)
          → ((s ⊕ x) ⊗ d ⊕ (t ⊕ y)) ⊕ (u ⊕ z) ⊗ d ⊗ d
            ≡ ((s ⊗ d ⊕ t) ⊕ u ⊗ d ⊗ d) ⊕ ((x ⊗ d ⊕ y) ⊕ z ⊗ d ⊗ d)
      left s x t y u z = simp ring_laws

      right : (s x t y : A) → (s ⊕ t ⊗ d ⊗ d) ⊕ (x ⊕ y ⊗ d ⊗ d) ≡ (s ⊕ x) ⊕ (t ⊕ y) ⊗ d ⊗ d
      right s x t y = simp ring_laws

  -- The same for the terms weighted by coefficients.
  pub sum_to_weighted :
      (d : A) (a1 b e a0 p r : ℕ → A) (n : ℕ)
      → ((k : ℕ) → k < n → (a1 k ⊗ d ⊕ b k) ⊕ e k ⊗ d ⊗ d ≡ a0 k ⊕ p k ⊗ d ⊗ d)
      → (sum_to (λ k. a1 k ⊗ r k) n ⊗ d ⊕ sum_to (λ k. b k ⊗ r k) n)
          ⊕ sum_to (λ k. e k ⊗ r k) n ⊗ d ⊗ d
        ≡ sum_to (λ k. a0 k ⊗ r k) n ⊕ sum_to (λ k. p k ⊗ r k) n ⊗ d ⊗ d
  sum_to_weighted d a1 b e a0 p r n h = sum_to_linear d _ _ _ _ _ n λ k lt.
      spread (a1 k) (b k) (e k) (r k) ∙ ap (λ q. q ⊗ r k) (h k lt) ∙ collect (a0 k) (p k) (r k)
    where
      spread : (x y z r : A) → (x ⊗ r ⊗ d ⊕ y ⊗ r) ⊕ z ⊗ r ⊗ d ⊗ d ≡ ((x ⊗ d ⊕ y) ⊕ z ⊗ d ⊗ d) ⊗ r
      spread x y z r = simp ring_laws

      collect : (u w r : A) → (u ⊕ w ⊗ d ⊗ d) ⊗ r ≡ u ⊗ r ⊕ w ⊗ r ⊗ d ⊗ d
      collect u w r = simp ring_laws

  -- The same for relations with no second term, the coefficients on the left.
  pub sum_to_rows :
      (d : A) (r a1 b a0 p : ℕ → A) (n : ℕ)
      → ((i : ℕ) → i < n → a1 i ⊗ d ⊕ b i ≡ a0 i ⊕ p i ⊗ (d ⊗ d))
      → (sum_to (λ k. r k ⊗ a1 k) n ⊗ d ⊕ sum_to (λ k. r k ⊗ b k) n) ⊕ f.zero
        ≡ sum_to (λ k. r k ⊗ a0 k) n ⊕ sum_to (λ k. r k ⊗ p k) n ⊗ (d ⊗ d)
  unfolding sum_to
  sum_to_rows d r a1 b a0 p zero h = simp (zero-mul, add-zero)
  sum_to_rows d r a1 b a0 p (suc n) h =
      left (sum_to (λ k. r k ⊗ a1 k) n) (r n) (a1 n) (sum_to (λ k. r k ⊗ b k) n) (b n) f.zero
      ∙ ap₂ (λ x y. x ⊕ r n ⊗ y) (sum_to_rows d r a1 b a0 p n (λ k lt. h k (omega arith)))
          (h n (omega arith))
      ∙ right _ _ _ _ _
    where
      left :
          (s x a t b z : A)
          → ((s ⊕ x ⊗ a) ⊗ d ⊕ (t ⊕ x ⊗ b)) ⊕ z ≡ ((s ⊗ d ⊕ t) ⊕ z) ⊕ x ⊗ (a ⊗ d ⊕ b)
      left s x a t b z = simp ring_laws

      right :
          (s t x a p : A)
          → (s ⊕ t ⊗ (d ⊗ d)) ⊕ x ⊗ (a ⊕ p ⊗ (d ⊗ d)) ≡ (s ⊕ x ⊗ a) ⊕ (t ⊕ x ⊗ p) ⊗ (d ⊗ d)
      right s t x a p = simp ring_laws
