-- ===== src/Mvzk/Mesh/Zero.antt =====
-- Sums over the other verifiers, and the sharings of zero.
use vole_zk.Common.{
  ℕ, zero, suc, ◌+◌, ◌-◌, ◌%◌, ◌≤◌, ◌<◌, false, ◌==◌, ==_iff, Bool-cases, ◌≡◌, sym, ap, ap₂, ◌∙◌,
  inl, inr, arith,
}
use vole_zk.Field.{Field, ◌⊕◌}
use vole_zk.Field.Laws.{
  add-zero, zero-add, add_assoc, add_comm, add_interchange, add_cancel, neg-add,
}
use native.Mathlib.Nat.{add-mod_right, mod-eq_of_lt}
use vole_zk.Field.Sum.{sum_to, sum_to_congr, sum_to-add, sum_to_split, sum_to_swap, sum_to_reverse}
use vole_zk.Mvzk.Mesh.{add_others, own_share, add_ring, zero_shares}

module _ {ℓ} {A : Type ℓ} ⦃f : Field A⦄ (id : ℕ) (acc : A) (g : ℕ → A) where
  others_before : (n : ℕ) → n ≤ id → add_others id acc g n ≡ acc ⊕ sum_to g n
  unfolding add_others sum_to
  others_before zero h = sym (add-zero acc)
  others_before (suc n) h = rw (apart n h, others_before n (omega arith)) (add_assoc _ _ _)
    where
      apart : (n : ℕ) → n < id → (n == id) ≡ false
      apart n h = ground arith

  -- The others' values and one's own make up the whole sum.
  pub others-add_own : (n : ℕ) → id < n → add_others id acc g n ⊕ g id ≡ acc ⊕ sum_to g n
  unfolding add_others sum_to
  others-add_own zero h = absurd (omega arith)
  others-add_own (suc n) h = elim (Bool-cases (n == id)) [
    | inl e ↦ rw e (last n ((==_iff n id).0 e))
    | inr e ↦
        rw e (swap _ _ _ ∙ ap (λ t. t ⊕ g n) (others-add_own n (below n h e)) ∙ add_assoc _ _ _)
  ]
    where
      last : (n : ℕ) → n ≡ id → add_others id acc g n ⊕ g id ≡ acc ⊕ (sum_to g n ⊕ g n)
      last n e = rw (others_before n (omega arith), e) (add_assoc _ _ _)

      swap : (x y z : A) → (x ⊕ y) ⊕ z ≡ (x ⊕ z) ⊕ y
      swap x y z = add_assoc x y z ∙ ap (λ t. x ⊕ t) (add_comm y z) ∙ sym (add_assoc x z y)

      below : (n : ℕ) → id < suc n → (n == id) ≡ false → id < n
      below n h e = ground arith

module _ {ℓ} {A : Type ℓ} ⦃f : Field A⦄ where
  -- Started from one's own value, the sum is the whole.
  pub others_whole : (id : ℕ) (g : ℕ → A) (n : ℕ) → id < n → add_others id (g id) g n ≡ sum_to g n
  others_whole id g n h =
      add_cancel _ _ (g id) (others-add_own id (g id) g n h ∙ add_comm (g id) (sum_to g n))

module _ {ℓ} {A : Type ℓ} ⦃f : Field A⦄ (n : ℕ) where
  -- The order of the ring does not matter.
  ring_order :
      (id : ℕ) (g : ℕ → A)
      → id < n
      → sum_to (λ k. g ((id + n - 1 - k) % n)) (n - 1) ⊕ g id ≡ sum_to g n
  unfolding sum_to
  ring_order id g h =
      ap (λ t. t ⊕ g id)
        (ap (sum_to (λ k. g ((id + n - 1 - k) % n))) {y = n - 1 - id + id} (omega arith)
          ∙ sum_to_split (λ k. g ((id + n - 1 - k) % n)) id (n - 1 - id)
          ∙ ap₂ ◌⊕◌ low high)
      ∙ swap _ _ _
      ∙ sym (sum_to_split g (suc id) (n - 1 - id))
      ∙ ap (sum_to g) {y = n} (omega arith)
    where
      swap : (x y z : A) → (x ⊕ y) ⊕ z ≡ (x ⊕ z) ⊕ y
      swap x y z = add_assoc x y z ∙ ap (λ t. x ⊕ t) (add_comm y z) ∙ sym (add_assoc x z y)

      low : sum_to (λ k. g ((id + n - 1 - k) % n)) id ≡ sum_to g id
      low = sum_to_congr _ _ id (λ k lt. ap g (around k lt)) ∙ sum_to_reverse g id
        where
          around : (k : ℕ) → k < id → (id + n - 1 - k) % n ≡ id - 1 - k
          around k lt =
              ap (λ t. t % n) {y = id - 1 - k + n} (omega arith)
              ∙ add-mod_right (id - 1 - k) n
              ∙ mod-eq_of_lt (omega arith)

      high :
          sum_to (λ k. g ((id + n - 1 - (k + id)) % n)) (n - 1 - id)
          ≡ sum_to (λ k. g (k + suc id)) (n - 1 - id)
      high =
          sum_to_congr _ _ (n - 1 - id) (λ k lt. ap g (mod-eq_of_lt (omega arith) ∙ omega arith))
          ∙ sum_to_reverse (λ k. g (k + suc id)) (n - 1 - id)

  add_ring_lem :
      (id : ℕ) (acc : A) (g : ℕ → A) (k : ℕ)
      → add_ring id acc g n k ≡ acc ⊕ sum_to (λ k. g ((id + n - 1 - k) % n)) k
  unfolding add_ring sum_to
  add_ring_lem id acc g zero = sym (add-zero acc)
  add_ring_lem id acc g (suc k) = rw (add_ring_lem id acc g k) (add_assoc _ _ _)

  -- Whatever each verifier deals to the others, the shares that the `n` verifiers end up with add
  -- up to zero.
  pub zero_shares_lem : (deal : ℕ → ℕ → A) → sum_to (λ id. zero_shares id deal n) n ≡ f.zero
  unfolding zero_shares own_share
  zero_shares_lem deal = add_cancel _ _ (sum_to (λ id. sum_to (deal id) n) n) (
      sym (sum_to-add _ _ n)
      ∙ sum_to_congr _ _ n one
      ∙ sum_to_swap (λ id j. deal j id) n n
      ∙ sym (zero-add _))
    where
      one :
          (id : ℕ)
          → id < n
          → add_ring id (f.neg (add_others id f.zero (deal id) n)) (λ j. deal j id) n (n - 1)
              ⊕ sum_to (deal id) n
            ≡ sum_to (λ j. deal j id) n
      one id h =
          ap₂ ◌⊕◌ (add_ring_lem id _ (λ j. deal j id) (n - 1))
            (sym (zero-add _) ∙ sym (others-add_own id f.zero (deal id) n h))
          ∙ add_interchange _ _ _ _
          ∙ ap₂ ◌⊕◌ (neg-add (add_others id f.zero (deal id) n)) (ring_order id (λ j. deal j id) h)
          ∙ zero-add _
