-- ===== src/ZkBool/Poly/Sum.antt =====
-- The loops split on workers are the serial loops.
use vole_zk.Common.{
  ℕ, zero, suc, ◌+◌, ◌<◌, Bool-cases, ◌≡◌, inl, inr, refl, sym, ap, ap₂, fun_ext, ◌∙◌, arith,
}
use vole_zk.Field.{Field, ◌⊕◌, ◌⊗◌}
use vole_zk.Field.Laws.{add-zero, zero-add, add_assoc}
use vole_zk.Field.Sum.{sum_to, sum_to_congr}
use vole_zk.Arith.Engine.{slice_start, slice_size}
use vole_zk.Arith.Engine.Slices.{slices_cover}
use vole_zk.ZkBool.Block.{Blocks}
use vole_zk.ZkBool.Poly.{PolySetup, serial, accum, par_accum, par_inn_prdt}

module _ {ℓ} {A : Type ℓ} ⦃f : Field A⦄ where
  -- A step that adds `g i` and `h i` to the two sums.
  pub record Additive (step : ℕ → A × A → A × A) : Type ℓ where
    pub first : ℕ → A
    pub second : ℕ → A
    pub adds : (i : ℕ) (acc : A × A) → step i acc ≡ (acc.0 ⊕ first i, acc.1 ⊕ second i)

  accum_lem :
      {step : ℕ → A × A → A × A} (a : Additive step) (start n : ℕ) (out : A × A)
      → accum step start n out ≡ (
        out.0 ⊕ sum_to (λ i. a.first (i + start)) n,
        out.1 ⊕ sum_to (λ i. a.second (i + start)) n,
      )
  unfolding accum sum_to
  accum_lem a start zero out = sym (ap₂ (λ x y. (x, y)) (add-zero out.0) (add-zero out.1))
  accum_lem {step} a start (suc n) out =
      a.adds (n + start) (accum step start n out)
      ∙ ap (λ acc. (acc.0 ⊕ a.first (n + start), acc.1 ⊕ a.second (n + start)))
          (accum_lem a start n out)
      ∙ ap₂ (λ x y. (x, y)) (add_assoc out.0 _ _) (add_assoc out.1 _ _)

  at_zero : (g : ℕ → A) → (λ i. g (i + 0)) ≡ g
  at_zero g = fun_ext λ i. ap g (omega arith)

  -- With a worker or more, a step that adds terms to the two sums gives the same, split on the
  -- workers, as in the serial loop.
  pub par_accum_lem :
      (threads n : ℕ) {step : ℕ → A × A → A × A} (out : A × A)
      → Additive step
      → 0 < threads
      → par_accum threads n step out ≡ accum step 0 n out
  unfolding par_accum
  par_accum_lem threads n {step} out a pos = elim (Bool-cases (serial threads n)) [
    | inl whole ↦ rw whole
    | inr split ↦ rw split (
        accum_lem (record { first = part0; second = part1; adds = λ _ _. refl }) 0 threads out
        ∙ ap₂ (λ x y. (out.0 ⊕ x, out.1 ⊕ y))
            (covered a.first
              (λ t.
                (accum step (slice_start threads n t) (slice_size threads n t) (f.zero, f.zero)).0)
              (λ t. ap (λ o. o.0) (slice_lem t)))
            (covered a.second
              (λ t.
                (accum step (slice_start threads n t) (slice_size threads n t) (f.zero, f.zero)).1)
              (λ t. ap (λ o. o.1) (slice_lem t)))
        ∙ sym (
            accum_lem a 0 n out
            ∙ ap₂ (λ x y. (out.0 ⊕ sum_to x n, out.1 ⊕ sum_to y n)) (at_zero a.first)
                (at_zero a.second)))
  ]
    where
      part0 : ℕ → A
      part0 t = (accum step (slice_start threads n t) (slice_size threads n t) (f.zero, f.zero)).0

      part1 : ℕ → A
      part1 t = (accum step (slice_start threads n t) (slice_size threads n t) (f.zero, f.zero)).1

      slice_lem :
          (t : ℕ)
          → accum step (slice_start threads n t) (slice_size threads n t) (f.zero, f.zero) ≡ (
            sum_to (λ i. a.first (i + slice_start threads n t)) (slice_size threads n t),
            sum_to (λ i. a.second (i + slice_start threads n t)) (slice_size threads n t),
          )
      slice_lem t =
          accum_lem a (slice_start threads n t) (slice_size threads n t) (f.zero, f.zero)
          ∙ ap₂ (λ x y. (x, y)) (zero-add _) (zero-add _)

      covered :
          (g part : ℕ → A)
          → ((t : ℕ)
              → part t ≡ sum_to (λ i. g (i + slice_start threads n t)) (slice_size threads n t))
          → sum_to (λ t. part (t + 0)) threads ≡ sum_to g n
      covered g part e =
          ap (λ p. sum_to p threads) (at_zero part)
          ∙ sum_to_congr part _ threads (λ t _. e t)
          ∙ slices_cover g threads n pos

module _ {ℓ} {A : Type ℓ} ⦃f : Field A⦄ ⦃b : Blocks A⦄ (c : PolySetup A) where
  -- With a worker or more, the inner product split on the workers is the inner product.
  pub par_inn_prdt_lem :
      (chi buf : ℕ → A) (n : ℕ)
      → 0 < c.threads
      → par_inn_prdt c chi buf n ≡ sum_to (λ i. chi i ⊗ buf i) n
  unfolding par_inn_prdt
  par_inn_prdt_lem chi buf n pos = elim (Bool-cases (serial c.threads n)) [
    | inl whole ↦ rw whole (c.red_lem chi buf n)
    | inr split ↦ rw split (
        sum_to_congr _ _ c.threads (λ t _. c.red_lem _ _ (slice_size c.threads n t))
        ∙ slices_cover (λ i. chi i ⊗ buf i) c.threads n pos)
  ]
