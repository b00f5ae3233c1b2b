-- ===== src/Arith/Engine/Slices.antt =====
-- The slices of the buffered triples that the workers check.
use vole_zk.Common.{
  ℕ, zero, suc, ◌+◌, ◌-◌, ◌*◌, ◌/◌, ◌≤◌, ◌<◌, ◌==◌, if◌then◌else◌, Bool-cases, ◌≡◌, inl, inr, sym,
  ap, ap₂, ◌∙◌, arith,
}
use vole_zk.Field.{Field, ◌⊕◌}
use vole_zk.Field.Sum.{sum_to, sum_to_split}
use vole_zk.Arith.Engine.{slice_start, slice_size}

quotient_room : (threads cnt t : ℕ) → t < threads → (t + 1) * (cnt / threads) ≤ cnt
quotient_room threads cnt t h = grind arith

-- Position `k` of the slice of worker `t` is one of the buffered triples.
pub slice_in_range :
    (threads cnt t k : ℕ)
    → t < threads
    → k < slice_size threads cnt t
    → k + slice_start threads cnt t < cnt
unfolding slice_start slice_size
slice_in_range threads cnt t k ht hk = elim (Bool-cases (t + 1 == threads)) [
  | inl last ↦ ground arith
  | inr inner ↦ grind (arith, quotient_room threads cnt t)
]

module _ {ℓ} {A : Type ℓ} ⦃f : Field A⦄ (g : ℕ → A) (threads cnt : ℕ) where
  slice_sum : ℕ → A
  slice_sum t = sum_to (λ k. g (k + slice_start threads cnt t)) (slice_size threads cnt t)

  -- The first `m` slices, none of them the last.
  first_slices : (m : ℕ) → m < threads → sum_to slice_sum m ≡ sum_to g (m * (cnt / threads))
  unfolding sum_to slice_sum slice_start slice_size
  first_slices zero h = ap (sum_to g) {x = 0} {y = 0 * (cnt / threads)} (omega arith)
  first_slices (suc m) h =
      ap₂ ◌⊕◌ (first_slices m (omega arith)) (ap (sum_to (λ k. g (k + m * (cnt / threads)))) size)
      ∙ sym (sum_to_split g (m * (cnt / threads)) (cnt / threads))
      ∙ ap (sum_to g) {x = cnt / threads + m * (cnt / threads)} (omega arith)
    where
      size : (if m + 1 == threads then cnt - m * (cnt / threads) else cnt / threads) ≡ cnt / threads
      size = ground arith

  -- With at least one worker, a sum over the slices of all workers is the sum over the buffered
  -- triples: the slices cover them, each once.
  pub slices_cover :
      0 < threads
      → sum_to
          (λ t. sum_to (λ k. g (k + slice_start threads cnt t)) (slice_size threads cnt t))
          threads
        ≡ sum_to g cnt
  unfolding slice_sum sum_to slice_start slice_size
  slices_cover h =
      ap (sum_to slice_sum) {x = threads} {y = suc (threads - 1)} (omega arith)
      ∙ ap₂ ◌⊕◌ (first_slices (threads - 1) (omega arith))
          (ap (sum_to (λ k. g (k + (threads - 1) * (cnt / threads)))) last_size)
      ∙ sym (sum_to_split g ((threads - 1) * (cnt / threads)) _)
      ∙ ap (sum_to g) {y = cnt}
          (omega (arith, quotient_room threads cnt (threads - 1) (omega arith), before_last))
    where
      last_size :
          (if threads - 1 + 1 == threads
            then cnt - (threads - 1) * (cnt / threads)
            else cnt / threads)
          ≡ cnt - (threads - 1) * (cnt / threads)
      last_size = ground arith

      before_last : (threads - 1) * (cnt / threads) ≤ (threads - 1 + 1) * (cnt / threads)
      before_last = grind arith
