-- ===== src/ZkBool/Check/Sum.antt =====
-- Chunks and workers do not change the sums of the check.
use vole_zk.Common.{
  ℕ, zero, suc, ◌+◌, ◌*◌, ◌<◌, leb, ◌==◌, min, Bool-cases, inl, inr, ◌≡◌, sym, ap, ap₂, ◌∙◌, arith,
}
use vole_zk.Field.{Field, ◌⊕◌, ◌⊗◌}
use vole_zk.Field.Sum.{sum_to, sum_to_congr, sum_to_split}
use vole_zk.Arith.Engine.{slice_start, slice_size}
use vole_zk.Arith.Engine.Slices.{slices_cover}
use vole_zk.ZkBool.Outside.{InnerProduct}
use vole_zk.ZkBool.Check.{
  k_chunk, chunk_len, chunk_rounds, fold_chunks, andgate_correctness_check, batch_sum,
}

enough_rounds : (k n : ℕ) → 0 < k → min (chunk_rounds k n * k) n ≡ n
unfolding chunk_rounds
enough_rounds k n pos = grind arith

module _ {ℓ} {A W : Type ℓ} ⦃f : Field A⦄ (inner : InnerProduct A W) (chi g : ℕ → A) where
  fold_chunks_lem :
      (k start n r : ℕ)
      → inner.reduce (fold_chunks inner k chi g start n r)
        ≡ sum_to (λ i. g (i + start) ⊗ chi (i + start)) (min (r * k) n)
  unfolding fold_chunks sum_to chunk_len
  fold_chunks_lem k start n zero =
      inner.reduce_nothing
      ∙ ap (sum_to (λ i. g (i + start) ⊗ chi (i + start))) {x = 0} {y = min (0 * k) n}
          (ground arith)
  fold_chunks_lem k start n (suc r) =
      inner.reduce-combine _ _
      ∙ ap₂ ◌⊕◌ (fold_chunks_lem k start n r) (
          inner.reduce-no_red _ _ _
          ∙ sum_to_congr _ (λ i. term (i + min (r * k) n)) (chunk_len k n (r * k))
              (λ i lt. ap term {x = i + r * k} (at i lt)))
      ∙ sym (sum_to_split term (min (r * k) n) (chunk_len k n (r * k)))
      ∙ ap (sum_to term) {y = min (suc r * k) n} size
    where
      term : ℕ → A
      term i = g (i + start) ⊗ chi (i + start)

      at : (i : ℕ) → i < chunk_len k n (r * k) → i + r * k ≡ i + min (r * k) n
      at i lt = ground arith

      size : chunk_len k n (r * k) + min (r * k) n ≡ min (suc r * k) n
      size = grind arith

  check_slice_lem :
      (start n : ℕ)
      → andgate_correctness_check inner chi g start n
        ≡ sum_to (λ i. g (i + start) ⊗ chi (i + start)) n
  unfolding andgate_correctness_check sum_to
  check_slice_lem start n = elim (Bool-cases (n == 0)) [
    | inl none_left ↦
        rw none_left
          (ap (sum_to (λ i. g (i + start) ⊗ chi (i + start))) {x = 0} {y = n} (ground arith))
    | inr more ↦ rw more (
        fold_chunks_lem k_chunk start n (chunk_rounds k_chunk n)
        ∙ ap (sum_to (λ i. g (i + start) ⊗ chi (i + start)))
            (enough_rounds k_chunk n (omega arith)))
  ]

  -- Whatever the number of workers, from one on, and with the last chunk of each cut short, the sum
  -- over the buffered triples is the inner product with the coefficients.
  pub batch_sum_lem :
      (threads cnt : ℕ)
      → 0 < threads
      → batch_sum inner threads chi g cnt ≡ sum_to (λ i. g i ⊗ chi i) cnt
  unfolding batch_sum
  batch_sum_lem threads cnt pos = elim (Bool-cases (leb threads 1)) [
    | inl serial ↦ rw serial (
        check_slice_lem 0 cnt
        ∙ sum_to_congr _ _ cnt (λ i _. ap (λ j. g j ⊗ chi j) {x = i + 0} {y = i} (omega arith)))
    | inr parallel ↦ rw parallel (
        sum_to_congr _ _ threads
          (λ t _. check_slice_lem (slice_start threads cnt t) (slice_size threads cnt t))
        ∙ slices_cover (λ i. g i ⊗ chi i) threads cnt pos)
  ]
