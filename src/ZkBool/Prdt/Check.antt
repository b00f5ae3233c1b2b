-- ===== src/ZkBool/Prdt/Check.antt =====
-- `batch_check` of the products: which messages the verifier accepts.
use vole_zk.Common.{
  ℕ, suc, ◌+◌, ◌<◌, iff_trans, List, ◌∷◌, ◌++◌, ◌≡◌, ◌↔◌, ◌⊎◌, refl, sym, ap, ap₂, ◌∙◌,
}
use vole_zk.Field.{Field, ◌⊕◌, ◌⊗◌}
use vole_zk.Field.Laws.{
  zero-add, mul-one, add_comm, add_assoc, mul_assoc, add-mul, mul-add, add_cancel,
}
use vole_zk.Field.Sum.{sum_to, sum_to-add, sum_to-mul, sum_to_congr, sum_to_swap, sum_to_scale}
use vole_zk.Arith.Engine.{done, abort}
use vole_zk.Arith.Engine.Check.{passed_iff, passed_or_abort}
use vole_zk.Arith.Poly.Check.{nonempty}
use vole_zk.ZkBool.Block.{Blocks, add_twice}
use vole_zk.ZkBool.Check.{Message, block}
use vole_zk.ZkBool.Prdt.{RamPolyPrdt, PrdtSetup, deltas, prdt_check_send, prdt_check_recv}
use vole_zk.ZkBool.Prdt.Coeffs.{power, deltas_lem, at_delta}

module _ {ℓ} {A : Type ℓ} ⦃f : Field A⦄ where
  -- A prover that adds `e 0`, `e 1`, ... to the blocks that the code sends.
  abbrev pub all_shifted : (ℕ → A) → List (Message A) → List (Message A)
  all_shifted e (block u ∷ rest) = block (u ⊕ e 0) ∷ all_shifted (λ j. e (suc j)) rest
  all_shifted e rest = rest

  -- The two sides hold the same products; `e i` is how far the one in slot `i` is off.
  pub record SamePrdts (d : A) (e : ℕ → A) (s t : RamPolyPrdt A) : Type ℓ where
    pub num : s.num ≡ t.num
    pub seed : s.checks ≡ t.checks
    pub row : (i : ℕ) → i < s.num → at_delta d (λ j. s.buffer j i) 5 ≡ t.buffer 0 i ⊕ e i

module _ {ℓ} {A : Type ℓ} ⦃f : Field A⦄ ⦃b : Blocks A⦄ (c : PrdtSetup A) (d : A) where
  -- The sum that the verifier forms of the five blocks.
  five_lem :
      (g : ℕ → A)
      → g 0 ⊕ (((g 1 ⊗ deltas d 0 ⊕ g 2 ⊗ deltas d 1) ⊕ g 3 ⊗ deltas d 2) ⊕ g 4 ⊗ deltas d 3)
        ≡ at_delta d g 5
  unfolding sum_to
  five_lem g =
      ap₂ (λ x y. x ⊕ y) (sym (zero-add _ ∙ ap (λ t. g 0 ⊗ t) unit ∙ mul-one (g 0)))
        (ap₂ ◌⊕◌
          (ap₂ ◌⊕◌
            (ap₂ ◌⊕◌ (ap (λ t. g 1 ⊗ t) (deltas_lem d 0)) (ap (λ t. g 2 ⊗ t) (deltas_lem d 1)))
            (ap (λ t. g 3 ⊗ t) (deltas_lem d 2)))
          (ap (λ t. g 4 ⊗ t) (deltas_lem d 3)))
      ∙ reassociated _ _ _ _ _
    where
      unit : power d 0 ≡ f.one
      unit = unfold power in refl

      reassociated : (u v w x y : A) → u ⊕ (((v ⊕ w) ⊕ x) ⊕ y) ≡ (((u ⊕ v) ⊕ w) ⊕ x) ⊕ y
      reassociated u v w x y = simp (add_assoc)

  at_delta-add :
      (g h : ℕ → A) (n : ℕ) → at_delta d (λ j. g j ⊕ h j) n ≡ at_delta d g n ⊕ at_delta d h n
  at_delta-add g h n =
      sum_to_congr _ _ n (λ j _. add-mul (g j) (h j) (power d j)) ∙ sum_to-add _ _ n

  -- The random sums of the columns, taken at `d`, are the random sum of the rows at `d`.
  columns_lem :
      (chi : ℕ → A) (buf : ℕ → ℕ → A) (n : ℕ)
      → at_delta d (λ j. sum_to (λ i. chi i ⊗ buf j i) n) 5
        ≡ sum_to (λ i. chi i ⊗ at_delta d (λ j. buf j i) 5) n
  columns_lem chi buf n =
      sum_to_congr _ _ 5 (λ j _. sym (sum_to-mul (λ i. chi i ⊗ buf j i) (power d j) n))
      ∙ sum_to_swap (λ j i. (chi i ⊗ buf j i) ⊗ power d j) 5 n
      ∙ sum_to_congr _ _ n λ i _.
        sum_to_congr _ _ 5 (λ j _. mul_assoc (chi i) (buf j i) (power d j))
        ∙ sum_to_scale (chi i) (λ j. buf j i ⊗ power d j) 5

  module _ (e : ℕ → A) {s t : RamPolyPrdt A} (same : SamePrdts d e s t) where
    -- How far all products of the buffer are off, with the coefficients of the next check.
    abbrev pub total_error : A
    total_error = sum_to (λ i. c.chi s.checks i ⊗ e i) s.num

    sums_lem :
        at_delta d (λ j. c.red (c.chi s.checks) (s.buffer j) s.num) 5
        ≡ c.red (c.chi t.checks) (t.buffer 0) t.num ⊕ total_error
    sums_lem =
        sum_to_congr _ _ 5
          (λ j _. ap (λ q. q ⊗ power d j) (c.red_lem (c.chi s.checks) (s.buffer j) s.num))
        ∙ columns_lem (c.chi s.checks) s.buffer s.num
        ∙ sum_to_congr _ _ s.num (λ i lt.
          ap (λ q. c.chi s.checks i ⊗ q) (same.row i lt)
          ∙ mul-add (c.chi s.checks i) (t.buffer 0 i) (e i))
        ∙ sum_to-add _ _ s.num
        ∙ ap (λ q. q ⊕ total_error)
            (sym (c.red_lem (c.chi s.checks) (t.buffer 0) s.num)
              ∙ ap₂ (λ k n. c.red (c.chi k) (t.buffer 0) n) same.seed same.num)

    -- Adding the same twice leaves nothing.
    accept_iff : (w v x : A) → (w ≡ (w ⊕ v) ⊕ x) ↔ (x ≡ v)
    accept_iff w v x = (
      λ h.
          add_cancel x v (w ⊕ v)
            (add_comm x (w ⊕ v) ∙ sym h ∙ sym (ap (λ q. q) (add_comm v (w ⊕ v) ∙ add_twice w v))),
      λ h. sym (ap (λ q. (w ⊕ v) ⊕ q) h ∙ add_twice w v),
    )

    -- Both sides hold the same products, at least one; the prover adds `es 0` to `es 4` to the five
    -- blocks that the code sends. The verifier accepts exactly if `es` at Δ is the random sum of
    -- how far the products are off; else it aborts.
    pub prdt_check_exact :
        (es : ℕ → A) (rest : List (Message A))
        → 0 < s.num
        → let answer = prdt_check_recv c d t (all_shifted es (prdt_check_send c s).1 ++ rest) in
          let after = record t { num = 0; checks = t.checks + 1 } in
          ((answer ≡ done (after, rest)) ↔ (at_delta d es 5 ≡ total_error))
          × ((answer ≡ done (after, rest)) ⊎ (answer ≡ abort))
    unfolding prdt_check_send prdt_check_recv
    prdt_check_exact es rest some =
        rw (nonempty s.num some, nonempty t.num (rw same.num at some))
          (
            iff_trans (passed_iff {A = A} _ _ _) (
                rw
                  (
                    five_lem (λ j. c.red (c.chi s.checks) (s.buffer j) s.num ⊕ es j),
                    at_delta-add (λ j. c.red (c.chi s.checks) (s.buffer j) s.num) es 5,
                    sums_lem,
                  )
                  (accept_iff _ total_error _)),
            passed_or_abort {A = A} _ _ _,
          )
