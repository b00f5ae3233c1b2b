-- ===== src/ZkBool/Perm/Fold.antt =====
-- The compression of elements, at both parties.
use vole_zk.Common.{
  ℕ, zero, suc, ◌+◌, ◌-◌, ◌*◌, ◌/◌, ◌≤◌, ◌<◌, ◌==◌, Bool-cases, true, false, ◌≡◌, inl, inr, sym, ap,
  ap₂, ◌∙◌, arith, update,
}
use vole_zk.Field.{Field, ◌⊕◌, ◌⊗◌}
use vole_zk.Field.Laws.{add-zero, zero-add, mul-zero, ring_laws}
use vole_zk.Field.Sum.{sum_to}
use vole_zk.Arith.Wire.{Auth, Matches}
use vole_zk.ZkBool.Block.{Blocks}
use vole_zk.ZkBool.F2k.{f2k_mul_const, f2k_add}
use vole_zk.ZkBool.Perm.{Vec, push_back, fold_one, fold_elems, fold_flat}

module _ {ℓ} {A : Type ℓ} ⦃f : Field A⦄ ⦃b : Blocks A⦄ (d : A) where
  -- The wires of one side and the keys of the other.
  pub record MatchedVec (v k : Vec (Auth A)) : Type ℓ where
    pub size : v.size ≡ k.size
    pub wires : (i : ℕ) → i < v.size → Matches d (v.slot i) (k.slot i)

  mul_const-Matches :
      {a k : Auth A} (c : A) → Matches d a k → Matches d (f2k_mul_const a c) (f2k_mul_const k c)
  unfolding f2k_mul_const
  mul_const-Matches {a} {k} c w = record {
    linked = ap (λ t. c ⊗ t) w.linked ∙ spread a.val k.mac;
    keyed = ap (λ t. c ⊗ t) w.keyed ∙ mul-zero c;
  }
    where
      spread : (v m : A) → c ⊗ (v ⊗ d ⊕ m) ≡ (c ⊗ v) ⊗ d ⊕ c ⊗ m
      spread v m = simp ring_laws

  add-Matches :
      {a k a' k' : Auth A}
      → Matches d a k
      → Matches d a' k'
      → Matches d (f2k_add a a') (f2k_add k k')
  unfolding f2k_add
  add-Matches {a} {k} {a'} {k'} w w' = record {
    linked = ap₂ ◌⊕◌ w.linked w'.linked ∙ collect a.val k.mac a'.val k'.mac;
    keyed = ap₂ ◌⊕◌ w.keyed w'.keyed ∙ add-zero f.zero;
  }
    where
      collect : (v m v' m' : A) → (v ⊗ d ⊕ m) ⊕ (v' ⊗ d ⊕ m') ≡ (v ⊕ v') ⊗ d ⊕ (m ⊕ m')
      collect v m v' m' = simp ring_laws

  module _ (coeff : ℕ → A) where
    fold_one-Matches :
        (e k : ℕ → Auth A) (r : ℕ)
        → ((j : ℕ) → j ≤ r → Matches d (e j) (k j))
        → Matches d (fold_one coeff e r) (fold_one coeff k r)
    unfolding fold_one
    fold_one-Matches e k zero w = mul_const-Matches (coeff 0) (w 0 (omega arith))
    fold_one-Matches e k (suc r) w =
        add-Matches (fold_one-Matches e k r (λ j le. w j (omega (arith, le))))
          (mul_const-Matches (coeff (suc r)) (w (suc r) (omega arith)))

    fold_one_value :
        (e : ℕ → Auth A) (r : ℕ)
        → (fold_one coeff e r).val ≡ sum_to (λ j. coeff j ⊗ (e j).val) (suc r)
    unfolding fold_one f2k_mul_const f2k_add sum_to
    fold_one_value e zero = sym (zero-add _)
    fold_one_value e (suc r) = ap (λ t. t ⊕ coeff (suc r) ⊗ (e (suc r)).val) (fold_one_value e r)

    pushed :
        {v k : Vec (Auth A)} {x y : Auth A}
        → MatchedVec v k
        → Matches d x y
        → MatchedVec (push_back v x) (push_back k y)
    pushed {v} {k} {x} {y} m w = record { size = ap (λ n. n + 1) m.size; wires = each }
      where
        each :
            (i : ℕ)
            → i < v.size + 1
            → Matches d (update v.slot v.size x i) (update k.slot k.size y i)
        each i lt = elim (Bool-cases (i == v.size)) [
          | inl at ↦ rw (← m.size, at) w
          | inr other ↦ rw (← m.size, other) (m.wires i (ground arith))
        ]

    module _ (n : ℕ) (pos : 0 < n) {flat keys : Vec (Auth A)} (same : MatchedVec flat keys)
        {out kout : Vec (Auth A)} (outs : MatchedVec out kout) where
      unrolled : (i : ℕ) → suc i * n ≡ i * n + n
      unrolled i = grind arith

      inside : (i j size : ℕ) → suc i * n ≤ size → j ≤ n - 1 → i * n + j < size
      inside i j size le le' = omega (arith, pos, unrolled i)

      elems_lem :
          (i : ℕ)
          → i * n ≤ flat.size
          → MatchedVec (fold_elems n coeff flat out i) (fold_elems n coeff keys kout i)
            × ((fold_elems n coeff flat out i).size ≡ out.size + i)
            × ((q : ℕ)
                → q < i
                → ((fold_elems n coeff flat out i).slot (out.size + q)).val
                  ≡ sum_to (λ j. coeff j ⊗ (flat.slot (q * n + j)).val) n)
      unfolding fold_elems
      elems_lem zero le = (outs, omega arith, λ q lt. absurd (omega (arith, lt)))
      elems_lem (suc i) le =
          let prev = elems_lem i (omega (arith, unrolled i)) in
          (
            pushed prev.0 (
                fold_one-Matches _ _ (n - 1)
                  λ j le'. same.wires (i * n + j) (inside i j flat.size le le')),
            omega (arith, prev.1),
            rows prev.1 prev.2,
          )
        where
          hit : (o q size : ℕ) → size ≡ o + i → (q == i) ≡ true → (o + q == size) ≡ true
          hit o q size e at = ground arith

          miss : (o q size : ℕ) → size ≡ o + i → (q == i) ≡ false → (o + q == size) ≡ false
          miss o q size e at = ground arith

          rows :
              (fold_elems n coeff flat out i).size ≡ out.size + i
              → ((q : ℕ)
                  → q < i
                  → ((fold_elems n coeff flat out i).slot (out.size + q)).val
                    ≡ sum_to (λ j. coeff j ⊗ (flat.slot (q * n + j)).val) n)
              → (q : ℕ) → q < suc i
              → (update
                  (fold_elems n coeff flat out i).slot
                  (fold_elems n coeff flat out i).size
                  (fold_one coeff (λ j. flat.slot (i * n + j)) (n - 1))
                  (out.size + q)).val
                ≡ sum_to (λ j. coeff j ⊗ (flat.slot (q * n + j)).val) n
          rows sized before q lt = elim (Bool-cases (q == i)) [
            | inl at ↦ rw (hit out.size q (fold_elems n coeff flat out i).size sized at) (
                fold_one_value (λ j. flat.slot (i * n + j)) (n - 1)
                ∙ ap (sum_to (λ j. coeff j ⊗ (flat.slot (i * n + j)).val)) {x = suc (n - 1)} {y = n}
                    (omega (arith, pos))
                ∙ ap (λ q'. sum_to (λ j. coeff j ⊗ (flat.slot (q' * n + j)).val) n) {x = i} {y = q}
                    (ground arith))
            | inr other ↦
                rw (miss out.size q (fold_elems n coeff flat out i).size sized other)
                  (before q (ground arith))
          ]

      whole_elements : (size : ℕ) → size / n * n ≤ size
      whole_elements size = grind arith

      -- Elements of `n` wires each, `n` from one on, on both sides, and lists that match. The
      -- compression keeps the lists matching and adds one wire for each whole element, in order;
      -- its value is the sum of the values of the element's wires times the coefficients.
      pub fold_flat_lem :
          MatchedVec (fold_flat n coeff flat out) (fold_flat n coeff keys kout)
          × ((fold_flat n coeff flat out).size ≡ out.size + flat.size / n)
          × ((q : ℕ)
              → q < flat.size / n
              → ((fold_flat n coeff flat out).slot (out.size + q)).val
                ≡ sum_to (λ j. coeff j ⊗ (flat.slot (q * n + j)).val) n)
      unfolding fold_flat
      fold_flat_lem =
          let whole = elems_lem (flat.size / n) (whole_elements flat.size) in
          (rw (← same.size) whole.0, whole.1, whole.2)
