-- ===== src/ZkBool/Poly/Row.antt =====
-- What the sums of the two sides say of a statement, product by product.
use vole_zk.Common.{
  ℕ, zero, suc, ◌+◌, ◌<◌, Bool, true, false, ◌&&◌, xor, xor-false, xor_assoc, if◌then◌else◌, ◌≡◌,
  sym, ap, ap₂, fun_ext, ◌∙◌, arith,
}
use vole_zk.Field.{Field, ◌⊕◌, ◌⊗◌}
use vole_zk.Field.Laws.{
  add-zero, add_comm, mul_assoc, add_interchange, add_assoc, zero-mul, ring_laws,
}
use vole_zk.Arith.Engine.Check.{gate_identity}
use vole_zk.ZkBool.Block.{Blocks, get_lsb, select, WireOf, select-xor}
use vole_zk.ZkBool.Engine.Exact.{bit_elem, bit_elem-and, select_elem, linear}
use vole_zk.ZkBool.Poly.{
  PolySetup, accum, par_accum, accumulate_alice, accumulate_bob, bob_constant_term, products,
  selected,
}
use vole_zk.ZkBool.Poly.Sum.{Additive, par_accum_lem}

-- The XOR of the first `n` bits.
abbrev pub xor_sum : (ℕ → Bool) → ℕ → Bool
xor_sum g zero = false
xor_sum g (suc n) = xor (xor_sum g n) (g n)

module _ {ℓ} {A : Type ℓ} ⦃f : Field A⦄ ⦃b : Blocks A⦄ (d : A) where
  -- The prover's two coefficients and the verifier's sum, of a statement whose value is `v`.
  pub record Row (prover : A × A) (sum : A) (v : Bool) : Type ℓ where
    pub balanced : prover.1 ⊗ d ⊕ sum ≡ prover.0 ⊕ select v (d ⊗ d)

  one_product :
      {x y kx ky : A}
      → WireOf d x kx
      → WireOf d y ky
      → (select (get_lsb y) x ⊕ select (get_lsb x) y) ⊗ d ⊕ kx ⊗ ky
        ≡ x ⊗ y ⊕ select (get_lsb x && get_lsb y) (d ⊗ d)
  one_product {x} {y} {kx} {ky} wx wy =
      bare
      ∙ gate_identity d α β kx ky f.zero f.zero (select (get_lsb y) x ⊕ select (get_lsb x) y) (
          bare_left
          ∙ add_comm _ _
          ∙ ap₂ ◌⊕◌ (select_elem (get_lsb x) y ∙ ap (λ t. α ⊗ t) (linear d wy))
              (select_elem (get_lsb y) x ∙ ap (λ t. β ⊗ t) (linear d wx)))
      ∙ ap₂ ◌⊕◌ (ap₂ ◌⊗◌ (sym (linear d wx)) (sym (linear d wy))) (
          mul_assoc (α ⊗ β) d d
          ∙ ap (λ t. t ⊗ (d ⊗ d)) (sym (bit_elem-and (get_lsb x) (get_lsb y)))
          ∙ sym (select_elem (get_lsb x && get_lsb y) (d ⊗ d)))
    where
      α : A
      α = bit_elem (get_lsb x)

      β : A
      β = bit_elem (get_lsb y)

      a1 : A
      a1 = select (get_lsb y) x ⊕ select (get_lsb x) y

      bare : a1 ⊗ d ⊕ kx ⊗ ky ≡ (a1 ⊗ d ⊕ (kx ⊗ ky ⊕ f.zero ⊗ d)) ⊕ f.zero ⊗ d ⊗ d
      bare = sym (simp (zero-mul, add-zero))

      bare_left : a1 ⊕ (f.zero ⊗ d ⊕ f.zero) ≡ a1
      bare_left = simp (zero-mul, add-zero)

  pub zeros-Row : Row (f.zero, f.zero) f.zero false
  zeros-Row = record { balanced = unfold select in simp (zero-mul, add-zero) }

  -- One product more, on both sides.
  pub accumulate-Row :
      {x y kx ky : A} {acc : A × A} (accb : A × A) {v : Bool}
      → WireOf d x kx
      → WireOf d y ky
      → Row acc accb.0 v
      → Row
          (accumulate_alice x y acc)
          (accumulate_bob kx ky accb).0
          (xor v (get_lsb x && get_lsb y))
  unfolding accumulate_alice accumulate_bob select
  accumulate-Row {x} {y} {kx} {ky} {acc} accb {v} wx wy r = record {
    balanced =
        regroup acc.1 (select (get_lsb y) x) (select (get_lsb x) y) accb.0 (kx ⊗ ky)
        ∙ ap₂ ◌⊕◌ r.balanced (one_product wx wy)
        ∙ add_interchange _ _ _ _
        ∙ ap (λ t. (acc.0 ⊕ x ⊗ y) ⊕ t) (sym (select-xor v (get_lsb x && get_lsb y) (d ⊗ d)));
  }
    where
      regroup : (a p q s k : A) → ((a ⊕ p) ⊕ q) ⊗ d ⊕ (s ⊕ k) ≡ (a ⊗ d ⊕ s) ⊕ ((p ⊕ q) ⊗ d ⊕ k)
      regroup a p q s k = simp ring_laws

  -- The verifier's constant.
  pub constant-Row :
      {acc : A × A} {sum : A} {v : Bool} (constant : Bool)
      → Row acc sum v
      → Row acc (sum ⊕ bob_constant_term d constant) (xor v constant)
  unfolding bob_constant_term select
  constant-Row {acc} {sum} {v} constant r = record {
    balanced =
        sym (add_assoc (acc.1 ⊗ d) sum (select constant (d ⊗ d)))
        ∙ ap (λ t. t ⊕ select constant (d ⊗ d)) r.balanced
        ∙ add_assoc _ _ _
        ∙ ap (λ t. acc.0 ⊕ t) (sym (select-xor v constant (d ⊗ d)));
  }

  -- A loop of steps, each of which keeps a balance.
  accum-Row :
      (sa sb : ℕ → A × A → A × A) (g : ℕ → Bool) (start n : ℕ)
      → ((i : ℕ) (acc accb : A × A) (v : Bool)
          → i < start + n
          → Row acc accb.0 v
          → Row (sa i acc) (sb i accb).0 (xor v (g i)))
      → (acc accb : A × A) (v : Bool) → Row acc accb.0 v
      → Row
          (accum sa start n acc)
          (accum sb start n accb).0
          (xor v (xor_sum (λ i. g (i + start)) n))
  unfolding accum
  accum-Row sa sb g start zero step acc accb v r = rw (xor-false v) r
  accum-Row sa sb g start (suc n) step acc accb v r =
      rw (← xor_assoc v (xor_sum (λ i. g (i + start)) n) (g (n + start))) (
        step (n + start) (accum sa start n acc) (accum sb start n accb) _ (omega arith)
          (accum-Row sa sb g start n (λ i a ab w lt. step i a ab w (omega arith)) acc accb v r))

  module _ (c : PolySetup A) (pos : 0 < c.threads) where
    alice-Additive : (x y : ℕ → A) → Additive (λ i. accumulate_alice (x i) (y i))
    unfolding accumulate_alice
    alice-Additive x y = record {
      first = λ i. x i ⊗ y i;
      second =
          λ i. (if get_lsb (y i) then x i else f.zero) ⊕ (if get_lsb (x i) then y i else f.zero);
      adds = λ i acc. ap (λ t. (acc.0 ⊕ x i ⊗ y i, t)) (add_assoc _ _ _);
    }

    bob-Additive : (x y : ℕ → A) → Additive (λ i. accumulate_bob (x i) (y i))
    unfolding accumulate_bob
    bob-Additive x y = record {
      first = λ i. x i ⊗ y i;
      second = λ i. f.zero;
      adds = λ i acc. ap (λ t. (acc.0 ⊕ x i ⊗ y i, t)) (sym (add-zero acc.1));
    }

    selected-Additive :
        (coeff : ℕ → Bool) {step : ℕ → A × A → A × A}
        → Additive step
        → Additive (λ i acc. if coeff (i + 1) then step i acc else acc)
    selected-Additive coeff {step} a = record {
      first = λ i. if coeff (i + 1) then a.first i else f.zero;
      second = λ i. if coeff (i + 1) then a.second i else f.zero;
      adds = λ i acc. one (coeff (i + 1)) i acc;
    }
      where
        one :
            (v : Bool) (i : ℕ) (acc : A × A)
            → (if v then step i acc else acc) ≡ (
              acc.0 ⊕ (if v then a.first i else f.zero),
              acc.1 ⊕ (if v then a.second i else f.zero),
            )
        one true i acc = a.adds i acc
        one false i acc = sym (ap₂ (λ p q. (p, q)) (add-zero acc.0) (add-zero acc.1))

    par_accum-Row :
        {sa sb : ℕ → A × A → A × A} (g : ℕ → Bool) (n : ℕ)
        → Additive sa
        → Additive sb
        → ((i : ℕ) (acc accb : A × A) (v : Bool)
            → i < n
            → Row acc accb.0 v
            → Row (sa i acc) (sb i accb).0 (xor v (g i)))
        → (acc accb : A × A) (v : Bool) → Row acc accb.0 v
        → Row (par_accum c.threads n sa acc) (par_accum c.threads n sb accb).0 (xor v (xor_sum g n))
    par_accum-Row {sa} {sb} g n aa ab step acc accb v r =
        rw
          (
            par_accum_lem c.threads n acc aa pos,
            par_accum_lem c.threads n accb ab pos,
            ← ap (λ h. xor_sum h n) {x = λ i. g (i + 0)} {y = g} (fun_ext λ i. ap g (omega arith)),
          )
          (accum-Row sa sb g 0 n (λ i a a' w lt. step i a a' w (omega arith)) acc accb v r)

    module _ (x y kx ky : ℕ → A) (len : ℕ) (wx : (i : ℕ) → i < len → WireOf d (x i) (kx i))
        (wy : (i : ℕ) → i < len → WireOf d (y i) (ky i)) where
      pub products-Row :
          (acc accb : A × A) (v : Bool)
          → Row acc accb.0 v
          → Row
              (products c accumulate_alice x y len acc)
              (products c accumulate_bob kx ky len accb).0
              (xor v (xor_sum (λ i. get_lsb (x i) && get_lsb (y i)) len))
      products-Row =
          par_accum-Row (λ i. get_lsb (x i) && get_lsb (y i)) len (alice-Additive x y)
            (bob-Additive kx ky) (λ i acc accb v lt r. accumulate-Row accb (wx i lt) (wy i lt) r)

      pub selected-Row :
          (coeff : ℕ → Bool) (acc accb : A × A) (v : Bool)
          → Row acc accb.0 v
          → Row
              (selected c accumulate_alice x y coeff len acc)
              (selected c accumulate_bob kx ky coeff len accb).0
              (xor v (xor_sum (λ i. coeff (i + 1) && (get_lsb (x i) && get_lsb (y i))) len))
      selected-Row coeff =
          par_accum-Row (λ i. coeff (i + 1) && (get_lsb (x i) && get_lsb (y i))) len
            (selected-Additive coeff (alice-Additive x y))
            (selected-Additive coeff (bob-Additive kx ky))
            (λ i acc accb v lt r. one (coeff (i + 1)) i acc accb v lt r)
        where
          one :
              (w : Bool) (i : ℕ) (acc accb : A × A) (v : Bool)
              → i < len
              → Row acc accb.0 v
              → Row
                  (if w then accumulate_alice (x i) (y i) acc else acc)
                  (if w then accumulate_bob (kx i) (ky i) accb else accb).0
                  (xor v (w && (get_lsb (x i) && get_lsb (y i))))
          one true i acc accb v lt r = accumulate-Row accb (wx i lt) (wy i lt) r
          one false i acc accb v lt r = rw (xor-false v) r
