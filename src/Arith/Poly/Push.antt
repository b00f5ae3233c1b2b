-- ===== src/Arith/Poly/Push.antt =====
-- `zkp_poly_deg2` and `zkp_inner_prdt`: true statements go through, and the buffer never overflows.
use vole_zk.Common.{
  same_slot, other_slot, ℕ, zero, suc, ◌+◌, ◌≤◌, ◌<◌, Bool-cases, leb, ltb, ltb→lt, leb→le, List,
  ◌++◌, update, ◌≡◌, refl, sym, ap, ◌∙◌, inl, inr, arith,
}
use vole_zk.Field.{Field, ◌⊕◌, ◌⊗◌}
use vole_zk.Field.Laws.{add-zero, zero-mul, mul-zero, one-mul, add_assoc, ring_laws}
use vole_zk.Field.Sum.{sum_to, sum_to_congr, sum_to_rows}
use vole_zk.Arith.Wire.{Auth, Matches}
use vole_zk.Arith.Engine.{Result, done}
use vole_zk.Arith.Poly.{
  PolyProof, PolySetup, par_sum, batch_check_send, batch_check_recv, room_send, room_recv,
  push_send, push_recv, zkp_poly_deg2_send, zkp_poly_deg2_recv, zkp_inner_prdt_send,
  zkp_inner_prdt_recv,
}
use vole_zk.Arith.Engine.Check.{shifted}
use vole_zk.Arith.Poly.Sum.{par_sum_lem}
use vole_zk.Arith.Poly.Check.{Paired, batch_check_exact, random_sum, nonempty}

module _ {ℓ} {A : Type ℓ} ⦃f : Field A⦄ (c : PolySetup A) (d : A) where
  -- Both sides hold the same statements, all true, and no more than fit.
  pub record Valid (s t : PolyProof A) : Type ℓ where
    pub value : ℕ → A
    pub same : Paired c d value s t
    pub holds : (i : ℕ) → i < s.num → value i ≡ f.zero
    pub fits : s.num ≤ c.buffer_sz

  -- The verifier takes what was sent, and both sides are valid again.
  abbrev pub Taken : PolyProof A × List A → (List A → Result (PolyProof A × List A)) → Type ℓ
  Taken (s, sent) receive =
      (t : PolyProof A) × ((rest : List A) → receive (sent ++ rest) ≡ done (t, rest)) × Valid s t

  sum_zero :
      (r p : ℕ → A) (n : ℕ) → ((i : ℕ) → i < n → p i ≡ f.zero) → sum_to (λ k. r k ⊗ p k) n ≡ f.zero
  unfolding sum_to
  sum_zero r p zero h = refl
  sum_zero r p (suc n) h =
      rw (sum_zero r p n (λ i lt. h i (omega arith)), h n (omega arith), mul-zero (r n))
        (add-zero f.zero)

  honest :
      (va : ℕ → Auth A) (s : PolyProof A)
      → 0 < s.num
      → shifted f.zero f.zero (batch_check_send c va s).1 ≡ (batch_check_send c va s).1
  unfolding batch_check_send
  honest va s some = rw (nonempty s.num some, add-zero, add-zero)

  true_sum :
      (p : ℕ → A) (s : PolyProof A)
      → ((i : ℕ) → i < s.num → p i ≡ f.zero)
      → f.zero ≡ f.zero ⊗ d ⊕ random_sum c d p s ⊗ (d ⊗ d)
  true_sum p s h =
      rw (sum_zero (c.chi s.checks) p s.num h, zero-mul, zero-mul) (sym (add-zero f.zero))

  module _ (va vb : ℕ → Auth A) (streams : (k : ℕ) → Matches d (va k) (vb k)) where
    checked :
        {s t : PolyProof A}
        → Valid s t
        → 0 < s.num
        → Taken (batch_check_send c va s) (batch_check_recv c d vb t)
    unfolding batch_check_send
    checked {s} {t} v some = (
      record t { num = 0; drawn = t.drawn + 1; checks = t.checks + 1 },
      λ rest. rw (honest va s some) at (
          (batch_check_exact c d v.value v.same va vb (rw (v.same.drawn) (streams _)) some f.zero
              f.zero rest).0.1
            (true_sum v.value s v.holds)),
      rw (nonempty s.num some) (record {
        value = v.value;
        same = record {
          num = refl;
          seed = ap (λ k. k + 1) v.same.seed;
          drawn = ap (λ k. k + 1) v.same.drawn;
          row = λ i lt. absurd (omega arith);
        };
        holds = λ i lt. absurd (omega arith);
        fits = omega arith;
      }),
    )

    emptied : (s : PolyProof A) → 0 < s.num → (batch_check_send c va s).0.num ≡ 0
    unfolding batch_check_send
    emptied s some = rw (nonempty s.num some)

    room_made :
        {s t : PolyProof A}
        → Valid s t
        → 0 < c.buffer_sz
        → Taken (room_send c va s) (room_recv c d vb t) × ((room_send c va s).0.num < c.buffer_sz)
    unfolding room_send room_recv
    room_made {s} {t} v some = elim (Bool-cases (leb c.buffer_sz s.num)) [
      | inl full ↦
          (let used : 0 < s.num = omega (arith, leb→le c.buffer_sz s.num full) in
            rw (full, rw (v.same.num) at full) (checked v used, rw (emptied s used) some))
      | inr room ↦ rw (room, rw (v.same.num) at room) ((t, λ rest. refl, v), ground arith)
    ]

  pushed :
      {s t : PolyProof A} (a0 a1 b constant value : A)
      → Valid s t
      → s.num < c.buffer_sz
      → a1 ⊗ d ⊕ (b ⊕ constant ⊗ (d ⊗ d)) ≡ a0 ⊕ value ⊗ (d ⊗ d)
      → value ≡ f.zero
      → Valid (push_send c a0 a1 s) (push_recv c d constant b t)
  pushed {s} {t} a0 a1 b constant value v room row true_one = record {
    value = update v.value s.num value;
    same = record {
      num = ap (λ k. k + 1) v.same.num;
      seed = v.same.seed;
      drawn = v.same.drawn;
      row = λ i lt. elim (Bool-cases (ltb i s.num)) [
        | inl h ↦ rw (← v.same.num, other_slot i s.num h) (v.same.row i (ltb→lt i s.num h))
        | inr h ↦ rw (← v.same.num, same_slot i s.num lt h) row
      ];
    };
    holds = λ i lt. elim (Bool-cases (ltb i s.num)) [
      | inl h ↦ rw (other_slot i s.num h) (v.holds i (ltb→lt i s.num h))
      | inr h ↦ rw (same_slot i s.num lt h) true_one
    ];
    fits = omega arith;
  }

  -- `x y` from the two sides' shares: the coefficients of 1, `d` and `d^2`.
  term :
      (x y k l : A)
      → ((x ⊗ d ⊕ k) ⊗ y ⊕ (y ⊗ d ⊕ l) ⊗ x) ⊗ d ⊕ k ⊗ l
        ≡ (x ⊗ d ⊕ k) ⊗ (y ⊗ d ⊕ l) ⊕ (x ⊗ y) ⊗ (d ⊗ d)
  term x y k l = simp ring_laws

  module _ {x y kx ky : ℕ → Auth A} (len : ℕ) (mx : (i : ℕ) → i < len → Matches d (x i) (kx i))
      (my : (i : ℕ) → i < len → Matches d (y i) (ky i)) where
    statement_row :
        (r : ℕ → A) (constant : A)
        → sum_to (λ i. r i ⊗ ((x i).mac ⊗ (y i).val ⊕ (y i).mac ⊗ (x i).val)) len ⊗ d
            ⊕ (sum_to (λ i. r i ⊗ ((kx i).mac ⊗ (ky i).mac)) len ⊕ constant ⊗ (d ⊗ d))
          ≡ sum_to (λ i. r i ⊗ ((x i).mac ⊗ (y i).mac)) len
            ⊕ (constant ⊕ sum_to (λ i. r i ⊗ ((x i).val ⊗ (y i).val)) len) ⊗ (d ⊗ d)
    statement_row r constant =
        spread _ _ _
        ∙ ap (λ t. t ⊕ constant ⊗ (d ⊗ d))
            (sum_to_rows d r _ _ _ _ len
              (λ i lt. rw ((mx i lt).linked, (my i lt).linked) (term _ _ _ _)))
        ∙ collect _ _
      where
        spread : (u v w : A) → u ⊕ (v ⊕ w) ≡ ((u ⊕ v) ⊕ f.zero) ⊕ w
        spread u v w = sym (add_assoc u v w) ∙ ap (λ t. t ⊕ w) (sym (add-zero (u ⊕ v)))

        collect : (u v : A) → (u ⊕ v ⊗ (d ⊗ d)) ⊕ constant ⊗ (d ⊗ d) ≡ u ⊕ (constant ⊕ v) ⊗ (d ⊗ d)
        collect u v = simp ring_laws

    parallel_row :
        (r : ℕ → A) (constant : A)
        → par_sum c.threads len (λ i. r i ⊗ ((x i).mac ⊗ (y i).val ⊕ (y i).mac ⊗ (x i).val)) ⊗ d
            ⊕ (par_sum c.threads len (λ i. r i ⊗ ((kx i).mac ⊗ (ky i).mac)) ⊕ constant ⊗ (d ⊗ d))
          ≡ par_sum c.threads len (λ i. r i ⊗ ((x i).mac ⊗ (y i).mac))
            ⊕ (constant ⊕ sum_to (λ i. r i ⊗ ((x i).val ⊗ (y i).val)) len) ⊗ (d ⊗ d)
    parallel_row r constant = rw (par_sum_lem, par_sum_lem, par_sum_lem) (statement_row r constant)

    plain_row :
        (constant : A)
        → par_sum c.threads len (λ i. (x i).mac ⊗ (y i).val ⊕ (y i).mac ⊗ (x i).val) ⊗ d
            ⊕ (par_sum c.threads len (λ i. (kx i).mac ⊗ (ky i).mac) ⊕ constant ⊗ (d ⊗ d))
          ≡ par_sum c.threads len (λ i. (x i).mac ⊗ (y i).mac)
            ⊕ (constant ⊕ sum_to (λ i. (x i).val ⊗ (y i).val) len) ⊗ (d ⊗ d)
    plain_row constant =
        rw
          (
            par_sum_lem,
            par_sum_lem,
            par_sum_lem,
            ← units _,
            ← units (λ i. (kx i).mac ⊗ (ky i).mac),
            ← units (λ i. (x i).mac ⊗ (y i).mac),
            ← units (λ i. (x i).val ⊗ (y i).val),
          )
          (statement_row (λ _. f.one) constant)
      where
        units : (g : ℕ → A) → sum_to (λ i. f.one ⊗ g i) len ≡ sum_to g len
        units g = sum_to_congr _ _ len (λ i _. one-mul (g i))

    module _ (va vb : ℕ → Auth A) (streams : (k : ℕ) → Matches d (va k) (vb k)) {s t : PolyProof A}
        (v : Valid s t) (some : 0 < c.buffer_sz) where
      -- A true statement `c_0 + sum c_(i+1) x_i y_i = 0` on matching wires, with matching
      -- correlations and a buffer of a slot or more, goes through, after the check of a full
      -- buffer: the verifier does not abort, and both sides hold true statements again, no more
      -- than the buffer has slots.
      pub zkp_poly_deg2_lem :
          (coeff : ℕ → A)
          → coeff 0 ⊕ sum_to (λ i. coeff (i + 1) ⊗ ((x i).val ⊗ (y i).val)) len ≡ f.zero
          → Taken
              (zkp_poly_deg2_send c va x y coeff len s)
              (zkp_poly_deg2_recv c d vb kx ky coeff len t)
      unfolding zkp_poly_deg2_send zkp_poly_deg2_recv
      zkp_poly_deg2_lem coeff holds =
          let ((t', receive, v'), room) = room_made va vb streams v some in
          (
            _,
            λ rest. rw (receive rest) refl,
            pushed _ _ _ _ _ v' room (parallel_row (λ i. coeff (i + 1)) (coeff 0)) holds,
          )

      -- A true statement `c + sum x_i y_i = 0` goes through, under the same conditions and in the
      -- same sense.
      pub zkp_inner_prdt_lem :
          (constant : A)
          → constant ⊕ sum_to (λ i. (x i).val ⊗ (y i).val) len ≡ f.zero
          → Taken
              (zkp_inner_prdt_send c va x y len s)
              (zkp_inner_prdt_recv c d vb kx ky constant len t)
      unfolding zkp_inner_prdt_send zkp_inner_prdt_recv
      zkp_inner_prdt_lem constant holds =
          let ((t', receive, v'), room) = room_made va vb streams v some in
          (_, λ rest. rw (receive rest) refl, pushed _ _ _ _ _ v' room (plain_row constant) holds)
