-- ===== src/Arith/Engine/Check.antt =====
-- The batched check of the multiplications: which messages the verifier accepts.
use vole_zk.Common.{
  ℕ, ◌+◌, ◌<◌, if◌then◌else◌, Bool-cases, iff_trans, List, ◌∷◌, ◌≡◌, ◌↔◌, ◌⊎◌, ◌++◌, inl, inr, sym,
  ap, ap₂, ◌∙◌,
}
use vole_zk.Field.{Field, ◌⊕◌, ◌⊗◌}
use vole_zk.Field.Laws.{add_cancel, sub-add, ring_laws}
use vole_zk.Field.Sum.{sum_to_congr, sum_to_linear, sum_to_weighted}
use vole_zk.Arith.Engine.Slices.{slice_in_range}
use vole_zk.Arith.Wire.{Auth, Matches}
use vole_zk.Arith.Engine.{
  Engine, Setup, done, abort, slice_start, slice_size, gate_a0, gate_a1, gate_b, folded, check_send,
  check_recv,
}

module _ {ℓ} {A : Type ℓ} ⦃f : Field A⦄ where
  -- One triple `(a, b, c)`, whose MACs are `a d + ka`, `b d + kb` and `c d + kc`.
  pub gate_identity :
      (d a b ka kb c kc a1 : A)
      → a1 ⊕ (c ⊗ d ⊕ kc) ≡ a ⊗ (b ⊗ d ⊕ kb) ⊕ b ⊗ (a ⊗ d ⊕ ka)
      → (a1 ⊗ d ⊕ (ka ⊗ kb ⊕ kc ⊗ d)) ⊕ c ⊗ d ⊗ d ≡ (a ⊗ d ⊕ ka) ⊗ (b ⊗ d ⊕ kb) ⊕ a ⊗ b ⊗ d ⊗ d
  gate_identity d a b ka kb c kc a1 h = regroup ∙ ap (λ t. t ⊗ d ⊕ ka ⊗ kb) h ∙ expand
    where
      regroup : (a1 ⊗ d ⊕ (ka ⊗ kb ⊕ kc ⊗ d)) ⊕ c ⊗ d ⊗ d ≡ (a1 ⊕ (c ⊗ d ⊕ kc)) ⊗ d ⊕ ka ⊗ kb
      regroup = simp ring_laws

      expand :
          (a ⊗ (b ⊗ d ⊕ kb) ⊕ b ⊗ (a ⊗ d ⊕ ka)) ⊗ d ⊕ ka ⊗ kb
          ≡ (a ⊗ d ⊕ ka) ⊗ (b ⊗ d ⊕ kb) ⊕ a ⊗ b ⊗ d ⊗ d
      expand = simp ring_laws

  module _ (c : Setup A) (d : A) where
    -- A linear relation between the coefficients of each triple holds of their random sums.
    folded_linear :
        (a1 b e a0 p : ℕ → A) (checks cnt : ℕ)
        → ((i : ℕ) → i < cnt → (a1 i ⊗ d ⊕ b i) ⊕ e i ⊗ d ⊗ d ≡ a0 i ⊕ p i ⊗ d ⊗ d)
        → (folded c a1 checks cnt ⊗ d ⊕ folded c b checks cnt) ⊕ folded c e checks cnt ⊗ d ⊗ d
          ≡ folded c a0 checks cnt ⊕ folded c p checks cnt ⊗ d ⊗ d
    unfolding folded
    folded_linear a1 b e a0 p checks cnt h = sum_to_linear d _ _ _ _ _ c.threads λ t ht.
        sum_to_weighted d _ _ _ _ _ (c.chi checks t) (slice_size c.threads cnt t)
          λ k hk. h (k + slice_start c.threads cnt t) (slice_in_range c.threads cnt t k ht hk)

  folded_congr :
      (c : Setup A) (g h : ℕ → A) (checks cnt : ℕ)
      → ((i : ℕ) → i < cnt → g i ≡ h i)
      → folded c g checks cnt ≡ folded c h checks cnt
  unfolding folded
  folded_congr c g h checks cnt e = sum_to_congr _ _ c.threads λ t ht.
      sum_to_congr _ _ (slice_size c.threads cnt t)
        λ k hk. ap (λ q. q ⊗ c.chi checks t k) (e _ (slice_in_range c.threads cnt t k ht hk))

  -- `u`, `v` and `w` are the folded coefficients, `m = x d + k` the masking correlation, and the
  -- prover adds `eu` and `ev` to its two messages.
  pub accept_algebra :
      (u vd w e p m eu evd : A)
      → (vd ⊕ w) ⊕ e ≡ u ⊕ p
      → ((u ⊕ m) ⊕ eu ≡ ((vd ⊕ w) ⊕ m) ⊕ evd) ↔ (eu ⊕ e ≡ evd ⊕ p)
  accept_algebra u vd w e p m eu evd h = (
    λ t. add_cancel _ _ (u ⊕ m) (
        r1 eu e u m
        ∙ ap (λ q. q ⊕ e) t
        ∙ r2 vd w m evd e
        ∙ ap (λ q. (q ⊕ m) ⊕ evd) h
        ∙ r3 u p m evd),
    λ t. add_cancel _ _ e (
        r4 u m eu e
        ∙ ap (λ q. (u ⊕ m) ⊕ q) t
        ∙ r5 u m evd p
        ∙ ap (λ q. (q ⊕ m) ⊕ evd) (sym h)
        ∙ sym (r2 vd w m evd e)),
  )
    where
      r1 : (eu e u m : A) → (eu ⊕ e) ⊕ (u ⊕ m) ≡ ((u ⊕ m) ⊕ eu) ⊕ e
      r1 eu e u m = simp ring_laws

      r2 : (vd w m evd e : A) → (((vd ⊕ w) ⊕ m) ⊕ evd) ⊕ e ≡ (((vd ⊕ w) ⊕ e) ⊕ m) ⊕ evd
      r2 vd w m evd e = simp ring_laws

      r3 : (u p m evd : A) → ((u ⊕ p) ⊕ m) ⊕ evd ≡ (evd ⊕ p) ⊕ (u ⊕ m)
      r3 u p m evd = simp ring_laws

      r4 : (u m eu e : A) → ((u ⊕ m) ⊕ eu) ⊕ e ≡ (u ⊕ m) ⊕ (eu ⊕ e)
      r4 u m eu e = simp ring_laws

      r5 : (u m evd p : A) → (u ⊕ m) ⊕ (evd ⊕ p) ≡ ((u ⊕ p) ⊕ m) ⊕ evd
      r5 u m evd p = simp ring_laws

  -- The verifier's sum, with its keys put together.
  regroup_keys :
      (v x ev w k : A) (d : A) → ((v ⊕ x) ⊕ ev) ⊗ d ⊕ (w ⊕ k) ≡ ((v ⊗ d ⊕ w) ⊕ (x ⊗ d ⊕ k)) ⊕ ev ⊗ d
  regroup_keys v x ev w k d = simp ring_laws

  -- `if (x != y) error(...)`.
  pub passed_iff {κ} :
      {B : Type κ} (x y : A) (b : B) → ((if f.beq x y then done b else abort) ≡ done b) ↔ (x ≡ y)
  passed_iff x y b = elim (Bool-cases (f.beq x y)) [
    | inl e ↦ (λ _. (f.beq_iff x y).0 e, λ _. rw e)
    | inr e ↦ (λ h. cc (rw e at h), λ h. cc ((f.beq_iff x y).1 h))
  ]

  pub passed_or_abort {κ} :
      {B : Type κ} (x y : A) (b : B)
      → ((if f.beq x y then done b else abort) ≡ done b)
        ⊎ ((if f.beq x y then done b else abort) ≡ abort)
  passed_or_abort x y b = elim (Bool-cases (f.beq x y)) [ inl e ↦ inl (rw e) | inr e ↦ inr (rw e) ]

-- The two engines hold the same triples up to `cnt`, one side as MACs and the other as keys.
pub record SameTriples {ℓ} {A : Type ℓ} ⦃f : Field A⦄ (d : A) (s t : Engine A) : Type ℓ where
  pub cnt : s.check_cnt ≡ t.check_cnt
  pub seed : s.checks ≡ t.checks
  pub lefts : (i : ℕ) → i < s.check_cnt → Matches d (s.left i) (t.left i)
  pub rights : (i : ℕ) → i < s.check_cnt → Matches d (s.right i) (t.right i)
  pub outs : (i : ℕ) → i < s.check_cnt → Matches d (s.out i) (t.out i)

module _ {ℓ} {A : Type ℓ} ⦃f : Field A⦄ where
  -- A prover that does not send what the code computes adds something to it.
  abbrev pub shifted : A → A → List A → List A
  shifted eu ev (u ∷ v ∷ rest) = (u ⊕ eu) ∷ (v ⊕ ev) ∷ rest
  shifted eu ev rest = rest

module _ {ℓ} {A : Type ℓ} ⦃f : Field A⦄ (c : Setup A) (d : A) where
  -- The values in the slots, whatever a prover put there.
  abbrev pub claimed : Engine A → ℕ → A
  claimed s i = (s.out i).val

  abbrev pub product : Engine A → ℕ → A
  product s i = (s.left i).val ⊗ (s.right i).val

  module _ {s t : Engine A} (same : SameTriples d s t) where
    folded_balance :
        (folded c (gate_a1 c s) s.checks s.check_cnt ⊗ d
            ⊕ folded c (gate_b c d t) t.checks t.check_cnt)
          ⊕ folded c (claimed s) s.checks s.check_cnt ⊗ d ⊗ d
        ≡ folded c (gate_a0 c s) s.checks s.check_cnt
          ⊕ folded c (product s) s.checks s.check_cnt ⊗ d ⊗ d
    folded_balance =
        rw (← same.cnt, ← same.seed)
          (folded_linear c d _ _ _ _ _ s.checks s.check_cnt λ i lt.
            rw ((same.lefts i lt).linked, (same.rights i lt).linked, (same.outs i lt).linked)
              (gate_identity d _ _ _ _ _ _ _ (sub-add _ _)))

    -- Both sides hold the same triples, whatever their values, and mask with matching
    -- correlations; the prover adds `eu` and `ev` to the two messages that the code sends. The
    -- verifier accepts exactly if `eu + C d^2` is `ev d + P d^2`, with `C` the random sum of the
    -- claimed products and `P` that of the true ones; else it aborts.
    pub check_recv_exact :
        (va vb : ℕ → Auth A)
        → Matches d (va s.drawn) (vb t.drawn)
        → (eu ev : A) (rest : List A)
        → let answer = check_recv c d vb t (shifted eu ev (check_send c va s).1 ++ rest) in
          let after = record t { drawn = t.drawn + 1; checks = t.checks + 1 } in
          ((answer ≡ done (after, rest)) ↔ (
            eu ⊕ folded c (claimed s) s.checks s.check_cnt ⊗ d ⊗ d
            ≡ ev ⊗ d ⊕ folded c (product s) s.checks s.check_cnt ⊗ d ⊗ d))
          × ((answer ≡ done (after, rest)) ⊎ (answer ≡ abort))
    unfolding check_send check_recv
    check_recv_exact va vb ope eu ev rest = (
      iff_trans (passed_iff {A = A} _ _ _)
          (rw (regroup_keys, ← ope.linked) (accept_algebra _ _ _ _ _ _ _ _ folded_balance)),
      passed_or_abort {A = A} _ _ _,
    )

    -- If both sides hold the same triples, the two mask with matching correlations, and each value
    -- claimed is the product, the verifier accepts the prover's messages.
    pub check_complete :
        (va vb : ℕ → Auth A)
        → Matches d (va s.drawn) (vb t.drawn)
        → ((i : ℕ) → i < s.check_cnt → claimed s i ≡ product s i)
        → (rest : List A)
        → check_recv c d vb t ((check_send c va s).1 ++ rest)
          ≡ done (record t { drawn = t.drawn + 1; checks = t.checks + 1 }, rest)
    unfolding check_send check_recv
    check_complete va vb ope right rest = (passed_iff {A = A} _ _ _).1 (
        sym (
          regroup _ _ _ _
          ∙ ap₂ ◌⊕◌
              (add_cancel _ _ _ (
                folded_balance
                ∙ ap (λ q. folded c (gate_a0 c s) s.checks s.check_cnt ⊕ q ⊗ d ⊗ d)
                    (sym (folded_congr c (claimed s) (product s) s.checks s.check_cnt right))))
              (sym ope.linked)))
      where
        regroup : (v x w k : A) → (v ⊕ x) ⊗ d ⊕ (w ⊕ k) ≡ (v ⊗ d ⊕ w) ⊕ (x ⊗ d ⊕ k)
        regroup v x w k = simp ring_laws
