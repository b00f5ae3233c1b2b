-- ===== src/Arith/Poly/Check.antt =====
-- `batch_check`: which messages the verifier accepts.
use vole_zk.Common.{ℕ, ◌+◌, ◌<◌, false, ◌==◌, iff_trans, List, ◌++◌, ◌≡◌, ◌↔◌, ◌⊎◌, sym, ◌∙◌, arith}
use vole_zk.Field.{Field, ◌⊕◌, ◌⊗◌}
use vole_zk.Field.Laws.{add-zero, ring_laws}
use vole_zk.Field.Sum.{sum_to, sum_to_rows}
use vole_zk.Arith.Wire.{Auth, Matches}
use vole_zk.Arith.Engine.{done, abort}
use vole_zk.Arith.Engine.Check.{passed_iff, passed_or_abort, accept_algebra, shifted}
use vole_zk.Arith.Poly.{PolyProof, PolySetup, batch_check_send, batch_check_recv}

pub nonempty : (n : ℕ) → 0 < n → (n == 0) ≡ false
nonempty n h = ground arith

module _ {ℓ} {A : Type ℓ} ⦃f : Field A⦄ (c : PolySetup A) (d : A) where
  -- The two sides hold the same statements: that of slot `i` is `p i = 0`.
  pub record Paired (p : ℕ → A) (s t : PolyProof A) : Type ℓ where
    pub num : s.num ≡ t.num
    pub seed : s.checks ≡ t.checks
    pub drawn : s.drawn ≡ t.drawn
    pub row : (i : ℕ) → i < s.num → s.buffer1 i ⊗ d ⊕ t.buffer i ≡ s.buffer i ⊕ p i ⊗ (d ⊗ d)

  -- The random sum of the statements in the buffer.
  abbrev pub random_sum : (ℕ → A) → PolyProof A → A
  random_sum p s = sum_to (λ k. c.chi s.checks k ⊗ p k) s.num

  test_algebra :
      (u v w q x k eu ev : A)
      → (v ⊗ d ⊕ w) ⊕ f.zero ≡ u ⊕ q
      → ((w ⊕ k) ⊕ ((v ⊕ x) ⊕ ev) ⊗ d ≡ (u ⊕ (x ⊗ d ⊕ k)) ⊕ eu) ↔ (eu ≡ ev ⊗ d ⊕ q)
  test_algebra u v w q x k eu ev h =
      let algebra = accept_algebra u (v ⊗ d) w f.zero q (x ⊗ d ⊕ k) eu (ev ⊗ d) h in
      (
        λ e. sym (add-zero eu) ∙ algebra.0 (sym e ∙ regroup v w x k ev),
        λ e. regroup v w x k ev ∙ sym (algebra.1 (add-zero eu ∙ e)),
      )
    where
      regroup :
          (v w x k ev : A) → (w ⊕ k) ⊕ ((v ⊕ x) ⊕ ev) ⊗ d ≡ ((v ⊗ d ⊕ w) ⊕ (x ⊗ d ⊕ k)) ⊕ ev ⊗ d
      regroup v w x k ev = simp ring_laws

  module _ (p : ℕ → A) {s t : PolyProof A} (same : Paired p s t) where
    balance :
        (c.inner (c.chi s.checks) s.buffer1 s.num ⊗ d ⊕ c.inner (c.chi t.checks) t.buffer t.num)
          ⊕ f.zero
        ≡ c.inner (c.chi s.checks) s.buffer s.num ⊕ random_sum p s ⊗ (d ⊗ d)
    balance =
        rw (← same.num, ← same.seed, c.inner_lem, c.inner_lem, c.inner_lem)
          (sum_to_rows d (c.chi s.checks) s.buffer1 t.buffer s.buffer p s.num same.row)

    -- Both sides hold the same statements `p i = 0`, at least one and true or not, and mask with
    -- matching correlations; the prover adds `eu` and `ev` to the two messages that the code sends.
    -- The verifier accepts exactly if `eu = ev d + P d^2`, with `P` the random sum of the `p i`;
    -- else it aborts.
    pub batch_check_exact :
        (va vb : ℕ → Auth A)
        → Matches d (va s.drawn) (vb t.drawn)
        → 0 < s.num
        → (eu ev : A) (rest : List A)
        → let answer =
            batch_check_recv c d vb t (shifted eu ev (batch_check_send c va s).1 ++ rest) in
          let after = record t { num = 0; drawn = t.drawn + 1; checks = t.checks + 1 } in
          ((answer ≡ done (after, rest)) ↔ (eu ≡ ev ⊗ d ⊕ random_sum p s ⊗ (d ⊗ d)))
          × ((answer ≡ done (after, rest)) ⊎ (answer ≡ abort))
    unfolding batch_check_send batch_check_recv
    batch_check_exact va vb ope some eu ev rest =
        rw (nonempty s.num some, nonempty t.num (rw same.num at some))
          (
            iff_trans (passed_iff {A = A} _ _ _)
                (rw ope.linked (test_algebra _ _ _ _ _ _ _ _ balance)),
            passed_or_abort {A = A} _ _ _,
          )
