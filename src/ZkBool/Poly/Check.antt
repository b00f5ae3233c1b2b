-- ===== src/ZkBool/Poly/Check.antt =====
-- `batch_check` of the statements on bits: which messages the verifier accepts.
use vole_zk.Common.{ℕ, ◌+◌, ◌<◌, Bool, iff_trans, List, ◌++◌, ◌≡◌, ◌↔◌, ◌⊎◌, sym, ap, ap₂, ◌∙◌}
use vole_zk.Field.{Field, ◌⊕◌, ◌⊗◌}
use vole_zk.Field.Laws.{add-zero, ring_laws}
use vole_zk.Field.Sum.{sum_to, sum_to_rows}
use vole_zk.Arith.Engine.{done, abort}
use vole_zk.Arith.Engine.Check.{passed_iff, passed_or_abort, accept_algebra}
use vole_zk.Arith.Poly.Check.{nonempty}
use vole_zk.ZkBool.Block.{Blocks, get_lsb, WireOf}
use vole_zk.ZkBool.Check.{Message, gather_bits}
use vole_zk.ZkBool.Check.Bits.{gather_zero}
use vole_zk.ZkBool.Check.Exact.{shifted, words_linked, from_zero}
use vole_zk.ZkBool.Engine.Exact.{bit_elem, select_elem}
use vole_zk.ZkBool.Poly.{PolyProof, PolySetup, par_inn_prdt, batch_check_send, batch_check_recv}
use vole_zk.ZkBool.Poly.Sum.{par_inn_prdt_lem}
use vole_zk.ZkBool.Poly.Row.{Row}

module _ {ℓ} {A : Type ℓ} ⦃f : Field A⦄ ⦃b : Blocks A⦄ (c : PolySetup A) (d : A) where
  -- The two sides hold the same statements, the value of that in slot `i` being `v i`.
  pub record Paired (v : ℕ → Bool) (s t : PolyProof A) : Type ℓ where
    pub num : s.num ≡ t.num
    pub seed : s.checks ≡ t.checks
    pub cots : s.cots ≡ t.cots
    pub row : (i : ℕ) → i < s.num → Row d (s.buffer i, s.buffer1 i) (t.buffer i) (v i)

  -- The random sum of the values in the buffer.
  abbrev pub random_sum : (ℕ → Bool) → PolyProof A → A
  random_sum v s = sum_to (λ i. c.chi s.checks i ⊗ bit_elem (v i)) s.num

  regroup : (w k v m ev : A) → (w ⊕ k) ⊕ ((v ⊕ m) ⊕ ev) ⊗ d ≡ ((v ⊗ d ⊕ w) ⊕ (k ⊕ m ⊗ d)) ⊕ ev ⊗ d
  regroup w k v m ev = simp ring_laws

  module _ (v : ℕ → Bool) {s t : PolyProof A} (same : Paired v s t) (pos : 0 < c.threads) where
    balance :
        (par_inn_prdt c (c.chi s.checks) s.buffer1 s.num ⊗ d
            ⊕ par_inn_prdt c (c.chi t.checks) t.buffer t.num)
          ⊕ f.zero
        ≡ par_inn_prdt c (c.chi s.checks) s.buffer s.num ⊕ random_sum v s ⊗ (d ⊗ d)
    balance =
        rw
          (
            ← same.num,
            ← same.seed,
            par_inn_prdt_lem c (c.chi s.checks) s.buffer1 s.num pos,
            par_inn_prdt_lem c (c.chi s.checks) t.buffer s.num pos,
            par_inn_prdt_lem c (c.chi s.checks) s.buffer s.num pos,
          )
          (sum_to_rows d (c.chi s.checks) s.buffer1 t.buffer s.buffer (λ i. bit_elem (v i)) s.num
            (λ i lt.
              (same.row i lt).balanced ∙ ap (λ q. s.buffer i ⊕ q) (select_elem (v i) (d ⊗ d))))

    -- Both sides hold the same statements, at least one and true or not; there is a worker or more,
    -- and 128 matching correlations for the mask; the prover adds `eu` and `ev` to the two blocks
    -- that the code sends. The verifier accepts exactly if `eu = ev Δ + P Δ^2`, with `P` the random
    -- sum of the values of the statements; else it aborts.
    pub bool_batch_check_exact :
        (ca cb : ℕ → A)
        → ((i : ℕ) → i < 128 → WireOf d (ca (s.cots + i)) (cb (t.cots + i)))
        → 0 < s.num
        → (eu ev : A) (rest : List (Message A))
        → let answer =
            batch_check_recv c d cb t (shifted eu ev (batch_check_send c ca s).1 ++ rest) in
          let after = record t { num = 0; cots = t.cots + 128; checks = t.checks + 1 } in
          ((answer ≡ done (after, rest)) ↔ (eu ≡ ev ⊗ d ⊕ random_sum v s ⊗ (d ⊗ d)))
          × ((answer ≡ done (after, rest)) ⊎ (answer ≡ abort))
    unfolding batch_check_send batch_check_recv
    bool_batch_check_exact ca cb fresh some eu ev rest =
        rw (nonempty s.num some, nonempty t.num (rw same.num at some))
          (
            iff_trans (passed_iff {A = A} _ _ _) (
                rw (regroup, ← linked)
                  (iff_trans (accept_algebra _ _ _ f.zero _ _ eu (ev ⊗ d) balance)
                    (λ e. sym (add-zero eu) ∙ e, λ e. add-zero eu ∙ e))),
            passed_or_abort {A = A} _ _ _,
          )
      where
        bits : ℕ → Bool
        bits i = get_lsb (ca (s.cots + i))

        linked :
            c.pack.packing (λ i. ca (s.cots + i))
            ≡ c.pack.packing (λ i. cb (t.cots + i))
              ⊕ c.pack.make_block (gather_bits bits 64 64 0) (gather_bits bits 0 64 0) ⊗ d
        linked =
            words_linked c.pack d (λ i. ca (s.cots + i)) (λ i. cb (t.cots + i)) fresh
            ∙ sym (
                ap₂
                  (λ high low.
                    c.pack.packing (λ i. cb (t.cots + i)) ⊕ c.pack.make_block high low ⊗ d)
                  (gather_zero bits 64)
                  (gather_zero bits 0
                    ∙ from_zero c.pack d (λ i. ca (s.cots + i)) (λ i. cb (t.cots + i)) fresh))
