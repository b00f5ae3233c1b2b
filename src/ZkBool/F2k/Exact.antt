-- ===== src/ZkBool/F2k/Exact.antt =====
-- The batched check of the products of GF(2^128): which messages the verifier accepts.
use vole_zk.Common.{
  ℕ, zero, suc, ◌+◌, ◌-◌, ◌<◌, ltb, ◌==◌, if◌then◌else◌, true, iff_trans, List, ◌++◌, ◌≡◌, ◌↔◌, ◌⊎◌,
  refl, sym, ap, ap₂, ◌∙◌, arith,
}
use vole_zk.Field.{Field, ◌⊕◌, ◌⊗◌}
use vole_zk.Field.Laws.{add_comm, mul_comm}
use vole_zk.Field.Sum.{sum_to, sum_to_congr, sum_to_weighted}
use vole_zk.Arith.Wire.{Auth}
use vole_zk.Arith.Engine.{done, abort}
use vole_zk.Arith.Engine.Check.{gate_identity}
use vole_zk.Arith.Poly.Check.{nonempty}
use vole_zk.ZkBool.Block.{Blocks, WireOf, add_twice}
use vole_zk.ZkBool.Check.{Message}
use vole_zk.ZkBool.Check.Exact.{shifted, aggregate_iff}
use vole_zk.ZkBool.Engine.Exact.{answer_map}
use vole_zk.ZkBool.F2k.{
  F2k, F2kSetup, triple_a0, triple_a1, triple_b, scratched, f2k_check_send, f2k_check_recv,
}

module _ {ℓ} {A : Type ℓ} ⦃f : Field A⦄ ⦃b : Blocks A⦄ where
  -- The MAC lanes of a wire and its key; the value lane of a key in the buffers is not read.
  pub record Linked (d : A) (a k : Auth A) : Type ℓ where
    pub linked : a.mac ≡ a.val ⊗ d ⊕ k.mac

  -- The output of the triple in slot `i`.
  abbrev pub output : F2k A → ℕ → Auth A
  output s i = s.auth_buffer (s.authval_cnt - s.check_cnt + i)

  -- The two sides hold the same triples, whatever their values.
  pub record SameProducts (d : A) (s t : F2k A) : Type ℓ where
    pub cnt : s.check_cnt ≡ t.check_cnt
    pub seed : s.checks ≡ t.checks
    pub lefts : (i : ℕ) → i < s.check_cnt → Linked d (s.left i) (t.left i)
    pub rights : (i : ℕ) → i < s.check_cnt → Linked d (s.right i) (t.right i)
    pub outs : (i : ℕ) → i < s.check_cnt → Linked d (output s i) (output t i)

  one_product :
      (d : A) {l r o kl kr ko : Auth A}
      → Linked d l kl
      → Linked d r kr
      → Linked d o ko
      → (((r.val ⊗ l.mac ⊕ l.val ⊗ r.mac) ⊕ o.mac) ⊗ d ⊕ (kl.mac ⊗ kr.mac ⊕ ko.mac ⊗ d))
          ⊕ o.val ⊗ d ⊗ d
        ≡ l.mac ⊗ r.mac ⊕ (l.val ⊗ r.val) ⊗ d ⊗ d
  one_product d {l} {r} {o} {kl} {kr} {ko} wl wr wo =
      gate_identity d l.val r.val kl.mac kr.mac o.val ko.mac
        ((r.val ⊗ l.mac ⊕ l.val ⊗ r.mac) ⊕ o.mac)
        (ap (λ t. ((r.val ⊗ l.mac ⊕ l.val ⊗ r.mac) ⊕ o.mac) ⊕ t) (sym wo.linked)
          ∙ add_twice _ o.mac
          ∙ add_comm _ _
          ∙ ap₂ ◌⊕◌ (ap (λ t. l.val ⊗ t) wr.linked) (ap (λ t. r.val ⊗ t) wl.linked))
      ∙ ap₂ (λ x y. x ⊗ y ⊕ (l.val ⊗ r.val) ⊗ d ⊗ d) (sym wl.linked) (sym wr.linked)

  -- The random sum with the coefficients of the next check.
  abbrev pub weighted : F2kSetup A → F2k A → (ℕ → A) → A
  weighted c s g = sum_to (λ i. g i ⊗ c.chi s.checks i) s.check_cnt

  -- `f2k_check` reads back what it wrote.
  check_sum :
      (c : F2kSetup A) (chi g : ℕ → A) (buf : ℕ → Auth A) (n : ℕ)
      → (if n == 0 then f.zero else c.red chi (λ i. (scratched buf g n i).val) n)
        ≡ sum_to (λ i. g i ⊗ chi i) n
  unfolding sum_to
  check_sum c chi g buf zero = refl
  check_sum c chi g buf (suc n) =
      rw (nonempty (suc n) (omega arith))
        (c.red_lem chi (λ i. (scratched buf g (suc n) i).val) (suc n))
      ∙ sum_to_congr _ _ (suc n) λ i lt.
        ap (λ x. chi i ⊗ x)
          (ap (λ w. (if w then record { val = g i; mac = (buf i).mac } else buf i).val)
            (inside i lt))
        ∙ mul_comm (chi i) (g i)
    where
      inside : (i : ℕ) → i < suc n → ltb i (suc n) ≡ true
      inside i lt = ground arith

  module _ (c : F2kSetup A) (d : A) (va vb : ℕ → Auth A) {s t : F2k A}
      (same : SameProducts d s t) where
    balance :
        (weighted c s (triple_a1 s) ⊗ d
            ⊕ sum_to (λ i. triple_b d t i ⊗ c.chi t.checks i) t.check_cnt)
          ⊕ weighted c s (λ i. (output s i).val) ⊗ d ⊗ d
        ≡ weighted c s (triple_a0 s) ⊕ weighted c s (λ i. (s.left i).val ⊗ (s.right i).val) ⊗ d ⊗ d
    balance =
        ap
          (λ w. (weighted c s (triple_a1 s) ⊗ d ⊕ w) ⊕ weighted c s (λ i. (output s i).val) ⊗ d ⊗ d)
          (ap₂ (λ k n. sum_to (λ i. triple_b d t i ⊗ c.chi k i) n) (sym same.seed) (sym same.cnt))
        ∙ sum_to_weighted d (triple_a1 s) (triple_b d t) (λ i. (output s i).val) (triple_a0 s)
            (λ i. (s.left i).val ⊗ (s.right i).val) (c.chi s.checks) s.check_cnt
            λ i lt. one_product d (same.lefts i lt) (same.rights i lt) (same.outs i lt)

    -- The verifier after a check that it accepted.
    abbrev pub checked : F2k A
    checked = record t {
      left = scratched t.left (triple_b d t) t.check_cnt;
      cots = t.cots + 128;
      checks = t.checks + 1;
    }

    -- Both sides hold the same triples of elements, whatever their values, and draw 128 matching
    -- correlations; the prover adds `eu` and `ev` to the two blocks that the code sends. The
    -- verifier accepts exactly if `eu + C Δ^2` is `ev Δ + P Δ^2`, with `C` the random sum of the
    -- values of the outputs and `P` that of the products of the inputs; else it aborts.
    pub f2k_check_exact :
        (ca cb : ℕ → A)
        → ((i : ℕ) → i < 128 → WireOf d (ca (s.cots + i)) (cb (t.cots + i)))
        → (eu ev : A) (rest : List (Message A))
        → let answer =
            f2k_check_recv c vb d cb t (shifted eu ev (f2k_check_send c va ca s).1 ++ rest) in
          ((answer ≡ done (checked, rest)) ↔ (
            eu ⊕ weighted c s (λ i. (output s i).val) ⊗ d ⊗ d
            ≡ ev ⊗ d ⊕ weighted c s (λ i. (s.left i).val ⊗ (s.right i).val) ⊗ d ⊗ d))
          × ((answer ≡ done (checked, rest)) ⊎ (answer ≡ abort))
    unfolding f2k_check_send f2k_check_recv
    f2k_check_exact ca cb fresh eu ev rest =
        let exchange =
          aggregate_iff c.pack d (λ i. ca (s.cots + i)) (λ i. cb (t.cots + i)) fresh
            (weighted c s (triple_a0 s)) (weighted c s (triple_a1 s))
            (sum_to (λ i. triple_b d t i ⊗ c.chi t.checks i) t.check_cnt) _ _ eu ev rest balance in
        let mapped = answer_map _ rest (λ (r : List (Message A)). (checked, r)) exchange.1 in
        rw
          (
            check_sum c (c.chi s.checks) (triple_a0 s) s.left s.check_cnt,
            check_sum c (c.chi s.checks) (triple_a1 s) s.right s.check_cnt,
            check_sum c (c.chi t.checks) (triple_b d t) t.left t.check_cnt,
          )
          (iff_trans mapped.0 exchange.0, mapped.1)
