-- ===== src/ZkBool/Engine/Exact.antt =====
-- The batched check of the AND gates: which messages the verifier accepts.
use vole_zk.Common.{
  ℕ, ◌+◌, ◌<◌, Bool, true, false, ◌&&◌, iff_trans, List, ◌++◌, ◌≡◌, ◌↔◌, ◌⊎◌, inl, inr, refl, sym,
  ap, ap₂, ◌∙◌,
}
use vole_zk.Field.{Field, ◌⊕◌, ◌⊗◌}
use vole_zk.Field.Laws.{add_comm, one-mul, zero-mul}
use vole_zk.Field.Sum.{sum_to, sum_to_weighted}
use vole_zk.Arith.Engine.{Result, done, abort, ◌>>=◌}
use vole_zk.Arith.Engine.Check.{gate_identity}
use vole_zk.ZkBool.Block.{Blocks, get_lsb, select, WireOf, add_twice, select-mul}
use vole_zk.ZkBool.Check.{Message, batch_sum}
use vole_zk.ZkBool.Check.Sum.{batch_sum_lem}
use vole_zk.ZkBool.Check.Exact.{shifted, aggregate_iff}
use vole_zk.ZkBool.Engine.{Engine, Setup}
use vole_zk.ZkBool.Engine.Prv.{gate_a0, gate_a1, check_send}
use vole_zk.ZkBool.Engine.Ver.{gate_b, check_recv}

-- The two engines hold the same triples, one side as MACs and the other as keys.
pub record SameTriples {ℓ} {A : Type ℓ} ⦃f : Field A⦄ ⦃b : Blocks A⦄ (d : A) (s t : Engine A)
    : Type ℓ where
  pub cnt : s.check_cnt ≡ t.check_cnt
  pub seed : s.checks ≡ t.checks
  pub lefts : (i : ℕ) → i < s.check_cnt → WireOf d (s.left i) (t.left i)
  pub rights : (i : ℕ) → i < s.check_cnt → WireOf d (s.right i) (t.right i)
  pub outs : (i : ℕ) → i < s.check_cnt → WireOf d (s.out i) (t.out i)

module _ {ℓ κ} {B : Type ℓ} {C : Type κ} where
  -- A pure step after an answer changes neither acceptance nor failure.
  pub answer_map :
      (r : Result B) (x : B) (y : B → C)
      → (r ≡ done x) ⊎ (r ≡ abort)
      → (((r >>= λ z. done (y z)) ≡ done (y x)) ↔ (r ≡ done x))
        × (((r >>= λ z. done (y z)) ≡ done (y x)) ⊎ ((r >>= λ z. done (y z)) ≡ abort))
  answer_map r x y (inl e) = rw e ((λ _. refl, λ _. refl), inl refl)
  answer_map r x y (inr e) = rw e ((λ h. cc h, λ h. cc h), inr refl)

module _ {ℓ} {A : Type ℓ} ⦃f : Field A⦄ ⦃b : Blocks A⦄ where
  -- A bit as an element of the field.
  unfoldable pub bit_elem : Bool → A
  unfolding select
  bit_elem x = select x f.one

  pub select_elem : (x : Bool) (r : A) → select x r ≡ bit_elem x ⊗ r
  unfolding bit_elem
  select_elem x r = sym (select-mul x f.one r ∙ ap (select x) (one-mul r))

  pub bit_elem-and : (x y : Bool) → bit_elem (x && y) ≡ bit_elem x ⊗ bit_elem y
  unfolding bit_elem select
  bit_elem-and true y = sym (one-mul _)
  bit_elem-and false y = sym (zero-mul _)

  pub linear : (d : A) {a k : A} → WireOf d a k → a ≡ bit_elem (get_lsb a) ⊗ d ⊕ k
  linear d {a} {k} w = w.linked ∙ add_comm _ _ ∙ ap (λ t. t ⊕ k) (select_elem (get_lsb a) d)

  -- The bits in the slots, whatever a prover put there.
  abbrev pub claimed : Engine A → ℕ → A
  claimed s i = bit_elem (get_lsb (s.out i))

  abbrev pub product : Engine A → ℕ → A
  product s i = bit_elem (get_lsb (s.left i)) ⊗ bit_elem (get_lsb (s.right i))

  module _ {W : Type ℓ} (c : Setup A W) (d : A) where
    -- The sum over the buffered triples with the coefficients of the next check.
    abbrev pub random_sum : Engine A → (ℕ → A) → A
    random_sum s g = sum_to (λ i. g i ⊗ c.chi s.checks i) s.check_cnt

    one_triple :
        {l r o kl kr ko : A}
        → WireOf d l kl
        → WireOf d r kr
        → WireOf d o ko
        → (((select (get_lsb l) r ⊕ select (get_lsb r) l) ⊕ o) ⊗ d ⊕ (kl ⊗ kr ⊕ ko ⊗ d))
            ⊕ bit_elem (get_lsb o) ⊗ d ⊗ d
          ≡ l ⊗ r ⊕ (bit_elem (get_lsb l) ⊗ bit_elem (get_lsb r)) ⊗ d ⊗ d
    one_triple {l} {r} {o} {kl} {kr} {ko} wl wr wo =
        gate_identity d (bit_elem (get_lsb l)) (bit_elem (get_lsb r)) kl kr (bit_elem (get_lsb o))
          ko ((select (get_lsb l) r ⊕ select (get_lsb r) l) ⊕ o)
          (ap (λ t. ((select (get_lsb l) r ⊕ select (get_lsb r) l) ⊕ o) ⊕ t) (sym (linear d wo))
            ∙ add_twice _ o
            ∙ ap₂ ◌⊕◌ (select_elem (get_lsb l) r ∙ ap (λ t. bit_elem (get_lsb l) ⊗ t) (linear d wr))
                (select_elem (get_lsb r) l ∙ ap (λ t. bit_elem (get_lsb r) ⊗ t) (linear d wl)))
        ∙ ap₂ (λ x y. x ⊗ y ⊕ (bit_elem (get_lsb l) ⊗ bit_elem (get_lsb r)) ⊗ d ⊗ d)
            (sym (linear d wl)) (sym (linear d wr))

    module _ {s t : Engine A} (same : SameTriples d s t) (pos : 0 < c.threads) where
      balance :
          (batch_sum c.inner c.threads (c.chi s.checks) (gate_a1 s) s.check_cnt ⊗ d
              ⊕ batch_sum c.inner c.threads (c.chi t.checks) (gate_b d t) t.check_cnt)
            ⊕ random_sum s (claimed s) ⊗ d ⊗ d
          ≡ batch_sum c.inner c.threads (c.chi s.checks) (gate_a0 s) s.check_cnt
            ⊕ random_sum s (product s) ⊗ d ⊗ d
      balance =
          rw
            (
              ← same.cnt,
              ← same.seed,
              batch_sum_lem c.inner (c.chi s.checks) (gate_a1 s) c.threads s.check_cnt pos,
              batch_sum_lem c.inner (c.chi s.checks) (gate_b d t) c.threads s.check_cnt pos,
              batch_sum_lem c.inner (c.chi s.checks) (gate_a0 s) c.threads s.check_cnt pos,
            )
            (sum_to_weighted d (gate_a1 s) (gate_b d t) (claimed s) (gate_a0 s) (product s)
              (c.chi s.checks) s.check_cnt
              λ i lt. one_triple (same.lefts i lt) (same.rights i lt) (same.outs i lt))

      -- Both sides hold the same buffered triples, whatever their bits, and draw 128 matching
      -- correlations; there is a worker or more; the prover adds `eu` and `ev` to the two blocks
      -- that the code sends. The verifier accepts exactly if `eu + C Δ^2` is `ev Δ + P Δ^2`, with
      -- `C` the random sum of the output bits and `P` that of the products of the input bits; else
      -- it aborts.
      pub and_check_exact :
          (ca cb : ℕ → A)
          → ((i : ℕ) → i < 128 → WireOf d (ca (s.cots + i)) (cb (t.cots + i)))
          → (eu ev : A) (rest : List (Message A))
          → let answer = check_recv d c cb t (shifted eu ev (check_send c ca s).1 ++ rest) in
            let after = record t { cots = t.cots + 128; checks = t.checks + 1 } in
            ((answer ≡ done (after, rest))
              ↔ (eu ⊕ random_sum s (claimed s) ⊗ d ⊗ d ≡ ev ⊗ d ⊕ random_sum s (product s) ⊗ d ⊗ d))
            × ((answer ≡ done (after, rest)) ⊎ (answer ≡ abort))
      unfolding check_send check_recv
      and_check_exact ca cb fresh eu ev rest =
          let exchange =
            aggregate_iff c.pack d (λ i. ca (s.cots + i)) (λ i. cb (t.cots + i)) fresh _ _ _ _ _ eu
              ev rest balance in
          let mapped =
            answer_map _ rest
              (λ (r : List (Message A)).
                (record t { cots = t.cots + 128; checks = t.checks + 1 }, r))
              exchange.1 in
          (iff_trans mapped.0 exchange.0, mapped.1)
