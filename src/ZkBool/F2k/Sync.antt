-- ===== src/ZkBool/F2k/Sync.antt =====
-- The f2k operations of the two engines in lockstep: what the prover sends, the verifier takes,
-- and both sides stay in step.
use vole_zk.Common.{ℕ, ◌+◌, ◌-◌, ◌≤◌, ◌<◌, true, List, ◌≡◌, refl, sym, ap, ◌∙◌, arith}
use vole_zk.Field.{Field, ◌⊗◌}
use vole_zk.Arith.Wire.{Auth, Matches}
use vole_zk.Arith.Engine.{Result, done}
use vole_zk.ZkBool.Block.{Blocks}
use vole_zk.ZkBool.Check.{Message}
use vole_zk.ZkBool.F2k.{F2k, F2kSetup, fresh, f2k_pre_buffer_refill, f2k_init}
use vole_zk.ZkBool.F2k.Exact.{Linked, SameProducts}

-- What two initialised engines have in common between two operations of an honest proof.
pub record Running {ℓ} {A : Type ℓ} ⦃f : Field A⦄ ⦃b : Blocks A⦄ (c : F2kSetup A) (d : A)
    (s t : F2k A) : Type ℓ where
  pub prover_on : s.ready ≡ true
  pub verifier_on : t.ready ≡ true
  pub drawn : s.drawn ≡ t.drawn
  pub cots : s.cots ≡ t.cots
  pub seed : s.checks ≡ t.checks
  pub cnt : s.check_cnt ≡ t.check_cnt
  pub prover_aligned : s.authval_cnt ≡ s.check_cnt
  pub verifier_aligned : t.authval_cnt ≡ t.check_cnt
  pub fits : s.check_cnt ≤ c.buffer_sz
  pub in_cnt : s.in_cnt ≡ t.in_cnt
  pub in_fits : s.in_cnt ≤ c.buffer_sz
  pub lefts : (i : ℕ) → i < s.check_cnt → Linked d (s.left i) (t.left i)
  pub rights : (i : ℕ) → i < s.check_cnt → Linked d (s.right i) (t.right i)
  pub auths : (i : ℕ) → i < c.buffer_sz → Linked d (s.auth_buffer i) (t.auth_buffer i)
  pub inputs : (i : ℕ) → s.in_cnt ≤ i → i < c.buffer_sz → Linked d (s.in_buffer i) (t.in_buffer i)
  pub multiplied :
      (i : ℕ) → i < s.check_cnt → (s.auth_buffer i).val ≡ (s.left i).val ⊗ (s.right i).val

module _ {ℓ} {A : Type ℓ} ⦃f : Field A⦄ ⦃b : Blocks A⦄ (c : F2kSetup A) (d : A) where
  -- The verifier's answer to messages that come with a new wire.
  pub record Answered (s' : F2k A) (wire : Auth A) (rest : List (Message A))
      (answer : Result (F2k A × List (Message A) × Auth A)) : Type ℓ where
    pub engine : F2k A
    pub key : Auth A
    pub accepted : answer ≡ done (engine, rest, key)
    pub running : Running c d s' engine
    pub matched : Matches d wire key

  module _ (va vb : ℕ → Auth A) (correlated : (i : ℕ) → Linked d (va i) (vb i)) where
    pub drawn-Linked : (i j : ℕ) → i ≡ j → Linked d (va i) (vb j)
    drawn-Linked i j e = rw e (correlated j)

    -- The first f2k operation of a proof starts both sides in step.
    pub fresh-Running :
        (n : ℕ) (junk junk' : A)
        → Running c d (f2k_init c va (fresh n junk)) (f2k_init c vb (fresh n junk'))
    unfolding f2k_init f2k_pre_buffer_refill fresh
    fresh-Running n junk junk' = record {
      prover_on = refl;
      verifier_on = refl;
      drawn = refl;
      cots = refl;
      seed = refl;
      cnt = refl;
      prover_aligned = refl;
      verifier_aligned = refl;
      fits = omega arith;
      in_cnt = refl;
      in_fits = omega arith;
      lefts = λ i lt. absurd (omega arith);
      rights = λ i lt. absurd (omega arith);
      auths = λ i lt. correlated (0 + i);
      inputs = λ i le lt. absurd (omega arith);
      multiplied = λ i lt. absurd (omega arith);
    }

    pub init_done : (vole : ℕ → Auth A) (s : F2k A) → s.ready ≡ true → f2k_init c vole s ≡ s
    unfolding f2k_init
    init_done vole s on = rw on refl

    pub Running-init :
        {s t : F2k A} → Running c d s t → Running c d (f2k_init c va s) (f2k_init c vb t)
    Running-init {s} {t} y = rw (init_done va s y.prover_on, init_done vb t y.verifier_on) y

    pub refill_lem :
        {s t : F2k A}
        → Running c d s t
        → s.check_cnt ≡ 0
        → Running c d (f2k_pre_buffer_refill c va s) (f2k_pre_buffer_refill c vb t)
    unfolding f2k_pre_buffer_refill
    refill_lem {s} {t} y none = record {
      prover_on = y.prover_on;
      verifier_on = y.verifier_on;
      drawn = ap (λ n. n + c.buffer_sz) y.drawn;
      cots = y.cots;
      seed = y.seed;
      cnt = y.cnt;
      prover_aligned = sym none;
      verifier_aligned = sym none ∙ y.cnt;
      fits = y.fits;
      in_cnt = y.in_cnt;
      in_fits = y.in_fits;
      lefts = y.lefts;
      rights = y.rights;
      auths = λ i lt. drawn-Linked (s.drawn + i) (t.drawn + i) (ap (λ n. n + i) y.drawn);
      inputs = y.inputs;
      multiplied = λ i lt. absurd (omega (arith, none));
    }

    pub at_slot : (n m i : ℕ) → n ≡ m → n - m + i ≡ i
    at_slot n m i e = omega arith

    pub moved :
        (g h : ℕ → Auth A) (i j k : ℕ) → j ≡ i → k ≡ i → Linked d (g i) (h i) → Linked d (g j) (h k)
    moved g h i j k e e' w = rw (e, e') w

    pub Running-SameProducts : {s t : F2k A} → Running c d s t → SameProducts d s t
    Running-SameProducts {s} {t} y = record {
      cnt = y.cnt;
      seed = y.seed;
      lefts = y.lefts;
      rights = y.rights;
      outs = λ i lt.
          moved s.auth_buffer t.auth_buffer i _ _
            (at_slot s.authval_cnt s.check_cnt i y.prover_aligned)
            (at_slot t.authval_cnt t.check_cnt i y.verifier_aligned)
            (y.auths i (omega (arith, y.fits)));
    }
