-- ===== src/ZkBool/Program/Complete.antt =====
-- A whole proof of a Boolean circuit, from the constructors of the two engines to their
-- destructors.
use mathlib.Core.List.{append-nil}
use vole_zk.Common.{
  ℕ, ◌+◌, ◌<◌, ◌==◌, Bool, true, false, Bool-cases, List, [], ◌++◌, ◌≡◌, inl, inr, refl, sym, ap,
  ◌∙◌, arith,
}
use vole_zk.Field.{Field}
use vole_zk.Arith.Engine.{Result, done, ◌>>=◌}
use vole_zk.ZkBool.Block.{Blocks, WireOf}
use vole_zk.ZkBool.Check.{Message}
use vole_zk.ZkBool.Engine.{Engine, Setup, start}
use vole_zk.ZkBool.Engine.Prv.{check_send}
use vole_zk.ZkBool.Engine.Sync.{Sync, check_complete}
use vole_zk.ZkBool.Program.{
  Stmt, State, run_send, finish_send, run_recv, finish_recv, finalize_recv,
}
use vole_zk.ZkBool.Program.Plain.{no_wires, run_plain, AllInScope}
use vole_zk.ZkBool.Program.Steps.{InStep, run_ends, run_lem}

module _ {ℓ κ} {A W : Type ℓ} ⦃f : Field A⦄ ⦃b : Blocks A⦄ {D : Type κ} (c : Setup A W)
    (labels : A × A) (digest : List A → D) (same : D → D → Bool) where
  first_state : A → State A
  first_state junk = record { engine = start junk; wires = λ _. junk; size = 0; shown = [] }

  -- Everything that the prover sends, and the digest at the end.
  unfoldable pub prove : (ℕ → A) → A → List Stmt → Result (List (Message A) × D)
  unfolding first_state
  prove cot junk ps = run_send c labels cot ps (first_state junk) >>= λ (s, sent).
      let (e, checked) = finish_send c labels cot s.engine in
      done (sent ++ checked, digest e.stored)

  -- The bits revealed, if the verifier gets to its end.
  unfoldable pub verify : A → (ℕ → A) → A → List Stmt → List (Message A) → D → Result (List Bool)
  unfolding first_state
  verify delta cot junk ps inbox dig =
      run_recv c labels cot delta ps (first_state junk) inbox >>= λ (s, rest).
      finish_recv c labels cot delta s.engine rest >>= λ (e, rest').
      finalize_recv digest same e dig >>= λ _. done s.shown

  module _ (d : A) (odd : b.lsb d ≡ true) (ca cb : ℕ → A)
      (correlated : (i : ℕ) → WireOf d (ca i) (cb i)) (workers : 0 < c.threads)
      (some_room : 0 < c.check_sz) (same_refl : (x : D) → same x x ≡ true) where
    first-InStep : (junk junk' : A) → InStep c d (first_state junk) (first_state junk') no_wires
    unfolding first_state start
    first-InStep junk junk' = record {
      engines = record {
        same = record {
          cnt = refl;
          seed = refl;
          lefts = λ i lt. absurd (omega arith);
          rights = λ i lt. absurd (omega arith);
          outs = λ i lt. absurd (omega arith);
        };
        cots = refl;
        gates = refl;
        multiplied = λ i lt. absurd (omega arith);
        room = omega arith;
        stored = refl;
      };
      sizes = refl;
      plain_size = refl;
      wires = λ i lt. absurd (omega arith);
      vals = λ i lt. absurd (omega arith);
      prover_shown = refl;
      verifier_shown = refl;
    }

    -- The closing check passes, and both sides have hashed the same.
    finish_lem :
        {s t : Engine A}
        → Sync c d s t
        → let (e, checked) = finish_send c labels ca s in
          (e' : Engine A) × (finish_recv c labels cb d t checked ≡ done (e', []))
          × (e.stored ≡ e'.stored)
    unfolding finish_send finish_recv
    finish_lem {s} {t} y = elim (Bool-cases (s.check_cnt == 0)) [
      | inl nothing ↦ rw (nothing, other_side true nothing) (t, refl, y.stored)
      | inr left ↦
          rw (left, other_side false left)
            (
              record t { cots = t.cots + 128; checks = t.checks + 1 },
              rw (← append-nil (check_send c ca s).1)
                  (check_complete c d odd ca cb correlated workers {s = s} {t = t} [] y),
              checked_stored ∙ y.stored,
            )
    ]
      where
        checked_stored : (check_send c ca s).0.stored ≡ s.stored
        checked_stored = unfold check_send in refl

        other_side : (x : Bool) → (s.check_cnt == 0) ≡ x → (t.check_cnt == 0) ≡ x
        other_side x e = rw (← y.same.cnt) e

    -- With correlations that match under a Δ whose last bit is 1, a worker or more, buffers of a
    -- slot or more and a reflexive comparison of digests, the prover ends for every circuit whose
    -- operands exist, and the verifier accepts what it sends, whatever the coefficients of the
    -- checks; the bits that the verifier sees revealed are those that the circuit reveals to it.
    pub bool_verify-prove :
        (ps : List Stmt) (junk junk' : A)
        → AllInScope ps no_wires
        → (o : List (Message A) × D) × (prove ca junk ps ≡ done o)
          × (verify d cb junk' ps o.0 o.1 ≡ done (run_plain ps no_wires).shown)
    unfolding prove verify finalize_recv
    bool_verify-prove ps junk junk' h =
        let ends =
          run_ends c d labels odd ca cb correlated workers some_room ps (first_state junk) in
        let checked : List (Message A) = (finish_send c labels ca ends.0.0.engine).1 in
        let ran =
          run_lem c d labels odd ca cb correlated workers some_room ps checked
            (first-InStep junk junk') h in
        let fin = finish_lem {s = ends.0.0.engine} {t = (ran.state).engine} (ran.in_step).engines in
        (
          (ends.0.1 ++ checked, digest (finish_send c labels ca ends.0.0.engine).0.stored),
          rw ends.1,
          rw (ran.accepted, fin.1, ap digest (sym fin.2), same_refl)
              (ap done (ran.in_step).verifier_shown),
        )
