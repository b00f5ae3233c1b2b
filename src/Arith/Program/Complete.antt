-- ===== src/Arith/Program/Complete.antt =====
-- A whole session, from the constructors of the two engines to their destructors.
use mathlib.Core.List.{append-nil}
use vole_zk.Common.{
  ℕ, ◌+◌, ◌<◌, ◌==◌, Bool, true, false, Bool-cases, lt→ltb, List, [], ◌++◌, ◌≡◌, inl, inr, refl,
  sym, ap, ◌∙◌, arith,
}
use vole_zk.Field.{Field}
use vole_zk.Arith.Wire.{Auth, Matches}
use vole_zk.Arith.Engine.{Engine, Setup, Result, done, ◌>>=◌, start, fill_vole, check_send}
use vole_zk.Arith.Engine.Check.{check_complete}
use vole_zk.Arith.Engine.Sync.{Sync}
use vole_zk.Arith.Program.{
  Stmt, State, run_send, finish_send, run_recv, finish_recv, flush_send, flush_recv,
}
use vole_zk.Arith.Program.Plain.{no_wires, run_plain, Holds}
use vole_zk.Arith.Program.Steps.{InStep, run_lem}

module _ {ℓ κ} {A : Type ℓ} ⦃f : Field A⦄ {D : Type κ} (c : Setup A) (pub_mac : A)
    (digest : List A → D) (same : D → D → Bool) where
  first_state : (ℕ → Auth A) → Auth A → State A
  first_state vole junk = record {
    engine = start c vole junk;
    wires = λ _. junk;
    size = 0;
    shown = [];
  }

  -- Everything that the prover sends, and the digest at the end.
  unfoldable pub prove : (ℕ → Auth A) → Auth A → List (Stmt A) → List A × D
  unfolding first_state
  prove vole junk ps =
      let (s, sent) = run_send c pub_mac vole ps (first_state vole junk) in
      let (e, checked) = finish_send c pub_mac vole s.engine in
      (sent ++ checked, (flush_send c pub_mac digest same e).1)

  -- The values revealed, if the verifier gets to its end.
  unfoldable pub verify : A → (ℕ → Auth A) → Auth A → List (Stmt A) → List A → D → Result (List A)
  unfolding first_state
  verify delta vole junk ps inbox dig =
      run_recv c pub_mac delta vole ps (first_state vole junk) inbox >>= λ (s, rest).
      finish_recv c pub_mac delta vole s.engine rest >>= λ (e, rest').
      flush_recv c pub_mac digest same e dig >>= λ _. done s.shown

  module _ (d : A) (va vb : ℕ → Auth A) (correlated : (i : ℕ) → Matches d (va i) (vb i))
      (some_room : 0 < c.check_sz) (same_refl : (x : D) → same x x ≡ true) where
    start-Sync : (junk junk' : Auth A) → Sync c d (start c va junk) (start c vb junk')
    unfolding start fill_vole
    start-Sync junk junk' = record {
      same = record {
        cnt = refl;
        seed = refl;
        lefts = λ i lt. absurd (omega arith);
        rights = λ i lt. absurd (omega arith);
        outs = λ i lt. absurd (omega arith);
      };
      drawn = refl;
      multiplied = λ i lt. absurd (omega arith);
      fresh = λ i above below. rw (lt→ltb i c.check_sz below) (correlated (1 + i));
      room = omega arith;
      stored = refl;
    }

    first-InStep :
        (junk junk' : Auth A) → InStep c d (first_state va junk) (first_state vb junk') no_wires
    unfolding first_state
    first-InStep junk junk' = record {
      engines = start-Sync junk junk';
      sizes = refl;
      plain_size = refl;
      wires = λ i lt. absurd (omega arith);
      vals = λ i lt. absurd (omega arith);
      prover_shown = refl;
      verifier_shown = refl;
    }

    -- The closing check passes, and both sides have hashed the same.
    finish_lem :
        {s t : Engine A}
        → Sync c d s t
        → let (e, checked) = finish_send c pub_mac va s in
          (e' : Engine A) × (finish_recv c pub_mac d vb t checked ≡ done (e', []))
          × (e.stored ≡ e'.stored)
    unfolding finish_send finish_recv
    finish_lem {s} {t} y = elim (Bool-cases (s.check_cnt == 0)) [
      | inl nothing ↦ rw (nothing, other_side true nothing) (t, refl, y.stored)
      | inr left ↦
          rw (left, other_side false left)
            (
              record t { drawn = t.drawn + 1; checks = t.checks + 1 },
              rw (← append-nil (check_send c va s).1) (
                  check_complete c d y.same va vb (rw (← y.drawn) (correlated s.drawn)) y.multiplied
                    []),
              checked_stored ∙ y.stored,
            )
    ]
      where
        checked_stored : (check_send c va s).0.stored ≡ s.stored
        checked_stored = unfold check_send in refl

        other_side : (b : Bool) → (s.check_cnt == 0) ≡ b → (t.check_cnt == 0) ≡ b
        other_side b e = rw (← y.same.cnt) e

    -- With correlations that match, buffers of a slot or more and a reflexive comparison of digests,
    -- the verifier accepts what the prover sends for every program whose operands exist and whose
    -- assertions hold, whatever the number of workers and the coefficients of the checks; and the
    -- values that it sees revealed are those that the program reveals.
    pub verify-prove :
        (ps : List (Stmt A)) (junk junk' : Auth A)
        → Holds ps no_wires
        → let (sent, dig) = prove va junk ps in
          verify d vb junk' ps sent dig ≡ done (run_plain ps no_wires).shown
    unfolding prove verify flush_send flush_recv
    verify-prove ps junk junk' h =
        let s : State A = (run_send c pub_mac va ps (first_state va junk)).0 in
        let checked : List A = (finish_send c pub_mac va s.engine).1 in
        let ran =
          run_lem c pub_mac d va vb correlated some_room ps checked (first-InStep junk junk') h in
        let fin = finish_lem {s = s.engine} {t = (ran.state).engine} (ran.in_step).engines in
        rw (ran.accepted, fin.1, ap digest (sym fin.2), same_refl)
          (ap done (ran.in_step).verifier_shown)
