-- ===== src/Arith/Engine/Sync.antt =====
-- The two engines in lockstep: each operation of the prover, answered by the verifier on the
-- messages that it sent, keeps the engines in step and never fails.
use vole_zk.Common.{
  ℕ, ◌+◌, ◌≤◌, ◌<◌, ◌==◌, Bool, Bool-cases, lt→ltb, true, false, List, ◌++◌, ◌≡◌, inl, inr, refl,
  sym, ap, ◌∙◌, arith, update,
}
use mathlib.Core.List.{append_assoc}
use vole_zk.Field.{Field, ◌⊕◌, ◌⊗◌, ◌⊖◌}
use vole_zk.Field.Laws.{sub-add, ring_laws}
use vole_zk.Arith.Wire.{Auth, Matches}
use vole_zk.Arith.Engine.{
  Engine, Setup, Result, done, fill_vole, check_send, input_send, input_recv, slot_send, slot_recv,
  room_send, room_recv, auth_compute_mul_send, auth_compute_mul_recv,
}
use vole_zk.Arith.Engine.Check.{SameTriples, claimed, product, check_complete}

-- What the two sides have in common between two operations of an honest proof.
pub record Sync {ℓ} {A : Type ℓ} ⦃f : Field A⦄ (c : Setup A) (d : A) (s t : Engine A) : Type ℓ where
  pub same : SameTriples d s t
  pub drawn : s.drawn ≡ t.drawn
  pub multiplied : (i : ℕ) → i < s.check_cnt → claimed c d s i ≡ product c d s i
  pub fresh : (i : ℕ) → s.check_cnt ≤ i → i < c.check_sz → Matches d (s.out i) (t.out i)
  pub room : s.check_cnt ≤ c.check_sz
  pub stored : s.stored ≡ t.stored

module _ {ℓ} {A : Type ℓ} ⦃f : Field A⦄ (c : Setup A) (d : A) (va vb : ℕ → Auth A) where
  -- The verifier's answer to a message that comes with a new wire.
  pub record Answered (s' : Engine A) (wire : Auth A) (rest : List A)
      (answer : Result (Engine A × List A × Auth A)) : Type ℓ where
    pub engine : Engine A
    pub key : Auth A
    pub accepted : answer ≡ done (engine, rest, key)
    pub sync : Sync c d s' engine
    pub matches : Matches d wire key

  masked : (w v k : A) → v ⊗ d ⊕ k ≡ w ⊗ d ⊕ (k ⊕ (v ⊖ w) ⊗ d)
  masked w v k = ap (λ q. q ⊗ d ⊕ k) (sym (sub-add v w)) ∙ regroup (v ⊖ w)
    where
      regroup : (x : A) → (x ⊕ w) ⊗ d ⊕ k ≡ w ⊗ d ⊕ (k ⊕ x ⊗ d)
      regroup x = simp ring_laws

  -- The value `w` under the correlation `(v, v d + k)`, when the verifier is sent `v - w`.
  masked-Matches :
      (w : A) {a k : Auth A}
      → Matches d a k
      → Matches d
          (record { val = w; mac = a.mac })
          (record { val = f.zero; mac = k.mac ⊕ (a.val ⊖ w) ⊗ d })
  masked-Matches w {a} {k} m = record { linked = m.linked ∙ masked w a.val k.mac; keyed = refl }

  step_drawn : {s t : Engine A} → Sync c d s t → s.drawn + 1 ≡ t.drawn + 1
  step_drawn y = ap (λ n. n + 1) y.drawn

  module _ (correlated : (i : ℕ) → Matches d (va i) (vb i)) where
    drawn-Matches : (i j : ℕ) → i ≡ j → Matches d (va i) (vb j)
    drawn-Matches i j e = rw e (correlated j)

    -- On engines in step with correlations that match, an input `w` of the prover: the verifier
    -- takes the message, the engines are in step again, and the key matches a wire of value `w`.
    pub input_lem :
        {s t : Engine A} (w : A) (rest : List A)
        → Sync c d s t
        → let (s', sent, wire) = input_send c va s w in
          Answered s' wire rest (input_recv c d vb t (sent ++ rest)) × (wire.val ≡ w)
    unfolding input_send input_recv
    input_lem {s} {t} w rest y = (
      record {
        engine = record t { drawn = t.drawn + 1 };
        key = record { val = f.zero; mac = (vb t.drawn).mac ⊕ ((va s.drawn).val ⊖ w) ⊗ d };
        accepted = refl;
        sync = record {
          same = record {
            cnt = y.same.cnt;
            seed = y.same.seed;
            lefts = y.same.lefts;
            rights = y.same.rights;
            outs = y.same.outs;
          };
          drawn = step_drawn y;
          multiplied = y.multiplied;
          fresh = y.fresh;
          room = y.room;
          stored = y.stored;
        };
        matches = masked-Matches w (drawn-Matches _ _ y.drawn);
      },
      refl,
    )

    -- A write to slot `cnt` on both sides extends what matches below `cnt` by one.
    pub update-Matches :
        (g h : ℕ → Auth A) (n m i : ℕ) {a k : Auth A}
        → n ≡ m
        → ((j : ℕ) → j < n → Matches d (g j) (h j))
        → Matches d a k
        → i < n + 1
        → Matches d (update g n a i) (update h m k i)
    update-Matches g h n m i e below new lt = elim (Bool-cases (i == n)) [
      | inl at ↦ rw (← e, at) new
      | inr other ↦ rw (← e, other) (below i (ground arith))
    ]

    update_above :
        (g h : ℕ → Auth A) (n m i : ℕ) (a k : Auth A)
        → n ≡ m
        → n + 1 ≤ i
        → Matches d (g i) (h i)
        → Matches d (update g n a i) (update h m k i)
    update_above g h n m i a k e above old = rw (← e, not_here) old
      where
        not_here : (i == n) ≡ false
        not_here = ground arith

    slot_lem :
        {s t : Engine A} {ma mb ka kb : Auth A} (rest : List A)
        → Sync c d s t
        → s.check_cnt < c.check_sz
        → Matches d ma ka
        → Matches d mb kb
        → let (s', sent, wire) = slot_send c s ma mb in
          Answered s' wire rest (slot_recv c d t ka kb (sent ++ rest))
          × (wire.val ≡ ma.val ⊗ mb.val)
    unfolding slot_send slot_recv
    slot_lem {s} {t} {ma} {mb} {ka} {kb} rest y lt pa pb = (
      record {
        engine = _;
        key = _;
        accepted = refl;
        sync = record {
          same = record {
            cnt = ap (λ n. n + 1) y.same.cnt;
            seed = y.same.seed;
            lefts = λ i. update-Matches _ _ _ _ i y.same.cnt y.same.lefts pa;
            rights = λ i. update-Matches _ _ _ _ i y.same.cnt y.same.rights pb;
            outs = λ i. update-Matches _ _ _ _ i y.same.cnt y.same.outs wire;
          };
          drawn = y.drawn;
          multiplied = λ i lt'. products i lt';
          fresh = λ i above below.
              update_above s.out t.out _ _ i _ _ y.same.cnt above (y.fresh i (omega arith) below);
          room = omega arith;
          stored = y.stored;
        };
        matches = wire;
      },
      refl,
    )
      where
        at_slot : Matches d (s.out s.check_cnt) (t.out t.check_cnt)
        at_slot = rw (← y.same.cnt) (y.fresh s.check_cnt (omega arith) lt)

        wire :
            Matches d
              (record { val = ma.val ⊗ mb.val; mac = (s.out s.check_cnt).mac })
              (record {
                val = f.zero;
                mac = (t.out t.check_cnt).mac ⊕ ((s.out s.check_cnt).val ⊖ ma.val ⊗ mb.val) ⊗ d;
              })
        wire = masked-Matches (ma.val ⊗ mb.val) at_slot

        products :
            (i : ℕ)
            → i < s.check_cnt + 1
            → (update s.out s.check_cnt
                (record { val = ma.val ⊗ mb.val; mac = (s.out s.check_cnt).mac })
                i).val
              ≡ (update s.left s.check_cnt ma i).val ⊗ (update s.right s.check_cnt mb i).val
        products i lt' = elim (Bool-cases (i == s.check_cnt)) [
          | inl at ↦ rw at
          | inr other ↦ rw other (y.multiplied i (ground arith))
        ]

    record Roomy (s' : Engine A) (rest : List A) (answer : Result (Engine A × List A))
        : Type ℓ where
      engine : Engine A
      accepted : answer ≡ done (engine, rest)
      sync : Sync c d s' engine
      free : s'.check_cnt < c.check_sz

    -- The check leaves everything in step but the count of correlations and of checks.
    checked-Sync :
        {s t : Engine A}
        → Sync c d s t
        → 0 < c.check_sz
        → Sync c d (fill_vole va c.check_sz (record (check_send c va s).0 { check_cnt = 0 })) (
            fill_vole vb c.check_sz
              (record t { drawn = t.drawn + 1; checks = t.checks + 1; check_cnt = 0 }))
    unfolding fill_vole check_send
    checked-Sync {s} {t} y pos = record {
      same = record {
        cnt = refl;
        seed = ap (λ n. n + 1) y.same.seed;
        lefts = λ i lt. absurd (omega arith);
        rights = λ i lt. absurd (omega arith);
        outs = λ i lt. absurd (omega arith);
      };
      drawn = ap (λ n. n + 1 + c.check_sz) y.drawn;
      multiplied = λ i lt. absurd (omega arith);
      fresh = λ i above below.
          rw (lt→ltb i c.check_sz below) (drawn-Matches _ _ (ap (λ n. n + 1 + i) y.drawn));
      room = omega arith;
      stored = y.stored;
    }

    room_lem :
        {s t : Engine A} (rest : List A)
        → 0 < c.check_sz
        → Sync c d s t
        → let (s', sent) = room_send c va s in Roomy s' rest (room_recv c d vb t (sent ++ rest))
    unfolding room_send room_recv
    room_lem {s} {t} rest pos y = elim (Bool-cases (s.check_cnt == c.check_sz)) [
      | inl full ↦
          rw (full, other_side true full)
            (record {
              engine = _;
              accepted =
                  rw
                    (check_complete c d y.same va vb (drawn-Matches _ _ y.drawn) y.multiplied rest);
              sync = checked-Sync y pos;
              free = unfold fill_vole in pos;
            })
      | inr free ↦
          rw (free, other_side false free)
            (record { engine = t; accepted = refl; sync = y; free = ground arith })
    ]
      where
        other_side : (b : Bool) → (s.check_cnt == c.check_sz) ≡ b → (t.check_cnt == c.check_sz) ≡ b
        other_side b e = rw (← y.same.cnt) e

    -- On engines in step, with correlations and operands that match and buffers of one slot or
    -- more, a multiplication with the check that it may run first: the verifier takes the messages,
    -- the engines are in step again, and the key matches a wire of value the product.
    pub auth_compute_mul_lem :
        {s t : Engine A} {ma mb ka kb : Auth A} (rest : List A)
        → 0 < c.check_sz
        → Sync c d s t
        → Matches d ma ka
        → Matches d mb kb
        → let (s', sent, wire) = auth_compute_mul_send c va s ma mb in
          Answered s' wire rest (auth_compute_mul_recv c d vb t ka kb (sent ++ rest))
          × (wire.val ≡ ma.val ⊗ mb.val)
    unfolding auth_compute_mul_send auth_compute_mul_recv
    auth_compute_mul_lem {s} {t} {ma} {mb} {ka} {kb} rest pos y pa pb =
        let s' : Engine A = (room_send c va s).0 in
        let sent : List A = (slot_send c s' ma mb).1 in
        let roomy : Roomy s' (sent ++ rest)
            (room_recv c d vb t ((room_send c va s).1 ++ (sent ++ rest))) =
          room_lem (sent ++ rest) pos y in
        let slot = slot_lem {s = s'} {t = roomy.engine} rest roomy.sync roomy.free pa pb in
        (
          record {
            engine = slot.0.engine;
            key = slot.0.key;
            accepted = rw (append_assoc, roomy.accepted) slot.0.accepted;
            sync = slot.0.sync;
            matches = slot.0.matches;
          },
          slot.1,
        )
