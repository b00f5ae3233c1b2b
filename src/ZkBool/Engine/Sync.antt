-- ===== src/ZkBool/Engine/Sync.antt =====
-- The two engines in lockstep: each operation of the prover, answered by the verifier on the
-- messages that it sent, keeps the engines in step and never fails.
use mathlib.Core.List.{append_assoc}
use vole_zk.Common.{
  ℕ, ◌+◌, ◌≤◌, ◌<◌, ◌==◌, Bool, Bool-cases, true, false, ◌&&◌, xor, List, ◌++◌, ◌≡◌, inl, inr, refl,
  sym, ap, ◌∙◌, arith, update,
}
use vole_zk.Field.{Field, ◌⊕◌, ◌⊗◌}
use vole_zk.Field.Laws.{add-zero, zero-add, zero-mul}
use vole_zk.Field.Sum.{sum_to_congr}
use vole_zk.Arith.Engine.{Result, done}
use vole_zk.ZkBool.Block.{Blocks, get_lsb, with_lsb, WireOf, lsb-with_lsb}
use vole_zk.ZkBool.Block.Laws.{masked-WireOf}
use vole_zk.ZkBool.Check.{Message, aggregate_send}
use vole_zk.ZkBool.Check.Exact.{shifted}
use vole_zk.ZkBool.Engine.{Engine, Setup}
use vole_zk.ZkBool.Engine.Prv.{embed, check_send, room_send, slot_send, auth_compute_and, and_block}
use vole_zk.ZkBool.Engine.Ver.{correct, check_recv, room_recv, slot_recv}
use vole_zk.ZkBool.Engine.Ver
use vole_zk.ZkBool.Engine.Exact.{
  SameTriples, bit_elem, bit_elem-and, claimed, product, random_sum, and_check_exact,
}

-- What the two sides have in common between two operations of an honest proof.
pub record Sync {ℓ} {A W : Type ℓ} ⦃f : Field A⦄ ⦃b : Blocks A⦄ (c : Setup A W) (d : A)
    (s t : Engine A) : Type ℓ where
  pub same : SameTriples d s t
  pub cots : s.cots ≡ t.cots
  pub gates : s.gid ≡ t.gid
  pub multiplied :
      (i : ℕ) → i < s.check_cnt → get_lsb (s.out i) ≡ (get_lsb (s.left i) && get_lsb (s.right i))
  pub room : s.check_cnt ≤ c.check_sz
  pub stored : s.stored ≡ t.stored

module _ {ℓ} {A W : Type ℓ} ⦃f : Field A⦄ ⦃b : Blocks A⦄ (c : Setup A W) (d : A) where
  -- The verifier's answer to messages that come with a new wire.
  pub record Answered (s' : Engine A) (wire : A) (rest : List (Message A))
      (answer : Result (Engine A × List (Message A) × A)) : Type ℓ where
    pub engine : Engine A
    pub key : A
    pub accepted : answer ≡ done (engine, rest, key)
    pub sync : Sync c d s' engine
    pub wired : WireOf d wire key

  module _ (odd : b.lsb d ≡ true) (ca cb : ℕ → A) (correlated : (i : ℕ) → WireOf d (ca i) (cb i))
      (workers : 0 < c.threads) where
    drawn-WireOf : (i j : ℕ) → i ≡ j → WireOf d (ca i) (cb j)
    drawn-WireOf i j e = rw e (correlated j)

    pub embedded-WireOf :
        (i j : ℕ) (v : Bool)
        → i ≡ j
        → WireOf d (with_lsb (ca i) v) (correct d (cb j) (xor (get_lsb (ca i)) v))
    unfolding correct
    embedded-WireOf i j v e = masked-WireOf d odd v (drawn-WireOf i j e)

    -- If both sides hold the same triples and every output bit is the product of its inputs, the
    -- verifier accepts the prover's messages.
    pub check_complete :
        {s t : Engine A} (rest : List (Message A))
        → Sync c d s t
        → check_recv d c cb t ((check_send c ca s).1 ++ rest)
          ≡ done (record t { cots = t.cots + 128; checks = t.checks + 1 }, rest)
    check_complete {s} {t} rest y =
        ap (λ m. check_recv d c cb t (m ++ rest)) (sym honest)
        ∙ (and_check_exact c d y.same workers ca cb
              (λ i _. drawn-WireOf (s.cots + i) (t.cots + i) (ap (λ n. n + i) y.cots)) f.zero f.zero
              rest).0.1
            (zero-add _
              ∙ ap (λ q. q ⊗ d ⊗ d)
                  (sum_to_congr _ _ s.check_cnt λ i lt. ap (λ q. q ⊗ c.chi s.checks i) (right i lt))
              ∙ sym (ap (λ q. q ⊕ random_sum c d s (product s) ⊗ d ⊗ d) (zero-mul d) ∙ zero-add _))
      where
        honest : shifted f.zero f.zero (check_send c ca s).1 ≡ (check_send c ca s).1
        honest = unfold check_send aggregate_send in simp (add-zero)

        right : (i : ℕ) → i < s.check_cnt → claimed s i ≡ product s i
        right i lt = ap bit_elem (y.multiplied i lt) ∙ bit_elem-and _ _

    -- A write to slot `cnt` on both sides extends what matches below `cnt` by one.
    pub update-WireOf :
        (g h : ℕ → A) (n m i : ℕ) {a k : A}
        → n ≡ m
        → ((j : ℕ) → j < n → WireOf d (g j) (h j))
        → WireOf d a k
        → i < n + 1
        → WireOf d (update g n a i) (update h m k i)
    update-WireOf g h n m i e below new lt = elim (Bool-cases (i == n)) [
      | inl at ↦ rw (← e, at) new
      | inr other ↦ rw (← e, other) (below i (ground arith))
    ]

    slot_lem :
        {s t : Engine A} {l r kl kr : A} (rest : List (Message A))
        → Sync c d s t
        → s.check_cnt < c.check_sz
        → WireOf d l kl
        → WireOf d r kr
        → let (s', sent, wire) = slot_send c ca s l r in
          Answered s' wire rest (slot_recv d c cb t kl kr (sent ++ rest))
          × (get_lsb wire ≡ (get_lsb l && get_lsb r))
    unfolding slot_send slot_recv embed
    slot_lem {s} {t} {l} {r} {kl} {kr} rest y lt wl wr = (
      record {
        engine = _;
        key = _;
        accepted = refl;
        sync = record {
          same = record {
            cnt = ap (λ n. n + 1) y.same.cnt;
            seed = y.same.seed;
            lefts = λ i. update-WireOf _ _ _ _ i y.same.cnt y.same.lefts wl;
            rights = λ i. update-WireOf _ _ _ _ i y.same.cnt y.same.rights wr;
            outs = λ i. update-WireOf _ _ _ _ i y.same.cnt y.same.outs wire;
          };
          cots = ap (λ n. n + 1) y.cots;
          gates = y.gates;
          multiplied = products;
          room = omega arith;
          stored = y.stored;
        };
        wired = wire;
      },
      lsb-with_lsb (ca s.cots) (get_lsb l && get_lsb r),
    )
      where
        wire :
            WireOf d
              (with_lsb (ca s.cots) (get_lsb l && get_lsb r))
              (correct d (cb t.cots) (xor (get_lsb (ca s.cots)) (get_lsb l && get_lsb r)))
        wire = embedded-WireOf s.cots t.cots (get_lsb l && get_lsb r) y.cots

        products :
            (i : ℕ)
            → i < s.check_cnt + 1
            → get_lsb (update s.out s.check_cnt (with_lsb (ca s.cots) (get_lsb l && get_lsb r)) i)
              ≡ (get_lsb (update s.left s.check_cnt l i)
                  && get_lsb (update s.right s.check_cnt r i))
        products i lt' = elim (Bool-cases (i == s.check_cnt)) [
          | inl at ↦ rw at (lsb-with_lsb (ca s.cots) (get_lsb l && get_lsb r))
          | inr other ↦ rw other (y.multiplied i (ground arith))
        ]

    record Roomy (s' : Engine A) (rest : List (Message A))
        (answer : Result (Engine A × List (Message A))) : Type ℓ where
      engine : Engine A
      accepted : answer ≡ done (engine, rest)
      sync : Sync c d s' engine
      free : s'.check_cnt < c.check_sz

    -- The check leaves everything in step but the counts of correlations and of checks.
    checked-Sync :
        {s t : Engine A}
        → Sync c d s t
        → Sync c d
            (record (check_send c ca s).0 { check_cnt = 0 })
            (record t { cots = t.cots + 128; checks = t.checks + 1; check_cnt = 0 })
    unfolding check_send
    checked-Sync {s} {t} y = record {
      same = record {
        cnt = refl;
        seed = ap (λ n. n + 1) y.same.seed;
        lefts = λ i lt. absurd (omega arith);
        rights = λ i lt. absurd (omega arith);
        outs = λ i lt. absurd (omega arith);
      };
      cots = ap (λ n. n + 128) y.cots;
      gates = y.gates;
      multiplied = λ i lt. absurd (omega arith);
      room = omega arith;
      stored = y.stored;
    }

    room_lem :
        {s t : Engine A} (rest : List (Message A))
        → 0 < c.check_sz
        → Sync c d s t
        → let (s', sent) = room_send c ca s in Roomy s' rest (room_recv d c cb t (sent ++ rest))
    unfolding room_send room_recv
    room_lem {s} {t} rest pos y = elim (Bool-cases (s.check_cnt == c.check_sz)) [
      | inl full ↦
          rw (full, other_side true full)
            (record {
              engine = _;
              accepted = rw (check_complete rest y);
              sync = checked-Sync y;
              free = pos;
            })
      | inr free ↦
          rw (free, other_side false free)
            (record { engine = t; accepted = refl; sync = y; free = ground arith })
    ]
      where
        other_side : (x : Bool) → (s.check_cnt == c.check_sz) ≡ x → (t.check_cnt == c.check_sz) ≡ x
        other_side x e = rw (← y.same.cnt) e

    issued-Sync :
        {s t : Engine A}
        → Sync c d s t
        → Sync c d (record s { gid = s.gid + 1 }) (record t { gid = t.gid + 1 })
    issued-Sync y = record {
      same = record {
        cnt = y.same.cnt;
        seed = y.same.seed;
        lefts = y.same.lefts;
        rights = y.same.rights;
        outs = y.same.outs;
      };
      cots = y.cots;
      gates = ap (λ n. n + 1) y.gates;
      multiplied = y.multiplied;
      room = y.room;
      stored = y.stored;
    }

    -- On engines in step, with correlations and operands that match, a worker or more and buffers
    -- of one slot or more, an AND with the check that it may run first: the verifier takes the
    -- messages, the engines are in step again, and the key matches a wire of the product bit.
    pub and_block_lem :
        {s t : Engine A} {l r kl kr : A} (rest : List (Message A))
        → 0 < c.check_sz
        → Sync c d s t
        → WireOf d l kl
        → WireOf d r kr
        → let (s', sent, wire) = and_block c ca s l r in
          Answered s' wire rest (Ver.and_block d c cb t kl kr (sent ++ rest))
          × (get_lsb wire ≡ (get_lsb l && get_lsb r))
    unfolding and_block auth_compute_and Ver.and_block Ver.auth_compute_and
    and_block_lem {s} {t} {l} {r} rest pos y wl wr =
        let s0 : Engine A = record s { gid = s.gid + 1 } in
        let t0 : Engine A = record t { gid = t.gid + 1 } in
        let s' : Engine A = (room_send c ca s0).0 in
        let sent : List (Message A) = (slot_send c ca s' l r).1 in
        let roomy : Roomy s' (sent ++ rest)
            (room_recv d c cb t0 ((room_send c ca s0).1 ++ (sent ++ rest))) =
          room_lem {s = s0} {t = t0} (sent ++ rest) pos (issued-Sync y) in
        let slot = slot_lem {s = s'} {t = roomy.engine} rest roomy.sync roomy.free wl wr in
        (
          record {
            engine = slot.0.engine;
            key = slot.0.key;
            accepted = rw (append_assoc, roomy.accepted) slot.0.accepted;
            sync = slot.0.sync;
            wired = slot.0.wired;
          },
          slot.1,
        )
