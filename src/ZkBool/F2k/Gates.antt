-- ===== src/ZkBool/F2k/Gates.antt =====
-- Products and inputs over GF(2^128) of the two engines in lockstep.
use mathlib.Core.List.{append_assoc}
use vole_zk.Common.{
  ℕ, ◌+◌, ◌≤◌, ◌<◌, ◌==◌, Bool, Bool-cases, true, false, List, ◌++◌, ◌≡◌, inl, inr, refl, sym, ap,
  ◌∙◌, arith, update,
}
use vole_zk.Field.{Field, ◌⊕◌, ◌⊗◌}
use vole_zk.Field.Laws.{zero-add, mul_comm, ring_laws}
use vole_zk.Arith.Wire.{Auth, Matches}
use vole_zk.ZkBool.Block.{Blocks, WireOf}
use vole_zk.ZkBool.Check.{Message}
use vole_zk.ZkBool.F2k.{
  F2k, F2kSetup, f2k_init, input_ready, f2k_input_send, f2k_input_recv, f2k_room_send,
  f2k_slot_send, f2k_slot_recv, f2k_mul_send, f2k_mul_recv,
}
use vole_zk.ZkBool.F2k.Exact.{Linked}
use vole_zk.ZkBool.F2k.Sync.{Running, Answered, drawn-Linked, moved}
use vole_zk.ZkBool.F2k.Room.{room_lem}

module _ {ℓ} {A : Type ℓ} ⦃f : Field A⦄ ⦃b : Blocks A⦄ (c : F2kSetup A) (d : A) (va vb : ℕ → Auth A)
    (correlated : (i : ℕ) → Linked d (va i) (vb i)) (ca cb : ℕ → A)
    (bits : (i : ℕ) → WireOf d (ca i) (cb i)) where
  -- A write to slot `n` on both sides extends what matches below `n` by one.
  updated_below :
      (g h : ℕ → Auth A) (n m i : ℕ) {x k : Auth A}
      → n ≡ m
      → ((j : ℕ) → j < n → Linked d (g j) (h j))
      → Linked d x k
      → i < n + 1
      → Linked d (update g n x i) (update h m k i)
  updated_below g h n m i e below new lt = elim (Bool-cases (i == n)) [
    | inl at ↦ rw (← e, at) new
    | inr other ↦ rw (← e, other) (below i (ground arith))
  ]

  -- A write to the same slot of two buffers that match keeps them so.
  updated_same :
      (g h : ℕ → Auth A) (n m i : ℕ) {x k : Auth A}
      → n ≡ m
      → Linked d (g i) (h i)
      → Linked d x k
      → Linked d (update g n x i) (update h m k i)
  updated_same g h n m i e old new = elim (Bool-cases (i == n)) [
    | inl at ↦ rw (← e, at) new
    | inr other ↦ rw (← e, other) old
  ]

  masked : (v r m k : A) → m ≡ r ⊗ d ⊕ k → m ≡ v ⊗ d ⊕ (k ⊕ (v ⊕ r) ⊗ d)
  masked v r m k e = e ∙ sym (regroup ∙ ap (λ t. t ⊕ (r ⊗ d ⊕ k)) (b.add_self (v ⊗ d)) ∙ zero-add _)
    where
      regroup : v ⊗ d ⊕ (k ⊕ (v ⊕ r) ⊗ d) ≡ (v ⊗ d ⊕ v ⊗ d) ⊕ (r ⊗ d ⊕ k)
      regroup = simp ring_laws

  slot_lem :
      {s t : F2k A} {x y kx ky : Auth A} (rest : List (Message A))
      → Running c d s t
      → s.check_cnt < c.buffer_sz
      → Matches d x kx
      → Matches d y ky
      → let (s', sent, wire) = f2k_slot_send s x y in
        Answered c d s' wire rest (f2k_slot_recv d t kx ky (sent ++ rest))
        × (wire.val ≡ x.val ⊗ y.val)
  unfolding f2k_slot_send f2k_slot_recv
  slot_lem {s} {t} {x} {y} {kx} {ky} rest z lt wx wy = (
    record {
      engine = _;
      key = _;
      accepted = refl;
      running = record {
        prover_on = z.prover_on;
        verifier_on = z.verifier_on;
        drawn = z.drawn;
        cots = z.cots;
        seed = z.seed;
        cnt = ap (λ n. n + 1) z.cnt;
        prover_aligned = ap (λ n. n + 1) z.prover_aligned;
        verifier_aligned = ap (λ n. n + 1) z.verifier_aligned;
        fits = omega arith;
        in_cnt = z.in_cnt;
        in_fits = z.in_fits;
        lefts =
            λ i. updated_below s.left t.left _ _ i z.cnt z.lefts (record { linked = wx.linked });
        rights =
            λ i. updated_below s.right t.right _ _ i z.cnt z.rights (record { linked = wy.linked });
        auths = λ i lt'.
            updated_same s.auth_buffer t.auth_buffer _ _ i counts (z.auths i lt')
              (record { linked = output_linked });
        inputs = z.inputs;
        multiplied = products;
      };
      matched = record { linked = output_linked; keyed = refl };
    },
    refl,
  )
    where
      counts : s.authval_cnt ≡ t.authval_cnt
      counts = z.prover_aligned ∙ z.cnt ∙ sym z.verifier_aligned

      output_linked :
          (s.auth_buffer s.authval_cnt).mac
          ≡ (x.val ⊗ y.val) ⊗ d
            ⊕ ((t.auth_buffer t.authval_cnt).mac
                ⊕ ((x.val ⊗ y.val) ⊕ (s.auth_buffer s.authval_cnt).val) ⊗ d)
      output_linked =
          masked (x.val ⊗ y.val) _ _ _
            (moved c d va vb correlated s.auth_buffer t.auth_buffer s.check_cnt s.authval_cnt
              t.authval_cnt z.prover_aligned (z.verifier_aligned ∙ sym z.cnt)
              (z.auths s.check_cnt lt)).linked

      products :
          (i : ℕ)
          → i < s.check_cnt + 1
          → (update s.auth_buffer s.authval_cnt
              (record { val = x.val ⊗ y.val; mac = (s.auth_buffer s.authval_cnt).mac })
              i).val
            ≡ (update s.left s.check_cnt x i).val ⊗ (update s.right s.check_cnt y i).val
      products i lt' = elim (Bool-cases (i == s.check_cnt)) [
        | inl at ↦ rw (z.prover_aligned, at) refl
        | inr other ↦ rw (z.prover_aligned, other) (z.multiplied i (ground arith))
      ]

  -- The engines, once initialised, are in step, with VOLE values, correlations and operands that
  -- match and buffers of a slot or more. A product of two elements, with the check and the refill
  -- that it may run first: the verifier takes the messages, the engines are in step again, and the
  -- key matches a wire whose value is the product.
  pub f2k_mul_lem :
      (s t : F2k A) {x y kx ky : Auth A} (rest : List (Message A))
      → 0 < c.buffer_sz
      → Running c d (f2k_init c va s) (f2k_init c vb t)
      → Matches d x kx
      → Matches d y ky
      → let (s', sent, wire) = f2k_mul_send c va ca s x y in
        Answered c d s' wire rest (f2k_mul_recv c vb cb d t kx ky (sent ++ rest))
        × (wire.val ≡ x.val ⊗ y.val)
  unfolding f2k_mul_send f2k_mul_recv
  f2k_mul_lem s t {x} {y} rest pos z wx wy =
      let s0 : F2k A = f2k_init c va s in
      let s' : F2k A = (f2k_room_send c va ca s0).0 in
      let sent : List (Message A) = (f2k_slot_send s' x y).1 in
      let roomy =
        room_lem c d va vb correlated ca cb bits {s = s0} {t = f2k_init c vb t} (sent ++ rest) pos
          z in
      let slot = slot_lem {s = s'} {t = roomy.engine} rest roomy.running roomy.free wx wy in
      (
        record {
          engine = slot.0.engine;
          key = slot.0.key;
          accepted = rw (append_assoc, roomy.accepted) slot.0.accepted;
          running = slot.0.running;
          matched = slot.0.matched;
        },
        slot.1,
      )

  record InputReady (s t : F2k A) : Type ℓ where
    running : Running c d s t
    free : s.in_cnt < c.buffer_sz

  ready_lem :
      (s t : F2k A)
      → 0 < c.buffer_sz
      → Running c d (f2k_init c va s) (f2k_init c vb t)
      → InputReady (input_ready c va s) (input_ready c vb t)
  unfolding input_ready
  ready_lem s t pos z = elim (Bool-cases ((f2k_init c va s).in_cnt == c.buffer_sz)) [
    | inl used ↦
        rw (used, other_side true used)
          (record {
            running = record {
              prover_on = z.prover_on;
              verifier_on = z.verifier_on;
              drawn = ap (λ n. n + c.buffer_sz) z.drawn;
              cots = z.cots;
              seed = z.seed;
              cnt = z.cnt;
              prover_aligned = z.prover_aligned;
              verifier_aligned = z.verifier_aligned;
              fits = z.fits;
              in_cnt = refl;
              in_fits = omega arith;
              lefts = z.lefts;
              rights = z.rights;
              auths = z.auths;
              inputs = λ i le lt. drawn-Linked c d va vb correlated _ _ (ap (λ n. n + i) z.drawn);
              multiplied = z.multiplied;
            };
            free = pos;
          })
    | inr left ↦
        rw (left, other_side false left)
          (record { running = z; free = not_full _ c.buffer_sz z.in_fits left })
  ]
    where
      other_side :
          (x : Bool)
          → ((f2k_init c va s).in_cnt == c.buffer_sz) ≡ x
          → ((f2k_init c vb t).in_cnt == c.buffer_sz) ≡ x
      other_side x e = rw (← z.in_cnt) e

      not_full : (n size : ℕ) → n ≤ size → (n == size) ≡ false → n < size
      not_full n size le h = ground arith

  -- Under the same conditions an element `v` that the prover commits to: the verifier takes the
  -- message, the engines are in step again, and the key matches a wire of value `v`.
  pub f2k_input_lem :
      (s t : F2k A) (v : A) (rest : List (Message A))
      → 0 < c.buffer_sz
      → Running c d (f2k_init c va s) (f2k_init c vb t)
      → let (s', sent, wire) = f2k_input_send c va v s in
        Answered c d s' wire rest (f2k_input_recv c vb d t (sent ++ rest)) × (wire.val ≡ v)
  unfolding f2k_input_send f2k_input_recv
  f2k_input_lem s t v rest pos z =
      let r = ready_lem s t pos z in
      let y = r.running in
      let linked =
        masked v _ _ _
          (moved c d va vb correlated (input_ready c va s).in_buffer (input_ready c vb t).in_buffer
            (input_ready c va s).in_cnt _ _ refl (sym y.in_cnt)
            (y.inputs _ (omega arith) r.free)).linked
        ∙ ap (λ q. v ⊗ d ⊕ (((input_ready c vb t).in_buffer (input_ready c vb t).in_cnt).mac ⊕ q))
            (mul_comm _ d) in
      (
        record {
          engine = _;
          key = _;
          accepted = refl;
          running = record {
            prover_on = y.prover_on;
            verifier_on = y.verifier_on;
            drawn = y.drawn;
            cots = y.cots;
            seed = y.seed;
            cnt = y.cnt;
            prover_aligned = y.prover_aligned;
            verifier_aligned = y.verifier_aligned;
            fits = y.fits;
            in_cnt = ap (λ n. n + 1) y.in_cnt;
            in_fits = omega (arith, r.free);
            lefts = y.lefts;
            rights = y.rights;
            auths = y.auths;
            inputs = λ i le lt. y.inputs i (omega (arith, le)) lt;
            multiplied = y.multiplied;
          };
          matched = record { linked = linked; keyed = refl };
        },
        refl,
      )
