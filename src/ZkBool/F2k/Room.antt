-- ===== src/ZkBool/F2k/Room.antt =====
-- The room that a product of elements of GF(2^128) finds: the check of full buffers passes, and used
-- up values are drawn again.
use vole_zk.Common.{
  ℕ, ◌+◌, ◌≤◌, ◌<◌, ◌==◌, Bool, Bool-cases, true, false, List, ◌++◌, ◌≡◌, inl, inr, refl, sym, ap,
  ◌∙◌, arith,
}
use vole_zk.Field.{Field, ◌⊕◌, ◌⊗◌}
use vole_zk.Field.Laws.{add-zero, zero-add, zero-mul}
use vole_zk.Field.Sum.{sum_to_congr}
use vole_zk.Arith.Wire.{Auth}
use vole_zk.Arith.Engine.{Result, done}
use vole_zk.ZkBool.Block.{Blocks, WireOf}
use vole_zk.ZkBool.Check.{Message, aggregate_send}
use vole_zk.ZkBool.Check.Exact.{shifted}
use vole_zk.ZkBool.F2k.{
  F2k, F2kSetup, f2k_pre_buffer_refill, f2k_check_send, f2k_check_recv, f2k_room_send,
  f2k_room_recv,
}
use vole_zk.ZkBool.F2k.Exact.{Linked, output, weighted, checked, f2k_check_exact}
use vole_zk.ZkBool.F2k.Sync.{Running, refill_lem, at_slot, Running-SameProducts}

module _ {ℓ} {A : Type ℓ} ⦃f : Field A⦄ ⦃b : Blocks A⦄ (c : F2kSetup A) (d : A) (va vb : ℕ → Auth A)
    (correlated : (i : ℕ) → Linked d (va i) (vb i)) (ca cb : ℕ → A)
    (bits : (i : ℕ) → WireOf d (ca i) (cb i)) where
  -- The check of products that both sides hold passes.
  pub f2k_check_complete :
      {s t : F2k A} (rest : List (Message A)) (y : Running c d s t)
      → f2k_check_recv c vb d cb t ((f2k_check_send c va ca s).1 ++ rest)
        ≡ done (checked c d va vb (Running-SameProducts c d va vb correlated y), rest)
  f2k_check_complete {s} {t} rest y =
      ap (λ m. f2k_check_recv c vb d cb t (m ++ rest)) (sym honest)
      ∙ (f2k_check_exact c d va vb (Running-SameProducts c d va vb correlated y) ca cb
            (λ i _. matching (s.cots + i) (t.cots + i) (ap (λ n. n + i) y.cots)) f.zero f.zero
            rest).0.1
          (zero-add _
            ∙ ap (λ q. q ⊗ d ⊗ d)
                (sum_to_congr _ _ s.check_cnt λ i lt. ap (λ q. q ⊗ c.chi s.checks i) (right i lt))
            ∙ sym (ap (λ q. q ⊕ weighted c s products ⊗ d ⊗ d) (zero-mul d) ∙ zero-add _))
    where
      matching : (i j : ℕ) → i ≡ j → WireOf d (ca i) (cb j)
      matching i j e = rw e (bits j)

      honest : shifted f.zero f.zero (f2k_check_send c va ca s).1 ≡ (f2k_check_send c va ca s).1
      honest = unfold f2k_check_send aggregate_send in simp (add-zero)

      products : ℕ → A
      products i = (s.left i).val ⊗ (s.right i).val

      right : (i : ℕ) → i < s.check_cnt → (output s i).val ≡ products i
      right i lt =
          ap (λ j. (s.auth_buffer j).val)
            (at_slot c d va vb correlated s.authval_cnt s.check_cnt i y.prover_aligned)
          ∙ y.multiplied i lt

  checked-Running :
      {s t : F2k A} (y : Running c d s t)
      → Running c d
          (record (f2k_check_send c va ca s).0 { check_cnt = 0; authval_cnt = 0 })
          (record (checked c d va vb (Running-SameProducts c d va vb correlated y)) {
            check_cnt = 0;
            authval_cnt = 0;
          })
  unfolding f2k_check_send
  checked-Running {s} {t} y = record {
    prover_on = y.prover_on;
    verifier_on = y.verifier_on;
    drawn = y.drawn;
    cots = ap (λ n. n + 128) y.cots;
    seed = ap (λ n. n + 1) y.seed;
    cnt = refl;
    prover_aligned = refl;
    verifier_aligned = refl;
    fits = omega arith;
    in_cnt = y.in_cnt;
    in_fits = y.in_fits;
    lefts = λ i lt. absurd (omega arith);
    rights = λ i lt. absurd (omega arith);
    auths = y.auths;
    inputs = y.inputs;
    multiplied = λ i lt. absurd (omega arith);
  }

  pub record Roomy (s' : F2k A) (rest : List (Message A))
      (answer : Result (F2k A × List (Message A))) : Type ℓ where
    pub engine : F2k A
    pub accepted : answer ≡ done (engine, rest)
    pub running : Running c d s' engine
    pub free : s'.check_cnt < c.buffer_sz

  full_lem : (n m size : ℕ) (x : Bool) → n ≡ m → (n == size) ≡ x → (m == size) ≡ x
  full_lem n m size x e h = rw (← e) h

  kept : (s : F2k A) → (f2k_check_send c va ca s).0.authval_cnt ≡ s.authval_cnt
  unfolding f2k_check_send
  kept s = refl

  refilled_lem :
      {s t : F2k A} (y : Running c d s t)
      → Running c d
          (f2k_pre_buffer_refill c va (record (f2k_check_send c va ca s).0 { check_cnt = 0 }))
          (f2k_pre_buffer_refill c vb
            (record (checked c d va vb (Running-SameProducts c d va vb correlated y)) {
              check_cnt = 0;
            }))
  unfolding f2k_pre_buffer_refill
  refilled_lem y = refill_lem c d va vb correlated (checked-Running y) refl

  pub room_lem :
      {s t : F2k A} (rest : List (Message A))
      → 0 < c.buffer_sz
      → Running c d s t
      → let (s', sent) = f2k_room_send c va ca s in
        Roomy s' rest (f2k_room_recv c vb d cb t (sent ++ rest))
  unfolding f2k_room_send f2k_room_recv
  room_lem {s} {t} rest pos y = elim (Bool-cases (s.check_cnt == c.buffer_sz)) [
    | inl full ↦
        rw
          (
            full,
            full_lem s.check_cnt t.check_cnt c.buffer_sz true y.cnt full,
            full_lem s.check_cnt (f2k_check_send c va ca s).0.authval_cnt c.buffer_sz true
                (sym y.prover_aligned ∙ sym (kept s)) full,
          )
          (record {
            engine =
                f2k_pre_buffer_refill c vb
                  (record (checked c d va vb (Running-SameProducts c d va vb correlated y)) {
                    check_cnt = 0;
                  });
            accepted =
                rw
                  (
                    f2k_check_complete rest y,
                    full_lem t.check_cnt t.authval_cnt c.buffer_sz true (sym y.verifier_aligned)
                        (full_lem s.check_cnt t.check_cnt c.buffer_sz true y.cnt full),
                  )
                  refl;
            running = refilled_lem y;
            free = unfold f2k_pre_buffer_refill in pos;
          })
    | inr free ↦
        rw
          (
            free,
            full_lem s.check_cnt t.check_cnt c.buffer_sz false y.cnt free,
            full_lem s.check_cnt s.authval_cnt c.buffer_sz false (sym y.prover_aligned) free,
            full_lem t.check_cnt t.authval_cnt c.buffer_sz false (sym y.verifier_aligned)
                (full_lem s.check_cnt t.check_cnt c.buffer_sz false y.cnt free),
          )
          (record {
            engine = t;
            accepted = refl;
            running = y;
            free = not_full s.check_cnt c.buffer_sz y.fits free;
          })
  ]
    where
      not_full : (n size : ℕ) → n ≤ size → (n == size) ≡ false → n < size
      not_full n size le h = ground arith
