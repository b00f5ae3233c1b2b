-- ===== src/ZkBool/Poly/Push.antt =====
-- The four kinds of statements on bits: true ones go through, and the buffer never overflows.
use vole_zk.Common.{
  ℕ, zero, suc, ◌+◌, ◌≤◌, ◌<◌, Bool, false, ◌&&◌, xor, Bool-cases, leb, ltb, ltb→lt, leb→le,
  same_slot, other_slot, List, ◌++◌, update, ◌≡◌, refl, sym, ap, ◌∙◌, inl, inr, arith,
}
use vole_zk.Field.{Field, ◌⊕◌, ◌⊗◌}
use vole_zk.Field.Laws.{add-zero, zero-mul, mul-zero}
use vole_zk.Field.Sum.{sum_to}
use vole_zk.Arith.Engine.{Result, done}
use vole_zk.Arith.Poly.Check.{nonempty}
use vole_zk.ZkBool.Block.{Blocks, get_lsb, select, WireOf}
use vole_zk.ZkBool.Check.{Message}
use vole_zk.ZkBool.Check.Exact.{shifted}
use vole_zk.ZkBool.Engine.Exact.{bit_elem}
use vole_zk.ZkBool.Poly.{
  PolyProof, PolySetup, zeros, products, accumulate_bob, batch_check_send, batch_check_recv,
  room_send, room_recv, push_send, push_recv, zkp_poly_deg2_send, zkp_poly_deg2_recv,
  zkp_inner_prdt_send, zkp_inner_prdt_recv, zkp_inner_prdt_eq_send, zkp_inner_prdt_eq_recv,
  zkp_inner_prdt_eq_more_send, zkp_inner_prdt_eq_more_recv,
}
use vole_zk.ZkBool.Poly.Row.{
  Row, xor_sum, zeros-Row, accumulate-Row, constant-Row, products-Row, selected-Row,
}
use vole_zk.ZkBool.Poly.Check.{Paired, bool_batch_check_exact, random_sum}

module _ {ℓ} {A : Type ℓ} ⦃f : Field A⦄ ⦃b : Blocks A⦄ (c : PolySetup A) (d : A) where
  -- Both sides hold the same statements, all true, and no more than fit.
  pub record Valid (s t : PolyProof A) : Type ℓ where
    pub value : ℕ → Bool
    pub same : Paired c d value s t
    pub holds : (i : ℕ) → i < s.num → value i ≡ false
    pub fits : s.num ≤ c.buffer_sz

  -- The verifier takes what was sent, and both sides are valid again.
  abbrev pub Taken :
      PolyProof A × List (Message A)
      → (List (Message A) → Result (PolyProof A × List (Message A)))
      → Type ℓ
  Taken (s, sent) receive =
      (t : PolyProof A) × ((rest : List (Message A)) → receive (sent ++ rest) ≡ done (t, rest))
      × Valid s t

  sum_zero :
      (r : ℕ → A) (v : ℕ → Bool) (n : ℕ)
      → ((i : ℕ) → i < n → v i ≡ false)
      → sum_to (λ k. r k ⊗ bit_elem (v k)) n ≡ f.zero
  unfolding sum_to
  sum_zero r v zero h = refl
  sum_zero r v (suc n) h =
      rw (sum_zero r v n (λ i lt. h i (omega arith)), h n (omega arith))
        (ap (λ q. f.zero ⊕ r n ⊗ q) {x = bit_elem false} {y = f.zero}
            (unfold bit_elem select in refl)
          ∙ rw (mul-zero (r n)) (add-zero f.zero))

  honest :
      (ca : ℕ → A) (s : PolyProof A)
      → 0 < s.num
      → shifted f.zero f.zero (batch_check_send c ca s).1 ≡ (batch_check_send c ca s).1
  unfolding batch_check_send
  honest ca s some = rw (nonempty s.num some) (simp (add-zero))

  true_sum :
      (v : ℕ → Bool) (s : PolyProof A)
      → ((i : ℕ) → i < s.num → v i ≡ false)
      → f.zero ≡ f.zero ⊗ d ⊕ random_sum c d v s ⊗ (d ⊗ d)
  true_sum v s h =
      rw (sum_zero (c.chi s.checks) v s.num h, zero-mul d, zero-mul (d ⊗ d)) (sym (add-zero f.zero))

  module _ (ca cb : ℕ → A) (streams : (k : ℕ) → WireOf d (ca k) (cb k)) (pos : 0 < c.threads) where
    checked :
        {s t : PolyProof A}
        → Valid s t
        → 0 < s.num
        → Taken (batch_check_send c ca s) (batch_check_recv c d cb t)
    unfolding batch_check_send
    checked {s} {t} v some = (
      record t { num = 0; cots = t.cots + 128; checks = t.checks + 1 },
      λ rest. rw (honest ca s some) at (
          (bool_batch_check_exact c d v.value v.same pos ca cb
              (λ i _. rw (v.same.cots) (streams (t.cots + i))) some f.zero f.zero rest).0.1
            (true_sum v.value s v.holds)),
      rw (nonempty s.num some) (record {
        value = v.value;
        same = record {
          num = refl;
          seed = ap (λ k. k + 1) v.same.seed;
          cots = ap (λ k. k + 128) v.same.cots;
          row = λ i lt. absurd (omega arith);
        };
        holds = λ i lt. absurd (omega arith);
        fits = omega arith;
      }),
    )

    emptied : (s : PolyProof A) → 0 < s.num → (batch_check_send c ca s).0.num ≡ 0
    unfolding batch_check_send
    emptied s some = rw (nonempty s.num some)

    room_made :
        {s t : PolyProof A}
        → Valid s t
        → 0 < c.buffer_sz
        → Taken (room_send c ca s) (room_recv c d cb t) × ((room_send c ca s).0.num < c.buffer_sz)
    unfolding room_send room_recv
    room_made {s} {t} v some = elim (Bool-cases (leb c.buffer_sz s.num)) [
      | inl full ↦
          (let used : 0 < s.num = omega (arith, leb→le c.buffer_sz s.num full) in
            rw (full, rw (v.same.num) at full) (checked v used, rw (emptied s used) some))
      | inr room ↦ rw (room, rw (v.same.num) at room) ((t, λ rest. refl, v), ground arith)
    ]

  pushed :
      {s t : PolyProof A} (acc : A × A) (sum : A) (value : Bool)
      → Valid s t
      → s.num < c.buffer_sz
      → Row d acc sum value
      → value ≡ false
      → Valid (push_send c acc s) (push_recv c sum t)
  pushed {s} {t} acc sum value v room row true_one = record {
    value = update v.value s.num value;
    same = record {
      num = ap (λ k. k + 1) v.same.num;
      seed = v.same.seed;
      cots = v.same.cots;
      row = λ i lt. elim (Bool-cases (ltb i s.num)) [
        | inl h ↦ rw (← v.same.num, other_slot i s.num h) (v.same.row i (ltb→lt i s.num h))
        | inr h ↦ rw (← v.same.num, same_slot i s.num lt h) row
      ];
    };
    holds = λ i lt. elim (Bool-cases (ltb i s.num)) [
      | inl h ↦ rw (other_slot i s.num h) (v.holds i (ltb→lt i s.num h))
      | inr h ↦ rw (same_slot i s.num lt h) true_one
    ];
    fits = omega arith;
  }

  -- The XOR of the products of `len` pairs of authenticated bits.
  abbrev pub inner : (x y : ℕ → A) → ℕ → Bool
  inner x y len = xor_sum (λ i. get_lsb (x i) && get_lsb (y i)) len

  module _ (ca cb : ℕ → A) (streams : (k : ℕ) → WireOf d (ca k) (cb k)) (pos : 0 < c.threads)
      (some : 0 < c.buffer_sz) {s t : PolyProof A} (v : Valid s t) where
    module _ (x y kx ky : ℕ → A) (len : ℕ) (wx : (i : ℕ) → i < len → WireOf d (x i) (kx i))
        (wy : (i : ℕ) → i < len → WireOf d (y i) (ky i)) where
      -- On matching wires, with matching correlations, a worker or more and a buffer of a slot or
      -- more: if the XOR of the products of bits whose coefficient is set, and of the constant, is 0,
      -- the call goes through, after the check of a full buffer. The verifier takes the messages
      -- without an abort, and both sides hold true statements again, no more than the buffer has
      -- slots.
      pub bool_poly_deg2_lem :
          (coeff : ℕ → Bool)
          → xor (xor_sum (λ i. coeff (i + 1) && (get_lsb (x i) && get_lsb (y i))) len) (coeff 0)
            ≡ false
          → Taken
              (zkp_poly_deg2_send c ca x y coeff len s)
              (zkp_poly_deg2_recv c d cb kx ky coeff len t)
      unfolding zkp_poly_deg2_send zkp_poly_deg2_recv
      bool_poly_deg2_lem coeff holds =
          let ((t', receive, v'), room) = room_made ca cb streams pos v some in
          (
            _,
            λ rest. rw (receive rest) refl,
            pushed _ _ _ v' room
                (constant-Row d (coeff 0)
                  (selected-Row d c pos x y kx ky len wx wy coeff zeros zeros false (zeros-Row d)))
                holds,
          )

      -- The same of a statement that an inner product of bits, and a constant, add up to 0.
      pub bool_inner_prdt_lem :
          (constant : Bool)
          → xor (inner x y len) constant ≡ false
          → Taken
              (zkp_inner_prdt_send c ca x y len s)
              (zkp_inner_prdt_recv c d cb kx ky constant len t)
      unfolding zkp_inner_prdt_send zkp_inner_prdt_recv
      bool_inner_prdt_lem constant holds =
          let ((t', receive, v'), room) = room_made ca cb streams pos v some in
          (
            _,
            λ rest. rw (receive rest) refl,
            pushed _ _ _ v' room
                (constant-Row d constant
                  (products-Row d c pos x y kx ky len wx wy zeros zeros false (zeros-Row d)))
                holds,
          )

      module _ (p q kp kq : ℕ → A) (len2 : ℕ) (wp : (i : ℕ) → i < len2 → WireOf d (p i) (kp i))
          (wq : (i : ℕ) → i < len2 → WireOf d (q i) (kq i)) where
        -- The same of a statement that two inner products of bits are equal.
        pub bool_inner_prdt_eq_lem :
            xor (inner x y len) (inner p q len2) ≡ false
            → Taken
                (zkp_inner_prdt_eq_send c ca x y p q len len2 s)
                (zkp_inner_prdt_eq_recv c d cb kx ky kp kq len len2 t)
        unfolding zkp_inner_prdt_eq_send zkp_inner_prdt_eq_recv
        bool_inner_prdt_eq_lem holds =
            let ((t', receive, v'), room) = room_made ca cb streams pos v some in
            (
              _,
              λ rest. rw (receive rest) refl,
              pushed _ _ _ v' room
                  (products-Row d c pos p q kp kq len2 wp wq _
                    (products c accumulate_bob kx ky len zeros) _
                    (products-Row d c pos x y kx ky len wx wy zeros zeros false (zeros-Row d)))
                  holds,
            )

        -- On matching wires, with matching correlations, a worker or more and a buffer of a slot or
        -- more: if the inner product of the bits of the first two vectors is that of the other two
        -- and one product more, the call goes through, after the check of a full buffer. The
        -- verifier takes the messages without an abort, and both sides hold true statements again,
        -- no more than the buffer has slots.
        pub bool_inner_prdt_eq_more_lem :
            (rr ss kr ks : A)
            → WireOf d rr kr
            → WireOf d ss ks
            → xor (xor (inner x y len) (inner p q len2)) (get_lsb rr && get_lsb ss) ≡ false
            → Taken
                (zkp_inner_prdt_eq_more_send c ca x y p q rr ss len len2 s)
                (zkp_inner_prdt_eq_more_recv c d cb kx ky kp kq kr ks len len2 t)
        unfolding zkp_inner_prdt_eq_more_send zkp_inner_prdt_eq_more_recv
        bool_inner_prdt_eq_more_lem rr ss kr ks wr ws holds =
            let ((t', receive, v'), room) = room_made ca cb streams pos v some in
            (
              _,
              λ rest. rw (receive rest) refl,
              pushed _ _ _ v' room
                  (accumulate-Row d
                    (products c accumulate_bob kp kq len2
                      (products c accumulate_bob kx ky len zeros))
                    wr ws
                    (products-Row d c pos p q kp kq len2 wp wq _
                      (products c accumulate_bob kx ky len zeros) _
                      (products-Row d c pos x y kx ky len wx wy zeros zeros false (zeros-Row d))))
                  holds,
            )
