-- ===== src/ZkBool/Vector/Waves.antt =====
-- A wave of gates is the gates one by one, on any messages, at the verifier.
use vole_zk.Common.{
  ℕ, zero, suc, ◌+◌, ◌-◌, ◌≤◌, ◌<◌, min, false, ◌==◌, Bool, Bool-cases, List, [], ◌∷◌, ◌++◌, length,
  update, ◌≡◌, refl, sym, ap, ap₂, ◌∙◌, inl, inr, arith,
}
use mathlib.Core.List.{append_assoc}
use vole_zk.Field.{Field}
use vole_zk.Arith.Batch.{take, drop}
use vole_zk.Arith.Batch.Laws.{take-drop, length-take, length-drop}
use vole_zk.Arith.Engine.{Result, done, abort, waiting, ◌>>=◌}
use vole_zk.ZkBool.Block.{Blocks}
use vole_zk.ZkBool.Check.{Message, bit, block, recv_bit}
use vole_zk.ZkBool.Engine.{Engine, Setup}
use vole_zk.ZkBool.Engine.Ver.{
  recv_bits, correct, check_recv, room_recv, slot_recv, auth_compute_and,
}
use vole_zk.ZkBool.Vector.{Outcome, before, wave_recv, vector_recv, each_recv}

pub >>=_assoc {κ μ ν} :
    {B : Type κ} {C : Type μ} {D : Type ν} (m : Result B) (g : B → Result C) (h : C → Result D)
    → ((m >>= g) >>= h) ≡ (m >>= λ x. g x >>= h)
>>=_assoc (done x) g h = refl
>>=_assoc abort g h = refl
>>=_assoc waiting g h = refl

pub >>=_congr {κ μ} :
    {B : Type κ} {C : Type μ} (m : Result B) {g h : B → Result C}
    → ((x : B) → m ≡ done x → g x ≡ h x)
    → (m >>= g) ≡ (m >>= h)
>>=_congr (done x) e = e x refl
>>=_congr abort e = refl
>>=_congr waiting e = refl

module _ {ℓ} {A W : Type ℓ} ⦃f : Field A⦄ ⦃b : Blocks A⦄ (c : Setup A W) (cot : ℕ → A)
    (delta : A) where
  room : (base n : ℕ) → base + suc n ≤ c.check_sz → (base == c.check_sz) ≡ false
  room base n h = ground arith

  abbrev written : Engine A → ℕ → A → A → A → Engine A
  written s base l r auth = record s {
    left = update s.left base l;
    right = update s.right base r;
    out = update s.out base auth;
  }

  -- The wave on its masking bits, with the counters as they are after it.
  abbrev wave :
      Engine A → ℕ → ℕ → List (A × A) → ℕ → List Bool × List (Message A) → Result (Outcome A)
  wave s base k gates n (ds, rest) =
      let (s', wires) = wave_recv delta cot s base k gates ds in
      done (record s' { check_cnt = base + n; cots = k + n }, rest, wires)

  wave_lem :
      (gates : List (A × A)) (s : Engine A) (base k : ℕ) (inbox : List (Message A))
      → base + length gates ≤ c.check_sz
      → each_recv c cot delta (record s { check_cnt = base; cots = k }) gates inbox
        ≡ (recv_bits (length gates) inbox >>= wave s base k gates (length gates))
  unfolding each_recv auth_compute_and room_recv slot_recv recv_bits recv_bit wave_recv
  wave_lem [] s base k inbox h =
      ap₂ (λ i j. done (record s { check_cnt = i; cots = j }, inbox, [])) (omega arith)
        (omega arith)
  wave_lem ((l, r) ∷ gates) s base k [] h = rw (room base (length gates) h)
  wave_lem ((l, r) ∷ gates) s base k (block x ∷ inbox) h = rw (room base (length gates) h)
  wave_lem ((l, r) ∷ gates) s base k (bit d ∷ inbox) h =
      rw
        (
          room base (length gates) h,
          wave_lem gates (written s base l r (correct delta (cot k) d)) (base + 1) (k + 1) inbox
              (omega arith),
        )
        (>>=_assoc (recv_bits (length gates) inbox) _ _
          ∙ >>=_congr (recv_bits (length gates) inbox) (λ x _.
            ap₂
              (λ i j.
                let o =
                  wave_recv delta cot (written s base l r (correct delta (cot k) d)) (base + 1)
                    (k + 1) gates x.0 in
                done (record o.0 { check_cnt = i; cots = j }, x.1, correct delta (cot k) d ∷ o.1))
              (omega arith) (omega arith))
          ∙ sym (>>=_assoc (recv_bits (length gates) inbox) _ _))

  -- The outcome of what follows, with the wires that were made before.
  abbrev pub after : List A → Result (Outcome A) → Result (Outcome A)
  after wires r = r >>= λ o. done (before [] wires o)

  after-nil : (r : Result (Outcome A)) → r ≡ after [] r
  after-nil (done o) = refl
  after-nil abort = refl
  after-nil waiting = refl

  after-after :
      (ws vs : List A) (r : Result (Outcome A)) → after (ws ++ vs) r ≡ after ws (after vs r)
  after-after ws vs (done o) = ap (λ t. done (o.0, o.1, t)) (append_assoc ws vs o.2)
  after-after ws vs abort = refl
  after-after ws vs waiting = refl

  each_recv-append :
      (xs ys : List (A × A)) (s : Engine A) (inbox : List (Message A))
      → each_recv c cot delta s (xs ++ ys) inbox
        ≡ (each_recv c cot delta s xs inbox >>= λ o. after o.2 (each_recv c cot delta o.0 ys o.1))
  unfolding each_recv
  each_recv-append [] ys s inbox = after-nil _
  each_recv-append ((l, r) ∷ xs) ys s inbox =
      >>=_congr (auth_compute_and delta c cot s l r inbox) (λ x _.
        ap (after (x.2 ∷ [])) (each_recv-append xs ys x.0 x.1)
        ∙ >>=_assoc (each_recv c cot delta x.0 xs x.1) _ _
        ∙ >>=_congr (each_recv c cot delta x.0 xs x.1)
            (λ o _. sym (after-after (x.2 ∷ []) o.2 (each_recv c cot delta o.0 ys o.1)))
        ∙ sym (>>=_assoc (each_recv c cot delta x.0 xs x.1) _ _))
      ∙ sym (>>=_assoc (auth_compute_and delta c cot s l r inbox) _ _)

  -- The first `n` gates as one wave, and the others after it.
  chunk :
      (gates : List (A × A)) (s : Engine A) (n : ℕ) (inbox : List (Message A))
      → n ≤ length gates
      → s.check_cnt + n ≤ c.check_sz
      → each_recv c cot delta s gates inbox ≡ (
          recv_bits n inbox >>= λ (ds, rest).
          let (s', wires) = wave_recv delta cot s s.check_cnt s.cots (take n gates) ds in
          after wires (
            each_recv c cot delta
              (record s' { check_cnt = s.check_cnt + n; cots = s.cots + n })
              (drop n gates)
              rest))
  chunk gates s n inbox small fits =
      ap (λ g. each_recv c cot delta s g inbox) (sym (take-drop n gates))
      ∙ each_recv-append (take n gates) (drop n gates) s inbox
      ∙ ap (λ m. m >>= λ o. after o.2 (each_recv c cot delta o.0 (drop n gates) o.1))
          (wave_lem (take n gates) s s.check_cnt s.cots inbox (rw (length-take n gates small) fits)
            ∙ ap (λ k. recv_bits k inbox >>= wave s s.check_cnt s.cots (take n gates) k)
                (length-take n gates small))
      ∙ >>=_assoc (recv_bits n inbox) _ _

  emptied :
      (m : Result (Engine A × List (Message A))) (x : Engine A × List (Message A))
      → (m >>= λ (s', rest). done (record s' { check_cnt = 0 }, rest)) ≡ done x
      → x.0.check_cnt ≡ 0
  emptied (done y) x e =
      let q : (record y.0 { check_cnt = 0 }, y.1) ≡ x = cc e in
      sym (ap (λ (t : Engine A × List (Message A)). t.0.check_cnt) q)
  emptied abort x e = cc e
  emptied waiting x e = cc e

  has_room :
      (s : Engine A) (inbox : List (Message A)) (x : Engine A × List (Message A))
      → 0 < c.check_sz
      → s.check_cnt ≤ c.check_sz
      → room_recv delta c cot s inbox ≡ done x
      → x.0.check_cnt < c.check_sz
  unfolding room_recv
  has_room s inbox x size fits e = elim (Bool-cases (s.check_cnt == c.check_sz)) [
    | inl full ↦ omega (arith, emptied (check_recv delta c cot s inbox) x (rw full at e))
    | inr free ↦
        (let same : s ≡ x.0 = cc (rw free at e) in
          omega (
            arith,
            ap (λ (t : Engine A). t.check_cnt) same,
            bound s.check_cnt c.check_sz fits free,
          ))
  ]
    where
      bound : (k n : ℕ) → k ≤ n → (k == n) ≡ false → k < n
      bound k n h e = ground arith

  stays :
      (s : Engine A) (inbox : List (Message A))
      → s.check_cnt < c.check_sz
      → room_recv delta c cot s inbox ≡ done (s, inbox)
  unfolding room_recv
  stays s inbox room = rw (free s.check_cnt c.check_sz room)
    where
      free : (k n : ℕ) → k < n → (k == n) ≡ false
      free k n h = ground arith

  room_first :
      (s : Engine A) (gate : A × A) (gates : List (A × A)) (inbox : List (Message A))
      → 0 < c.check_sz
      → s.check_cnt ≤ c.check_sz
      → each_recv c cot delta s (gate ∷ gates) inbox
        ≡ (room_recv delta c cot s inbox >>= λ x. each_recv c cot delta x.0 (gate ∷ gates) x.1)
  unfolding each_recv auth_compute_and
  room_first s (l, r) gates inbox size fits =
      >>=_assoc (room_recv delta c cot s inbox) _ _
      ∙ >>=_congr (room_recv delta c cot s inbox)
          (λ x e. rw (stays x.0 x.1 (has_room s inbox x size fits e)))

  each_recv-nil :
      (s : Engine A) (inbox : List (Message A))
      → done (s, inbox, []) ≡ each_recv c cot delta s [] inbox
  unfolding each_recv
  each_recv-nil s inbox = refl

  pub vector_recv_lem :
      (fuel : ℕ) (s : Engine A) (gates : List (A × A)) (inbox : List (Message A))
      → 0 < c.check_sz
      → s.check_cnt ≤ c.check_sz
      → length gates < fuel
      → vector_recv c cot delta fuel s gates inbox ≡ each_recv c cot delta s gates inbox
  unfolding vector_recv
  vector_recv_lem zero s gates inbox size fits more = absurd (omega arith)
  vector_recv_lem (suc fuel) s [] inbox size fits more = each_recv-nil s inbox
  vector_recv_lem (suc fuel) s (gate ∷ gates) inbox size fits more =
      >>=_congr (room_recv delta c cot s inbox) (λ x e.
        let room = has_room s inbox x size fits e in
        let n = min (c.check_sz - x.0.check_cnt) (length (gate ∷ gates)) in
        let small : n ≤ length (gate ∷ gates) = ground arith in
        let inside : x.0.check_cnt + n ≤ c.check_sz = ground arith in
        let left = length-drop n (gate ∷ gates) small in
        >>=_congr (recv_bits n x.1) (λ y _.
          let w = wave_recv delta cot x.0 x.0.check_cnt x.0.cots (take n (gate ∷ gates)) y.0 in
          ap (after w.1) (
            vector_recv_lem fuel (record w.0 { check_cnt = x.0.check_cnt + n; cots = x.0.cots + n })
              (drop n (gate ∷ gates)) y.1 size inside (ground arith)))
        ∙ sym (chunk (gate ∷ gates) x.0 n x.1 small inside))
      ∙ sym (room_first s gate gates inbox size fits)
