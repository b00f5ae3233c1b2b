-- ===== src/ZkBool/Vector/Prover.antt =====
-- A wave of gates is the gates one by one, message for message, at the prover.
use vole_zk.Common.{
  ℕ, zero, suc, ◌+◌, ◌-◌, ◌≤◌, ◌<◌, min, false, ◌&&◌, ◌==◌, Bool-cases, List, [], ◌∷◌, ◌++◌, length,
  update, some, ◌≡◌, refl, sym, ap, ap₂, ◌∙◌, inl, inr, arith,
}
use mathlib.Core.Option as Option
use mathlib.Core.List.{append_assoc}
use vole_zk.Field.{Field}
use vole_zk.Arith.Batch.{take, drop}
use vole_zk.Arith.Batch.Laws.{take-drop, length-take, length-drop}
use vole_zk.ZkBool.Block.{Blocks, get_lsb}
use vole_zk.ZkBool.Check.{Message}
use vole_zk.ZkBool.Engine.{Engine, Setup}
use vole_zk.ZkBool.Engine.Prv.{embed, check_send, room_send, slot_send, auth_compute_and, and_block}
use vole_zk.ZkBool.Vector.{
  Outcome, before, wave_send, vector_send, and_blocks_send, each_send, blocks_send,
}

module _ {ℓ} {A W : Type ℓ} ⦃f : Field A⦄ ⦃b : Blocks A⦄ (c : Setup A W) (cot : ℕ → A) where
  wave_lem :
      (gates : List (A × A)) (s : Engine A) (base k : ℕ)
      → base + length gates ≤ c.check_sz
      → let (s', sent, wires) = wave_send cot s base k gates in
        each_send c cot (record s { check_cnt = base; cots = k }) gates
        ≡ (record s' { check_cnt = base + length gates; cots = k + length gates }, sent, wires)
  unfolding wave_send each_send auth_compute_and room_send slot_send
  wave_lem [] s base k h =
      ap₂ (λ i j. (record s { check_cnt = i; cots = j }, [], [])) (omega arith) (omega arith)
  wave_lem ((l, r) ∷ gates) s base k h = rw room (
      ap (before (flip ∷ []) (auth ∷ [])) (
        wave_lem gates s' (base + 1) (k + 1) (omega arith)
        ∙ ap₂
            (λ i j. (
              record (wave_send cot s' (base + 1) (k + 1) gates).0 { check_cnt = i; cots = j },
              (wave_send cot s' (base + 1) (k + 1) gates).1,
              (wave_send cot s' (base + 1) (k + 1) gates).2,
            ))
            (omega arith) (omega arith)))
    where
      room : (base == c.check_sz) ≡ false
      room = ground arith

      auth : A
      auth = (embed (cot k) (get_lsb l && get_lsb r)).0

      flip : Message A
      flip = (embed (cot k) (get_lsb l && get_lsb r)).1

      s' : Engine A
      s' = record s {
        left = update s.left base l;
        right = update s.right base r;
        out = update s.out base auth;
      }

  each_send-append :
      (xs ys : List (A × A)) (s : Engine A)
      → each_send c cot s (xs ++ ys) ≡ (
          let (s', sent, wires) = each_send c cot s xs in before sent wires (each_send c cot s' ys))
  unfolding each_send
  each_send-append [] ys s = refl
  each_send-append ((l, r) ∷ xs) ys s =
      rw (each_send-append xs ys _, append_assoc (auth_compute_and c cot s l r).1)

  has_room :
      (s : Engine A)
      → 0 < c.check_sz
      → s.check_cnt ≤ c.check_sz
      → (room_send c cot s).0.check_cnt < c.check_sz
  unfolding room_send
  has_room s size fits = elim (Bool-cases (s.check_cnt == c.check_sz)) [
    | inl full ↦ rw full size
    | inr free ↦ rw free (ground arith)
  ]

  stays : (s : Engine A) → s.check_cnt < c.check_sz → room_send c cot s ≡ (s, [])
  unfolding room_send
  stays s room = rw (free s.check_cnt c.check_sz room)
    where
      free : (k n : ℕ) → k < n → (k == n) ≡ false
      free k n h = ground arith

  room_first :
      (s : Engine A) (gate : A × A) (gates : List (A × A))
      → 0 < c.check_sz
      → s.check_cnt ≤ c.check_sz
      → each_send c cot s (gate ∷ gates)
        ≡ before (room_send c cot s).1 [] (each_send c cot (room_send c cot s).0 (gate ∷ gates))
  unfolding each_send auth_compute_and
  room_first s (l, r) gates size fits =
      rw (stays (room_send c cot s).0 (has_room s size fits), append_assoc (room_send c cot s).1)

  -- The first `n` gates as one wave, and the others after it.
  chunk :
      (gates : List (A × A)) (s : Engine A) (n : ℕ)
      → n ≤ length gates
      → s.check_cnt + n ≤ c.check_sz
      → let (s', sent, wires) = wave_send cot s s.check_cnt s.cots (take n gates) in
        each_send c cot s gates
        ≡ before sent wires (
            each_send c cot
              (record s' { check_cnt = s.check_cnt + n; cots = s.cots + n })
              (drop n gates))
  chunk gates s n small fits =
      ap (each_send c cot s) (sym (take-drop n gates))
      ∙ each_send-append (take n gates) (drop n gates) s
      ∙ ap (λ o. before o.1 o.2 (each_send c cot o.0 (drop n gates)))
          (wave_lem (take n gates) s s.check_cnt s.cots (rw (length-take n gates small) fits)
            ∙ ap
                (λ k. (
                  record wave.0 { check_cnt = s.check_cnt + k; cots = s.cots + k },
                  wave.1,
                  wave.2,
                ))
                (length-take n gates small))
    where
      wave : Outcome A
      wave = wave_send cot s s.check_cnt s.cots (take n gates)

  each_send-nil : (s : Engine A) → (s, [], []) ≡ each_send c cot s []
  unfolding each_send
  each_send-nil s = refl

  before-before :
      (xs ys : List (Message A)) (ws : List A) (o : Outcome A)
      → before (xs ++ ys) ws o ≡ before xs [] (before ys ws o)
  before-before xs ys ws (s, sent, wires) = ap (λ t. (s, t, ws ++ wires)) (append_assoc xs ys sent)

  vector_send_lem :
      (fuel : ℕ) (s : Engine A) (gates : List (A × A))
      → 0 < c.check_sz
      → s.check_cnt ≤ c.check_sz
      → length gates < fuel
      → vector_send c cot fuel s gates ≡ some (each_send c cot s gates)
  unfolding vector_send
  vector_send_lem zero s gates size fits more = absurd (omega arith)
  vector_send_lem (suc fuel) s [] size fits more = ap some (each_send-nil s)
  vector_send_lem (suc fuel) s (gate ∷ gates) size fits more =
      let s' = (room_send c cot s).0 in
      let room = has_room s size fits in
      let n = min (c.check_sz - s'.check_cnt) (length (gate ∷ gates)) in
      let small : n ≤ length (gate ∷ gates) = ground arith in
      let inside : s'.check_cnt + n ≤ c.check_sz = ground arith in
      let wave = wave_send cot s' s'.check_cnt s'.cots (take n (gate ∷ gates)) in
      let left = length-drop n (gate ∷ gates) small in
      ap (Option.map (before ((room_send c cot s).1 ++ wave.1) wave.2)) (
        vector_send_lem fuel (record wave.0 { check_cnt = s'.check_cnt + n; cots = s'.cots + n })
          (drop n (gate ∷ gates)) size inside (ground arith))
      ∙ ap some (
          before-before (room_send c cot s).1 wave.1 wave.2 _
          ∙ ap (before (room_send c cot s).1 []) (sym (chunk (gate ∷ gates) s' n small inside))
          ∙ sym (room_first s gate gates size fits))

  -- The count of gates has no part in a gate.
  gid_apart :
      (s : Engine A) (g : ℕ) (l r : A)
      → auth_compute_and c cot (record s { gid = g }) l r ≡ (
          let (s', sent, wire) = auth_compute_and c cot s l r in
          (record s' { gid = g }, sent, wire))
  unfolding auth_compute_and room_send slot_send check_send
  gid_apart s g l r = elim (Bool-cases (s.check_cnt == c.check_sz)) [
    | inl full ↦ rw full refl
    | inr free ↦ rw free refl
  ]

  blocks_lem :
      (gates : List (A × A)) (s : Engine A)
      → blocks_send c cot s gates ≡ each_send c cot (record s { gid = s.gid + length gates }) gates
  unfolding blocks_send each_send and_block
  blocks_lem [] s = ap (λ g. (record s { gid = g }, [], [])) (omega arith)
  blocks_lem ((l, r) ∷ gates) s =
      let o : Engine A × List (Message A) × A = auth_compute_and c cot s l r in
      rw (gid_apart s (s.gid + 1) l r, gid_apart s (s.gid + suc (length gates)) l r)
        (ap (before o.1 (o.2 ∷ [])) (
          blocks_lem gates (record o.0 { gid = s.gid + 1 })
          ∙ ap (λ g. each_send c cot (record o.0 { gid = g }) gates) (omega arith)))

  -- On buffers of a slot or more that are not overfull, a vectorized AND ends with the state, the
  -- messages and the wires of the single ANDs, one after the other.
  pub and_blocks_send_lem :
      (s : Engine A) (gates : List (A × A))
      → 0 < c.check_sz
      → s.check_cnt ≤ c.check_sz
      → and_blocks_send c cot s gates ≡ some (blocks_send c cot s gates)
  unfolding and_blocks_send
  and_blocks_send_lem s gates size fits =
      vector_send_lem (length gates + 1) (record s { gid = s.gid + length gates }) gates size fits
        (omega arith)
      ∙ ap some (sym (blocks_lem gates s))
