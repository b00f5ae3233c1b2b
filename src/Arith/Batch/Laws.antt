-- ===== src/Arith/Batch/Laws.antt =====
-- A batched call does what the single calls do, message for message.
use vole_zk.Common.{
  ℕ, zero, suc, ◌+◌, ◌-◌, ◌≤◌, ◌<◌, min, false, ◌==◌, Bool-cases, List, [], ◌∷◌, ◌++◌, length,
  update, some, ◌≡◌, refl, sym, ap, ◌∙◌, inl, inr, arith,
}
use mathlib.Core.Option as Option
use vole_zk.Field.{Field, ◌⊗◌, ◌⊖◌}
use vole_zk.Arith.Wire.{Auth}
use vole_zk.Arith.Engine.{
  Engine, Setup, input_send, room_send, slot_send, fill_vole, auth_compute_mul_send,
}
use mathlib.Core.List.{append_assoc}
use vole_zk.Arith.Batch.{
  take, drop, Outcome, before, mask_inputs, inputs_send, each_input, mul_block_send,
  mul_vector_send, each_mul,
}

module _ {ℓ} {A : Type ℓ} where
  pub take-drop : (n : ℕ) (xs : List A) → take n xs ++ drop n xs ≡ xs
  take-drop zero xs = refl
  take-drop (suc n) [] = refl
  take-drop (suc n) (x ∷ xs) = ap (λ t. x ∷ t) (take-drop n xs)

  pub length-take : (n : ℕ) (xs : List A) → n ≤ length xs → length (take n xs) ≡ n
  length-take zero xs h = refl
  length-take (suc n) [] h = absurd (omega arith)
  length-take (suc n) (x ∷ xs) h = ap suc (length-take n xs (omega arith))

  pub length-drop : (n : ℕ) (xs : List A) → n ≤ length xs → length (drop n xs) + n ≡ length xs
  length-drop zero xs h = omega arith
  length-drop (suc n) [] h = absurd (omega arith)
  length-drop (suc n) (x ∷ xs) h = omega (arith, length-drop n xs (omega arith))

module _ {ℓ} {A : Type ℓ} ⦃f : Field A⦄ where
  module _ (c : Setup A) (vole : ℕ → Auth A) where
    -- A batch of inputs gives the state, the messages and the wires of the inputs one by one.
    pub inputs_send_lem :
        (ws : List A) (s : Engine A) → inputs_send vole s ws ≡ each_input c vole s ws
    unfolding inputs_send each_input mask_inputs input_send
    inputs_send_lem [] s = ap (λ k. (record s { drawn = k }, [], [])) (omega arith)
    inputs_send_lem (w ∷ ws) s = rw (← inputs_send_lem ws (record s { drawn = s.drawn + 1 })) (
        ap
          (λ k. (
            record s { drawn = k },
            (mask_inputs vole s.drawn (w ∷ ws)).0,
            (mask_inputs vole s.drawn (w ∷ ws)).1,
          ))
          (omega arith))

    block_lem :
        (gates : List (Auth A × Auth A)) (s : Engine A) (base : ℕ)
        → base + length gates ≤ c.check_sz
        → let (s', sent, wires) = mul_block_send s base gates in
          each_mul c vole (record s { check_cnt = base }) gates
          ≡ (record s' { check_cnt = base + length gates }, sent, wires)
    unfolding mul_block_send each_mul auth_compute_mul_send room_send slot_send
    block_lem [] s base h = ap (λ k. (record s { check_cnt = k }, [], [])) (omega arith)
    block_lem ((ma, mb) ∷ gates) s base h = rw room (
        ap (before ((mac.val ⊖ ma.val ⊗ mb.val) ∷ []) (wire ∷ [])) (
          block_lem gates s' (base + 1) (omega arith)
          ∙ ap
              (λ k. (
                record (mul_block_send s' (base + 1) gates).0 { check_cnt = k },
                (mul_block_send s' (base + 1) gates).1,
                (mul_block_send s' (base + 1) gates).2,
              ))
              (omega arith)))
      where
        room : (base == c.check_sz) ≡ false
        room = ground arith

        mac : Auth A
        mac = s.out base

        wire : Auth A
        wire = record { val = ma.val ⊗ mb.val; mac = mac.mac }

        s' : Engine A
        s' = record s {
          left = update s.left base ma;
          right = update s.right base mb;
          out = update s.out base wire;
        }

    each_mul-append :
        (xs ys : List (Auth A × Auth A)) (s : Engine A)
        → each_mul c vole s (xs ++ ys) ≡ (
            let (s', sent, wires) = each_mul c vole s xs in
            before sent wires (each_mul c vole s' ys))
    unfolding each_mul
    each_mul-append [] ys s = refl
    each_mul-append ((ma, mb) ∷ xs) ys s =
        rw (each_mul-append xs ys _, append_assoc (auth_compute_mul_send c vole s ma mb).1)

    has_room :
        (s : Engine A)
        → 0 < c.check_sz
        → s.check_cnt ≤ c.check_sz
        → (room_send c vole s).0.check_cnt < c.check_sz
    unfolding room_send fill_vole
    has_room s size fits = elim (Bool-cases (s.check_cnt == c.check_sz)) [
      | inl full ↦ rw full size
      | inr free ↦ rw free (ground arith)
    ]

    stays : (s : Engine A) → s.check_cnt < c.check_sz → room_send c vole s ≡ (s, [])
    unfolding room_send
    stays s room = rw (free s.check_cnt c.check_sz room)
      where
        free : (k n : ℕ) → k < n → (k == n) ≡ false
        free k n h = ground arith

    room_first :
        (s : Engine A) (gate : Auth A × Auth A) (gates : List (Auth A × Auth A))
        → 0 < c.check_sz
        → s.check_cnt ≤ c.check_sz
        → each_mul c vole s (gate ∷ gates)
          ≡ before (room_send c vole s).1 [] (each_mul c vole (room_send c vole s).0 (gate ∷ gates))
    unfolding each_mul auth_compute_mul_send
    room_first s (ma, mb) gates size fits =
        rw
          (stays (room_send c vole s).0 (has_room s size fits), append_assoc (room_send c vole s).1)

    -- The first `n` gates as one block, and the others after it.
    chunk :
        (gates : List (Auth A × Auth A)) (s : Engine A) (n : ℕ)
        → n ≤ length gates
        → s.check_cnt + n ≤ c.check_sz
        → let (s', sent, wires) = mul_block_send s s.check_cnt (take n gates) in
          each_mul c vole s gates
          ≡ before sent wires
              (each_mul c vole (record s' { check_cnt = s.check_cnt + n }) (drop n gates))
    chunk gates s n small fits =
        ap (each_mul c vole s) (sym (take-drop n gates))
        ∙ each_mul-append (take n gates) (drop n gates) s
        ∙ ap (λ o. before o.1 o.2 (each_mul c vole o.0 (drop n gates)))
            (block_lem (take n gates) s s.check_cnt (rw (length-take n gates small) fits)
              ∙ ap (λ k. (record block.0 { check_cnt = s.check_cnt + k }, block.1, block.2))
                  (length-take n gates small))
      where
        block : Outcome A
        block = mul_block_send s s.check_cnt (take n gates)

    each_mul-nil : (s : Engine A) → (s, [], []) ≡ each_mul c vole s []
    unfolding each_mul
    each_mul-nil s = refl

    before-before :
        (xs ys : List A) (ws : List (Auth A)) (o : Outcome A)
        → before (xs ++ ys) ws o ≡ before xs [] (before ys ws o)
    before-before xs ys ws (s, sent, wires) =
        ap (λ t. (s, t, ws ++ wires)) (append_assoc xs ys sent)

    -- On buffers of a slot or more that are not overfull, and with more fuel than gates, the loop of
    -- the vectorized multiplication ends with the state, the messages and the wires of the
    -- multiplications one by one.
    pub mul_vector_send_lem :
        (fuel : ℕ) (s : Engine A) (gates : List (Auth A × Auth A))
        → 0 < c.check_sz
        → s.check_cnt ≤ c.check_sz
        → length gates < fuel
        → mul_vector_send c vole fuel s gates ≡ some (each_mul c vole s gates)
    unfolding mul_vector_send
    mul_vector_send_lem zero s gates size fits more = absurd (omega arith)
    mul_vector_send_lem (suc fuel) s [] size fits more = ap some (each_mul-nil s)
    mul_vector_send_lem (suc fuel) s (gate ∷ gates) size fits more =
        let s' = (room_send c vole s).0 in
        let room = has_room s size fits in
        let n = min (c.check_sz - s'.check_cnt) (length (gate ∷ gates)) in
        let small : n ≤ length (gate ∷ gates) = ground arith in
        let inside : s'.check_cnt + n ≤ c.check_sz = ground arith in
        let block = mul_block_send s' s'.check_cnt (take n (gate ∷ gates)) in
        let left = length-drop n (gate ∷ gates) small in
        ap (Option.map (before ((room_send c vole s).1 ++ block.1) block.2)) (
          mul_vector_send_lem fuel (record block.0 { check_cnt = s'.check_cnt + n })
            (drop n (gate ∷ gates)) size inside (ground arith))
        ∙ ap some (
            before-before (room_send c vole s).1 block.1 block.2 _
            ∙ ap (before (room_send c vole s).1 []) (sym (chunk (gate ∷ gates) s' n small inside))
            ∙ sym (room_first s gate gates size fits))
