-- ===== src/ZkBool/Check/Bits.antt =====
-- The loop over the last bits of the correlations builds the word of these bits.
use vole_zk.Common.{
  ℕ, zero, suc, ◌+◌, ◌*◌, ◌%◌, ◌^◌, ◌≤◌, Bool, true, false, bit_value, ◌≡◌, ◌∙◌, arith,
}
use vole_zk.ZkBool.Outside.{word_of}
use vole_zk.ZkBool.Check.{gather_bits, ch_bits}

pow_suc : (n : ℕ) → 2 ^ suc n ≡ 2 ^ n * 2
pow_suc n = omega arith

bit_small : (x : Bool) → bit_value x ≤ 1
bit_small true = omega arith
bit_small false = omega arith

pow_pos : (n : ℕ) → 1 ≤ 2 ^ n
pow_pos zero = omega arith
pow_pos (suc n) = omega (arith, pow_pos n)

no_wrap :
    (w p b : ℕ)
    → 1 ≤ p
    → b ≤ 1
    → (w + 1) * (p * 2) ≤ 2 ^ 64
    → (w * 2 % 2 ^ 64 + b) % 2 ^ 64 ≡ w * 2 + b
no_wrap w p b pos small fits = omega (arith, room)
  where
    room : (w + 1) * 2 ≤ 2 ^ 64
    room = grind arith

still_fits : (w p b : ℕ) → b ≤ 1 → (w + 1) * (p * 2) ≤ 2 ^ 64 → (w * 2 + b + 1) * p ≤ 2 ^ 64
still_fits w p b small fits = grind arith

collect : (w p b r : ℕ) → (w * 2 + b) * p + r ≡ w * (p * 2) + (r + b * p)
collect w p b r = grind arith

gather_lem :
    (x : ℕ → Bool) (base n w : ℕ)
    → (w + 1) * 2 ^ n ≤ 2 ^ 64
    → gather_bits x base n w ≡ w * 2 ^ n + word_of (λ i. x (base + i)) n
unfolding gather_bits word_of
gather_lem x base zero w fits = omega arith
gather_lem x base (suc j) w fits =
    let b = bit_value (x (base + j)) in
    let fits' = rw (pow_suc j) at fits in
    rw (no_wrap w (2 ^ j) b (pow_pos j) (bit_small _) fits', pow_suc j)
      (gather_lem x base j (w * 2 + b) (still_fits w (2 ^ j) b (bit_small _) fits')
        ∙ collect w (2 ^ j) b _)

-- The word built is below 2^64 and made of the bits from `base` on, the first one last.
pub ch_bits_lem : (x : ℕ → Bool) (base : ℕ) → ch_bits x base ≡ word_of (λ i. x (base + i)) 64
unfolding ch_bits word_of
ch_bits_lem x base =
    gather_lem x base 63 (bit_value (x (base + 63))) (omega (arith, bit_small (x (base + 63))))
    ∙ omega arith

-- The loop that starts one round earlier, from 0.
pub gather_zero :
    (x : ℕ → Bool) (base : ℕ) → gather_bits x base 64 0 ≡ word_of (λ i. x (base + i)) 64
gather_zero x base = gather_lem x base 64 0 (omega arith) ∙ omega arith
