-- ===== src/Fp59/Inverse/Words.antt =====
-- The signed words of `mod_inv` (mvzk/fields/fp59.h), which Fp59/Inverse.antt models by integers.
use vole_zk.Common.{ℕ, ◌*◌, ◌/◌, ◌^◌, ◌≤◌, ◌<◌, arith}
use vole_zk.Fp59.Inverse.{Euclid, euclid_step}
use vole_zk.Fp59.Inverse.Laws.{Inv, size, size-sub, quotient, mul_mono}

-- In a state of the loop, the size of each variable, of both products and of what replaces `new_k`
-- is below 2 ^ 63.
record Fits (s : Euclid) : Type 0 where
  k : size s.k < 2 ^ 63
  new_k : size s.new_k < 2 ^ 63
  r : s.r < 2 ^ 63
  product_k : s.r / s.new_r * size s.new_k < 2 ^ 63
  product_r : s.r / s.new_r * s.new_r < 2 ^ 63
  next_k : size (euclid_step s).new_k < 2 ^ 63

product_bound : (q m v r : ℕ) → 0 < m → q * m ≤ r → q * v ≤ v * r
product_bound q m v r some le = omega (arith, mul_mono q r v (omega (arith, mul_mono 1 m q some)))

-- Under the invariant of the loop, before each round, no value of that round leaves the range of
-- `int64_t`.
euclid_step-Fits : {a : ℕ} {s : Euclid} → Inv a s → 0 < s.new_r → Fits s
unfolding euclid_step
euclid_step-Fits {a} {s} v some =
    let q = quotient s.r s.new_r some in
    let bound = product_bound (s.r / s.new_r) s.new_r (size s.new_k) s.r some q.0 in
    record {
      k = omega (arith, v.half);
      new_k = omega (arith, mul_mono 1 s.r (size s.new_k) (omega (arith, v.decreasing)), v.balance);
      r = omega (arith, v.within);
      product_k = omega (arith, bound, v.balance);
      product_r = omega (arith, q.0, v.within);
      next_k = omega (arith, bound, v.balance, v.half, size-sub s.k s.new_k (s.r / s.new_r));
    }
