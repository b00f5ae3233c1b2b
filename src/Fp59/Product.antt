-- ===== src/Fp59/Product.antt =====
-- The product of fp59.h is the product modulo p.
use vole_zk.Common.{ℕ, ◌-◌, ◌*◌, ◌/◌, ◌%◌, ◌^◌, ◌≤◌, ◌<◌, ◌≡◌, arith}
use vole_zk.Fp59.{pr, fold_product, mult_mod, Mul64, shl64, shr64, add64}

-- `n` is the product of two residues, at most (p - 1)^2.
fold_product_lem :
    (n : ℕ) → n ≤ (pr - 1) * (pr - 1) → fold_product (n / 2 ^ 59) (n % 2 ^ 64) ≡ n % pr
unfolding fold_product
fold_product_lem n h = ground arith

-- Bits 59 and up of the product, put together from its two words.
pub high_part :
    (n : ℕ) → n < 2 ^ 118 → add64 (shl64 (n / 2 ^ 64) 5) (shr64 (n % 2 ^ 64) 59) ≡ n / 2 ^ 59
high_part n h = omega arith

pub product_bound : (a b : ℕ) → a < pr → b < pr → a * b ≤ (pr - 1) * (pr - 1)
product_bound a b ha hb = grind arith

-- On words below p the product of fp59.h, made from the two words of the 128-bit product, is the
-- product modulo p.
pub mult_mod_lem : (m : Mul64) (a b : ℕ) → a < pr → b < pr → mult_mod m a b ≡ a * b % pr
unfolding mult_mod
mult_mod_lem m a b ha hb =
    rw
      (
        m.high_lem a b (omega arith) (omega arith),
        m.low_lem a b (omega arith) (omega arith),
        high_part (a * b) (omega (arith, product_bound a b ha hb)),
      )
      (fold_product_lem (a * b) (product_bound a b ha hb))
