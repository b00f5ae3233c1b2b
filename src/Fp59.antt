-- ===== src/Fp59.antt =====
-- emp-zk/mvzk/fields/fp59.h: F_p with p = 2^59 - 2^28 + 1 on words of 64 bits. Every operation
-- on words keeps its wrap-around; `x & PR_mask` is `x % 2 ^ 59`.
pub mod Reduce
pub mod Product
pub mod Inverse
pub mod Lanes
pub mod Pair
pub mod Sample
pub mod Ring
use vole_zk.Common.{ℕ, ◌+◌, ◌-◌, ◌*◌, ◌/◌, ◌%◌, ◌^◌, ◌<◌, Bool, ltb, leb, ◌==◌, if◌then◌else◌, ◌≡◌}

abbrev pub pr : ℕ
pr = 576460752034988033

abbrev pub pr_mask : ℕ → ℕ
pr_mask x = x % 2 ^ 59

abbrev pub add64 : ℕ → ℕ → ℕ
add64 a b = (a + b) % 2 ^ 64

abbrev pub sub64 : ℕ → ℕ → ℕ
sub64 a b = (a + 2 ^ 64 - b) % 2 ^ 64

abbrev pub shl64 : ℕ → ℕ → ℕ
shl64 x k = x * 2 ^ k % 2 ^ 64

abbrev pub shr64 : ℕ → ℕ → ℕ
shr64 x k = x / 2 ^ k

-- `x >= PR ? x - PR : x`
unfoldable pub reduce_once : ℕ → ℕ
reduce_once x = if leb pr x then x - pr else x

unfoldable pub mod_word : ℕ → ℕ
unfolding reduce_once
mod_word x =
    let hi = shr64 x 59 in let r = add64 (sub64 (shl64 hi 28) hi) (pr_mask x) in reduce_once r

unfoldable pub add_mod : ℕ → ℕ → ℕ
unfolding reduce_once
add_mod a b = reduce_once (add64 a b)

-- `operator-`; at `b = 0` the second summand is the word PR.
unfoldable pub sub_mod : ℕ → ℕ → ℕ
unfolding add_mod
sub_mod a b = add_mod a (sub64 pr b)

unfoldable pub negate : ℕ → ℕ
negate a = if a == 0 then 0 else sub64 pr a

-- `vole_mul64` of the vole library: the 128-bit product as its low and its high word.
pub record Mul64 : Type 0 where
  pub low : ℕ → ℕ → ℕ
  pub high : ℕ → ℕ → ℕ
  pub low_lem : (a b : ℕ) → a < 2 ^ 64 → b < 2 ^ 64 → low a b ≡ a * b % 2 ^ 64
  pub high_lem : (a b : ℕ) → a < 2 ^ 64 → b < 2 ^ 64 → high a b ≡ a * b / 2 ^ 64

-- From the high part `i` of the product (bits 59 and up) and its low word `e`.
unfoldable pub fold_product : ℕ → ℕ → ℕ
unfolding reduce_once
fold_product i e =
    let j = shr64 i 31 in
    let j' = reduce_once (add64 (sub64 (shl64 j 28) j) (pr_mask (shl64 i 28))) in
    let i' = sub64 (add64 (add64 j' (pr_mask e)) pr) i in reduce_once (reduce_once i')

unfoldable pub mult_mod : Mul64 → ℕ → ℕ → ℕ
unfolding fold_product
mult_mod m a b =
    let c = m.high a b in
    let e = m.low a b in let i = add64 (shl64 c 5) (shr64 e 59) in fold_product i e
