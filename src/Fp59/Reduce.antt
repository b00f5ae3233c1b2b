-- ===== src/Fp59/Reduce.antt =====
-- The reductions and the sums of fp59.h are those modulo p.
use vole_zk.Common.{ℕ, ◌+◌, ◌%◌, ◌^◌, ◌≤◌, ◌<◌, ◌≡◌, arith}
use vole_zk.Fp59.{pr, mod_word, add_mod, sub_mod, negate}

-- Every word of 64 bits is reduced to its residue modulo p.
pub mod_word_lem : (x : ℕ) → x < 2 ^ 64 → mod_word x ≡ x % pr
unfolding mod_word
mod_word_lem x h = ground arith

-- The sum of a word below p and one up to p is their sum modulo p.
pub add_mod_lem : (a b : ℕ) → a < pr → b ≤ pr → add_mod a b ≡ (a + b) % pr
unfolding add_mod
add_mod_lem a b ha hb = ground arith

-- The difference of two words below p, added to the second one, is the first.
pub sub_mod_lem : (a b : ℕ) → a < pr → b < pr → (sub_mod a b + b) % pr ≡ a
unfolding sub_mod
sub_mod_lem a b ha hb = ground arith

-- A word below p and its opposite add up to 0 modulo p.
pub negate_lem : (a : ℕ) → a < pr → (a + negate a) % pr ≡ 0
unfolding negate
negate_lem a ha = ground arith
