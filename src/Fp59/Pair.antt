-- ===== src/Fp59/Pair.antt =====
-- The pairs of fp59x2.h, value in the high lane and MAC in the low one, and the lazy sums of
-- fp59.h and fp59x2.h.
use vole_zk.Common.{
  ℕ, suc, ◌+◌, ◌-◌, ◌*◌, ◌%◌, ◌^◌, ◌≤◌, ◌<◌, List, [], ◌∷◌, length, ◌≡◌, ap₂, ◌∙◌, arith,
}
use vole_zk.Fp59.{pr, add64, sub64, mod_word, add_mod, sub_mod, negate, mult_mod, Mul64}
use vole_zk.Fp59.Reduce.{mod_word_lem}
use vole_zk.Fp59.Lanes.{Block, IsReduced, vec_partial_mod, add_lane_lem, sub_lane_lem}

unfoldable pub set_low : Block → ℕ → Block
set_low b x = record b { low = x }

unfoldable pub set_high : Block → ℕ → Block
set_high b x = record b { high = x }

-- The low lane of a GGM block, reduced; the high lane is 0.
unfoldable pub set_low_from_block : Block → Block
set_low_from_block b = record { low = mod_word b.low; high = 0 }

unfoldable pub pair_mul : Mul64 → Block → Block → Block
pair_mul m a b = record { low = mult_mod m a.low b.low; high = mult_mod m a.high b.high }

-- `FP59x2 + FP59` and `FP59x2 - FP59`: the scalar goes to both lanes.
unfoldable pub pair_add_scalar : Block → ℕ → Block
pair_add_scalar a b = vec_partial_mod (record { low = add64 a.low b; high = add64 a.high b })

unfoldable pub pair_sub_scalar : Block → ℕ → Block
unfolding pair_add_scalar
pair_sub_scalar a b = pair_add_scalar a (sub64 pr b)

unfoldable pub pair_negate : Block → Block
pair_negate a = record { low = negate a.low; high = negate a.high }

-- `FP59::add_raw` and its loop; `reduce` is `mod`.
unfoldable pub add_raw : ℕ → ℕ → ℕ
add_raw acc x = add64 acc x

unfoldable pub add_all_raw : ℕ → List ℕ → ℕ
unfolding add_raw
add_all_raw acc [] = acc
add_all_raw acc (x ∷ xs) = add_all_raw (add_raw acc x) xs

unfoldable pub pair_add_raw : Block → Block → Block
pair_add_raw acc x = record { low = add64 acc.low x.low; high = add64 acc.high x.high }

abbrev pub total : List ℕ → ℕ
total [] = 0
total (x ∷ xs) = x + total xs

abbrev pub AllReduced : List ℕ → Type 0
AllReduced [] = Unit {0}
AllReduced (x ∷ xs) = (x < pr) × AllReduced xs

no_wrap : (acc x k : ℕ) → acc ≤ k * (pr - 1) → k < 32 → x < pr → add64 acc x ≡ acc + x
no_wrap acc x k small few h = omega arith

raw_sum :
    (xs : List ℕ) (acc k : ℕ)
    → acc ≤ k * (pr - 1)
    → k + length xs ≤ 32
    → AllReduced xs
    → (add_all_raw acc xs ≡ acc + total xs) × (acc + total xs < 2 ^ 64)
unfolding add_all_raw add_raw
raw_sum [] acc k small few all = (omega arith, omega arith)
raw_sum (x ∷ xs) acc k small few (h, all) =
    let later = raw_sum xs (acc + x) (suc k) (omega arith) (omega arith) all in
    rw (no_wrap acc x k small (omega arith) h) (later.0 ∙ omega arith, omega arith)

-- Up to 31 residues may be added to a residue without reduction: one reduction at the end gives
-- the sum modulo p.
pub lazy_sum_lem :
    (acc : ℕ) (xs : List ℕ)
    → acc < pr
    → AllReduced xs
    → length xs ≤ 31
    → mod_word (add_all_raw acc xs) ≡ (acc + total xs) % pr
lazy_sum_lem acc xs h all few =
    let sum = raw_sum xs acc 1 (omega arith) (omega arith) all in
    rw (sum.0) (mod_word_lem (acc + total xs) sum.1)

-- The sum and the difference of a pair of residues and a scalar residue are those of the scalar
-- code in each lane.
pub pair_scalar_lem :
    (a : Block) (b : ℕ)
    → IsReduced a
    → b < pr
    → (pair_add_scalar a b ≡ record { low = add_mod a.low b; high = add_mod a.high b })
      × (pair_sub_scalar a b ≡ record { low = sub_mod a.low b; high = sub_mod a.high b })
unfolding pair_add_scalar pair_sub_scalar vec_partial_mod
pair_scalar_lem a b ha hb = (
  ap₂ (λ l h. record { low = l; high = h }) (add_lane_lem a.low b ha.0 hb)
      (add_lane_lem a.high b ha.1 hb),
  ap₂ (λ l h. record { low = l; high = h }) (sub_lane_lem a.low b ha.0 hb)
      (sub_lane_lem a.high b ha.1 hb),
)
