-- ===== src/Fp59/Lanes.antt =====
-- The two-lane operations of fp59.h, on which the pairs of fp59x2.h stand: a block holds a word in
-- each of its halves, and every instruction works on both alike.
use vole_zk.Common.{
  ℕ, ◌-◌, ◌*◌, ◌/◌, ◌%◌, ◌^◌, ◌≤◌, ◌<◌, Bool, true, ltb, if◌then◌else◌, ◌≡◌, arith, ap₂, sym, ◌∙◌,
}
use vole_zk.Fp59.{
  pr, pr_mask, add64, sub64, shl64, shr64, Mul64, mod_word, add_mod, mult_mod, sub_mod,
}
use vole_zk.Fp59.Reduce.{mod_word_lem}
use vole_zk.Fp59.Product.{mult_mod_lem, high_part, product_bound}

pub record Block : Type 0 where
  pub low : ℕ
  pub high : ℕ

-- `_mm_cmpgt_epi64(PR, x)`: a comparison of signed words, to which `x` from 2^63 on is negative.
abbrev pub pr_gt : ℕ → Bool
pr_gt x = if ltb x (2 ^ 63) then ltb x pr else true

unfoldable pub partial_mod_lane : ℕ → ℕ
partial_mod_lane x = sub64 x (if pr_gt x then 0 else pr)

unfoldable pub vec_partial_mod : Block → Block
vec_partial_mod b = record { low = partial_mod_lane b.low; high = partial_mod_lane b.high }

unfoldable pub mod_lane : ℕ → ℕ
unfolding partial_mod_lane
mod_lane x =
    let hi = shr64 x 59 in let r = sub64 (shl64 hi 28) hi in partial_mod_lane (add64 r (pr_mask x))

unfoldable pub vec_mod : Block → Block
vec_mod b = record { low = mod_lane b.low; high = mod_lane b.high }

-- From the high part `t1` of one lane's product (bits 59 and up) and its low word `e`.
unfoldable pub fold_lane : ℕ → ℕ → ℕ
unfolding partial_mod_lane
fold_lane t1 e =
    let t2 = shr64 t1 31 in
    let t3 = sub64 (shl64 t2 28) t2 in
    let t3' = partial_mod_lane (add64 t3 (pr_mask (shl64 t1 28))) in
    let t3'' = add64 (add64 t3' (pr_mask e)) (sub64 pr t1) in
    partial_mod_lane (partial_mod_lane t3'')

unfoldable pub mult_lane : ℕ → ℕ → ℕ
mult_lane c e = fold_lane (add64 (shl64 c 5) (shr64 e 59)) e

unfoldable pub vec_mult_mod : Mul64 → Block → ℕ → Block
vec_mult_mod m a b = record {
  low = mult_lane (m.high a.low b) (m.low a.low b);
  high = mult_lane (m.high a.high b) (m.low a.high b);
}

unfoldable pub vec_add_mod : Block → Block → Block
vec_add_mod a b = vec_partial_mod (record { low = add64 a.low b.low; high = add64 a.high b.high })

-- `FP59x2 - FP59x2`
unfoldable pub vec_sub_mod : Block → Block → Block
vec_sub_mod a b =
    vec_partial_mod
      (record { low = add64 a.low (sub64 pr b.low); high = add64 a.high (sub64 pr b.high) })

abbrev pub IsReduced : Block → Type 0
IsReduced b = (b.low < pr) × (b.high < pr)

mod_lane_lem : (x : ℕ) → x < 2 ^ 64 → mod_lane x ≡ mod_word x
unfolding mod_lane mod_word
mod_lane_lem x h = ground arith

pub add_lane_lem : (a b : ℕ) → a < pr → b < pr → partial_mod_lane (add64 a b) ≡ add_mod a b
unfolding partial_mod_lane add_mod
add_lane_lem a b ha hb = ground arith

pub sub_lane_lem :
    (a b : ℕ) → a < pr → b < pr → partial_mod_lane (add64 a (sub64 pr b)) ≡ sub_mod a b
unfolding partial_mod_lane sub_mod
sub_lane_lem a b ha hb = ground arith

fold_lane_lem : (n : ℕ) → n ≤ (pr - 1) * (pr - 1) → fold_lane (n / 2 ^ 59) (n % 2 ^ 64) ≡ n % pr
unfolding fold_lane
fold_lane_lem n h = ground arith

mult_lane_lem :
    (m : Mul64) (a b : ℕ) → a < pr → b < pr → mult_lane (m.high a b) (m.low a b) ≡ mult_mod m a b
unfolding mult_lane
mult_lane_lem m a b ha hb =
    rw
      (
        m.high_lem a b (omega arith) (omega arith),
        m.low_lem a b (omega arith) (omega arith),
        high_part (a * b) (omega (arith, product_bound a b ha hb)),
      )
      (fold_lane_lem (a * b) (product_bound a b ha hb) ∙ sym (mult_mod_lem m a b ha hb))

-- On blocks of residues the two-lane product with a residue, sum and difference are the scalar
-- ones, lane by lane.
pub lanes_lem :
    (m : Mul64) (a b : Block) (x : ℕ)
    → IsReduced a
    → IsReduced b
    → x < pr
    → (vec_mult_mod m a x ≡ record { low = mult_mod m a.low x; high = mult_mod m a.high x })
      × (vec_add_mod a b ≡ record { low = add_mod a.low b.low; high = add_mod a.high b.high })
      × (vec_sub_mod a b ≡ record { low = sub_mod a.low b.low; high = sub_mod a.high b.high })
unfolding vec_mult_mod vec_add_mod vec_sub_mod vec_partial_mod
lanes_lem m a b x ha hb hx = (
  ap₂ (λ l h. record { low = l; high = h }) (mult_lane_lem m a.low x ha.0 hx)
      (mult_lane_lem m a.high x ha.1 hx),
  ap₂ (λ l h. record { low = l; high = h }) (add_lane_lem a.low b.low ha.0 hb.0)
      (add_lane_lem a.high b.high ha.1 hb.1),
  ap₂ (λ l h. record { low = l; high = h }) (sub_lane_lem a.low b.low ha.0 hb.0)
      (sub_lane_lem a.high b.high ha.1 hb.1),
)

-- A block of any two 64-bit words is reduced, lane by lane, to the residues modulo p.
pub vec_mod_lem :
    (b : Block)
    → b.low < 2 ^ 64
    → b.high < 2 ^ 64
    → vec_mod b ≡ record { low = b.low % pr; high = b.high % pr }
unfolding vec_mod
vec_mod_lem b hl hh =
    ap₂ (λ l h. record { low = l; high = h }) (mod_lane_lem b.low hl ∙ mod_word_lem b.low hl)
      (mod_lane_lem b.high hh ∙ mod_word_lem b.high hh)
