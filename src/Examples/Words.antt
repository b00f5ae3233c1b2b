-- ===== src/Examples/Words.antt =====
-- fp59.h at concrete words.
use mathlib.Core.List.{[], ◌∷◌}
use vole_zk.Common.{ℕ, zero, suc, ◌+◌, ◌*◌, ◌%◌, ◌<◌, some, ◌≡◌, refl, arith}
use vole_zk.Fp59.{pr, mod_word, add_mod, sub_mod, mult_mod}
use vole_zk.Fp59.Product.{mult_mod_lem}
use vole_zk.Fp59.Inverse.{mod_inv}
use vole_zk.Fp59.Inverse.Laws.{mod_inv_lem}
use vole_zk.Fp59.Lanes.{Block, vec_mult_mod, vec_add_mod, vec_sub_mod, lanes_lem}
use vole_zk.Fp59.Pair.{add_all_raw, total, lazy_sum_lem}
use vole_zk.Examples.{wide}

mult_mod_lem_example :
    mult_mod wide 576460752034988032 576460752034988031
    ≡ 576460752034988032 * 576460752034988031 % pr
mult_mod_lem_example =
    mult_mod_lem wide 576460752034988032 576460752034988031 (omega arith) (omega arith)

-- 2 has no divisor but 1 in common with p.
odd : (g u v : ℕ) → 2 ≡ u * g → pr ≡ v * g → g ≡ 1
odd zero u v e e' = absurd (omega arith)
odd (suc zero) u v e e' = refl
odd (suc (suc zero)) u v e e' = absurd (omega arith)
odd (suc (suc (suc g))) zero v e e' = absurd (omega arith)
odd (suc (suc (suc g))) (suc u) v e e' = absurd (grind arith)

mod_inv_lem_example : (b : ℕ) × (mod_inv 2 ≡ some b) × (b < pr) × (b * 2 % pr ≡ 1)
mod_inv_lem_example = mod_inv_lem 2 (omega arith) (omega arith) odd

abbrev pair : Block
pair = record { low = 5; high = 576460752034988032 }

lanes_lem_example :
    (vec_mult_mod wide pair 11
      ≡ record { low = mult_mod wide 5 11; high = mult_mod wide 576460752034988032 11 })
    × (vec_add_mod pair pair
        ≡ record { low = add_mod 5 5; high = add_mod 576460752034988032 576460752034988032 })
    × (vec_sub_mod pair pair
        ≡ record { low = sub_mod 5 5; high = sub_mod 576460752034988032 576460752034988032 })
lanes_lem_example =
    lanes_lem wide pair pair 11 (omega arith, omega arith) (omega arith, omega arith) (omega arith)

lazy_sum_lem_example :
    mod_word (add_all_raw 1 (576460752034988032 ∷ 576460752034988032 ∷ []))
    ≡ (1 + total (576460752034988032 ∷ 576460752034988032 ∷ [])) % pr
lazy_sum_lem_example =
    lazy_sum_lem 1 (576460752034988032 ∷ 576460752034988032 ∷ []) (omega arith)
      (omega arith, (omega arith, tt)) (omega arith)
