-- ===== src/Fp59/Inverse.antt =====
-- `mod_inv` of fp59.h: the extended Euclidean algorithm on signed words.
pub mod Laws
pub mod Words
use vole_zk.Common.{ℕ, zero, suc, ◌+◌, ◌-◌, ◌*◌, ◌/◌, Option, none, some, ◌==◌, if◌then◌else◌}
use vole_zk.Common.Int.{ℤ, pos, negsuc, pos_part, neg_part, sub_ℕ, ◌-ℤ◌, scale}
use vole_zk.Fp59.{pr}

-- `k` and `new_k` take both signs; `r` and `new_r` do not, since `r - q * new_r` is a remainder.
pub record Euclid : Type 0 where
  pub k : ℤ
  pub new_k : ℤ
  pub r : ℕ
  pub new_r : ℕ

unfoldable pub euclid_step : Euclid → Euclid
unfolding ◌-ℤ◌ scale
euclid_step s =
    let q = s.r / s.new_r in
    record { k = s.new_k; new_k = s.k -ℤ scale q s.new_k; r = s.new_r; new_r = s.r - q * s.new_r }

-- `while (new_r != 0)`, with fuel.
unfoldable pub euclid : ℕ → Euclid → Option Euclid
euclid zero s = none
euclid (suc fuel) s =
    let rest = euclid fuel (euclid_step s) in if s.new_r == 0 then some s else rest

unfoldable pub euclid_start : ℕ → Euclid
euclid_start a = record { k = pos 0; new_k = pos 1; r = pr; new_r = a }

-- `if (k < 0) k += PR;`
unfoldable pub lift_negative : ℤ → ℕ
lift_negative (pos n) = n
lift_negative (negsuc n) = pr - suc n

abbrev pub result : Option Euclid → Option ℕ
result none = none
result (some s) = some (lift_negative s.k)

-- `none` is the call at zero, which ends the program by `error`. As the remainders fall below `a`
-- at once, `a + 1` rounds are enough.
unfoldable pub mod_inv : ℕ → Option ℕ
mod_inv a = if a == 0 then none else result (euclid (suc a) (euclid_start a))
