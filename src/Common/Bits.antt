-- ===== src/Common/Bits.antt =====
-- Bits: exclusive or, and bits as numbers.
use Prim.Native.Nat.{ℕ}
use mathlib.Core.Path.{◌≡◌, refl}
use mathlib.Core.Bool.{Bool, true, false}

abbrev pub xor : Bool → Bool → Bool
xor true true = false
xor true false = true
xor false b = b

pub xor_assoc : (a b c : Bool) → xor (xor a b) c ≡ xor a (xor b c)
xor_assoc true true true = refl
xor_assoc true true false = refl
xor_assoc true false c = refl
xor_assoc false b c = refl

pub xor_comm : (a b : Bool) → xor a b ≡ xor b a
xor_comm true true = refl
xor_comm true false = refl
xor_comm false true = refl
xor_comm false false = refl

pub xor-false : (a : Bool) → xor a false ≡ a
xor-false true = refl
xor-false false = refl

pub xor_self : (a : Bool) → xor a a ≡ false
xor_self true = refl
xor_self false = refl

abbrev pub bit_value : Bool → ℕ
bit_value true = 1
bit_value false = 0
