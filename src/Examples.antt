-- ===== src/Examples.antt =====
-- Concrete parameters for the tests: the field of two elements, one stream of correlations, and
-- the 128-bit product.
mod Engine
mod Words
mod Threads
mod Verifiers
mod Bits
mod Statements
mod Elements
mod Lists
use vole_zk.Common.{
  ℕ, ◌+◌, ◌*◌, ◌/◌, ◌%◌, ◌^◌, ◌==◌, ==_iff, Bool, true, false, ◌≡◌, ◌↔◌, refl, sym, arith,
}
use vole_zk.Common.{xor, xor_assoc, xor_comm, xor-false, xor_self}
use vole_zk.Field.{Field, ◌⊕◌, ◌⊗◌}
use vole_zk.Fp59.{Mul64}
use vole_zk.Arith.Wire.{Auth, Matches}
use vole_zk.Arith.Engine.{Setup}

abbrev pub both : Bool → Bool → Bool
both true b = b
both false b = false

abbrev pub same_bit : Bool → Bool → Bool
same_bit true b = b
same_bit false true = false
same_bit false false = true

pub both-xor : (a b c : Bool) → both a (xor b c) ≡ xor (both a b) (both a c)
both-xor true b c = refl
both-xor false b c = refl

pub both_assoc : (a b c : Bool) → both (both a b) c ≡ both a (both b c)
both_assoc true b c = refl
both_assoc false b c = refl

pub both_comm : (a b : Bool) → both a b ≡ both b a
both_comm true true = refl
both_comm true false = refl
both_comm false true = refl
both_comm false false = refl

pub both-true : (a : Bool) → both a true ≡ a
both-true true = refl
both-true false = refl

pub same_bit_iff : (a b : Bool) → (same_bit a b ≡ true) ↔ (a ≡ b)
same_bit_iff true b = (sym, sym)
same_bit_iff false true = (λ e. absurd (ground arith), λ e. absurd (ground arith))
same_bit_iff false false = (λ _. refl, λ _. refl)

instance abbrev pub bits : Field Bool
bits = record {
  zero = false;
  one = true;
  add = xor;
  mul = both;
  neg = λ a. a;
  beq = same_bit;
  add_assoc = xor_assoc;
  add_comm = xor_comm;
  add-zero = xor-false;
  add-neg = xor_self;
  mul_assoc = both_assoc;
  mul_comm = both_comm;
  mul-one = both-true;
  mul-add = both-xor;
  beq_iff = same_bit_iff;
}

-- The prover has the value 1 and the MAC 0, the verifier the key 1; Δ is 1.
abbrev pub va : ℕ → Auth Bool
va i = record { val = true; mac = false }

abbrev pub vb : ℕ → Auth Bool
vb i = record { val = false; mac = true }

pub va-Matches : (i : ℕ) → Matches true (va i) (vb i)
unfolding ◌⊕◌ ◌⊗◌
va-Matches i = record { linked = refl; keyed = refl }

-- Buffers of two gates, checked by two workers.
abbrev pub small : Setup Bool
small = record { check_sz = 2; threads = 2; chi = λ _ _ _. true }

pub ==_self : (x : ℕ) → (x == x) ≡ true
==_self x = (==_iff x x).1 refl

abbrev pub wide : Mul64
wide = record {
  low = λ a b. a * b % 2 ^ 64;
  high = λ a b. a * b / 2 ^ 64;
  low_lem = λ a b _ _. refl;
  high_lem = λ a b _ _. refl;
}
