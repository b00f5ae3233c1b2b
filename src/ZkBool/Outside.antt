-- ===== src/ZkBool/Outside.antt =====
-- What emp-zk-bool takes from emp-tool: the inner product before and after reduction, and the
-- packing of 128 blocks into one.
use vole_zk.Common.{ℕ, zero, suc, ◌+◌, ◌*◌, ◌^◌, ◌<◌, Bool, bit_value, ◌≡◌}
use vole_zk.Field.{Field, ◌⊕◌, ◌⊗◌}
use vole_zk.Field.Sum.{sum_to}
use vole_zk.ZkBool.Block.{Blocks, select}

-- `W` holds the 256 bits of an unreduced product: `vector_inn_prdt_sum_no_red`, the XOR of such
-- values, and `reduce`, which is linear.
pub record InnerProduct {ℓ} (A W : Type ℓ) ⦃f : Field A⦄ : Type ℓ where
  pub nothing : W
  pub combine : W → W → W
  pub no_red : (ℕ → A) → (ℕ → A) → ℕ → W
  pub reduce : W → A
  pub reduce_nothing : reduce nothing ≡ f.zero
  pub reduce-combine : (x y : W) → reduce (combine x y) ≡ reduce x ⊕ reduce y
  pub reduce-no_red :
      (chi g : ℕ → A) (n : ℕ) → reduce (no_red chi g n) ≡ sum_to (λ i. g i ⊗ chi i) n

-- The number whose bits from the last one on are `x 0`, `x 1`, ...
unfoldable pub word_of : (ℕ → Bool) → ℕ → ℕ
word_of x zero = 0
word_of x (suc n) = word_of x n + bit_value (x n) * 2 ^ n

-- `GaloisFieldPacking::packing` is the sum of the `g i` X^i over i < 128, and `makeBlock(high, low)`
-- the block with these bits.
pub record Packing {ℓ} (A : Type ℓ) ⦃f : Field A⦄ ⦃b : Blocks A⦄ : Type ℓ where
  pub packing : (ℕ → A) → A
  pub make_block : ℕ → ℕ → A
  pub packing_reads : (g h : ℕ → A) → ((i : ℕ) → i < 128 → g i ≡ h i) → packing g ≡ packing h
  pub packing-add : (g h : ℕ → A) → packing (λ i. g i ⊕ h i) ≡ packing g ⊕ packing h
  pub packing_bits :
      (x : ℕ → Bool) (d : A)
      → packing (λ i. select (x i) d) ≡ make_block (word_of (λ i. x (64 + i)) 64) (word_of x 64) ⊗ d
