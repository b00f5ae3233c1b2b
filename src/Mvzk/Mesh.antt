-- ===== src/Mvzk/Mesh.antt =====
-- mvzk/mesh.h: what verifier `id` of `n` makes of the messages of the others, `got j` that of `j`.
pub mod Zero
use vole_zk.Common.{ℕ, zero, suc, ◌+◌, ◌-◌, ◌%◌, Bool, true, ◌==◌, ◌&&◌, if◌then◌else◌}
use vole_zk.Field.{Field, ◌⊕◌}
use vole_zk.Arith.Engine.{Result, done, abort}

-- `for (j = 0; j < n; ++j) { if (j == id) continue; acc = acc + g(j); }`
module _ {ℓ} {A : Type ℓ} ⦃f : Field A⦄ (id : ℕ) where
  unfoldable pub add_others : A → (ℕ → A) → ℕ → A
  add_others acc g zero = acc
  add_others acc g (suc n) = let rest = add_others acc g n in if n == id then rest else rest ⊕ g n

  -- `own` of `zero_shares`, and the share of the sum: the deals of the others come in the order
  -- of the ring, downwards from `id`.
  unfoldable pub own_share : (ℕ → A) → ℕ → A
  own_share deal n = f.neg (add_others f.zero deal n)

  unfoldable pub add_ring : A → (ℕ → A) → ℕ → ℕ → A
  add_ring acc g n zero = acc
  add_ring acc g n (suc k) = add_ring acc g n k ⊕ g ((id + n - 1 - k) % n)

  unfoldable pub zero_shares : (ℕ → ℕ → A) → ℕ → A
  zero_shares deal n = add_ring (own_share (deal id) n) (λ j. deal j id) n (n - 1)

-- Every message but one's own passes a test.
unfoldable pub all_others : ℕ → (ℕ → Bool) → ℕ → Bool
all_others id p zero = true
all_others id p (suc n) = let rest = all_others id p n in if n == id then rest else rest && p n

unfoldable pub echo_check {ℓ} : {D : Type ℓ} → (D → D → Bool) → ℕ → ℕ → D → (ℕ → D) → Result D
echo_check same id n digest got =
    if all_others id (λ j. same (got j) digest) n then done digest else abort
