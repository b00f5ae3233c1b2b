-- ===== src/Fp59/Sample.antt =====
-- Uniform residues by rejection: `sample`, `sample_many` and `from_digest` of fp59.h. The random
-- words and the hash are parameters.
use vole_zk.Common.{
  ℕ, zero, suc, ◌+◌, ◌≤◌, ◌<◌, leb, ltb, le→leb, ap, ap₂, ◌∙◌, sym, if◌then◌else◌, Option, none,
  some, ◌≡◌, arith,
}
use vole_zk.Fp59.{pr, pr_mask}

-- `sample`: `words i` is the i-th word that the generator gives from here on. The result comes
-- with the number of words taken; `none` means that the fuel ran out.
unfoldable pub sample : ℕ → (ℕ → ℕ) → ℕ → Option (ℕ × ℕ)
sample zero words i = none
sample (suc fuel) words i =
    let raw = pr_mask (words i) in
    let retry = sample fuel words (i + 1) in if leb pr raw then retry else some (raw, i + 1)

-- `from_digest`, on a digest whose low word is `low`; a rejected digest is hashed again.
module _ {ℓ} {D : Type ℓ} (low : D → ℕ) (hash_once : D → D) where
  unfoldable pub from_digest : ℕ → D → Option (ℕ × D)
  from_digest zero dig = none
  from_digest (suc fuel) dig =
      let r = pr_mask (low dig) in
      let again = from_digest fuel (hash_once dig) in if ltb r pr then some (r, dig) else again

plus_zero : (i : ℕ) → i + 0 ≡ i
plus_zero i = omega arith

bump : (i n : ℕ) → i + 1 + n + 1 ≡ i + suc n + 1
bump i n = omega arith

-- If the words `i`, ..., `i + n - 1`, masked to 59 bits, are p or more, and the one after them is
-- not, this one is the sample and `i + n + 1` words are taken, on any fuel greater than `n`.
pub sample_lem :
    (fuel : ℕ) (words : ℕ → ℕ) (i n : ℕ)
    → n < fuel
    → ((j : ℕ) → j < n → pr ≤ pr_mask (words (i + j)))
    → pr_mask (words (i + n)) < pr
    → sample fuel words i ≡ some (pr_mask (words (i + n)), i + n + 1)
unfolding sample
sample_lem zero words i n h bad good = absurd (omega arith)
sample_lem (suc fuel) words i zero h bad good = ground arith
sample_lem (suc fuel) words i (suc n) h bad good =
    let shift : (j : ℕ) → words (i + 1 + j) ≡ words (i + suc j) = λ j. ap words (omega arith) in
    let hit =
      sample_lem fuel words (i + 1) n (omega arith)
        (λ j p. rw (shift j) (bad (suc j) (omega arith))) (rw (shift n) good) in
    rw (le→leb pr (pr_mask (words i)) (rw (ap words (sym (plus_zero i))) (bad 0 (omega arith))))
      (hit ∙ ap₂ (λ v k. some (pr_mask v, k)) (shift n) (bump i n))
