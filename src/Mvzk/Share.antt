-- ===== src/Mvzk/Share.antt =====
-- The authenticated shares of mvzk/zk/utils.h, and what verifier `id` computes on its own: the
-- shares of public values and of linear expressions (mvzk/int_fp.h), and those of values that the
-- prover broadcasts (mvzk/zk/prover.h, mvzk/zk/verifier.h).
pub mod Laws
use vole_zk.Common.{ℕ, ◌==◌, if◌then◌else◌, List, [], ◌∷◌, ◌≡◌}
use vole_zk.Field.{Field, ◌⊕◌, ◌⊗◌, ◌⊖◌}
use vole_zk.Field.Sum.{sum_to}

pub record AuthShare {ℓ} (A : Type ℓ) : Type ℓ where
  pub mac : A
  pub key : A
  pub share : A

module _ {ℓ} {A : Type ℓ} ⦃f : Field A⦄ where
  -- The `n` shares are those of `v`: their sum is `v`, and the MACs sum to the keys and Δ v.
  pub record Opens (n : ℕ) (delta : ℕ → A) (s : ℕ → AuthShare A) (v : A) : Type ℓ where
    pub value : sum_to (λ i. (s i).share) n ≡ v
    pub linked : sum_to (λ i. (s i).mac) n ≡ sum_to (λ i. (s i).key) n ⊕ sum_to delta n ⊗ v

  unfoldable pub pub_share : ℕ → A → A → AuthShare A
  pub_share id delta c = record {
    share = if id == 0 then c else f.zero;
    mac = f.zero;
    key = f.neg (c ⊗ delta);
  }

  -- The loop of `evalLinear`; its terms are added in order.
  unfoldable pub add_terms : AuthShare A → List (A × AuthShare A) → AuthShare A
  add_terms acc [] = acc
  add_terms acc ((k, s) ∷ terms) =
      add_terms
        (record {
          share = acc.share ⊕ k ⊗ s.share;
          mac = acc.mac ⊕ k ⊗ s.mac;
          key = acc.key ⊕ k ⊗ s.key;
        })
        terms

  unfoldable pub eval_linear : ℕ → A → List (A × AuthShare A) → A → AuthShare A
  eval_linear id delta terms c = add_terms (pub_share id delta c) terms

  -- The prover's side of `linear`.
  unfoldable pub linear_value : A → List (A × A) → A
  linear_value acc [] = acc
  linear_value acc ((k, v) ∷ terms) = linear_value (acc ⊕ k ⊗ v) terms

  -- One value of `genAddSharesDiff`, and of `genAddSharesFromDiff` on the preprocessed share.
  unfoldable pub add_shares_diff : A → A → A
  add_shares_diff val pre = val ⊖ pre

  unfoldable pub add_share_from_diff : ℕ → A → AuthShare A → A → AuthShare A
  add_share_from_diff id delta pre diff = record {
    share = if id == 0 then diff ⊕ pre.share else pre.share;
    key = pre.key ⊖ diff ⊗ delta;
    mac = pre.mac;
  }
