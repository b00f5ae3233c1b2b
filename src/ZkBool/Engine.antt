-- ===== src/ZkBool/Engine.antt =====
-- What both sides of the engine of emp-zk-bool share (`ZKBoolBase` of zk_bool_base.h): the state,
-- the constants, and the parties. The prover's operations are in Engine/Prv.antt, the verifier's
-- in Engine/Ver.antt.
pub mod Prv
pub mod Ver
pub mod Exact
pub mod Sync
use vole_zk.Common.{ℕ, ◌+◌, Bool, List, [], ◌∷◌}
use vole_zk.Field.{Field, ◌⊕◌}
use vole_zk.ZkBool.Block.{Blocks, clear_lsb}
use vole_zk.ZkBool.Outside.{InnerProduct, Packing}

-- The fields that change. The three buffers are arrays of `check_sz` slots. `cots` counts the
-- correlations drawn, `checks` the checks, each with a new seed, and `stored` is what `auth_hash`
-- was given, in order.
pub record Engine {ℓ} (A : Type ℓ) : Type ℓ where
  pub gid : ℕ
  pub check_cnt : ℕ
  pub cots : ℕ
  pub checks : ℕ
  pub left : ℕ → A
  pub right : ℕ → A
  pub out : ℕ → A
  pub stored : List A

-- CHECK_SZ, the number of workers, the coefficients `chi` (check, position), and the code of
-- emp-tool.
pub record Setup {ℓ} (A W : Type ℓ) ⦃f : Field A⦄ ⦃b : Blocks A⦄ : Type ℓ where
  pub check_sz : ℕ
  pub threads : ℕ
  pub chi : ℕ → ℕ → A
  pub inner : InnerProduct A W
  pub pack : Packing A

pub data Party : Type 0 where
  alice : Party
  bob : Party
  public : Party

module _ {ℓ} {A : Type ℓ} where
  -- The constructor, `junk` in the buffers.
  unfoldable pub start : A → Engine A
  start junk = record {
    gid = 0;
    check_cnt = 0;
    cots = 0;
    checks = 0;
    left = λ _. junk;
    right = λ _. junk;
    out = λ _. junk;
    stored = [];
  }

module _ {ℓ} {A : Type ℓ} ⦃f : Field A⦄ where
  unfoldable pub xor_block : A → A → A
  xor_block l r = l ⊕ r
