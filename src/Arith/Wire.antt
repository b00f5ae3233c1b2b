-- ===== src/Arith/Wire.antt =====
-- The authenticated values of emp-zk-arith, and the IT-MAC helpers of ostriple.h, which send
-- nothing.
pub mod Laws
use vole_zk.Common.{◌≡◌}
use vole_zk.Field.{Field, ◌⊕◌, ◌⊗◌, ◌⊖◌}

-- The two lanes of `__uint128_t`: the value (0 at the verifier) and the MAC (the key there).
pub record Auth {ℓ} (A : Type ℓ) : Type ℓ where
  pub val : A
  pub mac : A

module _ {ℓ} {A : Type ℓ} ⦃f : Field A⦄ where
  -- What the two parties hold of one value `v`: MAC = v Δ + key.
  pub record Matches (delta : A) (a k : Auth A) : Type ℓ where
    pub linked : a.mac ≡ a.val ⊗ delta ⊕ k.mac
    pub keyed : k.val ≡ f.zero

  -- prover: [a] + [b]
  unfoldable pub auth_mac_add : Auth A → Auth A → Auth A
  auth_mac_add a b = record { val = a.val ⊕ b.val; mac = a.mac ⊕ b.mac }

  -- prover: [a] + c
  unfoldable pub auth_mac_add_const : Auth A → A → Auth A
  auth_mac_add_const a c = record { val = a.val ⊕ c; mac = a.mac ⊕ f.zero }

  -- prover: [a] - [b]
  unfoldable pub auth_mac_subtract : Auth A → Auth A → Auth A
  auth_mac_subtract a b = record { val = a.val ⊖ b.val; mac = a.mac ⊖ b.mac }

  -- prover: c [a]
  unfoldable pub auth_mac_mul_const : Auth A → A → Auth A
  auth_mac_mul_const a c = record { val = a.val ⊗ c; mac = a.mac ⊗ c }

  unfoldable pub auth_key_add : Auth A → Auth A → Auth A
  auth_key_add a b = record { val = f.zero; mac = a.mac ⊕ b.mac }

  unfoldable pub auth_key_add_const : A → Auth A → A → Auth A
  auth_key_add_const delta a c = record { val = f.zero; mac = a.mac ⊖ c ⊗ delta }

  unfoldable pub auth_key_subtract : Auth A → Auth A → Auth A
  auth_key_subtract a b = record { val = f.zero; mac = a.mac ⊖ b.mac }

  unfoldable pub auth_key_mul_const : Auth A → A → Auth A
  auth_key_mul_const a c = record { val = f.zero; mac = a.mac ⊗ c }

  -- The sacrificed triple `(t0, t1, t2)`: t2 - z + t0 σ + t1 ε + ε σ.
  unfoldable pub compute_mu_prv_opt : (la lb : A) (eta_wr t0 t1 t2 : Auth A) → Auth A
  compute_mu_prv_opt la lb eta_wr t0 t1 t2 =
      let tmp1 = auth_mac_subtract t2 eta_wr in
      let tmp2 = auth_mac_mul_const t0 lb in
      let tmp3 = auth_mac_mul_const t1 la in
      let tmp4 = la ⊗ lb in auth_mac_add_const (auth_mac_add (auth_mac_add tmp1 tmp2) tmp3) tmp4

  unfoldable pub compute_mu_vrf_opt : (delta la lb : A) (eta_wr t0 t1 t2 : Auth A) → Auth A
  compute_mu_vrf_opt delta la lb eta_wr t0 t1 t2 =
      let tmp1 = auth_key_subtract t2 eta_wr in
      let tmp2 = auth_key_mul_const t0 lb in
      let tmp3 = auth_key_mul_const t1 la in
      let tmp4 = la ⊗ lb in
      auth_key_add_const delta (auth_key_add (auth_key_add tmp1 tmp2) tmp3) tmp4
