-- ===== src/Arith/Exec/Ver.antt =====
-- The local gates of the verifier, `ZKFpExecVer` of zk_fp_exec_verifier.h: on the key, the value
-- lane stays 0.
use vole_zk.Common.{if◌then◌else◌}
use vole_zk.Field.{Field, ◌⊕◌, ◌⊗◌, ◌⊖◌}
use vole_zk.Arith.Wire.{Auth, auth_key_mul_const}

module _ {ℓ} {A : Type ℓ} ⦃f : Field A⦄ where
  unfoldable pub add_gate : Auth A → Auth A → Auth A
  add_gate a b = record { val = f.zero; mac = a.mac ⊕ b.mac }

  unfoldable pub sub_gate : Auth A → Auth A → Auth A
  sub_gate a b = record { val = f.zero; mac = a.mac ⊖ b.mac }

  unfoldable pub neg_gate : Auth A → Auth A
  neg_gate a = record { val = f.zero; mac = if f.beq a.mac f.zero then f.zero else f.neg a.mac }

  unfoldable pub mul_const_gate : Auth A → A → Auth A
  unfolding auth_key_mul_const
  mul_const_gate a b = auth_key_mul_const a b

  unfoldable pub pub_label : A → A → A → Auth A
  pub_label delta pub_mac a = record { val = f.zero; mac = f.neg (delta ⊗ a) ⊕ pub_mac }
