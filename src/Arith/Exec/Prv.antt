-- ===== src/Arith/Exec/Prv.antt =====
-- The local gates of the prover, `ZKFpExecPrv` of zk_fp_exec_prover.h: on both lanes.
use vole_zk.Field.{Field, ◌⊕◌, ◌⊖◌}
use vole_zk.Arith.Wire.{Auth, auth_mac_mul_const}

module _ {ℓ} {A : Type ℓ} ⦃f : Field A⦄ where
  unfoldable pub add_gate : Auth A → Auth A → Auth A
  add_gate a b = record { val = a.val ⊕ b.val; mac = a.mac ⊕ b.mac }

  unfoldable pub sub_gate : Auth A → Auth A → Auth A
  sub_gate a b = record { val = a.val ⊖ b.val; mac = a.mac ⊖ b.mac }

  unfoldable pub neg_gate : Auth A → Auth A
  neg_gate a = record { val = f.neg a.val; mac = f.neg a.mac }

  unfoldable pub mul_const_gate : Auth A → A → Auth A
  unfolding auth_mac_mul_const
  mul_const_gate a b = auth_mac_mul_const a b

  unfoldable pub pub_label : A → A → Auth A
  pub_label pub_mac a = record { val = a; mac = pub_mac }
