-- ===== src/Arith/Batch.antt =====
-- The batched entry points of ostriple.h at the prover: `n` inputs, or `n` independent
-- multiplications, in one call.
pub mod Laws
use vole_zk.Common.{
  ℕ, zero, suc, ◌+◌, ◌-◌, min, List, [], ◌∷◌, ◌++◌, length, update, Option, none, some,
}
use mathlib.Core.Option as Option
use vole_zk.Field.{Field, ◌⊗◌, ◌⊖◌}
use vole_zk.Arith.Wire.{Auth}
use vole_zk.Arith.Engine.{Engine, Setup, input_send, room_send, auth_compute_mul_send}

module _ {ℓ} {A : Type ℓ} where
  abbrev pub take : ℕ → List A → List A
  take zero xs = []
  take (suc n) [] = []
  take (suc n) (x ∷ xs) = x ∷ take n xs

  abbrev pub drop : ℕ → List A → List A
  drop zero xs = xs
  drop (suc n) [] = []
  drop (suc n) (x ∷ xs) = drop n xs

-- What a call gives: the state, the messages and the wires.
abbrev pub Outcome {ℓ} : Type ℓ → Type ℓ
Outcome A = Engine A × List A × List (Auth A)

abbrev pub before {ℓ} : {A : Type ℓ} → List A → List (Auth A) → Outcome A → Outcome A
before sent wires (s, sent', wires') = (s, sent ++ sent', wires ++ wires')

module _ {ℓ} {A : Type ℓ} ⦃f : Field A⦄ where
  -- The labels and the messages of a batch of inputs, `vole k` the first correlation drawn.
  unfoldable pub mask_inputs : (ℕ → Auth A) → ℕ → List A → List A × List (Auth A)
  mask_inputs vole k [] = ([], [])
  mask_inputs vole k (w ∷ ws) =
      let (lam, label) = mask_inputs vole (k + 1) ws in
      (((vole k).val ⊖ w) ∷ lam, record { val = w; mac = (vole k).mac } ∷ label)

  unfoldable pub inputs_send : (ℕ → Auth A) → Engine A → List A → Outcome A
  inputs_send vole s ws =
      let (lam, label) = mask_inputs vole s.drawn ws in
      (record s { drawn = s.drawn + length ws }, lam, label)

  -- `mul_block_send_`: the triples go to the slots from `base` on.
  unfoldable pub mul_block_send : Engine A → ℕ → List (Auth A × Auth A) → Outcome A
  mul_block_send s base [] = (s, [], [])
  mul_block_send s base ((ma, mb) ∷ gates) =
      let mac = s.out base in
      let d = ma.val ⊗ mb.val in
      let wire : Auth A = record { val = d; mac = mac.mac } in
      before ((mac.val ⊖ d) ∷ []) (wire ∷ []) (
        mul_block_send
          (record s {
            left = update s.left base ma;
            right = update s.right base mb;
            out = update s.out base wire;
          })
          (base + 1) gates)

  module _ (c : Setup A) (vole : ℕ → Auth A) where
    -- One call of the single-value function after the other.
    unfoldable pub each_input : Engine A → List A → Outcome A
    each_input s [] = (s, [], [])
    each_input s (w ∷ ws) =
        let (s', sent, wire) = input_send c vole s w in before sent (wire ∷ []) (each_input s' ws)

    -- The loop of the vectorized `auth_compute_mul_send`, on fuel.
    unfoldable pub mul_vector_send : ℕ → Engine A → List (Auth A × Auth A) → Option (Outcome A)
    mul_vector_send zero s gates = none
    mul_vector_send (suc fuel) s [] = some (s, [], [])
    mul_vector_send (suc fuel) s (gate ∷ gates) =
        let (s', checked) = room_send c vole s in
        let size = min (c.check_sz - s'.check_cnt) (length (gate ∷ gates)) in
        let (s'', sent, wires) = mul_block_send s' s'.check_cnt (take size (gate ∷ gates)) in
        let s''' = record s'' { check_cnt = s'.check_cnt + size } in
        Option.map (before (checked ++ sent) wires)
          (mul_vector_send fuel s''' (drop size (gate ∷ gates)))

    unfoldable pub each_mul : Engine A → List (Auth A × Auth A) → Outcome A
    each_mul s [] = (s, [], [])
    each_mul s ((ma, mb) ∷ gates) =
        let (s', sent, wire) = auth_compute_mul_send c vole s ma mb in
        before sent (wire ∷ []) (each_mul s' gates)
