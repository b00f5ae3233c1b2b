-- ===== src/ZkBool/Prdt/Push.antt =====
-- `polyPrdtN` of the two parties in lockstep.
use vole_zk.Common.{
  ℕ, suc, ◌+◌, ◌≤◌, ◌<◌, leb, ◌==◌, if◌then◌else◌, Bool, Bool-cases, true, false, List, ◌++◌, ◌≡◌,
  inl, inr, refl, sym, ap, ◌∙◌, arith, update,
}
use vole_zk.Field.{Field, ◌⊕◌, ◌⊗◌}
use vole_zk.Field.Laws.{add-zero, zero-mul, mul-zero}
use vole_zk.Field.Sum.{sum_to_congr, sum_to_zeros}
use vole_zk.Arith.Engine.{Result, done}
use vole_zk.Arith.Poly.Check.{nonempty}
use vole_zk.ZkBool.Block.{Blocks}
use vole_zk.ZkBool.Check.{Message}
use vole_zk.ZkBool.Prdt.{
  RamPolyPrdt, PrdtSetup, f2k_mul_v, prdt_coeffs, prdt_value, prdt_check_send, prdt_check_recv,
  poly_prdt_send, poly_prdt_recv,
}
use vole_zk.ZkBool.Prdt.Coeffs.{at_delta, power}
use vole_zk.ZkBool.Prdt.Row.{prdt_coeffs_lem}
use vole_zk.ZkBool.Prdt.Check.{SamePrdts, all_shifted, prdt_check_exact}

module _ {ℓ} {A : Type ℓ} ⦃f : Field A⦄ ⦃b : Blocks A⦄ (c : PrdtSetup A) (d : A) where
  -- Both sides hold the same products, each of them right.
  abbrev pub Honest : RamPolyPrdt A → RamPolyPrdt A → Type ℓ
  Honest s t = SamePrdts d (λ _. f.zero) s t

  prdt_check_complete :
      {s t : RamPolyPrdt A} (rest : List (Message A))
      → Honest s t
      → 0 < s.num
      → prdt_check_recv c d t ((prdt_check_send c s).1 ++ rest)
        ≡ done (record t { num = 0; checks = t.checks + 1 }, rest)
  prdt_check_complete {s} {t} rest y some =
      ap (λ q. prdt_check_recv c d t (q ++ rest)) (sym honest)
      ∙ (prdt_check_exact c d (λ _. f.zero) y (λ _. f.zero) rest some).0.1 (
          sum_to_congr _ _ 5 (λ j _. zero-mul (power d j))
          ∙ sum_to_zeros 5
          ∙ sym (sum_to_congr _ _ s.num (λ i _. mul-zero (c.chi s.checks i)) ∙ sum_to_zeros s.num))
    where
      honest : all_shifted (λ _. f.zero) (prdt_check_send c s).1 ≡ (prdt_check_send c s).1
      honest = unfold prdt_check_send in rw (nonempty s.num some) (simp (add-zero))

  -- The verifier takes the messages, and both sides hold right products again.
  pub record Held (sent : RamPolyPrdt A × List (Message A))
      (answer : List (Message A) → Result (RamPolyPrdt A × List (Message A))) : Type ℓ where
    pub proof : RamPolyPrdt A
    pub accepted : (rest : List (Message A)) → answer (sent.1 ++ rest) ≡ done (proof, rest)
    pub honest : Honest sent.0 proof

  checked_lem :
      {s t : RamPolyPrdt A}
      → Honest s t
      → 0 < s.num
      → Honest (prdt_check_send c s).0 (record t { num = 0; checks = t.checks + 1 })
  unfolding prdt_check_send
  checked_lem {s} {t} y some =
      rw (nonempty s.num some)
        (record { num = refl; seed = ap (λ n. n + 1) y.seed; row = λ i lt. absurd (omega arith) })

  added_lem :
      {s t : RamPolyPrdt A} (g : ℕ → A) (v : A)
      → Honest s t
      → at_delta d g 5 ≡ v
      → Honest
          (record s { buffer = λ j. update (s.buffer j) s.num (g j); num = s.num + 1 })
          (record t {
            buffer = λ j. if j == 0 then update (t.buffer 0) t.num v else t.buffer j;
            num = t.num + 1;
          })
  added_lem {s} {t} g v y e = record { num = ap (λ n. n + 1) y.num; seed = y.seed; row = rows }
    where
      rows :
          (i : ℕ)
          → i < s.num + 1
          → at_delta d (λ j. update (s.buffer j) s.num (g j) i) 5
            ≡ update (t.buffer 0) t.num v i ⊕ f.zero
      rows i lt = elim (Bool-cases (i == s.num)) [
        | inl at ↦ rw (← y.num, at) (e ∙ sym (add-zero v))
        | inr other ↦ rw (← y.num, other) (y.row i (ground arith))
      ]

  -- With a buffer of a slot or more and right products in it: for 3 to 5 factors whose MACs match
  -- the keys, and a wire of the product of their values, the call goes through, after the check of
  -- a full buffer. The verifier takes the messages, and both sides hold right products again.
  pub poly_prdt_lem :
      (s t : RamPolyPrdt A) (x m k : ℕ → A) (r : ℕ) (m_last k_last : A)
      → 0 < c.buffer_sz
      → Honest s t
      → r ≤ 2
      → ((i : ℕ) → i < suc (suc (suc r)) → m i ≡ x i ⊗ d ⊕ k i)
      → m_last ≡ f2k_mul_v x (suc (suc r)) ⊗ d ⊕ k_last
      → Held
          (poly_prdt_send c (suc (suc (suc r))) x m m_last s)
          (poly_prdt_recv c d (suc (suc (suc r))) k k_last t)
  unfolding poly_prdt_send poly_prdt_recv
  poly_prdt_lem s t x m k r m_last k_last pos y le linked last =
      elim (Bool-cases (leb c.buffer_sz s.num)) [
        | inl full ↦ rw full (record {
          proof = _;
          accepted = λ rest. rw (other_side true full, prdt_check_complete rest y (some full)) refl;
          honest = added_lem _ _ (checked_lem y (some full)) balanced;
        })
        | inr free ↦ rw free (record {
          proof = _;
          accepted = λ rest. rw (other_side false free) refl;
          honest = added_lem _ _ y balanced;
        })
      ]
    where
      some : leb c.buffer_sz s.num ≡ true → 0 < s.num
      some full = ground (arith, pos)

      other_side : (w : Bool) → leb c.buffer_sz s.num ≡ w → leb c.buffer_sz t.num ≡ w
      other_side w e = rw (← y.num) e

      balanced :
          at_delta d (prdt_coeffs (suc (suc (suc r))) x m m_last) 5
          ≡ prdt_value d (suc (suc (suc r))) k k_last
      balanced =
          prdt_coeffs_lem d x m k r m_last k_last (f2k_mul_v x (suc (suc r))) le linked last
          ∙ ap (λ q. prdt_value d (suc (suc (suc r))) k k_last ⊕ q)
              (ap (λ q. q ⊗ power d (suc (suc (suc r)))) (b.add_self _) ∙ zero-mul _)
          ∙ add-zero _
