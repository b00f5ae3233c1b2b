-- ===== src/ZkBool/Poly.antt =====
-- `PolyProof` of emp-zk-bool/polynomial.h: statements on authenticated bits, sums of products that
-- are to be zero, put into a buffer and checked together.
pub mod Sum
pub mod Row
pub mod Check
pub mod Push
use vole_zk.Common.{
  ℕ, zero, suc, ◌+◌, ltb, leb, ◌==◌, ◌||◌, if◌then◌else◌, Bool, List, [], ◌∷◌, update, ◌≡◌,
}
use vole_zk.Field.{Field, ◌⊕◌, ◌⊗◌}
use vole_zk.Field.Sum.{sum_to}
use vole_zk.Arith.Engine.{Result, done, abort, ◌>>=◌, slice_start, slice_size}
use vole_zk.ZkBool.Block.{Blocks, get_lsb, select}
use vole_zk.ZkBool.Outside.{Packing}
use vole_zk.ZkBool.Check.{Message, block, recv_block, gather_bits}

-- `cots` counts the correlations of the engine that it has drawn, `checks` the checks; the seed of
-- each comes from the verifier. The verifier has no `buffer1`.
pub record PolyProof {ℓ} (A : Type ℓ) : Type ℓ where
  pub num : ℕ
  pub buffer : ℕ → A
  pub buffer1 : ℕ → A
  pub cots : ℕ
  pub checks : ℕ

-- `red` is `vector_inn_prdt_sum_red` of emp-tool; `chi` gives the coefficients that
-- `uni_hash_coeff_gen` makes from the seed of each check.
pub record PolySetup {ℓ} (A : Type ℓ) ⦃f : Field A⦄ ⦃b : Blocks A⦄ : Type ℓ where
  pub buffer_sz : ℕ
  pub threads : ℕ
  pub chi : ℕ → ℕ → A
  pub red : (ℕ → A) → (ℕ → A) → ℕ → A
  pub red_lem : (x y : ℕ → A) (n : ℕ) → red x y n ≡ sum_to (λ i. x i ⊗ y i) n
  pub pack : Packing A

abbrev pub k_par_min : ℕ
k_par_min = 4096

-- Work of `n` items is not split.
abbrev pub serial : ℕ → ℕ → Bool
serial threads n = leb threads 1 || ltb n k_par_min

-- `for (i = start; i < start + n; ++i) step(i, acc)`
unfoldable pub accum {κ} : {S : Type κ} → (ℕ → S → S) → ℕ → ℕ → S → S
accum step start zero acc = acc
accum step start (suc n) acc = step (n + start) (accum step start n acc)

module _ {ℓ} {A : Type ℓ} ⦃f : Field A⦄ where
  -- `par_accum_`: each worker starts from zeros, and the parts are added to `out`.
  unfoldable pub par_accum : ℕ → ℕ → (ℕ → A × A → A × A) → A × A → A × A
  unfolding accum
  par_accum threads n step out =
      let part = λ (t : ℕ).
        accum {S = A × A} step (slice_start threads n t) (slice_size threads n t)
          (f.zero, f.zero) in
      let merge : ℕ → A × A → A × A = λ t acc. (acc.0 ⊕ (part t).0, acc.1 ⊕ (part t).1) in
      if serial threads n then accum step 0 n out else accum merge 0 threads out

module _ {ℓ} {A : Type ℓ} ⦃f : Field A⦄ ⦃b : Blocks A⦄ where
  unfoldable pub accumulate_alice : A → A → A × A → A × A
  accumulate_alice x y (a0, a1) =
      (a0 ⊕ x ⊗ y, (a1 ⊕ (if get_lsb y then x else f.zero)) ⊕ (if get_lsb x then y else f.zero))

  -- The second lane is not used.
  unfoldable pub accumulate_bob : A → A → A × A → A × A
  accumulate_bob x y (acc, unused) = (acc ⊕ x ⊗ y, unused)

  unfoldable pub bob_constant_term : A → Bool → A
  bob_constant_term delta v = if v then delta ⊗ delta else f.zero

  abbrev pub zeros : A × A
  zeros = (f.zero, f.zero)

  module _ (c : PolySetup A) where
    -- `par_inn_prdt_`
    unfoldable pub par_inn_prdt : (ℕ → A) → (ℕ → A) → ℕ → A
    par_inn_prdt chi buf n =
        if serial c.threads n
        then c.red chi buf n
        else sum_to
            (λ t.
              c.red (λ i. chi (i + slice_start c.threads n t))
                (λ i. buf (i + slice_start c.threads n t)) (slice_size c.threads n t))
            c.threads

    -- ALICE and BOB of `batch_check`.
    unfoldable pub batch_check_send : (ℕ → A) → PolyProof A → PolyProof A × List (Message A)
    unfolding gather_bits
    batch_check_send cot s =
        let sum0 = par_inn_prdt (c.chi s.checks) s.buffer s.num in
        let sum1 = par_inn_prdt (c.chi s.checks) s.buffer1 s.num in
        let ope_data = λ (i : ℕ). cot (s.cots + i) in
        let bits = λ (i : ℕ). get_lsb (ope_data i) in
        if s.num == 0 then (s, []) else (
          record s { num = 0; cots = s.cots + 128; checks = s.checks + 1 },
          block (sum0 ⊕ c.pack.packing ope_data)
              ∷ block
                  (sum1 ⊕ c.pack.make_block (gather_bits bits 64 64 0) (gather_bits bits 0 64 0))
              ∷ [],
        )

    unfoldable pub batch_check_recv :
        A → (ℕ → A) → PolyProof A → List (Message A) → Result (PolyProof A × List (Message A))
    unfolding recv_block
    batch_check_recv delta cot s inbox =
        if s.num == 0
        then done (s, inbox)
        else recv_block inbox >>= λ (sum0, inbox'). recv_block inbox' >>= λ (sum1, rest).
            let sum = par_inn_prdt (c.chi s.checks) s.buffer s.num in
            let ope_data = λ (i : ℕ). cot (s.cots + i) in
            if f.beq sum0 ((sum ⊕ c.pack.packing ope_data) ⊕ sum1 ⊗ delta)
            then done (record s { num = 0; cots = s.cots + 128; checks = s.checks + 1 }, rest)
            else abort

    -- `if (num >= buffer_sz) batch_check();`
    unfoldable pub room_send : (ℕ → A) → PolyProof A → PolyProof A × List (Message A)
    room_send cot s = if leb c.buffer_sz s.num then batch_check_send cot s else (s, [])

    unfoldable pub room_recv :
        A → (ℕ → A) → PolyProof A → List (Message A) → Result (PolyProof A × List (Message A))
    room_recv delta cot s inbox =
        if leb c.buffer_sz s.num then batch_check_recv delta cot s inbox else done (s, inbox)

    abbrev pub push_send : A × A → PolyProof A → PolyProof A
    push_send (a0, a1) s = record s {
      buffer = update s.buffer s.num a0;
      buffer1 = update s.buffer1 s.num a1;
      num = s.num + 1;
    }

    abbrev pub push_recv : A → PolyProof A → PolyProof A
    push_recv x s = record s { buffer = update s.buffer s.num x; num = s.num + 1 }

    -- One loop of products over `len` pairs, on a party's `accumulate`.
    abbrev pub products : (A → A → A × A → A × A) → (x y : ℕ → A) → ℕ → A × A → A × A
    products accumulate x y len = par_accum c.threads len (λ i. accumulate (x i) (y i))

    -- Only the pairs whose coefficient is set.
    abbrev pub selected : (A → A → A × A → A × A) → (x y : ℕ → A) → (ℕ → Bool) → ℕ → A × A → A × A
    selected accumulate x y coeff len =
        par_accum c.threads len (λ i acc. if coeff (i + 1) then accumulate (x i) (y i) acc else acc)

    unfoldable pub zkp_poly_deg2_send :
        (ℕ → A) → (x y : ℕ → A) → (ℕ → Bool) → ℕ → PolyProof A → PolyProof A × List (Message A)
    zkp_poly_deg2_send cot x y coeff len s =
        let (s', sent) = room_send cot s in
        (push_send (selected accumulate_alice x y coeff len zeros) s', sent)

    unfoldable pub zkp_poly_deg2_recv :
        A
        → (ℕ → A)
        → (x y : ℕ → A) → (ℕ → Bool)
        → ℕ
        → PolyProof A
        → List (Message A)
        → Result (PolyProof A × List (Message A))
    zkp_poly_deg2_recv delta cot x y coeff len s inbox =
        room_recv delta cot s inbox >>= λ (s', rest).
        let sum = (selected accumulate_bob x y coeff len zeros).0 in
        done (push_recv (sum ⊕ bob_constant_term delta (coeff 0)) s', rest)

    unfoldable pub zkp_inner_prdt_send :
        (ℕ → A) → (x y : ℕ → A) → ℕ → PolyProof A → PolyProof A × List (Message A)
    zkp_inner_prdt_send cot x y len s =
        let (s', sent) = room_send cot s in
        (push_send (products accumulate_alice x y len zeros) s', sent)

    unfoldable pub zkp_inner_prdt_recv :
        A
        → (ℕ → A)
        → (x y : ℕ → A) → Bool
        → ℕ
        → PolyProof A
        → List (Message A)
        → Result (PolyProof A × List (Message A))
    zkp_inner_prdt_recv delta cot x y constant len s inbox =
        room_recv delta cot s inbox >>= λ (s', rest).
        let sum = (products accumulate_bob x y len zeros).0 in
        done (push_recv (sum ⊕ bob_constant_term delta constant) s', rest)

    -- Two inner products that are to be equal.
    unfoldable pub zkp_inner_prdt_eq_send :
        (ℕ → A)
        → (x y : ℕ → A) → (r s : ℕ → A) → (len len2 : ℕ) → PolyProof A
        → PolyProof A × List (Message A)
    zkp_inner_prdt_eq_send cot x y r s len len2 proof =
        let (proof', sent) = room_send cot proof in
        let first = products accumulate_alice x y len zeros in
        (push_send (products accumulate_alice r s len2 first) proof', sent)

    unfoldable pub zkp_inner_prdt_eq_recv :
        A
        → (ℕ → A)
        → (x y : ℕ → A) → (r s : ℕ → A) → (len len2 : ℕ) → PolyProof A
        → List (Message A)
        → Result (PolyProof A × List (Message A))
    zkp_inner_prdt_eq_recv delta cot x y r s len len2 proof inbox =
        room_recv delta cot proof inbox >>= λ (proof', rest).
        let first = products accumulate_bob x y len zeros in
        done (push_recv (products accumulate_bob r s len2 first).0 proof', rest)

    -- The same with one more product on the second side.
    unfoldable pub zkp_inner_prdt_eq_more_send :
        (ℕ → A)
        → (x y : ℕ → A) → (r s : ℕ → A) → (rr ss : A) → (len len2 : ℕ) → PolyProof A
        → PolyProof A × List (Message A)
    zkp_inner_prdt_eq_more_send cot x y r s rr ss len len2 proof =
        let (proof', sent) = room_send cot proof in
        let first = products accumulate_alice x y len zeros in
        let second = products accumulate_alice r s len2 first in
        (push_send (accumulate_alice rr ss second) proof', sent)

    unfoldable pub zkp_inner_prdt_eq_more_recv :
        A
        → (ℕ → A)
        → (x y : ℕ → A) → (r s : ℕ → A) → (rr ss : A) → (len len2 : ℕ) → PolyProof A
        → List (Message A)
        → Result (PolyProof A × List (Message A))
    zkp_inner_prdt_eq_more_recv delta cot x y r s rr ss len len2 proof inbox =
        room_recv delta cot proof inbox >>= λ (proof', rest).
        let first = products accumulate_bob x y len zeros in
        let second = products accumulate_bob r s len2 first in
        done (push_recv (accumulate_bob rr ss second).0 proof', rest)
