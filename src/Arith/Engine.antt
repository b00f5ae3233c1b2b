-- ===== src/Arith/Engine.antt =====
-- The engine `FpOSTriple` of emp-zk-arith/ostriple.h, one side at a time: authenticated inputs,
-- multiplications with their buffered triples, and the batched check of these triples.
-- Its correlations come from vole; here they are a stream, `vole i` the i-th one drawn.
pub mod Slices
pub mod Check
pub mod Sync
use vole_zk.Common.{ℕ, ◌+◌, ◌-◌, ◌*◌, ◌/◌, ltb, ◌==◌, if◌then◌else◌, List, [], ◌∷◌, ◌++◌, update}
use vole_zk.Field.{Field, ◌⊕◌, ◌⊗◌, ◌⊖◌}
use vole_zk.Field.Sum.{sum_to}
use vole_zk.Arith.Wire.{Auth}

-- The fields that change during a proof. The three buffers are arrays of `check_sz` slots; slots
-- of `out` from `check_cnt` on hold fresh correlations. `stored` is what `auth_helper` has hashed,
-- the newest first, and `checks` counts the checks, each of which takes a new seed.
pub record Engine {ℓ} (A : Type ℓ) : Type ℓ where
  pub drawn : ℕ
  pub check_cnt : ℕ
  pub checks : ℕ
  pub left : ℕ → Auth A
  pub right : ℕ → Auth A
  pub out : ℕ → Auth A
  pub stored : List A

-- What does not change: CHECK_SZ, the size of the worker pool, and the generator of the
-- coefficients `chi` (seed of the check, worker, position), which is AES in counter mode.
pub record Setup {ℓ} (A : Type ℓ) : Type ℓ where
  pub check_sz : ℕ
  pub threads : ℕ
  pub chi : ℕ → ℕ → ℕ → A

-- `error(...)` ends the verifier; a receive with nothing sent waits.
pub data Result {ℓ} (A : Type ℓ) : Type ℓ where
  done : A → Result A
  abort : Result A
  waiting : Result A

infixl 5 ◌>>=◌
abbrev pub ◌>>=◌ {ℓ κ} : {A : Type ℓ} {B : Type κ} → Result A → (A → Result B) → Result B
done a >>= g = g a
abort >>= g = abort
waiting >>= g = waiting

module _ {ℓ} {A : Type ℓ} where
  -- `io->recv_data` of one field element
  unfoldable pub recv : List A → Result (A × List A)
  recv [] = waiting
  recv (x ∷ xs) = done (x, xs)

  unfoldable pub fill_vole : (ℕ → Auth A) → ℕ → Engine A → Engine A
  fill_vole vole n s = record s {
    out = λ i. if ltb i n then vole (s.drawn + i) else s.out i;
    drawn = s.drawn + n;
  }

-- `andgate_correctness_check_manage` gives worker `t` of `threads` the triples from `slice_start`
-- on, as many as `slice_size`; the last worker takes what is left.
unfoldable pub slice_start : ℕ → ℕ → ℕ → ℕ
slice_start threads cnt t = t * (cnt / threads)

unfoldable pub slice_size : ℕ → ℕ → ℕ → ℕ
slice_size threads cnt t = if t + 1 == threads then cnt - t * (cnt / threads) else cnt / threads

module _ {ℓ} {A : Type ℓ} ⦃f : Field A⦄ where
  -- The constructor: one correlation is dropped and the first batch is drawn.
  unfoldable pub start : Setup A → (ℕ → Auth A) → Auth A → Engine A
  unfolding fill_vole
  start c vole junk = fill_vole vole c.check_sz (record {
    drawn = 1;
    check_cnt = 0;
    checks = 0;
    left = λ _. junk;
    right = λ _. junk;
    out = λ _. junk;
    stored = [];
  })

  module _ (c : Setup A) where
    -- The coefficients of `A_0` and `A_1` of one triple, at the prover.
    abbrev pub gate_a0 : Engine A → ℕ → A
    gate_a0 s i = (s.left i).mac ⊗ (s.right i).mac

    abbrev pub gate_a1 : Engine A → ℕ → A
    gate_a1 s i =
        ((s.left i).val ⊗ (s.right i).mac ⊕ (s.right i).val ⊗ (s.left i).mac) ⊖ (s.out i).mac

    abbrev pub gate_b : A → Engine A → ℕ → A
    gate_b delta s i = (s.left i).mac ⊗ (s.right i).mac ⊕ (s.out i).mac ⊗ delta

    -- `sum_t sum_k g(start_t + k) chi_t[k]`, over the workers and their slices.
    unfoldable pub folded : (ℕ → A) → ℕ → ℕ → A
    folded g checks cnt =
        sum_to
          (λ t.
            sum_to (λ k. g (k + slice_start c.threads cnt t) ⊗ c.chi checks t k)
              (slice_size c.threads cnt t))
          c.threads

    -- ALICE of the check: masks `(U, V)` with a correlation and sends both.
    unfoldable pub check_send : (ℕ → Auth A) → Engine A → Engine A × List A
    check_send vole s =
        let u = folded (gate_a0 s) s.checks s.check_cnt in
        let v = folded (gate_a1 s) s.checks s.check_cnt in
        let ope_data = vole s.drawn in
        (
          record s { drawn = s.drawn + 1; checks = s.checks + 1 },
          (u ⊕ ope_data.mac) ∷ (v ⊕ ope_data.val) ∷ [],
        )

    -- BOB of the check.
    unfoldable pub check_recv : A → (ℕ → Auth A) → Engine A → List A → Result (Engine A × List A)
    unfolding recv
    check_recv delta vole s inbox = recv inbox >>= λ (u, rest). recv rest >>= λ (v, rest').
        let w = folded (gate_b delta s) s.checks s.check_cnt in
        let ope_data = vole s.drawn in
        if f.beq u (v ⊗ delta ⊕ (w ⊕ ope_data.mac))
        then done (record s { drawn = s.drawn + 1; checks = s.checks + 1 }, rest')
        else abort

    -- ALICE shares an input `w`: the message is `lam`.
    unfoldable pub input_send : (ℕ → Auth A) → Engine A → A → Engine A × List A × Auth A
    input_send vole s w =
        let mac = vole s.drawn in
        (record s { drawn = s.drawn + 1 }, (mac.val ⊖ w) ∷ [], record { val = w; mac = mac.mac })

    unfoldable pub input_recv :
        A → (ℕ → Auth A) → Engine A → List A → Result (Engine A × List A × Auth A)
    unfolding recv
    input_recv delta vole s inbox = recv inbox >>= λ (lam, rest).
        let key = vole s.drawn in
        done (
          record s { drawn = s.drawn + 1 },
          rest,
          record { val = f.zero; mac = key.mac ⊕ lam ⊗ delta },
        )

    -- One multiplication with room in the buffers: the correlation in slot `check_cnt` becomes
    -- the output wire.
    unfoldable pub slot_send : Engine A → Auth A → Auth A → Engine A × List A × Auth A
    slot_send s ma mb =
        let mac = s.out s.check_cnt in
        let d = ma.val ⊗ mb.val in
        let wire : Auth A = record { val = d; mac = mac.mac } in
        (
          record s {
            left = update s.left s.check_cnt ma;
            right = update s.right s.check_cnt mb;
            out = update s.out s.check_cnt wire;
            check_cnt = s.check_cnt + 1;
          },
          (mac.val ⊖ d) ∷ [],
          wire,
        )

    unfoldable pub slot_recv :
        A → Engine A → Auth A → Auth A → List A → Result (Engine A × List A × Auth A)
    unfolding recv
    slot_recv delta s ka kb inbox = recv inbox >>= λ (d, rest).
        let wire : Auth A = record { val = f.zero; mac = (s.out s.check_cnt).mac ⊕ d ⊗ delta } in
        done (
          record s {
            left = update s.left s.check_cnt ka;
            right = update s.right s.check_cnt kb;
            out = update s.out s.check_cnt wire;
            check_cnt = s.check_cnt + 1;
          },
          rest,
          wire,
        )

    -- What a multiplication does first: with the buffers full, check them and draw anew.
    unfoldable pub room_send : (ℕ → Auth A) → Engine A → Engine A × List A
    room_send vole s =
        if s.check_cnt == c.check_sz
        then (let (s', sent) = check_send vole s in
            (fill_vole vole c.check_sz (record s' { check_cnt = 0 }), sent))
        else (s, [])

    unfoldable pub room_recv : A → (ℕ → Auth A) → Engine A → List A → Result (Engine A × List A)
    room_recv delta vole s inbox =
        if s.check_cnt == c.check_sz
        then (check_recv delta vole s inbox >>= λ (s', rest).
            done (fill_vole vole c.check_sz (record s' { check_cnt = 0 }), rest))
        else done (s, inbox)

    unfoldable pub auth_compute_mul_send :
        (ℕ → Auth A) → Engine A → Auth A → Auth A → Engine A × List A × Auth A
    auth_compute_mul_send vole s ma mb =
        let (s', checked) = room_send vole s in
        let (s'', sent, wire) = slot_send s' ma mb in (s'', checked ++ sent, wire)

    unfoldable pub auth_compute_mul_recv :
        A → (ℕ → Auth A) → Engine A → Auth A → Auth A → List A → Result (Engine A × List A × Auth A)
    auth_compute_mul_recv delta vole s ka kb inbox =
        room_recv delta vole s inbox >>= λ (s', rest). slot_recv delta s' ka kb rest

    -- Opened outputs: ALICE sends the values and both sides hash what must be equal.
    unfoldable pub reveal_send : Engine A → List (Auth A) → Engine A × List A
    reveal_send s [] = (s, [])
    reveal_send s (o ∷ os) =
        let (s', sent) = reveal_send (record s { stored = o.mac ∷ s.stored }) os in
        (s', o.val ∷ sent)

    unfoldable pub reveal_recv :
        A → Engine A → List (Auth A) → List A → Result (Engine A × List A × List A)
    unfolding recv
    reveal_recv delta s [] inbox = done (s, inbox, [])
    reveal_recv delta s (o ∷ os) [] = waiting
    reveal_recv delta s (o ∷ os) (v ∷ inbox) =
        reveal_recv delta (record s { stored = (v ⊗ delta ⊕ o.mac) ∷ s.stored }) os inbox
        >>= λ (s', rest, vs). done (s', rest, v ∷ vs)

    unfoldable pub reveal_check_zero : Engine A → List (Auth A) → Engine A
    reveal_check_zero s [] = s
    reveal_check_zero s (o ∷ os) = reveal_check_zero (record s { stored = o.mac ∷ s.stored }) os
