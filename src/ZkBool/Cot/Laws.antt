-- ===== src/ZkBool/Cot/Laws.antt =====
-- Every draw takes the next correlations of one stream, in both modes.
use vole_zk.Common.{
  ℕ, zero, suc, ◌+◌, ◌-◌, ◌≤◌, ◌<◌, ltb, leb, ◌&&◌, ltb→lt, ltb-false, Bool-cases, min, true, false,
  ◌≡◌, inl, inr, refl, ap, ◌∙◌, arith,
}
use vole_zk.Arith.Engine.{done}
use vole_zk.ZkBool.Cot.{Source, draw_one_cot, copied, draw_loop, draw_cot}

-- `At s k`: the next correlation that `s` gives is the `k`-th of the stream; `Filled s k`: and some
-- can be copied at once.
pub record IsFifo {ℓ} {S A : Type ℓ} (src : Source S A) (stream : ℕ → A)
    (At Filled : S → ℕ → Type ℓ) : Type ℓ where
  pub ready_lem :
      (s : S) (k : ℕ)
      → At s k
      → (s' : S) × (src.ready s ≡ done s') × Filled s' k × (0 < src.avail s')
  pub read_lem : (s : S) (k i : ℕ) → Filled s k → i < src.avail s → src.read s i ≡ stream (k + i)
  pub advance_lem :
      (s : S) (k m : ℕ) → Filled s k → 0 < m → m ≤ src.avail s → At (src.advance m s) (k + m)

module _ {ℓ} {S A : Type ℓ} (src : Source S A) (stream : ℕ → A) (At Filled : S → ℕ → Type ℓ)
    (fifo : IsFifo src stream At Filled) where
  pub draw_one_cot_lem :
      (s : S) (k : ℕ)
      → At s k
      → (s' : S) × (draw_one_cot src s ≡ done (stream k, s')) × At s' (k + 1)
  unfolding draw_one_cot
  draw_one_cot_lem s k at =
      let (s', e, at', some_left) = fifo.ready_lem s k at in
      (
        src.advance 1 s',
        rw (e, fifo.read_lem s' k 0 at' some_left)
            (ap (λ i. done (stream i, src.advance 1 s')) (omega arith)),
        fifo.advance_lem s' k 1 at' (omega arith) (omega arith),
      )

  copied_lem :
      (out block : ℕ → A) (k got take : ℕ)
      → ((j : ℕ) → j < got → out j ≡ stream (k + j))
      → ((i : ℕ) → i < take → block i ≡ stream (k + got + i))
      → (j : ℕ) → j < got + take
      → copied src out got take block j ≡ stream (k + j)
  copied_lem out block k got take before new j lt = elim (Bool-cases (ltb j got)) [
    | inl early ↦
        (let e : (leb got j && ltb j (got + take)) ≡ false = ground arith in
          rw e (before j (ltb→lt j got early)))
    | inr late ↦
        (let e : (leb got j && ltb j (got + take)) ≡ true = ground arith in
          rw e (
            new (j - got) (omega (arith, ltb-false j got late))
            ∙ ap stream (omega (arith, ltb-false j got late))))
  ]

  loop_lem :
      (fuel n got k : ℕ) (out : ℕ → A) (s : S)
      → n - got < fuel
      → got ≤ n
      → At s (k + got)
      → ((j : ℕ) → j < got → out j ≡ stream (k + j))
      → (o : (ℕ → A) × S) × (draw_loop src fuel n got out s ≡ done o)
        × At o.1 (k + n)
        × ((j : ℕ) → j < n → o.0 j ≡ stream (k + j))
  unfolding draw_loop
  loop_lem zero n got k out s enough small at before = absurd (omega arith)
  loop_lem (suc fuel) n got k out s enough small at before = elim (Bool-cases (ltb got n)) [
    | inr all ↦
        (let e : got ≡ n = omega (arith, ltb-false got n all) in
          rw all ((out, s), refl, rw (← e) at, rw (← e) before))
    | inl more ↦ rw more (
        let (s', e, at', some_left) = fifo.ready_lem s (k + got) at in
        let lt = ltb→lt got n more in
        let take = min (n - got) (src.avail s') in
        let pos : 0 < take = ground arith in
        let fits : take ≤ src.avail s' = ground arith in
        let inside : got + take ≤ n = ground arith in
        let fewer : n - (got + take) < fuel = omega arith in
        let place : k + got + take ≡ k + (got + take) = omega arith in
        rw e (
          loop_lem fuel n (got + take) k (copied src out got take (src.read s'))
            (src.advance take s') fewer inside
            (rw place at (fifo.advance_lem s' (k + got) take at' pos fits))
            (copied_lem out (src.read s') k got take before
              (λ i i_lt. fifo.read_lem s' (k + got) i at' (omega arith)))))
  ]

  -- From a source that stands at the `k`-th correlation of the stream, a draw of `n` ends with
  -- the `n` next ones, in order, wherever a refill comes between, and the source then stands at the
  -- one after them.
  pub draw_cot_lem :
      (out : ℕ → A) (n k : ℕ) (s : S)
      → At s k
      → (o : (ℕ → A) × S) × (draw_cot src out n s ≡ done o)
        × At o.1 (k + n)
        × ((j : ℕ) → j < n → o.0 j ≡ stream (k + j))
  unfolding draw_cot
  draw_cot_lem out n k s at =
      loop_lem (n + 1) n 0 k out s (omega arith) (omega arith)
        (rw (ap (At s) {x = k + 0} {y = k} (omega arith)) at) (λ j lt. absurd (omega arith))
