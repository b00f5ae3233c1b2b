-- ===== src/ZkBool/Cot/Modes.antt =====
-- The prefetch buffer and the background pipe serve one stream in order.
use vole_zk.Common.{
  ℕ, ◌+◌, ◌-◌, ◌*◌, ◌/◌, ◌≤◌, ◌<◌, ◌==◌, lt→ltb, Bool-cases, if◌then◌else◌, true, false, Option,
  some, ◌≡◌, ◌⊎◌, inl, inr, refl, ap, ◌∙◌, arith,
}
use vole_zk.Arith.Engine.{done}
use vole_zk.ZkBool.Cot.{
  draw_cot, Prefetch, cot_refill, prefetch, Background, bg_next_slot, bg_advance, background,
}
use vole_zk.ZkBool.Cot.Laws.{IsFifo, draw_cot_lem}

-- The prefetch buffer holds the next correlations of the Ferret.
pub record PrefetchAt {ℓ} {A : Type ℓ} (ferret : ℕ → A) (s : Prefetch A) (k : ℕ) : Type ℓ where
  pub within : s.pos ≤ s.have
  pub count : k + s.have ≡ s.produced + s.pos
  pub holds : (i : ℕ) → s.pos + i < s.have → s.buf (s.pos + i) ≡ ferret (k + i)

module _ {ℓ} {A : Type ℓ} (ferret : ℕ → A) (chunk size : ℕ) (room : 0 < size / chunk * chunk) where
  prefetch_ready :
      (s : Prefetch A) (k : ℕ)
      → PrefetchAt ferret s k
      → (s' : Prefetch A) × (done (if s.pos == s.have then cot_refill ferret chunk size s else s)
          ≡ done s')
        × PrefetchAt ferret s' k
        × (0 < s'.have - s'.pos)
  unfolding cot_refill
  prefetch_ready s k at = elim (Bool-cases (s.pos == s.have)) [
    | inl empty ↦
        (let next : k ≡ s.produced = ground arith in
          rw empty (
            cot_refill ferret chunk size s,
            refl,
            record {
              within = omega arith;
              count = omega arith;
              holds = λ i lt.
                  rw (lt→ltb (0 + i) (size / chunk * chunk) lt)
                    (ap ferret {x = s.produced + (0 + i)} {y = k + i} (omega arith));
            },
            omega arith,
          ))
    | inr left ↦ rw left (s, refl, at, ground arith)
  ]

  -- With a chunk or more in the buffer, the prefetch buffer serves the Ferret's correlations in
  -- order.
  pub prefetch-IsFifo :
      IsFifo (prefetch ferret chunk size) ferret (PrefetchAt ferret) (PrefetchAt ferret)
  prefetch-IsFifo = record {
    ready_lem = prefetch_ready;
    read_lem = λ s k i at lt. at.holds i (omega (arith, at.within));
    advance_lem = λ s k m at pos fits. record {
      within = omega (arith, at.within);
      count = omega (arith, at.count);
      holds = λ i lt.
          ap s.buf {x = s.pos + m + i} {y = s.pos + (m + i)} (omega arith)
          ∙ at.holds (m + i) (omega arith)
          ∙ ap ferret (omega arith);
    };
  }

-- The slot that is held has the next correlations of the stream.
pub record InSlot {ℓ} {A : Type ℓ} (stream : ℕ → A) (batch : ℕ) (s : Background A) (k : ℕ)
    : Type ℓ where
  pub holding : s.held ≡ true
  pub within : s.off < batch
  pub count : k + batch ≡ s.taken * batch + s.off
  pub holds : (i : ℕ) → s.off + i < batch → s.slot (s.off + i) ≡ stream (k + i)

module _ {ℓ} {A : Type ℓ} (acquire : ℕ → Option (ℕ → A)) (batch : ℕ) (stream : ℕ → A) where
  abbrev pub BackgroundAt : Background A → ℕ → Type ℓ
  BackgroundAt s k = InSlot stream batch s k ⊎ ((s.held ≡ false) × (k ≡ s.taken * batch))

  module _ (some_batch : 0 < batch)
      (rounds : (r : ℕ)
        → (block : ℕ → A) × (acquire r ≡ some block)
          × ((i : ℕ) → i < batch → block i ≡ stream (r * batch + i))) where
    next_slot :
        (s : Background A) (block : ℕ → A)
        → acquire s.taken ≡ some block
        → bg_next_slot acquire batch s
          ≡ done (record { slot = block; held = true; off = 0; taken = s.taken + 1 })
    unfolding bg_next_slot
    next_slot s block e = rw (e, bg_next_slot)

    background_ready :
        (s : Background A) (k : ℕ)
        → BackgroundAt s k
        → (s' : Background A) × ((if s.held then done s else bg_next_slot acquire batch s)
            ≡ done s')
          × InSlot stream batch s' k
          × (0 < batch - s'.off)
    background_ready s k (inl at) = (
      s,
      ap (λ v. if v then done s else bg_next_slot acquire batch s) {y = true} (at.holding),
      at,
      omega (arith, at.within),
    )
    background_ready s k (inr (free, next)) =
        let (block, e, content) = rounds s.taken in
        (
          record { slot = block; held = true; off = 0; taken = s.taken + 1 },
          ap (λ v. if v then done s else bg_next_slot acquire batch s) {y = false} free
              ∙ next_slot s block e,
          record {
            holding = refl;
            within = some_batch;
            count = grind arith;
            holds = λ i lt.
                ap block {x = 0 + i} {y = i} (omega arith)
                ∙ content i (omega arith)
                ∙ ap stream (omega arith);
          },
          omega arith,
        )

    background_advance :
        (s : Background A) (k m : ℕ)
        → InSlot stream batch s k
        → 0 < m
        → m ≤ batch - s.off
        → BackgroundAt (bg_advance acquire batch m s) (k + m)
    unfolding bg_advance
    background_advance s k m at pos fits = elim (Bool-cases (s.off + m == batch)) [
      | inl drained ↦
          (let all : s.off + m ≡ batch = ground arith in
            rw drained (inr (refl, omega (arith, at.count))))
      | inr left ↦
          (let inside : s.off + m < batch = ground (arith, at.within) in
            rw left (
              inl (record {
                holding = at.holding;
                within = inside;
                count = omega (arith, at.count);
                holds = λ i lt.
                    ap s.slot {x = s.off + m + i} {y = s.off + (m + i)} (omega arith)
                    ∙ at.holds (m + i) (omega arith)
                    ∙ ap stream (omega arith);
              })))
    ]

    -- If the `r`-th slot acquired has the correlations from `r` times the batch on, the background
    -- mode serves the stream in order.
    pub background-IsFifo :
        IsFifo (background acquire batch) stream BackgroundAt (InSlot stream batch)
    background-IsFifo = record {
      ready_lem = background_ready;
      read_lem = λ s k i at lt. at.holds i (omega (arith, at.within));
      advance_lem = background_advance;
    }

module _ {ℓ} {A : Type ℓ} (ferret : ℕ → A) (chunk size : ℕ) (room : 0 < size / chunk * chunk)
    (acquire : ℕ → Option (ℕ → A)) (batch : ℕ) (some_batch : 0 < batch)
    (rounds : (r : ℕ)
      → (block : ℕ → A) × (acquire r ≡ some block)
        × ((i : ℕ) → i < batch → block i ≡ ferret (r * batch + i))) where
  -- The buffer has room for a chunk or more, and the `r`-th slot of the pipe has the Ferret's
  -- correlations from `r` times the batch on. In both modes a draw of `n` by an engine that stands
  -- at the `k`-th correlation ends with the `n` next ones, in order, wherever a refill or a new
  -- slot comes between, and leaves the engine at the one after them.
  pub cot_draws_lem :
      (out : ℕ → A) (n k : ℕ) (s : Prefetch A) (t : Background A)
      → PrefetchAt ferret s k
      → BackgroundAt acquire batch ferret t k
      → ((o : (ℕ → A) × Prefetch A) × (draw_cot (prefetch ferret chunk size) out n s ≡ done o)
          × PrefetchAt ferret o.1 (k + n)
          × ((j : ℕ) → j < n → o.0 j ≡ ferret (k + j)))
        × ((o : (ℕ → A) × Background A) × (draw_cot (background acquire batch) out n t ≡ done o)
            × BackgroundAt acquire batch ferret o.1 (k + n)
            × ((j : ℕ) → j < n → o.0 j ≡ ferret (k + j)))
  cot_draws_lem out n k s t at at' = (
    draw_cot_lem (prefetch ferret chunk size) ferret (PrefetchAt ferret) (PrefetchAt ferret)
        (prefetch-IsFifo ferret chunk size room) out n k s at,
    draw_cot_lem (background acquire batch) ferret (BackgroundAt acquire batch ferret)
        (InSlot ferret batch) (background-IsFifo acquire batch ferret some_batch rounds) out n k t
        at',
  )
