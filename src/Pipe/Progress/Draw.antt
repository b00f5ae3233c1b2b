-- ===== src/Pipe/Progress/Draw.antt =====
-- A draw of FpOSTriple (ostriple.h) that waits in `acquire_ready` gets a slot.
use vole_zk.Common.{
  ℕ, ◌+◌, ◌-◌, ◌*◌, ◌≤◌, ◌<◌, Bool, true, false, Bool-cases, ltb, ◌≡◌, ◌≢◌, ◌⊎◌, inl, inr, refl,
  sym, ap, ◌∙◌, arith,
}
use vole_zk.Pipe.{Pipe, Answer, acquire_free, publish, acquire_ready}
use vole_zk.Pipe.System.{
  Writer, Reader, System, Step, acquire, stop, sleep_free, fill, hand_over, notify_ready, open_slot,
  sleep_ready, open_woken, sleep_again, copy, drop_slot, notify_free, leave, notify_left, close,
  finish_pipe, notify_done, join, Reach, fill_slot, wake_reader,
}
use vole_zk.Pipe.Inv.{Inv}
use vole_zk.Pipe.Preserve.{Step-Inv, Reach-Inv}
use vole_zk.Pipe.Sleep.{frees, readies, WriterRests, ReaderRests, Rests}
use vole_zk.Pipe.Sleep.Steps.{Step-Rests, Reach-Rests}
use vole_zk.Pipe.Progress.{Inevitable, by_measure, writer_phase, phase_le}

-- In the wait of `acquire_ready`.
unfoldable pub waiting : Reader → Bool
waiting Reader.asleep = true
waiting Reader.testing = true
waiting x = false

unfoldable reader_phase : Reader → ℕ
reader_phase Reader.testing = 1
reader_phase x = 0

wait_le : (x : Reader) → reader_phase x ≤ 1
unfolding reader_phase
wait_le Reader.between = omega arith
wait_le Reader.asleep = omega arith
wait_le Reader.testing = omega arith
wait_le (Reader.reading i off) = omega arith
wait_le Reader.notifying = omega arith
wait_le Reader.leaving = omega arith
wait_le Reader.closing = omega arith
wait_le Reader.finishing = omega arith
wait_le Reader.joining = omega arith
wait_le Reader.ended = omega arith

which : (x : Reader) → waiting x ≡ true → (x ≡ Reader.asleep) ⊎ (x ≡ Reader.testing)
unfolding waiting
which Reader.between e = cc e
which Reader.asleep e = inl refl
which Reader.testing e = inr refl
which (Reader.reading i off) e = cc e
which Reader.notifying e = cc e
which Reader.leaving e = cc e
which Reader.closing e = cc e
which Reader.finishing e = cc e
which Reader.joining e = cc e
which Reader.ended e = cc e

-- The call has returned with a slot.
abbrev pub HasSlot {ℓ} : {A : Type ℓ} → System A → Type 0
HasSlot s = (i : ℕ) × (s.reader ≡ Reader.reading i 0)

module _ {ℓ} {A : Type ℓ} (vole : ℕ → A) (n batch : ℕ) (some : 0 < n) where
  record Waiting (s : System A) : Type ℓ where
    inv : Inv vole n batch s
    rests : Rests n s
    waits : waiting s.reader ≡ true

  unfoldable rank : System A → ℕ
  rank s = 10 * (n - s.pipe.count) + writer_phase s.writer + reader_phase s.reader

  not_both_blocked :
      (p : Pipe A) → acquire_free n p ≡ Answer.blocked → acquire_ready p ≢ Answer.blocked
  unfolding acquire_free acquire_ready
  not_both_blocked p e e' = ground arith

  -- What `acquire_free` and `acquire_ready` answer before the destructor.
  free_answer :
      (p : Pipe A)
      → p.finished ≡ false
      → (acquire_free n p ≡ Answer.blocked) ⊎ (acquire_free n p ≡ Answer.at p.tail)
  unfolding acquire_free
  free_answer p e = elim (Bool-cases (ltb p.count n)) [
    | inl room ↦ inr (rw (room, e) refl)
    | inr full ↦ inl (rw (full, e) refl)
  ]

  ready_answer :
      (p : Pipe A)
      → p.finished ≡ false
      → p.producer_done ≡ false
      → (acquire_ready p ≡ Answer.blocked) ⊎ (acquire_ready p ≡ Answer.at p.head)
  unfolding acquire_ready
  ready_answer p e e' = elim (Bool-cases (ltb 0 p.count)) [
    | inl room ↦ inr (rw room refl)
    | inr full ↦ inl (rw (full, e, e') refl)
  ]

  open_pipe : (s : System A) → Waiting s → s.pipe.finished ≡ false
  open_pipe s g = elim (which s.reader g.waits) [
    | inl x ↦ (rw x at g.inv.reader_ok).1
    | inr x ↦ (rw x at g.inv.reader_ok).1
  ]

  -- The producer of a reader that sleeps can go on.
  producer_moves :
      (s : System A)
      → Waiting s
      → s.reader ≡ Reader.asleep
      → (w : Writer) → s.writer ≡ w
      → (t : System A) × Step vole n batch s t
  unfolding WriterRests ReaderRests frees readies
  producer_moves s g x Writer.idle e = elim (free_answer s.pipe (open_pipe s g)) [
    | inl full ↦ (_, sleep_free e full)
    | inr room ↦ (_, acquire s.pipe.tail e room)
  ]
  producer_moves s g x Writer.asleep e = elim (rw (e, x) at g.rests.writer_rests) [
    | inl full ↦ elim (rw (x, e) at g.rests.reader_rests) [
      | inl empty ↦ absurd (not_both_blocked s.pipe full empty)
      | inr owed ↦ absurd (cc owed)
    ]
    | inr due ↦ absurd (cc due)
  ]
  producer_moves s g x (Writer.filling i) e = (_, fill i e)
  producer_moves s g x (Writer.filled i) e = (_, hand_over i e)
  producer_moves s g x Writer.notifying e = (_, notify_ready e)
  producer_moves s g x Writer.stopped e =
      absurd (cc (sym (open_pipe s g) ∙ (rw e at g.rests.writer_rests)))

  some_move : (s : System A) → Waiting s → (t : System A) × Step vole n batch s t
  some_move s g = elim (which s.reader g.waits) [
    | inl x ↦ producer_moves s g x s.writer refl
    | inr x ↦ elim (ready_answer s.pipe (open_pipe s g) g.inv.ring.quiet) [
      | inl empty ↦ (_, sleep_again x empty)
      | inr ready ↦ (_, open_woken s.pipe.head x ready)
    ]
  ]

  -- A notification wakes the reader up, or finds it awake.
  woken :
      (x : Reader)
      → waiting x ≡ true
      → (waiting (wake_reader x) ≡ true) × (reader_phase (wake_reader x) ≤ 1)
  unfolding waiting wake_reader
  woken x e = elim (which x e) [
    | inl at ↦ rw at (refl, wait_le Reader.testing)
    | inr at ↦ rw at (refl, wait_le Reader.testing)
  ]

  nearer :
      (s u : System A)
      → Waiting s
      → Step vole n batch s u
      → HasSlot u ⊎ ((waiting u.reader ≡ true) × (rank u < rank s))
  unfolding rank writer_phase reader_phase waiting fill_slot publish
  nearer s u g (acquire i w e) = inr (g.waits, rw w (omega arith))
  nearer s u g (stop w e) = inr (g.waits, rw w (omega arith))
  nearer s u g (sleep_free w e) = inr (g.waits, rw w (omega arith))
  nearer s u g (fill i w) = inr (g.waits, rw w (omega arith))
  nearer s u g (hand_over i w) =
      let (_, _, room, _) = rw w at g.inv.writer_ok in inr (g.waits, rw w (omega arith))
  nearer s u g (notify_ready w) =
      let more = woken s.reader g.waits in inr (more.0, rw w (omega (arith, more.1)))
  nearer s u g (open_slot i w e) = absurd (cc (sym g.waits ∙ ap waiting w))
  nearer s u g (sleep_ready w e) = absurd (cc (sym g.waits ∙ ap waiting w))
  nearer s u g (open_woken i w e) = inl (i, refl)
  nearer s u g (sleep_again w e) = inr (refl, rw w (omega arith))
  nearer s u g (copy i off take w some' fits) = absurd (cc (sym g.waits ∙ ap waiting w))
  nearer s u g (drop_slot i w) = absurd (cc (sym g.waits ∙ ap waiting w))
  nearer s u g (notify_free w) = absurd (cc (sym g.waits ∙ ap waiting w))
  nearer s u g (leave i off w) = absurd (cc (sym g.waits ∙ ap waiting w))
  nearer s u g (notify_left w) = absurd (cc (sym g.waits ∙ ap waiting w))
  nearer s u g (close w) = absurd (cc (sym g.waits ∙ ap waiting w))
  nearer s u g (finish_pipe w) = absurd (cc (sym g.waits ∙ ap waiting w))
  nearer s u g (notify_done w) = absurd (cc (sym g.waits ∙ ap waiting w))
  nearer s u g (join w e) = absurd (cc (sym g.waits ∙ ap waiting w))

  wait_lowers :
      (s : System A)
      → Waiting s
      → HasSlot s
        ⊎ (((t : System A) × Step vole n batch s t)
            × ((u : System A)
                → Step vole n batch s u
                → HasSlot u ⊎ (Waiting u × (rank u < rank s))))
  wait_lowers s g = inr (
    some_move s g,
    λ u e. elim (nearer s u g e) [
      | inl there ↦ inl there
      | inr lower ↦ inr (
        record {
          inv = Step-Inv g.inv e;
          rests = Step-Rests vole n batch g.rests e;
          waits = lower.0;
        },
        lower.1,
      )
    ],
  )

  -- With a slot or more, in every reachable state in which the consumer waits in `acquire_ready`,
  -- however the two threads take turns from there, a fill of a slot by the VOLE being one step: after
  -- at most `10 n + 9` steps the call has returned with a slot, and until then there is always a step
  -- that one of them can take.
  pub draw_served :
      {junk : ℕ → ℕ → A} {out : ℕ → A} {s : System A}
      → Reach vole n batch junk out s
      → waiting s.reader ≡ true
      → Inevitable vole n batch HasSlot (10 * n + 9) s
  unfolding rank
  draw_served {s} r waits =
      by_measure vole n batch {P = HasSlot} {Good = Waiting} rank wait_lowers (10 * n + 9) s
        (record { inv = Reach-Inv r; rests = Reach-Rests vole n batch r; waits = waits })
        (omega (arith, phase_le s.writer, wait_le s.reader))
