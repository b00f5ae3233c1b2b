-- ===== src/Pipe/Progress/Shutdown.antt =====
-- The destructor of FpOSTriple (ostriple.h) returns: the producer is woken, stops and is joined.
use vole_zk.Common.{
  ℕ, ◌+◌, ◌-◌, ◌*◌, ◌≤◌, ◌<◌, true, false, ◌≡◌, ◌≢◌, ◌⊎◌, inl, inr, refl, sym, ap, ◌∙◌, arith,
}
use vole_zk.Pipe.{Pipe, Answer, acquire_free, publish, finish}
use vole_zk.Pipe.System.{
  Writer, Reader, System, Step, acquire, stop, sleep_free, fill, hand_over, notify_ready, open_slot,
  sleep_ready, open_woken, sleep_again, copy, drop_slot, notify_free, leave, notify_left, close,
  finish_pipe, notify_done, join, Reach, fill_slot, wake_writer, wake_reader, drawing,
}
use vole_zk.Pipe.Inv.{Inv}
use vole_zk.Pipe.Preserve.{Step-Inv, Reach-Inv}
use vole_zk.Pipe.Sleep.{frees, WriterRests, ReaderRests, Rests}
use vole_zk.Pipe.Sleep.Steps.{Step-Rests, Reach-Rests}
use vole_zk.Pipe.Progress.{Inevitable, by_measure, writer_phase, phase_le}

-- Where the destructor is.
unfoldable departing : Reader → ℕ
departing Reader.leaving = 4
departing Reader.closing = 3
departing Reader.finishing = 2
departing Reader.joining = 1
departing x = 0

departing_le : (x : Reader) → departing x ≤ 4
unfolding departing
departing_le Reader.between = omega arith
departing_le Reader.asleep = omega arith
departing_le Reader.testing = omega arith
departing_le (Reader.reading i off) = omega arith
departing_le Reader.notifying = omega arith
departing_le Reader.leaving = omega arith
departing_le Reader.closing = omega arith
departing_le Reader.finishing = omega arith
departing_le Reader.joining = omega arith
departing_le Reader.ended = omega arith

phase-wake_writer : (w : Writer) → writer_phase (wake_writer w) ≤ writer_phase w + 4
unfolding writer_phase wake_writer
phase-wake_writer Writer.idle = omega arith
phase-wake_writer Writer.asleep = omega arith
phase-wake_writer (Writer.filling i) = omega arith
phase-wake_writer (Writer.filled i) = omega arith
phase-wake_writer Writer.notifying = omega arith
phase-wake_writer Writer.stopped = omega arith

departing_awake : (x : Reader) → drawing x ≡ false → wake_reader x ≡ x
unfolding drawing wake_reader
departing_awake Reader.between e = refl
departing_awake Reader.asleep e = cc e
departing_awake Reader.testing e = refl
departing_awake (Reader.reading i off) e = refl
departing_awake Reader.notifying e = refl
departing_awake Reader.leaving e = refl
departing_awake Reader.closing e = refl
departing_awake Reader.finishing e = refl
departing_awake Reader.joining e = refl
departing_awake Reader.ended e = refl

abbrev pub Joined {ℓ} : {A : Type ℓ} → System A → Type 0
Joined s = (s.reader ≡ Reader.ended) × (s.writer ≡ Writer.stopped)

module _ {ℓ} {A : Type ℓ} (vole : ℕ → A) (n batch : ℕ) where
  -- In the destructor.
  record Leaving (s : System A) : Type ℓ where
    inv : Inv vole n batch s
    rests : Rests n s
    gone : drawing s.reader ≡ false

  unfoldable rank : System A → ℕ
  rank s = 10 * departing s.reader + 10 * (n - s.pipe.count) + writer_phase s.writer

  closes : (p : Pipe A) → p.finished ≡ true → acquire_free n p ≡ Answer.closed
  unfolding acquire_free
  closes p e = ground arith

  not_left : (p : Pipe A) → p.finished ≡ true → acquire_free n p ≢ Answer.blocked
  not_left p e h = cc (sym (closes p e) ∙ h)

  -- The writer can go on, or has stopped, once `finish` was called.
  joining_moves :
      (s : System A)
      → Leaving s
      → s.reader ≡ Reader.joining
      → (w : Writer) → s.writer ≡ w
      → (t : System A) × Step vole n batch s t
  unfolding WriterRests frees
  joining_moves s g x Writer.idle e = (_, stop e (closes s.pipe (rw x at g.inv.reader_ok)))
  joining_moves s g x Writer.asleep e = elim (rw (e, x) at g.rests.writer_rests) [
    | inl blocked ↦ absurd (not_left s.pipe (rw x at g.inv.reader_ok) blocked)
    | inr due ↦ absurd (cc due)
  ]
  joining_moves s g x (Writer.filling i) e = (_, fill i e)
  joining_moves s g x (Writer.filled i) e = (_, hand_over i e)
  joining_moves s g x Writer.notifying e = (_, notify_ready e)
  joining_moves s g x Writer.stopped e = (_, join x e)

  departure_moves :
      (s : System A)
      → Leaving s
      → (x : Reader) → s.reader ≡ x
      → Joined s ⊎ ((t : System A) × Step vole n batch s t)
  unfolding ReaderRests drawing
  departure_moves s g Reader.between e = absurd (cc (sym g.gone ∙ ap drawing e))
  departure_moves s g Reader.asleep e = absurd (cc (sym g.gone ∙ ap drawing e))
  departure_moves s g Reader.testing e = absurd (cc (sym g.gone ∙ ap drawing e))
  departure_moves s g (Reader.reading i off) e = absurd (cc (sym g.gone ∙ ap drawing e))
  departure_moves s g Reader.notifying e = absurd (cc (sym g.gone ∙ ap drawing e))
  departure_moves s g Reader.leaving e = inr (_, notify_left e)
  departure_moves s g Reader.closing e = inr (_, finish_pipe e)
  departure_moves s g Reader.finishing e = inr (_, notify_done e)
  departure_moves s g Reader.joining e = inr (joining_moves s g e s.writer refl)
  departure_moves s g Reader.ended e = inl (e, rw e at g.rests.reader_rests)

  lowered :
      (s u : System A)
      → Leaving s
      → Step vole n batch s u
      → (drawing u.reader ≡ false) × (rank u < rank s)
  unfolding rank writer_phase departing drawing fill_slot publish finish
  lowered s u g (acquire i w e) = (g.gone, rw w (omega arith))
  lowered s u g (stop w e) = (g.gone, rw w (omega arith))
  lowered s u g (sleep_free w e) = (g.gone, rw w (omega arith))
  lowered s u g (fill i w) = (g.gone, rw w (omega arith))
  lowered s u g (hand_over i w) =
      let (_, _, room, _) = rw w at g.inv.writer_ok in (g.gone, rw w (omega arith))
  lowered s u g (notify_ready w) = rw (departing_awake s.reader g.gone, w) (g.gone, omega arith)
  lowered s u g (open_slot i w e) = absurd (cc (sym g.gone ∙ ap drawing w))
  lowered s u g (sleep_ready w e) = absurd (cc (sym g.gone ∙ ap drawing w))
  lowered s u g (open_woken i w e) = absurd (cc (sym g.gone ∙ ap drawing w))
  lowered s u g (sleep_again w e) = absurd (cc (sym g.gone ∙ ap drawing w))
  lowered s u g (copy i off take w some fits) = absurd (cc (sym g.gone ∙ ap drawing w))
  lowered s u g (drop_slot i w) = absurd (cc (sym g.gone ∙ ap drawing w))
  lowered s u g (notify_free w) = absurd (cc (sym g.gone ∙ ap drawing w))
  lowered s u g (leave i off w) = absurd (cc (sym g.gone ∙ ap drawing w))
  lowered s u g (notify_left w) = (refl, rw w (omega (arith, phase-wake_writer s.writer)))
  lowered s u g (close w) = absurd (cc (sym g.gone ∙ ap drawing w))
  lowered s u g (finish_pipe w) = (refl, rw w (omega arith))
  lowered s u g (notify_done w) = (refl, rw w (omega (arith, phase-wake_writer s.writer)))
  lowered s u g (join w e) = (refl, rw w (omega arith))

  departure_lowers :
      (s : System A)
      → Leaving s
      → Joined s
        ⊎ (((t : System A) × Step vole n batch s t)
            × ((u : System A) → Step vole n batch s u → Joined u ⊎ (Leaving u × (rank u < rank s))))
  departure_lowers s g = elim (departure_moves s g s.reader refl) [
    | inl there ↦ inl there
    | inr more ↦ inr (
      more,
      λ u e.
          let lower = lowered s u g e in
          inr (
            record {
              inv = Step-Inv g.inv e;
              rests = Step-Rests vole n batch g.rests e;
              gone = lower.0;
            },
            lower.1,
          ),
    )
  ]

  -- In every reachable state of the destructor, however the two threads take turns from there, a fill
  -- of a slot by the VOLE being one step: after at most `10 n + 48` steps the producer has stopped and
  -- `join` has returned, and until then there is always a step that one of them can take.
  pub shutdown_joins :
      {junk : ℕ → ℕ → A} {out : ℕ → A} {s : System A}
      → Reach vole n batch junk out s
      → drawing s.reader ≡ false
      → Inevitable vole n batch Joined (10 * n + 48) s
  unfolding rank
  shutdown_joins {s} r gone =
      by_measure vole n batch {P = Joined} {Good = Leaving} rank departure_lowers (10 * n + 48) s
        (record { inv = Reach-Inv r; rests = Reach-Rests vole n batch r; gone = gone })
        (omega (arith, departing_le s.reader, phase_le s.writer))
