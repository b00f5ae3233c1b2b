-- ===== src/Pipe/Sleep/Steps.antt =====
-- Every step keeps to it.
use vole_zk.Common.{ℕ, ◌+◌, true, false, ◌≡◌, ◌≢◌, inl, inr, refl, ap}
use vole_zk.Pipe.{publish, release, acquire_ready, finish}
use vole_zk.Pipe.System.{
  Writer, Reader, System, Step, acquire, stop, sleep_free, fill, hand_over, notify_ready, open_slot,
  sleep_ready, open_woken, sleep_again, copy, drop_slot, notify_free, leave, notify_left, close,
  finish_pipe, notify_done, join, Reach, first, fill_slot, copy_out, wake_writer, wake_reader,
}
use vole_zk.Pipe.Sleep.{
  frees, readies, WriterRests, ReaderRests, Rests, writer_same, writer_owed, writer_woken,
  reader_same, reader_woken, idle_on, filling_on, filled_on, notifying_on, closed_finished,
}

module _ {ℓ} {A : Type ℓ} (vole : ℕ → A) (n batch : ℕ) where
  -- Steps of the writer that leave the pipe's counters alone.
  writer_step :
      (s : System A) (w : Writer)
      → Rests n s
      → s.writer ≢ Writer.stopped
      → readies s.writer ≡ false
      → WriterRests n s.pipe s.reader w
      → Rests n (record s { writer = w })
  writer_step s w v go quiet rests = record {
    writer_rests = rests;
    reader_rests = reader_same n s.pipe s.pipe s.writer w s.reader go quiet inl v.reader_rests;
  }

  fill-Rests :
      (s : System A) (i : ℕ)
      → Rests n s
      → s.writer ≡ Writer.filling i
      → Rests n (fill_slot vole n batch s i)
  unfolding fill_slot WriterRests acquire_ready readies
  fill-Rests s i v w = record {
    writer_rests = tt;
    reader_rests =
        reader_same n s.pipe (fill_slot vole n batch s i).pipe s.writer (Writer.filled i) s.reader
          (filling_on w) (ap readies w) inl v.reader_rests;
  }

  publish-Rests :
      (s : System A) (i : ℕ)
      → Rests n s
      → s.writer ≡ Writer.filled i
      → Rests n (record s {
        pipe = publish n s.pipe;
        writer = Writer.notifying;
        published = s.published + 1;
      })
  unfolding WriterRests readies
  publish-Rests s i v w = record {
    writer_rests = tt;
    reader_rests =
        reader_same n s.pipe (publish n s.pipe) s.writer Writer.notifying s.reader (filled_on w)
          (ap readies w) (λ e. inr refl) v.reader_rests;
  }

  notify_ready-Rests :
      (s : System A)
      → Rests n s
      → s.writer ≡ Writer.notifying
      → Rests n (record s { writer = Writer.idle; reader = wake_reader s.reader })
  unfolding WriterRests
  notify_ready-Rests s v w = record {
    writer_rests = tt;
    reader_rests =
        reader_woken n s.pipe s.writer Writer.idle s.reader (notifying_on w) v.reader_rests;
  }

  -- The reader stays awake and ungone.
  reader_step :
      (s : System A) (x : Reader)
      → Rests n s
      → frees s.reader ≡ frees x
      → ReaderRests n s.pipe s.writer x
      → Rests n (record s { reader = x })
  reader_step s x v e ok = record {
    writer_rests = writer_same n s.pipe s.reader x s.writer e v.writer_rests;
    reader_rests = ok;
  }

  release-Rests :
      (s : System A) (x : Reader)
      → Rests n s
      → frees x ≡ true
      → ReaderRests n (release n s.pipe) s.writer x
      → Rests n (record s { pipe = release n s.pipe; reader = x; released = s.released + 1 })
  unfolding release
  release-Rests s x v e ok = record {
    writer_rests =
        writer_owed n s.pipe (release n s.pipe) s.reader x s.writer e (λ h. h) v.writer_rests;
    reader_rests = ok;
  }

  finish-Rests :
      (s : System A)
      → Rests n s
      → Rests n (record s { pipe = finish s.pipe; reader = Reader.finishing })
  unfolding finish frees ReaderRests
  finish-Rests s v = record {
    writer_rests =
        writer_owed n s.pipe (finish s.pipe) s.reader Reader.finishing s.writer refl (λ h. refl)
          v.writer_rests;
    reader_rests = tt;
  }

  notify-Rests :
      (s : System A) (x : Reader)
      → Rests n s
      → ((w : Writer) → ReaderRests n s.pipe w x)
      → Rests n (record s { writer = wake_writer s.writer; reader = x })
  notify-Rests s x v ok = record {
    writer_rests = writer_woken n s.pipe s.reader x s.writer v.writer_rests;
    reader_rests = ok (wake_writer s.writer);
  }

  idle_quiet : {w : Writer} → w ≡ Writer.idle → readies w ≡ false
  unfolding readies
  idle_quiet e = ap readies e

  pub Step-Rests : {s t : System A} → Rests n s → Step vole n batch s t → Rests n t
  unfolding WriterRests ReaderRests frees readies copy_out
  Step-Rests {s} v (acquire i w e) =
      writer_step s (Writer.filling i) v (idle_on w) (idle_quiet w) tt
  Step-Rests {s} v (stop w e) =
      writer_step s Writer.stopped v (idle_on w) (idle_quiet w) (closed_finished n s.pipe e)
  Step-Rests {s} v (sleep_free w e) =
      writer_step s Writer.asleep v (idle_on w) (idle_quiet w) (inl e)
  Step-Rests {s} v (fill i w) = fill-Rests s i v w
  Step-Rests {s} v (hand_over i w) = publish-Rests s i v w
  Step-Rests {s} v (notify_ready w) = notify_ready-Rests s v w
  Step-Rests {s} v (open_slot i w e) = reader_step s (Reader.reading i 0) v (ap frees w) tt
  Step-Rests {s} v (sleep_ready w e) = reader_step s Reader.asleep v (ap frees w) (inl e)
  Step-Rests {s} v (open_woken i w e) = reader_step s (Reader.reading i 0) v (ap frees w) tt
  Step-Rests {s} v (sleep_again w e) = reader_step s Reader.asleep v (ap frees w) (inl e)
  Step-Rests {s} v (copy i off take w some fits) = record {
    writer_rests =
        writer_same n s.pipe s.reader (Reader.reading i (off + take)) s.writer (ap frees w)
          v.writer_rests;
    reader_rests = tt;
  }
  Step-Rests {s} v (drop_slot i w) = release-Rests s Reader.notifying v refl tt
  Step-Rests {s} v (notify_free w) = notify-Rests s Reader.between v (λ w'. tt)
  Step-Rests {s} v (leave i off w) = release-Rests s Reader.leaving v refl tt
  Step-Rests {s} v (notify_left w) = notify-Rests s Reader.closing v (λ w'. tt)
  Step-Rests {s} v (close w) = reader_step s Reader.closing v (ap frees w) tt
  Step-Rests {s} v (finish_pipe w) = finish-Rests s v
  Step-Rests {s} v (notify_done w) = notify-Rests s Reader.joining v (λ w'. tt)
  Step-Rests {s} v (join w e) = reader_step s Reader.ended v (ap frees w) e

  pub Reach-Rests :
      {junk : ℕ → ℕ → A} {out : ℕ → A} {s : System A} → Reach vole n batch junk out s → Rests n s
  unfolding first WriterRests ReaderRests
  Reach-Rests Reach.start = record { writer_rests = tt; reader_rests = tt }
  Reach-Rests (Reach.later r e) = Step-Rests (Reach-Rests r) e
