-- ===== src/Pipe/Preserve.antt =====
-- Every step of the two threads keeps the invariant.
use vole_zk.Common.{
  ℕ, ◌+◌, ◌-◌, ◌*◌, ◌%◌, ◌≤◌, ◌<◌, Bool, false, Bool-cases, ◌&&◌, ltb, ltb→lt, ltb-false, leb,
  if◌then◌else◌, update, update_self, update_ne, ◌≡◌, refl, sym, ap, ◌∙◌, inl, inr, arith,
}
use vole_zk.Pipe.{Pipe, Answer, acquire_free, publish, release, acquire_ready, finish}
use vole_zk.Pipe.System.{
  Writer, Reader, System, Step, acquire, stop, sleep_free, fill, hand_over, notify_ready, open_slot,
  sleep_ready, open_woken, sleep_again, copy, drop_slot, notify_free, leave, notify_left, close,
  finish_pipe, notify_done, join, Reach, fill_slot, copy_out, wake_writer, wake_reader,
}
use vole_zk.Pipe.Index.{index_ne, next_index}
use vole_zk.Pipe.Inv.{
  Holds, RingOk, WriterOk, ReaderOk, Inv, more_ready, more_free, woken_reader, woken_writer,
  first-Inv,
}

free_at {ℓ} :
    {A : Type ℓ} (n : ℕ) (p : Pipe A) (i : ℕ)
    → acquire_free n p ≡ Answer.at i
    → (i ≡ p.tail) × (p.count < n)
unfolding acquire_free
free_at n p i e = ground arith

kept {ℓ} :
    {A : Type ℓ} (taken take j : ℕ) (a b : A)
    → j < taken
    → (if leb taken j && ltb j (taken + take) then a else b) ≡ b
kept taken take j a b h = ground arith

written {ℓ} :
    {A : Type ℓ} (taken take j : ℕ) (a b : A)
    → taken ≤ j
    → j < taken + take
    → (if leb taken j && ltb j (taken + take) then a else b) ≡ a
written taken take j a b h k = ground arith

ready_at {ℓ} :
    {A : Type ℓ} (p : Pipe A) (i : ℕ) → acquire_ready p ≡ Answer.at i → (i ≡ p.head) × (0 < p.count)
unfolding acquire_ready
ready_at p i e = ground arith

module _ {ℓ} {A : Type ℓ} (vole : ℕ → A) (n batch : ℕ) where
  slot_new :
      (s : System A) (i : ℕ)
      → i ≡ s.published % n
      → (j : ℕ)
      → update s.pipe.slot i (λ j'. vole (s.made + j')) (s.published % n) j ≡ vole (s.made + j)
  slot_new s i e j =
      ap (λ t. update s.pipe.slot i (λ j'. vole (s.made + j')) t j) (sym e)
      ∙ ap (λ f. f j) (update_self s.pipe.slot i (λ j'. vole (s.made + j')))

  newest :
      (s : System A)
      → Holds vole n batch s.pipe.slot (s.published % n) s.published
      → (k : ℕ) → s.published ≡ k
      → Holds vole n batch s.pipe.slot (k % n) k
  newest s new k e = rw e at new

module _ {ℓ} {A : Type ℓ} {vole : ℕ → A} {n batch : ℕ} where
  -- A thread moves on without the pipe.
  writer-Inv :
      (s : System A) (w : Writer)
      → Inv vole n batch s
      → WriterOk vole n batch s.pipe.slot s.pipe.count s.published s.made w
      → Inv vole n batch (record s { writer = w })
  writer-Inv s w v ok = record {
    ring = v.ring;
    reader_ok = v.reader_ok;
    held = v.held;
    drawn = v.drawn;
    writer_ok = ok;
  }

  reader-Inv :
      (s : System A) (x : Reader)
      → Inv vole n batch s
      → ReaderOk vole n batch s.pipe.count s.released s.taken s.pipe.finished x
      → Inv vole n batch (record s { reader = x })
  reader-Inv s x v ok = record {
    ring = v.ring;
    writer_ok = v.writer_ok;
    held = v.held;
    drawn = v.drawn;
    reader_ok = ok;
  }

  -- The reader notifies the writer, and moves on.
  notify-Inv :
      (s : System A) (x : Reader)
      → Inv vole n batch s
      → ReaderOk vole n batch s.pipe.count s.released s.taken s.pipe.finished x
      → Inv vole n batch (record s { writer = wake_writer s.writer; reader = x })
  notify-Inv s x v ok =
      reader-Inv (record s { writer = wake_writer s.writer }) x
        (writer-Inv s (wake_writer s.writer) v (
          woken_writer vole n batch s.pipe.slot s.pipe.count s.published s.made s.writer
            v.writer_ok))
        ok

  notify_ready-Inv :
      (s : System A)
      → Inv vole n batch s
      → s.writer ≡ Writer.notifying
      → Inv vole n batch (record s { writer = Writer.idle; reader = wake_reader s.reader })
  notify_ready-Inv s v w =
      reader-Inv (record s { writer = Writer.idle }) (wake_reader s.reader)
        (writer-Inv s Writer.idle v (rw w at v.writer_ok))
        (woken_reader vole n batch s.pipe.count s.released s.taken s.pipe.finished s.reader
          v.reader_ok)

  acquire-Inv :
      (s : System A) (i : ℕ)
      → Inv vole n batch s
      → s.writer ≡ Writer.idle
      → acquire_free n s.pipe ≡ Answer.at i
      → Inv vole n batch (record s { writer = Writer.filling i })
  acquire-Inv s i v w e =
      let free = free_at n s.pipe i e in
      record {
        ring = v.ring;
        reader_ok = v.reader_ok;
        held = v.held;
        drawn = v.drawn;
        writer_ok = (tt, free.0 ∙ v.ring.tail_at, free.1, (rw w at v.writer_ok).1);
      }

  fill-Inv :
      (s : System A) (i : ℕ)
      → Inv vole n batch s
      → s.writer ≡ Writer.filling i
      → Inv vole n batch (fill_slot vole n batch s i)
  unfolding fill_slot
  fill-Inv s i v w =
      let (_, i_at, room, made_at) = rw w at v.writer_ok in
      record {
        ring = v.ring;
        reader_ok = v.reader_ok;
        drawn = v.drawn;
        writer_ok = (
          λ j small. slot_new vole n batch s i i_at j ∙ ap (λ m. vole (m + j)) made_at,
          i_at,
          room,
          omega arith,
        );
        held = λ k low high j small.
            ap (λ f. f j)
              (update_ne s.pipe.slot i (λ j'. vole (s.made + j')) (k % n)
                (λ e. index_ne n k s.published high (omega (arith, v.ring.counted)) (e ∙ i_at)))
            ∙ v.held k low high j small;
      }

  publish-Inv :
      (s : System A) (i : ℕ)
      → Inv vole n batch s
      → s.writer ≡ Writer.filled i
      → Inv vole n batch (record s {
        pipe = publish n s.pipe;
        writer = Writer.notifying;
        published = s.published + 1;
      })
  unfolding publish
  publish-Inv s i v w =
      let (new, i_at, room, made_at) = rw w at v.writer_ok in
      let ring = v.ring in
      record {
        ring = record {
          head_at = ring.head_at;
          tail_at = ap (λ t. (t + 1) % n) ring.tail_at ∙ next_index n s.published;
          counted = omega (arith, ring.counted);
          bounded = omega arith;
          quiet = ring.quiet;
        };
        writer_ok = (tt, omega arith);
        reader_ok =
            more_ready vole n batch s.pipe.count s.released s.taken s.pipe.finished s.reader
              v.reader_ok;
        held = λ k low high. elim (Bool-cases (ltb k s.published)) [
          | inl h ↦ v.held k low (ltb→lt k s.published h)
          | inr h ↦ newest vole n batch s new k (omega (arith, ltb-false k s.published h))
        ];
        drawn = v.drawn;
      }

  open_slot-Inv :
      (s : System A) (i : ℕ)
      → Inv vole n batch s
      → (s.taken ≡ s.released * batch) × (s.pipe.finished ≡ false)
      → acquire_ready s.pipe ≡ Answer.at i
      → Inv vole n batch (record s { reader = Reader.reading i 0 })
  open_slot-Inv s i v w e =
      let ready = ready_at s.pipe i e in
      let (at, alive) = w in
      record {
        ring = v.ring;
        writer_ok = v.writer_ok;
        held = v.held;
        drawn = v.drawn;
        reader_ok = (ready.0 ∙ v.ring.head_at, ready.1, omega arith, omega arith, alive);
      }

  copy-Inv :
      (s : System A) (i off take : ℕ)
      → Inv vole n batch s
      → s.reader ≡ Reader.reading i off
      → off + take ≤ batch
      → Inv vole n batch (copy_out vole n batch s i off take)
  unfolding copy_out
  copy-Inv s i off take v w fits =
      let (i_at, ready, _, at, alive) = rw w at v.reader_ok in
      record {
        ring = v.ring;
        writer_ok = v.writer_ok;
        held = v.held;
        reader_ok = (i_at, ready, fits, omega arith, alive);
        drawn = λ j low. elim (Bool-cases (ltb j s.taken)) [
          | inl h ↦ kept s.taken take j _ _ (ltb→lt j s.taken h) ∙ v.drawn j (ltb→lt j s.taken h)
          | inr h ↦
              written s.taken take j _ _ (ltb-false j s.taken h) low
              ∙ ap (λ t. s.pipe.slot t (off + (j - s.taken))) i_at
              ∙ v.held s.released (omega arith) (omega (arith, v.ring.counted))
                  (off + (j - s.taken)) (omega (arith, ltb-false j s.taken h))
              ∙ ap vole (omega (arith, ltb-false j s.taken h))
        ];
      }

  release_ring :
      {h t c : ℕ} {d : Bool} {r p : ℕ}
      → RingOk vole n batch h t c d r p
      → 0 < c
      → RingOk vole n batch ((h + 1) % n) t (c - 1) d (r + 1) p
  release_ring {r} ring some_ready = record {
    head_at = ap (λ h. (h + 1) % n) ring.head_at ∙ next_index n r;
    tail_at = ring.tail_at;
    counted = omega (arith, ring.counted);
    bounded = omega (arith, ring.bounded);
    quiet = ring.quiet;
  }

  -- `release`, with the reader at `x` after it.
  release-Inv :
      (s : System A) (i off : ℕ) (x : Reader)
      → Inv vole n batch s
      → s.reader ≡ Reader.reading i off
      → ReaderOk vole n batch (s.pipe.count - 1) (s.released + 1) s.taken s.pipe.finished x
      → Inv vole n batch
          (record s { pipe = release n s.pipe; reader = x; released = s.released + 1 })
  unfolding release
  release-Inv s i off x v w ok = record {
    ring = release_ring v.ring (rw w at v.reader_ok).1;
    writer_ok =
        more_free vole n batch s.pipe.slot s.pipe.count s.published s.made s.writer v.writer_ok;
    reader_ok = ok;
    held = λ k low. v.held k (omega arith);
    drawn = v.drawn;
  }

  finish-Inv :
      (s : System A)
      → Inv vole n batch s
      → Inv vole n batch (record s { pipe = finish s.pipe; reader = Reader.finishing })
  unfolding finish
  finish-Inv s v = record {
    ring = v.ring;
    writer_ok = v.writer_ok;
    held = v.held;
    drawn = v.drawn;
    reader_ok = refl;
  }

  drained :
      (s : System A) (i : ℕ)
      → Inv vole n batch s
      → s.reader ≡ Reader.reading i batch
      → (s.taken ≡ (s.released + 1) * batch) × (s.pipe.finished ≡ false)
  drained s i v w = let (_, _, _, at, alive) = rw w at v.reader_ok in (omega arith, alive)

  pub Step-Inv : {s t : System A} → Inv vole n batch s → Step vole n batch s t → Inv vole n batch t
  Step-Inv {s} v (acquire i w e) = acquire-Inv s i v w e
  Step-Inv {s} v (stop w e) = writer-Inv s Writer.stopped v (rw w at v.writer_ok)
  Step-Inv {s} v (sleep_free w e) = writer-Inv s Writer.asleep v (rw w at v.writer_ok)
  Step-Inv {s} v (fill i w) = fill-Inv s i v w
  Step-Inv {s} v (hand_over i w) = publish-Inv s i v w
  Step-Inv {s} v (notify_ready w) = notify_ready-Inv s v w
  Step-Inv {s} v (open_slot i w e) = open_slot-Inv s i v (rw w at v.reader_ok) e
  Step-Inv {s} v (open_woken i w e) = open_slot-Inv s i v (rw w at v.reader_ok) e
  Step-Inv {s} v (sleep_again w e) = reader-Inv s Reader.asleep v (rw w at v.reader_ok)
  Step-Inv {s} v (sleep_ready w e) = reader-Inv s Reader.asleep v (rw w at v.reader_ok)
  Step-Inv {s} v (copy i off take w some fits) = copy-Inv s i off take v w fits
  Step-Inv {s} v (drop_slot i w) = release-Inv s i batch Reader.notifying v w (drained s i v w)
  Step-Inv {s} v (notify_free w) = notify-Inv s Reader.between v (rw w at v.reader_ok)
  Step-Inv {s} v (leave i off w) = release-Inv s i off Reader.leaving v w (rw w at v.reader_ok).4
  Step-Inv {s} v (notify_left w) = notify-Inv s Reader.closing v (rw w at v.reader_ok)
  Step-Inv {s} v (close w) = reader-Inv s Reader.closing v (rw w at v.reader_ok).1
  Step-Inv {s} v (finish_pipe w) = finish-Inv s v
  Step-Inv {s} v (notify_done w) = notify-Inv s Reader.joining v (rw w at v.reader_ok)
  Step-Inv {s} v (join w e) = reader-Inv s Reader.ended v (rw w at v.reader_ok)

  pub Reach-Inv :
      {junk : ℕ → ℕ → A} {out : ℕ → A} {s : System A}
      → Reach vole n batch junk out s
      → Inv vole n batch s
  Reach-Inv {junk} {out} Reach.start = first-Inv vole n batch junk out
  Reach-Inv (Reach.later r e) = Step-Inv (Reach-Inv r) e
