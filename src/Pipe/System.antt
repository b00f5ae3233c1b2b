-- ===== src/Pipe/System.antt =====
-- The two threads of FpOSTriple over one pipe (emp-zk/emp-zk-arith/ostriple.h): the producer's
-- loop in the constructor, the consumer's `draw_vole_`, and the destructor, in any interleaving.
-- A step is a section under the mutex, a notification, which follows without the mutex, or work on a
-- slot. A thread whose predicate does not hold sleeps until the other one notifies it; waking up
-- without that only tests the predicate again, and is left out.
use vole_zk.Common.{
  ℕ, Bool, true, false, ◌+◌, ◌-◌, ◌≤◌, ◌<◌, ltb, leb, ◌&&◌, if◌then◌else◌, update, ◌≡◌,
}
use vole_zk.Pipe.{Pipe, Answer, acquire_free, publish, release, acquire_ready, finish, empty_pipe}

-- `asleep` is in the wait of `acquire_free`, `notifying` between the two halves of `publish`.
pub data Writer : Type 0 where
  idle : Writer
  asleep : Writer
  filling : ℕ → Writer
  filled : ℕ → Writer
  notifying : Writer
  stopped : Writer

-- `cur_slot_` and `cur_off_`; `asleep` and `testing` are in the wait of `acquire_ready`, before and
-- after the notification, `notifying` between the two halves of `release`. From `leaving` on it is
-- the destructor: between the two halves of its `release`, before its `finish`, between the two
-- halves of that, in `join`, and after it.
pub data Reader : Type 0 where
  between : Reader
  asleep : Reader
  testing : Reader
  reading : (cur_slot cur_off : ℕ) → Reader
  notifying : Reader
  leaving : Reader
  closing : Reader
  finishing : Reader
  joining : Reader
  ended : Reader

-- Before the destructor.
unfoldable pub drawing : Reader → Bool
drawing Reader.between = true
drawing Reader.asleep = true
drawing Reader.testing = true
drawing (Reader.reading i off) = true
drawing Reader.notifying = true
drawing x = false

-- `notify_one` and `notify_all`: on each condition variable one thread may sleep.
unfoldable pub wake_writer : Writer → Writer
wake_writer Writer.asleep = Writer.idle
wake_writer w = w

unfoldable pub wake_reader : Reader → Reader
wake_reader Reader.asleep = Reader.testing
wake_reader x = x

-- `out` holds what the consumer drew, `taken` correlations; `made` counts those the VOLE gave.
-- `published` and `released` count the calls, for the proofs only.
pub record System {ℓ} (A : Type ℓ) : Type ℓ where
  pub pipe : Pipe A
  pub writer : Writer
  pub made : ℕ
  pub reader : Reader
  pub out : ℕ → A
  pub taken : ℕ
  pub published : ℕ
  pub released : ℕ

module _ {ℓ} {A : Type ℓ} (vole : ℕ → A) (n batch : ℕ) where
  -- `vole->next_n(pipe_->slot[i].data(), bg_batch_)`
  unfoldable pub fill_slot : System A → ℕ → System A
  fill_slot s i = record s {
    pipe = record s.pipe { slot = update s.pipe.slot i (λ j. vole (s.made + j)) };
    made = s.made + batch;
    writer = Writer.filled i;
  }

  -- The `memcpy` of `take` correlations, and the two offsets after it.
  unfoldable pub copy_out : System A → (i off take : ℕ) → System A
  copy_out s i off take = record s {
    out = λ j.
        if leb s.taken j && ltb j (s.taken + take)
        then s.pipe.slot i (off + (j - s.taken))
        else s.out j;
    taken = s.taken + take;
    reader = Reader.reading i (off + take);
  }

  pub data Step (s : System A) : System A → Type ℓ where
    acquire :
        (i : ℕ)
        → s.writer ≡ Writer.idle
        → acquire_free n s.pipe ≡ Answer.at i
        → Step s (record s { writer = Writer.filling i })
    stop :
        s.writer ≡ Writer.idle
        → acquire_free n s.pipe ≡ Answer.closed
        → Step s (record s { writer = Writer.stopped })
    sleep_free :
        s.writer ≡ Writer.idle
        → acquire_free n s.pipe ≡ Answer.blocked
        → Step s (record s { writer = Writer.asleep })
    fill : (i : ℕ) → s.writer ≡ Writer.filling i → Step s (fill_slot s i)
    hand_over :
        (i : ℕ)
        → s.writer ≡ Writer.filled i
        → Step s (record s {
          pipe = publish n s.pipe;
          writer = Writer.notifying;
          published = s.published + 1;
        })
    notify_ready :
        s.writer ≡ Writer.notifying
        → Step s (record s { writer = Writer.idle; reader = wake_reader s.reader })
    open_slot :
        (i : ℕ)
        → s.reader ≡ Reader.between
        → acquire_ready s.pipe ≡ Answer.at i
        → Step s (record s { reader = Reader.reading i 0 })
    sleep_ready :
        s.reader ≡ Reader.between
        → acquire_ready s.pipe ≡ Answer.blocked
        → Step s (record s { reader = Reader.asleep })
    open_woken :
        (i : ℕ)
        → s.reader ≡ Reader.testing
        → acquire_ready s.pipe ≡ Answer.at i
        → Step s (record s { reader = Reader.reading i 0 })
    sleep_again :
        s.reader ≡ Reader.testing
        → acquire_ready s.pipe ≡ Answer.blocked
        → Step s (record s { reader = Reader.asleep })
    copy :
        (i off take : ℕ)
        → s.reader ≡ Reader.reading i off
        → 0 < take
        → off + take ≤ batch
        → Step s (copy_out s i off take)
    drop_slot :
        (i : ℕ)
        → s.reader ≡ Reader.reading i batch
        → Step s (record s {
          pipe = release n s.pipe;
          reader = Reader.notifying;
          released = s.released + 1;
        })
    notify_free :
        s.reader ≡ Reader.notifying
        → Step s (record s { writer = wake_writer s.writer; reader = Reader.between })
    leave :
        (i off : ℕ)
        → s.reader ≡ Reader.reading i off
        → Step s (record s {
          pipe = release n s.pipe;
          reader = Reader.leaving;
          released = s.released + 1;
        })
    notify_left :
        s.reader ≡ Reader.leaving
        → Step s (record s { writer = wake_writer s.writer; reader = Reader.closing })
    close : s.reader ≡ Reader.between → Step s (record s { reader = Reader.closing })
    finish_pipe :
        s.reader ≡ Reader.closing
        → Step s (record s { pipe = finish s.pipe; reader = Reader.finishing })
    notify_done :
        s.reader ≡ Reader.finishing
        → Step s (record s { writer = wake_writer s.writer; reader = Reader.joining })
    join :
        s.reader ≡ Reader.joining
        → s.writer ≡ Writer.stopped
        → Step s (record s { reader = Reader.ended })

  unfoldable pub first : (ℕ → ℕ → A) → (ℕ → A) → System A
  first junk out = record {
    pipe = empty_pipe junk;
    writer = Writer.idle;
    made = 0;
    reader = Reader.between;
    out = out;
    taken = 0;
    published = 0;
    released = 0;
  }

  pub data Reach (junk : ℕ → ℕ → A) (out : ℕ → A) : System A → Type ℓ where
    start : Reach junk out (first junk out)
    later : {s t : System A} → Reach junk out s → Step s t → Reach junk out t
