-- ===== src/Pipe/Sleep.antt =====
-- A thread that sleeps has a reason to, or is about to be notified.
pub mod Steps
use vole_zk.Common.{ℕ, Bool, true, false, ◌≡◌, ◌≢◌, ◌⊎◌, inl, inr, sym, ◌∙◌, arith}
use vole_zk.Pipe.{Pipe, Answer, acquire_free, acquire_ready}
use vole_zk.Pipe.System.{Writer, Reader, System, wake_writer, wake_reader}

-- `notify` on `cv_free` is the reader's next step.
unfoldable pub frees : Reader → Bool
frees Reader.notifying = true
frees Reader.leaving = true
frees Reader.finishing = true
frees x = false

unfoldable pub readies : Writer → Bool
readies Writer.notifying = true
readies w = false

pub idle_on : {w : Writer} → w ≡ Writer.idle → w ≢ Writer.stopped
idle_on e h = cc (sym e ∙ h)

pub filling_on : {w : Writer} {i : ℕ} → w ≡ Writer.filling i → w ≢ Writer.stopped
filling_on e h = cc (sym e ∙ h)

pub filled_on : {w : Writer} {i : ℕ} → w ≡ Writer.filled i → w ≢ Writer.stopped
filled_on e h = cc (sym e ∙ h)

pub notifying_on : {w : Writer} → w ≡ Writer.notifying → w ≢ Writer.stopped
notifying_on e h = cc (sym e ∙ h)

module _ {ℓ} {A : Type ℓ} (n : ℕ) where
  unfoldable pub WriterRests : Pipe A → Reader → Writer → Type 0
  WriterRests p x Writer.asleep = (acquire_free n p ≡ Answer.blocked) ⊎ (frees x ≡ true)
  WriterRests p x Writer.stopped = p.finished ≡ true
  WriterRests p x w = Unit

  unfoldable pub ReaderRests : Pipe A → Writer → Reader → Type 0
  ReaderRests p w Reader.asleep = (acquire_ready p ≡ Answer.blocked) ⊎ (readies w ≡ true)
  ReaderRests p w Reader.ended = w ≡ Writer.stopped
  ReaderRests p w x = Unit

  pub record Rests (s : System A) : Type 0 where
    pub writer_rests : WriterRests s.pipe s.reader s.writer
    pub reader_rests : ReaderRests s.pipe s.writer s.reader

  -- The reader moves on without touching the pipe, or what it owes to the writer.
  pub writer_same :
      (p : Pipe A) (x y : Reader) (w : Writer)
      → frees x ≡ frees y
      → WriterRests p x w
      → WriterRests p y w
  unfolding WriterRests
  writer_same p x y Writer.idle e h = tt
  writer_same p x y Writer.asleep e (inl h) = inl h
  writer_same p x y Writer.asleep e (inr h) = inr (sym e ∙ h)
  writer_same p x y (Writer.filling i) e h = tt
  writer_same p x y (Writer.filled i) e h = tt
  writer_same p x y Writer.notifying e h = tt
  writer_same p x y Writer.stopped e h = h

  -- The reader changes the pipe, and notifies next.
  pub writer_owed :
      (p q : Pipe A) (x y : Reader) (w : Writer)
      → frees y ≡ true
      → (p.finished ≡ true → q.finished ≡ true)
      → WriterRests p x w
      → WriterRests q y w
  unfolding WriterRests
  writer_owed p q x y Writer.idle e f h = tt
  writer_owed p q x y Writer.asleep e f h = inr e
  writer_owed p q x y (Writer.filling i) e f h = tt
  writer_owed p q x y (Writer.filled i) e f h = tt
  writer_owed p q x y Writer.notifying e f h = tt
  writer_owed p q x y Writer.stopped e f h = f h

  pub writer_woken :
      (p : Pipe A) (x y : Reader) (w : Writer) → WriterRests p x w → WriterRests p y (wake_writer w)
  unfolding WriterRests wake_writer
  writer_woken p x y Writer.idle h = tt
  writer_woken p x y Writer.asleep h = tt
  writer_woken p x y (Writer.filling i) h = tt
  writer_woken p x y (Writer.filled i) h = tt
  writer_woken p x y Writer.notifying h = tt
  writer_woken p x y Writer.stopped h = h

  -- The writer, which has not stopped, moves on: what the reader waits for is as it was, or the
  -- writer notifies next.
  pub reader_same :
      (p q : Pipe A) (v w : Writer) (x : Reader)
      → v ≢ Writer.stopped
      → readies v ≡ false
      → ((acquire_ready p ≡ Answer.blocked)
          → (acquire_ready q ≡ Answer.blocked) ⊎ (readies w ≡ true))
      → ReaderRests p v x
      → ReaderRests q w x
  unfolding ReaderRests
  reader_same p q v w Reader.between go f g h = tt
  reader_same p q v w Reader.testing go f g h = tt
  reader_same p q v w Reader.asleep go f g (inl h) = g h
  reader_same p q v w Reader.asleep go f g (inr h) = absurd (cc (sym f ∙ h))
  reader_same p q v w (Reader.reading i off) go f g h = tt
  reader_same p q v w Reader.notifying go f g h = tt
  reader_same p q v w Reader.leaving go f g h = tt
  reader_same p q v w Reader.closing go f g h = tt
  reader_same p q v w Reader.finishing go f g h = tt
  reader_same p q v w Reader.joining go f g h = tt
  reader_same p q v w Reader.ended go f g h = absurd (go h)

  pub reader_woken :
      (p : Pipe A) (v w : Writer) (x : Reader)
      → v ≢ Writer.stopped
      → ReaderRests p v x
      → ReaderRests p w (wake_reader x)
  unfolding ReaderRests wake_reader
  reader_woken p v w Reader.between go h = tt
  reader_woken p v w Reader.asleep go h = tt
  reader_woken p v w Reader.testing go h = tt
  reader_woken p v w (Reader.reading i off) go h = tt
  reader_woken p v w Reader.notifying go h = tt
  reader_woken p v w Reader.leaving go h = tt
  reader_woken p v w Reader.closing go h = tt
  reader_woken p v w Reader.finishing go h = tt
  reader_woken p v w Reader.joining go h = tt
  reader_woken p v w Reader.ended go h = absurd (go h)

  pub closed_finished : (p : Pipe A) → acquire_free n p ≡ Answer.closed → p.finished ≡ true
  unfolding acquire_free
  closed_finished p e = ground arith
