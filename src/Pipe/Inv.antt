-- ===== src/Pipe/Inv.antt =====
-- What holds of the two threads and their pipe at every moment.
use vole_zk.Common.{ℕ, ◌+◌, ◌-◌, ◌*◌, ◌%◌, ◌≤◌, ◌<◌, Bool, true, false, ◌≡◌, refl, sym, arith}
use native.Mathlib.Nat.{zero-mod}
use vole_zk.Pipe.{empty_pipe}
use vole_zk.Pipe.System.{Writer, Reader, System, first, wake_writer, wake_reader}

module _ {ℓ} {A : Type ℓ} (vole : ℕ → A) (n batch : ℕ) where
  -- What the slot of the `k`-th batch holds.
  abbrev pub Holds : (ℕ → ℕ → A) → ℕ → ℕ → Type ℓ
  Holds slot i k = (j : ℕ) → j < batch → slot i j ≡ vole (k * batch + j)

  abbrev pub WriterOk : (ℕ → ℕ → A) → (count published made : ℕ) → Writer → Type ℓ
  WriterOk slot c p made Writer.idle = Unit {ℓ} × (made ≡ p * batch)
  WriterOk slot c p made (Writer.filling i) = Unit {ℓ} × (i ≡ p % n) × (c < n) × (made ≡ p * batch)
  WriterOk slot c p made (Writer.filled i) =
      Holds slot (p % n) p × (i ≡ p % n) × (c < n) × (made ≡ p * batch + batch)
  WriterOk slot c p made Writer.asleep = Unit {ℓ} × (made ≡ p * batch)
  WriterOk slot c p made Writer.notifying = Unit {ℓ} × (made ≡ p * batch)
  WriterOk slot c p made Writer.stopped = Unit {ℓ} × (made ≡ p * batch)

  abbrev pub ReaderOk : (count released taken : ℕ) (finished : Bool) → Reader → Type 0
  ReaderOk c r taken f Reader.between = (taken ≡ r * batch) × (f ≡ false)
  ReaderOk c r taken f (Reader.reading i off) =
      (i ≡ r % n) × (0 < c) × (off ≤ batch) × (taken ≡ r * batch + off) × (f ≡ false)
  ReaderOk c r taken f Reader.asleep = (taken ≡ r * batch) × (f ≡ false)
  ReaderOk c r taken f Reader.testing = (taken ≡ r * batch) × (f ≡ false)
  ReaderOk c r taken f Reader.notifying = (taken ≡ r * batch) × (f ≡ false)
  ReaderOk c r taken f Reader.leaving = f ≡ false
  ReaderOk c r taken f Reader.closing = f ≡ false
  ReaderOk c r taken f Reader.finishing = f ≡ true
  ReaderOk c r taken f Reader.joining = f ≡ true
  ReaderOk c r taken f Reader.ended = f ≡ true

  pub record RingOk (head tail count : ℕ) (producer_done : Bool) (r p : ℕ) : Type 0 where
    pub head_at : head ≡ r % n
    pub tail_at : tail ≡ p % n
    pub counted : r + count ≡ p
    pub bounded : count ≤ n
    pub quiet : producer_done ≡ false

  pub record Inv (s : System A) : Type ℓ where
    pub ring :
        RingOk s.pipe.head s.pipe.tail s.pipe.count s.pipe.producer_done s.released s.published
    pub writer_ok : WriterOk s.pipe.slot s.pipe.count s.published s.made s.writer
    pub reader_ok : ReaderOk s.pipe.count s.released s.taken s.pipe.finished s.reader
    pub held : (k : ℕ) → s.released ≤ k → k < s.published → Holds s.pipe.slot (k % n) k
    pub drawn : (j : ℕ) → j < s.taken → s.out j ≡ vole j

  -- A batch more does not matter to the reader, nor a free slot more to the writer.
  pub more_ready :
      (c r taken : ℕ) (f : Bool) (x : Reader)
      → ReaderOk c r taken f x
      → ReaderOk (c + 1) r taken f x
  more_ready c r taken f Reader.between h = h
  more_ready c r taken f (Reader.reading i off) (a, b, h, at, live) = (a, omega arith, h, at, live)
  more_ready c r taken f Reader.asleep h = h
  more_ready c r taken f Reader.testing h = h
  more_ready c r taken f Reader.notifying h = h
  more_ready c r taken f Reader.leaving h = h
  more_ready c r taken f Reader.closing h = h
  more_ready c r taken f Reader.finishing h = h
  more_ready c r taken f Reader.joining h = h
  more_ready c r taken f Reader.ended h = h

  pub more_free :
      (slot : ℕ → ℕ → A) (c p made : ℕ) (x : Writer)
      → WriterOk slot c p made x
      → WriterOk slot (c - 1) p made x
  more_free slot c p made Writer.idle h = h
  more_free slot c p made (Writer.filling i) (a, b, lt, h) = (a, b, omega arith, h)
  more_free slot c p made (Writer.filled i) (a, b, lt, h) = (a, b, omega arith, h)
  more_free slot c p made Writer.asleep h = h
  more_free slot c p made Writer.notifying h = h
  more_free slot c p made Writer.stopped h = h

  -- Waking up changes nothing.
  pub woken_reader :
      (c r taken : ℕ) (f : Bool) (x : Reader)
      → ReaderOk c r taken f x
      → ReaderOk c r taken f (wake_reader x)
  unfolding wake_reader
  woken_reader c r taken f Reader.between h = h
  woken_reader c r taken f Reader.asleep h = h
  woken_reader c r taken f Reader.testing h = h
  woken_reader c r taken f (Reader.reading i off) h = h
  woken_reader c r taken f Reader.notifying h = h
  woken_reader c r taken f Reader.leaving h = h
  woken_reader c r taken f Reader.closing h = h
  woken_reader c r taken f Reader.finishing h = h
  woken_reader c r taken f Reader.joining h = h
  woken_reader c r taken f Reader.ended h = h

  pub woken_writer :
      (slot : ℕ → ℕ → A) (c p made : ℕ) (x : Writer)
      → WriterOk slot c p made x
      → WriterOk slot c p made (wake_writer x)
  unfolding wake_writer
  woken_writer slot c p made Writer.idle h = h
  woken_writer slot c p made Writer.asleep h = h
  woken_writer slot c p made (Writer.filling i) h = h
  woken_writer slot c p made (Writer.filled i) h = h
  woken_writer slot c p made Writer.notifying h = h
  woken_writer slot c p made Writer.stopped h = h

  pub first-Inv : (junk : ℕ → ℕ → A) (out : ℕ → A) → Inv (first vole n batch junk out)
  unfolding first empty_pipe
  first-Inv junk out = record {
    ring = record {
      head_at = sym (zero-mod n);
      tail_at = sym (zero-mod n);
      counted = refl;
      bounded = omega arith;
      quiet = refl;
    };
    writer_ok = (tt, omega arith);
    reader_ok = (omega arith, refl);
    held = λ k a b. absurd (omega arith);
    drawn = λ j h. absurd (omega arith);
  }
