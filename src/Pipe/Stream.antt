-- ===== src/Pipe/Stream.antt =====
-- What `draw_vole_` promises of the background VOLE: the stream of the foreground one, in order,
-- with no slot written while it is read.
use vole_zk.Common.{
  ℕ, suc, ◌+◌, ◌*◌, ◌≤◌, ◌<◌, Bool, true, false, ◌⊎◌, inl, inr, ◌≡◌, ◌≢◌, sym, ◌∙◌, arith,
}
use native.Mathlib.Nat.{mul-le-mul_right}
use vole_zk.Pipe.{Pipe, Answer, acquire_ready}
use vole_zk.Pipe.System.{Writer, Reader, System, Reach, drawing}
use vole_zk.Pipe.Index.{index_ne}
use vole_zk.Pipe.Inv.{WriterOk, ReaderOk}
use vole_zk.Pipe.Preserve.{Reach-Inv}

module _ {ℓ} {A : Type ℓ} (vole : ℕ → A) (n batch : ℕ) where
  made_bounds :
      (slot : ℕ → ℕ → A) (c p made : ℕ) (w : Writer)
      → WriterOk vole n batch slot c p made w
      → c ≤ n
      → (p * batch ≤ made) × (made + c * batch ≤ p * batch + n * batch)
  made_bounds slot c p made Writer.idle h some =
      (omega arith, omega (arith, mul-le-mul_right {m = c} {n = n} batch some))
  made_bounds slot c p made (Writer.filling i) (_, _, _, h) some =
      (omega arith, omega (arith, mul-le-mul_right {m = c} {n = n} batch some))
  made_bounds slot c p made (Writer.filled i) (_, _, lt, h) some =
      (omega arith, omega (arith, mul-le-mul_right {m = suc c} {n = n} batch lt))
  made_bounds slot c p made Writer.asleep h some =
      (omega arith, omega (arith, mul-le-mul_right {m = c} {n = n} batch some))
  made_bounds slot c p made Writer.notifying h some =
      (omega arith, omega (arith, mul-le-mul_right {m = c} {n = n} batch some))
  made_bounds slot c p made Writer.stopped h some =
      (omega arith, omega (arith, mul-le-mul_right {m = c} {n = n} batch some))

  taken_bounds :
      (c r taken : ℕ) (f : Bool) (x : Reader)
      → ReaderOk vole n batch c r taken f x
      → drawing x ≡ true
      → (r * batch ≤ taken) × (taken ≤ r * batch + c * batch)
  unfolding drawing
  taken_bounds c r taken f Reader.between h alive = (omega arith, omega arith)
  taken_bounds c r taken f Reader.asleep h alive = (omega arith, omega arith)
  taken_bounds c r taken f Reader.testing h alive = (omega arith, omega arith)
  taken_bounds c r taken f (Reader.reading i off) (_, lt, le, h, _) alive =
      (omega arith, omega (arith, mul-le-mul_right {m = 1} {n = c} batch lt))
  taken_bounds c r taken f Reader.notifying h alive = (omega arith, omega arith)
  taken_bounds c r taken f Reader.leaving h alive = absurd (ground arith)
  taken_bounds c r taken f Reader.closing h alive = absurd (ground arith)
  taken_bounds c r taken f Reader.finishing h alive = absurd (ground arith)
  taken_bounds c r taken f Reader.joining h alive = absurd (ground arith)
  taken_bounds c r taken f Reader.ended h alive = absurd (ground arith)

not_closed {ℓ} :
    {A : Type ℓ} (p : Pipe A)
    → p.finished ≡ false
    → p.producer_done ≡ false
    → acquire_ready p ≢ Answer.closed
unfolding acquire_ready
not_closed p alive quiet e = ground arith

module _ {ℓ} {A : Type ℓ} {vole : ℕ → A} {n batch : ℕ} {junk : ℕ → ℕ → A} {out : ℕ → A} where
  -- In every state that the two threads can reach, in any interleaving, the `j`-th correlation that
  -- the consumer drew is the `j`-th of the VOLE.
  pub draws_in_order :
      {s : System A} → Reach vole n batch junk out s → (j : ℕ) → j < s.taken → s.out j ≡ vole j
  draws_in_order r = (Reach-Inv r).drawn

  -- In a reachable state in which the producer is about to fill a slot and the consumer reads one,
  -- the two slots differ.
  pub slots_apart :
      {s : System A} {i k off : ℕ}
      → Reach vole n batch junk out s
      → s.writer ≡ Writer.filling i
      → s.reader ≡ Reader.reading k off
      → i ≢ k
  slots_apart {s} r w x e =
      let v = Reach-Inv r in
      let (_, i_at, room, _) = rw w at v.writer_ok in
      let (k_at, ready, _, _, _) = rw x at v.reader_ok in
      index_ne n s.released s.published (omega (arith, v.ring.counted))
        (omega (arith, v.ring.counted)) (sym k_at ∙ sym e ∙ i_at)

  -- In a reachable state in which the consumer holds no slot and may draw, or was woken in its wait,
  -- `acquire_ready` does not answer -1: the `error` of `draw_vole_` is out of reach.
  pub never_closed :
      {s : System A}
      → Reach vole n batch junk out s
      → (s.reader ≡ Reader.between) ⊎ (s.reader ≡ Reader.testing)
      → acquire_ready s.pipe ≢ Answer.closed
  never_closed {s} r (inl x) =
      let v = Reach-Inv r in not_closed s.pipe (rw x at v.reader_ok).1 v.ring.quiet
  never_closed {s} r (inr x) =
      let v = Reach-Inv r in not_closed s.pipe (rw x at v.reader_ok).1 v.ring.quiet

  -- In a reachable state before the destructor, the VOLE has given at least what the consumer drew,
  -- and at most `n` batches more.
  pub drift :
      {s : System A}
      → Reach vole n batch junk out s
      → drawing s.reader ≡ true
      → (s.taken ≤ s.made) × (s.made ≤ s.taken + n * batch)
  drift {s} r alive =
      let v = Reach-Inv r in
      let made =
        made_bounds vole n batch s.pipe.slot s.pipe.count s.published s.made s.writer v.writer_ok
          v.ring.bounded in
      let taken =
        taken_bounds vole n batch s.pipe.count s.released s.taken s.pipe.finished s.reader
          v.reader_ok alive in
      let whole : s.released * batch + s.pipe.count * batch ≡ s.published * batch =
        rw (← v.ring.counted) (omega arith) in
      (omega arith, omega arith)
