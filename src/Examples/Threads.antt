-- ===== src/Examples/Threads.antt =====
-- The two threads over a pipe of two slots, each of two correlations.
use vole_zk.Common.{ℕ, ◌+◌, ◌*◌, ◌≤◌, ◌<◌, true, false, ◌≡◌, ◌≢◌, inl, refl, arith}
use vole_zk.Pipe.{Answer, acquire_free, acquire_ready, publish, empty_pipe}
use vole_zk.Pipe.System.{
  Writer, Reader, System, Reach, first, fill_slot, copy_out, acquire, fill, hand_over, open_slot,
  copy, notify_ready, sleep_free, sleep_ready, close, wake_reader, drawing,
}
use vole_zk.Pipe.Progress.{Inevitable}
use vole_zk.Pipe.Progress.Shutdown.{Joined, shutdown_joins}
use vole_zk.Pipe.Progress.Draw.{HasSlot, waiting, draw_served}
use vole_zk.Pipe.Stream.{draws_in_order, slots_apart, never_closed, drift}

abbrev vole : ℕ → ℕ
vole i = i + 10

abbrev s0 : System ℕ
s0 = first vole 2 2 (λ _ _. 0) (λ _. 0)

abbrev s1 : System ℕ
s1 = record s0 { writer = Writer.filling 0 }

abbrev s2 : System ℕ
s2 = fill_slot vole 2 2 s1 0

abbrev s3 : System ℕ
s3 = record s2 { pipe = publish 2 s2.pipe; writer = Writer.notifying; published = s2.published + 1 }

abbrev s3' : System ℕ
s3' = record s3 { writer = Writer.idle }

abbrev s4 : System ℕ
s4 = record s3' { reader = Reader.reading 0 0 }

abbrev s5 : System ℕ
s5 = copy_out vole 2 2 s4 0 0 1

abbrev s6 : System ℕ
s6 = record s5 { writer = Writer.filling 1 }

reached_s3 : Reach vole 2 2 (λ _ _. 0) (λ _. 0) s3
unfolding first empty_pipe fill_slot acquire_free
reached_s3 =
    Reach.later (Reach.later (Reach.later Reach.start (acquire 0 refl refl)) (fill 0 refl))
      (hand_over 0 refl)

reached_s3' : Reach vole 2 2 (λ _ _. 0) (λ _. 0) s3'
unfolding first empty_pipe fill_slot wake_reader
reached_s3' = Reach.later reached_s3 (notify_ready refl)

reached_s6 : Reach vole 2 2 (λ _ _. 0) (λ _. 0) s6
unfolding first empty_pipe fill_slot publish copy_out acquire_free acquire_ready
reached_s6 =
    Reach.later
      (Reach.later (Reach.later reached_s3' (open_slot 0 refl refl))
        (copy 0 0 1 refl (omega arith) (omega arith)))
      (acquire 1 refl refl)

after_one : 0 < s6.taken
unfolding first fill_slot copy_out
after_one = omega arith

draws_in_order_example : s6.out 0 ≡ vole 0
draws_in_order_example = draws_in_order reached_s6 0 after_one

still_reading : s6.reader ≡ Reader.reading 0 1
unfolding first fill_slot copy_out
still_reading = refl

slots_apart_example : ◌≢◌ {A = ℕ} 1 0
slots_apart_example = slots_apart reached_s6 refl still_reading

not_reading : s3.reader ≡ Reader.between
unfolding first fill_slot
not_reading = refl

never_closed_example : acquire_ready s3.pipe ≢ Answer.closed
never_closed_example = never_closed reached_s3 (inl not_reading)

-- A pipe of one slot: the producer filled it and sleeps, and the destructor begins.
abbrev t0 : System ℕ
t0 = first vole 1 2 (λ _ _. 0) (λ _. 0)

abbrev t1 : System ℕ
t1 = fill_slot vole 1 2 (record t0 { writer = Writer.filling 0 }) 0

abbrev t2 : System ℕ
t2 = record t1 {
  pipe = publish 1 t1.pipe;
  writer = Writer.asleep;
  reader = Reader.closing;
  published = t1.published + 1;
}

reached_t2 : Reach vole 1 2 (λ _ _. 0) (λ _. 0) t2
unfolding first empty_pipe fill_slot publish wake_reader acquire_free
reached_t2 =
    Reach.later
      (Reach.later
        (Reach.later
          (Reach.later (Reach.later (Reach.later Reach.start (acquire 0 refl refl)) (fill 0 refl))
            (hand_over 0 refl))
          (notify_ready refl))
        (sleep_free refl refl))
      (close refl)

shutdown_joins_example : Inevitable vole 1 2 Joined (10 * 1 + 48) t2
shutdown_joins_example = shutdown_joins vole 1 2 reached_t2 departs
  where
    departs : drawing t2.reader ≡ false
    departs = unfold drawing in refl

-- The consumer draws first, and sleeps.
abbrev u1 : System ℕ
u1 = record s0 { reader = Reader.asleep }

reached_u1 : Reach vole 2 2 (λ _ _. 0) (λ _. 0) u1
unfolding first empty_pipe acquire_ready
reached_u1 = Reach.later Reach.start (sleep_ready refl refl)

waits_u1 : waiting u1.reader ≡ true
unfolding waiting
waits_u1 = refl

draw_served_example : Inevitable vole 2 2 HasSlot (10 * 2 + 9) u1
draw_served_example = draw_served vole 2 2 (omega arith) reached_u1 waits_u1

not_ended : drawing s6.reader ≡ true
unfolding first fill_slot copy_out drawing
not_ended = refl

drift_example : (s6.taken ≤ s6.made) × (s6.made ≤ s6.taken + 2 * 2)
drift_example = drift reached_s6 not_ended
