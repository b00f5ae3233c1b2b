-- ===== src/Pipe.antt =====
-- emp-zk/emp-zk-arith/correlation_pipe.h: the bounded ring that hands batches of correlations
-- from the thread of the VOLE to the thread of the engine. Each operation holds the mutex, so it
-- is one function; a predicate of a wait that does not hold is the answer `blocked`. The wait and
-- the notifications after the sections are steps of Pipe/System.antt.
pub mod System
pub mod Index
pub mod Inv
pub mod Preserve
pub mod Stream
pub mod Sleep
pub mod Progress
use vole_zk.Common.{ℕ, ◌+◌, ◌-◌, ◌%◌, Bool, true, false, ◌||◌, ltb, if◌then◌else◌}

pub record Pipe {ℓ} (A : Type ℓ) : Type ℓ where
  pub slot : ℕ → ℕ → A
  pub head : ℕ
  pub tail : ℕ
  pub count : ℕ
  pub finished : Bool
  pub producer_done : Bool

-- What an `acquire_` call gives: nothing yet, -1, or a slot's index.
pub data Answer : Type 0 where
  blocked : Answer
  closed : Answer
  at : ℕ → Answer

module _ {ℓ} {A : Type ℓ} (n : ℕ) where
  unfoldable pub acquire_free : Pipe A → Answer
  acquire_free p =
      if ltb p.count n || p.finished
      then (if p.finished then Answer.closed else Answer.at p.tail)
      else Answer.blocked

  unfoldable pub publish : Pipe A → Pipe A
  publish p = record p { tail = (p.tail + 1) % n; count = p.count + 1 }

  unfoldable pub release : Pipe A → Pipe A
  release p = record p { head = (p.head + 1) % n; count = p.count - 1 }

module _ {ℓ} {A : Type ℓ} where
  unfoldable pub mark_producer_done : Pipe A → Pipe A
  mark_producer_done p = record p { producer_done = true }

  unfoldable pub acquire_ready : Pipe A → Answer
  acquire_ready p =
      if ltb 0 p.count || p.producer_done || p.finished
      then (if ltb 0 p.count then Answer.at p.head else Answer.closed)
      else Answer.blocked

  unfoldable pub finish : Pipe A → Pipe A
  finish p = record p { finished = true }

  -- The constructor, on slots with some first contents.
  unfoldable pub empty_pipe : (ℕ → ℕ → A) → Pipe A
  empty_pipe junk = record {
    slot = junk;
    head = 0;
    tail = 0;
    count = 0;
    finished = false;
    producer_done = false;
  }
