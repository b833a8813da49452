-- ===== src/Loop/Spec.antt =====
-- What one iteration of the main loop does, on a queue, a collection of timers and a trace:
-- `_main_loop_one` of trio_asyncio/_base.py as a description that knows neither channels nor heaps.
pub mod Iterating
use mathlib.Core.List.{Perm}
use trio_asyncio.Prelude.{
  ℕ, ◌<◌, ◌+◌, ◌≡◌, Bool, true, false, not, ◌&&◌, List, [], ◌∷◌, ◌++◌, if◌then◌else◌,
}
use trio_asyncio.Prelude.Int.{ℤ, pos_part, neg_part, ◌≤ℤ◌}
use trio_asyncio.Exec.{Result, ok, err, runtime_error, would_block, waits}
use trio_asyncio.Heapq.{Timer, NoEarlier}
use trio_asyncio.Loop.{HandleKind, plain, timer, async_task, Handle, Occurrence}
use trio_asyncio.Loop.Iteration.{Tick}
use trio_asyncio.Loop.Progress.{verdict, occurrence_of}

-- `now < when`
infix 50 ◌<ℤ◌
abbrev pub ◌<ℤ◌ : ℤ → ℤ → Type 0
now <ℤ when = pos_part now + neg_part when < pos_part when + neg_part now

-- Every timer is later than now.
abbrev pub NoneDue : ℤ → List Timer → Type 0
NoneDue now [] = Unit
NoneDue now (x ∷ xs) = (now <ℤ x.0) × NoneDue now xs

-- The timers once the object `j` of this kind is taken.
abbrev pub with_timer : HandleKind → ℕ → List Timer → List Timer
with_timer plain j timers = timers
with_timer async_task j timers = timers
with_timer (timer when) j timers = (when, j) ∷ timers

-- The queue, oldest object first, the timers, whose order does not count, and the trace.
abbrev pub Schedule : Type 0
Schedule = List ℕ × List Timer × List Occurrence

abbrev pub has_timers : List Timer → Bool
has_timers [] = false
has_timers (x ∷ xs) = true

-- The iteration waits, there is a timer to wake it, and the time passes before an object comes.
abbrev pub times_out : Tick → (no_wait : Bool) → List Timer → Bool
times_out k no_wait timers = not no_wait && (has_timers timers && k.expired)

-- One iteration from `a` to `b`, which ends like `r`: `was` are the handles at its beginning, `handles`
-- those when it looks into the queue. `arrived` are the objects that come in while it waits, and `sent`
-- those that come in later; `before` and `after` are what the trace records besides.
pub data Step (was handles : ℕ → Handle) (k : Tick) (no_wait : Bool) (a : Schedule)
    (r : Result (Unit {0})) (b : Schedule) : Type 0 where
  -- A timer that is due and the earliest is taken out and runs, or is passed over if it is cancelled;
  -- the queue is not read.
  fire :
      (x : Timer) (rest : List Timer) (sent : List ℕ) (after : List Occurrence)
      → Perm a.1 (x ∷ rest)
      → x.0 ≤ℤ k.now
      → NoEarlier x.0 a.1
      → b.0 ≡ a.0 ++ sent
      → Perm b.1 rest
      → b.2 ≡ (a.2 ++ verdict (was x.1).cancelled x.1 ∷ []) ++ after
      → Step was handles k no_wait a r b
  -- No timer is due, the time does not pass, and the oldest object is taken and dealt with.
  take :
      (j : ℕ) (rest arrived sent : List ℕ) (before after : List Occurrence)
      → NoneDue k.now a.1
      → times_out k no_wait a.1 ≡ false
      → (no_wait ≡ true → arrived ≡ [])
      → a.0 ++ arrived ≡ j ∷ rest
      → b.0 ≡ rest ++ sent
      → Perm b.1 (with_timer (handles j).kind j a.1)
      → b.2
        ≡ ((a.2 ++ before) ++ occurrence_of (handles j).kind (handles j).cancelled j ∷ []) ++ after
      → Step was handles k no_wait a r b
  -- The same, where the object is a task, and the nursery does not take it any more.
  refuse :
      (j : ℕ) (rest arrived : List ℕ) (before : List Occurrence)
      → NoneDue k.now a.1
      → times_out k no_wait a.1 ≡ false
      → (no_wait ≡ true → arrived ≡ [])
      → a.0 ++ arrived ≡ j ∷ rest
      → (handles j).kind ≡ async_task
      → k.accepts ≡ false
      → r ≡ err runtime_error
      → b.0 ≡ rest
      → Perm b.1 a.1
      → b.2 ≡ a.2 ++ before
      → Step was handles k no_wait a r b
  -- No timer is due and the time passes.
  expire :
      (arrived : List ℕ) (before : List Occurrence)
      → NoneDue k.now a.1
      → times_out k no_wait a.1 ≡ true
      → r ≡ ok tt
      → b.0 ≡ a.0 ++ arrived
      → Perm b.1 a.1
      → b.2 ≡ a.2 ++ before
      → Step was handles k no_wait a r b
  -- No timer is due, the time does not pass, and there is no object.
  idle :
      (before : List Occurrence)
      → NoneDue k.now a.1
      → times_out k no_wait a.1 ≡ false
      → a.0 ≡ []
      → r ≡ err (if no_wait then would_block else waits)
      → b.0 ≡ []
      → Perm b.1 a.1
      → b.2 ≡ a.2 ++ before
      → Step was handles k no_wait a r b
