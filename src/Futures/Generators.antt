-- ===== src/Futures/Generators.antt =====
-- `run_aio_generator` and `run_trio_generator` in trio_asyncio/_util.py. What happens while the Trio
-- task waits is a list of events. The task `current_read` is asyncio's: its `cancel()` returns whether
-- it is still to end.
pub mod Items
mod Tests
use trio_asyncio.Prelude.{
  ℕ, ◌≡◌, Bool, true, false, Option, none, some, List, [], ◌∷◌, ◌++◌, if◌then◌else◌,
}

-- How one `__anext__` ends: an item, `StopAsyncIteration`, an `Exception`, a `CancelledError`.
pub data Read : Type 0 where
  item : ℕ → Read
  stop_iteration : Read
  failure : ℕ → Read
  cancelled : Read

-- Trio calls `abort_cb`, or `consume_next` ends.
pub data Event : Type 0 where
  abort : Event
  read_ends : Read → Event

-- How the generator ends: exhausted, with the iterator's exception, with `trio.Cancelled`, or with a
-- `CancelledError`.
pub data Ending : Type 0 where
  exhausted : Ending
  raised : ℕ → Ending
  raised_trio_cancelled raised_cancelled_error : Ending

-- `reading` says that `current_read` is still to end, `saved` that `raise_cancel` is not `None`.
pub record Generator : Type 0 where
  pub reading : Bool
  pub saved : Bool
  pub yielded : List ℕ
  pub ending : Option Ending

-- The generator at its first wait.
unfoldable pub start : Generator
start = record { reading = true; saved = false; yielded = []; ending = none }

-- `consume_next`, and the loop of `run_aio_generator` once the task is rescheduled, up to the next wait.
unfoldable pub consume_next : Read → Generator → Generator
consume_next (item v) g = record g { yielded = g.yielded ++ v ∷ []; reading = true }
consume_next stop_iteration g = record g { reading = false; ending = some exhausted }
consume_next (failure e) g = record g { reading = false; ending = some (raised e) }
consume_next cancelled g = record g { reading = false }

-- `abort_cb`. On `Abort.SUCCEEDED` Trio raises `Cancelled` in the task, on `Abort.FAILED` the task
-- goes on waiting.
unfoldable pub abort_cb : Generator → Generator
abort_cb g =
    if g.reading
    then record g { saved = true; ending = some raised_trio_cancelled }
    else record g { saved = true }

-- One event; an iteration that has ended stays as it is, and a task ends once.
unfoldable pub on_event : Event → Generator → Generator
unfolding consume_next abort_cb
on_event abort g = abort_cb g
on_event (read_ends r) g = if g.reading then consume_next r g else g

-- `run_aio_generator`, read to its end.
unfoldable pub run_aio_generator : List Event → Generator → Generator
unfolding on_event
run_aio_generator [] g = g
run_aio_generator (x ∷ xs) g =
    let rest = run_aio_generator xs (on_event x g) in elim g.ending [ some _ ↦ g | none ↦ rest ]

abbrev pub first : ℕ → List ℕ × Option Ending → List ℕ × Option Ending
first v r = (v ∷ r.0, r.1)

-- `run_trio_generator`, for the results of the futures: its items and how it ends.
unfoldable pub run_trio_generator : List Read → List ℕ × Option Ending
run_trio_generator [] = ([], none)
run_trio_generator (item v ∷ rest) = first v (run_trio_generator rest)
run_trio_generator (stop_iteration ∷ rest) = ([], some exhausted)
run_trio_generator (failure e ∷ rest) = ([], some (raised e))
run_trio_generator (cancelled ∷ rest) = ([], some raised_cancelled_error)
