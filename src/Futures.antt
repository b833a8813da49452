-- ===== src/Futures.antt =====
-- `run_aio_future` in trio_asyncio/_util.py: a Trio task waits for an asyncio future. What happens
-- meanwhile is a list of events; how the future answers `cancel()` is the future's.
pub mod Waiting
pub mod Generators
use trio_asyncio.Prelude.{
  ℕ, suc, ◌≡◌, Bool, true, false, Option, none, some, List, [], ◌∷◌, if◌then◌else◌,
}

-- `future.result()`: a value, an exception, or `asyncio.CancelledError`.
pub data Outcome : Type 0 where
  value : ℕ → Outcome
  error : ℕ → Outcome
  cancelled_error : Outcome

-- Trio calls `abort_cb`, or the future becomes done.
pub data Event : Type 0 where
  abort : Event
  done : Outcome → Event

-- How the call ends: it returns, raises the future's exception, or raises `trio.Cancelled` with
-- `raise_cancel`.
pub data Ending : Type 0 where
  returned : ℕ → Ending
  raised : ℕ → Ending
  raised_cancelled_error : Ending
  raised_trio_cancelled : Ending

-- `saved` says that `raise_cancel` is not `None`; `cancel_calls` counts `future.cancel()`.
pub record Waiter : Type 0 where
  pub saved : Bool
  pub cancel_calls : ℕ
  pub ending : Option Ending

unfoldable pub start : Waiter
start = record { saved = false; cancel_calls = 0; ending = none }

-- `abort_cb`
unfoldable pub abort_cb : Waiter → Waiter
abort_cb w = record w { saved = true; cancel_calls = suc w.cancel_calls }

-- The `try` statement, once the task is rescheduled with the future's result.
unfoldable pub resume : Bool → Outcome → Ending
resume saved (value v) = returned v
resume saved (error e) = raised e
resume saved cancelled_error = if saved then raised_trio_cancelled else raised_cancelled_error

-- `run_aio_future`, from its wait on.
unfoldable pub run_aio_future : List Event → Waiter → Waiter
unfolding abort_cb resume
run_aio_future [] w = w
run_aio_future (abort ∷ rest) w = run_aio_future rest (abort_cb w)
run_aio_future (done o ∷ rest) w = record w { ending = some (resume w.saved o) }
