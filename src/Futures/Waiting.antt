-- ===== src/Futures/Waiting.antt =====
-- How waiting for a future ends.
use trio_asyncio.Prelude.{
  ℕ, zero, suc, ◌+◌, ◌≡◌, Bool, true, false, some, List, [], ◌∷◌, ◌++◌, arith, ◌||◌,
}
use trio_asyncio.Futures.{
  Outcome, value, error, cancelled_error, Event, abort, done, Ending, returned, raised,
  raised_cancelled_error, raised_trio_cancelled, Waiter, start, abort_cb, run_aio_future,
}

-- `n` calls of `abort_cb`.
abbrev pub aborts : ℕ → List Event
aborts zero = []
aborts (suc n) = abort ∷ aborts n

-- What the docstring says of a call whose scope was cancelled or not.
abbrev pub expected : (cancelled : Bool) → Outcome → Ending
expected c (value v) = returned v
expected c (error e) = raised e
expected true cancelled_error = raised_trio_cancelled
expected false cancelled_error = raised_cancelled_error

abbrev pub positive : ℕ → Bool
positive zero = false
positive (suc n) = true

run_aio_future_aborted :
    (n : ℕ) (o : Outcome) (rest : List Event) (w : Waiter)
    → let w' = run_aio_future (aborts n ++ done o ∷ rest) w in
      (w'.ending ≡ some (expected (w.saved || positive n) o))
      × (w'.cancel_calls ≡ n + w.cancel_calls)
unfolding run_aio_future
run_aio_future_aborted zero o rest w = (ground arith, omega arith)
run_aio_future_aborted (suc n) o rest w =
    let ih = run_aio_future_aborted n o rest (abort_cb w) in ground (arith, ih.0, ih.1)

-- The call ends when the future is done: with its value or its exception; for a `CancelledError`,
-- with `trio.Cancelled` if Trio asked to abort before, and with the `CancelledError` itself if not.
-- The future's `cancel` was called once for each such request; nothing after it counts.
run_aio_future-expected :
    (n : ℕ) (o : Outcome) (rest : List Event)
    → let w = run_aio_future (aborts n ++ done o ∷ rest) start in
      (w.ending ≡ some (expected (positive n) o)) × (w.cancel_calls ≡ n)
unfolding start
run_aio_future-expected n o rest =
    let (ending, calls) = run_aio_future_aborted n o rest start in (ending, omega (arith, calls))
