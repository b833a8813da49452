-- ===== src/Entrances.antt =====
-- The methods of trio_asyncio/_base.py by which work enters a loop from Trio, from other threads, and
-- for other threads. The number of an `AsyncHandle` is also that of its future.
pub mod Resolving
mod Tests
use trio_asyncio.Prelude.{
  ℕ, ◌≡◌, Bool, true, false, not, Option, none, some, List, [], ◌∷◌, ◌++◌, if◌then◌else◌, update,
}
use trio_asyncio.Exec.{Result, ok, err, Error, runtime_error, assertion_error}
use trio_asyncio.Trio.{Trio}
use trio_asyncio.Heapq.{Heapq}
use trio_asyncio.Loop.{Loop, plain, async_task, user, new_handle, send, queue_new}
use trio_asyncio.Handles.{AsyncHandle, Future, pending}
use trio_asyncio.Handles
use trio_asyncio.Futures
use trio_asyncio.Futures.{Waiter}

-- A `TrioExecutor`, or an executor of another class. The limiter is the number of its tokens.
pub record Executor : Type 0 where
  pub is_trio_executor : Bool
  pub running : Bool
  pub limiter : Option ℕ

-- `TrioExecutor.__init__`
unfoldable pub trio_executor : (limiter max_workers : Option ℕ) → Executor
trio_executor limiter max_workers = record {
  is_trio_executor = true;
  running = true;
  limiter = elim limiter [ some n ↦ some n | none ↦ max_workers ];
}

-- `TrioExecutor.shutdown`
unfoldable pub shutdown : Executor → Executor
shutdown e = record e { running = false }

-- `TrioExecutor.submit`, where `run_sync` is `trio.to_thread.run_sync` with the limiter.
unfoldable pub submit : (run_sync : Option ℕ → Result ℕ) → Executor → Result ℕ
submit run_sync e = if not e.running then err runtime_error else run_sync e.limiter

-- A loop with its `AsyncHandle`s, what `run_sync_soon` has still to send, the coroutines that were
-- closed, and its default executor.
pub record Entrance (t : Trio) (q : Heapq) : Type 0 where
  pub loop : Loop t q
  pub tasks : ℕ → AsyncHandle
  pub soon : List ℕ
  pub coroutine_closed : ℕ → Bool
  pub default_executor : Executor

module _ (t : Trio) (q : Heapq) where
  -- `AsyncHandle(proc, args, self, result_future=f)` in the queue.
  abbrev pub queue_task : Option Future → ℕ → Entrance t q → Result ℕ × Entrance t q
  queue_task fut proc s =
      let (r, l) = queue_new t q async_task (user proc) s.loop in
      (r, record s { loop = l; tasks = update s.tasks s.loop.next_handle (Handles.init fut) })

  -- `trio_as_future`
  unfoldable pub trio_as_future : ℕ → Entrance t q → Result ℕ × Entrance t q
  trio_as_future proc s = queue_task (some pending) proc s

  -- `run_trio_task`
  unfoldable pub run_trio_task : ℕ → Entrance t q → Result ℕ × Entrance t q
  run_trio_task proc s = queue_task none proc s

  -- `coro.close()`
  abbrev pub close_coroutine : ℕ → Entrance t q → Entrance t q
  close_coroutine coro s = record s { coroutine_closed = update s.coroutine_closed coro true }

  -- `run_aio_coroutine` after `asyncio.ensure_future`, which queues the task's first step.
  abbrev pub awaited :
      ℕ → List Futures.Event → Result ℕ → Entrance t q → Result Waiter × Entrance t q
  awaited coro events (ok h) s = (ok (Futures.run_aio_future events Futures.start), s)
  awaited coro events (err e) s = (err e, close_coroutine coro s)

  -- `run_aio_coroutine`, with what happens while it waits.
  unfoldable pub run_aio_coroutine :
      ℕ → List Futures.Event → Entrance t q → Result Waiter × Entrance t q
  run_aio_coroutine coro events s =
      let (r, l) = queue_new t q plain (user coro) s.loop in
      if s.loop.closed
      then (err runtime_error, close_coroutine coro s)
      else awaited coro events r (record s { loop = l })

  -- `call_soon_threadsafe`
  unfoldable pub call_soon_threadsafe : ℕ → Entrance t q → Result (Unit {0}) × Entrance t q
  call_soon_threadsafe callback s = if s.loop.closed then (err runtime_error, s) else (
    ok tt,
    record s {
      loop = (new_handle t q plain (user callback) s.loop).1;
      soon = s.soon ++ s.loop.next_handle ∷ [];
    },
  )

  -- Trio calls `self._q_send.send_nowait` for one of them.
  unfoldable pub send_soon : Entrance t q → Result (Unit {0}) × Entrance t q
  send_soon s = elim s.soon [
    | [] ↦ (ok tt, s)
    | h ∷ hs ↦ let (r, l) = send t q h s.loop in (r, record s { loop = l; soon = hs })
  ]

  -- `set_default_executor`
  unfoldable pub set_default_executor : Executor → Entrance t q → Entrance t q
  set_default_executor e s = if e.is_trio_executor then record s { default_executor = e } else s

  -- `run_in_executor`, where `job` is the function's `submit` on the executor.
  unfoldable pub run_in_executor :
      Option Executor → (job : ℕ) → Entrance t q → Result ℕ × Entrance t q
  unfolding trio_as_future
  run_in_executor executor job s =
      let chosen : Executor = elim executor [ none ↦ s.default_executor | some e ↦ e ] in
      if s.loop.closed
      then (err runtime_error, s)
      else if chosen.is_trio_executor
      then trio_as_future job s
      else (err assertion_error, s)
