-- ===== src/Loop.antt =====
-- The state of a `TrioEventLoop` and the methods that put work into it: trio_asyncio/_base.py and
-- _async.py. Handles and events are shared objects, so they stand in a store under references.
pub mod Extends
pub mod Actions
pub mod Iteration
pub mod Running
pub mod Progress
pub mod Dealing
pub mod Exits
pub mod Stopped
pub mod Taking
pub mod Stopping
pub mod Termination
pub mod Requesting
pub mod Tagging
pub mod Spec
pub mod Lifecycle
pub mod Draining
pub mod Leaving
pub mod Returning
mod Asking
mod Tests
use trio_asyncio.Prelude.{
  ℕ, suc, Bool, true, false, Option, none, some, List, [], ◌∷◌, ◌++◌, update, if◌then◌else◌,
}
use trio_asyncio.Prelude.Int.{ℤ, pos, ◌+ℤ◌, leb_ℤ}
use trio_asyncio.Exec.{
  Result, ok, err, Exec, pure, fail, ◌>>=◌, ◌>>◌, runtime_error, would_block, attribute_error,
  assertion_error, trio_asyncio_exit, user_exit,
}
use trio_asyncio.Trio.{Trio}
use trio_asyncio.Heapq.{Heapq}

-- `asyncio.Handle`, `asyncio.TimerHandle` with its `_when`, and `AsyncHandle`.
pub data HandleKind : Type 0 where
  plain : HandleKind
  timer : (when : ℤ) → HandleKind
  async_task : HandleKind

-- Code of the program's user, or what the loop itself puts in a handle: `stop_me` in `stop`, with
-- its waiter, and `w.set` in `synchronize`.
pub data Callback : Type 0 where
  user : ℕ → Callback
  stop_me : (waiter : ℕ) → Callback
  set_event : (event : ℕ) → Callback

pub record Handle : Type 0 where
  pub kind : HandleKind
  pub callback : Callback
  pub cancelled : Bool

-- `sniffio_library.name`
pub data Library : Type 0 where
  no_library trio asyncio : Library

-- What the loop does with an object that it has taken: it runs a callback, starts a task, passes a
-- cancelled callback over, or puts a timer with the timers. `propagated` is a task that raises an
-- exception of a callback in the loop's nursery.
pub data Occurrence : Type 0 where
  ran : (handle : ℕ) → Library → Occurrence
  started : (handle : ℕ) → Occurrence
  skipped : (handle : ℕ) → Occurrence
  scheduled : (handle : ℕ) → Occurrence
  propagated : ℕ → Occurrence

-- `entered` says that `_nursery`, `_task` and `_token` are set: one method sets all three, one
-- clears them. `queue` is the memory channel behind `_q_send` and `_q_recv`. The event `_stopped` is
-- set by the main loop alone, so it is held by value; the others are shared.
pub record Loop (t : Trio) (q : Heapq) : Type 0 where
  pub queue : t.Channel
  pub timers : q.Heap
  pub handles : ℕ → Handle
  pub next_handle : ℕ
  pub events : ℕ → t.Event
  pub next_event : ℕ
  pub stopped : t.Event
  pub stop_wait : Option ℕ
  pub closed : Bool
  pub entered : Bool
  pub library : Library
  pub trace : List Occurrence

-- What code that runs beside the loop, or in one of its callbacks, may do to it.
pub data Action : Type 0 where
  call_soon : (callback : ℕ) → Action
  call_later : (delay : ℤ) → (callback : ℕ) → Action
  call_at : (when : ℤ) → (callback : ℕ) → Action
  run_trio_task : (proc : ℕ) → Action
  cancel : (handle : ℕ) → Action
  synchronize : Action
  stop : Action

-- How a callback ends, if none of its actions raised: it returns, or raises an `Exception`, or a
-- `SystemExit` or `KeyboardInterrupt`.
pub data Ending : Type 0 where
  returns : Ending
  raises : ℕ → Ending
  exits : ℕ → Ending

pub record Script : Type 0 where
  pub actions : List Action
  pub ending : Ending

module _ (t : Trio) (q : Heapq) where
  abbrev pub is_set : ℕ → Loop t q → Bool
  is_set e s = t.is_set (s.events e)

  abbrev pub set : ℕ → Loop t q → Loop t q
  set e s = record s { events = update s.events e (t.set (s.events e)) }

  -- `trio.Event()`
  abbrev pub new_event : Loop t q → ℕ × Loop t q
  new_event s = (
    s.next_event,
    record s { events = update s.events s.next_event t.event; next_event = suc s.next_event },
  )

  -- `asyncio.Handle(…)`, `asyncio.TimerHandle(…)`, `AsyncHandle(…)`
  abbrev pub new_handle : HandleKind → Callback → Loop t q → ℕ × Loop t q
  new_handle k c s = (
    s.next_handle,
    record s {
      handles =
          update s.handles s.next_handle (record { kind = k; callback = c; cancelled = false });
      next_handle = suc s.next_handle;
    },
  )

  -- `self._q_send.send_nowait(handle)`
  unfoldable pub send : ℕ → Exec (Loop t q) (Unit {0})
  send h s = elim (t.send_nowait h s.queue) [
    | none ↦ (err would_block, s)
    | some c ↦ (ok tt, record s { queue = c })
  ]

  -- `TrioEventLoop._queue_handle`, with asyncio's `_check_closed`
  unfoldable pub queue_handle : ℕ → Exec (Loop t q) ℕ
  unfolding send
  queue_handle h s = if s.closed then (err runtime_error, s) else (send h >> pure h) s

  -- A handle is made, then queued.
  unfoldable pub queue_new : HandleKind → Callback → Exec (Loop t q) ℕ
  unfolding queue_handle
  queue_new k c s = let (h, s') = new_handle k c s in queue_handle h s'

  -- `BaseTrioEventLoop.call_later`; `time` raises if the loop is not entered.
  unfoldable pub later : ℤ → ℤ → ℕ → Exec (Loop t q) ℕ
  unfolding queue_new
  later now delay c s =
      if leb_ℤ (pos 0) delay
      then (if s.entered
          then queue_new (timer (delay +ℤ now)) (user c) s
          else (err runtime_error, s))
      else (err assertion_error, s)

  -- The end of `TrioEventLoop.stop`, on the waiter.
  unfoldable pub stop_with : ℕ → Exec (Loop t q) ℕ
  unfolding queue_new
  stop_with waiter s =
      if t.is_set s.stopped
      then (ok waiter, set waiter s)
      else (queue_new plain (stop_me waiter) >> pure waiter) s

  -- `TrioEventLoop.stop`: `none` is a call with no waiter.
  unfoldable pub stop_loop : Option ℕ → Exec (Loop t q) ℕ
  unfolding stop_with
  stop_loop none s = elim s.stop_wait [
    | some waiter ↦ (ok waiter, s)
    | none ↦
        (let (waiter, s') = new_event s in stop_with waiter (record s' { stop_wait = some waiter }))
  ]
  stop_loop (some waiter) s =
      if is_set waiter s
      then elim (t.clear (s.events waiter)) [
        | none ↦ (err attribute_error, s)
        | some e ↦ stop_with waiter (record s { events = update s.events waiter e })
      ]
      else stop_with waiter s

  -- `handle._cancelled = True`
  abbrev pub mark_cancelled : ℕ → Loop t q → Loop t q
  mark_cancelled h s = record s {
    handles = update s.handles h (record (s.handles h) { cancelled = true });
  }

  -- `handle.cancel()` by other code, which has no reference to a handle with the loop's own
  -- callback in it.
  unfoldable pub cancel_handle : ℕ → Loop t q → Loop t q
  cancel_handle h s = elim (s.handles h).callback [
    | user _ ↦ mark_cancelled h s
    | stop_me _ ↦ s
    | set_event _ ↦ s
  ]

  -- `synchronize` up to its wait.
  unfoldable pub synchronize_start : Exec (Loop t q) ℕ
  unfolding queue_new
  synchronize_start s = let (w, s') = new_event s in queue_new plain (set_event w) s'

  unfoldable pub act : ℤ → Action → Exec (Loop t q) (Unit {0})
  unfolding later stop_loop cancel_handle synchronize_start
  act now (call_soon c) = queue_new plain (user c) >> pure tt
  act now (call_later delay c) = later now delay c >> pure tt
  act now (call_at when c) = queue_new (timer when) (user c) >> pure tt
  act now (run_trio_task c) = queue_new async_task (user c) >> pure tt
  act now (cancel h) = λ s. (ok tt, cancel_handle h s)
  act now synchronize = synchronize_start >> pure tt
  act now stop = stop_loop none >> pure tt
