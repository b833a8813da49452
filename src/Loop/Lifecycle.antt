-- ===== src/Loop/Lifecycle.antt =====
-- The life of a loop in trio_asyncio/_base.py and _async.py: `__init__`, `_main_loop_init`,
-- `_main_loop_exit`, `close`. What these do to async generator hooks and to file descriptors stands
-- with those.
pub mod Closing
use trio_asyncio.Prelude.{
  ℕ, Bool, true, false, not, ◌||◌, Option, none, some, List, [], ◌∷◌, if◌then◌else◌,
}
use trio_asyncio.Exec.{
  Result, ok, err, Exec, pure, fail, continue, ◌>>=◌, ◌>>◌, runtime_error, would_block,
  trio_asyncio_exit, waits, unfinished, Error,
}
use trio_asyncio.Trio.{Trio}
use trio_asyncio.Heapq.{Heapq, Timer}
use trio_asyncio.Loop.{Handle, Loop, Script, no_library, plain, user, stop_loop, mark_cancelled}
use trio_asyncio.Loop.Iteration.{Tick, main_loop_one, iterate}

-- A handle that is not there yet.
abbrev unmade : Handle
unmade = record { kind = plain; callback = user 0; cancelled = false }

module _ (t : Trio) (q : Heapq) where
  -- `BaseTrioEventLoop.__init__`: `none` is `math.inf`. `_stopped` is made and set.
  unfoldable pub new_loop : Option ℕ → Loop t q
  new_loop queue_len = record {
    queue = t.open_memory_channel queue_len;
    timers = q.empty;
    handles = λ h. unmade;
    next_handle = 0;
    events = λ e. t.event;
    next_event = 0;
    stopped = t.set t.event;
    stop_wait = none;
    closed = false;
    entered = false;
    library = no_library;
    trace = [];
  }

  -- `is_running`
  unfoldable pub is_running : Loop t q → Bool
  is_running s = not (t.is_set s.stopped)

  -- `_main_loop_init`
  unfoldable pub main_loop_init : Exec (Loop t q) (Unit {0})
  main_loop_init s =
      if s.entered || not (t.is_set s.stopped)
      then (err runtime_error, s)
      else (ok tt, record s { entered = true })

  abbrev pub cancel_all : List Timer → Loop t q → Loop t q
  cancel_all [] s = s
  cancel_all (x ∷ xs) s = cancel_all xs (mark_cancelled t q x.1 s)

  -- `_cancel_timers`
  unfoldable pub cancel_timers : Loop t q → Loop t q
  cancel_timers s = record (cancel_all (q.entries s.timers) s) { timers = q.empty }

  -- `TrioEventLoop._close`, then asyncio's `close`.
  abbrev pub close_open : Exec (Loop t q) (Unit {0})
  close_open s =
      if t.is_set s.stopped then (ok tt, record s { closed = true }) else (err runtime_error, s)

  -- `BaseTrioEventLoop.close`
  unfoldable pub close : Exec (Loop t q) (Unit {0})
  close s = if s.closed then (ok tt, s) else close_open s

  module _ (program : ℕ → Script) where
    -- After one round of the drain: `WouldBlock` ends it, `TrioAsyncioExit` is passed over.
    abbrev pub after_drained :
        (again : Loop t q → Result (Unit {0}) × Loop t q)
        → Result (Unit {0})
        → Exec (Loop t q) (Unit {0})
    after_drained again (ok _) s = again s
    after_drained again (err trio_asyncio_exit) s = again s
    after_drained again (err would_block) s = (ok tt, s)
    after_drained again (err e) s = (err e, s)

    -- The loop of `_main_loop_exit` over the remaining callbacks, a round for each tick.
    unfoldable pub drain : List Tick → Exec (Loop t q) (Unit {0})
    drain [] s = (err unfinished, s)
    drain (k ∷ ks) s =
        let (r, s') = main_loop_one t q program k true s in after_drained (drain ks) r s'

    -- `await self.wait_stopped()`: the main loop runs in its own task, where its exception goes.
    abbrev pub wait_stopped : List Tick → Exec (Loop t q) (Unit {0})
    wait_stopped ks s =
        if t.is_set (iterate t q program ks s).1.stopped
        then (ok tt, (iterate t q program ks s).1)
        else (err unfinished, (iterate t q program ks s).1)

    -- `self._cancel_timers()`, and the core fields cleared.
    abbrev pub finalize : Exec (Loop t q) (Unit {0})
    finalize s = (ok tt, record (cancel_timers s) { entered = false })

    -- `_main_loop_exit`
    unfoldable pub main_loop_exit : (running draining : List Tick) → Exec (Loop t q) (Unit {0})
    unfolding drain
    main_loop_exit running draining s =
        if s.closed
        then (ok tt, s)
        else (stop_loop t q none >> (wait_stopped running >> (drain draining >> finalize))) s
