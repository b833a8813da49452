-- ===== src/Loop/Iteration.antt =====
-- The main loop of trio_asyncio/_base.py: `_main_loop_one` and `_main_loop`. What the world around
-- the loop does during one iteration is its `Tick`.
use trio_asyncio.Prelude.{
  ℕ, Bool, true, false, none, some, List, [], ◌∷◌, ◌++◌, ◌&&◌, if◌then◌else◌,
}
use trio_asyncio.Prelude.Int.{ℤ, pos, ◌-ℤ◌, leb_ℤ}
use trio_asyncio.Exec.{
  Result, Error, ok, err, Exec, runtime_error, would_block, trio_asyncio_exit, user_exit, waits,
  unfinished,
}
use trio_asyncio.Trio.{Trio}
use trio_asyncio.Heapq.{Heapq}
use trio_asyncio.Loop.{
  plain, timer, async_task, Callback, user, stop_me, set_event, asyncio, Occurrence, ran, started,
  skipped, scheduled, propagated, Loop, Action, Ending, returns, raises, exits, Script, set, act,
}

-- `now` is the clock, `before` what other tasks do while the loop waits for an object, `expired`
-- whether the timeout passes first, `accepts` whether the nursery still takes tasks, and `during`
-- what other tasks do while the loop waits for a task to start.
pub record Tick : Type 0 where
  pub now : ℤ
  pub before : List Action
  pub expired : Bool
  pub accepts : Bool
  pub during : List Action

module _ (t : Trio) (q : Heapq) (program : ℕ → Script) where
  abbrev pub log : Occurrence → Loop t q → Loop t q
  log o s = record s { trace = s.trace ++ o ∷ [] }

  -- Other code's actions; what they raise is raised in that code.
  unfoldable pub others : ℤ → List Action → Loop t q → Loop t q
  others now [] s = s
  others now (a ∷ rest) s = others now rest (act t q now a s).1

  -- The statements of a callback, up to the first that raises.
  unfoldable pub perform : ℤ → List Action → Exec (Loop t q) (Unit {0})
  perform now [] s = (ok tt, s)
  perform now (a ∷ rest) s = elim (act t q now a s).0 [
    | ok _ ↦ perform now rest (act t q now a s).1
    | err e ↦ (err e, (act t q now a s).1)
  ]

  -- `TrioEventLoop.default_exception_handler`: a task that raises is started in the nursery, if the
  -- loop is entered.
  abbrev pub handle_exception : ℕ → Loop t q → Loop t q
  handle_exception n s = if s.entered then log (propagated n) s else s

  abbrev pub end_script : Ending → Exec (Loop t q) (Unit {0})
  end_script returns s = (ok tt, s)
  end_script (raises n) s = (ok tt, handle_exception n s)
  end_script (exits n) s = (err (user_exit n), s)

  -- `asyncio.Handle._run`: an `Exception` goes to the exception handler, a `SystemExit` comes out.
  -- An exception of an action (a `RuntimeError`, `WouldBlock` or `AssertionError`) is reported as 0.
  unfoldable pub run_callback : ℤ → Callback → Exec (Loop t q) (Unit {0})
  unfolding perform
  run_callback now (user c) s = elim (perform now (program c).actions s).0 [
    | ok _ ↦ end_script (program c).ending (perform now (program c).actions s).1
    | err e ↦ (ok tt, handle_exception 0 (perform now (program c).actions s).1)
  ]
  run_callback now (stop_me w) s = (err trio_asyncio_exit, set t q w s)
  run_callback now (set_event w) s = (ok tt, set t q w s)

  -- `obj._run()` with `sniffio_library.name` set to "asyncio", and put back after it.
  unfoldable pub run_handle : ℤ → ℕ → Exec (Loop t q) (Unit {0})
  unfolding run_callback
  run_handle now h s =
      let s₁ = record s { library = asyncio } in
      let (r, s') = run_callback now (s.handles h).callback (log (ran h s₁.library) s₁) in
      (r, record s' { library = s.library })

  -- `nursery.start_soon(obj._run)` and `await obj._started.wait()`.
  unfoldable pub start_task : Tick → ℕ → Exec (Loop t q) (Unit {0})
  unfolding others
  start_task k h s =
      if k.accepts
      then (ok tt, others k.now k.during (log (started h) s))
      else (err runtime_error, s)

  unfoldable pub run_unless_cancelled : ℤ → ℕ → Exec (Loop t q) (Unit {0})
  unfolding run_handle
  run_unless_cancelled now h s =
      if (s.handles h).cancelled then (ok tt, log (skipped h) s) else run_handle now h s

  -- An object from the queue: a timer is put with the timers.
  unfoldable pub dispatch : Tick → ℕ → Exec (Loop t q) (Unit {0})
  unfolding start_task run_unless_cancelled
  dispatch k h s = elim (s.handles h).kind [
    | plain ↦ run_unless_cancelled k.now h s
    | timer when ↦ (ok tt, log (scheduled h) (record s { timers = q.heappush (when, h) s.timers }))
    | async_task ↦ start_task k h s
  ]

  -- The object that `receive` or `receive_nowait` hands over, or the error where there is none.
  unfoldable pub receive : Tick → Error → Exec (Loop t q) (Unit {0})
  unfolding dispatch
  receive k empty s = elim (t.receive_nowait s.queue) [
    | none ↦ (err empty, s)
    | some (h, c) ↦ dispatch k h (record s { queue = c })
  ]

  -- `with trio.move_on_after(timeout): obj = await self._q_recv.receive()`, or `receive_nowait`.
  -- The timeout is infinite where there are no timers.
  unfoldable pub fetch : Tick → (no_wait timers : Bool) → Exec (Loop t q) (Unit {0})
  unfolding receive others
  fetch k true timers s = receive k would_block s
  fetch k false timers s =
      let s' = others k.now k.before s in
      if timers && k.expired then (ok tt, s') else receive k waits s'

  -- `_main_loop_one`. A timer that is due comes before everything in the queue.
  unfoldable pub main_loop_one : Tick → (no_wait : Bool) → Exec (Loop t q) (Unit {0})
  unfolding fetch run_unless_cancelled
  main_loop_one k no_wait s = elim (q.heappop s.timers) [
    | none ↦ fetch k no_wait false s
    | some ((when, h), rest) ↦
        if leb_ℤ (when -ℤ k.now) (pos 0)
        then run_unless_cancelled k.now h (record s { timers = rest })
        else fetch k no_wait true s
  ]

  -- `finally: self._stopped.set()`
  abbrev pub set_stopped : Loop t q → Loop t q
  set_stopped s = record s { stopped = t.set s.stopped }

  -- After an iteration: the `while` loop goes on where the iteration returned, or still waits;
  -- otherwise the `except` and `finally` clauses of `_main_loop` follow.
  abbrev pub after_iteration :
      (again : Loop t q → Result (Unit {0}) × Loop t q)
      → Result (Unit {0})
      → Exec (Loop t q) (Unit {0})
  after_iteration again (ok _) s = again s
  after_iteration again (err waits) s = again s
  after_iteration again (err trio_asyncio_exit) s = (ok tt, set_stopped s)
  after_iteration again (err e) s = (err e, set_stopped s)

  -- The `while` loop of `_main_loop`, an iteration for each tick. `unfinished` means that the loop
  -- still runs after these ticks.
  unfoldable pub iterate : List Tick → Exec (Loop t q) (Unit {0})
  iterate [] s = if t.is_set s.stopped then (ok tt, set_stopped s) else (err unfinished, s)
  iterate (k ∷ ks) s =
      if t.is_set s.stopped
      then (ok tt, set_stopped s)
      else (let (r, s') = main_loop_one k false s in after_iteration (iterate ks) r s')

  -- `_main_loop`: a new event, then the loop.
  unfoldable pub main_loop : List Tick → Exec (Loop t q) (Unit {0})
  unfolding iterate
  main_loop ks s = iterate ks (record s { stopped = t.event })
