-- ===== src/Opening.antt =====
-- `open_loop` and `run` in trio_asyncio/_loop.py: what happens in which order, on every path. The
-- loop's methods, Trio's nurseries and the body of the `async with` are parameters, any functions on a
-- state. An exception in a `finally` takes the place of the one before.
pub mod Leaving
pub mod OnLoops
mod Tests
use trio_asyncio.Prelude.{
  ℕ, ◌≡◌, Bool, true, false, Option, none, some, List, [], ◌∷◌, ◌++◌, if◌then◌else◌, ◌==◌, ◌||◌,
}
use trio_asyncio.Exceptions.{Kind, error, cancelled, exit, trio_cancelled, Exc, leaf, group, split}

-- A piece of code: `none` if it returns, or the exception that it raises.
abbrev pub Code : Type 0 → Type 0
Code S = S → Option Exc × S

-- `new_loop` makes the loop, and `number` is it. `body` is the `yield` with the code in the
-- `async with`. `synchronize` is the nursery where `loop.synchronize()` and `loop.wait_stopped()` race.
-- `cancel_tasks` starts a task for each asyncio task and cancels the nursery, and `exit_tasks` and
-- `exit_loop` are how the two nurseries end, given what their blocks raised, and for the outer one the
-- exceptions of its tasks too. `shutdown_asyncgens` is the task that finalizes the generators: `none` if
-- it never sets `asyncgens_done`, or how it ends. `main_loop_raised` is what the task `_main_loop` has
-- raised at the end.
pub record Operations (S : Type 0) : Type 0 where
  pub number : ℕ
  pub mark_open : S → S
  pub main_loop_init : Code S
  pub start_main_loop : Code S
  pub body : Code S
  pub synchronize : Code S
  pub cancel_tasks : Code S
  pub exit_tasks : Option Exc → Code S
  pub asyncgens : S → List ℕ
  pub is_running : S → Bool
  pub warn : Code S
  pub shutdown_asyncgens : S → Option (Option Exc × S)
  pub main_loop_raised : S → List Exc
  pub main_loop_exit : Code S
  pub close : Code S
  pub exit_loop : Option Exc → List Exc → Code S

-- `raised` are the exceptions of the tasks of `loop_nursery` but the main loop, `listening` says whether the task
-- `forward_cancellation` waits to cancel the body.
pub record Session (S : Type 0) : Type 0 where
  pub loop : S
  pub current_loop : Option ℕ
  pub forwarded_cancellation : Option Exc
  pub listening : Bool
  pub asyncgens_done : Bool
  pub should_warn : Bool
  pub raised : List Exc

-- What leaves a `try` whose `finally` ends in this way.
abbrev pub finally_raises : Option Exc → Option Exc → Option Exc
finally_raises r none = r
finally_raises r (some e) = some e

module _ {S : Type 0} where
  abbrev pub on_loop : Code S → Code (Session S)
  on_loop f s = let (r, x) = f s.loop in (r, record s { loop = x })

  -- One statement and then another, and `try: a finally: b`.
  abbrev pub after : Option Exc → Code (Session S) → Code (Session S)
  after none b s = b s
  after (some e) b s = (some e, s)

  abbrev pub and_next : Code (Session S) → Code (Session S) → Code (Session S)
  and_next a b s = let (r, s₁) = a s in after r b s₁

  abbrev pub try_finally : Code (Session S) → Code (Session S) → Code (Session S)
  try_finally a b s = let (r, s₁) = a s in let (r', s₂) = b s₁ in (finally_raises r r', s₂)

  -- `except trio.Cancelled` and `except BaseExceptionGroup` around the body.
  abbrev pub except_clauses : Option Exc → Code (Session S)
  except_clauses none s = (none, s)
  except_clauses (some (leaf cancelled n tb)) s =
      (none, record s { forwarded_cancellation = some (leaf cancelled n tb) })
  except_clauses (some (leaf error n tb)) s = (some (leaf error n tb), s)
  except_clauses (some (leaf exit n tb)) s = (some (leaf exit n tb), s)
  except_clauses (some (group c tb es)) s =
      let (forwarded, rest) = split trio_cancelled (group c tb es) in
      (rest, record s { forwarded_cancellation = forwarded })

  module _ (ops : Operations S) where
    -- The body with its `except` clauses, and `forward_cancel_scope.cancel()`.
    unfoldable pub run_body : Code (Session S)
    run_body s =
        let (r, s₁) = on_loop ops.body (record s { listening = true }) in
        let (r', s₂) = except_clauses r s₁ in (r', record s₂ { listening = false })

    -- The block of `tasks_nursery`, and the nursery.
    unfoldable pub run_tasks : Code (Session S)
    unfolding run_body
    run_tasks s =
        let entered = and_next (on_loop ops.main_loop_init) (on_loop ops.start_main_loop) in
        let leaving = and_next (on_loop ops.synchronize) (on_loop ops.cancel_tasks) in
        let (r, s₁) = and_next entered (try_finally run_body leaving) s in
        on_loop (ops.exit_tasks r) s₁

    -- The branches on the asynchronous generators that are left.
    abbrev pub no_generators : List ℕ → Bool
    no_generators [] = true
    no_generators (x ∷ xs) = false

    unfoldable pub start_shutdown : Session S → Session S
    start_shutdown s =
        if no_generators (ops.asyncgens s.loop)
        then record s { asyncgens_done = true; should_warn = false }
        else if ops.is_running s.loop
        then record s { asyncgens_done = false; should_warn = false }
        else record s { asyncgens_done = true; should_warn = true }

    -- `raise forwarded_cancellation` in a task of `loop_nursery`.
    abbrev pub forwards : Option Exc → List Exc
    forwards none = []
    forwards (some e) = e ∷ []

    -- `await asyncgens_done.wait()`: `none` if the event is never set.
    abbrev pub await_asyncgens : Session S → Option (Session S)
    await_asyncgens s = if s.asyncgens_done then some s else elim (ops.shutdown_asyncgens s.loop) [
      | none ↦ none
      | some (e, x) ↦
          some (record s { loop = x; asyncgens_done = true; raised = s.raised ++ forwards e })
    ]

    abbrev pub warn_about : Code (Session S)
    warn_about s = if s.should_warn then on_loop ops.warn s else (none, s)

    -- `current_loop.reset(old_loop)`
    abbrev pub reset : Option ℕ → Code (Session S)
    reset old s = (none, record s { current_loop = old })

    -- Its end, where the warning has ended like `r`.
    abbrev pub leave : Option ℕ → Option Exc → Code (Session S)
    leave old r =
        try_finally (try_finally (λ s. (r, s)) (on_loop ops.main_loop_exit))
          (and_next (on_loop ops.close) (reset old))

    -- The `finally` of `open_loop`; `old` is what `old_loop` remembers. `none` if it never ends.
    unfoldable pub shut_down : Option ℕ → Session S → Option (Option Exc × Session S)
    unfolding start_shutdown
    shut_down old s =
        let s₁ = start_shutdown s in
        let s₂ = record s₁ { raised = s₁.raised ++ forwards s₁.forwarded_cancellation } in
        let (r, s₃) = warn_about s₂ in
        elim (await_asyncgens s₃) [ none ↦ none | some s₄ ↦ some (leave old r s₄) ]

    abbrev pub opened : S → Option ℕ → Session S
    opened x old = record {
      loop = ops.mark_open x;
      current_loop = some ops.number;
      forwarded_cancellation = none;
      listening = false;
      asyncgens_done = false;
      should_warn = false;
      raised = [];
    }

    -- `open_loop` on a new loop, where `old` is the current loop.
    unfoldable pub open_loop : S → Option ℕ → Option (Option Exc × Session S)
    unfolding run_tasks shut_down
    open_loop x old =
        let (r, s) = run_tasks (opened x old) in
        elim (shut_down old s) [
          | none ↦ none
          | some (r', s') ↦ some (
              on_loop
                (ops.exit_loop (finally_raises r r') (s'.raised ++ ops.main_loop_raised s'.loop))
                s')
        ]

  -- `run`, with `proc` as the code in the `async with`; no loop is current when Trio starts.
  unfoldable pub run : Operations S → Code S → S → Option (Option Exc × Session S)
  unfolding open_loop
  run ops proc x = open_loop (record ops { body = proc }) x none
