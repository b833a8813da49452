-- ===== src/Handles.antt =====
-- `ScopedHandle` and `AsyncHandle` in trio_asyncio/_handles.py: a Trio task whose result goes to an
-- asyncio future. `AsyncHandle._run` is cut at its only wait: `run_begin` is what it does before
-- `await self._callback(*self._args)`, `run_finish` what it does after the `with self._scope` block
-- ended; other code may cancel the handle or the future in between. Calls of Trio's objects are
-- recorded (`scope_cancelled`, `started`); how Trio ended the block is an argument.
pub mod Cancelling
pub mod Settling
mod Tests
use trio_asyncio.Prelude.{
  ℕ, Bool, true, false, Option, none, some, List, [], ◌∷◌, ◌++◌, if◌then◌else◌,
}
use trio_asyncio.Exceptions.{
  error, exception, trio_cancelled, Exc, leaf, collapse_aware_exception_split,
}

-- The state of an `asyncio.Future`. Results and cancel messages are numbers.
pub data Future : Type 0 where
  pending : Future
  cancelled : (message : Option ℕ) → Future
  finished : (result : ℕ) → Future
  failed : Exc → Future

abbrev pub is_done : Future → Bool
is_done pending = false
is_done (cancelled m) = true
is_done (finished v) = true
is_done (failed e) = true

abbrev pub is_cancelled : Future → Bool
is_cancelled pending = false
is_cancelled (cancelled m) = true
is_cancelled (finished v) = false
is_cancelled (failed e) = false

-- `asyncio.Future.cancel(msg)`: the new state, and whether the call cancelled the future.
abbrev pub orig_cancel : Option ℕ → Future → Bool × Future
orig_cancel m pending = (true, cancelled m)
orig_cancel m (cancelled n) = (false, cancelled n)
orig_cancel m (finished v) = (false, finished v)
orig_cancel m (failed e) = (false, failed e)

-- The `InvalidStateError` of `set_result` and `set_exception` on a future that is done.
abbrev pub invalid_state : Exc
invalid_state = leaf error 0 []

pub data Result (A : Type 0) : Type 0 where
  ok : A → Result A
  raise : Exc → Result A

-- `set_result` and `set_exception`, given the state that they would leave.
abbrev pub settle : Future → Future → Result Future
settle new pending = ok new
settle new (cancelled m) = raise invalid_state
settle new (finished v) = raise invalid_state
settle new (failed e) = raise invalid_state

-- `handle_cancelled` is `Handle._cancelled`: the handle's callback and arguments are then gone.
-- `reported` lists the exceptions passed to `call_exception_handler` by `_raise`.
pub record AsyncHandle : Type 0 where
  pub handle_cancelled : Bool
  pub scope_cancelled : Bool
  pub fut : Option Future
  pub started : Bool
  pub run_finished : Bool
  pub cancel_message : Option ℕ
  pub reported : List Exc

-- `AsyncHandle(proc, args, loop, result_future=fut)`
unfoldable pub init : Option Future → AsyncHandle
init fut = record {
  handle_cancelled = false;
  scope_cancelled = false;
  fut = fut;
  started = false;
  run_finished = false;
  cancel_message = none;
  reported = [];
}

-- `ScopedHandle.cancel`, with `_trio_io_cancel` of the base class.
unfoldable pub cancel : AsyncHandle → AsyncHandle
cancel h = record h { handle_cancelled = true; scope_cancelled = true }

abbrev or_else : Option ℕ → Option ℕ → Option ℕ
or_else none n = n
or_else (some m) n = some m

-- `wrapped_cancel(msg)`, which takes the place of the future's `cancel`, on the future's state `f`.
unfoldable pub wrapped_cancel : Option ℕ → Future → AsyncHandle → Bool × AsyncHandle
unfolding cancel
wrapped_cancel msg f h =
    if h.run_finished
    then (let (r, f') = orig_cancel (or_else msg h.cancel_message) f in
        (r, record h { fut = some f' }))
    else (if is_done f then (false, h) else (true, cancel (record h { cancel_message = msg })))

-- `if self._fut is not None and not self._fut.done(): self._fut.cancel()`
abbrev pub cancel_if_pending : Option Future → AsyncHandle → AsyncHandle
cancel_if_pending none h = h
cancel_if_pending (some f) h = if is_done f then h else (wrapped_cancel none f h).1

-- `_run` up to the callback. `true`: the callback is awaited next; `false`: `_run` has returned.
unfoldable pub run_begin : AsyncHandle → Bool × AsyncHandle
unfolding wrapped_cancel
run_begin h =
    if h.handle_cancelled
    then (false, cancel_if_pending h.fut (record h { started = true; run_finished = true }))
    else (true, record h { started = true })

-- How Trio ended the block: the callback returned; the scope caught its own cancellation
-- (`cancelled_caught`); an exception came out.
pub data BlockExit : Type 0 where
  returned : ℕ → BlockExit
  caught : BlockExit
  raised : Exc → BlockExit

abbrev pub raise_part : Option Exc → Result Unit
raise_part none = ok tt
raise_part (some e) = raise e

-- `if rest: self._raise(rest)`
abbrev pub report : Option Exc → AsyncHandle → AsyncHandle
report none h = h
report (some e) h = record h { reported = h.reported ++ e ∷ [] }

module _ (derive_mark : Bool → Bool) where
  -- `self._fut.set_exception(rest)` or `self._fut.cancel()`, where the future is not cancelled.
  -- An `InvalidStateError` of the first comes out of `_run` in place of what is raised next.
  abbrev pub pass_on : Option Exc → Option Exc → Future → AsyncHandle → Result Unit × AsyncHandle
  pass_on (some rest) cancel_part f h = elim (settle (failed rest) f) [
    | ok f' ↦ (raise_part cancel_part, record h { fut = some f' })
    | raise e ↦ (raise e, h)
  ]
  pass_on none cancel_part f h = (raise_part cancel_part, (wrapped_cancel none f h).1)

  -- The `except BaseException as exc` clause.
  unfoldable pub except_clause : Option Future → Exc → AsyncHandle → Result Unit × AsyncHandle
  unfolding wrapped_cancel
  except_clause none exc h =
      let parts = collapse_aware_exception_split derive_mark exception exc in
      (raise_part parts.1, report parts.0 h)
  except_clause (some f) exc h =
      let parts = collapse_aware_exception_split derive_mark trio_cancelled exc in
      if is_cancelled f then (raise_part parts.0, h) else pass_on parts.1 parts.0 f h

  -- The `try` block after `with self._scope`, and its `except` clause.
  unfoldable pub after_block : Option Future → BlockExit → AsyncHandle → Result Unit × AsyncHandle
  unfolding except_clause
  after_block none (returned v) h = (ok tt, h)
  after_block none caught h = (ok tt, h)
  after_block none (raised e) h = except_clause none e h
  after_block (some f) (returned v) h =
      if is_cancelled f then (ok tt, h) else elim (settle (finished v) f) [
        | ok f' ↦ (ok tt, record h { fut = some f' })
        | raise e ↦ except_clause (some f) e h
      ]
  after_block (some f) caught h = (ok tt, (wrapped_cancel none f h).1)
  after_block (some f) (raised e) h = except_clause (some f) e h

  -- `_run` from the end of the callback on; `finally: self._finished = True` comes first.
  unfoldable pub run_finish : BlockExit → AsyncHandle → Result Unit × AsyncHandle
  unfolding after_block
  run_finish exit h = after_block h.fut exit (record h { run_finished = true })
