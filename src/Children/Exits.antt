-- ===== src/Children/Exits.antt =====
-- What waits for a child process and then says its return code: `TrioChildWatcher._waitpid` in
-- trio_asyncio/_loop.py, and `child_wait` in `_make_subprocess_transport` of trio_asyncio/_base.py.
-- A callback is a function on the state that it changes.
pub mod Calling
mod Tests
use trio_asyncio.Prelude.{ℕ, Bool, true, false, Option, none, some, if◌then◌else◌}
use trio_asyncio.Prelude.Int.{ℤ}
use trio_asyncio.Children.{Statuses}
use trio_asyncio.Children.Waiters.{
  Kernel, Registry, Reply, Outcome, value, result, suspended, wait_for_child, wait_resumed,
}

-- `await self.__event.wait()` returns.
abbrev pub event_is_set : Option Bool → Bool
event_is_set none = false
event_is_set (some b) = b

module _ (os : Kernel) (statuses : Statuses) {S : Type 0} where
  -- What follows `returncode = await wait_for_child(pid)`, for each way in which the await ends.
  abbrev pub called_with : Reply → (ℤ → S → S) → S → S
  called_with (result (value code)) f s = f code s
  called_with _ f s = s

  -- A coroutine that awaits `wait_for_child(pid)` and then calls `f`, up to its await: the waiter, and
  -- how the coroutine ends.
  abbrev pub await_child : (pid : ℕ) → (ℤ → S → S) → Registry os × S → (ℕ × Reply) × Registry os × S
  await_child pid f s =
      let ((w, r), registry) = wait_for_child os statuses pid s.0 in
      ((w, r), registry, called_with r f s.1)

  -- The same from its await, which returns once the event of the waiter is set.
  abbrev pub resume_child : (w : ℕ) → (ℤ → S → S) → Registry os × S → Reply × Registry os × S
  resume_child w f s =
      if event_is_set (s.0.waiters w).event
      then (let r = wait_resumed os statuses w s.0 in (r, s.0, called_with r f s.1))
      else (suspended, s.0, s.1)

  -- `TrioChildWatcher._waitpid`
  unfoldable pub waitpid :
      (pid : ℕ) (callback : ℕ → ℤ → S → S) → Registry os × S → (ℕ × Reply) × Registry os × S
  waitpid pid callback = await_child pid (callback pid)

  unfoldable pub waitpid_resumed :
      (pid w : ℕ) (callback : ℕ → ℤ → S → S) → Registry os × S → Reply × Registry os × S
  waitpid_resumed pid w callback = resume_child w (callback pid)
