-- ===== src/Children/Waiters/Windows.antt =====
-- `ProcessWaiter` of trio_asyncio/_child.py on Windows: the handle that `_set_pid` opens, `_wait_pid`, and
-- what `wait` and the waiting thread make of it. `_winapi` is an interface.
mod Failing
mod Tests
use trio_asyncio.Prelude.{
  ℕ, ◌≡◌, Bool, true, false, Option, none, some, List, [], ◌∷◌, ◌++◌, if◌then◌else◌,
}
use trio_asyncio.Children.Waiters.{
  Reply, runtime_error, attribute_error, type_error, suspended, Check, done, fails,
}

-- `WaitForSingleObject` with a timeout of 0 says whether the process has ended; with INFINITE it
-- returns only then. `GetExitCodeProcess` takes a handle, which is a number: `none` is `None`, and no
-- result is a `TypeError`.
pub record Winapi : Type 1 where
  pub State : Type 0
  pub has_ended : ℕ → State → Bool
  pub open_process : (pid : ℕ) → State → Option ℕ × State
  pub exit_code_process : Option ℕ → State → Option ℕ
  pub exit_code_process_none : (k : State) → exit_code_process none k ≡ none

-- The waiter, with `__handle`, and `_handle`, which is a class attribute that nothing assigns. `result`
-- is the number that `GetExitCodeProcess` returns. `soon` says whether `run_sync_soon` was called.
pub record WindowsWaiter : Type 0 where
  pub pid : Option ℕ
  pub private_handle : Option ℕ
  pub class_handle : Option ℕ
  pub result : Option ℕ
  pub event : Option Bool
  pub thread : Bool
  pub soon : Bool

-- `object.__new__(cls)`
abbrev pub new_waiter : WindowsWaiter
new_waiter = record {
  pid = none;
  private_handle = none;
  class_handle = none;
  result = none;
  event = none;
  thread = false;
  soon = false;
}

module _ (api : Winapi) where
  abbrev pub Machine : Type 0
  Machine = WindowsWaiter × api.State

  -- `_set_pid`, with an OSError of `OpenProcess` as the `none` of its handle.
  unfoldable pub set_pid : (pid : Option ℕ) (handle : Option ℕ) → Machine → Option Check × Machine
  set_pid none handle (w, k) = (some (fails runtime_error), (w, k))
  set_pid (some pid) handle (w, k) = elim w.pid [
    | some _ ↦ (some (fails runtime_error), (w, k))
    | none ↦ elim handle [
      | some h ↦ (some done, (record w { pid = some pid; private_handle = some h }, k))
      | none ↦
          let (opened, k') = api.open_process pid k in
          elim opened [
            | none ↦ (none, (record w { pid = some pid }, k'))
            | some h ↦ (some done, (record w { pid = some pid; private_handle = some h }, k'))
          ]
    ]
  ]

  -- `self.__result = _winapi.GetExitCodeProcess(self._handle)`
  abbrev pub read_exit_code : Machine → Check × Machine
  read_exit_code (w, k) = elim (api.exit_code_process w.class_handle k) [
    | none ↦ (fails type_error, (w, k))
    | some code ↦ (done, (record w { result = some code }, k))
  ]

  -- `_wait_pid`, where `__handle` is no attribute if `_set_pid` failed; a blocking call is a step that is taken once the process has ended.
  unfoldable pub wait_pid : (blocking : Bool) → Machine → Check × Machine
  wait_pid blocking (w, k) = elim w.private_handle [
    | none ↦ (fails attribute_error, (w, k))
    | some h ↦
        if blocking
        then read_exit_code (w, k)
        else if api.has_ended h k
        then read_exit_code (w, k)
        else (done, (w, k))
  ]

  -- `wait`, up to its await. `unwrap` is no method of a number.
  abbrev pub after_check : Check → Machine → Reply × Machine
  after_check (fails e) s = (e, s)
  after_check done (w, k) = elim w.result [
    | some code ↦ (attribute_error, (w, k))
    | none ↦
        (suspended, (if w.thread then w else record w { event = some false; thread = true }, k))
  ]

  unfoldable pub wait : Machine → Reply × Machine
  unfolding wait_pid
  wait (w, k) = elim w.result [
    | some code ↦ (attribute_error, (w, k))
    | none ↦ elim w.pid [
      | none ↦ (runtime_error, (w, k))
      | some _ ↦ let (r, s) = wait_pid false (w, k) in after_check r s
    ]
  ]

  -- `_wait_thread`, once the process has ended. An error ends the thread.
  abbrev pub notify : Check → Machine → Machine
  notify (fails e) s = s
  notify done (w, k) = (record w { soon = true }, k)

  unfoldable pub wait_thread : Machine → Machine
  unfolding wait_pid
  wait_thread s = let (r, s') = wait_pid true s in notify r s'
