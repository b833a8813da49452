-- ===== src/Children/Waiters/Windows/Failing.antt =====
-- On Windows no exit code is found.
use trio_asyncio.Prelude.{ℕ, ◌≡◌, ◌⊎◌, Bool, true, false, Option, none, some, arith}
use trio_asyncio.Children.Waiters.{type_error, suspended, done}
use trio_asyncio.Children.Waiters.Windows.{Winapi, new_waiter, set_pid, wait, wait_pid, wait_thread}

-- The process of the handle has ended.
abbrev pub is_over : (api : Winapi) → Option ℕ → api.State → Bool
is_over api none k = false
is_over api (some h) k = api.has_ended h k

-- On Windows a waiter for a process, new or with a handle that was given, never has an exit code. If
-- the process has ended, `wait` raises a TypeError and leaves the waiter as it is. If not, `wait` does
-- not return, and when the process ends the waiting thread is ended by that error: the event is not
-- set, and there is no result.
pub wait-wait_thread_windows :
    (api : Winapi) (pid : ℕ) (handle : Option ℕ) (k later ended : api.State)
    → (set_pid api (some pid) handle (new_waiter, k)).0 ≡ some done
    → let w = (set_pid api (some pid) handle (new_waiter, k)).1.0 in
      let (r, (w', _)) = wait api (w, later) in
      let (w'', _) = wait_thread api (w', ended) in
      (is_over api w.private_handle later ≡ true) × (r ≡ type_error) × (w' ≡ w)
      ⊎ (is_over api w.private_handle later ≡ false)
        × (r ≡ suspended)
        × (w''.event ≡ some false)
        × (w''.soon ≡ false)
        × (w''.result ≡ none)
unfolding set_pid wait wait_pid wait_thread
wait-wait_thread_windows api pid handle k later ended e =
    ground (arith, api.exit_code_process_none later, api.exit_code_process_none ended)
