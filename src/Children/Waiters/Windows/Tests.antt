-- ===== src/Children/Waiters/Windows/Tests.antt =====
-- A waiter for the process 10, which ends with the code 7; its handle is 3.
use trio_asyncio.Prelude.{ℕ, ◌≡◌, refl, ◌⊎◌, Bool, true, false, Option, none, some}
use trio_asyncio.Children.Waiters.{type_error, suspended}
use trio_asyncio.Children.Waiters.Windows.{Winapi, new_waiter, set_pid, wait, wait_thread}
use trio_asyncio.Children.Waiters.Windows.Failing.{wait-wait_thread_windows}

abbrev exit_code : Option ℕ → Bool → Option ℕ
exit_code none k = none
exit_code (some h) k = some 7

-- The state says whether the process has ended.
abbrev machine : Winapi
machine = record {
  State = Bool;
  has_ended = λ h k. k;
  open_process = λ pid k. (some 3, k);
  exit_code_process = exit_code;
  exit_code_process_none = λ k. refl;
}

wait-wait_thread_windows_example :
    let w = (set_pid machine (some 10) none (new_waiter, false)).1.0 in
    let (r, (w', _)) = wait machine (w, false) in
    let (w'', _) = wait_thread machine (w', true) in
    (false ≡ true) × (r ≡ type_error) × (w' ≡ w)
    ⊎ (false ≡ false)
      × (r ≡ suspended)
      × (w''.event ≡ some false)
      × (w''.soon ≡ false)
      × (w''.result ≡ none)
unfolding set_pid
wait-wait_thread_windows_example = wait-wait_thread_windows machine 10 none false false true refl
