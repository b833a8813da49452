-- ===== src/Children/Waiters/Tests.antt =====
-- A process waiter at concrete values.
use trio_asyncio.Prelude.{
  ◌⊎◌, ℕ, ◌≡◌, refl, true, false, Option, none, some, [], ◌==◌, if◌then◌else◌, update, arith,
}
use trio_asyncio.Prelude.Int.{pos}
use trio_asyncio.Children.{Statuses, compute_returncode}
use trio_asyncio.Children.Waiters.{
  Outcome, process_waiter, init, set_pid, Child, gone, alive, ended, Kernel, value,
  child_process_error, Registry, result, captured, wait, wait_pid, wait_resumed, wait_thread,
  run_soon, returncode, wait_for_child,
}
use trio_asyncio.Children.Waiters.Steps.{here, next, creates, waits, returns, wakes, lives}
use trio_asyncio.Children.Waiters.Steps.Reaching.{new_registry, Reach-wait_resumed}
use trio_asyncio.Children.Waiters.Losing.{wait_thread-lost}

abbrev pub asked : Child → ℕ → (ℕ → Child) → Option (ℕ × ℕ) × (ℕ → Child)
asked gone pid k = (none, k)
asked alive pid k = (some (0, 0), k)
asked (ended status) pid k = (some (pid, status), update k pid gone)

-- A system as a table of the children.
abbrev pub table : Kernel
table = record {
  State = ℕ → Child;
  child = λ k pid. k pid;
  waitpid = λ pid blocking k. asked (k pid) pid k;
  waitpid_gone = λ pid blocking k e. rw e refl;
  waitpid_alive = λ pid k e. rw e refl;
  waitpid_ended = λ pid status blocking k e. rw e (refl, ground arith);
}

-- A status is the exit code.
abbrev pub statuses : Statuses
statuses = record {
  signaled = λ status. false;
  term_signal = λ status. 0;
  exited = λ status. true;
  exit_status = λ status. status;
  was_stopped = λ status. false;
  stop_signal = λ status. 0;
}

-- Waiter 0 is for the process 10.
abbrev registry : Child → Registry table
registry c = record {
  children = λ p. if p == 10 then some 0 else none;
  waiters = λ w. record { pid = some 10; event = none; result = none; thread = false };
  next_waiter = 1;
  soon = [];
  kernel = λ p. if p == 10 then c else gone;
}

exit_code : captured table statuses 7 (compute_returncode statuses 7) ≡ value (pos 7)
unfolding compute_returncode
exit_code = refl

opened : Unit {0}
unfolding wait wait_pid wait_thread run_soon wait_for_child process_waiter init set_pid new_registry
opened = tt

wait_thread-lost_example :
    let (r, s₁) = wait table statuses 0 (registry (ended 7)) in
    let s₂ = run_soon table statuses (wait_thread table statuses 0 s₁) in
    (r ≡ result (captured table statuses 7 (compute_returncode statuses 7)))
    × (wait_resumed table statuses 0 s₂ ≡ result child_process_error)
    × (returncode table statuses 0 s₂ ≡ some child_process_error)
wait_thread-lost_example =
    wait_thread-lost table statuses 0 0 10 7 (registry (ended 7)) refl refl (omega arith) refl refl

-- A waiter is made, waits, its child ends, and the event is set.
abbrev history : Registry table
history =
    let s₁ = (process_waiter table statuses (some 10) false (new_registry table (λ p. alive))).1 in
    let s₂ = (wait table statuses 0 s₁).1 in
    run_soon table statuses (wait_thread table statuses 0 (record s₂ { kernel = λ p. ended 7 }))

Reach-wait_resumed_example :
    ((history.waiters 0).event ≡ some true)
      × ((r : Outcome) × (wait_resumed table statuses 0 history ≡ result r)
          × (returncode table statuses 0 history ≡ some r))
    ⊎ ((history.waiters 0).event ≡ some false)
    ⊎ (((history.waiters 0).event ≡ none) × ((history.waiters 0).thread ≡ false))
unfolding opened
Reach-wait_resumed_example =
    Reach-wait_resumed table statuses (λ p. alive) history 0
      (next
        (next
          (next (next (next here (creates (some 10) false)) (waits 0 (omega arith)))
            (lives (λ p. ended 7)))
          (returns 0 (omega arith) refl refl))
        wakes)
