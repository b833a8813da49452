-- ===== src/Children/Spawning/Tests.antt =====
-- The process 10 with its transport, on a loop whose queue holds one handle at most.
use trio_asyncio.Prelude.{ℕ, ◌≡◌, refl, true, false, none, some, [], update, arith}
use trio_asyncio.Prelude.Int.{pos}
use trio_asyncio.Exec.{ok, err, Exec, user_exit}
use trio_asyncio.Trio.Buffers.{buffers}
use trio_asyncio.Heapq.Selection.{selection}
use trio_asyncio.Loop.Lifecycle.{new_loop}
use trio_asyncio.Handles.{init}
use trio_asyncio.Entrances.{trio_executor}
use trio_asyncio.Children.{compute_returncode}
use trio_asyncio.Children.Waiters.{
  alive, gone, ended, Registry, blank, value, result, suspended, wait_thread, run_soon, wait,
  wait_pid, process_waiter, set_pid, wait_for_child,
}
use trio_asyncio.Children.Waiters
use trio_asyncio.Children.Waiters.Tests.{table, statuses}
use trio_asyncio.Children.Spawning.{
  Starting, Transports, Subprocesses, child_wait, child_wait_resumed, make_subprocess_transport,
}
use trio_asyncio.Children.Spawning.Leaving.{Ends, make_subprocess_transport-Ends}
use trio_asyncio.Children.Spawning.Exiting.{child_wait-process_exited}

abbrev no_transports : Transports
no_transports = record {
  table = λ n. record { pid = 0; is_closed = false; exited = none };
  next_transport = 0;
}

abbrev fresh : Subprocesses buffers selection
fresh = record {
  loop = record {
    loop = new_loop buffers selection (some 1);
    tasks = λ h. init none;
    soon = [];
    coroutine_closed = λ c. false;
    default_executor = trio_executor none none;
  };
  transports = no_transports;
}

abbrev fails_with : ℕ → Exec (Subprocesses buffers selection) (Unit {0})
fails_with transp s = (err (user_exit 3), s)

abbrev passes : ℕ → Exec (Subprocesses buffers selection) (Unit {0})
passes transp s = (ok tt, s)

-- The constructor starts the process and leaves the loop as it is.
abbrev starting : Starting buffers selection
starting loop = (ok 10, loop)

make_subprocess_transport-Ends_example :
    Ends
      (λ n. n)
      fails_with
      passes
      10
      fresh.loop
      fresh
      (make_subprocess_transport buffers selection starting (λ n. n) fails_with passes fresh)
make_subprocess_transport-Ends_example =
    make_subprocess_transport-Ends starting (λ n. n) fails_with passes 10 fresh.loop fresh refl
      (λ n s h. h)

abbrev started : Transports
started = record no_transports {
  table = λ n. record { pid = 10; is_closed = false; exited = none };
}

abbrev no_waiters : Registry table
no_waiters = record {
  children = λ p. none;
  waiters = λ w. blank;
  next_waiter = 0;
  soon = [];
  kernel = update (λ p. gone) 10 alive;
}

abbrev ends_now : Registry table → Registry table
ends_now s = record s { kernel = update s.kernel 10 (ended 7) }

child_wait-process_exited_example :
    let begun = (child_wait table statuses 0 (no_waiters, started)).1 in
    let ran = run_soon table statuses (wait_thread table statuses 0 (ends_now begun)) in
    let (q, end, out) = child_wait_resumed table statuses 0 0 (ran, started) in
    ((child_wait table statuses 0 (no_waiters, started)).0 ≡ (0, suspended))
    × ((child_wait table statuses 0 (no_waiters, started)).2 ≡ started)
    × ((ran.waiters 0).event ≡ some true)
    × (q ≡ result (value (pos 7)))
    × ((out.table 0).exited ≡ some (pos 7))
    × ((other : ℕ) → ¬ (other ≡ 0) → out.table other ≡ started.table other)
unfolding child_wait wait wait_pid process_waiter Waiters.init set_pid wait_for_child
    compute_returncode
child_wait-process_exited_example =
    child_wait-process_exited table statuses 0 7 (pos 7) (no_waiters, started)
      (ends_now (child_wait table statuses 0 (no_waiters, started)).1) started refl (omega arith)
      refl refl refl refl refl
