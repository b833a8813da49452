-- ===== src/Children/Exits/Tests.antt =====
-- Callbacks for the process 10, whose status is its exit code. A callback notes what it is called with.
use trio_asyncio.Prelude.{ℕ, ◌≡◌, refl, true, none, some, List, [], ◌∷◌, update, arith}
use trio_asyncio.Prelude.Int.{ℤ}
use trio_asyncio.Children.{compute_returncode}
use trio_asyncio.Children.Waiters.{
  Child, gone, alive, ended, Registry, blank, result, suspended, captured, wait_thread, run_soon,
  wait, wait_pid, process_waiter, init, set_pid, wait_for_child,
}
use trio_asyncio.Children.Waiters.Tests.{table, statuses}
use trio_asyncio.Children.Exits.{called_with, waitpid, waitpid_resumed}
use trio_asyncio.Children.Exits.Calling.{waitpid-waitpid_resumed}

abbrev note : ℕ → ℤ → List (ℕ × ℤ) → List (ℕ × ℤ)
note pid code calls = (pid, code) ∷ calls

abbrev no_waiters : Child → Registry table
no_waiters c = record {
  children = λ p. none;
  waiters = λ w. blank;
  next_waiter = 0;
  soon = [];
  kernel = update (λ p. gone) 10 c;
}

abbrev ends_now : Registry table → Registry table
ends_now s = record s { kernel = update s.kernel 10 (ended 7) }

waitpid-waitpid_resumed_example :
    let begun = (waitpid table statuses 10 note (no_waiters alive, [])).1 in
    let r = result (captured table statuses 7 (compute_returncode statuses 7)) in
    let ran = run_soon table statuses (wait_thread table statuses 0 (ends_now begun)) in
    let (q, end, out) = waitpid_resumed table statuses 10 0 note (ran, []) in
    ((waitpid table statuses 10 note (no_waiters alive, [])).0 ≡ (0, suspended))
    × ((waitpid table statuses 10 note (no_waiters alive, [])).2 ≡ [])
    × ((ran.waiters 0).event ≡ some true)
    × (q ≡ r)
    × (out ≡ called_with table statuses r (note 10) [])
    × (end.children 10 ≡ none)
unfolding waitpid wait wait_pid process_waiter init set_pid wait_for_child
waitpid-waitpid_resumed_example =
    waitpid-waitpid_resumed table statuses 10 7 note (no_waiters alive, [])
      (ends_now (waitpid table statuses 10 note (no_waiters alive, [])).1) [] refl (omega arith)
      refl refl refl refl
