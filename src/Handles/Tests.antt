-- ===== src/Handles/Tests.antt =====
-- Tasks and their result futures at concrete values.
use trio_asyncio.Prelude.{
  ◌≡◌, refl, Bool, true, false, Option, none, some, List, [], ◌∷◌, ◌++◌, keep,
}
use trio_asyncio.Exceptions.{error, cancelled, exit, exception, Exc, leaf, group, nil, cons}
use trio_asyncio.Exceptions.Split.{matches, misses}
use trio_asyncio.Handles.{Future, pending, finished, AsyncHandle, caught, raised, run_finish}
use trio_asyncio.Handles.Settling.{
  raised_leaves, reported_leaves, exit_leaves, Settles, run_finish-Settles, run_finish_unlinked,
}
use trio_asyncio.Handles.Cancelling.{
  Interruption, cancel_handle, cancel_future, interrupt_all, interrupt_all-run_finish-Settles,
}

abbrev same_mark : Bool → Bool
same_mark b = b

-- An error, a cancellation and a `SystemExit`.
abbrev mixed : Exc
mixed =
    group false [] (cons (leaf error 1 []) (cons (leaf cancelled 2 []) (cons (leaf exit 3 []) nil)))

abbrev task : Option Future → AsyncHandle
task fut = record {
  handle_cancelled = false;
  scope_cancelled = false;
  fut = fut;
  started = true;
  run_finished = false;
  cancel_message = none;
  reported = [];
}

abbrev calls : List Interruption
calls = cancel_future (some 4) ∷ cancel_handle ∷ cancel_future (some 5) ∷ []

run_finish-Settles_example :
    let (r, h') = run_finish same_mark (raised mixed) (task (some pending)) in
    Settles (raised mixed) none r h'.fut
run_finish-Settles_example = run_finish-Settles same_mark (raised mixed) (task (some pending)) refl

run_finish_unlinked_example :
    let (r, h') = run_finish same_mark (raised mixed) (task none) in
    let all = exit_leaves (raised mixed) in
    (raised_leaves r ≡ keep (misses exception) all)
    × (reported_leaves h'.reported ≡ [] ++ keep (matches exception) all)
    × (h'.fut ≡ none)
run_finish_unlinked_example = run_finish_unlinked same_mark (raised mixed) (task none) refl

interrupt_all-run_finish-Settles_example :
    let (r, h') = run_finish same_mark caught (interrupt_all calls (task (some pending))) in
    Settles caught (some 5) r h'.fut
interrupt_all-run_finish-Settles_example =
    interrupt_all-run_finish-Settles same_mark calls (task (some pending)) caught refl refl

abbrev cancelled_task : AsyncHandle
cancelled_task = record (task (some pending)) { handle_cancelled = true; cancel_message = some 6 }

abbrev ended_task : AsyncHandle
ended_task = record (task (some (finished 9))) { run_finished = true }
