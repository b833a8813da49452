-- ===== src/Opening/Tests.antt =====
-- `open_loop` on a loop that only records the calls.
use trio_asyncio.Prelude.{◌⊎◌, ℕ, ◌≡◌, refl, true, false, Option, none, some, List, [], ◌∷◌, ◌++◌}
use trio_asyncio.Exceptions.{error, cancelled, trio_cancelled, Exc, leaf, group, nil, cons}
use trio_asyncio.Exceptions.Split.{leaves, part_leaves, Parts}
use trio_asyncio.Trio.Buffers.{buffers}
use trio_asyncio.Heapq.Selection.{selection}
use trio_asyncio.Prelude.Int.{pos}
use trio_asyncio.Loop.{Loop, Script, Action, returns, act}
use trio_asyncio.Loop.Iteration.{Tick}
use trio_asyncio.Loop.Lifecycle.{new_loop, main_loop_exit}
use trio_asyncio.Opening.OnLoops.{on_methods, Closed, Refused, open_loop-close}
use trio_asyncio.Opening.{
  Operations, Session, Code, on_loop, finally_raises, run_body, run_tasks, shut_down, forwards,
  opened, open_loop,
}
use trio_asyncio.Opening.Leaving.{ClosedAt, finalizer, run_body-Parts, open_loop-ClosedAt}

abbrev call : ℕ → Code (List ℕ)
call n s = (none, s ++ n ∷ [])

-- The body is cancelled and fails, in two tasks.
abbrev failure : Exc
failure = group false [] (cons (leaf cancelled 1 []) (cons (leaf error 2 []) nil))

abbrev ops : Operations (List ℕ)
ops = record {
  number = 7;
  mark_open = λ s. s;
  main_loop_init = call 1;
  start_main_loop = call 2;
  body = λ s. (some failure, s ++ 3 ∷ []);
  synchronize = call 4;
  cancel_tasks = call 5;
  exit_tasks = λ r s. (r, s);
  asyncgens = λ s. 0 ∷ [];
  is_running = λ s. true;
  warn = call 6;
  shutdown_asyncgens = λ s. some (some (leaf error 3 []), s ++ 7 ∷ []);
  main_loop_raised = λ s. [];
  main_loop_exit = call 8;
  close = call 9;
  exit_loop = λ r rs s. (r, s);
}

abbrev final_loop : Option (Option Exc × Session (List ℕ)) → List ℕ
final_loop none = []
final_loop (some (r, s)) = s.loop

calls : final_loop (open_loop ops [] (some 3)) ≡ 1 ∷ 2 ∷ 3 ∷ 4 ∷ 5 ∷ 7 ∷ 8 ∷ 9 ∷ []
unfolding open_loop
calls = refl

-- The task for the generators never sets its event.
abbrev stuck : Operations (List ℕ)
stuck = record ops { shutdown_asyncgens = λ s. none }

stuck_never_ends : open_loop stuck [] (some 3) ≡ none
unfolding open_loop
stuck_never_ends = refl

open_loop-ClosedAt_example :
    let (r, s) = run_tasks ops (opened ops [] (some 3)) in
    (finalizer ops s.loop ≡ none) × (open_loop ops [] (some 3) ≡ none)
    ⊎ ((e : Option Exc) × (y : List ℕ) × (r' : Option Exc) × (s' : Session (List ℕ)) × (finalizer
            ops s.loop
          ≡ some (e, y))
        × (shut_down ops (some 3) s ≡ some (r', s'))
        × ClosedAt ops y (some 3) s'
        × (s'.raised ≡ forwards ops s.forwarded_cancellation ++ forwards ops e)
        × (open_loop ops [] (some 3)
            ≡ some (on_loop (ops.exit_loop (finally_raises r r') (s'.raised ++ [])) s')))
open_loop-ClosedAt_example = open_loop-ClosedAt ops [] (some 3)

run_body-Parts_example :
    let (r, s') = run_body ops (opened ops [] (some 3)) in
    Parts trio_cancelled (leaves failure) (part_leaves s'.forwarded_cancellation) (part_leaves r)
    × (s'.listening ≡ false)
run_body-Parts_example = run_body-Parts ops (opened ops [] (some 3)) failure refl refl

-- Callbacks that do nothing, and a body that schedules one.
abbrev program : ℕ → Script
program c = record { actions = []; ending = returns }

abbrev others : Operations (Loop buffers selection)
others = record {
  number = 7;
  mark_open = λ s. s;
  main_loop_init = λ s. (none, s);
  start_main_loop = λ s. (none, s);
  body = λ s. (none, (act buffers selection (pos 0) (Action.call_soon 1) s).1);
  synchronize = λ s. (none, s);
  cancel_tasks = λ s. (none, s);
  exit_tasks = λ r s. (r, s);
  asyncgens = λ s. [];
  is_running = λ s. false;
  warn = λ s. (none, s);
  shutdown_asyncgens = λ s. none;
  main_loop_raised = λ s. [];
  main_loop_exit = λ s. (none, s);
  close = λ s. (none, s);
  exit_loop = λ r rs s. (r, s);
}

abbrev ticks : List Tick
ticks =
    let tick : Tick = record {
      now = pos 1;
      before = [];
      expired = false;
      accepts = true;
      during = [];
    } in
    tick ∷ tick ∷ tick ∷ []

open_loop-close_example :
    let ops = on_methods buffers selection program ticks ticks others in
    let x = new_loop buffers selection none in
    let (r, s) = run_tasks ops (opened ops x (some 3)) in
    (finalizer ops s.loop ≡ none) × (open_loop ops x (some 3) ≡ none)
    ⊎ ((e : Option Exc) × (y : Loop buffers selection) × (r' : Option Exc) × (s' : Session
          (Loop buffers selection))
        × (finalizer ops s.loop ≡ some (e, y))
        × (open_loop ops x (some 3)
            ≡ some (on_loop (ops.exit_loop (finally_raises r r') (s'.raised ++ [])) s'))
        × (Closed buffers selection program 0
              (some 3)
              y
              (main_loop_exit buffers selection program ticks ticks y).0
              s'.loop
              s'.current_loop
            ⊎ Refused buffers selection program
                (main_loop_exit buffers selection program ticks ticks y).0
                s'.loop))
open_loop-close_example =
    open_loop-close buffers selection program ticks ticks others (new_loop buffers selection none)
      (some 3) 0
