-- ===== src/Loop/Tests.antt =====
-- A loop on concrete channels, events and timers, and the theorems at it.
use mathlib.Core.List.{not-mem-nil}
use trio_asyncio.Prelude.{
  ℕ, ◌≡◌, refl, true, false, none, some, List, [], ◌∷◌, arith, if◌then◌else◌, ◌==◌,
}
use trio_asyncio.Prelude.Int.{pos, ◌-ℤ◌, ◌+ℤ◌}
use trio_asyncio.Trio.Buffers.{buffers}
use trio_asyncio.Heapq.Selection.{selection}
use trio_asyncio.Exec.{ok}
use trio_asyncio.Exec.{err, runtime_error}
use trio_asyncio.Prelude.{◌⊎◌}
use trio_asyncio.Loop.Lifecycle.{cancel_timers, is_running, close, main_loop_exit}
use trio_asyncio.Loop.Lifecycle.Closing.{close-queue_handle}
use trio_asyncio.Loop.Tagging.{Tagged, iterate-Tagged}
use trio_asyncio.Loop.{
  queue_handle, stop_loop, plain, timer, user, stop_me, Handle, no_library, asyncio, ran, skipped,
  scheduled, Loop, Action, returns, Script, act,
}
use trio_asyncio.Loop.Iteration.{Tick, main_loop_one, iterate}
use trio_asyncio.Loop.Stopped.{Ready}
use trio_asyncio.Loop.Requesting.{Halts, stop_loop-iterate-Stopped}

-- Callback 0 queues callback 1 and cancels handle 2; the others do nothing.
abbrev program : ℕ → Script
program c =
    if c == 0
    then record { actions = Action.call_soon 1 ∷ Action.cancel 2 ∷ []; ending = returns }
    else record { actions = []; ending = returns }

-- Handle 0 runs callback 0, handle 1 is a timer, handles 2 and 4 run callback 1, handle 3 stops.
abbrev handles : ℕ → Handle
handles h =
    if h == 0
    then record { kind = plain; callback = user 0; cancelled = false }
    else if h == 1
    then record { kind = timer (pos 5); callback = user 1; cancelled = false }
    else if h == 3
    then record { kind = plain; callback = stop_me 0; cancelled = false }
    else record { kind = plain; callback = user 1; cancelled = false }

abbrev busy : Loop buffers selection
busy = record {
  queue = record { size = none; items = 0 ∷ 1 ∷ 2 ∷ 3 ∷ 4 ∷ [] };
  timers = [];
  handles = handles;
  next_handle = 5;
  events = λ e. false;
  next_event = 1;
  stopped = false;
  stop_wait = some 0;
  closed = false;
  entered = true;
  library = no_library;
  trace = [];
}

abbrev tick : ℕ → Tick
tick n = record { now = pos n; before = []; expired = false; accepts = true; during = [] }

abbrev ticks : List Tick
ticks = tick 1 ∷ tick 2 ∷ tick 3 ∷ tick 4 ∷ tick 5 ∷ []

runs : Unit {0}
unfolding iterate main_loop_one act ◌-ℤ◌ ◌+ℤ◌
runs = tt

busy_trace :
    (iterate buffers selection program ticks busy).1.trace
    ≡ ran 0 asyncio ∷ scheduled 1 ∷ skipped 2 ∷ ran 3 asyncio ∷ []
unfolding runs
busy_trace = refl

busy-Ready : Ready program (λ h. (handles h).kind) 0 3 (0 ∷ 1 ∷ 2 ∷ []) (4 ∷ []) busy
busy-Ready = record {
  running = refl;
  stop_handle = record { below = omega arith; is_plain = refl; stops = refl; uncancelled = refl };
  ordinary = ((omega arith, refl), ((omega arith, refl), ((omega arith, refl), tt)));
  timers_ordinary = λ x m. absurd (not-mem-nil m);
  kinds = (refl, (refl, (refl, (refl, tt))));
  queue_eq = refl;
}

abbrev later_ticks : List Tick
later_ticks = tick 6 ∷ tick 7 ∷ ticks

-- A loop that nobody has told to stop.
abbrev asked : Loop buffers selection
asked = record busy { queue = record { size = none; items = 0 ∷ 1 ∷ 2 ∷ [] }; stop_wait = none }

stop_loop-iterate-Stopped_example :
    let (r, s') = stop_loop buffers selection none asked in
    (r ≡ ok 1)
    × Halts program
        (λ h. (s'.handles h).kind)
        (0 ∷ 1 ∷ 2 ∷ 5 ∷ [])
        s'
        (iterate buffers selection program later_ticks s')
stop_loop-iterate-Stopped_example =
    stop_loop-iterate-Stopped program asked later_ticks refl refl refl refl
      ((omega arith, refl), ((omega arith, refl), ((omega arith, refl), tt)))
      (λ x m. absurd (not-mem-nil m)) (omega arith)

close-queue_handle_example :
    let (r, s') = close buffers selection busy in
    (is_running buffers selection busy ≡ true) × (r ≡ err runtime_error) × (s' ≡ busy)
    ⊎ ((is_running buffers selection busy ≡ false)
        × (r ≡ ok tt)
        × (close buffers selection s' ≡ (ok tt, s'))
        × (queue_handle buffers selection 0 s' ≡ (err runtime_error, s')))
close-queue_handle_example = close-queue_handle buffers selection busy 0 refl

-- Leaving the loop: what was queued before the stop handle runs, what came later is drained.
exit_trace :
    (main_loop_exit buffers selection program later_ticks later_ticks asked).1.trace
    ≡ ran 0 asyncio ∷ scheduled 1 ∷ skipped 2 ∷ ran 5 asyncio ∷ ran 1 asyncio ∷ ran 6 asyncio ∷ []
unfolding runs main_loop_exit stop_loop cancel_timers
exit_trace = refl

iterate-Tagged_example : Tagged program busy (iterate buffers selection program ticks busy).1
iterate-Tagged_example = iterate-Tagged program ticks busy

-- A loop with a timer left.
abbrev waiting : Loop buffers selection
waiting = record asked { timers = (pos 5, 1) ∷ [] }

-- Callbacks that queue nothing.
abbrev silent_program : ℕ → Script
silent_program c = record { actions = Action.cancel 2 ∷ []; ending = returns }
