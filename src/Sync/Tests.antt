-- ===== src/Sync/Tests.antt =====
-- A loop for synchronous callers at concrete values.
use trio_asyncio.Prelude.{◌≡◌, refl, ◌⊎◌, true, false, none, some, [], ◌∷◌, if◌then◌else◌}
use trio_asyncio.Exec.{runtime_error, would_block, attribute_error, trio_asyncio_exit}
use trio_asyncio.Trio.Buffers.{buffers}
use trio_asyncio.Sync.{
  value, raises, Sync, alive, no_glet, dead, Work, stop, do_stop, resumed, cleared, no_cancel,
  run_in_greenlet,
}
use trio_asyncio.Sync.Leaving.{exit, returning, is_value, exit-main_loop_exit}
use trio_asyncio.Sync.Switching.{run_in_greenlet_cases}
use trio_asyncio.Sync.Running.{is_done}
use trio_asyncio.Sync.Halting.{stop-stop}

-- A loop that waits, in a thread with a Trio context of its own.
abbrev resting : Sync buffers
resting = record {
  number = 1;
  closed = false;
  loop_running = false;
  stop_pending = false;
  glet = alive;
  inside = false;
  has_token = true;
  running_loop = none;
  current_loop = none;
  trio_state = record { trio_globals = 8 ∷ []; wakeup_fd = some 3 };
  parked = record { old_state = 9 ∷ []; old_wakeup_fd = some (some 4) };
  main_thread = true;
  queue = record { size = some 2; items = 0 ∷ [] };
  is_stop = λ h. false;
  next_handle = 1;
  result = none;
  watched = false;
}

abbrev nothing : Work buffers
nothing s = (value 0, s)

-- An iteration in which the future is done.
abbrev completing : Work buffers
completing s = (value 0, record s { result = some (value 5) })

run_in_greenlet_cases_example :
    let run = run_in_greenlet buffers nothing in
    let (r, s') = run false completing resting in
    let s₁ = resumed buffers (cleared buffers resting) in
    (true ≡ false) × (r ≡ raises runtime_error) × (s' ≡ resting)
    ⊎ ((false ≡ true) × (run false completing resting ≡ completing resting))
    ⊎ ((false ≡ true) × (r ≡ raises attribute_error) × (s' ≡ resting))
    ⊎ ((true ≡ true)
        × (r ≡ no_cancel buffers (completing s₁).0)
        × (s'.loop_running ≡ false)
        × (s'.running_loop ≡ none)
        × (s'.inside ≡ false)
        × (s'.trio_state.trio_globals ≡ 8 ∷ [])
        × ((if true then s'.trio_state.wakeup_fd else some 3) ≡ some 3)
        × (run false completing s₁ ≡ (raises runtime_error, s₁)))
run_in_greenlet_cases_example = run_in_greenlet_cases nothing false completing resting

abbrev running : Sync buffers
running = resumed buffers (cleared buffers resting)

stop-stop_example :
    let (r, s₁) = stop buffers nothing running in
    (stop buffers nothing s₁ ≡ (value 0, s₁))
    × ((true ≡ true)
          × (r ≡ value 1)
          × (s₁.queue.items ≡ 0 ∷ 1 ∷ [])
          × (s₁.is_stop 1 ≡ true)
          × ((do_stop buffers nothing s₁).0 ≡ raises trio_asyncio_exit)
          × ((do_stop buffers nothing s₁).1.stop_pending ≡ false)
        ⊎ ((true ≡ false) × (r ≡ raises would_block) × (s₁.queue ≡ running.queue)))
stop-stop_example = stop-stop nothing running refl refl refl refl

-- A main loop in which the future is done at once, and then `do_stop` runs.
abbrev one_future : Work buffers
one_future s = (value 0, (do_stop buffers nothing (is_done buffers nothing (value 5) s).1).1)

abbrev closes : Work buffers
closes s = (value 0, record s { closed = true })

exit-main_loop_exit_example :
    let (r, s') = exit buffers nothing closes resting in
    let (m, s₁) = nothing (returning buffers nothing closes resting) in
    ((is_value buffers nothing closes m ≡ true)
        × (r ≡ value 0)
        × (s'.glet ≡ no_glet)
        × (s'.closed ≡ true)
      ⊎ (is_value buffers nothing closes m ≡ false)
        × (r ≡ m)
        × (s'.glet ≡ dead)
        × (s'.closed ≡ s₁.closed))
    × (s'.trio_state.trio_globals ≡ 8 ∷ [])
    × ((if true then s'.trio_state.wakeup_fd else some 3) ≡ some 3)
exit-main_loop_exit_example =
    exit-main_loop_exit buffers nothing closes resting (λ u h. refl) refl refl refl refl refl
