-- ===== src/Sync.antt =====
-- The loop for synchronous callers in trio_asyncio/_sync.py. It runs Trio in a greenlet of its own.
-- What a greenlet does between two switches is one step here; greenlet and what Trio runs in it are
-- parameters: a piece of work is any function on the state.
pub mod Switching
pub mod Halting
pub mod Running
pub mod Completing
mod Leaving
mod Tests
use trio_asyncio.Prelude.{
  ℕ, zero, suc, ◌≡◌, Bool, true, false, not, ◌&&◌, Option, none, some, List, [], ◌∷◌, if◌then◌else◌,
  update,
}
use trio_asyncio.Exec.{
  Error, runtime_error, would_block, attribute_error, trio_asyncio_exit, user_exit, assertion_error,
}
use trio_asyncio.Trio.{Trio}

-- How a piece of work ends.
pub data Outcome : Type 0 where
  value : ℕ → Outcome
  cancelled : Outcome
  raises : Error → Outcome

-- `_glet`: `None`, a greenlet that runs or waits in a switch, or one that has ended.
pub data Greenlet : Type 0 where
  no_glet alive dead : Greenlet

-- What `clean_trio_state` looks at: Trio's run context, and the wakeup file descriptor, where
-- `none` is -1.
pub record TrioState : Type 0 where
  pub trio_globals : List ℕ
  pub wakeup_fd : Option ℕ

-- What it keeps: `old_wakeup_fd` is `none` where `set_wakeup_fd` raised a `ValueError`.
pub record Kept : Type 0 where
  pub old_state : List ℕ
  pub old_wakeup_fd : Option (Option ℕ)

-- A `SyncTrioEventLoop` and its thread. `inside` says whether the running greenlet is `_glet`, `parked`
-- is what the `clean_trio_state` around a switch in `_glet` keeps. `is_stop` says which handles run
-- `do_stop`. `running_loop` is asyncio's, `main_thread` says whether `set_wakeup_fd` works. `result` and
-- `watched` belong to `_run_coroutine`: its result, and whether the future has its callback `is_done`.
pub record Sync (t : Trio) : Type 0 where
  pub number : ℕ
  pub closed : Bool
  pub loop_running : Bool
  pub stop_pending : Bool
  pub glet : Greenlet
  pub inside : Bool
  pub has_token : Bool
  pub running_loop : Option ℕ
  pub current_loop : Option ℕ
  pub trio_state : TrioState
  pub parked : Kept
  pub main_thread : Bool
  pub queue : t.Channel
  pub is_stop : ℕ → Bool
  pub next_handle : ℕ
  pub result : Option Outcome
  pub watched : Bool

module _ (t : Trio) where
  abbrev pub Work : Type 0
  Work = Sync t → Outcome × Sync t

  -- `clean_trio_state` before its `yield`: what it keeps, and what it leaves.
  abbrev pub kept : Sync t → Kept
  kept s = record {
    old_state = s.trio_state.trio_globals;
    old_wakeup_fd = if s.main_thread then some s.trio_state.wakeup_fd else none;
  }

  abbrev pub cleared : Sync t → Sync t
  cleared s = record s {
    trio_state = record {
      trio_globals = [];
      wakeup_fd = if s.main_thread then none else s.trio_state.wakeup_fd;
    };
  }

  -- Its `finally`, with what it has kept.
  abbrev pub put_back : Kept → Sync t → Sync t
  put_back old s = record s {
    trio_state = record {
      trio_globals = old.old_state;
      wakeup_fd = elim old.old_wakeup_fd [ none ↦ s.trio_state.wakeup_fd | some fd ↦ fd ];
    };
  }

  -- `clean_trio_state` around `body`.
  unfoldable pub clean_trio_state : {A : Type 0} → (Sync t → A × Sync t) → Sync t → A × Sync t
  clean_trio_state body s = let (r, s') = body (cleared s) in (r, put_back (kept s) s')

  -- `__trio_main` from one switch to the next: the work runs with the loop as the running one, and a
  -- `Cancelled` becomes a `RuntimeError`.
  abbrev pub resumed : Sync t → Sync t
  resumed s = record (put_back s.parked s) {
    loop_running = true;
    running_loop = some s.number;
    current_loop = some s.number;
    inside = true;
  }

  abbrev pub parked_again : Sync t → Sync t
  parked_again s = record (cleared s) {
    loop_running = false;
    running_loop = none;
    current_loop = none;
    inside = false;
    parked = kept s;
  }

  abbrev pub no_cancel : Outcome → Outcome
  no_cancel cancelled = raises runtime_error
  no_cancel (value x) = value x
  no_cancel (raises e) = raises e

  unfoldable pub serve : Work → Sync t → Option Outcome × Sync t
  serve work s = let (r, s') = work (resumed s) in (some (no_cancel r), parked_again s')

  module _ (main_loop_init : Work) where
    -- `trio.run` in the new greenlet, to the first switch: `none` is the `True` that it hands over. An
    -- exception of `_main_loop_init` ends the greenlet and comes out of the switch.
    abbrev pub started : Outcome → Sync t → Option Outcome × Sync t
    started (value x) s = (none, record (cleared s) { inside = false; parked = kept s })
    started cancelled s = (some cancelled, record (cleared s) { inside = false; glet = dead })
    started (raises e) s = (some (raises e), record (cleared s) { inside = false; glet = dead })

    abbrev pub start : Sync t → Option Outcome × Sync t
    start s =
        let (r, s') = main_loop_init (record s { glet = alive; inside = true }) in started r s'

    -- `__init__`, after that of the base class.
    unfoldable pub init : Work
    unfolding clean_trio_state
    init s =
        let (r, s') = clean_trio_state start s in
        elim r [ none ↦ (value 0, s') | some failed ↦ (failed, s') ]

  module _ (main_loop_exit : Work) where
    -- `__trio_main` after its loop: `_main_loop_exit`, and the greenlet ends. An exception comes out of
    -- the switch.
    abbrev pub last : Outcome → Option Outcome
    last (value x) = none
    last cancelled = some cancelled
    last (raises e) = some (raises e)

    abbrev pub leave : Sync t → Option Outcome × Sync t
    leave s =
        let (r, s') = main_loop_exit (record (put_back s.parked s) { inside = true }) in
        (last r, record (cleared s') { inside = false; glet = dead })

    -- `self._glet.switch(req)` on a greenlet that waits in `__trio_main`; `none` is `None`.
    unfoldable pub switch : Option Work → Sync t → Option Outcome × Sync t
    unfolding serve
    switch none s = leave s
    switch (some work) s = if s.closed then leave s else serve work s

    abbrev pub unwrap : Option Outcome → Outcome
    unwrap none = raises runtime_error
    unwrap (some r) = r

    -- `self._glet.switch(req).unwrap()` in `_glet` itself: the switch returns `req`, which is a tuple.
    abbrev pub switch_to_itself : Work
    switch_to_itself s = (raises attribute_error, s)

    -- `__run_in_greenlet`; `is_sync` is the test `async_fn is _sync`.
    unfoldable pub run_in_greenlet : (is_sync : Bool) → Work → Work
    unfolding switch clean_trio_state
    run_in_greenlet is_sync work s =
        if s.closed
        then (raises runtime_error, s)
        else if s.loop_running
        then (raises runtime_error, s)
        else elim s.running_loop [
          | some _ ↦ (raises runtime_error, s)
          | none ↦ elim s.glet [
            | alive ↦
                if s.inside
                then clean_trio_state switch_to_itself s
                else let (r, s') = clean_trio_state (switch (some work)) s in (unwrap r, s')
            | no_glet ↦ if is_sync then work s else (raises runtime_error, s)
            | dead ↦ if is_sync then work s else (raises runtime_error, s)
          ]
        ]

    -- `self._q_send.send_nowait(handle)`
    unfoldable pub send : ℕ → Work
    send h s = elim (t.send_nowait h s.queue) [
      | none ↦ (raises would_block, s)
      | some d ↦ (value h, record s { queue = d })
    ]

    -- The test of `_queue_handle`, `_add_reader`, `_add_writer` and `_trio_io_cancel`.
    abbrev pub from_outside : Sync t → Bool
    from_outside s = not s.inside && s.has_token

    abbrev pub inside_greenlet : Work → Work
    inside_greenlet work s = if from_outside s then run_in_greenlet true work s else work s

    -- `_queue_handle`
    unfoldable pub queue_handle : ℕ → Work
    unfolding run_in_greenlet send
    queue_handle h s = if s.closed then (raises runtime_error, s) else inside_greenlet (send h) s

    -- `asyncio.Handle(do_stop, (), self)`
    abbrev pub new_stop : Sync t → Sync t
    new_stop s = record s {
      is_stop = update s.is_stop s.next_handle true;
      next_handle = suc s.next_handle;
    }

    -- `stop`
    unfoldable pub stop : Work
    unfolding queue_handle
    stop s =
        if s.loop_running && not s.stop_pending
        then queue_handle s.next_handle (new_stop (record s { stop_pending = true }))
        else (value 0, s)

    -- `do_stop`
    unfoldable pub do_stop : Work
    do_stop s = (raises trio_asyncio_exit, record s { stop_pending = false })

    -- `_add_reader`, `_add_writer` and `_trio_io_cancel`, with the rest as `work`.
    unfoldable pub add_io : Work → Work
    unfolding run_in_greenlet
    add_io work s = inside_greenlet work s

    -- `is_running`
    unfoldable pub is_running : Sync t → Bool
    is_running s = not s.closed && s.loop_running

    -- `_close`, and `close_base` for that of the base class.
    unfoldable pub close_hook : (close_base : Work) → Work
    unfolding switch clean_trio_state
    close_hook close_base s = elim s.glet [
      | no_glet ↦ close_base s
      | dead ↦ close_base (record s { glet = no_glet })
      | alive ↦
          if s.inside
          then (raises runtime_error, s)
          else let (r, s') = clean_trio_state (switch none) s in
            elim r [ none ↦ close_base (record s' { glet = no_glet }) | some failed ↦ (failed, s') ]
    ]
