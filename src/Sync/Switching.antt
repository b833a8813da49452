-- ===== src/Sync/Switching.antt =====
-- Switches to the greenlet that runs Trio, and back.
use trio_asyncio.Prelude.{
  ℕ, ◌≡◌, ◌⊎◌, Bool, true, false, not, ◌&&◌, ◌||◌, Option, none, some, arith, if◌then◌else◌,
}
use trio_asyncio.Exec.{runtime_error, attribute_error}
use trio_asyncio.Trio.{Trio}
use trio_asyncio.Sync.{
  raises, Greenlet, no_glet, alive, dead, Sync, Work, cleared, clean_trio_state, resumed, no_cancel,
  serve, switch, run_in_greenlet,
}

-- The Trio greenlet is there.
abbrev pub is_alive : Greenlet → Bool
is_alive no_glet = false
is_alive alive = true
is_alive dead = false

abbrev pub is_none : Option ℕ → Bool
is_none none = true
is_none (some x) = false

module _ {t : Trio} (main_loop_exit : Work t) where
  abbrev pub idle : Sync t → Bool
  idle s = not s.closed && (not s.loop_running && is_none s.running_loop)

  -- Work that is not of Trio's own is refused or handed over. It is refused, with a `RuntimeError` and
  -- without running or changing anything, if the loop is closed, runs already, or the thread runs
  -- another loop, or if the Trio greenlet is not there; cleanups run without it. Where none of this
  -- holds and the Trio greenlet itself calls, as a callback that `_main_loop_exit` drains does, the work
  -- does not run either, and the call fails with an `AttributeError`. Otherwise it runs in
  -- the greenlet with the loop as the running one, so that no call from inside gets through, and
  -- afterwards no loop runs, and Trio's context and the wakeup descriptor are the caller's again,
  -- whatever the work did and however it ended; a cancellation ends as a `RuntimeError`.
  pub run_in_greenlet_cases :
      (is_sync : Bool) (work : Work t) (s : Sync t)
      → let (r, s') = run_in_greenlet t main_loop_exit is_sync work s in
        let (r', s₁) = work (resumed t (cleared t s)) in
        (idle s && (is_alive s.glet || is_sync) ≡ false) × (r ≡ raises runtime_error) × (s' ≡ s)
        ⊎ ((idle s && (not (is_alive s.glet) && is_sync) ≡ true)
            × (run_in_greenlet t main_loop_exit is_sync work s ≡ work s))
        ⊎ ((idle s && (is_alive s.glet && s.inside) ≡ true)
            × (r ≡ raises attribute_error)
            × (s' ≡ s))
        ⊎ ((idle s && (is_alive s.glet && not s.inside) ≡ true)
            × (r ≡ no_cancel t r')
            × (s'.loop_running ≡ false)
            × (s'.running_loop ≡ none)
            × (s'.inside ≡ false)
            × (s'.trio_state.trio_globals ≡ s.trio_state.trio_globals)
            × ((if s.main_thread then s'.trio_state.wakeup_fd else s.trio_state.wakeup_fd)
                ≡ s.trio_state.wakeup_fd)
            × (run_in_greenlet t main_loop_exit is_sync work (resumed t (cleared t s))
                ≡ (raises runtime_error, resumed t (cleared t s))))
  unfolding run_in_greenlet switch clean_trio_state serve
  run_in_greenlet_cases is_sync work s = ground arith
