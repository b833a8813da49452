-- ===== src/Sync/Leaving.antt =====
-- The `with` statement of a synchronous loop: `__enter__` and `__exit__` of trio_asyncio/_sync.py, with
-- `close` of trio_asyncio/_base.py. asyncio's own `close` is a parameter.
use trio_asyncio.Prelude.{◌≡◌, sym, ap, subst, ◌∙◌, ◌⊎◌, Bool, true, false, arith, if◌then◌else◌}
use trio_asyncio.Exec.{assertion_error}
use trio_asyncio.Trio.{Trio}
use trio_asyncio.Sync.{
  Outcome, value, cancelled, raises, no_glet, alive, dead, Sync, Work, kept, cleared, put_back,
  clean_trio_state, switch, stop, close_hook, is_running,
}

module _ (t : Trio) (main_loop_exit asyncio_close : Work t) where
  -- `BaseTrioEventLoop._close`
  abbrev pub base_hook : Work t
  base_hook s = (value 0, s)

  abbrev pub followed_by : Work t → Outcome → Work t
  followed_by work (value x) s = work s
  followed_by work cancelled s = (cancelled, s)
  followed_by work (raises e) s = (raises e, s)

  -- `close`
  unfoldable pub close : Work t
  unfolding close_hook
  close s =
      let (r, s') = close_hook t main_loop_exit base_hook s in
      if s.closed then (value 0, s) else followed_by asyncio_close r s'

  -- `__enter__`
  abbrev pub enter : Work t
  enter s = (value s.number, s)

  abbrev pub assert_no_glet : Work t
  assert_no_glet s = elim s.glet [
    | no_glet ↦ (value 0, s)
    | alive ↦ (raises assertion_error, s)
    | dead ↦ (raises assertion_error, s)
  ]

  -- `__exit__`
  unfoldable pub exit : Work t
  unfolding close stop
  exit s =
      let (r, s₁) = stop t main_loop_exit s in
      let (r', s₂) = followed_by close r s₁ in followed_by assert_no_glet r' s₂

  -- What `_main_loop_exit` starts from when the Trio greenlet ends.
  abbrev pub returning : Sync t → Sync t
  returning s = record (put_back t s.parked (cleared t s)) { inside = true }

  abbrev pub is_value : Outcome → Bool
  is_value (value x) = true
  is_value cancelled = false
  is_value (raises e) = false

  -- The caller's state once the greenlet has ended in the state s₁.
  abbrev left : Sync t → Sync t → Sync t
  left s s₁ = put_back t (kept t s) (record (cleared t s₁) { inside = false; glet = dead })

  abbrev hooked : Outcome → Sync t → Sync t → Outcome × Sync t
  hooked (value x) s s₁ = (value 0, record (left s s₁) { glet = no_glet })
  hooked cancelled s s₁ = (cancelled, left s s₁)
  hooked (raises e) s s₁ = (raises e, left s s₁)

  close_hook-hooked :
      (s : Sync t)
      → s.glet ≡ alive
      → s.inside ≡ false
      → let (m, s₁) = main_loop_exit (returning s) in
        close_hook t main_loop_exit base_hook s ≡ hooked m s s₁
  unfolding close_hook switch clean_trio_state
  close_hook-hooked s is_alive outside = ground arith

  -- `__exit__` after `stop`, which has nothing to do.
  abbrev after_hook : Outcome × Sync t → Outcome × Sync t
  after_hook o = let (r, s) = followed_by asyncio_close o.0 o.1 in followed_by assert_no_glet r s

  exit-after_hook :
      (s : Sync t)
      → s.closed ≡ false
      → s.loop_running ≡ false
      → exit s ≡ after_hook (close_hook t main_loop_exit base_hook s)
  unfolding exit close stop
  exit-after_hook s opened idle = ground arith

  abbrev Exited : Sync t → Outcome → Sync t → Outcome × Sync t → Type 0
  Exited s m s₁ end =
      ((is_value m ≡ true) × (end.0 ≡ value 0) × (end.1.glet ≡ no_glet) × (end.1.closed ≡ true)
        ⊎ (is_value m ≡ false) × (end.0 ≡ m) × (end.1.glet ≡ dead) × (end.1.closed ≡ s₁.closed))
      × (end.1.trio_state.trio_globals ≡ s.trio_state.trio_globals)
      × ((if s.main_thread then end.1.trio_state.wakeup_fd else s.trio_state.wakeup_fd)
          ≡ s.trio_state.wakeup_fd)

  hooked-Exited :
      (s s₁ : Sync t) (m : Outcome)
      → ((u : Sync t)
          → is_running t main_loop_exit u ≡ false
          → asyncio_close u ≡ (value 0, record u { closed = true }))
      → s₁.loop_running ≡ false
      → Exited s m s₁ (after_hook (hooked m s s₁))
  unfolding is_running
  hooked-Exited s s₁ (value x) closes still =
      let u : Sync t = record (left s s₁) { glet = no_glet } in
      let closed = closes u (ground arith) in ground (arith, closed)
  hooked-Exited s s₁ cancelled closes still = ground arith
  hooked-Exited s s₁ (raises e) closes still = ground arith

  -- At the end of a `with` statement, outside of the loop's greenlet, with the loop open and not
  -- running: the Trio greenlet runs `_main_loop_exit`, which does not mark it as running, and ends. If
  -- that returns, there is no greenlet any more, and the loop is closed; if not, its exception leaves
  -- the statement, the ended greenlet stays, and nothing else closes the loop. Either way Trio's
  -- context and the wakeup descriptor are the caller's again. asyncio's `close` closes a loop that does
  -- not run.
  pub exit-main_loop_exit :
      (s : Sync t)
      → ((u : Sync t)
          → is_running t main_loop_exit u ≡ false
          → asyncio_close u ≡ (value 0, record u { closed = true }))
      → s.glet ≡ alive
      → s.inside ≡ false
      → s.closed ≡ false
      → s.loop_running ≡ false
      → (main_loop_exit (returning s)).1.loop_running ≡ false
      → let (r, s') = exit s in
        let (m, s₁) = main_loop_exit (returning s) in
        ((is_value m ≡ true) × (r ≡ value 0) × (s'.glet ≡ no_glet) × (s'.closed ≡ true)
          ⊎ (is_value m ≡ false) × (r ≡ m) × (s'.glet ≡ dead) × (s'.closed ≡ s₁.closed))
        × (s'.trio_state.trio_globals ≡ s.trio_state.trio_globals)
        × ((if s.main_thread then s'.trio_state.wakeup_fd else s.trio_state.wakeup_fd)
            ≡ s.trio_state.wakeup_fd)
  exit-main_loop_exit s closes is_alive outside opened idle still =
      let (m, s₁) = main_loop_exit (returning s) in
      subst (Exited s m s₁)
        (sym (exit-after_hook s opened idle ∙ ap after_hook (close_hook-hooked s is_alive outside)))
        (hooked-Exited s s₁ m closes still)
