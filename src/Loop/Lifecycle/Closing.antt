-- ===== src/Loop/Lifecycle/Closing.antt =====
-- Entering a loop, leaving it, closing it.
use trio_asyncio.Prelude.{List, [], ◌∷◌, ℕ, ◌≡◌, ◌⊎◌, true, false, Option, arith}
use trio_asyncio.Exec.{ok, err, runtime_error}
use trio_asyncio.Trio.{Trio}
use trio_asyncio.Heapq.{Heapq, Timer}
use trio_asyncio.Loop.{mark_cancelled, Loop, queue_handle}
use trio_asyncio.Loop.Lifecycle.{
  cancel_all, cancel_timers, new_loop, is_running, main_loop_init, close,
}

module _ (t : Trio) (q : Heapq) where
  -- A new loop does not run, can be entered once and not twice, and can be closed while it does not
  -- run.
  new_loop-main_loop_init :
      (n : Option ℕ)
      → let s = new_loop t q n in
        let (r, s') = main_loop_init t q s in
        (is_running t q s ≡ false)
        × (r ≡ ok tt)
        × (main_loop_init t q s' ≡ (err runtime_error, s'))
        × ((close t q s').0 ≡ ok tt)
  unfolding new_loop is_running main_loop_init close
  new_loop-main_loop_init n = let e = t.is_set-set t.event in ground (arith, e)

  -- `close` on a loop that runs raises and changes nothing. On one that does not, it returns; closing
  -- again changes nothing more, and no handle can be queued after it.
  pub close-queue_handle :
      (s : Loop t q) (h : ℕ)
      → s.closed ≡ false
      → let (r, s') = close t q s in
        (is_running t q s ≡ true) × (r ≡ err runtime_error) × (s' ≡ s)
        ⊎ ((is_running t q s ≡ false)
            × (r ≡ ok tt)
            × (close t q s' ≡ (ok tt, s'))
            × (queue_handle t q h s' ≡ (err runtime_error, s')))
  unfolding close is_running queue_handle
  close-queue_handle s h e = ground (arith, e)

  abbrev pub TimersCancelled : Loop t q → List Timer → Type 0
  TimersCancelled s [] = Unit
  TimersCancelled s (x ∷ xs) = ((s.handles x.1).cancelled ≡ true) × TimersCancelled s xs

  cancel_all-kept :
      (xs : List Timer) (s : Loop t q) (h : ℕ)
      → (s.handles h).cancelled ≡ true
      → ((cancel_all t q xs s).handles h).cancelled ≡ true
  cancel_all-kept [] s h e = e
  cancel_all-kept (x ∷ xs) s h e =
      cancel_all-kept xs (mark_cancelled t q x.1 s) h (ground (arith, e))

  cancel_all-TimersCancelled :
      (xs : List Timer) (s : Loop t q) → TimersCancelled (cancel_all t q xs s) xs
  cancel_all-TimersCancelled [] s = tt
  cancel_all-TimersCancelled (x ∷ xs) s =
      let s' = mark_cancelled t q x.1 s in
      (cancel_all-kept xs s' x.1 (ground arith), cancel_all-TimersCancelled xs s')

  TimersCancelled-eq :
      (xs : List Timer) (s : Loop t q) (g : q.Heap)
      → TimersCancelled s xs
      → TimersCancelled (record s { timers = g }) xs
  TimersCancelled-eq [] s g h = tt
  TimersCancelled-eq (x ∷ xs) s g h = (h.0, TimersCancelled-eq xs s g h.1)

  -- `_cancel_timers` leaves no timer, and the handle of each that there was is cancelled.
  cancel_timers-TimersCancelled :
      (s : Loop t q)
      → let s' = cancel_timers t q s in
        (q.entries s'.timers ≡ []) × TimersCancelled s' (q.entries s.timers)
  unfolding cancel_timers
  cancel_timers-TimersCancelled s = (
    q.entries-empty,
    TimersCancelled-eq (q.entries s.timers) (cancel_all t q (q.entries s.timers) s) q.empty
        (cancel_all-TimersCancelled (q.entries s.timers) s),
  )
