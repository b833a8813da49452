-- ===== src/Sync/Halting.antt =====
-- `stop` on a loop that runs.
use trio_asyncio.Prelude.{◌≡◌, ◌⊎◌, inl, inr, true, false, [], ◌∷◌, ◌++◌, arith, length}
use trio_asyncio.Exec.{would_block, trio_asyncio_exit}
use trio_asyncio.Trio.{Trio, has_room}
use trio_asyncio.Sync.{value, raises, Sync, Work, send, queue_handle, stop, do_stop}

module _ {t : Trio} (main_loop_exit : Work t) where
  -- `stop` where the loop runs in its greenlet and was not told to stop. If the queue has room, one
  -- handle is queued, at its end, which raises `TrioAsyncioExit` when it runs, and until then `stop` can
  -- be called any number of times without a second one. If the queue is full it raises `WouldBlock`, queues
  -- nothing, and then no later call queues anything either.
  pub stop-stop :
      (s : Sync t)
      → s.loop_running ≡ true
      → s.stop_pending ≡ false
      → s.closed ≡ false
      → s.inside ≡ true
      → let (r, s₁) = stop t main_loop_exit s in
        (stop t main_loop_exit s₁ ≡ (value 0, s₁))
        × ((has_room (t.max_buffer_size s.queue) (length (t.contents s.queue)) ≡ true)
              × (r ≡ value s.next_handle)
              × (t.contents s₁.queue ≡ t.contents s.queue ++ s.next_handle ∷ [])
              × (s₁.is_stop s.next_handle ≡ true)
              × ((do_stop t main_loop_exit s₁).0 ≡ raises trio_asyncio_exit)
              × ((do_stop t main_loop_exit s₁).1.stop_pending ≡ false)
            ⊎ ((has_room (t.max_buffer_size s.queue) (length (t.contents s.queue)) ≡ false)
                × (r ≡ raises would_block)
                × (s₁.queue ≡ s.queue)))
  unfolding stop queue_handle send do_stop
  stop-stop s runs first opened within = elim (t.send_cases s.next_handle s.queue) [
    | inl full ↦ ground (arith, runs, first, opened, within, full.0, full.1)
    | inr room ↦ ground (arith, runs, first, opened, within, room.1, room.2, room.3)
  ]
