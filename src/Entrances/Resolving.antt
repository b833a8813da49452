-- ===== src/Entrances/Resolving.antt =====
-- From `trio_as_future` to the future's result.
use trio_asyncio.Prelude.{
  ℕ, ◌≡◌, Bool, true, false, not, Option, some, List, [], ◌∷◌, ◌++◌, arith, length, if◌then◌else◌,
  inl, inr,
}
use trio_asyncio.Exec.{ok, err, runtime_error, would_block}
use trio_asyncio.Trio.{Trio, has_room}
use trio_asyncio.Heapq.{Heapq}
use trio_asyncio.Loop.{
  Loop, HandleKind, async_task, user, new_handle, send, queue_new, queue_handle,
}
use trio_asyncio.Handles.{
  init, pending, finished, cancelled, wrapped_cancel, run_begin, returned, run_finish,
}
use trio_asyncio.Futures
use trio_asyncio.Entrances.{Entrance, trio_as_future, run_aio_coroutine}

module _ {t : Trio} {q : Heapq} where
  queue_new_room :
      (k : HandleKind) (c : ℕ) (s : Loop t q) (d : t.Channel)
      → s.closed ≡ false
      → t.send_nowait s.next_handle s.queue ≡ some d
      → queue_new t q k (user c) s
        ≡ (ok s.next_handle, record (new_handle t q k (user c) s).1 { queue = d })
  unfolding queue_new queue_handle send
  queue_new_room k c s d opened e = ground (arith, opened, e)

  -- `trio_as_future` on a loop that is not closed and whose queue has room: a task is queued behind
  -- everything that is there, for a future that is pending. When the task gets its turn it calls
  -- the function, and if that returns the future has its value. If the future is cancelled before,
  -- the function is not called, and the future is cancelled with the message of that call.
  pub trio_as_future-run_finish :
      (derive_mark : Bool → Bool) (proc v : ℕ) (message : Option ℕ) (s : Entrance t q)
      → s.loop.closed ≡ false
      → has_room (t.max_buffer_size s.loop.queue) (length (t.contents s.loop.queue)) ≡ true
      → let h = s.loop.next_handle in
        let (r, s₁) = trio_as_future t q proc s in
        let task = s₁.tasks h in
        let ended = (run_finish derive_mark (returned v) (run_begin task).1).1 in
        let unstarted = run_begin (wrapped_cancel message pending task).1 in
        (r ≡ ok h)
        × (t.contents s₁.loop.queue ≡ t.contents s.loop.queue ++ h ∷ [])
        × ((s₁.loop.handles h).kind ≡ async_task)
        × (task.fut ≡ some pending)
        × ((run_begin task).0 ≡ true)
        × (ended.fut ≡ some (finished v))
        × (unstarted.0 ≡ false)
        × (unstarted.1.fut ≡ some (cancelled message))
  unfolding trio_as_future init run_begin run_finish wrapped_cancel
  trio_as_future-run_finish derive_mark proc v message s opened room =
      elim (t.send_cases s.loop.next_handle s.loop.queue) [
        | inl full ↦ absurd (cc (room, full.0))
        | inr sent ↦
            let d = sent.0 in
            let queued = queue_new_room async_task proc s.loop d opened sent.2 in
            ground (arith, queued, sent.3)
      ]

  -- `run_aio_coroutine` closes its coroutine if and only if it cannot be queued: the loop is closed or
  -- its queue is full. Then it raises, and otherwise it waits for the task.
  pub run_aio_coroutine-close_coroutine :
      (coro : ℕ) (events : List Futures.Event) (s : Entrance t q)
      → s.coroutine_closed coro ≡ false
      → let (r, s') = run_aio_coroutine t q coro events s in
        let room = has_room (t.max_buffer_size s.loop.queue) (length (t.contents s.loop.queue)) in
        (s'.coroutine_closed coro ≡ (if s.loop.closed then true else not room))
        × (r ≡ (
            if s.loop.closed
            then err runtime_error
            else if room
            then ok (Futures.run_aio_future events Futures.start)
            else err would_block))
  unfolding run_aio_coroutine queue_new queue_handle send
  run_aio_coroutine-close_coroutine coro events s unclosed =
      elim (t.send_cases s.loop.next_handle s.loop.queue) [
        | inl full ↦ ground (arith, full.0, full.1, unclosed)
        | inr sent ↦ ground (arith, sent.1, sent.2, unclosed)
      ]
