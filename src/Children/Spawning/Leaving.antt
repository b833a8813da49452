-- ===== src/Children/Spawning/Leaving.antt =====
-- How `_make_subprocess_transport` leaves the transport that it made.
use trio_asyncio.Prelude.{
  ℕ, ◌≡◌, sym, ap, subst, refl, Bool, true, false, not, ◌&&◌, ◌⊎◌, inl, inr, none, [], ◌∷◌, ◌++◌,
  arith, length, if◌then◌else◌, Bool-cases,
}
use trio_asyncio.Exec.{Result, ok, err, Exec, Error, runtime_error, would_block}
use trio_asyncio.Trio.{Trio, has_room}
use trio_asyncio.Heapq.{Heapq}
use trio_asyncio.Loop.{queue_new, queue_handle, send, async_task}
use trio_asyncio.Entrances.{Entrance, run_trio_task}
use trio_asyncio.Children.Spawning.{
  Subprocesses, Starting, constructed, watch, close_transport, after_waiter,
  make_subprocess_transport,
}

-- The error that leaves: the waiter's, or one that `_wait` raises in its place.
abbrev pub replaced : Error → Result (Unit {0}) → Result ℕ
replaced e (ok _) = err e
replaced e (err e') = err e'

module _ {t : Trio} {q : Heapq} where
  -- The loop takes a new handle: it is not closed, and its queue has room.
  abbrev pub admits : Entrance t q → Bool
  admits s =
      not s.loop.closed
      && has_room (t.max_buffer_size s.loop.queue) (length (t.contents s.loop.queue))

  run_trio_task-admitted :
      (task : ℕ) (s : Entrance t q)
      → admits s ≡ true
      → let (r, s') = run_trio_task t q task s in
        (r ≡ ok s.loop.next_handle)
        × (t.contents s'.loop.queue ≡ t.contents s.loop.queue ++ s.loop.next_handle ∷ [])
        × ((s'.loop.handles s.loop.next_handle).kind ≡ async_task)
  unfolding run_trio_task queue_new queue_handle send
  run_trio_task-admitted task s h = elim (t.send_cases s.loop.next_handle s.loop.queue) [
    | inl full ↦ ground (arith, full.0)
    | inr sent ↦ ground (arith, sent.1, sent.2, sent.3)
  ]

  run_trio_task-refused :
      (task : ℕ) (s : Entrance t q)
      → admits s ≡ false
      → let (r, s') = run_trio_task t q task s in
        (r ≡ (if s.loop.closed then err runtime_error else err would_block))
        × (s'.loop.queue ≡ s.loop.queue)
  unfolding run_trio_task queue_new queue_handle send
  run_trio_task-refused task s h = elim (t.send_cases s.loop.next_handle s.loop.queue) [
    | inl full ↦ ground (arith, full.0, full.1)
    | inr sent ↦ ground (arith, sent.1, sent.2)
  ]

  -- The state where the waiter is awaited; `loop` is the loop after the constructor.
  abbrev pub spawned :
      (task_of : ℕ → ℕ) (pid : ℕ) (loop : Entrance t q) → Subprocesses t q → Subprocesses t q
  spawned task_of pid loop s =
      let made = (constructed t q (ok pid) (record s { loop = loop })).1 in
      (watch t q (task_of s.transports.next_transport) made).1

  -- How it ends once the waiter is awaited, in the state s': it returns the transport as it is, or the
  -- transport was closed, and then `_wait` was awaited.
  abbrev pub Left :
      (wait : ℕ → Exec (Subprocesses t q) (Unit {0})) (transp : ℕ)
      → Result (Unit {0})
      → Subprocesses t q
      → Result ℕ × Subprocesses t q
      → Type 0
  Left wait transp (ok _) s' end = end ≡ (ok transp, s')
  Left wait transp (err e) s' end =
      ((end.1.transports.table transp).is_closed ≡ true)
      × (end.0 ≡ replaced e (wait transp (close_transport t q transp s').1).0)

  after_waiter-Left :
      (wait : ℕ → Exec (Subprocesses t q) (Unit {0})) (transp : ℕ)
      → ((s : Subprocesses t q)
          → (s.transports.table transp).is_closed ≡ true
          → ((wait transp s).1.transports.table transp).is_closed ≡ true)
      → (r : Result (Unit {0})) (s' : Subprocesses t q)
      → Left wait transp r s' (after_waiter t q wait transp r s')
  after_waiter-Left wait transp keeps (ok tt) s' = refl
  after_waiter-Left wait transp keeps (err e) s' =
      let closed : Subprocesses t q = (close_transport t q transp s').1 in
      ground (arith, keeps closed)

  -- How `_make_subprocess_transport` ends once its transport is made for the process `pid`, with the
  -- loop that the constructor has left.
  abbrev pub Ends :
      (task_of : ℕ → ℕ) (await_waiter wait : ℕ → Exec (Subprocesses t q) (Unit {0})) (pid : ℕ)
      (loop : Entrance t q) (s : Subprocesses t q)
      → Result ℕ × Subprocesses t q
      → Type 0
  Ends task_of await_waiter wait pid loop s end =
      let transp = s.transports.next_transport in
      let s₁ = spawned task_of pid loop s in
      let (r, s₂) = await_waiter transp s₁ in
      let h = loop.loop.next_handle in
      (admits loop ≡ false)
        × (end.0 ≡ (if loop.loop.closed then err runtime_error else err would_block))
        × (end.1.loop.loop.queue ≡ loop.loop.queue)
        × (end.1.transports.table transp ≡ record { pid = pid; is_closed = false; exited = none })
      ⊎ (admits loop ≡ true)
        × (t.contents s₁.loop.loop.queue ≡ t.contents loop.loop.queue ++ h ∷ [])
        × ((s₁.loop.loop.handles h).kind ≡ async_task)
        × Left wait transp r s₂ end

  made-Ends :
      (task_of : ℕ → ℕ) (await_waiter wait : ℕ → Exec (Subprocesses t q) (Unit {0})) (pid : ℕ)
      (loop : Entrance t q) (s : Subprocesses t q)
      → ((transp : ℕ) (s' : Subprocesses t q)
          → (s'.transports.table transp).is_closed ≡ true
          → ((wait transp s').1.transports.table transp).is_closed ≡ true)
      → Ends task_of await_waiter wait pid loop s
          (make_subprocess_transport t q (λ _. (ok pid, loop)) task_of await_waiter wait s)
  unfolding make_subprocess_transport
  made-Ends task_of await_waiter wait pid loop s keeps =
      let transp = s.transports.next_transport in
      let task = task_of transp in
      elim (Bool-cases (admits loop)) [
        | inl room ↦
            let (queued, contents, kind) = run_trio_task-admitted task loop room in
            let (r, s₂) = await_waiter transp (spawned task_of pid loop s) in
            inr
              (room, contents, kind, rw queued (after_waiter-Left wait transp (keeps transp) r s₂))
        | inr full ↦
            let (refused, same) = run_trio_task-refused task loop full in
            inl (
              full,
              ground (arith, refused),
              ground (arith, refused, same),
              ground (arith, refused),
            )
      ]

  -- `_make_subprocess_transport` once asyncio's constructor has started the process. If the loop is
  -- closed or its queue full by then, the error of `run_trio_task` leaves, with the queue as it was,
  -- and the transport is not closed: nothing waits for the process. Otherwise a task that waits for
  -- it is queued behind all that is there before the waiter is awaited. If the waiter has a result,
  -- the transport is returned; if not, it is closed, `_wait` is awaited, and the waiter's error leaves,
  -- or that of `_wait`. While `_wait` is awaited the transport stays closed.
  pub make_subprocess_transport-Ends :
      (started : Starting t q) (task_of : ℕ → ℕ)
      (await_waiter wait : ℕ → Exec (Subprocesses t q) (Unit {0})) (pid : ℕ) (loop : Entrance t q)
      (s : Subprocesses t q)
      → started s.loop ≡ (ok pid, loop)
      → ((transp : ℕ) (s' : Subprocesses t q)
          → (s'.transports.table transp).is_closed ≡ true
          → ((wait transp s').1.transports.table transp).is_closed ≡ true)
      → Ends task_of await_waiter wait pid loop s
          (make_subprocess_transport t q started task_of await_waiter wait s)
  unfolding make_subprocess_transport
  make_subprocess_transport-Ends started task_of await_waiter wait pid loop s e keeps =
      let after : Result ℕ × Entrance t q → Result ℕ × Subprocesses t q =
        λ made. make_subprocess_transport t q (λ _. made) task_of await_waiter wait s in
      subst (Ends task_of await_waiter wait pid loop s) (sym (ap after e))
        (made-Ends task_of await_waiter wait pid loop s keeps)
