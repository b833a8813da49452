-- ===== src/Handles/Cancelling.antt =====
-- Cancelling an `AsyncHandle` or its result future, before and while the task runs.
use trio_asyncio.Prelude.{
  ℕ, ◌≡◌, refl, subst, Bool, true, false, Option, none, some, List, [], ◌∷◌, arith,
}
use trio_asyncio.Handles.{
  Future, pending, cancelled, AsyncHandle, BlockExit, is_done, cancel, wrapped_cancel, run_begin,
  run_finish,
}
use trio_asyncio.Handles.Settling.{Settles, run_finish-Settles}

-- What other code may do to the task while it runs: `handle.cancel()`, or `fut.cancel(msg)`.
pub data Interruption : Type 0 where
  cancel_handle : Interruption
  cancel_future : (message : Option ℕ) → Interruption

abbrev pub cancel_through_future : Option ℕ → Option Future → AsyncHandle → AsyncHandle
cancel_through_future m none h = h
cancel_through_future m (some f) h = (wrapped_cancel m f h).1

pub interrupt : Interruption → AsyncHandle → AsyncHandle
interrupt cancel_handle h = cancel h
interrupt (cancel_future m) h = cancel_through_future m h.fut h

pub interrupt_all : List Interruption → AsyncHandle → AsyncHandle
unfolding interrupt
interrupt_all [] h = h
interrupt_all (i ∷ is) h = interrupt_all is (interrupt i h)

-- The message of the last future cancellation, if there was one.
abbrev pub last_message : List Interruption → Option ℕ → Option ℕ
last_message [] m = m
last_message (cancel_handle ∷ is) m = last_message is m
last_message (cancel_future n ∷ is) m = last_message is n

-- Whether the scope is cancelled after the calls: each of them cancels it.
abbrev pub scope_after : List Interruption → Bool → Bool
scope_after [] c = c
scope_after (i ∷ is) c = scope_after is true

pub record Running (m : Option ℕ) (c : Bool) (h : AsyncHandle) : Type 0 where
  pub unresolved : h.fut ≡ some pending
  pub unfinished : h.run_finished ≡ false
  pub message : h.cancel_message ≡ m
  pub scope : h.scope_cancelled ≡ c

cancel-Running :
    (h : AsyncHandle) (m : Option ℕ) (c : Bool) → Running m c h → Running m true (cancel h)
unfolding cancel
cancel-Running h m c r = ground arith

cancel_future-Running :
    (n : Option ℕ) (h : AsyncHandle) (m : Option ℕ) (c : Bool)
    → Running m c h
    → Running n true (cancel_through_future n h.fut h)
unfolding wrapped_cancel
cancel_future-Running n h m c r = ground arith

-- While the task runs, cancelling its future or its handle, however often, leaves the future
-- pending: it cancels the task's scope, and keeps the message of the last call on the future.
interrupt_all-Running :
    (is : List Interruption) (h : AsyncHandle) (m : Option ℕ) (c : Bool)
    → Running m c h
    → Running (last_message is m) (scope_after is c) (interrupt_all is h)
unfolding interrupt_all wrapped_cancel
interrupt_all-Running [] h m c r = r
interrupt_all-Running (cancel_handle ∷ is) h m c r =
    interrupt_all-Running is (cancel h) m true (cancel-Running h m c r)
interrupt_all-Running (cancel_future n ∷ is) h m c r =
    interrupt_all-Running is (cancel_through_future n h.fut h) n true
      (cancel_future-Running n h m c r)

-- A task that runs with a pending future resolves it when it ends, as `Settles` says, whatever
-- cancellations came in between; the message is that of the last of them on the future.
pub interrupt_all-run_finish-Settles :
    (derive_mark : Bool → Bool) (is : List Interruption) (h : AsyncHandle) (exit : BlockExit)
    → h.fut ≡ some pending
    → h.run_finished ≡ false
    → let (r, h') = run_finish derive_mark exit (interrupt_all is h) in
      Settles exit (last_message is h.cancel_message) r h'.fut
interrupt_all-run_finish-Settles derive_mark is h exit e u =
    let r =
      interrupt_all-Running is h h.cancel_message h.scope_cancelled
        (record { unresolved = e; unfinished = u; message = refl; scope = refl }) in
    let end = run_finish derive_mark exit (interrupt_all is h) in
    subst (λ m. Settles exit m end.0 end.1.fut) r.message
      (run_finish-Settles derive_mark exit (interrupt_all is h) r.unresolved)

-- A handle that is cancelled before its task starts never calls its callback; a pending result
-- future is then cancelled, with the message of the last cancel call on it, and the task is marked
-- as started and finished.
run_begin_cancelled :
    (h : AsyncHandle)
    → h.handle_cancelled ≡ true
    → h.fut ≡ some pending
    → let (awaits, h') = run_begin h in
      (awaits ≡ false)
      × (h'.fut ≡ some (cancelled h.cancel_message))
      × (h'.started ≡ true)
      × (h'.run_finished ≡ true)
unfolding run_begin
run_begin_cancelled h c e = ground arith

-- Once the task has ended and its future is done, cancelling the future returns false and changes
-- neither the future nor the scope.
wrapped_cancel_late :
    (m : Option ℕ) (f : Future) (h : AsyncHandle)
    → h.fut ≡ some f
    → h.run_finished ≡ true
    → is_done f ≡ true
    → wrapped_cancel m f h ≡ (false, h)
unfolding wrapped_cancel
wrapped_cancel_late m f h e u d = ground arith
