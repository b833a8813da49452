-- ===== src/Loop/Actions.antt =====
-- The methods that put work into the loop only extend its queue.
use trio_asyncio.Prelude.{
  ℕ, suc, ◌≤◌, ◌<◌, ◌≡◌, refl, sym, inl, inr, Option, none, some, [], ◌∷◌, append-nil, arith,
  if_ind, option_ind,
}
use trio_asyncio.Prelude.Int.{ℤ, pos, ◌+ℤ◌, leb_ℤ}
use trio_asyncio.Exec.{Result, ok, err, continue, pure}
use trio_asyncio.Trio.{Trio}
use trio_asyncio.Heapq.{Heapq}
use trio_asyncio.Loop.{
  Handle, HandleKind, plain, timer, async_task, Callback, user, stop_me, set_event, Loop, Action,
  set, new_event, new_handle, send, queue_handle, queue_new, later, stop_with, stop_loop,
  mark_cancelled, cancel_handle, act, Action,
}
use trio_asyncio.Loop.Extends.{
  Kept, Kept-refl, Grows-stores, Grows-queues, Extends, Extends-refl, Extends-trans,
}

module _ {t : Trio} {q : Heapq} where
  -- Only the stores and `_stop_wait` differ.
  Extends-stores :
      (s : Loop t q) (hs : ℕ → Handle) (n : ℕ) (es : ℕ → t.Event) (m : ℕ) (w : Option ℕ)
      → s.next_handle ≤ n
      → ((h : ℕ) → h < s.next_handle → Kept (s.handles h) (hs h))
      → Extends s
          (record s { handles = hs; next_handle = n; events = es; next_event = m; stop_wait = w })
  Extends-stores s hs n es m w le kept = record {
    grows = Grows-stores s hs n es m w s.queue s.timers le kept;
    sent = [];
    queued_eq = sym (append-nil _);
    same_timers = refl;
  }

  pub Extends-events :
      (s : Loop t q) (es : ℕ → t.Event) (n : ℕ) (w : Option ℕ)
      → Extends s (record s { events = es; next_event = n; stop_wait = w })
  Extends-events s es n w =
      Extends-stores s s.handles s.next_handle es n w (omega arith) (λ h _. Kept-refl (s.handles h))

  Extends-new_handle :
      (k : HandleKind) (c : Callback) (s : Loop t q) → Extends s (new_handle t q k c s).1
  Extends-new_handle k c s =
      Extends-stores s _ _ s.events s.next_event s.stop_wait (omega arith) (λ h below. ground arith)

  Extends-continue :
      {A B : Type 0} (r : Result A) (f : A → Loop t q → Result B × Loop t q) (s s' : Loop t q)
      → Extends s s'
      → ((a : A) → Extends s' (f a s').1)
      → Extends s (continue r f s').1
  Extends-continue (ok a) f s s' x y = Extends-trans x (y a)
  Extends-continue (err e) f s s' x y = x

  Extends-send : (h : ℕ) (s : Loop t q) → Extends s (send t q h s).1
  unfolding send
  Extends-send h s = elim (t.send_cases h s.queue) [
    | inl (_, e) ↦ rw (e, send) (Extends-refl s)
    | inr (d, _, e, added, _) ↦
        rw (e, send)
          (record {
            grows = Grows-queues s d s.timers s.events;
            sent = h ∷ [];
            queued_eq = added;
            same_timers = refl;
          })
  ]

  Extends-queue_handle : (h : ℕ) (s : Loop t q) → Extends s (queue_handle t q h s).1
  unfolding queue_handle
  Extends-queue_handle h s =
      if_ind (λ (r : Result ℕ × Loop t q). Extends s r.1) s.closed _ _ (λ _. Extends-refl s)
        (λ _.
          Extends-continue (send t q h s).0 (λ _. pure h) s (send t q h s).1 (Extends-send h s)
            (λ _. Extends-refl _))

  pub Extends-queue_new :
      (k : HandleKind) (c : Callback) (s : Loop t q) → Extends s (queue_new t q k c s).1
  unfolding queue_new
  Extends-queue_new k c s =
      Extends-trans (Extends-new_handle k c s) (Extends-queue_handle s.next_handle _)

  Extends-later : (now delay : ℤ) (c : ℕ) (s : Loop t q) → Extends s (later t q now delay c s).1
  unfolding later
  Extends-later now delay c s =
      if_ind (λ (r : Result ℕ × Loop t q). Extends s r.1) (leb_ℤ (pos 0) delay) _ _
        (λ _.
          if_ind (λ (r : Result ℕ × Loop t q). Extends s r.1) s.entered _ _
            (λ _. Extends-queue_new (timer (delay +ℤ now)) (user c) s) (λ _. Extends-refl s))
        (λ _. Extends-refl s)

  Extends-stop_with : (w : ℕ) (s : Loop t q) → Extends s (stop_with t q w s).1
  unfolding stop_with
  Extends-stop_with w s =
      if_ind (λ (r : Result ℕ × Loop t q). Extends s r.1) (t.is_set s.stopped) _ _
        (λ _. Extends-events s (set t q w s).events s.next_event s.stop_wait)
        (λ _.
          Extends-continue _ (λ _. pure w) s _ (Extends-queue_new plain (stop_me w) s)
            (λ _. Extends-refl _))

  pub Extends-stop_loop-none : (s : Loop t q) → Extends s (stop_loop t q none s).1
  unfolding stop_loop
  Extends-stop_loop-none s =
      option_ind (λ (r : Result ℕ × Loop t q). Extends s r.1) s.stop_wait _ _
        (λ _.
          Extends-trans
            (Extends-events s (new_event t q s).1.events (suc s.next_event) (some s.next_event))
            (Extends-stop_with s.next_event _))
        (λ w _. Extends-refl s)

  Extends-mark_cancelled :
      (h : ℕ) (c : ℕ) (s : Loop t q)
      → (s.handles h).callback ≡ user c
      → Extends s (mark_cancelled t q h s)
  Extends-mark_cancelled h c s e =
      Extends-stores s _ s.next_handle s.events s.next_event s.stop_wait (omega arith)
        (λ j below. ground arith)

  Extends-cancel_handle : (h : ℕ) (s : Loop t q) → Extends s (cancel_handle t q h s)
  unfolding cancel_handle
  Extends-cancel_handle h s = by_callback (s.handles h).callback refl
    where
      by_callback : (c : Callback) → (s.handles h).callback ≡ c → Extends s (cancel_handle t q h s)
      by_callback (user c) e = rw (e, cancel_handle) (Extends-mark_cancelled h c s e)
      by_callback (stop_me w) e = rw (e, cancel_handle) (Extends-refl s)
      by_callback (set_event w) e = rw (e, cancel_handle) (Extends-refl s)

  -- No action takes anything out of the queue or off the timers, or runs a callback.
  pub Extends-act : (now : ℤ) (a : Action) (s : Loop t q) → Extends s (act t q now a s).1
  unfolding act
  Extends-act now (Action.call_soon c) s =
      Extends-continue _ (λ _. pure tt) s _ (Extends-queue_new plain (user c) s)
        (λ _. Extends-refl _)
  Extends-act now (Action.call_later delay c) s =
      Extends-continue _ (λ _. pure tt) s _ (Extends-later now delay c s) (λ _. Extends-refl _)
  Extends-act now (Action.call_at when c) s =
      Extends-continue _ (λ _. pure tt) s _ (Extends-queue_new (timer when) (user c) s)
        (λ _. Extends-refl _)
  Extends-act now (Action.run_trio_task c) s =
      Extends-continue _ (λ _. pure tt) s _ (Extends-queue_new async_task (user c) s)
        (λ _. Extends-refl _)
  Extends-act now (Action.cancel h) s = Extends-cancel_handle h s
  Extends-act now Action.synchronize s =
      Extends-continue _ (λ _. pure tt) s _
        (Extends-trans (Extends-events s (new_event t q s).1.events (suc s.next_event) s.stop_wait)
          (Extends-queue_new plain (set_event s.next_event) _))
        (λ _. Extends-refl _)
  Extends-act now Action.stop s =
      Extends-continue _ (λ _. pure tt) s _ (Extends-stop_loop-none s) (λ _. Extends-refl _)
