-- ===== src/Loop/Requesting.antt =====
-- `stop()` on a running loop, and what the main loop then does.
use trio_asyncio.Prelude.{
  ℕ, ◌<◌, suc, ◌≡◌, refl, ap, ◌⊎◌, inl, inr, true, false, none, some, List, [], ◌∷◌, ◌++◌, arith,
  if_ind, option_ind, length, update,
}
use trio_asyncio.Exec.{Result, ok, err, Error}
use trio_asyncio.Trio.{Trio, has_room}
use trio_asyncio.Heapq.{Heapq}
use trio_asyncio.Loop.{
  HandleKind, plain, stop_me, Handle, Loop, Script, new_event, new_handle, send, queue_handle,
  stop_loop,
}
use trio_asyncio.Loop.Iteration.{Tick, iterate}
use trio_asyncio.Loop.Extends.{queued, Grows, Grows-stores}
use trio_asyncio.Loop.Exits.{
  AllOrdinary-Grows, TimersOrdinary-eq, AllOrdinary, TimersOrdinary, IsStopHandle,
}
use trio_asyncio.Loop.Stopped.{Ready, Stopped, Kinds}
use trio_asyncio.Loop.Stopping.{iterate-Stopped}
use trio_asyncio.Loop.Termination.{timely, ended, work, iterate-Ended}

module _ {t : Trio} {q : Heapq} (program : ℕ → Script) where
  send_room :
      (h : ℕ) (s : Loop t q) (d : t.Channel)
      → t.send_nowait h s.queue ≡ some d
      → send t q h s ≡ (ok tt, record s { queue = d })
  unfolding send
  send_room h s d e = rw (e, send) refl

  queue_handle_room :
      (h : ℕ) (s : Loop t q) (d : t.Channel)
      → s.closed ≡ false
      → t.send_nowait h s.queue ≡ some d
      → queue_handle t q h s ≡ (ok h, record s { queue = d })
  unfolding queue_handle
  queue_handle_room h s d opened e =
      if_ind (λ (r : Result ℕ × Loop t q). r ≡ (ok h, record s { queue = d })) s.closed _ _
        (λ c. absurd (cc)) (λ _. rw (send_room h s d e) refl)

  -- The loop's state once `stop()` has queued its handle.
  abbrev requested : Loop t q → t.Channel → Loop t q
  requested s d =
      let s₁ = (new_event t q s).1 in
      let s₂ = record s₁ { stop_wait = some s.next_event } in
      let s₃ = (new_handle t q plain (stop_me s.next_event) s₂).1 in record s₃ { queue = d }

  stop_loop_room :
      (s : Loop t q) (d : t.Channel)
      → t.is_set s.stopped ≡ false
      → s.closed ≡ false
      → s.stop_wait ≡ none
      → t.send_nowait s.next_handle s.queue ≡ some d
      → stop_loop t q none s ≡ (ok s.next_event, requested s d)
  unfolding stop_loop
  stop_loop_room s d runs opened first e =
      let P : Result ℕ × Loop t q → Type 0 = λ r. r ≡ (ok s.next_event, requested s d) in
      let s₁ = (new_event t q s).1 in
      let s₂ = record s₁ { stop_wait = some s.next_event } in
      let s₃ = (new_handle t q plain (stop_me s.next_event) s₂).1 in
      option_ind P s.stop_wait _ _
        (λ _.
          if_ind P (t.is_set s.stopped) _ _ (λ c. absurd (cc))
            (λ _. rw (queue_handle_room s.next_handle s₃ d opened e) refl))
        (λ w c. absurd (cc))

  requested-Grows : (s : Loop t q) (d : t.Channel) → Grows s (requested s d)
  requested-Grows s d =
      Grows-stores s (requested s d).handles (suc s.next_handle) (requested s d).events
        (suc s.next_event) (some s.next_event) d s.timers (omega arith) (λ h below. ground arith)

  requested-IsStopHandle :
      (s : Loop t q) (d : t.Channel)
      → IsStopHandle program s.next_event s.next_handle (requested s d)
  requested-IsStopHandle s d =
      let new : Handle = record {
        kind = plain;
        callback = stop_me s.next_event;
        cancelled = false;
      } in
      let same : update s.handles s.next_handle new s.next_handle ≡ new = ground arith in
      record {
        below = omega arith;
        is_plain = ap (λ (a : Handle). a.kind) same;
        stops = ap (λ (a : Handle). a.callback) same;
        uncancelled = ap (λ (a : Handle). a.cancelled) same;
      }

  Kinds-refl : (s : Loop t q) (hs : List ℕ) → Kinds program (λ h. (s.handles h).kind) s hs
  Kinds-refl s [] = tt
  Kinds-refl s (h ∷ hs) = (refl, Kinds-refl s hs)

  requested-Ready :
      (s : Loop t q) (d : t.Channel)
      → t.is_set s.stopped ≡ false
      → t.contents d ≡ queued s ++ s.next_handle ∷ []
      → AllOrdinary program s (queued s)
      → TimersOrdinary program s
      → let s' = requested s d in
        Ready program (λ h. (s'.handles h).kind) s.next_event s.next_handle (queued s) [] s'
  requested-Ready s d runs full ordinary timers =
      let g = requested-Grows s d in
      record {
        running = runs;
        stop_handle = requested-IsStopHandle s d;
        ordinary = AllOrdinary-Grows program (queued s) g ordinary;
        timers_ordinary = TimersOrdinary-eq program g refl timers;
        kinds = Kinds-refl (requested s d) _;
        queue_eq = full;
      }

  -- How the main loop ends after `stop()`: without an exception, and then it has dealt with each
  -- object of `hs` in order and is stopped, or with an exception of a callback or of the nursery.
  abbrev pub Halts : (ℕ → HandleKind) → List ℕ → Loop t q → Result (Unit {0}) × Loop t q → Type 0
  Halts kind hs s o =
      (o.0 ≡ ok tt) × Stopped program kind hs [] s o.1
      ⊎ ((e : Error) × (o.0 ≡ err e) × (ended (err e) ≡ true))

  halts :
      (kind : ℕ → HandleKind) (hs : List ℕ) (s : Loop t q) (o : Result (Unit {0}) × Loop t q)
      → ended o.0 ≡ true
      → (o.0 ≡ ok tt → Stopped program kind hs [] s o.1)
      → Halts kind hs s o
  halts kind hs s (ok _, s') e f = inl (refl, f refl)
  halts kind hs s (err x, s') e f = inr (x, refl, e)

  -- `stop()` on a loop that runs, is not closed, was not told to stop before, has room in its queue
  -- and no other stop handle in it or among its timers: it returns its new waiter, and the main loop
  -- ends after more ticks, not counting those where its timeout passes, than two for each object that
  -- was queued and one for each timer. If it ends without an exception, it has dealt with each object
  -- that was queued before the call and then with the stop handle, in their order, and `_stopped`
  -- is set; otherwise it raises a callback's `SystemExit` or `KeyboardInterrupt`, or the
  -- `RuntimeError` of a nursery that takes no more tasks.
  pub stop_loop-iterate-Stopped :
      (s : Loop t q) (ks : List Tick)
      → t.is_set s.stopped ≡ false
      → s.closed ≡ false
      → s.stop_wait ≡ none
      → has_room (t.max_buffer_size s.queue) (length (queued s)) ≡ true
      → AllOrdinary program s (queued s)
      → TimersOrdinary program s
      → work t q program (queued s) s < timely ks
      → let (r, s') = stop_loop t q none s in
        (r ≡ ok s.next_event)
        × Halts
            (λ h. (s'.handles h).kind)
            (queued s ++ s.next_handle ∷ [])
            s'
            (iterate t q program ks s')
  stop_loop-iterate-Stopped s ks runs opened first room ordinary timers enough =
      elim (t.send_cases s.next_handle s.queue) [
        | inl (full, _) ↦ absurd (cc)
        | inr (d, _, sent, contents, _) ↦
            let s' = requested s d in
            let kind : ℕ → HandleKind = λ h. (s'.handles h).kind in
            let r = requested-Ready s d runs contents ordinary timers in
            rw (stop_loop_room s d runs opened first sent) (
              refl,
              halts kind (queued s ++ s.next_handle ∷ []) s' (iterate t q program ks s')
                  (iterate-Ended t q program kind s.next_event s.next_handle ks (queued s) [] s' r
                    enough)
                  (iterate-Stopped program kind s.next_event s.next_handle ks (queued s) [] s' r),
            )
      ]
