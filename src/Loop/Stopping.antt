-- ===== src/Loop/Stopping.antt =====
-- `stop()`: everything that is queued before the loop's stop handle is dealt with before the loop
-- stops.
use trio_asyncio.Prelude.{ℕ, ◌≡◌, ap, ◌∙◌, some, List, [], ◌∷◌, ◌++◌}
use trio_asyncio.Exec.{ok}
use trio_asyncio.Trio.{Trio}
use trio_asyncio.Heapq.{Heapq, Timer}
use trio_asyncio.Loop.{HandleKind, Loop, Script}
use trio_asyncio.Loop.Iteration.{Tick, run_unless_cancelled, iterate, after_iteration}
use trio_asyncio.Loop.Extends.{queued, Grows, Extends}
use trio_asyncio.Loop.Progress.{Outcome, run_unless_cancelled-Extends, main_loop_one_ind}
use trio_asyncio.Loop.Exits.{
  run_unless_cancelled-NoExit, TimersOrdinary, TimersOrdinary-eq, popped-Ordinary,
}
use trio_asyncio.Loop.Stopped.{
  Goal, Ready, Ready-Grows, Stopped, Stopped-Grows, Stopped-post, after_iteration_ind, iterate_ind,
  iterate_nil,
}
use trio_asyncio.Loop.Taking.{Ready-fired, took_stop, took_ordinary}

module _ {t : Trio} {q : Heapq} (program : ℕ → Script) where
  module _ (kind : ℕ → HandleKind) (w h : ℕ) where
    module _ (ks : List Tick) (pre post : List ℕ) (s : Loop t q)
        (r : Ready program kind w h pre post s)
        (again : (pre post : List ℕ) (s : Loop t q)
          → Ready program kind w h pre post s
          → Goal program kind w h pre post s (iterate t q program ks s)) where
      abbrev Continues : Outcome t q → Type 0
      Continues o =
          Goal program kind w h pre post s
            (after_iteration t q program (iterate t q program ks) o.0 o.1)

      -- An iteration that leaves the objects of `pre` where they are.
      waited :
          (s' : Loop t q) (sent : List ℕ)
          → Grows s s'
          → TimersOrdinary program s'
          → queued s' ≡ (pre ++ h ∷ post) ++ sent
          → Goal program kind w h pre post s (iterate t q program ks s')
      waited s' sent g timers e done_ok = Stopped-Grows program g (
          Stopped-post program post sent (
            again pre (post ++ sent) s' (Ready-Grows program kind w h pre post sent g timers e r)
              done_ok))

      idled : (s' : Loop t q) → Extends s s' → Continues (ok tt, s')
      idled s' x =
          waited s' x.sent x.grows
            (TimersOrdinary-eq program x.grows x.same_timers r.timers_ordinary)
            (x.queued_eq ∙ ap (λ l. l ++ x.sent) r.queue_eq)

      fired :
          (k : Tick) (x : Timer) (g : q.Heap)
          → q.heappop s.timers ≡ some (x, g)
          → Continues (run_unless_cancelled t q program k.now x.1 (record s { timers = g }))
      fired k x g e =
          let s₁ = record s { timers = g } in
          let due = (popped-Ordinary program s x g e r.timers_ordinary).0 in
          let y = run_unless_cancelled-Extends program k.now x.1 s₁ in
          let (z, ready) = Ready-fired program kind w h k pre post r x g e y in
          after_iteration_ind program (Goal program kind w h pre post s) (iterate t q program ks) _
            _ (run_unless_cancelled-NoExit program k.now x.1 s₁ due.1)
            (λ ended.
              Stopped-Grows program z
                (Stopped-post program post y.sent (again pre _ _ ready ended)))
            (λ _ o. absurd (cc))

    -- The loop runs and the stop handle `h` is queued behind the objects `pre`, none of them a stop
    -- handle. If the loop ends without an exception after these ticks, it has dealt with each object
    -- of `pre` and then with the stop handle, in their order; it leaves the objects that were queued
    -- behind the stop handle, and `_stopped` is set.
    pub iterate-Stopped :
        (ks : List Tick) (pre post : List ℕ) (s : Loop t q)
        → Ready program kind w h pre post s
        → (iterate t q program ks s).0 ≡ ok tt
        → Stopped program kind (pre ++ h ∷ []) post s (iterate t q program ks s).1
    iterate-Stopped [] pre post s r ended = absurd (iterate_nil program s r.running ended)
    iterate-Stopped (k ∷ ks) [] post s r ended =
        iterate_ind program (Goal program kind w h [] post s) k ks s r.running
          (main_loop_one_ind program
            (λ o.
              Goal program kind w h [] post s
                (after_iteration t q program (iterate t q program ks) o.0 o.1))
            k s h post r.queue_eq (fired ks [] post s r (iterate-Stopped ks) k)
            (λ s' x _. idled ks [] post s r (iterate-Stopped ks) s' x)
            (took_stop program kind w h ks k post s r))
          ended
    iterate-Stopped (k ∷ ks) (j ∷ pre) post s r ended =
        iterate_ind program (Goal program kind w h (j ∷ pre) post s) k ks s r.running
          (main_loop_one_ind program
            (λ o.
              Goal program kind w h (j ∷ pre) post s
                (after_iteration t q program (iterate t q program ks) o.0 o.1))
            k s j (pre ++ h ∷ post) r.queue_eq (fired ks (j ∷ pre) post s r (iterate-Stopped ks) k)
            (λ s' x _. idled ks (j ∷ pre) post s r (iterate-Stopped ks) s' x)
            (took_ordinary program kind w h ks k j pre post s r (iterate-Stopped ks)))
          ended
