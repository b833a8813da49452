-- ===== src/Loop/Taking.antt =====
-- The iteration of the main loop that takes the object at the head of the queue.
use trio_asyncio.Prelude.{
  some, ℕ, ◌<◌, ◌≡◌, sym, ap, subst, ◌∙◌, inl, inr, Bool, true, List, [], ◌∷◌, ◌++◌, append_assoc,
  arith,
}
use trio_asyncio.Trio.{Trio}
use trio_asyncio.Heapq.{Heapq, Timer}
use trio_asyncio.Loop.{HandleKind, Occurrence, Loop, Script}
use trio_asyncio.Loop.Iteration.{run_unless_cancelled, Tick, dispatch, iterate, after_iteration}
use trio_asyncio.Loop.Extends.{Kept-trans, Grows, Extends, Grows-trans, Grows-queues}
use trio_asyncio.Loop.Running.{Extends-log}
use trio_asyncio.Loop.Progress.{
  verdict, logged_as, occurrence_of, timers_after, dealt, Outcome, dispatch_cases,
}
use trio_asyncio.Loop.Dealing.{
  tagged_verdict, DealsWith, done, next, others_first, DealsWith-occurrence_of, tagged_occurrence,
}
use trio_asyncio.Loop.Exits.{
  popped-Ordinary, dispatch-NoExit, IsStopHandle-Grows, dispatch_stop, Ordinary-Grows,
  AllOrdinary-Grows, TimersOrdinary-eq, pushed-Ordinary,
}
use trio_asyncio.Loop.Stopped.{
  Ready-Grows, Goal, Kinds-Grows, Ready, Stopped, Stopped-post, after_iteration_exit,
  after_iteration_ind,
}

module _ {t : Trio} {q : Heapq} (program : ℕ → Script) where
  module _ (kind : ℕ → HandleKind) (w h : ℕ) where
    -- The object at the head of the queue is taken in `s'`, with the channel `d` left.
    module _ (j : ℕ) {s s' : Loop t q} (x : Extends s s') (d : t.Channel)
        (below : j < s.next_handle) (kind_eq : (s.handles j).kind ≡ kind j) where
      abbrev taken : Loop t q
      taken = record s' { queue = d }

      Grows-dealt : Grows s (dealt j taken)
      Grows-dealt =
          let a = s'.handles j in
          let g = timers_after q a.kind j s'.timers in
          let o = occurrence_of a.kind a.cancelled j in
          Grows-trans x.grows (
            Grows-trans (Grows-queues s' d g s'.events)
              (Extends-log o (record taken { timers = g })
                (tagged_occurrence a.kind a.cancelled j)).grows)

      deals :
          (gone : Bool)
          → ((s'.handles j).cancelled ≡ true → gone ≡ true)
          → DealsWith (kind j) gone j (occurrence_of (s'.handles j).kind (s'.handles j).cancelled j)
      deals gone stays =
          subst
            (λ k. DealsWith k gone j (occurrence_of (s'.handles j).kind (s'.handles j).cancelled j))
            ((x.kept j below).0 ∙ kind_eq)
            (DealsWith-occurrence_of (s'.handles j).kind (s'.handles j).cancelled gone j stays)

      abbrev occurrence : Occurrence
      occurrence = occurrence_of (s'.handles j).kind (s'.handles j).cancelled j

      took_traced :
          {s₂ : Loop t q} (y : Extends (dealt j taken) s₂)
          → s₂.trace ≡ s.trace ++ (x.logged ++ occurrence ∷ y.logged)
      took_traced y =
          y.traced
          ∙ append_assoc s'.trace (occurrence ∷ []) y.logged
          ∙ ap (λ l. l ++ occurrence ∷ y.logged) x.traced
          ∙ append_assoc s.trace x.logged (occurrence ∷ y.logged)

      still_cancelled :
          {s₂ : Loop t q}
          → Extends (dealt j taken) s₂
          → (s'.handles j).cancelled ≡ true
          → (s₂.handles j).cancelled ≡ true
      still_cancelled y c = (y.kept j (omega (arith, x.handle_le, below))).3 c

      Stopped-taken :
          {s₂ s₃ : Loop t q} {hs post : List ℕ} (y : Extends (dealt j taken) s₂)
          → Stopped program kind hs post s₂ s₃
          → Stopped program kind (j ∷ hs) post s s₃
      Stopped-taken {s₂} {s₃} y i = record {
        logged = x.logged ++ occurrence ∷ (y.logged ++ i.logged);
        traced =
            i.traced
            ∙ ap (λ l. l ++ i.logged) (took_traced y)
            ∙ append_assoc s.trace (x.logged ++ occurrence ∷ y.logged) i.logged
            ∙ ap (λ l. s.trace ++ l) (append_assoc x.logged (occurrence ∷ y.logged) i.logged);
        dealt_with = others_first x.logged (
            next
              (deals _ (λ c.
                (i.kept j (omega (arith, x.handle_le, y.handle_le, below))).3
                  (still_cancelled y c)))
              (others_first y.logged i.dealt_with));
        left = i.left;
        queued_eq = i.queued_eq;
        kept = λ l lt.
            Kept-trans (s.handles l) (s₂.handles l) (s₃.handles l)
              ((Grows-trans Grows-dealt y.grows).kept l lt)
              (i.kept l (omega (arith, x.handle_le, y.handle_le, lt)));
        has_stopped = i.has_stopped;
      }

    pub took_stop :
        (ks : List Tick) (k : Tick) (post : List ℕ) (s : Loop t q)
        → Ready program kind w h [] post s
        → (s' : Loop t q) (x : Extends s s') (d : t.Channel) → t.contents d ≡ post ++ x.sent
        → let o = dispatch t q program k h (record s' { queue = d }) in
          Goal program kind w h [] post s
            (after_iteration t q program (iterate t q program ks) o.0 o.1)
    took_stop ks k post s r s' x d front =
        let i = r.stop_handle in
        let stop' =
          IsStopHandle-Grows program (Grows-trans x.grows (Grows-queues s' d s'.timers s'.events))
            i in
        let exits = dispatch_stop program k w h (record s' { queue = d }) stop' in
        after_iteration_exit program (Goal program kind w h [] post s) (iterate t q program ks) _ _
          exits
          (λ _. elim (dispatch_cases program k h (record s' { queue = d })) [
            | inl (_, e) ↦ absurd (cc)
            | inr y ↦
                let z = Grows-trans (Grows-dealt h x d i.below r.kinds.0) y.grows in
                record {
                  logged = x.logged ++ occurrence h x d i.below r.kinds.0 ∷ y.logged;
                  traced = took_traced h x d i.below r.kinds.0 y;
                  dealt_with = others_first x.logged (
                      next
                        (deals h x d i.below r.kinds.0 _
                          (still_cancelled h x d i.below r.kinds.0 y))
                        (done y.logged));
                  left = x.sent ++ y.sent;
                  queued_eq =
                      y.queued_eq ∙ ap (λ l. l ++ y.sent) front ∙ append_assoc post x.sent y.sent;
                  kept = z.kept;
                  has_stopped = t.is_set-set _;
                }
          ])

    -- What holds after an iteration that takes the object at the head of `j ∷ pre`.
    pub Ready-taken :
        (k : Tick) (j : ℕ) (pre post : List ℕ) {s : Loop t q}
        → Ready program kind w h (j ∷ pre) post s
        → {s' : Loop t q} (x : Extends s s') (d : t.Channel)
        → t.contents d ≡ (pre ++ h ∷ post) ++ x.sent
        → (y : Extends
            (dealt j (record s' { queue = d }))
            (dispatch t q program k j (record s' { queue = d })).1)
        → Ready program kind w h pre
            (post ++ (x.sent ++ y.sent))
            (dispatch t q program k j (record s' { queue = d })).1
    Ready-taken k j pre post {s} r {s'} x d front y =
        let s₁ = record s' { queue = d } in
        let below = r.ordinary.0.0 in
        let g₁ = Grows-trans x.grows (Grows-queues s' d s'.timers s'.events) in
        let ordinary₁ = Ordinary-Grows program j g₁ r.ordinary.0 in
        let z = Grows-trans (Grows-dealt j x d below r.kinds.0) y.grows in
        let timers₁ = TimersOrdinary-eq program g₁ x.same_timers r.timers_ordinary in
        let timers₂ = pushed-Ordinary program s₁ (s'.handles j).kind j ordinary₁ timers₁ in
        let a = s'.handles j in
        let logs =
          Extends-log (occurrence_of a.kind a.cancelled j)
            (record s₁ { timers = timers_after q a.kind j s'.timers })
            (tagged_occurrence a.kind a.cancelled j) in
        let sent = x.sent ++ y.sent in
        record {
          running = ap t.is_set z.same_stopped ∙ r.running;
          stop_handle = IsStopHandle-Grows program z r.stop_handle;
          ordinary = AllOrdinary-Grows program pre z r.ordinary.1;
          timers_ordinary =
              TimersOrdinary-eq program (Grows-trans logs.grows y.grows) y.same_timers timers₂;
          kinds = Kinds-Grows program kind pre z r.ordinary.1 r.stop_handle r.kinds.1;
          queue_eq =
              y.queued_eq
              ∙ ap (λ l. l ++ y.sent) front
              ∙ append_assoc (pre ++ h ∷ post) x.sent y.sent
              ∙ append_assoc pre (h ∷ post) sent;
        }

    -- What holds after an iteration that runs the earliest timer.
    pub Ready-fired :
        (k : Tick) (pre post : List ℕ) {s : Loop t q} (r : Ready program kind w h pre post s)
        (x : Timer) (g : q.Heap)
        → q.heappop s.timers ≡ some (x, g)
        → (y : Extends
            (logged_as (verdict (s.handles x.1).cancelled x.1) (record s { timers = g }))
            (run_unless_cancelled t q program k.now x.1 (record s { timers = g })).1)
        → Grows s (run_unless_cancelled t q program k.now x.1 (record s { timers = g })).1
          × Ready program kind w h pre
              (post ++ y.sent)
              (run_unless_cancelled t q program k.now x.1 (record s { timers = g })).1
    Ready-fired k pre post {s} r x g e y =
        let s₁ = record s { timers = g } in
        let rest = (popped-Ordinary program s x g e r.timers_ordinary).1 in
        let b = (s.handles x.1).cancelled in
        let logs = Extends-log (verdict b x.1) s₁ (tagged_verdict b x.1) in
        let z = Grows-trans logs.grows y.grows in
        let all = Grows-trans (Grows-queues s s.queue g s.events) z in
        (
          all,
          Ready-Grows program kind w h pre post y.sent all
              (TimersOrdinary-eq program z y.same_timers rest)
              (y.queued_eq ∙ ap (λ l. l ++ y.sent) r.queue_eq) r,
        )

    pub took_ordinary :
        (ks : List Tick) (k : Tick) (j : ℕ) (pre post : List ℕ) (s : Loop t q)
        → Ready program kind w h (j ∷ pre) post s
        → ((pre post : List ℕ) (s : Loop t q)
            → Ready program kind w h pre post s
            → Goal program kind w h pre post s (iterate t q program ks s))
        → (s' : Loop t q) (x : Extends s s') (d : t.Channel)
        → t.contents d ≡ (pre ++ h ∷ post) ++ x.sent
        → let o = dispatch t q program k j (record s' { queue = d }) in
          Goal program kind w h
            (j ∷ pre)
            post
            s
            (after_iteration t q program (iterate t q program ks) o.0 o.1)
    took_ordinary ks k j pre post s r again s' x d front =
        let s₁ = record s' { queue = d } in
        let g₁ = Grows-trans x.grows (Grows-queues s' d s'.timers s'.events) in
        let ordinary₁ = Ordinary-Grows program j g₁ r.ordinary.0 in
        elim (dispatch_cases program k j s₁) [
          | inl (_, e) ↦
              subst
                (λ (o : Outcome t q).
                  Goal program kind w h (j ∷ pre) post s
                    (after_iteration t q program (iterate t q program ks) o.0 o.1))
                (sym e) (λ o. absurd (cc))
          | inr y ↦
              after_iteration_ind program (Goal program kind w h (j ∷ pre) post s)
                (iterate t q program ks) _ _ (dispatch-NoExit program k j s₁ ordinary₁.1)
                (λ ended. Stopped-taken j x d r.ordinary.0.0 r.kinds.0 y (
                  Stopped-post program post (x.sent ++ y.sent) (
                    again pre (post ++ (x.sent ++ y.sent)) _
                      (Ready-taken k j pre post r x d front y) ended)))
                (λ _ ended. absurd (cc))
        ]
