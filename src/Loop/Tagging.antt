-- ===== src/Loop/Tagging.antt =====
-- sniffio's library while the main loop runs callbacks, and after it.
use trio_asyncio.Prelude.{
  ℕ, ◌≡◌, refl, sym, ap, subst, ◌∙◌, inl, inr, Bool, true, false, List, [], ◌∷◌, ◌++◌, append_assoc,
  append-nil, if_ind, option_ind, ◌&&◌,
}
use trio_asyncio.Prelude.Int.{pos, ◌-ℤ◌, leb_ℤ}
use trio_asyncio.Exec.{
  Result, ok, err, Error, waits, unfinished, runtime_error, trio_asyncio_exit, user_exit,
  would_block, attribute_error, assertion_error,
}
use trio_asyncio.Trio.{Trio}
use trio_asyncio.Heapq.{Heapq}
use trio_asyncio.Loop.{Occurrence, Loop, Script}
use trio_asyncio.Loop.Iteration.{
  Tick, dispatch, receive, fetch, main_loop_one, iterate, after_iteration, set_stopped,
}
use trio_asyncio.Loop.Extends.{
  AllTagged, AllTagged-append, Grows, Grows-refl, Grows-trans, Grows-queues,
}
use trio_asyncio.Loop.Running.{Extends-log, Extends-others}
use trio_asyncio.Loop.Progress.{
  verdict, occurrence_of, timers_after, Outcome, run_unless_cancelled-Extends, dispatch_cases,
}
use trio_asyncio.Loop.Dealing.{tagged_verdict, tagged_occurrence}

module _ {t : Trio} {q : Heapq} (program : ℕ → Script) where
  dispatch-Grows : (k : Tick) (h : ℕ) (s : Loop t q) → Grows s (dispatch t q program k h s).1
  dispatch-Grows k h s =
      let a = s.handles h in
      let g = timers_after q a.kind h s.timers in
      let logs =
        Extends-log (occurrence_of a.kind a.cancelled h) (record s { timers = g })
          (tagged_occurrence a.kind a.cancelled h) in
      elim (dispatch_cases program k h s) [
        | inl (_, e) ↦ subst (λ (o : Outcome t q). Grows s o.1) (sym e) (Grows-refl s)
        | inr y ↦ Grows-trans (Grows-trans (Grows-queues s s.queue g s.events) logs.grows) y.grows
      ]

  receive-Grows : (k : Tick) (e : Error) (s : Loop t q) → Grows s (receive t q program k e s).1
  unfolding receive
  receive-Grows k e s =
      option_ind (λ (r : Outcome t q). Grows s r.1) (t.receive_nowait s.queue) _ _
        (λ _. Grows-refl s)
        (λ x _.
          Grows-trans (Grows-queues s x.1 s.timers s.events)
            (dispatch-Grows k x.0 (record s { queue = x.1 })))

  fetch-Grows :
      (k : Tick) (no_wait timers : Bool) (s : Loop t q)
      → Grows s (fetch t q program k no_wait timers s).1
  unfolding fetch
  fetch-Grows k true timers s = receive-Grows k would_block s
  fetch-Grows k false timers s =
      let x = Extends-others program k.now k.before s in
      if_ind (λ (r : Outcome t q). Grows s r.1) (timers && k.expired) _ _ (λ _. x.grows)
        (λ _. Grows-trans x.grows (receive-Grows k waits _))

  pub main_loop_one-Grows :
      (k : Tick) (no_wait : Bool) (s : Loop t q) → Grows s (main_loop_one t q program k no_wait s).1
  unfolding main_loop_one
  main_loop_one-Grows k no_wait s =
      let P : Outcome t q → Type 0 = λ r. Grows s r.1 in
      option_ind P (q.heappop s.timers) _ _ (λ _. fetch-Grows k no_wait false s)
        (λ x _.
          let s₁ = record s { timers = x.1 } in
          let v = verdict (s.handles x.0.1).cancelled x.0.1 in
          let logs = Extends-log v s₁ (tagged_verdict (s.handles x.0.1).cancelled x.0.1) in
          if_ind P (leb_ℤ (x.0.0 -ℤ k.now) (pos 0)) _ _
            (λ _.
              Grows-trans (Grows-trans (Grows-queues s s.queue x.1 s.events) logs.grows)
                (run_unless_cancelled-Extends program k.now x.0.1 s₁).grows)
            (λ _. fetch-Grows k no_wait true s))

  -- What the loop does from `s` to `s'`: each callback that runs, runs with sniffio's library set to
  -- asyncio, and the library is as before at the end.
  pub record Tagged (s s' : Loop t q) : Type 0 where
    pub logged : List Occurrence
    pub traced : s'.trace ≡ s.trace ++ logged
    pub tagged : AllTagged logged
    pub same_library : s'.library ≡ s.library

  Tagged-stop : (s : Loop t q) → Tagged s (set_stopped t q program s)
  Tagged-stop s = record {
    logged = [];
    traced = sym (append-nil _);
    tagged = tt;
    same_library = refl;
  }

  Tagged-refl : (s : Loop t q) → Tagged s s
  Tagged-refl s = record {
    logged = [];
    traced = sym (append-nil _);
    tagged = tt;
    same_library = refl;
  }

  Grows-Tagged : {s s' s'' : Loop t q} → Grows s s' → Tagged s' s'' → Tagged s s''
  Grows-Tagged {s} g x = record {
    logged = g.logged ++ x.logged;
    traced = x.traced ∙ ap (λ l. l ++ x.logged) g.traced ∙ append_assoc s.trace g.logged x.logged;
    tagged = AllTagged-append g.logged x.logged g.tagged x.tagged;
    same_library = x.same_library ∙ g.same_library;
  }

  after_iteration-Tagged :
      (again : Loop t q → Outcome t q) (r : Result (Unit {0})) (s : Loop t q)
      → Tagged s (again s).1
      → Tagged s (after_iteration t q program again r s).1
  after_iteration-Tagged again (ok _) s h = h
  after_iteration-Tagged again (err waits) s h = h
  after_iteration-Tagged again (err trio_asyncio_exit) s h = Tagged-stop s
  after_iteration-Tagged again (err runtime_error) s h = Tagged-stop s
  after_iteration-Tagged again (err would_block) s h = Tagged-stop s
  after_iteration-Tagged again (err attribute_error) s h = Tagged-stop s
  after_iteration-Tagged again (err assertion_error) s h = Tagged-stop s
  after_iteration-Tagged again (err unfinished) s h = Tagged-stop s
  after_iteration-Tagged again (err (user_exit x)) s h = Tagged-stop s

  -- The main loop runs every callback with sniffio's library set to asyncio, and puts the library back
  -- whatever the callbacks do and however the loop ends.
  pub iterate-Tagged : (ks : List Tick) (s : Loop t q) → Tagged s (iterate t q program ks s).1
  unfolding iterate
  iterate-Tagged [] s =
      if_ind (λ (r : Outcome t q). Tagged s r.1) (t.is_set s.stopped) _ _ (λ _. Tagged-stop s)
        (λ _. Tagged-refl s)
  iterate-Tagged (k ∷ ks) s =
      let o = main_loop_one t q program k false s in
      if_ind (λ (r : Outcome t q). Tagged s r.1) (t.is_set s.stopped) _ _ (λ _. Tagged-stop s)
        (λ _.
          Grows-Tagged (main_loop_one-Grows k false s)
            (after_iteration-Tagged (iterate t q program ks) o.0 o.1 (iterate-Tagged ks o.1)))
