-- ===== src/Loop/Termination.antt =====
-- The main loop ends after `stop`: how many iterations it takes.
use trio_asyncio.Prelude.{
  Bool, true, false, ap, ℕ, suc, ◌+◌, ◌<◌, ◌≤◌, ◌≡◌, refl, ap, ◌∙◌, inl, inr, true, some, List, [],
  ◌∷◌, ◌++◌, arith, if_ind, length, length-Perm, if◌then◌else◌,
}
use trio_asyncio.Prelude.Int.{ℤ}
use trio_asyncio.Exec.{
  Result, ok, err, result_ind, waits, unfinished, runtime_error, trio_asyncio_exit, user_exit,
  would_block, attribute_error, assertion_error,
}
use trio_asyncio.Trio.{Trio}
use trio_asyncio.Heapq.{Heapq, Timer, heappop_some}
use trio_asyncio.Loop.{
  HandleKind, plain, timer, async_task, Callback, user, stop_me, set_event, Loop, Script, Ending,
  returns, raises, exits, scheduled,
}
use trio_asyncio.Loop.Iteration.{
  Tick, run_callback, run_unless_cancelled, dispatch, iterate, after_iteration, start_task,
  end_script, perform, log,
}
use trio_asyncio.Loop.Extends.{Extends, Grows-trans, Grows-queues}
use trio_asyncio.Loop.Progress.{
  timers_after, Outcome, run_unless_cancelled-Extends, dispatch_cases, main_loop_one_ind,
}
use trio_asyncio.Loop.Exits.{TimersOrdinary-eq, IsStopHandle-Grows, dispatch_stop}
use trio_asyncio.Loop.Stopped.{Ready, Ready-Grows, iterate_ind}
use trio_asyncio.Loop.Taking.{Ready-fired, Ready-taken}

-- The iterations that are not cut short by the timeout.
abbrev pub timely : List Tick → ℕ
timely [] = 0
timely (k ∷ ks) = if k.expired then timely ks else suc (timely ks)

pub timers_after-length :
    (q : Heapq) (a : HandleKind) (h : ℕ) (g : q.Heap)
    → length (q.entries (timers_after q a h g)) ≤ suc (length (q.entries g))
timers_after-length q plain h g = omega arith
timers_after-length q (timer when) h g =
    let e = length-Perm (q.push_perm (when, h) g) in omega (arith, e)
timers_after-length q async_task h g = omega arith

-- How one iteration may return: as planned, by the stop handle, by a callback's `SystemExit` or
-- `KeyboardInterrupt`, or because the nursery takes no task.
abbrev pub iterated : Result (Unit {0}) → Bool
iterated (ok _) = true
iterated (err trio_asyncio_exit) = true
iterated (err (user_exit x)) = true
iterated (err runtime_error) = true
iterated (err e) = false

-- How the main loop may end.
abbrev pub ended : Result (Unit {0}) → Bool
ended (ok _) = true
ended (err (user_exit x)) = true
ended (err runtime_error) = true
ended (err e) = false

module _ (t : Trio) (q : Heapq) (program : ℕ → Script) where
  abbrev pub Iterated : Outcome t q → Type 0
  Iterated o = iterated o.0 ≡ true

  abbrev Ended : Outcome t q → Type 0
  Ended o = ended o.0 ≡ true

  end_script-Iterated : (e : Ending) (s : Loop t q) → Iterated (end_script t q program e s)
  end_script-Iterated returns s = refl
  end_script-Iterated (raises n) s = refl
  end_script-Iterated (exits n) s = refl

  run_callback-Iterated :
      (now : ℤ) (c : Callback) (s : Loop t q) → Iterated (run_callback t q program now c s)
  unfolding run_callback
  run_callback-Iterated now (user c) s =
      result_ind Iterated (perform t q program now (program c).actions s).0 _ _
        (λ _ _. end_script-Iterated (program c).ending _) (λ _ _. refl)
  run_callback-Iterated now (stop_me w) s = refl
  run_callback-Iterated now (set_event w) s = refl

  pub run_unless_cancelled-Iterated :
      (now : ℤ) (h : ℕ) (s : Loop t q) → Iterated (run_unless_cancelled t q program now h s)
  unfolding run_unless_cancelled
  run_unless_cancelled-Iterated now h s =
      if_ind Iterated (s.handles h).cancelled _ _ (λ _. refl)
        (λ _. run_callback-Iterated now (s.handles h).callback _)

  after_iteration-Ended :
      (again : Loop t q → Outcome t q) (r : Result (Unit {0})) (s : Loop t q)
      → iterated r ≡ true
      → Ended (again s)
      → Ended (after_iteration t q program again r s)
  after_iteration-Ended again (ok _) s n h = h
  after_iteration-Ended again (err waits) s n h = h
  after_iteration-Ended again (err trio_asyncio_exit) s n h = refl
  after_iteration-Ended again (err runtime_error) s n h = refl
  after_iteration-Ended again (err would_block) s n h = cc
  after_iteration-Ended again (err attribute_error) s n h = cc
  after_iteration-Ended again (err assertion_error) s n h = cc
  after_iteration-Ended again (err unfinished) s n h = cc
  after_iteration-Ended again (err (user_exit x)) s n h = refl

  pub dispatch-Iterated : (k : Tick) (h : ℕ) (s : Loop t q) → Iterated (dispatch t q program k h s)
  unfolding dispatch
  dispatch-Iterated k h s = go (s.handles h).kind
    where
      go :
          (a : HandleKind)
          → Iterated (
              let r : Outcome t q = elim a [
                | plain ↦ run_unless_cancelled t q program k.now h s
                | timer when ↦ (
                  ok tt,
                  log t q program
                      (scheduled h)
                      (record s { timers = q.heappush (when, h) s.timers }),
                )
                | async_task ↦ start_task t q program k h s
              ] in
              r)
      go plain = run_unless_cancelled-Iterated k.now h s
      go (timer when) = refl
      go async_task = if_ind Iterated k.accepts _ _ (λ _. refl) (λ _. refl)

  -- What is left to do before the stop handle: an object may be a timer, which is taken twice.
  abbrev pub work : List ℕ → Loop t q → ℕ
  work pre s = length pre + length pre + length (q.entries s.timers)

  module _ (kind : ℕ → HandleKind) (w h : ℕ) where
    abbrev Again : List Tick → Type 0
    Again ks =
        (pre post : List ℕ) (s : Loop t q)
        → Ready program kind w h pre post s
        → work pre s < timely ks
        → Ended (iterate t q program ks s)

    module _ (k : Tick) (ks : List Tick) (again : Again ks) where
      abbrev Continues : Outcome t q → Type 0
      Continues o = Ended (after_iteration t q program (iterate t q program ks) o.0 o.1)

      ends_fired :
          (pre post : List ℕ) (s : Loop t q) (r : Ready program kind w h pre post s)
          → work pre s < timely (k ∷ ks)
          → (x : Timer) (g : q.Heap) → q.heappop s.timers ≡ some (x, g)
          → Continues (run_unless_cancelled t q program k.now x.1 (record s { timers = g }))
      ends_fired pre post s r enough x g e =
          let s₁ = record s { timers = g } in
          let y = run_unless_cancelled-Extends program k.now x.1 s₁ in
          let (_, ready) = Ready-fired program kind w h k pre post r x g e y in
          let fewer = length-Perm (heappop_some q s.timers x g e).0 in
          let same = ap (λ l. length (q.entries l)) y.same_timers in
          after_iteration-Ended (iterate t q program ks) _ _
            (run_unless_cancelled-Iterated k.now x.1 s₁)
            (again pre (post ++ y.sent) _ ready (ground (arith, fewer, same, enough)))

      ends_idled :
          (pre post : List ℕ) (s : Loop t q) (r : Ready program kind w h pre post s)
          → work pre s < timely (k ∷ ks)
          → (s' : Loop t q) → Extends s s'
          → k.expired ≡ true
          → Continues (ok tt, s')
      ends_idled pre post s r enough s' x expired =
          let same = ap (λ l. length (q.entries l)) x.same_timers in
          again pre (post ++ x.sent) s'
            (Ready-Grows program kind w h pre post x.sent x.grows
              (TimersOrdinary-eq program x.grows x.same_timers r.timers_ordinary)
              (x.queued_eq ∙ ap (λ l. l ++ x.sent) r.queue_eq) r)
            (ground (arith, same, enough, expired))

      ends_stop :
          (post : List ℕ) (s : Loop t q) (r : Ready program kind w h [] post s)
          → (s' : Loop t q) (x : Extends s s') (d : t.Channel)
          → Continues (dispatch t q program k h (record s' { queue = d }))
      ends_stop post s r s' x d =
          let stop' =
            IsStopHandle-Grows program (Grows-trans x.grows (Grows-queues s' d s'.timers s'.events))
              r.stop_handle in
          let exits = dispatch_stop program k w h (record s' { queue = d }) stop' in rw exits refl

      ends_ordinary :
          (j : ℕ) (pre post : List ℕ) (s : Loop t q) (r : Ready program kind w h (j ∷ pre) post s)
          → work (j ∷ pre) s < timely (k ∷ ks)
          → (s' : Loop t q) (x : Extends s s') (d : t.Channel)
          → t.contents d ≡ (pre ++ h ∷ post) ++ x.sent
          → Continues (dispatch t q program k j (record s' { queue = d }))
      ends_ordinary j pre post s r enough s' x d front =
          let s₁ = record s' { queue = d } in
          elim (dispatch_cases program k j s₁) [
            | inl (_, e) ↦ rw e refl
            | inr y ↦
                let same = ap (λ l. length (q.entries l)) x.same_timers in
                let same' = ap (λ l. length (q.entries l)) y.same_timers in
                let more = timers_after-length q (s'.handles j).kind j s'.timers in
                after_iteration-Ended (iterate t q program ks) _ _ (dispatch-Iterated k j s₁) (
                  again pre (post ++ (x.sent ++ y.sent)) _
                    (Ready-taken program kind w h k j pre post r x d front y)
                    (ground (arith, same, same', more, enough)))
          ]

    -- The loop runs and a stop handle is queued behind the objects `pre`. Then the loop ends after
    -- any ticks of which, not counting those where its timeout passes, there are more than two for
    -- each object of `pre` and one for each timer. It returns, or raises a callback's `SystemExit`
    -- or `KeyboardInterrupt`, or the `RuntimeError` of a nursery that takes no more tasks.
    pub iterate-Ended :
        (ks : List Tick) (pre post : List ℕ) (s : Loop t q)
        → Ready program kind w h pre post s
        → work pre s < timely ks
        → ended (iterate t q program ks s).0 ≡ true
    iterate-Ended [] pre post s r enough = absurd (omega (arith, enough))
    iterate-Ended (k ∷ ks) [] post s r enough = iterate_ind program Ended k ks s r.running (
        main_loop_one_ind program (Continues k ks (iterate-Ended ks)) k s h post r.queue_eq
          (ends_fired k ks (iterate-Ended ks) [] post s r enough)
          (ends_idled k ks (iterate-Ended ks) [] post s r enough)
          (λ s' x d _. ends_stop k ks (iterate-Ended ks) post s r s' x d))
    iterate-Ended (k ∷ ks) (j ∷ pre) post s r enough = iterate_ind program Ended k ks s r.running (
        main_loop_one_ind program (Continues k ks (iterate-Ended ks)) k s j (pre ++ h ∷ post)
          r.queue_eq (ends_fired k ks (iterate-Ended ks) (j ∷ pre) post s r enough)
          (ends_idled k ks (iterate-Ended ks) (j ∷ pre) post s r enough)
          (ends_ordinary k ks (iterate-Ended ks) j pre post s r enough))
