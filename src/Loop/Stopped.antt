-- ===== src/Loop/Stopped.antt =====
-- The state in which `stop` finds the loop, and the one in which the loop has stopped.
use trio_asyncio.Prelude.{
  ℕ, ◌<◌, ◌≡◌, ◌≢◌, refl, sym, ap, subst, ◌∙◌, true, false, List, [], ◌∷◌, ◌++◌, append_assoc,
  arith, if_ind,
}
use trio_asyncio.Exec.{
  Result, ok, err, Error, waits, unfinished, runtime_error, trio_asyncio_exit, user_exit,
  would_block, attribute_error, assertion_error,
}
use trio_asyncio.Trio.{Trio}
use trio_asyncio.Heapq.{Heapq}
use trio_asyncio.Loop.{HandleKind, Occurrence, Loop, Script}
use trio_asyncio.Loop.Iteration.{Tick, main_loop_one, iterate, set_stopped, after_iteration}
use trio_asyncio.Loop.Extends.{Kept, Kept-trans, queued, Grows}
use trio_asyncio.Loop.Progress.{Outcome}
use trio_asyncio.Loop.Dealing.{DealtWith, others_first}
use trio_asyncio.Loop.Exits.{
  IsStopHandle, IsStopHandle-Grows, AllOrdinary, TimersOrdinary, AllOrdinary-Grows,
}

module _ {t : Trio} {q : Heapq} (program : ℕ → Script) where
  pub iterate_ind :
      (Q : Outcome t q → Type 0) (k : Tick) (ks : List Tick) (s : Loop t q)
      → t.is_set s.stopped ≡ false
      → (let (r, s') = main_loop_one t q program k false s in
          Q (after_iteration t q program (iterate t q program ks) r s'))
      → Q (iterate t q program (k ∷ ks) s)
  unfolding iterate
  iterate_ind Q k ks s going h = if_ind Q (t.is_set s.stopped) _ _ (λ e. absurd (cc)) (λ _. h)

  pub iterate_nil :
      (s : Loop t q) → t.is_set s.stopped ≡ false → (iterate t q program [] s).0 ≢ ok tt
  unfolding iterate
  iterate_nil s going =
      if_ind (λ (o : Outcome t q). o.0 ≢ ok tt) (t.is_set s.stopped) _ _ (λ e. absurd (cc))
        (λ _ e. cc)

  pub after_iteration_ind :
      (Q : Outcome t q → Type 0) (again : Loop t q → Outcome t q) (r : Result (Unit {0}))
      (s : Loop t q)
      → r ≢ err trio_asyncio_exit
      → Q (again s)
      → ((e : Error) → Q (err e, set_stopped t q program s))
      → Q (after_iteration t q program again r s)
  after_iteration_ind Q again (ok _) s n h f = h
  after_iteration_ind Q again (err waits) s n h f = h
  after_iteration_ind Q again (err trio_asyncio_exit) s n h f = absurd (n refl)
  after_iteration_ind Q again (err runtime_error) s n h f = f runtime_error
  after_iteration_ind Q again (err would_block) s n h f = f would_block
  after_iteration_ind Q again (err attribute_error) s n h f = f attribute_error
  after_iteration_ind Q again (err assertion_error) s n h f = f assertion_error
  after_iteration_ind Q again (err unfinished) s n h f = f unfinished
  after_iteration_ind Q again (err (user_exit x)) s n h f = f (user_exit x)

  -- What has happened when the loop has stopped in `s'`: the objects `hs` are dealt with, the
  -- objects behind them are still queued.
  pub record Stopped (kind : ℕ → HandleKind) (hs post : List ℕ) (s s' : Loop t q) : Type 0 where
    pub logged : List Occurrence
    pub traced : s'.trace ≡ s.trace ++ logged
    pub dealt_with : DealtWith kind (λ h. (s'.handles h).cancelled) hs logged
    pub left : List ℕ
    pub queued_eq : queued s' ≡ post ++ left
    pub kept : (h : ℕ) → h < s.next_handle → Kept (s.handles h) (s'.handles h)
    pub has_stopped : t.is_set s'.stopped ≡ true

  pub Stopped-Grows :
      {kind : ℕ → HandleKind} {hs post : List ℕ} {s s' s'' : Loop t q}
      → Grows s s'
      → Stopped kind hs post s' s''
      → Stopped kind hs post s s''
  Stopped-Grows {s} {s'} {s''} g x = record {
    logged = g.logged ++ x.logged;
    traced = x.traced ∙ ap (λ l. l ++ x.logged) g.traced ∙ append_assoc s.trace g.logged x.logged;
    dealt_with = others_first g.logged x.dealt_with;
    left = x.left;
    queued_eq = x.queued_eq;
    kept = λ h below.
        Kept-trans (s.handles h) (s'.handles h) (s''.handles h) (g.kept h below)
          (x.kept h (omega (arith, g.handle_le)));
    has_stopped = x.has_stopped;
  }

  pub Stopped-post :
      {kind : ℕ → HandleKind} {hs : List ℕ} (post sent : List ℕ) {s s' : Loop t q}
      → Stopped kind hs (post ++ sent) s s'
      → Stopped kind hs post s s'
  Stopped-post post sent x = record {
    logged = x.logged;
    traced = x.traced;
    dealt_with = x.dealt_with;
    left = sent ++ x.left;
    queued_eq = x.queued_eq ∙ append_assoc post sent x.left;
    kept = x.kept;
    has_stopped = x.has_stopped;
  }

  -- The objects have these kinds.
  abbrev pub Kinds : (ℕ → HandleKind) → Loop t q → List ℕ → Type 0
  Kinds kind s [] = Unit
  Kinds kind s (h ∷ hs) = ((s.handles h).kind ≡ kind h) × Kinds kind s hs

  -- The loop runs, and the objects `pre`, none of them a stop handle, are queued before the stop
  -- handle `h`.
  pub record Ready (kind : ℕ → HandleKind) (w h : ℕ) (pre post : List ℕ) (s : Loop t q)
      : Type 0 where
    pub running : t.is_set s.stopped ≡ false
    pub stop_handle : IsStopHandle program w h s
    pub ordinary : AllOrdinary program s pre
    pub timers_ordinary : TimersOrdinary program s
    pub kinds : Kinds kind s (pre ++ h ∷ [])
    pub queue_eq : queued s ≡ pre ++ h ∷ post

  pub Kinds-Grows :
      (kind : ℕ → HandleKind) {s s' : Loop t q} {w h : ℕ} (pre : List ℕ)
      → Grows s s'
      → AllOrdinary program s pre
      → IsStopHandle program w h s
      → Kinds kind s (pre ++ h ∷ [])
      → Kinds kind s' (pre ++ h ∷ [])
  Kinds-Grows kind {h = h} [] g o i k = ((g.kept h i.below).0 ∙ k.0, tt)
  Kinds-Grows kind (j ∷ pre) g o i k = ((g.kept j o.0.0).0 ∙ k.0, Kinds-Grows kind pre g o.1 i k.1)

  pub after_iteration_exit :
      (Q : Outcome t q → Type 0) (again : Loop t q → Outcome t q) (r : Result (Unit {0}))
      (s : Loop t q)
      → r ≡ err trio_asyncio_exit
      → Q (ok tt, set_stopped t q program s)
      → Q (after_iteration t q program again r s)
  after_iteration_exit Q again r s e h =
      subst (λ r. Q (after_iteration t q program again r s)) (sym e) h

  module _ (kind : ℕ → HandleKind) (w h : ℕ) where
    abbrev pub Goal : List ℕ → List ℕ → Loop t q → Outcome t q → Type 0
    Goal pre post s o = o.0 ≡ ok tt → Stopped kind (pre ++ h ∷ []) post s o.1

    -- What holds after an iteration that deals with no object of `pre`.
    pub Ready-Grows :
        {s s' : Loop t q} (pre post sent : List ℕ)
        → Grows s s'
        → TimersOrdinary program s'
        → queued s' ≡ (pre ++ h ∷ post) ++ sent
        → Ready kind w h pre post s
        → Ready kind w h pre (post ++ sent) s'
    Ready-Grows pre post sent g timers e r = record {
      running = ap t.is_set g.same_stopped ∙ r.running;
      stop_handle = IsStopHandle-Grows program g r.stop_handle;
      ordinary = AllOrdinary-Grows program pre g r.ordinary;
      timers_ordinary = timers;
      kinds = Kinds-Grows kind pre g r.ordinary r.stop_handle r.kinds;
      queue_eq = e ∙ append_assoc pre (h ∷ post) sent;
    }
