-- ===== src/Loop/Exits.antt =====
-- Which objects end the main loop, and which do not.
use mathlib.Core.List.{Mem, mem-cons, mem-cons_of_mem, mem-cons_self}
use mathlib.Core.List.Perm
use mathlib.Core.Logic.Or
use native.Mathlib.Bridge.{le_prop}
use trio_asyncio.Prelude.{
  ℕ, ◌<◌, ◌≡◌, ◌≢◌, refl, sym, ap, subst, ◌∙◌, false, some, List, [], ◌∷◌, arith, if_ind,
}
use trio_asyncio.Prelude.Int.{ℤ}
use trio_asyncio.Exec.{ok, err, result_ind, trio_asyncio_exit}
use trio_asyncio.Trio.{Trio}
use trio_asyncio.Heapq.{Heapq, Timer, heappop_some}
use trio_asyncio.Loop.{
  HandleKind, plain, timer, async_task, Callback, user, stop_me, set_event, scheduled, Loop, Script,
  Ending, returns, raises, exits,
}
use trio_asyncio.Loop.Iteration.{
  Tick, run_callback, run_unless_cancelled, start_task, dispatch, end_script, perform, log,
}
use trio_asyncio.Loop.Extends.{is_own, Grows}
use trio_asyncio.Loop.Progress.{timers_after, Outcome}
use trio_asyncio.Loop.Dealing.{is_stop}

module _ {t : Trio} {q : Heapq} (program : ℕ → Script) where
  abbrev pub NoExit : Outcome t q → Type 0
  NoExit r = r.0 ≢ err trio_asyncio_exit

  end_script-NoExit : (e : Ending) (s : Loop t q) → NoExit (end_script t q program e s)
  end_script-NoExit returns s h = cc
  end_script-NoExit (raises n) s h = cc
  end_script-NoExit (exits n) s h = cc

  -- Only the loop's own stop handle raises `TrioAsyncioExit`.
  run_callback-NoExit :
      (now : ℤ) (c : Callback) (s : Loop t q)
      → is_stop c ≡ false
      → NoExit (run_callback t q program now c s)
  unfolding run_callback
  run_callback-NoExit now (user c) s h =
      result_ind NoExit (perform t q program now (program c).actions s).0 _ _
        (λ _ _. end_script-NoExit (program c).ending _) (λ _ _ e. cc)
  run_callback-NoExit now (stop_me w) s h = cc
  run_callback-NoExit now (set_event w) s h = λ e. cc

  pub run_unless_cancelled-NoExit :
      (now : ℤ) (h : ℕ) (s : Loop t q)
      → is_stop (s.handles h).callback ≡ false
      → NoExit (run_unless_cancelled t q program now h s)
  unfolding run_unless_cancelled
  run_unless_cancelled-NoExit now h s e =
      if_ind NoExit (s.handles h).cancelled _ _ (λ _ x. cc)
        (λ _. run_callback-NoExit now (s.handles h).callback _ e)

  pub dispatch-NoExit :
      (k : Tick) (h : ℕ) (s : Loop t q)
      → is_stop (s.handles h).callback ≡ false
      → NoExit (dispatch t q program k h s)
  unfolding dispatch
  dispatch-NoExit k h s e = go (s.handles h).kind
    where
      start : NoExit (start_task t q program k h s)
      start = if_ind NoExit k.accepts _ _ (λ _ x. cc) (λ _ x. cc)

      go :
          (a : HandleKind)
          → NoExit (
              let r : Outcome t q = elim a [
                | plain ↦ run_unless_cancelled t q program k.now h s
                | timer when ↦ (
                  ok tt,
                  log t q program
                      (scheduled h)
                      (record s { timers = q.heappush (when, h) s.timers }),
                )
                | async_task ↦ start_task t q program k h s
              ] in
              r)
      go plain = run_unless_cancelled-NoExit k.now h s e
      go (timer when) = λ x. cc
      go async_task = start

  -- The stop handle of waiter `w`: made by `stop`, and not cancelled.
  pub record IsStopHandle (w h : ℕ) (s : Loop t q) : Type 0 where
    pub below : h < s.next_handle
    pub is_plain : (s.handles h).kind ≡ plain
    pub stops : (s.handles h).callback ≡ stop_me w
    pub uncancelled : (s.handles h).cancelled ≡ false

  pub IsStopHandle-Grows :
      {w h : ℕ} {s s' : Loop t q} → Grows s s' → IsStopHandle w h s → IsStopHandle w h s'
  IsStopHandle-Grows {h = h} g i =
      let (k, c, own, _) = g.kept h i.below in
      record {
        below = omega (arith, i.below, g.handle_le);
        is_plain = k ∙ i.is_plain;
        stops = c ∙ i.stops;
        uncancelled = own (ap is_own i.stops) ∙ i.uncancelled;
      }

  pub dispatch_stop :
      (k : Tick) (w h : ℕ) (s : Loop t q)
      → IsStopHandle w h s
      → (dispatch t q program k h s).0 ≡ err trio_asyncio_exit
  unfolding dispatch
  dispatch_stop k w h s i = rw (i.is_plain, i.uncancelled, i.stops, dispatch) refl

  -- An object that may stand before the stop handle: it is no other stop handle.
  abbrev pub Ordinary : Loop t q → ℕ → Type 0
  Ordinary s h = (h < s.next_handle) × (is_stop (s.handles h).callback ≡ false)

  abbrev pub AllOrdinary : Loop t q → List ℕ → Type 0
  AllOrdinary s [] = Unit
  AllOrdinary s (h ∷ hs) = Ordinary s h × AllOrdinary s hs

  abbrev pub TimersOrdinary : Loop t q → Type 0
  TimersOrdinary s = (x : Timer) → Mem x (q.entries s.timers) → Ordinary s x.1

  pub Ordinary-prop : (s : Loop t q) (h : ℕ) → IsProp (Ordinary s h)
  Ordinary-prop s h = hlevel le_prop

  pub Ordinary-Grows : {s s' : Loop t q} (h : ℕ) → Grows s s' → Ordinary s h → Ordinary s' h
  Ordinary-Grows h g o =
      let (_, c, _, _) = g.kept h o.0 in (omega (arith, o.0, g.handle_le), ap is_stop c ∙ o.1)

  pub AllOrdinary-Grows :
      {s s' : Loop t q} (hs : List ℕ) → Grows s s' → AllOrdinary s hs → AllOrdinary s' hs
  AllOrdinary-Grows [] g o = tt
  AllOrdinary-Grows (h ∷ hs) g o = (Ordinary-Grows h g o.0, AllOrdinary-Grows hs g o.1)

  pub TimersOrdinary-eq :
      {s s' : Loop t q} → Grows s s' → s'.timers ≡ s.timers → TimersOrdinary s → TimersOrdinary s'
  TimersOrdinary-eq g same o x m =
      Ordinary-Grows x.1 g (o x (subst (λ h. Mem x (q.entries h)) same m))

  -- A popped timer, and those that are left.
  pub popped-Ordinary :
      (s : Loop t q) (x : Timer) (g : q.Heap)
      → q.heappop s.timers ≡ some (x, g)
      → TimersOrdinary s
      → Ordinary s x.1 × TimersOrdinary (record s { timers = g })
  popped-Ordinary s x g e o =
      let perm = Perm.subset (Perm.symm (heappop_some q s.timers x g e).0) in
      (o x (perm x mem-cons_self), (λ y m. o y (perm y (mem-cons_of_mem x m))))

  pub pushed-Ordinary :
      (s : Loop t q) (k : HandleKind) (h : ℕ)
      → Ordinary s h
      → TimersOrdinary s
      → TimersOrdinary (record s { timers = timers_after q k h s.timers })
  pushed-Ordinary s plain h o ts x m = ts x m
  pushed-Ordinary s async_task h o ts x m = ts x m
  pushed-Ordinary s (timer when) h o ts x m =
      Or.elim (Ordinary-prop s x.1) (mem-cons.0 (Perm.subset (q.push_perm (when, h) s.timers) x m))
        (λ e. subst (λ (y : Timer). Ordinary s y.1) (sym e) o) (ts x)
