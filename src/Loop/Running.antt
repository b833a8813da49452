-- ===== src/Loop/Running.antt =====
-- One callback or task: what running it adds to the trace and to the queue.
use trio_asyncio.Prelude.{ℕ, refl, sym, List, [], ◌∷◌, ◌++◌, append-nil, arith, if_ind}
use trio_asyncio.Prelude.Int.{ℤ}
use trio_asyncio.Exec.{Result, result_ind}
use trio_asyncio.Trio.{Trio}
use trio_asyncio.Heapq.{Heapq}
use trio_asyncio.Loop.{
  Callback, user, stop_me, set_event, Library, asyncio, Occurrence, ran, propagated, Loop, Action,
  Ending, returns, raises, exits, Script, set, act,
}
use trio_asyncio.Loop.Iteration.{
  log, others, perform, handle_exception, end_script, run_callback, run_handle,
}
use trio_asyncio.Loop.Extends.{AllTagged, Extends, Extends-refl, Extends-trans, Kept-refl}
use trio_asyncio.Loop.Actions.{Extends-act, Extends-events}

module _ {t : Trio} {q : Heapq} where
  pub Extends-log :
      (o : Occurrence) (s : Loop t q)
      → AllTagged (o ∷ [])
      → Extends s (record s { trace = s.trace ++ o ∷ [] })
  Extends-log o s h = record {
    grows = record {
      logged = o ∷ [];
      traced = refl;
      tagged = h;
      same_library = refl;
      same_closed = refl;
      same_entered = refl;
      same_stopped = refl;
      handle_le = omega arith;
      kept = λ j _. Kept-refl (s.handles j);
    };
    sent = [];
    queued_eq = sym (append-nil _);
    same_timers = refl;
  }

  -- Another library during a call, put back after it.
  Extends-library :
      (s s' : Loop t q) (l : Library)
      → Extends (record s { library = l }) s'
      → Extends s (record s' { library = s.library })
  Extends-library s s' l x = record {
    grows = record {
      logged = x.logged;
      traced = x.traced;
      tagged = x.tagged;
      same_library = refl;
      same_closed = x.same_closed;
      same_entered = x.same_entered;
      same_stopped = x.same_stopped;
      handle_le = x.handle_le;
      kept = x.kept;
    };
    sent = x.sent;
    queued_eq = x.queued_eq;
    same_timers = x.same_timers;
  }

module _ {t : Trio} {q : Heapq} (program : ℕ → Script) where
  pub Extends-others :
      (now : ℤ) (actions : List Action) (s : Loop t q)
      → Extends s (others t q program now actions s)
  unfolding others
  Extends-others now [] s = Extends-refl s
  Extends-others now (a ∷ rest) s =
      Extends-trans (Extends-act now a s) (Extends-others now rest (act t q now a s).1)

  Extends-perform :
      (now : ℤ) (actions : List Action) (s : Loop t q)
      → Extends s (perform t q program now actions s).1
  unfolding perform
  Extends-perform now [] s = Extends-refl s
  Extends-perform now (a ∷ rest) s =
      result_ind (λ (r : Result (Unit {0}) × Loop t q). Extends s r.1) (act t q now a s).0 _ _
        (λ _ _. Extends-trans (Extends-act now a s) (Extends-perform now rest (act t q now a s).1))
        (λ _ _. Extends-act now a s)

  Extends-handle_exception : (n : ℕ) (s : Loop t q) → Extends s (handle_exception t q program n s)
  Extends-handle_exception n s =
      if_ind (Extends s) s.entered _ _ (λ _. Extends-log (propagated n) s tt) (λ _. Extends-refl s)

  Extends-end_script : (e : Ending) (s : Loop t q) → Extends s (end_script t q program e s).1
  Extends-end_script returns s = Extends-refl s
  Extends-end_script (raises n) s = Extends-handle_exception n s
  Extends-end_script (exits n) s = Extends-refl s

  Extends-run_callback :
      (now : ℤ) (c : Callback) (s : Loop t q) → Extends s (run_callback t q program now c s).1
  unfolding run_callback
  Extends-run_callback now (user c) s =
      let x = Extends-perform now (program c).actions s in
      result_ind (λ (r : Result (Unit {0}) × Loop t q). Extends s r.1)
        (perform t q program now (program c).actions s).0 _ _
        (λ _ _. Extends-trans x (Extends-end_script (program c).ending _))
        (λ _ _. Extends-trans x (Extends-handle_exception 0 _))
  Extends-run_callback now (stop_me w) s =
      Extends-events s (set t q w s).events s.next_event s.stop_wait
  Extends-run_callback now (set_event w) s =
      Extends-events s (set t q w s).events s.next_event s.stop_wait

  pub Extends-run_handle :
      (now : ℤ) (h : ℕ) (s : Loop t q)
      → Extends (log t q program (ran h asyncio) s) (run_handle t q program now h s).1
  unfolding run_handle
  Extends-run_handle now h s =
      Extends-library (log t q program (ran h asyncio) s) _ asyncio
        (Extends-run_callback now (s.handles h).callback _)
