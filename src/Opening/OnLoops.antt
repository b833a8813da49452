-- ===== src/Opening/OnLoops.antt =====
-- `open_loop` with the methods of trio_asyncio/_base.py and _async.py, as Loop has them. The main loop
-- runs while `open_loop` waits: the ticks are those until it has stopped, and those of the drain.
use trio_asyncio.Prelude.{
  ℕ, ◌≡◌, ap, ◌∙◌, sym, subst, ◌⊎◌, inl, inr, true, false, Option, none, some, List, [], ◌++◌,
  arith, Bool-cases,
}
use trio_asyncio.Exec.{Result, ok, err, Error, user_exit, result_cases}
use trio_asyncio.Trio.{Trio}
use trio_asyncio.Heapq.{Heapq}
use trio_asyncio.Loop.{Loop, Script, queue_handle}
use trio_asyncio.Loop.Returning.{CleanedUp, main_loop_exit-CleanedUp}
use trio_asyncio.Loop.Iteration.{Tick}
use trio_asyncio.Loop.Lifecycle.{is_running, main_loop_init, main_loop_exit, close}
use trio_asyncio.Exceptions.{error, exit, Exc, leaf}
use trio_asyncio.Opening.{
  Operations, Session, Code, on_loop, finally_raises, run_tasks, opened, open_loop,
}
use trio_asyncio.Opening.Leaving.{finalizer, open_loop-ClosedAt}

abbrev pub exception_of : Error → Exc
exception_of (user_exit x) = leaf exit x []
exception_of e = leaf error 0 []

abbrev pub raised_by : {A : Type 0} → Result A → Option Exc
raised_by (ok a) = none
raised_by (err e) = some (exception_of e)

module _ (t : Trio) (q : Heapq) (program : ℕ → Script) where
  abbrev pub method : {A : Type 0} → (Loop t q → Result A × Loop t q) → Code (Loop t q)
  method f s = let (r, s') = f s in (raised_by r, s')

  -- The main loop's methods in `open_loop`; the rest is taken from `others`, and to leave the outer
  -- nursery does not change the loop.
  abbrev pub on_methods :
      (running draining : List Tick) → Operations (Loop t q) → Operations (Loop t q)
  on_methods running draining others = record others {
    mark_open = λ s. record s { closed = false };
    main_loop_init = method (main_loop_init t q);
    start_main_loop = λ s. (none, record s { stopped = t.event });
    is_running = is_running t q;
    main_loop_exit = method (main_loop_exit t q program running draining);
    close = method (close t q);
  }

  closed_refuses :
      (handle : ℕ) (s : Loop t q)
      → s.closed ≡ true
      → (queue_handle t q handle s).0 ≡ err Error.runtime_error
  unfolding queue_handle
  closed_refuses handle s e = ground (arith, e)

  -- `_main_loop_exit` from `y` ended like `m`, and then `close` has closed the loop: nothing can be
  -- queued any more, and `old` is current again. If `_main_loop_exit` returned, and the loop was not closed
  -- before it, the main loop has stopped, and nothing is left in the queue or among the timers.
  abbrev pub Closed : ℕ → Option ℕ → Loop t q → Result (Unit {0}) → Loop t q → Option ℕ → Type 0
  Closed handle old y m s current =
      (s.closed ≡ true)
      × (current ≡ old)
      × ((queue_handle t q handle s).0 ≡ err Error.runtime_error)
      × ((m ≡ ok tt) × ((y.closed ≡ true) ⊎ CleanedUp program s) ⊎ ((e : Error) × (m ≡ err e)))

  -- `_main_loop_exit` raised and the main loop still runs, so that `close` refuses.
  abbrev pub Refused : Result (Unit {0}) → Loop t q → Type 0
  Refused m s = (s.closed ≡ false) × (t.is_set s.stopped ≡ false) × ((e : Error) × (m ≡ err e))

  exit_closed :
      (running draining : List Tick) (y : Loop t q)
      → y.closed ≡ true
      → main_loop_exit t q program running draining y ≡ (ok tt, y)
  unfolding main_loop_exit
  exit_closed running draining y e = ground (arith, e)

  close_raises :
      (s : Loop t q) (e : Exc)
      → (method (close t q) s).0 ≡ some e
      → (s.closed ≡ false) × (t.is_set s.stopped ≡ false) × ((close t q s).1 ≡ s)
  unfolding close
  close_raises s e raises = ground (arith, raises)

  close_returns :
      (s : Loop t q)
      → (method (close t q) s).0 ≡ none
      → ((close t q s).1.closed ≡ true) × (CleanedUp program s → CleanedUp program (close t q s).1)
  unfolding close
  close_returns s returns = ground (arith, returns)

  exit_returned :
      (running draining : List Tick) (y : Loop t q)
      → let (m, z) = main_loop_exit t q program running draining y in
        m ≡ ok tt → (y.closed ≡ true) × (z ≡ y) ⊎ CleanedUp program z
  exit_returned running draining y e = elim (Bool-cases y.closed) [
    | inl closed ↦ inl (closed, ap (λ o. o.1) (exit_closed running draining y closed))
    | inr opened ↦
        let z = (main_loop_exit t q program running draining y).1 in
        inr (main_loop_exit-CleanedUp program running draining y z opened (ap (λ m. (m, z)) e))
  ]

  close-Closed :
      (running draining : List Tick) (handle : ℕ) (old current : Option ℕ) (y : Loop t q)
      → let (m, z) = main_loop_exit t q program running draining y in
        ((method (close t q) z).0 ≡ none) × (current ≡ old)
          ⊎ ((e : Exc) × ((method (close t q) z).0 ≡ some e))
        → Closed handle old y m (close t q z).1 current ⊎ Refused m (close t q z).1
  close-Closed running draining handle old current y (inl (returns, reset)) =
      let (m, z) = main_loop_exit t q program running draining y in
      let (closed, kept) = close_returns z returns in
      let refused = closed_refuses handle (close t q z).1 closed in
      elim (result_cases m) [
        | inr failed ↦ inl (closed, reset, refused, inr failed)
        | inl returned ↦ elim (exit_returned running draining y returned) [
          | inl (before, _) ↦ inl (closed, reset, refused, inl (returned, inl before))
          | inr clean ↦ inl (closed, reset, refused, inl (returned, inr (kept clean)))
        ]
      ]
  close-Closed running draining handle old current y (inr (e, raises)) =
      let (m, z) = main_loop_exit t q program running draining y in
      let (opened, runs, same) = close_raises z e raises in
      let stays : ((close t q z).1.closed ≡ false) × (t.is_set (close t q z).1.stopped ≡ false) = (
        ap (λ (s : Loop t q). s.closed) same ∙ opened,
        ap (λ (s : Loop t q). t.is_set s.stopped) same ∙ runs,
      ) in
      elim (result_cases m) [
        | inr failed ↦ inr (stays.0, stays.1, failed)
        | inl returned ↦ elim (exit_returned running draining y returned) [
          | inl (before, z_is) ↦ absurd (cc (before, ap (λ (s : Loop t q). s.closed) z_is, opened))
          | inr clean ↦ absurd (cc (clean.0, runs))
        ]
      ]

  -- `open_loop`, whatever the code in it and the callbacks did: it does not end if the task that
  -- finalizes the generators never sets its event. Else `_main_loop_exit` and then `close` are called. If
  -- `close` returns, no handle can be queued any more, and the loop that was current before is so
  -- again; and if `_main_loop_exit` returned, and the loop was not closed before, the main loop has
  -- stopped, and nothing is left in the queue or among the timers. If `close` raises, the main loop has
  -- not stopped, and `_main_loop_exit` has not returned: it raised, or its ticks were too few.
  pub open_loop-close :
      (running draining : List Tick) (others : Operations (Loop t q)) (x : Loop t q)
      (old : Option ℕ) (handle : ℕ)
      → let ops = on_methods running draining others in
        let (r, s) = run_tasks ops (opened ops x old) in
        (finalizer ops s.loop ≡ none) × (open_loop ops x old ≡ none)
        ⊎ ((e : Option Exc) × (y : Loop t q) × (r' : Option Exc) × (s' : Session (Loop t q))
            × (finalizer ops s.loop ≡ some (e, y))
            × (open_loop ops x old
                ≡ some (
                    on_loop
                      (ops.exit_loop
                        (finally_raises r r')
                        (s'.raised ++ ops.main_loop_raised s'.loop))
                      s'))
            × (Closed handle old y
                  (main_loop_exit t q program running draining y).0
                  s'.loop
                  s'.current_loop
                ⊎ Refused (main_loop_exit t q program running draining y).0 s'.loop))
  open_loop-close running draining others x old handle =
      let ops = on_methods running draining others in
      elim (open_loop-ClosedAt ops x old) [
        | inl never ↦ inl never
        | inr (e, y, r', s', done, _, closed, _, left) ↦
            let ends = close-Closed running draining handle old s'.current_loop y closed.1 in
            inr (
              e,
              y,
              r',
              s',
              done,
              left,
              subst
                  (λ l.
                    Closed handle old y (main_loop_exit t q program running draining y).0 l
                      s'.current_loop
                    ⊎ Refused (main_loop_exit t q program running draining y).0 l)
                  (sym closed.0) ends,
            )
      ]
