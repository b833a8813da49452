-- ===== src/Loop/Progress.antt =====
-- One iteration of the main loop, seen from the object at the head of the queue.
use trio_asyncio.Prelude.{
  ℕ, ◌≡◌, refl, ap, subst, ◌∙◌, ◌⊎◌, inl, inr, Bool, true, false, some, List, [], ◌∷◌, ◌++◌, arith,
  if_ind, option_ind, if◌then◌else◌, ◌&&◌,
}
use trio_asyncio.Prelude.Int.{ℤ, pos, ◌-ℤ◌, leb_ℤ}
use trio_asyncio.Exec.{Result, ok, err, Error, waits, runtime_error}
use trio_asyncio.Trio.{Trio}
use trio_asyncio.Heapq.{Heapq, Timer}
use trio_asyncio.Loop.{
  HandleKind, plain, timer, async_task, asyncio, Occurrence, ran, started, skipped, scheduled, Loop,
  Script,
}
use trio_asyncio.Loop.Iteration.{
  Tick, log, others, run_handle, start_task, run_unless_cancelled, dispatch, receive, fetch,
  main_loop_one,
}
use trio_asyncio.Loop.Extends.{queued, Extends, Extends-refl}
use trio_asyncio.Loop.Running.{Extends-others, Extends-run_handle}

-- What becomes of a callback, by whether its handle is cancelled when its turn comes.
abbrev pub verdict : Bool → ℕ → Occurrence
verdict true h = skipped h
verdict false h = ran h asyncio

abbrev pub occurrence_of : HandleKind → Bool → ℕ → Occurrence
occurrence_of plain c h = verdict c h
occurrence_of (timer when) c h = scheduled h
occurrence_of async_task c h = started h

abbrev pub timers_after : (q : Heapq) → HandleKind → ℕ → q.Heap → q.Heap
timers_after q plain h g = g
timers_after q (timer when) h g = q.heappush (when, h) g
timers_after q async_task h g = g

module _ {t : Trio} {q : Heapq} where
  abbrev pub logged_as : Occurrence → Loop t q → Loop t q
  logged_as o s = record s { trace = s.trace ++ o ∷ [] }

  -- The state once an object is dealt with, before what its callback adds.
  abbrev pub dealt : ℕ → Loop t q → Loop t q
  dealt h s =
      logged_as (occurrence_of (s.handles h).kind (s.handles h).cancelled h)
        (record s { timers = timers_after q (s.handles h).kind h s.timers })

abbrev pub Outcome : Trio → Heapq → Type 0
Outcome t q = Result (Unit {0}) × Loop t q

module _ {t : Trio} {q : Heapq} (program : ℕ → Script) where
  pub run_unless_cancelled-Extends :
      (now : ℤ) (h : ℕ) (s : Loop t q)
      → Extends
          (logged_as (verdict (s.handles h).cancelled h) s)
          (run_unless_cancelled t q program now h s).1
  unfolding run_unless_cancelled
  run_unless_cancelled-Extends now h s = go (s.handles h).cancelled
    where
      go :
          (b : Bool)
          → Extends
              (logged_as (verdict b h) s)
              (if b
                then (ok tt, log t q program (skipped h) s)
                else run_handle t q program now h s).1
      go true = Extends-refl _
      go false = Extends-run_handle program now h s

  pub dispatch_cases :
      (k : Tick) (h : ℕ) (s : Loop t q)
      → ((s.handles h).kind ≡ async_task) × (dispatch t q program k h s ≡ (err runtime_error, s))
        ⊎ Extends (dealt h s) (dispatch t q program k h s).1
  unfolding dispatch
  dispatch_cases k h s = go (s.handles h).kind
    where
      go :
          (a : HandleKind)
          → let r : Outcome t q = elim a [
            | plain ↦ run_unless_cancelled t q program k.now h s
            | timer when ↦ (
              ok tt,
              log t q program (scheduled h) (record s { timers = q.heappush (when, h) s.timers }),
            )
            | async_task ↦ start_task t q program k h s
          ] in
            (a ≡ async_task) × (r ≡ (err runtime_error, s))
            ⊎ Extends
                (logged_as
                  (occurrence_of a (s.handles h).cancelled h)
                  (record s { timers = timers_after q a h s.timers }))
                r.1
      go plain = inr (run_unless_cancelled-Extends k.now h s)
      go (timer when) = inr (Extends-refl _)
      go async_task = start_cases (k.accepts)
        where
          start_cases :
              (b : Bool)
              → let r : Outcome t q =
                  if b
                  then (ok tt, others t q program k.now k.during (log t q program (started h) s))
                  else (err runtime_error, s) in
                (async_task ≡ async_task) × (r ≡ (err runtime_error, s))
                ⊎ Extends (logged_as (started h) s) r.1
          start_cases true = inr (Extends-others program k.now k.during _)
          start_cases false = inl (refl, refl)

  receive_ind :
      (P : Outcome t q → Type 0) (k : Tick) (e : Error) (s : Loop t q) (j : ℕ) (rest : List ℕ)
      → queued s ≡ j ∷ rest
      → ((d : t.Channel)
          → t.contents d ≡ rest
          → P (dispatch t q program k j (record s { queue = d })))
      → P (receive t q program k e s)
  unfolding receive
  receive_ind P k e s j rest full p = elim (t.receive_cases s.queue) [
    | inl (empty, _) ↦ absurd (cc)
    | inr (x, d, got, front, _) ↦
        let same : j ≡ x = cc in
        let tail : t.contents d ≡ rest = cc in
        rw (got, receive)
          (subst (λ y. P (dispatch t q program k y (record s { queue = d }))) same (p d tail))
  ]

  -- What one iteration that waits does while an object is at the head of the queue: it runs the
  -- earliest timer, or its timeout passes, or it takes the object.
  pub main_loop_one_ind :
      (P : Outcome t q → Type 0) (k : Tick) (s : Loop t q) (j : ℕ) (rest : List ℕ)
      → queued s ≡ j ∷ rest
      → ((x : Timer) (g : q.Heap)
          → q.heappop s.timers ≡ some (x, g)
          → P (run_unless_cancelled t q program k.now x.1 (record s { timers = g })))
      → ((s' : Loop t q) → Extends s s' → k.expired ≡ true → P (ok tt, s'))
      → ((s' : Loop t q) (x : Extends s s') (d : t.Channel)
          → t.contents d ≡ rest ++ x.sent
          → P (dispatch t q program k j (record s' { queue = d })))
      → P (main_loop_one t q program k false s)
  unfolding main_loop_one
  main_loop_one_ind P k s j rest full fired idled took =
      option_ind P (q.heappop s.timers) _ _ (λ _. fetched false)
        (λ x e.
          if_ind P (leb_ℤ (x.0.0 -ℤ k.now) (pos 0)) _ _ (λ _. fired x.0 x.1 e) (λ _. fetched true))
    where
      fetched : (timers : Bool) → P (fetch t q program k false timers s)
      fetched timers =
          let x = Extends-others program k.now k.before s in
          if_ind P (timers && k.expired) _ _ (λ e. idled _ x (ground arith))
            (λ _.
              receive_ind P k waits _ j (rest ++ x.sent) (x.queued_eq ∙ ap (λ l. l ++ x.sent) full)
                (took _ x))
