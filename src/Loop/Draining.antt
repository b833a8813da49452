-- ===== src/Loop/Draining.antt =====
-- The drain of `_main_loop_exit`: how many rounds it takes, and what it leaves.
use trio_asyncio.Prelude.{
  ℕ, suc, ◌+◌, ◌<◌, ◌≡◌, refl, ap, ◌∙◌, ◌⊎◌, inl, inr, Bool, true, false, ◌&&◌, List, [], ◌∷◌,
  arith, if_ind, option_ind, length, length-Perm,
}
use mathlib.Core.Path.{ap₂}
use trio_asyncio.Prelude.Int.{ℤ, pos, ◌-ℤ◌, leb_ℤ}
use trio_asyncio.Exec.{
  Result, ok, err, waits, unfinished, runtime_error, trio_asyncio_exit, user_exit, would_block,
  attribute_error, assertion_error,
}
use trio_asyncio.Trio.{Trio}
use trio_asyncio.Heapq.{Heapq, heappop_some}
use trio_asyncio.Loop.{
  HandleKind, plain, timer, async_task, Callback, user, stop_me, set_event, Loop, Script, scheduled,
  started, ran, asyncio, Action, call_soon, call_later, call_at, run_trio_task, cancel, synchronize,
  stop, act, cancel_handle,
}
use trio_asyncio.Loop.Iteration.{
  Tick, others, perform, run_callback, run_handle, run_unless_cancelled, dispatch, start_task,
  receive, fetch, main_loop_one, log,
}
use trio_asyncio.Loop.Lifecycle.{drain, after_drained}
use trio_asyncio.Loop.Progress.{Outcome}
use trio_asyncio.Loop.Termination.{
  iterated, timers_after-length, run_unless_cancelled-Iterated, dispatch-Iterated,
}

-- It queues nothing.
abbrev pub quiet : Action → Bool
quiet (cancel h) = true
quiet a = false

abbrev pub all_quiet : List Action → Bool
all_quiet [] = true
all_quiet (a ∷ rest) = quiet a && all_quiet rest

abbrev pub quiet_ticks : List Tick → Bool
quiet_ticks [] = true
quiet_ticks (k ∷ ks) = all_quiet k.during && quiet_ticks ks

-- A callback's exit, or a nursery that takes no more tasks.
abbrev pub raised : Result (Unit {0}) → Bool
raised (err (user_exit n)) = true
raised (err runtime_error) = true
raised r = false

module _ {t : Trio} {q : Heapq} where
  -- What is left to do: an object in the queue may be a timer, which is taken twice.
  abbrev pub load : Loop t q → ℕ
  load s = length (t.contents s.queue) + length (t.contents s.queue) + length (q.entries s.timers)

  -- How the drain ends: with nothing left in the queue, or with a callback's `SystemExit` or
  -- `KeyboardInterrupt`, or the `RuntimeError` of a nursery that takes no more tasks.
  abbrev pub Drained : Outcome t q → Type 0
  Drained o = (o.0 ≡ ok tt) × (t.contents o.1.queue ≡ []) ⊎ (raised o.0 ≡ true)

module _ {t : Trio} {q : Heapq} (program : ℕ → Script)
    (silent : (c : ℕ) → all_quiet (program c).actions ≡ true) where
  -- The queue and the timers stay as they are.
  abbrev Keeps : Loop t q → Loop t q → Type 0
  Keeps s s' = (s'.queue ≡ s.queue) × (s'.timers ≡ s.timers)

  cancel_handle-Keeps : (h : ℕ) (s : Loop t q) → Keeps s (cancel_handle t q h s)
  unfolding cancel_handle
  cancel_handle-Keeps h s = ground arith

  others-Keeps :
      (now : ℤ) (acts : List Action) (s : Loop t q)
      → all_quiet acts ≡ true
      → Keeps s (others t q program now acts s)
  unfolding others act
  others-Keeps now [] s e = (refl, refl)
  others-Keeps now (cancel h ∷ rest) s e =
      let first = cancel_handle-Keeps h s in
      let later = others-Keeps now rest (cancel_handle t q h s) e in
      (later.0 ∙ first.0, later.1 ∙ first.1)
  others-Keeps now (call_soon c ∷ rest) s e = cc
  others-Keeps now (call_later d c ∷ rest) s e = cc
  others-Keeps now (call_at w c ∷ rest) s e = cc
  others-Keeps now (run_trio_task c ∷ rest) s e = cc
  others-Keeps now (synchronize ∷ rest) s e = cc
  others-Keeps now (stop ∷ rest) s e = cc

  perform-Keeps :
      (now : ℤ) (acts : List Action) (s : Loop t q)
      → all_quiet acts ≡ true
      → Keeps s (perform t q program now acts s).1
  unfolding perform act
  perform-Keeps now [] s e = (refl, refl)
  perform-Keeps now (cancel h ∷ rest) s e =
      let first = cancel_handle-Keeps h s in
      let later = perform-Keeps now rest (cancel_handle t q h s) e in
      (later.0 ∙ first.0, later.1 ∙ first.1)
  perform-Keeps now (call_soon c ∷ rest) s e = cc
  perform-Keeps now (call_later d c ∷ rest) s e = cc
  perform-Keeps now (call_at w c ∷ rest) s e = cc
  perform-Keeps now (run_trio_task c ∷ rest) s e = cc
  perform-Keeps now (synchronize ∷ rest) s e = cc
  perform-Keeps now (stop ∷ rest) s e = cc

  run_callback-Keeps :
      (now : ℤ) (c : Callback) (s : Loop t q) → Keeps s (run_callback t q program now c s).1
  unfolding run_callback
  run_callback-Keeps now (user c) s =
      let done = perform-Keeps now (program c).actions s (silent c) in ground (arith, done)
  run_callback-Keeps now (stop_me w) s = (refl, refl)
  run_callback-Keeps now (set_event w) s = (refl, refl)

  run_unless_cancelled-Keeps :
      (now : ℤ) (h : ℕ) (s : Loop t q) → Keeps s (run_unless_cancelled t q program now h s).1
  unfolding run_unless_cancelled run_handle
  run_unless_cancelled-Keeps now h s =
      let c = (s.handles h).callback in
      let begun = log t q program (ran h asyncio) (record s { library = asyncio }) in
      let done = run_callback-Keeps now c begun in ground (arith, done)

  load-Keeps : (s s' : Loop t q) → Keeps s s' → load s' ≡ load s
  load-Keeps s s' (a, b) =
      ap₂ (λ c g. length (t.contents c) + length (t.contents c) + length (q.entries g)) a b

  run_unless_cancelled-load :
      (now : ℤ) (h : ℕ) (s : Loop t q) → load (run_unless_cancelled t q program now h s).1 ≡ load s
  run_unless_cancelled-load now h s =
      load-Keeps s (run_unless_cancelled t q program now h s).1 (run_unless_cancelled-Keeps now h s)

  -- A round finds nothing to do, or there is less to do after it.
  abbrev Lessens : Loop t q → Outcome t q → Type 0
  Lessens s o =
      (o.0 ≡ err would_block) × (t.contents o.1.queue ≡ [])
      ⊎ (iterated o.0 ≡ true) × (load o.1 < load s)

  dispatch-load :
      (k : Tick) (h : ℕ) (s : Loop t q)
      → all_quiet k.during ≡ true
      → load (dispatch t q program k h s).1 < suc (suc (load s))
  unfolding dispatch start_task
  dispatch-load k h s e = go (s.handles h).kind
    where
      go :
          (a : HandleKind)
          → let r : Outcome t q = elim a [
            | plain ↦ run_unless_cancelled t q program k.now h s
            | timer when ↦ (
              ok tt,
              log t q program (scheduled h) (record s { timers = q.heappush (when, h) s.timers }),
            )
            | async_task ↦ start_task t q program k h s
          ] in
            load r.1 < suc (suc (load s))
      go plain = omega (arith, run_unless_cancelled-load k.now h s)
      go (timer when) = omega (arith, timers_after-length q (timer when) h s.timers)
      go async_task =
          let s₁ : Loop t q = log t q program (started h) s in
          if_ind (λ (r : Outcome t q). load r.1 < suc (suc (load s))) k.accepts _ _
            (λ _. omega (
              arith,
              load-Keeps s₁ (others t q program k.now k.during s₁)
                  (others-Keeps k.now k.during s₁ e),
            ))
            (λ _. omega arith)

  receive-Lessens :
      (k : Tick) (s : Loop t q)
      → all_quiet k.during ≡ true
      → Lessens s (receive t q program k would_block s)
  unfolding receive
  receive-Lessens k s e = elim (t.receive_cases s.queue) [
    | inl (empty, none_there) ↦ inl (rw (none_there, receive) (refl, empty))
    | inr (h, d, got, front, _) ↦
        let taken : Loop t q = record s { queue = d } in
        let less = dispatch-load k h taken e in
        let n = ap length front in
        let returns = dispatch-Iterated t q program k h taken in
        inr (rw (got, receive) (returns, omega (arith, less, n)))
  ]

  main_loop_one-Lessens :
      (k : Tick) (s : Loop t q)
      → all_quiet k.during ≡ true
      → Lessens s (main_loop_one t q program k true s)
  unfolding main_loop_one fetch
  main_loop_one-Lessens k s e =
      option_ind (Lessens s) (q.heappop s.timers) _ _ (λ _. receive-Lessens k s e)
        (λ x popped.
          if_ind (Lessens s) (leb_ℤ (x.0.0 -ℤ k.now) (pos 0)) _ _
            (λ _.
              let s₁ : Loop t q = record s { timers = x.1 } in
              let fewer = length-Perm (heappop_some q s.timers x.0 x.1 popped).0 in
              let same = run_unless_cancelled-load k.now x.0.1 s₁ in
              inr (
                run_unless_cancelled-Iterated t q program k.now x.0.1 s₁,
                omega (arith, fewer, same),
              ))
            (λ _. receive-Lessens k s e))

  after_drained-Drained :
      (again : Loop t q → Outcome t q) (n : ℕ) (r : Result (Unit {0})) (s' : Loop t q)
      → (r ≡ err would_block) × (t.contents s'.queue ≡ []) ⊎ (iterated r ≡ true) × (load s' < n)
      → (load s' < n → Drained (again s'))
      → Drained (after_drained t q program again r s')
  after_drained-Drained again n (ok tt) s' (inl (e, empty)) rest = absurd cc
  after_drained-Drained again n (ok tt) s' (inr (e, less)) rest = rest less
  after_drained-Drained again n (err trio_asyncio_exit) s' (inl (e, empty)) rest = absurd cc
  after_drained-Drained again n (err trio_asyncio_exit) s' (inr (e, less)) rest = rest less
  after_drained-Drained again n (err would_block) s' (inl (e, empty)) rest = inl (refl, empty)
  after_drained-Drained again n (err would_block) s' (inr (e, less)) rest = absurd cc
  after_drained-Drained again n (err runtime_error) s' h rest = inr refl
  after_drained-Drained again n (err (user_exit x)) s' h rest = inr refl
  after_drained-Drained again n (err waits) s' (inl (e, empty)) rest = absurd cc
  after_drained-Drained again n (err waits) s' (inr (e, less)) rest = absurd cc
  after_drained-Drained again n (err attribute_error) s' (inl (e, empty)) rest = absurd cc
  after_drained-Drained again n (err attribute_error) s' (inr (e, less)) rest = absurd cc
  after_drained-Drained again n (err assertion_error) s' (inl (e, empty)) rest = absurd cc
  after_drained-Drained again n (err assertion_error) s' (inr (e, less)) rest = absurd cc
  after_drained-Drained again n (err unfinished) s' (inl (e, empty)) rest = absurd cc
  after_drained-Drained again n (err unfinished) s' (inr (e, less)) rest = absurd cc

  -- When the callbacks that are left queue nothing more, nor does anything else while a task starts,
  -- the drain of `_main_loop_exit` ends within two rounds for each object in the queue, one for each
  -- timer and one more. If no callback exits and the nursery still takes tasks, nothing is left in
  -- the queue.
  pub drain-Drained :
      (ks : List Tick) (s : Loop t q)
      → quiet_ticks ks ≡ true
      → load s < length ks
      → Drained (drain t q program ks s)
  unfolding drain
  drain-Drained [] s e enough = absurd (omega arith)
  drain-Drained (k ∷ ks) s e enough =
      let (r, s') = main_loop_one t q program k true s in
      after_drained-Drained (drain t q program ks) (load s) r s'
        (main_loop_one-Lessens k s (ground arith))
        (λ less. drain-Drained ks s' (ground arith) (omega (arith, less, enough)))
