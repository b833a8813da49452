-- ===== src/Loop/Returning.antt =====
-- What `_main_loop_exit` leaves behind where it returns, whatever the callbacks do.
use trio_asyncio.Prelude.{
  ℕ, ◌≡◌, refl, ap, sym, subst, ◌∙◌, ◌⊎◌, inl, inr, true, false, none, List, [], ◌∷◌, arith, if_ind,
  option_ind,
}
use trio_asyncio.Prelude.Int.{pos, ◌-ℤ◌, leb_ℤ}
use trio_asyncio.Exec.{
  Result, ok, err, waits, unfinished, runtime_error, trio_asyncio_exit, user_exit, would_block,
  attribute_error, assertion_error, bind-ok, ◌>>◌,
}
use trio_asyncio.Trio.{Trio}
use trio_asyncio.Heapq.{Heapq, Timer}
use trio_asyncio.Loop.{Loop, Script, stop_loop, mark_cancelled}
use trio_asyncio.Loop.Iteration.{Tick, receive, fetch, main_loop_one}
use trio_asyncio.Loop.Lifecycle.{
  cancel_all, cancel_timers, after_drained, drain, wait_stopped, finalize, main_loop_exit,
}
use trio_asyncio.Loop.Progress.{Outcome}
use trio_asyncio.Loop.Termination.{iterated, run_unless_cancelled-Iterated, dispatch-Iterated}
use trio_asyncio.Loop.Tagging.{main_loop_one-Grows}

module _ {t : Trio} {q : Heapq} (program : ℕ → Script) where
  -- A round of the drain finds the queue empty, or deals with something.
  abbrev Rounded : Outcome t q → Type 0
  Rounded o = (o.0 ≡ err would_block) × (t.contents o.1.queue ≡ []) ⊎ (iterated o.0 ≡ true)

  receive-Rounded : (k : Tick) (s : Loop t q) → Rounded (receive t q program k would_block s)
  unfolding receive
  receive-Rounded k s = elim (t.receive_cases s.queue) [
    | inl (empty, none_there) ↦ inl (rw (none_there, receive) (refl, empty))
    | inr (h, d, got, front, _) ↦
        inr (rw (got, receive) (dispatch-Iterated t q program k h (record s { queue = d })))
  ]

  main_loop_one-Rounded : (k : Tick) (s : Loop t q) → Rounded (main_loop_one t q program k true s)
  unfolding main_loop_one fetch
  main_loop_one-Rounded k s =
      option_ind Rounded (q.heappop s.timers) _ _ (λ _. receive-Rounded k s)
        (λ x _.
          if_ind Rounded (leb_ℤ (x.0.0 -ℤ k.now) (pos 0)) _ _
            (λ _.
              inr
                (run_unless_cancelled-Iterated t q program k.now x.0.1 (record s { timers = x.1 })))
            (λ _. receive-Rounded k s))

  -- The drain from `s`: where it returns, the queue is empty, and it does not start the loop again.
  abbrev Empties : Loop t q → Outcome t q → Type 0
  Empties s o = (o.0 ≡ ok tt → t.contents o.1.queue ≡ []) × (o.1.stopped ≡ s.stopped)

  after_drained-Empties :
      (again : Loop t q → Outcome t q) (r : Result (Unit {0})) (s s' : Loop t q)
      → Rounded (r, s')
      → s'.stopped ≡ s.stopped
      → Empties s' (again s')
      → Empties s (after_drained t q program again r s')
  after_drained-Empties again (ok tt) s s' h e rest = (rest.0, rest.1 ∙ e)
  after_drained-Empties again (err trio_asyncio_exit) s s' h e rest = (rest.0, rest.1 ∙ e)
  after_drained-Empties again (err would_block) s s' (inl (_, empty)) e rest = ((λ _. empty), e)
  after_drained-Empties again (err would_block) s s' (inr r) e rest = absurd cc
  after_drained-Empties again (err runtime_error) s s' h e rest = ((λ r. absurd (cc)), e)
  after_drained-Empties again (err (user_exit x)) s s' h e rest = ((λ r. absurd (cc)), e)
  after_drained-Empties again (err waits) s s' h e rest = ((λ r. absurd (cc)), e)
  after_drained-Empties again (err attribute_error) s s' h e rest = ((λ r. absurd (cc)), e)
  after_drained-Empties again (err assertion_error) s s' h e rest = ((λ r. absurd (cc)), e)
  after_drained-Empties again (err unfinished) s s' h e rest = ((λ r. absurd (cc)), e)

  drain-Empties : (ks : List Tick) (s : Loop t q) → Empties s (drain t q program ks s)
  unfolding drain
  drain-Empties [] s = ((λ r. absurd (cc)), refl)
  drain-Empties (k ∷ ks) s =
      let (r, s') = main_loop_one t q program k true s in
      let g = main_loop_one-Grows program k true s in
      after_drained-Empties (drain t q program ks) r s s' (main_loop_one-Rounded k s) g.same_stopped
        (drain-Empties ks s')

  cancel_all-same :
      (xs : List Timer) (s : Loop t q)
      → ((cancel_all t q xs s).queue ≡ s.queue) × ((cancel_all t q xs s).stopped ≡ s.stopped)
  cancel_all-same [] s = (refl, refl)
  cancel_all-same (x ∷ xs) s = cancel_all-same xs (mark_cancelled t q x.1 s)

  -- The main loop has stopped, nothing is in the queue or among the timers, the fields are cleared.
  abbrev pub CleanedUp : Loop t q → Type 0
  CleanedUp z =
      (t.is_set z.stopped ≡ true)
      × (t.contents z.queue ≡ [])
      × (z.timers ≡ q.empty)
      × (z.entered ≡ false)

  finalize-CleanedUp :
      (s : Loop t q)
      → t.is_set s.stopped ≡ true
      → t.contents s.queue ≡ []
      → CleanedUp (finalize t q program s).1
  unfolding cancel_timers
  finalize-CleanedUp s is_set empty =
      let (queue, stopped) = cancel_all-same (q.entries s.timers) s in
      (ap t.is_set stopped ∙ is_set, ap t.contents queue ∙ empty, refl, refl)

  wait_stopped-is_set :
      (ks : List Tick) (s s' : Loop t q)
      → wait_stopped t q program ks s ≡ (ok tt, s')
      → t.is_set s'.stopped ≡ true
  wait_stopped-is_set ks s s' e = ground (arith, e)

  -- `_main_loop_exit` on a loop that is not closed, if it returns.
  pub main_loop_exit-CleanedUp :
      (running draining : List Tick) (s z : Loop t q)
      → s.closed ≡ false
      → main_loop_exit t q program running draining s ≡ (ok tt, z)
      → CleanedUp z
  unfolding main_loop_exit
  main_loop_exit-CleanedUp running draining s z opened e =
      let stops = stop_loop t q none in
      let waiting = wait_stopped t q program running in
      let draining' = drain t q program draining in
      let ends = finalize t q program in
      let whole : (stops >> (waiting >> (draining' >> ends))) s ≡ (ok tt, z) =
        ground (arith, opened, e) in
      let (_, s₁, _, e₁) = bind-ok stops (λ _. waiting >> (draining' >> ends)) s tt z whole in
      let (_, s₂, waited, e₂) = bind-ok waiting (λ _. draining' >> ends) s₁ tt z e₁ in
      let (_, s₃, drained, e₃) = bind-ok draining' (λ _. ends) s₂ tt z e₂ in
      let (empties, same) = drain-Empties draining s₂ in
      let empty : t.contents s₃.queue ≡ [] =
        ap (λ (o : Outcome t q). t.contents o.1.queue) (sym drained)
        ∙ empties (ap (λ o. o.0) drained) in
      let is_set : t.is_set s₃.stopped ≡ true =
        ap (λ (o : Outcome t q). t.is_set o.1.stopped) (sym drained)
        ∙ ap t.is_set same
        ∙ wait_stopped-is_set running s₁ s₂ waited in
      subst (λ (o : Outcome t q). CleanedUp o.1) e₃ (finalize-CleanedUp s₃ is_set empty)
