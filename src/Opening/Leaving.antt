-- ===== src/Opening/Leaving.antt =====
-- How `open_loop` is left.
use trio_asyncio.Prelude.{
  ℕ, ◌≡◌, refl, sym, ap, ◌∙◌, ◌⊎◌, inl, inr, true, false, Option, none, some, ◌++◌, append-nil,
  arith, if◌then◌else◌, Bool-cases, Option-cases,
}
use trio_asyncio.Exceptions.{error, cancelled, exit, trio_cancelled, Exc, leaf, group}
use trio_asyncio.Exceptions.Split.{leaves, part_leaves, Parts, split-Parts}
use trio_asyncio.Opening.{
  Operations, Session, on_loop, finally_raises, except_clauses, run_body, run_tasks, no_generators,
  start_shutdown, forwards, await_asyncgens, warn_about, leave, shut_down, opened, open_loop,
}

module _ {S : Type 0} (ops : Operations S) where
  -- The exceptions of the body: exactly the `trio.Cancelled` in what it raises are kept back to be
  -- raised outside of the shielded nursery, and exactly the others leave the body at once, in
  -- their order; none is lost. The task that forwards a cancellation is stopped in each case.
  pub run_body-Parts :
      (s : Session S) (e : Exc)
      → (ops.body s.loop).0 ≡ some e
      → s.forwarded_cancellation ≡ none
      → let (r, s') = run_body ops s in
        Parts trio_cancelled (leaves e) (part_leaves s'.forwarded_cancellation) (part_leaves r)
        × (s'.listening ≡ false)
  unfolding run_body
  run_body-Parts s (leaf cancelled n tb) e f = ground (arith, e, f)
  run_body-Parts s (leaf error n tb) e f = ground (arith, e, f)
  run_body-Parts s (leaf exit n tb) e f = ground (arith, e, f)
  run_body-Parts s (group c tb es) e f =
      let parts = split-Parts trio_cancelled (group c tb es) in ground (arith, e, f, parts)

  -- `loop.close()` on the state after `_main_loop_exit`, and the current loop after that.
  abbrev pub ClosedAt : S → Option ℕ → Session S → Type 0
  ClosedAt y old s =
      let x = (ops.main_loop_exit y).1 in
      (s.loop ≡ (ops.close x).1)
      × (((ops.close x).0 ≡ none) × (s.current_loop ≡ old)
          ⊎ ((e : Exc) × ((ops.close x).0 ≡ some e)))

  -- What becomes of the generators that are left: there are none; or the task that finalizes them
  -- sets the event and ends, or never does; or the loop has stopped, and there is a warning.
  abbrev pub finalizer : S → Option (Option Exc × S)
  finalizer x =
      if no_generators ops (ops.asyncgens x)
      then some (none, x)
      else if ops.is_running x
      then ops.shutdown_asyncgens x
      else some (none, (ops.warn x).1)

  ClosedAt-leave :
      (old : Option ℕ) (r : Option Exc) (s : Session S)
      → let s' = (leave ops old r s).1 in ClosedAt s.loop old s' × (s'.raised ≡ s.raised)
  ClosedAt-leave old r s = ground arith

  -- How the `finally` ends, with the exceptions that were raised before it.
  abbrev Finalized : Option ℕ → Session S → Option (Option Exc × Session S) → Type 0
  Finalized old s o =
      (finalizer s.loop ≡ none) × (o ≡ none)
      ⊎ ((e : Option Exc) × (y : S) × (r : Option Exc) × (s' : Session S) × (finalizer s.loop
            ≡ some (e, y))
          × (o ≡ some (r, s'))
          × ClosedAt y old s'
          × (s'.raised ≡ (s.raised ++ forwards ops s.forwarded_cancellation) ++ forwards ops e))

  ends_with :
      (old : Option ℕ) (s s₄ : Session S) (r₁ e : Option Exc) (o : Option (Option Exc × Session S))
      → finalizer s.loop ≡ some (e, s₄.loop)
      → s₄.raised ≡ (s.raised ++ forwards ops s.forwarded_cancellation) ++ forwards ops e
      → o ≡ some (leave ops old r₁ s₄)
      → Finalized old s o
  ends_with old s s₄ r₁ e o done raised same =
      let (r, s') = leave ops old r₁ s₄ in
      let (closed, kept) = ClosedAt-leave old r₁ s₄ in
      inr (e, s₄.loop, r, s', done, same, closed, kept ∙ raised)

  -- The `finally` after the branches on the generators.
  abbrev rest : Option ℕ → Session S → Option (Option Exc × Session S)
  rest old s₁ =
      let s₂ = record s₁ { raised = s₁.raised ++ forwards ops s₁.forwarded_cancellation } in
      let (r, s₃) = warn_about ops s₂ in
      elim (await_asyncgens ops s₃) [ none ↦ none | some s₄ ↦ some (leave ops old r s₄) ]

  shut_down-rest :
      (old : Option ℕ) (s s₁ : Session S)
      → start_shutdown ops s ≡ s₁
      → shut_down ops old s ≡ rest old s₁
  unfolding shut_down
  shut_down-rest old s s₁ e = ap (rest old) e

  shut_down-Finalized : (old : Option ℕ) (s : Session S) → Finalized old s (shut_down ops old s)
  unfolding start_shutdown
  shut_down-Finalized old s =
      let kept_back = s.raised ++ forwards ops s.forwarded_cancellation in
      let idle : Session S = record s { asyncgens_done = true; should_warn = false } in
      let waiting : Session S = record s { asyncgens_done = false; should_warn = false } in
      let warning : Session S = record s { asyncgens_done = true; should_warn = true } in
      elim (Bool-cases (no_generators ops (ops.asyncgens s.loop))) [
        | inl empty ↦
            ends_with old s (record idle { raised = kept_back }) none none (shut_down ops old s)
              (rw empty refl) (sym (append-nil kept_back))
              (shut_down-rest old s idle (rw empty refl))
        | inr left ↦ elim (Bool-cases (ops.is_running s.loop)) [
          | inr stopped ↦
              let (r, x) = ops.warn s.loop in
              ends_with old s (record warning { loop = x; raised = kept_back }) r none
                (shut_down ops old s) (rw (left, stopped) refl) (sym (append-nil kept_back))
                (shut_down-rest old s warning (rw (left, stopped) refl))
          | inl runs ↦
              let waits = shut_down-rest old s waiting (rw (left, runs) refl) in
              elim (Option-cases (ops.shutdown_asyncgens s.loop)) [
                | inl never ↦ inl (rw (left, runs) never, waits ∙ rw never refl)
                | inr ((e, x), done) ↦
                    let finalized : Session S = record idle {
                      loop = x;
                      raised = kept_back ++ forwards ops e;
                    } in
                    ends_with old s finalized none e (shut_down ops old s) (rw (left, runs) done)
                      refl (waits ∙ rw done refl)
              ]
        ]
      ]

  except_clauses-raised :
      (r : Option Exc) (s : Session S) → (except_clauses r s).1.raised ≡ s.raised
  except_clauses-raised none s = refl
  except_clauses-raised (some (leaf cancelled n tb)) s = refl
  except_clauses-raised (some (leaf error n tb)) s = refl
  except_clauses-raised (some (leaf exit n tb)) s = refl
  except_clauses-raised (some (group c tb es)) s = refl

  run_body-raised : (s : Session S) → (run_body ops s).1.raised ≡ s.raised
  unfolding run_body
  run_body-raised s =
      let (r, s₁) = on_loop ops.body (record s { listening = true }) in except_clauses-raised r s₁

  run_tasks-raised : (s : Session S) → (run_tasks ops s).1.raised ≡ s.raised
  unfolding run_tasks
  run_tasks-raised s =
      let (r₁, x₁) = ops.main_loop_init s.loop in
      let (r₂, x₂) = ops.start_main_loop x₁ in
      let s₂ = record s { loop = x₂ } in let same = run_body-raised s₂ in ground (arith, same)

  -- However the parts of `open_loop` end, but for the task that finalizes the generators that are left:
  -- if that never sets `asyncgens_done`, `open_loop` does not end. Else `_main_loop_exit` is called and
  -- then `close`, as the last of the loop's methods, and if `close` returns, the loop that was current
  -- before is so again. A cancellation that was kept back is raised in a task of the outer nursery;
  -- besides it only the task that finalizes the generators and the main loop raise there what they
  -- raise. This nursery is left at the end, with all of that.
  pub open_loop-ClosedAt :
      (x : S) (old : Option ℕ)
      → let (r, s) = run_tasks ops (opened ops x old) in
        (finalizer s.loop ≡ none) × (open_loop ops x old ≡ none)
        ⊎ ((e : Option Exc) × (y : S) × (r' : Option Exc) × (s' : Session S) × (finalizer s.loop
              ≡ some (e, y))
            × (shut_down ops old s ≡ some (r', s'))
            × ClosedAt y old s'
            × (s'.raised ≡ forwards ops s.forwarded_cancellation ++ forwards ops e)
            × (open_loop ops x old
                ≡ some (
                    on_loop
                      (ops.exit_loop
                        (finally_raises r r')
                        (s'.raised ++ ops.main_loop_raised s'.loop))
                      s')))
  unfolding open_loop
  open_loop-ClosedAt x old =
      let s₀ = opened ops x old in
      let (r, s) = run_tasks ops s₀ in
      let start = ap (λ l. l ++ forwards ops s.forwarded_cancellation) (run_tasks-raised s₀) in
      elim (shut_down-Finalized old s) [
        | inl (never, e) ↦ inl (never, ground (arith, e))
        | inr (e, y, r', s', done, same, closed, raised) ↦ inr (
          e,
          y,
          r',
          s',
          done,
          same,
          closed,
          raised ∙ ap (λ l. l ++ forwards ops e) start,
          rw (same, open_loop) refl,
        )
      ]
