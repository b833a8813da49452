-- ===== src/Handles/Settling.antt =====
-- How `AsyncHandle._run` ends: what the result future, the exception handler and the task's caller
-- get.
use trio_asyncio.Prelude.{
  ℕ, ◌≡◌, refl, ◌⊎◌, inl, inr, sym, ap, ◌∙◌, append-nil, ◌∷◌, append_assoc, Bool, true, Option,
  none, some, List, [], ◌++◌, arith, keep,
}
use trio_asyncio.Exceptions.{Kind, exception, trio_cancelled, Exc, collapse_aware_exception_split}
use trio_asyncio.Exceptions.Split.{leaves, part_leaves, matches, misses}
use trio_asyncio.Exceptions.Collapse.{collapse_aware_split_partitions}
use trio_asyncio.Handles.{
  Future, pending, cancelled, finished, failed, Result, ok, raise, AsyncHandle, BlockExit, returned,
  caught, raised, raise_part, report, wrapped_cancel, pass_on, except_clause, run_finish,
}

abbrev pub raised_leaves : Result Unit → List (Kind × ℕ)
raised_leaves (ok _) = []
raised_leaves (raise e) = leaves e

abbrev pub reported_leaves : List Exc → List (Kind × ℕ)
reported_leaves [] = []
reported_leaves (e ∷ es) = leaves e ++ reported_leaves es

-- The future of a task that ended with `e`: it fails with what is no `trio.Cancelled`, or is
-- cancelled if `e` holds nothing else.
abbrev pub Fails : Exc → Option ℕ → Option Future → Type 0
Fails e m fut =
    (fut ≡ some (cancelled m)) × (keep (misses trio_cancelled) (leaves e) ≡ [])
    ⊎ ((rest : Exc) × (fut ≡ some (failed rest))
        × (leaves rest ≡ keep (misses trio_cancelled) (leaves e)))

abbrev pub Settles : BlockExit → Option ℕ → Result Unit → Option Future → Type 0
Settles (returned v) m r fut = (r ≡ ok tt) × (fut ≡ some (finished v))
Settles caught m r fut = (r ≡ ok tt) × (fut ≡ some (cancelled m))
Settles (raised e) m r fut =
    (raised_leaves r ≡ keep (matches trio_cancelled) (leaves e)) × Fails e m fut

reported_leaves-append :
    (xs ys : List Exc) → reported_leaves (xs ++ ys) ≡ reported_leaves xs ++ reported_leaves ys
reported_leaves-append [] ys = refl
reported_leaves-append (x ∷ xs) ys =
    ap (λ l. leaves x ++ l) (reported_leaves-append xs ys) ∙ sym (append_assoc (leaves x) _ _)

-- The exceptions that come out of the block.
abbrev pub exit_leaves : BlockExit → List (Kind × ℕ)
exit_leaves (returned v) = []
exit_leaves caught = []
exit_leaves (raised e) = leaves e

module _ (derive_mark : Bool → Bool) where
  raise_part-leaves : (o : Option Exc) → raised_leaves (raise_part o) ≡ part_leaves o
  raise_part-leaves none = refl
  raise_part-leaves (some e) = refl

  pass_on-Fails :
      (e : Exc) (h : AsyncHandle) (cancel_part rest : Option Exc)
      → h.run_finished ≡ true
      → part_leaves rest ≡ keep (misses trio_cancelled) (leaves e)
      → Fails e h.cancel_message (pass_on derive_mark rest cancel_part pending h).1.fut
  unfolding wrapped_cancel
  pass_on-Fails e h c none done q = inl (ground arith, ground arith)
  pass_on-Fails e h c (some rest) done q = inr (rest, refl, q)

  pass_on-raised :
      (h : AsyncHandle) (cancel_part rest : Option Exc)
      → raised_leaves (pass_on derive_mark rest cancel_part pending h).0 ≡ part_leaves cancel_part
  pass_on-raised h c none = raise_part-leaves c
  pass_on-raised h c (some rest) = raise_part-leaves c

  except_clause-Settles :
      (e : Exc) (h : AsyncHandle)
      → h.run_finished ≡ true
      → let (r, h') = except_clause derive_mark (some pending) e h in
        Settles (raised e) h.cancel_message r h'.fut
  unfolding except_clause
  except_clause-Settles e h done =
      let parts = collapse_aware_split_partitions derive_mark trio_cancelled e in
      let s = collapse_aware_exception_split derive_mark trio_cancelled e in
      (pass_on-raised h s.0 s.1 ∙ parts.0, pass_on-Fails e h s.0 s.1 done parts.1)

  -- A future that is pending when the task ends is done afterwards. If the callback returned, it
  -- has the callback's result; if the scope caught its own cancellation, it is cancelled with the
  -- message of the last cancel call; if an exception came out, it fails with the exceptions in it
  -- that are no `trio.Cancelled`, or is cancelled if there are none, and exactly the
  -- `trio.Cancelled` in it are raised out of the task.
  pub run_finish-Settles :
      (exit : BlockExit) (h : AsyncHandle)
      → h.fut ≡ some pending
      → let (r, h') = run_finish derive_mark exit h in Settles exit h.cancel_message r h'.fut
  unfolding run_finish
  run_finish-Settles (returned v) h e = ground arith
  run_finish-Settles caught h e = ground arith
  run_finish-Settles (raised exc) h e =
      rw (e, run_finish)
        (except_clause-Settles exc (record h { fut = some pending; run_finished = true }) refl)

  report-fut : (o : Option Exc) (h : AsyncHandle) → (report o h).fut ≡ h.fut
  report-fut none h = refl
  report-fut (some e) h = refl

  reported_leaves-report :
      (o : Option Exc) (h : AsyncHandle)
      → reported_leaves (report o h).reported ≡ reported_leaves h.reported ++ part_leaves o
  reported_leaves-report none h = sym (append-nil _)
  reported_leaves-report (some e) h =
      reported_leaves-append h.reported (e ∷ [])
      ∙ ap (λ l. reported_leaves h.reported ++ l) (append-nil _)

  -- A task that has no result future hands the `Exception`s that come out of it to the loop's
  -- exception handler and raises the others; none is lost. Without an exception it does neither.
  pub run_finish_unlinked :
      (exit : BlockExit) (h : AsyncHandle)
      → h.fut ≡ none
      → let (r, h') = run_finish derive_mark exit h in
        let all = exit_leaves exit in
        (raised_leaves r ≡ keep (misses exception) all)
        × (reported_leaves h'.reported ≡ reported_leaves h.reported ++ keep (matches exception) all)
        × (h'.fut ≡ none)
  unfolding run_finish
  run_finish_unlinked (returned v) h e = rw (e, run_finish) (refl, sym (append-nil _), refl)
  run_finish_unlinked caught h e = rw (e, run_finish) (refl, sym (append-nil _), refl)
  run_finish_unlinked (raised exc) h e =
      let s = collapse_aware_exception_split derive_mark exception exc in
      let parts = collapse_aware_split_partitions derive_mark exception exc in
      let g = record h { fut = none; run_finished = true } in
      rw (e, run_finish)
        (
          raise_part-leaves s.1 ∙ parts.1,
          reported_leaves-report s.0 g ∙ ap (λ l. reported_leaves h.reported ++ l) parts.0,
          report-fut s.0 g,
        )
