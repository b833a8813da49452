-- ===== src/Sync/Running.antt =====
-- `run_until_complete` and `run_forever` in trio_asyncio/_sync.py. The main loop and one iteration of
-- it are parameters.
use trio_asyncio.Prelude.{ℕ, zero, suc, Bool, true, false, none, some, if◌then◌else◌}
use trio_asyncio.Exec.{runtime_error, would_block, trio_asyncio_exit, user_exit, unfinished}
use trio_asyncio.Trio.{Trio}
use trio_asyncio.Sync.{Outcome, value, cancelled, raises, Sync, Work, stop, run_in_greenlet}

module _ (t : Trio) (main_loop_exit : Sync t → Outcome × Sync t) where
  -- `is_done` in `_run_coroutine`.
  abbrev pub is_exit : Outcome → Bool
  is_exit (raises (user_exit x)) = true
  is_exit r = false

  unfoldable pub is_done : Outcome → Work t
  unfolding stop
  is_done r s =
      if is_exit r
      then (value 0, record s { result = some r })
      else stop t main_loop_exit (record s { result = some r })

  module _ (main_loop_one : Work t) where
    -- Its inner loop, for so many rounds.
    abbrev pub after_round : (again : Work t) → Outcome → Work t
    after_round again (value x) s = again s
    after_round again cancelled s = (cancelled, s)
    after_round again (raises trio_asyncio_exit) s = again s
    after_round again (raises would_block) s = (value 0, s)
    after_round again (raises e) s = (raises e, s)

    unfoldable pub finish_up : ℕ → Work t
    finish_up zero s = (raises unfinished, s)
    finish_up (suc n) s =
        let (r, s') = main_loop_one s in
        let again = after_round (finish_up n) r s' in
        elim s.result [ some _ ↦ (value 0, s) | none ↦ again ]

    -- Its end, once the callback is removed from the future.
    abbrev pub report : Outcome → Work t
    report (value x) s = elim s.result [ none ↦ (raises runtime_error, s) | some r ↦ (r, s) ]
    report cancelled s = (cancelled, s)
    report (raises e) s = (raises e, s)

    abbrev pub after_main_loop : ℕ → Outcome → Work t
    unfolding finish_up
    after_main_loop rounds (value x) s = finish_up rounds s
    after_main_loop rounds cancelled s = (cancelled, s)
    after_main_loop rounds (raises e) s = (raises e, s)

    -- `_run_coroutine`
    unfoldable pub run_coroutine : (main_loop : Work t) (rounds : ℕ) → Work t
    unfolding finish_up
    run_coroutine main_loop rounds s =
        let (r, s₁) = main_loop (record s { result = none; watched = true }) in
        let (r', s₂) = after_main_loop rounds r s₁ in report r' (record s₂ { watched = false })

    -- `run_until_complete`, and `run_forever`.
    unfoldable pub run_until_complete : (main_loop : Work t) (rounds : ℕ) → Work t
    unfolding run_in_greenlet run_coroutine
    run_until_complete main_loop rounds s =
        run_in_greenlet t main_loop_exit false (run_coroutine main_loop rounds) s

    unfoldable pub run_forever : (main_loop : Work t) → Work t
    unfolding run_in_greenlet
    run_forever main_loop s = run_in_greenlet t main_loop_exit false main_loop s
