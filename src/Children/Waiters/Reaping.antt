-- ===== src/Children/Waiters/Reaping.antt =====
-- How a wait for a child process ends.
use trio_asyncio.Prelude.{
  ℕ, ◌<◌, ◌≡◌, refl, ap, ◌∙◌, Bool, true, false, none, some, List, [], ◌∷◌, ◌++◌, if◌then◌else◌,
  update, arith,
}
use trio_asyncio.Children.{Statuses, compute_returncode}
use trio_asyncio.Children.Waiters.{
  alive, ended, Kernel, Outcome, Registry, result, suspended, done, captured, handle_exitstatus,
  after_waitpid, wait_pid, start_waiting, wait, wait_resumed, notify, wait_thread, set_event,
  set_events, run_soon, returncode,
}

module _ (os : Kernel) (statuses : Statuses) where
  -- The state once the child is reaped with this status.
  abbrev pub reaped : (w pid sts : ℕ) (k : os.State) → Registry os → Registry os
  reaped w pid sts k s =
      handle_exitstatus os statuses sts w
        (record s { kernel = k; children = update s.children pid none })

  after_waitpid-some :
      (w v pid sts : ℕ) (s : Registry os) (k : os.State)
      → 0 < pid
      → s.children pid ≡ some v
      → after_waitpid os statuses (some (pid, sts)) w (record s { kernel = k })
        ≡ (done, reaped w pid sts k s)
  after_waitpid-some w v pid sts s k p e = ground (arith, p, e)

  pub wait_pid-ended :
      (blocking : Bool) (w v pid sts : ℕ) (s : Registry os)
      → (s.waiters w).pid ≡ some pid
      → 0 < pid
      → s.children pid ≡ some v
      → os.child s.kernel pid ≡ ended sts
      → wait_pid os statuses blocking w s
        ≡ (done, reaped w pid sts (os.waitpid pid blocking s.kernel).1 s)
  unfolding wait_pid
  wait_pid-ended blocking w v pid sts s e p registered at_end =
      let k = (os.waitpid pid blocking s.kernel).1 in
      let answer = (os.waitpid_ended pid sts blocking s.kernel at_end).0 in
      let rest = after_waitpid-some w v pid sts s k p registered in ground (arith, answer, rest)

  pub wait_pid-alive :
      (w pid : ℕ) (s : Registry os)
      → (s.waiters w).pid ≡ some pid
      → 0 < pid
      → os.child s.kernel pid ≡ alive
      → wait_pid os statuses false w s ≡ (done, s)
  unfolding wait_pid
  wait_pid-alive w pid s e p lives =
      let answer = os.waitpid_alive pid s.kernel lives in ground (arith, answer)

  pub wait-alive :
      (w pid : ℕ) (s : Registry os)
      → (s.waiters w).result ≡ none
      → (s.waiters w).pid ≡ some pid
      → 0 < pid
      → os.child s.kernel pid ≡ alive
      → wait os statuses w s
        ≡ (suspended, if (s.waiters w).thread then s else start_waiting os statuses w s)
  unfolding wait
  wait-alive w pid s pending e p lives =
      let checked = wait_pid-alive w pid s e p lives in ground (arith, checked)

  pub wait_known :
      (w : ℕ) (r : Outcome) (s : Registry os)
      → (s.waiters w).result ≡ some r
      → (wait os statuses w s ≡ (result r, s))
        × (wait_resumed os statuses w s ≡ result r)
        × (returncode os statuses w s ≡ some r)
  unfolding wait wait_resumed returncode
  wait_known w r s e = ground (arith, e)

  pub set_events-result :
      (ws : List ℕ) (w : ℕ) (s : Registry os)
      → (((set_events os statuses ws s).waiters w).result ≡ (s.waiters w).result)
        × ((set_events os statuses ws s).children ≡ s.children)
  set_events-result [] w s = (refl, refl)
  set_events-result (x ∷ xs) w s =
      let (same, others) = set_events-result xs w (set_event os statuses x s) in
      let kept : (update s.waiters x (record (s.waiters x) { event = some true }) w).result
          ≡ (s.waiters w).result =
        ground arith in
      (same ∙ kept, others)

  set_events-event :
      (ws : List ℕ) (w : ℕ) (s : Registry os)
      → ((set_events os statuses (ws ++ w ∷ []) s).waiters w).event ≡ some true
  set_events-event [] w s = ground arith
  set_events-event (x ∷ xs) w s = set_events-event xs w (set_event os statuses x s)

  -- A call of `wait` for a child that runs starts the thread, unless there is one, and does not return.
  -- When the child ends, whatever else has happened until then that left this waiter and the child's
  -- entry as they were, the thread's `waitpid` returns, the event is set, and the call returns
  -- the exit code of the status, or raises `UnknownStatus` for it. The child's entry is dropped, and
  -- later calls of `wait` and `returncode` give the same and change nothing.
  pub wait-wait_thread :
      (w v pid sts : ℕ) (s s' : Registry os)
      → (s.waiters w).result ≡ none
      → (s.waiters w).pid ≡ some pid
      → 0 < pid
      → os.child s.kernel pid ≡ alive
      → s'.waiters w ≡ (wait os statuses w s).1.waiters w
      → s'.children pid ≡ some v
      → os.child s'.kernel pid ≡ ended sts
      → let r = captured os statuses sts (compute_returncode statuses sts) in
        let s₁ = (wait os statuses w s).1 in
        let s₂ = run_soon os statuses (wait_thread os statuses w s') in
        ((wait os statuses w s).0 ≡ suspended)
        × ((s₂.waiters w).event ≡ some true)
        × (wait_resumed os statuses w s₂ ≡ result r)
        × (wait os statuses w s₂ ≡ (result r, s₂))
        × (returncode os statuses w s₂ ≡ some r)
        × (s₂.children pid ≡ none)
  unfolding wait_thread run_soon
  wait-wait_thread w v pid sts s s' pending e p lives same registered at_end =
      let r = captured os statuses sts (compute_returncode statuses sts) in
      let begun = wait-alive w pid s pending e p lives in
      let e' : (s'.waiters w).pid ≡ some pid = ground (arith, same, begun, e) in
      let k = (os.waitpid pid true s'.kernel).1 in
      let s₁ = reaped w pid sts k s' in
      let woken : wait_thread os statuses w s' ≡ notify os statuses done w s₁ =
        rw (wait_pid-ended true w v pid sts s' e' p registered at_end) refl in
      let s₂ = run_soon os statuses (notify os statuses done w s₁) in
      let (kept, entries) = set_events-result (s'.soon ++ w ∷ []) w (record s₁ { soon = [] }) in
      let found : (s₁.waiters w).result ≡ some r = ground arith in
      let dropped : s₁.children pid ≡ none = ground arith in
      let is_set = set_events-event s'.soon w (record s₁ { soon = [] }) in
      let (again, resumed, code) = wait_known w r s₂ (kept ∙ found) in
      rw woken
        (ap (λ x. x.0) begun, is_set, resumed, again, code, ap (λ f. f pid) entries ∙ dropped)
