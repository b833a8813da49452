-- ===== src/Children/Waiters/Losing.antt =====
-- Waits for a child whose status somebody else has taken.
use trio_asyncio.Prelude.{
  ℕ, ◌<◌, ◌≡◌, refl, ap, ◌∙◌, Bool, true, false, none, some, [], ◌∷◌, ◌++◌, arith,
}
use trio_asyncio.Children.{Statuses, compute_returncode}
use trio_asyncio.Children.Waiters.{
  gone, alive, ended, Kernel, child_process_error, Registry, result, done, store_result, captured,
  wait_pid, wait, wait_resumed, notify, wait_thread, run_soon, returncode, wait_for_child,
  process_waiter, init,
}
use trio_asyncio.Children.Waiters.Reaping.{reaped, wait_pid-ended, wait_known, set_events-result}

module _ (os : Kernel) (statuses : Statuses) where
  pub wait_pid-gone :
      (blocking : Bool) (w pid : ℕ) (s : Registry os)
      → (s.waiters w).pid ≡ some pid
      → 0 < pid
      → os.child s.kernel pid ≡ gone
      → wait_pid os statuses blocking w s ≡ (done, store_result os statuses w child_process_error s)
  unfolding wait_pid
  wait_pid-gone blocking w pid s e p lost =
      let answer = os.waitpid_gone pid blocking s.kernel lost in ground (arith, answer)

  -- A thread waits for a child that has ended, and a second call of `wait` takes its status first. That
  -- call returns the exit code, or raises `UnknownStatus`; but the thread then puts a `ChildProcessError`
  -- in the place of the result, which the first call raises and `returncode` raises from then on.
  pub wait_thread-lost :
      (w v pid sts : ℕ) (s : Registry os)
      → (s.waiters w).result ≡ none
      → (s.waiters w).pid ≡ some pid
      → 0 < pid
      → s.children pid ≡ some v
      → os.child s.kernel pid ≡ ended sts
      → let (r, s₁) = wait os statuses w s in
        let s₂ = run_soon os statuses (wait_thread os statuses w s₁) in
        (r ≡ result (captured os statuses sts (compute_returncode statuses sts)))
        × (wait_resumed os statuses w s₂ ≡ result child_process_error)
        × (returncode os statuses w s₂ ≡ some child_process_error)
  unfolding wait wait_thread run_soon
  wait_thread-lost w v pid sts s pending e p registered at_end =
      let k = (os.waitpid pid false s.kernel).1 in
      let s₁ = reaped os statuses w pid sts k s in
      let r = captured os statuses sts (compute_returncode statuses sts) in
      let first = wait_pid-ended os statuses false w v pid sts s e p registered at_end in
      let begun : wait os statuses w s ≡ (result r, s₁) = ground (arith, first) in
      let e' : (s₁.waiters w).pid ≡ some pid = ground (arith, e) in
      let lost = (os.waitpid_ended pid sts false s.kernel at_end).1 in
      let s₂ = store_result os statuses w child_process_error s₁ in
      let woken : wait_thread os statuses w s₁ ≡ notify os statuses done w s₂ =
        rw (wait_pid-gone true w pid s₁ e' p lost) refl in
      let s₃ = run_soon os statuses (notify os statuses done w s₂) in
      let kept =
        (set_events-result os statuses (s₂.soon ++ w ∷ []) w (record s₂ { soon = [] })).0 in
      let found : (s₂.waiters w).result ≡ some child_process_error = ground arith in
      let (_, resumed, code) = wait_known os statuses w child_process_error s₃ (kept ∙ found) in
      rw (begun, woken) (refl, resumed, code)

  -- When the status of a waiter's child was taken elsewhere, `wait` raises `ChildProcessError` and the
  -- waiter stays registered. As long as it does, `wait_for_child` for that number raises this same
  -- error at once, even while a new child that has the number runs.
  wait-wait_for_child :
      (w pid : ℕ) (s s' : Registry os)
      → (s.waiters w).result ≡ none
      → (s.waiters w).pid ≡ some pid
      → 0 < pid
      → s.children pid ≡ some w
      → os.child s.kernel pid ≡ gone
      → s'.waiters w ≡ (wait os statuses w s).1.waiters w
      → s'.children pid ≡ (wait os statuses w s).1.children pid
      → os.child s'.kernel pid ≡ alive
      → ((wait os statuses w s).0 ≡ result child_process_error)
        × ((wait os statuses w s).1.children pid ≡ some w)
        × (wait_for_child os statuses pid s' ≡ ((w, result child_process_error), s'))
  unfolding wait wait_for_child process_waiter init
  wait-wait_for_child w pid s s' pending e p registered lost same entry lives =
      let checked = wait_pid-gone false w pid s e p lost in
      let s₁ = store_result os statuses w child_process_error s in
      let begun : wait os statuses w s ≡ (result child_process_error, s₁) =
        ground (arith, checked) in
      let found : (s'.waiters w).result ≡ some child_process_error = ground (arith, begun, same) in
      let numbered : (s'.waiters w).pid ≡ some pid = ground (arith, begun, same, e) in
      let entry' : s'.children pid ≡ some w = ground (arith, begun, entry, registered) in
      let known = (wait_known os statuses w child_process_error s' found).0 in
      (
        ap (λ x. x.0) begun,
        ap (λ x. x.1.children pid) begun ∙ registered,
        ground (arith, entry', numbered, known),
      )
