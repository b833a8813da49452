-- ===== src/Children/Exits/Calling.antt =====
-- The callback for a child process is called once, with the return code.
use trio_asyncio.Prelude.{ℕ, suc, true, ◌<◌, ◌≡◌, refl, ap, ◌∙◌, false, none, some, update, arith}
use trio_asyncio.Prelude.Int.{ℤ}
use trio_asyncio.Children.{Statuses, compute_returncode}
use trio_asyncio.Children.Waiters.{
  Child, gone, alive, ended, Kernel, child_process_error, Registry, Reply, result, suspended,
  ProcessWaiter, captured, wait, wait_thread, run_soon, wait_for_child, process_waiter, init,
  set_pid,
}
use trio_asyncio.Children.Waiters.Reaping.{wait_pid-ended, wait_pid-alive, wait-wait_thread}
use trio_asyncio.Children.Waiters.Losing.{wait_pid-gone}
use trio_asyncio.Children.Exits.{called_with, waitpid, waitpid_resumed}

module _ (os : Kernel) (statuses : Statuses) where
  abbrev pub watching : ℕ → ProcessWaiter
  watching pid = record { pid = some pid; event = none; result = none; thread = false }

  -- The waiters once there is one for this number, which had none.
  abbrev pub registered : ℕ → Registry os → Registry os
  registered pid s = record s {
    children = update s.children pid (some s.next_waiter);
    waiters =
        update
          (update s.waiters s.next_waiter
            (record { pid = none; event = none; result = none; thread = false }))
          s.next_waiter (watching pid);
    next_waiter = suc s.next_waiter;
  }

  wait_for_child-registered :
      (pid : ℕ) (s : Registry os)
      → s.children pid ≡ none
      → let w = s.next_waiter in
        let s₁ = registered pid s in
        wait_for_child os statuses pid s
        ≡ ((w, (wait os statuses w s₁).0), (wait os statuses w s₁).1)
  unfolding wait_for_child process_waiter init set_pid
  wait_for_child-registered pid s e = ground (arith, e)

  -- What the first check of the child says.
  abbrev pub first_reply : Child → Reply
  first_reply gone = result child_process_error
  first_reply alive = suspended
  first_reply (ended sts) = result (captured os statuses sts (compute_returncode statuses sts))

  wait-first :
      (pid : ℕ) (s : Registry os) (c : Child)
      → 0 < pid
      → os.child s.kernel pid ≡ c
      → (wait os statuses s.next_waiter (registered pid s)).0 ≡ first_reply c
  unfolding wait
  wait-first pid s gone p e =
      let w = s.next_waiter in
      let s₁ = registered pid s in
      ground (arith, wait_pid-gone os statuses false w pid s₁ (ground arith) p e)
  wait-first pid s alive p e =
      let w = s.next_waiter in
      let s₁ = registered pid s in
      ground (arith, wait_pid-alive os statuses w pid s₁ (ground arith) p e)
  wait-first pid s (ended sts) p e =
      let w = s.next_waiter in
      let s₁ = registered pid s in
      ground
        (arith, wait_pid-ended os statuses false w w pid sts s₁ (ground arith) p (ground arith) e)

  -- `_waitpid` for a process that has no waiter yet: the callback is called at once if the child has
  -- ended, with its return code; not yet if it runs; and never if it is no child, or its
  -- status is none that is known: then the error leaves the coroutine.
  pub waitpid-first :
      {S : Type 0} (pid : ℕ) (callback : ℕ → ℤ → S → S) (s : Registry os × S) (c : Child)
      → s.0.children pid ≡ none
      → 0 < pid
      → os.child s.0.kernel pid ≡ c
      → let (r, _, out) = waitpid os statuses pid callback s in
        (r ≡ (s.0.next_waiter, first_reply c))
        × (out ≡ called_with os statuses (first_reply c) (callback pid) s.1)
  unfolding waitpid
  waitpid-first pid callback s c fresh p e =
      let begun = wait_for_child-registered pid s.0 fresh in
      let first = wait-first pid s.0 c p e in
      let reply : (wait_for_child os statuses pid s.0).0 ≡ (s.0.next_waiter, first_reply c) =
        ground (arith, begun, first) in
      (reply, ap (λ r. called_with os statuses r.1 (callback pid) s.1) reply)

  -- `_waitpid` for a child that runs and has no waiter yet does not call its callback. When the child
  -- ends, whatever else has happened until then that left the waiter and the child's entry as
  -- they were, the event of the waiter is set, so the coroutine goes on, and calls it with the number of the process and the return code,
  -- or does not, and raises, if the status is none that is known.
  pub waitpid-waitpid_resumed :
      {S : Type 0} (pid sts : ℕ) (callback : ℕ → ℤ → S → S) (s : Registry os × S)
      (reg : Registry os) (later : S)
      → s.0.children pid ≡ none
      → 0 < pid
      → os.child s.0.kernel pid ≡ alive
      → let w = s.0.next_waiter in
        reg.waiters w ≡ (waitpid os statuses pid callback s).1.waiters w
        → reg.children pid ≡ some s.0.next_waiter
        → os.child reg.kernel pid ≡ ended sts
        → let w = s.0.next_waiter in
          let r = result (captured os statuses sts (compute_returncode statuses sts)) in
          let ran = run_soon os statuses (wait_thread os statuses w reg) in
          let (q, end, out) = waitpid_resumed os statuses pid w callback (ran, later) in
          ((waitpid os statuses pid callback s).0 ≡ (w, suspended))
          × ((waitpid os statuses pid callback s).2 ≡ s.1)
          × ((ran.waiters w).event ≡ some true)
          × (q ≡ r)
          × (out ≡ called_with os statuses r (callback pid) later)
          × (end.children pid ≡ none)
  unfolding waitpid waitpid_resumed
  waitpid-waitpid_resumed pid sts callback s reg later fresh p lives same entry over =
      let w = s.0.next_waiter in
      let (reply, untouched) = waitpid-first pid callback s alive fresh p lives in
      let begun = wait_for_child-registered pid s.0 fresh in
      let same' : reg.waiters w ≡ (wait os statuses w (registered pid s.0)).1.waiters w =
        same ∙ ap (λ x. x.1.waiters w) begun in
      let (_, woken, resumed, _, _, dropped) =
        wait-wait_thread os statuses w w pid sts (registered pid s.0) reg (ground arith)
          (ground arith) p lives same' entry over in
      let r = result (captured os statuses sts (compute_returncode statuses sts)) in
      let ran = run_soon os statuses (wait_thread os statuses w reg) in
      let goes_on : waitpid_resumed os statuses pid w callback (ran, later)
          ≡ (r, ran, called_with os statuses r (callback pid) later) =
        rw (woken, resumed) refl in
      (
        reply,
        untouched,
        woken,
        ap (λ x. x.0) goes_on,
        ap (λ x. x.2) goes_on,
        ap (λ x. x.1.children pid) goes_on ∙ dropped,
      )
