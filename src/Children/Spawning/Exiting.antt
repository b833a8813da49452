-- ===== src/Children/Spawning/Exiting.antt =====
-- The task that waits for the process of a transport.
use trio_asyncio.Prelude.{ℕ, ◌<◌, ◌≡◌, ap, ◌∙◌, true, none, some, arith}
use trio_asyncio.Prelude.Int.{ℤ}
use trio_asyncio.Children.{Statuses, compute_returncode}
use trio_asyncio.Children.Waiters.{
  alive, ended, Kernel, Registry, result, suspended, value, captured, wait_thread, run_soon,
}
use trio_asyncio.Children.Exits.{called_with, waitpid, waitpid_resumed}
use trio_asyncio.Children.Exits.Calling.{waitpid-waitpid_resumed}
use trio_asyncio.Children.Spawning.{Transports, process_exited, child_wait, child_wait_resumed}

module _ (os : Kernel) (statuses : Statuses) where
  -- The task for the transport of a child that runs and has no waiter yet does not touch the
  -- transport. When the child ends with a known status, whatever else has happened until then that
  -- left the waiter and the child's entry as they were, the event of the waiter is set, and so the
  -- task goes on and calls `_process_exited` of this transport, and of no other, with the return code.
  pub child_wait-process_exited :
      (transp sts : ℕ) (code : ℤ) (s : Registry os × Transports) (reg : Registry os)
      (later : Transports)
      → let pid = (s.1.table transp).pid in
        s.0.children pid ≡ none
        → 0 < (s.1.table transp).pid
        → os.child s.0.kernel (s.1.table transp).pid ≡ alive
        → let w = s.0.next_waiter in
          reg.waiters w ≡ (child_wait os statuses transp s).1.waiters w
          → reg.children (s.1.table transp).pid ≡ some s.0.next_waiter
          → os.child reg.kernel (s.1.table transp).pid ≡ ended sts
          → compute_returncode statuses sts ≡ some code
          → let w = s.0.next_waiter in
            let ran = run_soon os statuses (wait_thread os statuses w reg) in
            let (q, end, out) = child_wait_resumed os statuses transp w (ran, later) in
            ((child_wait os statuses transp s).0 ≡ (w, suspended))
            × ((child_wait os statuses transp s).2 ≡ s.1)
            × ((ran.waiters w).event ≡ some true)
            × (q ≡ result (value code))
            × ((out.table transp).exited ≡ some code)
            × ((other : ℕ) → ¬ (other ≡ transp) → out.table other ≡ later.table other)
  unfolding child_wait child_wait_resumed waitpid waitpid_resumed process_exited
  child_wait-process_exited transp sts code s reg later fresh p lives same entry over known =
      let pid = (s.1.table transp).pid in
      let (reply, untouched, woken, resumed, out, _) =
        waitpid-waitpid_resumed os statuses pid sts (λ _. process_exited transp) s reg later fresh p
          lives same entry over in
      let answer = ap (λ c. result (captured os statuses sts c)) known in
      let called = ap (λ r. called_with os statuses r (process_exited transp) later) answer in
      (
        reply,
        untouched,
        woken,
        resumed ∙ answer,
        ap (λ (x : Transports). (x.table transp).exited) (out ∙ called) ∙ ground arith,
        λ other apart.
            ap (λ (x : Transports). x.table other) (out ∙ called) ∙ ground (arith, apart),
      )
