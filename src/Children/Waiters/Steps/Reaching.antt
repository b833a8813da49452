-- ===== src/Children/Waiters/Steps/Reaching.antt =====
-- What is true of process waiters after any steps.
use trio_asyncio.Prelude.{
  ℕ, ◌<◌, suc, ◌≡◌, refl, ◌⊎◌, inl, inr, Bool, true, false, Option, none, some, [], update, arith,
  option_ind,
}
use trio_asyncio.Children.{Statuses}
use trio_asyncio.Children.Waiters.{
  Kernel, Outcome, Registry, result, attribute_error, Check, blank, wait_resumed, returncode,
  allocate, new, init, set_pid, process_waiter,
}
use trio_asyncio.Children.Waiters.Steps.{
  consistent, Held, Step, Reach, known-update, Held-update, Held-children, Held-kernel, here, next,
  creates, waits, returns, wakes, lives,
}
use trio_asyncio.Children.Waiters.Steps.Waiting.{wait-Held, wait_thread-Held, run_soon-Held}

module _ (os : Kernel) (statuses : Statuses) where
  allocate-Held :
      (s : Registry os) → Held os statuses s → Held os statuses (allocate os statuses s).1
  allocate-Held s h =
      let unused = h.fresh 0 in
      let empty : s.waiters s.next_waiter ≡ blank = ground (arith, unused) in
      record {
        sounds = λ v. let old = h.sounds v in ground (arith, old);
        fresh = λ n. let old = h.fresh (suc n) in ground (arith, old);
        registered = λ p. let old = h.registered p in ground (arith, old);
        known =
            known-update os statuses s.waiters s.next_waiter blank s.soon (ground (arith, empty))
              h.known;
      }

  set_pid-Held :
      (pid : Option ℕ) (handle : Bool) (w : ℕ) (s : Registry os)
      → Held os statuses s
      → w < s.next_waiter
      → Held os statuses (set_pid os statuses pid handle w s).1
  unfolding set_pid
  set_pid-Held none handle w s h b =
      option_ind (λ (r : Check × Registry os). Held os statuses r.1) (s.waiters w).pid _ _ (λ _. h)
        (λ _ _. h)
  set_pid-Held (some p) handle w s h b =
      let x = record (s.waiters w) { pid = some p } in
      let named = Held-update os statuses s w x h b (h.sounds w) (ground arith) in
      option_ind (λ (r : Check × Registry os). Held os statuses r.1) (s.waiters w).pid _ _
        (λ _.
          Held-children os statuses (record s { waiters = update s.waiters w x }) p (some w) named
            (ground (arith, b)))
        (λ _ _. h)

  init-Held :
      (pid : Option ℕ) (handle : Bool) (w : ℕ) (s : Registry os)
      → Held os statuses s
      → w < s.next_waiter
      → Held os statuses (init os statuses pid handle w s).1
  unfolding init
  init-Held pid handle w s h b =
      option_ind (λ (r : Check × Registry os). Held os statuses r.1) (s.waiters w).pid _ _
        (λ _. set_pid-Held pid handle w s h b) (λ _ _. h)

  new-Held :
      (pid : Option ℕ) (s : Registry os)
      → Held os statuses s
      → let (w, s') = new os statuses pid s in Held os statuses s' × (w < s'.next_waiter)
  new-Held none s h = (allocate-Held s h, omega arith)
  new-Held (some pid) s h =
      option_ind (λ (r : ℕ × Registry os). Held os statuses r.1 × (r.0 < r.1.next_waiter))
        (s.children pid) _ _ (λ _. (allocate-Held s h, omega arith))
        (λ w e. let old = h.registered pid in (h, ground (arith, e, old)))

  Step-Held :
      {s s' : Registry os} → Held os statuses s → Step os statuses s s' → Held os statuses s'
  unfolding process_waiter
  Step-Held {s} h (creates pid handle) =
      let (w, s₁) = new os statuses pid s in
      let (h₁, b) = new-Held pid s h in init-Held pid handle w s₁ h₁ b
  Step-Held {s} h (waits w b) = wait-Held os statuses w s h b
  Step-Held {s} h (returns w b e o) = wait_thread-Held os statuses w s h b o
  Step-Held {s} h wakes = run_soon-Held os statuses s h
  Step-Held {s} h (lives k) = Held-kernel os statuses s k h

  Reach-Held :
      {s s' : Registry os} → Held os statuses s → Reach os statuses s s' → Held os statuses s'
  Reach-Held h here = h
  Reach-Held h (next r st) = Step-Held (Reach-Held h r) st

-- No waiter yet.
unfoldable pub new_registry : (os : Kernel) → os.State → Registry os
new_registry os k = record {
  children = λ pid. none;
  waiters = λ w. blank;
  next_waiter = 0;
  soon = [];
  kernel = k;
}

by_parts :
    (e : Option Bool) (o : Option Outcome) (thread : Bool)
    → consistent e o thread ≡ true
    → (e ≡ some true)
        × ((r : Outcome) × ((elim o [ none ↦ attribute_error | some x ↦ result x ]) ≡ result r)
            × (o ≡ some r))
      ⊎ (e ≡ some false)
      ⊎ ((e ≡ none) × (thread ≡ false))
by_parts none o thread c = inr (inr (refl, ground (arith, c)))
by_parts (some false) o thread c = inr (inl refl)
by_parts (some true) none thread c = absurd (cc c)
by_parts (some true) (some r) thread c = inl (refl, (r, refl, refl))

-- Whatever happened since there was no waiter, in any order: once a waiter's event is set its result
-- is there, so that a call of `wait` that is woken ends with it, and is never the `AttributeError` of a
-- missing one; and a waiter with a thread has the event that its callers wait for.
pub Reach-wait_resumed :
    (os : Kernel) (statuses : Statuses) (k : os.State) (s : Registry os) (w : ℕ)
    → Reach os statuses (new_registry os k) s
    → ((s.waiters w).event ≡ some true)
        × ((r : Outcome) × (wait_resumed os statuses w s ≡ result r)
            × (returncode os statuses w s ≡ some r))
      ⊎ ((s.waiters w).event ≡ some false)
      ⊎ (((s.waiters w).event ≡ none) × ((s.waiters w).thread ≡ false))
unfolding new_registry wait_resumed returncode
Reach-wait_resumed os statuses k s w path =
    let start : Held os statuses (new_registry os k) = record {
      sounds = λ v. refl;
      fresh = λ n. refl;
      registered = λ p. refl;
      known = tt;
    } in
    let h = Reach-Held os statuses start path in
    by_parts (s.waiters w).event (s.waiters w).result (s.waiters w).thread (h.sounds w)
