-- ===== src/Children/Waiters/Steps/Waiting.antt =====
-- What calls of `wait` and the waiting threads keep.
use trio_asyncio.Prelude.{
  ℕ, ◌<◌, ◌+◌, ◌-◌, ◌≡◌, refl, sym, subst, not, ◌||◌, Bool, true, false, Option, none, some, List,
  [], ◌∷◌, ◌++◌, ◌==◌, update, ltb, arith, option_ind, if_ind,
}
use trio_asyncio.Children.{Statuses, compute_returncode}
use trio_asyncio.Children.Waiters.{
  Child, gone, alive, ended, Kernel, child_process_error, ProcessWaiter, Registry, Reply, Check,
  done, fails, blank, captured, after_waitpid, wait_pid, start_waiting, after_check, wait, notify,
  wait_thread, set_event, set_events, run_soon,
}
use trio_asyncio.Children.Waiters.Steps.{
  has_result, over, Held, AllKnown, thread_waits_for, known-update, Held-update, Held-children,
  Held-kernel, Held-store_result,
}

module _ (os : Kernel) (statuses : Statuses) where
  -- The invariant after a step that makes no waiter.
  abbrev Kept : Registry os → Registry os → Type 0
  Kept s s' = Held os statuses s' × (s'.next_waiter ≡ s.next_waiter)

  after_waitpid-Kept :
      (answer : Option (ℕ × ℕ)) (w : ℕ) (s : Registry os)
      → Held os statuses s
      → w < s.next_waiter
      → Kept s (after_waitpid os statuses answer w s).1
  after_waitpid-Kept none w s h b =
      (Held-store_result os statuses s w child_process_error h b, refl)
  after_waitpid-Kept (some answer) w s h b =
      if_ind (λ (r : Check × Registry os). Kept s r.1) (answer.0 == 0) _ _ (λ _. (h, refl))
        (λ _.
          option_ind (λ (r : Check × Registry os). Kept s r.1) (s.children answer.0) _ _
            (λ _. (h, refl))
            (λ v _.
              let code = captured os statuses answer.1 (compute_returncode statuses answer.1) in
              (
                Held-store_result os statuses
                    (record s { children = update s.children answer.0 none }) w code
                    (Held-children os statuses s answer.0 none h refl) b,
                refl,
              )))

  wait_pid-Kept :
      (blocking : Bool) (w : ℕ) (s : Registry os)
      → Held os statuses s
      → w < s.next_waiter
      → Kept s (wait_pid os statuses blocking w s).1
  unfolding wait_pid
  wait_pid-Kept blocking w s h b =
      option_ind (λ (r : Check × Registry os). Kept s r.1) (s.waiters w).pid _ _ (λ _. (h, refl))
        (λ pid _.
          let a = os.waitpid pid blocking s.kernel in
          if_ind (λ (r : Check × Registry os). Kept s r.1) (ltb 0 pid) _ _
            (λ _.
              after_waitpid-Kept a.0 w (record s { kernel = a.1 }) (Held-kernel os statuses s a.1 h)
                b)
            (λ _. (h, refl)))

  start_waiting-Held :
      (w : ℕ) (s : Registry os)
      → Held os statuses s
      → w < s.next_waiter
      → Held os statuses (start_waiting os statuses w s)
  start_waiting-Held w s h b =
      Held-update os statuses s w (record (s.waiters w) { event = some false; thread = true }) h b
        refl (ground arith)

  after_check-Held :
      (r : Check) (w : ℕ) (s : Registry os)
      → Held os statuses s
      → w < s.next_waiter
      → Held os statuses (after_check os statuses r w s).1
  after_check-Held (fails e) w s h b = h
  after_check-Held done w s h b =
      option_ind (λ (r : Reply × Registry os). Held os statuses r.1) (s.waiters w).result _ _
        (λ _.
          if_ind (λ (u : Registry os). Held os statuses u) (s.waiters w).thread _ _ (λ _. h)
            (λ _. start_waiting-Held w s h b))
        (λ r _. h)

  pub wait-Held :
      (w : ℕ) (s : Registry os)
      → Held os statuses s
      → w < s.next_waiter
      → Held os statuses (wait os statuses w s).1
  unfolding wait
  wait-Held w s h b =
      let checked = wait_pid os statuses false w s in
      let (h', same) = wait_pid-Kept false w s h b in
      option_ind (λ (r : Reply × Registry os). Held os statuses r.1) (s.waiters w).result _ _
        (λ _.
          option_ind (λ (r : Reply × Registry os). Held os statuses r.1) (s.waiters w).pid _ _
            (λ _. h)
            (λ _ _. after_check-Held checked.0 w checked.1 h' (subst (λ n. w < n) (sym same) b)))
        (λ r _. h)

  -- The waiter has its result if `_wait_pid` came to its end.
  abbrev Answered : ℕ → Check × Registry os → Type 0
  Answered w (done, s) = has_result (s.waiters w).result ≡ true
  Answered w (fails e, s) = Unit

  after_waitpid-Answered :
      (w pid sts : ℕ) (s : Registry os)
      → 0 < pid
      → Answered w (after_waitpid os statuses (some (pid, sts)) w s)
  after_waitpid-Answered w pid sts s p =
      if_ind (λ (r : Check × Registry os). Answered w r) (pid == 0) _ _ (λ e. absurd (ground arith))
        (λ _.
          option_ind (λ (r : Check × Registry os). Answered w r) (s.children pid) _ _ (λ _. tt)
            (λ v _. ground arith))

  wait_pid-Answered :
      (w : ℕ) (s : Registry os)
      → thread_waits_for os statuses (s.waiters w).pid s ≡ true
      → Answered w (wait_pid os statuses true w s)
  unfolding wait_pid
  wait_pid-Answered w s e =
      option_ind (λ (r : Check × Registry os). Answered w r) (s.waiters w).pid _ _ (λ _. tt)
        (λ pid q.
          if_ind (λ (r : Check × Registry os). Answered w r) (ltb 0 pid) _ _
            (λ p.
              by_child pid (ground (arith, p)) (os.child s.kernel pid) refl (ground (arith, e, q)))
            (λ _. tt))
    where
      by_child :
          (pid : ℕ)
          → 0 < pid
          → (c : Child) → os.child s.kernel pid ≡ c
          → over (os.child s.kernel pid) ≡ true
          → let a = os.waitpid pid true s.kernel in
            Answered w (after_waitpid os statuses a.0 w (record s { kernel = a.1 }))
      by_child pid p gone c o = rw (os.waitpid_gone pid true s.kernel c) (ground arith)
      by_child pid p alive c o = absurd (cc (c, o))
      by_child pid p (ended sts) c o =
          rw (os.waitpid_ended pid sts true s.kernel c).0 (after_waitpid-Answered w pid sts _ p)

  known-append :
      (f : ℕ → ProcessWaiter) (w : ℕ) (ws : List ℕ)
      → AllKnown os statuses f ws
      → has_result (f w).result ≡ true
      → AllKnown os statuses f (ws ++ w ∷ [])
  known-append f w [] h e = (e, tt)
  known-append f w (v ∷ vs) h e = (h.0, known-append f w vs h.1 e)

  notify-Held :
      (w : ℕ) (r : Check × Registry os)
      → Held os statuses r.1
      → Answered w r
      → Held os statuses (notify os statuses r.0 w r.1)
  notify-Held w (fails e, s) h a = h
  notify-Held w (done, s) h a = record {
    sounds = h.sounds;
    fresh = h.fresh;
    registered = h.registered;
    known = known-append s.waiters w s.soon h.known a;
  }

  known_below :
      (w : ℕ) (s : Registry os)
      → Held os statuses s
      → has_result (s.waiters w).result ≡ true
      → w < s.next_waiter
  known_below w s h e = by_order (ltb w s.next_waiter) refl
    where
      by_order : (b : Bool) → ltb w s.next_waiter ≡ b → w < s.next_waiter
      by_order true l = ground (arith, l)
      by_order false l =
          let new = h.fresh (w - s.next_waiter) in
          let same : s.next_waiter + (w - s.next_waiter) ≡ w = ground (arith, l) in
          let empty = subst (λ m. s.waiters m ≡ blank) same new in
          let none_there = subst (λ (x : ProcessWaiter). has_result x.result ≡ true) empty e in
          absurd (cc none_there)

  set_events-Held :
      (ws : List ℕ) (s : Registry os)
      → Held os statuses s
      → AllKnown os statuses s.waiters ws
      → Held os statuses (set_events os statuses ws s)
  set_events-Held [] s h k = h
  set_events-Held (w ∷ ws) s h k =
      let x = record (s.waiters w) { event = some true } in
      let keeps : (not (has_result (s.waiters w).result) || has_result x.result) ≡ true =
        ground arith in
      set_events-Held ws (set_event os statuses w s)
        (Held-update os statuses s w x h (known_below w s h k.0) k.0 keeps)
        (known-update os statuses s.waiters w x ws keeps k.1)

  pub run_soon-Held :
      (s : Registry os) → Held os statuses s → Held os statuses (run_soon os statuses s)
  unfolding run_soon
  run_soon-Held s h =
      let cleared : Held os statuses (record s { soon = [] }) = record {
        sounds = h.sounds;
        fresh = h.fresh;
        registered = h.registered;
        known = tt;
      } in
      set_events-Held s.soon (record s { soon = [] }) cleared h.known

  pub wait_thread-Held :
      (w : ℕ) (s : Registry os)
      → Held os statuses s
      → w < s.next_waiter
      → thread_waits_for os statuses (s.waiters w).pid s ≡ true
      → Held os statuses (wait_thread os statuses w s)
  unfolding wait_thread
  wait_thread-Held w s h b e =
      notify-Held w (wait_pid os statuses true w s) (wait_pid-Kept true w s h b).0
        (wait_pid-Answered w s e)
