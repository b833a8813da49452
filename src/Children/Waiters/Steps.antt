-- ===== src/Children/Waiters/Steps.antt =====
-- Everything that can happen to process waiters, in any order, and what stays true.
pub mod Waiting
pub mod Reaching
use trio_asyncio.Prelude.{
  ℕ, ◌<◌, ◌+◌, ◌-◌, suc, ◌≡◌, refl, sym, ap, subst, ◌∙◌, ◌⊎◌, inl, inr, not, ◌||◌, Bool, true,
  false, Option, none, some, List, [], ◌∷◌, ◌++◌, ◌==◌, if◌then◌else◌, update, ltb, arith,
  option_ind, if_ind,
}
use trio_asyncio.Children.{Statuses, compute_returncode}
use trio_asyncio.Children.Waiters.{
  Child, gone, alive, ended, Kernel, Outcome, child_process_error, ProcessWaiter, Registry, Reply,
  result, attribute_error, Check, done, fails, blank, store_result, captured, after_waitpid,
  wait_pid, start_waiting, after_check, wait, wait_resumed, notify, wait_thread, set_event,
  set_events, run_soon, returncode, allocate, new, init, set_pid, process_waiter,
}

abbrev pub has_result : Option Outcome → Bool
has_result none = false
has_result (some r) = true

-- A waiter has an event just if it has a thread, and a result once the event is set.
abbrev pub consistent : Option Bool → Option Outcome → (thread : Bool) → Bool
consistent none r thread = not thread
consistent (some true) r thread = has_result r
consistent (some false) r thread = true

abbrev pub sound : ProcessWaiter → Bool
sound x = consistent x.event x.result x.thread

-- No child of this number runs, so that a blocking `waitpid` returns.
abbrev pub over : Child → Bool
over gone = true
over alive = false
over (ended status) = true

module _ (os : Kernel) (statuses : Statuses) where
  abbrev pub thread_waits_for : Option ℕ → Registry os → Bool
  thread_waits_for none s = true
  thread_waits_for (some pid) s = over (os.child s.kernel pid)

  -- One step: a call of `ProcessWaiter`, a call of `wait` up to its await, the end of a thread's
  -- `waitpid`, the callbacks of `run_sync_soon`, or anything that the system does.
  pub data Step (s : Registry os) : Registry os → Type 0 where
    creates : (pid : Option ℕ) (handle : Bool) → Step s (process_waiter os statuses pid handle s).1
    waits : (w : ℕ) → w < s.next_waiter → Step s (wait os statuses w s).1
    returns :
        (w : ℕ)
        → w < s.next_waiter
        → (s.waiters w).thread ≡ true
        → thread_waits_for (s.waiters w).pid s ≡ true
        → Step s (wait_thread os statuses w s)
    wakes : Step s (run_soon os statuses s)
    lives : (k : os.State) → Step s (record s { kernel = k })

  pub data Reach (s : Registry os) : Registry os → Type 0 where
    here : Reach s s
    next : {t u : Registry os} → Reach s t → Step t u → Reach s u

  abbrev pub AllKnown : (ℕ → ProcessWaiter) → List ℕ → Type 0
  AllKnown f [] = Unit
  AllKnown f (w ∷ ws) = (has_result (f w).result ≡ true) × AllKnown f ws

  abbrev pub below : Option ℕ → ℕ → Bool
  below none n = true
  below (some w) n = ltb w n

  -- Waiters are sound, those to come are blank, registered ones are there, and an event is to be set
  -- only for a waiter with a result.
  pub record Held (s : Registry os) : Type 0 where
    pub sounds : (w : ℕ) → sound (s.waiters w) ≡ true
    pub fresh : (n : ℕ) → s.waiters (s.next_waiter + n) ≡ blank
    pub registered : (pid : ℕ) → below (s.children pid) s.next_waiter ≡ true
    pub known : AllKnown s.waiters s.soon

  pub known-update :
      (f : ℕ → ProcessWaiter) (w : ℕ) (x : ProcessWaiter) (ws : List ℕ)
      → (not (has_result (f w).result) || has_result x.result ≡ true)
      → AllKnown f ws
      → AllKnown (update f w x) ws
  known-update f w x [] keeps h = tt
  known-update f w x (v ∷ vs) keeps h =
      let rest = known-update f w x vs keeps h.1 in (ground (arith, keeps, h.0), rest)

  pub Held-update :
      (s : Registry os) (w : ℕ) (x : ProcessWaiter)
      → Held s
      → w < s.next_waiter
      → sound x ≡ true
      → (not (has_result (s.waiters w).result) || has_result x.result ≡ true)
      → Held (record s { waiters = update s.waiters w x })
  Held-update s w x h b e keeps = record {
    sounds = λ v. let old = h.sounds v in ground (arith, old, e);
    fresh = λ n. let old = h.fresh n in ground (arith, old, b);
    registered = h.registered;
    known = known-update s.waiters w x s.soon keeps h.known;
  }

  pub Held-children :
      (s : Registry os) (pid : ℕ) (o : Option ℕ)
      → Held s
      → below o s.next_waiter ≡ true
      → Held (record s { children = update s.children pid o })
  Held-children s pid o h e = record {
    sounds = h.sounds;
    fresh = h.fresh;
    registered = λ p. let old = h.registered p in ground (arith, old, e);
    known = h.known;
  }

  pub Held-kernel : (s : Registry os) (k : os.State) → Held s → Held (record s { kernel = k })
  Held-kernel s k h = record {
    sounds = h.sounds;
    fresh = h.fresh;
    registered = h.registered;
    known = h.known;
  }

  sound-result :
      (x : ProcessWaiter) (r : Outcome)
      → sound x ≡ true
      → sound (record x { result = some r }) ≡ true
  sound-result x r e = ground (arith, e)

  pub Held-store_result :
      (s : Registry os) (w : ℕ) (r : Outcome)
      → Held s
      → w < s.next_waiter
      → Held (store_result os statuses w r s)
  Held-store_result s w r h b =
      Held-update s w (record (s.waiters w) { result = some r }) h b
        (sound-result (s.waiters w) r (h.sounds w)) (ground arith)
