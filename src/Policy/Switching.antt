-- ===== src/Policy/Switching.antt =====
-- Which event loop and which policy code gets, inside Trio and outside.
use trio_asyncio.Prelude.{ℕ, ◌≡◌, ◌≢◌, refl, ◌⊎◌, inl, Bool, true, false, Option, none, some, arith}
use trio_asyncio.Policy.{
  Host, Task, Thread, Refusal, runtime_error, ok, raise, Policy, trio_policy, original_policy,
  user_policy, NewPolicy, no_policy, a_trio_policy, no_such_type, a_policy, in_trio_context,
  in_trio_context_other_than_sync_loop, get_event_loop, set_event_loop, thread_event_loop,
  current_event_loop, clear_state_after_fork, new_policy_get, new_policy_set, new_loop_get,
  new_loop_set,
}

-- What `get_event_loop_policy` returns outside Trio once the policy is set.
abbrev pub chosen : NewPolicy → Policy
chosen no_policy = original_policy
chosen a_trio_policy = original_policy
chosen no_such_type = original_policy
chosen (a_policy p) = user_policy p

module _ (host : Host) where
  -- In a task that runs in its own context; or outside Trio, with no policy of the user's and with
  -- no loop running.
  abbrev pub AtHome : Thread host → Type 0
  AtHome s = elim s.task [
    | some task ↦ task.context ≡ s.context
    | none ↦ (s.faked ≡ none) × (host.running_loop s.world ≡ none)
  ]

  -- In a task that runs in its own context, or outside Trio with neither a running loop nor a policy
  -- set by the user, `get_event_loop` and the trio policy return the loop that was set last.
  pub new_loop_set-new_loop_get :
      (l : ℕ) (s : Thread host)
      → AtHome s
      → let s' = new_loop_set host (some l) s in
        (new_loop_get host s' ≡ (ok (some l), s')) × (get_event_loop host s' ≡ (ok (some l), s'))
  unfolding new_loop_set new_loop_get
  new_loop_set-new_loop_get l s home =
      let kept = host.get-set (some l) s.world in
      let running = host.running-set (some l) s.world in ground (arith, kept, running)

  -- Setting the loop in a Trio task changes the loop of the current context alone; outside Trio it
  -- changes the loop of no context.
  set_event_loop_local :
      (l : Option ℕ) (s : Thread host) (c : ℕ)
      → c ≢ s.context
      → let s' = set_event_loop host l s in
        (s'.loops c ≡ s.loops c)
        × ((in_trio_context host s ≡ false) × (s'.loops ≡ s.loops)
            ⊎ (in_trio_context host s ≡ true) × (s'.world ≡ s.world))
  unfolding set_event_loop in_trio_context
  set_event_loop_local l s c other = ground arith

  -- `set_event_loop_policy` either raises and changes nothing, or it is called outside Trio or in a
  -- sync loop's task, with a policy that is not Trio's or with `None`; then outside Trio the policy
  -- is the one that was set, and in Trio it is Trio's.
  new_policy_set-new_policy_get :
      (recent : Bool) (p : NewPolicy) (s : Thread host)
      → let (r, s') = new_policy_set host recent p s in
        ((e : Refusal) × (r ≡ raise e) × (s' ≡ s))
        ⊎ ((r ≡ ok tt)
            × (p ≢ a_trio_policy)
            × (in_trio_context_other_than_sync_loop host s ≡ false)
            × (new_policy_get host (record s' { task = none }) ≡ chosen p)
            × ((task : Task) → new_policy_get host (record s' { task = some task }) ≡ trio_policy))
  unfolding new_policy_set new_policy_get in_trio_context in_trio_context_other_than_sync_loop
  new_policy_set-new_policy_get recent a_trio_policy s = inl (runtime_error, refl, refl)
  new_policy_set-new_policy_get recent no_such_type s = ground arith
  new_policy_set-new_policy_get recent no_policy s = ground arith
  new_policy_set-new_policy_get recent (a_policy p) s = ground arith

  -- After a fork in a Trio task the child is outside Trio, its context has no loop, and its current
  -- loop is the thread's.
  clear_state_after_fork_outside :
      (s : Thread host)
      → in_trio_context host s ≡ true
      → let s' = clear_state_after_fork host s in
        (in_trio_context host s' ≡ false)
        × (s'.loops s.context ≡ none)
        × (current_event_loop host s' ≡ thread_event_loop host s')
  unfolding clear_state_after_fork in_trio_context current_event_loop
  clear_state_after_fork_outside s inside = ground arith
