-- ===== src/Policy.antt =====
-- The event loop policy and the patched functions of asyncio in trio_asyncio/_loop.py, as one thread
-- sees them. asyncio's own policy, a policy that the user sets, and `SyncTrioEventLoop()` are behind
-- the interface `Host`; loops, policies and contexts are numbers.
pub mod Switching
mod Patching
mod Tests
use trio_asyncio.Prelude.{
  ℕ, ◌≡◌, Bool, true, false, not, Option, none, some, if◌then◌else◌, update, ◌&&◌,
}

pub record Host : Type 1 where
  pub World : Type 0
  -- The methods of a policy that the user set.
  pub policy_new : ℕ → World → ℕ × World
  pub policy_get : ℕ → World → Option ℕ × World
  pub policy_set : ℕ → Option ℕ → World → World
  -- `SyncTrioEventLoop()`
  pub sync_loop : World → ℕ × World
  -- The loop that asyncio's policy keeps for the thread, and its `set_event_loop`.
  pub thread_loop : World → Option ℕ
  pub set_thread_loop : Option ℕ → World → World
  -- asyncio's `_get_running_loop` outside Trio.
  pub running_loop : World → Option ℕ
  pub get-set : (l : Option ℕ) (w : World) → thread_loop (set_thread_loop l w) ≡ l
  pub running-set : (l : Option ℕ) (w : World) → running_loop (set_thread_loop l w) ≡ running_loop w

-- `trio.lowlevel.current_task()`: whether its name is that of a sync loop's task, and its context.
pub record Task : Type 0 where
  pub is_sync_loop : Bool
  pub context : ℕ

-- `loops` is the variable `current_loop` in each context; `faked` is `_faked_policy.policy`.
pub record Thread (host : Host) : Type 0 where
  pub task : Option Task
  pub context : ℕ
  pub loops : ℕ → Option ℕ
  pub faked : Option ℕ
  pub world : host.World

pub data Refusal : Type 0 where
  runtime_error type_error assertion_error : Refusal

pub data Answer (A : Type 0) : Type 0 where
  ok : A → Answer A
  raise : Refusal → Answer A

-- What `get_event_loop_policy` returns: Trio's policy, the user's, or the one before.
pub data Policy : Type 0 where
  trio_policy original_policy : Policy
  user_policy : ℕ → Policy

-- What is passed to `set_event_loop_policy`.
pub data NewPolicy : Type 0 where
  no_policy a_trio_policy no_such_type : NewPolicy
  a_policy : ℕ → NewPolicy

module _ (host : Host) where
  -- `_in_trio_context`
  unfoldable pub in_trio_context : Thread host → Bool
  in_trio_context s = elim s.task [ none ↦ false | some _ ↦ true ]

  -- `_in_trio_context_other_than_sync_loop`
  unfoldable pub in_trio_context_other_than_sync_loop : Thread host → Bool
  in_trio_context_other_than_sync_loop s = elim s.task [
    | none ↦ false
    | some task ↦ not task.is_sync_loop
  ]

  -- `_TrioPolicy.new_event_loop`
  unfoldable pub new_event_loop : Thread host → Answer ℕ × Thread host
  unfolding in_trio_context_other_than_sync_loop
  new_event_loop s =
      if in_trio_context_other_than_sync_loop s then (raise runtime_error, s) else elim s.faked [
        | some p ↦ (let (l, w) = host.policy_new p s.world in (ok l, record s { world = w }))
        | none ↦ (let (l, w) = host.sync_loop s.world in (ok l, record s { world = w }))
      ]

  -- asyncio keeps a loop that it makes with `self.new_event_loop()`.
  abbrev pub keep_new : Answer ℕ → Thread host → Answer (Option ℕ) × Thread host
  keep_new (ok l) s = (ok (some l), record s { world = host.set_thread_loop (some l) s.world })
  keep_new (raise e) s = (raise e, s)

  -- `super().get_event_loop()`: the thread's loop, or a new one, as the comment in
  -- `_TrioPolicy.get_event_loop` says.
  unfoldable pub thread_event_loop : Thread host → Answer (Option ℕ) × Thread host
  unfolding new_event_loop
  thread_event_loop s = elim (host.thread_loop s.world) [
    | some l ↦ (ok (some l), s)
    | none ↦ (let (r, s') = new_event_loop s in keep_new r s')
  ]

  -- `_TrioPolicy.get_event_loop`
  unfoldable pub get_event_loop : Thread host → Answer (Option ℕ) × Thread host
  unfolding thread_event_loop
  get_event_loop s = elim s.task [
    | some task ↦ (ok (s.loops task.context), s)
    | none ↦ elim s.faked [
      | some p ↦ (let (l, w) = host.policy_get p s.world in (ok l, record s { world = w }))
      | none ↦ thread_event_loop s
    ]
  ]

  -- `_TrioPolicy.current_event_loop`
  unfoldable pub current_event_loop : Thread host → Answer (Option ℕ) × Thread host
  unfolding thread_event_loop
  current_event_loop s = elim (s.loops s.context) [
    | some l ↦ (ok (some l), s)
    | none ↦ thread_event_loop s
  ]

  -- `_TrioPolicy.set_event_loop`
  unfoldable pub set_event_loop : Option ℕ → Thread host → Thread host
  set_event_loop l s = elim s.task [
    | some _ ↦ record s { loops = update s.loops s.context l }
    | none ↦ elim s.faked [
      | some p ↦ record s { world = host.policy_set p l s.world }
      | none ↦ record s { world = host.set_thread_loop l s.world }
    ]
  ]

  -- `_clear_state_after_fork`
  unfoldable pub clear_state_after_fork : Thread host → Thread host
  clear_state_after_fork s = elim s.task [
    | none ↦ s
    | some _ ↦ record s { task = none; loops = update s.loops s.context none }
  ]

  -- `_new_policy_get`
  unfoldable pub new_policy_get : Thread host → Policy
  unfolding in_trio_context
  new_policy_get s =
      if in_trio_context s
      then trio_policy
      else elim s.faked [ some p ↦ user_policy p | none ↦ original_policy ]

  -- `_new_policy_set`; `recent` is `sys.version_info >= (3, 11)`.
  unfoldable pub new_policy_set :
      (recent : Bool) → NewPolicy → Thread host → Answer Unit × Thread host
  unfolding in_trio_context_other_than_sync_loop
  new_policy_set recent a_trio_policy s = (raise runtime_error, s)
  new_policy_set recent no_such_type s =
      if in_trio_context_other_than_sync_loop s
      then (raise runtime_error, s)
      else if recent
      then (raise type_error, s)
      else (raise assertion_error, s)
  new_policy_set recent no_policy s =
      if in_trio_context_other_than_sync_loop s
      then (raise runtime_error, s)
      else (ok tt, record s { faked = none })
  new_policy_set recent (a_policy p) s =
      if in_trio_context_other_than_sync_loop s
      then (raise runtime_error, s)
      else (ok tt, record s { faked = some p })

  -- `_new_run_get`
  unfoldable pub new_run_get : Thread host → Option ℕ
  new_run_get s = elim s.task [
    | some task ↦ s.loops task.context
    | none ↦ host.running_loop s.world
  ]

  -- `_new_run_get_or_throw`
  unfoldable pub new_run_get_or_throw : Thread host → Answer ℕ
  unfolding new_run_get
  new_run_get_or_throw s = elim (new_run_get s) [ some l ↦ ok l | none ↦ raise runtime_error ]

  -- `_new_loop_get`
  unfoldable pub new_loop_get : Thread host → Answer (Option ℕ) × Thread host
  unfolding new_run_get get_event_loop
  new_loop_get s = elim (new_run_get s) [ some l ↦ (ok (some l), s) | none ↦ get_event_loop s ]

  -- `_new_loop_set`
  unfoldable pub new_loop_set : Option ℕ → Thread host → Thread host
  unfolding set_event_loop
  new_loop_set l s = set_event_loop l s

  -- `_new_loop_new`
  unfoldable pub new_loop_new : Thread host → Answer ℕ × Thread host
  unfolding new_event_loop
  new_loop_new s = new_event_loop s

  -- `_new_current_task`, where `current_task` is asyncio's own.
  unfoldable pub new_current_task : (Option ℕ → Option ℕ) → Option ℕ → Thread host → Option ℕ
  unfolding new_run_get
  new_current_task current_task loop s =
      current_task (elim loop [ some l ↦ some l | none ↦ new_run_get s ])

  -- `_running_loop`
  unfoldable pub running_loop : Thread host → Answer ℕ
  running_loop s = elim (s.loops s.context) [ some l ↦ ok l | none ↦ raise runtime_error ]

  -- The functions `run_aio_coroutine`, `run_trio` and `run_trio_task`, where `method` is the method
  -- of the loop that each is an alias of.
  unfoldable pub on_running_loop : {A : Type 0} → (method : ℕ → A) → Thread host → Answer A
  unfolding running_loop
  on_running_loop method s = elim (running_loop s) [ ok l ↦ ok (method l) | raise e ↦ raise e ]
