-- ===== src/Children/Waiters.antt =====
-- `ProcessWaiter` in trio_asyncio/_child.py, on a system that is not Windows. What runs between two
-- awaits of Trio's thread, and what the waiting thread does once `waitpid` returns, is one step.
pub mod Reaping
pub mod Losing
pub mod Steps
pub mod Windows
pub mod Tests
use trio_asyncio.Prelude.{
  ℕ, suc, ◌≡◌, Bool, true, false, Option, none, some, List, [], ◌∷◌, ◌++◌, ◌==◌, if◌then◌else◌,
  update, ltb,
}
use trio_asyncio.Prelude.Int.{ℤ}
use trio_asyncio.Children.{Statuses, compute_returncode}

-- What the system knows of a process: it is no child, it runs, or it has ended with this status and
-- nobody has asked for that yet.
pub data Child : Type 0 where
  gone alive : Child
  ended : ℕ → Child

-- `os.waitpid`: `none` is a `ChildProcessError`. Nothing is said of a blocking call for a child that
-- runs, since it does not return.
pub record Kernel : Type 1 where
  pub State : Type 0
  pub child : State → ℕ → Child
  pub waitpid : (pid : ℕ) (blocking : Bool) → State → Option (ℕ × ℕ) × State
  pub waitpid_gone :
      (pid : ℕ) (blocking : Bool) (k : State)
      → child k pid ≡ gone
      → waitpid pid blocking k ≡ (none, k)
  pub waitpid_alive :
      (pid : ℕ) (k : State) → child k pid ≡ alive → waitpid pid false k ≡ (some (0, 0), k)
  pub waitpid_ended :
      (pid status : ℕ) (blocking : Bool) (k : State)
      → child k pid ≡ ended status
      → ((waitpid pid blocking k).0 ≡ some (pid, status))
        × (child (waitpid pid blocking k).1 pid ≡ gone)

-- `outcome.Outcome`, with the two errors that `_child.py` puts in.
pub data Outcome : Type 0 where
  value : ℤ → Outcome
  child_process_error : Outcome
  unknown_status : ℕ → Outcome

-- `event` is the event with whether it is set; `thread` says whether there is a thread.
pub record ProcessWaiter : Type 0 where
  pub pid : Option ℕ
  pub event : Option Bool
  pub result : Option Outcome
  pub thread : Bool

-- `children` is `_children`, of the waiters that are in use; `soon` are the waiters whose event
-- `run_sync_soon` is to set.
pub record Registry (os : Kernel) : Type 0 where
  pub children : ℕ → Option ℕ
  pub waiters : ℕ → ProcessWaiter
  pub next_waiter : ℕ
  pub soon : List ℕ
  pub kernel : os.State

-- How a call ends: with the outcome that it unwraps, with an error, or not yet.
pub data Reply : Type 0 where
  result : Outcome → Reply
  runtime_error key_error assertion_error attribute_error type_error suspended : Reply

-- How `_wait_pid` ends.
pub data Check : Type 0 where
  done : Check
  fails : Reply → Check

abbrev pub blank : ProcessWaiter
blank = record { pid = none; event = none; result = none; thread = false }

module _ (os : Kernel) (statuses : Statuses) where
  abbrev pub modify : ℕ → (ProcessWaiter → ProcessWaiter) → Registry os → Registry os
  modify w f s = record s { waiters = update s.waiters w (f (s.waiters w)) }

  -- `_set_pid`; a pid that is no integer is `none`, and `handle` says whether a `_handle` was given,
  -- which is refused after the waiter is registered.
  unfoldable pub set_pid : Option ℕ → (handle : Bool) → ℕ → Registry os → Check × Registry os
  set_pid pid handle w s = elim (s.waiters w).pid [
    | some _ ↦ (fails runtime_error, s)
    | none ↦ elim pid [
      | none ↦ (fails runtime_error, s)
      | some p ↦ (
        if handle then fails runtime_error else done,
        record (modify w (λ x. record x { pid = some p }) s) {
          children = update s.children p (some w);
        },
      )
    ]
  ]

  -- `__new__` when there is no object for the pid yet.
  abbrev pub allocate : Registry os → ℕ × Registry os
  allocate s = (
    s.next_waiter,
    record s { waiters = update s.waiters s.next_waiter blank; next_waiter = suc s.next_waiter },
  )

  -- `__new__`
  abbrev pub new : Option ℕ → Registry os → ℕ × Registry os
  new none s = allocate s
  new (some pid) s = elim (s.children pid) [ none ↦ allocate s | some w ↦ (w, s) ]

  -- `__init__`
  unfoldable pub init : Option ℕ → (handle : Bool) → ℕ → Registry os → Check × Registry os
  init pid handle w s = elim (s.waiters w).pid [
    | none ↦ set_pid pid handle w s
    | some _ ↦ (done, s)
  ]

  -- `ProcessWaiter(pid, _handle)`
  unfoldable pub process_waiter :
      Option ℕ → (handle : Bool) → Registry os → (ℕ × Check) × Registry os
  process_waiter pid handle s =
      let (w, s₁) = new pid s in let (r, s₂) = init pid handle w s₁ in ((w, r), s₂)

  abbrev pub store_result : ℕ → Outcome → Registry os → Registry os
  store_result w r s = modify w (λ x. record x { result = some r }) s

  -- `outcome.capture(_compute_returncode, sts)`
  abbrev pub captured : ℕ → Option ℤ → Outcome
  captured sts none = unknown_status sts
  captured sts (some code) = value code

  -- `_handle_exitstatus`
  abbrev pub handle_exitstatus : ℕ → ℕ → Registry os → Registry os
  handle_exitstatus sts w s = store_result w (captured sts (compute_returncode statuses sts)) s

  -- The rest of `_wait_pid` after `os.waitpid`.
  abbrev pub after_waitpid : Option (ℕ × ℕ) → ℕ → Registry os → Check × Registry os
  after_waitpid none w s = (done, store_result w child_process_error s)
  after_waitpid (some answer) w s =
      if answer.0 == 0 then (done, s) else elim (s.children answer.0) [
        | none ↦ (fails key_error, s)
        | some _ ↦ (
          done,
          handle_exitstatus answer.1 w (record s { children = update s.children answer.0 none }),
        )
      ]

  -- `_wait_pid`
  unfoldable pub wait_pid : (blocking : Bool) → ℕ → Registry os → Check × Registry os
  wait_pid blocking w s = elim (s.waiters w).pid [
    | none ↦ (fails type_error, s)
    | some pid ↦
        let (answer, k) = os.waitpid pid blocking s.kernel in
        if ltb 0 pid
        then after_waitpid answer w (record s { kernel = k })
        else (fails assertion_error, s)
  ]

  -- `_start_waiting`
  abbrev pub start_waiting : ℕ → Registry os → Registry os
  start_waiting w s = modify w (λ x. record x { event = some false; thread = true }) s

  -- The rest of `wait` after the first check, to `await self.__event.wait()`.
  abbrev pub after_check : Check → ℕ → Registry os → Reply × Registry os
  after_check (fails e) w s = (e, s)
  after_check done w s = elim (s.waiters w).result [
    | some r ↦ (result r, s)
    | none ↦ (suspended, if (s.waiters w).thread then s else start_waiting w s)
  ]

  -- `wait`, up to its await.
  unfoldable pub wait : ℕ → Registry os → Reply × Registry os
  wait w s = elim (s.waiters w).result [
    | some r ↦ (result r, s)
    | none ↦ elim (s.waiters w).pid [
      | none ↦ (runtime_error, s)
      | some _ ↦ let (r, s') = wait_pid false w s in after_check r w s'
    ]
  ]

  -- `wait` once its event is set: `return self.__result.unwrap()`.
  unfoldable pub wait_resumed : ℕ → Registry os → Reply
  wait_resumed w s = elim (s.waiters w).result [ none ↦ attribute_error | some r ↦ result r ]

  -- `_wait_thread`, when its `waitpid` returns. An error ends the thread.
  abbrev pub notify : Check → ℕ → Registry os → Registry os
  notify done w s = record s { soon = s.soon ++ w ∷ [] }
  notify (fails e) w s = s

  unfoldable pub wait_thread : ℕ → Registry os → Registry os
  wait_thread w s = let (r, s') = wait_pid true w s in notify r w s'

  -- What `run_sync_soon` was given: `self.__event.set`, in order.
  abbrev pub set_event : ℕ → Registry os → Registry os
  set_event w s = modify w (λ x. record x { event = some true }) s

  abbrev pub set_events : List ℕ → Registry os → Registry os
  set_events [] s = s
  set_events (w ∷ ws) s = set_events ws (set_event w s)

  unfoldable pub run_soon : Registry os → Registry os
  run_soon s = set_events s.soon (record s { soon = [] })

  -- `returncode`: `none` is `None`.
  unfoldable pub returncode : ℕ → Registry os → Option Outcome
  returncode w s = (s.waiters w).result

  -- `wait_for_child`, up to its await.
  unfoldable pub wait_for_child : ℕ → Registry os → (ℕ × Reply) × Registry os
  unfolding process_waiter
  wait_for_child pid s =
      let ((w, r), s₁) = process_waiter (some pid) false s in
      elim r [ fails e ↦ ((w, e), s₁) | done ↦ let (q, s₂) = wait w s₁ in ((w, q), s₂) ]
