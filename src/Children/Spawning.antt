-- ===== src/Children/Spawning.antt =====
-- `_make_subprocess_transport` of trio_asyncio/_base.py. The transport is asyncio's: of it, the model
-- keeps its process, whether `close` was called, and the return code that `_process_exited` was
-- called with. How its constructor ends, what its waiter becomes, and `_wait` are parameters, and
-- so is what other tasks do during the two awaits.
mod Leaving
mod Exiting
mod Tests
use trio_asyncio.Prelude.{
  ℕ, suc, ◌≡◌, Bool, true, false, Option, none, some, if◌then◌else◌, ◌==◌, update,
}
use trio_asyncio.Prelude.Int.{ℤ}
use trio_asyncio.Exec.{Result, ok, err, Exec, pure, fail, ◌>>=◌, ◌>>◌}
use trio_asyncio.Trio.{Trio}
use trio_asyncio.Heapq.{Heapq}
use trio_asyncio.Entrances.{Entrance, run_trio_task}
use trio_asyncio.Children.{Statuses}
use trio_asyncio.Children.Waiters.{Kernel, Registry, Reply}
use trio_asyncio.Children.Exits.{await_child, resume_child}

pub record Transport : Type 0 where
  pub pid : ℕ
  pub is_closed : Bool
  pub exited : Option ℤ

-- The transports of a loop, under numbers.
pub record Transports : Type 0 where
  pub table : ℕ → Transport
  pub next_transport : ℕ

pub record Subprocesses (t : Trio) (q : Heapq) : Type 0 where
  pub loop : Entrance t q
  pub transports : Transports

-- `transp._process_exited(returncode)`
unfoldable pub process_exited : (transp : ℕ) → ℤ → Transports → Transports
process_exited transp returncode s = record s {
  table = update s.table transp (record (s.table transp) { exited = some returncode });
}

module _ (os : Kernel) (statuses : Statuses) where
  -- `child_wait`, up to its await, and from there.
  unfoldable pub child_wait :
      (transp : ℕ) → Registry os × Transports → (ℕ × Reply) × Registry os × Transports
  child_wait transp s = await_child os statuses (s.1.table transp).pid (process_exited transp) s

  unfoldable pub child_wait_resumed :
      (transp w : ℕ) → Registry os × Transports → Reply × Registry os × Transports
  child_wait_resumed transp w = resume_child os statuses w (process_exited transp)

module _ (t : Trio) (q : Heapq) where
  -- `_UnixSubprocessTransport(...)`. What it does to the loop is asyncio's: `started` says how it
  -- ends, with the number of the process that it has started, and the loop after it.
  abbrev pub Starting : Type 0
  Starting = Entrance t q → Result ℕ × Entrance t q

  abbrev pub constructed : Result ℕ → Exec (Subprocesses t q) ℕ
  constructed (err e) s = (err e, s)
  constructed (ok pid) s =
      let transp = s.transports.next_transport in
      (
        ok transp,
        record s {
          transports = record {
            table =
                update s.transports.table transp
                  (record { pid = pid; is_closed = false; exited = none });
            next_transport = suc transp;
          };
        },
      )

  abbrev pub construct : Starting → Exec (Subprocesses t q) ℕ
  construct started s = let (r, loop) = started s.loop in constructed r (record s { loop = loop })

  -- `self.run_trio_task(child_wait, transp)`, where the task is a program of the loop.
  abbrev pub watch : (task : ℕ) → Exec (Subprocesses t q) ℕ
  watch task s = let (r, loop) = run_trio_task t q task s.loop in (r, record s { loop = loop })

  -- `transp.close()`
  abbrev pub close_transport : (transp : ℕ) → Exec (Subprocesses t q) (Unit {0})
  close_transport transp s =
      let table = s.transports.table in
      (
        ok tt,
        record s {
          transports = record s.transports {
            table = update table transp (record (table transp) { is_closed = true });
          };
        },
      )

  -- The `try` statement around `await waiter`, and what follows it.
  abbrev pub after_waiter :
      (wait : ℕ → Exec (Subprocesses t q) (Unit {0})) (transp : ℕ)
      → Result (Unit {0})
      → Exec (Subprocesses t q) ℕ
  after_waiter wait transp (ok _) = pure transp
  after_waiter wait transp (err e) = close_transport transp >> wait transp >> fail e

  unfoldable pub make_subprocess_transport :
      (started : Starting) (task_of : ℕ → ℕ)
      (await_waiter wait : ℕ → Exec (Subprocesses t q) (Unit {0}))
      → Exec (Subprocesses t q) ℕ
  make_subprocess_transport started task_of await_waiter wait = construct started >>= λ transp.
      watch (task_of transp) >> λ s.
      let (r, s') = await_waiter transp s in after_waiter wait transp r s'
