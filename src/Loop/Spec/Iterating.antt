-- ===== src/Loop/Spec/Iterating.antt =====
-- `_main_loop_one` of trio_asyncio/_base.py, on channels and heaps, meets its description.
use mathlib.Core.List.{Perm}
use mathlib.Core.List.Perm
use trio_asyncio.Prelude.{ℕ, ◌≡◌, Bool, true, false, List, [], ◌++◌}
use trio_asyncio.Trio.{Trio}
use trio_asyncio.Heapq.{Heapq}
use trio_asyncio.Loop.{Handle, Occurrence, Loop, Script}
use trio_asyncio.Loop.Iteration.{Tick, others}
use trio_asyncio.Loop.Extends.{queued}
use trio_asyncio.Loop.Progress.{Outcome}
use trio_asyncio.Loop.Spec.{NoneDue, Schedule, Step}

module _ {t : Trio} {q : Heapq} (program : ℕ → Script) where
  abbrev pub schedule : Loop t q → Schedule
  schedule s = (queued s, q.entries s.timers, s.trace)

  -- The loop when it looks into its queue: what other code does comes before, if the loop waits.
  abbrev pub looking : Tick → (no_wait : Bool) → Loop t q → Loop t q
  looking k true s = s
  looking k false s = others t q program k.now k.before s

  -- An iteration that has waited: `s'` is `s` with what came in, and no timer is due.
  record Waited (k : Tick) (no_wait : Bool) (s s' : Loop t q) : Type 0 where
    arrived : List ℕ
    before : List Occurrence
    stays : no_wait ≡ true → arrived ≡ []
    grown : queued s' ≡ queued s ++ arrived
    same : s'.timers ≡ s.timers
    traced : s'.trace ≡ s.trace ++ before
    none_due : NoneDue k.now (q.entries s.timers)

  module _ (k : Tick) (no_wait : Bool) (was : ℕ → Handle) (s s' : Loop t q) where
    -- What is to show of a part of the iteration.
    abbrev Meets : Outcome t q → Type 0
    Meets o = Step was s'.handles k no_wait (schedule s) o.0 (schedule o.1)
