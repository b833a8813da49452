-- ===== src/Loop/Leaving.antt =====
-- Leaving a loop: `_main_loop_exit` returns.
use trio_asyncio.Prelude.{ℕ, ◌≡◌, ◌⊎◌, true, false, []}
use trio_asyncio.Exec.{ok}
use trio_asyncio.Trio.{Trio}
use trio_asyncio.Heapq.{Heapq}
use trio_asyncio.Loop.{Loop, Script}
use trio_asyncio.Loop.Progress.{Outcome}
use trio_asyncio.Loop.Termination.{ended}
use trio_asyncio.Loop.Draining.{raised}

module _ {t : Trio} {q : Heapq} (program : ℕ → Script) where
  -- Where the main loop has ended, `_stopped` is set.
  abbrev IsSetAfter : Outcome t q → Type 0
  IsSetAfter o = (ended o.0 ≡ false) ⊎ (t.is_set o.1.stopped ≡ true)

  -- How `_main_loop_exit` ends, where the drain has left the state `drained`: the queue and the timers
  -- are empty, and the fields are cleared; or an exception of a drained callback or of the nursery
  -- leaves it, and the state is as the drain has left it.
  abbrev pub Exited : Loop t q → Outcome t q → Type 0
  Exited drained o =
      (o.0 ≡ ok tt) × (t.contents o.1.queue ≡ []) × (o.1.timers ≡ q.empty) × (o.1.entered ≡ false)
      ⊎ (raised o.0 ≡ true) × (o.1 ≡ drained)
