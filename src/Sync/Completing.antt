-- ===== src/Sync/Completing.antt =====
-- `run_until_complete` on a future that is done while the main loop runs.
use trio_asyncio.Prelude.{true, none}
use trio_asyncio.Trio.{Trio}
use trio_asyncio.Sync.{Sync, Work, cleared, resumed}

module _ {t : Trio} (main_loop_exit : Work t) where
  -- The state in which `_main_loop` starts.
  abbrev pub entered : Sync t → Sync t
  entered s = record (resumed t (cleared t s)) { result = none; watched = true }
