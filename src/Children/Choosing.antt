-- ===== src/Children/Choosing.antt =====
-- The child watcher that `TrioPolicy` in trio_asyncio/_loop.py has.
use trio_asyncio.Prelude.{ℕ, Bool, true, Option, none, some, if◌then◌else◌}
use trio_asyncio.Children.{Watcher, new_watcher}

-- A watcher of this library, or one of another class with its `_loop` and whether it is closed.
data AnyWatcher : Type 0 where
  trio_watcher : Watcher → AnyWatcher
  other_watcher : (loop : Option ℕ) (closed : Bool) → AnyWatcher

abbrev attach : Option ℕ → AnyWatcher → AnyWatcher
attach loop (trio_watcher w) = trio_watcher (record w { loop = loop })
attach loop (other_watcher old closed) = other_watcher loop closed

-- `_watcher` of the policy, whether the thread is the main one, and `current_loop`.
record TrioPolicy : Type 0 where
  watcher : Option AnyWatcher
  main_thread : Bool
  current_loop : Option ℕ

-- `_init_watcher`
abbrev first_watcher : TrioPolicy → AnyWatcher
first_watcher s =
    trio_watcher
      (if s.main_thread then record new_watcher { loop = s.current_loop } else new_watcher)

abbrev watcher_made : TrioPolicy → AnyWatcher
watcher_made s = elim s.watcher [ none ↦ first_watcher s | some w ↦ w ]

unfoldable init_watcher : TrioPolicy → TrioPolicy
init_watcher s = record s {
  watcher = some (if s.main_thread then attach s.current_loop (watcher_made s) else watcher_made s);
}

-- `set_child_watcher`: the new state, and the watcher that it closed.
abbrev replace_watcher : AnyWatcher → Option AnyWatcher × Option AnyWatcher
replace_watcher (trio_watcher w) = (some (trio_watcher w), none)
replace_watcher (other_watcher loop closed) =
    (some (trio_watcher (record new_watcher { loop = loop })), some (other_watcher loop true))

unfoldable set_child_watcher : Option AnyWatcher → TrioPolicy → Option AnyWatcher × TrioPolicy
set_child_watcher none s = (none, record s { watcher = none })
set_child_watcher (some w) s =
    let (chosen, closed) = replace_watcher w in (closed, record s { watcher = chosen })
