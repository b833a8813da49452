-- ===== src/Children.antt =====
-- Child processes: `TrioChildWatcher` in trio_asyncio/_loop.py, and `_compute_returncode` in
-- trio_asyncio/_child.py. `ProcessWaiter` is in Waiters; `TrioChildWatcher._waitpid`, which waits with
-- it, in Exits, and the transport of a subprocess in Spawning. The futures of `trio_as_future` are
-- numbers; `cancelled` says on which of them `cancel` was called.
pub mod Watching
pub mod Waiters
pub mod Exits
mod Spawning
mod Choosing
use trio_asyncio.Prelude.{
  ℕ, suc, ◌≡◌, Bool, true, false, Option, none, some, List, [], ◌∷◌, ◌++◌, ◌==◌, if◌then◌else◌,
  update,
}
use trio_asyncio.Prelude.Int.{ℤ, pos, ◌-ℤ◌}
use trio_asyncio.Exec.{Result, ok, err, Exec, attribute_error}

-- `_callbacks` is a dictionary in its order.
pub record Watcher : Type 0 where
  pub loop : Option ℕ
  pub callbacks : List (ℕ × ℕ)
  pub cancelled : ℕ → Bool
  pub next_future : ℕ

-- `TrioChildWatcher()`
unfoldable pub new_watcher : Watcher
new_watcher = record { loop = none; callbacks = []; cancelled = λ f. false; next_future = 0 }

unfoldable pub attach_loop : Option ℕ → Watcher → Watcher
attach_loop loop s = record s { loop = loop }

-- `self._callbacks[pid] = h`
abbrev pub store : ℕ → ℕ → List (ℕ × ℕ) → List (ℕ × ℕ)
store pid f [] = (pid, f) ∷ []
store pid f (x ∷ xs) = if x.0 == pid then (pid, f) ∷ xs else x ∷ store pid f xs

abbrev pub lookup : ℕ → List (ℕ × ℕ) → Option ℕ
lookup pid [] = none
lookup pid (x ∷ xs) = if x.0 == pid then some x.1 else lookup pid xs

abbrev pub remove : ℕ → List (ℕ × ℕ) → List (ℕ × ℕ)
remove pid [] = []
remove pid (x ∷ xs) = if x.0 == pid then xs else x ∷ remove pid xs

abbrev pub cancel_future : ℕ → Watcher → Watcher
cancel_future f s = record s { cancelled = update s.cancelled f true }

-- `add_child_handler`; with no loop attached it is an `AttributeError`.
unfoldable pub add_child_handler : ℕ → Exec Watcher (Unit {0})
add_child_handler pid s = elim s.loop [
  | none ↦ (err attribute_error, s)
  | some _ ↦ (
    ok tt,
    record s { callbacks = store pid s.next_future s.callbacks; next_future = suc s.next_future },
  )
]

-- `remove_child_handler`: whether there was one.
unfoldable pub remove_child_handler : ℕ → Watcher → Bool × Watcher
remove_child_handler pid s = elim (lookup pid s.callbacks) [
  | none ↦ (false, s)
  | some f ↦ (true, cancel_future f (record s { callbacks = remove pid s.callbacks }))
]

-- The loop of `close` over the list of the keys.
unfoldable pub remove_all : List (ℕ × ℕ) → Watcher → Watcher
unfolding remove_child_handler
remove_all [] s = s
remove_all (x ∷ xs) s = remove_all xs (remove_child_handler x.0 s).1

-- `close`
unfoldable pub close : Watcher → Watcher
unfolding remove_all
close s = record (remove_all s.callbacks s) { loop = none }

-- `__enter__` and `__exit__`
abbrev pub watcher_enter : Watcher → Watcher
watcher_enter s = s

unfoldable pub watcher_exit : Watcher → Watcher
unfolding close
watcher_exit s = close s

-- What `os` says of a wait status.
pub record Statuses : Type 0 where
  pub signaled : ℕ → Bool
  pub term_signal : ℕ → ℕ
  pub exited : ℕ → Bool
  pub exit_status : ℕ → ℕ
  pub was_stopped : ℕ → Bool
  pub stop_signal : ℕ → ℕ

-- `_compute_returncode`; `none` is an `UnknownStatus`.
unfoldable pub compute_returncode : Statuses → ℕ → Option ℤ
compute_returncode os status =
    if os.signaled status
    then some (pos 0 -ℤ pos (os.term_signal status))
    else if os.exited status
    then some (pos (os.exit_status status))
    else if os.was_stopped status
    then some (pos 0 -ℤ pos (os.stop_signal status))
    else none
