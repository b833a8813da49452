-- ===== src/Descriptors.antt =====
-- Readers and writers of file descriptors in trio_asyncio/_base.py: `add_reader`, `add_writer`, the
-- task behind each of them, `autoclose`, and `_cancel_fds`. The selector's map is a list in its order.
-- asyncio's own `remove_reader` and `remove_writer` are not in this repository.
pub mod Handlers
pub mod Masks
pub mod Cleanup
pub mod Installing
pub mod Watching
mod Tests
use trio_asyncio.Prelude.{
  ℕ, suc, ◌≡◌, Bool, true, false, Option, none, some, List, [], ◌∷◌, ◌++◌, ◌==◌, if◌then◌else◌,
  update,
}
use trio_asyncio.Exec.{Result, ok, err, Exec, runtime_error}

-- `EVENT_READ` or `EVENT_WRITE`
pub data Direction : Type 0 where
  reading writing : Direction

-- A key of the selector: its mask, bit by bit, and its data `(reader, writer)`.
pub record Key : Type 0 where
  pub reads : Bool
  pub writes : Bool
  pub reader : Option ℕ
  pub writer : Option ℕ

-- A `ScopedHandle`: `_cancelled`, and whether its scope is cancelled.
pub record ScopedHandle : Type 0 where
  pub cancelled : Bool
  pub scope_cancelled : Bool

-- `entered` says that `_token` is set; `tasks` are the `_io_task`s started in the nursery, with file
-- descriptor and handle; `os_closed` lists the descriptors that `os.close` has closed.
pub record Descriptors : Type 0 where
  pub map : List (ℕ × Key)
  pub handles : ℕ → ScopedHandle
  pub next_handle : ℕ
  pub close_files : List ℕ
  pub closed : Bool
  pub entered : Bool
  pub tasks : List (ℕ × ℕ)
  pub os_closed : List ℕ

-- `self._selector.get_key(fd)`
abbrev pub get_key : ℕ → List (ℕ × Key) → Option Key
get_key fd [] = none
get_key fd (x ∷ xs) = if x.0 == fd then some x.1 else get_key fd xs

-- `self._selector.modify(fd, …)`
abbrev pub modify : ℕ → Key → List (ℕ × Key) → List (ℕ × Key)
modify fd key [] = []
modify fd key (x ∷ xs) = if x.0 == fd then (fd, key) ∷ xs else x ∷ modify fd key xs

-- The key that `_set_read_handle` and `_set_write_handle` register.
abbrev pub new_key : Direction → ℕ → Key
new_key reading h = record { reads = true; writes = false; reader = some h; writer = none }
new_key writing h = record { reads = false; writes = true; reader = none; writer = some h }

-- `mask | EVENT_READ, (handle, writer)`, and the same for writing.
abbrev pub with_handle : Direction → ℕ → Key → Key
with_handle reading h key = record key { reads = true; reader = some h }
with_handle writing h key = record key { writes = true; writer = some h }

abbrev pub handler : Direction → Key → Option ℕ
handler reading key = key.reader
handler writing key = key.writer

-- `_set_read_handle` and `_set_write_handle`: the old handle, and the new map.
unfoldable pub set_handle : Direction → ℕ → ℕ → List (ℕ × Key) → Option ℕ × List (ℕ × Key)
set_handle d fd h map = elim (get_key fd map) [
  | none ↦ (none, map ++ (fd, new_key d h) ∷ [])
  | some key ↦ (handler d key, modify fd (with_handle d h key) map)
]

-- `if old_handle is not None: old_handle.cancel()`, with `_trio_io_cancel`.
abbrev pub cancel_old : Option ℕ → Descriptors → Descriptors
cancel_old none s = s
cancel_old (some h) s = record s {
  handles = update s.handles h (record { cancelled = true; scope_cancelled = true });
}

-- `if self._token is None: return None`, else the task is started.
abbrev pub start_io_task : ℕ → ℕ → Exec Descriptors (Option ℕ)
start_io_task fd h s =
    if s.entered then (ok (some h), record s { tasks = s.tasks ++ (fd, h) ∷ [] }) else (ok none, s)

-- `_add_io_handler`, with asyncio's `_check_closed`.
unfoldable pub add_io_handler : Direction → ℕ → Exec Descriptors (Option ℕ)
unfolding set_handle
add_io_handler d fd s =
    if s.closed
    then (err runtime_error, s)
    else (let h = s.next_handle in
        let new : ScopedHandle = record { cancelled = false; scope_cancelled = false } in
        let (old, map) = set_handle d fd h s.map in
        start_io_task fd h (
          cancel_old old
            (record s { handles = update s.handles h new; next_handle = suc h; map = map })))

-- `add_reader` and `add_writer`; `busy` is asyncio's test that a transport uses the descriptor.
unfoldable pub add_handler : (busy : ℕ → Bool) → Direction → ℕ → Exec Descriptors (Option ℕ)
unfolding add_io_handler
add_handler busy d fd s = if busy fd then (err runtime_error, s) else add_io_handler d fd s

abbrev pub elem : ℕ → List ℕ → Bool
elem x [] = false
elem x (y ∷ ys) = if x == y then true else elem x ys

abbrev pub discard : ℕ → List ℕ → List ℕ
discard x [] = []
discard x (y ∷ ys) = if x == y then ys else y ∷ discard x ys

-- `autoclose`; `_close_files` is a set.
unfoldable pub autoclose : ℕ → Descriptors → Descriptors
autoclose fd s =
    if elem fd s.close_files then s else record s { close_files = s.close_files ++ fd ∷ [] }

-- `no_autoclose`; `none` is the `KeyError`.
unfoldable pub no_autoclose : ℕ → Descriptors → Option Descriptors
no_autoclose fd s =
    if elem fd s.close_files
    then some (record s { close_files = discard fd s.close_files })
    else none

-- `if not handle._cancelled: handle._scope.cancel()`
abbrev pub cancel_scope : ℕ → Descriptors → Descriptors
cancel_scope h s =
    if (s.handles h).cancelled
    then s
    else record s { handles = update s.handles h (record (s.handles h) { scope_cancelled = true }) }

-- What leaves `_cancel_fds`: the `assert` fails, or `os.close` of this descriptor raises an `OSError`.
pub data Failure : Type 0 where
  assertion : Failure
  close_failed : (fd : ℕ) → Failure

-- A part of `_cancel_fds`: `none` if it ends, or what it raises.
abbrev pub Cleanup : Type 0
Cleanup = Descriptors → Option Failure × Descriptors

abbrev pub unless_failed : Option Failure → Cleanup → Cleanup
unless_failed none k s = k s
unless_failed (some e) k s = (some e, s)

abbrev pub then_next : Cleanup → Cleanup → Cleanup
then_next m k s = let (r, s') = m s in unless_failed r k s'

-- The body of the inner loop of `_cancel_fds`, for one flag of the mask.
abbrev pub cancel_flag : Bool → Option ℕ → Cleanup
cancel_flag false h s = (none, s)
cancel_flag true none s = (some assertion, s)
cancel_flag true (some h) s = (none, cancel_scope h s)

-- `can_close` says for which descriptors `os.close` succeeds: it fails on one that is closed already.
module _ (can_close : ℕ → Bool) where
  -- `os.close(fd)`
  abbrev pub os_close : ℕ → Cleanup
  os_close fd s =
      if can_close fd
      then (none, record s { os_closed = s.os_closed ++ fd ∷ [] })
      else (some (close_failed fd), s)

  -- `if fd in self._close_files: os.close(fd)`
  abbrev pub close_marked : ℕ → Cleanup
  close_marked fd s = if elem fd s.close_files then os_close fd s else (none, s)

  unfoldable pub cancel_keys : List (ℕ × Key) → Cleanup
  cancel_keys [] s = (none, s)
  cancel_keys (x ∷ xs) s =
      then_next (cancel_flag x.1.reads x.1.reader)
        (then_next (cancel_flag x.1.writes x.1.writer)
          (then_next (close_marked x.0) (cancel_keys xs)))
        s

  -- `_cancel_fds`
  unfoldable pub cancel_fds : Cleanup
  unfolding cancel_keys
  cancel_fds s = cancel_keys s.map s

-- How `await wait_ready(fd)` ends: the descriptor is ready, an `OSError` or another `Exception` is
-- raised, such as `trio.ClosedResourceError`, or the handle's scope ends the wait.
pub data Wait : Type 0 where
  ready interrupted : Wait
  os_error other_error : ℕ → Wait

-- How `await self.synchronize()` ends: it returns, its handle cannot be queued, or the scope ends it.
pub data Synchronized : Type 0 where
  synchronized sync_interrupted : Synchronized
  refused : ℕ → Synchronized

-- One round of `_io_task`: whether the handle is cancelled before the wait and after it, and the
-- `SystemExit` or `KeyboardInterrupt` of the callback, which `handle._run()` lets through.
pub record Round : Type 0 where
  pub before : Bool
  pub wait : Wait
  pub after : Bool
  pub exit : Option ℕ
  pub sync : Synchronized

-- What the task does: it runs the callback, reports an exception by `handle._raise`, or ends with one.
pub data Io : Type 0 where
  called : Io
  reported : ℕ → Io
  left_with : ℕ → Io

-- `await self.synchronize()` after the callback.
abbrev pub after_callback : Synchronized → List Io × Bool
after_callback synchronized = (called ∷ [], true)
after_callback sync_interrupted = (called ∷ [], false)
after_callback (refused n) = (called ∷ reported n ∷ [], false)

-- One round of `_io_task`: what is done, and whether the loop goes on.
unfoldable pub io_round : Round → List Io × Bool
io_round r = if r.before then ([], false) else elim r.wait [
  | interrupted ↦ ([], false)
  | os_error n ↦ if r.after then ([], false) else (reported n ∷ [], false)
  | other_error n ↦ (reported n ∷ [], false)
  | ready ↦ if r.after then ([], false) else elim r.exit [
    | some n ↦ (called ∷ left_with n ∷ [], false)
    | none ↦ after_callback r.sync
  ]
]

-- `_io_task`: what it does in these rounds, and whether it still runs.
unfoldable pub io_task : List Round → List Io × Bool
unfolding io_round
io_task [] = ([], true)
io_task (r ∷ rs) =
    let rest = io_task rs in
    if (io_round r).1 then ((io_round r).0 ++ rest.0, rest.1) else ((io_round r).0, false)
