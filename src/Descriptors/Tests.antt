-- ===== src/Descriptors/Tests.antt =====
-- Readers and writers at concrete values.
use trio_asyncio.Prelude.{
  ℕ, ◌≡◌, refl, ◌⊎◌, Bool, true, false, not, none, some, List, [], ◌∷◌, ◌++◌, ◌==◌, if◌then◌else◌,
}
use trio_asyncio.Descriptors.{
  Direction, reading, writing, Key, Descriptors, close_failed, Round, ready, other_error,
  synchronized, io_task, elem, cancel_fds,
}
use trio_asyncio.Descriptors.Cleanup.{AllStopped, all_handlers, marked, cancel_fds-AllStopped}
use trio_asyncio.Descriptors.Installing.{add_all, add_all-cancel_fds}
use trio_asyncio.Descriptors.Watching.{late, io_task_cancelled}

-- Descriptor 7 has a reader, descriptor 8 both; 8 and 9 are marked.
abbrev open_files : Descriptors
open_files = record {
  map =
      (7, record { reads = true; writes = false; reader = some 0; writer = none })
      ∷ (8, record { reads = true; writes = true; reader = some 1; writer = some 2 })
      ∷ [];
  handles = λ h. record { cancelled = h == 2; scope_cancelled = h == 2 };
  next_handle = 3;
  close_files = 9 ∷ 8 ∷ [];
  closed = false;
  entered = true;
  tasks = [];
  os_closed = [];
}

-- `os.close` fails on no descriptor, or on 8.
abbrev all_close : ℕ → Bool
all_close fd = true

abbrev closed_8 : ℕ → Bool
closed_8 fd = not (fd == 8)

-- A marked descriptor that has no reader or writer is left open.
open_files_closed : (cancel_fds all_close open_files).1.os_closed ≡ 8 ∷ []
unfolding cancel_fds
open_files_closed = refl

-- A marked descriptor that was closed already.
open_files_failing : (cancel_fds closed_8 open_files).0 ≡ some (close_failed 8)
unfolding cancel_fds
open_files_failing = refl

cancel_fds-AllStopped_example :
    let (r, s') = cancel_fds closed_8 open_files in
    (r ≡ none)
      × AllStopped s'.handles (all_handlers open_files.map)
      × (s'.os_closed ≡ [] ++ marked closed_8 open_files.close_files open_files.map)
    ⊎ ((pre : List (ℕ × Key)) × (x : ℕ × Key) × (post : List (ℕ × Key)) × (open_files.map
          ≡ pre ++ x ∷ post)
        × (elem x.0 open_files.close_files ≡ true)
        × (closed_8 x.0 ≡ false)
        × (r ≡ some (close_failed x.0))
        × AllStopped s'.handles (all_handlers (pre ++ x ∷ []))
        × (s'.os_closed ≡ [] ++ marked closed_8 open_files.close_files pre))
cancel_fds-AllStopped_example =
    cancel_fds-AllStopped closed_8 open_files ((refl, refl), ((refl, refl), tt))

-- A reader and a writer for 7, the second reader for it, and a reader for 8.
abbrev calls : List (Direction × ℕ)
calls = (reading, 7) ∷ (writing, 7) ∷ (reading, 7) ∷ (reading, 8) ∷ []

abbrev no_files : Descriptors
no_files = record open_files { map = [] }

add_all-cancel_fds_example :
    let s' = add_all calls no_files in
    let (r, s'') = cancel_fds closed_8 s' in
    (r ≡ none) × AllStopped s''.handles (all_handlers s'.map)
    ⊎ ((fd : ℕ) × (elem fd s'.close_files ≡ true)
        × (closed_8 fd ≡ false)
        × (r ≡ some (close_failed fd)))
add_all-cancel_fds_example = add_all-cancel_fds closed_8 calls no_files refl

abbrev round : Bool → Round
round after = record {
  before = false;
  wait = ready;
  after = after;
  exit = none;
  sync = synchronized;
}

-- Two rounds, after which the handle is cancelled in the wait, which fails.
abbrev failing : Round
failing = record (round true) { wait = other_error 5 }

io_task_cancelled_example : io_task ((round false ∷ []) ++ failing ∷ round false ∷ []) ≡ (
  (io_task (round false ∷ [])).0 ++ (if (io_task (round false ∷ [])).1 then late failing else []),
  false,
)
io_task_cancelled_example = io_task_cancelled (round false ∷ []) (round false ∷ []) failing refl
