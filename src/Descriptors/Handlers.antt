-- ===== src/Descriptors/Handlers.antt =====
-- What `add_reader` and `add_writer` change.
use trio_asyncio.Prelude.{
  ℕ, suc, ◌≡◌, sym, ap, ◌∙◌, inl, inr, Bool, true, false, Option, none, some, List, [], ◌∷◌, ◌++◌,
  ◌==◌, if◌then◌else◌, arith, update, if_ind, ==_iff, Option-cases, ◌&&◌, ◌<◌,
}
use trio_asyncio.Exec.{Result}
use trio_asyncio.Descriptors.{
  Direction, reading, writing, Key, ScopedHandle, Descriptors, get_key, modify, new_key,
  with_handle, handler, set_handle, cancel_old, start_io_task, add_io_handler,
}

abbrev pub found_handler : Direction → Option Key → Option ℕ
found_handler d none = none
found_handler d (some key) = handler d key

-- The handle that is installed for a descriptor.
abbrev pub installed : Direction → ℕ → List (ℕ × Key) → Option ℕ
installed d fd map = found_handler d (get_key fd map)

abbrev pub same_direction : Direction → Direction → Bool
same_direction reading reading = true
same_direction writing writing = true
same_direction reading writing = false
same_direction writing reading = false

get_key-modify :
    (fd fd' : ℕ) (key : Key) (map : List (ℕ × Key)) (old : Key)
    → get_key fd map ≡ some old
    → get_key fd' (modify fd key map) ≡ (if fd == fd' then some key else get_key fd' map)
get_key-modify fd fd' key [] old e = cc
get_key-modify fd fd' key (x ∷ xs) old e = ground (arith, get_key-modify fd fd' key xs old)

get_key-append :
    (fd fd' : ℕ) (key : Key) (map : List (ℕ × Key))
    → get_key fd map ≡ none
    → get_key fd' (map ++ (fd, key) ∷ []) ≡ (if fd == fd' then some key else get_key fd' map)
get_key-append fd fd' key [] e = ground arith
get_key-append fd fd' key (x ∷ xs) e = ground (arith, get_key-append fd fd' key xs)

-- The handler of `fd'` after one is set for `fd`.
installed-set_handle :
    (d : Direction) (fd h : ℕ) (map : List (ℕ × Key)) (d' : Direction) (fd' : ℕ)
    → installed d' fd' (set_handle d fd h map).1
      ≡ (if (fd == fd') && same_direction d d' then some h else installed d' fd' map)
unfolding set_handle
installed-set_handle d fd h map d' fd' =
    let same : (fd == fd') ≡ true → get_key fd' map ≡ get_key fd map =
      λ e. ap (λ n. get_key n map) (sym ((==_iff fd fd').0 e)) in
    elim (Option-cases (get_key fd map)) [
      | inl e ↦ ground (arith, same, e, get_key-append fd fd' (new_key d h) map e)
      | inr (key, e) ↦
          ground (arith, same, e, get_key-modify fd fd' (with_handle d h key) map key e)
    ]

abbrev pub replaced : Option ℕ → ℕ → Bool
replaced none h = false
replaced (some old) h = old == h

abbrev pub gone : ScopedHandle
gone = record { cancelled = true; scope_cancelled = true }

start_io_task-cancel_old :
    (o : Option ℕ) (fd h : ℕ) (s : Descriptors) (h' : ℕ)
    → let s' = (start_io_task fd h (cancel_old o s)).1 in
      (s'.map ≡ s.map)
      × (s'.handles h' ≡ (if replaced o h' then gone else s.handles h'))
      × (s'.tasks ≡ (if s.entered then s.tasks ++ (fd, h) ∷ [] else s.tasks))
start_io_task-cancel_old none fd h s h' = ground arith
start_io_task-cancel_old (some o) fd h s h' = ground arith

set_handle-replaces :
    (d : Direction) (fd h : ℕ) (map : List (ℕ × Key))
    → (set_handle d fd h map).0 ≡ installed d fd map
unfolding set_handle
set_handle-replaces d fd h map = ground arith

-- `add_reader` or `add_writer` on an open loop installs a new handle for the descriptor in its
-- direction and leaves every other installed handler as it is. The handle that it replaces, if there
-- was one, is cancelled with its scope, and no other; the task for the new handle is started if the
-- loop is entered.
add_io_handler-installed :
    (d : Direction) (fd : ℕ) (s : Descriptors) (d' : Direction) (fd' h : ℕ)
    → s.closed ≡ false
    → h < s.next_handle
    → let s' = (add_io_handler d fd s).1 in
      (installed d' fd' s'.map ≡ (
        if (fd == fd') && same_direction d d' then some s.next_handle else installed d' fd' s.map))
      × (s'.handles h ≡ (if replaced (installed d fd s.map) h then gone else s.handles h))
      × (s'.tasks ≡ (if s.entered then s.tasks ++ (fd, s.next_handle) ∷ [] else s.tasks))
unfolding add_io_handler
add_io_handler-installed d fd s d' fd' h opened below =
    let n = s.next_handle in
    let new : ScopedHandle = record { cancelled = false; scope_cancelled = false } in
    let r = set_handle d fd n s.map in
    let s₁ = record s { handles = update s.handles n new; next_handle = suc n; map = r.1 } in
    let e = start_io_task-cancel_old r.0 fd n s₁ h in
    let same = set_handle-replaces d fd n s.map in
    let older : update s.handles n new h ≡ s.handles h = ground arith in
    if_ind
      (λ (r : Result (Option ℕ) × Descriptors).
        (installed d' fd' r.1.map ≡ (
          if (fd == fd') && same_direction d d'
          then some s.next_handle
          else installed d' fd' s.map))
        × (r.1.handles h ≡ (if replaced (installed d fd s.map) h then gone else s.handles h))
        × (r.1.tasks ≡ (if s.entered then s.tasks ++ (fd, s.next_handle) ∷ [] else s.tasks)))
      s.closed _ _ (λ c. absurd (cc))
      (λ _. (
        ap (installed d' fd') e.0 ∙ installed-set_handle d fd n s.map d' fd',
        e.1
            ∙ ap (λ o. if replaced o h then gone else update s.handles n new h) same
            ∙ ap (λ a. if replaced (installed d fd s.map) h then gone else a) older,
        e.2,
      ))
