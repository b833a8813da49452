-- ===== src/Descriptors/Watching.antt =====
-- The task behind a reader or writer, and the set of descriptors to close.
use trio_asyncio.Prelude.{
  ℕ, ◌≡◌, refl, Bool, true, false, ◌||◌, none, some, List, [], ◌∷◌, ◌++◌, arith, append-nil,
  append_assoc, if◌then◌else◌,
}
use trio_asyncio.Descriptors.{
  Descriptors, ready, interrupted, os_error, other_error, Round, Io, reported, io_round, io_task,
  elem, discard, autoclose, no_autoclose,
}

-- The handle is cancelled before or during the round's wait.
abbrev pub is_cancelled : Round → Bool
is_cancelled r = r.before || r.after

-- What such a round still reports.
abbrev pub late : Round → List Io
late r = if r.before then [] else elim r.wait [
  | ready ↦ []
  | interrupted ↦ []
  | os_error n ↦ []
  | other_error n ↦ reported n ∷ []
]

io_round_cancelled : (r : Round) → is_cancelled r ≡ true → io_round r ≡ (late r, false)
unfolding io_round
io_round_cancelled r c = ground arith

-- Once the handle is cancelled, before a round or during its wait, the task ends without calling the
-- callback again, and what it has done is what it did in the rounds before. An `OSError` of the wait is
-- not reported; another exception of the wait in which the handle was cancelled still is.
pub io_task_cancelled :
    (pre post : List Round) (r : Round)
    → is_cancelled r ≡ true
    → io_task (pre ++ r ∷ post)
      ≡ ((io_task pre).0 ++ (if (io_task pre).1 then late r else []), false)
unfolding io_task
io_task_cancelled [] post r c = rw (io_round_cancelled r c) refl
io_task_cancelled (p ∷ pre) post r c =
    let done = append-nil (io_round p).0 in
    let rest = io_task_cancelled pre post r c in
    let later =
      append_assoc (io_round p).0 (io_task pre).0 (if (io_task pre).1 then late r else []) in
    ground (arith, rest, done, later)

elem-append : (x : ℕ) (xs : List ℕ) → elem x (xs ++ x ∷ []) ≡ true
elem-append x [] = ground arith
elem-append x (y ∷ xs) = ground (arith, elem-append x xs)

discard-append : (x : ℕ) (xs : List ℕ) → elem x xs ≡ false → discard x (xs ++ x ∷ []) ≡ xs
discard-append x [] e = ground arith
discard-append x (y ∷ xs) e = ground (arith, discard-append x xs)

-- `autoclose` twice is `autoclose` once, and `no_autoclose` takes it back, where the descriptor was
-- not marked before; a second `no_autoclose` is a `KeyError`.
autoclose-no_autoclose :
    (fd : ℕ) (s : Descriptors)
    → elem fd s.close_files ≡ false
    → (autoclose fd (autoclose fd s) ≡ autoclose fd s)
      × (no_autoclose fd (autoclose fd s) ≡ some s)
      × (no_autoclose fd s ≡ none)
unfolding autoclose no_autoclose
autoclose-no_autoclose fd s e =
    let marked = elem-append fd s.close_files in
    let back = discard-append fd s.close_files e in ground (arith, marked, back)
