-- ===== src/Descriptors/Installing.antt =====
-- From `add_reader` and `add_writer` to `_cancel_fds`.
use trio_asyncio.Prelude.{
  ℕ, ◌≡◌, sym, subst, ◌⊎◌, inl, inr, Bool, true, false, none, some, List, [], ◌∷◌,
}
use trio_asyncio.Descriptors.{
  Direction, Descriptors, add_io_handler, elem, close_failed, cancel_fds,
}
use trio_asyncio.Descriptors.Masks.{AllMasked, add_io_handler-AllMasked}
use trio_asyncio.Descriptors.Cleanup.{AllStopped, all_handlers, cancel_fds-AllStopped}

-- Calls of `add_reader` and `add_writer`, one after the other; one that raises changes nothing.
abbrev pub add_all : List (Direction × ℕ) → Descriptors → Descriptors
add_all [] s = s
add_all (c ∷ cs) s = add_all cs (add_io_handler c.0 c.1 s).1

add_all-AllMasked :
    (calls : List (Direction × ℕ)) (s : Descriptors)
    → AllMasked s.map
    → AllMasked (add_all calls s).map
add_all-AllMasked [] s m = m
add_all-AllMasked (c ∷ cs) s m =
    add_all-AllMasked cs (add_io_handler c.0 c.1 s).1 (add_io_handler-AllMasked c.0 c.1 s m)

-- On a selector that was empty, after any calls of `add_reader` and `add_writer`: `_cancel_fds` fails no
-- assertion. It stops each handle that these have left installed, or an `OSError` of closing a
-- descriptor that is marked by `autoclose` leaves it.
pub add_all-cancel_fds :
    (can_close : ℕ → Bool) (calls : List (Direction × ℕ)) (s : Descriptors)
    → s.map ≡ []
    → let s' = add_all calls s in
      let (r, s'') = cancel_fds can_close s' in
      (r ≡ none) × AllStopped s''.handles (all_handlers s'.map)
      ⊎ ((fd : ℕ) × (elem fd s'.close_files ≡ true)
          × (can_close fd ≡ false)
          × (r ≡ some (close_failed fd)))
add_all-cancel_fds can_close calls s e =
    let s' = add_all calls s in
    let masked = add_all-AllMasked calls s (subst AllMasked (sym e) tt) in
    elim (cancel_fds-AllStopped can_close s' masked) [
      | inl (returns, stopped, _) ↦ inl (returns, stopped)
      | inr (_, x, _, _, is_marked, fails, raises, _, _) ↦ inr (x.0, is_marked, fails, raises)
    ]
