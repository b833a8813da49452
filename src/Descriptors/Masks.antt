-- ===== src/Descriptors/Masks.antt =====
-- The mask of a selector's key and its handles, in `add_reader` and `add_writer`.
use trio_asyncio.Prelude.{
  ℕ, suc, ◌≡◌, refl, sym, Bool, true, false, Option, none, some, List, [], ◌∷◌, ◌++◌, ◌==◌, arith,
  update, if_ind, option_ind,
}
use mathlib.Core.Path.{subst}
use trio_asyncio.Exec.{Result}
use trio_asyncio.Descriptors.{
  Direction, reading, writing, Key, ScopedHandle, Descriptors, get_key, modify, new_key,
  with_handle, set_handle, cancel_old, start_io_task, add_io_handler,
}

abbrev pub is_some : Option ℕ → Bool
is_some none = false
is_some (some h) = true

-- The mask of each key names the directions that have a handle.
abbrev pub Masked : Key → Type 0
Masked key = (key.reads ≡ is_some key.reader) × (key.writes ≡ is_some key.writer)

abbrev pub AllMasked : List (ℕ × Key) → Type 0
AllMasked [] = Unit
AllMasked (x ∷ xs) = Masked x.1 × AllMasked xs

with_handle-Masked : (d : Direction) (h : ℕ) (key : Key) → Masked key → Masked (with_handle d h key)
with_handle-Masked reading h key m = (refl, m.1)
with_handle-Masked writing h key m = (m.0, refl)

new_key-Masked : (d : Direction) (h : ℕ) → Masked (new_key d h)
new_key-Masked reading h = (refl, refl)
new_key-Masked writing h = (refl, refl)

append-AllMasked :
    (xs : List (ℕ × Key)) (x : ℕ × Key) → AllMasked xs → Masked x.1 → AllMasked (xs ++ x ∷ [])
append-AllMasked [] x h m = (m, tt)
append-AllMasked (y ∷ xs) x h m = (h.0, append-AllMasked xs x h.1 m)

modify-AllMasked :
    (fd : ℕ) (key : Key) (xs : List (ℕ × Key))
    → AllMasked xs
    → Masked key
    → AllMasked (modify fd key xs)
modify-AllMasked fd key [] h m = tt
modify-AllMasked fd key (x ∷ xs) h m =
    if_ind AllMasked (x.0 == fd) _ _ (λ _. (m, h.1)) (λ _. (h.0, modify-AllMasked fd key xs h.1 m))

get_key-Masked :
    (fd : ℕ) (xs : List (ℕ × Key)) (key : Key)
    → AllMasked xs
    → get_key fd xs ≡ some key
    → Masked key
get_key-Masked fd [] key h e = absurd (cc)
get_key-Masked fd (x ∷ xs) key h e = ground (arith, h.0, get_key-Masked fd xs key h.1)

set_handle-AllMasked :
    (d : Direction) (fd h : ℕ) (xs : List (ℕ × Key))
    → AllMasked xs
    → AllMasked (set_handle d fd h xs).1
unfolding set_handle
set_handle-AllMasked d fd h xs m =
    option_ind (λ (r : Option ℕ × List (ℕ × Key)). AllMasked r.1) (get_key fd xs) _ _
      (λ _. append-AllMasked xs (fd, new_key d h) m (new_key-Masked d h))
      (λ key e.
        modify-AllMasked fd (with_handle d h key) xs m
          (with_handle-Masked d h key (get_key-Masked fd xs key m e)))

start_io_task-map :
    (o : Option ℕ) (fd h : ℕ) (s : Descriptors)
    → (start_io_task fd h (cancel_old o s)).1.map ≡ s.map
start_io_task-map none fd h s = ground arith
start_io_task-map (some o) fd h s = ground arith

-- `_add_io_handler` on a loop whose keys are consistent.
pub add_io_handler-AllMasked :
    (d : Direction) (fd : ℕ) (s : Descriptors)
    → AllMasked s.map
    → AllMasked (add_io_handler d fd s).1.map
unfolding add_io_handler
add_io_handler-AllMasked d fd s m =
    let n = s.next_handle in
    let new : ScopedHandle = record { cancelled = false; scope_cancelled = false } in
    let r = set_handle d fd n s.map in
    let s₁ = record s { handles = update s.handles n new; next_handle = suc n; map = r.1 } in
    if_ind (λ (r : Result (Option ℕ) × Descriptors). AllMasked r.1.map) s.closed _ _ (λ _. m)
      (λ _.
        subst AllMasked (sym (start_io_task-map r.0 fd n s₁)) (set_handle-AllMasked d fd n s.map m))
