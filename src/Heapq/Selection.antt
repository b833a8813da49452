-- ===== src/Heapq/Selection.antt =====
-- A list from which the least timer is taken, which meets what is asked of `heapq`.
use mathlib.Core.List.{Perm}
use mathlib.Core.List.Perm
use trio_asyncio.Prelude.{
  ◌≡◌, refl, ◌⊎◌, inl, inr, Option, none, some, List, [], ◌∷◌, arith, if◌then◌else◌, Bool, true,
  false,
}
use trio_asyncio.Prelude.Int.{◌≤ℤ◌, leb_ℤ}
use trio_asyncio.Heapq.{Timer, NoEarlier, Heapq}

abbrev pub earlier : Timer → Timer → Timer
earlier m x = if leb_ℤ m.0 x.0 then m else x

abbrev pub later : Timer → Timer → Timer
later m x = if leb_ℤ m.0 x.0 then x else m

-- The least of a timer and a list, and the others.
abbrev pub select : Timer → List Timer → Timer × List Timer
select m [] = (m, [])
select m (x ∷ xs) = let r = select (earlier m x) xs in (r.0, later m x ∷ r.1)

if-perm :
    (b : Bool) (m x : Timer) (xs : List Timer)
    → Perm (m ∷ x ∷ xs) ((if b then x else m) ∷ (if b then m else x) ∷ xs)
if-perm true m x xs = Perm.swap x m xs
if-perm false m x xs = Perm.rfl

select-perm : (m : Timer) (xs : List Timer) → Perm (m ∷ xs) ((select m xs).0 ∷ (select m xs).1)
select-perm m [] = Perm.rfl
select-perm m (x ∷ xs) =
    Perm.trans (if-perm (leb_ℤ m.0 x.0) m x xs)
      (Perm.trans (Perm.cons (later m x) (select-perm (earlier m x) xs)) (Perm.swap _ _ _))

select-NoEarlier :
    (m : Timer) (xs : List Timer) → ((select m xs).0.0 ≤ℤ m.0) × NoEarlier (select m xs).0.0 xs
select-NoEarlier m [] = (omega arith, tt)
select-NoEarlier m (x ∷ xs) =
    let ih = select-NoEarlier (earlier m x) xs in
    let both : ((earlier m x).0 ≤ℤ m.0) × ((earlier m x).0 ≤ℤ x.0) = ground arith in
    (omega arith, (omega arith, ih.1))

abbrev pub pop : List Timer → Option (Timer × List Timer)
pop [] = none
pop (x ∷ xs) = some (select x xs)

pub pop_lem :
    (h : List Timer)
    → (h ≡ []) × (pop h ≡ none)
      ⊎ ((x : Timer) × (g : List Timer) × (pop h ≡ some (x, g)) × Perm h (x ∷ g) × NoEarlier x.0 h)
pop_lem [] = inl (refl, refl)
pop_lem (x ∷ xs) =
    inr ((select x xs).0, (select x xs).1, refl, select-perm x xs, select-NoEarlier x xs)

abbrev pub selection : Heapq
selection = record {
  Heap = List Timer;
  empty = [];
  heappush = λ x h. x ∷ h;
  heappop = pop;
  entries = λ h. h;
  entries-empty = refl;
  push_perm = λ x h. Perm.rfl;
  pop_cases = pop_lem;
}
