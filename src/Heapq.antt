-- ===== src/Heapq.antt =====
-- What trio_asyncio/_base.py uses of the standard library's `heapq`: a collection of timers, from
-- which the one with the least time is taken. `heapq` keeps it in a list whose first element,
-- `self._timers[0]`, is the one that `heappop` takes.
pub mod Selection
use mathlib.Core.List.{Perm}
use mathlib.Core.Option.{some-injective}
use trio_asyncio.Prelude.{subst, sym, ◌∙◌, inl, inr, ℕ, ◌≡◌, ◌⊎◌, Option, none, some, List, [], ◌∷◌}
use trio_asyncio.Prelude.Int.{ℤ, ◌≤ℤ◌}

-- A timer: its `_when` and the reference of its handle.
abbrev pub Timer : Type 0
Timer = ℤ × ℕ

-- No timer of the list is earlier than `when`.
abbrev pub NoEarlier : ℤ → List Timer → Type 0
NoEarlier when [] = Unit
NoEarlier when (x ∷ xs) = (when ≤ℤ x.0) × NoEarlier when xs

pub record Heapq : Type 1 where
  pub Heap : Type 0
  pub empty : Heap
  pub heappush : Timer → Heap → Heap
  -- `none` for an empty heap.
  pub heappop : Heap → Option (Timer × Heap)
  pub entries : Heap → List Timer
  pub entries-empty : entries empty ≡ []
  pub push_perm : (x : Timer) (h : Heap) → Perm (entries (heappush x h)) (x ∷ entries h)
  pub pop_cases :
      (h : Heap)
      → (entries h ≡ []) × (heappop h ≡ none)
        ⊎ ((x : Timer) × (g : Heap) × (heappop h ≡ some (x, g))
            × Perm (entries h) (x ∷ entries g)
            × NoEarlier x.0 (entries h))

-- A timer that is popped is among the earliest, and the others are left.
pub heappop_some :
    (q : Heapq) (h : q.Heap) (x : Timer) (g : q.Heap)
    → q.heappop h ≡ some (x, g)
    → Perm (q.entries h) (x ∷ q.entries g) × NoEarlier x.0 (q.entries h)
heappop_some q h x g e = elim (q.pop_cases h) [
  | inl (_, empty) ↦ absurd (cc)
  | inr (y, g', got, perm, least) ↦
      let same : ◌≡◌ {A = Timer × q.Heap} (y, g') (x, g) = some-injective _ _ (sym got ∙ e) in
      subst
        (λ (p : Timer × q.Heap).
          Perm (q.entries h) (p.0 ∷ q.entries p.1) × NoEarlier p.0.0 (q.entries h))
        same (perm, least)
]
