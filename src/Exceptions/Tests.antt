-- ===== src/Exceptions/Tests.antt =====
-- Exception groups at concrete values.
use trio_asyncio.Prelude.{◌≡◌, refl, Bool, true, false, some, [], ◌∷◌, keep}
use trio_asyncio.Exceptions.{
  error, cancelled, trio_cancelled, Exc, leaf, group, nil, cons, split, concat_tb, prepend_tb,
  collapse_exception_group, collapse_aware_exception_split,
}
use trio_asyncio.Exceptions.Split.{leaves, part_leaves, matches, misses}
use trio_asyncio.Exceptions.Collapse.{
  IsCollapsed, collapse_normalises, collapse_aware_split_partitions,
}

-- A derived group has the mark of the group.
abbrev same_mark : Bool → Bool
same_mark b = b

-- Two marked groups around a group of an error and a cancellation.
abbrev nested : Exc
nested = group true (1 ∷ []) (
    cons
      (group true (2 ∷ [])
        (cons (group false (3 ∷ []) (cons (leaf error 7 []) (cons (leaf cancelled 8 []) nil))) nil))
      nil)

nested_collapsed :
    collapse_exception_group same_mark nested
    ≡ (group false (1 ∷ 2 ∷ 3 ∷ []) (cons (leaf error 7 []) (cons (leaf cancelled 8 []) nil)), true)
unfolding collapse_exception_group concat_tb prepend_tb
nested_collapsed = refl

nested_split : collapse_aware_exception_split same_mark trio_cancelled nested ≡ (
  some (group false (1 ∷ 2 ∷ 3 ∷ []) (cons (leaf cancelled 8 []) nil)),
  some (group false (1 ∷ 2 ∷ 3 ∷ []) (cons (leaf error 7 []) nil)),
)
unfolding collapse_aware_exception_split concat_tb prepend_tb split collapse_exception_group
nested_split = refl

collapse_normalises_example :
    let r = (collapse_exception_group same_mark nested).0 in
    IsCollapsed r × (leaves r ≡ leaves nested) × (collapse_exception_group same_mark r ≡ (r, false))
collapse_normalises_example = collapse_normalises same_mark refl nested

collapse_aware_split_partitions_example :
    let r = collapse_aware_exception_split same_mark trio_cancelled nested in
    (part_leaves r.0 ≡ keep (matches trio_cancelled) (leaves nested))
    × (part_leaves r.1 ≡ keep (misses trio_cancelled) (leaves nested))
collapse_aware_split_partitions_example =
    collapse_aware_split_partitions same_mark trio_cancelled nested
