-- ===== src/Exceptions/Collapse.antt =====
-- What `collapse_exception_group` and `collapse_aware_exception_split` do to an exception.
use mathlib.Core.Path.{ap₂}
use trio_asyncio.Prelude.{
  ℕ, ◌≡◌, refl, sym, ◌∙◌, Bool, true, false, ◌&&◌, Option, none, some, List, ◌++◌, arith,
  append-nil, keep,
}
use trio_asyncio.Exceptions.{
  ExcType, Exc, leaf, group, Excs, nil, cons, prepend_tb, finish_collapse, collapse_exception_group,
  collapse_members, collapse_part, collapse_aware_exception_split,
}
use trio_asyncio.Exceptions.Split.{leaves, all_leaves, part_leaves, matches, misses, split-Parts}

leaves-prepend_tb : (tb : List ℕ) (e : Exc) → leaves (prepend_tb tb e) ≡ leaves e
unfolding prepend_tb
leaves-prepend_tb tb (leaf k n own) = refl
leaves-prepend_tb tb (group c own es) = refl

abbrev is_single : Excs → Bool
is_single nil = false
is_single (cons e nil) = true
is_single (cons e (cons f es)) = false

abbrev mutual
  -- No marked group with a single member is left, at any depth.
  pub IsCollapsed : Exc → Type 0
  IsCollapsed (leaf k n tb) = Unit
  IsCollapsed (group c tb es) = ((is_single es && c) ≡ false) × AllCollapsed es

  pub AllCollapsed : Excs → Type 0
  AllCollapsed nil = Unit
  AllCollapsed (cons e es) = IsCollapsed e × AllCollapsed es

IsCollapsed-prepend_tb : (tb : List ℕ) (e : Exc) → IsCollapsed e → IsCollapsed (prepend_tb tb e)
unfolding prepend_tb
IsCollapsed-prepend_tb tb (leaf k n own) h = tt
IsCollapsed-prepend_tb tb (group c own es) h = h

module _ (derive_mark : Bool → Bool) where
  leaves-finish :
      (c : Bool) (tb : List ℕ) (old new : Excs) (m : Bool)
      → all_leaves new ≡ all_leaves old
      → leaves (finish_collapse derive_mark c tb old new m).0 ≡ all_leaves old
  unfolding finish_collapse
  leaves-finish true tb old (cons e nil) m h =
      leaves-prepend_tb tb e ∙ sym (append-nil (leaves e)) ∙ h
  leaves-finish true tb old nil true h = h
  leaves-finish true tb old nil false h = refl
  leaves-finish true tb old (cons e (cons f es)) true h = h
  leaves-finish true tb old (cons e (cons f es)) false h = refl
  leaves-finish false tb old new true h = h
  leaves-finish false tb old new false h = refl

  mutual
    unfolding collapse_exception_group

    -- Collapsing drops no exception from a group, and keeps their order.
    pub leaves-collapse : (e : Exc) → leaves (collapse_exception_group derive_mark e).0 ≡ leaves e
    leaves-collapse (leaf k n tb) = refl
    leaves-collapse (group c tb es) =
        leaves-finish c tb es (collapse_members derive_mark es).0
          (collapse_members derive_mark es).1 (leaves-collapse_members es)

    leaves-collapse_members :
        (es : Excs) → all_leaves (collapse_members derive_mark es).0 ≡ all_leaves es
    leaves-collapse_members nil = refl
    leaves-collapse_members (cons e es) = ap₂ ◌++◌ (leaves-collapse e) (leaves-collapse_members es)

  finish-same :
      (c : Bool) (tb : List ℕ) (old new : Excs) (m : Bool)
      → (finish_collapse derive_mark c tb old new m).1 ≡ false
      → (finish_collapse derive_mark c tb old new m).0 ≡ group c tb old
  unfolding finish_collapse
  finish-same true tb old (cons e nil) m h = cc
  finish-same true tb old nil true h = cc
  finish-same true tb old nil false h = refl
  finish-same true tb old (cons e (cons f es)) true h = cc
  finish-same true tb old (cons e (cons f es)) false h = refl
  finish-same false tb old new true h = cc
  finish-same false tb old new false h = refl

  mutual
    unfolding collapse_exception_group

    -- An object that is handed back as the same object is unchanged.
    unmodified-eq :
        (es : Excs)
        → (collapse_members derive_mark es).1 ≡ false
        → (collapse_members derive_mark es).0 ≡ es
    unmodified-eq nil h = refl
    unmodified-eq (cons e es) h =
        ap₂ cons (same-eq e (ground arith)) (unmodified-eq es (ground arith))

    same-eq :
        (e : Exc)
        → (collapse_exception_group derive_mark e).1 ≡ false
        → (collapse_exception_group derive_mark e).0 ≡ e
    same-eq (leaf k n tb) h = refl
    same-eq (group c tb es) h =
        finish-same c tb es (collapse_members derive_mark es).0 (collapse_members derive_mark es).1
          h

  finish-IsCollapsed :
      (c : Bool) (tb : List ℕ) (old new : Excs) (m : Bool)
      → derive_mark false ≡ false
      → AllCollapsed new
      → (m ≡ false → new ≡ old)
      → IsCollapsed (finish_collapse derive_mark c tb old new m).0
  unfolding finish_collapse
  finish-IsCollapsed true tb old (cons e nil) m d h same = IsCollapsed-prepend_tb tb e h.0
  finish-IsCollapsed true tb old nil true d h same = (refl, h)
  finish-IsCollapsed true tb old nil false d h same = rw (← same refl) (refl, h)
  finish-IsCollapsed true tb old (cons e (cons f es)) true d h same = (refl, h)
  finish-IsCollapsed true tb old (cons e (cons f es)) false d h same = rw (← same refl) (refl, h)
  finish-IsCollapsed false tb old new true d h same = (ground arith, h)
  finish-IsCollapsed false tb old new false d h same = rw (← same refl) (ground arith, h)

  mutual
    unfolding collapse_exception_group

    collapse-IsCollapsed :
        derive_mark false ≡ false
        → (e : Exc) → IsCollapsed (collapse_exception_group derive_mark e).0
    collapse-IsCollapsed d (leaf k n tb) = tt
    collapse-IsCollapsed d (group c tb es) =
        finish-IsCollapsed c tb es (collapse_members derive_mark es).0
          (collapse_members derive_mark es).1 d (collapse_members-IsCollapsed d es)
          (unmodified-eq es)

    collapse_members-IsCollapsed :
        derive_mark false ≡ false → (es : Excs) → AllCollapsed (collapse_members derive_mark es).0
    collapse_members-IsCollapsed d nil = tt
    collapse_members-IsCollapsed d (cons e es) =
        (collapse-IsCollapsed d e, collapse_members-IsCollapsed d es)

  finish_collapsed :
      (c : Bool) (tb : List ℕ) (es : Excs)
      → (is_single es && c) ≡ false
      → finish_collapse derive_mark c tb es es false ≡ (group c tb es, false)
  unfolding finish_collapse
  finish_collapsed true tb nil h = refl
  finish_collapsed true tb (cons e nil) h = cc
  finish_collapsed true tb (cons e (cons f es)) h = refl
  finish_collapsed false tb es h = refl

  mutual
    unfolding collapse_exception_group

    -- A collapsed exception is handed back as the same object.
    collapse_fixed : (e : Exc) → IsCollapsed e → collapse_exception_group derive_mark e ≡ (e, false)
    collapse_fixed (leaf k n tb) h = refl
    collapse_fixed (group c tb es) h =
        rw (collapse_members_fixed es h.1) (finish_collapsed c tb es h.0)

    collapse_members_fixed :
        (es : Excs) → AllCollapsed es → collapse_members derive_mark es ≡ (es, false)
    collapse_members_fixed nil h = refl
    collapse_members_fixed (cons e es) h =
        rw (collapse_fixed e h.0, collapse_members_fixed es h.1) refl

  -- `collapse_exception_group` leaves no marked group with a single member, at any depth, keeps the
  -- exceptions in the group and their order, and returns its own result again, as the same object,
  -- if it is called on it. The condition is that `derive` puts no mark on a group that had none.
  pub collapse_normalises :
      derive_mark false ≡ false
      → (e : Exc)
      → let r = (collapse_exception_group derive_mark e).0 in
        IsCollapsed r
        × (leaves r ≡ leaves e)
        × (collapse_exception_group derive_mark r ≡ (r, false))
  collapse_normalises d e =
      let c = collapse-IsCollapsed d e in (c, leaves-collapse e, collapse_fixed _ c)

  leaves-collapse_part :
      (o : Option Exc) → part_leaves (collapse_part derive_mark o) ≡ part_leaves o
  leaves-collapse_part none = refl
  leaves-collapse_part (some e) = leaves-collapse e

  -- The first result of `collapse_aware_exception_split` holds exactly the exceptions of the given
  -- type, the second exactly the others, each in the order in which they stood in the groups.
  pub collapse_aware_split_partitions :
      (t : ExcType) (e : Exc)
      → let r = collapse_aware_exception_split derive_mark t e in
        (part_leaves r.0 ≡ keep (matches t) (leaves e))
        × (part_leaves r.1 ≡ keep (misses t) (leaves e))
  unfolding collapse_aware_exception_split
  collapse_aware_split_partitions t (leaf k n tb) = ground arith
  collapse_aware_split_partitions t (group c tb es) =
      let parts = split-Parts t (group c tb es) in
      (leaves-collapse_part _ ∙ parts.0, leaves-collapse_part _ ∙ parts.1)
