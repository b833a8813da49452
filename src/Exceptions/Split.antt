-- ===== src/Exceptions/Split.antt =====
-- What `exc.split` and `collapse_aware_exception_split` keep: the exceptions in the groups, in
-- their order.
use mathlib.Core.Path.{ap₂}
use trio_asyncio.Prelude.{
  ℕ, ◌≡◌, refl, sym, ◌∙◌, Bool, true, false, not, Option, none, some, List, [], ◌∷◌, ◌++◌, arith,
  keep, keep-append,
}
use trio_asyncio.Exceptions.{
  Kind, ExcType, exception, trio_cancelled, Exc, leaf, group, Excs, nil, cons, kind_is, is_instance,
  all_instances, keep_some, subset, split_group, split, split_all,
}

-- The exceptions that are no groups, in order: class and name.
abbrev mutual
  pub leaves : Exc → List (Kind × ℕ)
  leaves (leaf k n tb) = (k, n) ∷ []
  leaves (group c tb es) = all_leaves es

  pub all_leaves : Excs → List (Kind × ℕ)
  all_leaves nil = []
  all_leaves (cons e es) = leaves e ++ all_leaves es

abbrev pub part_leaves : Option Exc → List (Kind × ℕ)
part_leaves none = []
part_leaves (some e) = leaves e

abbrev pub matches : ExcType → Kind × ℕ → Bool
matches t l = kind_is t l.0

abbrev pub misses : ExcType → Kind × ℕ → Bool
misses t l = not (kind_is t l.0)

keep_both :
    (p : Kind × ℕ → Bool) (xs ys xs' ys' : List (Kind × ℕ))
    → keep p xs ≡ xs'
    → keep p ys ≡ ys'
    → keep p (xs ++ ys) ≡ xs' ++ ys'
keep_both p xs ys xs' ys' hx hy = keep-append p xs ys ∙ ap₂ ◌++◌ hx hy

mutual
  unfolding is_instance

  keep_instance :
      (t : ExcType) (e : Exc)
      → is_instance t e ≡ true
      → (keep (matches t) (leaves e) ≡ leaves e) × (keep (misses t) (leaves e) ≡ [])
  keep_instance t (leaf k n tb) h = ground arith
  keep_instance exception (group c tb es) h = keep_instances exception es h
  keep_instance trio_cancelled (group c tb es) h = cc

  keep_instances :
      (t : ExcType) (es : Excs)
      → all_instances t es ≡ true
      → (keep (matches t) (all_leaves es) ≡ all_leaves es) × (keep (misses t) (all_leaves es) ≡ [])
  keep_instances t nil h = (refl, refl)
  keep_instances t (cons e es) h =
      let first = keep_instance t e (ground arith) in
      let rest = keep_instances t es (ground arith) in
      (keep_both (matches t) _ _ _ _ first.0 rest.0, keep_both (misses t) _ _ _ _ first.1 rest.1)

-- The two parts that stand for `keep` by a test and by its negation.
abbrev pub Parts : ExcType → List (Kind × ℕ) → List (Kind × ℕ) → List (Kind × ℕ) → Type 0
Parts t whole match rest = (match ≡ keep (matches t) whole) × (rest ≡ keep (misses t) whole)

leaves-keep_some :
    (o : Option Exc) (es : Excs) → all_leaves (keep_some o es) ≡ part_leaves o ++ all_leaves es
leaves-keep_some none es = refl
leaves-keep_some (some e) es = refl

leaves-subset : (c : Bool) (tb : List ℕ) (es : Excs) → part_leaves (subset c tb es) ≡ all_leaves es
leaves-subset c tb nil = refl
leaves-subset c tb (cons e es) = refl

split_group-Parts :
    (t : ExcType) (b : Bool) (e : Exc) (c : Bool) (tb : List ℕ) (parts : Excs × Excs)
    → (b ≡ true → (keep (matches t) (leaves e) ≡ leaves e) × (keep (misses t) (leaves e) ≡ []))
    → Parts t (leaves e) (all_leaves parts.0) (all_leaves parts.1)
    → let r = split_group b e c tb parts in Parts t (leaves e) (part_leaves r.0) (part_leaves r.1)
split_group-Parts t true e c tb parts whole h = let w = whole refl in (sym w.0, sym w.1)
split_group-Parts t false e c tb parts whole h =
    (leaves-subset c tb parts.0 ∙ h.0, leaves-subset c tb parts.1 ∙ h.1)

mutual
  unfolding split

  pub split-Parts :
      (t : ExcType) (e : Exc)
      → Parts t (leaves e) (part_leaves (split t e).0) (part_leaves (split t e).1)
  split-Parts t (leaf k n tb) = ground arith
  split-Parts t (group c tb es) =
      split_group-Parts t (is_instance t (group c tb es)) (group c tb es) c tb (split_all t es)
        (keep_instance t (group c tb es)) (split_all-Parts t es)

  split_all-Parts :
      (t : ExcType) (es : Excs)
      → Parts t (all_leaves es) (all_leaves (split_all t es).0) (all_leaves (split_all t es).1)
  split_all-Parts t nil = (refl, refl)
  split_all-Parts t (cons e es) =
      let first = split-Parts t e in
      let rest = split_all-Parts t es in
      (
        leaves-keep_some (split t e).0 (split_all t es).0
            ∙ sym (keep_both (matches t) _ _ _ _ (sym first.0) (sym rest.0)),
        leaves-keep_some (split t e).1 (split_all t es).1
            ∙ sym (keep_both (misses t) _ _ _ _ (sym first.1) (sym rest.1)),
      )
