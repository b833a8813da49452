-- ===== src/Exceptions.antt =====
-- Exception groups in trio_asyncio/_handles.py: `concat_tb`, `collapse_exception_group` and
-- `collapse_aware_exception_split`. A traceback is the list of its entries along `tb_next`.
-- `BaseExceptionGroup.split` is the standard library's. `excgroup.derive` is called on groups
-- that Trio made, so whether a derived group is marked to be collapsed is a parameter.
pub mod Split
pub mod Collapse
pub mod Traceback
mod Tests
use trio_asyncio.Prelude.{
  ℕ, suc, ◌≡◌, Bool, true, false, ◌&&◌, ◌||◌, Option, none, some, List, [], ◌∷◌, ◌++◌, foldl,
  reverse, ◌==◌, if◌then◌else◌,
}

-- What the code asks of the class of an exception that is no group. `error` is any subclass of
-- `Exception`, `cancelled` is `trio.Cancelled`, `exit` any other direct `BaseException`.
pub data Kind : Type 0 where
  error cancelled exit : Kind

-- The classes that the code splits by: `Exception` and `trio.Cancelled`.
pub data ExcType : Type 0 where
  exception trio_cancelled : ExcType

-- A frame, an instruction and a line number, as one number.
abbrev pub Traceback : Type 0
Traceback = List ℕ

mutual
  -- An exception object. `collapse` says that a group is marked to be replaced by its only member:
  -- by the attribute of Trio 0.23, or by the note of Trio 0.24.
  pub data Exc : Type 0 where
    leaf : (kind : Kind) (name : ℕ) (traceback : Traceback) → Exc
    group : (collapse : Bool) (traceback : Traceback) (exceptions : Excs) → Exc

  pub data Excs : Type 0 where
    nil : Excs
    cons : Exc → Excs → Excs

-- `isinstance(exc, etype)` for an exception that is no group.
abbrev pub kind_is : ExcType → Kind → Bool
kind_is exception error = true
kind_is exception _ = false
kind_is trio_cancelled cancelled = true
kind_is trio_cancelled _ = false

abbrev is_exception_type : ExcType → Bool
is_exception_type exception = true
is_exception_type trio_cancelled = false

unfoldable mutual
  -- `isinstance(exc, etype)`. A group is an `ExceptionGroup`, and so an `Exception`, just if all of
  -- its members are `Exception`s.
  pub is_instance : ExcType → Exc → Bool
  is_instance t (leaf k n tb) = kind_is t k
  is_instance t (group c tb es) = is_exception_type t && all_instances t es

  pub all_instances : ExcType → Excs → Bool
  all_instances t nil = true
  all_instances t (cons e es) = is_instance t e && all_instances t es

abbrev pub keep_some : Option Exc → Excs → Excs
keep_some none es = es
keep_some (some e) es = cons e es

-- A group of the same kind over some of the members; `none` for no members.
abbrev pub subset : Bool → Traceback → Excs → Option Exc
subset c tb nil = none
subset c tb (cons e es) = some (group c tb (cons e es))

-- The members' results put together, if the group itself is no match.
abbrev pub split_group : Bool → Exc → Bool → Traceback → Excs × Excs → Option Exc × Option Exc
split_group true whole c tb parts = (some whole, none)
split_group false whole c tb parts = (subset c tb parts.0, subset c tb parts.1)

abbrev pub split_leaf : Bool → Exc → Option Exc × Option Exc
split_leaf true e = (some e, none)
split_leaf false e = (none, some e)

unfoldable mutual
  unfolding is_instance

  -- `exc.split(etype)`: the part that matches and the rest.
  pub split : ExcType → Exc → Option Exc × Option Exc
  split t (leaf k n tb) = split_leaf (kind_is t k) (leaf k n tb)
  split t (group c tb es) =
      split_group (is_instance t (group c tb es)) (group c tb es) c tb (split_all t es)

  pub split_all : ExcType → Excs → Excs × Excs
  split_all t nil = (nil, nil)
  split_all t (cons e es) =
      (keep_some (split t e).0 (split_all t es).0, keep_some (split t e).1 (split_all t es).1)

-- `concat_tb`: the loop along `tb_next` that fills `head_tbs`, then the loop over it backwards.
pub head_tbs : Traceback → List ℕ → List ℕ
head_tbs [] acc = acc
head_tbs (entry ∷ tb_next) acc = head_tbs tb_next (acc ++ entry ∷ [])

unfoldable pub concat_tb : Traceback → Traceback → Traceback
unfolding head_tbs
concat_tb head tail = foldl (λ current entry. entry ∷ current) tail (reverse (head_tbs head []))

-- `exceptions[0].__traceback__ = concat_tb(excgroup.__traceback__, exceptions[0].__traceback__)`
unfoldable pub prepend_tb : Traceback → Exc → Exc
unfolding concat_tb
prepend_tb tb (leaf k n own) = leaf k n (concat_tb tb own)
prepend_tb tb (group c own es) = group c (concat_tb tb own) es

module _ (derive_mark : Bool → Bool) where
  -- The end of `collapse_exception_group`, on the group, the new list and `modified`. Beside the
  -- exception stands whether it is another object than the group. A derived group has no traceback.
  unfoldable pub finish_collapse : Bool → Traceback → Excs → Excs → Bool → Exc × Bool
  finish_collapse true tb old (cons e nil) modified = (prepend_tb tb e, true)
  finish_collapse c tb old new true = (group (derive_mark c) [] new, true)
  finish_collapse c tb old new false = (group c tb old, false)

  unfoldable mutual
    unfolding finish_collapse

    -- `collapse_exception_group`. An exception that is no group is left as it is.
    pub collapse_exception_group : Exc → Exc × Bool
    collapse_exception_group (leaf k n tb) = (leaf k n tb, false)
    collapse_exception_group (group c tb es) =
        finish_collapse c tb es (collapse_members es).0 (collapse_members es).1

    -- The loop over `exceptions`: the new list, and `modified`.
    pub collapse_members : Excs → Excs × Bool
    collapse_members nil = (nil, false)
    collapse_members (cons e es) = (
      cons (collapse_exception_group e).0 (collapse_members es).0,
      (collapse_exception_group e).1 || (collapse_members es).1,
    )

  abbrev pub collapse_part : Option Exc → Option Exc
  collapse_part none = none
  collapse_part (some e) = some (collapse_exception_group e).0

  -- `collapse_aware_exception_split`
  unfoldable pub collapse_aware_exception_split : ExcType → Exc → Option Exc × Option Exc
  collapse_aware_exception_split t (leaf k n tb) = split_leaf (kind_is t k) (leaf k n tb)
  collapse_aware_exception_split t (group c tb es) =
      let parts = split t (group c tb es) in (collapse_part parts.0, collapse_part parts.1)
