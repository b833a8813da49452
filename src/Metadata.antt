-- ===== src/Metadata.antt =====
-- `fixup_module_metadata` of trio_asyncio/_util.py, which gives the public names of the package one
-- home. The Python objects are a store: a reference is a number, and the set of the ids that were
-- visited is a function into Bool. The recursion of `fix_one` runs on fuel.
mod Reached
mod Visiting
mod Touching
mod Fixing
mod Naming
mod Returning
mod Tests
use Prim.Native.String.{String, ◌++◌}
use text.Mathlib.Text.{starts_with, find?}
use trio_asyncio.Prelude.{
  ℕ, zero, suc, Bool, true, false, not, ◌&&◌, Option, none, some, List, [], ◌∷◌, if◌then◌else◌,
  update,
}
use trio_asyncio.Exec.{Exec, ok, err, pure, fail, ◌>>=◌, ◌>>◌, attribute_error, unfinished}

-- An object as `fix_one` sees it: its own `__module__`, the class whose `__module__` it shows where it
-- has none, its `__name__` and `__qualname__`, the items of its `__dict__` if it is a type, and
-- whether it lets its attributes be set.
pub record Object : Type 0 where
  pub own_module : Option String
  pub instance_of : Option ℕ
  pub name : Option String
  pub qualname : Option String
  pub class_dict : Option (List (String × ℕ))
  pub settable : Bool

-- What a run changes: `seen_ids`, and the objects.
pub record Fixup : Type 0 where
  pub seen_ids : ℕ → Bool
  pub objects : ℕ → Object

abbrev inherited : (ℕ → Object) → Option ℕ → Option String
inherited objects none = none
inherited objects (some cls) = (objects cls).own_module

-- `getattr(obj, "__module__", None)`
abbrev shown_module : (ℕ → Object) → Object → Option String
shown_module objects obj = elim obj.own_module [
  | none ↦ inherited objects obj.instance_of
  | some m ↦ some m
]

-- `mod is not None and mod.startswith("trio_asyncio.")`
unfoldable pub is_ours : Option String → Bool
is_ours none = false
is_ours (some m) = starts_with m "trio_asyncio."

-- `hasattr(obj, "__name__") and "." not in obj.__name__`
unfoldable pub has_plain_name : Option String → Bool
has_plain_name none = false
has_plain_name (some name) = elim (find? name ".") [ none ↦ true | some _ ↦ false ]

-- The assignments to `obj`.
unfoldable pub renamed : (module_name qualname name : String) → Object → Object
unfolding has_plain_name
renamed module_name qualname name obj =
    if has_plain_name obj.name
    then record obj { own_module = some module_name; name = some name; qualname = some qualname }
    else record obj { own_module = some module_name }

abbrev pub items : Option (List (String × ℕ)) → List (String × ℕ)
items none = []
items (some attributes) = attributes

-- `fix_one` on an object that was not visited: it comes back with the items that are visited next.
unfoldable pub rewrite :
    (module_name qualname name : String) (id : ℕ) → Exec Fixup (List (String × ℕ))
unfolding is_ours renamed
rewrite module_name qualname name id s =
    let obj = s.objects id in
    if is_ours (shown_module s.objects obj)
    then if obj.settable
      then (
        ok (items obj.class_dict),
        record s { objects = update s.objects id (renamed module_name qualname name obj) },
      )
      else (err attribute_error, s)
    else (ok [], s)

unfoldable pub touch :
    (module_name qualname name : String) (id : ℕ) → Exec Fixup (List (String × ℕ))
unfolding rewrite
touch module_name qualname name id s =
    if s.seen_ids id
    then (ok [], s)
    else rewrite module_name qualname name id (record s { seen_ids = update s.seen_ids id true })

-- A `for` loop.
abbrev pub each : {A S : Type 0} → (A → Exec S Unit) → List A → Exec S Unit
each body [] = pure tt
each body (x ∷ xs) = body x >> each body xs

-- `fix_one`; `objname` is the variable of the loop in `fixup_module_metadata`.
unfoldable pub fix_one :
    (module_name objname : String) (fuel : ℕ) (qualname name : String) (id : ℕ) → Exec Fixup Unit
unfolding touch
fix_one module_name objname zero qualname name id = fail unfinished
fix_one module_name objname (suc fuel) qualname name id =
    touch module_name qualname name id
    >>= each (λ item. fix_one module_name objname fuel (objname ++ ("." ++ item.0)) item.0 item.1)

abbrev pub is_private : String → Bool
is_private objname = starts_with objname "_"

unfoldable pub fix_public : (module_name : String) (fuel : ℕ) → String × ℕ → Exec Fixup Unit
unfolding fix_one
fix_public module_name fuel entry =
    if is_private entry.0 then pure tt else fix_one module_name entry.0 fuel entry.0 entry.0 entry.1

-- `seen_ids = set()`
abbrev pub unvisited : (ℕ → Object) → Fixup
unvisited objects = record { seen_ids = λ _. false; objects = objects }

unfoldable pub fixup_module_metadata :
    (module_name : String) (namespace : List (String × ℕ)) (fuel : ℕ) → Exec Fixup Unit
unfolding fix_public
fixup_module_metadata module_name namespace fuel = each (fix_public module_name fuel) namespace
