-- ===== src/Metadata/Reached.antt =====
-- What the metadata pass reaches: the public names of the package, and the members of the classes
-- among them.
use Prim.Native.String.{String, ◌++◌}
use mathlib.Core.List.{Memᴰ}
use trio_asyncio.Prelude.{ℕ, true, false, none, some, List, ◌≡◌, ◌⊎◌}
use trio_asyncio.Metadata.{Object, is_ours, is_private, renamed}

-- `Reached module_name namespace objects objname qualname name id`: the object `id` is reached from
-- the public name `objname`, and `fix_one` gets `qualname` and `name` with it.
module _ (namespace : List (String × ℕ)) (objects : ℕ → Object) where
  -- a class of this package, with its attributes
  pub record Opens (id : ℕ) (attributes : List (String × ℕ)) : Type 0 where
    pub ours : is_ours (objects id).own_module ≡ true
    pub dict : (objects id).class_dict ≡ some attributes

  pub data Reached : (objname qualname name : String) → ℕ → Type 0 where
    top :
        {objname : String} {id : ℕ}
        → Memᴰ (objname, id) namespace
        → is_private objname ≡ false
        → Reached objname objname objname id
    member :
        {objname qualname name attr : String} {id value : ℕ} {attributes : List (String × ℕ)}
        → Reached objname qualname name id
        → Opens id attributes
        → Memᴰ (attr, value) attributes
        → Reached objname (objname ++ ("." ++ attr)) attr value

  pub record IsReached (id : ℕ) : Type 0 where
    pub objname : String
    pub qualname : String
    pub name : String
    pub path : Reached objname qualname name id

  -- What the pass makes of a reached object: it stays as it was, and is not of this package, or it is
  -- renamed as a path to it says, and does not belong to another package.
  pub record Settled (module_name : String) (id : ℕ) (obj : Object) : Type 0 where
    pub reached : IsReached id
    pub state :
        (is_ours (objects id).own_module ≡ false) × (obj ≡ objects id)
        ⊎ (((is_ours (objects id).own_module ≡ true) ⊎ ((objects id).own_module ≡ none))
            × (obj ≡ renamed module_name reached.qualname reached.name (objects id)))

  -- A type has a `__module__` of its own.
  abbrev pub TypesOwn : Type 0
  TypesOwn =
      (id : ℕ) (attributes : List (String × ℕ))
      → (objects id).class_dict ≡ some attributes
      → (m : String) × ((objects id).own_module ≡ some m)
