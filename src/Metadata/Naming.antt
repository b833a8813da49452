-- ===== src/Metadata/Naming.antt =====
-- The names that the metadata pass gives.
use Prim.Native.String.{String, ◌++◌}
use trio_asyncio.Prelude.{ℕ, true, some, List, ◌≡◌, refl, ◌⊎◌, inl, inr, arith}
use trio_asyncio.Exec.{ok}
use trio_asyncio.Metadata.{
  Object, Fixup, is_ours, has_plain_name, renamed, unvisited, fixup_module_metadata,
}
use trio_asyncio.Metadata.Reached.{Reached, top, member, IsReached, TypesOwn}
use trio_asyncio.Metadata.Fixing.{fixup_module_metadata_lem}

flat :
    {namespace : List (String × ℕ)} {objects : ℕ → Object} {objname qualname name : String} {id : ℕ}
    → Reached namespace objects objname qualname name id
    → (qualname ≡ objname) ⊎ (qualname ≡ objname ++ ("." ++ name))
flat (top m n) = inl refl
flat (member path o m) = inr refl

-- An object of this package that has a plain name and is reached from a public name gets, when
-- `fixup_module_metadata` returns, the new module and, for a path to it, the last name of the path. Its
-- qualified name is the public name at which that path starts, or this name, a dot and the last one:
-- however deep the object lies, the classes in between are left out. Each type has a module of its
-- own.
pub fixup_module_metadata-IsReached :
    (module_name : String) (namespace : List (String × ℕ)) (objects : ℕ → Object) (fuel : ℕ)
    (t : Fixup) (id : ℕ)
    → TypesOwn namespace objects
    → fixup_module_metadata module_name namespace fuel (unvisited objects) ≡ (ok tt, t)
    → IsReached namespace objects id
    → is_ours (objects id).own_module ≡ true
    → has_plain_name (objects id).name ≡ true
    → ((t.objects id).own_module ≡ some module_name)
      × ((r : IsReached namespace objects id) × ((t.objects id).name ≡ some r.name)
          × (((t.objects id).qualname ≡ some r.objname)
              ⊎ ((t.objects id).qualname ≡ some (r.objname ++ ("." ++ r.name)))))
unfolding renamed
fixup_module_metadata-IsReached module_name namespace objects fuel t id own e reached ours plain =
    elim (fixup_module_metadata_lem module_name namespace objects fuel t id own e) [
      | inr (never, _) ↦ absurd (never reached)
      | inl settled ↦ elim settled.state [
        | inl (other, _) ↦ absurd cc
        | inr (_, at) ↦ (
          ground (arith, at),
          (
            settled.reached,
            ground (arith, at),
            elim (flat settled.reached.path) [
              | inl q ↦ inl (ground (arith, at, q))
              | inr q ↦ inr (ground (arith, at, q))
            ],
          ),
        )
      ]
    ]
