-- ===== src/Metadata/Tests.antt =====
-- A package with a class in a class, an alias of it, a function that is private, and one of another
-- members.
use Prim.Native.String.{String, ◌++◌}
use mathlib.Core.List.{Memᴰ}
use mathlib.Core.List.Memᴰ.{head, tail}
use mathlib.Core.List.Memᴰ
use trio_asyncio.Prelude.{
  ℕ, zero, suc, ◌<◌, true, none, some, List, [], ◌∷◌, ◌≡◌, refl, ◌⊎◌, arith, ap, sym, subst,
}
use trio_asyncio.Exec.{ok, err, attribute_error}
use trio_asyncio.Metadata.{
  Object, Fixup, items, fixup_module_metadata, unvisited, is_ours, has_plain_name,
}
use trio_asyncio.Metadata.Reached.{Opens, Reached, top, member, IsReached, Settled, TypesOwn}
use trio_asyncio.Metadata.Fixing.{fixup_module_metadata_lem}
use trio_asyncio.Metadata.Naming.{fixup_module_metadata-IsReached}
use trio_asyncio.Metadata.Returning.{Refuses, Within, fixup_module_metadata_returns}

abbrev a_function : String → String → Object
a_function home name = record {
  own_module = some home;
  instance_of = none;
  name = some name;
  qualname = some name;
  class_dict = none;
  settable = true;
}

abbrev a_class : String → List (String × ℕ) → Object
a_class name attributes = record {
  own_module = some "trio_asyncio._base";
  instance_of = none;
  name = some name;
  qualname = some name;
  class_dict = some attributes;
  settable = true;
}

abbrev outer_items : List (String × ℕ)
outer_items = ("Inner", 1) ∷ ("self_reference", 0) ∷ []

abbrev members : ℕ → Object
members zero = a_class "Outer" outer_items
members (suc zero) = a_class "Inner" (("method", 2) ∷ [])
members (suc (suc zero)) = a_function "trio_asyncio._base" "method"
members _ = a_function "trio" "open_nursery"

abbrev names : List (String × ℕ)
names = ("Outer", 0) ∷ ("_hidden", 4) ∷ ("Alias", 0) ∷ ("open_nursery", 3) ∷ []

abbrev after : Fixup
after = (fixup_module_metadata "trio_asyncio" names 5 (unvisited members)).1

fixes_all : (fixup_module_metadata "trio_asyncio" names 5 (unvisited members)).0 ≡ ok tt
unfolding fixup_module_metadata
fixes_all = refl

method_home : (after.objects 2).own_module ≡ some "trio_asyncio"
unfolding fixup_module_metadata
method_home = refl

-- not "Outer.Inner.method"
method_qualname : (after.objects 2).qualname ≡ some "Outer.method"
unfolding fixup_module_metadata
method_qualname = refl

members-TypesOwn : TypesOwn names members
members-TypesOwn zero attributes e = ("trio_asyncio._base", refl)
members-TypesOwn (suc zero) attributes e = ("trio_asyncio._base", refl)
members-TypesOwn (suc (suc zero)) attributes e = absurd cc
members-TypesOwn (suc (suc (suc id))) attributes e = absurd cc

inner : (attr : String) (value : ℕ) → Memᴰ (attr, value) outer_items → value < 5
inner attr value (head e) = ground (arith, ap (λ x. x.1) e)
inner attr value (tail (head e)) = ground (arith, ap (λ x. x.1) e)
inner attr value (tail (tail m)) = absurd (Memᴰ.not-nil m)

members-Within : Within "trio_asyncio" names members 5
members-Within = record { entry = named; attribute = attribute }
  where
    named : (objname : String) (id : ℕ) → Memᴰ (objname, id) names → id < 5
    named objname id (head e) = ground (arith, ap (λ x. x.1) e)
    named objname id (tail (head e)) = ground (arith, ap (λ x. x.1) e)
    named objname id (tail (tail (head e))) = ground (arith, ap (λ x. x.1) e)
    named objname id (tail (tail (tail (head e)))) = ground (arith, ap (λ x. x.1) e)
    named objname id (tail (tail (tail (tail m)))) = absurd (Memᴰ.not-nil m)

    attribute :
        (cls : ℕ) (attributes : List (String × ℕ)) (attr : String) (value : ℕ)
        → Opens names members cls attributes
        → Memᴰ (attr, value) attributes
        → value < 5
    attribute zero attributes attr value o m =
        inner attr value (subst (Memᴰ (attr, value)) (sym (ap items o.dict)) m)
    attribute (suc zero) attributes attr value o m = omega (
      arith,
      ap (λ x. x.1) (Memᴰ.eq_of_singleton (subst (Memᴰ (attr, value)) (sym (ap items o.dict)) m)),
    )
    attribute (suc (suc zero)) attributes attr value o m = absurd (ground (arith, o.dict))
    attribute (suc (suc (suc id))) attributes attr value o m = absurd (ground (arith, o.dict))

inner_path : Reached names members "Outer" "Outer.Inner" "Inner" 1
unfolding is_ours
inner_path =
    member (top (Memᴰ.head refl) refl) (record { ours = refl; dict = refl }) (Memᴰ.head refl)

method-IsReached : IsReached names members 2
unfolding is_ours
method-IsReached = record {
  objname = "Outer";
  qualname = "Outer.method";
  name = "method";
  path = member inner_path (record { ours = refl; dict = refl }) (Memᴰ.head refl);
}

fixes : fixup_module_metadata "trio_asyncio" names 5 (unvisited members) ≡ (ok tt, after)
fixes = ap (λ r. (r, after)) fixes_all

fixup_module_metadata_example :
    Settled names members "trio_asyncio" 4 (after.objects 4)
    ⊎ (¬ IsReached names members 4) × (after.objects 4 ≡ members 4)
fixup_module_metadata_example =
    fixup_module_metadata_lem "trio_asyncio" names members 5 after 4 members-TypesOwn fixes

fixup_module_metadata_returns_example :
    ((t : Fixup) × (fixup_module_metadata "trio_asyncio" names 6 (unvisited members) ≡ (ok tt, t)))
    ⊎ ((fixup_module_metadata "trio_asyncio" names 6 (unvisited members)).0 ≡ err attribute_error)
      × Refuses "trio_asyncio" names members
fixup_module_metadata_returns_example =
    fixup_module_metadata_returns "trio_asyncio" names members 5 members-TypesOwn members-Within

fixup_module_metadata-IsReached_example :
    ((after.objects 2).own_module ≡ some "trio_asyncio")
    × ((r : IsReached names members 2) × ((after.objects 2).name ≡ some r.name)
        × (((after.objects 2).qualname ≡ some r.objname)
            ⊎ ((after.objects 2).qualname ≡ some (r.objname ++ ("." ++ r.name)))))
unfolding is_ours has_plain_name
fixup_module_metadata-IsReached_example =
    fixup_module_metadata-IsReached "trio_asyncio" names members 5 after 2 members-TypesOwn fixes
      method-IsReached refl refl
