-- ===== src/Package/Reading.antt =====
-- What code gets that still reads an old name of the package.
use Prim.Native.String.{String, ◌++◌}
use text.Mathlib.Text.{◌==◌}
use text.Mathlib.TextEquality.{eq_iff}
use trio_asyncio.Prelude.{
  ◌≡◌, refl, ap, ◌∙◌, ◌⊎◌, inl, inr, Bool, true, false, none, some, List, [], ◌∷◌, if◌then◌else◌,
  arith, Bool-cases,
}
use trio_asyncio.Deprecation.{
  Thing, named, message, warn_deprecated, DeprecatedAttribute, find, shown_instead, getattr,
}
use trio_asyncio.Package.{
  Module, enable_attribute_deprecations, read, module_names, loop_names, module_attribute,
  loop_entry, entries, init,
}

abbrev pub among : String → List String → Bool
among name [] = false
among name (x ∷ xs) = if x == name then true else among name xs

find-entries :
    (rstrip : String → String) (import_module loop_attribute : String → Thing)
    (f : String → DeprecatedAttribute) (name : String) (names : List String)
    (rest : List (String × DeprecatedAttribute))
    → find name (entries rstrip import_module loop_attribute f names rest)
      ≡ (if among name names then some (f name) else find name rest)
find-entries rstrip import_module loop_attribute f name [] rest = refl
find-entries rstrip import_module loop_attribute f name (x ∷ xs) rest =
    let later = find-entries rstrip import_module loop_attribute f name xs rest in
    elim (Bool-cases (x == name)) [
      | inl same ↦ let e = (eq_iff x name).0 same in ground (arith, ap f e)
      | inr other ↦ ground (arith, later)
    ]

module _ (m : Module) (name : String) (warnings : List String) (unowned : m.own name ≡ none)
    (deprecating : m.with_deprecations ≡ true) where
  read-found :
      (info : DeprecatedAttribute)
      → find name m.deprecated_attributes ≡ some info
      → read m name warnings ≡ (
        some info.value,
        warn_deprecated
            (named (m.module_name ++ ("." ++ name)))
            info.version
            info.issue
            (shown_instead info.instead info.value)
            warnings,
      )
  unfolding read getattr
  read-found info e = ground (arith, e)

  read-unknown : find name m.deprecated_attributes ≡ none → read m name warnings ≡ (none, warnings)
  unfolding read getattr
  read-unknown e = ground (arith, e)

-- What a test picks.
picked : {A : Type 0} (b : Bool) (x y : A) → b ≡ true → (if b then x else y) ≡ x
picked b x y e = ground arith

passed : {A : Type 0} (b : Bool) (x y : A) → b ≡ false → (if b then x else y) ≡ y
passed b x y e = ground arith

-- Reading a name that the package does not have, once it is imported. For one of the old names of its
-- modules it gives the module with an underscore before its name, and warns once, that an import from
-- the package is to be used; for one of the three old names of _loop.py it gives what has this name
-- there, and warns once, that there is no replacement; for any other name it raises an
-- AttributeError and does not warn.
pub init-read :
    (rstrip : String → String) (import_module loop_attribute : String → Thing) (m : Module)
    (name : String) (warnings : List String)
    → m.own name ≡ none
    → let (r, warned) = read (init rstrip import_module loop_attribute m) name warnings in
      let thing = named (m.module_name ++ ("." ++ name)) in
      let instead = named "an import from the top-level trio_asyncio package" in
      (among name module_names ≡ true)
        × (r ≡ some (import_module ("trio_asyncio._" ++ rstrip name)))
        × (warned ≡ message thing "0.11.0" (some "64") (some instead) ∷ warnings)
      ⊎ (among name module_names ≡ false)
        × (among name loop_names ≡ true)
        × (r ≡ some (loop_attribute name))
        × (warned ≡ message thing "0.11.0" (some "64") none ∷ warnings)
      ⊎ (among name module_names ≡ false)
        × (among name loop_names ≡ false)
        × (r ≡ none)
        × (warned ≡ warnings)
unfolding init enable_attribute_deprecations warn_deprecated
init-read rstrip import_module loop_attribute m name warnings unowned =
    let find_loop =
      find-entries rstrip import_module loop_attribute
        (loop_entry rstrip import_module loop_attribute) name loop_names [] in
    let find_module =
      find-entries rstrip import_module loop_attribute
        (module_attribute rstrip import_module loop_attribute) name module_names
        (entries rstrip import_module loop_attribute
          (loop_entry rstrip import_module loop_attribute) loop_names []) in
    let old = init rstrip import_module loop_attribute m in
    let thing = named (m.module_name ++ ("." ++ name)) in
    elim (Bool-cases (among name module_names)) [
      | inl y ↦
          let e = read-found old name warnings unowned refl _ (find_module ∙ picked _ _ _ y) in
          inl (y, ap (λ x. x.0) e, ap (λ x. x.1) e)
      | inr n ↦ elim (Bool-cases (among name loop_names)) [
        | inl y ↦
            let e =
              read-found old name warnings unowned refl _
                (find_module ∙ passed _ _ _ n ∙ find_loop ∙ picked _ _ _ y) in
            inr (inl (n, y, ap (λ x. x.0) e, ap (λ x. x.1) e))
        | inr n' ↦
            let e =
              read-unknown old name warnings unowned refl
                (find_module ∙ passed _ _ _ n ∙ find_loop ∙ passed _ _ _ n') in
            inr (inr (n, n', ap (λ x. x.0) e, ap (λ x. x.1) e))
      ]
    ]
