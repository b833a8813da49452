-- ===== src/Package.antt =====
-- The package trio_asyncio/__init__.py as a module object: the names that it still answers for
-- backwards compatibility, with `enable_attribute_deprecations` of trio_asyncio/_deprecate.py. `str.rstrip`
-- and what the imports find are parameters.
mod Reading
mod Tests
use Prim.Native.String.{String, ◌++◌}
use text.Mathlib.Text.{◌==◌}
use trio_asyncio.Prelude.{Bool, true, false, Option, none, some, List, [], ◌∷◌, map, if◌then◌else◌}
use trio_asyncio.Deprecation.{Thing, named, DeprecatedAttribute, getattr}

-- A module object: its `__name__`, the names that it has, whether its class is
-- `_ModuleWithDeprecations`, and `__deprecated_attributes__`.
pub record Module : Type 0 where
  pub module_name : String
  pub own : String → Option Thing
  pub with_deprecations : Bool
  pub deprecated_attributes : List (String × DeprecatedAttribute)

-- `enable_attribute_deprecations`
unfoldable pub enable_attribute_deprecations : Module → Module
enable_attribute_deprecations m = record m { with_deprecations = true; deprecated_attributes = [] }

-- `module.name`: Python asks `__getattr__` of the class for a name that the module does not have. `none`
-- is an `AttributeError`.
unfoldable pub read : Module → (name : String) → List String → Option Thing × List String
unfolding getattr
read m name warnings = elim (m.own name) [
  | some value ↦ (some value, warnings)
  | none ↦
      if m.with_deprecations
      then getattr m.module_name name m.deprecated_attributes warnings
      else (none, warnings)
]

abbrev pub module_names : List String
module_names = "adapter" ∷ "async_" ∷ "base" ∷ "child" ∷ "handles" ∷ "loop" ∷ "sync" ∷ "util" ∷ []

abbrev pub loop_names : List String
loop_names = "TrioPolicy" ∷ "TrioChildWatcher" ∷ "current_policy" ∷ []

module _ (rstrip : String → String) (import_module loop_attribute : String → Thing) where
  abbrev pub module_attribute : String → DeprecatedAttribute
  module_attribute name = record {
    value = import_module ("trio_asyncio._" ++ rstrip name);
    version = "0.11.0";
    issue = some "64";
    instead = some (some (named "an import from the top-level trio_asyncio package"));
  }

  abbrev pub loop_entry : String → DeprecatedAttribute
  loop_entry name = record {
    value = loop_attribute name;
    version = "0.11.0";
    issue = some "64";
    instead = some none;
  }

  -- The entries that a comprehension over these names makes, before others.
  abbrev pub entries :
      (String → DeprecatedAttribute)
      → List String
      → List (String × DeprecatedAttribute)
      → List (String × DeprecatedAttribute)
  entries f [] rest = rest
  entries f (name ∷ names) rest = (name, f name) ∷ entries f names rest

  -- The statements of the package on its own module object; the names of the two tables are different,
  -- so that `update` only adds entries.
  unfoldable pub init : Module → Module
  unfolding enable_attribute_deprecations
  init m = record (enable_attribute_deprecations m) {
    deprecated_attributes =
        entries module_attribute module_names (entries loop_entry loop_names []);
  }
