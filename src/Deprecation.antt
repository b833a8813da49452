-- ===== src/Deprecation.antt =====
-- The deprecation helpers of trio_asyncio/_deprecate.py: the texts of the warnings, functions that warn
-- and then call another one, and attributes of a module that warn when they are read. `str.rstrip`
-- and `str.rpartition` are parameters.
mod Tests
use Prim.Native.String.{String, ◌++◌}
use text.Mathlib.Text.{◌==◌}
use trio_asyncio.Prelude.{ℕ, Option, none, some, List, [], ◌∷◌, if◌then◌else◌}

-- What is deprecated, or stands in its place: its `__module__` and `__qualname__`, if it has them, and
-- its `str`.
pub record Thing : Type 0 where
  pub module_name : Option String
  pub qualname : Option String
  pub shown : String

-- A text as a thing.
abbrev pub named : String → Thing
named s = record { module_name = none; qualname = none; shown = s }

-- `_url_for_issue`
unfoldable pub url_for_issue : String → String
url_for_issue issue = "https://github.com/python-trio/trio-asyncio/issues/" ++ issue

-- `_stringify`
unfoldable pub stringify : Thing → String
stringify thing = elim thing.module_name [
  | none ↦ thing.shown
  | some m ↦ elim thing.qualname [ none ↦ thing.shown | some q ↦ m ++ ("." ++ q) ]
]

-- The text of the warning in `warn_deprecated`.
abbrev pub replacement : Option Thing → String
replacement none = " with no replacement"
replacement (some instead) = "; use " ++ (stringify instead ++ " instead")

abbrev pub reference : Option String → String
reference none = ""
reference (some issue) = " (" ++ (url_for_issue issue ++ ")")

unfoldable pub message : Thing → (version : String) → Option String → Option Thing → String
unfolding stringify url_for_issue
message thing version issue instead =
    stringify thing
    ++ (" is deprecated since trio-asyncio "
        ++ (version ++ (replacement instead ++ reference issue)))

-- `warn_deprecated`, on the warnings so far.
unfoldable pub warn_deprecated :
    Thing → (version : String) → Option String → Option Thing → List String → List String
unfolding message
warn_deprecated thing version issue instead warnings =
    message thing version issue instead ∷ warnings

-- The wrapper that `deprecated` makes of `fn`, on the warnings so far.
unfoldable pub deprecated :
    {A B : Type 0} (version : String) (thing : Thing) (issue : Option String)
    (instead : Option Thing) (fn : A → B)
    → A
    → List String
    → B × List String
unfolding warn_deprecated
deprecated version thing issue instead fn args warnings =
    (fn args, warn_deprecated thing version issue instead warnings)

-- What `deprecated` adds to the wrapper's doc.
abbrev pub use_instead : Option Thing → String
use_instead none = ""
use_instead (some instead) = "   Use " ++ (stringify instead ++ " instead.\n")

abbrev pub details : Option String → String
details none = ""
details (some issue) =
    "   For details, see `issue #" ++ (issue ++ (" <" ++ (url_for_issue issue ++ ">`__.\n")))

unfoldable pub deprecated_doc :
    (rstrip : String → String) (version : String) (issue : Option String) (instead : Option Thing)
    → Option String
    → Option String
unfolding stringify url_for_issue
deprecated_doc rstrip version issue instead none = none
deprecated_doc rstrip version issue instead (some doc) = some (
    rstrip doc
    ++ ("\n\n"
        ++ (".. deprecated:: "
            ++ (version ++ ("\n" ++ (use_instead instead ++ (details issue ++ "\n")))))))

-- `deprecated_alias`: the alias's `__qualname__` and `__name__`, and what it does.
pub record Alias (A B : Type 0) : Type 0 where
  pub alias_qualname : String
  pub alias_name : String
  pub call : A → List String → B × List String

unfoldable pub deprecated_alias :
    {A B : Type 0} (last_part : String → String) (old_qualname : String) (new_fn : A → B)
    (new_thing alias_thing : Thing) (version : String) (issue : Option String)
    → Alias A B
unfolding deprecated
deprecated_alias last_part old_qualname new_fn new_thing alias_thing version issue = record {
  alias_qualname = old_qualname;
  alias_name = last_part old_qualname;
  call = deprecated version alias_thing issue (some new_thing) new_fn;
}

-- `DeprecatedAttribute`; in `instead`, `none` is `_not_set`.
pub record DeprecatedAttribute : Type 0 where
  pub value : Thing
  pub version : String
  pub issue : Option String
  pub instead : Option (Option Thing)

-- `__deprecated_attributes__`
abbrev pub find : String → List (String × DeprecatedAttribute) → Option DeprecatedAttribute
find name [] = none
find name (x ∷ xs) = if x.0 == name then some x.1 else find name xs

abbrev pub shown_instead : Option (Option Thing) → Thing → Option Thing
shown_instead none value = some value
shown_instead (some instead) value = instead

-- `_ModuleWithDeprecations.__getattr__`; `none` is an `AttributeError`.
unfoldable pub getattr :
    (module_name name : String)
    → List (String × DeprecatedAttribute)
    → List String
    → Option Thing × List String
unfolding warn_deprecated
getattr module_name name attributes warnings = elim (find name attributes) [
  | none ↦ (none, warnings)
  | some info ↦ (
    some info.value,
    warn_deprecated (named (module_name ++ ("." ++ name))) info.version info.issue
        (shown_instead info.instead info.value) warnings,
  )
]
