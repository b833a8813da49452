-- ===== src/Deprecation/Tests.antt =====
-- The texts of warnings.
use trio_asyncio.Prelude.{◌≡◌, refl, none, some, [], ◌∷◌}
use trio_asyncio.Deprecation.{Thing, named, message, DeprecatedAttribute, getattr}

abbrev run_trio : Thing
run_trio = record {
  module_name = some "trio_asyncio";
  qualname = some "run_trio";
  shown = "<function run_trio>";
}

message_text :
    message (named "wrap_generator") "0.10.0" (some "38") (some run_trio)
    ≡ "wrap_generator is deprecated since trio-asyncio 0.10.0; use trio_asyncio.run_trio instead (https://github.com/python-trio/trio-asyncio/issues/38)"
unfolding message
message_text = refl

abbrev old_name : DeprecatedAttribute
old_name = record { value = run_trio; version = "0.10.0"; issue = none; instead = some none }

getattr_text :
    (getattr "trio_asyncio" "old" (("old", old_name) ∷ []) []).1
    ≡ "trio_asyncio.old is deprecated since trio-asyncio 0.10.0 with no replacement" ∷ []
unfolding getattr
getattr_text = refl

getattr_unknown : getattr "trio_asyncio" "other" (("old", old_name) ∷ []) [] ≡ (none, [])
unfolding getattr
getattr_unknown = refl
