-- ===== src/Package/Tests.antt =====
-- The package at concrete values.
use Prim.Native.String.{String}
use trio_asyncio.Prelude.{◌≡◌, refl, ◌⊎◌, true, false, none, some, [], ◌∷◌}
use trio_asyncio.Deprecation.{named, message}
use trio_asyncio.Package.{Module, init, read, module_names, loop_names}
use trio_asyncio.Package.Reading.{among, init-read}

abbrev bare : Module
bare = record {
  module_name = "trio_asyncio";
  own = λ name. none;
  with_deprecations = false;
  deprecated_attributes = [];
}

abbrev strip : String → String
strip name = name

init-read_example :
    let (r, warned) = read (init strip named named bare) "adapter" [] in
    let thing = named "trio_asyncio.adapter" in
    let instead = named "an import from the top-level trio_asyncio package" in
    (among "adapter" module_names ≡ true)
      × (r ≡ some (named "trio_asyncio._adapter"))
      × (warned ≡ message thing "0.11.0" (some "64") (some instead) ∷ [])
    ⊎ (among "adapter" module_names ≡ false)
      × (among "adapter" loop_names ≡ true)
      × (r ≡ some (named "adapter"))
      × (warned ≡ message thing "0.11.0" (some "64") none ∷ [])
    ⊎ (among "adapter" module_names ≡ false)
      × (among "adapter" loop_names ≡ false)
      × (r ≡ none)
      × (warned ≡ [])
init-read_example = init-read strip named named bare "adapter" [] refl

policy_text :
    (read (init strip named named bare) "TrioPolicy" []).1
    ≡ "trio_asyncio.TrioPolicy is deprecated since trio-asyncio 0.11.0 with no replacement (https://github.com/python-trio/trio-asyncio/issues/64)"
      ∷ []
unfolding read init message
policy_text = refl
