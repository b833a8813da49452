-- ===== src/Metadata/Fixing.antt =====
-- A run of the metadata pass that returns visits what is reached from the public names, and renames
-- just that.
use Prim.Native.String.{String, ◌++◌}
use mathlib.Core.List.{Memᴰ}
use trio_asyncio.Prelude.{
  ℕ, zero, suc, true, false, List, ◌≡◌, refl, ◌⊎◌, inl, inr, arith, Bool-cases, subst, sym,
}
use trio_asyncio.Exec.{ok, Exec, bind-ok}
use trio_asyncio.Metadata.{
  Object, Fixup, is_private, touch, each, fix_one, fix_public, unvisited, fixup_module_metadata,
}
use trio_asyncio.Metadata.Reached.{Reached, top, member, IsReached, Settled, TypesOwn}
use trio_asyncio.Metadata.Visiting.{Sound, Visits, Visits-refl, Did, each-Did}
use trio_asyncio.Metadata.Touching.{touch-Touched}

module _ (module_name : String) (namespace : List (String × ℕ)) (objects : ℕ → Object) where
  -- `fix_one` settles the object, and all that it goes on to.
  pub fix_one-Did :
      (fuel : ℕ) {objname qualname name : String} {id : ℕ}
      → TypesOwn namespace objects
      → Reached namespace objects objname qualname name id
      → (s t : Fixup) → Sound module_name namespace objects s
      → fix_one module_name objname fuel qualname name id s ≡ (ok tt, t)
      → Did module_name namespace objects s t (λ f. f id ≡ true)
  unfolding fix_one
  fix_one-Did zero own path s t h e = absurd cc
  fix_one-Did (suc fuel) {objname} {qualname} {name} {id} own path s t h e =
      let body : String × ℕ → Exec Fixup Unit =
        λ item. fix_one module_name objname fuel (objname ++ ("." ++ item.0)) item.0 item.1 in
      let (attributes, u, first, later) =
        bind-ok (touch module_name qualname name id) (each body) s tt t e in
      let p = touch-Touched module_name namespace objects own path s u attributes h first in
      let q =
        each-Did module_name namespace objects body (λ item f. f item.1 ≡ true)
          (λ item f g more y. more item.1 y) attributes
          (λ item m u' t' h' e'. fix_one-Did fuel own (member path (p.opens item m) m) u' t' h' e')
          u t p.sound later in
      record {
        sound = q.sound;
        visits = record {
          grows = λ j y. q.visits.grows j (p.grows j y);
          closed = λ j all attr value y n o m. elim (Bool-cases (u.seen_ids j)) [
            | inr later_on ↦ q.visits.closed j all attr value y later_on o m
            | inl now ↦ elim (p.only j now) [
              | inl before ↦ absurd cc
              | inr same ↦
                  let given = p.full (rw same at n) all (rw same at o) in
                  q.reached (attr, value) (subst (Memᴰ (attr, value)) (sym given) m)
            ]
          ];
        };
        reached = q.visits.grows id p.here;
      }

  -- One round of the loop over the namespace.
  pub fix_public-Did :
      (fuel : ℕ) (entry : String × ℕ)
      → TypesOwn namespace objects
      → Memᴰ entry namespace
      → (s t : Fixup) → Sound module_name namespace objects s
      → fix_public module_name fuel entry s ≡ (ok tt, t)
      → Did module_name namespace objects s t (λ f. is_private entry.0 ≡ false → f entry.1 ≡ true)
  unfolding fix_public
  fix_public-Did fuel entry own m s t h e = elim (Bool-cases (is_private entry.0)) [
    | inl y ↦
        let same : t ≡ s = ground arith in
        record {
          sound = subst (Sound module_name namespace objects) (sym same) h;
          visits =
              subst (Visits module_name namespace objects s) (sym same)
                (Visits-refl module_name namespace objects s);
          reached = λ n. cc;
        }
    | inr n ↦
        let d = fix_one-Did fuel own (top m n) s t h (ground arith) in
        record { sound = d.sound; visits = d.visits; reached = λ _. d.reached }
  ]

  pub fixup-Did :
      (fuel : ℕ) (t : Fixup)
      → TypesOwn namespace objects
      → fixup_module_metadata module_name namespace fuel (unvisited objects) ≡ (ok tt, t)
      → Did module_name namespace objects (unvisited objects) t (λ f.
        (entry : String × ℕ) → Memᴰ entry namespace → is_private entry.0 ≡ false → f entry.1 ≡ true)
  unfolding fixup_module_metadata
  fixup-Did fuel t own e =
      each-Did module_name namespace objects (fix_public module_name fuel)
        (λ entry f. is_private entry.0 ≡ false → f entry.1 ≡ true)
        (λ entry f g more h n. more entry.1 (h n)) namespace
        (λ entry m s u. fix_public-Did fuel entry own m s u) (unvisited objects) t
        (record { untouched = λ _ _. refl; settled = λ _ y. absurd cc }) e

  -- Each object that is reached was visited.
  Reached-seen :
      {objname qualname name : String} {id : ℕ} (fuel : ℕ) (t : Fixup)
      → TypesOwn namespace objects
      → fixup_module_metadata module_name namespace fuel (unvisited objects) ≡ (ok tt, t)
      → Reached namespace objects objname qualname name id
      → t.seen_ids id ≡ true
  Reached-seen fuel t own e (top {objname} {id} m n) =
      (fixup-Did fuel t own e).reached (objname, id) m n
  Reached-seen fuel t own e (member {attr} {id} {value} {attributes} path o m) =
      (fixup-Did fuel t own e).visits.closed id attributes attr value
        (Reached-seen fuel t own e path) refl o m

-- When `fixup_module_metadata` returns, each object is in one of two cases. It is reached from a
-- public name of the namespace, through classes of this package alone: then it is renamed
-- as one of the paths to it says, or it had a module of its own that is not of this package, or none,
-- and is as it was. Or it is not reached, and is as it was. The objects may refer to each other in
-- cycles; each type among them has a module of its own.
pub fixup_module_metadata_lem :
    (module_name : String) (namespace : List (String × ℕ)) (objects : ℕ → Object) (fuel : ℕ)
    (t : Fixup) (id : ℕ)
    → TypesOwn namespace objects
    → fixup_module_metadata module_name namespace fuel (unvisited objects) ≡ (ok tt, t)
    → Settled namespace objects module_name id (t.objects id)
      ⊎ (¬ IsReached namespace objects id) × (t.objects id ≡ objects id)
fixup_module_metadata_lem module_name namespace objects fuel t id own e =
    let d = fixup-Did module_name namespace objects fuel t own e in
    elim (Bool-cases (t.seen_ids id)) [
      | inl y ↦ inl (d.sound.settled id y)
      | inr n ↦ inr (
        λ r. cc (Reached-seen module_name namespace objects fuel t own e r.path),
        d.sound.untouched id n,
      )
    ]
