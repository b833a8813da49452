-- ===== src/Metadata/Returning.antt =====
-- The recursion of the metadata pass ends: each level of it visits one more object.
use Prim.Native.String.{String, ◌++◌}
use mathlib.Core.List.{Memᴰ}
use trio_asyncio.Prelude.{
  ℕ, zero, suc, ◌≤◌, ◌<◌, Bool, true, false, none, List, [], ◌∷◌, ◌≡◌, refl, ◌⊎◌, inl, inr, arith,
  Bool-cases, ◌==◌, subst, sym, ap, if◌then◌else◌,
}
use trio_asyncio.Exec.{Result, ok, err, Exec, ◌>>=◌, continue, attribute_error}
use trio_asyncio.Metadata.{
  Object, Fixup, is_ours, is_private, shown_module, items, touch, rewrite, each, fix_one,
  fix_public, unvisited, fixup_module_metadata,
}
use trio_asyncio.Metadata.Reached.{Opens, Reached, top, member, IsReached, TypesOwn}
use trio_asyncio.Metadata.Visiting.{Sound, Did}
use trio_asyncio.Metadata.Touching.{own_of_ours, touch-Touched}
use trio_asyncio.Metadata.Fixing.{fix_one-Did, fix_public-Did}

-- The objects below n that were not visited.
abbrev unseen : (ℕ → Bool) → ℕ → ℕ
unseen f zero = 0
unseen f (suc n) = if f n then unseen f n else suc (unseen f n)

unseen_grows :
    (f g : ℕ → Bool) (n : ℕ) → ((id : ℕ) → f id ≡ true → g id ≡ true) → unseen g n ≤ unseen f n
unseen_grows f g zero more = omega arith
unseen_grows f g (suc n) more = ground (arith, unseen_grows f g n more, more n)

unseen_less :
    (f g : ℕ → Bool) (n id : ℕ)
    → ((j : ℕ) → f j ≡ true → g j ≡ true)
    → id < n
    → f id ≡ false
    → g id ≡ true
    → unseen g n < unseen f n
unseen_less f g zero id more h a b = absurd (omega arith)
unseen_less f g (suc n) id more h a b = elim (Bool-cases (id == n)) [
  | inl last ↦
      let same : id ≡ n = ground arith in
      ground (arith, unseen_grows f g n more, rw same at a, rw same at b)
  | inr before ↦
      let below : id < n = ground arith in
      ground (arith, unseen_less f g n id more below a b, more n)
]

unseen_le : (f : ℕ → Bool) (n : ℕ) → unseen f n ≤ n
unseen_le f zero = omega arith
unseen_le f (suc n) = ground (arith, unseen_le f n)

module _ (module_name : String) (namespace : List (String × ℕ)) (objects : ℕ → Object) where
  -- An object that is reached, whose module is of this package, and that refuses a new one.
  pub record Refuses : Type 0 where
    pub refusing : ℕ
    pub reached : IsReached namespace objects refusing
    pub ours :
        (is_ours (objects refusing).own_module ≡ true) ⊎ ((objects refusing).own_module ≡ none)
    pub refuses : (objects refusing).settable ≡ false

  -- How a call ends: it returns, or raises the error of such an object.
  abbrev pub Ends : {A : Type 0} → Result A × Fixup → Type 0
  Ends {A} r = ((a : A) × (r.0 ≡ ok a)) ⊎ (r.0 ≡ err attribute_error) × Refuses

  -- The references that the pass can follow are below n.
  pub record Within (n : ℕ) : Type 0 where
    pub entry : (objname : String) (id : ℕ) → Memᴰ (objname, id) namespace → id < n
    pub attribute :
        (cls : ℕ) (attributes : List (String × ℕ)) (attr : String) (value : ℕ)
        → Opens namespace objects cls attributes
        → Memᴰ (attr, value) attributes
        → value < n

  bind-Ends :
      {A B : Type 0} (m : Exec Fixup A) (f : A → Exec Fixup B) (s : Fixup)
      → Ends (m s)
      → ((a : A) (t : Fixup) → m s ≡ (ok a, t) → Ends (f a t))
      → Ends ((m >>= f) s)
  bind-Ends {A} {B} m f s ends rest = first (m s) refl ends
    where
      first : (r : Result A × Fixup) → m s ≡ r → Ends r → Ends (continue r.0 f r.1)
      first (ok a, t) e h = rest a t e
      first (err x, t) e (inl (a, h)) = absurd cc
      first (err x, t) e (inr (h, refuses)) = inr (cc, refuses)

  each-Ends :
      {A : Type 0} (body : A → Exec Fixup Unit) (n most : ℕ) (goal : A → (ℕ → Bool) → Type 0)
      (xs : List A)
      → ((x : A)
          → Memᴰ x xs
          → (s : Fixup) → Sound module_name namespace objects s
          → unseen s.seen_ids n ≤ most
          → Ends (body x s))
      → ((x : A)
          → Memᴰ x xs
          → (s t : Fixup) → Sound module_name namespace objects s
          → body x s ≡ (ok tt, t)
          → Did module_name namespace objects s t (goal x))
      → (s : Fixup) → Sound module_name namespace objects s
      → unseen s.seen_ids n ≤ most
      → Ends (each body xs s)
  each-Ends body n most goal [] rounds did s h le = inl (tt, refl)
  each-Ends body n most goal (x ∷ xs) rounds did s h le =
      bind-Ends (body x) (λ _. each body xs) s (rounds x (Memᴰ.head refl) s h le)
        (λ _ t e.
          let d = did x (Memᴰ.head refl) s t h e in
          each-Ends body n most goal xs (λ y m. rounds y (Memᴰ.tail m)) (λ y m. did y (Memᴰ.tail m))
            t d.sound (omega (arith, unseen_grows s.seen_ids t.seen_ids n d.visits.grows)))

  touch-result :
      (qualname name : String) (id : ℕ) (s : Fixup)
      → ((touch module_name qualname name id s).0 ≡ ok [])
        ⊎ ((touch module_name qualname name id s).0 ≡ ok (items (s.objects id).class_dict))
        ⊎ ((touch module_name qualname name id s).0 ≡ err attribute_error)
          × (s.seen_ids id ≡ false)
          × (is_ours (shown_module s.objects (s.objects id)) ≡ true)
          × ((s.objects id).settable ≡ false)
  unfolding touch rewrite
  touch-result qualname name id s = ground arith

  touch-Ends :
      {objname qualname name : String} {id : ℕ}
      → Reached namespace objects objname qualname name id
      → (s : Fixup) → Sound module_name namespace objects s
      → Ends (touch module_name qualname name id s)
  touch-Ends {objname} {qualname} {name} {id} path s h = elim (touch-result qualname name id s) [
    | inl e ↦ inl ([], e)
    | inr (inl e) ↦ inl (items (s.objects id).class_dict, e)
    | inr (inr (e, new, ours, refused)) ↦
        let was = h.untouched id new in
        inr (
          e,
          record {
            refusing = id;
            reached = record { objname = objname; qualname = qualname; name = name; path = path };
            ours =
                own_of_ours module_name namespace objects s.objects (objects id) (rw was at ours);
            refuses = rw was at refused;
          },
        )
  ]

  fix_one-Ends :
      (n fuel : ℕ) {objname qualname name : String} {id : ℕ}
      → TypesOwn namespace objects
      → Within n
      → Reached namespace objects objname qualname name id
      → id < n
      → (s : Fixup) → Sound module_name namespace objects s
      → unseen s.seen_ids n < fuel
      → Ends (fix_one module_name objname fuel qualname name id s)
  unfolding fix_one
  fix_one-Ends n zero own inside path below s h lt = absurd (omega arith)
  fix_one-Ends n (suc fuel) {objname} {qualname} {name} {id} own inside path below s h lt =
      let body : String × ℕ → Exec Fixup Unit =
        λ item. fix_one module_name objname fuel (objname ++ ("." ++ item.0)) item.0 item.1 in
      bind-Ends (touch module_name qualname name id) (each body) s (touch-Ends path s h)
        (λ attributes u e.
          let p = touch-Touched module_name namespace objects own path s u attributes h e in
          elim (Bool-cases (s.seen_ids id)) [
            | inl y ↦ subst (λ xs. Ends (each body xs u)) (sym (p.skipped y)) (inl (tt, refl))
            | inr new ↦
                let less = unseen_less s.seen_ids u.seen_ids n id p.grows below new p.here in
                each-Ends body n (unseen u.seen_ids n) (λ item f. f item.1 ≡ true) attributes
                  (λ item m u' h' le.
                    fix_one-Ends n fuel own inside (member path (p.opens item m) m)
                      (inside.attribute id attributes item.0 item.1 (p.opens item m) m) u' h'
                      (omega arith))
                  (λ item m u' t h' e'.
                    fix_one-Did module_name namespace objects fuel own
                      (member path (p.opens item m) m) u' t h' e')
                  u p.sound (omega arith)
          ])

  fix_public-Ends :
      (n : ℕ) (entry : String × ℕ)
      → TypesOwn namespace objects
      → Within n
      → Memᴰ entry namespace
      → (s : Fixup) → Sound module_name namespace objects s
      → Ends (fix_public module_name (suc n) entry s)
  unfolding fix_public
  fix_public-Ends n entry own inside m s h = elim (Bool-cases (is_private entry.0)) [
    | inl y ↦ inl (tt, ground arith)
    | inr public ↦
        let one =
          fix_one-Ends n (suc n) own inside (top m public) (inside.entry entry.0 entry.1 m) s h
            (omega (arith, unseen_le s.seen_ids n)) in
        rw public one
  ]

-- `fixup_module_metadata` ends, whichever cycles the objects form: with a level of recursion for each
-- object and one more, it returns, or it raises the AttributeError of an object that is reached, does
-- not belong to another package, and refuses the assignment to its `__module__`. The references are
-- below n, and each type has a module of its own.
pub fixup_module_metadata_returns :
    (module_name : String) (namespace : List (String × ℕ)) (objects : ℕ → Object) (n : ℕ)
    → TypesOwn namespace objects
    → Within module_name namespace objects n
    → ((t : Fixup) × (fixup_module_metadata module_name namespace (suc n) (unvisited objects)
          ≡ (ok tt, t)))
      ⊎ ((fixup_module_metadata module_name namespace (suc n) (unvisited objects)).0
          ≡ err attribute_error)
        × Refuses module_name namespace objects
unfolding fixup_module_metadata
fixup_module_metadata_returns module_name namespace objects n own inside =
    let run = fixup_module_metadata module_name namespace (suc n) (unvisited objects) in
    elim (each-Ends module_name namespace objects (fix_public module_name (suc n)) n n
      (λ entry f. is_private entry.0 ≡ false → f entry.1 ≡ true) namespace
      (λ entry m s h _. fix_public-Ends module_name namespace objects n entry own inside m s h)
      (λ entry m s t. fix_public-Did module_name namespace objects (suc n) entry own m s t)
      (unvisited objects) (record { untouched = λ _ _. refl; settled = λ _ y. absurd cc })
      (unseen_le (λ _. false) n)) [
        | inl (tt, e) ↦ inl (run.1, ap (λ r. (r, run.1)) e)
        | inr raised ↦ inr raised
      ]
