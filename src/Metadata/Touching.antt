-- ===== src/Metadata/Touching.antt =====
-- What one visit of the metadata pass does.
use Prim.Native.String.{String}
use mathlib.Core.List.{Memᴰ}
use mathlib.Core.List.Memᴰ
use trio_asyncio.Prelude.{
  ℕ, true, false, Option, none, some, List, [], ◌≡◌, refl, ◌⊎◌, inl, inr, arith, update, Bool-cases,
  ◌==◌, subst, sym, ap, ◌∙◌,
}
use trio_asyncio.Exec.{ok}
use trio_asyncio.Metadata.{Object, Fixup, is_ours, renamed, shown_module, items, rewrite, touch}
use trio_asyncio.Metadata.Reached.{Opens, Reached, Settled, TypesOwn}
use trio_asyncio.Metadata.Visiting.{Sound}

module _ (module_name : String) (namespace : List (String × ℕ)) (objects : ℕ → Object) where
  -- What one visit does: nothing on an object that was visited, and else it settles this object alone
  -- and answers with its attributes if it is a class of the package.
  pub record Touched (s t : Fixup) (id : ℕ) (attributes : List (String × ℕ)) : Type 0 where
    pub sound : Sound module_name namespace objects t
    pub grows : (j : ℕ) → s.seen_ids j ≡ true → t.seen_ids j ≡ true
    pub here : t.seen_ids id ≡ true
    pub only : (j : ℕ) → t.seen_ids j ≡ true → (s.seen_ids j ≡ true) ⊎ (j ≡ id)
    pub opens : (x : String × ℕ) → Memᴰ x attributes → Opens namespace objects id attributes
    pub skipped : s.seen_ids id ≡ true → attributes ≡ []
    pub full :
        s.seen_ids id ≡ false
        → (all : List (String × ℕ)) → Opens namespace objects id all
        → attributes ≡ all

  -- After `seen_ids.add`, with the object left as it was or replaced by `obj`.
  add-Touched :
      {id : ℕ} (s : Fixup) (obj : Object) (attributes : List (String × ℕ))
      → Sound module_name namespace objects s
      → s.seen_ids id ≡ false
      → Settled namespace objects module_name id obj
      → ((x : String × ℕ) → Memᴰ x attributes → Opens namespace objects id attributes)
      → ((all : List (String × ℕ)) → Opens namespace objects id all → attributes ≡ all)
      → (t : Fixup) → ((j : ℕ) → t.seen_ids j ≡ update s.seen_ids id true j)
      → ((j : ℕ) → t.objects j ≡ update s.objects id obj j)
      → Touched s t id attributes
  add-Touched {id} s obj attributes h new settled opens full t e₁ e₂ = record {
    sound = record {
      untouched = λ j n. ground (arith, e₁ j, e₂ j, h.untouched j);
      settled = λ j y. elim (Bool-cases (id == j)) [
        | inl same ↦
            let at : t.objects j ≡ obj = ground (arith, e₂ j) in
            let is : id ≡ j = ground (arith) in
            subst (λ k. Settled namespace objects module_name k (t.objects j)) is
              (subst (Settled namespace objects module_name id) (sym at) settled)
        | inr other ↦
            let at : t.objects j ≡ s.objects j = ground (arith, e₂ j) in
            subst (Settled namespace objects module_name j) (sym at)
              (h.settled j (ground (arith, e₁ j)))
      ];
    };
    grows = λ j y. ground (arith, e₁ j);
    here = ground (arith, e₁ id);
    only = λ j y. ground (arith, e₁ j);
    opens = opens;
    skipped = λ y. absurd cc;
    full = λ _. full;
  }

  -- The state that `fix_one` leaves after one object.
  abbrev plain : ℕ → Fixup → Fixup
  plain id s = record s { seen_ids = update s.seen_ids id true }

  abbrev changed : (qualname name : String) → ℕ → Fixup → Fixup
  changed qualname name id s = record {
    seen_ids = update s.seen_ids id true;
    objects = update s.objects id (renamed module_name qualname name (s.objects id));
  }

  touch-cases :
      (qualname name : String) (id : ℕ) (s t : Fixup) (attributes : List (String × ℕ))
      → s.seen_ids id ≡ false
      → touch module_name qualname name id s ≡ (ok attributes, t)
      → (is_ours (shown_module s.objects (s.objects id)) ≡ false)
          × (attributes ≡ [])
          × (t ≡ plain id s)
        ⊎ (is_ours (shown_module s.objects (s.objects id)) ≡ true)
          × (attributes ≡ items (s.objects id).class_dict)
          × (t ≡ changed qualname name id s)
  unfolding touch rewrite
  touch-cases qualname name id s t attributes n e = ground arith

  own_of_shown :
      (objs : ℕ → Object) (obj : Object)
      → is_ours (shown_module objs obj) ≡ false
      → is_ours obj.own_module ≡ false
  unfolding is_ours
  own_of_shown objs obj h = ground arith

  pub own_of_ours :
      (objs : ℕ → Object) (obj : Object)
      → is_ours (shown_module objs obj) ≡ true
      → (is_ours obj.own_module ≡ true) ⊎ (obj.own_module ≡ none)
  own_of_ours objs obj h = ground arith

  own-Opens :
      (objs : ℕ → Object) (id : ℕ) (attributes : List (String × ℕ))
      → TypesOwn namespace objects
      → is_ours (shown_module objs (objects id)) ≡ true
      → (objects id).class_dict ≡ some attributes
      → Opens namespace objects id attributes
  own-Opens objs id attributes own h e = record {
    ours = ground (arith, own id attributes e);
    dict = e;
  }

  items-some :
      (dict : Option (List (String × ℕ))) (x : String × ℕ)
      → Memᴰ x (items dict)
      → dict ≡ some (items dict)
  items-some none x m = absurd (Memᴰ.not-nil m)
  items-some (some xs) x m = refl

  touch-new :
      {objname qualname name : String} {id : ℕ}
      → TypesOwn namespace objects
      → Reached namespace objects objname qualname name id
      → (s t : Fixup) (attributes : List (String × ℕ)) → Sound module_name namespace objects s
      → s.seen_ids id ≡ false
      → (is_ours (shown_module s.objects (s.objects id)) ≡ false)
          × (attributes ≡ [])
          × (t ≡ plain id s)
        ⊎ (is_ours (shown_module s.objects (s.objects id)) ≡ true)
          × (attributes ≡ items (s.objects id).class_dict)
          × (t ≡ changed qualname name id s)
      → Touched s t id attributes
  touch-new {objname} {qualname} {name} {id} own path s t attributes h n
        (inl (other, none_left, at)) =
      let was = h.untouched id n in
      let other' : is_ours (shown_module s.objects (objects id)) ≡ false = rw was at other in
      add-Touched s (s.objects id) attributes h n
        (record {
          reached = record { objname = objname; qualname = qualname; name = name; path = path };
          state = inl (own_of_shown s.objects (objects id) other', was);
        })
        (λ x m. absurd (Memᴰ.not-nil (subst (Memᴰ x) none_left m)))
        (λ all o. absurd (ground (arith, own id all o.dict, o.ours))) t (λ j. ground arith)
        (λ j. ground arith)
  touch-new {objname} {qualname} {name} {id} own path s t attributes h n (inr (ours, given, at)) =
      let was = h.untouched id n in
      let ours' : is_ours (shown_module s.objects (objects id)) ≡ true = rw was at ours in
      let given' : attributes ≡ items (objects id).class_dict = rw was at given in
      add-Touched s (renamed module_name qualname name (s.objects id)) attributes h n
        (record {
          reached = record { objname = objname; qualname = qualname; name = name; path = path };
          state = inr (
            own_of_ours s.objects (objects id) ours',
            ap (renamed module_name qualname name) was,
          );
        })
        (λ x m.
          own-Opens s.objects id attributes own ours'
            (ground (arith, items-some (objects id).class_dict x (subst (Memᴰ x) given' m))))
        (λ all o. given' ∙ ap items o.dict) t (λ j. ground arith) (λ j. ground arith)

  pub touch-Touched :
      {objname qualname name : String} {id : ℕ}
      → TypesOwn namespace objects
      → Reached namespace objects objname qualname name id
      → (s t : Fixup) (attributes : List (String × ℕ)) → Sound module_name namespace objects s
      → touch module_name qualname name id s ≡ (ok attributes, t)
      → Touched s t id attributes
  unfolding touch rewrite
  touch-Touched {qualname} {name} {id} own path s t attributes h e =
      elim (Bool-cases (s.seen_ids id)) [
        | inl y ↦
            let same : t ≡ s = ground arith in
            let none_left : attributes ≡ [] = ground arith in
            record {
              sound = subst (Sound module_name namespace objects) (sym same) h;
              grows = λ j z. ground arith;
              here = ground arith;
              only = λ j z. ground arith;
              opens = λ x m. absurd (Memᴰ.not-nil (subst (Memᴰ x) none_left m));
              skipped = λ _. none_left;
              full = λ n. cc;
            }
        | inr n ↦
            touch-new own path s t attributes h n (touch-cases qualname name id s t attributes n e)
      ]
