-- ===== src/Metadata/Visiting.antt =====
-- What a run of the metadata pass visits, and what it makes of the objects.
use Prim.Native.String.{String}
use mathlib.Core.List.{Memᴰ}
use mathlib.Core.List.Memᴰ
use trio_asyncio.Prelude.{
  ℕ, Bool, true, false, List, [], ◌∷◌, ◌≡◌, refl, inl, inr, Bool-cases, subst, sym,
}
use trio_asyncio.Exec.{ok, Exec, bind-ok}
use trio_asyncio.Metadata.{Object, Fixup, each}
use trio_asyncio.Metadata.Reached.{Opens, Settled}

module _ (module_name : String) (namespace : List (String × ℕ)) (objects : ℕ → Object) where
  -- In the state s, the objects that were visited are settled, and the others are as they were.
  pub record Sound (s : Fixup) : Type 0 where
    pub untouched : (id : ℕ) → s.seen_ids id ≡ false → s.objects id ≡ objects id
    pub settled :
        (id : ℕ) → s.seen_ids id ≡ true → Settled namespace objects module_name id (s.objects id)

  -- From s to t, what was visited stays so, and each class that was newly visited has all its
  -- attributes visited.
  pub record Visits (s t : Fixup) : Type 0 where
    pub grows : (id : ℕ) → s.seen_ids id ≡ true → t.seen_ids id ≡ true
    pub closed :
        (id : ℕ) (attributes : List (String × ℕ)) (attr : String) (value : ℕ)
        → t.seen_ids id ≡ true
        → s.seen_ids id ≡ false
        → Opens namespace objects id attributes
        → Memᴰ (attr, value) attributes
        → t.seen_ids value ≡ true

  pub Visits-refl : (s : Fixup) → Visits s s
  Visits-refl s = record { grows = λ _ h. h; closed = λ id _ _ _ h k. absurd (cc) }

  pub Visits-trans : (s t u : Fixup) → Visits s t → Visits t u → Visits s u
  Visits-trans s t u p q = record {
    grows = λ id h. q.grows id (p.grows id h);
    closed = λ id ms a v h k o m. elim (Bool-cases (t.seen_ids id)) [
      | inl y ↦ q.grows v (p.closed id ms a v y k o m)
      | inr n ↦ q.closed id ms a v h n o m
    ];
  }

  -- What a call that returns has done, with `goal` about what it has visited.
  pub record Did (s t : Fixup) (goal : (ℕ → Bool) → Type 0) : Type 1 where
    pub sound : Sound t
    pub visits : Visits s t
    pub reached : goal t.seen_ids

  -- A loop does what its rounds do, if what a round reaches stays reached.
  pub each-Did :
      {A : Type 0} (body : A → Exec Fixup Unit) (goal : A → (ℕ → Bool) → Type 0)
      → ((x : A) (f g : ℕ → Bool) → ((id : ℕ) → f id ≡ true → g id ≡ true) → goal x f → goal x g)
      → (xs : List A)
      → ((x : A) → Memᴰ x xs → (s t : Fixup) → Sound s → body x s ≡ (ok tt, t) → Did s t (goal x))
      → (s t : Fixup) → Sound s
      → each body xs s ≡ (ok tt, t)
      → Did s t (λ f. (x : A) → Memᴰ x xs → goal x f)
  each-Did {A} body goal mono [] rounds s t h e =
      let same : s ≡ t = cc in
      subst (λ u. Did s u (λ f. (x : A) → Memᴰ x [] → goal x f)) same
        (record { sound = h; visits = Visits-refl s; reached = λ x m. absurd (Memᴰ.not-nil m) })
  each-Did body goal mono (x ∷ xs) rounds s t h e =
      let (_, u, first, later) = bind-ok (body x) (λ _. each body xs) s tt t e in
      let p = rounds x (Memᴰ.head refl) s u h first in
      let q = each-Did body goal mono xs (λ y m. rounds y (Memᴰ.tail m)) u t p.sound later in
      record {
        sound = q.sound;
        visits = Visits-trans s u t p.visits q.visits;
        reached = λ y m. elim (Memᴰ.cases_cons m) [
          | inl same ↦
              mono y u.seen_ids t.seen_ids q.visits.grows
                (subst (λ z. goal z u.seen_ids) (sym same) p.reached)
          | inr m' ↦ q.reached y m'
        ];
      }
