-- ===== src/Descriptors/Cleanup.antt =====
-- What `_cancel_fds` does with consistent keys.
use trio_asyncio.Prelude.{
  ℕ, ◌≡◌, refl, sym, ap, ◌∙◌, ◌⊎◌, inl, inr, Bool, true, false, ◌||◌, Option, none, some, List, [],
  ◌∷◌, ◌++◌, append_assoc, append-nil, arith, keep, Bool-cases,
}
use mathlib.Core.Path.{subst}
use trio_asyncio.Descriptors.Masks.{is_some, Masked, AllMasked}
use trio_asyncio.Descriptors.{
  Key, ScopedHandle, Descriptors, elem, Failure, close_failed, Cleanup, unless_failed, then_next,
  cancel_flag, os_close, close_marked, cancel_keys, cancel_fds,
}

-- The handle's wait is over, or will be: it or its scope is cancelled.
abbrev pub stopped : ScopedHandle → Bool
stopped a = a.cancelled || a.scope_cancelled

abbrev pub AllStopped : (ℕ → ScopedHandle) → List ℕ → Type 0
AllStopped hs [] = Unit
AllStopped hs (h ∷ rest) = (stopped (hs h) ≡ true) × AllStopped hs rest

abbrev pub listed : Option ℕ → List ℕ
listed none = []
listed (some h) = h ∷ []

-- The handles that are installed, and the descriptors they are for.
abbrev pub all_handlers : List (ℕ × Key) → List ℕ
all_handlers [] = []
all_handlers (x ∷ xs) = listed x.1.reader ++ (listed x.1.writer ++ all_handlers xs)

abbrev pub fds : List (ℕ × Key) → List ℕ
fds [] = []
fds (x ∷ xs) = x.0 ∷ fds xs

record Cleans (hs closes : List ℕ) (s s' : Descriptors) : Type 0 where
  same_files : s'.close_files ≡ s.close_files
  closes_eq : s'.os_closed ≡ s.os_closed ++ closes
  kept : (h : ℕ) → stopped (s.handles h) ≡ true → stopped (s'.handles h) ≡ true
  all : AllStopped s'.handles hs

AllStopped-append :
    (f : ℕ → ScopedHandle) (hs hs' : List ℕ)
    → AllStopped f hs
    → AllStopped f hs'
    → AllStopped f (hs ++ hs')
AllStopped-append f [] hs' a b = b
AllStopped-append f (h ∷ hs) hs' a b = (a.0, AllStopped-append f hs hs' a.1 b)

AllStopped-kept :
    (f g : ℕ → ScopedHandle) (hs : List ℕ)
    → ((h : ℕ) → stopped (f h) ≡ true → stopped (g h) ≡ true)
    → AllStopped f hs
    → AllStopped g hs
AllStopped-kept f g [] k a = tt
AllStopped-kept f g (h ∷ hs) k a = (k h a.0, AllStopped-kept f g hs k a.1)

Cleans-trans :
    {hs hs' c c' : List ℕ} {s s' s'' : Descriptors}
    → Cleans hs c s s'
    → Cleans hs' c' s' s''
    → Cleans (hs ++ hs') (c ++ c') s s''
Cleans-trans {hs} {hs'} {c} {c'} {s} {s'} {s''} x y = record {
  same_files = y.same_files ∙ x.same_files;
  closes_eq = y.closes_eq ∙ ap (λ l. l ++ c') x.closes_eq ∙ append_assoc s.os_closed c c';
  kept = λ h e. y.kept h (x.kept h e);
  all =
      AllStopped-append s''.handles hs hs' (AllStopped-kept s'.handles s''.handles hs y.kept x.all)
        y.all;
}

-- A part that ends like this, with these handles stopped and these descriptors closed.
abbrev Done : Option Failure → List ℕ → List ℕ → Descriptors → Option Failure × Descriptors → Type 0
Done e hs c s r = (r.0 ≡ e) × Cleans hs c s r.1

unless_failed-Done :
    (e : Option Failure) (hs c hs' c' : List ℕ) (s : Descriptors) (r : Option Failure × Descriptors)
    (k : Cleanup)
    → Done none hs c s r
    → Done e hs' c' r.1 (k r.1)
    → Done e (hs ++ hs') (c ++ c') s (unless_failed r.0 k r.1)
unless_failed-Done e hs c hs' c' s (none, s') k x y = (y.0, Cleans-trans x.1 y.1)
unless_failed-Done e hs c hs' c' s (some f, s') k x y = absurd (cc)

then_next-Done :
    (e : Option Failure) (hs c hs' c' : List ℕ) (s : Descriptors) (m k : Cleanup)
    → Done none hs c s (m s)
    → Done e hs' c' (m s).1 (k (m s).1)
    → Done e (hs ++ hs') (c ++ c') s (then_next m k s)
then_next-Done e hs c hs' c' s m k x y = unless_failed-Done e hs c hs' c' s (m s) k x y

Cleans-refl : (s : Descriptors) → Cleans [] [] s s
Cleans-refl s = record {
  same_files = refl;
  closes_eq = sym (append-nil _);
  kept = λ h k. k;
  all = tt;
}

cancel_flag-Done :
    (b : Bool) (o : Option ℕ) (s : Descriptors)
    → b ≡ is_some o
    → Done none (listed o) [] s (cancel_flag b o s)
cancel_flag-Done false none s e = (refl, Cleans-refl s)
cancel_flag-Done false (some h) s e = absurd (cc)
cancel_flag-Done true none s e = absurd (cc)
cancel_flag-Done true (some h) s e = (
  refl,
  record {
    same_files = ground arith;
    closes_eq = ground (arith, append-nil s.os_closed);
    kept = λ h' k. ground arith;
    all = (ground arith, tt);
  },
)

module _ (can_close : ℕ → Bool) where
  -- The marked descriptors among these.
  abbrev pub marked : List ℕ → List (ℕ × Key) → List ℕ
  marked files xs = keep (λ fd. elem fd files) (fds xs)

  os_close-Done :
      (fd : ℕ) (s : Descriptors)
      → can_close fd ≡ true
      → Done none [] (fd ∷ []) s (os_close can_close fd s)
  os_close-Done fd s e =
      rw e (refl, record { same_files = refl; closes_eq = refl; kept = λ h k. k; all = tt })

  -- How the keys are left: all of them are done, or the closing of a descriptor fails.
  abbrev Ends : List (ℕ × Key) → List ℕ → Descriptors → Option Failure × Descriptors → Type 0
  Ends xs files s o =
      Done none (all_handlers xs) (marked files xs) s o
      ⊎ ((pre : List (ℕ × Key)) × (x : ℕ × Key) × (post : List (ℕ × Key)) × (xs ≡ pre ++ x ∷ post)
          × (elem x.0 files ≡ true)
          × (can_close x.0 ≡ false)
          × Done (some (close_failed x.0)) (all_handlers (pre ++ x ∷ [])) (marked files pre) s o)

  -- A key that is done, and then the others.
  extend-Ends :
      (x : ℕ × Key) (xs : List (ℕ × Key)) (files here : List ℕ) (s s' : Descriptors)
      (o o' : Option Failure × Descriptors)
      → ((ys : List ℕ)
          → here ++ keep (λ fd. elem fd files) ys ≡ keep (λ fd. elem fd files) (x.0 ∷ ys))
      → ((e : Option Failure) (hs c : List ℕ)
          → Done e hs c s' o'
          → Done e (listed x.1.reader ++ (listed x.1.writer ++ hs)) (here ++ c) s o)
      → Ends xs files s' o'
      → Ends (x ∷ xs) files s o
  extend-Ends x xs files here s s' o o' marks lift (inl d) = inl (
      subst (λ c. Done none (all_handlers (x ∷ xs)) c s o) (marks (fds xs))
        (lift none (all_handlers xs) (marked files xs) d))
  extend-Ends x xs files here s s' o o' marks lift (inr (pre, y, post, e, m, n, d)) = inr (
    x ∷ pre,
    y,
    post,
    ap (λ l. x ∷ l) e,
    m,
    n,
    subst (λ c. Done (some (close_failed y.0)) (all_handlers (x ∷ (pre ++ y ∷ []))) c s o)
        (marks (fds pre))
        (lift (some (close_failed y.0)) (all_handlers (pre ++ y ∷ [])) (marked files pre) d),
  )

  -- Both flags of a key, before the rest.
  flags-Done :
      (x : ℕ × Key) (xs : List (ℕ × Key)) (s : Descriptors)
      → Masked x.1
      → (s₂ : Descriptors) × (s₂.close_files ≡ s.close_files)
        × ((e : Option Failure) (hs c : List ℕ)
            → Done e hs c s₂ (then_next (close_marked can_close x.0) (cancel_keys can_close xs) s₂)
            → Done e
                (listed x.1.reader ++ (listed x.1.writer ++ hs))
                c
                s
                (cancel_keys can_close (x ∷ xs) s))
  unfolding cancel_keys
  flags-Done x xs s m =
      let key = x.1 in
      let rest : Cleanup = then_next (close_marked can_close x.0) (cancel_keys can_close xs) in
      let first = cancel_flag-Done key.reads key.reader s m.0 in
      let s₁ = (cancel_flag key.reads key.reader s).1 in
      let second = cancel_flag-Done key.writes key.writer s₁ m.1 in
      let s₂ = (cancel_flag key.writes key.writer s₁).1 in
      (
        s₂,
        second.1.same_files ∙ first.1.same_files,
        λ e hs c d.
            then_next-Done e (listed key.reader) [] (listed key.writer ++ hs) c s
              (cancel_flag key.reads key.reader)
              (then_next (cancel_flag key.writes key.writer) rest) first
              (then_next-Done e (listed key.writer) [] hs c s₁ (cancel_flag key.writes key.writer)
                rest second d),
      )

  cancel_keys-Ends :
      (xs : List (ℕ × Key)) (files : List ℕ) (s : Descriptors)
      → s.close_files ≡ files
      → AllMasked xs
      → Ends xs files s (cancel_keys can_close xs s)
  unfolding cancel_keys
  cancel_keys-Ends [] files s e m = inl (refl, Cleans-refl s)
  cancel_keys-Ends (x ∷ xs) files s e m =
      let (s₂, same, lift) = flags-Done x xs s m.0 in
      let tail : Cleanup = then_next (close_marked can_close x.0) (cancel_keys can_close xs) in
      let o = cancel_keys can_close (x ∷ xs) s in
      let same₂ : s₂.close_files ≡ files = same ∙ e in
      elim (Bool-cases (elem x.0 files)) [
        | inr unmarked ↦
            let skips : tail s₂ ≡ cancel_keys can_close xs s₂ = rw (same₂, unmarked) refl in
            extend-Ends x xs files [] s s₂ o (cancel_keys can_close xs s₂) (λ ys. rw unmarked refl)
              (λ f hs c d. lift f hs c (subst (λ r. Done f hs c s₂ r) (sym skips) d))
              (cancel_keys-Ends xs files s₂ same₂ m.1)
        | inl is_marked ↦ elim (Bool-cases (can_close x.0)) [
          | inr fails ↦
              let stops : tail s₂ ≡ (some (close_failed x.0), s₂) =
                rw (same₂, is_marked, fails) refl in
              inr (
                [],
                x,
                xs,
                refl,
                is_marked,
                fails,
                lift (some (close_failed x.0)) [] [] (
                    subst (λ r. Done (some (close_failed x.0)) [] [] s₂ r) (sym stops)
                      (refl, Cleans-refl s₂)),
              )
          | inl closes ↦
              let third = os_close-Done x.0 s₂ closes in
              let s₃ = (os_close can_close x.0 s₂).1 in
              let goes : tail s₂
                  ≡ then_next (os_close can_close x.0) (cancel_keys can_close xs) s₂ =
                rw (same₂, is_marked) refl in
              extend-Ends x xs files (x.0 ∷ []) s s₃ o (cancel_keys can_close xs s₃)
                (λ ys. rw is_marked refl)
                (λ f hs c d. lift f hs (x.0 ∷ c) (
                  subst (λ r. Done f hs (x.0 ∷ c) s₂ r) (sym goes)
                    (then_next-Done f [] (x.0 ∷ []) hs c s₂ (os_close can_close x.0)
                      (cancel_keys can_close xs) third d)))
                (cancel_keys-Ends xs files s₃ (third.1.same_files ∙ same₂) m.1)
        ]
      ]

  -- `_cancel_fds`, where the mask of every key is in step with its handles: no assertion fails. If every
  -- descriptor that has a key and is marked by `autoclose` can be closed, every installed handle or
  -- its scope is cancelled, and of the descriptors that have a key exactly the marked ones are closed,
  -- in the order of the selector's map. If not, the error of the first that cannot be closed leaves it:
  -- the handles up to those of this descriptor are stopped, and the marked descriptors before it closed.
  pub cancel_fds-AllStopped :
      (s : Descriptors)
      → AllMasked s.map
      → let (r, s') = cancel_fds can_close s in
        (r ≡ none)
          × AllStopped s'.handles (all_handlers s.map)
          × (s'.os_closed ≡ s.os_closed ++ marked s.close_files s.map)
        ⊎ ((pre : List (ℕ × Key)) × (x : ℕ × Key) × (post : List (ℕ × Key)) × (s.map
              ≡ pre ++ x ∷ post)
            × (elem x.0 s.close_files ≡ true)
            × (can_close x.0 ≡ false)
            × (r ≡ some (close_failed x.0))
            × AllStopped s'.handles (all_handlers (pre ++ x ∷ []))
            × (s'.os_closed ≡ s.os_closed ++ marked s.close_files pre))
  unfolding cancel_fds
  cancel_fds-AllStopped s m = elim (cancel_keys-Ends s.map s.close_files s refl m) [
    | inl d ↦ inl (d.0, d.1.all, d.1.closes_eq)
    | inr (pre, x, post, e, marked_x, fails, d) ↦
        inr (pre, x, post, e, marked_x, fails, d.0, d.1.all, d.1.closes_eq)
  ]
