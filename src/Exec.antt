-- ===== src/Exec.antt =====
-- Python statements that change an object and may raise. What was written before a raise stays
-- written, so the state comes back beside the error.
use trio_asyncio.Prelude.{ℕ, ◌≡◌, refl, ◌⊎◌, inl, inr}

-- The exceptions that leave a method of the loop. `runtime_error` stands for all `RuntimeError`s;
-- `user_exit` for a `SystemExit` or `KeyboardInterrupt` of a callback; the last two are no
-- exceptions: `waits` is an await that does not return yet, `unfinished` a loop that still runs.
pub data Error : Type 0 where
  runtime_error would_block attribute_error assertion_error trio_asyncio_exit : Error
  user_exit : ℕ → Error
  waits unfinished : Error

pub data Result (A : Type 0) : Type 0 where
  ok : A → Result A
  err : Error → Result A

abbrev pub Exec : Type 0 → Type 0 → Type 0
Exec S A = S → Result A × S

module _ {S : Type 0} where
  abbrev pub pure : {A : Type 0} → A → Exec S A
  pure a s = (ok a, s)

  abbrev pub fail : {A : Type 0} → Error → Exec S A
  fail e s = (err e, s)

  abbrev pub continue : {A B : Type 0} → Result A → (A → Exec S B) → Exec S B
  continue (ok a) f s = f a s
  continue (err e) f s = (err e, s)

  infixl 5 ◌>>=◌ ◌>>◌
  abbrev pub ◌>>=◌ : {A B : Type 0} → Exec S A → (A → Exec S B) → Exec S B
  ◌>>=◌ m f s = let (r, s') = m s in continue r f s'

  abbrev pub ◌>>◌ : {A B : Type 0} → Exec S A → Exec S B → Exec S B
  m >> k = m >>= λ _. k

pub result_cases : (r : Result (Unit {0})) → (r ≡ ok tt) ⊎ ((e : Error) × (r ≡ err e))
result_cases (ok _) = inl refl
result_cases (err e) = inr (e, refl)

-- To show something of the rest of a method, whether its first part raised or not.
pub result_ind {ℓ} :
    {A B : Type 0} (P : B → Type ℓ) (r : Result A) (f : A → B) (g : Error → B)
    → ((a : A) → r ≡ ok a → P (f a))
    → ((e : Error) → r ≡ err e → P (g e))
    → P (elim r [ ok a ↦ f a | err e ↦ g e ])
result_ind P (ok a) f g p q = p a refl
result_ind P (err e) f g p q = q e refl

-- A method that returns has a first part that returned.
pub bind-ok :
    {S A B : Type 0} (m : Exec S A) (f : A → Exec S B) (s : S) (b : B) (t : S)
    → (m >>= f) s ≡ (ok b, t)
    → (a : A) × (s' : S) × (m s ≡ (ok a, s')) × (f a s' ≡ (ok b, t))
bind-ok {S} {A} {B} m f s b t e = first (m s) refl e
  where
    first :
        (r : Result A × S)
        → m s ≡ r
        → continue r.0 f r.1 ≡ (ok b, t)
        → (a : A) × (s' : S) × (m s ≡ (ok a, s')) × (f a s' ≡ (ok b, t))
    first (ok a, s') p q = (a, s', p, q)
    first (err x, s') p q = absurd (cc)
