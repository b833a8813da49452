-- ===== src/Prelude/Lists.antt =====
-- Lists measured by native numbers, and finite maps as functions.
use Prim.Native.Nat.{ℕ, suc, ◌+◌}
use mathlib.Core.Nat
use mathlib.Core.Path.{◌≡◌, refl, sym, ap, ◌∙◌}
use mathlib.Core.Bool.{Bool}
use mathlib.Core.List.{List, [], ◌∷◌, ◌++◌, Perm}
use mathlib.Core.List.Perm
use mathlib.Core.List
use native.Mathlib.Omega.{arith}
use trio_asyncio.Prelude.Tests.{◌==◌, if◌then◌else◌}

-- The library's numbers as native ones.
native_of : Nat.ℕ → ℕ
native_of Nat.zero = 0
native_of (Nat.suc n) = suc (native_of n)

module _ {ℓ} {A : Type ℓ} where
  abbrev pub length : List A → ℕ
  length [] = 0
  length (x ∷ xs) = suc (length xs)

  pub length-append : (xs ys : List A) → length (xs ++ ys) ≡ length xs + length ys
  length-append [] ys = omega arith
  length-append (x ∷ xs) ys = omega (arith, length-append xs ys)

  counted : (xs : List A) → length xs ≡ native_of (List.length xs)
  unfolding native_of
  counted [] = refl
  counted (x ∷ xs) = ap suc (counted xs)

  pub length-Perm : {xs ys : List A} → Perm xs ys → length xs ≡ length ys
  length-Perm {xs} {ys} p = counted xs ∙ ap native_of (Perm.length-eq p) ∙ sym (counted ys)

  -- The elements that pass a Boolean test.
  abbrev pub keep : (A → Bool) → List A → List A
  keep p [] = []
  keep p (x ∷ xs) = if p x then x ∷ keep p xs else keep p xs

  pub keep-append : (p : A → Bool) (xs ys : List A) → keep p (xs ++ ys) ≡ keep p xs ++ keep p ys
  keep-append p [] ys = ground arith
  keep-append p (x ∷ xs) ys = ground (arith, keep-append p xs ys)

-- A store of mutable objects, by their reference: `update f i a` is `f` with `a` at `i`.
abbrev pub update {ℓ} : {A : Type ℓ} → (ℕ → A) → ℕ → A → ℕ → A
update f i a j = if i == j then a else f j
