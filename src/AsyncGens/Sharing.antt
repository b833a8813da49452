-- ===== src/AsyncGens/Sharing.antt =====
-- The loops that run share one dispatcher.
use mathlib.Core.Option.{some-injective}
use trio_asyncio.Prelude.{
  Option-cases, zero, subst, option_ind, ℕ, suc, ◌≡◌, refl, sym, ap, ◌∙◌, inl, inr, Bool, Option,
  none, some, List, [], ◌∷◌, if◌then◌else◌, arith, length,
}
use trio_asyncio.Exec.{Result, ok, err}
use trio_asyncio.AsyncGens.{
  Hook, ours, other, Hooks, Dispatcher, Generators, set_refcnt, install, install_over, uninstall,
  uninstall_from, to_loop, to_hook, firstiter_hook, finalizer_hook,
}

-- A loop is entered, or the loop at this place among those that run is left.
pub data Step : Type 0 where
  enter : Step
  leave : (place : ℕ) → Step

-- The dispatcher of the loop at a place, and the others.
abbrev pub take_out : ℕ → List ℕ → Option (ℕ × List ℕ)
take_out n [] = none
take_out zero (d ∷ ds) = some (d, ds)
take_out (suc n) (d ∷ ds) = elim (take_out n ds) [ none ↦ none | some r ↦ some (r.0, d ∷ r.1) ]

-- The dispatchers that the running loops hold, and the interpreter's state; `none` once an assertion
-- fails.
abbrev pub Shared : Type 0
Shared = List ℕ × Generators

abbrev pub entered : List ℕ → Result ℕ × Generators → Option Shared
entered held (ok d, s) = some (d ∷ held, s)
entered held (err e, s) = none

abbrev pub left : List ℕ → Result (Unit {0}) × Generators → Option Shared
left held (ok _, s) = some (held, s)
left held (err e, s) = none

-- One step; leaving a loop that does not run does nothing.
pub step : Step → Shared → Option Shared
step enter x = entered x.0 (install x.1)
step (leave n) x = elim (take_out n x.0) [ none ↦ some x | some r ↦ left r.1 (uninstall r.0 x.1) ]

pub run : List Step → Shared → Option Shared
unfolding step
run [] x = some x
run (a ∷ rest) x = elim (step a x) [ none ↦ none | some y ↦ run rest y ]

abbrev pub AllSame : ℕ → List ℕ → Type 0
AllSame d [] = Unit
AllSame d (e ∷ es) = (e ≡ d) × AllSame d es

abbrev pub both : Hook → Hook → Hooks
both a b = record { firstiter = some a; finalizer = some b }

-- With no loop running the hooks are the other ones, `a` and `b`; else the hooks are those of one
-- dispatcher, which all running loops hold, which counts them, and which forwards to `a` and `b`.
abbrev pub Held : ℕ → ℕ → List ℕ → Generators → Type 0
Held a b [] s = s.hooks ≡ both (other a) (other b)
Held a b (d ∷ ds) s =
    (s.hooks ≡ both (ours d) (ours d))
    × (s.dispatchers d ≡ record { prev_hooks = both (other a) (other b); refcnt = suc (length ds) })
    × AllSame d ds

abbrev pub HeldAfter : ℕ → ℕ → Option Shared → Type 0
HeldAfter a b none = ⊥
HeldAfter a b (some x) = Held a b x.0 x.1

install-both : (f g : Hook) (s : Generators) → s.hooks ≡ both f g → install s ≡ install_over f g s
unfolding install
install-both f g s e = ground (arith, e)

enter-Held :
    (a b : ℕ) (held : List ℕ) (s : Generators)
    → Held a b held s
    → HeldAfter a b (step enter (held, s))
unfolding step
enter-Held a b [] s h =
    subst (λ r. HeldAfter a b (entered [] r)) (sym (install-both (other a) (other b) s h))
      (refl, ground (arith, h), tt)
enter-Held a b (d ∷ ds) s h =
    let new = set_refcnt d (suc (s.dispatchers d).refcnt) s in
    let same : install_over (ours d) (ours d) s ≡ (ok d, new) = ground arith in
    subst (λ r. HeldAfter a b (entered (d ∷ ds) r))
      (sym (install-both (ours d) (ours d) s h.0 ∙ same)) (h.0, ground (arith, h.1), (refl, h.2))

take_out-AllSame :
    (d n : ℕ) (held : List ℕ) (r : ℕ × List ℕ)
    → AllSame d held
    → take_out n held ≡ some r
    → (r.0 ≡ d) × AllSame d r.1 × (length held ≡ suc (length r.1))
take_out-AllSame d n [] r h e = absurd (cc)
take_out-AllSame d zero (x ∷ xs) r h e =
    subst (λ (r : ℕ × List ℕ). (r.0 ≡ d) × AllSame d r.1 × (length (x ∷ xs) ≡ suc (length r.1)))
      (some-injective _ _ e) (h.0, h.1, refl)
take_out-AllSame d (suc n) (x ∷ xs) r h e = elim (Option-cases (take_out n xs)) [
  | inl g ↦ absurd (ground (arith, g, e))
  | inr (r', g) ↦
      let ih = take_out-AllSame d n xs r' h.1 g in
      let found : take_out (suc n) (x ∷ xs) ≡ some (r'.0, x ∷ r'.1) = rw g refl in
      subst (λ (r : ℕ × List ℕ). (r.0 ≡ d) × AllSame d r.1 × (length (x ∷ xs) ≡ suc (length r.1)))
        (some-injective _ _ (sym found ∙ e)) (ih.0, (h.0, ih.1), ap suc ih.2)
]

uninstall-Held :
    (a b d : ℕ) (rest : List ℕ) (s : Generators)
    → s.hooks ≡ both (ours d) (ours d)
    → s.dispatchers d ≡ record { prev_hooks = both (other a) (other b); refcnt = suc (length rest) }
    → AllSame d rest
    → HeldAfter a b (left rest (uninstall d s))
unfolding uninstall
uninstall-Held a b d [] s h c same =
    subst (λ k. HeldAfter a b (left [] (uninstall_from d k s)))
      (sym (ap (λ (x : Dispatcher). x.refcnt) c)) (ap (λ (x : Dispatcher). x.prev_hooks) c)
uninstall-Held a b d (e ∷ es) s h c same =
    let s' = set_refcnt d (suc (length es)) s in
    let held : Held a b (d ∷ es) s' = (h, ground (arith, c), same.1) in
    subst (λ k. HeldAfter a b (left (e ∷ es) (uninstall_from d k s)))
      (sym (ap (λ (x : Dispatcher). x.refcnt) c))
      (subst (λ x. Held a b (x ∷ es) s') (sym same.0) held)

leave-Held :
    (a b n : ℕ) (held : List ℕ) (s : Generators)
    → Held a b held s
    → HeldAfter a b (step (leave n) (held, s))
unfolding step
leave-Held a b n [] s h = h
leave-Held a b n (d ∷ ds) s h =
    option_ind (λ (o : Option Shared). HeldAfter a b o) (take_out n (d ∷ ds)) _ _ (λ _. h)
      (λ r e.
        let (same, others, count) = take_out-AllSame d n (d ∷ ds) r (refl, h.2) e in
        let counted : s.dispatchers d
            ≡ record { prev_hooks = both (other a) (other b); refcnt = suc (length r.1) } =
          ground (arith, h.1, count) in
        subst (λ k. HeldAfter a b (left r.1 (uninstall k s))) (sym same)
          (uninstall-Held a b d r.1 s h.0 counted others))

step-Held : (a b : ℕ) (c : Step) (x : Shared) → Held a b x.0 x.1 → HeldAfter a b (step c x)
step-Held a b enter (held, s) h = enter-Held a b held s h
step-Held a b (leave n) (held, s) h = leave-Held a b n held s h

-- Loops are entered and left in any order, none running at first and the hooks being no
-- dispatcher's. Then no assertion fails, and at the end either no loop runs and the hooks are the
-- first ones, or all running loops hold one dispatcher, whose hooks are installed, which counts them
-- and forwards to the first hooks.
pub run-Held :
    (a b : ℕ) (steps : List Step) (s : Generators)
    → s.hooks ≡ both (other a) (other b)
    → HeldAfter a b (run steps ([], s))
unfolding run
run-Held a b steps s h = go steps ([], s) h
  where
    go : (steps : List Step) (x : Shared) → Held a b x.0 x.1 → HeldAfter a b (run steps x)
    go [] x h = h
    go (c ∷ rest) x h =
        option_ind (λ (o : Option Shared). HeldAfter a b o) (step c x) _ _
          (λ e. subst (HeldAfter a b) e (step-Held a b c x h))
          (λ y e. go rest y (subst (HeldAfter a b) e (step-Held a b c x h)))

-- A generator that is first iterated in asyncio code is finalized by the loop that ran then; another
-- one goes to the hooks that were there before, both times.
firstiter_hook-finalizer_hook :
    (d : Dispatcher) (asyncio : Bool) (running : ℕ)
    → let (route, mark) = firstiter_hook d asyncio running none in
      (route ≡ (if asyncio then to_loop running else to_hook d.prev_hooks.firstiter))
      × (finalizer_hook d mark
          ≡ (if asyncio then to_loop running else to_hook d.prev_hooks.finalizer))
unfolding firstiter_hook finalizer_hook
firstiter_hook-finalizer_hook d asyncio running = ground arith
