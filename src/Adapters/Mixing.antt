-- ===== src/Adapters/Mixing.antt =====
-- Code that mixes Trio's functions and asyncio's.
use trio_asyncio.Prelude.{◌≡◌, refl, sym, ap, ◌∙◌, Bool, true, false, fun_ext}
use trio_asyncio.Adapters.{
  Answer, Coroutine, ends, yields, Yielded, future, trap, Awaitable, a_future, a_coroutine, raises,
  and_then, trampoline, drive, passed, awaited, allow_asyncio,
}

module _ {V E Y : Type 0} where
  and_then-ends : (c : Coroutine V E Y) → and_then c (λ a. ends a) ≡ c
  unfolding and_then
  and_then-ends (ends r) = refl
  and_then-ends (yields y k) = ap (yields y) (fun_ext (λ a. and_then-ends (k a)))

  and_then_assoc :
      (c : Coroutine V E Y) (f g : Answer V E → Coroutine V E Y)
      → and_then (and_then c f) g ≡ and_then c (λ a. and_then (f a) g)
  unfolding and_then
  and_then_assoc (ends r) f g = refl
  and_then_assoc (yields y k) f g = ap (yields y) (fun_ext (λ a. and_then_assoc (k a) f g))

module _ {V E F Y : Type 0} (run_aio_future : F → Coroutine V E Y) where
  -- `allow_asyncio` drives a coroutine that awaits another one as it drives the first and then the
  -- rest, so that it does not matter how the code is cut into coroutines; an error that ends the first
  -- reaches the rest where it awaits. It leaves a coroutine that yields no future as it is.
  pub trampoline-and_then :
      (c : Coroutine V E (Yielded F Y)) (f : Answer V E → Coroutine V E (Yielded F Y))
      (d : Coroutine V E Y)
      → (trampoline run_aio_future (and_then c f)
          ≡ and_then (trampoline run_aio_future c) (λ a. trampoline run_aio_future (f a)))
        × (trampoline run_aio_future (passed d) ≡ d)
  unfolding and_then trampoline
  trampoline-and_then c f d = (cut c, whole d)
    where
      cut :
          (c : Coroutine V E (Yielded F Y))
          → trampoline run_aio_future (and_then c f)
            ≡ and_then (trampoline run_aio_future c) (λ a. trampoline run_aio_future (f a))
      cut (ends r) = refl
      cut (yields (trap y) k) = ap (yields y) (fun_ext (λ a. cut (k a)))
      cut (yields (future x) k) =
          ap (and_then (run_aio_future x)) (fun_ext (λ a. cut (k a)))
          ∙ sym (and_then_assoc (run_aio_future x) _ _)

      whole : (d : Coroutine V E Y) → trampoline run_aio_future (passed d) ≡ d
      whole (ends r) = refl
      whole (yields y k) = ap (yields y) (fun_ext (λ a. whole (k a)))

  -- A call of `allow_asyncio` inside another one makes no difference, whether the function returns a
  -- future, a coroutine, or raises; and `_shim_running` has its old value afterwards. The condition is
  -- that awaiting a future yields it once and ends as it did.
  pub allow_asyncio_nested :
      (await_future : F → Coroutine V E (Yielded F Y)) (fn : Bool → Awaitable V E F Y)
      → ((f : F) → await_future f ≡ yields (future f) (λ a. ends a))
      → let allow = allow_asyncio run_aio_future await_future in
        (allow false (λ shim. a_coroutine (allow shim fn).0) ≡ allow false fn)
        × ((allow true fn).1 ≡ true)
        × ((allow false fn).1 ≡ false)
  unfolding allow_asyncio trampoline
  allow_asyncio_nested await_future fn once =
      (ap (λ c. (passed c, false)) (same (fn true)), refl, refl)
    where
      same :
          (x : Awaitable V E F Y)
          → trampoline run_aio_future (awaited run_aio_future await_future x)
            ≡ drive run_aio_future x
      same (raises e) = refl
      same (a_future f) = ap (trampoline run_aio_future) (once f) ∙ and_then-ends (run_aio_future f)
      same (a_coroutine c) = refl
