-- ===== src/Adapters/Tests.antt =====
-- Adapters at concrete values.
use trio_asyncio.Prelude.{ℕ, ◌≡◌, refl, true, false, none, some, [], ◌∷◌, ◌++◌, Bool}
use trio_asyncio.Prelude.{◌⊎◌}
use trio_asyncio.Adapters.{
  Answer, Coroutine, ends, yields, Yielded, future, trap, Awaitable, a_coroutine, and_then,
  trampoline, passed, allow_asyncio,
}
use trio_asyncio.Adapters.Mixing.{trampoline-and_then, allow_asyncio_nested}
use trio_asyncio.Adapters.Wrappers.{Object, AioWrapper}
use trio_asyncio.Adapters.Wrappers.Arguments.{
  called, calls, use_wrapper, Fails, Runs, use_wrapper-Runs,
}

-- To wait for a future is one trap of Trio.
abbrev wait_future : ℕ → Coroutine ℕ ℕ ℕ
wait_future f = yields f (λ a. ends a)

abbrev await_future : ℕ → Coroutine ℕ ℕ (Yielded ℕ ℕ)
await_future f = yields (future f) (λ a. ends a)

-- It awaits future 1 and then sleeps.
abbrev mixed : Coroutine ℕ ℕ (Yielded ℕ ℕ)
mixed = yields (future 1) (λ a. yields (trap 2) (λ b. ends a))

trampoline-and_then_example :
    let f : Answer ℕ ℕ → Coroutine ℕ ℕ (Yielded ℕ ℕ) = λ a. yields (trap 3) (λ b. ends a) in
    (trampoline wait_future (and_then mixed f)
      ≡ and_then (trampoline wait_future mixed) (λ a. trampoline wait_future (f a)))
    × (trampoline wait_future (passed (wait_future 4)) ≡ wait_future 4)
trampoline-and_then_example =
    trampoline-and_then wait_future mixed (λ a. yields (trap 3) (λ b. ends a)) (wait_future 4)

abbrev fn : Bool → Awaitable ℕ ℕ ℕ ℕ
fn shim = a_coroutine mixed

allow_asyncio_nested_example :
    let allow = allow_asyncio wait_future await_future in
    (allow false (λ shim. a_coroutine (allow shim fn).0) ≡ allow false fn)
    × ((allow true fn).1 ≡ true)
    × ((allow false fn).1 ≡ false)
allow_asyncio_nested_example = allow_asyncio_nested wait_future await_future fn (λ f. refl)

abbrev function : Object
function = record {
  name = 0;
  has_await = false;
  has_aenter = false;
  has_aexit = false;
  has_aiter = false;
}

abbrev wrapper : AioWrapper
wrapper = record { proc = function; args = []; loop = none }

use_wrapper-Runs_example :
    (true ≡ false) × Fails (use_wrapper (some 5) wrapper (calls (1 ∷ 2 ∷ []) []))
    ⊎ ((true ≡ true)
        × Runs 5
            (called, function, [] ++ 1 ∷ 2 ∷ [], [])
            (use_wrapper (some 5) wrapper (calls (1 ∷ 2 ∷ []) [])))
use_wrapper-Runs_example = use_wrapper-Runs (some 5) wrapper 5 (calls (1 ∷ 2 ∷ []) []) refl
