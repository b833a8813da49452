-- ===== src/Adapters.antt =====
-- The adapters of trio_asyncio/_adapter.py: `aio_as_trio`, `trio_as_aio` and `allow_asyncio`. A
-- coroutine is the tree of what it yields and of what it does with each answer.
pub mod Mixing
pub mod Wrappers
mod Tests
use trio_asyncio.Prelude.{
  ℕ, ◌≡◌, Bool, true, false, not, Option, none, some, List, [], ◌∷◌, if◌then◌else◌,
}

-- What `send` or `throw` hands to a coroutine, and how a coroutine ends.
pub data Answer (V E : Type 0) : Type 0 where
  sent : V → Answer V E
  thrown : E → Answer V E

-- A coroutine that yields objects of `Y`.
pub data Coroutine (V E Y : Type 0) : Type 0 where
  ends : Answer V E → Coroutine V E Y
  yields : Y → (Answer V E → Coroutine V E Y) → Coroutine V E Y

-- What asyncio code may yield beside Trio's traps: a future.
pub data Yielded (F Y : Type 0) : Type 0 where
  future : F → Yielded F Y
  trap : Y → Yielded F Y

-- What `fn(*args)` returns: a future, or a coroutine; or it raises.
pub data Awaitable (V E F Y : Type 0) : Type 0 where
  a_future : F → Awaitable V E F Y
  a_coroutine : Coroutine V E (Yielded F Y) → Awaitable V E F Y
  raises : E → Awaitable V E F Y

module _ {V E Y : Type 0} where
  -- `yield from`, or `await`: what comes after sees how the first part ended.
  unfoldable pub and_then : Coroutine V E Y → (Answer V E → Coroutine V E Y) → Coroutine V E Y
  and_then (ends r) f = f r
  and_then (yields y k) f = yields y (λ a. and_then (k a) f)

module _ {V E F Y : Type 0} (run_aio_future : F → Coroutine V E Y) where
  -- The loop of `_allow_asyncio`, from `p(a)` on.
  unfoldable pub trampoline : Coroutine V E (Yielded F Y) → Coroutine V E Y
  unfolding and_then
  trampoline (ends r) = ends r
  trampoline (yields (trap y) k) = yields y (λ a. trampoline (k a))
  trampoline (yields (future f) k) = and_then (run_aio_future f) (λ a. trampoline (k a))

  -- `_allow_asyncio`, once `_shim_running` is set.
  abbrev pub drive : Awaitable V E F Y → Coroutine V E Y
  drive (raises e) = ends (thrown e)
  drive (a_future f) = run_aio_future f
  drive (a_coroutine c) = trampoline c

module _ {V E Y F : Type 0} where
  -- A coroutine that yields no future, as one that may.
  abbrev pub passed : Coroutine V E Y → Coroutine V E (Yielded F Y)
  passed (ends r) = ends r
  passed (yields y k) = yields (trap y) (λ a. passed (k a))

module _ {V E F Y : Type 0} (run_aio_future : F → Coroutine V E Y)
    (await_future : F → Coroutine V E (Yielded F Y)) where
  -- `await fn(*args)`
  abbrev pub awaited : Awaitable V E F Y → Coroutine V E (Yielded F Y)
  awaited (raises e) = ends (thrown e)
  awaited (a_future f) = await_future f
  awaited (a_coroutine c) = c

  -- `allow_asyncio`, called with this value of `_shim_running`; `fn` sees the value that is set when it
  -- runs. The second result is the value afterwards.
  unfoldable pub allow_asyncio :
      Bool → (Bool → Awaitable V E F Y) → Coroutine V E (Yielded F Y) × Bool
  unfolding trampoline
  allow_asyncio shim fn =
      if shim then (awaited (fn shim), shim) else (passed (drive run_aio_future (fn true)), shim)
