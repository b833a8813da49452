-- ===== src/Entrances/Tests.antt =====
-- Work that enters a loop, at concrete values.
use trio_asyncio.Prelude.{ℕ, ◌≡◌, refl, true, false, Option, none, some, [], ◌∷◌}
use trio_asyncio.Exec.{ok, err, would_block}
use trio_asyncio.Trio.Buffers.{buffers}
use trio_asyncio.Heapq.Selection.{selection}
use trio_asyncio.Loop.{async_task}
use trio_asyncio.Loop.Lifecycle.{new_loop}
use trio_asyncio.Handles.{
  pending, finished, cancelled, wrapped_cancel, run_begin, returned, run_finish, init,
}
use trio_asyncio.Entrances.{Entrance, trio_executor, trio_as_future, run_aio_coroutine}
use trio_asyncio.Entrances.Resolving.{trio_as_future-run_finish, run_aio_coroutine-close_coroutine}

abbrev fresh : Option ℕ → Entrance buffers selection
fresh queue_len = record {
  loop = new_loop buffers selection queue_len;
  tasks = λ h. init none;
  soon = [];
  coroutine_closed = λ c. false;
  default_executor = trio_executor none none;
}

trio_as_future-run_finish_example :
    let (r, s₁) = trio_as_future buffers selection 5 (fresh (some 1)) in
    let task = s₁.tasks 0 in
    let ended = (run_finish (λ m. m) (returned 9) (run_begin task).1).1 in
    let unstarted = run_begin (wrapped_cancel (some 4) pending task).1 in
    (r ≡ ok 0)
    × (s₁.loop.queue.items ≡ 0 ∷ [])
    × ((s₁.loop.handles 0).kind ≡ async_task)
    × (task.fut ≡ some pending)
    × ((run_begin task).0 ≡ true)
    × (ended.fut ≡ some (finished 9))
    × (unstarted.0 ≡ false)
    × (unstarted.1.fut ≡ some (cancelled (some 4)))
unfolding new_loop
trio_as_future-run_finish_example =
    trio_as_future-run_finish (λ m. m) 5 9 (some 4) (fresh (some 1)) refl refl

run_aio_coroutine-close_coroutine_example :
    let (r, s') = run_aio_coroutine buffers selection 3 [] (fresh (some 0)) in
    (s'.coroutine_closed 3 ≡ true) × (r ≡ err would_block)
unfolding new_loop
run_aio_coroutine-close_coroutine_example =
    run_aio_coroutine-close_coroutine 3 [] (fresh (some 0)) refl
