-- ===== src/Futures/Generators/Tests.antt =====
-- Adapted generators at concrete values.
use trio_asyncio.Prelude.{ℕ, ◌≡◌, refl, none, some, List, [], ◌∷◌, ◌++◌}
use trio_asyncio.Futures.Generators.{
  stop_iteration, cancelled, abort, read_ends, exhausted, raised_trio_cancelled, start,
  run_aio_generator, run_trio_generator,
}
use trio_asyncio.Futures.Generators.Items.{
  items, read_items, seen, run_aio_generator-run_trio_generator, run_aio_generator_stuck,
}

run_aio_generator-run_trio_generator_example :
    let vs : List ℕ = 4 ∷ 5 ∷ [] in
    let g = run_aio_generator (items vs ++ read_ends stop_iteration ∷ []) start in
    let c = run_aio_generator (items vs ++ abort ∷ []) start in
    (seen g ≡ run_trio_generator (read_items vs ++ stop_iteration ∷ []))
    × (run_trio_generator (read_items vs ++ stop_iteration ∷ []) ≡ (vs, some exhausted))
    × (seen c ≡ (vs, some raised_trio_cancelled))
run_aio_generator-run_trio_generator_example =
    run_aio_generator-run_trio_generator (4 ∷ 5 ∷ []) stop_iteration exhausted [] [] refl

run_aio_generator_stuck_example :
    let g = run_aio_generator (items (4 ∷ []) ++ read_ends cancelled ∷ abort ∷ abort ∷ []) start in
    (g.ending ≡ none) × (g.yielded ≡ 4 ∷ [])
run_aio_generator_stuck_example = run_aio_generator_stuck (4 ∷ []) (abort ∷ abort ∷ [])
