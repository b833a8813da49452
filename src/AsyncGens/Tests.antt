-- ===== src/AsyncGens/Tests.antt =====
-- Loops that come and go, at concrete values.
use trio_asyncio.Prelude.{refl, none, List, [], ◌∷◌}
use trio_asyncio.AsyncGens.{other, Dispatcher, Generators}
use trio_asyncio.AsyncGens.Sharing.{Step, enter, leave, run, both, HeldAfter, run-Held}

abbrev plain_hooks : Generators
plain_hooks = record {
  hooks = both (other 1) (other 2);
  dispatchers =
      λ d. record { prev_hooks = record { firstiter = none; finalizer = none }; refcnt = 0 };
  next = 0;
}

abbrev steps : List Step
steps = enter ∷ enter ∷ leave 1 ∷ enter ∷ []

run-Held_example : HeldAfter 1 2 (run steps ([], plain_hooks))
run-Held_example = run-Held 1 2 steps plain_hooks refl

abbrev forwarding : Dispatcher
forwarding = record { prev_hooks = both (other 1) (other 2); refcnt = 1 }
