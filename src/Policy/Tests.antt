-- ===== src/Policy/Tests.antt =====
-- A thread at concrete values.
use trio_asyncio.Prelude.{ℕ, suc, ◌≡◌, refl, false, Option, none, some}
use trio_asyncio.Policy.{Host, Thread, ok, get_event_loop, new_loop_get, new_loop_set}
use trio_asyncio.Policy.Switching.{new_loop_set-new_loop_get}

-- The thread's loop, and the number of loops made.
abbrev plain_host : Host
plain_host = record {
  World = Option ℕ × ℕ;
  policy_new = λ p w. (w.1, (w.0, suc w.1));
  policy_get = λ p w. (w.0, w);
  policy_set = λ p l w. (l, w.1);
  sync_loop = λ w. (w.1, (w.0, suc w.1));
  thread_loop = λ w. w.0;
  set_thread_loop = λ l w. (l, w.1);
  running_loop = λ w. none;
  get-set = λ l w. refl;
  running-set = λ l w. refl;
}

abbrev in_task : Thread plain_host
in_task = record {
  task = some (record { is_sync_loop = false; context = 1 });
  context = 1;
  loops = λ c. none;
  faked = none;
  world = (none, 5);
}

abbrev outside : Thread plain_host
outside = record in_task { task = none }

new_loop_set-new_loop_get_example :
    let s' = new_loop_set plain_host (some 3) in_task in
    (new_loop_get plain_host s' ≡ (ok (some 3), s'))
    × (get_event_loop plain_host s' ≡ (ok (some 3), s'))
new_loop_set-new_loop_get_example = new_loop_set-new_loop_get plain_host 3 in_task refl
