-- ===== src/Loop/Asking.antt =====
-- The methods of trio_asyncio/_base.py that say something about a loop, and those that only raise.
use trio_asyncio.Prelude.{ℕ, ◌≡◌, ◌⊎◌, true, false, not, ◌&&◌, ◌||◌, arith, if◌then◌else◌}
use trio_asyncio.Prelude.Int.{ℤ, pos, leb_ℤ, ◌+ℤ◌}
use trio_asyncio.Exec.{Result, ok, err, runtime_error}
use trio_asyncio.Trio.{Trio}
use trio_asyncio.Heapq.{Heapq}
use trio_asyncio.Loop.{Loop, later, queue_new, timer, user}
use trio_asyncio.Loop.Lifecycle.{is_running}

-- What `__repr__` shows of the state.
pub data Shown : Type 0 where
  shown_closed shown_no shown_yes : Shown

-- The methods that a concrete loop, or `open_loop`, has to take the place of.
pub data Unsupported : Type 0 where
  add_callback add_callback_signalsafe handle_signal : Unsupported
  run_forever run_until_complete base_stop : Unsupported
  aenter aexit enter exit : Unsupported

unfoldable pub call_unsupported : Unsupported → Result (Unit {0})
call_unsupported m = err runtime_error

module _ (t : Trio) (q : Heapq) where
  -- `time`, where `now` is the clock of the loop's task.
  unfoldable pub time : (now : ℤ) → Loop t q → Result ℤ
  time now s = if not s.entered then err runtime_error else ok now

  -- `__repr__`
  unfoldable pub shown_state : Loop t q → Shown
  shown_state s =
      if s.closed then shown_closed else if t.is_set s.stopped then shown_no else shown_yes

  -- `call_later` with a delay that is not negative asks `time` first: it raises what that raises, and
  -- else queues a timer for the delay after the time.
  time-later :
      (now delay : ℤ) (c : ℕ) (s : Loop t q)
      → leb_ℤ (pos 0) delay ≡ true
      → (time now s ≡ err runtime_error) × (later t q now delay c s ≡ (err runtime_error, s))
        ⊎ (time now s ≡ ok now)
          × (later t q now delay c s ≡ queue_new t q (timer (delay +ℤ now)) (user c) s)
  unfolding time later
  time-later now delay c s e = ground arith

  -- A loop shows that it runs just if it is running and was not closed meanwhile.
  shown_state-is_running :
      (s : Loop t q)
      → (shown_state s ≡ shown_yes) × (is_running t q s && not s.closed ≡ true)
        ⊎ (shown_state s ≡ shown_no) × (is_running t q s || s.closed ≡ false)
        ⊎ (shown_state s ≡ shown_closed) × (s.closed ≡ true)
  unfolding shown_state is_running
  shown_state-is_running s = ground arith
