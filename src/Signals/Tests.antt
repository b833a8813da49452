-- ===== src/Signals/Tests.antt =====
-- Signals at concrete values.
use trio_asyncio.Prelude.{ℕ, ◌≡◌, refl, Bool, true, false, none, arith}
use trio_asyncio.Signals.{
  handle_sig, theirs, ok, Signals, add_signal_handler, remove_signal_handler, handle_signal,
}
use trio_asyncio.Signals.Restoring.{add_signal_handler-remove_signal_handler}

abbrev quiet : Signals
quiet = record {
  signal_handlers = λ n. none;
  orig_signals = λ n. none;
  os = λ n. theirs n;
  cancelled = λ h. false;
  next_handle = 0;
  closed = false;
}

abbrev any : ℕ → Bool
any n = true

add_signal_handler-remove_signal_handler_example :
    let (r, s₁) = add_signal_handler any 2 quiet in
    let (r', s₂) = remove_signal_handler 2 s₁ in
    (r ≡ ok tt)
    × (handle_signal 2 s₁ ≡ ok quiet.next_handle)
    × (s₁.os 2 ≡ handle_sig)
    × (r' ≡ ok true)
    × (s₂.signal_handlers 3 ≡ quiet.signal_handlers 3)
    × (s₂.orig_signals 3 ≡ quiet.orig_signals 3)
    × (s₂.os 3 ≡ quiet.os 3)
    × (s₂.cancelled quiet.next_handle ≡ true)
add_signal_handler-remove_signal_handler_example =
    add_signal_handler-remove_signal_handler any 2 quiet 3 (λ n. refl) refl refl
      (λ e. absurd (omega (arith, e))) refl
