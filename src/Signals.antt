-- ===== src/Signals.antt =====
-- Signal handlers in trio_asyncio/_base.py. The process's table of signal dispositions is `os`; the
-- tests of asyncio's `_check_signal` are a parameter.
pub mod Restoring
mod Tests
use trio_asyncio.Prelude.{
  ℕ, suc, ◌≡◌, Bool, true, false, Option, none, some, ◌==◌, if◌then◌else◌, update,
}

-- What a signal does: it is handled by the loop's `_handle_sig`, or as before.
pub data Disposition : Type 0 where
  handle_sig : Disposition
  theirs : ℕ → Disposition

pub data SignalError : Type 0 where
  runtime_error assertion_error key_error bad_signal : SignalError

pub data Answer (A : Type 0) : Type 0 where
  ok : A → Answer A
  raise : SignalError → Answer A

-- `_signal_handlers`, `_orig_signals`, the process's dispositions, and which handles are cancelled.
pub record Signals : Type 0 where
  pub signal_handlers : ℕ → Option ℕ
  pub orig_signals : ℕ → Option Disposition
  pub os : ℕ → Disposition
  pub cancelled : ℕ → Bool
  pub next_handle : ℕ
  pub closed : Bool

-- The number of `signal.SIGKILL`.
abbrev pub sigkill : ℕ
sigkill = 9

-- The end of `add_signal_handler`, from `h = asyncio.Handle(…)` on.
unfoldable pub install_handler : ℕ → Signals → Answer Unit × Signals
install_handler sig s = elim (s.signal_handlers sig) [
  | some _ ↦ (raise assertion_error, s)
  | none ↦ (
    ok tt,
    record s {
      orig_signals = update s.orig_signals sig (some (s.os sig));
      os = update s.os sig handle_sig;
      signal_handlers = update s.signal_handlers sig (some s.next_handle);
      next_handle = suc s.next_handle;
    },
  )
]

-- `add_signal_handler`
unfoldable pub add_signal_handler : (check : ℕ → Bool) → ℕ → Signals → Answer Unit × Signals
unfolding install_handler
add_signal_handler check sig s =
    if s.closed
    then (raise runtime_error, s)
    else if check sig
    then (if sig == sigkill then (raise runtime_error, s) else install_handler sig s)
    else (raise bad_signal, s)

-- `remove_signal_handler`
unfoldable pub remove_signal_handler : ℕ → Signals → Answer Bool × Signals
remove_signal_handler sig s = elim (s.signal_handlers sig) [
  | none ↦ (ok false, s)
  | some h ↦ elim (s.orig_signals sig) [
    | none ↦ (
      raise key_error,
      record s {
        signal_handlers = update s.signal_handlers sig none;
        cancelled = update s.cancelled h true;
      },
    )
    | some old ↦ (
      ok true,
      record s {
        signal_handlers = update s.signal_handlers sig none;
        cancelled = update s.cancelled h true;
        os = update s.os sig old;
        orig_signals = update s.orig_signals sig none;
      },
    )
  ]
]

-- `_handle_sig`: the handle that is sent to the loop.
unfoldable pub handle_signal : ℕ → Signals → Answer ℕ
handle_signal sig s = elim (s.signal_handlers sig) [ none ↦ raise key_error | some h ↦ ok h ]
