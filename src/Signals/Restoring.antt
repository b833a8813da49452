-- ===== src/Signals/Restoring.antt =====
-- Adding a signal handler and removing it.
use trio_asyncio.Prelude.{ℕ, ◌≡◌, ◌≢◌, Bool, true, false, Option, none, some, arith}
use trio_asyncio.Signals.{
  Disposition, handle_sig, ok, Signals, sigkill, add_signal_handler, remove_signal_handler,
  handle_signal,
}

-- A signal has an old disposition just if it has a handler, and then it goes to the loop.
abbrev pub consistent : Option ℕ → Option Disposition → Disposition → Bool
consistent none none d = true
consistent (some h) (some old) handle_sig = true
consistent _ _ _ = false

abbrev pub Consistent : Signals → Type 0
Consistent s = (sig : ℕ) → consistent (s.signal_handlers sig) (s.orig_signals sig) (s.os sig) ≡ true

-- `add_signal_handler` keeps handlers, old dispositions and the process's dispositions in step.
add_signal_handler-Consistent :
    (check : ℕ → Bool) (sig : ℕ) (s : Signals)
    → Consistent s
    → Consistent (add_signal_handler check sig s).1
unfolding add_signal_handler
add_signal_handler-Consistent check sig s c other = ground (arith, c sig, c other)

-- So does `remove_signal_handler`, and it raises nothing.
remove_signal_handler-Consistent :
    (sig : ℕ) (s : Signals)
    → Consistent s
    → Consistent (remove_signal_handler sig s).1
      × ((remove_signal_handler sig s).0
          ≡ ok (elim (s.signal_handlers sig) [ none ↦ false | some _ ↦ true ]))
unfolding remove_signal_handler
remove_signal_handler-Consistent sig s c =
    ((λ other. ground (arith, c sig, c other)), ground (arith, c sig))

-- `add_signal_handler` and `remove_signal_handler` keep handlers, old dispositions and the process's
-- dispositions in step, whether they raise or not, and the latter raises nothing.
signal_handlers-Consistent :
    (check : ℕ → Bool) (sig : ℕ) (s : Signals)
    → Consistent s
    → Consistent (add_signal_handler check sig s).1
      × Consistent (remove_signal_handler sig s).1
      × ((remove_signal_handler sig s).0
          ≡ ok (elim (s.signal_handlers sig) [ none ↦ false | some _ ↦ true ]))
signal_handlers-Consistent check sig s c =
    let (kept, removed) = remove_signal_handler-Consistent sig s c in
    (add_signal_handler-Consistent check sig s c, kept, removed)

-- A handler that is added to a signal without one gets the signal, and removing it gives each signal
-- back the handler and the disposition that it had, and cancels the new handle.
pub add_signal_handler-remove_signal_handler :
    (check : ℕ → Bool) (sig : ℕ) (s : Signals) (other : ℕ)
    → Consistent s
    → s.closed ≡ false
    → check sig ≡ true
    → sig ≢ sigkill
    → s.signal_handlers sig ≡ none
    → let (r, s₁) = add_signal_handler check sig s in
      let (r', s₂) = remove_signal_handler sig s₁ in
      (r ≡ ok tt)
      × (handle_signal sig s₁ ≡ ok s.next_handle)
      × (s₁.os sig ≡ handle_sig)
      × (r' ≡ ok true)
      × (s₂.signal_handlers other ≡ s.signal_handlers other)
      × (s₂.orig_signals other ≡ s.orig_signals other)
      × (s₂.os other ≡ s.os other)
      × (s₂.cancelled s.next_handle ≡ true)
unfolding add_signal_handler remove_signal_handler handle_signal
add_signal_handler-remove_signal_handler check sig s other c o k n e =
    ground (arith, c sig, c other)
