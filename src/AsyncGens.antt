-- ===== src/AsyncGens.antt =====
-- `AsyncGeneratorDispatcher` in trio_asyncio/_base.py: the interpreter's hooks for async generators,
-- shared by the running loops. Loops and other hooks are numbers.
pub mod Sharing
mod Tests
use trio_asyncio.Prelude.{
  zero, ℕ, suc, ◌+◌, ◌-◌, ◌≡◌, Bool, true, false, Option, none, some, List, [], ◌∷◌, ◌++◌, ◌==◌,
  if◌then◌else◌, update,
}
use trio_asyncio.Exec.{Result, ok, err, Exec, assertion_error}

-- A hook: a method of a dispatcher, or another function.
pub data Hook : Type 0 where
  ours : (dispatcher : ℕ) → Hook
  other : ℕ → Hook

-- What `sys.get_asyncgen_hooks()` returns.
pub record Hooks : Type 0 where
  pub firstiter : Option Hook
  pub finalizer : Option Hook

-- An `AsyncGeneratorDispatcher`. `refcnt` is at least 0: that it is lower is an `AssertionError`.
pub record Dispatcher : Type 0 where
  pub prev_hooks : Hooks
  pub refcnt : ℕ

pub record Generators : Type 0 where
  pub hooks : Hooks
  pub dispatchers : ℕ → Dispatcher
  pub next : ℕ

-- A new dispatcher that forwards to the hooks before it.
abbrev pub new_dispatcher : Exec Generators ℕ
new_dispatcher s = (
  ok s.next,
  record s {
    hooks = record { firstiter = some (ours s.next); finalizer = some (ours s.next) };
    dispatchers = update s.dispatchers s.next (record { prev_hooks = s.hooks; refcnt = 1 });
    next = suc s.next;
  },
)

abbrev pub set_refcnt : ℕ → ℕ → Generators → Generators
set_refcnt d n s = record s {
  dispatchers = update s.dispatchers d (record (s.dispatchers d) { refcnt = n });
}

-- `install` on two hooks: neither is a dispatcher's, or both are the same dispatcher's.
abbrev pub install_over : Hook → Hook → Exec Generators ℕ
install_over (other a) (other b) s = new_dispatcher s
install_over (ours d) (ours e) s =
    if d == e
    then (ok d, set_refcnt d (suc (s.dispatchers d).refcnt) s)
    else (err assertion_error, s)
install_over (ours d) (other b) s = (err assertion_error, s)
install_over (other a) (ours e) s = (err assertion_error, s)

-- `AsyncGeneratorDispatcher.install`
unfoldable pub install : Exec Generators ℕ
install s = elim s.hooks.firstiter [
  | none ↦ (err assertion_error, s)
  | some f ↦ elim s.hooks.finalizer [
    | none ↦ (err assertion_error, s)
    | some g ↦ install_over f g s
  ]
]

-- `uninstall` on a count of `n`: the hooks come back where the count is 0 or less.
abbrev pub uninstall_from : ℕ → ℕ → Exec Generators (Unit {0})
uninstall_from d zero s = (err assertion_error, record s { hooks = (s.dispatchers d).prev_hooks })
uninstall_from d (suc zero) s =
    (ok tt, record (set_refcnt d 0 s) { hooks = (s.dispatchers d).prev_hooks })
uninstall_from d (suc (suc n)) s = (ok tt, set_refcnt d (suc n) s)

-- `AsyncGeneratorDispatcher.uninstall`
unfoldable pub uninstall : ℕ → Exec Generators (Unit {0})
uninstall d s = uninstall_from d (s.dispatchers d).refcnt s

-- Where a generator's event goes: to a loop's hook, or to the hook that was there before.
pub data Route : Type 0 where
  to_loop : ℕ → Route
  to_hook : Option Hook → Route

-- `firstiter`, with the loop that the generator is marked with in its frame afterwards.
unfoldable pub firstiter_hook :
    Dispatcher → (asyncio : Bool) → (running : ℕ) → Option ℕ → Route × Option ℕ
firstiter_hook d asyncio running mark =
    if asyncio then (to_loop running, some running) else (to_hook d.prev_hooks.firstiter, mark)

-- `finalizer`
unfoldable pub finalizer_hook : Dispatcher → Option ℕ → Route
finalizer_hook d mark = elim mark [
  | some loop ↦ to_loop loop
  | none ↦ to_hook d.prev_hooks.finalizer
]
