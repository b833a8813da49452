-- ===== src/Adapters/Wrappers.antt =====
-- `Asyncio_Trio_Wrapper` and `Trio_Asyncio_Wrapper` in trio_asyncio/_adapter.py: which call of which
-- loop each use of a wrapper makes. Objects and arguments are numbers.
pub mod Arguments
use trio_asyncio.Prelude.{
  ℕ, Bool, true, false, not, ◌&&◌, ◌||◌, Option, none, some, List, [], ◌∷◌, if◌then◌else◌, ◌≡◌,
}

-- What is wrapped, with the attributes that it has.
pub record Object : Type 0 where
  pub name : ℕ
  pub has_await : Bool
  pub has_aenter : Bool
  pub has_aexit : Bool
  pub has_aiter : Bool

-- The code that a loop is asked to run: `_call_defer(proc, *args, **kwargs)` or `partial(proc, **kwargs)`
-- with `args`, the object as a coroutine, its `__aenter__`, its `__aexit__` with arguments.
pub data Job : Type 0 where
  call_defer : Object → (args kwargs : List ℕ) → Job
  itself : Object → Job
  proc_enter : Object → Job
  proc_exit : Object → List ℕ → Job

-- What a use of a wrapper does.
pub data Use : Type 0 where
  run_aio_coroutine trio_as_future : (loop : ℕ) → Job → Use
  run_aio_generator run_trio_generator : (loop : Option ℕ) → Object → Use
  runtime_error attribute_error : Use

abbrev pub is_empty : List ℕ → Bool
is_empty [] = true
is_empty (x ∷ xs) = false

-- `self.loop.f(job)`, where the loop may be `None`.
abbrev pub on : Option ℕ → (ℕ → Job → Use) → Job → Use
on none f job = attribute_error
on (some loop) f job = f loop job

-- The property `loop` of both classes; the second argument is `current_loop.get()`.
abbrev pub loop_of : Option ℕ → Option ℕ → Option ℕ
loop_of none current = current
loop_of (some loop) current = some loop

-- `Asyncio_Trio_Wrapper`
pub record AioWrapper : Type 0 where
  pub proc : Object
  pub args : List ℕ
  pub loop : Option ℕ

-- `aio_as_trio`
abbrev pub aio_as_trio : Object → Option ℕ → AioWrapper
aio_as_trio proc loop = record { proc = proc; args = []; loop = loop }

module _ (current : Option ℕ) (w : AioWrapper) where
  abbrev own_loop : Option ℕ
  own_loop = loop_of w.loop current

  -- `__call__`
  unfoldable pub call : (args kwargs : List ℕ) → Use
  call args kwargs =
      if not (is_empty w.args)
      then runtime_error
      else on own_loop run_aio_coroutine (call_defer w.proc args kwargs)

  -- `__get__`, and the call of what it returns; `none` is `None`.
  unfoldable pub get : (obj : Option ℕ) (cls : ℕ) (args kwargs : List ℕ) → Use
  unfolding call
  get none cls args kwargs = call (cls ∷ args) kwargs
  get (some obj) cls args kwargs = call (obj ∷ args) kwargs

  -- `__await__`
  unfoldable pub await : Use
  await =
      if not w.proc.has_await
      then on own_loop run_aio_coroutine (call_defer w.proc w.args [])
      else if not (is_empty w.args)
      then runtime_error
      else on own_loop run_aio_coroutine (itself w.proc)

  -- `__aenter__`
  unfoldable pub aenter : Use
  aenter =
      if not w.proc.has_aenter || not (is_empty w.args)
      then runtime_error
      else on own_loop run_aio_coroutine (proc_enter w.proc)

  -- `__aexit__`
  unfoldable pub aexit : List ℕ → Use
  aexit tb =
      if w.proc.has_aexit
      then on own_loop run_aio_coroutine (proc_exit w.proc tb)
      else attribute_error

  -- `__aiter__`
  unfoldable pub aiter : Use
  aiter =
      if not w.proc.has_aiter || not (is_empty w.args)
      then runtime_error
      else run_aio_generator own_loop w.proc

-- `Trio_Asyncio_Wrapper`
pub record TrioWrapper : Type 0 where
  pub trio_proc : Object
  pub trio_loop : Option ℕ

-- `trio_as_aio`
abbrev pub trio_as_aio : Object → Option ℕ → TrioWrapper
trio_as_aio proc loop = record { trio_proc = proc; trio_loop = loop }

module _ (current : Option ℕ) (w : TrioWrapper) where
  abbrev trio_own_loop : Option ℕ
  trio_own_loop = loop_of w.trio_loop current

  -- `__call__`
  unfoldable pub trio_call : (args kwargs : List ℕ) → Use
  trio_call args kwargs = on trio_own_loop trio_as_future (call_defer w.trio_proc args kwargs)

  -- `__get__`, and the call of what it returns.
  unfoldable pub trio_get : (obj : Option ℕ) (cls : ℕ) (args kwargs : List ℕ) → Use
  unfolding trio_call
  trio_get none cls args kwargs = trio_call (cls ∷ args) kwargs
  trio_get (some obj) cls args kwargs = trio_call (obj ∷ args) kwargs

  -- `__aenter__`
  unfoldable pub trio_aenter : Use
  trio_aenter =
      if not w.trio_proc.has_aenter
      then runtime_error
      else on trio_own_loop trio_as_future (proc_enter w.trio_proc)

  -- `__aexit__`
  unfoldable pub trio_aexit : List ℕ → Use
  trio_aexit tb =
      if w.trio_proc.has_aexit
      then on trio_own_loop trio_as_future (proc_exit w.trio_proc tb)
      else attribute_error

  -- `__aiter__`
  unfoldable pub trio_aiter : Use
  trio_aiter =
      if not w.trio_proc.has_aiter
      then runtime_error
      else run_trio_generator trio_own_loop w.trio_proc
