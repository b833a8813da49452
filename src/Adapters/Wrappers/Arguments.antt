-- ===== src/Adapters/Wrappers/Arguments.antt =====
-- The arguments that a wrapper was given reach the code that it runs, or the call fails.
use trio_asyncio.Prelude.{
  ℕ, ◌≡◌, Bool, true, false, not, ◌&&◌, ◌||◌, Option, none, some, List, [], ◌∷◌, ◌++◌, append-nil,
  arith, ◌⊎◌, if◌then◌else◌,
}
use trio_asyncio.Adapters.Wrappers.{
  Object, Job, call_defer, itself, proc_enter, proc_exit, Use, run_aio_coroutine, trio_as_future,
  run_aio_generator, run_trio_generator, runtime_error, attribute_error, AioWrapper, is_empty,
  loop_of, call, get, await, aenter, aexit, aiter,
}

-- How a wrapper can be used: by a call, a call through an object or a class, `await`, `async with` (its
-- beginning and end), `async for`.
pub data Way : Type 0 where
  calls : (args kwargs : List ℕ) → Way
  calls_method : (obj : Option ℕ) (cls : ℕ) (args kwargs : List ℕ) → Way
  awaits enters iterates : Way
  exits : List ℕ → Way

-- The object that the method gets first.
abbrev receiver : Option ℕ → ℕ → ℕ
receiver none cls = cls
receiver (some obj) cls = obj

abbrev pub use_wrapper : Option ℕ → AioWrapper → Way → Use
use_wrapper current w (calls args kwargs) = call current w args kwargs
use_wrapper current w (calls_method obj cls args kwargs) = get current w obj cls args kwargs
use_wrapper current w awaits = await current w
use_wrapper current w enters = aenter current w
use_wrapper current w iterates = aiter current w
use_wrapper current w (exits tb) = aexit current w tb

-- The arguments that the use itself brings, by position and by name.
abbrev own_args : Way → List ℕ
own_args (calls args kwargs) = args
own_args (calls_method obj cls args kwargs) = receiver obj cls ∷ args
own_args awaits = []
own_args enters = []
own_args iterates = []
own_args (exits tb) = tb

abbrev own_kwargs : Way → List ℕ
own_kwargs (calls args kwargs) = kwargs
own_kwargs (calls_method obj cls args kwargs) = kwargs
own_kwargs awaits = []
own_kwargs enters = []
own_kwargs iterates = []
own_kwargs (exits tb) = []

-- The object can be used in this way.
abbrev fits : Object → Way → Bool
fits proc (calls args kwargs) = true
fits proc (calls_method obj cls args kwargs) = true
fits proc awaits = true
fits proc enters = proc.has_aenter
fits proc iterates = proc.has_aiter
fits proc (exits tb) = proc.has_aexit

-- Arguments that were given with the object go together with this use.
abbrev takes_args : Object → Way → Bool
takes_args proc awaits = not proc.has_await
takes_args proc (exits tb) = true
takes_args proc way = false

abbrev carried : List ℕ → Way → List ℕ
carried args (exits tb) = []
carried args way = args

-- The code of an object: the object called or awaited, or one of its methods.
pub data Part : Type 0 where
  called awaited aenter_method aexit_method aiter_method : Part

-- The part that a use stands for; an object without `__await__` is called first.
abbrev part_of : Object → Way → Part
part_of proc (calls args kwargs) = called
part_of proc (calls_method obj cls args kwargs) = called
part_of proc awaits = if proc.has_await then awaited else called
part_of proc enters = aenter_method
part_of proc iterates = aiter_method
part_of proc (exits tb) = aexit_method

-- What a loop is asked to run: which part of which object, with which arguments.
abbrev job_of : Job → Part × Object × List ℕ × List ℕ
job_of (call_defer proc args kwargs) = (called, proc, args, kwargs)
job_of (itself proc) = (awaited, proc, [], [])
job_of (proc_enter proc) = (aenter_method, proc, [], [])
job_of (proc_exit proc args) = (aexit_method, proc, args, [])

-- The use runs this part of the object on the loop, with these arguments.
abbrev pub Runs : ℕ → Part × Object × List ℕ × List ℕ → Use → Type 0
Runs loop what (run_aio_coroutine l job) = (l ≡ loop) × (job_of job ≡ what)
Runs loop what (run_aio_generator l p) = (l ≡ some loop) × ((aiter_method, p, [], []) ≡ what)
Runs loop what (trio_as_future l job) = ⊥
Runs loop what (run_trio_generator l p) = ⊥
Runs loop what runtime_error = ⊥
Runs loop what attribute_error = ⊥

abbrev pub Fails : Use → Type 0
Fails runtime_error = Unit
Fails attribute_error = Unit
Fails (run_aio_coroutine l job) = ⊥
Fails (trio_as_future l job) = ⊥
Fails (run_aio_generator l p) = ⊥
Fails (run_trio_generator l p) = ⊥

-- A wrapper whose loop, its own or else the current one, is `loop`: a use of it fails if the object
-- lacks the method for it, or if the wrapper has arguments and the use is neither `await` on something
-- that has to be called first nor the end of an `async with`. Any other use runs on the loop the part of
-- the object that it stands for: a call, or an `await` on what has to be called first, calls it, another
-- `await` awaits it, and the others run its `__aenter__`, `__aexit__` or `__aiter__`. The arguments are
-- those of the wrapper and then those of the use, by position and by name; none is dropped. The end of
-- an `async with`, whose beginning fails on a wrapper with arguments, does not look at them.
pub use_wrapper-Runs :
    (current : Option ℕ) (w : AioWrapper) (loop : ℕ) (way : Way)
    → loop_of w.loop current ≡ some loop
    → let allowed = fits w.proc way && (is_empty w.args || takes_args w.proc way) in
      (allowed ≡ false) × Fails (use_wrapper current w way)
      ⊎ ((allowed ≡ true)
          × Runs loop
              (part_of w.proc way, w.proc, carried w.args way ++ own_args way, own_kwargs way)
              (use_wrapper current w way))
unfolding call get await aenter aexit aiter
use_wrapper-Runs current w loop (calls args kwargs) e = ground (arith, e)
use_wrapper-Runs current w loop (calls_method obj cls args kwargs) e = ground (arith, e)
use_wrapper-Runs current w loop awaits e = ground (arith, e, append-nil w.args)
use_wrapper-Runs current w loop enters e = ground (arith, e)
use_wrapper-Runs current w loop iterates e = ground (arith, e)
use_wrapper-Runs current w loop (exits tb) e = ground (arith, e)
