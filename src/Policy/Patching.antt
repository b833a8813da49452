-- ===== src/Policy/Patching.antt =====
-- What importing trio_asyncio/_loop.py does to asyncio: the functions that it puts in the place of
-- asyncio's, in the modules asyncio, asyncio.events and asyncio.tasks, and those that it keeps.
use Prim.Native.String.{String}
use text.Mathlib.Text.{◌==◌}
use trio_asyncio.Prelude.{◌≡◌, refl, ◌⊎◌, true, false, arith, if◌then◌else◌, ℕ}

-- A function: one that was there before the import, or one of _loop.py's.
pub data Function : Type 0 where
  original : ℕ → Function
  new_policy_get new_policy_set new_run_get new_run_get_or_throw : Function
  new_loop_get new_loop_set new_loop_new new_current_task : Function

abbrev pub Names : Type 0
Names = String → Function

abbrev pub assign : String → Function → Names → Names
assign name f names m = if m == name then f else names m

pub record Asyncio : Type 0 where
  pub asyncio : Names
  pub events : Names
  pub tasks : Names

-- The `_orig_` variables.
pub record Originals : Type 0 where
  pub orig_policy_get : Function
  pub orig_policy_set : Function
  pub orig_run_get : Function
  pub orig_loop_get : Function
  pub orig_loop_set : Function
  pub orig_loop_new : Function
  pub orig_current_task : Function

-- `_aio_event.name = f` and `asyncio.name = f`
abbrev pub assign_both : String → Function → Asyncio → Asyncio
assign_both name f s = record s {
  asyncio = assign name f s.asyncio;
  events = assign name f s.events;
}

abbrev pub patch_policy : Asyncio → Asyncio
patch_policy s =
    assign_both "set_event_loop_policy" new_policy_set
      (assign_both "get_event_loop_policy" new_policy_get s)

abbrev pub patch_running : Asyncio → Asyncio
patch_running s =
    assign_both "get_running_loop" new_run_get_or_throw
      (assign_both "_get_running_loop" new_run_get s)

abbrev pub patch_loops : Asyncio → Asyncio
patch_loops s =
    assign_both "new_event_loop" new_loop_new
      (assign_both "set_event_loop" new_loop_set (assign_both "get_event_loop" new_loop_get s))

abbrev pub patch_current_task : Asyncio → Asyncio
patch_current_task s = record s {
  asyncio = assign "current_task" new_current_task s.asyncio;
  tasks = assign "current_task" new_current_task s.tasks;
}

-- The statements of the module, in their order: what is kept is read before it is replaced.
unfoldable pub import_loop : Asyncio → Originals × Asyncio
import_loop s =
    let s₁ = patch_policy s in
    let s₂ = patch_running s₁ in
    let s₃ = patch_loops s₂ in
    let s₄ = patch_current_task s₃ in
    (
      record {
        orig_policy_get = s.events "get_event_loop_policy";
        orig_policy_set = s.events "set_event_loop_policy";
        orig_run_get = s₁.events "_get_running_loop";
        orig_loop_get = s₂.events "get_event_loop";
        orig_loop_set = s₂.events "set_event_loop";
        orig_loop_new = s₂.events "new_event_loop";
        orig_current_task = s₃.asyncio "current_task";
      },
      s₄,
    )

-- After the import, asyncio and asyncio.events have the same function under each name under which they
-- had the same before; `current_task` is replaced in asyncio and asyncio.tasks instead.
import_loop-agree :
    (s : Asyncio) (name : String)
    → s.asyncio name ≡ s.events name
    → let (kept, s') = import_loop s in
      ((name == "current_task") ≡ true)
        × (s'.asyncio name ≡ new_current_task)
        × (s'.tasks name ≡ new_current_task)
      ⊎ ((name == "current_task") ≡ false)
        × (s'.asyncio name ≡ s'.events name)
        × (s'.tasks name ≡ s.tasks name)
unfolding import_loop
import_loop-agree s name same = ground arith

-- What the module keeps of asyncio's functions is what stood there before the import.
import_loop_originals :
    (s : Asyncio)
    → let (kept, _) = import_loop s in
      (kept.orig_policy_get ≡ s.events "get_event_loop_policy")
      × (kept.orig_policy_set ≡ s.events "set_event_loop_policy")
      × (kept.orig_run_get ≡ s.events "_get_running_loop")
      × (kept.orig_loop_get ≡ s.events "get_event_loop")
      × (kept.orig_loop_set ≡ s.events "set_event_loop")
      × (kept.orig_loop_new ≡ s.events "new_event_loop")
      × (kept.orig_current_task ≡ s.asyncio "current_task")
unfolding import_loop
import_loop_originals s = (refl, refl, refl, refl, refl, refl, refl)
