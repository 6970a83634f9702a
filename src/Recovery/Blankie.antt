-- ===== src/Recovery/Blankie.antt =====
-- kernel/arch/x86/protocols/blankie.c: where each clerk starts, and the reset of a clerk.
use taavi_os.Common.{ℕ, Option, none, some, List, [], ◌∷◌, ◌==◌, if◌then◌else◌}
use taavi_os.Config.{status_ok, status_error}
use taavi_os.Task.{Task, TaskState, task_get, put_task}
use taavi_os.Ledger.Types.{World, Allocator}

-- `blankie_registry_t`
pub record Blankie : Type 0 where
  pub pid : ℕ
  pub entry_point : ℕ
  pub stack_top : ℕ

-- sizeof(blankie_registry_t)
abbrev pub blankie_size : ℕ
blankie_size = 12

-- `b_registry`; `none` is NULL.
abbrev pub Registry : Type 0
Registry = List (Option Blankie)

-- The loop of `blankie_register`: the first entry that is NULL, with the new one in it.
unfoldable pub register_slot : Blankie → Registry → Option Registry
register_slot b [] = none
register_slot b (none ∷ t) = some (some b ∷ t)
register_slot b (some c ∷ t) = elim (register_slot b t) [
  | none ↦ none
  | some t' ↦ some (some c ∷ t')
]

-- The loop of `blankie_activate`: the first entry of this pid.
unfoldable pub find_blankie : ℕ → Registry → Option Blankie
find_blankie pid [] = none
find_blankie pid (none ∷ t) = find_blankie pid t
find_blankie pid (some b ∷ t) =
    let rest = find_blankie pid t in if b.pid == pid then some b else rest

module _ (al : Allocator) where
  open al use {Heap, kmalloc}

  -- The body at a free entry, where `reg'` is the registry with the new one in it.
  unfoldable pub register_with : Option ℕ → Registry → Registry → Heap → ℕ × Registry × Heap
  register_with none reg' reg h = (status_error, reg, h)
  register_with (some a) reg' reg h = (status_ok, reg', h)

  unfoldable pub register_found : Option Registry → Registry → Heap → ℕ × Registry × Heap
  unfolding register_with
  register_found none reg h = (status_error, reg, h)
  register_found (some reg') reg h =
      let (a, h') = kmalloc blankie_size h in register_with a reg' reg h'

  unfoldable pub blankie_register : ℕ → ℕ → ℕ → Registry → Heap → ℕ × Registry × Heap
  unfolding register_slot register_found
  blankie_register pid entry_point stack_top reg h =
      register_found
        (register_slot (record { pid = pid; entry_point = entry_point; stack_top = stack_top }) reg)
        reg h

-- The task as `blankie_activate` leaves it before it yields.
abbrev pub rested : Blankie → Task → Task
rested b t = record t {
  context = record t.context { eip = b.entry_point; esp = b.stack_top; ebp = b.stack_top };
  started = 0;
  state = TaskState.sleeping;
}

-- `blankie_activate` up to its `scheduler_yield`, which does not return to a task that has not started.
unfoldable pub activate_with :
    {H : Type 0} → ℕ → Option Task → Option Blankie → World H → ℕ × World H
activate_with pid none o w = (status_error, w)
activate_with pid (some t) none w = (status_error, w)
activate_with pid (some t) (some b) w =
    (status_ok, record w { tasks = put_task pid (some (rested b t)) w.tasks })

unfoldable pub blankie_activate : {H : Type 0} → Registry → ℕ → World H → ℕ × World H
unfolding task_get find_blankie activate_with
blankie_activate reg pid w = activate_with pid (task_get pid w.tasks) (find_blankie pid reg) w
