-- ===== src/TaskRegistry.antt =====
-- core/mm1-node/src/runtime/task_registry.rs: the tasks of one container and the permits to spawn
-- more. All the operations hold the registry's lock, so each is one step on the whole state. The field
-- `changed` is the stored permit of the `Notify`, `shutdown` the cancellation token. An abort handle is
-- the task's id; what the executor makes of a spawn or an abort is an argument.
pub mod Permits
pub mod Closing
use mm.Shared.{
  ℕ, zero, suc, ◌+◌, ◌-◌, ◌%◌, ◌^◌, List, [], ◌∷◌, Option, none, some, Bool, true, false, ◌&&◌,
  ◌==◌, if◌then◌else◌, map, length, ℕ_discrete,
}
use mm.Shared.Map.{get, insert, remove}

abbrev pub Address : Type 0
Address = ℕ

abbrev pub TaskId : Type 0
TaskId = ℕ

pub record TrackedTask : Type 0 where
  pub address : Address
  pub abort_handle : TaskId

pub record Registry : Type 0 where
  pub closing : Bool
  pub shutdown : Bool
  pub changed : Bool
  pub next_task_id : TaskId
  pub pending_spawns : ℕ
  pub tasks : List (TaskId × TrackedTask)

unfoldable pub new : Registry
new = record {
  closing = false;
  shutdown = false;
  changed = false;
  next_task_id = 0;
  pending_spawns = 0;
  tasks = [];
}

abbrev pub wrapping_succ : ℕ → ℕ
wrapping_succ n = (n + 1) % 2 ^ 64

-- `Some(permit)` or `None`.
unfoldable pub reserve_spawn : Registry → Registry × Bool
reserve_spawn r =
    if r.closing then (r, false) else (record r { pending_spawns = r.pending_spawns + 1 }, true)

unfoldable pub close : Registry → Registry
close r = record r { closing = true; shutdown = true; changed = true }

unfoldable pub addresses : Registry → List Address
addresses r = map (λ (e : TaskId × TrackedTask). e.1.address) r.tasks

unfoldable pub counts : Registry → ℕ × ℕ
counts r = (r.pending_spawns, length r.tasks)

-- The handles that `abort_all` aborts.
unfoldable pub abort_all : Registry → List TaskId
abort_all r = map (λ (e : TaskId × TrackedTask). e.1.abort_handle) r.tasks

unfoldable pub is_empty : Registry → Bool
is_empty r = elim r.tasks [ [] ↦ r.pending_spawns == 0 | x ∷ rest ↦ false ]

pub data Spawned : Type 0 where
  spawned rejected panicked : Spawned

-- `SpawnPermit::spawn_on`; `runs` tells whether the executor's task is there to receive the start
-- signal. A subtraction from no pending spawn and a task under the id panic.
unfoldable pub spawn_on : Registry → Address → Bool → Registry × Spawned
spawn_on r address runs =
    if r.pending_spawns == 0
    then (r, panicked)
    else if r.closing
    then (record r { pending_spawns = r.pending_spawns - 1; changed = true }, rejected)
    else elim (get ℕ_discrete r.next_task_id r.tasks) [
      | some old ↦ (r, panicked)
      | none ↦ (
        record r {
          next_task_id = wrapping_succ r.next_task_id;
          tasks =
              insert ℕ_discrete r.next_task_id
                (record { address = address; abort_handle = r.next_task_id }) r.tasks;
          pending_spawns = r.pending_spawns - 1;
          changed = true;
        },
        if runs then spawned else rejected,
      )
    ]

-- `Drop for SpawnPermit`, of a permit that is still pending.
unfoldable pub drop_permit : Registry → Registry
drop_permit r = record r { pending_spawns = r.pending_spawns - 1; changed = true }

-- `Drop for CompletionGuard`, of the task's future.
unfoldable pub complete : Registry → TaskId → Registry
complete r id = elim (get ℕ_discrete id r.tasks) [
  | none ↦ r
  | some t ↦ record r { tasks = remove ℕ_discrete id r.tasks; changed = true }
]
