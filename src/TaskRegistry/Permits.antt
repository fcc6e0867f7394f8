-- ===== src/TaskRegistry/Permits.antt =====
-- The registry among the permits and the futures that its users hold.
use mm.Shared.{ℕ, suc, ◌≡◌, refl, ◌≢◌, Bool, true, ℕ_discrete, arith}
use mm.Shared.Map.{Distinct, Distinct-insert, Distinct-remove}
use mm.TaskRegistry.{
  Address, TaskId, Registry, new, reserve_spawn, close, panicked, spawn_on, drop_permit, complete,
}

-- `permits` are the `SpawnPermit`s in their holders' hands.
pub record System : Type 0 where
  pub registry : Registry
  pub permits : ℕ

-- What a user of the registry can do: a permit is reserved, used by `spawn_on` or dropped unused once;
-- a task completes at any time, and anybody may close the registry.
pub data Step : System → System → Type 0 where
  reserve :
      (s : System)
      → (reserve_spawn s.registry).1 ≡ true
      → Step s (record { registry = (reserve_spawn s.registry).0; permits = suc s.permits })
  spawn :
      (s : System) (p : ℕ) (address : Address) (runs : Bool)
      → s.permits ≡ suc p
      → (spawn_on s.registry address runs).1 ≢ panicked
      → Step s (record { registry = (spawn_on s.registry address runs).0; permits = p })
  give_back :
      (s : System) (p : ℕ)
      → s.permits ≡ suc p
      → Step s (record { registry = drop_permit s.registry; permits = p })
  finish : (s : System) (id : TaskId) → Step s (record s { registry = complete s.registry id })
  shut : (s : System) → Step s (record s { registry = close s.registry })

pub data Reach (s : System) : System → Type 0 where
  here : Reach s s
  next : {t u : System} → Reach s t → Step t u → Reach s u

abbrev pub start : System
start = record { registry = new; permits = 0 }

-- The pending spawns are the permits that are out, no task id is tracked twice, and the token is
-- cancelled exactly when the registry is closing.
pub record IsValid (s : System) : Type 0 where
  pub counted : s.registry.pending_spawns ≡ s.permits
  pub distinct : Distinct s.registry.tasks
  pub cancelled : s.registry.shutdown ≡ s.registry.closing

pub Step-IsValid : {s t : System} → Step s t → IsValid s → IsValid t
unfolding reserve_spawn spawn_on drop_permit complete close
Step-IsValid (reserve s h) v = ground arith
Step-IsValid (spawn s p address runs e n) v = ground (
  arith,
  Distinct-insert ℕ_discrete s.registry.next_task_id
      (record { address = address; abort_handle = s.registry.next_task_id }) s.registry.tasks
      v.distinct,
)
Step-IsValid (give_back s p e) v = ground arith
Step-IsValid (finish s id) v =
    ground (arith, Distinct-remove ℕ_discrete id s.registry.tasks v.distinct)
Step-IsValid (shut s) v = ground arith

-- In every state that the users of a new registry can reach, the pending spawns are the permits that
-- are out, no task id is tracked twice, and the token is cancelled exactly when the registry is
-- closing.
pub Reach-IsValid : {s : System} → Reach start s → IsValid s
unfolding new
Reach-IsValid here = record { counted = refl; distinct = tt; cancelled = refl }
Reach-IsValid (next r st) = Step-IsValid st (Reach-IsValid r)
