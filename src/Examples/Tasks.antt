-- ===== src/Examples/Tasks.antt =====
-- A task registry with one permit out and one task that runs.
use mm.Shared.{refl, true}
use mm.Shared.Map.{get}
use mm.TaskRegistry.{new, reserve_spawn, close, spawn_on, complete}
use mm.TaskRegistry.Permits.{
  System, reserve, spawn, finish, Reach, here, next, start, IsValid, Reach-IsValid,
}

abbrev reserved : System
reserved = record { registry = (reserve_spawn new).0; permits = 1 }

abbrev running : System
running = record { registry = (spawn_on reserved.registry 5 true).0; permits = 0 }

to_running : Reach start running
unfolding new reserve_spawn spawn_on get
to_running = next (next here (reserve start refl)) (spawn reserved 0 5 true refl (λ e. cc))

Reach-IsValid_example : IsValid running
Reach-IsValid_example = Reach-IsValid to_running

abbrev closed : System
closed = record running { registry = close running.registry }

abbrev drained : System
drained = record closed { registry = complete closed.registry 0 }

closed-drained : Reach closed drained
closed-drained = next here (finish closed 0)
