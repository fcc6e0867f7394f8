-- ===== src/TaskRegistry/Closing.antt =====
-- A registry that is closing drains: it takes no new work, and whoever waits for it to become empty is
-- told.
use mm.Shared.{
  ℕ, zero, suc, ◌+◌, ◌≤◌, ◌≡◌, refl, List, [], ◌∷◌, some, true, false, length, ℕ_discrete, arith,
  Option-cases, inl, inr, ap,
}
use mm.Shared.Map.{get, remove}
use mm.TaskRegistry.{
  TaskId, TrackedTask, Registry, reserve_spawn, close, is_empty, spawn_on, drop_permit, complete,
}
use mm.TaskRegistry.Permits.{
  System, Step, reserve, spawn, give_back, finish, shut, Reach, here, next, IsValid, Step-IsValid,
}

abbrev pub load : Registry → ℕ
load r = r.pending_spawns + length r.tasks

length-remove :
    (id : TaskId) (t : TrackedTask) (m : List (TaskId × TrackedTask))
    → get ℕ_discrete id m ≡ some t
    → length m ≡ suc (length (remove ℕ_discrete id m))
unfolding get remove
length-remove id t [] e = cc
length-remove id t ((j, u) ∷ m) e = ground (arith, length-remove id t m)

Step-closing :
    {s t : System}
    → Step s t
    → s.registry.closing ≡ true
    → (t.registry.closing ≡ true) × (load t.registry ≤ load s.registry)
unfolding reserve_spawn spawn_on drop_permit complete close
Step-closing (reserve s h) c = ground arith
Step-closing (spawn s p address runs e n) c = ground arith
Step-closing (give_back s p e) c = ground arith
Step-closing (finish s id) c = elim (Option-cases (get ℕ_discrete id s.registry.tasks)) [
  | inl e ↦ ground arith
  | inr (t, e) ↦ ground (arith, length-remove id t s.registry.tasks e)
]
Step-closing (shut s) c = ground arith

-- Once a registry is closing it stays so, and the number of its tasks and pending spawns together
-- never grows again.
pub Reach-closing :
    {s t : System}
    → Reach s t
    → s.registry.closing ≡ true
    → (t.registry.closing ≡ true) × (load t.registry ≤ load s.registry)
Reach-closing here c = (c, omega arith)
Reach-closing (next r st) c =
    let (c', h) = Reach-closing r c in let (c'', h') = Step-closing st c' in (c'', omega arith)

-- The step that makes the registry empty leaves a notification for whoever waits.
pub Step-notifies :
    {s t : System}
    → Step s t
    → is_empty s.registry ≡ false
    → is_empty t.registry ≡ true
    → t.registry.changed ≡ true
unfolding reserve_spawn spawn_on drop_permit complete close is_empty
Step-notifies (reserve s h) b e = ground arith
Step-notifies (spawn s p address runs n k) b e = ground arith
Step-notifies (give_back s p h) b e = ground arith
Step-notifies (finish s id) b e = ground arith
Step-notifies (shut s) b e = ground arith

Reach-append : {s t u : System} → Reach s t → Reach t u → Reach s u
Reach-append r here = r
Reach-append r (next q st) = next (Reach-append r q) st

complete-head :
    (r : Registry) (id : TaskId) (t : TrackedTask) (m : List (TaskId × TrackedTask))
    → r.tasks ≡ (id, t) ∷ m
    → complete r id ≡ record r { tasks = m; changed = true }
unfolding complete get remove
complete-head r id t m e = ground arith

drain_permits :
    (p : ℕ) (s : System)
    → s.permits ≡ p
    → IsValid s
    → (t : System) × Reach s t × (t.permits ≡ 0) × IsValid t
drain_permits zero s e v = (s, here, e, v)
drain_permits (suc p) s e v =
    let st = give_back s p e in
    let (t, r, z, w) = drain_permits p _ refl (Step-IsValid st v) in
    (t, Reach-append (next here st) r, z, w)

drain_tasks :
    (m : List (TaskId × TrackedTask)) (s : System)
    → s.registry.tasks ≡ m
    → s.permits ≡ 0
    → IsValid s
    → (t : System) × Reach s t × (is_empty t.registry ≡ true)
unfolding is_empty
drain_tasks [] s e z v = (s, here, ground arith)
drain_tasks ((id, task) ∷ m) s e z v =
    let st = finish s id in
    let left = ap (λ (r : Registry). r.tasks) (complete-head s.registry id task m e) in
    let (t, r, done) =
      drain_tasks m (record s { registry = complete s.registry id }) left z (Step-IsValid st v) in
    (t, Reach-append (next here st) r, done)

-- From any state a registry becomes empty, once the permits are given back and the tasks complete.
pub drains : (s : System) → IsValid s → (t : System) × Reach s t × (is_empty t.registry ≡ true)
drains s v =
    let (t, r, z, w) = drain_permits s.permits s refl v in
    let (u, q, done) = drain_tasks t.registry.tasks t refl z w in (u, Reach-append r q, done)
