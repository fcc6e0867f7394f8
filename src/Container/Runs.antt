-- ===== src/Container/Runs.antt =====
-- core/mm1-node/src/runtime/container.rs: the container over any sequence of turns.
use mm.Shared.{◌≡◌, List, Bool, true, false, if◌then◌else◌, ◌≢◌, ℕ_discrete, arith, [], subst}
use mm.Shared.Map.{get}
use mm.Container.{
  JobEntry, Container, Runtime, Effect, Event, shutdown, main_panicked, job_done, called, received,
  Turn, goes_on, breaks, panics, hangs,
}
use mm.Container.Turns.{turn, start, linked_to_all}
use mm.Container.Sets.{Address, has}
use mm.Container.Invariant.{IsValid, lists, is_taken}
use mm.Container.Landing.{Lands, Keeps}
use mm.Container.Landing.Calls.{on_call-Lands}
use mm.Container.Landing.Messages.{on_sys_msg-Lands}

pub turn-Lands :
    (rt : Runtime) (c : Container) (e : Event)
    → rt.upgrades ≡ true
    → Keeps c e
    → IsValid c
    → Lands (turn rt c e)
unfolding turn
turn-Lands rt c shutdown up k v = v
turn-Lands rt c main_panicked up k v = v
turn-Lands rt c (job_done true) up k v = v
turn-Lands rt c (job_done false) up k v = record {
  distinct_jobs = v.distinct_jobs;
  distinct_taken = v.distinct_taken;
  agree = v.agree;
  main_lives = v.main_lives;
  next_lt = v.next_lt;
}
turn-Lands rt c (called call) up k v = on_call-Lands rt c call up k v
turn-Lands rt c (received m) up k v = on_sys_msg-Lands rt c m k v

-- The containers in the loop of an actor: at each turn the peers that can be reached may be others.
pub data Looping : Container → Type 0 where
  started :
      (rt : Runtime) (main : Address) (link_to : List Address) {c : Container} {es : List Effect}
      → rt.upgrades ≡ true
      → start rt main link_to ≡ goes_on c es
      → Looping c
  turned :
      (rt : Runtime) {c d : Container} (e : Event) {es : List Effect}
      → rt.upgrades ≡ true
      → Keeps c e
      → Looping c
      → turn rt c e ≡ goes_on d es
      → Looping d

branch_true : (b : Bool) (x y : Turn) → b ≡ true → Lands x → Lands (if b then x else y)
branch_true true x y e l = l
branch_true false x y e l = absurd (cc)

start-Lands :
    (rt : Runtime) (main : Address) (link_to : List Address)
    → rt.upgrades ≡ true
    → Lands (start rt main link_to)
unfolding start lists is_taken has get ℕ_discrete
start-Lands rt main link_to up =
    let e : JobEntry = record {
      linked_to = linked_to_all link_to;
      watches = [];
      watched_by = [];
    } in
    branch_true rt.upgrades _ _ up (record {
      distinct_jobs = (tt, tt);
      distinct_taken = tt;
      agree = λ f t w. ground arith;
      main_lives = (e, ground arith);
      next_lt = omega arith;
    })

-- In every container that the loop of an actor comes to, the watches that the job entries list are exactly those of
-- the references that are taken.
pub Looping-IsValid : {c : Container} → Looping c → IsValid c
Looping-IsValid (started rt main link_to up e) = subst Lands e (start-Lands rt main link_to up)
Looping-IsValid (turned rt ev up k l e) =
    subst Lands e (turn-Lands rt _ ev up k (Looping-IsValid l))

Lands-proper : (t : Turn) → Lands t → (t ≢ panics) × (t ≢ hangs)
Lands-proper (goes_on c es) l = ((λ e. cc), (λ e. cc))
Lands-proper (breaks c r) l = ((λ e. cc), (λ e. cc))
Lands-proper panics l = elim l [ ]
Lands-proper hangs l = elim l [ ]

-- Whatever happens next to a container that the loop came to, it neither panics nor hangs, if the forks keep to
-- the order of their calls, the container's own senders are there, and fewer than 2^64 - 1 references are taken
-- when a watch is asked for.
pub Looping-proper :
    (rt : Runtime) {c : Container} (e : Event)
    → rt.upgrades ≡ true
    → Looping c
    → Keeps c e
    → (turn rt c e ≢ panics) × (turn rt c e ≢ hangs)
Looping-proper rt e up l k = Lands-proper (turn rt _ e) (turn-Lands rt _ e up k (Looping-IsValid l))
