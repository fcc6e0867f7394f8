-- ===== src/Container/Landing.antt =====
-- core/mm1-node/src/runtime/container.rs: what one turn does to a well-formed container.
pub mod Calls
pub mod Messages
use mm.Shared.{
  ℕ, suc, ◌-◌, ◌&&◌, ◌||◌, ◌<◌, ◌≤◌, ◌≡◌, ◌≢◌, refl, sym, ap, ◌∙◌, List, [], ◌∷◌, Bool-cases,
  Option, none, some, Bool, true, false, ℕ_discrete, arith, Option-cases, inl, inr, length,
  if◌then◌else◌,
}
use mm.Shared.Map.{get, insert, Distinct, Distinct-insert, get-insert, get-remove}
use mm.Container.{
  ExitReason, normal, terminate, link_down, SysLink, connect, disconnect, SysWatch, down, SysMsg,
  kill, on_link, on_watch, fork_done, SysCall, trap_exit, link, unlink, fork_added, spawn, JobEntry,
  TakenWatch, Container, Runtime, Effect, sent, requeued, replied, Event, shutdown, main_panicked,
  job_done, called, received, Turn, goes_on, breaks, panics, hangs, entry, with_entry, new_entry,
  max_ref, attempt, end_fork, find_vacant,
}
use mm.Container.Turns.{
  turn, on_call, on_sys_msg, on_fork_added, on_fork_done, call_link, goes_on_with, take_watch,
  call_unlink, call_watch, call_unwatch, on_connect, on_disconnect, on_exit, on_trapped_exit,
  on_watched, on_unwatched, on_down,
}
use mm.Container.Refs.{find_vacant-IsVacant, succ_ref-lt}
use mm.Container.Sets.{
  Address, WatchRef, Watches, contains, has, has-put, has-drop, has-of_others, has-of_peer,
  drop_refs, of_others, of_peer, drop, put,
}
use mm.Container.Invariant.{
  IsValid, lists, is_taken, lists-entry, lists_absent, lists-insert, is_taken-insert,
  is_taken_absent, lives-insert, with_entry-IsValid, give_up-IsValid, end_fork-IsValid,
}

-- What the context of the actor and its forks keeps to: a call comes from a fork that was added and has not
-- ended, a fork is added once and ends once, and the main fork does not end before the loop.
abbrev pub Calls : Container → SysCall → Type 0
Calls c (link sender receiver) = entry c sender ≢ none
Calls c (unlink sender receiver) = entry c sender ≢ none
Calls c (SysCall.watch sender receiver) = (entry c sender ≢ none) × (length c.taken < max_ref - 1)
Calls c (fork_added fork) = entry c fork ≡ none
Calls c _ = Unit {0}

abbrev pub Keeps : Container → Event → Type 0
Keeps c (called call) = Calls c call
Keeps c (received (fork_done fork)) = (entry c fork ≢ none) × (fork ≢ c.main)
Keeps c _ = Unit {0}

-- The container that a turn leaves is well formed, and the turn neither panics nor hangs.
abbrev pub Lands : Turn → Type 0
Lands (goes_on c effects) = IsValid c
Lands (breaks c reason) = IsValid c
Lands panics = ⊥
Lands hangs = ⊥

-- A change of an entry that keeps its watches.
pub amended-IsValid :
    (c : Container) (k : Address) (e new : JobEntry)
    → entry c k ≡ some e
    → new.watches ≡ e.watches
    → IsValid c
    → IsValid (with_entry c k new)
unfolding entry
amended-IsValid c k e new h same v =
    with_entry-IsValid c k new
      (λ t w. lists-entry c.job_entries k t w e h ∙ ap (λ ws. has t w ws) (sym same)) v

pub added-IsValid :
    (c : Container) (k : Address)
    → entry c k ≡ none
    → IsValid c
    → IsValid (with_entry c k new_entry)
unfolding entry has
added-IsValid c k h v =
    with_entry-IsValid c k new_entry (λ t w. lists_absent c.job_entries k t w h) v

attempt_lem :
    (rt : Runtime) (peer : Address) (m f : SysMsg)
    → rt.upgrades ≡ true
    → (effects : List Effect) × (attempt rt peer m f ≡ some effects)
unfolding attempt
attempt_lem rt peer m f h = elim (Bool-cases (rt.reaches peer)) [
  | inl e ↦ (sent peer m ∷ [], ground arith)
  | inr e ↦ (sent peer m ∷ requeued f ∷ [], ground arith)
]

pub goes_on_with-Lands :
    (rt : Runtime) (c : Container) (peer : Address) (m f : SysMsg) (more : List Effect)
    → rt.upgrades ≡ true
    → IsValid c
    → Lands (goes_on_with c (attempt rt peer m f) more)
unfolding goes_on_with
goes_on_with-Lands rt c peer m f more h v =
    let (effects, e) = attempt_lem rt peer m f h in rw (e, goes_on_with) v

pub take_watch-IsValid :
    (c : Container) (k target : Address) (e : JobEntry) (ref next : WatchRef)
    → entry c k ≡ some e
    → get ℕ_discrete ref c.taken ≡ none
    → next < max_ref
    → IsValid c
    → IsValid (take_watch c k target e ref next)
unfolding take_watch entry
take_watch-IsValid c k target e ref next h free lt v =
    let new : JobEntry = record e { watches = put target ref e.watches } in
    record {
      distinct_jobs = Distinct-insert ℕ_discrete k new c.job_entries v.distinct_jobs;
      distinct_taken =
          Distinct-insert ℕ_discrete ref (record { owner = k; target = target }) c.taken
            v.distinct_taken;
      agree = λ f t w. ground (
        arith,
        lists-insert c.job_entries k f t w new,
        is_taken-insert c.taken k f t target ref w,
        has-put target ref t w e.watches,
        lists-entry c.job_entries k t w e h,
        is_taken_absent c.taken f t ref free,
        v.agree f t w,
      );
      main_lives = lives-insert c.job_entries c.main k new v.main_lives;
      next_lt = lt;
    }

pub known : {A : Type 0} (o : Option A) → o ≢ none → (a : A) × (o ≡ some a)
known none n = absurd (n refl)
known (some a) n = (a, refl)
