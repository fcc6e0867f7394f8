-- ===== src/Container/Turns/Calls.antt =====
-- core/mm1-node/src/runtime/container.rs: one turn of the loop for each call of a fork. A fork without an
-- entry is where `expect` panics.
use mm.Shared.{
  suc, List, [], ◌∷◌, ◌++◌, Option, none, some, true, false, if◌then◌else◌, ℕ_discrete, length,
}
use mm.Shared.Map.{insert, remove, get}
use mm.Container.{
  link_down, SysLink, connect, disconnect, SysWatch, down, on_link, on_watch, SysCall, trap_exit,
  link, unlink, fork_added, spawn, JobEntry, Container, Runtime, Effect, sent, replied, finished,
  failed, Turn, goes_on, breaks, panics, hangs, entry, with_entry, new_entry, attempt, find_vacant,
}
use mm.Container.Sets.{Address, WatchRef, contains, include, exclude, put, drop}

-- The effects of an attempt to send, and more; it panics if the own sender was wanted and is gone.
unfoldable pub goes_on_with : Container → Option (List Effect) → List Effect → Turn
goes_on_with c attempted more = elim attempted [
  | none ↦ panics
  | some effects ↦ goes_on c (effects ++ more)
]

unfoldable pub on_fork_added : Container → Address → Turn
on_fork_added c fork = elim (entry c fork) [
  | none ↦ goes_on (with_entry c fork new_entry) []
  | some _ ↦ panics
]

unfoldable pub call_link : Runtime → Container → Address → Address → Turn
call_link rt c sender receiver = elim (entry c sender) [
  | none ↦ panics
  | some e ↦
      if contains receiver e.linked_to
      then goes_on c []
      else goes_on_with
          (with_entry c sender (record e { linked_to = include receiver e.linked_to }))
          (attempt rt receiver (on_link (connect sender receiver))
            (on_link (SysLink.exit receiver sender link_down)))
          []
]

unfoldable pub call_unlink : Container → Address → Address → Turn
call_unlink c sender receiver = elim (entry c sender) [
  | none ↦ panics
  | some e ↦
      if contains receiver e.linked_to
      then goes_on (with_entry c sender (record e { linked_to = exclude receiver e.linked_to }))
          (sent receiver (on_link (disconnect sender receiver)) ∷ [])
      else goes_on c []
]

unfoldable pub take_watch :
    Container → Address → Address → JobEntry → WatchRef → WatchRef → Container
take_watch c sender receiver e ref next = record c {
  job_entries =
      insert ℕ_discrete sender (record e { watches = put receiver ref e.watches }) c.job_entries;
  taken = insert ℕ_discrete ref (record { owner = sender; target = receiver }) c.taken;
  next_watch_ref = next;
}

-- The loop has as much fuel as it takes to pass every reference that is taken.
unfoldable pub call_watch : Runtime → Container → Address → Address → Turn
call_watch rt c sender receiver = elim (entry c sender) [
  | none ↦ panics
  | some e ↦ elim (find_vacant (suc (length c.taken)) c.next_watch_ref c.taken) [
    | none ↦ hangs
    | some (ref, next) ↦
        goes_on_with (take_watch c sender receiver e ref next)
          (attempt rt receiver (on_watch (SysWatch.watch sender receiver ref))
            (on_watch (down receiver sender link_down)))
          (replied ref ∷ [])
  ]
]

unfoldable pub call_unwatch : Container → WatchRef → Turn
call_unwatch c ref = elim (get ℕ_discrete ref c.taken) [
  | none ↦ goes_on c []
  | some t ↦ elim (entry c t.owner) [
    | none ↦ panics
    | some e ↦
        goes_on
          (record c {
            job_entries =
                insert ℕ_discrete t.owner (record e { watches = drop t.target ref e.watches })
                  c.job_entries;
            taken = remove ℕ_discrete ref c.taken;
          })
          (sent t.target (on_watch (SysWatch.unwatch t.owner t.target ref)) ∷ [])
  ]
]

unfoldable pub on_call : Runtime → Container → SysCall → Turn
unfolding on_fork_added call_link call_unlink call_watch call_unwatch
on_call rt c (SysCall.exit true) = breaks c finished
on_call rt c (SysCall.exit false) = breaks c failed
on_call rt c (trap_exit set_into) = goes_on (record c { trap_exit = set_into }) []
on_call rt c (link sender receiver) = call_link rt c sender receiver
on_call rt c (unlink sender receiver) = call_unlink c sender receiver
on_call rt c (SysCall.watch sender receiver) = call_watch rt c sender receiver
on_call rt c (SysCall.unwatch sender ref) = call_unwatch c ref
on_call rt c (fork_added fork) = on_fork_added c fork
on_call rt c spawn = goes_on (record c { spawned_jobs = suc c.spawned_jobs }) []
