-- ===== src/Container/Turns.antt =====
-- core/mm1-node/src/runtime/container.rs: how the container starts, and a turn of its loop. The
-- events of a closed channel, `EndOfCallRx` and `EndOfSysMsgRx`, which leave `run` with an error, are left out.
mod Calls
mod Messages
unfoldable pub use Calls.*
unfoldable pub use Messages.*
use mm.Shared.{
  suc, ◌-◌, List, [], ◌∷◌, ◌++◌, Option, none, some, true, false, if◌then◌else◌, ℕ_discrete, length,
  map,
}
use mm.Shared.Map.{insert, remove, get}
use mm.Container.{
  ExitReason, normal, terminate, link_down, SysLink, connect, disconnect, SysWatch, down, SysMsg,
  kill, on_link, on_watch, fork_done, SysCall, trap_exit, link, unlink, fork_added, spawn, JobEntry,
  Container, Runtime, Effect, sent, requeued, exited, went_down, replied, finished, failed, killed,
  collateral_of, terminated_by, Event, shutdown, main_panicked, job_done, called, received, Turn,
  goes_on, breaks, panics, hangs, is_normal, entry, with_entry, new_entry, attempt, delivered,
  end_fork, find_vacant,
}
use mm.Container.Sets.{
  Address, WatchRef, contains, include, exclude, put, drop, of_peer, of_others, drop_refs,
}

unfoldable pub linked_to_all : List Address → List Address
unfolding include
linked_to_all [] = []
linked_to_all (peer ∷ r) = include peer (linked_to_all r)

unfoldable pub connect_all : Runtime → Address → List Address → List Effect
connect_all rt fork [] = []
connect_all rt fork (peer ∷ r) =
    (sent peer (on_link (connect fork peer))
      ∷ (if rt.reaches peer
          then []
          else requeued (on_link (SysLink.exit peer fork link_down)) ∷ []))
    ++ connect_all rt fork r

-- What `run` does before the loop: the peers that the actor starts linked to are told.
unfoldable pub start : Runtime → Address → List Address → Turn
unfolding linked_to_all connect_all
start rt main link_to =
    let linked = linked_to_all link_to in
    let c : Container = record {
      main = main;
      job_entries = (main, record { linked_to = linked; watches = []; watched_by = [] }) ∷ [];
      taken = [];
      next_watch_ref = 0;
      trap_exit = false;
      spawned_jobs = 0;
    } in
    if rt.upgrades then goes_on c (connect_all rt main linked) else panics

unfoldable pub turn : Runtime → Container → Event → Turn
unfolding on_call on_sys_msg
turn rt c shutdown = breaks c finished
turn rt c main_panicked = breaks c failed
turn rt c (job_done false) = goes_on (record c { spawned_jobs = c.spawned_jobs - 1 }) []
turn rt c (job_done true) = breaks c failed
turn rt c (called call) = on_call rt c call
turn rt c (received message) = on_sys_msg rt c message
