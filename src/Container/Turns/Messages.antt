-- ===== src/Container/Turns/Messages.antt =====
-- core/mm1-node/src/runtime/container.rs: one turn of the loop for each system message. The end of a fork
-- without an entry is where `expect` panics.
use mm.Shared.{[], ◌∷◌, none, some, true, if◌then◌else◌, ℕ_discrete, map}
use mm.Shared.Map.{insert}
use mm.Container.{
  ExitReason, normal, terminate, link_down, SysLink, connect, disconnect, SysWatch, down, SysMsg,
  kill, on_link, on_watch, fork_done, Container, Runtime, sent, exited, went_down, killed,
  collateral_of, terminated_by, Turn, goes_on, breaks, panics, is_normal, entry, with_entry,
  delivered, end_fork,
}
use mm.Container.Sets.{
  Address, WatchRef, contains, include, exclude, put, drop, of_peer, of_others, drop_refs,
}

unfoldable pub on_fork_done : Container → Address → Turn
on_fork_done c fork = elim (entry c fork) [
  | none ↦ panics
  | some e ↦ let (c', effects) = end_fork true c fork e in goes_on c' effects
]

unfoldable pub on_connect : Container → Address → Address → Turn
on_connect c sender receiver = elim (entry c receiver) [
  | none ↦ goes_on c (sent sender (on_link (SysLink.exit receiver sender link_down)) ∷ [])
  | some e ↦
      goes_on (with_entry c receiver (record e { linked_to = include sender e.linked_to })) []
]

unfoldable pub on_disconnect : Container → Address → Address → Turn
on_disconnect c sender receiver = elim (entry c receiver) [
  | none ↦ goes_on c []
  | some e ↦
      goes_on (with_entry c receiver (record e { linked_to = exclude sender e.linked_to })) []
]

-- `Exit` while exits are not trapped.
unfoldable pub on_exit : Container → Address → Address → ExitReason → Turn
unfolding on_disconnect
on_exit c sender receiver normal = on_disconnect c sender receiver
on_exit c sender receiver link_down = elim (entry c receiver) [
  | none ↦ goes_on c []
  | some e ↦
      if contains sender e.linked_to
      then breaks (with_entry c receiver (record e { linked_to = exclude sender e.linked_to }))
          (collateral_of sender)
      else goes_on c []
]
on_exit c sender receiver terminate = elim (entry c receiver) [
  | none ↦ goes_on c []
  | some e ↦ breaks c (terminated_by sender)
]

-- `Exit` while exits are trapped.
unfoldable pub on_trapped_exit : Runtime → Container → Address → Address → ExitReason → Turn
on_trapped_exit rt c sender receiver reason = elim (entry c receiver) [
  | none ↦ goes_on c []
  | some e ↦
      let left = with_entry c receiver (record e { linked_to = exclude sender e.linked_to }) in
      let report = delivered rt (exited receiver sender (is_normal reason) ∷ []) in
      elim reason [
        | terminate ↦ goes_on c report
        | _ ↦ if contains sender e.linked_to then goes_on left report else goes_on c []
      ]
]

unfoldable pub on_watched : Container → Address → Address → WatchRef → Turn
on_watched c sender receiver ref = elim (entry c receiver) [
  | none ↦ goes_on c (sent sender (on_watch (down receiver sender link_down)) ∷ [])
  | some e ↦
      goes_on (with_entry c receiver (record e { watched_by = put sender ref e.watched_by })) []
]

unfoldable pub on_unwatched : Container → Address → Address → WatchRef → Turn
on_unwatched c sender receiver ref = elim (entry c receiver) [
  | none ↦ goes_on c []
  | some e ↦
      goes_on (with_entry c receiver (record e { watched_by = drop sender ref e.watched_by })) []
]

-- The two `while let` loops: each watch of the sender is given up and reported.
unfoldable pub on_down : Runtime → Container → Address → Address → ExitReason → Turn
on_down rt c sender receiver reason = elim (entry c receiver) [
  | none ↦ goes_on c []
  | some e ↦
      goes_on
        (record c {
          job_entries =
              insert ℕ_discrete receiver
                (record e {
                  watches = of_others sender e.watches;
                  watched_by = of_others sender e.watched_by;
                })
                c.job_entries;
          taken = drop_refs (of_peer sender e.watches) c.taken;
        })
        (delivered rt
          (map (λ x. went_down receiver x.0 x.1 (is_normal reason)) (of_peer sender e.watches)))
]

unfoldable pub on_sys_msg : Runtime → Container → SysMsg → Turn
unfolding on_fork_done on_connect on_disconnect on_exit on_trapped_exit on_watched on_unwatched
    on_down
on_sys_msg rt c kill = breaks c killed
on_sys_msg rt c (fork_done fork) = on_fork_done c fork
on_sys_msg rt c (on_link (connect sender receiver)) = on_connect c sender receiver
on_sys_msg rt c (on_link (disconnect sender receiver)) = on_disconnect c sender receiver
on_sys_msg rt c (on_link (SysLink.exit sender receiver reason)) =
    if c.trap_exit
    then on_trapped_exit rt c sender receiver reason
    else on_exit c sender receiver reason
on_sys_msg rt c (on_watch (SysWatch.watch sender receiver ref)) = on_watched c sender receiver ref
on_sys_msg rt c (on_watch (SysWatch.unwatch sender receiver ref)) =
    on_unwatched c sender receiver ref
on_sys_msg rt c (on_watch (down sender receiver reason)) = on_down rt c sender receiver reason
