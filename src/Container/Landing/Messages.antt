-- ===== src/Container/Landing/Messages.antt =====
-- core/mm1-node/src/runtime/container.rs: what a system message does to a well-formed container.
use mm.Shared.{
  ◌≢◌, refl, Bool-cases, none, Bool, true, false, arith, Option-cases, inl, inr, if◌then◌else◌,
}
use mm.Container.{
  ExitReason, normal, terminate, link_down, SysLink, connect, disconnect, SysWatch, down, SysMsg,
  kill, on_link, on_watch, fork_done, Container, Runtime, received, Turn, entry,
}
use mm.Container.Turns.{
  on_sys_msg, on_fork_done, on_connect, on_disconnect, on_exit, on_trapped_exit, on_watched,
  on_unwatched, on_down,
}
use mm.Container.Sets.{Address, WatchRef, contains, has-of_others, has-of_peer, of_peer}
use mm.Container.Invariant.{IsValid, give_up-IsValid, end_fork-IsValid}
use mm.Container.Landing.{Keeps, Lands, amended-IsValid, known}

on_fork_done-Lands :
    (c : Container) (k : Address)
    → entry c k ≢ none
    → k ≢ c.main
    → IsValid c
    → Lands (on_fork_done c k)
unfolding on_fork_done entry
on_fork_done-Lands c k n m v =
    let (e, h) = known (entry c k) n in rw (h, on_fork_done) (end_fork-IsValid true c k e h m v)

pub on_down-Lands :
    (rt : Runtime) (c : Container) (s r : Address) (reason : ExitReason)
    → IsValid c
    → Lands (on_down rt c s r reason)
unfolding on_down entry
on_down-Lands rt c s r reason v = elim (Option-cases (entry c r)) [
  | inl gone ↦ rw (gone, on_down) v
  | inr (e, h) ↦
      rw (h, on_down)
        (give_up-IsValid c r e (of_peer s e.watches) _ h
          (λ a w. ground (arith, has-of_peer s a w e.watches, has-of_others s a w e.watches))
          (λ a w k. ground (arith, has-of_peer s a w e.watches, has-of_others s a w e.watches)) v)
]

on_connect-Lands : (c : Container) (s r : Address) → IsValid c → Lands (on_connect c s r)
unfolding on_connect
on_connect-Lands c s r v = elim (Option-cases (entry c r)) [
  | inl gone ↦ rw (gone, on_connect) v
  | inr (e, h) ↦ rw (h, on_connect) (amended-IsValid c r e _ h refl v)
]

on_disconnect-Lands : (c : Container) (s r : Address) → IsValid c → Lands (on_disconnect c s r)
unfolding on_disconnect
on_disconnect-Lands c s r v = elim (Option-cases (entry c r)) [
  | inl gone ↦ rw (gone, on_disconnect) v
  | inr (e, h) ↦ rw (h, on_disconnect) (amended-IsValid c r e _ h refl v)
]

on_watched-Lands :
    (c : Container) (s r : Address) (ref : WatchRef) → IsValid c → Lands (on_watched c s r ref)
unfolding on_watched
on_watched-Lands c s r ref v = elim (Option-cases (entry c r)) [
  | inl gone ↦ rw (gone, on_watched) v
  | inr (e, h) ↦ rw (h, on_watched) (amended-IsValid c r e _ h refl v)
]

on_unwatched-Lands :
    (c : Container) (s r : Address) (ref : WatchRef) → IsValid c → Lands (on_unwatched c s r ref)
unfolding on_unwatched
on_unwatched-Lands c s r ref v = elim (Option-cases (entry c r)) [
  | inl gone ↦ rw (gone, on_unwatched) v
  | inr (e, h) ↦ rw (h, on_unwatched) (amended-IsValid c r e _ h refl v)
]

on_exit-Lands :
    (c : Container) (s r : Address) (reason : ExitReason) → IsValid c → Lands (on_exit c s r reason)
unfolding on_exit
on_exit-Lands c s r normal v = on_disconnect-Lands c s r v
on_exit-Lands c s r link_down v = elim (Option-cases (entry c r)) [
  | inl gone ↦ rw (gone, on_exit) v
  | inr (e, h) ↦ elim (Bool-cases (contains s e.linked_to)) [
    | inl yes_linked ↦ rw (h, yes_linked, on_exit) (amended-IsValid c r e _ h refl v)
    | inr not_linked ↦ rw (h, not_linked, on_exit) v
  ]
]
on_exit-Lands c s r terminate v = elim (Option-cases (entry c r)) [
  | inl gone ↦ rw (gone, on_exit) v
  | inr (e, h) ↦ rw (h, on_exit) v
]

on_trapped_exit-Lands :
    (rt : Runtime) (c : Container) (s r : Address) (reason : ExitReason)
    → IsValid c
    → Lands (on_trapped_exit rt c s r reason)
unfolding on_trapped_exit
on_trapped_exit-Lands rt c s r terminate v = elim (Option-cases (entry c r)) [
  | inl gone ↦ rw (gone, on_trapped_exit) v
  | inr (e, h) ↦ rw (h, on_trapped_exit) v
]
on_trapped_exit-Lands rt c s r link_down v = elim (Option-cases (entry c r)) [
  | inl gone ↦ rw (gone, on_trapped_exit) v
  | inr (e, h) ↦ elim (Bool-cases (contains s e.linked_to)) [
    | inl is_linked ↦ rw (h, is_linked, on_trapped_exit) (amended-IsValid c r e _ h refl v)
    | inr not_linked ↦ rw (h, not_linked, on_trapped_exit) v
  ]
]
on_trapped_exit-Lands rt c s r normal v = elim (Option-cases (entry c r)) [
  | inl gone ↦ rw (gone, on_trapped_exit) v
  | inr (e, h) ↦ elim (Bool-cases (contains s e.linked_to)) [
    | inl is_linked ↦ rw (h, is_linked, on_trapped_exit) (amended-IsValid c r e _ h refl v)
    | inr not_linked ↦ rw (h, not_linked, on_trapped_exit) v
  ]
]

branch-Lands : (b : Bool) (x y : Turn) → Lands x → Lands y → Lands (if b then x else y)
branch-Lands true x y l m = l
branch-Lands false x y l m = m

-- A system message neither panics nor hangs, and leaves a well-formed container; the end of a fork must be that
-- of one that is known, and not the main one.
pub on_sys_msg-Lands :
    (rt : Runtime) (c : Container) (m : SysMsg)
    → Keeps c (received m)
    → IsValid c
    → Lands (on_sys_msg rt c m)
unfolding on_sys_msg
on_sys_msg-Lands rt c kill k v = v
on_sys_msg-Lands rt c (fork_done f) k v = on_fork_done-Lands c f k.0 k.1 v
on_sys_msg-Lands rt c (on_link (connect s r)) k v = on_connect-Lands c s r v
on_sys_msg-Lands rt c (on_link (disconnect s r)) k v = on_disconnect-Lands c s r v
on_sys_msg-Lands rt c (on_link (SysLink.exit s r reason)) k v =
    branch-Lands c.trap_exit _ _ (on_trapped_exit-Lands rt c s r reason v)
      (on_exit-Lands c s r reason v)
on_sys_msg-Lands rt c (on_watch (SysWatch.watch s r ref)) k v = on_watched-Lands c s r ref v
on_sys_msg-Lands rt c (on_watch (SysWatch.unwatch s r ref)) k v = on_unwatched-Lands c s r ref v
on_sys_msg-Lands rt c (on_watch (down s r reason)) k v = on_down-Lands rt c s r reason v
