-- ===== src/Container/Breaks.antt =====
-- core/mm1-node/src/runtime/container.rs: what ends the loop of an actor.
use mm.Shared.{
  ◌≡◌, ◌≢◌, ◌↔◌, sym, ◌∙◌, ap, List, Option, none, some, Bool, true, false, arith, Option-cases,
  Bool-cases, inl, inr, if◌then◌else◌,
}
use mm.Container.{
  ExitReason, normal, terminate, link_down, SysLink, connect, disconnect, SysWatch, down, SysMsg,
  kill, on_link, on_watch, fork_done, SysCall, trap_exit, link, unlink, fork_added, spawn,
  Container, JobEntry, Runtime, Effect, Ended, finished, failed, killed, collateral_of,
  terminated_by, Event, shutdown, main_panicked, job_done, called, received, Turn, breaks, entry,
  with_entry,
}
use mm.Container.Sets.{Address, contains, exclude}
use mm.Container.Landing.{known}
use mm.Container.Turns.{
  turn, on_call, on_sys_msg, goes_on_with, on_fork_added, on_fork_done, call_link, call_unlink,
  call_watch, call_unwatch, on_connect, on_disconnect, on_exit, on_trapped_exit, on_watched,
  on_unwatched, on_down,
}

-- The fork has an entry that lists the peer as linked.
abbrev pub LinkedTo : Container → Address → Address → Type 0
LinkedTo c fork peer = (e : JobEntry) × (entry c fork ≡ some e) × (contains peer e.linked_to ≡ true)

-- The events that end the loop, each with the result.
abbrev pub Fatal : Container → Event → Ended → Type 0
Fatal c shutdown r = r ≡ finished
Fatal c main_panicked r = r ≡ failed
Fatal c (job_done panicked) r = (panicked ≡ true) × (r ≡ failed)
Fatal c (called (SysCall.exit ok)) r = r ≡ (if ok then finished else failed)
Fatal c (called _) r = ⊥
Fatal c (received kill) r = r ≡ killed
Fatal c (received (on_link (SysLink.exit sender receiver link_down))) r =
    (c.trap_exit ≡ false) × (r ≡ collateral_of sender) × LinkedTo c receiver sender
Fatal c (received (on_link (SysLink.exit sender receiver terminate))) r =
    (c.trap_exit ≡ false) × (r ≡ terminated_by sender) × (entry c receiver ≢ none)
Fatal c (received _) r = ⊥

if_true : (b : Bool) (x y : Turn) → b ≡ true → x ≡ (if b then x else y)
if_true b x y h = ground arith

if_false : (b : Bool) (x y : Turn) → b ≡ false → y ≡ (if b then x else y)
if_false b x y h = ground arith

goes_on_with_never :
    (c d : Container) (o : Option (List Effect)) (more : List Effect) (r : Ended)
    → goes_on_with c o more ≢ breaks d r
unfolding goes_on_with
goes_on_with_never c d none more r h = cc
goes_on_with_never c d (some es) more r h = cc

called-Fatal :
    (rt : Runtime) (c d : Container) (call : SysCall) (r : Ended)
    → on_call rt c call ≡ breaks d r
    → Fatal c (called call) r
unfolding on_call call_link call_unlink call_watch call_unwatch on_fork_added
called-Fatal rt c d (SysCall.exit true) r h = ground arith
called-Fatal rt c d (SysCall.exit false) r h = ground arith
called-Fatal rt c d (trap_exit b) r h = ground arith
called-Fatal rt c d (link s t) r h = grind (arith, goes_on_with_never)
called-Fatal rt c d (unlink s t) r h = ground arith
called-Fatal rt c d (SysCall.watch s t) r h = grind (arith, goes_on_with_never)
called-Fatal rt c d (SysCall.unwatch s w) r h = ground arith
called-Fatal rt c d (fork_added f) r h = ground arith
called-Fatal rt c d spawn r h = ground arith

exit-Fatal :
    (c d : Container) (s t : Address) (reason : ExitReason) (r : Ended)
    → c.trap_exit ≡ false
    → on_exit c s t reason ≡ breaks d r
    → Fatal c (received (on_link (SysLink.exit s t reason))) r
unfolding on_exit on_disconnect
exit-Fatal c d s t normal r trap h = ground arith
exit-Fatal c d s t terminate r trap h = elim (Option-cases (entry c t)) [
  | inl gone ↦ ground arith
  | inr (e, k) ↦ (trap, ground arith, (λ q. cc))
]
exit-Fatal c d s t link_down r trap h = elim (Option-cases (entry c t)) [
  | inl gone ↦ ground arith
  | inr (e, k) ↦ (trap, ground arith, (e, k, ground arith))
]

trapped_never :
    (rt : Runtime) (c d : Container) (s t : Address) (reason : ExitReason) (r : Ended)
    → on_trapped_exit rt c s t reason ≢ breaks d r
unfolding on_trapped_exit
trapped_never rt c d s t normal r h = ground arith
trapped_never rt c d s t terminate r h = ground arith
trapped_never rt c d s t link_down r h = ground arith

exits-Fatal :
    (rt : Runtime) (c d : Container) (s t : Address) (reason : ExitReason) (r : Ended)
    → on_sys_msg rt c (on_link (SysLink.exit s t reason)) ≡ breaks d r
    → Fatal c (received (on_link (SysLink.exit s t reason))) r
unfolding on_sys_msg
exits-Fatal rt c d s t reason r h = elim (Bool-cases c.trap_exit) [
  | inl trap ↦ absurd (trapped_never rt c d s t reason r (if_true c.trap_exit _ _ trap ∙ h))
  | inr no_trap ↦ exit-Fatal c d s t reason r no_trap (if_false c.trap_exit _ _ no_trap ∙ h)
]

received-Fatal :
    (rt : Runtime) (c d : Container) (m : SysMsg) (r : Ended)
    → on_sys_msg rt c m ≡ breaks d r
    → Fatal c (received m) r
unfolding on_sys_msg on_fork_done on_connect on_disconnect on_watched on_unwatched on_down
received-Fatal rt c d kill r h = ground arith
received-Fatal rt c d (fork_done f) r h = ground arith
received-Fatal rt c d (on_link (connect s t)) r h = ground arith
received-Fatal rt c d (on_link (disconnect s t)) r h = ground arith
received-Fatal rt c d (on_link (SysLink.exit s t reason)) r h = exits-Fatal rt c d s t reason r h
received-Fatal rt c d (on_watch (SysWatch.watch s t ref)) r h = ground arith
received-Fatal rt c d (on_watch (SysWatch.unwatch s t ref)) r h = ground arith
received-Fatal rt c d (on_watch (down s t reason)) r h = ground arith

breaks-Fatal :
    (rt : Runtime) (c d : Container) (e : Event) (r : Ended)
    → turn rt c e ≡ breaks d r
    → Fatal c e r
unfolding turn
breaks-Fatal rt c d shutdown r h = ground arith
breaks-Fatal rt c d main_panicked r h = ground arith
breaks-Fatal rt c d (job_done true) r h = ground arith
breaks-Fatal rt c d (job_done false) r h = ground arith
breaks-Fatal rt c d (called call) r h = called-Fatal rt c d call r h
breaks-Fatal rt c d (received m) r h = received-Fatal rt c d m r h

exits-breaks :
    (rt : Runtime) (c : Container) (s t : Address) (reason : ExitReason) (r : Ended)
    → Fatal c (received (on_link (SysLink.exit s t reason))) r
    → (d : Container) × (on_sys_msg rt c (on_link (SysLink.exit s t reason)) ≡ breaks d r)
unfolding on_sys_msg on_exit
exits-breaks rt c s t normal r f = elim f [ ]
exits-breaks rt c s t terminate r (trap, q, lives) =
    let (e, k) = known (entry c t) lives in
    (c, sym (if_false c.trap_exit _ _ trap) ∙ rw (k, on_exit) (ap (λ x. breaks c x) (sym q)))
exits-breaks rt c s t link_down r (trap, q, (e, k, l)) =
    let left = with_entry c t (record e { linked_to = exclude s e.linked_to }) in
    (
      left,
      sym (if_false c.trap_exit _ _ trap) ∙ rw (k, on_exit, l) (ap (λ x. breaks left x) (sym q)),
    )

Fatal-breaks :
    (rt : Runtime) (c : Container) (e : Event) (r : Ended)
    → Fatal c e r
    → (d : Container) × (turn rt c e ≡ breaks d r)
unfolding turn on_call on_sys_msg
Fatal-breaks rt c shutdown r f = (c, ap (λ x. breaks c x) (sym f))
Fatal-breaks rt c main_panicked r f = (c, ap (λ x. breaks c x) (sym f))
Fatal-breaks rt c (job_done true) r f = (c, ap (λ x. breaks c x) (sym f.1))
Fatal-breaks rt c (job_done false) r f = absurd (cc)
Fatal-breaks rt c (called (SysCall.exit true)) r f = (c, ap (λ x. breaks c x) (sym f))
Fatal-breaks rt c (called (SysCall.exit false)) r f = (c, ap (λ x. breaks c x) (sym f))
Fatal-breaks rt c (called (trap_exit b)) r f = elim f [ ]
Fatal-breaks rt c (called (link s t)) r f = elim f [ ]
Fatal-breaks rt c (called (unlink s t)) r f = elim f [ ]
Fatal-breaks rt c (called (SysCall.watch s t)) r f = elim f [ ]
Fatal-breaks rt c (called (SysCall.unwatch s w)) r f = elim f [ ]
Fatal-breaks rt c (called (fork_added k)) r f = elim f [ ]
Fatal-breaks rt c (called spawn) r f = elim f [ ]
Fatal-breaks rt c (received kill) r f = (c, ap (λ x. breaks c x) (sym f))
Fatal-breaks rt c (received (fork_done k)) r f = elim f [ ]
Fatal-breaks rt c (received (on_link (connect s t))) r f = elim f [ ]
Fatal-breaks rt c (received (on_link (disconnect s t))) r f = elim f [ ]
Fatal-breaks rt c (received (on_link (SysLink.exit s t reason))) r f =
    exits-breaks rt c s t reason r f
Fatal-breaks rt c (received (on_watch (SysWatch.watch s t ref))) r f = elim f [ ]
Fatal-breaks rt c (received (on_watch (SysWatch.unwatch s t ref))) r f = elim f [ ]
Fatal-breaks rt c (received (on_watch (down s t reason))) r f = elim f [ ]

-- An event ends the loop with a result exactly when it is the shutdown of the node (the result is `Ok`), a panic
-- of the main fork or of a job, the actor's own exit (the result is that of the call), a `Kill`, or, unless exits
-- are trapped, an `Exit` to one of the actor's forks: a `LinkDown` from a peer that the fork is linked to,
-- or a `Terminate` from anyone.
pub turn-breaks_iff :
    (rt : Runtime) (c : Container) (e : Event) (r : Ended)
    → ((d : Container) × (turn rt c e ≡ breaks d r)) ↔ Fatal c e r
turn-breaks_iff rt c e r = ((λ (d, h). breaks-Fatal rt c d e r h), Fatal-breaks rt c e r)
