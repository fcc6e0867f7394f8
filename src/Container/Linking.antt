-- ===== src/Container/Linking.antt =====
-- core/mm1-node/src/runtime/container.rs: two containers that exchange their messages, from a link to the `Exit` of
-- the peer.
use mm.Shared.{Holds, ◌≡◌, refl, ◌∙◌, List, [], ◌∷◌, some, Bool, true, false, arith, if◌then◌else◌}
use mm.Container.{
  connect, SysMsg, on_link, link, Container, JobEntry, Runtime, Effect, sent, exited, Ended,
  collateral_of, called, received, Turn, goes_on, breaks, is_ok, is_normal, entry, with_entry,
  sys_link_exit_message, reason_of, delivered,
}
use mm.Container.Sets.{Address, contains, include, exclude, contains-include, contains-exclude}
use mm.Container.Turns.{
  turn, call_link, on_connect, on_exit, on_disconnect, on_trapped_exit, goes_on_with,
}
use mm.Container.Teardown.{finish}
use mm.Container.Invariant.{IsValid}
use mm.Container.Landing.{amended-IsValid}
use mm.Container.Farewell.{Leaves, finish-Tells}
use mm.Container.Watching.{delivered_all}
use mm.Container.Rounds.{entry-with_entry, attempt_reaches}

-- What becomes of a fork that is told of the end of a peer that it is linked to: while it traps exits, the actor is
-- told, with whether the exit was normal; otherwise it goes on after a normal exit, and ends after any other. In
-- each case the link is gone.
abbrev pub Reacts : Bool → Bool → Address → Address → Container → Turn → Type 0
Reacts true normal_exit fork peer d t = t ≡ goes_on d (exited fork peer normal_exit ∷ [])
Reacts false true fork peer d t = t ≡ goes_on d []
Reacts false false fork peer d t = t ≡ breaks d (collateral_of peer)

unlinked : Address → Address → JobEntry → Container → Container
unlinked fork peer e c = with_entry c fork (record e { linked_to = exclude peer e.linked_to })

trapped_exit-Reacts :
    (rt : Runtime) (c : Container) (s t : Address) (ok : Bool) (e : JobEntry)
    → rt.upgrades ≡ true
    → entry c s ≡ some e
    → contains t e.linked_to ≡ true
    → on_trapped_exit rt c t s (reason_of ok) ≡ goes_on (unlinked s t e c) (exited s t ok ∷ [])
unfolding on_trapped_exit reason_of is_normal unlinked delivered
trapped_exit-Reacts rt c s t true e up h l = rw (h, on_trapped_exit, l, delivered_all rt _ up) refl
trapped_exit-Reacts rt c s t false e up h l = rw (h, on_trapped_exit, l, delivered_all rt _ up) refl

exit-Reacts :
    (c : Container) (s t : Address) (ok : Bool) (e : JobEntry)
    → entry c s ≡ some e
    → contains t e.linked_to ≡ true
    → Reacts false ok s t (unlinked s t e c) (on_exit c t s (reason_of ok))
unfolding on_exit on_disconnect reason_of unlinked
exit-Reacts c s t true e h l = rw (h, on_disconnect) refl
exit-Reacts c s t false e h l = rw (h, on_exit, l) refl

Reacts-either :
    (trap ok : Bool) (s t : Address) (d : Container) (x y : Turn)
    → x ≡ goes_on d (exited s t ok ∷ [])
    → Reacts false ok s t d y
    → Reacts trap ok s t d (if trap then x else y)
Reacts-either true ok s t d x y l m = l
Reacts-either false true s t d x y l m = m
Reacts-either false false s t d x y l m = m

told-Reacts :
    (rt : Runtime) (c : Container) (s t : Address) (ok : Bool) (e : JobEntry)
    → rt.upgrades ≡ true
    → entry c s ≡ some e
    → contains t e.linked_to ≡ true
    → Reacts c.trap_exit ok s t
        (unlinked s t e c)
        (turn rt c (received (sys_link_exit_message ok t s)))
unfolding turn sys_link_exit_message
told-Reacts rt c s t ok e up h l =
    Reacts-either c.trap_exit ok s t _ _ _ (trapped_exit-Reacts rt c s t ok e up h l)
      (exit-Reacts c s t ok e h l)

connected :
    (rt : Runtime) (c : Container) (s t : Address) (e : JobEntry)
    → entry c t ≡ some e
    → turn rt c (received (on_link (connect s t)))
      ≡ goes_on (with_entry c t (record e { linked_to = include s e.linked_to })) []
unfolding turn on_connect
connected rt c s t e h = rw (h, on_connect) refl

link_asked :
    (rt : Runtime) (c : Container) (s t : Address) (e : JobEntry)
    → rt.reaches t ≡ true
    → entry c s ≡ some e
    → contains t e.linked_to ≡ false
    → turn rt c (called (link s t))
      ≡ goes_on
          (with_entry c s (record e { linked_to = include t e.linked_to }))
          (sent t (on_link (connect s t)) ∷ [])
unfolding turn call_link goes_on_with
link_asked rt c s t e near h l =
    rw (h, call_link, l, attempt_reaches rt t _ _ near, goes_on_with) refl

-- A fork that is not linked to the main fork of another actor, whose container is well formed and
-- has an entry for that main fork, links itself to it; it can be reached and takes the request in;
-- that actor ends, its subnet unregistered, with any messages left but a report that its main fork
-- is done; the near container's own senders are there, and the `Exit` comes back to it as it was
-- after the request. Then the end does not panic and sends the fork that `Exit`. A near actor that
-- traps exits is told whether the other ended well; one that does not goes on if it did, and ends as
-- its collateral if it did not. In each case the link is gone.
pub link_round :
    (near far : Runtime) (a b : Container) (s : Address) (ea eb : JobEntry) (ended : Ended)
    (ms : List SysMsg)
    → near.upgrades ≡ true
    → near.reaches b.main ≡ true
    → IsValid b
    → entry a s ≡ some ea
    → contains b.main ea.linked_to ≡ false
    → entry b b.main ≡ some eb
    → Leaves b.main ms
    → (a1 : Container) × (b1 : Container) × (es : List Effect) × (a2 : Container) × (e2 : JobEntry)
      × (turn near a (called (link s b.main))
          ≡ goes_on a1 (sent b.main (on_link (connect s b.main)) ∷ []))
      × (turn far b (received (on_link (connect s b.main))) ≡ goes_on b1 [])
      × (finish ended true b1 ms ≡ some es)
      × Holds (sent s (sys_link_exit_message (is_ok ended) b.main s)) es
      × Reacts a.trap_exit
          (is_ok ended)
          s
          b.main
          a2
          (turn near a1 (received (sys_link_exit_message (is_ok ended) b.main s)))
      × (entry a2 s ≡ some e2)
      × (contains b.main e2.linked_to ≡ false)
unfolding with_entry unlinked
link_round near far a b s ea eb ended ms up reach vb ha free hb leaves =
    let linked : JobEntry = record ea { linked_to = include b.main ea.linked_to } in
    let a1 = with_entry a s linked in
    let new : JobEntry = record eb { linked_to = include s eb.linked_to } in
    let b1 = with_entry b b.main new in
    let (es, done, (tl, tw, tu), answers) =
      finish-Tells ended b1 new ms (amended-IsValid b b.main eb new hb refl vb)
        (entry-with_entry b b.main new) leaves in
    let left : JobEntry = record linked { linked_to = exclude b.main linked.linked_to } in
    (
      a1,
      b1,
      es,
      unlinked s b.main linked a1,
      left,
      link_asked near a s b.main ea reach ha free,
      connected far b s b.main eb hb,
      done,
      tl s (contains-include s s eb.linked_to ∙ (ground arith)),
      told-Reacts near a1 s b.main (is_ok ended) linked up (entry-with_entry a s linked)
          (contains-include b.main b.main ea.linked_to ∙ (ground arith)),
      entry-with_entry a1 s left,
      contains-exclude b.main b.main linked.linked_to ∙ (ground arith),
    )
