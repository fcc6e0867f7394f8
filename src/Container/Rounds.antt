-- ===== src/Container/Rounds.antt =====
-- core/mm1-node/src/runtime/container.rs: two containers that exchange their messages, from a watch to its `Down`.
use mm.Shared.{
  Holds, ◌≡◌, refl, ◌∙◌, subst, suc, ◌<◌, ◌-◌, List, [], ◌∷◌, some, Bool, true, false, ℕ_discrete,
  arith, length,
}
use mm.Shared.Map.{get-insert}
use mm.Container.{
  SysWatch, SysMsg, on_watch, SysCall, Container, JobEntry, Runtime, Effect, sent, replied, Ended,
  called, received, goes_on, is_ok, is_normal, entry, with_entry, sys_watch_down_message, reason_of,
  max_ref, attempt,
}
use mm.Container.Sets.{Address, WatchRef, put, has-put}
use mm.Container.Turns.{turn, on_watched, call_watch, take_watch, goes_on_with}
use mm.Container.Teardown.{finish}
use mm.Container.Refs.{find_vacant-IsVacant, succ_ref-lt}
use mm.Container.Invariant.{IsValid, lists}
use mm.Container.Landing.{amended-IsValid, take_watch-IsValid}
use mm.Container.Farewell.{Leaves, finish-Tells}
use mm.Container.Watching.{Reports, on_down-Reports}

pub entry-with_entry :
    (c : Container) (k : Address) (e : JobEntry) → entry (with_entry c k e) k ≡ some e
unfolding entry with_entry
entry-with_entry c k e = ground (arith, get-insert ℕ_discrete k k e c.job_entries)

pub attempt_reaches :
    (rt : Runtime) (peer : Address) (m f : SysMsg)
    → rt.reaches peer ≡ true
    → attempt rt peer m f ≡ some (sent peer m ∷ [])
unfolding attempt
attempt_reaches rt peer m f h = ground arith

pub is_normal-reason_of : (b : Bool) → is_normal (reason_of b) ≡ b
unfolding is_normal reason_of
is_normal-reason_of true = refl
is_normal-reason_of false = refl

-- What a fork that asks for a watch comes to, where the peer can be reached.
Watching : Runtime → Container → Address → Address → JobEntry → WatchRef × Container → Type 0
Watching rt c s t e x =
    (turn rt c (called (SysCall.watch s t))
      ≡ goes_on x.1 (sent t (on_watch (SysWatch.watch s t x.0)) ∷ replied x.0 ∷ []))
    × IsValid x.1
    × (entry x.1 s ≡ some (record e { watches = put t x.0 e.watches }))

watch_asked :
    (rt : Runtime) (c : Container) (s t : Address) (e : JobEntry)
    → rt.reaches t ≡ true
    → IsValid c
    → entry c s ≡ some e
    → length c.taken < max_ref - 1
    → (x : WatchRef × Container) × Watching rt c s t e x
unfolding Watching turn call_watch take_watch goes_on_with with_entry entry put
watch_asked rt c s t e near v h room =
    let ((ref, next), found, (free, lt, is, steps)) =
      find_vacant-IsVacant (suc (length c.taken)) c.next_watch_ref c.taken v.distinct_taken
        v.next_lt (omega arith) (omega arith) in
    let new : JobEntry = record e { watches = put t ref e.watches } in
    (
      (ref, take_watch c s t e ref next),
      (
        rw (h, found, call_watch, attempt_reaches rt t _ _ near, goes_on_with) refl,
        take_watch-IsValid c s t e ref next h free (omega (arith, succ_ref-lt ref)) v,
        entry-with_entry c s new,
      ),
    )

watched :
    (rt : Runtime) (c : Container) (s t : Address) (ref : WatchRef) (e : JobEntry)
    → entry c t ≡ some e
    → turn rt c (received (on_watch (SysWatch.watch s t ref)))
      ≡ goes_on (with_entry c t (record e { watched_by = put s ref e.watched_by })) []
unfolding turn on_watched
watched rt c s t ref e h = rw (h, on_watched) refl

-- A fork of a well-formed container with fewer than 2^64 - 1 watch references taken asks to watch
-- the main fork of another well-formed container, which can be reached and takes the request in;
-- that actor ends, its subnet unregistered, with any messages left but a report that its main fork
-- is done; the near container's own senders are there, and the `Down` comes back to it as it was
-- after the request. Then the end does not panic and sends the fork that `Down`; the actor is told
-- of the reference that the fork was answered, and of those under which the fork watched that main
-- fork before, each with whether the actor ended well, and of no other; the watch is gone.
pub watch_round :
    (near far : Runtime) (a b : Container) (s : Address) (ea eb : JobEntry) (ended : Ended)
    (ms : List SysMsg)
    → near.upgrades ≡ true
    → near.reaches b.main ≡ true
    → IsValid a
    → IsValid b
    → entry a s ≡ some ea
    → entry b b.main ≡ some eb
    → length a.taken < max_ref - 1
    → Leaves b.main ms
    → (ref : WatchRef) × (a1 : Container) × (b1 : Container) × (es : List Effect) × (a2 : Container)
      × (fs : List Effect) × (turn near a (called (SysCall.watch s b.main))
          ≡ goes_on a1 (sent b.main (on_watch (SysWatch.watch s b.main ref)) ∷ replied ref ∷ []))
      × (turn far b (received (on_watch (SysWatch.watch s b.main ref))) ≡ goes_on b1 [])
      × (finish ended true b1 ms ≡ some es)
      × Holds (sent s (sys_watch_down_message (is_ok ended) b.main s)) es
      × (turn near a1 (received (sys_watch_down_message (is_ok ended) b.main s)) ≡ goes_on a2 fs)
      × Reports s b.main (is_ok ended) (record ea { watches = put b.main ref ea.watches }) fs
      × (lists a2.job_entries s b.main ref ≡ false)
unfolding Watching sys_watch_down_message with_entry
watch_round near far a b s ea eb ended ms up reach va vb ha hb room leaves =
    let ((ref, a1), (asked, v1, h1)) = watch_asked near a s b.main ea reach va ha room in
    let asking : JobEntry = record ea { watches = put b.main ref ea.watches } in
    let new : JobEntry = record eb { watched_by = put s ref eb.watched_by } in
    let b1 = with_entry b b.main new in
    let (es, done, (tl, tw, tu), answers) =
      finish-Tells ended b1 new ms (amended-IsValid b b.main eb new hb refl vb)
        (entry-with_entry b b.main new) leaves in
    let (a2, fs, eq, (told, only), gone, v2) =
      on_down-Reports near a1 b.main s (reason_of (is_ok ended)) asking up v1 h1 in
    (
      ref,
      a1,
      b1,
      es,
      a2,
      fs,
      asked,
      watched far b s b.main ref eb hb,
      done,
      tw s ref (has-put s ref s ref eb.watched_by ∙ (ground arith)),
      eq,
      subst (λ n. Reports s b.main n asking fs) (is_normal-reason_of (is_ok ended)) (told, only),
      gone s b.main ref ∙ (ground arith),
    )
