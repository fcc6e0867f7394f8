-- ===== src/Container/Landing/Calls.antt =====
-- core/mm1-node/src/runtime/container.rs: what a call of a fork does to a well-formed container.
use mm.Shared.{
  suc, ◌-◌, ◌||◌, ◌<◌, ◌≡◌, ◌≢◌, refl, sym, ◌∙◌, List, [], ◌∷◌, Bool-cases, none, some, true, false,
  ℕ_discrete, arith, Option-cases, inl, inr, length,
}
use mm.Shared.Map.{get}
use mm.Container.{
  SysCall, trap_exit, link, unlink, fork_added, spawn, JobEntry, TakenWatch, Container, Runtime,
  replied, entry, max_ref,
}
use mm.Container.Turns.{on_call, on_fork_added, call_link, call_unlink, call_watch, call_unwatch}
use mm.Container.Refs.{find_vacant-IsVacant, succ_ref-lt}
use mm.Container.Sets.{Address, WatchRef, Watches, contains, has, has-drop, drop_refs, drop}
use mm.Container.Invariant.{IsValid, is_taken, lists-entry, lists_absent, give_up-IsValid}
use mm.Container.Landing.{
  Calls, Lands, amended-IsValid, added-IsValid, goes_on_with-Lands, take_watch-IsValid, known,
}

on_fork_added-Lands :
    (c : Container) (k : Address) → entry c k ≡ none → IsValid c → Lands (on_fork_added c k)
unfolding on_fork_added
on_fork_added-Lands c k h v = rw (h, on_fork_added) (added-IsValid c k h v)

call_link-Lands :
    (rt : Runtime) (c : Container) (s r : Address)
    → rt.upgrades ≡ true
    → entry c s ≢ none
    → IsValid c
    → Lands (call_link rt c s r)
unfolding call_link
call_link-Lands rt c s r up n v =
    let (e, h) = known (entry c s) n in
    elim (Bool-cases (contains r e.linked_to)) [
      | inl old ↦ rw (h, old, call_link) v
      | inr new ↦
          rw (h, new, call_link)
            (goes_on_with-Lands rt _ r _ _ [] up (amended-IsValid c s e _ h refl v))
    ]

call_unlink-Lands :
    (c : Container) (s r : Address) → entry c s ≢ none → IsValid c → Lands (call_unlink c s r)
unfolding call_unlink
call_unlink-Lands c s r n v =
    let (e, h) = known (entry c s) n in
    elim (Bool-cases (contains r e.linked_to)) [
      | inl old ↦ rw (h, old, call_unlink) (amended-IsValid c s e _ h refl v)
      | inr new ↦ rw (h, new, call_unlink) v
    ]

call_watch-Lands :
    (rt : Runtime) (c : Container) (s r : Address)
    → rt.upgrades ≡ true
    → entry c s ≢ none
    → length c.taken < max_ref - 1
    → IsValid c
    → Lands (call_watch rt c s r)
unfolding call_watch
call_watch-Lands rt c s r up n room v =
    let (e, h) = known (entry c s) n in
    let ((ref, next), found, (free, lt, is, near)) =
      find_vacant-IsVacant (suc (length c.taken)) c.next_watch_ref c.taken v.distinct_taken
        v.next_lt (omega arith) (omega arith) in
    rw (h, found, call_watch)
      (goes_on_with-Lands rt _ r _ _ (replied ref ∷ []) up
        (take_watch-IsValid c s r e ref next h free (omega (arith, succ_ref-lt ref)) v))

is_taken_here :
    (taken : List (WatchRef × TakenWatch)) (ref : WatchRef) (t : TakenWatch)
    → get ℕ_discrete ref taken ≡ some t
    → is_taken taken t.owner t.target ref ≡ true
unfolding is_taken
is_taken_here taken ref t h = rw (h, is_taken) (ground arith)

differs : false ≢ true
differs e = cc

-- The owner of a reference that is taken has an entry, which lists the watch.
pub owner_lists :
    (c : Container) (ref : WatchRef) (t : TakenWatch)
    → IsValid c
    → get ℕ_discrete ref c.taken ≡ some t
    → (e : JobEntry) × (entry c t.owner ≡ some e) × (has t.target ref e.watches ≡ true)
unfolding entry
owner_lists c ref t v h =
    let listed = v.agree t.owner t.target ref ∙ is_taken_here c.taken ref t h in
    elim (Option-cases (get ℕ_discrete t.owner c.job_entries)) [
      | inl gone ↦
          absurd (differs (sym (lists_absent c.job_entries t.owner t.target ref gone) ∙ listed))
      | inr (e, q) ↦ (e, q, sym (lists-entry c.job_entries t.owner t.target ref e q) ∙ listed)
    ]

single_drop :
    (target : Address) (ref : WatchRef) (ws : Watches) (a : Address) (w : WatchRef)
    → has target ref ws ≡ true
    → has a w ws ≡ (has a w ((target, ref) ∷ []) || has a w (drop target ref ws))
unfolding has
single_drop target ref ws a w h = ground (arith, has-drop target ref a w ws)

single_apart :
    (target : Address) (ref : WatchRef) (ws : Watches) (a : Address) (w : WatchRef)
    → has a w ((target, ref) ∷ []) ≡ true
    → has a w (drop target ref ws) ≡ false
unfolding has
single_apart target ref ws a w h = ground (arith, has-drop target ref a w ws)

call_unwatch-Lands : (c : Container) (ref : WatchRef) → IsValid c → Lands (call_unwatch c ref)
unfolding call_unwatch drop_refs entry
call_unwatch-Lands c ref v = elim (Option-cases (get ℕ_discrete ref c.taken)) [
  | inl free ↦ rw (free, call_unwatch) v
  | inr (t, h) ↦
      let (e, q, listed) = owner_lists c ref t v h in
      let left : JobEntry = record e { watches = drop t.target ref e.watches } in
      rw (h, q, call_unwatch)
        (give_up-IsValid c t.owner e ((t.target, ref) ∷ []) left q
          (λ a w. single_drop t.target ref e.watches a w listed)
          (λ a w. single_apart t.target ref e.watches a w) v)
]

-- A call that its fork may make neither panics nor hangs, and leaves a well-formed container.
pub on_call-Lands :
    (rt : Runtime) (c : Container) (call : SysCall)
    → rt.upgrades ≡ true
    → Calls c call
    → IsValid c
    → Lands (on_call rt c call)
unfolding on_call
on_call-Lands rt c (SysCall.exit true) up k v = v
on_call-Lands rt c (SysCall.exit false) up k v = v
on_call-Lands rt c (trap_exit b) up k v = record {
  distinct_jobs = v.distinct_jobs;
  distinct_taken = v.distinct_taken;
  agree = v.agree;
  main_lives = v.main_lives;
  next_lt = v.next_lt;
}
on_call-Lands rt c (link s r) up k v = call_link-Lands rt c s r up k v
on_call-Lands rt c (unlink s r) up k v = call_unlink-Lands c s r k v
on_call-Lands rt c (SysCall.watch s r) up k v = call_watch-Lands rt c s r up k.0 k.1 v
on_call-Lands rt c (SysCall.unwatch s ref) up k v = call_unwatch-Lands c ref v
on_call-Lands rt c (fork_added f) up k v = on_fork_added-Lands c f k v
on_call-Lands rt c spawn up k v = record {
  distinct_jobs = v.distinct_jobs;
  distinct_taken = v.distinct_taken;
  agree = v.agree;
  main_lives = v.main_lives;
  next_lt = v.next_lt;
}
