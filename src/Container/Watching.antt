-- ===== src/Container/Watching.antt =====
-- core/mm1-node/src/runtime/container.rs: from a watch to its `Down`.
use mm.Shared.{
  Holds, ◌≡◌, ap, subst, List, [], ◌∷◌, some, Bool, true, false, ◌==◌, ◌&&◌, All, ℕ_discrete, map,
  arith, inl, inr, if◌then◌else◌, ==-ne, ==-eq,
}
use mm.Shared.Map.{insert}
use mm.Container.{
  ExitReason, down, on_watch, Container, JobEntry, Runtime, Effect, went_down, received, goes_on,
  is_normal, entry, delivered,
}
use mm.Container.Sets.{
  Address, WatchRef, Watches, has, of_peer, of_others, has-of_others, drop_refs,
}
use mm.Container.Turns.{turn, on_down}
use mm.Container.Invariant.{IsValid, lists, lists-entry, lists-insert}
use mm.Container.Landing.{Lands}
use mm.Container.Landing.Messages.{on_down-Lands}

pub delivered_all : (rt : Runtime) (es : List Effect) → rt.upgrades ≡ true → delivered rt es ≡ es
unfolding delivered
delivered_all rt es up = ground arith

-- One `Down` to the actor for each watch of the peer by the fork, and nothing else.
abbrev pub Reports : Address → Address → Bool → JobEntry → List Effect → Type 0
Reports fork peer normal_exit e es =
    ((ref : WatchRef)
      → has peer ref e.watches ≡ true
      → Holds (went_down fork peer ref normal_exit) es)
    × All
        (λ x.
          (ref : WatchRef) × (x ≡ went_down fork peer ref normal_exit)
          × (has peer ref e.watches ≡ true))
        es

reported :
    (fork peer : Address) (normal_exit : Bool) (ws : Watches) (ref : WatchRef)
    → has peer ref ws ≡ true
    → Holds
        (went_down fork peer ref normal_exit)
        (map (λ x. went_down fork x.0 x.1 normal_exit) (of_peer peer ws))
unfolding has
reported fork peer b [] ref h = absurd (cc)
reported fork peer b ((p, w) ∷ r) ref h = elim (ℕ_discrete p peer) [
  | no n ↦ rw (==-ne p peer n) (reported fork peer b r ref (ground arith))
  | yes q ↦ rw (==-eq p peer q) (elim (ℕ_discrete w ref) [
    | yes s ↦ inl (ground arith)
    | no n ↦ inr (reported fork peer b r ref (ground arith))
  ])
]

only_reported :
    (fork peer : Address) (b : Bool) (whole ws : Watches)
    → ((ref : WatchRef) → has peer ref ws ≡ true → has peer ref whole ≡ true)
    → All
        (λ x. (ref : WatchRef) × (x ≡ went_down fork peer ref b) × (has peer ref whole ≡ true))
        (map (λ x. went_down fork x.0 x.1 b) (of_peer peer ws))
unfolding has
only_reported fork peer b whole [] sub = tt
only_reported fork peer b whole ((p, w) ∷ r) sub =
    let rest = only_reported fork peer b whole r (λ ref h. sub ref (ground arith)) in
    elim (ℕ_discrete p peer) [
      | no n ↦ rw (==-ne p peer n) rest
      | yes q ↦ rw (==-eq p peer q) ((w, ground arith, sub w (ground arith)), rest)
    ]

-- What a `Down` leaves of a container.
abbrev after_down : Container → Address → Address → JobEntry → Container
after_down c s r e = record c {
  job_entries =
      insert ℕ_discrete r
        (record e { watches = of_others s e.watches; watched_by = of_others s e.watched_by })
        c.job_entries;
  taken = drop_refs (of_peer s e.watches) c.taken;
}

on_down_lem :
    (rt : Runtime) (c : Container) (s r : Address) (reason : ExitReason) (e : JobEntry)
    → rt.upgrades ≡ true
    → entry c r ≡ some e
    → on_down rt c s r reason
      ≡ goes_on
          (after_down c s r e)
          (map (λ x. went_down r x.0 x.1 (is_normal reason)) (of_peer s e.watches))
unfolding on_down
on_down_lem rt c s r reason e up h =
    rw (h, on_down) (ap (λ es. goes_on (after_down c s r e) es) (delivered_all rt _ up))

lists-after_down :
    (c : Container) (s r : Address) (e : JobEntry) (fork target : Address) (ref : WatchRef)
    → entry c r ≡ some e
    → lists (after_down c s r e).job_entries fork target ref
      ≡ (if r == fork && s == target then false else lists c.job_entries fork target ref)
unfolding entry
lists-after_down c s r e f t w h = ground (
  arith,
  lists-insert c.job_entries r f t w
      (record e { watches = of_others s e.watches; watched_by = of_others s e.watched_by }),
  has-of_others s t w e.watches,
  lists-entry c.job_entries r t w e h,
)

-- When a `Down` of a peer comes to a fork of a well-formed container whose own senders are there, the actor is told
-- of exactly the watches of the peer that the fork has, with whether the peer's exit was normal. These
-- watches are gone then, all the others stay, and the container is well formed.
pub on_down-Reports :
    (rt : Runtime) (c : Container) (peer fork : Address) (reason : ExitReason) (e : JobEntry)
    → rt.upgrades ≡ true
    → IsValid c
    → entry c fork ≡ some e
    → (d : Container) × (es : List Effect) × (turn rt c
          (received (on_watch (down peer fork reason)))
        ≡ goes_on d es)
      × Reports fork peer (is_normal reason) e es
      × ((f target : Address) (ref : WatchRef)
          → lists d.job_entries f target ref
            ≡ (if fork == f && peer == target then false else lists c.job_entries f target ref))
      × IsValid d
unfolding turn
on_down-Reports rt c peer fork reason e up v h =
    let eq = on_down_lem rt c peer fork reason e up h in
    (
      after_down c peer fork e,
      _,
      eq,
      (
        reported fork peer (is_normal reason) e.watches,
        only_reported fork peer (is_normal reason) e.watches e.watches (λ ref k. k),
      ),
      (λ f t w. lists-after_down c peer fork e f t w h),
      subst Lands eq (on_down-Lands rt c peer fork reason v),
    )
