-- ===== src/Container/Effects.antt =====
-- core/mm1-node/src/runtime/container.rs: which messages are among those that a container sends.
use mm.Shared.{
  Holds, Holds-left, Holds-right, ◌≡◌, ◌⊎◌, inl, inr, List, [], ◌∷◌, ◌++◌, Option, none, some, Bool,
  true, ℕ_discrete, map, arith, ap, sym,
}
use mm.Container.{
  on_watch, SysWatch, Effect, sent, JobEntry, Container, end_fork, sys_link_exit_message,
  sys_watch_down_message, unwatch_targets,
}
use mm.Container.Sets.{Address, WatchRef, Watches, contains, has, peers_of, peers_after}

Holds-map :
    {B : Type 0} (f : Address → B) (a : Address) (r : List Address)
    → contains a r ≡ true
    → Holds (f a) (map f r)
unfolding contains
Holds-map f a [] h = absurd (cc)
Holds-map f a (b ∷ r) h = elim (ℕ_discrete b a) [
  | yes e ↦ inl (ap f (sym e))
  | no n ↦ inr (Holds-map f a r (ground arith))
]

Holds-map_watches :
    {B : Type 0} (f : Address × WatchRef → B) (a : Address) (w : WatchRef) (r : Watches)
    → has a w r ≡ true
    → Holds (f (a, w)) (map f r)
unfolding has
Holds-map_watches f a w [] h = absurd (cc)
Holds-map_watches f a w ((b, v) ∷ r) h = elim (ℕ_discrete b a) [
  | yes e ↦ elim (ℕ_discrete v w) [
    | yes d ↦ inl (ground arith)
    | no n ↦ inr (Holds-map_watches f a w r (ground arith))
  ]
  | no n ↦ inr (Holds-map_watches f a w r (ground arith))
]

contains-peers_after :
    (prev : Option Address) (a : Address) (w : WatchRef) (ws : Watches)
    → has a w ws ≡ true
    → (prev ≡ some a) ⊎ (contains a (peers_after prev ws) ≡ true)
unfolding has contains peers_after
contains-peers_after prev a w [] h = absurd (cc)
contains-peers_after none a w ((p, v) ∷ r) h =
    inr (ground (arith, contains-peers_after (some p) a w r))
contains-peers_after (some q) a w ((p, v) ∷ r) h =
    ground (arith, contains-peers_after (some p) a w r)

-- Every watcher is among the peers.
contains-peers_of :
    (a : Address) (w : WatchRef) (ws : Watches)
    → has a w ws ≡ true
    → contains a (peers_of ws) ≡ true
unfolding peers_of
contains-peers_of a w ws h = elim (contains-peers_after none a w ws h) [
  | inl e ↦ absurd (cc)
  | inr k ↦ k
]

-- The end of a fork is told to its peers, its watchers and those that it watches.
abbrev pub Tells : Bool → Address → JobEntry → List Effect → Type 0
Tells normal_exit fork e es =
    ((peer : Address)
      → contains peer e.linked_to ≡ true
      → Holds (sent peer (sys_link_exit_message normal_exit fork peer)) es)
    × ((peer : Address) (ref : WatchRef)
        → has peer ref e.watched_by ≡ true
        → Holds (sent peer (sys_watch_down_message normal_exit fork peer)) es)
    × ((target : Address) (ref : WatchRef)
        → has target ref e.watches ≡ true
        → Holds (sent target (on_watch (SysWatch.unwatch fork target ref))) es)

pub end_fork-Tells :
    (normal_exit : Bool) (c : Container) (fork : Address) (e : JobEntry)
    → Tells normal_exit fork e (end_fork normal_exit c fork e).1
unfolding end_fork unwatch_targets
end_fork-Tells normal_exit c fork e = (
  (λ p h. Holds-right _ (unwatch_targets fork e.watches) _ (
      Holds-left _ _ _ (
        Holds-map (λ peer. sent peer (sys_link_exit_message normal_exit fork peer)) p e.linked_to
          h))),
  (λ p w h. Holds-right _ (unwatch_targets fork e.watches) _ (
      Holds-right _
        (map (λ peer. sent peer (sys_link_exit_message normal_exit fork peer)) e.linked_to) _
        (Holds-map (λ peer. sent peer (sys_watch_down_message normal_exit fork peer)) p
          (peers_of e.watched_by) (contains-peers_of p w e.watched_by h)))),
  (λ t w h. Holds-left _ _ _ (
      Holds-map_watches (λ x. sent x.0 (on_watch (SysWatch.unwatch fork x.0 x.1))) t w e.watches
        h)),
)

pub Tells-right :
    (normal_exit : Bool) (fork : Address) (e : JobEntry) (before es : List Effect)
    → Tells normal_exit fork e es
    → Tells normal_exit fork e (before ++ es)
Tells-right normal_exit fork e before es (l, w, u) = (
  (λ p h. Holds-right _ before es (l p h)),
  (λ p r h. Holds-right _ before es (w p r h)),
  (λ t r h. Holds-right _ before es (u t r h)),
)
