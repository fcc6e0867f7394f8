-- ===== src/Container/Farewell.antt =====
-- core/mm1-node/src/runtime/container.rs: what an actor that ends tells the others.
use mm.Shared.{
  Holds, Holds-left, Holds-right, ◌≡◌, ◌≢◌, refl, sym, ◌∙◌, ap, subst, List, [], ◌∷◌, ◌++◌, some,
  Bool, true, All, ℕ_discrete, arith, Option-cases, inl, inr,
}
use mm.Shared.Map.{get-remove, Distinct, Distinct-remove}
use mm.Container.{
  SysLink, connect, disconnect, SysWatch, down, SysMsg, kill, on_link, on_watch, fork_done,
  Container, JobEntry, Effect, sent, Ended, is_ok, sys_link_exit_message, sys_watch_down_message,
  entry, end_fork,
}
use mm.Container.Sets.{Address}
use mm.Container.Teardown.{drain_fork, drain_one, drain, finish}
use mm.Container.Invariant.{IsValid}
use mm.Container.Effects.{Tells, end_fork-Tells, Tells-right}

-- The messages that are left do not tell of the end of the main fork.
abbrev pub Leaves : Address → List SysMsg → Type 0
Leaves main = All (λ m. m ≢ fork_done main)

-- The main fork is as it was.
abbrev Spares : Container → Container → Type 0
Spares c d = (d.main ≡ c.main) × (entry d c.main ≡ entry c c.main) × Distinct d.job_entries

end_fork-Spares :
    (normal_exit : Bool) (c : Container) (k : Address) (e : JobEntry)
    → k ≢ c.main
    → Distinct c.job_entries
    → Spares c (end_fork normal_exit c k e).0
unfolding end_fork entry
end_fork-Spares normal_exit c k e n d = (
  refl,
  ground (arith, get-remove ℕ_discrete k c.main c.job_entries d),
  Distinct-remove ℕ_discrete k c.job_entries d,
)

drain_fork-Spares :
    (normal_exit : Bool) (c : Container) (k : Address)
    → k ≢ c.main
    → Distinct c.job_entries
    → Spares c (drain_fork normal_exit c k).0
unfolding drain_fork
drain_fork-Spares normal_exit c k n d = elim (Option-cases (entry c k)) [
  | inl gone ↦ rw (gone, drain_fork) (refl, refl, d)
  | inr (e, h) ↦ rw (h, drain_fork) (end_fork-Spares normal_exit c k e n d)
]

drain_one-Spares :
    (normal_exit : Bool) (c : Container) (m : SysMsg)
    → m ≢ fork_done c.main
    → Distinct c.job_entries
    → Spares c (drain_one normal_exit c m).0
unfolding drain_one
drain_one-Spares b c kill n d = (refl, refl, d)
drain_one-Spares b c (fork_done f) n d =
    drain_fork-Spares b c f (λ e. n (ap (λ a. fork_done a) e)) d
drain_one-Spares b c (on_link (connect s r)) n d = (refl, refl, d)
drain_one-Spares b c (on_link (disconnect s r)) n d = (refl, refl, d)
drain_one-Spares b c (on_link (SysLink.exit s r reason)) n d = (refl, refl, d)
drain_one-Spares b c (on_watch (SysWatch.watch s r ref)) n d = (refl, refl, d)
drain_one-Spares b c (on_watch (SysWatch.unwatch s r ref)) n d = (refl, refl, d)
drain_one-Spares b c (on_watch (down s r reason)) n d = (refl, refl, d)

drain-Spares :
    (normal_exit : Bool) (c : Container) (ms : List SysMsg)
    → Leaves c.main ms
    → Distinct c.job_entries
    → Spares c (drain normal_exit c ms).0
unfolding drain
drain-Spares b c [] l d = (refl, refl, d)
drain-Spares b c (m ∷ ms) l d =
    let (p, q, d') = drain_one-Spares b c m l.0 d in
    let c' = (drain_one b c m).0 in
    let (p', q', d'') = drain-Spares b c' ms (subst (λ a. Leaves a ms) (sym p) l.1) d' in
    (p' ∙ p, subst (λ a. entry (drain b c' ms).0 a ≡ entry c' a) p q' ∙ q, d'')

-- The answer to a message that asks for one.
abbrev pub Answered : Bool → List Effect → SysMsg → Type 0
Answered normal_exit es (on_link (connect s r)) =
    Holds (sent s (sys_link_exit_message normal_exit r s)) es
Answered normal_exit es (on_watch (SysWatch.watch s r ref)) =
    Holds (sent s (sys_watch_down_message normal_exit r s)) es
Answered normal_exit es _ = Unit {0}

Answered-left :
    (normal_exit : Bool) (es more : List Effect) (m : SysMsg)
    → Answered normal_exit es m
    → Answered normal_exit (es ++ more) m
Answered-left b es more kill h = h
Answered-left b es more (fork_done f) h = h
Answered-left b es more (on_link (connect s r)) h = Holds-left _ es more h
Answered-left b es more (on_link (disconnect s r)) h = h
Answered-left b es more (on_link (SysLink.exit s r reason)) h = h
Answered-left b es more (on_watch (SysWatch.watch s r ref)) h = Holds-left _ es more h
Answered-left b es more (on_watch (SysWatch.unwatch s r ref)) h = h
Answered-left b es more (on_watch (down s r reason)) h = h

Answered-right :
    (normal_exit : Bool) (before es : List Effect) (m : SysMsg)
    → Answered normal_exit es m
    → Answered normal_exit (before ++ es) m
Answered-right b before es kill h = h
Answered-right b before es (fork_done f) h = h
Answered-right b before es (on_link (connect s r)) h = Holds-right _ before es h
Answered-right b before es (on_link (disconnect s r)) h = h
Answered-right b before es (on_link (SysLink.exit s r reason)) h = h
Answered-right b before es (on_watch (SysWatch.watch s r ref)) h = Holds-right _ before es h
Answered-right b before es (on_watch (SysWatch.unwatch s r ref)) h = h
Answered-right b before es (on_watch (down s r reason)) h = h

drain_one-Answered :
    (normal_exit : Bool) (c : Container) (m : SysMsg)
    → Answered normal_exit (drain_one normal_exit c m).1 m
unfolding drain_one
drain_one-Answered b c kill = tt
drain_one-Answered b c (fork_done f) = tt
drain_one-Answered b c (on_link (connect s r)) = inl refl
drain_one-Answered b c (on_link (disconnect s r)) = tt
drain_one-Answered b c (on_link (SysLink.exit s r reason)) = tt
drain_one-Answered b c (on_watch (SysWatch.watch s r ref)) = inl refl
drain_one-Answered b c (on_watch (SysWatch.unwatch s r ref)) = tt
drain_one-Answered b c (on_watch (down s r reason)) = tt

AllAnswered-right :
    (normal_exit : Bool) (before es : List Effect) (ms : List SysMsg)
    → All (Answered normal_exit es) ms
    → All (Answered normal_exit (before ++ es)) ms
AllAnswered-right b before es [] h = tt
AllAnswered-right b before es (m ∷ ms) h =
    (Answered-right b before es m h.0, AllAnswered-right b before es ms h.1)

AllAnswered-left :
    (normal_exit : Bool) (es more : List Effect) (ms : List SysMsg)
    → All (Answered normal_exit es) ms
    → All (Answered normal_exit (es ++ more)) ms
AllAnswered-left b es more [] h = tt
AllAnswered-left b es more (m ∷ ms) h =
    (Answered-left b es more m h.0, AllAnswered-left b es more ms h.1)

drain-Answered :
    (normal_exit : Bool) (c : Container) (ms : List SysMsg)
    → All (Answered normal_exit (drain normal_exit c ms).1) ms
unfolding drain
drain-Answered b c [] = tt
drain-Answered b c (m ∷ ms) =
    let es = (drain_one b c m).1 in
    let rest = drain b (drain_one b c m).0 ms in
    (
      Answered-left b es rest.1 m (drain_one-Answered b c m),
      AllAnswered-right b es rest.1 ms (drain-Answered b (drain_one b c m).0 ms),
    )

-- A well-formed actor that ends with its subnet unregistered, and whose main fork is not reported to
-- have ended, does not panic: with the reason that its result gives, every peer linked to its main fork
-- gets an `Exit`, every watcher of it a `Down` and everyone it watches an `Unwatch`, and each `Connect`
-- and `Watch` that was left in the mailbox is answered by an `Exit` or a `Down` from the fork that it
-- was for.
pub finish-Tells :
    (ended : Ended) (c : Container) (e : JobEntry) (ms : List SysMsg)
    → IsValid c
    → entry c c.main ≡ some e
    → Leaves c.main ms
    → (es : List Effect) × (finish ended true c ms ≡ some es)
      × Tells (is_ok ended) c.main e es
      × All (Answered (is_ok ended) es) ms
unfolding finish
finish-Tells ended c e ms v h l =
    let (p, q, d) = drain-Spares (is_ok ended) c ms l v.distinct_jobs in
    let (c', es) = drain (is_ok ended) c ms in
    let lives : entry c' c'.main ≡ some e = subst (λ a. entry c' a ≡ some e) (sym p) (q ∙ h) in
    let last = (end_fork (is_ok ended) c' c'.main e).1 in
    (
      es ++ last,
      rw (lives, finish) refl,
      Tells-right (is_ok ended) c.main e es last
          (subst (λ a. Tells (is_ok ended) a e last) p (end_fork-Tells (is_ok ended) c' c'.main e)),
      AllAnswered-left (is_ok ended) es last ms (drain-Answered (is_ok ended) c ms),
    )
