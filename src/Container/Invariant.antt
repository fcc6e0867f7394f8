-- ===== src/Container/Invariant.antt =====
-- core/mm1-node/src/runtime/container.rs: the watches that the job entries list are those of the references that
-- are taken.
use mm.Shared.{
  ◌<◌, ◌≡◌, ◌≢◌, sym, ◌∙◌, List, none, some, Bool, true, false, ◌==◌, ◌&&◌, ◌||◌, ℕ_discrete, arith,
  if◌then◌else◌, subst,
}
use mm.Shared.Map.{
  get, insert, remove, Distinct, Distinct-insert, Distinct-remove, get-insert, get-remove,
}
use mm.Container.{JobEntry, TakenWatch, Container, with_entry, end_fork, max_ref}
use mm.Container.Sets.{
  Address, WatchRef, Watches, has, has_ref, has-has_ref, has_ref-has, drop_refs, get-drop_refs,
  Distinct-drop_refs,
}

-- The fork has an entry that lists the watch.
unfoldable pub lists : List (Address × JobEntry) → Address → Address → WatchRef → Bool
lists jobs fork target ref = elim (get ℕ_discrete fork jobs) [
  | none ↦ false
  | some e ↦ has target ref e.watches
]

-- The reference is taken for a watch of the target by the fork.
unfoldable pub is_taken : List (WatchRef × TakenWatch) → Address → Address → WatchRef → Bool
is_taken taken fork target ref = elim (get ℕ_discrete ref taken) [
  | none ↦ false
  | some t ↦ t.owner == fork && t.target == target
]

abbrev pub Agree : List (Address × JobEntry) → List (WatchRef × TakenWatch) → Type 0
Agree jobs taken =
    (fork target : Address) (ref : WatchRef)
    → lists jobs fork target ref ≡ is_taken taken fork target ref

pub record IsValid (c : Container) : Type 0 where
  pub distinct_jobs : Distinct c.job_entries
  pub distinct_taken : Distinct c.taken
  pub agree : Agree c.job_entries c.taken
  pub main_lives : (e : JobEntry) × (get ℕ_discrete c.main c.job_entries ≡ some e)
  pub next_lt : c.next_watch_ref < max_ref

pub lists-insert :
    (jobs : List (Address × JobEntry)) (k fork target : Address) (ref : WatchRef) (e : JobEntry)
    → lists (insert ℕ_discrete k e jobs) fork target ref
      ≡ (if k == fork then has target ref e.watches else lists jobs fork target ref)
unfolding lists
lists-insert jobs k fork target ref e = ground (arith, get-insert ℕ_discrete k fork e jobs)

lists-remove :
    (jobs : List (Address × JobEntry)) (k fork target : Address) (ref : WatchRef)
    → Distinct jobs
    → lists (remove ℕ_discrete k jobs) fork target ref
      ≡ (if k == fork then false else lists jobs fork target ref)
unfolding lists
lists-remove jobs k fork target ref d = ground (arith, get-remove ℕ_discrete k fork jobs d)

pub is_taken-insert :
    (taken : List (WatchRef × TakenWatch)) (owner fork target goal : Address) (new ref : WatchRef)
    → is_taken
        (insert ℕ_discrete new (record { owner = owner; target = goal }) taken)
        fork
        target
        ref
      ≡ (if new == ref then owner == fork && goal == target else is_taken taken fork target ref)
unfolding is_taken
is_taken-insert taken owner fork target goal new ref =
    ground (arith, get-insert ℕ_discrete new ref (record { owner = owner; target = goal }) taken)

is_taken-remove :
    (taken : List (WatchRef × TakenWatch)) (fork target : Address) (old ref : WatchRef)
    → Distinct taken
    → is_taken (remove ℕ_discrete old taken) fork target ref
      ≡ (if old == ref then false else is_taken taken fork target ref)
unfolding is_taken
is_taken-remove taken fork target old ref d = ground (arith, get-remove ℕ_discrete old ref taken d)

is_taken-drop_refs :
    (taken : List (WatchRef × TakenWatch)) (ws : Watches) (fork target : Address) (ref : WatchRef)
    → Distinct taken
    → is_taken (drop_refs ws taken) fork target ref
      ≡ (if has_ref ref ws then false else is_taken taken fork target ref)
unfolding is_taken
is_taken-drop_refs taken ws fork target ref d = ground (arith, get-drop_refs ref ws taken d)

-- A reference is taken once.
is_taken_once :
    (taken : List (WatchRef × TakenWatch)) (f g t u : Address) (ref : WatchRef)
    → is_taken taken f t ref ≡ true
    → is_taken taken g u ref ≡ true
    → (f ≡ g) × (t ≡ u)
unfolding is_taken
is_taken_once taken f g t u ref h k = ground arith

pub lists-entry :
    (jobs : List (Address × JobEntry)) (k target : Address) (ref : WatchRef) (e : JobEntry)
    → get ℕ_discrete k jobs ≡ some e
    → lists jobs k target ref ≡ has target ref e.watches
unfolding lists
lists-entry jobs k target ref e h = rw (h, lists)

pub lists_absent :
    (jobs : List (Address × JobEntry)) (k target : Address) (ref : WatchRef)
    → get ℕ_discrete k jobs ≡ none
    → lists jobs k target ref ≡ false
unfolding lists
lists_absent jobs k target ref h = rw (h, lists)

pub is_taken_absent :
    (taken : List (WatchRef × TakenWatch)) (fork target : Address) (ref : WatchRef)
    → get ℕ_discrete ref taken ≡ none
    → is_taken taken fork target ref ≡ false
unfolding is_taken
is_taken_absent taken fork target ref h = rw (h, is_taken)

-- What drops some watches of one fork, and their references, keeps the agreement.
dropped-has_ref :
    (jobs : List (Address × JobEntry)) (taken : List (WatchRef × TakenWatch)) (k : Address)
    (e : JobEntry) (ws : Watches) (fork target : Address) (ref : WatchRef)
    → Agree jobs taken
    → get ℕ_discrete k jobs ≡ some e
    → ((a : Address) (v : WatchRef) → has a v ws ≡ true → has a v e.watches ≡ true)
    → has_ref ref ws ≡ true
    → lists jobs fork target ref ≡ true
    → (k ≡ fork) × (has target ref ws ≡ true)
dropped-has_ref jobs taken k e ws fork target ref agree h part r l =
    let (a, q) = has_ref-has ref ws r in
    let owned = lists-entry jobs k a ref e h ∙ part a ref q in
    let once =
      is_taken_once taken k fork a target ref (sym (agree k a ref) ∙ owned)
        (sym (agree fork target ref) ∙ l) in
    (once.0, subst (λ t. has t ref ws ≡ true) once.1 q)

pub lives-insert :
    (jobs : List (Address × JobEntry)) (main k : Address) (e : JobEntry)
    → (f : JobEntry) × (get ℕ_discrete main jobs ≡ some f)
    → (f : JobEntry) × (get ℕ_discrete main (insert ℕ_discrete k e jobs) ≡ some f)
lives-insert jobs main k e (f, h) = elim (ℕ_discrete k main) [
  | yes p ↦ (e, ground (arith, get-insert ℕ_discrete k main e jobs))
  | no n ↦ (f, ground (arith, get-insert ℕ_discrete k main e jobs))
]

-- An entry is changed, and lists what the fork listed before.
pub with_entry-IsValid :
    (c : Container) (k : Address) (e : JobEntry)
    → ((target : Address) (ref : WatchRef)
        → lists c.job_entries k target ref ≡ has target ref e.watches)
    → IsValid c
    → IsValid (with_entry c k e)
unfolding with_entry
with_entry-IsValid c k e same v = record {
  distinct_jobs = Distinct-insert ℕ_discrete k e c.job_entries v.distinct_jobs;
  distinct_taken = v.distinct_taken;
  agree = λ f t w. ground (arith, lists-insert c.job_entries k f t w e, v.agree f t w, same t w);
  main_lives = lives-insert c.job_entries c.main k e v.main_lives;
  next_lt = v.next_lt;
}

-- Some watches of a fork are given up with their references.
pub give_up-IsValid :
    (c : Container) (k : Address) (e : JobEntry) (ws : Watches) (left : JobEntry)
    → get ℕ_discrete k c.job_entries ≡ some e
    → ((a : Address) (w : WatchRef) → has a w e.watches ≡ (has a w ws || has a w left.watches))
    → ((a : Address) (w : WatchRef) → has a w ws ≡ true → has a w left.watches ≡ false)
    → IsValid c
    → IsValid (record c {
      job_entries = insert ℕ_discrete k left c.job_entries;
      taken = drop_refs ws c.taken;
    })
give_up-IsValid c k e ws left h split apart v = record {
  distinct_jobs = Distinct-insert ℕ_discrete k left c.job_entries v.distinct_jobs;
  distinct_taken = Distinct-drop_refs ws c.taken v.distinct_taken;
  agree = λ f t w. ground (
    arith,
    lists-insert c.job_entries k f t w left,
    is_taken-drop_refs c.taken ws f t w v.distinct_taken,
    dropped-has_ref c.job_entries c.taken k e ws f t w v.agree h
        (λ a u q. ground (arith, split a u)),
    lists-entry c.job_entries k t w e h,
    has-has_ref t w ws,
    v.agree f t w,
    split t w,
    apart t w,
  );
  main_lives = lives-insert c.job_entries c.main k left v.main_lives;
  next_lt = v.next_lt;
}

pub end_fork-IsValid :
    (normal_exit : Bool) (c : Container) (k : Address) (e : JobEntry)
    → get ℕ_discrete k c.job_entries ≡ some e
    → k ≢ c.main
    → IsValid c
    → IsValid (end_fork normal_exit c k e).0
unfolding end_fork
end_fork-IsValid normal_exit c k e h n v = record {
  distinct_jobs = Distinct-remove ℕ_discrete k c.job_entries v.distinct_jobs;
  distinct_taken = Distinct-drop_refs e.watches c.taken v.distinct_taken;
  agree = λ f t w. ground (
    arith,
    lists-remove c.job_entries k f t w v.distinct_jobs,
    is_taken-drop_refs c.taken e.watches f t w v.distinct_taken,
    dropped-has_ref c.job_entries c.taken k e e.watches f t w v.agree h (λ a u q. q),
    lists-entry c.job_entries k t w e h,
    has-has_ref t w e.watches,
    v.agree f t w,
  );
  main_lives =
      let (m, l) = v.main_lives in
      (m, ground (arith, get-remove ℕ_discrete k c.main c.job_entries v.distinct_jobs));
  next_lt = v.next_lt;
}
