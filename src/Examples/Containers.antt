-- ===== src/Examples/Containers.antt =====
-- Two actors, of which one watches and is linked to the other.
use mm.Shared.{
  Holds, ◌-◌, ◌≡◌, ◌≢◌, ◌↔◌, refl, List, [], ◌∷◌, none, some, true, false, ◌==◌, ◌&&◌,
  if◌then◌else◌, ℕ_discrete, arith, All,
}
use mm.Shared.Map.{get, insert}
use mm.Container.{
  normal, link_down, SysLink, connect, SysWatch, down, kill, on_link, on_watch, SysCall, link,
  JobEntry, TakenWatch, Container, Runtime, Effect, sent, replied, finished, failed, collateral_of,
  called, received, goes_on, breaks, panics, hangs, is_ok, is_normal, entry, sys_link_exit_message,
  sys_watch_down_message, find_vacant, max_ref, succ_ref, attempt,
}
use mm.Container.Sets.{Address, WatchRef, contains, put}
use mm.Container.Turns.{turn, start, call_watch, take_watch, goes_on_with}
use mm.Container.Teardown.{finish}
use mm.Container.Refs.{IsVacant, find_vacant-IsVacant}
use mm.Container.Invariant.{IsValid, lists}
use mm.Container.Runs.{Looping, started, turned, Looping-IsValid, Looping-proper}
use mm.Container.Effects.{Tells}
use mm.Container.Farewell.{Answered, finish-Tells}
use mm.Container.Watching.{Reports, on_down-Reports}
use mm.Container.Rounds.{watch_round}
use mm.Container.Linking.{Reacts, link_round}
use mm.Container.Breaks.{Fatal, turn-breaks_iff}

abbrev rt : Runtime
rt = record { reaches = λ a. true; upgrades = true }

abbrev no_links : JobEntry
no_links = record { linked_to = []; watches = []; watched_by = [] }

-- The container of an actor that has just started.
abbrev fresh : Address → Container
fresh main = record {
  main = main;
  job_entries = (main, no_links) ∷ [];
  taken = [];
  next_watch_ref = 0;
  trap_exit = false;
  spawned_jobs = 0;
}

fresh-Looping : (main : Address) → Looping (fresh main)
unfolding start
fresh-Looping main = started rt main [] refl refl

fresh-IsValid : (main : Address) → IsValid (fresh main)
fresh-IsValid main = Looping-IsValid (fresh-Looping main)

entry-fresh : (main : Address) → entry (fresh main) main ≡ some no_links
unfolding entry get
entry-fresh main = ground arith

is_known : entry (fresh 1) 1 ≢ none
unfolding entry get ℕ_discrete
is_known e = cc

Looping-proper_example :
    (turn rt (fresh 1) (called (SysCall.watch 1 2)) ≢ panics)
    × (turn rt (fresh 1) (called (SysCall.watch 1 2)) ≢ hangs)
Looping-proper_example =
    Looping-proper rt (called (SysCall.watch 1 2)) refl (fresh-Looping 1) (is_known, omega arith)

abbrev one_watch : JobEntry
one_watch = record { linked_to = []; watches = (2, 0) ∷ []; watched_by = [] }

-- The container of an actor that watches another.
abbrev watching : Container
watching = record {
  main = 1;
  job_entries = (1, one_watch) ∷ [];
  taken = (0, record { owner = 1; target = 2 }) ∷ [];
  next_watch_ref = 1;
  trap_exit = false;
  spawned_jobs = 0;
}

watch_turn :
    turn rt (fresh 1) (called (SysCall.watch 1 2))
    ≡ goes_on watching (sent 2 (on_watch (SysWatch.watch 1 2 0)) ∷ replied 0 ∷ [])
unfolding turn call_watch entry get ℕ_discrete find_vacant succ_ref take_watch put goes_on_with
    attempt insert
watch_turn = refl

watching-IsValid : IsValid watching
watching-IsValid = Looping-IsValid (
    turned rt (called (SysCall.watch 1 2)) refl (is_known, omega arith) (fresh-Looping 1)
      watch_turn)

entry-watching : entry watching 1 ≡ some one_watch
unfolding entry get
entry-watching = ground arith

abbrev wrapped : List (WatchRef × TakenWatch)
wrapped =
    (max_ref - 1, record { owner = 1; target = 2 }) ∷ (0, record { owner = 1; target = 3 }) ∷ []

find_vacant-IsVacant_example :
    (x : WatchRef × WatchRef) × (find_vacant 3 (max_ref - 1) wrapped ≡ some x)
    × IsVacant wrapped (max_ref - 1) 3 x
find_vacant-IsVacant_example =
    find_vacant-IsVacant 3 (max_ref - 1) wrapped (omega arith) (omega arith) (omega arith)
      (omega arith)

finish-Tells_example :
    (es : List Effect) × (finish failed true (fresh 1) (on_link (connect 7 1) ∷ []) ≡ some es)
    × Tells (is_ok failed) 1 no_links es
    × All (Answered (is_ok failed) es) (on_link (connect 7 1) ∷ [])
finish-Tells_example =
    finish-Tells failed (fresh 1) no_links (on_link (connect 7 1) ∷ []) (fresh-IsValid 1)
      (entry-fresh 1) ((λ e. cc), tt)

on_down-Reports_example :
    (d : Container) × (es : List Effect) × (turn rt watching (received (on_watch (down 2 1 normal)))
      ≡ goes_on d es)
    × Reports 1 2 (is_normal normal) one_watch es
    × ((f target : Address) (ref : WatchRef)
        → lists d.job_entries f target ref
          ≡ (if 1 == f && 2 == target then false else lists watching.job_entries f target ref))
    × IsValid d
on_down-Reports_example =
    on_down-Reports rt watching 2 1 normal one_watch refl watching-IsValid entry-watching

watch_round_example :
    (ref : WatchRef) × (a1 : Container) × (b1 : Container) × (es : List Effect) × (a2 : Container)
    × (fs : List Effect) × (turn rt (fresh 1) (called (SysCall.watch 1 2))
        ≡ goes_on a1 (sent 2 (on_watch (SysWatch.watch 1 2 ref)) ∷ replied ref ∷ []))
    × (turn rt (fresh 2) (received (on_watch (SysWatch.watch 1 2 ref))) ≡ goes_on b1 [])
    × (finish failed true b1 (kill ∷ []) ≡ some es)
    × Holds (sent 1 (sys_watch_down_message (is_ok failed) 2 1)) es
    × (turn rt a1 (received (sys_watch_down_message (is_ok failed) 2 1)) ≡ goes_on a2 fs)
    × Reports 1 2 (is_ok failed) (record no_links { watches = put 2 ref [] }) fs
    × (lists a2.job_entries 1 2 ref ≡ false)
watch_round_example =
    watch_round rt rt (fresh 1) (fresh 2) 1 no_links no_links failed (kill ∷ []) refl refl
      (fresh-IsValid 1) (fresh-IsValid 2) (entry-fresh 1) (entry-fresh 2) (omega arith)
      ((λ e. cc), tt)

not_linked : contains 2 [] ≡ false
unfolding contains
not_linked = refl

link_round_example :
    (a1 : Container) × (b1 : Container) × (es : List Effect) × (a2 : Container) × (e2 : JobEntry)
    × (turn rt (fresh 1) (called (link 1 2)) ≡ goes_on a1 (sent 2 (on_link (connect 1 2)) ∷ []))
    × (turn rt (fresh 2) (received (on_link (connect 1 2))) ≡ goes_on b1 [])
    × (finish finished true b1 [] ≡ some es)
    × Holds (sent 1 (sys_link_exit_message (is_ok finished) 2 1)) es
    × Reacts false
        (is_ok finished)
        1
        2
        a2
        (turn rt a1 (received (sys_link_exit_message (is_ok finished) 2 1)))
    × (entry a2 1 ≡ some e2)
    × (contains 2 e2.linked_to ≡ false)
link_round_example =
    link_round rt rt (fresh 1) (fresh 2) 1 no_links no_links finished [] refl refl (fresh-IsValid 2)
      (entry-fresh 1) not_linked (entry-fresh 2) tt

turn-breaks_iff_example :
    ((d : Container) × (turn rt (fresh 1) (received (on_link (SysLink.exit 2 1 link_down)))
        ≡ breaks d (collateral_of 2)))
    ↔ Fatal (fresh 1) (received (on_link (SysLink.exit 2 1 link_down))) (collateral_of 2)
turn-breaks_iff_example =
    turn-breaks_iff rt (fresh 1) (received (on_link (SysLink.exit 2 1 link_down))) (collateral_of 2)
