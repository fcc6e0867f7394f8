-- ===== src/Container.antt =====
-- core/mm1-node/src/runtime/container.rs with the messages of sys_msg.rs and the calls of sys_call.rs: the
-- loop that serves an actor and its forks. What the `select!` picks is the next event; what the container sends
-- is a result of the turn. `Runtime` says which peers `sys_send` reaches at the time of the event, and
-- whether the weak senders of the container's own mailbox can be upgraded. A job is only counted.
-- That the calls or the system messages come to their end (`ContainerError`) is not among the events.
pub mod Sets
pub mod Turns
pub mod Teardown
pub mod Refs
pub mod Invariant
pub mod Landing
pub mod Runs
pub mod Effects
pub mod Farewell
pub mod Watching
pub mod Rounds
pub mod Linking
pub mod Breaks
use mm.Shared.{
  ℕ, zero, suc, ◌+◌, ◌-◌, ◌%◌, ◌^◌, List, [], ◌∷◌, ◌++◌, Option, none, some, Bool, true, false,
  ◌==◌, if◌then◌else◌, ℕ_discrete, length, map,
}
use mm.Shared.Map.{get, insert, remove}
use mm.Container.Sets.{
  Address, WatchRef, Watches, contains, include, exclude, has, put, drop, of_peer, of_others,
  peers_of, drop_refs,
}

pub data ExitReason : Type 0 where
  normal terminate link_down : ExitReason

-- Each with its sender and its receiver.
pub data SysLink : Type 0 where
  connect disconnect : Address → Address → SysLink
  exit : Address → Address → ExitReason → SysLink

pub data SysWatch : Type 0 where
  watch unwatch : Address → Address → WatchRef → SysWatch
  down : Address → Address → ExitReason → SysWatch

pub data SysMsg : Type 0 where
  kill : SysMsg
  on_link : SysLink → SysMsg
  on_watch : SysWatch → SysMsg
  fork_done : Address → SysMsg

-- `exit` says whether the result is `Ok`.
pub data SysCall : Type 0 where
  exit trap_exit : Bool → SysCall
  link unlink watch : Address → Address → SysCall
  unwatch : Address → WatchRef → SysCall
  fork_added : Address → SysCall
  spawn : SysCall

pub record JobEntry : Type 0 where
  pub linked_to : List Address
  pub watches : Watches
  pub watched_by : Watches

pub record TakenWatch : Type 0 where
  pub owner : Address
  pub target : Address

pub record Container : Type 0 where
  pub main : Address
  pub job_entries : List (Address × JobEntry)
  pub taken : List (WatchRef × TakenWatch)
  pub next_watch_ref : WatchRef
  pub trap_exit : Bool
  pub spawned_jobs : ℕ

pub record Runtime : Type 0 where
  pub reaches : Address → Bool
  pub upgrades : Bool

-- What a turn does to others: a system message to a peer or to the container itself, a message to
-- the actor (`Exited` with the receiver, the peer and `normal_exit`; `Down` with the reference too),
-- the answer to a call.
pub data Effect : Type 0 where
  sent : Address → SysMsg → Effect
  requeued : SysMsg → Effect
  exited : Address → Address → Bool → Effect
  went_down : Address → Address → WatchRef → Bool → Effect
  replied : WatchRef → Effect

-- The result that an actor ends with.
pub data Ended : Type 0 where
  finished failed killed : Ended
  collateral_of terminated_by : Address → Ended

pub data Event : Type 0 where
  shutdown main_panicked : Event
  job_done : Bool → Event
  called : SysCall → Event
  received : SysMsg → Event

-- `hangs` is a loop that finds no vacant reference.
pub data Turn : Type 0 where
  goes_on : Container → List Effect → Turn
  breaks : Container → Ended → Turn
  panics hangs : Turn

unfoldable pub is_ok : Ended → Bool
is_ok finished = true
is_ok _ = false

unfoldable pub is_normal : ExitReason → Bool
is_normal normal = true
is_normal _ = false

unfoldable pub reason_of : Bool → ExitReason
reason_of normal_exit = if normal_exit then normal else link_down

unfoldable pub sys_link_exit_message : Bool → Address → Address → SysMsg
unfolding reason_of
sys_link_exit_message normal_exit sender receiver =
    on_link (SysLink.exit sender receiver (reason_of normal_exit))

unfoldable pub sys_watch_down_message : Bool → Address → Address → SysMsg
unfolding reason_of
sys_watch_down_message normal_exit sender receiver =
    on_watch (down sender receiver (reason_of normal_exit))

unfoldable pub entry : Container → Address → Option JobEntry
entry c fork = get ℕ_discrete fork c.job_entries

unfoldable pub with_entry : Container → Address → JobEntry → Container
with_entry c fork e = record c { job_entries = insert ℕ_discrete fork e c.job_entries }

abbrev pub new_entry : JobEntry
new_entry = record { linked_to = []; watches = []; watched_by = [] }

-- A message to a peer, and the message to the container itself that stands for the peer's failure
-- if it cannot be sent; `none` if the own sender is gone.
unfoldable pub attempt : Runtime → Address → SysMsg → SysMsg → Option (List Effect)
attempt rt peer message failure =
    if rt.reaches peer
    then some (sent peer message ∷ [])
    else if rt.upgrades
    then some (sent peer message ∷ requeued failure ∷ [])
    else none

-- A message on the priority lane of the actor.
unfoldable pub delivered : Runtime → List Effect → List Effect
delivered rt effects = if rt.upgrades then effects else []

unfoldable pub unwatch_targets : Address → Watches → List Effect
unwatch_targets watcher = map (λ x. sent x.0 (on_watch (unwatch watcher x.0 x.1)))

-- The end of a fork, with the container that is left: its watches are given up, and those that are
-- linked to it and those that watch it are told.
unfoldable pub end_fork : Bool → Container → Address → JobEntry → Container × List Effect
unfolding unwatch_targets
end_fork normal_exit c fork e = (
  record c {
    job_entries = remove ℕ_discrete fork c.job_entries;
    taken = drop_refs e.watches c.taken;
  },
  unwatch_targets fork e.watches
      ++ (map (λ peer. sent peer (sys_link_exit_message normal_exit fork peer)) e.linked_to
          ++ map (λ peer. sent peer (sys_watch_down_message normal_exit fork peer))
              (peers_of e.watched_by)),
)

abbrev pub max_ref : ℕ
max_ref = 2 ^ 64

unfoldable pub succ_ref : WatchRef → WatchRef
succ_ref w = (w + 1) % max_ref

-- The loop that looks for a vacant reference: the reference, and the next candidate.
unfoldable pub find_vacant :
    ℕ → WatchRef → List (WatchRef × TakenWatch) → Option (WatchRef × WatchRef)
unfolding succ_ref
find_vacant zero candidate taken = none
find_vacant (suc fuel) candidate taken =
    let next = succ_ref candidate in
    elim (get ℕ_discrete candidate taken) [
      | none ↦ some (candidate, next)
      | some _ ↦ find_vacant fuel next taken
    ]
