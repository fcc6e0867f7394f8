-- ===== src/Sup/Uniform/Model.antt =====
-- components/mm1-sup/src/uniform/sup_actor.rs: the types of the uniform supervisor, and its forks that
-- start a child.
use mm.Shared.{List, [], ◌∷◌, Option, none, some, Bool, true, false, if◌then◌else◌}
use mm.Shared.SlotMap.{SlotMap}
use mm.Sup.Child.{Address}
use mm.Sup.Intensity.{Instant, Duration}

pub data ChildStatus : Type 0 where
  starting : ChildStatus
  started stopping : Address → ChildStatus

pub record ChildEntry (D : Type 0) : Type 0 where
  pub status : ChildStatus
  pub data_of : D

pub data InitType : Type 0 where
  no_ack : InitType
  with_ack : Duration → InitType

pub data Error : Type 0 where
  no_runnable no_fork unexpected_status no_decision : Error
  no_stop : Address → Error

-- `quits` is `quit_err(UnknownPeerExited)`, after which nothing runs.
pub data Outcome (S : Type 0) : Type 0 where
  done : S → Outcome S
  failed : Error → S → Outcome S
  quits : Address → S → Outcome S
  panicked : Outcome S

-- What the context answers while a message is handled.
pub record Answers : Type 0 where
  pub forked : Bool
  pub stops : Address → Bool
  pub now : Instant

-- The calls of the context: a fork that runs `do_start_child`, and replies if there is a request to
-- reply to; a fork that runs `do_stop_child` and replies; the reply `StopErrorKind::NotFound`; and a
-- `do_stop_child` that is waited for.
pub data Call (K R H : Type 0) : Type 0 where
  link : Address → Call K R H
  fork_start : K → R → Option H → Call K R H
  fork_stop : Address → H → Call K R H
  reply_not_found : H → Address → Call K R H
  shutdown : Address → Call K R H

-- The messages that the supervisor handles.
pub data Message (K A H : Type 0) : Type 0 where
  start_request : H → A → Message K A H
  child_started : K → Address → Message K A H
  child_start_failed : K → Message K A H
  stop_request : H → Address → Message K A H
  exited : Address → Bool → Message K A H
  unexpected : Message K A H

pub record Children {D : Type 0} (slots : SlotMap (ChildEntry D)) : Type 0 where
  pub primary : slots.Slots
  pub by_address : List (Address × slots.Key)

unfoldable pub no_children : {D : Type 0} (slots : SlotMap (ChildEntry D)) → Children slots
no_children slots = record { primary = slots.empty; by_address = [] }

-- The children, and the calls that were made.
abbrev pub State : {D : Type 0} → SlotMap (ChildEntry D) → Type 0 → Type 0 → Type 0
State slots R H = Children slots × List (Call slots.Key R H)

-- What the loop of `reap_started_children` comes to.
abbrev pub Reaped : {D : Type 0} → SlotMap (ChildEntry D) → Type 0 → Type 0 → Type 0
Reaped slots R H = List (Address × slots.Key) × List (Call slots.Key R H) × Option Error

abbrev pub is_starting : ChildStatus → Bool
is_starting starting = true
is_starting status = false

abbrev pub running_at : ChildStatus → Option Address
running_at (started a) = some a
running_at status = none

-- What a fork that starts a child sends, in its order.
pub data Sent (K : Type 0) : Type 0 where
  set_parent : Address → Sent K
  report_started : K → Address → Sent K
  report_failed : K → Sent K

-- `ctx.spawn` and `ctx.start` for the fork's runnable; `none` is an error.
pub record Launch : Type 0 where
  pub spawn : Option Address
  pub start : Duration → Option Address

abbrev pub launch : Launch → InitType → Option Address
launch l no_ack = l.spawn
launch l (with_ack start_timeout) = l.start start_timeout

unfoldable pub do_start_child :
    {K : Type 0} → Launch → K → InitType → Bool → List (Sent K) × Option Address
do_start_child l key init_type announce_parent = elim (launch l init_type) [
  | none ↦ (report_failed key ∷ [], none)
  | some child ↦ (
    if announce_parent
        then set_parent child ∷ report_started key child ∷ []
        else report_started key child ∷ [],
    some child,
  )
]
