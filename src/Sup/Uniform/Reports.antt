-- ===== src/Sup/Uniform/Reports.antt =====
-- components/mm1-sup/src/uniform/sup_actor.rs: what a fork reports, the request to stop a child, and
-- the clean-up that stops all children.
use mm.Shared.{
  List, [], ◌∷◌, Option, none, some, Bool, true, false, ◌==◌, if◌then◌else◌, ite, ℕ_discrete,
}
use mm.Shared.SlotMap.{SlotMap}
use mm.Shared.Map.{get, insert, remove}
use mm.Sup.Child.{Address}
use mm.Sup.Uniform.Model.{
  ChildStatus, starting, started, stopping, ChildEntry, Error, no_fork, unexpected_status,
  no_decision, no_stop, Outcome, done, failed, quits, panicked, Answers, Call, link, fork_stop,
  reply_not_found, shutdown, Children, State, Reaped, is_starting, running_at,
}

module _ {D : Type 0} (slots : SlotMap (ChildEntry D)) where
  unfoldable pub drop_child : Children slots → slots.Key → Children slots
  drop_child c key = record { primary = slots.remove c.primary key; by_address = c.by_address }

  unfoldable pub handle_child_start_failed : Children slots → slots.Key → Children slots
  unfolding drop_child
  handle_child_start_failed c key = elim (slots.get c.primary key) [
    | none ↦ c
    | some e ↦ if is_starting e.status then drop_child c key else c
  ]

module _ {D R H : Type 0} (slots : SlotMap (ChildEntry D)) where
  unfoldable pub finish_fork :
      Bool → Children slots → Call slots.Key R H → Outcome (State slots R H)
  finish_fork true c call = done (c, call ∷ [])
  finish_fork false c call = failed no_fork (c, [])

  unfoldable pub set_started :
      Children slots → slots.Key → Address → D → Option slots.Key → Outcome (State slots R H)
  unfolding insert
  set_started c key address d (some k) = panicked
  set_started c key address d none = done (
    record {
      primary = slots.write c.primary key (record { status = started address; data_of = d });
      by_address = insert ℕ_discrete address key c.by_address;
    },
    link address ∷ [],
  )

  unfoldable pub child_started_in :
      Children slots → slots.Key → Address → ChildStatus → D → Outcome (State slots R H)
  unfolding set_started get
  child_started_in c key address starting d =
      set_started c key address d (get ℕ_discrete address c.by_address)
  child_started_in c key address status d = failed unexpected_status (c, [])

  unfoldable pub handle_child_started :
      Children slots → slots.Key → Address → Outcome (State slots R H)
  unfolding child_started_in
  handle_child_started c key address = elim (slots.get c.primary key) [
    | none ↦ panicked
    | some e ↦ child_started_in c key address e.status e.data_of
  ]

  unfoldable pub stop_child :
      Answers
      → Children slots
      → H
      → Address
      → slots.Key
      → ChildStatus
      → D
      → Outcome (State slots R H)
  unfolding finish_fork
  stop_child w c reply_to address key starting d = panicked
  stop_child w c reply_to address key (started a) d =
      if a == address
      then finish_fork w.forked
          (record {
            primary = slots.write c.primary key (record { status = stopping address; data_of = d });
            by_address = c.by_address;
          })
          (fork_stop address reply_to)
      else panicked
  stop_child w c reply_to address key (stopping a) d =
      if a == address then done (c, reply_not_found reply_to address ∷ []) else panicked

  unfoldable pub handle_stop_request :
      Answers → Children slots → H → Address → Outcome (State slots R H)
  unfolding stop_child get
  handle_stop_request w c reply_to address = elim (get ℕ_discrete address c.by_address) [
    | none ↦ done (c, reply_not_found reply_to address ∷ [])
    | some key ↦ elim (slots.get c.primary key) [
      | none ↦ panicked
      | some e ↦ stop_child w c reply_to address key e.status e.data_of
    ]
  ]

  -- What the loop comes to with one child, given what it comes to with the others.
  unfoldable pub shut_down : Bool → Address → Option (Reaped slots R H) → Option (Reaped slots R H)
  shut_down ok a none = none
  shut_down ok a (some (by_address, calls, error)) =
      some (by_address, shutdown a ∷ calls, if ok then error else some (no_stop a))

  -- The loop of `reap_started_children`: the addresses that are left, the calls, and `first_error`.
  unfoldable pub reap_loop :
      (Address → Bool)
      → List (slots.Key × ChildEntry D)
      → List (Address × slots.Key)
      → Option (Reaped slots R H)
  unfolding get remove shut_down
  reap_loop ok [] by_address = some (by_address, [], none)
  reap_loop ok ((key, e) ∷ r) by_address = elim (running_at e.status) [
    | none ↦ reap_loop ok r by_address
    | some a ↦ elim (get ℕ_discrete a by_address) [
      | none ↦ none
      | some k ↦
          let rest = reap_loop ok r (remove ℕ_discrete a by_address) in
          ite (slots.key_eq k key) (shut_down (ok a) a rest) none
    ]
  ]

  unfoldable pub reap_started_children :
      Answers → Children slots → Option (State slots R H × Option Error)
  unfolding reap_loop
  reap_started_children w c =
      let (primary, entries) = slots.drain c.primary in
      elim (reap_loop w.stops entries c.by_address) [
        | none ↦ none
        | some (by_address, calls, error) ↦
            some ((record { primary = primary; by_address = by_address }, calls), error)
      ]

  unfoldable pub quit_unknown :
      Address → Option (State slots R H × Option Error) → Outcome (State slots R H)
  quit_unknown peer none = panicked
  quit_unknown peer (some (s, none)) = quits peer s
  quit_unknown peer (some (s, some e)) = failed e s

  -- A decision that failed: the error of the clean-up is only logged.
  unfoldable pub fail_decision : Option (State slots R H × Option Error) → Outcome (State slots R H)
  fail_decision none = panicked
  fail_decision (some (s, e)) = failed no_decision s
