-- ===== src/Sup/Uniform.antt =====
-- components/mm1-sup/src/uniform/sup_actor.rs: the uniform supervisor. A handler gives the new children
-- and the calls of the context that it makes, in their order. What the context answers is an argument:
-- whether `fork` succeeds, and whether `shutdown` of an address does.
pub mod Kind
pub mod Indexes
pub mod Reaping
pub mod Tracking
pub mod Exits
pub mod Lifecycle
pub mod Policy
pub mod Model
pub mod Reports
unfoldable pub use Model.*
unfoldable pub use Reports.*
use mm.Shared.{
  ℕ, List, [], ◌∷◌, ◌++◌, Option, none, some, Bool, true, false, ◌==◌, if◌then◌else◌, ite,
  ℕ_discrete,
}
use mm.Shared.SlotMap.{SlotMap}
use mm.Shared.Map.{get, insert, remove}
use mm.Sup.Child.{Address}
use mm.Sup.Intensity.{Instant, Duration}
use mm.Sup.Uniform.Kind.{UniformChildType}

module _ {A R H : Type 0} (kind : UniformChildType A R) (slots : SlotMap (ChildEntry kind.Data))
    (produce : A → R) where
  -- The child whose runnable has been made.
  unfoldable pub insert_starting :
      Answers → Children slots → H → kind.Data → R → Outcome (State slots R H)
  unfolding finish_fork
  insert_starting w c reply_to d runnable =
      let (primary, key) = slots.insert c.primary (record { status = starting; data_of = d }) in
      finish_fork slots w.forked (record { primary = primary; by_address = c.by_address })
        (fork_start key runnable (some reply_to))

  unfoldable pub handle_start_request : Answers → Children slots → H → A → Outcome (State slots R H)
  unfolding insert_starting
  handle_start_request w c reply_to args =
      let (d, runnable) = kind.make_runnable produce (kind.new_data args) in
      elim runnable [
        | none ↦ failed no_runnable (c, [])
        | some r ↦ insert_starting w c reply_to d r
      ]

  -- The child is made again, if it can be.
  unfoldable pub restart :
      Answers
      → Children slots
      → slots.Key
      → Address
      → kind.Data × Option R
      → Outcome (State slots R H)
  unfolding finish_fork
  restart w c key a (d, none) = failed no_runnable (
    record {
      primary = slots.write c.primary key (record { status = started a; data_of = d });
      by_address = c.by_address;
    },
    [],
  )
  restart w c key a (d, some r) =
      finish_fork slots w.forked
        (record {
          primary = slots.write c.primary key (record { status = starting; data_of = d });
          by_address = c.by_address;
        })
        (fork_start key r none)

  -- A child that ran exited, and the decision is made.
  unfoldable pub decided :
      Answers
      → Children slots
      → slots.Key
      → Address
      → Address
      → kind.Data × Option Bool
      → Outcome (State slots R H)
  unfolding restart drop_child reap_started_children fail_decision
  decided w c key peer a (d, none) =
      if a == peer
      then fail_decision slots (reap_started_children slots w (drop_child slots c key))
      else panicked
  decided w c key peer a (d, some false) = done (drop_child slots c key, [])
  decided w c key peer a (d, some true) =
      if a == peer then restart w c key a (kind.make_runnable produce d) else panicked

  -- The child that exited, which has been taken off `by_address`.
  unfoldable pub child_exited :
      Answers
      → Children slots
      → slots.Key
      → Address
      → Bool
      → ChildStatus
      → kind.Data
      → Outcome (State slots R H)
  unfolding decided drop_child
  child_exited w c key peer normal_exit starting d = panicked
  child_exited w c key peer normal_exit (stopping a) d =
      if a == peer then done (drop_child slots c key, []) else panicked
  child_exited w c key peer normal_exit (started a) d =
      decided w c key peer a (kind.should_restart w.now d normal_exit)

  unfoldable pub handle_sys_exited :
      Answers → Children slots → Address → Bool → Outcome (State slots R H)
  unfolding get remove child_exited reap_started_children quit_unknown
  handle_sys_exited w c peer normal_exit = elim (get ℕ_discrete peer c.by_address) [
    | none ↦ quit_unknown slots peer (reap_started_children slots w c)
    | some key ↦ elim (slots.get c.primary key) [
      | none ↦ panicked
      | some e ↦
          child_exited w
            (record { primary = c.primary; by_address = remove ℕ_discrete peer c.by_address }) key
            peer normal_exit e.status e.data_of
    ]
  ]

  -- The body of the loop of `uniform_sup`.
  unfoldable pub handle :
      Answers → Children slots → Message slots.Key A H → Outcome (State slots R H)
  unfolding handle_start_request handle_child_started handle_child_start_failed handle_stop_request
      handle_sys_exited
  handle w c (start_request reply_to args) = handle_start_request w c reply_to args
  handle w c (child_started key address) = handle_child_started slots c key address
  handle w c (child_start_failed key) = done (handle_child_start_failed slots c key, [])
  handle w c (stop_request reply_to child) = handle_stop_request slots w c reply_to child
  handle w c (exited peer normal_exit) = handle_sys_exited w c peer normal_exit
  handle w c unexpected = done (c, [])
