-- ===== src/Sup/Uniform/Exits.antt =====
-- Starting children, and what the supervisor does when one exits.
use mm.Shared.{
  ◌≡◌, ◌≢◌, refl, ap, List, Option, none, some, Bool, true, false, arith, ℕ_discrete, Option-cases,
  inl, inr, ==-eq,
}
use mm.Shared.SlotMap.{SlotMap}
use mm.Shared.Map.{get}
use mm.Sup.Child.{Address}
use mm.Sup.Uniform.Kind.{UniformChildType}
use mm.Sup.Uniform.{
  ChildStatus, starting, started, stopping, ChildEntry, Children, Error, fork_start, State, Answers,
  drop_child, reap_started_children, quit_unknown, fail_decision, insert_starting,
  handle_start_request, restart, decided, child_exited, handle_sys_exited, is_starting,
}
use mm.Sup.Uniform.Indexes.{
  address_of, IsValid, insert-IsValid, unlist, exited-IsValid, restarted-IsValid,
}
use mm.Sup.Uniform.Reaping.{reap_started_children-all}
use mm.Sup.Uniform.Tracking.{starts, IsTracked, Keeps, finish_fork-Keeps}

module _ {A R : Type 0} (H : Type 0) (kind : UniformChildType A R)
    (slots : SlotMap (ChildEntry kind.Data)) (produce : A → R) where
  insert_starting-Keeps :
      (w : Answers) (c : Children slots) (reply_to : H) (d : kind.Data) (r : R)
      (pending : List slots.Key)
      → IsTracked slots c pending
      → Keeps slots pending (insert_starting kind slots produce w c reply_to d r)
  unfolding insert_starting
  insert_starting-Keeps w c reply_to d r pending v =
      let e : ChildEntry kind.Data = record { status = starting; data_of = d } in
      finish_fork-Keeps R H slots w.forked
        (record { primary = (slots.insert c.primary e).0; by_address = c.by_address })
        (fork_start (slots.insert c.primary e).1 r (some reply_to)) pending
        (record {
          valid = insert-IsValid slots c e v.valid refl;
          once = λ j.
              ground
                (arith, v.once j, slots.get-insert c.primary e j, slots.insert_fresh c.primary e);
        })

  pub handle_start_request-Keeps :
      (w : Answers) (c : Children slots) (reply_to : H) (args : A) (pending : List slots.Key)
      → IsTracked slots c pending
      → Keeps slots pending (handle_start_request kind slots produce w c reply_to args)
  unfolding handle_start_request
  handle_start_request-Keeps w c reply_to args pending v =
      let made = kind.make_runnable produce (kind.new_data args) in
      elim (Option-cases made.1) [
        | inl n ↦ rw (handle_start_request, n) tt
        | inr (r, n) ↦
            rw (handle_start_request, n) (insert_starting-Keeps w c reply_to made.0 r pending v)
      ]

  -- A child that had an address goes.
  gone-IsTracked :
      (c : Children slots) (k : slots.Key) (a : Address) (pending : List slots.Key)
      → IsTracked slots c pending
      → get ℕ_discrete a c.by_address ≡ some k
      → starts (slots.get c.primary k) ≡ 0
      → IsTracked slots (drop_child slots (unlist slots c a) k) pending
  unfolding drop_child
  gone-IsTracked c k a pending v n s = record {
    valid = exited-IsValid slots c k a v.valid n;
    once = λ j. ground (arith, v.once j, slots.get-remove c.primary k j);
  }

  restart-Keeps :
      (w : Answers) (c : Children slots) (k : slots.Key) (a : Address) (e : ChildEntry kind.Data)
      (d : kind.Data) (r : Option R) (pending : List slots.Key)
      → IsTracked slots c pending
      → get ℕ_discrete a c.by_address ≡ some k
      → slots.get c.primary k ≡ some e
      → is_starting e.status ≡ false
      → Keeps slots pending (restart {H = H} kind slots produce w (unlist slots c a) k a (d, r))
  unfolding restart
  restart-Keeps w c k a e d none pending v n h s = tt
  restart-Keeps w c k a e d (some r) pending v n h s =
      let f : ChildEntry kind.Data = record { status = starting; data_of = d } in
      let there : slots.get c.primary k ≢ none = λ g. cc in
      finish_fork-Keeps R H slots w.forked _ (fork_start k r none) pending (record {
        valid = restarted-IsValid slots c k a f v.valid n refl;
        once = λ j. ground (arith, v.once j, slots.get-write c.primary k f j there);
      })

  fail_decision-Keeps :
      (o : Option (State slots R H × Option Error)) (pending : List slots.Key)
      → o ≢ none
      → Keeps slots pending (fail_decision slots o)
  unfolding fail_decision
  fail_decision-Keeps none pending h = h refl
  fail_decision-Keeps (some (s, e)) pending h = tt

  quit_unknown-Keeps :
      (peer : Address) (o : Option (State slots R H × Option Error)) (pending : List slots.Key)
      → o ≢ none
      → Keeps slots pending (quit_unknown slots peer o)
  unfolding quit_unknown
  quit_unknown-Keeps peer none pending h = h refl
  quit_unknown-Keeps peer (some (s, none)) pending h = tt
  quit_unknown-Keeps peer (some (s, some e)) pending h = tt

  reaps :
      (w : Answers) (c : Children slots)
      → IsValid slots c
      → reap_started_children {R = R} {H = H} slots w c ≢ none
  reaps w c v n = let (left, e, _) = reap_started_children-all R H slots w c v in cc

  decided-Keeps :
      (w : Answers) (c : Children slots) (k : slots.Key) (peer a : Address) (d d' : kind.Data)
      (o : Option Bool) (pending : List slots.Key)
      → IsTracked slots c pending
      → get ℕ_discrete peer c.by_address ≡ some k
      → slots.get c.primary k ≡ some (record { status = started a; data_of = d })
      → a ≡ peer
      → Keeps slots pending
          (decided {H = H} kind slots produce w (unlist slots c peer) k peer a (d', o))
  unfolding decided
  decided-Keeps w c k peer a d d' none pending v n h same =
      rw (decided, ==-eq a peer same)
        (fail_decision-Keeps _ pending (
          reaps w (drop_child slots (unlist slots c peer) k)
            (exited-IsValid slots c k peer v.valid n)))
  decided-Keeps w c k peer a d d' (some false) pending v n h same =
      gone-IsTracked c k peer pending v n (ap starts h)
  decided-Keeps w c k peer a d d' (some true) pending v n h same =
      let made = kind.make_runnable produce d' in
      rw (decided, ==-eq a peer same, same)
        (restart-Keeps w c k peer _ made.0 made.1 pending v n h refl)

  child_exited-Keeps :
      (w : Answers) (c : Children slots) (k : slots.Key) (peer : Address) (normal_exit : Bool)
      (s : ChildStatus) (d : kind.Data) (pending : List slots.Key)
      → IsTracked slots c pending
      → get ℕ_discrete peer c.by_address ≡ some k
      → slots.get c.primary k ≡ some (record { status = s; data_of = d })
      → address_of s ≡ some peer
      → Keeps slots pending
          (child_exited {H = H} kind slots produce w (unlist slots c peer) k peer normal_exit s d)
  unfolding child_exited
  child_exited-Keeps w c k peer normal_exit starting d pending v n h at = absurd (ground arith)
  child_exited-Keeps w c k peer normal_exit (started a) d pending v n h at =
      let same : a ≡ peer = ground arith in
      let made = kind.should_restart w.now d normal_exit in
      decided-Keeps w c k peer a d made.0 made.1 pending v n h same
  child_exited-Keeps w c k peer normal_exit (stopping a) d pending v n h at =
      let same : a ≡ peer = ground arith in
      rw (child_exited, ==-eq a peer same) (gone-IsTracked c k peer pending v n (ap starts h))

  pub handle_sys_exited-Keeps :
      (w : Answers) (c : Children slots) (peer : Address) (normal_exit : Bool)
      (pending : List slots.Key)
      → IsTracked slots c pending
      → Keeps slots pending (handle_sys_exited {H = H} kind slots produce w c peer normal_exit)
  unfolding handle_sys_exited
  handle_sys_exited-Keeps w c peer normal_exit pending v =
      elim (Option-cases (get ℕ_discrete peer c.by_address)) [
        | inl n ↦ rw (handle_sys_exited, n) (quit_unknown-Keeps peer _ pending (reaps w c v.valid))
        | inr (k, n) ↦
            let (e, h, at) = v.valid.found peer k n in
            rw (handle_sys_exited, n, h)
              (child_exited-Keeps w c k peer normal_exit e.status e.data_of pending v n h at)
      ]
