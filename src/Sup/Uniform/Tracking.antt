-- ===== src/Sup/Uniform/Tracking.antt =====
-- The children that are being started are those whose forks have not reported yet.
use mm.Shared.{
  ℕ, ◌+◌, ◌≤◌, ◌≡◌, ◌≢◌, refl, sym, ap, List, [], ◌∷◌, ◌++◌, Option, none, some, Bool, true, false,
  if◌then◌else◌, ite, arith, ℕ_discrete, Option-cases, inl, inr, ==-eq,
}
use mm.Shared.SlotMap.{SlotMap}
use mm.Shared.Map.{get}
use mm.Sup.Child.{Address}
use mm.Sup.Uniform.{
  ChildStatus, starting, started, stopping, ChildEntry, Children, Call, link, fork_start, fork_stop,
  reply_not_found, shutdown, State, Answers, Outcome, done, failed, quits, panicked, is_starting,
  finish_fork, set_started, child_started_in, handle_child_started, handle_child_start_failed,
  stop_child, handle_stop_request, drop_child,
}
use mm.Sup.Uniform.Indexes.{address_of, IsValid, write-IsValid, started-IsValid, drop_child-IsValid}

-- 1 for a child that is being started, else 0.
abbrev pub starts : {D : Type 0} → Option (ChildEntry D) → ℕ
starts none = 0
starts (some e) = if is_starting e.status then 1 else 0

-- The children that the calls start.
abbrev pub forks : {K R H : Type 0} → List (Call K R H) → List K
forks [] = []
forks (link a ∷ r) = forks r
forks (fork_start k x o ∷ r) = k ∷ forks r
forks (fork_stop a h ∷ r) = forks r
forks (reply_not_found h a ∷ r) = forks r
forks (shutdown a ∷ r) = forks r

starting_iff : (s : ChildStatus) → is_starting s ≡ true → s ≡ starting
starting_iff starting h = refl
starting_iff (started a) h = ground arith
starting_iff (stopping a) h = ground arith

starts-some :
    {D : Type 0} (o : Option (ChildEntry D))
    → 1 ≤ starts o
    → (e : ChildEntry D) × (o ≡ some e) × (e.status ≡ starting)
starts-some none h = absurd (omega arith)
starts-some (some e) h = (e, refl, starting_iff e.status (ground arith))

module _ {D : Type 0} (slots : SlotMap (ChildEntry D)) where
  abbrev pub occurrences : slots.Key → List slots.Key → ℕ
  occurrences k [] = 0
  occurrences k (j ∷ r) = ite (slots.key_eq j k) 1 0 + occurrences k r

  pub occurrences-split :
      (k j : slots.Key) (before after : List slots.Key)
      → occurrences k (before ++ j ∷ after)
        ≡ ite (slots.key_eq j k) 1 0 + occurrences k (before ++ after)
  occurrences-split k j [] after = refl
  occurrences-split k j (i ∷ before) after = omega (arith, occurrences-split k j before after)

  -- The indexes agree, and each child that is being started has one fork at work for it, and no other
  -- child has any.
  pub record IsTracked (c : Children slots) (pending : List slots.Key) : Type 0 where
    pub valid : IsValid slots c
    pub once : (k : slots.Key) → occurrences k pending ≡ starts (slots.get c.primary k)

  -- A handler that goes on keeps the children tracked, with its forks at work too. It does not panic.
  abbrev pub Keeps : {R H : Type 0} → List slots.Key → Outcome (State slots R H) → Type 0
  Keeps pending (done (c, calls)) = IsTracked c (forks calls ++ pending)
  Keeps pending (failed e s) = Unit {0}
  Keeps pending (quits a s) = Unit {0}
  Keeps pending panicked = ⊥

  -- A fork for the child `k` is at work.
  pub at_work :
      (c : Children slots) (k : slots.Key) (before after : List slots.Key)
      → IsTracked c (before ++ k ∷ after)
      → (e : ChildEntry D) × (slots.get c.primary k ≡ some e) × (e.status ≡ starting)
  at_work c k before after v =
      starts-some (slots.get c.primary k)
        (ground (arith, v.once k, occurrences-split k k before after))

  pub handle_child_start_failed-IsTracked :
      (c : Children slots) (k : slots.Key) (before after : List slots.Key)
      → IsTracked c (before ++ k ∷ after)
      → IsTracked (handle_child_start_failed slots c k) (before ++ after)
  unfolding handle_child_start_failed drop_child
  handle_child_start_failed-IsTracked c k before after v =
      let (e, h, s) = at_work c k before after v in
      rw (handle_child_start_failed, h, s)
        (record {
          valid = drop_child-IsValid slots c k e v.valid h (ap address_of s);
          once = λ j.
              ground (
                arith,
                v.once j,
                occurrences-split j k before after,
                slots.get-remove c.primary k j,
              );
        })

module _ {D : Type 0} (R H : Type 0) (slots : SlotMap (ChildEntry D)) where
  pub handle_child_started-Keeps :
      (c : Children slots) (k : slots.Key) (a : Address) (before after : List slots.Key)
      → IsTracked slots c (before ++ k ∷ after)
      → get ℕ_discrete a c.by_address ≡ none
      → Keeps slots (before ++ after) (handle_child_started {R = R} {H = H} slots c k a)
  unfolding handle_child_started child_started_in set_started
  handle_child_started-Keeps c k a before after v new =
      let (e, h, s) = at_work slots c k before after v in
      let there : slots.get c.primary k ≢ none = λ n. cc in
      let f : ChildEntry D = record { status = started a; data_of = e.data_of } in
      rw (handle_child_started, h, s, child_started_in, new, set_started)
        (record {
          valid = started-IsValid slots c k a e f v.valid h (ap address_of s) new refl;
          once = λ j. ground (
            arith,
            v.once j,
            occurrences-split slots j k before after,
            slots.get-write c.primary k f j there,
          );
        })

  -- A child that keeps its address, and is not being started.
  write-IsTracked :
      (c : Children slots) (k : slots.Key) (e f : ChildEntry D) (pending : List slots.Key)
      → IsTracked slots c pending
      → slots.get c.primary k ≡ some e
      → address_of f.status ≡ address_of e.status
      → is_starting e.status ≡ false
      → is_starting f.status ≡ false
      → IsTracked slots
          (record { primary = slots.write c.primary k f; by_address = c.by_address })
          pending
  write-IsTracked c k e f pending v h same old new =
      let there : slots.get c.primary k ≢ none = λ n. cc in
      record {
        valid = write-IsValid slots c k e f v.valid h same;
        once = λ j. ground (arith, v.once j, slots.get-write c.primary k f j there);
      }

  pub finish_fork-Keeps :
      (b : Bool) (c : Children slots) (call : Call slots.Key R H) (pending : List slots.Key)
      → IsTracked slots c (forks (call ∷ []) ++ pending)
      → Keeps slots pending (finish_fork slots b c call)
  unfolding finish_fork
  finish_fork-Keeps true c call pending v = v
  finish_fork-Keeps false c call pending v = tt

  stop_child-Keeps :
      (w : Answers) (c : Children slots) (reply_to : H) (a : Address) (k : slots.Key)
      (s : ChildStatus) (d : D) (pending : List slots.Key)
      → IsTracked slots c pending
      → slots.get c.primary k ≡ some (record { status = s; data_of = d })
      → address_of s ≡ some a
      → Keeps slots pending (stop_child {R = R} slots w c reply_to a k s d)
  unfolding stop_child
  stop_child-Keeps w c reply_to a k starting d pending v h at = absurd (ground arith)
  stop_child-Keeps w c reply_to a k (started b) d pending v h at =
      let same : b ≡ a = ground arith in
      let stopped : ChildEntry D = record { status = stopping a; data_of = d } in
      rw (stop_child, ==-eq b a same)
        (finish_fork-Keeps w.forked _ (fork_stop a reply_to) pending (
          write-IsTracked c k (record { status = started b; data_of = d }) stopped pending v h
            (sym at) refl refl))
  stop_child-Keeps w c reply_to a k (stopping b) d pending v h at =
      let same : b ≡ a = ground arith in rw (stop_child, ==-eq b a same) v

  pub handle_stop_request-Keeps :
      (w : Answers) (c : Children slots) (reply_to : H) (a : Address) (pending : List slots.Key)
      → IsTracked slots c pending
      → Keeps slots pending (handle_stop_request {R = R} slots w c reply_to a)
  unfolding handle_stop_request
  handle_stop_request-Keeps w c reply_to a pending v =
      elim (Option-cases (get ℕ_discrete a c.by_address)) [
        | inl n ↦ rw (handle_stop_request, n) v
        | inr (k, n) ↦
            let (e, h, at) = v.valid.found a k n in
            rw (handle_stop_request, n, h)
              (stop_child-Keeps w c reply_to a k e.status e.data_of pending v h at)
      ]
