-- ===== src/NodeRegistry/Inbox.antt =====
-- The mailbox of an actor among the nodes that send to it, that of its own subnet and those of the subnets
-- that it binds (core/mm1-node/src/runtime/context/impl_context_api.rs, bind), and the actor that takes from it.
use mm.Shared.{
  ℕ, suc, ◌+◌, ◌≤◌, ◌≡◌, ◌↔◌, refl, List, [], ◌∷◌, ◌++◌, Bool, true, false, ◌==◌, if◌then◌else◌,
  arith, ap, ◌<◌, ◌⊎◌, inl, inr, Bool-cases,
}
use mm.Subnet.{Address}
use mm.NodeRegistry.{
  TrySend, accepted, not_accepted, closed, MessageWithPermit, Mailbox, new_mailbox, Node, new_node,
  send, send_priority, send_regular,
}

-- The mailbox, the nodes by their semaphores, how many of them there are, and the messages with permits
-- that have been taken from the channel and wait in the actor's own queues.
pub record System (M : Type 0) : Type 0 where
  pub mailbox : Mailbox M
  pub nodes : ℕ → Node
  pub bound : ℕ
  pub taken : List (MessageWithPermit M)

unfoldable pub with_node : (ℕ → Node) → ℕ → Node → ℕ → Node
with_node nodes i n j = if i == j then n else nodes j

module _ {M : Type 0} where
  -- A message was sent by a node, which is left with the mailbox.
  unfoldable pub after_send : System M → ℕ → (Node × Mailbox M) × Bool → System M
  unfolding with_node
  after_send s i answer = record s { mailbox = answer.0.1; nodes = with_node s.nodes i answer.0.0 }

  -- `Node::new` for a subnet that is bound.
  unfoldable pub bind : System M → ℕ → System M
  unfolding with_node new_node
  bind s inbox_size = record s {
    nodes = with_node s.nodes s.bound (new_node s.bound inbox_size);
    bound = suc s.bound;
  }

  -- A message is dropped, and its permit goes back to its semaphore, as `OwnedSemaphorePermit` does.
  unfoldable pub release : System M → MessageWithPermit M → List (MessageWithPermit M) → System M
  unfolding with_node
  release s m taken =
      let n = s.nodes m.permit in
      record s {
        nodes = with_node s.nodes m.permit (record n { available = suc n.available });
        taken = taken;
      }

  pub data Step (s : System M) : System M → Type 0 where
    send_one :
        (answer : TrySend) (i : ℕ) (to : Address) (priority : Bool) (message : M)
        → i < s.bound
        → Step s (after_send s i (send answer (s.nodes i) s.mailbox to priority message))
    take_regular :
        (m : MessageWithPermit M) (rest : List (MessageWithPermit M))
        → s.mailbox.regular ≡ m ∷ rest
        → Step s (record s { mailbox = record s.mailbox { regular = rest }; taken = m ∷ s.taken })
    take_priority :
        (m : Address × M) (rest : List (Address × M))
        → s.mailbox.priority ≡ m ∷ rest
        → Step s (record s { mailbox = record s.mailbox { priority = rest } })
    handle_one :
        (l : List (MessageWithPermit M)) (m : MessageWithPermit M) (r : List (MessageWithPermit M))
        → s.taken ≡ l ++ m ∷ r
        → Step s (release s m (l ++ r))
    bind_one : (inbox_size : ℕ) → Step s (bind s inbox_size)

  pub data Reach (s : System M) : System M → Type 0 where
    here : Reach s s
    next : {t u : System M} → Reach s t → Step t u → Reach s u

  -- The actor before it has bound a subnet.
  unfoldable pub start : ℕ → System M
  unfolding with_node new_mailbox new_node
  start inbox_size = record {
    mailbox = new_mailbox;
    nodes = with_node (λ i. new_node i 0) 0 (new_node 0 inbox_size);
    bound = 1;
    taken = [];
  }

  -- How many messages have a permit of a semaphore.
  abbrev pub count : ℕ → List (MessageWithPermit M) → ℕ
  count i [] = 0
  count i (m ∷ r) = let rest = count i r in if m.permit == i then suc rest else rest

  abbrev pub held : ℕ → System M → ℕ
  held i s = count i s.mailbox.regular + count i s.taken

  count-append :
      (i : ℕ) (l r : List (MessageWithPermit M)) → count i (l ++ r) ≡ count i l + count i r
  count-append i [] r = omega arith
  count-append i (m ∷ l) r = ground (arith, count-append i l r)

  -- Each node has the permits that are free, and the others are held by messages.
  record IsPermitted (s : System M) : Type 0 where
    own : (i : ℕ) → (s.nodes i).semaphore ≡ i
    total : (i : ℕ) → (s.nodes i).available + held i s ≡ (s.nodes i).inbox_size
    unbound : (i : ℕ) → s.bound ≤ i → (s.nodes i).inbox_size ≡ 0

  -- A node and a mailbox after a send.
  Sent : Node → Mailbox M → Node × Mailbox M → Type 0
  Sent s box x =
      (x.0.semaphore ≡ s.semaphore)
      × (x.0.inbox_size ≡ s.inbox_size)
      × (x.0.available + count s.semaphore x.1.regular
          ≡ s.available + count s.semaphore box.regular)
      × ((i : ℕ) → (s.semaphore == i) ≡ false → count i x.1.regular ≡ count i box.regular)

  send_regular-Sent :
      (answer : TrySend) (s : Node) (box : Mailbox M) (to : Address) (message : M)
      → (s.available == 0) ≡ false
      → Sent s box (send_regular answer s box to message).0
  unfolding send_regular Sent
  send_regular-Sent accepted s box to message h =
      let m : MessageWithPermit M = record { to = to; message = message; permit = s.semaphore } in
      (
        refl,
        refl,
        ground (arith, count-append s.semaphore box.regular (m ∷ [])),
        λ i e. ground (arith, count-append i box.regular (m ∷ [])),
      )
  send_regular-Sent not_accepted s box to message h = (refl, refl, refl, λ i e. refl)
  send_regular-Sent closed s box to message h = (refl, refl, refl, λ i e. refl)

  send-Sent :
      (answer : TrySend) (s : Node) (box : Mailbox M) (to : Address) (priority : Bool) (message : M)
      → Sent s box (send answer s box to priority message).0
  unfolding send send_priority Sent
  send-Sent accepted s box to true message = (refl, refl, refl, λ i e. refl)
  send-Sent not_accepted s box to true message = (refl, refl, refl, λ i e. refl)
  send-Sent closed s box to true message = (refl, refl, refl, λ i e. refl)
  send-Sent answer s box to false message = elim (Bool-cases (s.available == 0)) [
    | inl e ↦ rw (send, e) (refl, refl, refl, λ i e. refl)
    | inr e ↦ rw (send, e) (send_regular-Sent answer s box to message e)
  ]

  after_send-IsPermitted :
      (s : System M) (i : ℕ) (x : (Node × Mailbox M) × Bool)
      → i < s.bound
      → Sent (s.nodes i) s.mailbox x.0
      → IsPermitted s
      → IsPermitted (after_send s i x)
  unfolding after_send with_node Sent
  after_send-IsPermitted s i x lt (same, size, kept, others) v = record {
    own = λ j. elim (Bool-cases (i == j)) [
      | inl e ↦ ground (arith, v.own i)
      | inr e ↦ ground (arith, v.own j)
    ];
    total = λ j. elim (Bool-cases (i == j)) [
      | inl e ↦ ground (arith, v.own i, v.total i)
      | inr e ↦ ground (arith, v.own i, v.total j, others j)
    ];
    unbound = λ j h. ground (arith, v.unbound j);
  }

  release-IsPermitted :
      (s : System M) (l : List (MessageWithPermit M)) (m : MessageWithPermit M)
      (r : List (MessageWithPermit M))
      → s.taken ≡ l ++ m ∷ r
      → IsPermitted s
      → IsPermitted (release s m (l ++ r))
  unfolding release with_node
  release-IsPermitted s l m r e v = record {
    own = λ j. ground (arith, v.own j);
    total = λ j.
        ground (arith, v.total j, ap (count j) e, count-append j l (m ∷ r), count-append j l r);
    unbound = λ j h. ground (arith, v.unbound j);
  }

  bind-IsPermitted :
      (s : System M) (inbox_size : ℕ) → IsPermitted s → IsPermitted (bind s inbox_size)
  unfolding bind with_node new_node
  bind-IsPermitted s n v = record {
    own = λ j. ground (arith, v.own j);
    total = λ j. ground (arith, v.total j, v.unbound j);
    unbound = λ j h. ground (arith, v.unbound j);
  }

  Step-IsPermitted : {s t : System M} → Step s t → IsPermitted s → IsPermitted t
  Step-IsPermitted {s} (send_one answer i to priority message lt) v =
      after_send-IsPermitted s i (send answer (s.nodes i) s.mailbox to priority message) lt
        (send-Sent answer (s.nodes i) s.mailbox to priority message) v
  Step-IsPermitted {s} (take_regular m rest e) v = record {
    own = v.own;
    total = λ j. ground (arith, v.total j, ap (count j) e);
    unbound = v.unbound;
  }
  Step-IsPermitted {s} (take_priority m rest e) v = record {
    own = v.own;
    total = v.total;
    unbound = v.unbound;
  }
  Step-IsPermitted {s} (handle_one l m r e) v = release-IsPermitted s l m r e v
  Step-IsPermitted {s} (bind_one inbox_size) v = bind-IsPermitted s inbox_size v

  Reach-IsPermitted : (inbox_size : ℕ) {s : System M} → Reach (start inbox_size) s → IsPermitted s
  unfolding start with_node new_node new_mailbox
  Reach-IsPermitted n here = record {
    own = λ j. ground arith;
    total = λ j. ground arith;
    unbound = λ j h. ground arith;
  }
  Reach-IsPermitted n (next r st) = Step-IsPermitted st (Reach-IsPermitted n r)

  send-ok_iff :
      (s : Node) (box : Mailbox M) (to : Address) (priority : Bool) (message : M)
      → ((send accepted s box to priority message).1 ≡ true)
        ↔ ((priority ≡ true) ⊎ (1 ≤ s.available))
  unfolding send send_priority send_regular
  send-ok_iff s box to priority message = ground arith

  -- In every state that an actor's mailbox reaches while the actor binds any number of subnets: for each
  -- of its nodes, the messages in the regular channel and in the actor's queues that hold a permit of
  -- that node are no more than its `inbox_size`; and while the channel accepts messages, the node sends
  -- one exactly if it has priority or those are fewer than its `inbox_size`.
  pub Reach-bounded :
      (inbox_size : ℕ) {s : System M} (i : ℕ) (to : Address) (priority : Bool) (message : M)
      → Reach (start inbox_size) s
      → (held i s ≤ (s.nodes i).inbox_size)
        × (((send accepted (s.nodes i) s.mailbox to priority message).1 ≡ true)
            ↔ ((priority ≡ true) ⊎ (held i s < (s.nodes i).inbox_size)))
  Reach-bounded n {s} i to priority message r =
      let total = IsPermitted.total (Reach-IsPermitted n r) i in
      let sends = send-ok_iff (s.nodes i) s.mailbox to priority message in
      (
        omega (arith, total),
        (
          λ e. elim (sends.0 e) [ inl p ↦ inl p | inr h ↦ inr (omega (arith, total)) ],
          λ e. elim e [ inl p ↦ sends.1 (inl p) | inr h ↦ sends.1 (inr (omega (arith, total))) ],
        ),
      )
