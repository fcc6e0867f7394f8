-- ===== src/Sup/Uniform/Lifecycle.antt =====
-- The uniform supervisor among the forks that start its children. A fork reports once, that its child
-- runs or that it does not, and the address of a new child is not that of another.
use mm.Shared.{◌≡◌, ◌≢◌, sym, subst, List, [], ◌∷◌, ◌++◌, none, ℕ_discrete, arith}
use mm.Shared.SlotMap.{SlotMap}
use mm.Shared.Map.{get}
use mm.Sup.Uniform.Kind.{UniformChildType}
use mm.Sup.Uniform.{
  ChildEntry, Children, Message, start_request, child_started, child_start_failed, stop_request,
  exited, unexpected, State, Call, Answers, Outcome, done, panicked, no_children, handle,
}
use mm.Sup.Uniform.Indexes.{no_children-IsValid}
use mm.Sup.Uniform.Tracking.{
  forks, IsTracked, Keeps, handle_child_started-Keeps, handle_child_start_failed-IsTracked,
  handle_stop_request-Keeps,
}
use mm.Sup.Uniform.Exits.{handle_start_request-Keeps, handle_sys_exited-Keeps}

-- One of the forks at work has reported.
abbrev pub Reports : {K : Type 0} → K → List K → List K → Type 0
Reports k pending left =
    (before : List _) × (after : List _) × (pending ≡ before ++ k ∷ after)
    × (left ≡ before ++ after)

module _ {A R : Type 0} (H : Type 0) (kind : UniformChildType A R)
    (slots : SlotMap (ChildEntry kind.Data)) (produce : A → R) where
  -- The message can come in while the forks are at work, and leaves those at work.
  abbrev pub Arrives :
      Children slots → List slots.Key → Message slots.Key A H → List slots.Key → Type 0
  Arrives c pending (child_started k a) left =
      Reports k pending left × (get ℕ_discrete a c.by_address ≡ none)
  Arrives c pending (child_start_failed k) left = Reports k pending left
  Arrives c pending (start_request h a) left = left ≡ pending
  Arrives c pending (stop_request h a) left = left ≡ pending
  Arrives c pending (exited p n) left = left ≡ pending
  Arrives c pending unexpected left = left ≡ pending

  -- The children, and the forks at work that start one.
  pub record System : Type 0 where
    pub children : Children slots
    pub pending : List slots.Key

  -- The supervisor handles a message and goes on.
  pub data Step (s : System) : System → Type 0 where
    hear :
        (w : Answers) (m : Message slots.Key A H) (left : List slots.Key) (c : Children slots)
        (calls : List (Call slots.Key R H))
        → Arrives s.children s.pending m left
        → handle {H = H} kind slots produce w s.children m ≡ done (c, calls)
        → Step s (record { children = c; pending = forks calls ++ left })

  pub data Reach (s : System) : System → Type 0 where
    here : Reach s s
    next : {t u : System} → Reach s t → Step t u → Reach s u

  abbrev pub start : System
  start = record { children = no_children slots; pending = [] }

  start-IsTracked : IsTracked slots (no_children slots) []
  unfolding no_children
  start-IsTracked = record {
    valid = no_children-IsValid slots;
    once = λ k. ground (arith, slots.get-empty k);
  }

  handle-Keeps :
      (w : Answers) (c : Children slots) (pending left : List slots.Key) (m : Message slots.Key A H)
      → IsTracked slots c pending
      → Arrives c pending m left
      → Keeps slots left (handle {H = H} kind slots produce w c m)
  unfolding handle
  handle-Keeps w c pending left (start_request h a) v e =
      subst (λ p. Keeps slots p (handle {H = H} kind slots produce w c (start_request h a))) (sym e)
        (handle_start_request-Keeps H kind slots produce w c h a pending v)
  handle-Keeps w c pending left (stop_request h a) v e =
      subst (λ p. Keeps slots p (handle {H = H} kind slots produce w c (stop_request h a))) (sym e)
        (handle_stop_request-Keeps R H slots w c h a pending v)
  handle-Keeps w c pending left (exited p n) v e =
      subst (λ q. Keeps slots q (handle {H = H} kind slots produce w c (exited p n))) (sym e)
        (handle_sys_exited-Keeps H kind slots produce w c p n pending v)
  handle-Keeps w c pending left unexpected v e = subst (IsTracked slots c) (sym e) v
  handle-Keeps w c pending left (child_started k a) v ((before, after, e, f), new) =
      subst (λ p. Keeps slots p (handle {H = H} kind slots produce w c (child_started k a))) (sym f)
        (handle_child_started-Keeps R H slots c k a before after (subst (IsTracked slots c) e v)
          new)
  handle-Keeps w c pending left (child_start_failed k) v (before, after, e, f) =
      subst (λ p. Keeps slots p (handle {H = H} kind slots produce w c (child_start_failed k)))
        (sym f)
        (handle_child_start_failed-IsTracked slots c k before after (subst (IsTracked slots c) e v))

  Step-IsTracked :
      {s t : System}
      → IsTracked slots s.children s.pending
      → Step s t
      → IsTracked slots t.children t.pending
  Step-IsTracked {s} v (hear w m left c calls a e) =
      subst (Keeps slots left) e (handle-Keeps w s.children s.pending left m v a)

  -- In every state that a uniform supervisor reaches, an address is listed exactly for the children
  -- that run or are being stopped, and leads to its child, and the children that are being started
  -- are exactly those for which a fork is at work, one fork each, given that a fork reports once and
  -- that a new address is not that of another child.
  pub Reach-IsTracked : {s : System} → Reach start s → IsTracked slots s.children s.pending
  Reach-IsTracked here = start-IsTracked
  Reach-IsTracked (next r st) = Step-IsTracked (Reach-IsTracked r) st

  Keeps-ne-panicked :
      (left : List slots.Key) (o : Outcome (State slots R H)) → Keeps slots left o → o ≢ panicked
  Keeps-ne-panicked left o k e = subst (Keeps slots left) e k

  -- Whatever message arrives in a state that a uniform supervisor reaches, and whatever the context
  -- answers, handling it does not panic, given that a fork reports once and that a new address is not
  -- that of another child.
  pub Reach-ne-panicked :
      {s : System} (w : Answers) (m : Message slots.Key A H) (left : List slots.Key)
      → Reach start s
      → Arrives s.children s.pending m left
      → handle {H = H} kind slots produce w s.children m ≢ panicked
  Reach-ne-panicked {s} w m left r a =
      Keeps-ne-panicked left (handle {H = H} kind slots produce w s.children m)
        (handle-Keeps w s.children s.pending left m (Reach-IsTracked r) a)
