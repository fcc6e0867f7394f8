-- ===== src/Sup/Child.antt =====
-- components/mm1-sup/src/mixed.rs (`ChildType`) and mixed/decider.rs (`Action`), which both deciders
-- share, and the outcome of a decider's call.
use mm.Shared.{ℕ, Option, Bool, true, false}

abbrev pub Address : Type 0
Address = ℕ

pub data ChildType : Type 0 where
  permanent transient temporary : ChildType

pub data Action (K : Type 0) : Type 0 where
  noop init_done : Action K
  start : K → Action K
  stop : Address → Option K → Action K
  quit : Bool → Action K

pub data DeciderError : Type 0 where
  key_not_found duplicate_key unsupported : DeciderError

-- `panicked` is an `assert!` or `unreachable!` that fired.
pub data Outcome (A : Type 0) : Type 0 where
  ok : A → Outcome A
  err : DeciderError → Outcome A
  panicked : Outcome A

-- `is_acceptable` of `exited`.
unfoldable pub is_acceptable : ChildType → Bool → Bool
is_acceptable permanent normal_exit = false
is_acceptable transient normal_exit = normal_exit
is_acceptable temporary normal_exit = true
