-- ===== src/Api/Conditions.antt =====
-- `SetConditions` and `SetCondition` of both statuses. Every reading of the clock is an argument.
pub mod Setting
pub mod Stamp
pub mod Refresh
use osrm_operator.Base.{ℕ, List, [], ◌∷◌, Option, none, some, if◌then◌else◌}
use osrm_operator.Text.{codes, text_eq}
use osrm_operator.Kube.{Object, Condition, condition_unknown, status_eq}
use osrm_operator.Status.{
  condition_available, condition_all_replicas_ready, condition_reconciliation_success,
  available_condition, all_replicas_ready_condition, reconcile_success_condition,
}

-- The three variables of the loop of `SetConditions`.
pub record OldConditions : Type 0 where
  pub available : Option Condition
  pub all_replicas_ready : Option Condition
  pub reconciliation_success : Option Condition

abbrev pub no_conditions : OldConditions
no_conditions = record {
  available = none;
  all_replicas_ready = none;
  reconciliation_success = none;
}

-- The `switch` of the loop.
unfoldable pub remember : Condition → OldConditions → OldConditions
remember c old =
    if text_eq c.type condition_all_replicas_ready
    then record old { all_replicas_ready = some c }
    else if text_eq c.type condition_available
    then record old { available = some c }
    else if text_eq c.type condition_reconciliation_success
    then record old { reconciliation_success = some c }
    else old

unfoldable pub remember_all : List Condition → OldConditions → OldConditions
unfolding remember
remember_all [] old = old
remember_all (c ∷ cs) old = remember_all cs (remember c old)

abbrev pub or_initialising : Option Condition → ℕ → Condition
or_initialising none now =
    reconcile_success_condition condition_unknown (codes "Initialising") [] now
or_initialising (some c) now = c

-- `SetConditions`; the clock is read for the success, the availability and the replicas, in this
-- order.
unfoldable pub set_conditions : List Object → ℕ → ℕ → ℕ → List Condition → List Condition
unfolding remember_all available_condition all_replicas_ready_condition reconcile_success_condition
set_conditions resources success_now available_now replicas_now conditions =
    let old = remember_all conditions no_conditions in
    available_condition resources old.available available_now
    ∷ all_replicas_ready_condition resources old.all_replicas_ready replicas_now
    ∷ or_initialising old.reconciliation_success success_now
    ∷ []

-- The fields that `SetCondition` assigns to the condition that it finds.
abbrev pub replaced : Condition → ℕ → Condition → Condition
replaced new now c = record c {
  status = new.status;
  reason = new.reason;
  message = new.message;
  last_transition_time = if status_eq c.status new.status then c.last_transition_time else now;
}

-- `SetCondition`: the loop breaks at the first condition of the type, and does nothing where there
-- is none.
unfoldable pub set_condition : Condition → ℕ → List Condition → List Condition
set_condition new now [] = []
set_condition new now (c ∷ cs) =
    let rest = set_condition new now cs in
    if text_eq c.type new.type then replaced new now c ∷ cs else c ∷ rest
