-- ===== src/Status.antt =====
-- internal/status/status.go: conditions of the custom resources, and the tests on claims, jobs and
-- deployments. `time.Now()` is an argument.
pub mod Laws
use osrm_operator.Base.{
  ℕ, List, [], ◌∷◌, Option, none, some, Bool, true, false, not, ◌&&◌, if◌then◌else◌,
}
use osrm_operator.Base.Int.{ltb_ℤ}
use osrm_operator.Text.{Text, codes, text_eq}
use osrm_operator.Kube.{
  ConditionStatus, condition_true, condition_false, is_condition_true, status_eq, Condition,
  PersistentVolumeClaim, is_claim_bound, Job, JobCondition, Deployment, DeploymentCondition, Object,
  as_deployment,
}

abbrev pub condition_available : Text
condition_available = codes "Available"

abbrev pub condition_reconciliation_success : Text
condition_reconciliation_success = codes "ReconciliationSuccess"

abbrev pub condition_all_replicas_ready : Text
condition_all_replicas_ready = codes "AllReplicasReady"

-- `if old != nil { condition.LastTransitionTime = old.LastTransitionTime }`; the zero time is 0.
abbrev pub old_time : Option Condition → ℕ
old_time none = 0
old_time (some old) = old.last_transition_time

-- `if old == nil || old.Status != condition.Status`, then the time is that of now.
abbrev pub stamp : Option Condition → ℕ → Condition → Condition
stamp none now c = record c { last_transition_time = now }
stamp (some old) now c =
    if status_eq old.status c.status then c else record c { last_transition_time = now }

-- The inner loop of `AvailableCondition`: the last condition that says so gives the message.
unfoldable pub mark_available : List DeploymentCondition → Condition → Condition
mark_available [] c = c
mark_available (d ∷ ds) c = mark_available ds (
    if text_eq d.type (codes "Available") && is_condition_true d.status
    then record c { status = condition_true; message = d.message; reason = codes "Available" }
    else c)

-- The outer loop stops at the first deployment, which a typed nil pointer cannot be here.
unfoldable pub scan_available : List Object → Condition → Condition
unfolding mark_available
scan_available [] c = c
scan_available (o ∷ os) c = elim (as_deployment o) [
  | none ↦ scan_available os c
  | some d ↦ mark_available d.conditions c
]

unfoldable pub available_condition : List Object → Option Condition → ℕ → Condition
unfolding scan_available
available_condition resources old now = stamp old now (
    scan_available resources (record {
      type = condition_available;
      status = condition_false;
      last_transition_time = old_time old;
      reason = codes "DeploymentUnavailable";
      message = codes "Deployment does not have minimum availability";
    }))

-- `deployment.Spec.Replicas != nil && deployment.Status.ReadyReplicas >= *deployment.Spec.Replicas`
abbrev pub has_ready_replicas : Deployment → Bool
has_ready_replicas d = elim d.spec_replicas [
  | none ↦ false
  | some wanted ↦ not (ltb_ℤ d.ready_replicas wanted)
]

-- `DoAllReplicasReady`
unfoldable pub do_all_replicas_ready : List Object → Bool
do_all_replicas_ready [] = false
do_all_replicas_ready (o ∷ os) =
    let rest = do_all_replicas_ready os in
    elim (as_deployment o) [ none ↦ rest | some d ↦ if has_ready_replicas d then true else rest ]

unfoldable pub all_replicas_ready_condition : List Object → Option Condition → ℕ → Condition
unfolding do_all_replicas_ready
all_replicas_ready_condition resources old now = stamp old now (
    if do_all_replicas_ready resources
    then record {
      type = condition_all_replicas_ready;
      status = condition_true;
      last_transition_time = old_time old;
      reason = codes "AllReplicasReady";
      message = codes "All pods are ready";
    }
    else record {
      type = condition_all_replicas_ready;
      status = condition_false;
      last_transition_time = old_time old;
      reason = codes "NotAllReplicasReady";
      message = codes "One or more pods are not ready";
    })

unfoldable pub reconcile_success_condition : ConditionStatus → Text → Text → ℕ → Condition
reconcile_success_condition status reason message now = record {
  type = condition_reconciliation_success;
  status = status;
  last_transition_time = now;
  reason = reason;
  message = message;
}

-- `IsPersistentVolumeClaimBound`
unfoldable pub is_persistent_volume_claim_bound : Option PersistentVolumeClaim → Bool
is_persistent_volume_claim_bound none = false
is_persistent_volume_claim_bound (some pvc) = is_claim_bound pvc.phase

unfoldable pub has_complete : List JobCondition → Bool
has_complete [] = false
has_complete (c ∷ cs) =
    if text_eq c.type (codes "Complete") && is_condition_true c.status
    then true
    else has_complete cs

-- `IsJobCompleted`
unfoldable pub is_job_completed : Option Job → Bool
unfolding has_complete
is_job_completed none = false
is_job_completed (some job) = has_complete job.conditions
