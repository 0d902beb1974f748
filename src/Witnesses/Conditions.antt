-- ===== src/Witnesses/Conditions.antt =====
-- Conditions computed from concrete child objects.
use osrm_operator.Base.{List, [], ◌∷◌, some, true, Any, ◌≡◌, ◌↔◌}
use osrm_operator.Text.{codes}
use osrm_operator.Kube.Fresh.{fresh_service}
use osrm_operator.Kube.{Kind, Object, object, Condition, condition_true, condition_false}
use osrm_operator.Status.{
  condition_available, condition_reconciliation_success, do_all_replicas_ready, available_condition,
}
use osrm_operator.Status.Laws.{
  IsReadyDeployment, do_all_replicas_ready_iff, HasAvailable, available_condition_iff,
}
use osrm_operator.Api.Conditions.{set_conditions, set_condition}
use osrm_operator.Api.Conditions.Setting.{IsSetIn, set_condition-IsSetIn}
use osrm_operator.Api.Conditions.Refresh.{set_conditions-again}
use osrm_operator.Witnesses.{meta_of, deployment_of}

abbrev objects : List Object
objects =
    object Kind.service (fresh_service (meta_of (codes "osm")))
    ∷ object Kind.deployment (deployment_of (codes "osm") (codes "osm-1"))
    ∷ []

abbrev unavailable : Condition
unavailable = record {
  type = condition_available;
  status = condition_false;
  last_transition_time = 3;
  reason = codes "DeploymentUnavailable";
  message = [];
}

abbrev success : Condition
success = record {
  type = condition_reconciliation_success;
  status = condition_true;
  last_transition_time = 4;
  reason = codes "Success";
  message = codes "Reconciliation completed";
}

do_all_replicas_ready_iff_example :
    (do_all_replicas_ready objects ≡ true) ↔ Any IsReadyDeployment objects
do_all_replicas_ready_iff_example = do_all_replicas_ready_iff objects

available_condition_iff_example :
    ((available_condition objects (some unavailable) 9).status ≡ condition_true)
    ↔ HasAvailable objects
available_condition_iff_example = available_condition_iff objects (some unavailable) 9

set_condition-IsSetIn_example :
    let cs = set_conditions objects 1 2 3 (unavailable ∷ []) in
    IsSetIn success 8 cs (set_condition success 8 cs)
set_condition-IsSetIn_example =
    set_condition-IsSetIn success 8 (set_conditions objects 1 2 3 (unavailable ∷ []))

set_conditions-again_example :
    set_conditions objects 4 5 6 (set_conditions objects 1 2 3 (unavailable ∷ []))
    ≡ set_conditions objects 1 2 3 (unavailable ∷ [])
set_conditions-again_example = set_conditions-again objects 1 2 3 4 5 6 (unavailable ∷ [])
