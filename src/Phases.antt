-- ===== src/Phases.antt =====
-- The phase of a custom resource: `IsMapBuildingInProgress` and `DeterminePhase` of
-- controllers/osrmcluster_controller.go, and their counterparts in osrminstance_controller.go.
pub mod Ready
pub mod Cluster
pub mod Instance
use osrm_operator.Base.{
  List, [], ◌∷◌, Option, none, some, Bool, true, false, not, ◌&&◌, ◌||◌, if◌then◌else◌,
}
use osrm_operator.Base.Int.{pos, ltb_ℤ, eq_ℤ}
use osrm_operator.Text.{Text, text_eq}
use osrm_operator.Text.Decimal.{atoi}
use osrm_operator.Kube.{ObjectMeta, PersistentVolumeClaim, Job, Deployment}
use osrm_operator.Status.{is_persistent_volume_claim_bound, is_job_completed}
use osrm_operator.Api.{
  Phase, building_map, updating_map, redeploying_workers, deploying_workers, workers_deployed,
  workers_redeployed, empty, ProfileSpec, ClusterSpec, InstanceSpec, OsrmCluster, OsrmInstance,
  child_resource_name,
}

abbrev pub claim_name : PersistentVolumeClaim → Text
claim_name pvc = pvc.meta.name

abbrev pub job_name : Job → Text
job_name job = job.meta.name

module _ {A : Type 0} (name_of : A → Text) (is_done : A → Bool) where
  -- The inner loop for one profile: whether an object of that name is found, and whether the loop
  -- met none that is not done. It stops at the first that is not done.
  unfoldable pub check_named : Text → List A → Bool → Bool × Bool
  check_named name [] found = (found, true)
  check_named name (x ∷ xs) found =
      let after_match = if is_done x then check_named name xs true else (true, false) in
      let after_other = check_named name xs found in
      if text_eq (name_of x) name then after_match else after_other

  -- The loop over the profiles, with the flag; it stops where no object is found.
  unfoldable pub all_done : List Text → List A → Bool → Bool
  unfolding check_named
  all_done [] xs all = all
  all_done (name ∷ names) xs all =
      let (found, done) = check_named name xs false in
      let rest = all_done names xs (all && done) in if found then rest else false

  -- The loop of an instance: the first object of that name decides.
  unfoldable pub first_done : Text → List A → Bool
  first_done name [] = false
  first_done name (x ∷ xs) =
      let rest = first_done name xs in if text_eq (name_of x) name then is_done x else rest

-- `instance.ChildResourceName(profile.Name, suffix)` for each profile.
abbrev pub profile_names : ObjectMeta → Text → List ProfileSpec → List Text
profile_names m suffix [] = []
profile_names m suffix (p ∷ ps) = child_resource_name m p.name suffix ∷ profile_names m suffix ps

abbrev pub is_bound : PersistentVolumeClaim → Bool
is_bound pvc = is_persistent_volume_claim_bound (some pvc)

abbrev pub is_completed : Job → Bool
is_completed job = is_job_completed (some job)

-- `IsMapBuildingInProgress`
unfoldable pub is_map_building_in_progress :
    OsrmCluster → List PersistentVolumeClaim → List Job → Text → Bool
unfolding all_done
is_map_building_in_progress resource pvcs jobs generation =
    let names = profile_names resource.meta generation resource.spec.profiles in
    let all_volumes_bound = all_done claim_name is_bound names pvcs true in
    let all_maps_built = all_done job_name is_completed names jobs true in
    not all_volumes_bound || not all_maps_built

-- `IsMapBuildingInProgressForInstance`
unfoldable pub is_map_building_in_progress_for_instance :
    OsrmInstance → List PersistentVolumeClaim → List Job → Text → Bool
unfolding first_done
is_map_building_in_progress_for_instance resource pvcs jobs generation =
    let name = child_resource_name resource.meta [] generation in
    let pvc_bound = first_done claim_name is_bound name pvcs in
    let job_completed = first_done job_name is_completed name jobs in
    not pvc_bound || not job_completed

-- `ReadyReplicas > 0 && ReadyReplicas == Replicas`
abbrev pub is_serving : Deployment → Bool
is_serving d = ltb_ℤ (pos 0) d.ready_replicas && eq_ℤ d.ready_replicas d.replicas

unfoldable pub has_serving : Text → List Deployment → Bool
has_serving name [] = false
has_serving name (d ∷ ds) =
    let rest = has_serving name ds in
    if text_eq d.meta.name name && is_serving d then true else rest

-- The loop that computes `allWorkersDeployed`; `DeploymentSuffix` is empty.
unfoldable pub all_workers_deployed : List Text → List Deployment → Bool
unfolding has_serving
all_workers_deployed [] ds = true
all_workers_deployed (name ∷ names) ds =
    let rest = all_workers_deployed names ds in if has_serving name ds then rest else false

-- The end of both `DeterminePhase`s.
abbrev pub worker_phase : Bool → Text → Phase
worker_phase deployed generation =
    let later = ltb_ℤ (pos 1) (atoi generation).0 in
    if not deployed
    then if later then redeploying_workers else deploying_workers
    else if later
    then workers_redeployed
    else workers_deployed

abbrev pub is_empty : List ProfileSpec → Bool
is_empty [] = true
is_empty (p ∷ ps) = false

-- `OSRMClusterReconciler.DeterminePhase`
unfoldable pub determine_phase :
    OsrmCluster
    → ClusterSpec
    → Text
    → Text
    → List PersistentVolumeClaim
    → List Job
    → List Deployment
    → Phase
determine_phase resource old_spec active future pvcs jobs deployments =
    if is_empty resource.spec.profiles
    then empty
    else if is_map_building_in_progress resource pvcs jobs active
    then building_map
    else if not (text_eq resource.spec.pbf_url old_spec.pbf_url)
        || is_map_building_in_progress resource pvcs jobs future
    then updating_map
    else if not (text_eq active future)
    then redeploying_workers
    else worker_phase
        (all_workers_deployed (profile_names resource.meta [] resource.spec.profiles) deployments)
        active

abbrev pub is_deployment_ready : Option Deployment → Bool
is_deployment_ready none = false
is_deployment_ready (some d) = is_serving d

-- `OSRMInstanceReconciler.DeterminePhase`
unfoldable pub determine_instance_phase :
    OsrmInstance
    → InstanceSpec
    → Text
    → Text
    → List PersistentVolumeClaim
    → List Job
    → Option Deployment
    → Phase
determine_instance_phase resource old_spec active future pvcs jobs deployment =
    if is_map_building_in_progress_for_instance resource pvcs jobs active
    then building_map
    else if not (text_eq resource.spec.pbf_url old_spec.pbf_url)
        || is_map_building_in_progress_for_instance resource pvcs jobs future
    then updating_map
    else if not (text_eq active future)
    then redeploying_workers
    else worker_phase (is_deployment_ready deployment) active
