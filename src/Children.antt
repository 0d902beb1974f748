-- ===== src/Children.antt =====
-- The reads of child objects in both controllers and in controllers/reconciler_helpers.go.
pub mod Reads
pub mod Deployed
use osrm_operator.Base.{List, [], ◌∷◌, ◌++◌, Option, none, some, ok}
use osrm_operator.Text.{Text, codes}
use osrm_operator.Kube.{
  ObjectMeta, Kind, Item, Object, object, PersistentVolumeClaim, Job, Deployment,
}
use osrm_operator.Api.{ProfileSpec, OsrmCluster, OsrmInstance, child_resource_name}
use osrm_operator.Builders.{cron_job_suffix}
use osrm_operator.Client.{Client, Action, wrap_result, found, answer, ◌>>=◌, lift}

module _ (c : Client) where
  open c use {World, get, list}

  -- `listPersistentVolumeClaims`
  unfoldable pub list_persistent_volume_claims :
      Text → Text → Action World (List PersistentVolumeClaim)
  list_persistent_volume_claims namespace name =
      answer (wrap_result (codes "failed to list PVCs")) (list Kind.claim namespace name)

  -- `listJobs`
  unfoldable pub list_jobs : Text → Text → Action World (List Job)
  list_jobs namespace name =
      answer (wrap_result (codes "failed to list Jobs")) (list Kind.job namespace name)

  -- A `Get` of which `IsNotFound` is no error.
  unfoldable pub fetch : (k : Kind) → Text → Text → Action World (Option (Item k))
  fetch k namespace name = answer found (get k namespace name)

  -- The loop of `getProfilesDeployments`.
  unfoldable pub fetch_deployments :
      ObjectMeta → List ProfileSpec → List Deployment → Action World (List Deployment)
  unfolding fetch
  fetch_deployments m [] deployments = lift (ok deployments)
  fetch_deployments m (p ∷ ps) deployments = do
    d ← fetch Kind.deployment m.namespace (child_resource_name m p.name [])
    fetch_deployments m ps (elim d [ none ↦ deployments | some x ↦ deployments ++ x ∷ [] ])

  -- `getProfilesDeployments`
  unfoldable pub get_profiles_deployments : OsrmCluster → Action World (List Deployment)
  unfolding fetch_deployments
  get_profiles_deployments r = fetch_deployments r.meta r.spec.profiles []

  -- `getDeployment` of an instance.
  unfoldable pub get_deployment : OsrmInstance → Action World (Option Deployment)
  unfolding fetch
  get_deployment r = fetch Kind.deployment r.meta.namespace (child_resource_name r.meta [] [])

  -- One block of `getChildResources`.
  unfoldable pub add_child :
      (k : Kind) → ObjectMeta → Text → Text → List Object → Action World (List Object)
  unfolding fetch
  add_child k m component suffix children = do
    x ← fetch k m.namespace (child_resource_name m component suffix)
    lift (ok (elim x [ none ↦ children | some o ↦ children ++ object k o ∷ [] ]))

  -- The loop of `getChildResources` over the profiles.
  unfoldable pub add_profiles_children :
      ObjectMeta → List ProfileSpec → List Object → Action World (List Object)
  unfolding add_child
  add_profiles_children m [] children = lift (ok children)
  add_profiles_children m (p ∷ ps) children = do
    with_cron_job ← add_child Kind.cron_job m p.name cron_job_suffix children
    with_deployment ← add_child Kind.deployment m p.name [] with_cron_job
    with_autoscaler ← add_child Kind.autoscaler m p.name [] with_deployment
    with_budget ← add_child Kind.disruption_budget m p.name [] with_autoscaler
    with_service ← add_child Kind.service m p.name [] with_budget
    add_profiles_children m ps with_service

  -- `OSRMClusterReconciler.getChildResources`
  unfoldable pub get_child_resources : OsrmCluster → Action World (List Object)
  unfolding add_profiles_children
  get_child_resources r = do
    with_deployment ← add_child Kind.deployment r.meta [] [] []
    with_service ← add_child Kind.service r.meta [] [] with_deployment
    with_config_map ← add_child Kind.config_map r.meta [] [] with_service
    add_profiles_children r.meta r.spec.profiles with_config_map

  -- `OSRMInstanceReconciler.getChildResources`
  unfoldable pub get_instance_child_resources : OsrmInstance → Action World (List Object)
  unfolding add_child
  get_instance_child_resources r = do
    with_deployment ← add_child Kind.deployment r.meta [] [] []
    with_service ← add_child Kind.service r.meta [] [] with_deployment
    with_autoscaler ← add_child Kind.autoscaler r.meta [] [] with_service
    with_budget ← add_child Kind.disruption_budget r.meta [] [] with_autoscaler
    elim r.spec.speed_updates [
      | none ↦ lift (ok with_budget)
      | some updates ↦ add_child Kind.cron_job r.meta [] cron_job_suffix with_budget
    ]
