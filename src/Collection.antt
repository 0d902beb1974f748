-- ===== src/Collection.antt =====
-- `GarbageCollection` of both controllers: what is expected, and the deletion of the rest.
pub mod Sweep
pub mod Collect
pub mod Generations
pub mod Expected
pub mod Cluster
pub mod Instance
use osrm_operator.Base.{List, [], ◌∷◌, ◌++◌, none, some, Bool, not, ◌&&◌, ◌||◌, ok, if◌then◌else◌}
use osrm_operator.Text.{Text, codes, text_eq}
use osrm_operator.Dict.{contains}
use osrm_operator.Kube.{ObjectMeta, Kind, Item, item_meta, item_name}
use osrm_operator.Api.{
  Phase, updating_map, redeploying_workers, deploying_workers, phase_eq, ProfileSpec, OsrmCluster,
  OsrmInstance, child_resource_name,
}
use osrm_operator.Builders.{cron_job_suffix}
use osrm_operator.Generation.{
  get_active_map_generation, get_instance_active_map_generation, compute_future_map_generation,
}
use osrm_operator.Children.{
  list_persistent_volume_claims, list_jobs, get_profiles_deployments, get_deployment,
}
use osrm_operator.Client.{Client, Action, wrap_result, gone, answer, ◌>>=◌, ◌>>◌, lift}

-- The noun of the log and error messages.
abbrev pub noun : Kind → Text
noun Kind.deployment = codes "Deployment"
noun Kind.service = codes "Service"
noun Kind.config_map = codes "ConfigMap"
noun Kind.cron_job = codes "CronJob"
noun Kind.autoscaler = codes "HPA"
noun Kind.disruption_budget = codes "PDB"
noun Kind.claim = codes "PVC"
noun Kind.job = codes "Job"

-- What one profile adds to `expectedResources`.
abbrev pub expected_of : ObjectMeta → ProfileSpec → List Text → List Text
expected_of m p rest =
    child_resource_name m p.name []
    ∷ child_resource_name m p.name []
    ∷ child_resource_name m p.name []
    ∷ child_resource_name m p.name []
    ∷ elim p.speed_updates [
      | none ↦ rest
      | some updates ↦ child_resource_name m p.name cron_job_suffix ∷ rest
    ]

abbrev pub gateway_expected : ObjectMeta → List ProfileSpec → List Text
gateway_expected m [] = []
gateway_expected m (p ∷ ps) =
    child_resource_name m [] [] ∷ child_resource_name m [] [] ∷ child_resource_name m [] [] ∷ []

unfoldable pub profiles_expected : ObjectMeta → List ProfileSpec → List Text → List Text
profiles_expected m [] rest = rest
profiles_expected m (p ∷ ps) rest = expected_of m p (profiles_expected m ps rest)

-- The keys of `expectedResources` of a cluster.
unfoldable pub expected_resources : OsrmCluster → List Text
unfolding profiles_expected
expected_resources r =
    profiles_expected r.meta r.spec.profiles (gateway_expected r.meta r.spec.profiles)

-- The keys of `expectedResources` of an instance.
unfoldable pub instance_expected_resources : OsrmInstance → List Text
instance_expected_resources r =
    child_resource_name r.meta [] []
    ∷ child_resource_name r.meta [] []
    ∷ child_resource_name r.meta [] []
    ∷ child_resource_name r.meta [] []
    ∷ elim r.spec.speed_updates [
      | none ↦ []
      | some updates ↦ child_resource_name r.meta [] cron_job_suffix ∷ []
    ]

-- Whether the future generation is kept as well.
abbrev pub keeps_future : Phase → Text → Text → Bool
keeps_future phase active future =
    not (text_eq active future)
    && (phase_eq phase updating_map
        || phase_eq phase redeploying_workers
        || phase_eq phase deploying_workers)

-- The keys of `expectedPVCs`, which are those of `expectedJobs` too.
unfoldable pub expected_generations :
    ObjectMeta → Phase → Text → Text → List ProfileSpec → List Text
expected_generations m phase active future [] = []
expected_generations m phase active future (p ∷ ps) =
    let rest = expected_generations m phase active future ps in
    child_resource_name m p.name active
    ∷ (if keeps_future phase active future
        then child_resource_name m p.name future ∷ rest
        else rest)

-- The same of an instance.
unfoldable pub instance_expected_generations : ObjectMeta → Phase → Text → Text → List Text
instance_expected_generations m phase active future =
    child_resource_name m [] active
    ∷ (if keeps_future phase active future then child_resource_name m [] future ∷ [] else [])

-- The kinds that a cluster's collection goes through by their names alone, in the order of the code,
-- and those of an instance, which has no config map.
abbrev pub cluster_kinds : List Kind
cluster_kinds =
    Kind.cron_job ∷ Kind.deployment ∷ Kind.autoscaler ∷ Kind.disruption_budget ∷ Kind.service
    ∷ Kind.config_map ∷ []

abbrev pub instance_kinds : List Kind
instance_kinds =
    Kind.cron_job ∷ Kind.deployment ∷ Kind.autoscaler ∷ Kind.disruption_budget ∷ Kind.service ∷ []

module _ (c : Client) where
  open c use {World, get, list, delete}

  -- The loop that deletes what is not expected.
  unfoldable pub sweep : (k : Kind) → List Text → List (Item k) → Action World (Unit {0})
  sweep k expected [] = lift (ok tt)
  sweep k expected (x ∷ xs) =
      let name = item_name k x in
      let rest = sweep k expected xs in
      if contains name expected
      then rest
      else (answer (gone (codes "failed to delete " ++ (noun k ++ (codes " " ++ name))))
            (delete k (item_meta k x).namespace name)
          >> rest)

  -- The listing and the loop for one kind.
  unfoldable pub collect : Kind → ObjectMeta → List Text → Action World (Unit {0})
  unfolding sweep
  collect k m expected =
      answer (wrap_result (codes "failed to list " ++ (noun k ++ codes "s")))
        (list k m.namespace m.name)
      >>= sweep k expected

  -- One kind after another.
  unfoldable pub collect_kinds : List Kind → ObjectMeta → List Text → Action World (Unit {0})
  unfolding collect
  collect_kinds [] m expected = lift (ok tt)
  collect_kinds (k ∷ ks) m expected = collect k m expected >> collect_kinds ks m expected

  -- What both controllers do with the claims and jobs: `read_active` reads the active generation
  -- from the deployments, and `expected` gives the keys of `expectedPVCs` and `expectedJobs`.
  unfoldable pub collect_generations :
      ObjectMeta → Action World Text → (Text → Text → List Text) → Action World (Unit {0})
  unfolding sweep
  collect_generations m read_active expected = do
    pvcs ←
        answer (wrap_result (codes "failed to get PVCs for garbage collection"))
          (list_persistent_volume_claims c m.namespace m.name)
    jobs ←
        answer (wrap_result (codes "failed to get Jobs for garbage collection"))
          (list_jobs c m.namespace m.name)
    active ← read_active
    future ← lift (
        wrap_result (codes "failed to get future map generation")
          (compute_future_map_generation pvcs))
    sweep Kind.claim (expected active future) pvcs
    sweep Kind.job (expected active future) jobs

  unfoldable pub read_active : OsrmCluster → Action World Text
  read_active r = do
    deployments ←
        answer (wrap_result (codes "failed to get profiles deployments for garbage collection"))
          (get_profiles_deployments c r)
    lift (
        wrap_result (codes "failed to get active map generation")
          (get_active_map_generation deployments))

  unfoldable pub read_instance_active : OsrmInstance → Action World Text
  read_instance_active r = do
    deployment ←
        answer (wrap_result (codes "failed to get deployment for garbage collection"))
          (get_deployment c r)
    lift (
        wrap_result (codes "failed to get active map generation")
          (get_instance_active_map_generation deployment))

  -- `OSRMClusterReconciler.GarbageCollection`
  unfoldable pub garbage_collection : OsrmCluster → Action World (Unit {0})
  unfolding collect_kinds collect_generations read_active
  garbage_collection r =
      collect_kinds cluster_kinds r.meta (expected_resources r)
      >> collect_generations r.meta (read_active r)
          λ active future. expected_generations r.meta r.status.phase active future r.spec.profiles

  -- `OSRMInstanceReconciler.GarbageCollection`
  unfoldable pub instance_garbage_collection : OsrmInstance → Action World (Unit {0})
  unfolding collect_kinds collect_generations read_instance_active
  instance_garbage_collection r =
      collect_kinds instance_kinds r.meta (instance_expected_resources r)
      >> collect_generations r.meta (read_instance_active r)
          λ active future. instance_expected_generations r.meta r.status.phase active future
