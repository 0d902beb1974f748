-- ===== src/Builders.antt =====
-- internal/resource: which child objects are built in which phase, and their kinds and names.
-- The plan of a cluster is osrm_resource_builder.go; the kinds and names are those that the `Build`
-- of each builder gives its object.
pub mod Instance
pub mod Plan
pub mod Exactly
pub mod Autoscaler
pub mod Limit
pub mod Naming
use osrm_operator.Base.{List, [], ◌∷◌, ◌++◌, none, some, Bool, true, false, if◌then◌else◌}
use osrm_operator.Text.{Text, codes, text_eq}
use osrm_operator.Kube.{ObjectMeta, Kind}
use osrm_operator.Api.{
  Phase, building_map, updating_map, redeploying_workers, deploying_workers, workers_deployed,
  workers_redeployed, deleting, empty, ProfileSpec, ClusterSpec, Resource, child_resource_name,
}
use osrm_operator.Generation.{get_next_map_generation}

-- `CronJobSuffix`; every other suffix that is used is empty, and so is `GatewaySuffix`.
abbrev pub cron_job_suffix : Text
cron_job_suffix = codes "speed-updates"

-- The implementations of `ResourceBuilder`, with the profile and the generation that each is
-- scoped to.
pub data ResourceBuilder : Type 0 where
  persistent_volume_claim job deployment cron_job : ProfileSpec → Text → ResourceBuilder
  service pod_disruption_budget horizontal_pod_autoscaler : ProfileSpec → ResourceBuilder
  config_map gateway_service gateway_deployment : List ProfileSpec → ResourceBuilder

-- `OSRMResourceBuilder`, also that inside an `OSRMInstanceResourceBuilder`.
pub record OsrmResourceBuilder (S : Type 0) : Type 0 where
  pub resource : Resource S
  pub map_generation : Text
  pub future_map_generation : Text

-- `NewOSRMResourceBuilder`, and `NewOSRMInstanceResourceBuilder`.
unfoldable pub new_osrm_resource_builder :
    {S : Type 0} → Resource S → Text → Text → OsrmResourceBuilder S
unfolding text_eq
new_osrm_resource_builder resource map_generation next_map_generation =
    let current = if text_eq map_generation [] then codes "1" else map_generation in
    record {
      resource = resource;
      map_generation = current;
      future_map_generation =
          if text_eq next_map_generation [] then current else next_map_generation;
    }

-- `profile.MinReplicas != nil && profile.MaxReplicas != nil`
abbrev pub scales : ProfileSpec → Bool
scales p = elim p.min_replicas [
  | none ↦ false
  | some low ↦ elim p.max_replicas [ none ↦ false | some high ↦ true ]
]

abbrev pub autoscaler_of : ProfileSpec → List ResourceBuilder
autoscaler_of p = if scales p then horizontal_pod_autoscaler p ∷ [] else []

abbrev pub cron_job_of : ProfileSpec → Text → List ResourceBuilder
cron_job_of p generation = elim p.speed_updates [
  | none ↦ []
  | some updates ↦ cron_job p generation ∷ []
]

module _ (generation : Text) where
  -- The loops of `MapBuildingPhaseBuilders` and `MapUpdatingResourceBuilders`.
  unfoldable pub map_builders : List ProfileSpec → List ResourceBuilder
  map_builders [] = []
  map_builders (p ∷ ps) = persistent_volume_claim p generation ∷ job p generation ∷ map_builders ps

  -- The loop of `RedeployingWorkersPhaseBuilders`.
  unfoldable pub redeploying_builders : List ProfileSpec → List ResourceBuilder
  redeploying_builders [] = []
  redeploying_builders (p ∷ ps) = deployment p generation ∷ redeploying_builders ps

  -- The loop of `DeployingWorkersPhaseBuilders`.
  unfoldable pub deploying_builders : List ProfileSpec → List ResourceBuilder
  deploying_builders [] = []
  deploying_builders (p ∷ ps) =
      deployment p generation
      ∷ service p
      ∷ pod_disruption_budget p
      ∷ (autoscaler_of p ++ deploying_builders ps)

  -- The loop of `WorkersDeployedPhaseBuilders`.
  unfoldable pub deployed_builders : List ProfileSpec → List ResourceBuilder
  deployed_builders [] = []
  deployed_builders (p ∷ ps) =
      service p
      ∷ pod_disruption_budget p
      ∷ deployment p generation
      ∷ (autoscaler_of p ++ (cron_job_of p generation ++ deployed_builders ps))

-- The end of `WorkersDeployedPhaseBuilders`.
abbrev pub gateway_builders : List ProfileSpec → List ResourceBuilder
gateway_builders [] = []
gateway_builders (p ∷ ps) =
    config_map (p ∷ ps) ∷ gateway_service (p ∷ ps) ∷ gateway_deployment (p ∷ ps) ∷ []

abbrev pub Builder : Type 0
Builder = OsrmResourceBuilder ClusterSpec

unfoldable pub map_building_phase_builders : Builder → List ResourceBuilder
unfolding map_builders
map_building_phase_builders b = map_builders b.map_generation b.resource.spec.profiles

unfoldable pub map_updating_resource_builders : Builder → List ResourceBuilder
unfolding map_builders
map_updating_resource_builders b =
    map_builders (get_next_map_generation b.map_generation) b.resource.spec.profiles

unfoldable pub redeploying_workers_phase_builders : Builder → List ResourceBuilder
unfolding redeploying_builders
redeploying_workers_phase_builders b =
    redeploying_builders b.future_map_generation b.resource.spec.profiles

unfoldable pub deploying_workers_phase_builders : Builder → List ResourceBuilder
unfolding deploying_builders
deploying_workers_phase_builders b = deploying_builders b.map_generation b.resource.spec.profiles

unfoldable pub workers_deployed_phase_builders : Builder → List ResourceBuilder
unfolding deployed_builders
workers_deployed_phase_builders b =
    deployed_builders b.map_generation b.resource.spec.profiles
    ++ gateway_builders b.resource.spec.profiles

-- `OSRMResourceBuilder.ResourceBuildersForPhase`
unfoldable pub resource_builders_for_phase : Builder → Phase → List ResourceBuilder
resource_builders_for_phase b building_map = map_building_phase_builders b
resource_builders_for_phase b deploying_workers = deploying_workers_phase_builders b
resource_builders_for_phase b workers_deployed = workers_deployed_phase_builders b
resource_builders_for_phase b workers_redeployed = workers_deployed_phase_builders b
resource_builders_for_phase b updating_map = map_updating_resource_builders b
resource_builders_for_phase b redeploying_workers = redeploying_workers_phase_builders b
resource_builders_for_phase b deleting = []
resource_builders_for_phase b empty = []

-- The kind of the object that a builder builds.
abbrev pub built_kind : ResourceBuilder → Kind
built_kind (persistent_volume_claim p g) = Kind.claim
built_kind (job p g) = Kind.job
built_kind (deployment p g) = Kind.deployment
built_kind (cron_job p g) = Kind.cron_job
built_kind (service p) = Kind.service
built_kind (pod_disruption_budget p) = Kind.disruption_budget
built_kind (horizontal_pod_autoscaler p) = Kind.autoscaler
built_kind (config_map ps) = Kind.config_map
built_kind (gateway_service ps) = Kind.service
built_kind (gateway_deployment ps) = Kind.deployment

-- The name of the object that a builder builds.
unfoldable pub built_name : ObjectMeta → ResourceBuilder → Text
built_name m (persistent_volume_claim p g) = child_resource_name m p.name g
built_name m (job p g) = child_resource_name m p.name g
built_name m (deployment p g) = child_resource_name m p.name []
built_name m (cron_job p g) = child_resource_name m p.name cron_job_suffix
built_name m (service p) = child_resource_name m p.name []
built_name m (pod_disruption_budget p) = child_resource_name m p.name []
built_name m (horizontal_pod_autoscaler p) = child_resource_name m p.name []
built_name m (config_map ps) = child_resource_name m [] []
built_name m (gateway_service ps) = m.name
built_name m (gateway_deployment ps) = m.name
