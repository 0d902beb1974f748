-- ===== src/Builders/Instance.antt =====
-- internal/resource/osrm_instance_resource_builder.go: the builders of an instance, which has one
-- profile without a name.
use osrm_operator.Base.{List, [], ◌∷◌, none, some}
use osrm_operator.Api.{
  Phase, building_map, updating_map, redeploying_workers, deploying_workers, workers_deployed,
  workers_redeployed, deleting, empty, ProfileSpec, InstanceSpec,
}
use osrm_operator.Generation.{get_next_map_generation}
use osrm_operator.Builders.{
  ResourceBuilder, persistent_volume_claim, job, deployment, service, pod_disruption_budget,
  horizontal_pod_autoscaler, cron_job_of, OsrmResourceBuilder,
}

abbrev pub InstanceBuilder : Type 0
InstanceBuilder = OsrmResourceBuilder InstanceSpec

-- `toProfileSpec`
unfoldable pub to_profile_spec : InstanceSpec → ProfileSpec
to_profile_spec spec = record {
  name = [];
  endpoint_name = [];
  replicas = spec.replicas;
  internal_endpoint = none;
  osrm_profile = some spec.osrm_profile;
  min_replicas = spec.min_replicas;
  max_replicas = spec.max_replicas;
  resources = spec.resources;
  speed_updates = spec.speed_updates;
  osrm_routed_options = spec.osrm_routed_options;
}

unfoldable pub instance_map_building_phase_builders : InstanceBuilder → List ResourceBuilder
unfolding to_profile_spec
instance_map_building_phase_builders b =
    let p = to_profile_spec b.resource.spec in
    persistent_volume_claim p b.map_generation ∷ job p b.map_generation ∷ []

unfoldable pub instance_map_updating_resource_builders : InstanceBuilder → List ResourceBuilder
unfolding to_profile_spec
instance_map_updating_resource_builders b =
    let p = to_profile_spec b.resource.spec in
    let next = get_next_map_generation b.map_generation in
    persistent_volume_claim p next ∷ job p next ∷ []

unfoldable pub instance_redeploying_workers_phase_builders : InstanceBuilder → List ResourceBuilder
unfolding to_profile_spec
instance_redeploying_workers_phase_builders b =
    deployment (to_profile_spec b.resource.spec) b.future_map_generation ∷ []

unfoldable pub instance_deploying_workers_phase_builders : InstanceBuilder → List ResourceBuilder
unfolding to_profile_spec
instance_deploying_workers_phase_builders b =
    let p = to_profile_spec b.resource.spec in
    deployment p b.map_generation
    ∷ service p
    ∷ pod_disruption_budget p
    ∷ horizontal_pod_autoscaler p
    ∷ []

unfoldable pub instance_workers_deployed_phase_builders : InstanceBuilder → List ResourceBuilder
unfolding to_profile_spec
instance_workers_deployed_phase_builders b =
    let p = to_profile_spec b.resource.spec in
    service p
    ∷ horizontal_pod_autoscaler p
    ∷ pod_disruption_budget p
    ∷ deployment p b.map_generation
    ∷ cron_job_of p b.map_generation

-- `OSRMInstanceResourceBuilder.ResourceBuildersForPhase`
unfoldable pub instance_builders_for_phase : InstanceBuilder → Phase → List ResourceBuilder
instance_builders_for_phase b building_map = instance_map_building_phase_builders b
instance_builders_for_phase b deploying_workers = instance_deploying_workers_phase_builders b
instance_builders_for_phase b workers_deployed = instance_workers_deployed_phase_builders b
instance_builders_for_phase b workers_redeployed = instance_workers_deployed_phase_builders b
instance_builders_for_phase b updating_map = instance_map_updating_resource_builders b
instance_builders_for_phase b redeploying_workers = instance_redeploying_workers_phase_builders b
instance_builders_for_phase b deleting = []
instance_builders_for_phase b empty = []
