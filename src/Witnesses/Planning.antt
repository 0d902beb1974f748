-- ===== src/Witnesses/Planning.antt =====
-- Builders of the concrete resources.
use osrm_operator.Base.{refl, ◌↔◌, ◌⊎◌, Any, Result, ok}
use osrm_operator.Text.{codes}
use osrm_operator.Text.Decimal.{atoi, scan, scan_digit, itoa, digits}
use osrm_operator.Api.{updating_map, redeploying_workers, workers_deployed}
use osrm_operator.Generation.{get_next_map_generation}
use osrm_operator.Builders.{Builder, deployment, service, resource_builders_for_phase}
use osrm_operator.Builders.Instance.{InstanceBuilder, to_profile_spec, instance_builders_for_phase}
use osrm_operator.Builders.Exactly.{IsScaled, IsOf, IsOfGateway, IsAmong}
use osrm_operator.Builders.Exactly.Phases.{
  AlwaysScaled, resource_builders_for_phase_iff, instance_builders_for_phase_iff,
}
use osrm_operator.Builders.Autoscaler.{build_autoscaler}
use osrm_operator.Builders.Limit.{PanicsOnUpdate, instance_builders_for_phase-PanicsOnUpdate}
use osrm_operator.Kube.{ObjectMeta}
use osrm_operator.Survival.Cluster.{AreBuildersKept, resource_builders_for_phase-kept}
use osrm_operator.Witnesses.{car, cluster, single, instance_spec}

abbrev builder : Builder
builder = record {
  resource = cluster redeploying_workers;
  map_generation = codes "1";
  future_map_generation = codes "2";
}

resource_builders_for_phase_iff_example :
    IsAmong (deployment car (codes "2")) (resource_builders_for_phase builder redeploying_workers)
    ↔ (Any
          (IsOf IsScaled redeploying_workers (codes "1") (codes "2") (deployment car (codes "2")))
          builder.resource.spec.profiles
        ⊎ IsOfGateway builder.resource.spec.profiles redeploying_workers
            (deployment car (codes "2")))
resource_builders_for_phase_iff_example =
    resource_builders_for_phase_iff builder redeploying_workers (deployment car (codes "2"))

abbrev instance_builder : InstanceBuilder
instance_builder = record {
  resource = single workers_deployed;
  map_generation = codes "1";
  future_map_generation = codes "1";
}

instance_builders_for_phase_iff_example :
    let x = service (to_profile_spec instance_spec) in
    IsAmong x (instance_builders_for_phase instance_builder workers_deployed)
    ↔ IsOf AlwaysScaled workers_deployed (codes "1") (codes "1") x (to_profile_spec instance_spec)
instance_builders_for_phase_iff_example =
    instance_builders_for_phase_iff instance_builder workers_deployed
      (service (to_profile_spec instance_spec))

resource_builders_for_phase-kept_example :
    AreBuildersKept (cluster updating_map) (codes "1") (codes "2")
unfolding get_next_map_generation atoi scan scan_digit itoa digits
resource_builders_for_phase-kept_example =
    resource_builders_for_phase-kept (cluster updating_map) (codes "1") (codes "2") (λ e. refl)

-- The call that finds nothing to change.
abbrev keep_reference : ObjectMeta → Result ObjectMeta
keep_reference m = ok m

instance_builders_for_phase-PanicsOnUpdate_example :
    let m = (single workers_deployed).meta in
    let hpa = build_autoscaler m (to_profile_spec instance_spec) in
    Any
      (PanicsOnUpdate m keep_reference hpa)
      (instance_builders_for_phase instance_builder workers_deployed)
instance_builders_for_phase-PanicsOnUpdate_example =
    instance_builders_for_phase-PanicsOnUpdate instance_builder keep_reference
      (build_autoscaler (single workers_deployed).meta (to_profile_spec instance_spec))
      workers_deployed refl tt
