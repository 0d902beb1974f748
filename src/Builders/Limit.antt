-- ===== src/Builders/Limit.antt =====
-- Which autoscalers of a phase have the limit that their update dereferences.
use osrm_operator.Base.{
  List, [], ◌∷◌, ◌++◌, none, ◌≡◌, ◌≢◌, inl, inr, refl, arith, All, Any, All-append, Result, panic,
}
use osrm_operator.Text.{Text}
use osrm_operator.Kube.{ObjectMeta, Autoscaler}
use osrm_operator.Api.{
  Phase, building_map, updating_map, redeploying_workers, deploying_workers, workers_deployed,
  workers_redeployed, deleting, empty, ProfileSpec,
}
use osrm_operator.Builders.{
  ResourceBuilder, persistent_volume_claim, job, deployment, cron_job, service,
  pod_disruption_budget, horizontal_pod_autoscaler, config_map, gateway_service, gateway_deployment,
  autoscaler_of, cron_job_of, map_builders, redeploying_builders, deploying_builders,
  deployed_builders, gateway_builders, Builder, map_building_phase_builders,
  map_updating_resource_builders, redeploying_workers_phase_builders,
  deploying_workers_phase_builders, workers_deployed_phase_builders, resource_builders_for_phase,
}
use osrm_operator.Builders.Plan.{IsRunning}
use osrm_operator.Builders.Instance.{
  InstanceBuilder, to_profile_spec, instance_deploying_workers_phase_builders,
  instance_workers_deployed_phase_builders, instance_builders_for_phase,
}
use osrm_operator.Builders.Autoscaler.{update_autoscaler}

-- The profile of an autoscaler has what its update dereferences; no other builder is asked.
abbrev pub HasLimit : ResourceBuilder → Type 0
HasLimit (persistent_volume_claim p g) = Unit
HasLimit (job p g) = Unit
HasLimit (deployment p g) = Unit
HasLimit (cron_job p g) = Unit
HasLimit (service p) = Unit
HasLimit (pod_disruption_budget p) = Unit
HasLimit (horizontal_pod_autoscaler p) = p.max_replicas ≢ none
HasLimit (config_map ps) = Unit
HasLimit (gateway_service ps) = Unit
HasLimit (gateway_deployment ps) = Unit

-- The builder is that of an autoscaler whose update panics.
abbrev pub PanicsOnUpdate :
    ObjectMeta → (ObjectMeta → Result ObjectMeta) → Autoscaler → ResourceBuilder → Type 0
PanicsOnUpdate m set_controller_reference hpa (persistent_volume_claim p g) = ⊥
PanicsOnUpdate m set_controller_reference hpa (job p g) = ⊥
PanicsOnUpdate m set_controller_reference hpa (deployment p g) = ⊥
PanicsOnUpdate m set_controller_reference hpa (cron_job p g) = ⊥
PanicsOnUpdate m set_controller_reference hpa (service p) = ⊥
PanicsOnUpdate m set_controller_reference hpa (pod_disruption_budget p) = ⊥
PanicsOnUpdate m set_controller_reference hpa (horizontal_pod_autoscaler p) =
    update_autoscaler m p set_controller_reference hpa ≡ panic
PanicsOnUpdate m set_controller_reference hpa (config_map ps) = ⊥
PanicsOnUpdate m set_controller_reference hpa (gateway_service ps) = ⊥
PanicsOnUpdate m set_controller_reference hpa (gateway_deployment ps) = ⊥

autoscaler_of-HasLimit : (p : ProfileSpec) → All HasLimit (autoscaler_of p)
autoscaler_of-HasLimit p = ground arith

cron_job_of-HasLimit : (p : ProfileSpec) (g : Text) → All HasLimit (cron_job_of p g)
cron_job_of-HasLimit p g = ground arith

map_builders-HasLimit : (g : Text) (ps : List ProfileSpec) → All HasLimit (map_builders g ps)
unfolding map_builders
map_builders-HasLimit g [] = tt
map_builders-HasLimit g (p ∷ ps) = (tt, (tt, map_builders-HasLimit g ps))

redeploying-HasLimit : (g : Text) (ps : List ProfileSpec) → All HasLimit (redeploying_builders g ps)
unfolding redeploying_builders
redeploying-HasLimit g [] = tt
redeploying-HasLimit g (p ∷ ps) = (tt, redeploying-HasLimit g ps)

deploying-HasLimit : (g : Text) (ps : List ProfileSpec) → All HasLimit (deploying_builders g ps)
unfolding deploying_builders
deploying-HasLimit g [] = tt
deploying-HasLimit g (p ∷ ps) = (
  tt,
  (
    tt,
    (
      tt,
      All-append HasLimit (autoscaler_of p) (deploying_builders g ps) (autoscaler_of-HasLimit p)
          (deploying-HasLimit g ps),
    ),
  ),
)

deployed-HasLimit : (g : Text) (ps : List ProfileSpec) → All HasLimit (deployed_builders g ps)
unfolding deployed_builders
deployed-HasLimit g [] = tt
deployed-HasLimit g (p ∷ ps) = (
  tt,
  (
    tt,
    (
      tt,
      All-append HasLimit (autoscaler_of p) (cron_job_of p g ++ deployed_builders g ps)
          (autoscaler_of-HasLimit p)
          (All-append HasLimit (cron_job_of p g) (deployed_builders g ps) (cron_job_of-HasLimit p g)
            (deployed-HasLimit g ps)),
    ),
  ),
)

gateway-HasLimit : (ps : List ProfileSpec) → All HasLimit (gateway_builders ps)
gateway-HasLimit [] = tt
gateway-HasLimit (p ∷ ps) = (tt, (tt, (tt, tt)))

-- In no phase of a cluster does an autoscaler lack the limit that its update dereferences.
pub resource_builders_for_phase-HasLimit :
    (b : Builder) (phase : Phase) → All HasLimit (resource_builders_for_phase b phase)
unfolding resource_builders_for_phase map_building_phase_builders map_updating_resource_builders
    redeploying_workers_phase_builders deploying_workers_phase_builders
    workers_deployed_phase_builders
resource_builders_for_phase-HasLimit b building_map =
    map_builders-HasLimit _ b.resource.spec.profiles
resource_builders_for_phase-HasLimit b updating_map =
    map_builders-HasLimit _ b.resource.spec.profiles
resource_builders_for_phase-HasLimit b redeploying_workers =
    redeploying-HasLimit b.future_map_generation b.resource.spec.profiles
resource_builders_for_phase-HasLimit b deploying_workers =
    deploying-HasLimit b.map_generation b.resource.spec.profiles
resource_builders_for_phase-HasLimit b workers_deployed =
    All-append HasLimit (deployed_builders b.map_generation b.resource.spec.profiles) _
      (deployed-HasLimit b.map_generation b.resource.spec.profiles)
      (gateway-HasLimit b.resource.spec.profiles)
resource_builders_for_phase-HasLimit b workers_redeployed =
    All-append HasLimit (deployed_builders b.map_generation b.resource.spec.profiles) _
      (deployed-HasLimit b.map_generation b.resource.spec.profiles)
      (gateway-HasLimit b.resource.spec.profiles)
resource_builders_for_phase-HasLimit b deleting = tt
resource_builders_for_phase-HasLimit b empty = tt

-- Whatever the call of controllerutil does, an instance without a maximum of replicas has, in each
-- phase in which its workers run or start for the first time, an autoscaler whose update panics.
pub instance_builders_for_phase-PanicsOnUpdate :
    (b : InstanceBuilder) (set_controller_reference : ObjectMeta → Result ObjectMeta)
    (hpa : Autoscaler) (phase : Phase)
    → b.resource.spec.max_replicas ≡ none
    → IsRunning phase
    → Any
        (PanicsOnUpdate b.resource.meta set_controller_reference hpa)
        (instance_builders_for_phase b phase)
unfolding instance_builders_for_phase instance_deploying_workers_phase_builders
    instance_workers_deployed_phase_builders to_profile_spec update_autoscaler
instance_builders_for_phase-PanicsOnUpdate b ref hpa deploying_workers e r =
    inr (inr (inr (inl (rw e refl))))
instance_builders_for_phase-PanicsOnUpdate b ref hpa workers_deployed e r = inr (inl (rw e refl))
instance_builders_for_phase-PanicsOnUpdate b ref hpa workers_redeployed e r = inr (inl (rw e refl))
instance_builders_for_phase-PanicsOnUpdate b ref hpa building_map e r = absurd r
instance_builders_for_phase-PanicsOnUpdate b ref hpa updating_map e r = absurd r
instance_builders_for_phase-PanicsOnUpdate b ref hpa redeploying_workers e r = absurd r
instance_builders_for_phase-PanicsOnUpdate b ref hpa deleting e r = absurd r
instance_builders_for_phase-PanicsOnUpdate b ref hpa empty e r = absurd r
