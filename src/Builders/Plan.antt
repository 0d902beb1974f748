-- ===== src/Builders/Plan.antt =====
-- Which phases create which objects, and of which generation.
use osrm_operator.Base.{List, [], ◌∷◌, ◌++◌, ◌≡◌, ◌⊎◌, inl, inr, refl, arith, All, All-append}
use osrm_operator.Text.{Text}
use osrm_operator.Api.{
  Phase, building_map, updating_map, redeploying_workers, deploying_workers, workers_deployed,
  workers_redeployed, deleting, empty, ProfileSpec,
}
use osrm_operator.Generation.{get_next_map_generation}
use osrm_operator.Builders.{
  ResourceBuilder, persistent_volume_claim, job, deployment, cron_job, service,
  pod_disruption_budget, horizontal_pod_autoscaler, config_map, gateway_service, gateway_deployment,
  autoscaler_of, cron_job_of, map_builders, redeploying_builders, deploying_builders,
  deployed_builders, gateway_builders, Builder, map_building_phase_builders,
  map_updating_resource_builders, redeploying_workers_phase_builders,
  deploying_workers_phase_builders, workers_deployed_phase_builders, resource_builders_for_phase,
}

-- The phases in which the workers run, or are started for the first time.
abbrev pub IsRunning : Phase → Type 0
IsRunning deploying_workers = Unit
IsRunning workers_deployed = Unit
IsRunning workers_redeployed = Unit
IsRunning building_map = ⊥
IsRunning updating_map = ⊥
IsRunning redeploying_workers = ⊥
IsRunning deleting = ⊥
IsRunning empty = ⊥

-- The phases in which the workers are known to run.
abbrev pub IsDeployed : Phase → Type 0
IsDeployed deploying_workers = ⊥
IsDeployed workers_deployed = Unit
IsDeployed workers_redeployed = Unit
IsDeployed building_map = ⊥
IsDeployed updating_map = ⊥
IsDeployed redeploying_workers = ⊥
IsDeployed deleting = ⊥
IsDeployed empty = ⊥

-- The generation that a map is built for in the phase.
abbrev pub BuildsMap : Phase → Text → Text → Type 0
BuildsMap phase active g =
    ((phase ≡ building_map) × (g ≡ active))
    ⊎ ((phase ≡ updating_map) × (g ≡ get_next_map_generation active))

-- Claims and jobs are built for the active generation while the first map is built, and for the
-- next one while the map is updated; deployments are switched to the future generation while the
-- workers are redeployed and keep the active one else; the rest goes with running workers.
abbrev pub IsPlanned : Phase → Text → Text → ResourceBuilder → Type 0
IsPlanned phase active future (persistent_volume_claim p g) = BuildsMap phase active g
IsPlanned phase active future (job p g) = BuildsMap phase active g
IsPlanned phase active future (deployment p g) =
    ((phase ≡ redeploying_workers) × (g ≡ future)) ⊎ (IsRunning phase × (g ≡ active))
IsPlanned phase active future (cron_job p g) = IsDeployed phase × (g ≡ active)
IsPlanned phase active future (service p) = IsRunning phase
IsPlanned phase active future (pod_disruption_budget p) = IsRunning phase
IsPlanned phase active future (horizontal_pod_autoscaler p) = IsRunning phase
IsPlanned phase active future (config_map ps) = IsDeployed phase
IsPlanned phase active future (gateway_service ps) = IsDeployed phase
IsPlanned phase active future (gateway_deployment ps) = IsDeployed phase

module _ (phase : Phase) (active future : Text) where
  abbrev ArePlanned : List ResourceBuilder → Type 0
  ArePlanned = All (IsPlanned phase active future)

  map_builders-planned :
      (g : Text) (ps : List ProfileSpec) → BuildsMap phase active g → ArePlanned (map_builders g ps)
  unfolding map_builders
  map_builders-planned g [] h = tt
  map_builders-planned g (p ∷ ps) h = (h, (h, map_builders-planned g ps h))

  autoscaler_of-planned : (p : ProfileSpec) → IsRunning phase → ArePlanned (autoscaler_of p)
  autoscaler_of-planned p h = ground arith

  cron_job_of-planned : (p : ProfileSpec) → IsDeployed phase → ArePlanned (cron_job_of p active)
  cron_job_of-planned p h = ground arith

  redeploying-planned :
      (ps : List ProfileSpec)
      → phase ≡ redeploying_workers
      → ArePlanned (redeploying_builders future ps)
  unfolding redeploying_builders
  redeploying-planned [] h = tt
  redeploying-planned (p ∷ ps) h = (inl (h, refl), redeploying-planned ps h)

  deploying-planned :
      (ps : List ProfileSpec) → IsRunning phase → ArePlanned (deploying_builders active ps)
  unfolding deploying_builders
  deploying-planned [] h = tt
  deploying-planned (p ∷ ps) h = (
    inr (h, refl),
    (
      h,
      (
        h,
        All-append (IsPlanned phase active future) (autoscaler_of p) (deploying_builders active ps)
            (autoscaler_of-planned p h) (deploying-planned ps h),
      ),
    ),
  )

  deployed-planned :
      (ps : List ProfileSpec)
      → IsRunning phase
      → IsDeployed phase
      → ArePlanned (deployed_builders active ps)
  unfolding deployed_builders
  deployed-planned [] h d = tt
  deployed-planned (p ∷ ps) h d = (
    h,
    (
      h,
      (
        inr (h, refl),
        All-append (IsPlanned phase active future) (autoscaler_of p)
            (cron_job_of p active ++ deployed_builders active ps) (autoscaler_of-planned p h)
            (All-append (IsPlanned phase active future) (cron_job_of p active)
              (deployed_builders active ps) (cron_job_of-planned p d) (deployed-planned ps h d)),
      ),
    ),
  )

  gateway-planned : (ps : List ProfileSpec) → IsDeployed phase → ArePlanned (gateway_builders ps)
  gateway-planned [] d = tt
  gateway-planned (p ∷ ps) d = (d, (d, (d, tt)))

  all_deployed-planned :
      (ps : List ProfileSpec)
      → IsRunning phase
      → IsDeployed phase
      → ArePlanned (deployed_builders active ps ++ gateway_builders ps)
  all_deployed-planned ps h d =
      All-append (IsPlanned phase active future) (deployed_builders active ps) (gateway_builders ps)
        (deployed-planned ps h d) (gateway-planned ps d)

-- In every phase a cluster's builders build nothing but what the phase is for, at the generation that the
-- phase is for.
pub resource_builders_for_phase-IsPlanned :
    (b : Builder) (phase : Phase)
    → All
        (IsPlanned phase b.map_generation b.future_map_generation)
        (resource_builders_for_phase b phase)
unfolding resource_builders_for_phase map_building_phase_builders map_updating_resource_builders
    redeploying_workers_phase_builders deploying_workers_phase_builders
    workers_deployed_phase_builders
resource_builders_for_phase-IsPlanned b building_map =
    map_builders-planned building_map b.map_generation b.future_map_generation b.map_generation
      b.resource.spec.profiles (inl (refl, refl))
resource_builders_for_phase-IsPlanned b updating_map =
    map_builders-planned updating_map b.map_generation b.future_map_generation _
      b.resource.spec.profiles (inr (refl, refl))
resource_builders_for_phase-IsPlanned b redeploying_workers =
    redeploying-planned redeploying_workers b.map_generation b.future_map_generation
      b.resource.spec.profiles refl
resource_builders_for_phase-IsPlanned b deploying_workers =
    deploying-planned deploying_workers b.map_generation b.future_map_generation
      b.resource.spec.profiles tt
resource_builders_for_phase-IsPlanned b workers_deployed =
    all_deployed-planned workers_deployed b.map_generation b.future_map_generation
      b.resource.spec.profiles tt tt
resource_builders_for_phase-IsPlanned b workers_redeployed =
    all_deployed-planned workers_redeployed b.map_generation b.future_map_generation
      b.resource.spec.profiles tt tt
resource_builders_for_phase-IsPlanned b deleting = tt
resource_builders_for_phase-IsPlanned b empty = tt
