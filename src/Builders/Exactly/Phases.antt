-- ===== src/Builders/Exactly/Phases.antt =====
-- Which builders `ResourceBuildersForPhase` gives for a phase, of a cluster and of an instance.
use osrm_operator.Base.{
  List, [], ◌∷◌, ◌++◌, append_assoc, none, ◌≡◌, ◌≢◌, ◌⊎◌, ◌↔◌, inl, inr, refl, sym, ap, Any,
}
use osrm_operator.Text.{Text}
use osrm_operator.Api.{
  Phase, building_map, updating_map, redeploying_workers, deploying_workers, workers_deployed,
  workers_redeployed, deleting, empty, ProfileSpec,
}
use osrm_operator.Generation.{get_next_map_generation}
use osrm_operator.Builders.{
  ResourceBuilder, persistent_volume_claim, job, deployment, cron_job, service,
  pod_disruption_budget, horizontal_pod_autoscaler, autoscaler_of, cron_job_of, map_builders,
  redeploying_builders, deploying_builders, deployed_builders, gateway_builders, Builder,
  map_building_phase_builders, map_updating_resource_builders, redeploying_workers_phase_builders,
  deploying_workers_phase_builders, workers_deployed_phase_builders, resource_builders_for_phase,
}
use osrm_operator.Builders.Plan.{IsRunning, IsDeployed, BuildsMap}
use osrm_operator.Builders.Exactly.{
  RunsMap, IsScaled, IsOf, IsOfGateway, IsAmong, IsAmong-append, blocks-IsAmong, autoscaler-IsAmong,
  cron_job-IsAmong, gateway-IsAmong, no_map,
}
use osrm_operator.Builders.Exactly.Blocks.{
  map-IsAmong, redeploying-IsAmong, running-IsAmong, deploying-listed, deployed-listed,
  instance_deployed-listed,
}
use osrm_operator.Builders.Instance.{
  InstanceBuilder, to_profile_spec, instance_map_building_phase_builders,
  instance_map_updating_resource_builders, instance_redeploying_workers_phase_builders,
  instance_deploying_workers_phase_builders, instance_workers_deployed_phase_builders,
  instance_builders_for_phase,
}

cron_job-IsDeployed :
    (phase : Phase) (p : ProfileSpec) (active : Text) (x : ResourceBuilder)
    → IsDeployed phase
    → ((p.speed_updates ≢ none) × (cron_job p active ≡ x))
      ↔ (IsDeployed phase × (p.speed_updates ≢ none) × (cron_job p active ≡ x))
cron_job-IsDeployed phase p active x d = (λ h. (d, h.0, h.1), λ (d', s, e). (s, e))

-- The builders of a list of a phase, and no gateway.
no_gateway :
    {A B : Type 0} (phase : Phase) (ps : List ProfileSpec) (x : ResourceBuilder)
    → (IsDeployed phase → ⊥)
    → (A ↔ B)
    → A ↔ (B ⊎ IsOfGateway ps phase x)
no_gateway phase ps x n iff =
    (λ a. inl (iff.0 a), λ b. elim b [ inl y ↦ iff.1 y | inr (d, some_of, which) ↦ absurd (n d) ])

abbrev IsOfProfile : Phase → Builder → ResourceBuilder → ProfileSpec → Type 0
IsOfProfile phase b = IsOf IsScaled phase b.map_generation b.future_map_generation

map_builders-IsAmong :
    (phase : Phase) (b : Builder) (g : Text) (x : ResourceBuilder)
    → BuildsMap phase b.map_generation g
    → ((h : Text) → BuildsMap phase b.map_generation h → h ≡ g)
    → ((h : Text) → RunsMap phase b.map_generation b.future_map_generation h → ⊥)
    → (IsRunning phase → ⊥)
    → (IsDeployed phase → ⊥)
    → (ps : List ProfileSpec) → IsAmong x (map_builders g ps) ↔ Any (IsOfProfile phase b x) ps
unfolding map_builders
map_builders-IsAmong phase b g x builds only runs running deployed =
    blocks-IsAmong (map_builders g) (λ p. persistent_volume_claim p g ∷ job p g ∷ [])
      (IsOfProfile phase b x) x refl (λ p ps. refl)
      (λ p.
        map-IsAmong IsScaled b.map_generation b.future_map_generation x p phase g builds only runs
          running deployed)

deployed_builders-IsAmong :
    (phase : Phase) (b : Builder) (x : ResourceBuilder)
    → phase ≢ building_map
    → phase ≢ updating_map
    → phase ≢ redeploying_workers
    → IsRunning phase
    → IsDeployed phase
    → (ps : List ProfileSpec)
    → IsAmong x (deployed_builders b.map_generation ps ++ gateway_builders ps)
      ↔ (Any (IsOfProfile phase b x) ps ⊎ IsOfGateway ps phase x)
unfolding deployed_builders
deployed_builders-IsAmong phase b x one two three running deployed ps =
    let g = b.map_generation in
    let profiles =
      blocks-IsAmong (deployed_builders g)
        (λ p.
          service p
          ∷ pod_disruption_budget p
          ∷ deployment p g
          ∷ (autoscaler_of p ++ cron_job_of p g))
        (IsOfProfile phase b x) x refl
        (λ p ps'.
          ap (λ bs. service p ∷ pod_disruption_budget p ∷ deployment p g ∷ bs)
            (sym (append_assoc (autoscaler_of p) (cron_job_of p g) (deployed_builders g ps'))))
        (λ p.
          running-IsAmong IsScaled g b.future_map_generation x p phase
            (service p
              ∷ pod_disruption_budget p
              ∷ deployment p g
              ∷ (autoscaler_of p ++ cron_job_of p g))
            one two three running
            (deployed-listed IsScaled g b.future_map_generation x p (autoscaler_of p)
              (cron_job_of p g) (autoscaler-IsAmong p x) (cron_job-IsAmong p g x))
            (cron_job-IsDeployed phase p g x deployed))
        ps in
    let both = IsAmong-append x (deployed_builders g ps) (gateway_builders ps) in
    let gateway = gateway-IsAmong ps x in
    (
      λ a. elim (both.0 a) [
        | inl l ↦ inl (profiles.0 l)
        | inr r ↦ let (some_of, which) = gateway.0 r in inr (deployed, some_of, which)
      ],
      λ a. elim a [
        | inl l ↦ both.1 (inl (profiles.1 l))
        | inr (d, some_of, which) ↦ both.1 (inr (gateway.1 (some_of, which)))
      ],
    )

no_profile :
    (phase : Phase) (b : Builder) (x : ResourceBuilder)
    → ((p : ProfileSpec) → IsOfProfile phase b x p → ⊥)
    → (ps : List ProfileSpec) → Any (IsOfProfile phase b x) ps
    → ⊥
no_profile phase b x n [] a = a
no_profile phase b x n (p ∷ ps) (inl h) = n p h
no_profile phase b x n (p ∷ ps) (inr a) = no_profile phase b x n ps a

pub none-of :
    (scaled : ProfileSpec → Type 0) (phase : Phase) (active future : Text) (x : ResourceBuilder)
    (p : ProfileSpec)
    → ((h : Text) → BuildsMap phase active h → ⊥)
    → ((h : Text) → RunsMap phase active future h → ⊥)
    → (IsRunning phase → ⊥)
    → (IsDeployed phase → ⊥)
    → IsOf scaled phase active future x p
    → ⊥
none-of scaled phase active future x p b r run d (inl (h, m, _)) = b h m
none-of scaled phase active future x p b r run d (inr (inl (h, m, _))) = r h m
none-of scaled phase active future x p b r run d (inr (inr (inl (m, _)))) = run m
none-of scaled phase active future x p b r run d (inr (inr (inr (m, s, e)))) = d m

-- The generations of the phases that build a map.
only_active : (active h : Text) → BuildsMap building_map active h → h ≡ active
only_active active h (inl (_, e)) = e
only_active active h (inr (e, _)) = absurd (cc)

only_next : (active h : Text) → BuildsMap updating_map active h → h ≡ get_next_map_generation active
only_next active h (inl (e, _)) = absurd (cc)
only_next active h (inr (_, e)) = e

no_run :
    (phase : Phase) (active future h : Text)
    → phase ≢ redeploying_workers
    → (IsRunning phase → ⊥)
    → RunsMap phase active future h
    → ⊥
no_run phase active future h n r (inl (e, _)) = n e
no_run phase active future h n r (inr (m, _)) = r m

nothing_iff :
    (b : Builder) (phase : Phase) (x : ResourceBuilder)
    → phase ≢ building_map
    → phase ≢ updating_map
    → phase ≢ redeploying_workers
    → (IsRunning phase → ⊥)
    → (IsDeployed phase → ⊥)
    → IsAmong x [] ↔ (
        Any (IsOfProfile phase b x) b.resource.spec.profiles
        ⊎ IsOfGateway b.resource.spec.profiles phase x)
nothing_iff b phase x one two three r d = no_gateway phase b.resource.spec.profiles x d (
  λ a. absurd a,
  λ a.
      no_profile phase b x
        (λ p.
          none-of IsScaled phase b.map_generation b.future_map_generation x p
            (λ h. no_map phase b.map_generation h one two)
            (λ h. no_run phase b.map_generation b.future_map_generation h three r) r d)
        b.resource.spec.profiles a,
)

-- The builders of a cluster in a phase are just these: for each profile a claim and a job, of the
-- active generation while the first map is built and of the next one while the map is updated; a
-- deployment, of the future generation while the workers are redeployed and of the active one while
-- they are deployed and once they are; then a service and a budget too, an autoscaler for a profile
-- with both limits, and, once they are deployed, a cron job for a profile with speed updates; and,
-- once they are deployed and there are profiles, the gateway's config map, service and deployment.
pub resource_builders_for_phase_iff :
    (b : Builder) (phase : Phase) (x : ResourceBuilder)
    → IsAmong x (resource_builders_for_phase b phase) ↔ (
        Any
          (IsOf IsScaled phase b.map_generation b.future_map_generation x)
          b.resource.spec.profiles
        ⊎ IsOfGateway b.resource.spec.profiles phase x)
unfolding resource_builders_for_phase map_building_phase_builders map_updating_resource_builders
    redeploying_workers_phase_builders deploying_workers_phase_builders
    workers_deployed_phase_builders deploying_builders redeploying_builders
resource_builders_for_phase_iff b building_map x =
    let ps = b.resource.spec.profiles in
    no_gateway building_map ps x (λ d. d)
      (map_builders-IsAmong building_map b b.map_generation x (inl (refl, refl))
        (only_active b.map_generation)
        (λ h.
          no_run building_map b.map_generation b.future_map_generation h (λ e. absurd (cc))
            (λ r. r))
        (λ r. r) (λ d. d) ps)
resource_builders_for_phase_iff b updating_map x =
    let ps = b.resource.spec.profiles in
    no_gateway updating_map ps x (λ d. d)
      (map_builders-IsAmong updating_map b (get_next_map_generation b.map_generation) x
        (inr (refl, refl)) (only_next b.map_generation)
        (λ h.
          no_run updating_map b.map_generation b.future_map_generation h (λ e. absurd (cc))
            (λ r. r))
        (λ r. r) (λ d. d) ps)
resource_builders_for_phase_iff b redeploying_workers x =
    no_gateway redeploying_workers b.resource.spec.profiles x (λ d. d)
      (blocks-IsAmong (redeploying_builders b.future_map_generation)
        (λ p. deployment p b.future_map_generation ∷ []) (IsOfProfile redeploying_workers b x) x
        refl (λ p ps. refl)
        (λ p. redeploying-IsAmong IsScaled b.map_generation b.future_map_generation x p)
        b.resource.spec.profiles)
resource_builders_for_phase_iff b deploying_workers x =
    let g = b.map_generation in
    no_gateway deploying_workers b.resource.spec.profiles x (λ d. d)
      (blocks-IsAmong (deploying_builders g)
        (λ p. deployment p g ∷ service p ∷ pod_disruption_budget p ∷ autoscaler_of p)
        (IsOfProfile deploying_workers b x) x refl (λ p ps. refl)
        (λ p.
          running-IsAmong IsScaled g b.future_map_generation x p deploying_workers
            (deployment p g ∷ service p ∷ pod_disruption_budget p ∷ autoscaler_of p)
            (λ e. absurd (cc)) (λ e. absurd (cc)) (λ e. absurd (cc)) tt
            (deploying-listed IsScaled g b.future_map_generation x p (autoscaler_of p)
              (autoscaler-IsAmong p x))
            (λ n. absurd n, λ (d, s, e). d))
        b.resource.spec.profiles)
resource_builders_for_phase_iff b workers_deployed x =
    deployed_builders-IsAmong workers_deployed b x (λ e. absurd (cc)) (λ e. absurd (cc))
      (λ e. absurd (cc)) tt tt b.resource.spec.profiles
resource_builders_for_phase_iff b workers_redeployed x =
    deployed_builders-IsAmong workers_redeployed b x (λ e. absurd (cc)) (λ e. absurd (cc))
      (λ e. absurd (cc)) tt tt b.resource.spec.profiles
resource_builders_for_phase_iff b deleting x =
    nothing_iff b deleting x (λ e. absurd (cc)) (λ e. absurd (cc)) (λ e. absurd (cc)) (λ r. r)
      (λ d. d)
resource_builders_for_phase_iff b empty x =
    nothing_iff b empty x (λ e. absurd (cc)) (λ e. absurd (cc)) (λ e. absurd (cc)) (λ r. r) (λ d. d)

-- An instance has an autoscaler whatever its limits.
abbrev pub AlwaysScaled : ProfileSpec → Type 0
AlwaysScaled p = Unit

abbrev instance_deployed : ProfileSpec → Text → List ResourceBuilder
instance_deployed p g =
    service p
    ∷ horizontal_pod_autoscaler p
    ∷ pod_disruption_budget p
    ∷ deployment p g
    ∷ cron_job_of p g

-- The builders of an instance in a phase are just these: a claim and a job, of the active generation
-- while the first map is built and of the next one while the map is updated; a deployment, of the
-- future generation while the workers are redeployed and of the active one while they are deployed and
-- once they are; then a service, a budget and an autoscaler too, and, once they are deployed, a cron
-- job if the spec has speed updates; all for the profile that the spec stands for.
pub instance_builders_for_phase_iff :
    (b : InstanceBuilder) (phase : Phase) (x : ResourceBuilder)
    → IsAmong x (instance_builders_for_phase b phase)
      ↔ IsOf AlwaysScaled phase b.map_generation b.future_map_generation x
          (to_profile_spec b.resource.spec)
unfolding instance_builders_for_phase instance_map_building_phase_builders
    instance_map_updating_resource_builders instance_redeploying_workers_phase_builders
    instance_deploying_workers_phase_builders instance_workers_deployed_phase_builders
instance_builders_for_phase_iff b building_map x =
    map-IsAmong AlwaysScaled b.map_generation b.future_map_generation x
      (to_profile_spec b.resource.spec) building_map b.map_generation (inl (refl, refl))
      (only_active b.map_generation)
      (λ h.
        no_run building_map b.map_generation b.future_map_generation h (λ e. absurd (cc)) (λ r. r))
      (λ r. r) (λ d. d)
instance_builders_for_phase_iff b updating_map x =
    map-IsAmong AlwaysScaled b.map_generation b.future_map_generation x
      (to_profile_spec b.resource.spec) updating_map (get_next_map_generation b.map_generation)
      (inr (refl, refl)) (only_next b.map_generation)
      (λ h.
        no_run updating_map b.map_generation b.future_map_generation h (λ e. absurd (cc)) (λ r. r))
      (λ r. r) (λ d. d)
instance_builders_for_phase_iff b redeploying_workers x =
    redeploying-IsAmong AlwaysScaled b.map_generation b.future_map_generation x
      (to_profile_spec b.resource.spec)
instance_builders_for_phase_iff b deploying_workers x =
    let g = b.map_generation in
    let p = to_profile_spec b.resource.spec in
    running-IsAmong AlwaysScaled g b.future_map_generation x p deploying_workers
      (deployment p g ∷ service p ∷ pod_disruption_budget p ∷ horizontal_pod_autoscaler p ∷ [])
      (λ e. absurd (cc)) (λ e. absurd (cc)) (λ e. absurd (cc)) tt
      (deploying-listed AlwaysScaled g b.future_map_generation x p
        (horizontal_pod_autoscaler p ∷ [])
        (λ a. elim a [ inl e ↦ (tt, e) | inr n ↦ absurd n ], λ h. inl h.1))
      (λ n. absurd n, λ (d, s, e). d)
instance_builders_for_phase_iff b workers_deployed x =
    let g = b.map_generation in
    let p = to_profile_spec b.resource.spec in
    running-IsAmong AlwaysScaled g b.future_map_generation x p workers_deployed
      (instance_deployed p g) (λ e. absurd (cc)) (λ e. absurd (cc)) (λ e. absurd (cc)) tt
      (instance_deployed-listed AlwaysScaled g b.future_map_generation x p (cron_job_of p g) tt
        (cron_job-IsAmong p g x))
      (cron_job-IsDeployed workers_deployed p g x tt)
instance_builders_for_phase_iff b workers_redeployed x =
    let g = b.map_generation in
    let p = to_profile_spec b.resource.spec in
    running-IsAmong AlwaysScaled g b.future_map_generation x p workers_redeployed
      (instance_deployed p g) (λ e. absurd (cc)) (λ e. absurd (cc)) (λ e. absurd (cc)) tt
      (instance_deployed-listed AlwaysScaled g b.future_map_generation x p (cron_job_of p g) tt
        (cron_job-IsAmong p g x))
      (cron_job-IsDeployed workers_redeployed p g x tt)
instance_builders_for_phase_iff b deleting x = (
  λ a. absurd a,
  λ h. absurd (
      none-of AlwaysScaled deleting b.map_generation b.future_map_generation x
        (to_profile_spec b.resource.spec)
        (λ h. no_map deleting b.map_generation h (λ e. absurd (cc)) (λ e. absurd (cc)))
        (λ h.
          no_run deleting b.map_generation b.future_map_generation h (λ e. absurd (cc)) (λ r. r))
        (λ r. r) (λ d. d) h),
)
instance_builders_for_phase_iff b empty x = (
  λ a. absurd a,
  λ h. absurd (
      none-of AlwaysScaled empty b.map_generation b.future_map_generation x
        (to_profile_spec b.resource.spec)
        (λ h. no_map empty b.map_generation h (λ e. absurd (cc)) (λ e. absurd (cc)))
        (λ h. no_run empty b.map_generation b.future_map_generation h (λ e. absurd (cc)) (λ r. r))
        (λ r. r) (λ d. d) h),
)
