-- ===== src/Witnesses/Updating.antt =====
-- A cluster of two profiles that takes the map of a new URL.
use osrm_operator.Base.{List, [], ◌∷◌, ◌≡◌, inl, inr, refl, ap, arith, ok, ◌++◌}
use osrm_operator.Base.Int.{pos}
use osrm_operator.Text.{Text, codes, text_eq, join, trim_suffix, split, last}
use osrm_operator.Text.Decimal.{itoa, digits, atoi, scan, scan_digit}
use osrm_operator.Text.Laws.{text_eq-false}
use mathlib.Core.Path.{subst}
use osrm_operator.Kube.{PersistentVolumeClaim, Job, Deployment}
use osrm_operator.Status.{is_persistent_volume_claim_bound, is_job_completed}
use osrm_operator.Api.{
  OsrmCluster, ClusterSpec, ProfileSpec, workers_deployed, workers_redeployed, child_resource_name,
}
use osrm_operator.Api.Names.{IsComponent}
use osrm_operator.Api.Defaults.{of_cluster}
use osrm_operator.Generation.{
  get_active_map_generation, compute_future_map_generation, get_resource_name_suffix, raise_highest,
  get_next_map_generation,
}
use osrm_operator.Generation.Laws.{IsClaimOf}
use osrm_operator.Phases.{
  determine_phase, is_map_building_in_progress, all_done, check_named, profile_names,
  all_workers_deployed, has_serving,
}
use osrm_operator.Phases.Ready.{all_workers_deployed_sound}
use osrm_operator.Phases.Cluster.{is_map_building_in_progress_iff}
use osrm_operator.Builders.{
  ResourceBuilder, deployment, built_name, map_builders, new_osrm_resource_builder,
  resource_builders_for_phase, map_updating_resource_builders, redeploying_workers_phase_builders,
  redeploying_builders,
}
use osrm_operator.Contents.{adopt, relabelled}
use osrm_operator.Contents.Adoption.{value_or, ok-injective}
use osrm_operator.Contents.Workers.{update_deployment, worker_template}
use osrm_operator.Progress.{
  Seen, seen_phase, IsBuilt, AreServing, IsWritten, Round, round, no_round, IsOutdated,
}
use osrm_operator.Progress.Update.{update-Ends}
use osrm_operator.Witnesses.{cluster, cluster_spec, car, foot, claim_of, job_of, deployment_of}
use osrm_operator.Witnesses.Reconciling.{environment}

abbrev osm : OsrmCluster
osm = cluster workers_deployed

abbrev old_spec : ClusterSpec
old_spec = record cluster_spec { pbf_url = codes "http://old" }

abbrev claims_of_generation : Text → List PersistentVolumeClaim
claims_of_generation g = claim_of (codes "osm-car-" ++ g) ∷ claim_of (codes "osm-foot-" ++ g) ∷ []

abbrev jobs_of_generation : Text → List Job
jobs_of_generation g = job_of (codes "osm-car-" ++ g) ∷ job_of (codes "osm-foot-" ++ g) ∷ []

abbrev outdated : Seen
outdated = record {
  old_spec = old_spec;
  claims = claims_of_generation (codes "1");
  jobs = jobs_of_generation (codes "1");
  deployments =
      deployment_of (codes "osm-car") (codes "osm-car-1")
      ∷ deployment_of (codes "osm-foot") (codes "osm-foot-1")
      ∷ [];
}

-- The new map is built.
abbrev built : Seen
built = record outdated {
  old_spec = cluster_spec;
  claims = claims_of_generation (codes "1") ++ claims_of_generation (codes "2");
  jobs = jobs_of_generation (codes "1") ++ jobs_of_generation (codes "2");
}

-- The deployment of a profile, updated for the new map.
abbrev car_workers : Deployment
car_workers = deployment_of (codes "osm-car") (codes "osm-car-1")

abbrev car_updated : Deployment
car_updated =
    value_or car_workers
      (update_deployment environment (of_cluster osm) car (codes "2") [] car_workers)

-- The workers serve the new map.
abbrev redeployed : Seen
redeployed = record built {
  claims = claims_of_generation (codes "2");
  jobs = jobs_of_generation (codes "2");
  deployments = car_updated ∷ deployment_of (codes "osm-foot") (codes "osm-foot-2") ∷ [];
}

car-IsComponent : IsComponent (codes "car")
car-IsComponent = λ e. omega arith

foot-IsComponent : IsComponent (codes "foot")
foot-IsComponent = λ e. omega arith

-- The map of a generation is built, in each of what is seen.
outdated-IsBuilt : IsBuilt environment osm outdated (codes "1")
unfolding is_map_building_in_progress all_done check_named child_resource_name trim_suffix join
    text_eq itoa digits is_persistent_volume_claim_bound is_job_completed
outdated-IsBuilt =
    (is_map_building_in_progress_iff osm outdated.old_spec (codes "1") (codes "1") outdated.claims
        outdated.jobs outdated.deployments (codes "1")).0
      refl

built-IsBuilt_old : IsBuilt environment osm built (codes "1")
unfolding is_map_building_in_progress all_done check_named child_resource_name trim_suffix join
    text_eq itoa digits is_persistent_volume_claim_bound is_job_completed
built-IsBuilt_old =
    (is_map_building_in_progress_iff osm built.old_spec (codes "1") (codes "1") built.claims
        built.jobs built.deployments (codes "1")).0
      refl

built-IsBuilt : IsBuilt environment osm built (codes "2")
unfolding is_map_building_in_progress all_done check_named child_resource_name trim_suffix join
    text_eq itoa digits is_persistent_volume_claim_bound is_job_completed
built-IsBuilt =
    (is_map_building_in_progress_iff osm built.old_spec (codes "2") (codes "2") built.claims
        built.jobs built.deployments (codes "2")).0
      refl

redeployed-IsBuilt : IsBuilt environment osm redeployed (codes "2")
unfolding is_map_building_in_progress all_done check_named child_resource_name trim_suffix join
    text_eq itoa digits is_persistent_volume_claim_bound is_job_completed
redeployed-IsBuilt =
    (is_map_building_in_progress_iff osm redeployed.old_spec (codes "2") (codes "2")
        redeployed.claims redeployed.jobs redeployed.deployments (codes "2")).0
      refl

outdated-IsOutdated : IsOutdated environment osm 1 outdated
unfolding get_active_map_generation get_resource_name_suffix split last atoi scan scan_digit itoa
    digits child_resource_name trim_suffix join
outdated-IsOutdated =
    let car_claim : IsClaimOf osm.meta (claim_of (codes "osm-car-1")) 1 = record {
      component = codes "car";
      usable = car-IsComponent;
      fits = omega arith;
      named = refl;
    } in
    let foot_claim : IsClaimOf osm.meta (claim_of (codes "osm-foot-1")) 1 = record {
      component = codes "foot";
      usable = foot-IsComponent;
      fits = omega arith;
      named = refl;
    } in
    record {
      serves = refl;
      numbered = ((1, car_claim, omega arith), ((1, foot_claim, omega arith), tt));
      newest = inl car_claim;
      map_built = outdated-IsBuilt;
      changed = text_eq-false (codes "http://pbf") (codes "http://old") refl;
    }

begun : Round environment osm outdated built
unfolding determine_phase is_map_building_in_progress all_done check_named child_resource_name
    trim_suffix join text_eq is_persistent_volume_claim_bound is_job_completed
    get_active_map_generation compute_future_map_generation raise_highest get_resource_name_suffix
    split last atoi scan scan_digit itoa digits get_next_map_generation new_osrm_resource_builder
    resource_builders_for_phase map_updating_resource_builders redeploying_workers_phase_builders
    redeploying_builders map_builders built_name update_deployment adopt environment worker_template
begun = round {active = codes "1"} {future = codes "1"} refl refl (record {
  noted = refl;
  claims_from = (
    inl (inl refl),
    (inl (inr (inl refl)), (inr (inl (refl, refl)), (inr (inr (inr (inl (refl, refl)))), tt))),
  );
  claims_there = (
    λ h. inr (inr (inl refl)),
    (λ h. absurd (cc), (λ h. inr (inr (inr (inl refl))), (λ h. absurd (cc), tt))),
  );
  workers_written = λ p ps g first a. elim a [
    | inl h ↦ absurd (cc)
    | inr a1 ↦ elim a1 [
      | inl h ↦ absurd (cc)
      | inr a2 ↦ elim a2 [
        | inl h ↦ absurd (cc)
        | inr a3 ↦ elim a3 [ inl h ↦ absurd (cc) | inr a4 ↦ absurd a4 ]
      ]
    ]
  ];
  workers_left = λ h. refl;
  stays_built =
      λ g serves b. subst (IsBuilt environment osm built) (ok-injective serves) built-IsBuilt_old;
})

-- The profile and the generation of a deployment's builder.
abbrev profile_of : ResourceBuilder → ProfileSpec
profile_of (deployment p g) = p
profile_of b = car

abbrev generation_of : ResourceBuilder → Text
generation_of (deployment p g) = g
generation_of b = []

abbrev first_of : List ProfileSpec → ProfileSpec
first_of [] = car
first_of (p ∷ ps) = p

car-IsWritten : IsWritten environment osm redeployed car (codes "2")
unfolding update_deployment adopt environment itoa digits
car-IsWritten = (
  [],
  car_workers,
  car_updated,
  deployment_of (codes "osm-foot") (codes "osm-foot-2") ∷ [],
  refl,
  refl,
)

switched : Round environment osm built redeployed
unfolding determine_phase is_map_building_in_progress all_done check_named child_resource_name
    trim_suffix join text_eq is_persistent_volume_claim_bound is_job_completed
    get_active_map_generation compute_future_map_generation raise_highest get_resource_name_suffix
    split last atoi scan scan_digit itoa digits get_next_map_generation new_osrm_resource_builder
    resource_builders_for_phase map_updating_resource_builders redeploying_workers_phase_builders
    redeploying_builders map_builders built_name update_deployment adopt environment worker_template
    of_cluster
switched = round {active = codes "1"} {future = codes "2"} refl refl (record {
  noted = refl;
  claims_from = (inl (inr (inr (inl refl))), (inl (inr (inr (inr (inl refl)))), tt));
  claims_there = (λ h. absurd (cc), (λ h. absurd (cc), tt));
  workers_written = λ p ps g first a.
      let number : codes "2" ≡ g = elim a [
        | inl h ↦ ap generation_of h
        | inr a1 ↦ elim a1 [ inl h ↦ ap generation_of h | inr a2 ↦ absurd a2 ]
      ] in
      subst (λ q. IsWritten environment osm redeployed q g) (ap first_of first)
        (subst (IsWritten environment osm redeployed car) number car-IsWritten);
  workers_left = λ h. absurd (h.0 refl);
  stays_built = λ g serves b.
      subst (IsBuilt environment osm redeployed) (ok-injective serves) redeployed-IsBuilt;
})

redeployed-AreServing : AreServing environment osm redeployed
unfolding all_workers_deployed has_serving child_resource_name trim_suffix join text_eq
    update_deployment adopt environment relabelled
redeployed-AreServing =
    all_workers_deployed_sound (profile_names osm.meta [] osm.spec.profiles) redeployed.deployments
      refl

update-Ends_example :
    (get_active_map_generation redeployed.deployments ≡ ok (itoa (pos 2)))
    × (compute_future_map_generation redeployed.claims ≡ ok (itoa (pos 2)))
    × (seen_phase environment osm redeployed (itoa (pos 2)) (itoa (pos 2)) ≡ workers_redeployed)
unfolding itoa digits
update-Ends_example =
    update-Ends environment osm 1 (omega arith) (omega arith) car (foot ∷ []) refl
      (car-IsComponent, (foot-IsComponent, tt)) outdated built built redeployed redeployed
      outdated-IsOutdated begun no_round built-IsBuilt switched no_round redeployed-AreServing
