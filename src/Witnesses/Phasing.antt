-- ===== src/Witnesses/Phasing.antt =====
-- Phases of the concrete resources.
use osrm_operator.Base.{List, [], ◌∷◌, some, false, ◌≡◌, ◌↔◌, refl}
use osrm_operator.Text.Laws.{text_eq-false}
use osrm_operator.Text.{text_eq, codes, trim_suffix, join}
use osrm_operator.Kube.{PersistentVolumeClaim, Job, Deployment}
use osrm_operator.Api.{building_map, workers_redeployed, deploying_workers, child_resource_name}
use osrm_operator.Phases.{
  claim_name, is_map_building_in_progress, determine_phase, determine_instance_phase,
}
use osrm_operator.Phases.Cluster.{
  IsMapBuilt, PhaseHolds, is_map_building_in_progress_iff, determine_phase_iff,
}
use osrm_operator.Phases.Instance.{
  as_cluster, as_cluster_spec, option_list, AreDistinct, determine_instance_phase-as_cluster,
}
use osrm_operator.Witnesses.{
  cluster, cluster_spec, single, instance_spec, claim_of, job_of, deployment_of,
}

abbrev claims : List PersistentVolumeClaim
claims = claim_of (codes "osm-car-2") ∷ claim_of (codes "osm-foot-2") ∷ []

abbrev jobs : List Job
jobs = job_of (codes "osm-car-2") ∷ job_of (codes "osm-foot-2") ∷ []

abbrev deployments : List Deployment
deployments =
    deployment_of (codes "osm-car") (codes "osm-car-2")
    ∷ deployment_of (codes "osm-foot") (codes "osm-foot-2")
    ∷ []

is_map_building_in_progress_iff_example :
    (is_map_building_in_progress (cluster building_map) claims jobs (codes "2") ≡ false)
    ↔ IsMapBuilt
        (cluster building_map)
        cluster_spec
        (codes "2")
        (codes "2")
        claims
        jobs
        deployments
        (codes "2")
is_map_building_in_progress_iff_example =
    is_map_building_in_progress_iff (cluster building_map) cluster_spec (codes "2") (codes "2")
      claims jobs deployments (codes "2")

determine_phase_iff_example :
    (determine_phase
        (cluster deploying_workers)
        cluster_spec
        (codes "2")
        (codes "2")
        claims
        jobs
        deployments
      ≡ workers_redeployed)
    ↔ PhaseHolds
        (cluster deploying_workers)
        cluster_spec
        (codes "2")
        (codes "2")
        claims
        jobs
        deployments
        workers_redeployed
determine_phase_iff_example =
    determine_phase_iff (cluster deploying_workers) cluster_spec (codes "2") (codes "2") claims jobs
      deployments workers_redeployed

abbrev instance_claims : List PersistentVolumeClaim
instance_claims = claim_of (codes "osm-1") ∷ claim_of (codes "osm-2") ∷ []

instance_claims_distinct : AreDistinct claim_name instance_claims
unfolding text_eq
instance_claims_distinct = ((text_eq-false (codes "osm-2") (codes "osm-1") refl, tt), (tt, tt))

determine_instance_phase-as_cluster_example :
    let r = single deploying_workers in
    let d = some (deployment_of (codes "osm") (codes "osm-2")) in
    determine_instance_phase r instance_spec
      (codes "2")
      (codes "2")
      instance_claims
      (job_of (codes "osm-2") ∷ [])
      d
    ≡ determine_phase
        (as_cluster r)
        (as_cluster_spec instance_spec)
        (codes "2")
        (codes "2")
        instance_claims
        (job_of (codes "osm-2") ∷ [])
        (option_list d)
unfolding child_resource_name trim_suffix join
determine_instance_phase-as_cluster_example =
    determine_instance_phase-as_cluster (single deploying_workers) instance_spec (codes "2")
      (codes "2") instance_claims (job_of (codes "osm-2") ∷ [])
      (some (deployment_of (codes "osm") (codes "osm-2"))) instance_claims_distinct (tt, tt) refl
