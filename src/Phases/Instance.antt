-- ===== src/Phases/Instance.antt =====
-- `OSRMInstanceReconciler.DeterminePhase` against the phase of a cluster of one unnamed profile.
use osrm_operator.Base.{
  List, [], ◌∷◌, Option, none, some, Bool, true, ◌≡◌, ◌≢◌, refl, inl, inr, arith, All, Bool-cases,
}
use osrm_operator.Text.{Text, text_eq}
use osrm_operator.Text.Laws.{text_eq_iff, text_eq_sound, text_eq_complete}
use osrm_operator.Kube.{PersistentVolumeClaim, Job, Deployment}
use osrm_operator.Api.{InstanceSpec, ClusterSpec, OsrmCluster, OsrmInstance, child_resource_name}
use osrm_operator.Builders.Instance.{to_profile_spec}
use osrm_operator.Phases.{
  claim_name, job_name, check_named, all_done, first_done, is_bound, is_completed,
  is_map_building_in_progress, is_map_building_in_progress_for_instance, has_serving,
  all_workers_deployed, is_deployment_ready, determine_phase, determine_instance_phase,
}

module _ {A : Type 0} (name_of : A → Text) where
  -- No two objects have the same name.
  abbrev pub AreDistinct : List A → Type 0
  AreDistinct [] = Unit
  AreDistinct (x ∷ xs) = All (λ y. name_of y ≢ name_of x) xs × AreDistinct xs

  module _ (is_done : A → Bool) (name : Text) where
    check_named-absent :
        (xs : List A) (found : Bool)
        → All (λ y. name_of y ≢ name) xs
        → check_named name_of is_done name xs found ≡ (found, true)
    unfolding check_named
    check_named-absent [] found h = refl
    check_named-absent (x ∷ xs) found (h, hs) =
        ground (arith, text_eq_iff (name_of x) name, check_named-absent xs found hs)

    all_done-first_done :
        (xs : List A)
        → AreDistinct xs
        → all_done name_of is_done (name ∷ []) xs true ≡ first_done name_of is_done name xs
    unfolding all_done check_named first_done
    all_done-first_done [] d = refl
    all_done-first_done (x ∷ xs) (h, hs) = elim (Bool-cases (text_eq (name_of x) name)) [
      | inl e ↦
          let absent = check_named-absent xs true (rw (text_eq_sound (name_of x) name e) at h) in
          ground (arith, absent)
      | inr n ↦ ground (arith, all_done-first_done xs hs)
    ]

-- The cluster that an instance stands for.
abbrev pub as_cluster_spec : InstanceSpec → ClusterSpec
as_cluster_spec spec = record {
  pbf_url = spec.pbf_url;
  profiles = to_profile_spec spec ∷ [];
  service = spec.service;
  image = spec.image;
  persistence = spec.persistence;
  map_builder = spec.map_builder;
}

abbrev pub as_cluster : OsrmInstance → OsrmCluster
as_cluster r = record { meta = r.meta; spec = as_cluster_spec r.spec; status = r.status }

abbrev pub option_list {ℓ} : {A : Type ℓ} → Option A → List A
option_list none = []
option_list (some a) = a ∷ []

-- What the instance's controller fetched under the name of its deployment.
abbrev pub IsFetched : OsrmInstance → Option Deployment → Type 0
IsFetched r none = Unit
IsFetched r (some d) = d.meta.name ≡ child_resource_name r.meta [] []

in_progress-as_cluster :
    (r : OsrmInstance) (pvcs : List PersistentVolumeClaim) (jobs : List Job) (generation : Text)
    → AreDistinct claim_name pvcs
    → AreDistinct job_name jobs
    → is_map_building_in_progress (as_cluster r) pvcs jobs generation
      ≡ is_map_building_in_progress_for_instance r pvcs jobs generation
unfolding is_map_building_in_progress is_map_building_in_progress_for_instance to_profile_spec
in_progress-as_cluster r pvcs jobs generation dp dj =
    let name = child_resource_name r.meta [] generation in
    rw (
      all_done-first_done claim_name is_bound name pvcs dp,
      all_done-first_done job_name is_completed name jobs dj,
    )

workers-as_cluster :
    (r : OsrmInstance) (d : Option Deployment)
    → IsFetched r d
    → all_workers_deployed (child_resource_name r.meta [] [] ∷ []) (option_list d)
      ≡ is_deployment_ready d
unfolding all_workers_deployed has_serving
workers-as_cluster r none h = refl
workers-as_cluster r (some d) h =
    rw (text_eq_complete d.meta.name (child_resource_name r.meta [] []) h) (ground arith)

-- Where no two claims and no two jobs share a name, and the deployment was fetched by its name, an
-- instance is in the phase that the cluster's rules give for its one profile without a name.
pub determine_instance_phase-as_cluster :
    (r : OsrmInstance) (old_spec : InstanceSpec) (active future : Text)
    (pvcs : List PersistentVolumeClaim) (jobs : List Job) (d : Option Deployment)
    → AreDistinct claim_name pvcs
    → AreDistinct job_name jobs
    → IsFetched r d
    → determine_instance_phase r old_spec active future pvcs jobs d
      ≡ determine_phase
          (as_cluster r)
          (as_cluster_spec old_spec)
          active
          future
          pvcs
          jobs
          (option_list d)
unfolding determine_instance_phase determine_phase to_profile_spec
determine_instance_phase-as_cluster r old_spec active future pvcs jobs d dp dj h = rw (
  in_progress-as_cluster r pvcs jobs active dp dj,
  in_progress-as_cluster r pvcs jobs future dp dj,
  workers-as_cluster r d h,
)
