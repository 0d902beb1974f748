-- ===== src/Contents/Wiring.antt =====
-- The objects of a profile fit together: selectors, claims and volumes name one another, though
-- different builders write them.
pub mod Gateway
use osrm_operator.Base.{ℕ, ◌≤◌, List, [], ◌∷◌, Option, some, ◌≡◌, sym, ◌∙◌, ap, map, ok}
use osrm_operator.Base.Int.{pos}
use osrm_operator.Text.{Text}
use osrm_operator.Text.Decimal.{itoa, max_int64}
use osrm_operator.Kube.{
  ObjectMeta, Object, PersistentVolumeClaim, Deployment, Service, CronJob, PodDisruptionBudget,
  Autoscaler, PodTemplate,
}
use osrm_operator.Api.{ProfileSpec, child_resource_name}
use osrm_operator.Api.Names.{IsComponent}
use osrm_operator.Api.Defaults.{ResourceInstance}
use osrm_operator.Generation.{get_active_map_generation, get_instance_active_map_generation}
use osrm_operator.Generation.Laws.{active-Mounts}
use osrm_operator.Builders.Autoscaler.{completed_autoscaler, update_autoscaler}
use osrm_operator.Contents.{Environment, adopt, built_meta, relabelled, component_profile}
use osrm_operator.Contents.Adoption.{ok-injective, deref-ok, adopt-ok}
use osrm_operator.Contents.Storage.{build_persistent_volume_claim}
use osrm_operator.Contents.MapJob.{job_template, build_job}
use osrm_operator.Contents.Workers.{
  worker_labels, worker_template, set_worker_annotations, build_deployment, update_deployment,
}
use osrm_operator.Contents.SpeedUpdates.{cron_job_template, completed_cron_job, update_cron_job}
use osrm_operator.Contents.Exposure.{update_service, update_pod_disruption_budget}

-- The claims that the pods of a template mount, volume by volume.
abbrev pub claims_of : PodTemplate → List (Option Text)
claims_of t = map (λ v. v.claim_name) t.volumes

module _ (e : Environment) (i : ResourceInstance) (p : ProfileSpec) (g : Text) where
  -- What an update of the workers writes.
  pub update_deployment-writes :
      (siblings : List Object) (d d' : Deployment)
      → update_deployment e i p g siblings d ≡ ok d'
      → (m : ObjectMeta) × (record d {
        meta = m;
        selector = some (worker_labels e i p g);
        template = record (worker_template e i p g) {
          annotations = set_worker_annotations e i p g siblings [];
        };
      }
          ≡ d')
  unfolding update_deployment
  update_deployment-writes siblings d d' h =
      let (m, adopted, written) = adopt-ok e i (relabelled i component_profile d.meta) _ d' h in
      (m, ok-injective written)

  -- A deployment that was updated for a generation is one from which that generation is read as the
  -- active one, for a cluster and for an instance, if the profile's name does not end in a dash
  -- and the generation is the decimal of an int.
  pub update_deployment-active :
      (n : ℕ) (siblings : List Object) (d d' : Deployment) (ds : List Deployment)
      → IsComponent p.name
      → n ≤ max_int64
      → g ≡ itoa (pos n)
      → update_deployment e i p g siblings d ≡ ok d'
      → (get_active_map_generation (d' ∷ ds) ≡ ok g)
        × (get_instance_active_map_generation (some d') ≡ ok g)
  unfolding worker_template
  update_deployment-active n siblings d d' ds component fits numbered h =
      let (m, written) = update_deployment-writes siblings d d' h in
      let volumes = ap (λ x. x.template.volumes) (sym written) in
      rw numbered (
        active-Mounts i.meta p.name n d' ds component fits
          (_, [], volumes, ap (λ s. some (child_resource_name i.meta p.name s)) numbered))

  -- What each update of a profile's objects writes, as far as the others rely on it.
  update_service-selector :
      (s s' : Service) → update_service e i p s ≡ ok s' → s'.selector ≡ worker_labels e i p g
  unfolding update_service worker_labels
  update_service-selector s s' h =
      let (m, adopted, written) = adopt-ok e i (relabelled i component_profile s.meta) _ s' h in
      sym (ap (λ x. x.selector) (ok-injective written))

  update_budget-selector :
      (b b' : PodDisruptionBudget)
      → update_pod_disruption_budget e i p b ≡ ok b'
      → b'.selector ≡ some (worker_labels e i p g)
  unfolding update_pod_disruption_budget worker_labels
  update_budget-selector b b' h =
      let (m, adopted, written) = adopt-ok e i (relabelled i component_profile b.meta) _ b' h in
      sym (ap (λ x. x.selector) (ok-injective written))

  built_claim-name :
      (c : PersistentVolumeClaim)
      → build_persistent_volume_claim e i p g ≡ ok c
      → c.meta.name ≡ child_resource_name i.meta p.name g
  unfolding build_persistent_volume_claim built_meta
  built_claim-name c h =
      let (storage, there, made) = deref-ok i.persistence.storage _ c h in
      sym (ap (λ x. x.meta.name) (ok-injective made))

  update_cron_job-claims :
      (c c' : CronJob)
      → update_cron_job e i p g c ≡ ok c'
      → claims_of c'.template ≡ some (child_resource_name i.meta p.name g) ∷ []
  unfolding update_cron_job completed_cron_job cron_job_template
  update_cron_job-claims c c' h =
      let (updates, there, run) = deref-ok p.speed_updates _ c' h in
      let (m, adopted, written) = adopt-ok e i (relabelled i component_profile c.meta) _ c' run in
      sym (ap (λ x. claims_of x.template) (ok-injective written))

  update_autoscaler-target :
      (a a' : Autoscaler)
      → update_autoscaler i.meta p (e.set_controller_reference i.meta) a ≡ ok a'
      → a'.target_name ≡ child_resource_name i.meta p.name []
  unfolding update_autoscaler completed_autoscaler adopt relabelled
  update_autoscaler-target a a' h =
      let (high, there, run) = deref-ok p.max_replicas _ a' h in
      let (m, adopted, written) =
        adopt-ok e i (relabelled i component_profile a.meta)
          (λ m. ok (completed_autoscaler i.meta p high m)) a' run in
      sym (ap (λ x. x.target_name) (ok-injective written))

  -- The objects of a profile fit together.
  pub record AreWired (c : PersistentVolumeClaim) (d : Deployment) (s : Service)
      (b : PodDisruptionBudget) : Type 0 where
    -- The workers, and the jobs that build and update the map, mount the claim of the generation.
    pub workers_mount : claims_of d.template ≡ some c.meta.name ∷ []
    pub job_mounts : claims_of (build_job e i p g).template ≡ some c.meta.name ∷ []
    pub cron_job_mounts :
        (j j' : CronJob)
        → update_cron_job e i p g j ≡ ok j'
        → claims_of j'.template ≡ some c.meta.name ∷ []
    -- The deployment, the service and the disruption budget select the pods of the deployment.
    pub selects_pods : d.selector ≡ some d.template.labels
    pub serves_pods : s.selector ≡ d.template.labels
    pub protects_pods : b.selector ≡ some d.template.labels
    -- The autoscaler scales the deployment.
    pub scales_workers :
        (a a' : Autoscaler)
        → update_autoscaler i.meta p (e.set_controller_reference i.meta) a ≡ ok a'
        → a'.target_name ≡ (build_deployment e i p g).meta.name

  -- Whatever the stored objects were, after their updates the objects of a profile fit together: the
  -- workers, the job and the cron job mount the claim that is built for the generation, the selectors
  -- of the deployment, the service and the disruption budget are the labels of the workers' pods, and
  -- the autoscaler scales the deployment by its name.
  pub updates-AreWired :
      (siblings : List Object) (c : PersistentVolumeClaim) (d d' : Deployment) (s s' : Service)
      (b b' : PodDisruptionBudget)
      → build_persistent_volume_claim e i p g ≡ ok c
      → update_deployment e i p g siblings d ≡ ok d'
      → update_service e i p s ≡ ok s'
      → update_pod_disruption_budget e i p b ≡ ok b'
      → AreWired c d' s' b'
  unfolding worker_template build_job job_template build_deployment built_meta
  updates-AreWired siblings c d d' s s' b b' claimed deployed served budgeted =
      let (m, written) = update_deployment-writes siblings d d' deployed in
      let name = built_claim-name c claimed in
      let labels = ap (λ x. x.template.labels) written in
      record {
        workers_mount =
            sym (ap (λ x. claims_of x.template) written) ∙ ap (λ n. some n ∷ []) (sym name);
        job_mounts = ap (λ n. some n ∷ []) (sym name);
        cron_job_mounts =
            λ j j' h. update_cron_job-claims j j' h ∙ ap (λ n. some n ∷ []) (sym name);
        selects_pods = sym (ap (λ x. x.selector) written) ∙ ap some labels;
        serves_pods = update_service-selector s s' served ∙ labels;
        protects_pods = update_budget-selector b b' budgeted ∙ ap some labels;
        scales_workers = update_autoscaler-target;
      }
