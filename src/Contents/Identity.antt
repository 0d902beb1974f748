-- ===== src/Contents/Identity.antt =====
-- What the objects of the builders are called: the kind and name by which they are planned, in the
-- namespace of the resource and with the label by which they are listed.
use osrm_operator.Base.{List, Option, none, some, ◌≡◌, refl, ◌∙◌, ap, Result, ok, err, panic, bind}
use mathlib.Core.Path.{subst}
use osrm_operator.Text.{Text}
use osrm_operator.Dict.{Dict, lookup}
use osrm_operator.Kube.{
  ObjectMeta, Kind, Item, item_meta, Object, object, object_kind, object_meta,
  PersistentVolumeClaim, as_cron_job, as_autoscaler,
}
use osrm_operator.Metadata.{name_label_key}
use osrm_operator.Metadata.Precedence.{lookup-get_labels}
use osrm_operator.Api.{ProfileSpec}
use osrm_operator.Api.Defaults.{ResourceInstance}
use osrm_operator.Builders.{
  ResourceBuilder, persistent_volume_claim, job, deployment, cron_job, service,
  pod_disruption_budget, horizontal_pod_autoscaler, config_map, gateway_service, gateway_deployment,
  built_kind, built_name,
}
use osrm_operator.Builders.Autoscaler.{build_autoscaler, completed_autoscaler, update_autoscaler}
use osrm_operator.Contents.{
  Environment, built_meta, relabelled, adopt, component_profile, component_gateway,
}
use osrm_operator.Contents.Adoption.{ReferenceLawful, ok-injective, deref-ok, adopt-ok}
use osrm_operator.Contents.Storage.{build_persistent_volume_claim, update_persistent_volume_claim}
use osrm_operator.Contents.MapJob.{build_job, update_job}
use osrm_operator.Contents.Workers.{build_deployment, update_deployment}
use osrm_operator.Contents.SpeedUpdates.{build_cron_job, completed_cron_job, update_cron_job}
use osrm_operator.Contents.Exposure.{
  build_service, update_service, build_pod_disruption_budget, update_pod_disruption_budget,
}
use osrm_operator.Contents.Gateway.{
  build_config_map, update_config_map, build_gateway_service, annotated_by, set_service_annotations,
  update_gateway_service, build_gateway_deployment, update_gateway_deployment,
}
use osrm_operator.Contents.Objects.{updated, build, update}
use osrm_operator.Contents.Stable.{updated-ok}

-- The object has the kind, the name and the namespace.
pub record IsCalled (k : Kind) (name namespace : Text) (o : Object) : Type 0 where
  pub of_kind : object_kind o ≡ k
  pub has_name : (object_meta o).name ≡ name
  pub has_namespace : (object_meta o).namespace ≡ namespace

-- The object bears the label by which the children of the owner are listed.
abbrev pub IsLabelled : Text → Object → Type 0
IsLabelled owner o = lookup name_label_key (object_meta o).labels ≡ some owner

module _ (e : Environment) (i : ResourceInstance) where
  built-claim :
      (r : Result PersistentVolumeClaim) (o : Object)
      → bind r (λ x. ok (object Kind.claim x)) ≡ ok o
      → (c : PersistentVolumeClaim) × (r ≡ ok c) × (object Kind.claim c ≡ o)
  built-claim (ok c) o h = (c, refl, ok-injective h)
  built-claim (err error) o h = absurd (cc)
  built-claim panic o h = absurd (cc)

  -- What a builder builds is called as it was planned.
  pub build-IsCalled :
      (b : ResourceBuilder) (o : Object)
      → build e i b ≡ ok o
      → IsCalled (built_kind b) (built_name i.meta b) i.meta.namespace o
  unfolding build built_name built_meta build_persistent_volume_claim build_job build_deployment
      build_cron_job build_service build_pod_disruption_budget build_autoscaler build_config_map
      build_gateway_service build_gateway_deployment
  build-IsCalled (persistent_volume_claim p g) o h =
      let (c, made, same) = built-claim (build_persistent_volume_claim e i p g) o h in
      let (storage, there, written) = deref-ok i.persistence.storage _ c made in
      subst (IsCalled Kind.claim (built_name i.meta (persistent_volume_claim p g)) i.meta.namespace)
        (ap (object Kind.claim) (ok-injective written) ∙ same)
        (record { of_kind = refl; has_name = refl; has_namespace = refl })
  build-IsCalled b o h =
      subst (IsCalled (built_kind b) (built_name i.meta b) i.meta.namespace) (ok-injective h)
        (record { of_kind = refl; has_name = refl; has_namespace = refl })

  -- The metadata of an object whose update ended in the adoption.
  adopted-IsLabelled :
      (laws : ReferenceLawful e i.meta) (k : Kind) (prepared : ObjectMeta)
      (complete : ObjectMeta → Item k)
      → ((m : ObjectMeta) → item_meta k (complete m) ≡ m)
      → lookup name_label_key prepared.labels ≡ some i.meta.name
      → (y : Item k) → adopt i e prepared (λ m. ok (complete m)) ≡ ok y
      → IsLabelled i.meta.name (object k y)
  adopted-IsLabelled laws k prepared complete has_meta labelled y h =
      let (m, adopted, written) = adopt-ok e i prepared (λ m. ok (complete m)) y h in
      subst (λ x. IsLabelled i.meta.name (object k x)) (ok-injective written)
        (rw (has_meta m) (
          ap (λ x. lookup name_label_key x.labels) (laws.writes_owners prepared m adopted)
          ∙ labelled))

  labelled :
      (component : Text) (m : ObjectMeta)
      → lookup name_label_key (relabelled i component m).labels ≡ some i.meta.name
  unfolding relabelled
  labelled component m = (lookup-get_labels i.meta component).0

  annotated-labelled :
      (ps : List ProfileSpec) (m : ObjectMeta)
      → lookup name_label_key m.labels ≡ some i.meta.name
      → lookup name_label_key (set_service_annotations e i ps m).labels ≡ some i.meta.name
  unfolding set_service_annotations
  annotated-labelled ps m h = go i.service.annotations
    where
      go :
          (o : Option (Dict Text))
          → lookup name_label_key (annotated_by o m).labels ≡ some i.meta.name
      go none = h
      go (some annotations) = h

  updated-IsLabelled :
      (k : Kind) (item : Option (Item k)) (f : Item k → Result (Item k)) (o : Object)
      → ((x y : Item k) → f x ≡ ok y → IsLabelled i.meta.name (object k y))
      → updated k item f ≡ ok o
      → IsLabelled i.meta.name o
  updated-IsLabelled k item f o each h =
      let (x, y, asserted, run, same) = updated-ok k item f o h in
      subst (IsLabelled i.meta.name) same (each x y run)

  -- What an update writes bears the label by which the children of the resource are listed.
  pub update-IsLabelled :
      ReferenceLawful e i.meta
      → (siblings : List Object) (b : ResourceBuilder) (o o' : Object)
      → update e i siblings b o ≡ ok o'
      → IsLabelled i.meta.name o'
  unfolding update update_persistent_volume_claim update_job update_deployment update_service
      update_pod_disruption_budget update_config_map update_gateway_deployment
      update_gateway_service update_cron_job update_autoscaler completed_cron_job
      completed_autoscaler adopt relabelled
  update-IsLabelled laws siblings (persistent_volume_claim p g) o o' =
      updated-IsLabelled Kind.claim _ _ o' (λ x.
        adopted-IsLabelled laws Kind.claim (relabelled i component_profile x.meta) _ (λ m. refl)
          (labelled component_profile x.meta))
  update-IsLabelled laws siblings (job p g) o o' = updated-IsLabelled Kind.job _ _ o' (λ x.
      adopted-IsLabelled laws Kind.job (relabelled i component_profile x.meta) _ (λ m. refl)
        (labelled component_profile x.meta))
  update-IsLabelled laws siblings (deployment p g) o o' =
      updated-IsLabelled Kind.deployment _ _ o' (λ x.
        adopted-IsLabelled laws Kind.deployment (relabelled i component_profile x.meta) _
          (λ m. refl) (labelled component_profile x.meta))
  update-IsLabelled laws siblings (cron_job p g) o o' =
      updated-IsLabelled Kind.cron_job (as_cron_job o) (update_cron_job e i p g) o' (λ x y h.
        let (updates, there, run) =
          deref-ok p.speed_updates
            (λ u.
              adopt i e (relabelled i component_profile x.meta)
                (λ m. ok (completed_cron_job e i p g u x m)))
            y h in
        adopted-IsLabelled laws Kind.cron_job (relabelled i component_profile x.meta)
          (completed_cron_job e i p g updates x) (λ m. refl) (labelled component_profile x.meta) y
          run)
  update-IsLabelled laws siblings (service p) o o' = updated-IsLabelled Kind.service _ _ o' (λ x.
      adopted-IsLabelled laws Kind.service (relabelled i component_profile x.meta) _ (λ m. refl)
        (labelled component_profile x.meta))
  update-IsLabelled laws siblings (pod_disruption_budget p) o o' =
      updated-IsLabelled Kind.disruption_budget _ _ o' (λ x.
        adopted-IsLabelled laws Kind.disruption_budget (relabelled i component_profile x.meta) _
          (λ m. refl) (labelled component_profile x.meta))
  update-IsLabelled laws siblings (horizontal_pod_autoscaler p) o o' =
      updated-IsLabelled Kind.autoscaler (as_autoscaler o)
        (update_autoscaler i.meta p (e.set_controller_reference i.meta)) o'
        (λ x y h.
          let (high, there, run) =
            deref-ok p.max_replicas
              (λ high.
                adopt i e (relabelled i component_profile x.meta)
                  (λ m. ok (completed_autoscaler i.meta p high m)))
              y h in
          adopted-IsLabelled laws Kind.autoscaler (relabelled i component_profile x.meta)
            (completed_autoscaler i.meta p high) (λ m. refl) (labelled component_profile x.meta) y
            run)
  update-IsLabelled laws siblings (config_map ps) o o' =
      updated-IsLabelled Kind.config_map _ _ o' (λ x.
        adopted-IsLabelled laws Kind.config_map (relabelled i component_gateway x.meta) _
          (λ m. refl) (labelled component_gateway x.meta))
  update-IsLabelled laws siblings (gateway_service ps) o o' =
      updated-IsLabelled Kind.service _ _ o' (λ x.
        adopted-IsLabelled laws Kind.service
          (set_service_annotations e i ps (relabelled i component_gateway x.meta)) _ (λ m. refl)
          (annotated-labelled ps (relabelled i component_gateway x.meta)
            (labelled component_gateway x.meta)))
  update-IsLabelled laws siblings (gateway_deployment ps) o o' =
      updated-IsLabelled Kind.deployment _ _ o' (λ x.
        adopted-IsLabelled laws Kind.deployment (relabelled i component_gateway x.meta) _
          (λ m. refl) (labelled component_gateway x.meta))
