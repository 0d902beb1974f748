-- ===== src/Builders/Autoscaler.antt =====
-- internal/resource/horizontal_pod_autoscaler.go.
use osrm_operator.Base.{[], some, Result, ok, err, panic, deref, printed}
use osrm_operator.Base.Int.{ℤ, pos}
use osrm_operator.Text.{codes}
use osrm_operator.Kube.{ObjectMeta, Autoscaler, new_meta}
use osrm_operator.Kube.Fresh.{fresh_autoscaler}
use osrm_operator.Metadata.{get_labels}
use osrm_operator.Api.{ProfileSpec, child_resource_name}

module _ (instance_meta : ObjectMeta) (p : ProfileSpec) where
  -- `HorizontalPodAutoscalerBuilder.Build`
  unfoldable pub build_autoscaler : Autoscaler
  build_autoscaler = fresh_autoscaler (
      new_meta (child_resource_name instance_meta p.name []) instance_meta.namespace
        (get_labels instance_meta (codes "profile")))

  -- What `HorizontalPodAutoscalerBuilder.Update` writes.
  unfoldable pub completed_autoscaler : ℤ → ObjectMeta → Autoscaler
  unfolding child_resource_name
  completed_autoscaler high meta = record {
    meta = meta;
    target_kind = codes "Deployment";
    target_name = child_resource_name instance_meta p.name [];
    target_api_version = codes "apps/v1";
    min_replicas = p.min_replicas;
    max_replicas = high;
    target_cpu = some (pos 85);
  }

  -- `HorizontalPodAutoscalerBuilder.Update`; `set_controller_reference` is that of controllerutil,
  -- and `*builder.profile.MaxReplicas` panics on nil.
  unfoldable pub update_autoscaler :
      (ObjectMeta → Result ObjectMeta) → Autoscaler → Result Autoscaler
  unfolding completed_autoscaler
  update_autoscaler set_controller_reference hpa =
      let meta = record (hpa.meta) { labels = get_labels instance_meta (codes "profile") } in
      deref p.max_replicas (λ high. elim (set_controller_reference meta) [
        | ok meta' ↦ ok (completed_autoscaler high meta')
        | err e ↦ err (printed (codes "failed setting controller reference"))
        | panic ↦ panic
      ])
