-- ===== src/Contents/Objects.antt =====
-- The builders as one: `ResourceBuilder.Build` and `ResourceBuilder.Update`, dispatched on the builder.
use osrm_operator.Base.{List, Option, none, some, Result, ok, panic, bind}
use osrm_operator.Kube.{
  Kind, Item, Object, object, as_deployment, as_service, as_config_map, as_cron_job, as_autoscaler,
  as_disruption_budget, as_claim, as_job,
}
use osrm_operator.Api.Defaults.{ResourceInstance}
use osrm_operator.Builders.{
  ResourceBuilder, persistent_volume_claim, job, deployment, cron_job, service,
  pod_disruption_budget, horizontal_pod_autoscaler, config_map, gateway_service, gateway_deployment,
}
use osrm_operator.Builders.Autoscaler.{build_autoscaler, update_autoscaler}
use osrm_operator.Contents.{Environment}
use osrm_operator.Contents.Storage.{build_persistent_volume_claim, update_persistent_volume_claim}
use osrm_operator.Contents.MapJob.{build_job, update_job}
use osrm_operator.Contents.Workers.{build_deployment, update_deployment}
use osrm_operator.Contents.SpeedUpdates.{build_cron_job, update_cron_job}
use osrm_operator.Contents.Exposure.{
  build_service, update_service, build_pod_disruption_budget, update_pod_disruption_budget,
}
use osrm_operator.Contents.Gateway.{
  build_config_map, update_config_map, build_gateway_service, update_gateway_service,
  build_gateway_deployment, update_gateway_deployment,
}

-- `Update` of an object of the kind that its type assertion asks for; any other makes it panic.
abbrev pub updated : (k : Kind) → Option (Item k) → (Item k → Result (Item k)) → Result Object
updated k none f = panic
updated k (some x) f = bind (f x) (λ y. ok (object k y))

module _ (e : Environment) (i : ResourceInstance) where
  -- `ResourceBuilder.Build`
  unfoldable pub build : ResourceBuilder → Result Object
  unfolding build_persistent_volume_claim build_job build_deployment build_cron_job build_service
      build_pod_disruption_budget build_autoscaler build_config_map build_gateway_service
      build_gateway_deployment
  build (persistent_volume_claim p g) =
      bind (build_persistent_volume_claim e i p g) (λ x. ok (object Kind.claim x))
  build (job p g) = ok (object Kind.job (build_job e i p g))
  build (deployment p g) = ok (object Kind.deployment (build_deployment e i p g))
  build (cron_job p g) = ok (object Kind.cron_job (build_cron_job e i p g))
  build (service p) = ok (object Kind.service (build_service e i p))
  build (pod_disruption_budget p) =
      ok (object Kind.disruption_budget (build_pod_disruption_budget e i p))
  build (horizontal_pod_autoscaler p) = ok (object Kind.autoscaler (build_autoscaler i.meta p))
  build (config_map ps) = ok (object Kind.config_map (build_config_map e i ps))
  build (gateway_service ps) = ok (object Kind.service (build_gateway_service e i ps))
  build (gateway_deployment ps) = ok (object Kind.deployment (build_gateway_deployment e i ps))

  -- `ResourceBuilder.Update`
  unfoldable pub update : List Object → ResourceBuilder → Object → Result Object
  unfolding update_persistent_volume_claim update_job update_deployment update_cron_job
      update_service update_pod_disruption_budget update_autoscaler update_config_map
      update_gateway_service update_gateway_deployment
  update siblings (persistent_volume_claim p g) o =
      updated Kind.claim (as_claim o) (update_persistent_volume_claim e i p g)
  update siblings (job p g) o = updated Kind.job (as_job o) (update_job e i p g)
  update siblings (deployment p g) o =
      updated Kind.deployment (as_deployment o) (update_deployment e i p g siblings)
  update siblings (cron_job p g) o = updated Kind.cron_job (as_cron_job o) (update_cron_job e i p g)
  update siblings (service p) o = updated Kind.service (as_service o) (update_service e i p)
  update siblings (pod_disruption_budget p) o =
      updated Kind.disruption_budget (as_disruption_budget o) (update_pod_disruption_budget e i p)
  update siblings (horizontal_pod_autoscaler p) o =
      updated Kind.autoscaler (as_autoscaler o)
        (update_autoscaler i.meta p (e.set_controller_reference i.meta))
  update siblings (config_map ps) o =
      updated Kind.config_map (as_config_map o) (update_config_map e i ps)
  update siblings (gateway_service ps) o =
      updated Kind.service (as_service o) (update_gateway_service e i ps)
  update siblings (gateway_deployment ps) o =
      updated Kind.deployment (as_deployment o) (update_gateway_deployment e i ps siblings)
