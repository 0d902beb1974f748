-- ===== src/Contents/Stable.antt =====
-- Every `Update`, done a second time, changes nothing: `CreateOrUpdate` writes no object that is as the
-- builder wants it, where the routing options that are set are visited in the same order.
pub mod Kinds
pub mod Order
use osrm_operator.Base.{List, Option, none, some, ◌≡◌, refl, ◌∙◌, Result, ok, err, panic, bind}
use mathlib.Core.Path.{subst}
use osrm_operator.Kube.{
  Kind, Item, Object, object, as_deployment, as_service, as_config_map, as_cron_job, as_autoscaler,
  as_disruption_budget, as_claim, as_job,
}
use osrm_operator.Api.Defaults.{ResourceInstance}
use osrm_operator.Builders.{
  ResourceBuilder, persistent_volume_claim, job, deployment, cron_job, service,
  pod_disruption_budget, horizontal_pod_autoscaler, config_map, gateway_service, gateway_deployment,
}
use osrm_operator.Builders.Autoscaler.{update_autoscaler}
use osrm_operator.Contents.{Environment, visiting}
use osrm_operator.Contents.Adoption.{ReferenceLawful, visiting-ReferenceLawful, ok-injective}
use osrm_operator.Contents.Storage.{update_persistent_volume_claim}
use osrm_operator.Contents.MapJob.{update_job}
use osrm_operator.Contents.Workers.{update_deployment}
use osrm_operator.Contents.SpeedUpdates.{update_cron_job}
use osrm_operator.Contents.Exposure.{update_service, update_pod_disruption_budget}
use osrm_operator.Contents.Gateway.{
  update_config_map, update_gateway_service, update_gateway_deployment,
}
use osrm_operator.Contents.Objects.{updated, update}
use osrm_operator.Contents.Stable.Kinds.{
  update_persistent_volume_claim-again, update_cron_job-again, update_job-again,
  update_deployment-again, update_service-again, update_pod_disruption_budget-again,
  update_autoscaler-again, update_config_map-again, update_gateway_deployment-again,
  update_gateway_service-again, AreAnnotations,
}
use osrm_operator.Contents.Stable.Order.{IsVisitedAlike, update-visiting}
use osrm_operator.Text.{Text}
use osrm_operator.Dict.{Dict}

pub updated-ok :
    (k : Kind) (o : Option (Item k)) (f : Item k → Result (Item k)) (o' : Object)
    → updated k o f ≡ ok o'
    → (x : Item k) × (y : Item k) × (o ≡ some x) × (f x ≡ ok y) × (object k y ≡ o')
updated-ok k none f o' h = absurd (cc)
updated-ok k (some x) f o' h = go (f x) refl h
  where
    go :
        (r : Result (Item k))
        → f x ≡ r
        → bind r (λ y. ok (object k y)) ≡ ok o'
        → (x' : Item k) × (y : Item k) × (some x ≡ some x') × (f x' ≡ ok y) × (object k y ≡ o')
    go (ok y) q h' = (x, y, refl, q, ok-injective h')
    go (err error) q h' = absurd (cc)
    go panic q h' = absurd (cc)

updated-again :
    (k : Kind) (as_item : Object → Option (Item k)) (f : Item k → Result (Item k))
    → ((y : Item k) → as_item (object k y) ≡ some y)
    → ((x y : Item k) → f x ≡ ok y → f y ≡ ok y)
    → (o o' : Object) → updated k (as_item o) f ≡ ok o'
    → updated k (as_item o') f ≡ ok o'
updated-again k as_item f as_own again o o' h =
    let (x, y, asserted, done, same) = updated-ok k (as_item o) f o' h in
    subst (λ z. updated k (as_item z) f ≡ ok z) same (rw (as_own y, again x y done) refl)

module _ (e : Environment) (i : ResourceInstance) (laws : ReferenceLawful e i.meta) where
  -- The same, where the map of the routing options is visited in one order by both updates.
  update-again_in_order :
      AreAnnotations i.service.annotations
      → (siblings : List Object) (b : ResourceBuilder) (o o' : Object)
      → update e i siblings b o ≡ ok o'
      → update e i siblings b o' ≡ ok o'
  unfolding update
  update-again_in_order distinct siblings (persistent_volume_claim p g) =
      updated-again Kind.claim as_claim (update_persistent_volume_claim e i p g) (λ y. refl)
        (update_persistent_volume_claim-again e i laws p g)
  update-again_in_order distinct siblings (job p g) =
      updated-again Kind.job as_job (update_job e i p g) (λ y. refl) (update_job-again e i laws p g)
  update-again_in_order distinct siblings (deployment p g) =
      updated-again Kind.deployment as_deployment (update_deployment e i p g siblings) (λ y. refl)
        (update_deployment-again e i laws p g siblings)
  update-again_in_order distinct siblings (cron_job p g) =
      updated-again Kind.cron_job as_cron_job (update_cron_job e i p g) (λ y. refl)
        (update_cron_job-again e i laws p g)
  update-again_in_order distinct siblings (service p) =
      updated-again Kind.service as_service (update_service e i p) (λ y. refl)
        (update_service-again e i laws p)
  update-again_in_order distinct siblings (pod_disruption_budget p) =
      updated-again Kind.disruption_budget as_disruption_budget (update_pod_disruption_budget e i p)
        (λ y. refl) (update_pod_disruption_budget-again e i laws p)
  update-again_in_order distinct siblings (horizontal_pod_autoscaler p) =
      updated-again Kind.autoscaler as_autoscaler
        (update_autoscaler i.meta p (e.set_controller_reference i.meta)) (λ y. refl)
        (update_autoscaler-again e i laws p)
  update-again_in_order distinct siblings (config_map ps) =
      updated-again Kind.config_map as_config_map (update_config_map e i ps) (λ y. refl)
        (update_config_map-again e i laws ps)
  update-again_in_order distinct siblings (gateway_service ps) =
      updated-again Kind.service as_service (update_gateway_service e i ps) (λ y. refl)
        (update_gateway_service-again e i laws ps distinct)
  update-again_in_order distinct siblings (gateway_deployment ps) =
      updated-again Kind.deployment as_deployment (update_gateway_deployment e i ps siblings)
        (λ y. refl) (update_gateway_deployment-again e i laws ps siblings)

-- The second of two updates in succession, with the same siblings, changes nothing in the object
-- that the first left, whatever the object was, if the annotations that the resource gives to the
-- gateway's service have distinct keys, setting the controller reference is as documented, and, where
-- the builder is that of a deployment of workers with routing options, both updates visit those of the
-- options that are set in the same order.
pub update-again :
    (e : Environment) (i : ResourceInstance) (f f' : Dict Text → Dict Text)
    → ReferenceLawful e i.meta
    → AreAnnotations i.service.annotations
    → (siblings : List Object) (b : ResourceBuilder) (o o' : Object) → IsVisitedAlike f f' b
    → update (visiting f e) i siblings b o ≡ ok o'
    → update (visiting f' e) i siblings b o' ≡ ok o'
update-again e i f f' laws distinct siblings b o o' alike h =
    update-visiting e i f f' siblings b o' alike
    ∙ update-again_in_order (visiting f e) i (visiting-ReferenceLawful e i.meta f laws) distinct
        siblings b o o' h
