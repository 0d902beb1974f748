-- ===== src/Contents/Exposure.antt =====
-- internal/resource/service.go and pod_disruption_budget.go: how the workers of a profile are reached
-- and kept available. The autoscaler is in Builders/Autoscaler.antt.
use osrm_operator.Base.{List, [], ◌∷◌, ◌++◌, some, Result, ok}
use osrm_operator.Base.Int.{pos}
use osrm_operator.Text.{codes}
use osrm_operator.Kube.{Service, ServicePort, PodDisruptionBudget}
use osrm_operator.Kube.Fresh.{fresh_service, fresh_disruption_budget}
use osrm_operator.Api.{ProfileSpec, child_resource_name, get_min_available}
use osrm_operator.Api.Defaults.{ResourceInstance}
use osrm_operator.Contents.{Environment, component_profile, built_meta, relabelled, adopt}

module _ (e : Environment) (i : ResourceInstance) (p : ProfileSpec) where
  -- `ServiceBuilder.Build`
  unfoldable pub build_service : Service
  unfolding built_meta
  build_service =
      fresh_service (built_meta i (child_resource_name i.meta p.name []) component_profile)

  -- `service.Spec.Ports`
  unfoldable pub worker_ports : List ServicePort
  unfolding child_resource_name
  worker_ports =
      record {
        name = child_resource_name i.meta p.name [] ++ codes "-port";
        protocol = codes "TCP";
        port = pos 80;
        target_port = pos 5000;
      }
      ∷ []

  -- `ServiceBuilder.Update`
  unfoldable pub update_service : Service → Result Service
  unfolding relabelled adopt child_resource_name worker_ports
  update_service s =
      let name = child_resource_name i.meta p.name [] in
      adopt i e (relabelled i component_profile s.meta) (λ meta. ok (record s {
        meta = meta;
        type = codes "ClusterIP";
        ports = worker_ports;
        selector = (codes "app", name) ∷ [];
      }))

  -- `PodDisruptionBudgetBuilder.Build`
  unfoldable pub build_pod_disruption_budget : PodDisruptionBudget
  unfolding built_meta
  build_pod_disruption_budget =
      fresh_disruption_budget
        (built_meta i (child_resource_name i.meta p.name []) component_profile)

  -- `PodDisruptionBudgetBuilder.Update`
  unfoldable pub update_pod_disruption_budget : PodDisruptionBudget → Result PodDisruptionBudget
  unfolding relabelled adopt child_resource_name get_min_available
  update_pod_disruption_budget b =
      let name = child_resource_name i.meta p.name [] in
      adopt i e (relabelled i component_profile b.meta) (λ meta. ok (record b {
        meta = meta;
        min_available = some (get_min_available p.min_replicas);
        selector = some ((codes "app", name) ∷ []);
      }))
