-- ===== src/Witnesses/Building.antt =====
-- Objects that the builders build and update for a concrete cluster.
use osrm_operator.Base.{[], ◌∷◌, ◌++◌, none, some, ◌≡◌, ◌≢◌, refl, arith, All, ok, map}
use mathlib.Core.List.{reverse, Perm}
use osrm_operator.Base.Int.{pos}
use osrm_operator.Text.{Text, codes, has_prefix, text_eq}
use osrm_operator.Text.Laws.{Lacks}
use osrm_operator.Text.Decimal.{itoa}
use osrm_operator.Dict.{Dict}
use osrm_operator.Metadata.Precedence.{prefer}
use osrm_operator.Kube.{
  Kind, object, PersistentVolumeClaim, Deployment, Service, ConfigMap, PodDisruptionBudget,
}
use osrm_operator.Kube.Fresh.{fresh_service, fresh_config_map, fresh_disruption_budget}
use osrm_operator.Api.{ProfileSpec, OsrmRoutedOptions, child_resource_name, workers_deployed}
use osrm_operator.Api.Defaults.{
  flag_map, format_flags, format_int, ResourceInstance, of_cluster, get_profile, get_pbf_file_name,
  get_osrm_file_name,
}
use osrm_operator.Api.Defaults.Files.{LacksExtension, get_osrm_file_name_lem}
use osrm_operator.Generation.{get_active_map_generation, get_instance_active_map_generation}
use osrm_operator.Builders.{deployment}
use osrm_operator.Contents.{adopt, visiting}
use osrm_operator.Contents.Adoption.{value_or}
use osrm_operator.Contents.Storage.{build_persistent_volume_claim}
use osrm_operator.Contents.MapJob.{job_env}
use osrm_operator.Contents.Workers.{worker_template, update_deployment}
use osrm_operator.Contents.SpeedUpdates.{cron_job_env}
use osrm_operator.Contents.Exposure.{build_service, update_service, update_pod_disruption_budget}
use osrm_operator.Contents.Nginx.{service_to_env_variable}
use osrm_operator.Contents.Nginx.Variables.{env_byte, IsUpper, service_to_env_variable_lem}
use osrm_operator.Contents.Gateway.{
  update_config_map, update_gateway_service, update_gateway_deployment,
}
use osrm_operator.Contents.Objects.{update}
use osrm_operator.Contents.Rollout.{with_order, worker_template-order, update_deployment-replicas}
use osrm_operator.Contents.Stable.{update-again}
use osrm_operator.Contents.Variables.{without_env, without_updates_env, value_of, env-precedence}
use osrm_operator.Contents.Wiring.{AreWired, update_deployment-active, updates-AreWired}
use osrm_operator.Contents.Wiring.Gateway.{IsGatewayWired, updates-IsGatewayWired}
use osrm_operator.Witnesses.{claim_of, cluster, car, foot, meta_of, deployment_of, speed_updates}
use osrm_operator.Witnesses.Reconciling.{environment}
use osrm_operator.Witnesses.Realising.{environment-Lawful}

-- The cluster of the witnesses, with an annotation for the gateway's service.
abbrev osm : ResourceInstance
osm = record (of_cluster (cluster workers_deployed)) {
  meta = (cluster workers_deployed).meta;
  persistence = (cluster workers_deployed).spec.persistence;
  service = record (cluster workers_deployed).spec.service {
    annotations = some ((codes "balancer", codes "internal") ∷ []);
  };
}

abbrev exposed : Service
exposed = fresh_service (meta_of (codes "osm"))

abbrev exposed_again : Service
exposed_again = value_or exposed (update_gateway_service environment osm (car ∷ foot ∷ []) exposed)

-- A profile with one routing option, whose map all orders visit alike.
abbrev routed : ProfileSpec
routed = record car {
  osrm_routed_options = some (record {
    max_via_route_size = none;
    max_trip_size = none;
    max_table_size = some (pos 100);
    max_matching_size = none;
    max_nearest_size = none;
  });
}

abbrev unrolled : Deployment
unrolled = deployment_of (codes "osm-car") (codes "osm-car-1")

abbrev rolled : Deployment
rolled =
    value_or unrolled
      (update_deployment (visiting (λ m. m) environment) osm routed (itoa (pos 2)) [] unrolled)

update-again_example :
    update
      (visiting reverse environment)
      osm
      []
      (deployment routed (itoa (pos 2)))
      (object Kind.deployment rolled)
    ≡ ok (object Kind.deployment rolled)
unfolding update update_deployment adopt environment flag_map format_flags format_int text_eq
update-again_example =
    update-again environment osm (λ m. m) reverse (environment-Lawful osm.meta) (tt, tt) []
      (deployment routed (itoa (pos 2))) (object Kind.deployment unrolled)
      (object Kind.deployment rolled) refl refl

abbrev workers : Deployment
workers = deployment_of (codes "osm-car") (codes "osm-car-1")

abbrev workers_again : Deployment
workers_again = value_or workers (update_deployment environment osm car (itoa (pos 2)) [] workers)

update_deployment-active_example :
    (get_active_map_generation (workers_again ∷ []) ≡ ok (itoa (pos 2)))
    × (get_instance_active_map_generation (some workers_again) ≡ ok (itoa (pos 2)))
unfolding update_deployment adopt environment
update_deployment-active_example =
    update_deployment-active environment osm car (itoa (pos 2)) 2 [] workers workers_again []
      (λ h. omega arith) (omega arith) refl refl

abbrev claim : PersistentVolumeClaim
claim = value_or (claim_of []) (build_persistent_volume_claim environment osm car (itoa (pos 2)))

abbrev served : Service
served = value_or exposed (update_service environment osm car exposed)

abbrev budget : PodDisruptionBudget
budget = fresh_disruption_budget (meta_of (codes "osm-car"))

abbrev budget_again : PodDisruptionBudget
budget_again = value_or budget (update_pod_disruption_budget environment osm car budget)

updates-AreWired_example :
    AreWired environment osm car (itoa (pos 2)) claim workers_again served budget_again
unfolding build_persistent_volume_claim update_deployment update_service
    update_pod_disruption_budget adopt environment
updates-AreWired_example =
    updates-AreWired environment osm car (itoa (pos 2)) [] claim workers workers_again exposed
      served budget budget_again refl refl refl refl

abbrev gateway : Deployment
gateway = deployment_of (codes "osm") (codes "osm")

abbrev gateway_again : Deployment
gateway_again =
    value_or gateway (update_gateway_deployment environment osm (car ∷ foot ∷ []) [] gateway)

abbrev configuration : ConfigMap
configuration = fresh_config_map (meta_of (codes "osm"))

abbrev configuration_again : ConfigMap
configuration_again =
    value_or configuration (update_config_map environment osm (car ∷ foot ∷ []) configuration)

updates-IsGatewayWired_example :
    IsGatewayWired environment osm (car ∷ foot ∷ []) configuration_again gateway_again exposed_again
unfolding update_config_map update_gateway_deployment update_gateway_service adopt environment
updates-IsGatewayWired_example =
    updates-IsGatewayWired environment osm (car ∷ foot ∷ []) [] configuration configuration_again
      gateway gateway_again exposed exposed_again refl refl refl

-- Two of the routing options are set.
abbrev limits : OsrmRoutedOptions
limits = record {
  max_via_route_size = none;
  max_trip_size = some (pos 100);
  max_table_size = some (pos 500);
  max_matching_size = none;
  max_nearest_size = none;
}

abbrev limited : ProfileSpec
limited = record car { osrm_routed_options = some limits }

worker_template-order_example :
    ((m : Dict Text) → Perm (reverse m) m)
    × (worker_template
          (with_order environment osm limited (codes "2") (λ m. m))
          osm
          limited
          (codes "2")
        ≢ worker_template
            (with_order environment osm limited (codes "2") reverse)
            osm
            limited
            (codes "2"))
worker_template-order_example =
    worker_template-order environment osm limited (codes "2") limits refl (omega arith)

update_deployment-replicas_example :
    (update_deployment environment osm
        (record car { replicas = some (pos 7) })
        (codes "2")
        []
        workers
      ≡ update_deployment environment osm car (codes "2") [] workers)
    × ((d' : Deployment)
        → update_deployment environment osm car (codes "2") [] workers ≡ ok d'
        → d'.spec_replicas ≡ workers.spec_replicas)
update_deployment-replicas_example =
    update_deployment-replicas environment osm car (codes "2") (some (pos 7)) [] workers

-- The resource sets a variable that the operator sets too.
abbrev overridden : ResourceInstance
overridden = record osm {
  map_builder = record (osm.map_builder) {
    env = record { name = codes "ROOT_DIR"; value = codes "/tmp" } ∷ [];
  };
}

env-precedence_example :
    (value_of (codes "ROOT_DIR") (job_env environment overridden car (codes "2"))
      ≡ prefer (value_of (codes "ROOT_DIR") overridden.map_builder.env) (
          value_of (codes "ROOT_DIR") (
            job_env environment
              (without_env environment overridden car (codes "2"))
              car
              (codes "2"))))
    × (value_of
          (codes "ROOT_DIR")
          (cron_job_env environment overridden car (codes "2") speed_updates)
        ≡ prefer
            (value_of (codes "ROOT_DIR") (
              cron_job_env environment overridden car
                (codes "2")
                (without_updates_env environment overridden car (codes "2") speed_updates)))
            (value_of (codes "ROOT_DIR") speed_updates.env))
    × (value_of
          (codes "PBF_URL")
          (job_env environment (without_env environment overridden car (codes "2")) car (codes "2"))
        ≡ some overridden.pbf_url)
    × (value_of
          (codes "PROFILE")
          (job_env environment (without_env environment overridden car (codes "2")) car (codes "2"))
        ≡ some (get_profile car))
    × (value_of
          (codes "OSRM_FILE_NAME")
          (cron_job_env environment overridden car (codes "2") speed_updates)
        ≡ some overridden.osrm_file_name)
env-precedence_example =
    env-precedence environment overridden car (codes "2") (codes "ROOT_DIR") speed_updates

service_to_env_variable_lem_example :
    let name = (build_service environment osm car).meta.name in
    let variable = service_to_env_variable (child_resource_name osm.meta car.name []) in
    (variable ≡ map env_byte name ++ codes "_SERVICE_HOST") × All IsUpper variable
service_to_env_variable_lem_example = service_to_env_variable_lem environment osm car

slashless_base : Lacks b'/' (codes "berlin.")
slashless_base = (
  λ h. omega arith,
  (
    λ h. omega arith,
    (
      λ h. omega arith,
      (λ h. omega arith, (λ h. omega arith, (λ h. omega arith, (λ h. omega arith, tt)))),
    ),
  ),
)

extensionless : LacksExtension (codes "berlin.")
unfolding has_prefix
extensionless = (refl, (refl, (refl, (refl, (refl, (refl, (refl, tt)))))))

get_osrm_file_name_lem_example :
    (get_pbf_file_name
        (codes "http://maps.org/europe" ++ b'/' ∷ (codes "berlin." ++ codes "osm.pbf"))
      ≡ codes "berlin." ++ codes "osm.pbf")
    × (get_osrm_file_name
          (codes "http://maps.org/europe" ++ b'/' ∷ (codes "berlin." ++ codes "osm.pbf"))
        ≡ codes "berlin." ++ codes "osrm")
get_osrm_file_name_lem_example =
    get_osrm_file_name_lem (codes "http://maps.org/europe") (codes "berlin.") slashless_base
      extensionless
