-- ===== src/Reconcile/Controllers.antt =====
-- The parts by which the two controllers differ: controllers/osrmcluster_controller.go and
-- osrminstance_controller.go.
use osrm_operator.Base.{List, [], Option, none}
use osrm_operator.Text.{codes}
use osrm_operator.Kube.{Deployment}
use osrm_operator.Api.{ClusterSpec, InstanceSpec, PersistenceSpec, MapBuilderSpec, ServiceSpec}
use osrm_operator.Api.Defaults.{of_cluster, of_instance}
use osrm_operator.Client.{Client}
use osrm_operator.Children.{
  get_profiles_deployments, get_deployment, get_child_resources, get_instance_child_resources,
}
use osrm_operator.Generation.{get_active_map_generation, get_instance_active_map_generation}
use osrm_operator.Phases.{determine_phase, determine_instance_phase}
use osrm_operator.Builders.{resource_builders_for_phase}
use osrm_operator.Builders.Instance.{instance_builders_for_phase}
use osrm_operator.Collection.{garbage_collection, instance_garbage_collection}
use osrm_operator.Reconcile.{Controller}

abbrev zero_service : ServiceSpec
zero_service = record {
  type = none;
  annotations = none;
  exposing_services = [];
  load_balancer_ip = none;
}

abbrev zero_persistence : PersistenceSpec
zero_persistence = record { storage_class_name = []; storage = none; access_mode = none }

abbrev zero_map_builder : MapBuilderSpec
zero_map_builder = record {
  image = none;
  resources = none;
  env = [];
  tolerations = [];
  node_affinity = none;
}

-- Go's zero values of the specs.
abbrev pub zero_cluster_spec : ClusterSpec
zero_cluster_spec = record {
  pbf_url = [];
  profiles = [];
  service = zero_service;
  image = none;
  persistence = zero_persistence;
  map_builder = zero_map_builder;
}

abbrev pub zero_instance_spec : InstanceSpec
zero_instance_spec = record {
  pbf_url = [];
  osrm_profile = [];
  replicas = none;
  min_replicas = none;
  max_replicas = none;
  image = none;
  resources = none;
  service = zero_service;
  persistence = zero_persistence;
  map_builder = zero_map_builder;
  speed_updates = none;
  osrm_routed_options = none;
}

module _ (c : Client) where
  open c use {World}

  -- `OSRMClusterReconciler`; of the zero spec only the URL is read.
  unfoldable pub cluster_controller : Controller World ClusterSpec (List Deployment)
  unfolding get_child_resources get_profiles_deployments get_active_map_generation determine_phase
      resource_builders_for_phase garbage_collection of_cluster
  cluster_controller = record {
    finalizer = codes "osrmcluster.itayankri/finalizer";
    last_applied_spec_annotation = codes "osrmcluster.itayankri/last-applied-spec";
    cleanup_message = codes "Deleting OSRMCluster resources";
    zero_spec = zero_cluster_spec;
    child_resources = get_child_resources c;
    deployments = get_profiles_deployments c;
    no_deployments = [];
    active_generation = get_active_map_generation;
    phase_of = determine_phase;
    builders_for = resource_builders_for_phase;
    collect_garbage = garbage_collection c;
    instance_of = of_cluster;
  }

  -- `OSRMInstanceReconciler`
  unfoldable pub instance_controller : Controller World InstanceSpec (Option Deployment)
  unfolding get_instance_child_resources get_deployment get_instance_active_map_generation
      determine_instance_phase instance_builders_for_phase instance_garbage_collection of_instance
  instance_controller = record {
    finalizer = codes "osrminstance.itayankri/finalizer";
    last_applied_spec_annotation = codes "osrminstance.itayankri/last-applied-spec";
    cleanup_message = codes "Deleting OSRMInstance resources";
    zero_spec = zero_instance_spec;
    child_resources = get_instance_child_resources c;
    deployments = get_deployment c;
    no_deployments = none;
    active_generation = get_instance_active_map_generation;
    phase_of = determine_instance_phase;
    builders_for = instance_builders_for_phase;
    collect_garbage = instance_garbage_collection c;
    instance_of = of_instance;
  }
