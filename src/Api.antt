-- ===== src/Api.antt =====
-- api/v1alpha1/osrmcluster_types.go and osrminstance_types.go: the two custom resources. Both
-- statuses have the same fields and methods, so `Status` stands for both; the resource itself is
-- `Resource` over its spec. Opaque payloads (tolerations, affinity, quantities) are texts.
pub mod Names
pub mod Conditions
pub mod Defaults
use osrm_operator.Base.{ℕ, List, [], ◌∷◌, Option, none, some, Bool, true, false}
use osrm_operator.Base.Int.{ℤ, pos, pred_int32}
use osrm_operator.Text.{Text, codes, trim_suffix, join}
use osrm_operator.Dict.{Dict}
use osrm_operator.Kube.{ObjectMeta, Condition, EnvVar, ResourceRequirements}

-- The phases that the operator declares.
pub data Phase : Type 0 where
  building_map updating_map redeploying_workers deploying_workers : Phase
  workers_deployed workers_redeployed deleting empty : Phase

-- `==` on phases, which are distinct string constants.
abbrev pub phase_eq : Phase → Phase → Bool
phase_eq building_map building_map = true
phase_eq updating_map updating_map = true
phase_eq redeploying_workers redeploying_workers = true
phase_eq deploying_workers deploying_workers = true
phase_eq workers_deployed workers_deployed = true
phase_eq workers_redeployed workers_redeployed = true
phase_eq deleting deleting = true
phase_eq empty empty = true
phase_eq _ _ = false

pub record SpeedUpdatesSpec : Type 0 where
  pub suspend : Option Bool
  pub url : Text
  pub schedule : Text
  pub image : Option Text
  pub resources : Option ResourceRequirements
  pub env : List EnvVar

pub record OsrmRoutedOptions : Type 0 where
  pub max_via_route_size : Option ℤ
  pub max_trip_size : Option ℤ
  pub max_table_size : Option ℤ
  pub max_matching_size : Option ℤ
  pub max_nearest_size : Option ℤ

pub record ProfileSpec : Type 0 where
  pub name : Text
  pub endpoint_name : Text
  pub replicas : Option ℤ
  pub internal_endpoint : Option Text
  pub osrm_profile : Option Text
  pub min_replicas : Option ℤ
  pub max_replicas : Option ℤ
  pub resources : Option ResourceRequirements
  pub speed_updates : Option SpeedUpdatesSpec
  pub osrm_routed_options : Option OsrmRoutedOptions

pub record MapBuilderSpec : Type 0 where
  pub image : Option Text
  pub resources : Option ResourceRequirements
  pub env : List EnvVar
  pub tolerations : List Text
  pub node_affinity : Option Text

pub record ServiceSpec : Type 0 where
  pub type : Option Text
  pub annotations : Option (Dict Text)
  pub exposing_services : List Text
  pub load_balancer_ip : Option Text

pub record PersistenceSpec : Type 0 where
  pub storage_class_name : Text
  pub storage : Option Text
  pub access_mode : Option Text

pub record ClusterSpec : Type 0 where
  pub pbf_url : Text
  pub profiles : List ProfileSpec
  pub service : ServiceSpec
  pub image : Option Text
  pub persistence : PersistenceSpec
  pub map_builder : MapBuilderSpec

pub record InstanceSpec : Type 0 where
  pub pbf_url : Text
  pub osrm_profile : Text
  pub replicas : Option ℤ
  pub min_replicas : Option ℤ
  pub max_replicas : Option ℤ
  pub image : Option Text
  pub resources : Option ResourceRequirements
  pub service : ServiceSpec
  pub persistence : PersistenceSpec
  pub map_builder : MapBuilderSpec
  pub speed_updates : Option SpeedUpdatesSpec
  pub osrm_routed_options : Option OsrmRoutedOptions

pub record Status : Type 0 where
  pub paused : Bool
  pub observed_generation : ℕ
  pub phase : Phase
  pub conditions : List Condition

pub record Resource (S : Type 0) : Type 0 where
  pub meta : ObjectMeta
  pub spec : S
  pub status : Status

abbrev pub OsrmCluster : Type 0
OsrmCluster = Resource ClusterSpec

abbrev pub OsrmInstance : Type 0
OsrmInstance = Resource InstanceSpec

-- `ChildResourceName`, of both resources.
unfoldable pub child_resource_name : ObjectMeta → Text → Text → Text
unfolding trim_suffix join
child_resource_name meta component suffix =
    let with_component = trim_suffix (join (meta.name ∷ component ∷ []) (codes "-")) (codes "-") in
    trim_suffix (join (with_component ∷ suffix ∷ []) (codes "-")) (codes "-")

-- `GetMinAvailable`, an int32.
unfoldable pub get_min_available : Option ℤ → ℤ
get_min_available none = pos 1
get_min_available (some min_replicas) = pred_int32 min_replicas
