-- ===== src/Api/Defaults.antt =====
-- The getters of api/v1alpha1/osrmcluster_types.go and osrminstance_types.go, which fall back on a
-- default where a field is nil, the names of the map's files, and the flags of osrm-routed.
pub mod Files
pub mod Flags
use osrm_operator.Base.{List, [], ◌∷◌, ◌++◌, Option, none, some, not, if◌then◌else◌}
use osrm_operator.Base.Int.{ℤ}
use osrm_operator.Text.{Text, codes, text_eq, split, last, join, replace_all}
use osrm_operator.Text.Decimal.{itoa}
use osrm_operator.Dict.{Dict}
use osrm_operator.Kube.{ObjectMeta, ResourceRequirements}
use osrm_operator.Api.{
  OsrmRoutedOptions, ProfileSpec, MapBuilderSpec, ServiceSpec, SpeedUpdatesSpec, PersistenceSpec,
  OsrmCluster, OsrmInstance,
}

abbrev pub default_image : Text
default_image = codes "ghcr.io/project-osrm/osrm-backend:v5.27.1"

abbrev pub default_speed_updates_fetcher_image : Text
default_speed_updates_fetcher_image = codes "itayankri/osrm-speed-updates:osrm-v5.27.1"

abbrev pub default_builder_image : Text
default_builder_image = codes "itayankri/osrm-builder:osrm-v5.27.1"

-- `GetImage` of the specs of both resources, on their field `Image`.
unfoldable pub get_image : Option Text → Text
get_image none = default_image
get_image (some image) = image

-- `GetPbfFileName` of both specs.
unfoldable pub get_pbf_file_name : Text → Text
unfolding split last
get_pbf_file_name pbf_url = last (split pbf_url b'/')

-- `GetOsrmFileName` of both specs.
unfoldable pub get_osrm_file_name : Text → Text
unfolding get_pbf_file_name replace_all
get_osrm_file_name pbf_url =
    replace_all (get_pbf_file_name pbf_url) (codes "osm.pbf") (codes "osrm")

-- `SpeedUpdatesSpec.Image` where both are there.
abbrev pub updates_image : Option SpeedUpdatesSpec → Option Text
updates_image none = none
updates_image (some updates) = updates.image

-- `GetSpeedUpdatesImage`
unfoldable pub get_speed_updates_image : ProfileSpec → Text
get_speed_updates_image p = elim (updates_image p.speed_updates) [
  | none ↦ default_speed_updates_fetcher_image
  | some image ↦ image
]

-- `GetResources` of a profile and of the speed updates, on their field `Resources`.
unfoldable pub get_resources : Option ResourceRequirements → ResourceRequirements
get_resources none = record { limits = []; requests = [] }
get_resources (some resources) = resources

-- `GetProfile`
unfoldable pub get_profile : ProfileSpec → Text
get_profile p = elim p.osrm_profile [ none ↦ p.name | some profile ↦ profile ]

-- `GetInternalEndpoint`
unfoldable pub get_internal_endpoint : ProfileSpec → Text
get_internal_endpoint p = elim p.internal_endpoint [
  | none ↦ p.endpoint_name
  | some endpoint ↦ endpoint
]

-- `MapBuilderSpec.GetImage`
unfoldable pub get_builder_image : MapBuilderSpec → Text
get_builder_image spec = elim spec.image [ none ↦ default_builder_image | some image ↦ image ]

-- `MapBuilderSpec.GetResources`
unfoldable pub get_builder_resources : MapBuilderSpec → ResourceRequirements
get_builder_resources spec = elim spec.resources [
  | none ↦ record {
    limits = [];
    requests = (codes "memory", codes "1Gi") ∷ (codes "cpu", codes "1") ∷ [];
  }
  | some resources ↦ resources
]

-- `ServiceSpec.GetType`
unfoldable pub get_type : ServiceSpec → Text
get_type spec = elim spec.type [ none ↦ codes "ClusterIP" | some type ↦ type ]

-- `PersistenceSpec.GetAccessMode`
unfoldable pub get_access_mode : PersistenceSpec → Text
get_access_mode spec = elim spec.access_mode [ none ↦ codes "ReadWriteMany" | some mode ↦ mode ]

-- `formatInt`
unfoldable pub format_int : Option ℤ → Text
unfolding itoa
format_int none = []
format_int (some v) = itoa v

-- `flagMap` of `OSRMRoutedOptions.ToString`.
unfoldable pub flag_map : OsrmRoutedOptions → Dict Text
unfolding format_int
flag_map options =
    (codes "--max-viaroute-size", format_int options.max_via_route_size)
    ∷ (codes "--max-trip-size", format_int options.max_trip_size)
    ∷ (codes "--max-table-size", format_int options.max_table_size)
    ∷ (codes "--max-matching-size", format_int options.max_matching_size)
    ∷ (codes "--max-nearest-size", format_int options.max_nearest_size)
    ∷ []

-- The loop of `ToString` over the entries of `flagMap`, in the order in which they come.
unfoldable pub format_flags : Dict Text → List Text
unfolding text_eq
format_flags [] = []
format_flags ((flag, val) ∷ m) =
    let rest = format_flags m in
    if not (text_eq val []) then (flag ++ (codes " " ++ val)) ∷ rest else rest

-- `OSRMRoutedOptions.ToString`; `iterate` gives the entries of a Go map in the order in which `range`
-- visits them, which differs from run to run.
unfoldable pub to_string : (Dict Text → Dict Text) → Option OsrmRoutedOptions → Text
unfolding flag_map format_flags join
to_string iterate none = []
to_string iterate (some options) = join (format_flags (iterate (flag_map options))) (codes " ")

-- `OSRMResourceInstance`: what the builders ask of a custom resource of either kind.
pub record ResourceInstance : Type 0 where
  pub meta : ObjectMeta
  pub image : Text
  pub pbf_url : Text
  pub pbf_file_name : Text
  pub osrm_file_name : Text
  pub persistence : PersistenceSpec
  pub map_builder : MapBuilderSpec
  pub service : ServiceSpec

-- The methods of `OSRMCluster`, and of `OSRMInstance`.
unfoldable pub of_cluster : OsrmCluster → ResourceInstance
unfolding get_image get_pbf_file_name get_osrm_file_name
of_cluster r = record {
  meta = r.meta;
  image = get_image r.spec.image;
  pbf_url = r.spec.pbf_url;
  pbf_file_name = get_pbf_file_name r.spec.pbf_url;
  osrm_file_name = get_osrm_file_name r.spec.pbf_url;
  persistence = r.spec.persistence;
  map_builder = r.spec.map_builder;
  service = r.spec.service;
}

unfoldable pub of_instance : OsrmInstance → ResourceInstance
unfolding get_image get_pbf_file_name get_osrm_file_name
of_instance r = record {
  meta = r.meta;
  image = get_image r.spec.image;
  pbf_url = r.spec.pbf_url;
  pbf_file_name = get_pbf_file_name r.spec.pbf_url;
  osrm_file_name = get_osrm_file_name r.spec.pbf_url;
  persistence = r.spec.persistence;
  map_builder = r.spec.map_builder;
  service = r.spec.service;
}
