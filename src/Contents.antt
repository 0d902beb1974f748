-- ===== src/Contents.antt =====
-- internal/resource: what `Build` and `Update` of each builder write into the child objects. `Build`
-- makes the object that is created, and `Update` brings the stored object to what is wanted.
pub mod Storage
pub mod MapJob
pub mod Workers
pub mod SpeedUpdates
pub mod Exposure
pub mod Nginx
pub mod Gateway
pub mod Objects
pub mod Adoption
pub mod Stable
pub mod Wiring
pub mod Rollout
pub mod Variables
pub mod Identity
use osrm_operator.Base.{List, [], ◌∷◌, printed, Result, ok, err, panic}
use osrm_operator.Text.{Text, codes}
use osrm_operator.Dict.{Dict}
use osrm_operator.Kube.{ObjectMeta, EnvVar, VolumeMount, new_meta}
use osrm_operator.Metadata.{get_labels}
use osrm_operator.Api.Defaults.{ResourceInstance}

-- What the builders call and this repository does not hold: `SetControllerReference` of controllerutil,
-- which takes the metadata of the owner and of the object, the SHA-256 sum in hexadecimal digits, and
-- the order in which `range` visits the entries of a map.
pub record Environment : Type 0 where
  pub set_controller_reference : ObjectMeta → ObjectMeta → Result ObjectMeta
  pub sha256_hex : Text → Text
  pub iterate : Dict Text → Dict Text

-- The same, where `range` visits a map in another order: Go chooses it anew at each `range`.
abbrev pub visiting : (Dict Text → Dict Text) → Environment → Environment
visiting iterate e = record e { iterate = iterate }

abbrev pub component_profile : Text
component_profile = codes "profile"

abbrev pub component_gateway : Text
component_gateway = codes "gateway"

abbrev pub osrm_container_name : Text
osrm_container_name = codes "osrm-backend"

abbrev pub osrm_data_volume_name : Text
osrm_data_volume_name = codes "osrm-data"

abbrev pub osrm_data_path : Text
osrm_data_path = codes "/data"

abbrev pub osrm_partitioned_data : Text
osrm_partitioned_data = codes "partitioned"

abbrev pub osrm_customized_data : Text
osrm_customized_data = codes "customized"

-- The mount of the map's volume in the containers.
abbrev pub data_mounts : List VolumeMount
data_mounts = record { name = osrm_data_volume_name; mount_path = osrm_data_path } ∷ []

abbrev pub env_var : Text → Text → EnvVar
env_var name value = record { name = name; value = value }

-- The environment that the containers that write the map have in common.
abbrev pub data_env : List EnvVar
data_env =
    env_var (codes "ROOT_DIR") osrm_data_path
    ∷ env_var (codes "PARTITIONED_DATA_DIR") osrm_partitioned_data
    ∷ env_var (codes "CUSTOMIZED_DATA_DIR") osrm_customized_data
    ∷ []

module _ (i : ResourceInstance) where
  -- The metadata that `Build` gives an object.
  unfoldable pub built_meta : Text → Text → ObjectMeta
  unfolding get_labels
  built_meta name component = new_meta name i.meta.namespace (get_labels i.meta component)

  -- The metadata with the labels that `Update` sets.
  unfoldable pub relabelled : Text → ObjectMeta → ObjectMeta
  unfolding get_labels
  relabelled component m = record m { labels = get_labels i.meta component }

  -- The call of `SetControllerReference` that ends an `Update`, with its error.
  unfoldable pub adopt :
      {A : Type 0} → Environment → ObjectMeta → (ObjectMeta → Result A) → Result A
  adopt e m finish = elim (e.set_controller_reference i.meta m) [
    | ok m' ↦ finish m'
    | err error ↦ err (printed (codes "failed setting controller reference"))
    | panic ↦ panic
  ]
