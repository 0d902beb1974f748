-- ===== src/Kube/Pods.antt =====
-- Pods and their templates (k8s.io/api/core/v1), with the fields that the builders write. Quantities,
-- tolerations and affinities are opaque texts.
use osrm_operator.Base.{ℕ, List, [], Option, none, some, Bool}
use osrm_operator.Text.{Text}
use osrm_operator.Dict.{Dict}

pub record ResourceRequirements : Type 0 where
  pub limits : Dict Text
  pub requests : Dict Text

pub record EnvVar : Type 0 where
  pub name : Text
  pub value : Text

pub record VolumeMount : Type 0 where
  pub name : Text
  pub mount_path : Text

-- `Probe.HTTPGet`
pub record HttpProbe : Type 0 where
  pub path : Text
  pub port : ℕ
  pub scheme : Text

pub record Container : Type 0 where
  pub name : Text
  pub image : Text
  pub ports : List ℕ
  pub resources : ResourceRequirements
  pub command : List Text
  pub args : List Text
  pub env : List EnvVar
  pub volume_mounts : List VolumeMount
  pub readiness_probe : Option HttpProbe

-- `ConfigMapVolumeSource`, with the pairs of a key and a path.
pub record ConfigMapSource : Type 0 where
  pub name : Text
  pub items : List (Text × Text)

-- A volume of a pod; `claim_name` and `read_only` are those of `VolumeSource.PersistentVolumeClaim`,
-- unless nil, and `config_map` is `VolumeSource.ConfigMap`.
pub record Volume : Type 0 where
  pub name : Text
  pub claim_name : Option Text
  pub read_only : Bool
  pub config_map : Option ConfigMapSource

abbrev pub claim_volume : Text → Text → Bool → Volume
claim_volume name claim read_only = record {
  name = name;
  claim_name = some claim;
  read_only = read_only;
  config_map = none;
}

-- `Affinity`, of which the node affinity may be nil.
pub record Affinity : Type 0 where
  pub node_affinity : Option Text

pub record PodTemplate : Type 0 where
  pub labels : Dict Text
  pub annotations : Dict Text
  pub restart_policy : Text
  pub containers : List Container
  pub volumes : List Volume
  pub tolerations : List Text
  pub affinity : Option Affinity

abbrev pub zero_template : PodTemplate
zero_template = record {
  labels = [];
  annotations = [];
  restart_policy = [];
  containers = [];
  volumes = [];
  tolerations = [];
  affinity = none;
}
