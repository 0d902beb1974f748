-- ===== src/Witnesses.antt =====
-- Concrete resources and objects, to which the theorems are applied in the modules below.
pub mod Store
pub mod Collecting
pub mod Naming
pub mod Phasing
pub mod Planning
pub mod Conditions
pub mod Reconciling
pub mod Realising
pub mod Phased
pub mod Refining
pub mod InstanceRealising
pub mod Building
pub mod Updating
pub mod Pausing
pub mod Labelling
use osrm_operator.Base.{[], ◌∷◌, none, some, true, false}
use osrm_operator.Base.Int.{pos}
use osrm_operator.Text.{Text, codes}
use osrm_operator.Kube.{
  ObjectMeta, PersistentVolumeClaim, claim_bound, Job, condition_true, condition_false, Deployment,
  zero_template, claim_volume,
}
use osrm_operator.Api.{
  Phase, SpeedUpdatesSpec, ProfileSpec, ClusterSpec, InstanceSpec, OsrmCluster, OsrmInstance,
}

abbrev pub meta_of : Text → ObjectMeta
meta_of name = record {
  name = name;
  namespace = codes "maps";
  labels = [];
  annotations = [];
  generation = 1;
  deletion_timestamp = none;
  finalizers = [];
  owners = [];
}

abbrev pub speed_updates : SpeedUpdatesSpec
speed_updates = record {
  suspend = none;
  url = codes "http://speeds";
  schedule = codes "0 * * * *";
  image = none;
  resources = none;
  env = [];
}

abbrev pub car : ProfileSpec
car = record {
  name = codes "car";
  endpoint_name = codes "driving";
  replicas = some (pos 2);
  internal_endpoint = none;
  osrm_profile = none;
  min_replicas = some (pos 1);
  max_replicas = some (pos 4);
  resources = none;
  speed_updates = some speed_updates;
  osrm_routed_options = none;
}

abbrev pub foot : ProfileSpec
foot = record car { name = codes "foot"; min_replicas = none; speed_updates = none }

abbrev pub cluster_spec : ClusterSpec
cluster_spec = record {
  pbf_url = codes "http://pbf";
  profiles = car ∷ foot ∷ [];
  service = record {
    type = none;
    annotations = none;
    exposing_services = [];
    load_balancer_ip = none;
  };
  image = none;
  persistence = record {
    storage_class_name = codes "nfs";
    storage = some (codes "10Gi");
    access_mode = none;
  };
  map_builder = record {
    image = none;
    resources = none;
    env = [];
    tolerations = [];
    node_affinity = none;
  };
}

abbrev pub cluster : Phase → OsrmCluster
cluster phase = record {
  meta = meta_of (codes "osm");
  spec = cluster_spec;
  status = record { paused = false; observed_generation = 1; phase = phase; conditions = [] };
}

abbrev pub instance_spec : InstanceSpec
instance_spec = record {
  pbf_url = codes "http://pbf";
  osrm_profile = codes "car";
  replicas = some (pos 2);
  min_replicas = some (pos 1);
  max_replicas = none;
  image = none;
  resources = none;
  service = cluster_spec.service;
  persistence = cluster_spec.persistence;
  map_builder = cluster_spec.map_builder;
  speed_updates = some speed_updates;
  osrm_routed_options = none;
}

abbrev pub single : Phase → OsrmInstance
single phase = record {
  meta = meta_of (codes "osm");
  spec = instance_spec;
  status = record { paused = false; observed_generation = 1; phase = phase; conditions = [] };
}

abbrev pub claim_of : Text → PersistentVolumeClaim
claim_of name = record {
  meta = meta_of name;
  phase = claim_bound;
  access_modes = [];
  requests = [];
  volume_name = [];
  storage_class_name = none;
}

abbrev pub job_of : Text → Job
job_of name = record {
  meta = meta_of name;
  template = zero_template;
  conditions =
      record { type = codes "Suspended"; status = condition_false }
      ∷ record { type = codes "Complete"; status = condition_true }
      ∷ [];
}

-- A deployment of two pods that serve the map of the claim.
abbrev pub deployment_of : Text → Text → Deployment
deployment_of name claim = record {
  meta = meta_of name;
  spec_replicas = some (pos 2);
  selector = none;
  template = record zero_template { volumes = claim_volume (codes "maps") claim true ∷ [] };
  replicas = pos 2;
  ready_replicas = pos 2;
  conditions =
      record { type = codes "Available"; status = condition_true; message = codes "up" } ∷ [];
}
