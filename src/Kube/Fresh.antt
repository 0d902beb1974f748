-- ===== src/Kube/Fresh.antt =====
-- An object of each kind with nothing but its metadata: Go's zero value else.
use osrm_operator.Base.{[], none}
use osrm_operator.Base.Int.{pos}
use osrm_operator.Kube.{
  ObjectMeta, PersistentVolumeClaim, claim_pending, Job, Deployment, Service, ConfigMap, CronJob,
  Autoscaler, PodDisruptionBudget, zero_template,
}

module _ (meta : ObjectMeta) where
  abbrev pub fresh_claim : PersistentVolumeClaim
  fresh_claim = record {
    meta = meta;
    phase = claim_pending;
    access_modes = [];
    requests = [];
    volume_name = [];
    storage_class_name = none;
  }

  abbrev pub fresh_job : Job
  fresh_job = record { meta = meta; template = zero_template; conditions = [] }

  abbrev pub fresh_deployment : Deployment
  fresh_deployment = record {
    meta = meta;
    spec_replicas = none;
    selector = none;
    template = zero_template;
    replicas = pos 0;
    ready_replicas = pos 0;
    conditions = [];
  }

  abbrev pub fresh_service : Service
  fresh_service = record {
    meta = meta;
    type = [];
    ports = [];
    selector = [];
    load_balancer_ip = [];
  }

  abbrev pub fresh_config_map : ConfigMap
  fresh_config_map = record { meta = meta; contents = [] }

  abbrev pub fresh_cron_job : CronJob
  fresh_cron_job = record {
    meta = meta;
    suspend = none;
    schedule = [];
    job_name = [];
    job_namespace = [];
    template = zero_template;
    last_successful_time = none;
  }

  abbrev pub fresh_autoscaler : Autoscaler
  fresh_autoscaler = record {
    meta = meta;
    target_kind = [];
    target_name = [];
    target_api_version = [];
    min_replicas = none;
    max_replicas = pos 0;
    target_cpu = none;
  }

  abbrev pub fresh_disruption_budget : PodDisruptionBudget
  fresh_disruption_budget = record { meta = meta; min_available = none; selector = none }
