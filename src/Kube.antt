-- ===== src/Kube.antt =====
-- The Kubernetes objects that the operator reads and writes (k8s.io/api), with the fields that the
-- modelled code uses. Integers of type int32 are ℤ, and a time that is only printed is the text that
-- `Format(time.RFC3339)` gives.
mod Pods
pub mod Fresh
pub use Pods.*
use osrm_operator.Base.{ℕ, List, [], Option, none, some, Bool, true, false, ◌==◌}
use osrm_operator.Base.Int.{ℤ}
use osrm_operator.Text.{Text}
use osrm_operator.Dict.{Dict}

-- `metav1.ObjectMeta`; a timestamp of 0 is Go's zero time, and `owners` are the owner references.
pub record ObjectMeta : Type 0 where
  pub name : Text
  pub namespace : Text
  pub labels : Dict Text
  pub annotations : Dict Text
  pub generation : ℕ
  pub deletion_timestamp : Option ℕ
  pub finalizers : List Text
  pub owners : List Text

-- The metadata of an object that is built.
abbrev pub new_meta : Text → Text → Dict Text → ObjectMeta
new_meta name namespace labels = record {
  name = name;
  namespace = namespace;
  labels = labels;
  annotations = [];
  generation = 0;
  deletion_timestamp = none;
  finalizers = [];
  owners = [];
}

-- `metav1.Time.IsZero`, also of a nil pointer.
abbrev pub is_zero_time : Option ℕ → Bool
is_zero_time none = true
is_zero_time (some t) = t == 0

pub data ConditionStatus : Type 0 where
  condition_true condition_false condition_unknown : ConditionStatus

abbrev pub is_condition_true : ConditionStatus → Bool
is_condition_true condition_true = true
is_condition_true condition_false = false
is_condition_true condition_unknown = false

-- `==` on condition statuses.
abbrev pub status_eq : ConditionStatus → ConditionStatus → Bool
status_eq condition_true condition_true = true
status_eq condition_false condition_false = true
status_eq condition_unknown condition_unknown = true
status_eq _ _ = false

-- `metav1.Condition`
pub record Condition : Type 0 where
  pub type : Text
  pub status : ConditionStatus
  pub last_transition_time : ℕ
  pub reason : Text
  pub message : Text

pub data ClaimPhase : Type 0 where
  claim_pending claim_bound claim_lost : ClaimPhase

abbrev pub is_claim_bound : ClaimPhase → Bool
is_claim_bound claim_bound = true
is_claim_bound claim_pending = false
is_claim_bound claim_lost = false

pub record PersistentVolumeClaim : Type 0 where
  pub meta : ObjectMeta
  pub phase : ClaimPhase
  pub access_modes : List Text
  pub requests : Dict Text
  pub volume_name : Text
  pub storage_class_name : Option Text

pub record JobCondition : Type 0 where
  pub type : Text
  pub status : ConditionStatus

pub record Job : Type 0 where
  pub meta : ObjectMeta
  pub template : PodTemplate
  pub conditions : List JobCondition

pub record DeploymentCondition : Type 0 where
  pub type : Text
  pub status : ConditionStatus
  pub message : Text

-- `spec_replicas` is `Spec.Replicas`, and `selector` the labels that `Spec.Selector` matches, unless
-- nil; `replicas` and what follows it are the status.
pub record Deployment : Type 0 where
  pub meta : ObjectMeta
  pub spec_replicas : Option ℤ
  pub selector : Option (Dict Text)
  pub template : PodTemplate
  pub replicas : ℤ
  pub ready_replicas : ℤ
  pub conditions : List DeploymentCondition

pub record ServicePort : Type 0 where
  pub name : Text
  pub protocol : Text
  pub port : ℤ
  pub target_port : ℤ

pub record Service : Type 0 where
  pub meta : ObjectMeta
  pub type : Text
  pub ports : List ServicePort
  pub selector : Dict Text
  pub load_balancer_ip : Text

-- `contents` is `Data`.
pub record ConfigMap : Type 0 where
  pub meta : ObjectMeta
  pub contents : Dict Text

-- `job_name`, `job_namespace` and `template` are those of `Spec.JobTemplate`.
pub record CronJob : Type 0 where
  pub meta : ObjectMeta
  pub suspend : Option Bool
  pub schedule : Text
  pub job_name : Text
  pub job_namespace : Text
  pub template : PodTemplate
  pub last_successful_time : Option Text

-- `autoscalingv1.HorizontalPodAutoscaler`
pub record Autoscaler : Type 0 where
  pub meta : ObjectMeta
  pub target_kind : Text
  pub target_name : Text
  pub target_api_version : Text
  pub min_replicas : Option ℤ
  pub max_replicas : ℤ
  pub target_cpu : Option ℤ

pub record PodDisruptionBudget : Type 0 where
  pub meta : ObjectMeta
  pub min_available : Option ℤ
  pub selector : Option (Dict Text)

-- The kinds of child objects.
pub data Kind : Type 0 where
  deployment service config_map cron_job autoscaler disruption_budget claim job : Kind

-- The objects of a kind.
abbrev pub Item : Kind → Type 0
Item Kind.deployment = Deployment
Item Kind.service = Service
Item Kind.config_map = ConfigMap
Item Kind.cron_job = CronJob
Item Kind.autoscaler = Autoscaler
Item Kind.disruption_budget = PodDisruptionBudget
Item Kind.claim = PersistentVolumeClaim
Item Kind.job = Job

abbrev pub item_meta : (k : Kind) → Item k → ObjectMeta
item_meta Kind.deployment x = x.meta
item_meta Kind.service x = x.meta
item_meta Kind.config_map x = x.meta
item_meta Kind.cron_job x = x.meta
item_meta Kind.autoscaler x = x.meta
item_meta Kind.disruption_budget x = x.meta
item_meta Kind.claim x = x.meta
item_meta Kind.job x = x.meta

abbrev pub item_name : (k : Kind) → Item k → Text
item_name k x = (item_meta k x).name

-- A `runtime.Object` that holds a child.
pub data Object : Type 0 where
  object : (k : Kind) → Item k → Object

abbrev pub object_kind : Object → Kind
object_kind (object k x) = k

abbrev pub object_meta : Object → ObjectMeta
object_meta (object k x) = item_meta k x

-- The type assertions, such as `resource.(*appsv1.Deployment)`.
abbrev pub as_deployment : Object → Option Deployment
as_deployment (object Kind.deployment x) = some x
as_deployment _ = none

abbrev pub as_service : Object → Option Service
as_service (object Kind.service x) = some x
as_service _ = none

abbrev pub as_config_map : Object → Option ConfigMap
as_config_map (object Kind.config_map x) = some x
as_config_map _ = none

abbrev pub as_cron_job : Object → Option CronJob
as_cron_job (object Kind.cron_job x) = some x
as_cron_job _ = none

abbrev pub as_autoscaler : Object → Option Autoscaler
as_autoscaler (object Kind.autoscaler x) = some x
as_autoscaler _ = none

abbrev pub as_disruption_budget : Object → Option PodDisruptionBudget
as_disruption_budget (object Kind.disruption_budget x) = some x
as_disruption_budget _ = none

abbrev pub as_claim : Object → Option PersistentVolumeClaim
as_claim (object Kind.claim x) = some x
as_claim _ = none

abbrev pub as_job : Object → Option Job
as_job (object Kind.job x) = some x
as_job _ = none
