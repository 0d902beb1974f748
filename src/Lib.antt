-- ===== src/Lib.antt =====
-- A model of the OSRM operator, a Kubernetes operator that keeps OSRM routing servers: for each
-- OSRMCluster (several profiles behind a gateway) and each OSRMInstance (one profile) it builds a
-- map on a volume claim by a job, deploys workers that serve the map, and replaces the map by one of
-- the next generation when the URL of the source data changes.
--
-- One reconciliation reads the children of the resource, works out the active generation (from the
-- claim that the first deployment mounts) and the future one (the highest among the claims),
-- determines the phase, creates or updates the objects that the phase asks for, and deletes the
-- children that are not expected. Those parts are modelled here as functions.
--
-- - Base, Text, Dict: Go's integers, strings and maps as the code uses them. Strings are lists of
--   bytes; an int has 64 bits and an int32 has 32, with the wrap-around written out; Text.Decimal has
--   Atoi, Itoa and ParseBool of strconv. The fuel of `digits` is the number itself, which is enough
--   since every round divides it by ten. A run-time panic is an outcome of its own (Base.Outcome).
-- - Kube: the Kubernetes objects, with the fields that the modelled code reads and writes; Kube.Pods
--   has the templates of pods, Kube.Fresh the objects whose other fields are zero.
-- - Api: api/v1alpha1/osrmcluster_types.go and osrminstance_types.go. Api.Names is about
--   ChildResourceName, Api.Conditions about SetConditions and SetCondition, Api.Defaults has the
--   getters, ToString of the routing options and the interface of
--   internal/resource/osrm_resource_instance.go.
-- - Status: internal/status/status.go.
-- - Generation: getResourceNameSuffix, both GetActiveMapGeneration, computeFutureMapGeneration and
--   getNextMapGeneration (controllers, internal/resource/osrm_resource_builder.go).
-- - Phases: IsMapBuildingInProgress, IsMapBuildingInProgressForInstance and both DeterminePhase.
-- - Builders: internal/resource/osrm_resource_builder.go and osrm_instance_resource_builder.go, that
--   is which objects a phase builds, of which kind, name and generation (Builders.Exactly describes
--   them kind by kind, Builders.Naming compares their names). Builders.Autoscaler is
--   internal/resource/horizontal_pod_autoscaler.go.
-- - Contents: Build and Update of the other builders in internal/resource: Storage
--   (persistent_volume_claim.go), MapJob (job.go), Workers (deployment.go), SpeedUpdates
--   (cron_job.go), Exposure (service.go, pod_disruption_budget.go), Nginx (utils.go and the
--   configuration in gateway_config_map.go), Gateway (the rest of the gateway's three files);
--   Objects is the dispatch on the builder. Adoption, Identity, Stable, Wiring, Rollout, Variables
--   and Nginx.Variables hold what is proved of them.
-- - Client: the Kubernetes client, which is a parameter: a record of the calls on a state of the API
--   server. Client.Lawful states what is documented of the calls and relied on.
-- - Children: the reads of children in controllers/osrmcluster_controller.go,
--   osrminstance_controller.go and reconciler_helpers.go.
-- - Collection: both GarbageCollection. Collection.Expected describes the children that are expected
--   apart from the lists of names that the code makes. Survival relates them to the builders.
-- - Metadata: internal/metadata, the labels of children and the merging of annotations.
-- - Owner: the rest of controllers/reconciler_helpers.go, that is the updates of the custom resource
--   itself, over a record of the calls on it. Owner.Outcomes is about the children meanwhile.
-- - Reconcile: both Reconcile, which are one function up to the parts that a record names. A resource
--   that is not initialized, deleted or paused is the subject of Reconcile.Idle, a reconciliation that
--   succeeds that of Reconcile.Success, what it leaves at the server that of Reconcile.Realised (as a
--   step on the set of children in Reconcile.Realised.Exact, and of an instance in
--   Reconcile.Realised.Instance), the mark of a paused resource that of Reconcile.Pause.
-- - Progress: the reconciliations of an update of the map as a step relation on what is read, with its
--   stages. Progress.Update is about sequences of them.
-- - Witnesses: a concrete client and concrete resources, to which the theorems are applied.
--
-- Parameters: the Kubernetes client, CreateOrUpdate and the finalizer functions of controllerutil
-- (with the retry on conflicts), SetControllerReference, SHA-256, encoding/json, and the order in
-- which Go visits a map, which is another at each call of CreateOrUpdate. Records name them (Client,
-- Owner, ObjectStore, Environment), and other records what is documented of them and relied on
-- (Lawful, OwnerLawful, ReturnsLawful, StatusLawful, StoreLawful, ReferenceLawful), for each of which
-- Witnesses has an instance.
--
-- Not modelled: the set-up of the manager, generated code and the manifests; getters that nothing
-- calls. A list of profiles is taken to hold no nil pointer, as the schema of the custom resource
-- demands. The clock is an argument, and in Owner it is read from the state of the server. Logging is
-- left out. The opaque parts of the specs (tolerations, node affinity, quantities) are texts.
pub mod Base
pub mod Text
pub mod Dict
pub mod Kube
pub mod Status
pub mod Api
pub mod Generation
pub mod Client
pub mod Builders
pub mod Phases
pub mod Children
pub mod Collection
pub mod Survival
pub mod Metadata
pub mod Owner
pub mod Reconcile
pub mod Contents
mod Witnesses
pub mod Progress
