-- ===== src/Reconcile.antt =====
-- `Reconcile` of controllers/osrmcluster_controller.go and osrminstance_controller.go. The two are
-- one function up to the parts that `Controller` names; Reconcile/Controllers.antt fills them for each.
pub mod Controllers
pub mod Idle
pub mod Success
pub mod Realised
pub mod Pause
use osrm_operator.Base.{
  ℕ, List, [], ◌∷◌, Option, none, some, true, false, Error, Result, ok, err, panic, not, ltb,
  if◌then◌else◌,
}
use osrm_operator.Text.{Text, codes}
use osrm_operator.Dict.{Dict, lookup}
use osrm_operator.Kube.{condition_true, condition_false, Object, PersistentVolumeClaim, Job}
use osrm_operator.Api.{Phase, phase_eq, Resource}
use osrm_operator.Client.{Client, Action, is_not_found, ◌>>=◌, ◌>>◌, lift}
use osrm_operator.Children.{list_persistent_volume_claims, list_jobs}
use osrm_operator.Generation.{compute_future_map_generation}
use osrm_operator.Builders.{ResourceBuilder, OsrmResourceBuilder, new_osrm_resource_builder}
use osrm_operator.Api.Defaults.{ResourceInstance}
use osrm_operator.Contents.{Environment, visiting}
use osrm_operator.Contents.Objects.{build, update}
use osrm_operator.Owner.{
  Owner, is_being_deleted, is_paused, Step, on_world, modify, save, with_status,
  set_reconciliation_result, refresh_status_conditions, update_resource, initialize_resource,
  cleanup_resource, apply_last_spec_annotation,
}

-- `ctrl.Result`, with the delay in seconds, and the error that goes with it.
pub record Return : Type 0 where
  pub requeue_after : ℕ
  pub error : Option Error

-- What tells the two controllers apart. `D` is what they read of their deployments.
pub record Controller (W S D : Type 0) : Type 0 where
  pub finalizer : Text
  pub last_applied_spec_annotation : Text
  pub cleanup_message : Text
  pub zero_spec : S
  pub child_resources : Resource S → Action W (List Object)
  pub deployments : Resource S → Action W D
  pub no_deployments : D
  pub active_generation : D → Result Text
  pub phase_of : Resource S → S → Text → Text → List PersistentVolumeClaim → List Job → D → Phase
  pub builders_for : OsrmResourceBuilder S → Phase → List ResourceBuilder
  pub collect_garbage : Resource S → Action W (Unit {0})
  pub instance_of : Resource S → ResourceInstance

-- What stores the built objects: the calls that the builders make, and `CreateOrUpdate` of
-- controllerutil on an object and the function that updates it, retried on conflicts.
pub record ObjectStore (W : Type 0) : Type 0 where
  pub environment : Environment
  pub iterate_at : W → Dict Text → Dict Text
  pub create_or_update : Object → (Object → Result Object) → W → Result (Unit {0}) × W

-- What the builders rely on in a call made in the state: the order in which `range` visits a map is
-- that of this call.
abbrev pub environment_at : {W : Type 0} → ObjectStore W → W → Environment
environment_at objects w = visiting (objects.iterate_at w) objects.environment

abbrev pub value_or : {A : Type 0} → A → Result A → Result A
value_or a (ok b) = ok b
value_or a (err e) = ok a
value_or a panic = panic

abbrev pub done : {W S : Type 0} → ℕ → Step W S Return
done delay = lift (ok (record { requeue_after = delay; error = none }))

abbrev pub fail : {W S : Type 0} → ℕ → Error → Step W S Return
fail delay e = lift (ok (record { requeue_after = delay; error = some e }))

-- `m`, and `h` on its error.
abbrev pub attempt :
    {W S A B : Type 0} → Step W S A → (Error → Step W S B) → (A → Step W S B) → Step W S B
attempt m h f s =
    let (x, s') = m s in elim x [ ok a ↦ f a s' | err e ↦ h e s' | panic ↦ (panic, s') ]

-- `x, _ := ...`, with the value that comes with an error.
abbrev pub ignoring : {W S A : Type 0} → A → Step W S A → Step W S A
ignoring a m s = let (x, s') = m s in (value_or a x, s')

-- `instance.Status.Paused = true`
abbrev pub suspended : {W S : Type 0} → Resource S → W → Resource S
suspended r w = with_status (λ s. record s { paused = true }) r

-- `instance.Status.Phase = phase`
abbrev pub entering : {W S : Type 0} → Phase → Resource S → W → Resource S
entering phase r w = with_status (λ s. record s { phase = phase }) r

module _ (c : Client) {S D : Type 0} (o : Owner (c.World) S) (k : Controller (c.World) S D)
    (objects : ObjectStore (c.World)) where
  open c use {World}
  open o use {fetch_owner, update_status, contains_finalizer, unmarshal, error_text}
  open k use {
    finalizer, last_applied_spec_annotation, cleanup_message, zero_spec, child_resources,
    deployments, no_deployments, active_generation, phase_of, builders_for, collect_garbage,
    instance_of,
  }
  open objects use {environment, create_or_update}

  -- An error that is recorded in the status and returned.
  unfoldable pub reject : Text → Error → Step World S Return
  reject reason e = set_reconciliation_result o condition_false reason (error_text e) >> fail 0 e

  -- The loop over the builders, and what `finish` does after it.
  unfoldable pub apply_builders :
      List Object → List ResourceBuilder → Step World S Return → Step World S Return
  unfolding reject build update
  apply_builders children [] finish = finish
  apply_builders children (b ∷ bs) finish =
      let rest = apply_builders children bs finish in
      attempt (λ (r, w). (build environment (instance_of r) b, (r, w)))
        (reject (codes "FailedToBuildChildResource"))
        (λ object.
          attempt
            (λ (r, w).
              on_world
                (λ v.
                  create_or_update object
                    (update (environment_at objects v) (instance_of r) children b) v)
                (r, w))
            (reject (codes "Error")) (λ _. rest))

  -- The end of `Reconcile`, after the builders.
  unfoldable pub conclude : Step World S Return
  conclude = attempt (apply_last_spec_annotation o last_applied_spec_annotation) (fail 10) (λ _.
      attempt (λ (r, w). on_world (collect_garbage r) (r, w)) (fail 10)
        (λ _.
          set_reconciliation_result o condition_true (codes "Success")
            (codes "Reconciliation completed")
          >> done 0))

  -- `if instance.Status.Phase != phase`
  unfoldable pub set_phase : Phase → Step World S (Unit {0})
  set_phase phase (r, w) =
      (if phase_eq r.status.phase phase
          then lift (ok tt)
          else modify (entering phase) >> save update_status)
        (r, w)

  -- `oldSpec`
  unfoldable pub old_spec : Resource S → Result S
  unfolding lookup
  old_spec r = elim (lookup last_applied_spec_annotation r.meta.annotations) [
    | none ↦ ok zero_spec
    | some json ↦ unmarshal json
  ]

  -- From the phase on; the builders look at the resource as it is after `set_phase`.
  unfoldable pub enter : List Object → Text → Text → Phase → Step World S Return
  unfolding set_phase apply_builders conclude
  enter children active future phase = attempt (set_phase phase) (fail 0) (λ _ (r, w).
      apply_builders children (builders_for (new_osrm_resource_builder r active future) phase)
        conclude (r, w))

  -- What `Reconcile` does with a resource that is initialized, not deleted and not paused.
  unfoldable pub work : List Object → Step World S Return
  unfolding old_spec enter
  work children (r, w) =
      attempt (lift (old_spec r)) (fail 0)
        (λ old.
          ignoring [] (on_world (list_persistent_volume_claims c r.meta.namespace r.meta.name))
          >>= (λ pvcs.
              ignoring [] (on_world (list_jobs c r.meta.namespace r.meta.name)) >>= (λ jobs.
                ignoring no_deployments (on_world (deployments r)) >>= (λ ds.
                  attempt (lift (active_generation ds)) (fail 0) (λ active.
                    attempt (lift (compute_future_map_generation pvcs)) (fail 0) (λ future.
                      enter children active future (phase_of r old active future pvcs jobs ds)))))))
        (r, w)

  -- From the test of the finalizer on.
  unfoldable pub dispatch : List Object → Step World S Return
  unfolding work
  dispatch children (r, w) =
      (if not (contains_finalizer finalizer r.meta.finalizers)
          then attempt (initialize_resource o finalizer) (fail 0) (λ _. done 0)
          else if is_being_deleted r.meta
          then attempt (cleanup_resource o finalizer cleanup_message) (fail 0) (λ _. done 0)
          else if is_paused r.meta
          then if r.status.paused
            then done 0
            else attempt (modify suspended >> update_resource o) (fail 0) (λ _. done 0)
          else work children)
        (r, w)

  -- `Reconcile` once the resource is fetched.
  unfoldable pub reconcile_resource : Step World S Return
  unfolding reject dispatch
  reconcile_resource =
      attempt (λ (r, w). on_world (child_resources r) (r, w))
        (reject (codes "FailedToFetchChildResources"))
        (λ children.
          attempt (refresh_status_conditions o children) (fail 0)
            (λ delay. if ltb 0 delay then done delay else dispatch children))

  -- `Reconcile`
  unfoldable pub reconcile : Text → Text → Action World Return
  unfolding reconcile_resource
  reconcile namespace name w =
      let (x, w1) = fetch_owner namespace name w in
      elim x [
        | ok r ↦ let (y, (r', w2)) = reconcile_resource (r, w1) in (y, w2)
        | err e ↦ (
          ok (record {
            requeue_after = 0;
            error = elim (is_not_found e) [ true ↦ none | false ↦ some e ];
          }),
          w1,
        )
        | panic ↦ (panic, w1)
      ]
