-- ===== src/Owner.antt =====
-- controllers/reconciler_helpers.go on the custom resource itself: its conditions, finalizer, status
-- and annotations. A step works on the resource, as the controller has it, and on the state of the
-- API server; a call that succeeds leaves the resource as the server returned it.
pub mod Outcomes
use osrm_operator.Base.{
  ℕ, List, none, some, Bool, true, false, not, ◌||◌, Error, Result, ok, err, panic, if◌then◌else◌,
}
use osrm_operator.Text.{Text, codes}
use osrm_operator.Text.Decimal.{parse_bool}
use osrm_operator.Dict.{lookup, insert}
use osrm_operator.Kube.{
  ObjectMeta, Condition, ConditionStatus, condition_false, is_zero_time, Object,
}
use osrm_operator.Status.{condition_available, condition_reconciliation_success}
use osrm_operator.Api.{deleting, Status, Resource}
use osrm_operator.Api.Conditions.{set_conditions, set_condition}
use osrm_operator.Client.{Action, wrap_result, answer, is_conflict, is_not_found, ◌>>=◌, ◌>>◌, lift}

-- The calls of the client on the custom resource, of controllerutil on finalizers, of encoding/json
-- on specs, `Error()` of an error, and the clock, which is read from the state of the world.
pub record Owner (W S : Type 0) : Type 0 where
  pub fetch_owner : Text → Text → W → Result (Resource S) × W
  pub update : Resource S → W → Result (Resource S) × W
  pub update_status : Resource S → W → Result (Resource S) × W
  pub contains_finalizer : Text → List Text → Bool
  pub add_finalizer : Text → List Text → List Text
  pub remove_finalizer : Text → List Text → List Text
  pub marshal : S → Result Text
  pub unmarshal : Text → Result S
  pub error_text : Error → Text
  pub now : W → ℕ

abbrev pub operator_paused_annotation : Text
operator_paused_annotation = codes "osrm.itayankri/operator.paused"

-- `isBeingDeleted`
unfoldable pub is_being_deleted : ObjectMeta → Bool
is_being_deleted m = not (is_zero_time m.deletion_timestamp)

-- `isPaused`
unfoldable pub is_paused : ObjectMeta → Bool
unfolding lookup
is_paused m = elim (lookup operator_paused_annotation m.annotations) [
  | none ↦ false
  | some text ↦ let (paused, valid) = parse_bool text in if valid then paused else false
]

abbrev pub settle : Result (Unit {0}) → Result (Unit {0})
settle (ok u) = ok u
settle (err e) = elim (is_conflict e || is_not_found e) [ true ↦ ok tt | false ↦ err e ]
settle panic = panic

-- The delay in seconds that a status update asks for.
abbrev pub requeue_delay : Result (Unit {0}) → Result ℕ
requeue_delay (ok u) = ok 0
requeue_delay (err e) = elim (is_conflict e) [ true ↦ ok 2 | false ↦ err e ]
requeue_delay panic = panic

-- An error that is only logged.
abbrev pub logged : Result (Unit {0}) → Result (Unit {0})
logged (ok u) = ok tt
logged (err e) = ok tt
logged panic = panic

abbrev pub Step : Type 0 → Type 0 → Type 0 → Type 0
Step W S A = Action (Resource S × W) A

-- A call that leaves the resource alone.
abbrev pub on_world : {W S A : Type 0} → Action W A → Step W S A
on_world m (r, w) = let (x, w') = m w in (x, (r, w'))

abbrev pub modify : {W S : Type 0} → (Resource S → W → Resource S) → Step W S (Unit {0})
modify f (r, w) = (ok tt, (f r w, w))

-- A call of the client with the resource.
abbrev pub save : {W S : Type 0} → (Resource S → W → Result (Resource S) × W) → Step W S (Unit {0})
save call (r, w) =
    let (x, w') = call r w in
    elim x [ ok r' ↦ (ok tt, (r', w')) | err e ↦ (err e, (r, w')) | panic ↦ (panic, (r, w')) ]

abbrev pub with_status : {S : Type 0} → (Status → Status) → Resource S → Resource S
with_status f r = record r { status = f r.status }

abbrev pub observed : {W S : Type 0} → Resource S → W → Resource S
observed r w = with_status (λ s. record s { observed_generation = r.meta.generation }) r

abbrev pub with_condition : {S : Type 0} → Condition → ℕ → Resource S → Resource S
with_condition c now r =
    with_status (λ s. record s { conditions = set_condition c now s.conditions }) r

-- `annotations[annotationKey] = string(newSpecJSON)`
abbrev pub annotated : {W S : Type 0} → Text → Text → Resource S → W → Resource S
annotated key json r w = record r {
  meta = record (r.meta) { annotations = insert key json r.meta.annotations };
}

module _ {W S : Type 0} (o : Owner W S) where
  open o use {
    update, update_status, contains_finalizer, add_finalizer, remove_finalizer, marshal, now,
  }

  -- The resource with the condition of `setReconciliationResult`.
  abbrev pub resulted : ConditionStatus → Text → Text → Resource S → W → Resource S
  resulted status reason message r w =
      with_condition
        (record {
          type = condition_reconciliation_success;
          status = status;
          last_transition_time = now w;
          reason = reason;
          message = message;
        })
        (now w) r

  -- `setReconciliationResult`
  unfoldable pub set_reconciliation_result : ConditionStatus → Text → Text → Step W S (Unit {0})
  set_reconciliation_result status reason message =
      modify (resulted status reason message) >> answer logged (save update_status)

  abbrev pub refreshed : List Object → Resource S → W → Resource S
  refreshed children r w =
      with_status
        (λ s. record s {
          conditions = set_conditions children (now w) (now w) (now w) s.conditions;
        })
        r

  -- `refreshStatusConditions`
  unfoldable pub refresh_status_conditions : List Object → Step W S ℕ
  refresh_status_conditions children =
      modify (refreshed children) >> answer requeue_delay (save update_status)

  -- `updateResource`
  unfoldable pub update_resource : Step W S (Unit {0})
  update_resource = save update >> (modify observed >> save update_status)

  abbrev pub claimed : Text → Resource S → W → Resource S
  claimed finalizer r w = record r {
    meta = record (r.meta) { finalizers = add_finalizer finalizer r.meta.finalizers };
  }

  -- `initializeResource`
  unfoldable pub initialize_resource : Text → Step W S (Unit {0})
  unfolding update_resource
  initialize_resource finalizer = modify (claimed finalizer) >> update_resource

  -- The resource with the condition and phase of `cleanupResource`.
  abbrev pub condemned : Text → Resource S → W → Resource S
  condemned message r w =
      with_status (λ s. record s { phase = deleting })
        (with_condition
          (record {
            type = condition_available;
            status = condition_false;
            last_transition_time = 0;
            reason = codes "Cleanup";
            message = message;
          })
          (now w) (observed r w))

  abbrev pub disclaimed : Text → Resource S → W → Resource S
  disclaimed finalizer r w = record r {
    meta = record (r.meta) { finalizers = remove_finalizer finalizer r.meta.finalizers };
  }

  -- The body of the first `if` of `cleanupResource`.
  unfoldable pub release : Text → Text → Step W S (Unit {0})
  release finalizer message =
      modify (condemned message)
      >> (save update_status >> (modify (disclaimed finalizer) >> save update))

  unfoldable pub release_if_claimed : Text → Text → Step W S (Unit {0})
  unfolding release
  release_if_claimed finalizer message (r, w) =
      (if contains_finalizer finalizer r.meta.finalizers
          then release finalizer message
          else lift (ok tt))
        (r, w)

  -- `cleanupResource`
  unfoldable pub cleanup_resource : Text → Text → Step W S (Unit {0})
  unfolding release_if_claimed
  cleanup_resource finalizer message =
      release_if_claimed finalizer message
      >> (modify observed >> answer settle (save update_status))

  -- `applyLastSpecAnnotation`
  unfoldable pub apply_last_spec_annotation : Text → Step W S (Unit {0})
  unfolding insert
  apply_last_spec_annotation key (r, w) =
      (lift (wrap_result (codes "failed to marshal spec") (marshal r.spec))
          >>= (λ json. modify (annotated key json) >> save update))
        (r, w)
