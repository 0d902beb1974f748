-- ===== src/Reconcile/Idle.antt =====
-- A reconciliation of a resource that is not initialized, is being deleted or is paused.
use osrm_operator.Base.{
  ℕ, List, true, false, ◌≡◌, ◌⊎◌, inl, inr, refl, ◌∙◌, arith, Bool-cases, Error, Result, ok, err,
  panic, ltb, if◌then◌else◌,
}
use osrm_operator.Text.{Text, codes}
use osrm_operator.Kube.{ObjectMeta, Kind, Object, condition_false}
use osrm_operator.Api.{Resource, ClusterSpec, InstanceSpec, OsrmCluster, OsrmInstance}
use osrm_operator.Children.Reads.{get_child_resources-Reads, get_instance_child_resources-Reads}
use osrm_operator.Client.{Client, ◌>>◌}
use osrm_operator.Client.Lawful.{Lawful}
use osrm_operator.Owner.{
  Owner, Step, modify, save, refreshed, is_being_deleted, is_paused, on_world,
  refresh_status_conditions, update_resource,
}
use osrm_operator.Owner.Outcomes.{
  OwnerLawful, Untouched, Spares, >>=-Spares, modify-Spares, update_resource-Spares,
  initialize_resource-Spares, cleanup_resource-Spares, refresh_status_conditions-Spares,
  set_reconciliation_result-Spares,
}
use osrm_operator.Reconcile.{
  Controller, ObjectStore, suspended, done, fail, attempt, reject, dispatch, reconcile_resource,
}
use osrm_operator.Reconcile.Controllers.{cluster_controller, instance_controller}

-- `attempt` as `>>=-state` has it: what holds of the state.
module _ {W S A B : Type 0} where
  attempt-state :
      (P : Resource S × W → Type 0) (m : Step W S A) (h : Error → Step W S B) (f : A → Step W S B)
      (s : Resource S × W)
      → P (m s).1
      → ((e : Error) → P (h e (m s).1).1)
      → ((a : A) → (m s).0 ≡ ok a → P (f a (m s).1).1)
      → P (attempt m h f s).1
  attempt-state P m h f s first failure success = go (m s).0 (m s).1 first failure success
    where
      go :
          (x : Result A) (s' : Resource S × W)
          → P s'
          → ((e : Error) → P (h e s').1)
          → ((a : A) → x ≡ ok a → P (f a s').1)
          → P (attempt (λ _. (x, s')) h f s).1
      go (ok a) s' p q t = t a refl
      go (err e) s' p q t = q e
      go panic s' p q t = p

module _ (c : Client) {S D : Type 0} (o : Owner (c.World) S) (k : Controller (c.World) S D)
    (objects : ObjectStore (c.World)) (namespace owner : Text) (laws : Lawful c namespace owner)
    (owner_laws : OwnerLawful c S o namespace owner laws) where
  open c use {World}
  open laws use {child}

  -- The finalizer is missing, a deletion has begun, or the resource is paused.
  abbrev pub IsIdle : ObjectMeta → Type 0
  IsIdle m =
      (o.contains_finalizer k.finalizer m.finalizers ≡ false)
      ⊎ (is_being_deleted m ≡ true)
      ⊎ (is_paused m ≡ true)

  -- The step touches no child.
  abbrev Safe : {A : Type 0} → Step World S A → Type 0
  Safe m = Spares c o namespace owner laws owner_laws m

  attempt-Spares :
      {A B : Type 0} {m : Step World S A} {h : Error → Step World S B} {f : A → Step World S B}
      → Safe m
      → ((e : Error) → Safe (h e))
      → ((a : A) → Safe (f a))
      → Safe (attempt m h f)
  attempt-Spares {m = m} {h = h} {f = f} first failure success = record {
    spared = λ s j n.
        attempt-state (λ s'. child s'.1 j n ≡ child s.1 j n) m h f s (first.spared s j n)
          (λ e. (failure e).spared (m s).1 j n ∙ first.spared s j n)
          (λ a _. (success a).spared (m s).1 j n ∙ first.spared s j n);
  }

  done-Spares : (delay : ℕ) → Safe (done delay)
  done-Spares delay = record { spared = λ s j n. refl }

  fail-Spares : (delay : ℕ) (e : Error) → Safe (fail delay e)
  fail-Spares delay e = record { spared = λ s j n. refl }

  -- The step ends the reconciliation.
  ending-Spares : {m : Step World S (Unit {0})} → Safe m → Safe (attempt m (fail 0) (λ _. done 0))
  ending-Spares h = attempt-Spares h (λ e. fail-Spares 0 e) (λ _. done-Spares 0)

  reject-Spares : (reason : Text) (e : Error) → Safe (reject c o k objects reason e)
  unfolding reject
  reject-Spares reason e =
      >>=-Spares c o namespace owner laws owner_laws
        (set_reconciliation_result-Spares c o namespace owner laws owner_laws condition_false reason
          (o.error_text e))
        (λ _. fail-Spares 0 e)

  pause-Spares : Safe (modify suspended >> update_resource o)
  pause-Spares =
      >>=-Spares c o namespace owner laws owner_laws
        (modify-Spares c o namespace owner laws owner_laws suspended)
        (λ _. update_resource-Spares c o namespace owner laws owner_laws)

  dispatch-IsIdle :
      (children : List Object) (r : Resource S) (w : World)
      → IsIdle r.meta
      → Untouched c o namespace owner laws owner_laws w (dispatch c o k objects children (r, w)).1
  unfolding dispatch
  dispatch-IsIdle children r w idle j n =
      elim (Bool-cases (o.contains_finalizer k.finalizer r.meta.finalizers)) [
        | inr missing ↦ rw missing (
            (ending-Spares
                (initialize_resource-Spares c o namespace owner laws owner_laws k.finalizer)).spared
              (r, w) j n)
        | inl claimed ↦ elim (Bool-cases (is_being_deleted r.meta)) [
          | inl deleted ↦
              rw (claimed, deleted)
                ((ending-Spares (
                    cleanup_resource-Spares c o namespace owner laws owner_laws k.finalizer
                      k.cleanup_message)).spared
                  (r, w) j n)
          | inr kept ↦ elim (Bool-cases (is_paused r.meta)) [
            | inr active ↦ absurd (ground arith)
            | inl paused ↦ elim (Bool-cases r.status.paused) [
              | inl known ↦ rw (claimed, kept, paused, known) refl
              | inr new ↦
                  rw (claimed, kept, paused, new) ((ending-Spares pause-Spares).spared (r, w) j n)
            ]
          ]
        ]
      ]

  -- A status update leaves the metadata as it was.
  save_status-meta : (r : Resource S) (w : World) → (save o.update_status (r, w)).1.0.meta ≡ r.meta
  save_status-meta r w =
      go (o.update_status r w).0 (o.update_status r w).1 (λ r' e. owner_laws.status_meta r r' w e)
    where
      go :
          (x : Result (Resource S)) (w' : World)
          → ((r' : Resource S) → x ≡ ok r' → r'.meta ≡ r.meta)
          → (save (λ _ _. (x, w')) (r, w)).1.0.meta ≡ r.meta
      go (ok r') w' h = h r' refl
      go (err e) w' h = refl
      go panic w' h = refl

  refresh-meta :
      (children : List Object) (r : Resource S) (w : World)
      → (refresh_status_conditions o children (r, w)).1.0.meta ≡ r.meta
  unfolding refresh_status_conditions
  refresh-meta children r w = save_status-meta (refreshed o children r w) w

  -- Reading the children of the resource touches none.
  module _ (r : Resource S)
      (reads : (w : World) (j : Kind) (n : Text)
        → child (k.child_resources r w).1 j n ≡ child w j n) where
    after_refresh :
        (children : List Object) (delay : ℕ) (s : Resource S × World)
        → IsIdle s.0.meta
        → Untouched c o namespace owner laws owner_laws s.1
            ((if ltb 0 delay then done delay else dispatch c o k objects children) s).1
    after_refresh children delay (r', w') idle j n = elim (Bool-cases (ltb 0 delay)) [
      | inl later ↦ rw later refl
      | inr now ↦ rw now (dispatch-IsIdle children r' w' idle j n)
    ]

    after_read :
        (children : List Object) (w : World)
        → IsIdle r.meta
        → Untouched c o namespace owner laws owner_laws w
            (attempt
              (refresh_status_conditions o children)
              (fail 0)
              (λ delay. if ltb 0 delay then done delay else dispatch c o k objects children)
              (r, w)).1
    after_read children w idle j n =
        let refresh = refresh_status_conditions o children in
        let same =
          (refresh_status_conditions-Spares c o namespace owner laws owner_laws children).spared
            (r, w) j n in
        attempt-state (λ s. child s.1 j n ≡ child w j n) refresh (fail 0)
          (λ delay. if ltb 0 delay then done delay else dispatch c o k objects children) (r, w) same
          (λ e. same)
          (λ delay _.
            after_refresh children delay (refresh (r, w)).1 (rw (refresh-meta children r w) idle) j
              n
            ∙ same)

    -- A reconciliation of a resource whose finalizer is missing, whose deletion has begun or that is
    -- paused creates and deletes no child, whatever the outcome, where the reads and the calls on
    -- the resource itself touch none.
    pub reconcile_resource-IsIdle :
        (w : World)
        → IsIdle r.meta
        → Untouched c o namespace owner laws owner_laws w
            (reconcile_resource c o k objects (r, w)).1
    unfolding reconcile_resource
    reconcile_resource-IsIdle w idle j n =
        let read : Step World S (List Object) =
          λ (r', w'). on_world (k.child_resources r') (r', w') in
        attempt-state (λ s. child s.1 j n ≡ child w j n) read
          (reject c o k objects (codes "FailedToFetchChildResources"))
          (λ children.
            attempt (refresh_status_conditions o children) (fail 0)
              (λ delay. if ltb 0 delay then done delay else dispatch c o k objects children))
          (r, w) (reads w j n)
          (λ e.
            (reject-Spares (codes "FailedToFetchChildResources") e).spared
              (r, (k.child_resources r w).1) j n
            ∙ reads w j n)
          (λ children _. after_read children (k.child_resources r w).1 idle j n ∙ reads w j n)

-- A reconciliation of a cluster whose finalizer is missing, whose deletion has begun or that is paused
-- creates and deletes no child, whatever the outcome, where the calls on the cluster itself touch
-- none.
pub reconcile_cluster-IsIdle :
    (c : Client) (o : Owner (c.World) ClusterSpec) (objects : ObjectStore (c.World))
    (r : OsrmCluster) (laws : Lawful c r.meta.namespace r.meta.name)
    (owner_laws : OwnerLawful c ClusterSpec o r.meta.namespace r.meta.name laws) (w : c.World)
    → IsIdle c o (cluster_controller c) objects r.meta.namespace r.meta.name laws owner_laws r.meta
    → Untouched c o r.meta.namespace r.meta.name laws owner_laws w
        (reconcile_resource c o (cluster_controller c) objects (r, w)).1
unfolding cluster_controller
reconcile_cluster-IsIdle c o objects r laws owner_laws =
    reconcile_resource-IsIdle c o (cluster_controller c) objects r.meta.namespace r.meta.name laws
      owner_laws r (get_child_resources-Reads c r laws).reads

-- A reconciliation of an instance whose finalizer is missing, whose deletion has begun or that is
-- paused creates and deletes no child, whatever the outcome, where the calls on the instance itself
-- touch none.
pub reconcile_instance-IsIdle :
    (c : Client) (o : Owner (c.World) InstanceSpec) (objects : ObjectStore (c.World))
    (r : OsrmInstance) (laws : Lawful c r.meta.namespace r.meta.name)
    (owner_laws : OwnerLawful c InstanceSpec o r.meta.namespace r.meta.name laws) (w : c.World)
    → IsIdle c o (instance_controller c) objects r.meta.namespace r.meta.name laws owner_laws r.meta
    → Untouched c o r.meta.namespace r.meta.name laws owner_laws w
        (reconcile_resource c o (instance_controller c) objects (r, w)).1
unfolding instance_controller
reconcile_instance-IsIdle c o objects r laws owner_laws =
    reconcile_resource-IsIdle c o (instance_controller c) objects r.meta.namespace r.meta.name laws
      owner_laws r (get_instance_child_resources-Reads c r laws).reads
