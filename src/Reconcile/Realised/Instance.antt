-- ===== src/Reconcile/Realised/Instance.antt =====
-- A reconciliation of an instance as a step on the set of its children.
use osrm_operator.Base.{List, ◌⊎◌, ◌∷◌, true, ◌≡◌, refl, ap, ok}
use mathlib.Core.Path.{subst}
use osrm_operator.Text.{Text}
use osrm_operator.Collection.Expected.{same_name}
use osrm_operator.Reconcile.Realised.Phased.{StatusLawful}
use osrm_operator.Kube.{Kind, Object}
use osrm_operator.Api.{
  Phase, building_map, updating_map, redeploying_workers, deploying_workers, workers_deployed,
  workers_redeployed, deleting, empty, InstanceSpec, OsrmInstance, child_resource_name,
}
use osrm_operator.Api.Defaults.{of_instance}
use osrm_operator.Client.{Client}
use osrm_operator.Client.Lawful.{Lawful, owns}
use osrm_operator.Owner.{Owner}
use osrm_operator.Owner.Outcomes.{OwnerLawful}
use osrm_operator.Builders.{
  ResourceBuilder, deployment, service, pod_disruption_budget, horizontal_pod_autoscaler,
  cron_job_of, new_osrm_resource_builder,
}
use osrm_operator.Builders.Instance.{
  to_profile_spec, instance_builders_for_phase, instance_map_building_phase_builders,
  instance_map_updating_resource_builders, instance_redeploying_workers_phase_builders,
  instance_deploying_workers_phase_builders, instance_workers_deployed_phase_builders,
}
use osrm_operator.Contents.Adoption.{ReferenceLawful}
use osrm_operator.Collection.{instance_garbage_collection}
use osrm_operator.Collection.Instance.{
  IsLeftOfInstance, IsLeftOfInstance-same, instance_garbage_collection_exact,
}
use osrm_operator.Reconcile.{ObjectStore, enter}
use osrm_operator.Reconcile.Controllers.{instance_controller}
use osrm_operator.Reconcile.Success.{EndsWell}
use osrm_operator.Reconcile.Realised.Stored.{StoreLawful, is_built, is_built_iff, IsBuilt}
use osrm_operator.Reconcile.Realised.Returned.{ReturnsLawful}
use osrm_operator.Reconcile.Realised.Added.{enter-Added}
use osrm_operator.Reconcile.Realised.Exact.{added_iff}

module _ (c : Client) where
  open c use {World}

  -- What garbage collection leaves, seen by the name and the namespace of the owner.
  instance_collection-InstanceExact :
      (a : OsrmInstance) {namespace owner : Text}
      → a.meta.namespace ≡ namespace
      → a.meta.name ≡ owner
      → (laws : Lawful c namespace owner) (w : World)
      → (instance_garbage_collection c a w).0 ≡ ok tt
      → IsLeftOfInstance laws
          (child_resource_name a.meta)
          a.spec
          a.status.phase
          (λ k n. owns laws w k n ≡ true)
          (instance_garbage_collection c a w).1
  instance_collection-InstanceExact a {owner = owner} p q =
      subst
        (λ ns.
          (laws : Lawful c ns owner) (w : World)
          → (instance_garbage_collection c a w).0 ≡ ok tt
          → IsLeftOfInstance laws (child_resource_name a.meta) a.spec a.status.phase
              (λ k n. owns laws w k n ≡ true) (instance_garbage_collection c a w).1)
        p
        (subst
          (λ ow.
            (laws : Lawful c a.meta.namespace ow) (w : World)
            → (instance_garbage_collection c a w).0 ≡ ok tt
            → IsLeftOfInstance laws (child_resource_name a.meta) a.spec a.status.phase
                (λ k n. owns laws w k n ≡ true) (instance_garbage_collection c a w).1)
          q (λ laws w h. instance_garbage_collection_exact c a laws w h))

  of_instance-meta : (r : OsrmInstance) → ((instance_controller c).instance_of r).meta ≡ r.meta
  unfolding instance_controller of_instance
  of_instance-meta r = refl

  -- What is built for workers that run.
  abbrev deployed_for : Text → InstanceSpec → List ResourceBuilder
  deployed_for g spec =
      let p = to_profile_spec spec in
      service p
      ∷ horizontal_pod_autoscaler p
      ∷ pod_disruption_budget p
      ∷ deployment p g
      ∷ cron_job_of p g

  instance_builders-spec :
      (r r' : OsrmInstance) (active future : Text) (phase : Phase)
      → r.spec ≡ r'.spec
      → (instance_controller c).builders_for (new_osrm_resource_builder r active future) phase
        ≡ (instance_controller c).builders_for (new_osrm_resource_builder r' active future) phase
  unfolding instance_controller new_osrm_resource_builder instance_builders_for_phase
      instance_map_building_phase_builders instance_map_updating_resource_builders
      instance_redeploying_workers_phase_builders instance_deploying_workers_phase_builders
      instance_workers_deployed_phase_builders
  instance_builders-spec r r' active future building_map e = rw e refl
  instance_builders-spec r r' active future updating_map e = rw e refl
  instance_builders-spec r r' active future redeploying_workers e = rw e refl
  instance_builders-spec r r' active future deploying_workers e = rw e refl
  instance_builders-spec r r' active future workers_deployed e =
      ap (deployed_for (new_osrm_resource_builder r active future).map_generation) e
  instance_builders-spec r r' active future workers_redeployed e =
      ap (deployed_for (new_osrm_resource_builder r active future).map_generation) e
  instance_builders-spec r r' active future deleting e = refl
  instance_builders-spec r r' active future empty e = refl

module _ (c : Client) (o : Owner (c.World) InstanceSpec) (objects : ObjectStore (c.World))
    (r0 : OsrmInstance) (laws : Lawful c r0.meta.namespace r0.meta.name)
    (owner_laws : OwnerLawful c InstanceSpec o r0.meta.namespace r0.meta.name laws)
    (returns : ReturnsLawful c o)
    (stores : StoreLawful c objects r0.meta.namespace r0.meta.name laws)
    (reference : ReferenceLawful objects.environment r0.meta) where
  open c use {World}

  -- The builders of the phase.
  abbrev pub instance_plan : Text → Text → Phase → List ResourceBuilder
  instance_plan active future phase =
      instance_builders_for_phase (new_osrm_resource_builder r0 active future) phase

  -- Where a reconciliation of an instance in a phase ends without an error, its children are in the end just
  -- those that were there before or are built by some builder of the phase, and are expected in that
  -- phase: the claim and the job of the active generation, which is that of the
  -- deployment as it stands in the end, those of the future generation, which is computed
  -- from just the claims that were there or are built, while the map is updated or workers are started
  -- with it, every config map, and any other child by its name. That is so where the calls on
  -- children, on the instance itself, with its status as a subresource, and of `CreateOrUpdate` are
  -- as documented, and the instance was read with the phase that the server holds.
  pub enter_instance-Refines :
      (held : World → Phase)
      → StatusLawful c o objects held
      → (children : List Object) (active0 future0 : Text) (phase : Phase) (w0 : World)
      → held w0 ≡ r0.status.phase
      → EndsWell
          (enter c o (instance_controller c) objects children active0 future0 phase (r0, w0)).0
      → IsLeftOfInstance laws
          (child_resource_name r0.meta)
          r0.spec
          phase
          (λ k n.
            (owns laws w0 k n ≡ true) ⊎ IsBuilt r0.meta (instance_plan active0 future0 phase) k n)
          (enter c o (instance_controller c) objects children active0 future0 phase (r0, w0)).1.1
  unfolding instance_controller
  enter_instance-Refines held status children active0 future0 phase w0 agree h =
      let x =
        enter-Added c o (instance_controller c) objects r0 laws owner_laws returns stores reference
          (of_instance-meta c) (instance_builders-spec c) children active0 future0 phase w0 h in
      let bs = instance_plan active0 future0 phase in
      let a = x.returned in
      let was : Kind → Text → Type 0 = λ k n. owns laws x.before k n ≡ true in
      let final =
        (enter c o (instance_controller c) objects children active0 future0 phase (r0, w0)).1.1 in
      let collected = (instance_garbage_collection c a x.before).1 in
      let left =
        subst (λ named. IsLeftOfInstance laws named r0.spec phase was collected)
          (same_name a.meta r0.meta x.same_name)
          (subst
            (λ spec. IsLeftOfInstance laws (child_resource_name a.meta) spec phase was collected)
            x.same_spec
            (subst (λ p. IsLeftOfInstance laws (child_resource_name a.meta) a.spec p was collected)
              (x.in_phase held status agree)
              (instance_collection-InstanceExact c a x.same_namespace x.same_name laws x.before
                x.collected))) in
      IsLeftOfInstance-same laws (child_resource_name r0.meta) r0.spec phase was
        (λ k n. (owns laws w0 k n ≡ true) ⊎ IsBuilt r0.meta bs k n) collected final
        (λ k n.
          let iff =
            added_iff (owns laws x.before k n) (owns laws w0 k n) (is_built r0.meta bs k n)
              (x.added k n) (is_built_iff r0.meta bs k n) in
          (iff.1, iff.0))
        x.left left
