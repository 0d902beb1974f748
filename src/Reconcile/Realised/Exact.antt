-- ===== src/Reconcile/Realised/Exact.antt =====
-- A reconciliation of a cluster as a step on the set of its children.
use osrm_operator.Base.{List, Bool, sym, ◌⊎◌, ◌↔◌, true, ◌||◌, ◌≡◌, refl, ◌∙◌, ok}
use mathlib.Core.Path.{subst}
use osrm_operator.Text.{Text}
use osrm_operator.Collection.Expected.{same_name, or_true_iff}
use osrm_operator.Reconcile.Realised.Phased.{StatusLawful}
use osrm_operator.Kube.{Kind, Object}
use osrm_operator.Api.{Phase, ClusterSpec, OsrmCluster, child_resource_name}
use osrm_operator.Client.{Client}
use osrm_operator.Client.Lawful.{Lawful, owns}
use osrm_operator.Owner.{Owner}
use osrm_operator.Owner.Outcomes.{OwnerLawful}
use osrm_operator.Builders.{ResourceBuilder, new_osrm_resource_builder, resource_builders_for_phase}
use osrm_operator.Survival.Plain.{resource_builders_for_phase-spec}
use osrm_operator.Contents.Adoption.{ReferenceLawful}
use osrm_operator.Collection.{garbage_collection}
use osrm_operator.Collection.Cluster.{IsLeft, IsLeft-same, garbage_collection_exact}
use osrm_operator.Reconcile.{ObjectStore, enter}
use osrm_operator.Reconcile.Controllers.{cluster_controller}
use osrm_operator.Reconcile.Success.{EndsWell}
use osrm_operator.Reconcile.Realised.Stored.{StoreLawful, is_built, is_built_iff, IsBuilt}
use osrm_operator.Reconcile.Realised.Added.{enter-Added}
use osrm_operator.Api.Defaults.{of_cluster}
use osrm_operator.Reconcile.Realised.Returned.{ReturnsLawful}

pub added_iff :
    {P : Type 0} (after before built : Bool)
    → after ≡ (before || built)
    → ((built ≡ true) ↔ P)
    → (after ≡ true) ↔ ((before ≡ true) ⊎ P)
added_iff after before built e p =
    let either = or_true_iff before built (λ o. o, λ o. o) p in
    (λ h. either.0 (sym e ∙ h), λ h. e ∙ either.1 h)

module _ (c : Client) where
  open c use {World}

  -- What garbage collection leaves, seen by the name and the namespace of the owner.
  collection-Exact :
      (a : OsrmCluster) {namespace owner : Text}
      → a.meta.namespace ≡ namespace
      → a.meta.name ≡ owner
      → (laws : Lawful c namespace owner) (w : World) → (garbage_collection c a w).0 ≡ ok tt
      → IsLeft laws
          (child_resource_name a.meta)
          a.spec
          a.status.phase
          (λ k n. owns laws w k n ≡ true)
          (garbage_collection c a w).1
  collection-Exact a {owner = owner} p q =
      subst
        (λ ns.
          (laws : Lawful c ns owner) (w : World)
          → (garbage_collection c a w).0 ≡ ok tt
          → IsLeft laws (child_resource_name a.meta) a.spec a.status.phase
              (λ k n. owns laws w k n ≡ true) (garbage_collection c a w).1)
        p
        (subst
          (λ ow.
            (laws : Lawful c a.meta.namespace ow) (w : World)
            → (garbage_collection c a w).0 ≡ ok tt
            → IsLeft laws (child_resource_name a.meta) a.spec a.status.phase
                (λ k n. owns laws w k n ≡ true) (garbage_collection c a w).1)
          q (λ laws w h. garbage_collection_exact c a laws w h))

module _ (c : Client) (o : Owner (c.World) ClusterSpec) (objects : ObjectStore (c.World))
    (r0 : OsrmCluster) (laws : Lawful c r0.meta.namespace r0.meta.name)
    (owner_laws : OwnerLawful c ClusterSpec o r0.meta.namespace r0.meta.name laws)
    (returns : ReturnsLawful c o)
    (stores : StoreLawful c objects r0.meta.namespace r0.meta.name laws)
    (reference : ReferenceLawful objects.environment r0.meta) where
  open c use {World}

  pub of_cluster-meta : (r : OsrmCluster) → ((cluster_controller c).instance_of r).meta ≡ r.meta
  unfolding cluster_controller of_cluster
  of_cluster-meta r = refl

  pub builders-spec :
      (r r' : OsrmCluster) (active future : Text) (phase : Phase)
      → r.spec ≡ r'.spec
      → (cluster_controller c).builders_for (new_osrm_resource_builder r active future) phase
        ≡ (cluster_controller c).builders_for (new_osrm_resource_builder r' active future) phase
  unfolding cluster_controller new_osrm_resource_builder
  builders-spec r r' active future phase e =
      let b = new_osrm_resource_builder r active future in
      resource_builders_for_phase-spec r b.map_generation b.future_map_generation r' e phase

  -- The builders of the phase.
  abbrev pub plan : Text → Text → Phase → List ResourceBuilder
  plan active future phase =
      resource_builders_for_phase (new_osrm_resource_builder r0 active future) phase

  -- Where a reconciliation of a cluster in a phase ends without an error, its children are in the end just
  -- those that were there before or are built by some builder of the phase, and are expected in that
  -- phase: a profile's claim and job of the active generation, which is that of the
  -- profiles' deployments as they stand in the end, those of the future generation, which is computed
  -- from just the claims that were there or are built, while the map is updated or workers are started
  -- with it, and any other child by the name of a profile, of its cron job or of the gateway. That is so where the calls on
  -- children, on the cluster itself, with its status as a subresource, and of `CreateOrUpdate` are
  -- as documented, and the cluster was read with the phase that the server holds.
  pub enter-Refines :
      (held : World → Phase)
      → StatusLawful c o objects held
      → (children : List Object) (active0 future0 : Text) (phase : Phase) (w0 : World)
      → held w0 ≡ r0.status.phase
      → EndsWell
          (enter c o (cluster_controller c) objects children active0 future0 phase (r0, w0)).0
      → IsLeft laws
          (child_resource_name r0.meta)
          r0.spec
          phase
          (λ k n. (owns laws w0 k n ≡ true) ⊎ IsBuilt r0.meta (plan active0 future0 phase) k n)
          (enter c o (cluster_controller c) objects children active0 future0 phase (r0, w0)).1.1
  unfolding cluster_controller
  enter-Refines held status children active0 future0 phase w0 agree h =
      let x =
        enter-Added c o (cluster_controller c) objects r0 laws owner_laws returns stores reference
          of_cluster-meta builders-spec children active0 future0 phase w0 h in
      let bs = plan active0 future0 phase in
      let a = x.returned in
      let was : Kind → Text → Type 0 = λ k n. owns laws x.before k n ≡ true in
      let final =
        (enter c o (cluster_controller c) objects children active0 future0 phase (r0, w0)).1.1 in
      let collected = (garbage_collection c a x.before).1 in
      let left =
        subst (λ named. IsLeft laws named r0.spec phase was collected)
          (same_name a.meta r0.meta x.same_name)
          (subst (λ spec. IsLeft laws (child_resource_name a.meta) spec phase was collected)
            x.same_spec
            (subst (λ p. IsLeft laws (child_resource_name a.meta) a.spec p was collected)
              (x.in_phase held status agree)
              (collection-Exact c a x.same_namespace x.same_name laws x.before x.collected))) in
      IsLeft-same laws (child_resource_name r0.meta) r0.spec phase was
        (λ k n. (owns laws w0 k n ≡ true) ⊎ IsBuilt r0.meta bs k n) collected final
        (λ k n.
          let iff =
            added_iff (owns laws x.before k n) (owns laws w0 k n) (is_built r0.meta bs k n)
              (x.added k n) (is_built_iff r0.meta bs k n) in
          (iff.1, iff.0))
        x.left left
