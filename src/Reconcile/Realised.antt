-- ===== src/Reconcile/Realised.antt =====
-- What a reconciliation of a cluster that ends without an error leaves at the server: the objects that
-- the builders of its phase are to keep there.
pub mod Stored
pub mod Returned
pub mod Phased
pub mod Added
pub mod Exact
pub mod Instance
use osrm_operator.Base.{
  List, [], Bool, true, false, ◌||◌, ◌≡◌, inl, inr, refl, ◌∙◌, ap, arith, All, All-zip, Bool-cases,
}
use mathlib.Core.Path.{subst}
use osrm_operator.Text.{Text}
use osrm_operator.Kube.{Object, Kind}
use osrm_operator.Api.{Phase, ClusterSpec, OsrmCluster}
use osrm_operator.Client.{Client}
use osrm_operator.Client.Lawful.{Lawful, owns}
use osrm_operator.Owner.{Owner}
use osrm_operator.Owner.Outcomes.{OwnerLawful}
use osrm_operator.Builders.{
  ResourceBuilder, built_kind, built_name, new_osrm_resource_builder, resource_builders_for_phase,
}
use osrm_operator.Survival.Plain.{
  IsPlainKept, resource_builders_for_phase-plain, resource_builders_for_phase-spec, built_name-same,
}
use osrm_operator.Dict.{contains}
use osrm_operator.Contents.Adoption.{ReferenceLawful}
use osrm_operator.Collection.{expected_resources, garbage_collection}
use osrm_operator.Collection.Generations.{is_generation_kind}
use osrm_operator.Reconcile.{ObjectStore, enter}
use osrm_operator.Reconcile.Controllers.{cluster_controller}
use osrm_operator.Reconcile.Success.{EndsWell}
use osrm_operator.Reconcile.Realised.Stored.{StoreLawful, is_built, is_built-All}
use osrm_operator.Reconcile.Realised.Added.{enter-Added}
use osrm_operator.Reconcile.Realised.Exact.{of_cluster-meta, builders-spec}
use osrm_operator.Collection.Cluster.{garbage_collection-Keeps}
use osrm_operator.Reconcile.Realised.Returned.{ReturnsLawful}

or-true : (b : Bool) → (b || true) ≡ true
or-true b = ground arith

-- What a collection keeps on every outcome, seen by the name and the namespace of the owner.
collection-kept :
    (c : Client) (a : OsrmCluster) {namespace owner : Text}
    → a.meta.namespace ≡ namespace
    → a.meta.name ≡ owner
    → (laws : Lawful c namespace owner) (w : c.World) (k : Kind) (n : Text)
    → is_generation_kind k ≡ false
    → contains n (expected_resources a) ≡ true
    → laws.child (garbage_collection c a w).1 k n ≡ laws.child w k n
collection-kept c a {owner = owner} p q =
    subst
      (λ ns.
        (laws : Lawful c ns owner) (w : c.World) (k : Kind) (n : Text)
        → is_generation_kind k ≡ false
        → contains n (expected_resources a) ≡ true
        → laws.child (garbage_collection c a w).1 k n ≡ laws.child w k n)
      p
      (subst
        (λ ow.
          (laws : Lawful c a.meta.namespace ow) (w : c.World) (k : Kind) (n : Text)
          → is_generation_kind k ≡ false
          → contains n (expected_resources a) ≡ true
          → laws.child (garbage_collection c a w).1 k n ≡ laws.child w k n)
        q (λ laws w k n. garbage_collection-Keeps c a laws w k n))

module _ (c : Client) (o : Owner (c.World) ClusterSpec) (objects : ObjectStore (c.World))
    (r0 : OsrmCluster) (laws : Lawful c r0.meta.namespace r0.meta.name)
    (owner_laws : OwnerLawful c ClusterSpec o r0.meta.namespace r0.meta.name laws)
    (returns : ReturnsLawful c o)
    (stores : StoreLawful c objects r0.meta.namespace r0.meta.name laws)
    (reference : ReferenceLawful objects.environment r0.meta) where
  open c use {World}

  -- The object is a child at the server, or it is a claim or a job.
  abbrev pub IsThere : World → ResourceBuilder → Type 0
  IsThere w b =
      (is_generation_kind (built_kind b) || owns laws w (built_kind b) (built_name r0.meta b))
      ≡ true

  abbrev pub builders_of : Text → Text → Phase → List ResourceBuilder
  builders_of active future phase =
      resource_builders_for_phase (new_osrm_resource_builder r0 active future) phase

  -- Where a reconciliation ends without an error, every object but claims and jobs that the builders
  -- of the phase build for the cluster is a child at the server in the end, of the kind and the name
  -- that the builder gives it: it was stored, and it was not collected as garbage. That is so
  -- where the calls on children, on the cluster itself and of `CreateOrUpdate` are as documented.
  pub enter-Realises :
      (children : List Object) (active future : Text) (phase : Phase) (w0 : World)
      → EndsWell (enter c o (cluster_controller c) objects children active future phase (r0, w0)).0
      → All
          (IsThere
            (enter c o (cluster_controller c) objects children active future phase (r0, w0)).1.1)
          (builders_of active future phase)
  unfolding new_osrm_resource_builder cluster_controller
  enter-Realises children active future phase w0 h =
      let x =
        enter-Added c o (cluster_controller c) objects r0 laws owner_laws returns stores reference
          (of_cluster-meta c o objects r0 laws owner_laws returns stores reference)
          (builders-spec c o objects r0 laws owner_laws returns stores reference) children active
          future phase w0 h in
      let a = x.returned in
      let b = new_osrm_resource_builder r0 active future in
      let plain =
        subst (All (IsPlainKept a [] []))
          (resource_builders_for_phase-spec a b.map_generation b.future_map_generation r0
            x.same_spec phase)
          (resource_builders_for_phase-plain a b.map_generation b.future_map_generation phase) in
      let bs = builders_of active future phase in
      All-zip {P = λ b. is_built r0.meta bs (built_kind b) (built_name r0.meta b) ≡ true}
        {Q = IsPlainKept a [] []} bs
        (λ b built kept. elim (Bool-cases (is_generation_kind (built_kind b))) [
          | inl y ↦ rw y refl
          | inr n ↦
              let name = built_name r0.meta b in
              let expected : contains name (expected_resources a) ≡ true =
                subst (λ n'. contains n' (expected_resources a) ≡ true)
                  (built_name-same a.meta r0.meta b x.same_name) (kept n) in
              rw n (
                ap (λ y. y.is_owned)
                  (x.left (built_kind b) name
                    ∙ collection-kept c a x.same_namespace x.same_name laws x.before (built_kind b)
                        name n expected)
                ∙ x.added (built_kind b) name
                ∙ rw built (or-true (owns laws w0 (built_kind b) name)))
        ])
        (is_built-All r0.meta bs) plain
