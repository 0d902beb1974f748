-- ===== src/Reconcile/Realised/Added.antt =====
-- What a reconciliation that ends without an error has added to the children of a resource before it
-- collects the garbage, and that it changes nothing afterwards.
use osrm_operator.Base.{List, Bool, ◌||◌, ◌≡◌, sym, ◌∙◌, ap, ok}
use osrm_operator.Text.{Text, codes}
use osrm_operator.Kube.{Kind, Object, condition_true}
use osrm_operator.Api.{Phase, Resource}
use osrm_operator.Client.{Client}
use osrm_operator.Client.Lawful.{Lawful, owns}
use osrm_operator.Owner.{Owner}
use osrm_operator.Owner.Outcomes.{
  OwnerLawful, set_reconciliation_result-Spares, apply_last_spec_annotation-Spares,
}
use osrm_operator.Builders.{new_osrm_resource_builder}
use osrm_operator.Contents.Adoption.{ReferenceLawful}
use osrm_operator.Reconcile.{Controller, ObjectStore, enter}
use osrm_operator.Reconcile.Success.{EndsWell, enter-EndsWell}
use osrm_operator.Reconcile.Realised.Stored.{StoreLawful, is_built, Applied-exact}
use osrm_operator.Reconcile.Realised.Returned.{
  ReturnsLawful, set_phase-same, noted-same, set_phase-untouched,
}
use osrm_operator.Reconcile.Realised.Phased.{StatusLawful, set_phase-held, Applied-held, noted-held}

module _ (c : Client) {S D : Type 0} (o : Owner (c.World) S) (controller : Controller (c.World) S D)
    (objects : ObjectStore (c.World)) (r0 : Resource S)
    (laws : Lawful c r0.meta.namespace r0.meta.name)
    (owner_laws : OwnerLawful c S o r0.meta.namespace r0.meta.name laws)
    (returns : ReturnsLawful c o)
    (stores : StoreLawful c objects r0.meta.namespace r0.meta.name laws)
    (reference : ReferenceLawful objects.environment r0.meta)
    (of_meta : (r : Resource S) → (controller.instance_of r).meta ≡ r.meta)
    (of_spec : (r r' : Resource S) (active future : Text) (phase : Phase)
      → r.spec ≡ r'.spec
      → controller.builders_for (new_osrm_resource_builder r active future) phase
        ≡ controller.builders_for (new_osrm_resource_builder r' active future) phase) where
  open c use {World}
  open laws use {child}

  -- What the builders of the phase build.
  abbrev pub planned : Text → Text → Phase → Kind → Text → Bool
  planned active future phase =
      is_built r0.meta (controller.builders_for (new_osrm_resource_builder r0 active future) phase)

  -- The resource, as the server returned it, and the state before the garbage was collected, which
  -- differs from the first one by what was built, and from the last one by the collection.
  pub record Added (built : Kind → Text → Bool) (phase : Phase) (w0 final : World) : Type 0 where
    pub returned : Resource S
    pub before : World
    pub same_name : returned.meta.name ≡ r0.meta.name
    pub same_namespace : returned.meta.namespace ≡ r0.meta.namespace
    pub same_spec : returned.spec ≡ r0.spec
    pub added : (k : Kind) (n : Text) → owns laws before k n ≡ (owns laws w0 k n || built k n)
    pub collected : (controller.collect_garbage returned before).0 ≡ ok tt
    pub left :
        (k : Kind) (n : Text)
        → child final k n ≡ child (controller.collect_garbage returned before).1 k n
    pub in_phase :
        (held : World → Phase)
        → StatusLawful c o objects held
        → held w0 ≡ r0.status.phase
        → returned.status.phase ≡ phase

  pub enter-Added :
      (children : List Object) (active future : Text) (phase : Phase) (w0 : World)
      → EndsWell (enter c o controller objects children active future phase (r0, w0)).0
      → Added
          (planned active future phase)
          phase
          w0
          (enter c o controller objects children active future phase (r0, w0)).1.1
  enter-Added children active future phase w0 h =
      let ns = r0.meta.namespace in
      let ow = r0.meta.name in
      let (r, w, w', started, applied, concluded) =
        enter-EndsWell c o controller objects children active future phase (r0, w0) h in
      let (meta_same, spec_same) =
        set_phase-same c o controller objects returns phase r0 r w0 w owner_laws.status_meta
          started in
      let a = concluded.annotated in
      let key = controller.last_applied_spec_annotation in
      let (name, namespace, spec_a) =
        noted-same c o controller objects returns r a w' concluded.before key concluded.stored in
      let recording =
        set_reconciliation_result-Spares c o ns ow laws owner_laws condition_true (codes "Success")
          (codes "Reconciliation completed") in
      record {
        returned = a;
        before = concluded.before;
        same_name = name ∙ ap (λ x. x.name) meta_same;
        same_namespace = namespace ∙ ap (λ x. x.namespace) meta_same;
        same_spec = spec_a ∙ spec_same;
        added = λ j n.
            ap (λ x. x.is_owned)
              (sym (ap (λ x. child x.1.1 j n) concluded.stored)
                ∙ (apply_last_spec_annotation-Spares c o ns ow laws owner_laws key).spared (r, w') j
                    n)
            ∙ Applied-exact c o controller objects r0.meta laws stores reference r
                (of_meta r ∙ meta_same) applied j n
            ∙ ap (λ bs. owns laws w j n || is_built r0.meta bs j n)
                (of_spec r r0 active future phase spec_same)
            ∙ ap (λ x. x.is_owned || planned active future phase j n)
                (set_phase-untouched c o controller objects ns ow laws owner_laws phase r0 r w0 w
                  started j n);
        collected = concluded.collected;
        left = λ j n.
            ap (λ x. child x.1 j n) concluded.recorded
            ∙ recording.spared (a, (controller.collect_garbage a concluded.before).1) j n;
        in_phase = λ held status agree.
            noted-held c o controller objects held status r a w' concluded.before key
              concluded.stored
            ∙ Applied-held c o controller objects held status applied
            ∙ set_phase-held c o controller objects held status phase r0 r w0 w agree started;
      }
