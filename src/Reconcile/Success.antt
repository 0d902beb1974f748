-- ===== src/Reconcile/Success.antt =====
-- What a reconciliation that ends without an error has done.
use osrm_operator.Base.{
  ℕ, List, [], ◌∷◌, none, ◌≡◌, refl, sym, ◌∙◌, ap, Error, Result, ok, err, panic,
}
use mathlib.Core.Path.{subst}
use osrm_operator.Text.{Text, codes}
use osrm_operator.Kube.{Object, condition_false, condition_true}
use osrm_operator.Api.{Phase, Resource}
use osrm_operator.Client.{Client, ◌>>◌}
use osrm_operator.Owner.{
  Owner, Step, on_world, set_reconciliation_result, apply_last_spec_annotation,
}
use osrm_operator.Builders.{ResourceBuilder, new_osrm_resource_builder}
use osrm_operator.Contents.Objects.{build, update}
use osrm_operator.Reconcile.{
  environment_at, Controller, ObjectStore, Return, done, fail, attempt, reject, apply_builders,
  conclude, set_phase, enter,
}

-- The reconciliation ends, and without an error.
abbrev pub EndsWell : Result Return → Type 0
EndsWell (ok ret) = ret.error ≡ none
EndsWell (err e) = ⊥
EndsWell panic = ⊥

module _ {W S A : Type 0} where
  -- Where the error of a part is an error of the whole, a reconciliation that ends well goes on
  -- after that part.
  attempt-EndsWell :
      (m : Step W S A) (h : Error → Step W S Return) (f : A → Step W S Return) (s : Resource S × W)
      → ((e : Error) (s' : Resource S × W) → ¬ EndsWell (h e s').0)
      → EndsWell (attempt m h f s).0
      → (a : A) × ((m s).0 ≡ ok a) × (attempt m h f s ≡ f a (m s).1)
  attempt-EndsWell m h f s fails ends = go (m s).0 (m s).1 ends
    where
      go :
          (x : Result A) (s' : Resource S × W)
          → EndsWell (attempt (λ _. (x, s')) h f s).0
          → (a : A) × (x ≡ ok a) × (attempt (λ _. (x, s')) h f s ≡ f a s')
      go (ok a) s' e = (a, refl, refl)
      go (err e) s' ends' = absurd (fails e s' ends')
      go panic s' e = absurd e

module _ {W S : Type 0} where
  fail-EndsWell : (delay : ℕ) (e : Error) (s : Resource S × W) → ¬ EndsWell (fail delay e s).0
  fail-EndsWell delay e s h = cc

module _ (c : Client) {S D : Type 0} (o : Owner (c.World) S) (k : Controller (c.World) S D)
    (objects : ObjectStore (c.World)) where
  open c use {World}
  open objects use {environment, create_or_update}

  -- What a builder builds for the resource, and its update of a stored object.
  abbrev pub built : Resource S → ResourceBuilder → Result Object
  built r b = build environment (k.instance_of r) b

  abbrev pub wanted : World → Resource S → List Object → ResourceBuilder → Object → Result Object
  wanted w r children b = update (environment_at objects w) (k.instance_of r) children b

  -- The builders built their objects, and the server took them, one after the other.
  pub data Applied (children : List Object) (r : Resource S)
      : List ResourceBuilder → World → World → Type 0 where
    applied_none : {w : World} → Applied children r [] w w
    applied_next :
        {b : ResourceBuilder} {bs : List ResourceBuilder} {object : Object} {w w' : World}
        → built r b ≡ ok object
        → (create_or_update object (wanted w r children b) w).0 ≡ ok tt
        → Applied children r bs (create_or_update object (wanted w r children b) w).1 w'
        → Applied children r (b ∷ bs) w w'

  then-EndsWell :
      (m : Step World S (Unit {0})) (delay : ℕ) (e : Error) (s : Resource S × World)
      → ¬ EndsWell ((m >> fail delay e) s).0
  then-EndsWell m delay e s = go (m s).0 (m s).1
    where
      go :
          (x : Result (Unit {0})) (s' : Resource S × World)
          → ¬ EndsWell (((λ _. (x, s')) >> fail delay e) s).0
      go (ok u) s' h = cc
      go (err e') s' h = h
      go panic s' h = h

  reject-EndsWell :
      (reason : Text) (e : Error) (s : Resource S × World)
      → ¬ EndsWell (reject c o k objects reason e s).0
  unfolding reject
  reject-EndsWell reason e s =
      then-EndsWell (set_reconciliation_result o condition_false reason (o.error_text e)) 0 e s

  apply_builders-EndsWell :
      (children : List Object) (bs : List ResourceBuilder) (finish : Step World S Return)
      (r : Resource S) (w : World)
      → EndsWell (apply_builders c o k objects children bs finish (r, w)).0
      → (w' : World) × Applied children r bs w w'
        × (apply_builders c o k objects children bs finish (r, w) ≡ finish (r, w'))
  unfolding apply_builders
  apply_builders-EndsWell children [] finish r w h = (w, applied_none, refl)
  apply_builders-EndsWell children (b ∷ bs) finish r w h =
      let rest = apply_builders c o k objects children bs finish in
      let store : Object → Step World S (Unit {0}) = λ object (r', w').
        on_world (λ v. create_or_update object (wanted v r' children b) v) (r', w') in
      let next : Object → Step World S Return =
        λ object. attempt (store object) (reject c o k objects (codes "Error")) (λ _. rest) in
      let (object, built, step) =
        attempt-EndsWell (λ (r', w'). (built r' b, (r', w')))
          (reject c o k objects (codes "FailedToBuildChildResource")) next (r, w)
          (reject-EndsWell (codes "FailedToBuildChildResource")) h in
      let h' = subst (λ x. EndsWell x.0) step h in
      let (u, stored, step') =
        attempt-EndsWell (store object) (reject c o k objects (codes "Error")) (λ _. rest) (r, w)
          (reject-EndsWell (codes "Error")) h' in
      let (w', applied, last) =
        apply_builders-EndsWell children bs finish r
          (create_or_update object (wanted w r children b) w).1
          (subst (λ x. EndsWell x.0) step' h') in
      (w', applied_next built stored applied, step ∙ step' ∙ last)

  done-state :
      (m : Step World S (Unit {0})) (delay : ℕ) (s : Resource S × World)
      → ((m >> done delay) s).1 ≡ (m s).1
  done-state m delay s = go (m s).0 (m s).1
    where
      go :
          (x : Result (Unit {0})) (s' : Resource S × World)
          → (((λ _. (x, s')) >> done delay) s).1 ≡ s'
      go (ok u) s' = refl
      go (err e) s' = refl
      go panic s' = refl

  abbrev succeed : Step World S (Unit {0})
  succeed =
      set_reconciliation_result o condition_true (codes "Success")
        (codes "Reconciliation completed")

  -- The spec was stored and the garbage collected, and then the success was recorded.
  pub record Concluded (s s' : Resource S × World) : Type 0 where
    pub annotated : Resource S
    pub before : World
    pub stored :
        apply_last_spec_annotation o k.last_applied_spec_annotation s ≡ (ok tt, (annotated, before))
    pub collected : (k.collect_garbage annotated before).0 ≡ ok tt
    pub recorded : s' ≡ (succeed (annotated, (k.collect_garbage annotated before).1)).1

  conclude-EndsWell :
      (s : Resource S × World)
      → EndsWell (conclude c o k objects s).0
      → Concluded s (conclude c o k objects s).1
  unfolding conclude
  conclude-EndsWell s h =
      let collect : Step World S (Unit {0}) = λ (r, w). on_world (k.collect_garbage r) (r, w) in
      let note = apply_last_spec_annotation o k.last_applied_spec_annotation in
      let after : Step World S Return = attempt collect (fail 10) (λ _. succeed >> done 0) in
      let (u, noted, step) = attempt-EndsWell note (fail 10) (λ _. after) s (fail-EndsWell 10) h in
      let h' = subst (λ x. EndsWell x.0) step h in
      let (v, swept, step') =
        attempt-EndsWell collect (fail 10) (λ _. succeed >> done 0) (note s).1 (fail-EndsWell 10)
          h' in
      record {
        annotated = (note s).1.0;
        before = (note s).1.1;
        stored = ap (λ x. (x, (note s).1)) noted;
        collected = swept;
        recorded = ap (λ x. x.1) (step ∙ step') ∙ done-state succeed 0 (collect (note s).1).1;
      }

  -- Where a reconciliation ends without an error, the phase was stored first, then each builder of
  -- that phase built its object and the server took it, in order, for the resource as it was after
  -- the phase was stored; then the spec was stored and the garbage collected without an error, and
  -- the success was recorded last.
  pub enter-EndsWell :
      (children : List Object) (active future : Text) (phase : Phase) (s : Resource S × World)
      → EndsWell (enter c o k objects children active future phase s).0
      → (r : Resource S) × (w : World) × (w' : World) × (set_phase c o k objects phase s
          ≡ (ok tt, (r, w)))
        × Applied children r (k.builders_for (new_osrm_resource_builder r active future) phase) w w'
        × Concluded (r, w') (enter c o k objects children active future phase s).1
  unfolding enter
  enter-EndsWell children active future phase s h =
      let start = set_phase c o k objects phase in
      let finish = conclude c o k objects in
      let builders : Resource S → List ResourceBuilder =
        λ r. k.builders_for (new_osrm_resource_builder r active future) phase in
      let (u, entered, step) =
        attempt-EndsWell start (fail 0)
          (λ _ (r, w). apply_builders c o k objects children (builders r) finish (r, w)) s
          (fail-EndsWell 0) h in
      let r = (start s).1.0 in
      let w = (start s).1.1 in
      let h' = subst (λ x. EndsWell x.0) step h in
      let (w', applied, last) = apply_builders-EndsWell children (builders r) finish r w h' in
      (
        r,
        w,
        w',
        ap (λ x. (x, (start s).1)) entered,
        applied,
        subst (Concluded (r, w')) (sym (ap (λ x. x.1) (step ∙ last)))
            (conclude-EndsWell (r, w') (subst (λ x. EndsWell x.0) last h')),
      )
