-- ===== src/Witnesses/Realising.antt =====
-- The concrete store takes what the builders build, and keeps it.
use osrm_operator.Base.{
  false, ◌&&◌, List, [], ◌∷◌, true, ◌≡◌, inl, inr, refl, sym, ap, All, Bool-cases, Result, ok, err,
  panic, if◌then◌else◌,
}
use mathlib.Core.Path.{subst}
use osrm_operator.Text.{Text, codes, text_eq}
use osrm_operator.Dict.{contains, contains-cons_self}
use osrm_operator.Kube.{ObjectMeta, Kind, Object, object_kind, object_meta}
use osrm_operator.Api.{workers_redeployed, Resource}
use osrm_operator.Client.Lawful.{kind_eq, kind_eq_refl}
use osrm_operator.Contents.Adoption.{ReferenceLawful, ok-injective}
use osrm_operator.Reconcile.{enter}
use osrm_operator.Reconcile.Controllers.{cluster_controller}
use osrm_operator.Reconcile.Realised.{IsThere, builders_of, enter-Realises}
use osrm_operator.Reconcile.Realised.Stored.{StoreLawful}
use osrm_operator.Reconcile.Realised.Returned.{ReturnsLawful}
use osrm_operator.Witnesses.Store.{Names, child_of, store, store-Lawful}
use osrm_operator.Witnesses.Collecting.{names}
use osrm_operator.Witnesses.Reconciling.{
  environment, put, objects, owner_of, owner-Lawful, running, running-EndsWell,
}

-- The metadata of a result, to compare results by.
abbrev meta_of_ok : Result ObjectMeta → ObjectMeta → ObjectMeta
meta_of_ok (ok m) d = m
meta_of_ok (err e) d = d
meta_of_ok panic d = d

added : Text → List Text → List Text
added n ns = if contains n ns then ns else n ∷ ns

contains-added : (n : Text) (ns : List Text) → contains n (added n ns) ≡ true
unfolding added
contains-added n ns = elim (Bool-cases (contains n ns)) [
  | inl y ↦ rw y y
  | inr n0 ↦ rw n0 (contains-cons_self n ns)
]

contains-others :
    (n j : Text) (ns : List Text) → text_eq n j ≡ false → contains j (added n ns) ≡ contains j ns
unfolding added contains
contains-others n j ns h = elim (Bool-cases (contains n ns)) [
  | inl y ↦ rw y refl
  | inr n0 ↦ rw (n0, h) refl
]

put-others :
    (w : Names) (j k : Kind) (n n' : Text)
    → (kind_eq j k && text_eq n n') ≡ false
    → contains n' (put w j n k) ≡ contains n' (w k)
unfolding added
put-others w j k n n' h = elim (Bool-cases (kind_eq j k)) [
  | inl y ↦ rw y (contains-others n n' (w k) (rw y at h))
  | inr n0 ↦ rw n0 refl
]

put-stores : (w : Names) (k : Kind) (n : Text) → contains n (put w k n k) ≡ true
unfolding added
put-stores w k n = rw (kind_eq_refl k) (contains-added n (w k))

added-again : (n : Text) (ns : List Text) → added n (added n ns) ≡ added n ns
unfolding added
added-again n ns = rw (contains-added n ns) refl

pub environment-Lawful : (m : ObjectMeta) → ReferenceLawful environment m
unfolding environment added
environment-Lawful owner = record {
  writes_owners = λ m m' e.
      subst {A = ObjectMeta} (λ z. z ≡ record m { owners = z.owners }) (ok-injective e) refl;
  adopts_once = λ m m' e.
      subst {A = ObjectMeta} (λ z. ok (record z { owners = added owner.name z.owners }) ≡ ok z)
        (ok-injective e) (ap (λ x. ok (record m { owners = x })) (added-again owner.name m.owners));
}

-- What the call leaves, by the outcome of the update.
abbrev outcome : Result Object → Object → Names → Result (Unit {0}) × Names
outcome x o w = elim x [
  | ok o' ↦ (ok tt, put w (object_kind o) (object_meta o).name)
  | err e ↦ (err e, w)
  | panic ↦ (panic, w)
]

outcome-others :
    (x : Result Object) (o : Object) (w : Names) (k : Kind) (n : Text)
    → (kind_eq (object_kind o) k && text_eq (object_meta o).name n) ≡ false
    → contains n ((outcome x o w).1 k) ≡ contains n (w k)
outcome-others (ok o') o w k n h = put-others w (object_kind o) k (object_meta o).name n h
outcome-others (err e) o w k n h = refl
outcome-others panic o w k n h = refl

outcome-stores :
    (x : Result Object) (o : Object) (w : Names)
    → (outcome x o w).0 ≡ ok tt
    → contains (object_meta o).name ((outcome x o w).1 (object_kind o)) ≡ true
outcome-stores (ok o') o w h = put-stores w (object_kind o) (object_meta o).name
outcome-stores (err e) o w h = absurd (cc)
outcome-stores panic o w h = absurd (cc)

pub objects-Lawful :
    (namespace owner : Text)
    → StoreLawful store objects namespace owner (store-Lawful namespace owner)
unfolding objects store-Lawful
objects-Lawful namespace owner = record {
  others = λ o f w k n h. ap (child_of namespace k n) (outcome-others (f o) o w k n h);
  stores = λ o f w labelled ns done. outcome-stores (f o) o w done;
}

pub objects-reference : (m : ObjectMeta) → ReferenceLawful (objects.environment) m
unfolding objects
objects-reference = environment-Lawful

pub owner-returns : {S : Type 0} (r : Resource S) → ReturnsLawful store (owner_of r)
unfolding owner_of
owner-returns r = record {
  update_identity = λ r1 r2 w e.
      let same = ok-injective e in
      (sym (ap (λ x. x.meta.name) same), sym (ap (λ x. x.meta.namespace) same));
  status_spec = λ r1 r2 w e. sym (ap (λ x. x.spec) (ok-injective e));
  update_spec = λ r1 r2 w e. sym (ap (λ x. x.spec) (ok-injective e));
}

abbrev maps : Text
maps = codes "maps"

abbrev osm : Text
osm = codes "osm"

enter-Realises_example :
    let final =
      (enter store
        (owner_of running)
        (cluster_controller store)
        objects
        []
        (codes "2")
        (codes "2")
        workers_redeployed
        (running, names)).1.1 in
    All
      (IsThere store
        (owner_of running)
        objects
        running
        (store-Lawful maps osm)
        (owner-Lawful running maps osm)
        (owner-returns running)
        (objects-Lawful maps osm)
        (objects-reference running.meta)
        final)
      (builders_of store
        (owner_of running)
        objects
        running
        (store-Lawful maps osm)
        (owner-Lawful running maps osm)
        (owner-returns running)
        (objects-Lawful maps osm)
        (objects-reference running.meta)
        (codes "2")
        (codes "2")
        workers_redeployed)
enter-Realises_example =
    enter-Realises store (owner_of running) objects running (store-Lawful maps osm)
      (owner-Lawful running maps osm) (owner-returns running) (objects-Lawful maps osm)
      (objects-reference running.meta) [] (codes "2") (codes "2") workers_redeployed names
      running-EndsWell
