-- ===== src/Witnesses/Phased.antt =====
-- The concrete store with the phase of the custom resource, which its status updates alone change.
use osrm_operator.Base.{◌∷◌, refl, sym, ap, ok}
use osrm_operator.Text.{Text, codes}
use osrm_operator.Api.{Phase, Resource}
use osrm_operator.Client.{Client}
use osrm_operator.Client.Lawful.{Lawful}
use osrm_operator.Contents.Adoption.{ok-injective}
use osrm_operator.Owner.{Owner}
use osrm_operator.Owner.Outcomes.{OwnerLawful}
use osrm_operator.Reconcile.{ObjectStore}
use osrm_operator.Reconcile.Realised.Stored.{StoreLawful}
use osrm_operator.Reconcile.Realised.Returned.{ReturnsLawful}
use osrm_operator.Reconcile.Realised.Phased.{StatusLawful}
use osrm_operator.Dict.{contains}
use osrm_operator.Witnesses.Store.{Names, store-Lawful, store_get, store_list, store_delete, remove}
use osrm_operator.Witnesses.Reconciling.{objects}
use osrm_operator.Witnesses.Realising.{objects-Lawful}

abbrev pub PhasedNames : Type 0
PhasedNames = Names × Phase

abbrev pub phased_store : Client
phased_store = record {
  World = PhasedNames;
  get = λ k namespace n w. let x = store_get k namespace n w.0 in (x.0, (x.1, w.1));
  list = λ k namespace owner w. let x = store_list k namespace owner w.0 in (x.0, (x.1, w.1));
  delete = λ k namespace n w. let x = store_delete k namespace n w.0 in (x.0, (x.1, w.1));
}

unfoldable pub phased_store-Lawful : (namespace owner : Text) → Lawful phased_store namespace owner
phased_store-Lawful namespace owner =
    let laws = store-Lawful namespace owner in
    record {
      child = λ w. laws.child w.0;
      get_keeps = λ k n w. laws.get_keeps k n w.0;
      list_keeps = λ k w. laws.list_keeps k w.0;
      get_mounts = λ n w. laws.get_mounts n w.0;
      get_nothing = λ n w. laws.get_nothing n w.0;
      list_complete = λ k w. laws.list_complete k w.0;
      list_sound = λ k w. laws.list_sound k w.0;
      list_namespace = λ k w. laws.list_namespace k w.0;
      delete_others = λ k n w. laws.delete_others k n w.0;
      delete_gone = λ k n w. laws.delete_gone k n w.0;
    }

abbrev pub phased_objects : ObjectStore PhasedNames
phased_objects = record {
  environment = objects.environment;
  iterate_at = λ w m. m;
  create_or_update = λ o f w. let x = objects.create_or_update o f w.0 in (x.0, (x.1, w.1));
}

pub phased_objects-Lawful :
    (namespace owner : Text)
    → StoreLawful phased_store phased_objects namespace owner (phased_store-Lawful namespace owner)
unfolding phased_store-Lawful
phased_objects-Lawful namespace owner =
    let laws = objects-Lawful namespace owner in
    record { others = λ o f w. laws.others o f w.0; stores = λ o f w. laws.stores o f w.0 }

-- A server that takes the spec and the metadata of every update, and the status of status updates.
unfoldable pub phased_owner : {S : Type 0} → Resource S → Owner PhasedNames S
unfolding contains remove
phased_owner r = record {
  fetch_owner = λ namespace name w. (ok r, w);
  update = λ r' w. (ok (record r' { status = record (r'.status) { phase = w.1 } }), w);
  update_status = λ r' w. (ok r', (w.0, r'.status.phase));
  contains_finalizer = contains;
  add_finalizer = λ name names. name ∷ names;
  remove_finalizer = remove;
  marshal = λ spec. ok (codes "spec");
  unmarshal = λ json. ok r.spec;
  error_text = λ e. codes "failed";
  now = λ w. 7;
}

pub phased_owner-Lawful :
    {S : Type 0} (r : Resource S) (namespace owner : Text)
    → OwnerLawful phased_store S
        (phased_owner r)
        namespace
        owner
        (phased_store-Lawful namespace owner)
unfolding phased_owner phased_store-Lawful
phased_owner-Lawful r namespace owner = record {
  update_keeps = λ r' w k n. refl;
  status_keeps = λ r' w k n. refl;
  status_meta = λ r' r'' w e. sym (ap (λ x. x.meta) (ok-injective e));
}

pub phased_owner-returns :
    {S : Type 0} (r : Resource S) → ReturnsLawful phased_store (phased_owner r)
unfolding phased_owner
phased_owner-returns r = record {
  update_identity = λ r1 r2 w e.
      let same = ok-injective e in
      (sym (ap (λ x. x.meta.name) same), sym (ap (λ x. x.meta.namespace) same));
  status_spec = λ r1 r2 w e. sym (ap (λ x. x.spec) (ok-injective e));
  update_spec = λ r1 r2 w e. sym (ap (λ x. x.spec) (ok-injective e));
}

-- The phase that the server holds.
abbrev pub held : PhasedNames → Phase
held w = w.1

pub phased_owner-status :
    {S : Type 0} (r : Resource S) → StatusLawful phased_store (phased_owner r) phased_objects held
unfolding phased_owner
phased_owner-status r = record {
  update_returns = λ r1 r2 w e. sym (ap (λ x. x.status.phase) (ok-injective e));
  status_returns = λ r1 r2 w e. sym (ap (λ x. x.status.phase) (ok-injective e));
  status_holds = λ r1 r2 w e. refl;
  object_holds = λ x f w. refl;
}
