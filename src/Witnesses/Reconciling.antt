-- ===== src/Witnesses/Reconciling.antt =====
-- Reconciliations against the concrete store.
use osrm_operator.Base.{[], ◌∷◌, ◌≡◌, inr, refl, Result, ok, err, panic, sym, ap, if◌then◌else◌}
use osrm_operator.Text.{Text, codes, text_eq, trim_suffix, join, split, last}
use osrm_operator.Text.Decimal.{atoi, scan, scan_digit, itoa, digits, parse_bool}
use osrm_operator.Dict.{contains, lookup, insert}
use osrm_operator.Kube.{ObjectMeta, Kind, object_kind, object_meta}
use osrm_operator.Api.{workers_redeployed, Resource, OsrmCluster, OsrmInstance, child_resource_name}
use osrm_operator.Api.Conditions.{set_condition}
use osrm_operator.Builders.{
  built_name, new_osrm_resource_builder, resource_builders_for_phase,
  workers_deployed_phase_builders, deployed_builders,
}
use osrm_operator.Contents.{Environment}
use osrm_operator.Children.{
  get_profiles_deployments, fetch_deployments, fetch, list_persistent_volume_claims, list_jobs,
}
use osrm_operator.Generation.{
  get_active_map_generation, get_resource_name_suffix, compute_future_map_generation, raise_highest,
}
use osrm_operator.Collection.{
  garbage_collection, collect_kinds, collect, sweep, collect_generations, read_active,
  expected_resources, profiles_expected, expected_generations,
}
use osrm_operator.Client.Lawful.{kind_eq}
use osrm_operator.Owner.{apply_last_spec_annotation, set_reconciliation_result, Owner, is_paused}
use osrm_operator.Owner.Outcomes.{OwnerLawful, Untouched}
use osrm_operator.Reconcile.{
  apply_builders, conclude, reject, ObjectStore, reconcile_resource, enter, set_phase,
}
use osrm_operator.Reconcile.Controllers.{cluster_controller, instance_controller}
use osrm_operator.Reconcile.Idle.{reconcile_cluster-IsIdle, reconcile_instance-IsIdle}
use osrm_operator.Reconcile.Success.{EndsWell, Applied, Concluded, enter-EndsWell}
use osrm_operator.Witnesses.{cluster, single}
use osrm_operator.Witnesses.Store.{
  Names, store, store-Lawful, store_get, store_list, store_delete, items, remove,
}
use osrm_operator.Witnesses.Collecting.{names, instance_names}

-- A server that takes every update of the resource as it is.
unfoldable pub owner_of : {S : Type 0} → Resource S → Owner Names S
unfolding contains remove
owner_of r = record {
  fetch_owner = λ namespace name w. (ok r, w);
  update = λ r' w. (ok r', w);
  update_status = λ r' w. (ok r', w);
  contains_finalizer = contains;
  add_finalizer = λ name names. name ∷ names;
  remove_finalizer = remove;
  marshal = λ spec. ok (codes "spec");
  unmarshal = λ json. ok r.spec;
  error_text = λ e. codes "failed";
  now = λ w. 7;
}

-- The first call that adopts an object adds the owner's name.
unfoldable pub environment : Environment
unfolding contains
environment = record {
  set_controller_reference = λ owner m. ok (record m {
    owners = if contains owner.name m.owners then m.owners else owner.name ∷ m.owners;
  });
  sha256_hex = λ t. t;
  iterate = λ m. m;
}

abbrev pub put : Names → Kind → Text → Names
put w j n = λ k. if kind_eq j k then (if contains n (w k) then w k else n ∷ w k) else w k

unfoldable pub objects : ObjectStore Names
unfolding environment contains
objects = record {
  environment = environment;
  iterate_at = λ w m. m;
  create_or_update = λ o f w. elim (f o) [
    | ok o' ↦ (ok tt, put w (object_kind o) (object_meta o).name)
    | err e ↦ (err e, w)
    | panic ↦ (panic, w)
  ];
}

-- The metadata of a result, to compare results by.
abbrev meta_or : {S : Type 0} → ObjectMeta → Result (Resource S) → ObjectMeta
meta_or m (ok r) = r.meta
meta_or m (err e) = m
meta_or m panic = m

pub owner-Lawful :
    {S : Type 0} (r : Resource S) (namespace owner : Text)
    → OwnerLawful store S (owner_of r) namespace owner (store-Lawful namespace owner)
unfolding owner_of
owner-Lawful r namespace owner = record {
  update_keeps = λ r' w k n. refl;
  status_keeps = λ r' w k n. refl;
  status_meta = λ r' r'' w e. ap (meta_or r'.meta) (sym e);
}

-- Both carry the pause annotation.
abbrev paused_meta : ObjectMeta → ObjectMeta
paused_meta m = record m {
  annotations = (codes "osrm.itayankri/operator.paused", codes "true") ∷ [];
}

abbrev paused_cluster : OsrmCluster
paused_cluster = let r = cluster workers_redeployed in record r { meta = paused_meta r.meta }

abbrev paused_instance : OsrmInstance
paused_instance = let r = single workers_redeployed in record r { meta = paused_meta r.meta }

reconcile_cluster-IsIdle_example :
    Untouched store
      (owner_of paused_cluster)
      (codes "maps")
      (codes "osm")
      (store-Lawful (codes "maps") (codes "osm"))
      (owner-Lawful paused_cluster (codes "maps") (codes "osm"))
      names
      (reconcile_resource store
        (owner_of paused_cluster)
        (cluster_controller store)
        objects
        (paused_cluster, names)).1
unfolding is_paused lookup text_eq parse_bool
reconcile_cluster-IsIdle_example =
    reconcile_cluster-IsIdle store (owner_of paused_cluster) objects paused_cluster
      (store-Lawful (codes "maps") (codes "osm"))
      (owner-Lawful paused_cluster (codes "maps") (codes "osm")) names (inr (inr refl))

reconcile_instance-IsIdle_example :
    Untouched store
      (owner_of paused_instance)
      (codes "maps")
      (codes "osm")
      (store-Lawful (codes "maps") (codes "osm"))
      (owner-Lawful paused_instance (codes "maps") (codes "osm"))
      instance_names
      (reconcile_resource store
        (owner_of paused_instance)
        (instance_controller store)
        objects
        (paused_instance, instance_names)).1
unfolding is_paused lookup text_eq parse_bool
reconcile_instance-IsIdle_example =
    reconcile_instance-IsIdle store (owner_of paused_instance) objects paused_instance
      (store-Lawful (codes "maps") (codes "osm"))
      (owner-Lawful paused_instance (codes "maps") (codes "osm")) instance_names (inr (inr refl))

abbrev pub running : OsrmCluster
running = cluster workers_redeployed

pub running-EndsWell :
    EndsWell
      (enter store
        (owner_of running)
        (cluster_controller store)
        objects
        []
        (codes "2")
        (codes "2")
        workers_redeployed
        (running, names)).0
unfolding enter set_phase apply_builders conclude reject apply_last_spec_annotation
    set_reconciliation_result set_condition insert cluster_controller owner_of objects
    new_osrm_resource_builder resource_builders_for_phase workers_deployed_phase_builders
    deployed_builders built_name garbage_collection collect_kinds collect sweep collect_generations
    read_active get_profiles_deployments fetch_deployments fetch list_persistent_volume_claims
    list_jobs expected_resources profiles_expected expected_generations child_resource_name
    trim_suffix join text_eq contains get_active_map_generation get_resource_name_suffix split last
    compute_future_map_generation raise_highest atoi scan scan_digit itoa digits store_get
    store_list store_delete items remove
running-EndsWell = refl

enter-EndsWell_example :
    let k = cluster_controller store in
    let o = owner_of running in
    (r : OsrmCluster) × (w : Names) × (w' : Names) × (set_phase store o k objects workers_redeployed
        (running, names)
      ≡ (ok tt, (r, w)))
    × Applied store o k objects [] r
        (k.builders_for (new_osrm_resource_builder r (codes "2") (codes "2")) workers_redeployed)
        w
        w'
    × Concluded store o k objects
        (r, w')
        (enter store o k objects [] (codes "2") (codes "2") workers_redeployed (running, names)).1
enter-EndsWell_example =
    enter-EndsWell store (owner_of running) (cluster_controller store) objects [] (codes "2")
      (codes "2") workers_redeployed (running, names) running-EndsWell
