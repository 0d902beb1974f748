-- ===== src/Witnesses/Refining.antt =====
-- A reconciliation of a cluster that ends the redeployment of its workers, on the concrete store.
use osrm_operator.Base.{[], ◌≡◌, ◌⊎◌, true, refl}
use osrm_operator.Text.{Text, codes, text_eq, trim_suffix, join, split, last}
use osrm_operator.Text.Decimal.{atoi, scan, scan_digit, itoa, digits}
use osrm_operator.Dict.{contains, insert}
use osrm_operator.Api.{workers_redeployed, redeploying_workers, OsrmCluster, child_resource_name}
use osrm_operator.Api.Conditions.{set_condition}
use osrm_operator.Builders.{
  built_name, new_osrm_resource_builder, resource_builders_for_phase,
  workers_deployed_phase_builders, deployed_builders,
}
use osrm_operator.Children.{
  get_profiles_deployments, fetch_deployments, fetch, list_persistent_volume_claims, list_jobs,
}
use osrm_operator.Client.Lawful.{owns}
use osrm_operator.Collection.Cluster.{IsLeft}
use osrm_operator.Reconcile.Realised.Stored.{IsBuilt}
use osrm_operator.Reconcile.Realised.Exact.{enter-Refines}
use osrm_operator.Generation.{
  get_active_map_generation, get_resource_name_suffix, compute_future_map_generation, raise_highest,
}
use osrm_operator.Collection.{
  garbage_collection, collect_kinds, collect, sweep, collect_generations, read_active,
  expected_resources, profiles_expected, expected_generations,
}
use osrm_operator.Owner.{apply_last_spec_annotation, set_reconciliation_result}
use osrm_operator.Reconcile.{apply_builders, conclude, reject, enter, set_phase}
use osrm_operator.Reconcile.Controllers.{cluster_controller}
use osrm_operator.Reconcile.Success.{EndsWell}
use osrm_operator.Witnesses.{cluster}
use osrm_operator.Witnesses.Store.{store_get, store_list, store_delete, items, remove}
use osrm_operator.Witnesses.Collecting.{names}
use osrm_operator.Witnesses.Reconciling.{objects}
use osrm_operator.Witnesses.Realising.{objects-reference}
use osrm_operator.Witnesses.Phased.{
  PhasedNames, phased_store, phased_store-Lawful, phased_objects, phased_objects-Lawful,
  phased_owner, phased_owner-Lawful, phased_owner-returns, phased_owner-status, held,
}

abbrev redeploying : OsrmCluster
redeploying = cluster redeploying_workers

abbrev maps : Text
maps = codes "maps"

abbrev osm : Text
osm = codes "osm"

abbrev before : PhasedNames
before = (names, redeploying_workers)

redeploying-EndsWell :
    EndsWell
      (enter phased_store
        (phased_owner redeploying)
        (cluster_controller phased_store)
        phased_objects
        []
        (codes "2")
        (codes "2")
        workers_redeployed
        (redeploying, before)).0
unfolding enter set_phase apply_builders conclude reject apply_last_spec_annotation
    set_reconciliation_result set_condition insert cluster_controller phased_owner objects
    new_osrm_resource_builder resource_builders_for_phase workers_deployed_phase_builders
    deployed_builders built_name garbage_collection collect_kinds collect sweep collect_generations
    read_active get_profiles_deployments fetch_deployments fetch list_persistent_volume_claims
    list_jobs expected_resources profiles_expected expected_generations child_resource_name
    trim_suffix join text_eq contains get_active_map_generation get_resource_name_suffix split last
    compute_future_map_generation raise_highest atoi scan scan_digit itoa digits store_get
    store_list store_delete items remove
redeploying-EndsWell = refl

enter-Refines_example :
    let laws = phased_store-Lawful maps osm in
    IsLeft laws
      (child_resource_name redeploying.meta)
      redeploying.spec
      workers_redeployed
      (λ k n.
        (owns laws before k n ≡ true)
        ⊎ IsBuilt redeploying.meta
            (resource_builders_for_phase
              (new_osrm_resource_builder redeploying (codes "2") (codes "2"))
              workers_redeployed)
            k
            n)
      (enter phased_store
        (phased_owner redeploying)
        (cluster_controller phased_store)
        phased_objects
        []
        (codes "2")
        (codes "2")
        workers_redeployed
        (redeploying, before)).1.1
enter-Refines_example =
    enter-Refines phased_store (phased_owner redeploying) phased_objects redeploying
      (phased_store-Lawful maps osm) (phased_owner-Lawful redeploying maps osm)
      (phased_owner-returns redeploying) (phased_objects-Lawful maps osm)
      (objects-reference redeploying.meta) held (phased_owner-status redeploying) [] (codes "2")
      (codes "2") workers_redeployed before refl redeploying-EndsWell
