-- ===== src/Witnesses/InstanceRealising.antt =====
-- A reconciliation of a concrete instance, whose workers serve the map of generation 2.
use osrm_operator.Base.{[], ◌⊎◌, true, ◌≡◌, refl, some}
use osrm_operator.Base.Int.{pos}
use osrm_operator.Text.{Text, codes, text_eq, trim_suffix, join, split, last}
use osrm_operator.Text.Decimal.{atoi, scan, scan_digit, itoa, digits}
use osrm_operator.Dict.{contains, insert}
use osrm_operator.Api.{workers_redeployed, redeploying_workers, OsrmInstance, child_resource_name}
use osrm_operator.Api.Conditions.{set_condition}
use osrm_operator.Builders.{built_name, new_osrm_resource_builder}
use osrm_operator.Builders.Instance.{
  instance_builders_for_phase, instance_workers_deployed_phase_builders,
}
use osrm_operator.Children.{fetch, get_deployment, list_persistent_volume_claims, list_jobs}
use osrm_operator.Generation.{
  get_instance_active_map_generation, get_resource_name_suffix, compute_future_map_generation,
  raise_highest,
}
use osrm_operator.Collection.{
  instance_garbage_collection, collect_kinds, collect, sweep, collect_generations,
  read_instance_active, instance_expected_resources, instance_expected_generations,
}
use osrm_operator.Owner.{apply_last_spec_annotation, set_reconciliation_result}
use osrm_operator.Reconcile.{apply_builders, conclude, reject, enter, set_phase}
use osrm_operator.Reconcile.Controllers.{instance_controller}
use osrm_operator.Reconcile.Success.{EndsWell}
use osrm_operator.Client.Lawful.{owns}
use osrm_operator.Collection.Instance.{IsLeftOfInstance}
use osrm_operator.Reconcile.Realised.Stored.{IsBuilt}
use osrm_operator.Reconcile.Realised.Instance.{enter_instance-Refines}
use osrm_operator.Witnesses.Phased.{
  PhasedNames, phased_store, phased_store-Lawful, phased_objects, phased_objects-Lawful,
  phased_owner, phased_owner-Lawful, phased_owner-returns, phased_owner-status, held,
}
use osrm_operator.Witnesses.{single, instance_spec}
use osrm_operator.Witnesses.Store.{store_get, store_list, store_delete, items, remove}
use osrm_operator.Witnesses.Collecting.{instance_names}
use osrm_operator.Witnesses.Reconciling.{objects}
use osrm_operator.Witnesses.Realising.{objects-reference}

-- Its autoscaler has a limit.
abbrev running : OsrmInstance
running = record (single redeploying_workers) {
  spec = record instance_spec { max_replicas = some (pos 4) };
}

abbrev before : PhasedNames
before = (instance_names, redeploying_workers)

running-EndsWell :
    EndsWell
      (enter phased_store
        (phased_owner running)
        (instance_controller phased_store)
        phased_objects
        []
        (codes "2")
        (codes "2")
        workers_redeployed
        (running, before)).0
unfolding enter set_phase apply_builders conclude reject apply_last_spec_annotation
    set_reconciliation_result set_condition insert instance_controller phased_owner objects
    new_osrm_resource_builder instance_builders_for_phase instance_workers_deployed_phase_builders
    built_name instance_garbage_collection collect_kinds collect sweep collect_generations
    read_instance_active get_deployment fetch list_persistent_volume_claims list_jobs
    instance_expected_resources instance_expected_generations child_resource_name trim_suffix join
    text_eq contains get_instance_active_map_generation get_resource_name_suffix split last
    compute_future_map_generation raise_highest atoi scan scan_digit itoa digits store_get
    store_list store_delete items remove
running-EndsWell = refl

abbrev maps : Text
maps = codes "maps"

abbrev osm : Text
osm = codes "osm"

enter_instance-Refines_example :
    let laws = phased_store-Lawful maps osm in
    IsLeftOfInstance laws
      (child_resource_name running.meta)
      running.spec
      workers_redeployed
      (λ k n.
        (owns laws before k n ≡ true)
        ⊎ IsBuilt running.meta
            (instance_builders_for_phase
              (new_osrm_resource_builder running (codes "2") (codes "2"))
              workers_redeployed)
            k
            n)
      (enter phased_store
        (phased_owner running)
        (instance_controller phased_store)
        phased_objects
        []
        (codes "2")
        (codes "2")
        workers_redeployed
        (running, before)).1.1
enter_instance-Refines_example =
    enter_instance-Refines phased_store (phased_owner running) phased_objects running
      (phased_store-Lawful maps osm) (phased_owner-Lawful running maps osm)
      (phased_owner-returns running) (phased_objects-Lawful maps osm)
      (objects-reference running.meta) held (phased_owner-status running) [] (codes "2") (codes "2")
      workers_redeployed before refl running-EndsWell
