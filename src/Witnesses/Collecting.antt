-- ===== src/Witnesses/Collecting.antt =====
-- Garbage collection on the concrete store.
use osrm_operator.Base.{true, [], ◌∷◌, ◌≡◌, refl, ok}
use osrm_operator.Text.{codes, text_eq, trim_suffix, join, split, last}
use osrm_operator.Text.Decimal.{atoi, scan, scan_digit, itoa, digits}
use osrm_operator.Dict.{contains}
use osrm_operator.Kube.{Kind}
use osrm_operator.Api.{workers_redeployed, redeploying_workers, child_resource_name}
use osrm_operator.Client.Lawful.{Lawful, owns}
use osrm_operator.Collection.{
  read_active, read_instance_active, garbage_collection, instance_garbage_collection,
  expected_resources, instance_expected_resources, collect_kinds, collect, sweep,
  collect_generations, profiles_expected, expected_generations, instance_expected_generations,
}
use osrm_operator.Children.{
  get_profiles_deployments, fetch_deployments, fetch, list_persistent_volume_claims, list_jobs,
  get_deployment,
}
use osrm_operator.Generation.{
  get_active_map_generation, get_instance_active_map_generation, get_resource_name_suffix,
  compute_future_map_generation, raise_highest,
}
use osrm_operator.Collection.Cluster.{IsLeft, garbage_collection-Keeps, garbage_collection_exact}
use osrm_operator.Collection.Instance.{
  IsLeftOfInstance, instance_garbage_collection-Keeps, instance_garbage_collection_exact,
}
use osrm_operator.Witnesses.{cluster, single}
use osrm_operator.Witnesses.Store.{
  Names, store, store-Lawful, store_get, store_list, store_delete, items, remove,
}

-- Claims and jobs of two generations, and deployments of which one has no profile any more.
abbrev pub names : Names
names Kind.claim =
    codes "osm-car-1" ∷ codes "osm-foot-1" ∷ codes "osm-car-2" ∷ codes "osm-foot-2" ∷ []
names Kind.job = codes "osm-car-1" ∷ codes "osm-car-2" ∷ []
names Kind.deployment = codes "osm" ∷ codes "osm-car" ∷ codes "osm-foot" ∷ codes "osm-bike" ∷ []
names Kind.config_map = codes "osm" ∷ []
names _ = codes "osm-car" ∷ codes "osm-bike" ∷ []

abbrev pub instance_names : Names
instance_names Kind.claim = codes "osm-1" ∷ codes "osm-2" ∷ []
instance_names Kind.job = codes "osm-1" ∷ []
instance_names _ = codes "osm" ∷ codes "osm-bike" ∷ []

abbrev laws : Lawful store (codes "maps") (codes "osm")
laws = store-Lawful (codes "maps") (codes "osm")

-- The run succeeds.
garbage_collection_run : (garbage_collection store (cluster workers_redeployed) names).0 ≡ ok tt
unfolding garbage_collection collect_kinds collect sweep collect_generations read_active
    get_profiles_deployments fetch_deployments fetch list_persistent_volume_claims list_jobs
    expected_resources profiles_expected expected_generations child_resource_name trim_suffix join
    text_eq contains get_active_map_generation get_resource_name_suffix split last
    compute_future_map_generation raise_highest atoi scan scan_digit itoa digits store_get
    store_list store_delete items remove
garbage_collection_run = refl

instance_garbage_collection_run :
    (instance_garbage_collection store (single redeploying_workers) instance_names).0 ≡ ok tt
unfolding instance_garbage_collection collect_kinds collect sweep collect_generations
    read_instance_active get_deployment fetch list_persistent_volume_claims list_jobs
    instance_expected_resources instance_expected_generations child_resource_name trim_suffix join
    text_eq contains get_instance_active_map_generation get_resource_name_suffix split last
    compute_future_map_generation raise_highest atoi scan scan_digit itoa digits store_get
    store_list store_delete items remove
instance_garbage_collection_run = refl

garbage_collection_exact_example :
    let r = cluster workers_redeployed in
    IsLeft laws
      (child_resource_name r.meta)
      r.spec
      r.status.phase
      (λ k n. owns laws names k n ≡ true)
      (garbage_collection store r names).1
garbage_collection_exact_example =
    garbage_collection_exact store (cluster workers_redeployed) laws names garbage_collection_run

garbage_collection-Keeps_example :
    laws.child
      (garbage_collection store (cluster workers_redeployed) names).1
      Kind.deployment
      (codes "osm-foot")
    ≡ laws.child names Kind.deployment (codes "osm-foot")
unfolding expected_resources profiles_expected child_resource_name trim_suffix join text_eq contains
garbage_collection-Keeps_example =
    garbage_collection-Keeps store (cluster workers_redeployed) laws names Kind.deployment
      (codes "osm-foot") refl refl

instance_garbage_collection_exact_example :
    let r = single redeploying_workers in
    IsLeftOfInstance laws
      (child_resource_name r.meta)
      r.spec
      r.status.phase
      (λ k n. owns laws instance_names k n ≡ true)
      (instance_garbage_collection store r instance_names).1
instance_garbage_collection_exact_example =
    instance_garbage_collection_exact store (single redeploying_workers) laws instance_names
      instance_garbage_collection_run

instance_garbage_collection-Keeps_example :
    laws.child
      (instance_garbage_collection store (single redeploying_workers) instance_names).1
      Kind.service
      (codes "osm")
    ≡ laws.child instance_names Kind.service (codes "osm")
unfolding instance_expected_resources child_resource_name trim_suffix join text_eq contains
instance_garbage_collection-Keeps_example =
    instance_garbage_collection-Keeps store (single redeploying_workers) laws instance_names
      Kind.service (codes "osm") refl refl

-- What is left: the claims and jobs of generation 2, and no child of the profile that is gone.
left_over :
    let w = (garbage_collection store (cluster workers_redeployed) names).1 in
    (w Kind.claim ≡ codes "osm-car-2" ∷ codes "osm-foot-2" ∷ [])
    × (w Kind.job ≡ codes "osm-car-2" ∷ [])
    × (w Kind.deployment ≡ codes "osm" ∷ codes "osm-car" ∷ codes "osm-foot" ∷ [])
unfolding garbage_collection collect_kinds collect sweep collect_generations read_active
    get_profiles_deployments fetch_deployments fetch list_persistent_volume_claims list_jobs
    expected_resources profiles_expected expected_generations child_resource_name trim_suffix join
    text_eq contains get_active_map_generation get_resource_name_suffix split last
    compute_future_map_generation raise_highest atoi scan scan_digit itoa digits store_get
    store_list store_delete items remove
left_over = (refl, refl, refl)
