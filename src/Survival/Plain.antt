-- ===== src/Survival/Plain.antt =====
-- The objects whose kinds bear no generation: garbage collection keeps those that the builders of a
-- cluster build, whatever the generations are.
use osrm_operator.Base.{List, [], ◌∷◌, false, true, ◌≡◌, refl, ap, ◌++◌, All}
use osrm_operator.Text.{Text}
use osrm_operator.Dict.{contains}
use osrm_operator.Api.{
  Phase, building_map, updating_map, redeploying_workers, deploying_workers, workers_deployed,
  workers_redeployed, deleting, empty, ProfileSpec, OsrmCluster, child_resource_name,
}
use osrm_operator.Builders.{
  ResourceBuilder, built_kind, built_name, map_builders, map_building_phase_builders,
  map_updating_resource_builders, resource_builders_for_phase, persistent_volume_claim,
  redeploying_workers_phase_builders, deploying_workers_phase_builders,
  workers_deployed_phase_builders, redeploying_builders, deploying_builders, deployed_builders,
  gateway_builders,
}
use osrm_operator.Kube.{ObjectMeta}
use osrm_operator.Generation.{get_next_map_generation}
use osrm_operator.Collection.{expected_resources}
use osrm_operator.Collection.Generations.{is_generation_kind}
use osrm_operator.Survival.{IsKept, AreKept}
use osrm_operator.Survival.Cluster.{builder_of, generations_of, kept-in}

module _ (r : OsrmCluster) (active future : Text) where
  -- A builder of a kind without generation builds an object of an expected name.
  abbrev pub IsPlainKept : ResourceBuilder → Type 0
  IsPlainKept b =
      is_generation_kind (built_kind b) ≡ false
      → contains (built_name r.meta b) (expected_resources r) ≡ true

  IsKept-plain :
      (generations : List Text) (b : ResourceBuilder)
      → IsKept r.meta (expected_resources r) generations b
      → IsPlainKept b
  IsKept-plain generations b h plain = rw plain at h

  AreKept-plain :
      (generations : List Text) (bs : List ResourceBuilder)
      → AreKept r.meta (expected_resources r) generations bs
      → All IsPlainKept bs
  AreKept-plain generations [] h = tt
  AreKept-plain generations (b ∷ bs) (h, hs) =
      (IsKept-plain generations b h, AreKept-plain generations bs hs)

  map_builders-plain : (g : Text) (ps : List ProfileSpec) → All IsPlainKept (map_builders g ps)
  unfolding map_builders
  map_builders-plain g [] = tt
  map_builders-plain g (p ∷ ps) = (λ h. absurd (cc), (λ h. absurd (cc), map_builders-plain g ps))

  -- The cluster as it is in the phase.
  abbrev in_phase : Phase → OsrmCluster
  in_phase phase = record r { status = record (r.status) { phase = phase } }

  -- In every phase, an object that the builders build and whose kind bears no generation has an
  -- expected name.
  pub resource_builders_for_phase-plain :
      (phase : Phase)
      → All IsPlainKept (resource_builders_for_phase (builder_of r active future) phase)
  unfolding resource_builders_for_phase map_building_phase_builders map_updating_resource_builders
      redeploying_workers_phase_builders deploying_workers_phase_builders
      workers_deployed_phase_builders expected_resources
  resource_builders_for_phase-plain building_map = map_builders-plain active r.spec.profiles
  resource_builders_for_phase-plain updating_map = map_builders-plain _ r.spec.profiles
  resource_builders_for_phase-plain phase =
      AreKept-plain (generations_of (in_phase phase) active future)
        (resource_builders_for_phase (builder_of r active future) phase)
        (kept-in (in_phase phase) active future (λ u. absurd (cc)) phase refl)

  -- The builders of two clusters of one spec are the same.
  pub resource_builders_for_phase-spec :
      (r' : OsrmCluster)
      → r.spec ≡ r'.spec
      → (phase : Phase)
      → resource_builders_for_phase (builder_of r active future) phase
        ≡ resource_builders_for_phase (builder_of r' active future) phase
  unfolding resource_builders_for_phase map_building_phase_builders map_updating_resource_builders
      redeploying_workers_phase_builders deploying_workers_phase_builders
      workers_deployed_phase_builders
  resource_builders_for_phase-spec r' e building_map =
      ap (λ spec. map_builders active spec.profiles) e
  resource_builders_for_phase-spec r' e updating_map =
      ap (λ spec. map_builders (get_next_map_generation active) spec.profiles) e
  resource_builders_for_phase-spec r' e redeploying_workers =
      ap (λ spec. redeploying_builders future spec.profiles) e
  resource_builders_for_phase-spec r' e deploying_workers =
      ap (λ spec. deploying_builders active spec.profiles) e
  resource_builders_for_phase-spec r' e workers_deployed =
      ap (λ spec. deployed_builders active spec.profiles ++ gateway_builders spec.profiles) e
  resource_builders_for_phase-spec r' e workers_redeployed =
      ap (λ spec. deployed_builders active spec.profiles ++ gateway_builders spec.profiles) e
  resource_builders_for_phase-spec r' e deleting = refl
  resource_builders_for_phase-spec r' e empty = refl

-- What is built for two resources of one name has the same name.
pub built_name-same :
    (m m' : ObjectMeta) (b : ResourceBuilder) → m.name ≡ m'.name → built_name m b ≡ built_name m' b
unfolding built_name child_resource_name
built_name-same m m' (persistent_volume_claim p g) e = rw e refl
built_name-same m m' b e = rw e refl
