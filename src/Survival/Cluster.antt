-- ===== src/Survival/Cluster.antt =====
-- The builders of a cluster's phase against its garbage collection.
use osrm_operator.Base.{
  List, [], ◌∷◌, Bool, true, false, ◌≡◌, inl, inr, refl, sym, All, All-append, Bool-cases,
  if◌then◌else◌,
}
use osrm_operator.Text.{Text, text_eq}
use osrm_operator.Text.Laws.{text_eq_sound}
use osrm_operator.Dict.{contains, contains-cons_self, contains-cons}
use osrm_operator.Kube.{ObjectMeta}
use osrm_operator.Api.{
  Phase, building_map, updating_map, redeploying_workers, deploying_workers, workers_deployed,
  workers_redeployed, deleting, empty, ProfileSpec, OsrmCluster, child_resource_name,
}
use osrm_operator.Api.Names.{child_resource_name_lem}
use osrm_operator.Generation.{get_next_map_generation}
use osrm_operator.Builders.{
  gateway_builders, Builder, map_building_phase_builders, map_updating_resource_builders,
  redeploying_workers_phase_builders, deploying_workers_phase_builders,
  workers_deployed_phase_builders, deployed_builders, resource_builders_for_phase, built_name,
}
use osrm_operator.Collection.{
  gateway_expected, expected_resources, keeps_future, expected_generations,
}
use osrm_operator.Survival.{
  IsExpected, profiles-IsExpected, contains-profiles_expected, IsKept, AreKept, map_builders-kept,
  redeploying-kept, deploying-kept, deployed-kept,
}

-- The name of the gateway's service and deployment, which their builders take from the cluster.
child_resource_name-nil : (m : ObjectMeta) → child_resource_name m [] [] ≡ m.name
child_resource_name-nil m = child_resource_name_lem m [] [] tt tt

module _ (m : ObjectMeta) (phase : Phase) (active future : Text) where
  -- The claims and jobs of a generation are kept for all profiles.
  abbrev AreNamed : Text → List ProfileSpec → List Text → Type 0
  AreNamed g ps keys = All (λ p. contains (child_resource_name m p.name g) keys ≡ true) ps

  named-more :
      (g n : Text) (ps : List ProfileSpec) (keys : List Text)
      → AreNamed g ps keys
      → AreNamed g ps (n ∷ keys)
  named-more g n [] keys h = tt
  named-more g n (p ∷ ps) keys (h, hs) =
      (contains-cons (child_resource_name m p.name g) n keys h, named-more g n ps keys hs)

  named-step :
      (g n future_name : Text) (b : Bool) (ps : List ProfileSpec) (keys : List Text)
      → AreNamed g ps keys
      → AreNamed g ps (n ∷ (if b then future_name ∷ keys else keys))
  named-step g n f true ps keys h = named-more g n ps (f ∷ keys) (named-more g f ps keys h)
  named-step g n f false ps keys h = named-more g n ps keys h

  active-named :
      (ps : List ProfileSpec) → AreNamed active ps (expected_generations m phase active future ps)
  unfolding expected_generations
  active-named [] = tt
  active-named (p ∷ ps) = (
    contains-cons_self (child_resource_name m p.name active) _,
    named-step active (child_resource_name m p.name active) (child_resource_name m p.name future)
        (keeps_future phase active future) ps (expected_generations m phase active future ps)
        (active-named ps),
  )

  future-named :
      keeps_future phase active future ≡ true
      → (ps : List ProfileSpec) → AreNamed future ps (expected_generations m phase active future ps)
  unfolding expected_generations
  future-named k [] = tt
  future-named k (p ∷ ps) =
      let rest = expected_generations m phase active future ps in
      let name = child_resource_name m p.name future in
      let active_name = child_resource_name m p.name active in
      (
        rw k (contains-cons name active_name (name ∷ rest) (contains-cons_self name rest)),
        named-step future active_name name (keeps_future phase active future) ps rest
            (future-named k ps),
      )

module _ (m : ObjectMeta) (keys generations : List Text) where
  gateway-kept :
      (ps : List ProfileSpec)
      → (rest : contains (child_resource_name m [] []) (gateway_expected m ps) ≡ true
          → contains (child_resource_name m [] []) keys ≡ true)
      → AreKept m keys generations (gateway_builders ps)
  unfolding built_name
  gateway-kept [] rest = tt
  gateway-kept (p ∷ ps) rest =
      let name = child_resource_name m [] [] in
      let kept = rest (contains-cons_self name (name ∷ name ∷ [])) in
      let own : contains m.name keys ≡ true = rw (sym (child_resource_name-nil m)) kept in
      (kept, (own, (own, tt)))

module _ (r : OsrmCluster) (active future : Text) where
  abbrev pub builder_of : Builder
  builder_of = record { resource = r; map_generation = active; future_map_generation = future }

  abbrev pub generations_of : List Text
  generations_of = expected_generations r.meta r.status.phase active future r.spec.profiles

  abbrev pub AreBuildersKept : Type 0
  AreBuildersKept =
      All (IsKept r.meta (expected_resources r) generations_of)
        (resource_builders_for_phase builder_of r.status.phase)

  spec-IsExpected : All (IsExpected r.meta (expected_resources r)) r.spec.profiles
  unfolding expected_resources
  spec-IsExpected =
      profiles-IsExpected r.meta r.spec.profiles (gateway_expected r.meta r.spec.profiles)

  updating-named :
      r.status.phase ≡ updating_map
      → All
          (λ p. contains (child_resource_name r.meta p.name future) generations_of ≡ true)
          r.spec.profiles
  updating-named e = elim (Bool-cases (text_eq active future)) [
    | inl same ↦
        rw (sym (text_eq_sound active future same))
          (active-named r.meta r.status.phase active active r.spec.profiles)
    | inr other ↦
        future-named r.meta r.status.phase active future (rw (other, e) refl) r.spec.profiles
  ]

  workers-kept :
      AreKept r.meta
        (expected_resources r)
        generations_of
        (workers_deployed_phase_builders builder_of)
  unfolding workers_deployed_phase_builders expected_resources
  workers-kept =
      All-append (IsKept r.meta (expected_resources r) generations_of)
        (deployed_builders active r.spec.profiles) (gateway_builders r.spec.profiles)
        (deployed-kept r.meta (expected_resources r) generations_of active r.spec.profiles
          spec-IsExpected)
        (gateway-kept r.meta (expected_resources r) generations_of r.spec.profiles (
          contains-profiles_expected r.meta (child_resource_name r.meta [] []) r.spec.profiles
            (gateway_expected r.meta r.spec.profiles)))

  pub kept-in :
      (r.status.phase ≡ updating_map → future ≡ get_next_map_generation active)
      → (phase : Phase) → r.status.phase ≡ phase
      → AreKept r.meta
          (expected_resources r)
          generations_of
          (resource_builders_for_phase builder_of phase)
  unfolding resource_builders_for_phase map_building_phase_builders map_updating_resource_builders
      redeploying_workers_phase_builders deploying_workers_phase_builders
  kept-in next building_map e =
      map_builders-kept r.meta (expected_resources r) generations_of active r.spec.profiles
        (active-named r.meta r.status.phase active future r.spec.profiles)
  kept-in next updating_map e = rw (sym (next e)) (
      map_builders-kept r.meta (expected_resources r) generations_of future r.spec.profiles
        (updating-named e))
  kept-in next redeploying_workers e =
      redeploying-kept r.meta (expected_resources r) generations_of future r.spec.profiles
        spec-IsExpected
  kept-in next deploying_workers e =
      deploying-kept r.meta (expected_resources r) generations_of active r.spec.profiles
        spec-IsExpected
  kept-in next workers_deployed e = workers-kept
  kept-in next workers_redeployed e = workers-kept
  kept-in next deleting e = tt
  kept-in next empty e = tt

  -- In every phase, each object that the builders of the phase build is one that garbage collection
  -- keeps, where the collection reads the generations that the builders were given and, while the
  -- map is being updated, the future generation is the one after the active.
  pub resource_builders_for_phase-kept :
      (r.status.phase ≡ updating_map → future ≡ get_next_map_generation active) → AreBuildersKept
  resource_builders_for_phase-kept next = kept-in next r.status.phase refl
