-- ===== src/Progress/Stages.antt =====
-- The phase that is found in each stage of an update, and what the builders of that phase build.
use osrm_operator.Base.{
  ℕ, ◌+◌, ◌≤◌, List, [], ◌∷◌, ◌≡◌, ◌≢◌, ◌⊎◌, inl, inr, refl, sym, ◌∙◌, ap, arith, All, All-map, Any,
}
use osrm_operator.Base.Int.{ℤ, pos, negsuc, ◌<ℤ◌}
use osrm_operator.Text.{Text}
use osrm_operator.Text.Laws.{text_eq_ne}
use osrm_operator.Text.Decimal.{itoa, atoi, max_int64}
use osrm_operator.Text.Decimal.RoundTrip.{atoi-itoa, itoa-ne-nil}
use osrm_operator.Kube.{Kind}
use osrm_operator.Api.{
  Phase, updating_map, redeploying_workers, workers_redeployed, ProfileSpec, OsrmCluster,
}
use osrm_operator.Api.Names.{IsComponent}
use osrm_operator.Generation.Laws.{get_next_map_generation_lem}
use osrm_operator.Phases.Cluster.{determine_phase_iff}
use osrm_operator.Builders.{
  ResourceBuilder, persistent_volume_claim, deployment, built_kind, new_osrm_resource_builder,
  resource_builders_for_phase, map_builders, map_updating_resource_builders, redeploying_builders,
  redeploying_workers_phase_builders, deployed_builders, workers_deployed_phase_builders,
}
use osrm_operator.Builders.Plan.{IsPlanned, resource_builders_for_phase-IsPlanned}
use osrm_operator.Contents.{Environment}
use osrm_operator.Progress.{
  Seen, seen_phase, IsBuilt, AreServing, IsOutdated, IsUpdating, IsUpdated,
}

abbrev magnitude : ℤ → ℕ
magnitude (pos n) = n
magnitude (negsuc n) = n

itoa-differ : (n : ℕ) → n + 1 ≤ max_int64 → itoa (pos n) ≢ itoa (pos (n + 1))
itoa-differ n fits h =
    let same : n ≡ n + 1 =
      ap (λ x. magnitude x.0)
        (sym (atoi-itoa n (omega arith)) ∙ ap atoi h ∙ atoi-itoa (n + 1) fits) in
    omega arith

-- The phases that build no claim and start workers.
abbrev pub Deploys : Phase → Type 0
Deploys p = (p ≡ redeploying_workers) ⊎ (p ≡ workers_redeployed)

claimless_planned :
    (phase : Phase) (active future : Text) (b : ResourceBuilder)
    → Deploys phase
    → IsPlanned phase active future b
    → built_kind b ≢ Kind.claim
claimless_planned phase active future (persistent_volume_claim p g) deploys planned h =
    elim deploys [
      | inl d ↦ elim planned [ inl (b, g') ↦ cc | inr (u, g') ↦ cc ]
      | inr d ↦ elim planned [ inl (b, g') ↦ cc | inr (u, g') ↦ cc ]
    ]
claimless_planned phase active future b deploys planned h = cc

module _ (e : Environment) (r : OsrmCluster) (n : ℕ) (positive : 1 ≤ n) (fits : n + 1 ≤ max_int64)
    (p : ProfileSpec) (ps : List ProfileSpec) (first : r.spec.profiles ≡ p ∷ ps)
    (usable : All (λ q. IsComponent q.name) r.spec.profiles) where
  abbrev pub this : Text
  this = itoa (pos n)

  abbrev pub next : Text
  next = itoa (pos (n + 1))

  profiles-ne-nil : r.spec.profiles ≢ []
  profiles-ne-nil h = cc

  next-later : pos 1 <ℤ (atoi next).0
  next-later = rw (atoi-itoa (n + 1) fits) (omega arith)

  pub outdated-phase : (s : Seen) → IsOutdated e r n s → seen_phase e r s this this ≡ updating_map
  outdated-phase s h =
      (determine_phase_iff r s.old_spec this this s.claims s.jobs s.deployments updating_map).1
        (profiles-ne-nil, h.map_built, inl h.changed)

  pub building-phase :
      (s : Seen)
      → IsUpdating e r n s
      → ¬ IsBuilt e r s next
      → seen_phase e r s this next ≡ updating_map
  building-phase s h unbuilt =
      (determine_phase_iff r s.old_spec this next s.claims s.jobs s.deployments updating_map).1
        (profiles-ne-nil, h.map_built, inr unbuilt)

  pub built-phase :
      (s : Seen)
      → IsUpdating e r n s
      → IsBuilt e r s next
      → seen_phase e r s this next ≡ redeploying_workers
  built-phase s h built =
      (determine_phase_iff r s.old_spec this next s.claims s.jobs s.deployments
          redeploying_workers).1
        (inl (profiles-ne-nil, h.map_built, h.same, built, itoa-differ n fits))

  pub served-phase :
      (s : Seen)
      → IsUpdated e r n s
      → AreServing e r s
      → seen_phase e r s next next ≡ workers_redeployed
  served-phase s h serving =
      (determine_phase_iff r s.old_spec next next s.claims s.jobs s.deployments
          workers_redeployed).1
        ((profiles-ne-nil, h.map_built, h.same, h.map_built, refl), serving, next-later)

  pub unserved-phase :
      (s : Seen)
      → IsUpdated e r n s
      → ¬ AreServing e r s
      → seen_phase e r s next next ≡ redeploying_workers
  unserved-phase s h unserving =
      (determine_phase_iff r s.old_spec next next s.claims s.jobs s.deployments
          redeploying_workers).1
        (inr ((profiles-ne-nil, h.map_built, h.same, h.map_built, refl), unserving, next-later))

  -- What is built while the map is updated, and that the workers are written afterwards.
  pub updating-builders :
      (future : Text)
      → resource_builders_for_phase (new_osrm_resource_builder r this future) updating_map
        ≡ map_builders next r.spec.profiles
  unfolding resource_builders_for_phase map_updating_resource_builders new_osrm_resource_builder
      atoi
  updating-builders future = rw (text_eq_ne this [] (itoa-ne-nil n)) (
      ap (λ g. map_builders g r.spec.profiles)
        (get_next_map_generation_lem n [] (omega arith) refl).0)

  pub redeploying-there :
      (active : Text)
      → Any
          (λ b. b ≡ deployment p next)
          (resource_builders_for_phase
            (new_osrm_resource_builder r active next)
            redeploying_workers)
  unfolding resource_builders_for_phase redeploying_workers_phase_builders new_osrm_resource_builder
      redeploying_builders
  redeploying-there active = rw (text_eq_ne next [] (itoa-ne-nil (n + 1)), first) (inl refl)

  pub redeployed-there :
      Any
        (λ b. b ≡ deployment p next)
        (resource_builders_for_phase (new_osrm_resource_builder r next next) workers_redeployed)
  unfolding resource_builders_for_phase workers_deployed_phase_builders new_osrm_resource_builder
      deployed_builders
  redeployed-there = rw (text_eq_ne next [] (itoa-ne-nil (n + 1)), first) (inr (inr (inl refl)))

  pub claimless :
      (active future : Text) (phase : Phase)
      → Deploys phase
      → All
          (λ b. built_kind b ≢ Kind.claim)
          (resource_builders_for_phase (new_osrm_resource_builder r active future) phase)
  claimless active future phase deploys =
      let b = new_osrm_resource_builder r active future in
      All-map (resource_builders_for_phase b phase)
        (λ x. claimless_planned phase b.map_generation b.future_map_generation x deploys)
        (resource_builders_for_phase-IsPlanned b phase)
