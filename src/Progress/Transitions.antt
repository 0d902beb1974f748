-- ===== src/Progress/Transitions.antt =====
-- The stage of an update that a round leads to.
use osrm_operator.Base.{ℕ, ◌+◌, ◌≤◌, List, [], ◌∷◌, ◌≡◌, inl, inr, refl, arith, All, Bool-cases}
use mathlib.Core.Path.{subst}
use osrm_operator.Base.Int.{pos}
use osrm_operator.Text.{Text}
use osrm_operator.Text.Decimal.{itoa, max_int64}
use osrm_operator.Api.{
  Phase, updating_map, redeploying_workers, workers_redeployed, ProfileSpec, OsrmCluster,
}
use osrm_operator.Api.Names.{IsComponent}
use osrm_operator.Phases.{profile_names, all_workers_deployed}
use osrm_operator.Phases.Ready.{all_workers_deployed_sound, all_workers_deployed_complete}
use osrm_operator.Builders.{new_osrm_resource_builder, resource_builders_for_phase, map_builders}
use osrm_operator.Contents.{Environment}
use osrm_operator.Progress.{
  Seen, seen_phase, IsBuilt, AreServing, Realises, Round, IsOutdated, IsUpdating, IsUpdated,
}
use osrm_operator.Progress.Numbering.{compute_future_map_generation-newest}
use osrm_operator.Progress.Steps.{Round-Realises, numbered-more, built-IsUpdating, built-IsUpdated}
use osrm_operator.Progress.Stages.{
  outdated-phase, building-phase, built-phase, served-phase, unserved-phase, updating-builders,
  redeploying-there, redeployed-there, claimless,
}

module _ (e : Environment) (r : OsrmCluster) (n : ℕ) (positive : 1 ≤ n) (fits : n + 1 ≤ max_int64)
    (p : ProfileSpec) (ps : List ProfileSpec) (first : r.spec.profiles ≡ p ∷ ps)
    (usable : All (λ q. IsComponent q.name) r.spec.profiles) where
  abbrev this : Text
  this = itoa (pos n)

  abbrev next : Text
  next = itoa (pos (n + 1))

  -- The round realises the builders of the phase.
  realised-in :
      (s s' : Seen) (active future : Text) (phase : Phase)
      → seen_phase e r s active future ≡ phase
      → Realises e r s s' (
          resource_builders_for_phase
            (new_osrm_resource_builder r active future)
            (seen_phase e r s active future))
      → Realises e r s s'
          (resource_builders_for_phase (new_osrm_resource_builder r active future) phase)
  realised-in s s' active future phase found =
      subst
        (λ q.
          Realises e r s s'
            (resource_builders_for_phase (new_osrm_resource_builder r active future) q))
        found

  updating-round :
      (s s' : Seen) (future : Text)
      → seen_phase e r s this future ≡ updating_map
      → Realises e r s s' (
          resource_builders_for_phase
            (new_osrm_resource_builder r this future)
            (seen_phase e r s this future))
      → Realises e r s s' (map_builders next r.spec.profiles)
  updating-round s s' future found realised =
      subst (Realises e r s s') ((updating-builders e r n positive fits p ps first usable) future)
        (realised-in s s' this future updating_map found realised)

  pub IsOutdated-step : (s s' : Seen) → IsOutdated e r n s → Round e r s s' → IsUpdating e r n s'
  IsOutdated-step s s' h step =
      let newest =
        compute_future_map_generation-newest r.meta n s.claims positive h.numbered h.newest in
      let realised = Round-Realises e r s s' this this h.serves newest step in
      built-IsUpdating e r n fits p ps first usable s s'
        (updating-round s s' this ((outdated-phase e r n positive fits p ps first usable) s h)
          realised)
        h.serves (numbered-more e r n s.claims h.numbered) h.map_built

  pub IsUpdating-step :
      (s s' : Seen)
      → IsUpdating e r n s
      → ¬ IsBuilt e r s next
      → Round e r s s'
      → IsUpdating e r n s'
  IsUpdating-step s s' h unbuilt step =
      let newest =
        compute_future_map_generation-newest r.meta (n + 1) s.claims (omega arith) h.numbered
          h.newest in
      let realised = Round-Realises e r s s' this next h.serves newest step in
      built-IsUpdating e r n fits p ps first usable s s'
        (updating-round s s' next
          ((building-phase e r n positive fits p ps first usable) s h unbuilt) realised)
        h.serves h.numbered h.map_built

  pub built-step :
      (s s' : Seen) → IsUpdating e r n s → IsBuilt e r s next → Round e r s s' → IsUpdated e r n s'
  built-step s s' h built step =
      let newest =
        compute_future_map_generation-newest r.meta (n + 1) s.claims (omega arith) h.numbered
          h.newest in
      let realised =
        realised-in s s' this next redeploying_workers
          ((built-phase e r n positive fits p ps first usable) s h built)
          (Round-Realises e r s s' this next h.serves newest step) in
      built-IsUpdated e r n fits p ps first usable s s' _ realised
        ((claimless e r n positive fits p ps first usable) this next redeploying_workers (inl refl))
        ((redeploying-there e r n positive fits p ps first usable) this) h.numbered built

  pub IsUpdated-step : (s s' : Seen) → IsUpdated e r n s → Round e r s s' → IsUpdated e r n s'
  IsUpdated-step s s' h step =
      let newest =
        compute_future_map_generation-newest r.meta (n + 1) s.claims (omega arith) h.numbered
          h.newest in
      let realised = Round-Realises e r s s' next next h.serves newest step in
      let serving = all_workers_deployed (profile_names r.meta [] r.spec.profiles) s.deployments in
      elim (Bool-cases serving) [
        | inl y ↦
            let found =
              (served-phase e r n positive fits p ps first usable) s h
                (all_workers_deployed_sound _ s.deployments y) in
            built-IsUpdated e r n fits p ps first usable s s' _
              (realised-in s s' next next workers_redeployed found realised)
              ((claimless e r n positive fits p ps first usable) next next workers_redeployed
                (inr refl))
              (redeployed-there e r n positive fits p ps first usable) h.numbered h.map_built
        | inr f ↦
            let unserving : ¬ AreServing e r s =
              λ h'. absurd (ground (arith, all_workers_deployed_complete _ s.deployments h')) in
            built-IsUpdated e r n fits p ps first usable s s' _
              (realised-in s s' next next redeploying_workers
                ((unserved-phase e r n positive fits p ps first usable) s h unserving) realised)
              ((claimless e r n positive fits p ps first usable) next next redeploying_workers
                (inl refl))
              ((redeploying-there e r n positive fits p ps first usable) next) h.numbered
              h.map_built
      ]
