-- ===== src/Progress/Update.antt =====
-- An update of the map, from the change of the URL to the workers that serve the new map.
use osrm_operator.Base.{ℕ, ◌+◌, ◌≤◌, List, ◌∷◌, ◌≡◌, ◌⊎◌, inl, inr, arith, All, Bool-cases, ok}
use osrm_operator.Base.Int.{pos}
use osrm_operator.Text.{Text}
use osrm_operator.Text.Decimal.{itoa, max_int64}
use osrm_operator.Api.{workers_redeployed, ProfileSpec, OsrmCluster}
use osrm_operator.Api.Names.{IsComponent}
use osrm_operator.Generation.{get_active_map_generation, compute_future_map_generation}
use osrm_operator.Phases.{is_map_building_in_progress}
use osrm_operator.Phases.Cluster.{is_map_building_in_progress_iff}
use osrm_operator.Contents.{Environment}
use osrm_operator.Progress.{
  Seen, seen_phase, IsBuilt, AreServing, Round, Rounds, no_round, one_more, IsOutdated, IsUpdating,
  IsUpdated,
}
use osrm_operator.Progress.Numbering.{compute_future_map_generation-newest}
use osrm_operator.Progress.Stages.{served-phase}
use osrm_operator.Progress.Transitions.{
  IsOutdated-step, IsUpdating-step, built-step, IsUpdated-step,
}

module _ (e : Environment) (r : OsrmCluster) (n : ℕ) (positive : 1 ≤ n) (fits : n + 1 ≤ max_int64)
    (p : ProfileSpec) (ps : List ProfileSpec) (first : r.spec.profiles ≡ p ∷ ps)
    (usable : All (λ q. IsComponent q.name) r.spec.profiles) where
  abbrev new_generation : Text
  new_generation = itoa (pos (n + 1))

  -- The update has begun, and is not taken back.
  abbrev pub IsUnderway : Seen → Type 0
  IsUnderway s = IsUpdating e r n s ⊎ IsUpdated e r n s

  IsUnderway-step : (s s' : Seen) → IsUnderway s → Round e r s s' → IsUnderway s'
  IsUnderway-step s s' (inr h) step =
      inr (IsUpdated-step e r n positive fits p ps first usable s s' h step)
  IsUnderway-step s s' (inl h) step =
      let iff =
        is_map_building_in_progress_iff r s.old_spec new_generation new_generation s.claims s.jobs
          s.deployments new_generation in
      elim (Bool-cases (is_map_building_in_progress r s.claims s.jobs new_generation)) [
        | inl y ↦
            let unbuilt : ¬ IsBuilt e r s new_generation = λ b. absurd (ground (arith, iff.1 b)) in
            inl (IsUpdating-step e r n positive fits p ps first usable s s' h unbuilt step)
        | inr f ↦ inr (built-step e r n positive fits p ps first usable s s' h (iff.0 f) step)
      ]

  -- Once a reconciliation has seen the new URL, the cluster is, after any number of reconciliations,
  -- updating or updated to one generation more: no further generation is ever begun.
  pub update-IsUnderway :
      (s0 s1 s2 : Seen) → IsOutdated e r n s0 → Round e r s0 s1 → Rounds e r s1 s2 → IsUnderway s2
  update-IsUnderway s0 s1 s2 outdated begun no_round =
      inl (IsOutdated-step e r n positive fits p ps first usable s0 s1 outdated begun)
  update-IsUnderway s0 s1 s2 outdated begun (one_more {s' = s} rounds step) =
      IsUnderway-step s s2 (update-IsUnderway s0 s1 s outdated begun rounds) step

  IsBuilt-step :
      (s s' : Seen)
      → IsUnderway s
      → IsBuilt e r s new_generation
      → Round e r s s'
      → IsUpdated e r n s'
  IsBuilt-step s s' (inl h) built step =
      built-step e r n positive fits p ps first usable s s' h built step
  IsBuilt-step s s' (inr h) built step =
      IsUpdated-step e r n positive fits p ps first usable s s' h step

  IsUpdated-Rounds : (s s' : Seen) → IsUpdated e r n s → Rounds e r s s' → IsUpdated e r n s'
  IsUpdated-Rounds s s' h no_round = h
  IsUpdated-Rounds s s'' h (one_more {s' = s'} rounds step) =
      IsUpdated-step e r n positive fits p ps first usable s' s'' (IsUpdated-Rounds s s' h rounds)
        step

  -- The URL of a cluster that serves the map of generation `n` changes. One reconciliation sees it,
  -- and others follow while the map of the next generation is built; another one follows when it is
  -- built, and others while the workers start. As soon as all workers serve, the cluster is found to
  -- be redeployed, with the next generation as the active and the future one, if each reconciliation
  -- realises its builders, no profile's name ends in a dash and the generation is an int.
  pub update-Ends :
      (s0 s1 s2 s3 s4 : Seen)
      → IsOutdated e r n s0
      → Round e r s0 s1
      → Rounds e r s1 s2
      → IsBuilt e r s2 new_generation
      → Round e r s2 s3
      → Rounds e r s3 s4
      → AreServing e r s4
      → (get_active_map_generation s4.deployments ≡ ok new_generation)
        × (compute_future_map_generation s4.claims ≡ ok new_generation)
        × (seen_phase e r s4 new_generation new_generation ≡ workers_redeployed)
  update-Ends s0 s1 s2 s3 s4 outdated begun waiting built switched starting serving =
      let underway = update-IsUnderway s0 s1 s2 outdated begun waiting in
      let updated = IsUpdated-Rounds s3 s4 (IsBuilt-step s2 s3 underway built switched) starting in
      (
        updated.serves,
        compute_future_map_generation-newest r.meta (n + 1) s4.claims (omega arith) updated.numbered
            updated.newest,
        served-phase e r n positive fits p ps first usable s4 updated serving,
      )
