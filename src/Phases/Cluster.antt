-- ===== src/Phases/Cluster.antt =====
-- `OSRMClusterReconciler.DeterminePhase` against a description of what each phase stands for.
use osrm_operator.Base.{
  List, [], ◌∷◌, Bool, true, false, ◌≡◌, ◌≢◌, ◌↔◌, ◌⊎◌, inl, inr, refl, ◌∙◌, arith, All, Bool-cases,
}
use mathlib.Core.Path.{subst}
use osrm_operator.Base.Int.{pos, ltb_ℤ, ◌<ℤ◌}
use osrm_operator.Text.{Text, text_eq}
use osrm_operator.Text.Laws.{text_eq_iff, text_eq_sound, text_eq_complete, text_eq_ne}
use osrm_operator.Text.Decimal.{atoi}
use osrm_operator.Kube.{PersistentVolumeClaim, Job, Deployment}
use osrm_operator.Api.{
  Phase, building_map, updating_map, redeploying_workers, deploying_workers, workers_deployed,
  workers_redeployed, deleting, empty, ProfileSpec, ClusterSpec, OsrmCluster,
}
use osrm_operator.Phases.{
  claim_name, job_name, profile_names, is_bound, is_completed, is_map_building_in_progress,
  all_workers_deployed, is_empty, determine_phase, worker_phase,
}
use osrm_operator.Phases.Ready.{
  IsDone, all_done_sound, all_done_complete, HasServing, all_workers_deployed_sound,
  all_workers_deployed_complete,
}

module _ (resource : OsrmCluster) (old_spec : ClusterSpec) (active future : Text)
    (pvcs : List PersistentVolumeClaim) (jobs : List Job) (deployments : List Deployment) where
  -- The map of the generation is built: each profile has a claim and a job of its name and the
  -- generation, every such claim is bound and every such job completed.
  abbrev pub IsMapBuilt : Text → Type 0
  IsMapBuilt generation =
      let names = profile_names resource.meta generation resource.spec.profiles in
      All (IsDone claim_name is_bound pvcs) names × All (IsDone job_name is_completed jobs) names

  abbrev pub AreWorkersServing : Type 0
  AreWorkersServing =
      All (HasServing deployments) (profile_names resource.meta [] resource.spec.profiles)

  -- The active generation is a number above 1.
  abbrev pub IsLater : Type 0
  IsLater = pos 1 <ℤ (atoi active).0

  -- The maps of the active and the future generation are built from the present URL, and both
  -- generations are the same.
  abbrev pub IsSettled : Type 0
  IsSettled =
      (resource.spec.profiles ≢ [])
      × IsMapBuilt active
      × (resource.spec.pbf_url ≡ old_spec.pbf_url)
      × IsMapBuilt future
      × (active ≡ future)

  -- What each phase stands for.
  abbrev pub PhaseHolds : Phase → Type 0
  PhaseHolds empty = resource.spec.profiles ≡ []
  PhaseHolds building_map = (resource.spec.profiles ≢ []) × ¬ IsMapBuilt active
  PhaseHolds updating_map =
      (resource.spec.profiles ≢ [])
      × IsMapBuilt active
      × ((resource.spec.pbf_url ≢ old_spec.pbf_url) ⊎ ¬ IsMapBuilt future)
  PhaseHolds redeploying_workers =
      ((resource.spec.profiles ≢ [])
        × IsMapBuilt active
        × (resource.spec.pbf_url ≡ old_spec.pbf_url)
        × IsMapBuilt future
        × (active ≢ future))
      ⊎ (IsSettled × ¬ AreWorkersServing × IsLater)
  PhaseHolds deploying_workers = IsSettled × ¬ AreWorkersServing × ¬ IsLater
  PhaseHolds workers_redeployed = IsSettled × AreWorkersServing × IsLater
  PhaseHolds workers_deployed = IsSettled × AreWorkersServing × ¬ IsLater
  PhaseHolds deleting = ⊥

  in_progress-built :
      (generation : Text)
      → is_map_building_in_progress resource pvcs jobs generation ≡ false
      → IsMapBuilt generation
  unfolding is_map_building_in_progress
  in_progress-built generation h =
      let names = profile_names resource.meta generation resource.spec.profiles in
      (
        all_done_sound claim_name is_bound names pvcs (ground arith),
        all_done_sound job_name is_completed names jobs (ground arith),
      )

  built-in_progress :
      (generation : Text)
      → IsMapBuilt generation
      → is_map_building_in_progress resource pvcs jobs generation ≡ false
  unfolding is_map_building_in_progress
  built-in_progress generation (v, j) =
      let names = profile_names resource.meta generation resource.spec.profiles in
      ground (
        arith,
        all_done_complete claim_name is_bound names pvcs v,
        all_done_complete job_name is_completed names jobs j,
      )

  -- A map of a cluster is being built exactly where it is not built: the loops with their flags and
  -- breaks miss no claim and no job.
  pub is_map_building_in_progress_iff :
      (generation : Text)
      → (is_map_building_in_progress resource pvcs jobs generation ≡ false) ↔ IsMapBuilt generation
  is_map_building_in_progress_iff generation =
      (in_progress-built generation, built-in_progress generation)

  unbuilt-in_progress :
      (generation : Text)
      → ¬ IsMapBuilt generation
      → is_map_building_in_progress resource pvcs jobs generation ≡ true
  unbuilt-in_progress generation h =
      elim (Bool-cases (is_map_building_in_progress resource pvcs jobs generation)) [
        | inl t ↦ t
        | inr f ↦ absurd (h (in_progress-built generation f))
      ]

  in_progress-unbuilt :
      (generation : Text)
      → is_map_building_in_progress resource pvcs jobs generation ≡ true
      → ¬ IsMapBuilt generation
  in_progress-unbuilt generation h b = ground (arith, built-in_progress generation b)

  is_empty_sound : is_empty resource.spec.profiles ≡ true → resource.spec.profiles ≡ []
  is_empty_sound h = of resource.spec.profiles h
    where
      of : (ps : List ProfileSpec) → is_empty ps ≡ true → ps ≡ []
      of [] h = refl
      of (p ∷ ps) h = cc

  is_empty-ne : is_empty resource.spec.profiles ≡ false → resource.spec.profiles ≢ []
  is_empty-ne h e = ground arith

  ne-is_empty : resource.spec.profiles ≢ [] → is_empty resource.spec.profiles ≡ false
  ne-is_empty h = ground arith

  serving : Bool
  serving = all_workers_deployed (profile_names resource.meta [] resource.spec.profiles) deployments

  worker_phase-PhaseHolds : IsSettled → PhaseHolds (worker_phase serving active)
  unfolding serving
  worker_phase-PhaseHolds s =
      let names = profile_names resource.meta [] resource.spec.profiles in
      elim (Bool-cases serving) [
        | inl d ↦
            let all_serve = all_workers_deployed_sound names deployments d in
            elim (Bool-cases (ltb_ℤ (pos 1) (atoi active).0)) [
              | inl l ↦ rw (d, l) (s, all_serve, ground arith)
              | inr l ↦ rw (d, l) (s, all_serve, ground arith)
            ]
        | inr n ↦
            let none_serve : ¬ AreWorkersServing =
              λ h. ground (arith, all_workers_deployed_complete names deployments h) in
            elim (Bool-cases (ltb_ℤ (pos 1) (atoi active).0)) [
              | inl l ↦ rw (n, l) (inr (s, none_serve, ground arith))
              | inr l ↦ rw (n, l) (s, none_serve, ground arith)
            ]
      ]

  determine_phase-PhaseHolds :
      PhaseHolds (determine_phase resource old_spec active future pvcs jobs deployments)
  unfolding determine_phase serving
  determine_phase-PhaseHolds = elim (Bool-cases (is_empty resource.spec.profiles)) [
    | inl e ↦ rw e (is_empty_sound e)
    | inr ne ↦ elim (Bool-cases (is_map_building_in_progress resource pvcs jobs active)) [
      | inl b ↦ rw (ne, b) (is_empty-ne ne, in_progress-unbuilt active b)
      | inr b ↦ elim (Bool-cases (text_eq resource.spec.pbf_url old_spec.pbf_url)) [
        | inr u ↦
            rw (ne, b, u)
              (
                is_empty-ne ne,
                in_progress-built active b,
                inl (λ e. ground (arith, text_eq_iff resource.spec.pbf_url old_spec.pbf_url)),
              )
        | inl u ↦ elim (Bool-cases (is_map_building_in_progress resource pvcs jobs future)) [
          | inl f ↦
              rw (ne, b, u, f)
                (is_empty-ne ne, in_progress-built active b, inr (in_progress-unbuilt future f))
          | inr f ↦
              let url = text_eq_sound resource.spec.pbf_url old_spec.pbf_url u in
              let built = in_progress-built active b in
              let built' = in_progress-built future f in
              elim (Bool-cases (text_eq active future)) [
                | inr g ↦
                    rw (ne, b, u, f, g)
                      (inl (
                        is_empty-ne ne,
                        built,
                        url,
                        built',
                        λ e. ground (arith, text_eq_iff active future),
                      ))
                | inl g ↦
                    rw (ne, b, u, f, g)
                      (worker_phase-PhaseHolds
                        (is_empty-ne ne, built, url, built', text_eq_sound active future g))
              ]
        ]
      ]
    ]
  ]

  settled-determine_phase :
      IsSettled
      → determine_phase resource old_spec active future pvcs jobs deployments
        ≡ worker_phase serving active
  unfolding determine_phase serving
  settled-determine_phase (ne, built, url, built', same) = rw (
    ne-is_empty ne,
    built-in_progress active built,
    text_eq_complete resource.spec.pbf_url old_spec.pbf_url url,
    built-in_progress future built',
    text_eq_complete active future same,
  )

  serving-true : AreWorkersServing → serving ≡ true
  unfolding serving
  serving-true =
      all_workers_deployed_complete (profile_names resource.meta [] resource.spec.profiles)
        deployments

  serving-false : ¬ AreWorkersServing → serving ≡ false
  unfolding serving
  serving-false h = elim (Bool-cases serving) [
    | inl t ↦ absurd (
        h (
          all_workers_deployed_sound (profile_names resource.meta [] resource.spec.profiles)
            deployments t))
    | inr f ↦ f
  ]

  PhaseHolds-determine_phase :
      (p : Phase)
      → PhaseHolds p
      → determine_phase resource old_spec active future pvcs jobs deployments ≡ p
  unfolding determine_phase
  PhaseHolds-determine_phase empty h = rw h
  PhaseHolds-determine_phase building_map (ne, b) =
      rw (ne-is_empty ne, unbuilt-in_progress active b)
  PhaseHolds-determine_phase updating_map (ne, b, inl u) = rw (
    ne-is_empty ne,
    built-in_progress active b,
    text_eq_ne resource.spec.pbf_url old_spec.pbf_url u,
  )
  PhaseHolds-determine_phase updating_map (ne, b, inr f) =
      ground (arith, ne-is_empty ne, built-in_progress active b, unbuilt-in_progress future f)
  PhaseHolds-determine_phase redeploying_workers (inl (ne, b, u, b', g)) = rw (
    ne-is_empty ne,
    built-in_progress active b,
    text_eq_complete resource.spec.pbf_url old_spec.pbf_url u,
    built-in_progress future b',
    text_eq_ne active future g,
  )
  PhaseHolds-determine_phase redeploying_workers (inr (s, n, l)) =
      settled-determine_phase s ∙ rw (serving-false n) (ground arith)
  PhaseHolds-determine_phase deploying_workers (s, n, l) =
      settled-determine_phase s ∙ rw (serving-false n) (ground arith)
  PhaseHolds-determine_phase workers_redeployed (s, d, l) =
      settled-determine_phase s ∙ rw (serving-true d) (ground arith)
  PhaseHolds-determine_phase workers_deployed (s, d, l) =
      settled-determine_phase s ∙ rw (serving-true d) (ground arith)
  PhaseHolds-determine_phase deleting h = absurd h

  -- A cluster is in a phase exactly when what the phase stands for holds: the seven descriptions
  -- exclude one another, one of them always holds, and no cluster is found to be deleting.
  pub determine_phase_iff :
      (p : Phase)
      → (determine_phase resource old_spec active future pvcs jobs deployments ≡ p) ↔ PhaseHolds p
  determine_phase_iff p =
      (λ e. subst PhaseHolds e determine_phase-PhaseHolds, PhaseHolds-determine_phase p)
