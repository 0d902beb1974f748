-- ===== src/Builders/Exactly/Blocks.antt =====
-- What one profile has in a phase, block by block.
use osrm_operator.Base.{List, [], ◌∷◌, ◌++◌, none, ◌≡◌, ◌≢◌, ◌⊎◌, ◌↔◌, inl, inr, refl}
use osrm_operator.Text.{Text}
use osrm_operator.Api.{Phase, building_map, updating_map, redeploying_workers, ProfileSpec}
use osrm_operator.Builders.{
  ResourceBuilder, persistent_volume_claim, job, deployment, cron_job, service,
  pod_disruption_budget, horizontal_pod_autoscaler,
}
use osrm_operator.Builders.Plan.{IsRunning, IsDeployed, BuildsMap}
use osrm_operator.Builders.Exactly.{RunsMap, IsOf, IsAmong, IsAmong-append, no_map, same_among}

module _ (scaled : ProfileSpec → Type 0) (active future : Text) (x : ResourceBuilder)
    (p : ProfileSpec) where
  pub map-IsAmong :
      (phase : Phase) (g : Text)
      → BuildsMap phase active g
      → ((h : Text) → BuildsMap phase active h → h ≡ g)
      → ((h : Text) → RunsMap phase active future h → ⊥)
      → (IsRunning phase → ⊥)
      → (IsDeployed phase → ⊥)
      → IsAmong x (persistent_volume_claim p g ∷ job p g ∷ []) ↔ IsOf scaled phase active future x p
  map-IsAmong phase g builds only runs running deployed = (
    λ a. elim a [
      | inl e ↦ inl (g, builds, inl e)
      | inr t ↦ elim t [ inl e ↦ inl (g, builds, inr e) | inr n ↦ absurd n ]
    ],
    λ a. elim a [
      | inl (h, b, which) ↦ elim which [
        | inl e ↦ inl (same_among (persistent_volume_claim p) h g x (only h b) e)
        | inr e ↦ inr (inl (same_among (job p) h g x (only h b) e))
      ]
      | inr t ↦ elim t [
        | inl (h, r, e) ↦ absurd (runs h r)
        | inr t' ↦ elim t' [ inl r ↦ absurd (running r.0) | inr d ↦ absurd (deployed d.0) ]
      ]
    ],
  )

  pub redeploying-IsAmong :
      IsAmong x (deployment p future ∷ []) ↔ IsOf scaled redeploying_workers active future x p
  redeploying-IsAmong = (
    λ a. elim a [ inl e ↦ inr (inl (future, inl (refl, refl), e)) | inr n ↦ absurd n ],
    λ a. elim a [
      | inl (h, b, which) ↦
          absurd (no_map redeploying_workers active h (λ e. absurd (cc)) (λ e. absurd (cc)) b)
      | inr t ↦ elim t [
        | inl (h, r, e) ↦ elim r [
          | inl y ↦ inl (same_among (deployment p) h future x y.1 e)
          | inr y ↦ absurd y.0
        ]
        | inr t' ↦ elim t' [ inl r ↦ absurd r.0 | inr d ↦ absurd d.0 ]
      ]
    ],
  )

  -- What runs, but for the deployment and the job of the speed updates.
  abbrev pub IsRun : Type 0
  IsRun =
      (service p ≡ x)
      ⊎ ((pod_disruption_budget p ≡ x) ⊎ (scaled p × (horizontal_pod_autoscaler p ≡ x)))

  -- In a phase in which workers run with the active generation.
  pub running-IsAmong :
      (phase : Phase) (bs : List ResourceBuilder) {Jobs : Type 0}
      → phase ≢ building_map
      → phase ≢ updating_map
      → phase ≢ redeploying_workers
      → IsRunning phase
      → (IsAmong x bs ↔ ((deployment p active ≡ x) ⊎ (IsRun ⊎ Jobs)))
      → (Jobs ↔ (IsDeployed phase × (p.speed_updates ≢ none) × (cron_job p active ≡ x)))
      → IsAmong x bs ↔ IsOf scaled phase active future x p
  running-IsAmong phase bs a b c running listed jobs = (
    λ y. elim (listed.0 y) [
      | inl e ↦ inr (inl (active, inr (running, refl), e))
      | inr t ↦ elim t [ inl r ↦ inr (inr (inl (running, r))) | inr j ↦ inr (inr (inr (jobs.0 j))) ]
    ],
    λ y. elim y [
      | inl (h, m, which) ↦ absurd (no_map phase active h a b m)
      | inr t ↦ elim t [
        | inl (h, r, e) ↦ elim r [
          | inl z ↦ absurd (c z.0)
          | inr z ↦ listed.1 (inl (same_among (deployment p) h active x z.1 e))
        ]
        | inr t' ↦ elim t' [
          | inl r ↦ listed.1 (inr (inl r.1))
          | inr d ↦ listed.1 (inr (inr (jobs.1 d)))
        ]
      ]
    ],
  )

  -- The lists of running workers, by what they hold of each kind.
  pub deploying-listed :
      (scaler : List ResourceBuilder)
      → (IsAmong x scaler ↔ (scaled p × (horizontal_pod_autoscaler p ≡ x)))
      → IsAmong x (deployment p active ∷ service p ∷ pod_disruption_budget p ∷ scaler)
        ↔ ((deployment p active ≡ x) ⊎ (IsRun ⊎ ⊥))
  deploying-listed scaler s = (
    λ a. elim a [
      | inl e ↦ inl e
      | inr t ↦ elim t [
        | inl e ↦ inr (inl (inl e))
        | inr t' ↦ elim t' [
          | inl e ↦ inr (inl (inr (inl e)))
          | inr t'' ↦ inr (inl (inr (inr (s.0 t''))))
        ]
      ]
    ],
    λ a. elim a [
      | inl e ↦ inl e
      | inr t ↦ elim t [
        | inl r ↦ elim r [
          | inl e ↦ inr (inl e)
          | inr r' ↦ elim r' [ inl e ↦ inr (inr (inl e)) | inr h ↦ inr (inr (inr (s.1 h))) ]
        ]
        | inr n ↦ absurd n
      ]
    ],
  )

  pub deployed-listed :
      {Jobs : Type 0} (scaler jobs : List ResourceBuilder)
      → (IsAmong x scaler ↔ (scaled p × (horizontal_pod_autoscaler p ≡ x)))
      → (IsAmong x jobs ↔ Jobs)
      → IsAmong x (service p ∷ pod_disruption_budget p ∷ deployment p active ∷ (scaler ++ jobs))
        ↔ ((deployment p active ≡ x) ⊎ (IsRun ⊎ Jobs))
  deployed-listed scaler jobs s j =
      let both = IsAmong-append x scaler jobs in
      (
        λ a. elim a [
          | inl e ↦ inr (inl (inl e))
          | inr t ↦ elim t [
            | inl e ↦ inr (inl (inr (inl e)))
            | inr t' ↦ elim t' [
              | inl e ↦ inl e
              | inr t'' ↦ elim (both.0 t'') [
                | inl h ↦ inr (inl (inr (inr (s.0 h))))
                | inr h ↦ inr (inr (j.0 h))
              ]
            ]
          ]
        ],
        λ a. elim a [
          | inl e ↦ inr (inr (inl e))
          | inr t ↦ elim t [
            | inl r ↦ elim r [
              | inl e ↦ inl e
              | inr r' ↦ elim r' [
                | inl e ↦ inr (inl e)
                | inr h ↦ inr (inr (inr (both.1 (inl (s.1 h)))))
              ]
            ]
            | inr h ↦ inr (inr (inr (both.1 (inr (j.1 h)))))
          ]
        ],
      )

  -- An instance's list has the autoscaler before the budget.
  pub instance_deployed-listed :
      {Jobs : Type 0} (jobs : List ResourceBuilder)
      → scaled p
      → (IsAmong x jobs ↔ Jobs)
      → IsAmong x (
          service p
          ∷ horizontal_pod_autoscaler p
          ∷ pod_disruption_budget p
          ∷ deployment p active
          ∷ jobs)
        ↔ ((deployment p active ≡ x) ⊎ (IsRun ⊎ Jobs))
  instance_deployed-listed jobs s j = (
    λ a. elim a [
      | inl e ↦ inr (inl (inl e))
      | inr t ↦ elim t [
        | inl e ↦ inr (inl (inr (inr (s, e))))
        | inr t' ↦ elim t' [
          | inl e ↦ inr (inl (inr (inl e)))
          | inr t'' ↦ elim t'' [ inl e ↦ inl e | inr h ↦ inr (inr (j.0 h)) ]
        ]
      ]
    ],
    λ a. elim a [
      | inl e ↦ inr (inr (inr (inl e)))
      | inr t ↦ elim t [
        | inl r ↦ elim r [
          | inl e ↦ inl e
          | inr r' ↦ elim r' [ inl e ↦ inr (inr (inl e)) | inr h ↦ inr (inl h.1) ]
        ]
        | inr h ↦ inr (inr (inr (inr (j.1 h))))
      ]
    ],
  )
