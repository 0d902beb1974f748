-- ===== src/Builders/Exactly.antt =====
-- Which builders a phase has, described kind by kind.
pub mod Blocks
pub mod Phases
use osrm_operator.Base.{
  List, [], ◌∷◌, ◌++◌, Option, none, some, ◌≡◌, ◌≢◌, ◌⊎◌, ◌↔◌, inl, inr, refl, sym, ap, ◌∙◌,
  if◌then◌else◌, All, Any, true, false,
}
use mathlib.Core.Path.{subst}
use osrm_operator.Text.{Text}
use osrm_operator.Base.Int.{ℤ}
use osrm_operator.Api.{
  Phase, building_map, updating_map, redeploying_workers, ProfileSpec, SpeedUpdatesSpec,
}
use osrm_operator.Builders.{
  ResourceBuilder, persistent_volume_claim, job, deployment, cron_job, service,
  pod_disruption_budget, horizontal_pod_autoscaler, config_map, gateway_service, gateway_deployment,
  autoscaler_of, cron_job_of, gateway_builders,
}
use osrm_operator.Builders.Plan.{IsRunning, IsDeployed, BuildsMap}

-- The workers are started or kept for the generation.
abbrev pub RunsMap : Phase → Text → Text → Text → Type 0
RunsMap phase active future g =
    ((phase ≡ redeploying_workers) × (g ≡ future)) ⊎ (IsRunning phase × (g ≡ active))

-- The profile gives both limits of an autoscaler.
abbrev pub IsScaled : ProfileSpec → Type 0
IsScaled p = (p.min_replicas ≢ none) × (p.max_replicas ≢ none)

-- The builder is one that the profile has in the phase, given which profiles have an autoscaler:
-- a claim and a job of a generation that a map is built for, a deployment of a generation that the
-- workers run with, a service, a budget and an autoscaler where they run, and a job for the speed
-- updates, where there are any, once they are known to run.
abbrev pub IsOf :
    (ProfileSpec → Type 0) → Phase → Text → Text → ResourceBuilder → ProfileSpec → Type 0
IsOf scaled phase active future x p =
    ((g : Text) × BuildsMap phase active g × ((persistent_volume_claim p g ≡ x) ⊎ (job p g ≡ x)))
    ⊎ (((g : Text) × RunsMap phase active future g × (deployment p g ≡ x))
        ⊎ ((IsRunning phase
              × ((service p ≡ x)
                  ⊎ ((pod_disruption_budget p ≡ x)
                      ⊎ (scaled p × (horizontal_pod_autoscaler p ≡ x)))))
            ⊎ (IsDeployed phase × (p.speed_updates ≢ none) × (cron_job p active ≡ x))))

-- The builder is one that the gateway of the profiles, of which there are some, has in the phase.
abbrev pub IsOfGateway : List ProfileSpec → Phase → ResourceBuilder → Type 0
IsOfGateway ps phase x =
    IsDeployed phase
    × (ps ≢ [])
    × ((config_map ps ≡ x) ⊎ ((gateway_service ps ≡ x) ⊎ (gateway_deployment ps ≡ x)))

-- The builder is among those listed.
abbrev pub IsAmong : ResourceBuilder → List ResourceBuilder → Type 0
IsAmong x bs = Any (λ b. b ≡ x) bs

pub All-IsAmong :
    (P : ResourceBuilder → Type 0) (x : ResourceBuilder) (bs : List ResourceBuilder)
    → All P bs
    → IsAmong x bs
    → P x
All-IsAmong P x [] hs a = absurd a
All-IsAmong P x (b ∷ bs) (h, hs) (inl e) = subst P e h
All-IsAmong P x (b ∷ bs) (h, hs) (inr a) = All-IsAmong P x bs hs a

pub IsAmong-append :
    (x : ResourceBuilder) (bs cs : List ResourceBuilder)
    → IsAmong x (bs ++ cs) ↔ (IsAmong x bs ⊎ IsAmong x cs)
IsAmong-append x [] cs = (λ a. inr a, λ a. elim a [ inl n ↦ absurd n | inr b ↦ b ])
IsAmong-append x (b ∷ bs) cs =
    let rest = IsAmong-append x bs cs in
    (
      λ a. elim a [
        | inl e ↦ inl (inl e)
        | inr t ↦ elim (rest.0 t) [ inl l ↦ inl (inr l) | inr r ↦ inr r ]
      ],
      λ a. elim a [
        | inl l ↦ elim l [ inl e ↦ inl e | inr t ↦ inr (rest.1 (inl t)) ]
        | inr r ↦ inr (rest.1 (inr r))
      ],
    )

-- Builders that are listed profile by profile.
pub blocks-IsAmong :
    (f : List ProfileSpec → List ResourceBuilder) (block : ProfileSpec → List ResourceBuilder)
    (P : ProfileSpec → Type 0) (x : ResourceBuilder)
    → f [] ≡ []
    → ((p : ProfileSpec) (ps : List ProfileSpec) → f (p ∷ ps) ≡ block p ++ f ps)
    → ((p : ProfileSpec) → IsAmong x (block p) ↔ P p)
    → (ps : List ProfileSpec) → IsAmong x (f ps) ↔ Any P ps
blocks-IsAmong f block P x none_of next of [] = (λ a. subst (IsAmong x) none_of a, λ a. absurd a)
blocks-IsAmong f block P x none_of next of (p ∷ ps) =
    let both = IsAmong-append x (block p) (f ps) in
    let rest = blocks-IsAmong f block P x none_of next of ps in
    (
      λ a. elim (both.0 (subst (IsAmong x) (next p ps) a)) [
        | inl l ↦ inl ((of p).0 l)
        | inr r ↦ inr (rest.0 r)
      ],
      λ a.
          subst (IsAmong x) (sym (next p ps))
            (elim a [ inl l ↦ both.1 (inl ((of p).1 l)) | inr r ↦ both.1 (inr (rest.1 r)) ]),
    )

pub autoscaler-IsAmong :
    (p : ProfileSpec) (x : ResourceBuilder)
    → IsAmong x (autoscaler_of p) ↔ (IsScaled p × (horizontal_pod_autoscaler p ≡ x))
autoscaler-IsAmong p x = go p.min_replicas p.max_replicas
  where
    go :
        (low high : Option ℤ)
        → IsAmong x (
            if elim low [ none ↦ false | some l ↦ elim high [ none ↦ false | some h ↦ true ] ]
            then horizontal_pod_autoscaler p ∷ []
            else [])
          ↔ (((low ≢ none) × (high ≢ none)) × (horizontal_pod_autoscaler p ≡ x))
    go none high = (λ a. absurd a, λ h. absurd (h.0.0 refl))
    go (some l) none = (λ a. absurd a, λ h. absurd (h.0.1 refl))
    go (some l) (some h) = (
      λ a. elim a [ inl e ↦ ((λ n. absurd (cc), λ n. absurd (cc)), e) | inr n ↦ absurd n ],
      λ h'. inl h'.1,
    )

pub cron_job-IsAmong :
    (p : ProfileSpec) (g : Text) (x : ResourceBuilder)
    → IsAmong x (cron_job_of p g) ↔ ((p.speed_updates ≢ none) × (cron_job p g ≡ x))
cron_job-IsAmong p g x = go p.speed_updates
  where
    go :
        (updates : Option SpeedUpdatesSpec)
        → IsAmong x (elim updates [ none ↦ [] | some u ↦ cron_job p g ∷ [] ])
          ↔ ((updates ≢ none) × (cron_job p g ≡ x))
    go none = (λ a. absurd a, λ h. absurd (h.0 refl))
    go (some u) = (λ a. elim a [ inl e ↦ (λ n. absurd (cc), e) | inr n ↦ absurd n ], λ h. inl h.1)

pub gateway-IsAmong :
    (ps : List ProfileSpec) (x : ResourceBuilder)
    → IsAmong x (gateway_builders ps) ↔ (
        (ps ≢ [])
        × ((config_map ps ≡ x) ⊎ ((gateway_service ps ≡ x) ⊎ (gateway_deployment ps ≡ x))))
gateway-IsAmong [] x = (λ a. absurd a, λ h. absurd (h.0 refl))
gateway-IsAmong (p ∷ ps) x = (
  λ a. elim a [
    | inl e ↦ (λ n. absurd (cc), inl e)
    | inr t ↦ elim t [
      | inl e ↦ (λ n. absurd (cc), inr (inl e))
      | inr t' ↦ elim t' [ inl e ↦ (λ n. absurd (cc), inr (inr e)) | inr n ↦ absurd n ]
    ]
  ],
  λ h. elim h.1 [
    | inl e ↦ inl e
    | inr t ↦ elim t [ inl e ↦ inr (inl e) | inr e ↦ inr (inr (inl e)) ]
  ],
)

-- The generations that the phases build and run.
pub no_map :
    (phase : Phase) (active g : Text)
    → phase ≢ building_map
    → phase ≢ updating_map
    → BuildsMap phase active g
    → ⊥
no_map phase active g a b (inl (e, _)) = a e
no_map phase active g a b (inr (e, _)) = b e

pub same_among :
    (f : Text → ResourceBuilder) (g h : Text) (x : ResourceBuilder) → g ≡ h → f g ≡ x → f h ≡ x
same_among f g h x e q = ap f (sym e) ∙ q
