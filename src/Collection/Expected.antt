-- ===== src/Collection/Expected.antt =====
-- Which children are expected, described without the lists of names that garbage collection makes.
pub mod Kept
use osrm_operator.Base.{
  List, [], Option, none, Bool, true, false, ◌&&◌, ◌||◌, ◌≡◌, ◌≢◌, ◌↔◌, ◌⊎◌, inl, inr, refl, Any,
}
use mathlib.Core.Path.{fun_ext}
use osrm_operator.Text.{Text}
use osrm_operator.Kube.{ObjectMeta, Kind}
use osrm_operator.Api.{
  Phase, updating_map, redeploying_workers, deploying_workers, ProfileSpec, SpeedUpdatesSpec,
  child_resource_name,
}
use osrm_operator.Children.Deployed.{Named}
use osrm_operator.Builders.{cron_job_suffix}

-- The phases in which a map of the next generation is built, or workers start with one.
abbrev pub IsChanging : Phase → Type 0
IsChanging updating_map = Unit
IsChanging redeploying_workers = Unit
IsChanging deploying_workers = Unit
IsChanging _ = ⊥

-- The claim or the job of the component is that of the active generation, or, while the map or the
-- workers change, that of the future one.
abbrev pub IsCurrent : Named → Text → Phase → Text → Text → Text → Type 0
IsCurrent named component phase active future n =
    (n ≡ named component active)
    ⊎ (IsChanging phase × (active ≢ future) × (n ≡ named component future))

-- The name is that of the component's objects, or of its cron job, where it has speed updates.
abbrev pub IsNameOf : Named → Text → Option SpeedUpdatesSpec → Text → Type 0
IsNameOf named component updates n =
    (n ≡ named component []) ⊎ ((updates ≢ none) × (n ≡ named component cron_job_suffix))

-- Some profile of the cluster has the name for its objects, or the gateway has it, which is there
-- where there are profiles.
abbrev pub IsNamed : Named → List ProfileSpec → Text → Type 0
IsNamed named ps n =
    Any (λ p. IsNameOf named p.name p.speed_updates n) ps ⊎ ((ps ≢ []) × (n ≡ named [] []))

-- What is expected of a cluster with the profiles: claims and jobs of some profile by their
-- generations, and all else by its name.
abbrev pub IsExpectedChild : Named → List ProfileSpec → Phase → Text → Text → Kind → Text → Type 0
IsExpectedChild named ps phase active future Kind.claim n =
    Any (λ p. IsCurrent named p.name phase active future n) ps
IsExpectedChild named ps phase active future Kind.job n =
    Any (λ p. IsCurrent named p.name phase active future n) ps
IsExpectedChild named ps phase active future _ n = IsNamed named ps n

-- What is expected of an instance: its claim and its job by their generations, every config map, and
-- all else by its name.
abbrev pub IsExpectedOfInstance :
    Named → Option SpeedUpdatesSpec → Phase → Text → Text → Kind → Text → Type 0
IsExpectedOfInstance named updates phase active future Kind.claim n =
    IsCurrent named [] phase active future n
IsExpectedOfInstance named updates phase active future Kind.job n =
    IsCurrent named [] phase active future n
IsExpectedOfInstance named updates phase active future Kind.config_map n = Unit
IsExpectedOfInstance named updates phase active future _ n = IsNameOf named [] updates n

pub and_true_iff :
    {P Q : Type 0} (a b : Bool) → ((a ≡ true) ↔ P) → ((b ≡ true) ↔ Q) → ((a && b) ≡ true) ↔ (P × Q)
and_true_iff true true p q = (λ h. (p.0 refl, q.0 refl), λ h. refl)
and_true_iff true false p q = (λ h. absurd (cc), λ h. q.1 h.1)
and_true_iff false b p q = (λ h. absurd (cc), λ h. p.1 h.0)

pub or_true_iff :
    {P Q : Type 0} (a b : Bool) → ((a ≡ true) ↔ P) → ((b ≡ true) ↔ Q) → ((a || b) ≡ true) ↔ (P ⊎ Q)
or_true_iff true b p q = (λ h. inl (p.0 refl), λ h. refl)
or_true_iff false b p q =
    (λ h. inr (q.0 h), λ h. elim h [ inl x ↦ absurd (cc (p.1 x)) | inr y ↦ q.1 y ])

pub same_name :
    (m m' : ObjectMeta) → m.name ≡ m'.name → child_resource_name m ≡ child_resource_name m'
unfolding child_resource_name
same_name m m' e = fun_ext (λ component. fun_ext (λ suffix. rw e refl))
