-- ===== src/Survival.antt =====
-- What the builders of a phase build against the garbage collection that follows in the same
-- reconciliation.
pub mod Cluster
pub mod Plain
use osrm_operator.Base.{
  List, [], ◌∷◌, ◌++◌, some, true, ◌≡◌, inl, inr, arith, All, All-append, Option-cases,
  if◌then◌else◌,
}
use osrm_operator.Text.{Text}
use osrm_operator.Dict.{contains, contains-cons_self, contains-cons}
use osrm_operator.Kube.{ObjectMeta}
use osrm_operator.Api.{ProfileSpec, SpeedUpdatesSpec, child_resource_name}
use osrm_operator.Builders.{
  ResourceBuilder, autoscaler_of, cron_job_of, map_builders, redeploying_builders,
  deploying_builders, deployed_builders, built_kind, built_name, cron_job_suffix,
}
use osrm_operator.Collection.{expected_of, profiles_expected}
use osrm_operator.Collection.Generations.{is_generation_kind}

module _ (m : ObjectMeta) where
  -- The names of the profile's workers, and of its cron job if it has one, are in the set.
  abbrev pub IsExpected : List Text → ProfileSpec → Type 0
  IsExpected keys p =
      (contains (child_resource_name m p.name []) keys ≡ true)
      × ((u : SpeedUpdatesSpec)
          → p.speed_updates ≡ some u
          → contains (child_resource_name m p.name cron_job_suffix) keys ≡ true)

  contains-expected_of :
      (n : Text) (p : ProfileSpec) (rest : List Text)
      → contains n rest ≡ true
      → contains n (expected_of m p rest) ≡ true
  contains-expected_of n p rest h =
      let name = child_resource_name m p.name [] in
      contains-cons n name _ (
        contains-cons n name _ (
          contains-cons n name _ (
            contains-cons n name _ (elim (Option-cases p.speed_updates) [
              | inl e ↦ rw e h
              | inr (u, e) ↦
                  rw e (contains-cons n (child_resource_name m p.name cron_job_suffix) rest h)
            ]))))

  expected_of-IsExpected :
      (p : ProfileSpec) (rest : List Text) → IsExpected (expected_of m p rest) p
  expected_of-IsExpected p rest = (
    contains-cons_self (child_resource_name m p.name []) _,
    λ u e.
        let name = child_resource_name m p.name [] in
        let cron = child_resource_name m p.name cron_job_suffix in
        contains-cons cron name _ (
          contains-cons cron name _ (
            contains-cons cron name _
              (contains-cons cron name _ (rw e (contains-cons_self cron rest))))),
  )

  IsExpected-more :
      (p : ProfileSpec) (rest : List Text) (ps : List ProfileSpec)
      → All (IsExpected rest) ps
      → All (IsExpected (expected_of m p rest)) ps
  IsExpected-more p rest [] h = tt
  IsExpected-more p rest (q ∷ qs) ((workers, cron), hs) = (
    (contains-expected_of _ p rest workers, λ u e. contains-expected_of _ p rest (cron u e)),
    IsExpected-more p rest qs hs,
  )

  pub profiles-IsExpected :
      (ps : List ProfileSpec) (rest : List Text) → All (IsExpected (profiles_expected m ps rest)) ps
  unfolding profiles_expected
  profiles-IsExpected [] rest = tt
  profiles-IsExpected (p ∷ ps) rest = (
    expected_of-IsExpected p (profiles_expected m ps rest),
    IsExpected-more p (profiles_expected m ps rest) ps (profiles-IsExpected ps rest),
  )

  pub contains-profiles_expected :
      (n : Text) (ps : List ProfileSpec) (rest : List Text)
      → contains n rest ≡ true
      → contains n (profiles_expected m ps rest) ≡ true
  unfolding profiles_expected
  contains-profiles_expected n [] rest h = h
  contains-profiles_expected n (p ∷ ps) rest h =
      contains-expected_of n p (profiles_expected m ps rest)
        (contains-profiles_expected n ps rest h)

-- What is built is among the names by which its kind is collected.
abbrev pub IsKept : ObjectMeta → List Text → List Text → ResourceBuilder → Type 0
IsKept m resources generations b =
    contains (built_name m b) (if is_generation_kind (built_kind b) then generations else resources)
    ≡ true

module _ (m : ObjectMeta) (resources generations : List Text) where
  abbrev pub AreKept : List ResourceBuilder → Type 0
  AreKept = All (IsKept m resources generations)

  pub map_builders-kept :
      (g : Text) (ps : List ProfileSpec)
      → All (λ p. contains (child_resource_name m p.name g) generations ≡ true) ps
      → AreKept (map_builders g ps)
  unfolding map_builders built_name
  map_builders-kept g [] h = tt
  map_builders-kept g (p ∷ ps) (h, hs) = (h, (h, map_builders-kept g ps hs))

  autoscaler_of-kept : (p : ProfileSpec) → IsExpected m resources p → AreKept (autoscaler_of p)
  unfolding built_name
  autoscaler_of-kept p h = ground arith

  cron_job_of-kept :
      (p : ProfileSpec) (g : Text) → IsExpected m resources p → AreKept (cron_job_of p g)
  unfolding built_name
  cron_job_of-kept p g h = elim (Option-cases p.speed_updates) [
    | inl e ↦ rw e tt
    | inr (u, e) ↦ rw e (h.1 u e, tt)
  ]

  pub redeploying-kept :
      (g : Text) (ps : List ProfileSpec)
      → All (IsExpected m resources) ps
      → AreKept (redeploying_builders g ps)
  unfolding redeploying_builders built_name
  redeploying-kept g [] h = tt
  redeploying-kept g (p ∷ ps) (h, hs) = (h.0, redeploying-kept g ps hs)

  pub deploying-kept :
      (g : Text) (ps : List ProfileSpec)
      → All (IsExpected m resources) ps
      → AreKept (deploying_builders g ps)
  unfolding deploying_builders built_name
  deploying-kept g [] h = tt
  deploying-kept g (p ∷ ps) (h, hs) = (
    h.0,
    (
      h.0,
      (
        h.0,
        All-append (IsKept m resources generations) (autoscaler_of p) (deploying_builders g ps)
            (autoscaler_of-kept p h) (deploying-kept g ps hs),
      ),
    ),
  )

  pub deployed-kept :
      (g : Text) (ps : List ProfileSpec)
      → All (IsExpected m resources) ps
      → AreKept (deployed_builders g ps)
  unfolding deployed_builders built_name
  deployed-kept g [] h = tt
  deployed-kept g (p ∷ ps) (h, hs) = (
    h.0,
    (
      h.0,
      (
        h.0,
        All-append (IsKept m resources generations) (autoscaler_of p)
            (cron_job_of p g ++ deployed_builders g ps) (autoscaler_of-kept p h)
            (All-append (IsKept m resources generations) (cron_job_of p g) (deployed_builders g ps)
              (cron_job_of-kept p g h) (deployed-kept g ps hs)),
      ),
    ),
  )
