-- ===== src/Progress.antt =====
-- The rounds in which a cluster takes a new map: what `Reconcile` of
-- controllers/osrmcluster_controller.go reads, the phase that it finds, and what its builders leave
-- for the next round.
pub mod Numbering
pub mod Steps
pub mod Stages
pub mod Transitions
pub mod Update
use osrm_operator.Base.{ℕ, ◌+◌, ◌≤◌, List, [], ◌∷◌, ◌≡◌, ◌≢◌, ◌⊎◌, All, Any, ok}
use osrm_operator.Base.Int.{pos}
use osrm_operator.Text.{Text}
use osrm_operator.Text.Decimal.{itoa}
use osrm_operator.Kube.{ObjectMeta, Kind, Object, PersistentVolumeClaim, Job, Deployment}
use osrm_operator.Api.{Phase, ProfileSpec, ClusterSpec, OsrmCluster}
use osrm_operator.Api.Defaults.{of_cluster}
use osrm_operator.Generation.{get_active_map_generation, compute_future_map_generation}
use osrm_operator.Generation.Laws.{IsClaimOf}
use osrm_operator.Phases.{determine_phase}
use osrm_operator.Phases.Cluster.{IsMapBuilt, AreWorkersServing}
use osrm_operator.Builders.{
  ResourceBuilder, deployment, built_kind, built_name, new_osrm_resource_builder,
  resource_builders_for_phase,
}
use osrm_operator.Contents.{Environment}
use osrm_operator.Contents.Workers.{update_deployment}

-- What a reconciliation reads: the spec of the annotation, and the children.
pub record Seen : Type 0 where
  pub old_spec : ClusterSpec
  pub claims : List PersistentVolumeClaim
  pub jobs : List Job
  pub deployments : List Deployment

-- Every claim is one of the resource's children, of a generation up to `h`.
abbrev pub AreNumbered : ObjectMeta → ℕ → List PersistentVolumeClaim → Type 0
AreNumbered m h claims = All (λ v. (n : ℕ) × IsClaimOf m v n × (n ≤ h)) claims

-- Some claim is one of the generation.
abbrev pub HasGeneration : ObjectMeta → ℕ → List PersistentVolumeClaim → Type 0
HasGeneration m n claims = Any (λ v. IsClaimOf m v n) claims

-- The builder builds the claim of the name.
abbrev pub BuildsClaim : ObjectMeta → Text → ResourceBuilder → Type 0
BuildsClaim m name b = (built_kind b ≡ Kind.claim) × (built_name m b ≡ name)

module _ (e : Environment) (r : OsrmCluster) where
  abbrev pub seen_phase : Seen → Text → Text → Phase
  seen_phase s active future =
      determine_phase r s.old_spec active future s.claims s.jobs s.deployments

  abbrev pub IsBuilt : Seen → Text → Type 0
  IsBuilt s g = IsMapBuilt r s.old_spec g g s.claims s.jobs s.deployments g

  abbrev pub AreServing : Seen → Type 0
  AreServing s = AreWorkersServing r s.old_spec [] [] s.claims s.jobs s.deployments

  -- The first of the deployments was updated for the profile and the generation; its status is free.
  abbrev pub IsWritten : Seen → ProfileSpec → Text → Type 0
  IsWritten s p g =
      (siblings : List Object) × (d : Deployment) × (d' : Deployment) × (ds : List Deployment)
      × (update_deployment e (of_cluster r) p g siblings d ≡ ok d')
      × (s.deployments ≡ d' ∷ ds)

  -- What is seen after a reconciliation that has realised the builders and collected the garbage.
  pub record Realises (s s' : Seen) (bs : List ResourceBuilder) : Type 0 where
    -- The spec was noted.
    pub noted : s'.old_spec ≡ r.spec
    -- No claim comes but by a builder, and the claims that were built are there.
    pub claims_from :
        All
          (λ v.
            Any (λ u. u.meta.name ≡ v.meta.name) s.claims ⊎ Any (BuildsClaim r.meta v.meta.name) bs)
          s'.claims
    pub claims_there :
        All
          (λ b. built_kind b ≡ Kind.claim → Any (λ v. v.meta.name ≡ built_name r.meta b) s'.claims)
          bs
    -- The deployment of the first profile was written where it was built, and where no deployment was
    -- built the first one mounts what it mounted.
    pub workers_written :
        (p : ProfileSpec) (ps : List ProfileSpec) (g : Text)
        → r.spec.profiles ≡ p ∷ ps
        → Any (λ b. b ≡ deployment p g) bs
        → IsWritten s' p g
    pub workers_left :
        All (λ b. built_kind b ≢ Kind.deployment) bs
        → get_active_map_generation s'.deployments ≡ get_active_map_generation s.deployments
    -- The claims and jobs of the generation that is active afterwards stay, bound and completed.
    pub stays_built :
        (g : Text) → get_active_map_generation s'.deployments ≡ ok g → IsBuilt s g → IsBuilt s' g

  -- One reconciliation, and what the server makes of it, in whatever time.
  pub data Round : Seen → Seen → Type 0 where
    round :
        {s s' : Seen} {active future : Text}
        → get_active_map_generation s.deployments ≡ ok active
        → compute_future_map_generation s.claims ≡ ok future
        → Realises s s' (
            resource_builders_for_phase
              (new_osrm_resource_builder r active future)
              (seen_phase s active future))
        → Round s s'

  pub data Rounds : Seen → Seen → Type 0 where
    no_round : {s : Seen} → Rounds s s
    one_more : {s s' s'' : Seen} → Rounds s s' → Round s' s'' → Rounds s s''

  module _ (n : ℕ) where
    -- The workers serve the map of generation `n`, which is the highest, and the URL has changed.
    pub record IsOutdated (s : Seen) : Type 0 where
      pub serves : get_active_map_generation s.deployments ≡ ok (itoa (pos n))
      pub numbered : AreNumbered r.meta n s.claims
      pub newest : HasGeneration r.meta n s.claims
      pub map_built : IsBuilt s (itoa (pos n))
      pub changed : r.spec.pbf_url ≢ s.old_spec.pbf_url

    -- The workers serve the map of generation `n`, and that of `n + 1` is being built, or was.
    pub record IsUpdating (s : Seen) : Type 0 where
      pub serves : get_active_map_generation s.deployments ≡ ok (itoa (pos n))
      pub numbered : AreNumbered r.meta (n + 1) s.claims
      pub newest : HasGeneration r.meta (n + 1) s.claims
      pub map_built : IsBuilt s (itoa (pos n))
      pub same : r.spec.pbf_url ≡ s.old_spec.pbf_url

    -- The workers are of generation `n + 1`, which is the highest.
    pub record IsUpdated (s : Seen) : Type 0 where
      pub serves : get_active_map_generation s.deployments ≡ ok (itoa (pos (n + 1)))
      pub numbered : AreNumbered r.meta (n + 1) s.claims
      pub newest : HasGeneration r.meta (n + 1) s.claims
      pub map_built : IsBuilt s (itoa (pos (n + 1)))
      pub same : r.spec.pbf_url ≡ s.old_spec.pbf_url
