-- ===== src/Progress/Steps.antt =====
-- What one round makes of each stage of an update.
use osrm_operator.Base.{
  ℕ, ◌+◌, ◌≤◌, List, [], ◌∷◌, ◌≡◌, ◌≢◌, inl, inr, refl, sym, ◌∙◌, ap, arith, All, All-map, Any, ok,
}
use mathlib.Core.Path.{subst}
use osrm_operator.Base.Int.{pos}
use osrm_operator.Text.{Text}
use osrm_operator.Text.Decimal.{itoa, max_int64}
use osrm_operator.Kube.{Kind, PersistentVolumeClaim}
use osrm_operator.Api.{ProfileSpec, OsrmCluster}
use osrm_operator.Api.Names.{IsComponent}
use osrm_operator.Api.Defaults.{of_cluster}
use osrm_operator.Generation.{get_active_map_generation, compute_future_map_generation}
use osrm_operator.Phases.{profile_names, claim_name}
use osrm_operator.Builders.{
  ResourceBuilder, deployment, built_kind, built_name, map_builders, new_osrm_resource_builder,
  resource_builders_for_phase,
}
use osrm_operator.Contents.{Environment}
use osrm_operator.Contents.Adoption.{ok-injective}
use osrm_operator.Contents.Wiring.{update_deployment-active}
use osrm_operator.Progress.{
  Seen, AreNumbered, HasGeneration, BuildsClaim, seen_phase, IsBuilt, Realises, Round, round,
  IsUpdating, IsUpdated,
}
use osrm_operator.Progress.Numbering.{renamed-numbered, built-numbered, named-newest}

module _ (e : Environment) (r : OsrmCluster) where
  -- A round goes by the generations that are read from what it sees.
  pub Round-Realises :
      (s s' : Seen) (active future : Text)
      → get_active_map_generation s.deployments ≡ ok active
      → compute_future_map_generation s.claims ≡ ok future
      → Round e r s s'
      → Realises e r s s' (
          resource_builders_for_phase
            (new_osrm_resource_builder r active future)
            (seen_phase e r s active future))
  Round-Realises s s' active future serves newest
        (round {active = active'} {future = future'} serves' newest' realised) =
      subst
        (λ a. Realises e r s s' (
          resource_builders_for_phase (new_osrm_resource_builder r a future)
            (seen_phase e r s a future)))
        (ok-injective (sym serves' ∙ serves))
        (subst
          (λ f. Realises e r s s' (
            resource_builders_for_phase (new_osrm_resource_builder r active' f)
              (seen_phase e r s active' f)))
          (ok-injective (sym newest' ∙ newest)) realised)

  pub numbered-more :
      (n : ℕ) (claims : List PersistentVolumeClaim)
      → AreNumbered r.meta n claims
      → AreNumbered r.meta (n + 1) claims
  numbered-more n claims = All-map claims (λ v (k, claim, below). (k, claim, omega arith))

  map_builders-plain :
      (g : Text) (ps : List ProfileSpec)
      → All (λ b. built_kind b ≢ Kind.deployment) (map_builders g ps)
  unfolding map_builders
  map_builders-plain g [] = tt
  map_builders-plain g (p ∷ ps) = (λ h. cc, (λ h. cc, map_builders-plain g ps))

  no_claim :
      (name : Text) (bs : List ResourceBuilder)
      → All (λ b. built_kind b ≢ Kind.claim) bs
      → ¬ Any (BuildsClaim r.meta name) bs
  no_claim name [] h a = a
  no_claim name (b ∷ bs) (h, hs) (inl (k, named)) = h k
  no_claim name (b ∷ bs) (h, hs) (inr a) = no_claim name bs hs a

  module _ (n : ℕ) (fits : n + 1 ≤ max_int64) (p : ProfileSpec) (ps : List ProfileSpec)
      (first : r.spec.profiles ≡ p ∷ ps)
      (usable : All (λ q. IsComponent q.name) r.spec.profiles) where
    abbrev next : Text
    next = itoa (pos (n + 1))

    first_usable : IsComponent p.name
    first_usable = (subst (All (λ q. IsComponent q.name)) first usable).0

    first_there :
        (s' : Seen)
        → All
            (λ b.
              built_kind b ≡ Kind.claim → Any (λ v. v.meta.name ≡ built_name r.meta b) s'.claims)
            (map_builders next (p ∷ ps))
        → HasGeneration r.meta (n + 1) s'.claims
    unfolding map_builders built_name
    first_there s' there =
        named-newest r.meta (n + 1) p.name s'.claims fits first_usable (there.0 refl)

    -- Where the claims and jobs of the next generation were built, the map is being updated.
    pub built-IsUpdating :
        (s s' : Seen)
        → Realises e r s s' (map_builders next r.spec.profiles)
        → get_active_map_generation s.deployments ≡ ok (itoa (pos n))
        → AreNumbered r.meta (n + 1) s.claims
        → IsBuilt e r s (itoa (pos n))
        → IsUpdating e r n s'
    built-IsUpdating s s' realised serves numbered map_built =
        let serves' = realised.workers_left (map_builders-plain next r.spec.profiles) ∙ serves in
        record {
          serves = serves';
          numbered =
              All-map s'.claims
                (λ v from. elim from [
                  | inl a ↦ renamed-numbered r.meta (n + 1) v s.claims a numbered
                  | inr a ↦ (
                    n + 1,
                    built-numbered r.meta (n + 1) v r.spec.profiles fits usable a,
                    omega arith,
                  )
                ])
                realised.claims_from;
          newest = first_there s' (
              subst
                (λ qs.
                  All
                    (λ b.
                      built_kind b ≡ Kind.claim
                      → Any (λ v. v.meta.name ≡ built_name r.meta b) s'.claims)
                    (map_builders next qs))
                first realised.claims_there);
          map_built = realised.stays_built (itoa (pos n)) serves' map_built;
          same = ap (λ x. x.pbf_url) (sym realised.noted);
        }

    built-newest : (s : Seen) → IsBuilt e r s next → HasGeneration r.meta (n + 1) s.claims
    built-newest s (claims, jobs) =
        let names =
          subst
            (λ qs.
              All (λ name. Any (λ v. claim_name v ≡ name) s.claims) (profile_names r.meta next qs))
            first
            (All-map (profile_names r.meta next r.spec.profiles) (λ name done. done.0) claims) in
        named-newest r.meta (n + 1) p.name s.claims fits first_usable names.0

    -- Where no claim was built, but the workers of the next generation, the cluster is updated.
    pub built-IsUpdated :
        (s s' : Seen) (bs : List ResourceBuilder)
        → Realises e r s s' bs
        → All (λ b. built_kind b ≢ Kind.claim) bs
        → Any (λ b. b ≡ deployment p next) bs
        → AreNumbered r.meta (n + 1) s.claims
        → IsBuilt e r s next
        → IsUpdated e r n s'
    built-IsUpdated s s' bs realised claimless workers numbered map_built =
        let (siblings, d, d', ds, written, seen) =
          realised.workers_written p ps next first workers in
        let serves' =
          subst (λ x. get_active_map_generation x ≡ ok next) (sym seen)
            (update_deployment-active e (of_cluster r) p next (n + 1) siblings d d' ds first_usable
              fits refl written).0 in
        let map_built' = realised.stays_built next serves' map_built in
        record {
          serves = serves';
          numbered =
              All-map s'.claims
                (λ v from. elim from [
                  | inl a ↦ renamed-numbered r.meta (n + 1) v s.claims a numbered
                  | inr a ↦ absurd (no_claim v.meta.name bs claimless a)
                ])
                realised.claims_from;
          newest = built-newest s' map_built';
          map_built = map_built';
          same = ap (λ x. x.pbf_url) (sym realised.noted);
        }
