-- ===== src/Collection/Cluster.antt =====
-- A cluster's garbage collection as a whole: what it keeps on every outcome, and what is left where
-- it succeeds.
use osrm_operator.Base.{
  List, [], Bool, true, false, not, ◌&&◌, ◌≡◌, refl, sym, ap, ◌↔◌, ◌∙◌, arith, ok, if◌then◌else◌,
}
use mathlib.Core.Path.{subst, fun_ext}
use osrm_operator.Children.Deployed.{Named, fetch_deployments-AreDeployments}
use osrm_operator.Collection.Expected.{IsExpectedChild, and_true_iff}
use osrm_operator.Collection.Expected.Kept.{expected_generations_iff, expected_resources_iff}
use osrm_operator.Text.{Text, codes}
use osrm_operator.Dict.{contains}
use osrm_operator.Kube.{Kind}
use osrm_operator.Api.{Phase, ClusterSpec, OsrmCluster, child_resource_name}
use osrm_operator.Generation.{get_active_map_generation}
use osrm_operator.Client.{Client, answer, wrap_result, lift, ◌>>◌}
use osrm_operator.Client.Rules.{>>=-state, >>=-ok, wrap_result-ok}
use osrm_operator.Client.Lawful.{Lawful, owns, mounted}
use osrm_operator.Children.{get_profiles_deployments}
use osrm_operator.Children.Reads.{Same, fetch_deployments-Same}
use osrm_operator.Collection.{
  cluster_kinds, collect_kinds, collect_generations, read_active, expected_resources,
  expected_generations, garbage_collection,
}
use osrm_operator.Collection.Collect.{
  collect_kinds-Keeps, collect_kinds-Collects, mem_kind, and-false,
}
use osrm_operator.Collection.Generations.{
  is_generation_kind, IsFuture, IsFuture-same, IsActive, collect_generations-Collects,
  collect_generations-Others,
}

-- A cluster's collection goes through each kind that bears no generation.
cluster_kinds-mem : (k : Kind) → mem_kind cluster_kinds k ≡ not (is_generation_kind k)
cluster_kinds-mem Kind.deployment = refl
cluster_kinds-mem _ = refl

keeps_bool :
    (g b e1 e2 : Bool)
    → (b && not (not g && not e1) && not (g && not e2)) ≡ (b && (if g then e2 else e1))
keeps_bool g b e1 e2 = ground arith

keeps_all : (b : Bool) → (b && not (false && true)) ≡ b
keeps_all b = ground arith

-- In the state, the children are just those of the given ones that are expected of a cluster with the
-- spec in the phase: for the active generation as it is read in that state, and the future one of
-- just the claims given.
abbrev pub IsLeft :
    {c : Client} {namespace owner : Text}
    → Lawful c namespace owner
    → Named
    → ClusterSpec
    → Phase
    → (Kind → Text → Type 0)
    → c.World
    → Type 0
IsLeft laws named spec phase there w =
    (active : Text) × (future : Text) × IsActive named (mounted laws w) spec.profiles active
    × IsFuture (there Kind.claim) future
    × ((k : Kind) (n : Text)
        → (owns laws w k n ≡ true)
          ↔ (there k n × IsExpectedChild named spec.profiles phase active future k n))

pub IsLeft-same :
    {c : Client} {namespace owner : Text} (laws : Lawful c namespace owner) (named : Named)
    (spec : ClusterSpec) (phase : Phase) (there there' : Kind → Text → Type 0) (w w' : c.World)
    → ((k : Kind) (n : Text) → there' k n ↔ there k n)
    → ((k : Kind) (n : Text) → laws.child w' k n ≡ laws.child w k n)
    → IsLeft laws named spec phase there w
    → IsLeft laws named spec phase there' w'
IsLeft-same laws named spec phase there there' w w' same_there same
      (active, future, is_active, is_future, left) =
    (
      active,
      future,
      subst (λ volumes. IsActive named volumes spec.profiles active)
          (fun_ext (λ n. ap (λ x. x.mounts) (sym (same Kind.deployment n)))) is_active,
      IsFuture-same future (same_there Kind.claim) is_future,
      λ k n. (
        λ o.
            let (t, e) = (left k n).0 (ap (λ x. x.is_owned) (sym (same k n)) ∙ o) in
            ((same_there k n).1 t, e),
        λ b. ap (λ x. x.is_owned) (same k n) ∙ (left k n).1 ((same_there k n).0 b.0, b.1),
      ),
    )

module _ (c : Client) (r : OsrmCluster) (laws : Lawful c r.meta.namespace r.meta.name) where
  open c use {World}
  open laws use {child}

  pub read_active-Same : (w : World) → Same c r.meta laws w (read_active c r w).1
  unfolding read_active get_profiles_deployments
  read_active-Same w k n =
      >>=-state (λ v. child v k n ≡ child w k n)
        (answer (wrap_result (codes "failed to get profiles deployments for garbage collection"))
          (get_profiles_deployments c r))
        (λ ds. lift (
          wrap_result (codes "failed to get active map generation") (get_active_map_generation ds)))
        w (fetch_deployments-Same c r.meta laws r.spec.profiles [] w k n)
        (λ _ _. fetch_deployments-Same c r.meta laws r.spec.profiles [] w k n)

  abbrev pub kept_names : Text → Text → List Text
  kept_names active future =
      expected_generations r.meta r.status.phase active future r.spec.profiles

  -- Whether a child is to stay: a claim or a job by the names for the generations, any other child
  -- by the names of the resources.
  abbrev pub is_kept : Text → Text → Kind → Text → Bool
  is_kept active future k n =
      if is_generation_kind k
      then contains n (kept_names active future)
      else contains n (expected_resources r)

  -- Whatever the outcome, and wherever the collection stopped, no child is lost whose kind bears no
  -- generation and whose name is among those of the expected resources.
  pub garbage_collection-Keeps :
      (w : World) (k : Kind) (n : Text)
      → is_generation_kind k ≡ false
      → contains n (expected_resources r) ≡ true
      → child (garbage_collection c r w).1 k n ≡ child w k n
  unfolding garbage_collection
  garbage_collection-Keeps w k n g e =
      let first = collect_kinds c cluster_kinds r.meta (expected_resources r) in
      let kept =
        collect_kinds-Keeps c r.meta laws (expected_resources r) cluster_kinds w k n
          (rw e (and-false (mem_kind cluster_kinds k))) in
      >>=-state (λ v. child v k n ≡ child w k n) first
        (λ _. collect_generations c r.meta (read_active c r) kept_names) w kept
        (λ _ _.
          collect_generations-Others c r.meta laws (read_active c r) read_active-Same kept_names
            (first w).1 k n g
          ∙ kept)

  read_active-IsActive :
      (w : World) (active : Text)
      → (read_active c r w).0 ≡ ok active
      → IsActive (child_resource_name r.meta) (mounted laws w) r.spec.profiles active
  unfolding read_active get_profiles_deployments
  read_active-IsActive w active h =
      let (ds, read, computed, state) =
        >>=-ok
          (answer (wrap_result (codes "failed to get profiles deployments for garbage collection"))
            (get_profiles_deployments c r))
          (λ ds. lift (
            wrap_result (codes "failed to get active map generation")
              (get_active_map_generation ds)))
          w active h in
      let (ds', is, are) = fetch_deployments-AreDeployments c r.meta laws r.spec.profiles [] ds w (
        wrap_result-ok (codes "failed to get profiles deployments for garbage collection")
          (get_profiles_deployments c r w).0 ds read) in
      (
        ds',
        are,
        ap get_active_map_generation (sym is)
            ∙ wrap_result-ok (codes "failed to get active map generation")
                (get_active_map_generation ds) active computed,
      )

  -- The same on the Booleans that the collection computes.
  garbage_collection_lem :
      (w : World)
      → (garbage_collection c r w).0 ≡ ok tt
      → (active : Text) × (future : Text) × IsActive
          (child_resource_name r.meta)
          (mounted laws (garbage_collection c r w).1)
          r.spec.profiles
          active
        × IsFuture (λ n. owns laws w Kind.claim n ≡ true) future
        × ((k : Kind) (n : Text)
            → owns laws (garbage_collection c r w).1 k n
              ≡ (owns laws w k n && is_kept active future k n))
  unfolding garbage_collection
  garbage_collection_lem w h =
      let keys = expected_resources r in
      let first = collect_kinds c cluster_kinds r.meta keys in
      let second = collect_generations c r.meta (read_active c r) kept_names in
      let (u, done, rest, state) = >>=-ok first (λ _. second) w tt h in
      let w1 = (first w).1 in
      let collected = collect_kinds-Collects c r.meta laws keys cluster_kinds w done in
      let (active, future, ((v, same, read), is_future), swept) =
        collect_generations-Collects c r.meta laws (read_active c r) read_active-Same kept_names w1
          rest in
      let others =
        collect_generations-Others c r.meta laws (read_active c r) read_active-Same kept_names w1
          Kind.deployment in
      let deployed : mounted laws v ≡ mounted laws ((first >> second) w).1 = fun_ext (λ n.
        ap (λ x. x.mounts)
          (same Kind.deployment n
            ∙ sym (others n refl)
            ∙ ap (λ v'. child v' Kind.deployment n) (sym state))) in
      (
        active,
        future,
        subst (λ volumes. IsActive (child_resource_name r.meta) volumes r.spec.profiles active)
            deployed (read_active-IsActive v active read),
        IsFuture-same future
            (λ n.
              let left = collected Kind.claim n ∙ keeps_all (owns laws w Kind.claim n) in
              (λ h. left ∙ h, λ h. sym left ∙ h))
            is_future,
        λ k n. rw state (
            swept k n
            ∙ rw (collected k n, cluster_kinds-mem k)
                (keeps_bool (is_generation_kind k) (owns laws w k n)
                  (contains n (expected_resources r)) (contains n (kept_names active future)))),
      )

  is_kept_iff :
      (active future : Text) (k : Kind) (n : Text)
      → (is_kept active future k n ≡ true)
        ↔ IsExpectedChild
            (child_resource_name r.meta)
            r.spec.profiles
            r.status.phase
            active
            future
            k
            n
  is_kept_iff active future Kind.claim n =
      expected_generations_iff r.meta r.status.phase active future n r.spec.profiles
  is_kept_iff active future Kind.job n =
      expected_generations_iff r.meta r.status.phase active future n r.spec.profiles
  is_kept_iff active future Kind.deployment n = expected_resources_iff r n
  is_kept_iff active future _ n = expected_resources_iff r n

  -- Where garbage collection ends without an error, the children that are left are just those that
  -- were there and are expected: a profile's claim and job of the active generation, which is that of
  -- the profiles' deployments as they stand, those of the future generation, which is computed from
  -- just the claims that were there, while the map is updated or workers are started with it, and any
  -- other child by the name of a profile, of its cron job where it has speed updates, or of the
  -- gateway.
  pub garbage_collection_exact :
      (w : World)
      → (garbage_collection c r w).0 ≡ ok tt
      → IsLeft laws
          (child_resource_name r.meta)
          r.spec
          r.status.phase
          (λ k n. owns laws w k n ≡ true)
          (garbage_collection c r w).1
  garbage_collection_exact w h =
      let (active, future, is_active, is_future, left) = garbage_collection_lem w h in
      (
        active,
        future,
        is_active,
        is_future,
        λ k n. rw (left k n) (
            and_true_iff (owns laws w k n) (is_kept active future k n) (λ o. o, λ o. o)
              (is_kept_iff active future k n)),
      )
