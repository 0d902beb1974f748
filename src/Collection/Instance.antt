-- ===== src/Collection/Instance.antt =====
-- An instance's garbage collection as a whole: what it keeps on every outcome, and what is left where
-- it succeeds.
use osrm_operator.Base.{
  List, [], Bool, true, false, not, ◌&&◌, ◌||◌, ◌≡◌, refl, sym, ap, ◌↔◌, ◌∙◌, arith, ok,
  if◌then◌else◌,
}
use mathlib.Core.Path.{subst, fun_ext}
use osrm_operator.Children.Deployed.{Named, fetch-IsDeployment}
use osrm_operator.Collection.Expected.{IsExpectedOfInstance, and_true_iff}
use osrm_operator.Collection.Expected.Kept.{
  instance_expected_generations_iff, instance_expected_resources_iff,
}
use osrm_operator.Text.{Text, codes}
use osrm_operator.Dict.{contains}
use osrm_operator.Kube.{Kind}
use osrm_operator.Api.{Phase, InstanceSpec, OsrmInstance, child_resource_name}
use osrm_operator.Generation.{get_instance_active_map_generation}
use osrm_operator.Client.{Client, answer, wrap_result, lift, ◌>>◌}
use osrm_operator.Client.Rules.{>>=-state, >>=-ok, wrap_result-ok}
use osrm_operator.Client.Lawful.{kind_eq, Lawful, owns, mounted}
use osrm_operator.Children.{get_deployment}
use osrm_operator.Children.Reads.{Same, fetch_deployment-Same}
use osrm_operator.Collection.{
  instance_kinds, collect_kinds, collect_generations, read_instance_active,
  instance_expected_resources, instance_expected_generations, instance_garbage_collection,
}
use osrm_operator.Collection.Collect.{
  collect_kinds-Keeps, collect_kinds-Collects, mem_kind, and-false,
}
use osrm_operator.Collection.Generations.{
  is_generation_kind, IsFuture, IsFuture-same, IsActiveOfInstance, collect_generations-Collects,
  collect_generations-Others,
}

-- An instance's collection goes through each kind that bears no generation, but config maps.
instance_kinds-mem :
    (k : Kind)
    → mem_kind instance_kinds k ≡ (not (is_generation_kind k) && not (kind_eq Kind.config_map k))
instance_kinds-mem Kind.deployment = refl
instance_kinds-mem _ = refl

instance_keeps_bool :
    (g b m e1 e2 : Bool)
    → (b && not ((not g && not m) && not e1) && not (g && not e2))
      ≡ (b && (if g then e2 else (m || e1)))
instance_keeps_bool g b m e1 e2 = ground arith

keeps_all : (b : Bool) → (b && not (false && true)) ≡ b
keeps_all b = ground arith

-- In the state, the children are just those of the given ones that are expected of an instance with the
-- spec in the phase: for the active generation as it is read in that state, and the future one of
-- just the claims given.
abbrev pub IsLeftOfInstance :
    {c : Client} {namespace owner : Text}
    → Lawful c namespace owner
    → Named
    → InstanceSpec
    → Phase
    → (Kind → Text → Type 0)
    → c.World
    → Type 0
IsLeftOfInstance laws named spec phase there w =
    (active : Text) × (future : Text) × IsActiveOfInstance named (mounted laws w) active
    × IsFuture (there Kind.claim) future
    × ((k : Kind) (n : Text)
        → (owns laws w k n ≡ true)
          ↔ (there k n × IsExpectedOfInstance named spec.speed_updates phase active future k n))

pub IsLeftOfInstance-same :
    {c : Client} {namespace owner : Text} (laws : Lawful c namespace owner) (named : Named)
    (spec : InstanceSpec) (phase : Phase) (there there' : Kind → Text → Type 0) (w w' : c.World)
    → ((k : Kind) (n : Text) → there' k n ↔ there k n)
    → ((k : Kind) (n : Text) → laws.child w' k n ≡ laws.child w k n)
    → IsLeftOfInstance laws named spec phase there w
    → IsLeftOfInstance laws named spec phase there' w'
IsLeftOfInstance-same laws named spec phase there there' w w' same_there same
      (active, future, is_active, is_future, left) =
    (
      active,
      future,
      subst (λ volumes. IsActiveOfInstance named volumes active)
          (fun_ext (λ n. ap (λ x. x.mounts) (sym (same Kind.deployment n)))) is_active,
      IsFuture-same future (same_there Kind.claim) is_future,
      λ k n. (
        λ o.
            let (t, e) = (left k n).0 (ap (λ x. x.is_owned) (sym (same k n)) ∙ o) in
            ((same_there k n).1 t, e),
        λ b. ap (λ x. x.is_owned) (same k n) ∙ (left k n).1 ((same_there k n).0 b.0, b.1),
      ),
    )

module _ (c : Client) (r : OsrmInstance) (laws : Lawful c r.meta.namespace r.meta.name) where
  open c use {World}
  open laws use {child}

  pub read_instance_active-Same : (w : World) → Same c r.meta laws w (read_instance_active c r w).1
  unfolding read_instance_active get_deployment
  read_instance_active-Same w k n =
      >>=-state (λ v. child v k n ≡ child w k n)
        (answer (wrap_result (codes "failed to get deployment for garbage collection"))
          (get_deployment c r))
        (λ d. lift (
          wrap_result (codes "failed to get active map generation")
            (get_instance_active_map_generation d)))
        w (fetch_deployment-Same c r.meta laws (child_resource_name r.meta [] []) w k n)
        (λ _ _. fetch_deployment-Same c r.meta laws (child_resource_name r.meta [] []) w k n)

  abbrev pub instance_kept_names : Text → Text → List Text
  instance_kept_names active future =
      instance_expected_generations r.meta r.status.phase active future

  -- Whether a child is to stay: a claim or a job by the names for the generations, a config map in
  -- any case, any other child by the names of the resources.
  abbrev pub is_instance_kept : Text → Text → Kind → Text → Bool
  is_instance_kept active future k n =
      if is_generation_kind k
      then contains n (instance_kept_names active future)
      else kind_eq Kind.config_map k || contains n (instance_expected_resources r)

  -- Whatever the outcome, and wherever an instance's collection stopped, no child is lost whose kind bears no
  -- generation and whose name is among those of the expected resources.
  pub instance_garbage_collection-Keeps :
      (w : World) (k : Kind) (n : Text)
      → is_generation_kind k ≡ false
      → contains n (instance_expected_resources r) ≡ true
      → child (instance_garbage_collection c r w).1 k n ≡ child w k n
  unfolding instance_garbage_collection
  instance_garbage_collection-Keeps w k n g e =
      let first = collect_kinds c instance_kinds r.meta (instance_expected_resources r) in
      let kept =
        collect_kinds-Keeps c r.meta laws (instance_expected_resources r) instance_kinds w k n
          (rw e (and-false (mem_kind instance_kinds k))) in
      >>=-state (λ v. child v k n ≡ child w k n) first
        (λ _. collect_generations c r.meta (read_instance_active c r) instance_kept_names) w kept
        (λ _ _.
          collect_generations-Others c r.meta laws (read_instance_active c r)
            read_instance_active-Same instance_kept_names (first w).1 k n g
          ∙ kept)

  read_instance_active-IsActive :
      (w : World) (active : Text)
      → (read_instance_active c r w).0 ≡ ok active
      → IsActiveOfInstance (child_resource_name r.meta) (mounted laws w) active
  unfolding read_instance_active get_deployment
  read_instance_active-IsActive w active h =
      let name = child_resource_name r.meta [] [] in
      let (d, read, computed, state) =
        >>=-ok
          (answer (wrap_result (codes "failed to get deployment for garbage collection"))
            (get_deployment c r))
          (λ d. lift (
            wrap_result (codes "failed to get active map generation")
              (get_instance_active_map_generation d)))
          w active h in
      (
        d,
        fetch-IsDeployment c r.meta laws name w d (
            wrap_result-ok (codes "failed to get deployment for garbage collection")
              (get_deployment c r w).0 d read),
        wrap_result-ok (codes "failed to get active map generation")
            (get_instance_active_map_generation d) active computed,
      )

  -- The same on the Booleans that the collection computes.
  instance_garbage_collection_lem :
      (w : World)
      → (instance_garbage_collection c r w).0 ≡ ok tt
      → (active : Text) × (future : Text) × IsActiveOfInstance
          (child_resource_name r.meta)
          (mounted laws (instance_garbage_collection c r w).1)
          active
        × IsFuture (λ n. owns laws w Kind.claim n ≡ true) future
        × ((k : Kind) (n : Text)
            → owns laws (instance_garbage_collection c r w).1 k n
              ≡ (owns laws w k n && is_instance_kept active future k n))
  unfolding instance_garbage_collection
  instance_garbage_collection_lem w h =
      let keys = instance_expected_resources r in
      let first = collect_kinds c instance_kinds r.meta keys in
      let second = collect_generations c r.meta (read_instance_active c r) instance_kept_names in
      let (u, done, rest, state) = >>=-ok first (λ _. second) w tt h in
      let w1 = (first w).1 in
      let collected = collect_kinds-Collects c r.meta laws keys instance_kinds w done in
      let (active, future, ((v, same, read), is_future), swept) =
        collect_generations-Collects c r.meta laws (read_instance_active c r)
          read_instance_active-Same instance_kept_names w1 rest in
      let others =
        collect_generations-Others c r.meta laws (read_instance_active c r)
          read_instance_active-Same instance_kept_names w1 Kind.deployment in
      let deployed : mounted laws v ≡ mounted laws ((first >> second) w).1 = fun_ext (λ n.
        ap (λ x. x.mounts)
          (same Kind.deployment n
            ∙ sym (others n refl)
            ∙ ap (λ v'. child v' Kind.deployment n) (sym state))) in
      (
        active,
        future,
        subst (λ volumes. IsActiveOfInstance (child_resource_name r.meta) volumes active) deployed
            (read_instance_active-IsActive v active read),
        IsFuture-same future
            (λ n.
              let left = collected Kind.claim n ∙ keeps_all (owns laws w Kind.claim n) in
              (λ h. left ∙ h, λ h. sym left ∙ h))
            is_future,
        λ k n. rw state (
            swept k n
            ∙ rw (collected k n, instance_kinds-mem k)
                (instance_keeps_bool (is_generation_kind k) (owns laws w k n)
                  (kind_eq Kind.config_map k) (contains n (instance_expected_resources r))
                  (contains n (instance_kept_names active future)))),
      )

  is_instance_kept_iff :
      (active future : Text) (k : Kind) (n : Text)
      → (is_instance_kept active future k n ≡ true)
        ↔ IsExpectedOfInstance
            (child_resource_name r.meta)
            r.spec.speed_updates
            r.status.phase
            active
            future
            k
            n
  is_instance_kept_iff active future Kind.claim n =
      instance_expected_generations_iff r.meta r.status.phase active future n
  is_instance_kept_iff active future Kind.job n =
      instance_expected_generations_iff r.meta r.status.phase active future n
  is_instance_kept_iff active future Kind.config_map n = (λ h. tt, λ h. refl)
  is_instance_kept_iff active future Kind.deployment n = instance_expected_resources_iff r n
  is_instance_kept_iff active future _ n = instance_expected_resources_iff r n

  -- Where an instance's garbage collection ends without an error, the children that are left are just
  -- those that were there and are expected: the claim and the job of the active generation, which is
  -- that of the deployment as it stands, those of the future generation, which is computed from just
  -- the claims that were there, while the map is updated or workers are started with it, every config
  -- map, and any other child by its name, the cron job's only where the spec has speed updates.
  pub instance_garbage_collection_exact :
      (w : World)
      → (instance_garbage_collection c r w).0 ≡ ok tt
      → IsLeftOfInstance laws
          (child_resource_name r.meta)
          r.spec
          r.status.phase
          (λ k n. owns laws w k n ≡ true)
          (instance_garbage_collection c r w).1
  instance_garbage_collection_exact w h =
      let (active, future, is_active, is_future, left) = instance_garbage_collection_lem w h in
      (
        active,
        future,
        is_active,
        is_future,
        λ k n. rw (left k n) (
            and_true_iff (owns laws w k n) (is_instance_kept active future k n) (λ o. o, λ o. o)
              (is_instance_kept_iff active future k n)),
      )
