-- ===== src/Collection/Generations.antt =====
-- The claims and jobs: what the second half of garbage collection loses.
use mathlib.Core.Path.{subst}
use osrm_operator.Base.{
  List, Option, [], ◌∷◌, inl, inr, ◌↔◌, Bool, true, false, not, ◌&&◌, ◌||◌, ◌≡◌, refl, sym, ap, ◌∙◌,
  arith, All, Any, ok,
}
use osrm_operator.Text.{Text, codes}
use osrm_operator.Dict.{contains}
use osrm_operator.Kube.{
  ObjectMeta, Kind, Item, item_meta, item_name, PersistentVolumeClaim, Job, Deployment, Volume,
}
use osrm_operator.Generation.{
  compute_future_map_generation, get_active_map_generation, get_instance_active_map_generation,
}
use osrm_operator.Api.{ProfileSpec}
use osrm_operator.Children.Deployed.{Named, AreDeployments, IsDeployment}
use osrm_operator.Client.{Client, Action, answer, wrap_result, ◌>>=◌, ◌>>◌, lift}
use osrm_operator.Client.Rules.{>>=-state, >>=-ok, wrap_result-ok}
use osrm_operator.Client.Lawful.{kind_eq, Lawful, owns}
use osrm_operator.Children.{list_persistent_volume_claims, list_jobs}
use osrm_operator.Children.Reads.{Same, list_claims-Same, list_jobs-Same}
use osrm_operator.Collection.{sweep, collect_generations}
use osrm_operator.Collection.Sweep.{Collects, sweep-Keeps, sweep-Collects}
use osrm_operator.Collection.Collect.{>>-Collects}

-- The kinds that bear a generation in their names.
abbrev pub is_generation_kind : Kind → Bool
is_generation_kind k = kind_eq Kind.claim k || kind_eq Kind.job k

-- The future generation is that of claims whose names are those given, and no others.
abbrev pub IsFuture : (Text → Type 0) → Text → Type 0
IsFuture is_claim future =
    (pvcs : List PersistentVolumeClaim) × (compute_future_map_generation pvcs ≡ ok future)
    × ((n : Text) → is_claim n ↔ Any (λ pvc. pvc.meta.name ≡ n) pvcs)

-- The active generation is read from the deployments, whose volumes are those given.
abbrev pub IsActive : Named → (Text → Option (List Volume)) → List ProfileSpec → Text → Type 0
IsActive named volumes ps active =
    (ds : List Deployment) × AreDeployments named volumes ps ds
    × (get_active_map_generation ds ≡ ok active)

abbrev pub IsActiveOfInstance : Named → (Text → Option (List Volume)) → Text → Type 0
IsActiveOfInstance named volumes active =
    (d : Option Deployment) × IsDeployment (volumes (named [] [])) d
    × (get_instance_active_map_generation d ≡ ok active)

pub IsFuture-same :
    {is_claim is_claim' : Text → Type 0} (future : Text)
    → ((n : Text) → is_claim' n ↔ is_claim n)
    → IsFuture is_claim future
    → IsFuture is_claim' future
IsFuture-same future same (pvcs, computed, iff) =
    (pvcs, computed, λ n. (λ h. (iff n).0 ((same n).0 h), λ x. (same n).1 ((iff n).1 x)))

module _ (c : Client) (m : ObjectMeta) (laws : Lawful c m.namespace m.name)
    (read_active : Action (c.World) Text)
    (reads : (w : c.World) → Same c m laws w (read_active w).1)
    (expected : Text → Text → List Text) where
  open c use {World, list}
  open laws use {child, list_keeps, list_complete, list_sound, list_namespace}

  abbrev get_claims : Action World (List PersistentVolumeClaim)
  get_claims =
      answer (wrap_result (codes "failed to get PVCs for garbage collection"))
        (list_persistent_volume_claims c m.namespace m.name)

  abbrev get_jobs : Action World (List Job)
  get_jobs =
      answer (wrap_result (codes "failed to get Jobs for garbage collection"))
        (list_jobs c m.namespace m.name)

  claims_listed :
      (w : World) (xs : List PersistentVolumeClaim)
      → (get_claims w).0 ≡ ok xs
      → (list Kind.claim m.namespace m.name w).0 ≡ ok xs
  unfolding list_persistent_volume_claims
  claims_listed w xs h =
      wrap_result-ok (codes "failed to list PVCs") (list Kind.claim m.namespace m.name w).0 xs
        (wrap_result-ok (codes "failed to get PVCs for garbage collection") _ xs h)

  jobs_listed :
      (w : World) (xs : List Job)
      → (get_jobs w).0 ≡ ok xs
      → (list Kind.job m.namespace m.name w).0 ≡ ok xs
  unfolding list_jobs
  jobs_listed w xs h =
      wrap_result-ok (codes "failed to list Jobs") (list Kind.job m.namespace m.name w).0 xs
        (wrap_result-ok (codes "failed to get Jobs for garbage collection") _ xs h)

  get_claims-Same : (w : World) → Same c m laws w (get_claims w).1
  get_claims-Same w = list_claims-Same c m laws w

  get_jobs-Same : (w : World) → Same c m laws w (get_jobs w).1
  get_jobs-Same w = list_jobs-Same c m laws w

  abbrev swept : List PersistentVolumeClaim → List Job → Text → Text → Action World (Unit {0})
  swept pvcs jobs active future =
      sweep c Kind.claim (expected active future) pvcs
      >> sweep c Kind.job (expected active future) jobs

  -- The children of the kind in the state are listed, and are in the namespace.
  abbrev Listed : (k : Kind) → List (Item k) → World → Type 0
  Listed k xs w =
      All (λ x. (item_meta k x).namespace ≡ m.namespace) xs
      × ((n : Text) → owns laws w k n ≡ true → Any (λ x. item_name k x ≡ n) xs)

  named-owned :
      (k : Kind) (w : World) (xs : List (Item k)) (n : Text)
      → All (λ x. owns laws w k (item_name k x) ≡ true) xs
      → Any (λ x. item_name k x ≡ n) xs
      → owns laws w k n ≡ true
  named-owned k w [] n hs a = absurd a
  named-owned k w (x ∷ xs) n (h, hs) (inl e) = subst (λ n'. owns laws w k n' ≡ true) e h
  named-owned k w (x ∷ xs) n (h, hs) (inr a) = named-owned k w xs n hs a

  Listed-Same :
      (k : Kind) (xs : List (Item k)) (w w' : World)
      → Same c m laws w w'
      → Listed k xs w
      → Listed k xs w'
  Listed-Same k xs w w' same (hs, complete) =
      (hs, λ n o. complete n (sym (ap (λ x. x.is_owned) (same k n)) ∙ o))

  swept-Collects :
      (pvcs : List PersistentVolumeClaim) (jobs : List Job) (active future : Text) (w : World)
      → Listed Kind.claim pvcs w
      → Listed Kind.job jobs w
      → (swept pvcs jobs active future w).0 ≡ ok tt
      → Collects c m laws
          (expected active future)
          is_generation_kind
          w
          (swept pvcs jobs active future w).1
  swept-Collects pvcs jobs active future w (claims_in, claims) (jobs_in, jobs_all) h =
      let keys = expected active future in
      let first = sweep c Kind.claim keys pvcs in
      >>-Collects c m laws keys (kind_eq Kind.claim) (kind_eq Kind.job) first
        (sweep c Kind.job keys jobs) w tt h
        (sweep-Collects c m laws keys Kind.claim pvcs w claims_in claims)
        (sweep-Collects c m laws keys Kind.job jobs (first w).1 jobs_in λ n o. jobs_all n (
          sym (
            ap (λ x. x.is_owned)
              (sweep-Keeps c m laws keys Kind.claim pvcs w claims_in Kind.job n refl))
          ∙ o))

  abbrev with_active : List PersistentVolumeClaim → List Job → Text → Action World (Unit {0})
  with_active pvcs jobs active =
      lift (
        wrap_result (codes "failed to get future map generation")
          (compute_future_map_generation pvcs))
      >>= swept pvcs jobs active

  abbrev with_jobs : List PersistentVolumeClaim → List Job → Action World (Unit {0})
  with_jobs pvcs jobs = read_active >>= with_active pvcs jobs

  abbrev with_claims : List PersistentVolumeClaim → Action World (Unit {0})
  with_claims pvcs = get_jobs >>= with_jobs pvcs

  -- The generations that a collection went by: the active one as it was read, in a state of the same
  -- children, and the future one of the claims that there were.
  abbrev pub Generations : World → Text → Text → Type 0
  Generations w active future =
      ((v : World) × Same c m laws w v × ((read_active v).0 ≡ ok active))
      × IsFuture (λ n. owns laws w Kind.claim n ≡ true) future

  -- Where the second half of garbage collection succeeds, just those claims and jobs were lost whose
  -- names are not expected for the active generation and the future one.
  pub collect_generations-Collects :
      (w : World)
      → (collect_generations c m read_active expected w).0 ≡ ok tt
      → (active : Text) × (future : Text) × Generations w active future
        × Collects c m laws
            (expected active future)
            is_generation_kind
            w
            (collect_generations c m read_active expected w).1
  unfolding collect_generations
  collect_generations-Collects w h =
      let (pvcs, claims_ok, h1, state1) = >>=-ok get_claims with_claims w tt h in
      let w1 = (get_claims w).1 in
      let (jobs, jobs_ok, h2, state2) = >>=-ok get_jobs (with_jobs pvcs) w1 tt h1 in
      let w2 = (get_jobs w1).1 in
      let (active, active_ok, h3, state3) = >>=-ok read_active (with_active pvcs jobs) w2 tt h2 in
      let w3 = (read_active w2).1 in
      let compute =
        wrap_result (codes "failed to get future map generation")
          (compute_future_map_generation pvcs) in
      let (future, future_ok, h4, state4) =
        >>=-ok (lift compute) (swept pvcs jobs active) w3 tt h3 in
      let claims_found = claims_listed w pvcs claims_ok in
      let jobs_found = jobs_listed w1 jobs jobs_ok in
      let same1 = get_claims-Same w in
      let same3 : Same c m laws w w3 = λ k n. reads w2 k n ∙ get_jobs-Same w1 k n ∙ same1 k n in
      let jobs_w : Listed Kind.job jobs w1 =
        (list_namespace Kind.job w1 jobs jobs_found, list_complete Kind.job w1 jobs jobs_found) in
      let claims_w : Listed Kind.claim pvcs w = (
        list_namespace Kind.claim w pvcs claims_found,
        list_complete Kind.claim w pvcs claims_found,
      ) in
      let swept_all =
        swept-Collects pvcs jobs active future w3 (Listed-Same Kind.claim pvcs w w3 same3 claims_w)
          (Listed-Same Kind.job jobs w1 w3 (λ k n. reads w2 k n ∙ get_jobs-Same w1 k n) jobs_w)
          h4 in
      (
        active,
        future,
        (
          (w2, λ k n. get_jobs-Same w1 k n ∙ same1 k n, active_ok),
          (
            pvcs,
            wrap_result-ok (codes "failed to get future map generation")
                (compute_future_map_generation pvcs) future future_ok,
            λ n. (
              claims_w.1 n,
              named-owned Kind.claim w pvcs n (list_sound Kind.claim w pvcs claims_found),
            ),
          ),
        ),
        λ k n.
            ap (λ v. owns laws v k n) (state1 ∙ state2 ∙ state3 ∙ state4)
            ∙ swept_all k n
            ∙ ap
                (λ x.
                  x.is_owned
                  && not (is_generation_kind k && not (contains n (expected active future))))
                (same3 k n),
      )

  swept-Others :
      (pvcs : List PersistentVolumeClaim) (jobs : List Job) (active future : Text) (w : World)
      (k : Kind) (n : Text)
      → All (λ x. x.meta.namespace ≡ m.namespace) pvcs
      → All (λ x. x.meta.namespace ≡ m.namespace) jobs
      → is_generation_kind k ≡ false
      → child (swept pvcs jobs active future w).1 k n ≡ child w k n
  swept-Others pvcs jobs active future w k n claims_in jobs_in e =
      let keys = expected active future in
      let first = sweep c Kind.claim keys pvcs in
      let kept = sweep-Keeps c m laws keys Kind.claim pvcs w claims_in k n (ground arith) in
      >>=-state (λ v. child v k n ≡ child w k n) first (λ _. sweep c Kind.job keys jobs) w kept
        λ _ _. sweep-Keeps c m laws keys Kind.job jobs (first w).1 jobs_in k n (ground arith) ∙ kept

  -- On every outcome the second half of garbage collection leaves the children of other kinds.
  pub collect_generations-Others :
      (w : World) (k : Kind) (n : Text)
      → is_generation_kind k ≡ false
      → child (collect_generations c m read_active expected w).1 k n ≡ child w k n
  unfolding collect_generations
  collect_generations-Others w k n e =
      let P : World → Type 0 = λ v. child v k n ≡ child w k n in
      let w1 = (get_claims w).1 in
      let w2 = (get_jobs w1).1 in
      let w3 = (read_active w2).1 in
      let same1 = get_claims-Same w k n in
      let same2 = get_jobs-Same w1 k n ∙ same1 in
      let same3 = reads w2 k n ∙ same2 in
      >>=-state P get_claims with_claims w same1 λ pvcs claims_ok.
        >>=-state P get_jobs (with_jobs pvcs) w1 same2 λ jobs jobs_ok.
          >>=-state P read_active (with_active pvcs jobs) w2 same3 λ active _.
            >>=-state P
              (lift (
                wrap_result (codes "failed to get future map generation")
                  (compute_future_map_generation pvcs)))
              (swept pvcs jobs active) w3 same3
              λ future _.
                swept-Others pvcs jobs active future w3 k n
                  (list_namespace Kind.claim w pvcs (claims_listed w pvcs claims_ok))
                  (list_namespace Kind.job w1 jobs (jobs_listed w1 jobs jobs_ok)) e
                ∙ same3
