-- ===== src/Children/Reads.antt =====
-- What the reads of child objects do to the children.
use osrm_operator.Base.{ok, Result, List, [], ◌∷◌, ◌++◌, Option, none, some, ◌≡◌, refl, ◌∙◌}
use osrm_operator.Text.{Text}
use osrm_operator.Kube.{ObjectMeta, Kind, Object, object, Deployment}
use osrm_operator.Api.{
  ProfileSpec, SpeedUpdatesSpec, OsrmCluster, OsrmInstance, child_resource_name,
}
use osrm_operator.Builders.{cron_job_suffix}
use osrm_operator.Client.{Client, Action, ◌>>=◌, lift}
use osrm_operator.Client.Lawful.{Lawful}
use osrm_operator.Client.Rules.{>>=-state}
use osrm_operator.Children.{
  list_persistent_volume_claims, list_jobs, fetch, fetch_deployments, add_child,
  add_profiles_children, get_child_resources, get_instance_child_resources,
}

module _ (c : Client) (m : ObjectMeta) (laws : Lawful c m.namespace m.name) where
  open c use {World}
  open laws use {child, get_keeps, list_keeps}

  -- No child came or went between the two states.
  abbrev pub Same : World → World → Type 0
  Same w w' = (k : Kind) (n : Text) → child w' k n ≡ child w k n

  pub list_claims-Same :
      (w : World) → Same w (list_persistent_volume_claims c m.namespace m.name w).1
  unfolding list_persistent_volume_claims
  list_claims-Same w = list_keeps Kind.claim w

  pub list_jobs-Same : (w : World) → Same w (list_jobs c m.namespace m.name w).1
  unfolding list_jobs
  list_jobs-Same w = list_keeps Kind.job w

  fetch-Same : (k : Kind) (n : Text) (w : World) → Same w (fetch c k m.namespace n w).1
  unfolding fetch
  fetch-Same k n w = get_keeps k n w

  pub fetch_deployments-Same :
      (ps : List ProfileSpec) (ds : List Deployment) (w : World)
      → Same w (fetch_deployments c m ps ds w).1
  unfolding fetch_deployments
  fetch_deployments-Same [] ds w = λ k n. refl
  fetch_deployments-Same (p ∷ ps) ds w = λ k n.
      let name = child_resource_name m p.name [] in
      let first = fetch-Same Kind.deployment name w k n in
      let append : Option Deployment → List Deployment =
        λ d. elim d [ none ↦ ds | some x ↦ ds ++ x ∷ [] ] in
      >>=-state (λ w'. child w' k n ≡ child w k n) (fetch c Kind.deployment m.namespace name)
        (λ d. fetch_deployments c m ps (append d)) w first
        (λ d _.
          fetch_deployments-Same ps (append d) (fetch c Kind.deployment m.namespace name w).1 k n
          ∙ first)

  pub fetch_deployment-Same :
      (n : Text) (w : World) → Same w (fetch c Kind.deployment m.namespace n w).1
  fetch_deployment-Same = fetch-Same Kind.deployment

  -- The action leaves every child as it is.
  pub record Reads {A : Type 0} (a : Action World A) : Type 0 where
    pub reads : (w : World) → Same w (a w).1

  >>=-Reads :
      {A B : Type 0} {a : Action World A} {f : A → Action World B}
      → Reads a
      → ((x : A) → Reads (f x))
      → Reads (a >>= f)
  >>=-Reads {a = a} {f = f} first second = record {
    reads = λ w k n.
        >>=-state (λ w'. child w' k n ≡ child w k n) a f w (first.reads w k n)
          (λ x _. (second x).reads (a w).1 k n ∙ first.reads w k n);
  }

  fetch-Reads : (k : Kind) (n : Text) → Reads (fetch c k m.namespace n)
  fetch-Reads k n = record { reads = fetch-Same k n }

  lift-Reads : {A : Type 0} (x : Result A) → Reads (lift x)
  lift-Reads x = record { reads = λ w k n. refl }

  add_child-Reads :
      (k : Kind) (component suffix : Text) (children : List Object)
      → Reads (add_child c k m component suffix children)
  unfolding add_child
  add_child-Reads k component suffix children =
      >>=-Reads (fetch-Reads k (child_resource_name m component suffix))
        (λ x. lift-Reads (ok (elim x [ none ↦ children | some o ↦ children ++ object k o ∷ [] ])))

  add_profiles_children-Reads :
      (ps : List ProfileSpec) (children : List Object)
      → Reads (add_profiles_children c m ps children)
  unfolding add_profiles_children
  add_profiles_children-Reads [] children = record { reads = λ w j n. refl }
  add_profiles_children-Reads (p ∷ ps) children =
      >>=-Reads (add_child-Reads Kind.cron_job p.name cron_job_suffix children) (λ os.
        >>=-Reads (add_child-Reads Kind.deployment p.name [] os) (λ os.
          >>=-Reads (add_child-Reads Kind.autoscaler p.name [] os) (λ os.
            >>=-Reads (add_child-Reads Kind.disruption_budget p.name [] os) (λ os.
              >>=-Reads (add_child-Reads Kind.service p.name [] os)
                (λ os. add_profiles_children-Reads ps os)))))

pub get_child_resources-Reads :
    (c : Client) (r : OsrmCluster) (laws : Lawful c r.meta.namespace r.meta.name)
    → Reads c r.meta laws (get_child_resources c r)
unfolding get_child_resources
get_child_resources-Reads c r laws =
    >>=-Reads c r.meta laws (add_child-Reads c r.meta laws Kind.deployment [] [] []) (λ os.
      >>=-Reads c r.meta laws (add_child-Reads c r.meta laws Kind.service [] [] os) (λ os.
        >>=-Reads c r.meta laws (add_child-Reads c r.meta laws Kind.config_map [] [] os)
          (λ os. add_profiles_children-Reads c r.meta laws r.spec.profiles os)))

pub get_instance_child_resources-Reads :
    (c : Client) (r : OsrmInstance) (laws : Lawful c r.meta.namespace r.meta.name)
    → Reads c r.meta laws (get_instance_child_resources c r)
unfolding get_instance_child_resources
get_instance_child_resources-Reads c r laws =
    >>=-Reads c r.meta laws (add_child-Reads c r.meta laws Kind.deployment [] [] []) (λ os.
      >>=-Reads c r.meta laws (add_child-Reads c r.meta laws Kind.service [] [] os) (λ os.
        >>=-Reads c r.meta laws (add_child-Reads c r.meta laws Kind.autoscaler [] [] os) (λ os.
          >>=-Reads c r.meta laws (add_child-Reads c r.meta laws Kind.disruption_budget [] [] os)
            (λ os. last os r.spec.speed_updates))))
  where
    last :
        (os : List Object) (u : Option SpeedUpdatesSpec)
        → Reads c r.meta laws (elim u [
          | none ↦ lift (ok os)
          | some updates ↦ add_child c Kind.cron_job r.meta [] cron_job_suffix os
        ])
    last os none = record { reads = λ w j n. refl }
    last os (some updates) = add_child-Reads c r.meta laws Kind.cron_job [] cron_job_suffix os
