-- ===== src/Children/Deployed.antt =====
-- The deployments that are read, by the volumes that they mount at the server.
use osrm_operator.Base.{
  List, [], ◌∷◌, ◌++◌, Option, none, some, ◌≡◌, ◌⊎◌, inl, inr, refl, sym, ◌∙◌, ap, Result, ok, err,
  panic, append-nil, append_assoc, Bool-cases,
}
use mathlib.Core.Path.{subst, fun_ext}
use osrm_operator.Contents.Adoption.{ok-injective}
use osrm_operator.Text.{Text}
use osrm_operator.Kube.{ObjectMeta, Kind, Volume, Deployment}
use osrm_operator.Api.{ProfileSpec, child_resource_name}
use osrm_operator.Client.{Client, found, is_not_found}
use osrm_operator.Client.Lawful.{Lawful, mounted}
use osrm_operator.Client.Rules.{>>=-ok}
use osrm_operator.Children.{fetch, fetch_deployments}
use osrm_operator.Children.Reads.{Same, fetch_deployment-Same}

-- How children are named by their component and suffix.
abbrev pub Named : Type 0
Named = Text → Text → Text

-- The deployments of the profiles that have one, in order, where the volumes are those at the server.
abbrev pub AreDeployments :
    Named → (Text → Option (List Volume)) → List ProfileSpec → List Deployment → Type 0
AreDeployments named volumes [] ds = ds ≡ []
AreDeployments named volumes (p ∷ ps) ds =
    ((volumes (named p.name []) ≡ none) × AreDeployments named volumes ps ds)
    ⊎ ((d : Deployment) × (ds' : List Deployment) × (ds ≡ d ∷ ds')
        × (volumes (named p.name []) ≡ some d.template.volumes)
        × AreDeployments named volumes ps ds')

-- The deployment of the name, where there is one, mounts what it mounts at the server.
abbrev pub IsDeployment : Option (List Volume) → Option Deployment → Type 0
IsDeployment volumes none = volumes ≡ none
IsDeployment volumes (some d) = volumes ≡ some d.template.volumes

module _ (c : Client) (m : ObjectMeta) (laws : Lawful c m.namespace m.name) where
  open c use {World}

  pub fetch-IsDeployment :
      (n : Text) (w : World) (d : Option Deployment)
      → (fetch c Kind.deployment m.namespace n w).0 ≡ ok d
      → IsDeployment (mounted laws w n) d
  unfolding fetch
  fetch-IsDeployment n w d h = go (c.get Kind.deployment m.namespace n w).0 refl h
    where
      go :
          (x : Result Deployment)
          → (c.get Kind.deployment m.namespace n w).0 ≡ x
          → found x ≡ ok d
          → IsDeployment (mounted laws w n) d
      go (ok x) e h' =
          subst (IsDeployment (mounted laws w n)) (ok-injective h') (laws.get_mounts n w x e)
      go (err error) e h' = elim (Bool-cases (is_not_found error)) [
        | inl y ↦
            subst (IsDeployment (mounted laws w n)) (ok-injective (rw (y, found) at h'))
              (laws.get_nothing n w error e y)
        | inr f ↦ absurd (cc (rw (f, found) at h'))
      ]
      go panic e h' = absurd (cc)

  pub mounted-Same : (w v : World) → Same c m laws w v → mounted laws v ≡ mounted laws w
  mounted-Same w v same = fun_ext (λ n. ap (λ x. x.mounts) (same Kind.deployment n))

  pub fetch_deployments-AreDeployments :
      (ps : List ProfileSpec) (acc ds : List Deployment) (w : World)
      → (fetch_deployments c m ps acc w).0 ≡ ok ds
      → (ds' : List Deployment) × (ds ≡ acc ++ ds')
        × AreDeployments (child_resource_name m) (mounted laws w) ps ds'
  unfolding fetch_deployments
  fetch_deployments-AreDeployments [] acc ds w h =
      ([], sym (ok-injective h) ∙ sym (append-nil acc), refl)
  fetch_deployments-AreDeployments (p ∷ ps) acc ds w h =
      let name = child_resource_name m p.name [] in
      let first = fetch c Kind.deployment m.namespace name in
      let append : Option Deployment → List Deployment =
        λ d. elim d [ none ↦ acc | some x ↦ acc ++ x ∷ [] ] in
      let (d, read, rest, state) = >>=-ok first (λ d. fetch_deployments c m ps (append d)) w ds h in
      let (ds', is, are) = fetch_deployments-AreDeployments ps (append d) ds (first w).1 rest in
      let are' =
        subst (λ v. AreDeployments (child_resource_name m) v ps ds')
          (mounted-Same w (first w).1 (fetch_deployment-Same c m laws name w)) are in
      go d ds' is (fetch-IsDeployment name w d read) are'
    where
      go :
          (d : Option Deployment) (ds' : List Deployment)
          → ds ≡ elim d [ none ↦ acc | some x ↦ acc ++ x ∷ [] ] ++ ds'
          → IsDeployment (mounted laws w (child_resource_name m p.name [])) d
          → AreDeployments (child_resource_name m) (mounted laws w) ps ds'
          → (ds'' : List Deployment) × (ds ≡ acc ++ ds'')
            × AreDeployments (child_resource_name m) (mounted laws w) (p ∷ ps) ds''
      go none ds' is served are = (ds', is, inl (served, are))
      go (some d) ds' is served are =
          (d ∷ ds', is ∙ append_assoc acc (d ∷ []) ds', inr (d, ds', refl, served, are))
