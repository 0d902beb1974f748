-- ===== src/Builders/Naming.antt =====
-- When two builders give their objects the same name.
use osrm_operator.Base.{[], ◌++◌, ◌≡◌, refl, sym, ◌∙◌, arith}
use mathlib.Core.Path.{subst}
use mathlib.Core.List.{append_cancel_right}
use osrm_operator.Text.{Text}
use osrm_operator.Kube.{ObjectMeta, Kind}
use osrm_operator.Api.{child_resource_name}
use osrm_operator.Api.Names.{
  IsComponent, IsSuffix, child_resource_name-injective, child_resource_name_lem, with_component,
  with_component-injective, with_component-dashed, dashed,
}
use osrm_operator.Builders.{
  ResourceBuilder, persistent_volume_claim, job, deployment, cron_job, service,
  pod_disruption_budget, horizontal_pod_autoscaler, config_map, gateway_service, gateway_deployment,
  cron_job_suffix, built_kind, built_name,
}

-- The component that the builder's object is for: the profile's name, or nothing for the gateway.
abbrev pub component_of : ResourceBuilder → Text
component_of (persistent_volume_claim p g) = p.name
component_of (job p g) = p.name
component_of (deployment p g) = p.name
component_of (cron_job p g) = p.name
component_of (service p) = p.name
component_of (pod_disruption_budget p) = p.name
component_of (horizontal_pod_autoscaler p) = p.name
component_of _ = []

-- The generation that claims and jobs are built for; other objects have one name for all.
abbrev pub generation_of : ResourceBuilder → Text
generation_of (persistent_volume_claim p g) = g
generation_of (job p g) = g
generation_of _ = []

-- The component ends in no dash, and a claim's or job's generation is not empty and holds no dash.
abbrev pub IsNameable : ResourceBuilder → Type 0
IsNameable (persistent_volume_claim p g) = IsComponent p.name × IsSuffix g
IsNameable (job p g) = IsComponent p.name × IsSuffix g
IsNameable b = IsComponent (component_of b)

same_suffix :
    (m : ObjectMeta) (a b s : Text)
    → IsComponent a
    → IsComponent b
    → IsComponent s
    → child_resource_name m a s ≡ child_resource_name m b s
    → a ≡ b
same_suffix m a b s ha hb hs e = with_component-injective m.name a b (
    append_cancel_right (with_component m.name a) (with_component m.name b) (dashed s)
      (sym (whole a ha) ∙ e ∙ whole b hb))
  where
    whole :
        (c : Text) → IsComponent c → child_resource_name m c s ≡ with_component m.name c ++ dashed s
    whole c hc =
        child_resource_name_lem m c s hc hs ∙ with_component-dashed (with_component m.name c) s

-- The name of an object without a suffix.
plain_name : (m : ObjectMeta) → m.name ≡ child_resource_name m [] []
plain_name m = sym (child_resource_name_lem m [] [] tt tt)

-- Whether the object of a kind bears a generation, a fixed suffix or none in its name.
abbrev IsNamedBy : ObjectMeta → Text → Kind → Text → Text → Text → Type 0
IsNamedBy m cron Kind.claim component g n = IsSuffix g × (n ≡ child_resource_name m component g)
IsNamedBy m cron Kind.job component g n = IsSuffix g × (n ≡ child_resource_name m component g)
IsNamedBy m cron Kind.cron_job component g n = (g ≡ []) × (n ≡ child_resource_name m component cron)
IsNamedBy m cron _ component g n = (g ≡ []) × (n ≡ child_resource_name m component [])

named_by :
    (m : ObjectMeta) (b : ResourceBuilder)
    → IsNameable b
    → IsComponent (component_of b)
      × IsNamedBy m cron_job_suffix
          (built_kind b)
          (component_of b)
          (generation_of b)
          (built_name m b)
unfolding built_name
named_by m (persistent_volume_claim p g) h = (h.0, (h.1, refl))
named_by m (job p g) h = (h.0, (h.1, refl))
named_by m (deployment p g) h = (h, (refl, refl))
named_by m (cron_job p g) h = (h, (refl, refl))
named_by m (service p) h = (h, (refl, refl))
named_by m (pod_disruption_budget p) h = (h, (refl, refl))
named_by m (horizontal_pod_autoscaler p) h = (h, (refl, refl))
named_by m (config_map ps) h = (h, (refl, refl))
named_by m (gateway_service ps) h = (h, (refl, plain_name m))
named_by m (gateway_deployment ps) h = (h, (refl, plain_name m))

cron_job_suffix-IsComponent : IsComponent cron_job_suffix
cron_job_suffix-IsComponent = λ e. omega arith

module _ (m : ObjectMeta) (a b s t n : Text) (ha : IsComponent a) (hb : IsComponent b) where
  generations-differ :
      IsSuffix s × (n ≡ child_resource_name m a s)
      → IsSuffix t × (n ≡ child_resource_name m b t)
      → (a ≡ b) × (s ≡ t)
  generations-differ (hs, e) (ht, e') =
      child_resource_name-injective m a b s t ha hb hs ht (sym e ∙ e')

  components-differ :
      (suffix : Text)
      → IsComponent suffix
      → (s ≡ []) × (n ≡ child_resource_name m a suffix)
      → (t ≡ []) × (n ≡ child_resource_name m b suffix)
      → (a ≡ b) × (s ≡ t)
  components-differ suffix h (hs, e) (ht, e') =
      (same_suffix m a b suffix ha hb h (sym e ∙ e'), hs ∙ sym ht)

  named_by-injective :
      (cron : Text)
      → IsComponent cron
      → (k : Kind) → IsNamedBy m cron k a s n
      → IsNamedBy m cron k b t n
      → (a ≡ b) × (s ≡ t)
  named_by-injective cron h Kind.claim = generations-differ
  named_by-injective cron h Kind.job = generations-differ
  named_by-injective cron h Kind.cron_job = components-differ cron h
  named_by-injective cron h Kind.deployment = components-differ [] tt
  named_by-injective cron h _ = components-differ [] tt

-- Builders that name objects of the same kind alike, for one owner, are for the same component, and
-- claims and jobs for the same generation, if no profile's name ends in a dash and no generation in
-- the name of a claim or a job is empty or holds a dash. So a profile's object and the gateway's can
-- be the same only if the profile has no name.
pub built_name-injective :
    (m : ObjectMeta) (x y : ResourceBuilder)
    → IsNameable x
    → IsNameable y
    → built_kind x ≡ built_kind y
    → built_name m x ≡ built_name m y
    → (component_of x ≡ component_of y) × (generation_of x ≡ generation_of y)
built_name-injective m x y hx hy kind name =
    let (cx, nx) = named_by m x hx in
    let (cy, ny) = named_by m y hy in
    named_by-injective m (component_of x) (component_of y) (generation_of x) (generation_of y)
      (built_name m x) cx cy cron_job_suffix cron_job_suffix-IsComponent (built_kind x) nx
      (subst
        (λ k. IsNamedBy m cron_job_suffix k (component_of y) (generation_of y) (built_name m x))
        (sym kind)
        (subst (IsNamedBy m cron_job_suffix (built_kind y) (component_of y) (generation_of y))
          (sym name) ny))
