-- ===== src/Contents/Variables.antt =====
-- Whose value a variable of the containers has where the resource and the operator both set it: the
-- documented rule is that of several variables of one name the last one counts.
use osrm_operator.Base.{List, [], ◌∷◌, ◌++◌, Option, none, some, ◌≡◌, refl, ◌∙◌, ap, if◌then◌else◌}
use osrm_operator.Text.{Text, codes, text_eq}
use osrm_operator.Kube.{EnvVar}
use osrm_operator.Metadata.Precedence.{prefer}
use osrm_operator.Api.{ProfileSpec, SpeedUpdatesSpec}
use osrm_operator.Api.Defaults.{ResourceInstance, get_profile}
use osrm_operator.Contents.{Environment}
use osrm_operator.Contents.MapJob.{job_env}
use osrm_operator.Contents.SpeedUpdates.{cron_job_env}

-- The value of a variable in a container: that of the last entry of its name.
abbrev pub value_of : Text → List EnvVar → Option Text
value_of k [] = none
value_of k (v ∷ vs) = prefer (value_of k vs) (if text_eq v.name k then some v.value else none)

prefer_assoc : (a b c : Option Text) → prefer (prefer a b) c ≡ prefer a (prefer b c)
prefer_assoc none b c = refl
prefer_assoc (some v) b c = refl

value_of-append :
    (k : Text) (xs ys : List EnvVar)
    → value_of k (xs ++ ys) ≡ prefer (value_of k ys) (value_of k xs)
value_of-append k [] ys = prefer-none (value_of k ys)
  where
    prefer-none : (o : Option Text) → o ≡ prefer o none
    prefer-none none = refl
    prefer-none (some v) = refl
value_of-append k (v ∷ xs) ys =
    ap (λ o. prefer o (if text_eq v.name k then some v.value else none)) (value_of-append k xs ys)
    ∙ prefer_assoc (value_of k ys) (value_of k xs) _

module _ (e : Environment) (i : ResourceInstance) (p : ProfileSpec) (g : Text) where
  -- Without an environment of its own.
  abbrev pub without_env : ResourceInstance
  without_env = record i { map_builder = record (i.map_builder) { env = [] } }

  abbrev pub without_updates_env : SpeedUpdatesSpec → SpeedUpdatesSpec
  without_updates_env u = record u { env = [] }

  -- In the job that builds a map, a variable that the resource sets has the resource's value, and any
  -- other the operator's; in the job that updates the speeds, a variable that the operator sets has
  -- the operator's value, and any other the resource's. The operator's variables are those that there
  -- are where the resource sets none, and hold the URL, the profile and the name of the file.
  pub env-precedence :
      (k : Text) (u : SpeedUpdatesSpec)
      → (value_of k (job_env e i p g)
          ≡ prefer (value_of k i.map_builder.env) (value_of k (job_env e without_env p g)))
        × (value_of k (cron_job_env e i p g u)
            ≡ prefer (value_of k (cron_job_env e i p g (without_updates_env u))) (value_of k u.env))
        × (value_of (codes "PBF_URL") (job_env e without_env p g) ≡ some i.pbf_url)
        × (value_of (codes "PROFILE") (job_env e without_env p g) ≡ some (get_profile p))
        × (value_of (codes "OSRM_FILE_NAME") (cron_job_env e i p g u) ≡ some i.osrm_file_name)
  unfolding job_env cron_job_env text_eq
  env-precedence k u = (
    value_of-append k (job_env e without_env p g) i.map_builder.env,
    value_of-append k u.env (cron_job_env e i p g (without_updates_env u)),
    refl,
    refl,
    value_of-append (codes "OSRM_FILE_NAME") u.env (cron_job_env e i p g (without_updates_env u)),
  )
