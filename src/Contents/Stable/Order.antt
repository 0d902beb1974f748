-- ===== src/Contents/Stable/Order.antt =====
-- What the order in which `range` visits a map means for the updates: only the script of the workers
-- is written in it.
use osrm_operator.Base.{List, [], ok, Option, none, some, ◌≡◌, refl, ap}
use mathlib.Core.Path.{fun_ext}
use osrm_operator.Text.{Text}
use osrm_operator.Dict.{Dict}
use osrm_operator.Kube.{Object, Deployment, PodTemplate, as_deployment, Kind}
use osrm_operator.Api.{ProfileSpec, OsrmRoutedOptions}
use osrm_operator.Api.Defaults.{ResourceInstance, flag_map, format_flags, to_string}
use osrm_operator.Builders.{
  ResourceBuilder, persistent_volume_claim, job, deployment, cron_job, service,
  pod_disruption_budget, horizontal_pod_autoscaler, config_map, gateway_service, gateway_deployment,
}
use osrm_operator.Contents.{Environment, visiting, relabelled, adopt, component_profile}
use osrm_operator.Contents.Storage.{update_persistent_volume_claim}
use osrm_operator.Contents.MapJob.{update_job}
use osrm_operator.Contents.Workers.{
  update_deployment, worker_template, worker_container, worker_script, worker_labels,
  set_worker_annotations,
}
use osrm_operator.Contents.SpeedUpdates.{
  update_cron_job, completed_cron_job, cron_job_template, cron_job_container, cron_job_env,
}
use osrm_operator.Contents.Exposure.{update_service, update_pod_disruption_budget, worker_ports}
use osrm_operator.Contents.Gateway.{
  update_config_map, update_gateway_service, update_gateway_deployment, set_service_annotations,
  gateway_ports, gateway_template, set_gateway_annotations,
}
use osrm_operator.Contents.Objects.{updated, update}

-- The two orders give the same flags of the options, where there are options: what is written are
-- the options that are set, in the order in which they are visited.
abbrev pub AreVisitedAlike :
    (Dict Text → Dict Text) → (Dict Text → Dict Text) → Option OsrmRoutedOptions → Type 0
AreVisitedAlike f f' none = Unit
AreVisitedAlike f f' (some options) =
    format_flags (f (flag_map options)) ≡ format_flags (f' (flag_map options))

-- The two orders give the same flags of the options that the builder writes, if it writes them.
abbrev pub IsVisitedAlike :
    (Dict Text → Dict Text) → (Dict Text → Dict Text) → ResourceBuilder → Type 0
IsVisitedAlike f f' (deployment p g) = AreVisitedAlike f f' p.osrm_routed_options
IsVisitedAlike f f' _ = Unit

module _ (e : Environment) (i : ResourceInstance) (f f' : Dict Text → Dict Text) where
  to_string-alike :
      (options : Option OsrmRoutedOptions)
      → AreVisitedAlike f f' options
      → to_string f' options ≡ to_string f options
  unfolding to_string
  to_string-alike none h = refl
  to_string-alike (some options) h = rw h refl

  worker_template-alike :
      (p : ProfileSpec) (g : Text)
      → AreVisitedAlike f f' p.osrm_routed_options
      → worker_template (visiting f' e) i p g ≡ worker_template (visiting f e) i p g
  unfolding worker_template worker_container worker_script
  worker_template-alike p g h = rw (to_string-alike p.osrm_routed_options h) refl

  update_deployment-alike :
      (p : ProfileSpec) (g : Text) (siblings : List Object) (d : Deployment)
      → AreVisitedAlike f f' p.osrm_routed_options
      → update_deployment (visiting f' e) i p g siblings d
        ≡ update_deployment (visiting f e) i p g siblings d
  unfolding update_deployment relabelled adopt worker_labels set_worker_annotations
  update_deployment-alike p g siblings d h =
      ap
        (λ (t : PodTemplate). adopt i e (relabelled i component_profile d.meta) (λ m. ok (record d {
          meta = m;
          selector = some (worker_labels e i p g);
          template = record t { annotations = set_worker_annotations e i p g siblings [] };
        })))
        (worker_template-alike p g h)

  pub update-visiting :
      (siblings : List Object) (b : ResourceBuilder) (o : Object)
      → IsVisitedAlike f f' b
      → update (visiting f' e) i siblings b o ≡ update (visiting f e) i siblings b o
  unfolding update update_persistent_volume_claim update_job update_cron_job update_service
      update_pod_disruption_budget update_config_map update_gateway_service
      update_gateway_deployment relabelled adopt completed_cron_job cron_job_template
      cron_job_container cron_job_env worker_ports set_service_annotations gateway_ports
      gateway_template set_gateway_annotations
  update-visiting siblings (deployment p g) o h =
      ap (updated Kind.deployment (as_deployment o))
        (fun_ext (λ d. update_deployment-alike p g siblings d h))
  update-visiting siblings (persistent_volume_claim p g) o h = refl
  update-visiting siblings (job p g) o h = refl
  update-visiting siblings (cron_job p g) o h = refl
  update-visiting siblings (service p) o h = refl
  update-visiting siblings (pod_disruption_budget p) o h = refl
  update-visiting siblings (horizontal_pod_autoscaler p) o h = refl
  update-visiting siblings (config_map ps) o h = refl
  update-visiting siblings (gateway_service ps) o h = refl
  update-visiting siblings (gateway_deployment ps) o h = refl
