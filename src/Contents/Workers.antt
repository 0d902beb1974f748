-- ===== src/Contents/Workers.antt =====
-- internal/resource/deployment.go: the workers of a profile.
use osrm_operator.Base.{ℕ, List, [], ◌∷◌, ◌++◌, none, some, true, Result, ok, if◌then◌else◌}
use osrm_operator.Text.{Text, codes, text_eq, replace_all}
use osrm_operator.Dict.{Dict, insert}
use osrm_operator.Kube.{
  Deployment, Container, PodTemplate, Object, CronJob, as_cron_job, claim_volume,
}
use osrm_operator.Kube.Fresh.{fresh_deployment}
use osrm_operator.Api.{ProfileSpec, child_resource_name}
use osrm_operator.Api.Defaults.{ResourceInstance, get_profile, get_resources, to_string}
use osrm_operator.Builders.{cron_job_suffix}
use osrm_operator.Contents.{
  Environment, component_profile, osrm_container_name, osrm_data_volume_name, osrm_data_path,
  osrm_customized_data, data_mounts, built_meta, relabelled, adopt,
}

abbrev pub container_port : ℕ
container_port = 5000

abbrev pub last_traffic_update_time_annotation : Text
last_traffic_update_time_annotation = codes "osrmcluster.itayankri/lastTrafficUpdateTime"

module _ (e : Environment) (i : ResourceInstance) (p : ProfileSpec) (generation : Text) where
  -- `labelSelector`
  unfoldable pub worker_labels : Dict Text
  unfolding child_resource_name
  worker_labels = (codes "app", child_resource_name i.meta p.name []) ∷ []

  -- The script that `Args` holds, with `osrmDataPath`, `osrmCustomizedData`, the name of the file and
  -- the options in their places.
  unfoldable pub worker_script : Text
  unfolding replace_all to_string
  worker_script =
      codes "\n\t\t\t\t\t\t\tcd "
      ++ (osrm_data_path
          ++ (codes "/"
              ++ (osrm_customized_data
                  ++ (codes " && \\\n\t\t\t\t\t\t\tosrm-routed "
                      ++ (replace_all i.pbf_file_name (codes "osm.pbf") (codes "osrm")
                          ++ (codes " --algorithm mld "
                              ++ (to_string e.iterate p.osrm_routed_options
                                  ++ codes "\n\t\t\t\t\t\t")))))))

  -- The container of the template.
  unfoldable pub worker_container : Container
  unfolding worker_script get_profile get_resources
  worker_container = record {
    name = osrm_container_name;
    image = i.image;
    ports = container_port ∷ [];
    resources = get_resources p.resources;
    command = codes "/bin/sh" ∷ codes "-c" ∷ [];
    args = worker_script ∷ [];
    env = [];
    volume_mounts = data_mounts;
    readiness_probe = some (record {
      path = codes "/nearest/v1/" ++ (get_profile p ++ codes "/34.761122,32.051346");
      port = container_port;
      scheme = codes "HTTP";
    });
  }

  -- `deployment.Spec.Template`
  unfoldable pub worker_template : PodTemplate
  unfolding worker_container worker_labels child_resource_name
  worker_template = record {
    labels = worker_labels;
    annotations = [];
    restart_policy = [];
    containers = worker_container ∷ [];
    volumes =
        claim_volume osrm_data_volume_name (child_resource_name i.meta p.name generation) true ∷ [];
    tolerations = [];
    affinity = none;
  }

  -- The annotation that `setAnnotations` sets for one sibling.
  unfoldable pub annotate_traffic : CronJob → Dict Text → Dict Text
  unfolding child_resource_name text_eq insert
  annotate_traffic cron annotations =
      if text_eq cron.meta.name (child_resource_name i.meta p.name cron_job_suffix)
      then (elim cron.last_successful_time [
        | none ↦ annotations
        | some time ↦ insert last_traffic_update_time_annotation time annotations
      ])
      else annotations

  -- `DeploymentBuilder.setAnnotations`, on the annotations of the template.
  unfoldable pub set_worker_annotations : List Object → Dict Text → Dict Text
  unfolding annotate_traffic
  set_worker_annotations [] annotations = annotations
  set_worker_annotations (o ∷ siblings) annotations =
      set_worker_annotations siblings (elim (as_cron_job o) [
        | none ↦ annotations
        | some cron ↦ annotate_traffic cron annotations
      ])

  -- `DeploymentBuilder.Build`
  unfoldable pub build_deployment : Deployment
  unfolding built_meta
  build_deployment =
      fresh_deployment (built_meta i (child_resource_name i.meta p.name []) component_profile)

  -- `DeploymentBuilder.Update`
  unfoldable pub update_deployment : List Object → Deployment → Result Deployment
  unfolding relabelled adopt worker_template worker_labels set_worker_annotations
  update_deployment siblings d =
      let annotations = set_worker_annotations siblings [] in
      adopt i e (relabelled i component_profile d.meta) (λ meta. ok (record d {
        meta = meta;
        selector = some worker_labels;
        template = record worker_template { annotations = annotations };
      }))
