-- ===== src/Contents/SpeedUpdates.antt =====
-- internal/resource/cron_job.go: the job that applies the speeds of the traffic to the map.
use osrm_operator.Base.{List, [], ◌∷◌, ◌++◌, none, false, Result, ok, deref}
use osrm_operator.Text.{Text, codes}
use osrm_operator.Kube.{ObjectMeta, CronJob, Container, EnvVar, PodTemplate, claim_volume}
use osrm_operator.Kube.Fresh.{fresh_cron_job}
use osrm_operator.Api.{ProfileSpec, SpeedUpdatesSpec, child_resource_name}
use osrm_operator.Api.Defaults.{ResourceInstance, get_speed_updates_image, get_resources}
use osrm_operator.Builders.{cron_job_suffix}
use osrm_operator.Contents.{
  Environment, component_profile, osrm_data_volume_name, data_mounts, env_var, data_env, built_meta,
  relabelled, adopt,
}

module _ (e : Environment) (i : ResourceInstance) (p : ProfileSpec) (generation : Text) where
  -- `Env` of the container.
  unfoldable pub cron_job_env : SpeedUpdatesSpec → List EnvVar
  cron_job_env updates =
      updates.env
      ++ (data_env
          ++ (env_var (codes "URL") updates.url
              ∷ env_var (codes "OSRM_FILE_NAME") i.osrm_file_name
              ∷ []))

  -- The container of the template.
  unfoldable pub cron_job_container : SpeedUpdatesSpec → Container
  unfolding cron_job_env child_resource_name get_speed_updates_image get_resources
  cron_job_container updates = record {
    name = child_resource_name i.meta p.name cron_job_suffix;
    image = get_speed_updates_image p;
    ports = [];
    resources = get_resources updates.resources;
    command = [];
    args = [];
    env = cron_job_env updates;
    volume_mounts = data_mounts;
    readiness_probe = none;
  }

  -- The template of the jobs.
  unfoldable pub cron_job_template : SpeedUpdatesSpec → PodTemplate
  unfolding cron_job_container child_resource_name
  cron_job_template updates = record {
    labels = [];
    annotations = [];
    restart_policy = codes "OnFailure";
    containers = cron_job_container updates ∷ [];
    volumes =
        claim_volume osrm_data_volume_name (child_resource_name i.meta p.name generation) false
        ∷ [];
    tolerations = [];
    affinity = none;
  }

  -- `CronJobBuilder.Build`
  unfoldable pub build_cron_job : CronJob
  unfolding built_meta
  build_cron_job =
      fresh_cron_job
        (built_meta i (child_resource_name i.meta p.name cron_job_suffix) component_profile)

  -- What `CronJobBuilder.Update` writes.
  unfoldable pub completed_cron_job : SpeedUpdatesSpec → CronJob → ObjectMeta → CronJob
  unfolding cron_job_template child_resource_name
  completed_cron_job updates c meta = record {
    meta = meta;
    suspend = updates.suspend;
    schedule = updates.schedule;
    job_name = child_resource_name i.meta p.name cron_job_suffix;
    job_namespace = i.meta.namespace;
    template = cron_job_template updates;
    last_successful_time = c.last_successful_time;
  }

  -- `CronJobBuilder.Update`; it panics where the profile has no speed updates.
  unfoldable pub update_cron_job : CronJob → Result CronJob
  unfolding relabelled adopt completed_cron_job
  update_cron_job c = deref p.speed_updates (λ updates.
      adopt i e (relabelled i component_profile c.meta)
        (λ meta. ok (completed_cron_job updates c meta)))
