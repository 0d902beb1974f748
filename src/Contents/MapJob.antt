-- ===== src/Contents/MapJob.antt =====
-- internal/resource/job.go: the job that builds a map.
use osrm_operator.Base.{List, [], ◌∷◌, ◌++◌, none, some, false, Result, ok}
use osrm_operator.Text.{Text, codes}
use osrm_operator.Kube.{Job, Container, EnvVar, PodTemplate, claim_volume}
use osrm_operator.Kube.Fresh.{fresh_job}
use osrm_operator.Api.{ProfileSpec, child_resource_name}
use osrm_operator.Api.Defaults.{
  ResourceInstance, get_profile, get_builder_image, get_builder_resources,
}
use osrm_operator.Contents.{
  Environment, component_profile, osrm_data_volume_name, data_mounts, env_var, data_env, built_meta,
  relabelled, adopt,
}

module _ (e : Environment) (i : ResourceInstance) (p : ProfileSpec) (generation : Text) where
  -- `env` of `JobBuilder.Build`; a nil list is an empty one.
  unfoldable pub job_env : List EnvVar
  unfolding get_profile
  job_env =
      data_env
      ++ (env_var (codes "PBF_URL") i.pbf_url ∷ env_var (codes "PROFILE") (get_profile p) ∷ [])
      ++ i.map_builder.env

  -- The container of `JobBuilder.Build`.
  unfoldable pub job_container : Container
  unfolding job_env child_resource_name get_builder_image get_builder_resources
  job_container = record {
    name = child_resource_name i.meta p.name generation;
    image = get_builder_image i.map_builder;
    ports = [];
    resources = get_builder_resources i.map_builder;
    command = [];
    args = [];
    env = job_env;
    volume_mounts = data_mounts;
    readiness_probe = none;
  }

  -- The template of `JobBuilder.Build`.
  unfoldable pub job_template : PodTemplate
  unfolding job_container child_resource_name
  job_template = record {
    labels = [];
    annotations = [];
    restart_policy = codes "OnFailure";
    containers = job_container ∷ [];
    volumes =
        claim_volume osrm_data_volume_name (child_resource_name i.meta p.name generation) false
        ∷ [];
    tolerations = i.map_builder.tolerations;
    affinity = some (record { node_affinity = i.map_builder.node_affinity });
  }

  -- `JobBuilder.Build`
  unfoldable pub build_job : Job
  unfolding job_template built_meta
  build_job =
      let meta = built_meta i (child_resource_name i.meta p.name generation) component_profile in
      record (fresh_job meta) { template = job_template }

  -- `JobBuilder.Update`
  unfoldable pub update_job : Job → Result Job
  unfolding relabelled adopt
  update_job j =
      adopt i e (relabelled i component_profile j.meta) (λ meta. ok (record j { meta = meta }))
