-- ===== src/Contents/Wiring/Gateway.antt =====
-- The objects of the gateway fit together: selectors, the config map and its volume.
use osrm_operator.Base.{List, [], ◌∷◌, some, ◌≡◌, refl, sym, ◌∙◌, ap, All, map, ok}
use mathlib.Core.Path.{subst}
use osrm_operator.Text.{Text, codes, text_eq}
use osrm_operator.Dict.{Dict, lookup}
use osrm_operator.Kube.{Object, Deployment, Service, ConfigMap, ConfigMapSource}
use osrm_operator.Metadata.Again.{lookup-insert_self}
use osrm_operator.Api.{ProfileSpec, child_resource_name}
use osrm_operator.Api.Names.{child_resource_name_lem}
use osrm_operator.Api.Defaults.{ResourceInstance}
use osrm_operator.Contents.{Environment, built_meta, relabelled, component_gateway}
use osrm_operator.Contents.Adoption.{ok-injective, adopt-ok}
use osrm_operator.Contents.Nginx.{generate_nginx_conf}
use osrm_operator.Contents.Gateway.{
  nginx_configuration_template_name, gateway_template, build_config_map, update_config_map,
  update_gateway_service, update_gateway_deployment,
}

-- Every label that a selector asks for is there.
abbrev pub Selects : Dict Text → Dict Text → Type 0
Selects selector labels = All (λ e. lookup e.0 labels ≡ some e.1) selector

-- The configuration out of the config map of the name.
abbrev pub config_source : Text → ConfigMapSource
config_source name = record {
  name = name;
  items = (nginx_configuration_template_name, nginx_configuration_template_name) ∷ [];
}

module _ (e : Environment) (i : ResourceInstance) (ps : List ProfileSpec) where
  -- The objects of the gateway fit together.
  pub record IsGatewayWired (c : ConfigMap) (d : Deployment) (s : Service) : Type 0 where
    pub selector : Dict Text
    pub has_selector : d.selector ≡ some selector
    pub selects_pods : Selects selector d.template.labels
    pub serves_pods : Selects s.selector d.template.labels
    pub mounts_config :
        map (λ v. v.config_map) d.template.volumes
        ≡ some (config_source (build_config_map e i ps).meta.name) ∷ []
    pub has_config :
        lookup nginx_configuration_template_name c.contents
        ≡ some (generate_nginx_conf i.meta ps i.service.exposing_services)

  -- Whatever the stored objects were, after their updates the objects of the gateway fit together: its
  -- deployment and its service select the pods of the deployment, which mount the config map that is
  -- built, by the key under which the updated config map has the configuration.
  pub updates-IsGatewayWired :
      (siblings : List Object) (c c' : ConfigMap) (d d' : Deployment) (s s' : Service)
      → update_config_map e i ps c ≡ ok c'
      → update_gateway_deployment e i ps siblings d ≡ ok d'
      → update_gateway_service e i ps s ≡ ok s'
      → IsGatewayWired c' d' s'
  unfolding update_config_map update_gateway_deployment update_gateway_service gateway_template
      build_config_map built_meta lookup text_eq
  updates-IsGatewayWired siblings c c' d d' s s' configured deployed served =
      let (m, adopted, written) =
        adopt-ok e i (relabelled i component_gateway d.meta) _ d' deployed in
      let (mc, adopted_c, written_c) =
        adopt-ok e i (relabelled i component_gateway c.meta) _ c' configured in
      let (ms, adopted_s, written_s) = adopt-ok e i _ _ s' served in
      let conf = generate_nginx_conf i.meta ps i.service.exposing_services in
      let d-eq = ok-injective written in
      let app : Dict Text = (codes "app", child_resource_name i.meta [] []) ∷ [] in
      let pods : Selects app d'.template.labels =
        subst (λ x. Selects app x.template.labels) d-eq (refl, tt) in
      record {
        selector = app;
        has_selector = sym (ap (λ x. x.selector) d-eq);
        selects_pods = pods;
        serves_pods =
            subst (λ x. Selects x.selector d'.template.labels) (ok-injective written_s) pods;
        mounts_config =
            sym (ap (λ x. map (λ v. v.config_map) x.template.volumes) d-eq)
            ∙ ap (λ n. some (config_source n) ∷ [])
                (sym (child_resource_name_lem i.meta [] [] tt tt));
        has_config =
            subst (λ x. lookup nginx_configuration_template_name x.contents ≡ some conf)
              (ok-injective written_c)
              (lookup-insert_self nginx_configuration_template_name conf c.contents);
      }
