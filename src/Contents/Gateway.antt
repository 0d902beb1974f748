-- ===== src/Contents/Gateway.antt =====
-- internal/resource/gateway_config_map.go, gateway_service.go and gateway_deployment.go: nginx in front
-- of the workers of all profiles.
use osrm_operator.Base.{List, [], ◌∷◌, ◌++◌, Option, none, some, false, Result, ok, if◌then◌else◌}
use osrm_operator.Base.Int.{pos}
use osrm_operator.Text.{Text, codes, text_eq}
use osrm_operator.Dict.{Dict, lookup, insert}
use osrm_operator.Kube.{
  ObjectMeta, ConfigMap, Service, ServicePort, Deployment, PodTemplate, Container, Volume, Object,
  as_config_map,
}
use osrm_operator.Kube.Fresh.{fresh_config_map, fresh_service, fresh_deployment}
use osrm_operator.Metadata.{reconcile_annotations}
use osrm_operator.Api.{ProfileSpec, child_resource_name}
use osrm_operator.Api.Defaults.{ResourceInstance, get_type}
use osrm_operator.Contents.{
  Environment, component_gateway, osrm_container_name, built_meta, relabelled, adopt,
}
use osrm_operator.Contents.Nginx.{generate_nginx_conf}

abbrev pub nginx_configuration_template_name : Text
nginx_configuration_template_name = codes "nginx.tmpl"

abbrev pub gateway_image : Text
gateway_image = codes "nginx"

abbrev pub gateway_config_version : Text
gateway_config_version = codes "osrmcluter.itayankri/gatewayConfigHash"

-- The annotations of the service, unless nil, merged into those that the object has.
abbrev pub annotated_by : Option (Dict Text) → ObjectMeta → ObjectMeta
annotated_by none m = m
annotated_by (some annotations) m = record m {
  annotations = reconcile_annotations m.annotations (annotations ∷ []);
}

-- The address of the load balancer, which stays as it is where the spec has none.
abbrev pub balancer_ip : Option Text → Text → Text
balancer_ip none ip = ip
balancer_ip (some wanted) ip = wanted

module _ (e : Environment) (i : ResourceInstance) (profiles : List ProfileSpec) where
  -- `ConfigMapBuilder.Build`
  unfoldable pub build_config_map : ConfigMap
  unfolding built_meta
  build_config_map =
      fresh_config_map (built_meta i (child_resource_name i.meta [] []) component_gateway)

  -- `ConfigMapBuilder.Update`
  unfoldable pub update_config_map : ConfigMap → Result ConfigMap
  unfolding relabelled adopt generate_nginx_conf insert
  update_config_map c =
      let conf = generate_nginx_conf i.meta profiles i.service.exposing_services in
      adopt i e (relabelled i component_gateway c.meta) (λ meta. ok (record {
        meta = meta;
        contents = insert nginx_configuration_template_name conf c.contents;
      }))

  -- `GatewayServiceBuilder.Build`
  unfoldable pub build_gateway_service : Service
  unfolding built_meta
  build_gateway_service = fresh_service (built_meta i i.meta.name component_gateway)

  -- `GatewayServiceBuilder.setAnnotations`, on the metadata.
  unfoldable pub set_service_annotations : ObjectMeta → ObjectMeta
  unfolding reconcile_annotations
  set_service_annotations m = annotated_by i.service.annotations m

  -- `service.Spec.Ports`
  unfoldable pub gateway_ports : List ServicePort
  gateway_ports =
      record {
        name = i.meta.name ++ codes "-port";
        protocol = codes "TCP";
        port = pos 80;
        target_port = pos 80;
      }
      ∷ []

  -- `GatewayServiceBuilder.Update`
  unfoldable pub update_gateway_service : Service → Result Service
  unfolding relabelled adopt set_service_annotations child_resource_name get_type gateway_ports
  update_gateway_service s =
      let meta = set_service_annotations (relabelled i component_gateway s.meta) in
      adopt i e meta (λ meta'. ok (record {
        meta = meta';
        type = get_type i.service;
        ports = gateway_ports;
        selector = (codes "app", child_resource_name i.meta [] []) ∷ [];
        load_balancer_ip = balancer_ip i.service.load_balancer_ip s.load_balancer_ip;
      }))

  -- The container of the gateway.
  abbrev pub gateway_container : Container
  gateway_container = record {
    name = osrm_container_name;
    image = gateway_image;
    ports = 80 ∷ [];
    resources = record {
      limits = [];
      requests = (codes "memory", codes "500Mi") ∷ (codes "cpu", codes "0.5") ∷ [];
    };
    command = codes "/bin/sh" ∷ codes "-c" ∷ [];
    args =
        (codes "\n\t\t\t\t\t\t\t\tenvsubst < /etc/nginx/nginx.tmpl > /etc/nginx.conf &&\n"
          ++ (codes "\t\t\t\t\t\t\t\tprintenv &&\n\t\t\t\t\t\t\t\tcat /etc/nginx.conf &&\n"
              ++ codes "\t\t\t\t\t\t\t\tnginx -g 'daemon off;' -c /etc/nginx.conf\n\t\t\t\t\t\t\t"))
        ∷ [];
    env = [];
    volume_mounts = record { name = codes "nginx-conf"; mount_path = codes "/etc/nginx" } ∷ [];
    readiness_probe = none;
  }

  -- The volume of the gateway, which holds the configuration.
  abbrev pub gateway_volume : Volume
  gateway_volume = record {
    name = codes "nginx-conf";
    claim_name = none;
    read_only = false;
    config_map = some (record {
      name = i.meta.name;
      items = (nginx_configuration_template_name, nginx_configuration_template_name) ∷ [];
    });
  }

  -- The template that `GatewayDeploymentBuilder.Update` writes.
  unfoldable pub gateway_template : PodTemplate
  unfolding child_resource_name
  gateway_template = record {
    labels =
        (codes "app", child_resource_name i.meta [] [])
        ∷ (codes "app.kubernetes.io/instance", i.meta.name)
        ∷ (codes "app.kubernetes.io/component", codes "gateway")
        ∷ (codes "app.kubernetes.io/part-of", codes "OSRMCluster")
        ∷ [];
    annotations = [];
    restart_policy = [];
    containers = gateway_container ∷ [];
    volumes = gateway_volume ∷ [];
    tolerations = [];
    affinity = none;
  }

  -- `cm.Data[nginxConfigurationTemplateName]`, which is empty where it is missing.
  abbrev pub nginx_config_of : ConfigMap → Text
  nginx_config_of c = elim (lookup nginx_configuration_template_name c.contents) [
    | none ↦ []
    | some conf ↦ conf
  ]

  -- The annotation that `setAnnotations` sets for one sibling.
  unfoldable pub annotate_config : ConfigMap → Dict Text → Dict Text
  unfolding child_resource_name text_eq lookup insert
  annotate_config c annotations =
      if text_eq c.meta.name (child_resource_name i.meta [] [])
      then insert gateway_config_version (e.sha256_hex (nginx_config_of c)) annotations
      else annotations

  -- `GatewayDeploymentBuilder.setAnnotations`, on the annotations of the template.
  unfoldable pub set_gateway_annotations : List Object → Dict Text → Dict Text
  unfolding annotate_config
  set_gateway_annotations [] annotations = annotations
  set_gateway_annotations (o ∷ siblings) annotations =
      set_gateway_annotations siblings
        (elim (as_config_map o) [ none ↦ annotations | some c ↦ annotate_config c annotations ])

  -- `GatewayDeploymentBuilder.Build`
  unfoldable pub build_gateway_deployment : Deployment
  unfolding built_meta
  build_gateway_deployment = fresh_deployment (built_meta i i.meta.name component_gateway)

  -- `GatewayDeploymentBuilder.Update`
  unfoldable pub update_gateway_deployment : List Object → Deployment → Result Deployment
  unfolding relabelled adopt gateway_template child_resource_name set_gateway_annotations
  update_gateway_deployment siblings d = adopt i e (relabelled i component_gateway d.meta) (λ meta.
      ok (record d {
        meta = meta;
        spec_replicas = some (pos 2);
        selector = some ((codes "app", child_resource_name i.meta [] []) ∷ []);
        template = record gateway_template { annotations = set_gateway_annotations siblings [] };
      }))
