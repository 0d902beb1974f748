-- ===== src/Contents/Nginx.antt =====
-- The configuration of the gateway: `generateNginxConf` and its parts in
-- internal/resource/gateway_config_map.go, and `serviceToEnvVariable` of utils.go.
pub mod Variables
use osrm_operator.Base.{List, [], ◌∷◌, ◌++◌}
use osrm_operator.Text.{Text, codes, to_upper, replace_all}
use osrm_operator.Kube.{ObjectMeta}
use osrm_operator.Api.{ProfileSpec, child_resource_name}
use osrm_operator.Api.Defaults.{get_internal_endpoint}

-- `serviceToEnvVariable`
unfoldable pub service_to_env_variable : Text → Text
unfolding to_upper replace_all
service_to_env_variable service_name =
    replace_all (to_upper service_name) (codes "-") (codes "_") ++ codes "_SERVICE_HOST"

module _ (m : ObjectMeta) where
  -- `formatNginxLocation`
  unfoldable pub format_nginx_location : ProfileSpec → Text → Text
  unfolding service_to_env_variable get_internal_endpoint child_resource_name
  format_nginx_location p osrm_service =
      let internal_path = osrm_service ++ (codes "/v1/" ++ get_internal_endpoint p) in
      let external_path = osrm_service ++ (codes "/v1/" ++ p.endpoint_name) in
      let env_variable = service_to_env_variable (child_resource_name m p.name []) in
      codes "\n\t\t\tlocation /"
      ++ (external_path
          ++ (codes " {\n\t\t\t\tproxy_pass http://${"
              ++ (env_variable ++ (codes "}/" ++ (internal_path ++ codes ";\n\t\t\t}")))))

  -- The inner loop of `getNginxLocations`.
  unfoldable pub profile_locations : ProfileSpec → List Text → Text
  unfolding format_nginx_location
  profile_locations p [] = []
  profile_locations p (service ∷ services) =
      format_nginx_location p service ++ profile_locations p services

  -- `getNginxLocations`
  unfoldable pub get_nginx_locations : List ProfileSpec → List Text → Text
  unfolding profile_locations
  get_nginx_locations [] services = []
  get_nginx_locations (p ∷ ps) services =
      profile_locations p services ++ get_nginx_locations ps services

  -- `generateNginxConf`
  unfoldable pub generate_nginx_conf : List ProfileSpec → List Text → Text
  unfolding get_nginx_locations
  generate_nginx_conf profiles services =
      codes "\n\tevents {\n\t\tworker_connections 2048;\n\t}\n\thttp {\n"
      ++ (codes "\t\tlarge_client_header_buffers 4 128k;\n\t\tserver {\n\t\t\tlisten 80;\n"
          ++ (codes "\t\t\tserver_name _;\n\t\t\t"
              ++ (get_nginx_locations profiles services ++ codes "\n\t\t}\n\t}\n\t")))
