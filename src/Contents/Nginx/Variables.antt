-- ===== src/Contents/Nginx/Variables.antt =====
-- The variables by which the gateway's configuration names the services of the workers.
use osrm_operator.Base.{
  ℕ, ◌-◌, [], ◌∷◌, ◌++◌, false, ◌&&◌, ◌≡◌, ◌≢◌, refl, sym, ap, arith, All, All-append, map, ◌==◌,
  leb, if◌then◌else◌,
}
use mathlib.Core.Path.{subst}
use osrm_operator.Text.{Text, codes, dash, upper, to_upper, replace_from, replace_all}
use osrm_operator.Api.{ProfileSpec, child_resource_name}
use osrm_operator.Api.Defaults.{ResourceInstance}
use osrm_operator.Contents.{Environment, built_meta}
use osrm_operator.Contents.Exposure.{build_service}
use osrm_operator.Contents.Nginx.{service_to_env_variable}

-- What Kubernetes documents of the variables that it sets for a service: upper case, and dashes
-- turned into underscores, byte by byte.
abbrev pub env_byte : ℕ → ℕ
env_byte c = if c == dash then b'_' else if leb b'a' c && leb c b'z' then c - 32 else c

env_byte-upper : (c : ℕ) → (if upper c == dash then b'_' else upper c) ≡ env_byte c
unfolding upper
env_byte-upper c = ground arith

underscored : (s : Text) → replace_from 0 (to_upper s) (codes "-") (codes "_") ≡ map env_byte s
unfolding replace_from to_upper
underscored [] = refl
underscored (c ∷ s) = ground (arith, underscored s, env_byte-upper c)

-- A byte that a shell takes in the name of a variable, if the byte of the service's name is a letter, a
-- digit or a dash.
abbrev pub IsUpper : ℕ → Type 0
IsUpper c = (c ≢ dash) × ((leb b'a' c && leb c b'z') ≡ false)

env_byte-IsUpper : (c : ℕ) → IsUpper (env_byte c)
env_byte-IsUpper c = (λ h. ground arith, ground arith)

env_bytes-AreUpper : (s : Text) → All IsUpper (map env_byte s)
env_bytes-AreUpper [] = tt
env_bytes-AreUpper (c ∷ s) = (env_byte-IsUpper c, env_bytes-AreUpper s)

-- The variable that a location of the gateway names is the one that Kubernetes sets for the service
-- that is built for the profile, and it holds no dash and no lower-case letter.
pub service_to_env_variable_lem :
    (e : Environment) (i : ResourceInstance) (p : ProfileSpec)
    → let name = (build_service e i p).meta.name in
      let variable = service_to_env_variable (child_resource_name i.meta p.name []) in
      (variable ≡ map env_byte name ++ codes "_SERVICE_HOST") × All IsUpper variable
unfolding service_to_env_variable replace_all build_service built_meta
service_to_env_variable_lem e i p =
    let name = child_resource_name i.meta p.name [] in
    let same = ap (λ s. s ++ codes "_SERVICE_HOST") (underscored name) in
    (
      same,
      subst (All IsUpper) (sym same) (
          All-append IsUpper (map env_byte name) (codes "_SERVICE_HOST") (env_bytes-AreUpper name)
            (env_bytes-AreUpper (codes "_SERVICE_HOST"))),
    )
