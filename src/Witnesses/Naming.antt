-- ===== src/Witnesses/Naming.antt =====
-- Names and generations of concrete children.
use osrm_operator.Base.{ℕ, List, [], ◌∷◌, Any, ◌≡◌, ◌↔◌, refl, arith, ok}
use osrm_operator.Base.Int.{pos, negsuc}
use osrm_operator.Text.{codes, join, trim_suffix}
use osrm_operator.Text.Decimal.{max_int64, itoa, digits, atoi, scan, scan_digit}
use osrm_operator.Kube.{PersistentVolumeClaim}
use osrm_operator.Api.{child_resource_name}
use osrm_operator.Api.Names.{IsComponent}
use osrm_operator.Builders.{persistent_volume_claim}
use osrm_operator.Builders.Naming.{built_name-injective}
use osrm_operator.Generation.{
  get_resource_name_suffix, compute_future_map_generation, get_next_map_generation,
}
use osrm_operator.Generation.Laws.{
  itoa-IsSuffix, suffix-child_resource_name, AreClaimsOf, IsHighest,
  compute_future_map_generation-IsHighest, compute_future_map_generation_error, IsGenerationError,
  IsUnnumbered, get_next_map_generation_lem,
}
use osrm_operator.Witnesses.{car, meta_of, claim_of}

usable : IsComponent (codes "car")
usable = λ e. omega arith

suffix-child_resource_name_example :
    get_resource_name_suffix
      (child_resource_name (meta_of (codes "osm-eu")) (codes "car") (itoa (pos 12)))
    ≡ itoa (pos 12)
suffix-child_resource_name_example =
    suffix-child_resource_name (meta_of (codes "osm-eu")) (codes "car") (itoa (pos 12)) usable
      (itoa-IsSuffix 12)

built_name-injective_example : (codes "car" ≡ codes "car") × (itoa (pos 2) ≡ itoa (pos 2))
built_name-injective_example =
    built_name-injective (meta_of (codes "osm")) (persistent_volume_claim car (itoa (pos 2)))
      (persistent_volume_claim car (itoa (pos 2))) (usable, itoa-IsSuffix 2)
      (usable, itoa-IsSuffix 2) refl refl

-- Claims of the generations 2, 11 and 9.
abbrev claims : List PersistentVolumeClaim
claims =
    claim_of (codes "osm-car-2") ∷ claim_of (codes "osm-car-11") ∷ claim_of (codes "osm-car-9") ∷ []

claims_named : AreClaimsOf (meta_of (codes "osm")) claims (2 ∷ 11 ∷ 9 ∷ [])
unfolding child_resource_name join trim_suffix itoa digits
claims_named = (
  record { component = codes "car"; usable = usable; fits = omega arith; named = refl },
  (
    record { component = codes "car"; usable = usable; fits = omega arith; named = refl },
    (record { component = codes "car"; usable = usable; fits = omega arith; named = refl }, tt),
  ),
)

compute_future_map_generation-IsHighest_example :
    (h : ℕ) × (compute_future_map_generation claims ≡ ok (itoa (pos h)))
    × IsHighest h (2 ∷ 11 ∷ 9 ∷ [])
compute_future_map_generation-IsHighest_example =
    compute_future_map_generation-IsHighest (meta_of (codes "osm")) claims (2 ∷ 11 ∷ 9 ∷ [])
      claims_named

compute_future_map_generation_error_example :
    IsGenerationError
      (compute_future_map_generation (claim_of (codes "osm-1") ∷ claim_of (codes "osm-old") ∷ []))
    ↔ Any IsUnnumbered (claim_of (codes "osm-1") ∷ claim_of (codes "osm-old") ∷ [])
compute_future_map_generation_error_example =
    compute_future_map_generation_error (claim_of (codes "osm-1") ∷ claim_of (codes "osm-old") ∷ [])

get_next_map_generation_lem_example :
    (get_next_map_generation (itoa (pos 9)) ≡ itoa (pos 10))
    × (get_next_map_generation (itoa (pos max_int64)) ≡ itoa (negsuc max_int64))
    × (get_next_map_generation (codes "old") ≡ codes "1")
unfolding atoi scan scan_digit
get_next_map_generation_lem_example = get_next_map_generation_lem 9 (codes "old") (omega arith) refl
