-- ===== src/Generation.antt =====
-- Map generations: the number at the end of a claim's name. The functions of
-- controllers/osrmcluster_controller.go, osrminstance_controller.go, reconciler_helpers.go and
-- internal/resource/osrm_resource_builder.go that read and count them.
pub mod Laws
use osrm_operator.Base.{
  List, [], ◌∷◌, Option, none, some, ◌≡◌, refl, bad_generation, Result, ok, err, panic, bind,
  if◌then◌else◌,
}
use osrm_operator.Base.Int.{ℤ, pos, ltb_ℤ, succ_int64}
use osrm_operator.Text.{Text, codes, dash, split, last}
use osrm_operator.Text.Decimal.{atoi, itoa}
use osrm_operator.Kube.{PersistentVolumeClaim, Deployment, Volume}

-- `getResourceNameSuffix`
unfoldable pub get_resource_name_suffix : Text → Text
get_resource_name_suffix name = last (split name dash)

-- `suffix` where it is a number, and an error where it is not.
abbrev pub checked_suffix : Text → Result Text
checked_suffix suffix = if (atoi suffix).1 then ok suffix else err (bad_generation suffix)

-- The cluster's reading of the first volume: `Volumes[0]` and `PersistentVolumeClaim.ClaimName`
-- panic where there is no volume or no claim.
abbrev pub first_claim_name : List Volume → Result Text
first_claim_name [] = panic
first_claim_name (v ∷ vs) = elim v.claim_name [ none ↦ panic | some name ↦ ok name ]

-- `OSRMClusterReconciler.GetActiveMapGeneration`
unfoldable pub get_active_map_generation : List Deployment → Result Text
get_active_map_generation [] = ok (codes "1")
get_active_map_generation (d ∷ ds) =
    bind (first_claim_name d.template.volumes)
      (λ name. checked_suffix (get_resource_name_suffix name))

abbrev pub instance_claim_generation : List Volume → Result Text
instance_claim_generation [] = ok (codes "1")
instance_claim_generation (v ∷ vs) = elim v.claim_name [
  | none ↦ ok (codes "1")
  | some name ↦ checked_suffix (get_resource_name_suffix name)
]

-- `OSRMInstanceReconciler.GetActiveMapGeneration`; a nil deployment is `none`.
unfoldable pub get_instance_active_map_generation : Option Deployment → Result Text
get_instance_active_map_generation none = ok (codes "1")
get_instance_active_map_generation (some d) = instance_claim_generation d.template.volumes

-- The loop of `computeFutureMapGeneration` over `highest`.
unfoldable pub raise_highest : ℤ → List PersistentVolumeClaim → Result ℤ
raise_highest highest [] = ok highest
raise_highest highest (pvc ∷ pvcs) =
    let gen = get_resource_name_suffix pvc.meta.name in
    let n = atoi gen in
    let rest = raise_highest (if ltb_ℤ highest n.0 then n.0 else highest) pvcs in
    if n.1 then rest else err (bad_generation gen)

-- `computeFutureMapGeneration`
unfoldable pub compute_future_map_generation : List PersistentVolumeClaim → Result Text
compute_future_map_generation pvcs = bind (raise_highest (pos 1) pvcs) (λ n. ok (itoa n))

-- `getNextMapGeneration`
unfoldable pub get_next_map_generation : Text → Text
get_next_map_generation generation =
    let n = atoi generation in if n.1 then itoa (succ_int64 n.0) else codes "1"

next_of_nine : get_next_map_generation (codes "9") ≡ codes "10"
unfolding get_next_map_generation atoi itoa
next_of_nine = refl
