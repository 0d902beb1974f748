-- ===== src/Contents/Storage.antt =====
-- internal/resource/persistent_volume_claim.go.
use osrm_operator.Base.{[], ◌∷◌, some, Result, ok, deref}
use osrm_operator.Text.{Text, codes}
use osrm_operator.Kube.{PersistentVolumeClaim}
use osrm_operator.Kube.Fresh.{fresh_claim}
use osrm_operator.Api.{ProfileSpec, child_resource_name}
use osrm_operator.Api.Defaults.{ResourceInstance, get_access_mode}
use osrm_operator.Contents.{Environment, component_profile, built_meta, relabelled, adopt}

module _ (e : Environment) (i : ResourceInstance) (p : ProfileSpec) (generation : Text) where
  -- `PersistentVolumeClaimBuilder.Build`; `*persistence.Storage` panics on nil.
  unfoldable pub build_persistent_volume_claim : Result PersistentVolumeClaim
  unfolding built_meta get_access_mode
  build_persistent_volume_claim =
      let meta = built_meta i (child_resource_name i.meta p.name generation) component_profile in
      deref i.persistence.storage (λ storage. ok (record (fresh_claim meta) {
        access_modes = get_access_mode i.persistence ∷ [];
        requests = (codes "storage", storage) ∷ [];
        storage_class_name = some i.persistence.storage_class_name;
      }))

  -- `PersistentVolumeClaimBuilder.Update`
  unfoldable pub update_persistent_volume_claim :
      PersistentVolumeClaim → Result PersistentVolumeClaim
  unfolding relabelled adopt
  update_persistent_volume_claim pvc =
      adopt i e (relabelled i component_profile pvc.meta) (λ meta. ok (record pvc { meta = meta }))
