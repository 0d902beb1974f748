-- ===== src/Metadata.antt =====
-- internal/metadata: the labels of the child objects and the merging of annotations. A loop over a Go
-- map goes through its entries in the order of the list that stands for it.
pub mod Precedence
pub mod Again
use osrm_operator.Base.{List, [], ◌∷◌, if◌then◌else◌}
use osrm_operator.Base.Int.{pos}
use osrm_operator.Text.{Text, codes, has_prefix}
use osrm_operator.Text.Decimal.{itoa}
use osrm_operator.Dict.{Dict, insert}
use osrm_operator.Kube.{ObjectMeta}

abbrev pub name_label_key : Text
name_label_key = codes "app.kubernetes.io/name"

abbrev pub part_of_label_key : Text
part_of_label_key = codes "app.kubernetes.io/part-of"

abbrev pub component_label_key : Text
component_label_key = codes "app.kubernetes.io/component"

abbrev pub generation_label_key : Text
generation_label_key = codes "osrmcluster.itayankri/cluster-generation"

abbrev pub reserved_prefix : Text
reserved_prefix = codes "app.kubernetes.io"

-- The loop of `GetLabels`.
unfoldable pub add_labels : Dict Text → Dict Text → Dict Text
unfolding has_prefix insert
add_labels [] labels = labels
add_labels ((label, value) ∷ more) labels =
    add_labels more (if has_prefix label reserved_prefix then labels else insert label value labels)

-- `GetLabels`
unfoldable pub get_labels : ObjectMeta → Text → Dict Text
unfolding add_labels
get_labels instance_meta component_name = add_labels instance_meta.labels (
    (name_label_key, instance_meta.name)
    ∷ (part_of_label_key, codes "osrmcluster")
    ∷ (component_label_key, component_name)
    ∷ (generation_label_key, itoa (pos instance_meta.generation))
    ∷ [])

-- The inner loop of `merge`.
unfoldable pub merge_one : Dict Text → Dict Text → Dict Text
unfolding insert
merge_one [] annotations = annotations
merge_one ((k, v) ∷ m) annotations = merge_one m (insert k v annotations)

-- `merge`, and `ReconcileAnnotations`; a nil map is an empty one.
unfoldable pub reconcile_annotations : Dict Text → List (Dict Text) → Dict Text
unfolding merge_one
reconcile_annotations annotations [] = annotations
reconcile_annotations annotations (m ∷ maps) = reconcile_annotations (merge_one m annotations) maps
