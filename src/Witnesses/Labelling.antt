-- ===== src/Witnesses/Labelling.antt =====
-- Labels and annotations of a concrete resource.
use osrm_operator.Base.{[], ◌∷◌, some, ◌≡◌, refl}
use osrm_operator.Text.{Text, codes, text_eq}
use osrm_operator.Text.Laws.{text_eq-false}
use osrm_operator.Dict.{Dict, lookup}
use osrm_operator.Kube.{ObjectMeta}
use osrm_operator.Metadata.{
  name_label_key, part_of_label_key, component_label_key, get_labels, reconcile_annotations,
}
use osrm_operator.Metadata.Precedence.{
  lookup-get_labels, HasDistinctKeys, last_value, lookup-reconcile_annotations,
}
use osrm_operator.Witnesses.{meta_of}

-- A resource whose own label claims another name.
abbrev labelled : ObjectMeta
labelled = record (meta_of (codes "osm")) {
  labels = (name_label_key, codes "other") ∷ (codes "team", codes "maps") ∷ [];
}

lookup-get_labels_example :
    (lookup name_label_key (get_labels labelled (codes "profile")) ≡ some (codes "osm"))
    × (lookup part_of_label_key (get_labels labelled (codes "profile"))
        ≡ some (codes "osrmcluster"))
    × (lookup component_label_key (get_labels labelled (codes "profile")) ≡ some (codes "profile"))
lookup-get_labels_example = lookup-get_labels labelled (codes "profile")

abbrev before : Dict Text
before = (codes "before", codes "each") ∷ []

abbrev defaults : Dict Text
defaults = (codes "osrm", codes "operator") ∷ (codes "before", codes "operator") ∷ []

defaults-HasDistinctKeys : HasDistinctKeys defaults
unfolding text_eq
defaults-HasDistinctKeys = ((text_eq-false (codes "before") (codes "osrm") refl, tt), (tt, tt))

lookup-reconcile_annotations_example :
    lookup (codes "before") (reconcile_annotations before (defaults ∷ []))
    ≡ last_value (codes "before") (defaults ∷ []) (lookup (codes "before") before)
lookup-reconcile_annotations_example =
    lookup-reconcile_annotations (codes "before") before (defaults ∷ [])
      (defaults-HasDistinctKeys, tt)
