-- ===== src/Metadata/Precedence.antt =====
-- Which value a label or an annotation has in the end.
use osrm_operator.Base.{
  List, [], ◌∷◌, Option, none, some, true, ◌≡◌, ◌≢◌, inl, inr, refl, ◌∙◌, ap, arith, All,
  Bool-cases,
}
use osrm_operator.Text.{Text, codes, has_prefix, text_eq}
use osrm_operator.Text.Laws.{text_eq_iff, text_eq_sound}
use osrm_operator.Dict.{Dict, lookup, insert, lookup-insert}
use osrm_operator.Kube.{ObjectMeta}
use osrm_operator.Metadata.{
  name_label_key, part_of_label_key, component_label_key, reserved_prefix, add_labels, get_labels,
  merge_one, reconcile_annotations,
}

-- A label of the resource does not change one with the reserved prefix.
lookup-add_labels :
    (key : Text) (more labels : Dict Text)
    → has_prefix key reserved_prefix ≡ true
    → lookup key (add_labels more labels) ≡ lookup key labels
unfolding add_labels
lookup-add_labels key [] labels h = refl
lookup-add_labels key ((label, value) ∷ more) labels h =
    elim (Bool-cases (has_prefix label reserved_prefix)) [
      | inl y ↦ rw y (lookup-add_labels key more labels h)
      | inr n ↦ rw n (
          lookup-add_labels key more (insert label value labels) h
          ∙ lookup-insert label key value labels
          ∙ ground (arith, text_eq_sound label key))
    ]

-- Whatever labels the resource has, its children bear the labels by which they are listed: the name
-- of the resource, the operator's name and the component.
pub lookup-get_labels :
    (m : ObjectMeta) (component : Text)
    → (lookup name_label_key (get_labels m component) ≡ some m.name)
      × (lookup part_of_label_key (get_labels m component) ≡ some (codes "osrmcluster"))
      × (lookup component_label_key (get_labels m component) ≡ some component)
unfolding get_labels has_prefix lookup text_eq
lookup-get_labels m component = (
  lookup-add_labels name_label_key m.labels _ refl,
  lookup-add_labels part_of_label_key m.labels _ refl,
  lookup-add_labels component_label_key m.labels _ refl,
)

-- The keys of a Go map are distinct.
abbrev pub HasDistinctKeys : Dict Text → Type 0
HasDistinctKeys [] = Unit
HasDistinctKeys ((k, v) ∷ m) = All (λ e. e.0 ≢ k) m × HasDistinctKeys m

lookup-absent : (k : Text) (m : Dict Text) → All (λ e. e.0 ≢ k) m → lookup k m ≡ none
unfolding lookup
lookup-absent k [] h = refl
lookup-absent k ((j, v) ∷ m) (h, hs) = ground (arith, text_eq_iff j k, lookup-absent k m hs)

-- The first value where there is one, and else the second.
abbrev pub prefer : Option Text → Option Text → Option Text
prefer none other = other
prefer (some v) other = some v

pub lookup-merge_one :
    (k : Text) (m annotations : Dict Text)
    → HasDistinctKeys m
    → lookup k (merge_one m annotations) ≡ prefer (lookup k m) (lookup k annotations)
unfolding merge_one lookup
lookup-merge_one k [] annotations d = refl
lookup-merge_one k ((j, v) ∷ m) annotations (fresh, d) =
    let step =
      lookup-merge_one k m (insert j v annotations) d
      ∙ ap (prefer (lookup k m)) (lookup-insert j k v annotations) in
    elim (Bool-cases (text_eq j k)) [
      | inl y ↦
          let absent = lookup-absent k m (rw (text_eq_sound j k y) at fresh) in
          rw y (step ∙ rw (absent, y) refl)
      | inr n ↦ rw n (step ∙ rw n refl)
    ]

-- The value of an annotation in the last of the maps that has it.
abbrev pub last_value : Text → List (Dict Text) → Option Text → Option Text
last_value k [] value = value
last_value k (m ∷ maps) value = last_value k maps (prefer (lookup k m) value)

-- A merged annotation has its value from the last of the maps that has it, and where none has it
-- the value that it had.
pub lookup-reconcile_annotations :
    (k : Text) (annotations : Dict Text) (maps : List (Dict Text))
    → All HasDistinctKeys maps
    → lookup k (reconcile_annotations annotations maps) ≡ last_value k maps (lookup k annotations)
unfolding reconcile_annotations
lookup-reconcile_annotations k annotations [] d = refl
lookup-reconcile_annotations k annotations (m ∷ maps) (d, ds) =
    rw (lookup-merge_one k m annotations d) at
      (lookup-reconcile_annotations k (merge_one m annotations) maps ds)
