-- ===== src/Metadata/Again.antt =====
-- Writing into a map, and merging annotations, a second time.
use osrm_operator.Base.{[], ◌∷◌, some, ◌≡◌, ◌≢◌, refl, ◌∙◌, arith, All}
use osrm_operator.Text.{Text}
use osrm_operator.Text.Laws.{text_eq_iff, text_eq_refl}
use osrm_operator.Dict.{Dict, lookup, insert}
use osrm_operator.Metadata.{merge_one, reconcile_annotations}
use osrm_operator.Metadata.Precedence.{HasDistinctKeys, lookup-merge_one}

-- Writing what is there changes nothing.
pub insert-there : (k v : Text) (m : Dict Text) → lookup k m ≡ some v → insert k v m ≡ m
unfolding insert lookup
insert-there k v [] h = absurd (cc)
insert-there k v ((j, w) ∷ m) h = ground (arith, text_eq_iff j k, insert-there k v m)

pub lookup-insert_self : (k v : Text) (m : Dict Text) → lookup k (insert k v m) ≡ some v
unfolding insert lookup
lookup-insert_self k v [] = rw (text_eq_refl k)
lookup-insert_self k v ((j, w) ∷ m) = ground (arith, text_eq_refl k, lookup-insert_self k v m)

merge_one-there :
    (m annotations : Dict Text)
    → All (λ e. lookup e.0 annotations ≡ some e.1) m
    → merge_one m annotations ≡ annotations
unfolding merge_one
merge_one-there [] annotations h = refl
merge_one-there ((k, v) ∷ m) annotations (h, hs) =
    rw (insert-there k v annotations h) (merge_one-there m annotations hs)

skip-entry :
    (k v : Text) (whole m : Dict Text)
    → All (λ e. e.0 ≢ k) m
    → All (λ e. lookup e.0 whole ≡ some e.1) m
    → All (λ e. lookup e.0 ((k, v) ∷ whole) ≡ some e.1) m
unfolding lookup
skip-entry k v whole [] f h = tt
skip-entry k v whole ((j, w) ∷ m) (f, fs) (h, hs) =
    (ground (arith, text_eq_iff k j), skip-entry k v whole m fs hs)

entries-there : (m : Dict Text) → HasDistinctKeys m → All (λ e. lookup e.0 m ≡ some e.1) m
unfolding lookup
entries-there [] d = tt
entries-there ((k, v) ∷ m) (fresh, d) =
    (rw (text_eq_refl k) refl, skip-entry k v m m fresh (entries-there m d))

merged-there :
    (whole annotations m : Dict Text)
    → HasDistinctKeys whole
    → All (λ e. lookup e.0 whole ≡ some e.1) m
    → All (λ e. lookup e.0 (merge_one whole annotations) ≡ some e.1) m
merged-there whole annotations [] d h = tt
merged-there whole annotations ((k, v) ∷ m) d (h, hs) =
    (lookup-merge_one k whole annotations d ∙ rw h refl, merged-there whole annotations m d hs)

-- Annotations that were merged are not changed by being merged again.
pub reconcile_annotations-again :
    (annotations m : Dict Text)
    → HasDistinctKeys m
    → reconcile_annotations (reconcile_annotations annotations (m ∷ [])) (m ∷ [])
      ≡ reconcile_annotations annotations (m ∷ [])
unfolding reconcile_annotations
reconcile_annotations-again annotations m d =
    merge_one-there m (merge_one m annotations) (merged-there m annotations m d (entries-there m d))
