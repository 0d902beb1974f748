-- ===== src/Dict.antt =====
-- Go maps with string keys, as association lists. A read of a missing key is `none`; a `nil` map
-- reads as an empty one.
use osrm_operator.Base.{
  List, [], ◌∷◌, Option, none, some, Bool, true, false, ◌≡◌, refl, arith, if◌then◌else◌,
}
use osrm_operator.Text.{Text, text_eq}
use osrm_operator.Text.Laws.{text_eq_iff, text_eq_refl}

abbrev pub Dict {ℓ} : Type ℓ → Type ℓ
Dict V = List (Text × V)

module _ {ℓ} {V : Type ℓ} where
  unfoldable pub lookup : Text → Dict V → Option V
  lookup k [] = none
  lookup k ((j, v) ∷ m) = if text_eq j k then some v else lookup k m

  -- `m[k] = v`
  unfoldable pub insert : Text → V → Dict V → Dict V
  insert k v [] = (k, v) ∷ []
  insert k v ((j, w) ∷ m) = if text_eq j k then (k, v) ∷ m else (j, w) ∷ insert k v m

  pub lookup-insert :
      (k j : Text) (v : V) (m : Dict V)
      → lookup j (insert k v m) ≡ (if text_eq k j then some v else lookup j m)
  unfolding lookup insert
  lookup-insert k j v [] = refl
  lookup-insert k j v ((i, w) ∷ m) =
      ground (arith, text_eq_iff k j, text_eq_iff i k, text_eq_iff i j, lookup-insert k j v m)

-- A Go `map[string]bool` that only ever holds `true`: the set of its keys.
unfoldable pub contains : Text → List Text → Bool
contains k [] = false
contains k (j ∷ s) = if text_eq j k then true else contains k s

pub contains-cons_self : (k : Text) (s : List Text) → contains k (k ∷ s) ≡ true
unfolding contains
contains-cons_self k s = rw (text_eq_refl k)

pub contains-cons : (k j : Text) (s : List Text) → contains k s ≡ true → contains k (j ∷ s) ≡ true
unfolding contains
contains-cons k j s h = ground arith
