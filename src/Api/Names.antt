-- ===== src/Api/Names.antt =====
-- Child names (`ChildResourceName`), their suffixes, and when two of them agree.
use osrm_operator.Base.{[], ◌∷◌, ◌++◌, append-nil, ◌≡◌, ◌≢◌, refl, sym, ◌∙◌, ap}
use mathlib.Core.List.{append_cancel_left, append_cancel_right}
use osrm_operator.Text.{Text, codes, dash, trim_suffix, join, split, last}
use osrm_operator.Text.Laws.{
  LacksDash, EndsClear, EndsClear-append, LacksDash-EndsClear, last-split, trim_suffix-EndsClear,
  trim_suffix-dash,
}
use osrm_operator.Kube.{ObjectMeta}
use osrm_operator.Api.{child_resource_name}

-- The part of a child's name that stands before the suffix.
abbrev pub with_component : Text → Text → Text
with_component name [] = name
with_component name (c ∷ component) = name ++ dash ∷ c ∷ component

-- A component is usable if it is empty or does not end in a dash.
abbrev pub IsComponent : Text → Type 0
IsComponent [] = Unit
IsComponent (c ∷ s) = EndsClear (c ∷ s)

trim-join :
    (name component : Text)
    → IsComponent component
    → trim_suffix (join (name ∷ component ∷ []) (codes "-")) (codes "-")
      ≡ with_component name component
unfolding join
trim-join name [] h = trim_suffix-dash name
trim-join name (c ∷ s) h =
    trim_suffix-EndsClear (name ++ dash ∷ c ∷ s) (EndsClear-append name (dash ∷ c ∷ s) h)

-- A child's name is the parent's, the component if there is one, and the suffix if there is one,
-- joined by dashes.
pub child_resource_name_lem :
    (m : ObjectMeta) (component suffix : Text)
    → IsComponent component
    → IsComponent suffix
    → child_resource_name m component suffix
      ≡ with_component (with_component m.name component) suffix
unfolding child_resource_name
child_resource_name_lem m component suffix hc hs =
    rw (trim-join m.name component hc) (trim-join (with_component m.name component) suffix hs)

-- A generation in a name: not empty, without a dash.
pub record IsSuffix (suffix : Text) : Type 0 where
  pub filled : suffix ≢ []
  pub dashless : LacksDash suffix

pub IsSuffix-IsComponent : (s : Text) → IsSuffix s → IsComponent s
IsSuffix-IsComponent [] h = tt
IsSuffix-IsComponent (c ∷ s) h = LacksDash-EndsClear (c ∷ s) h.filled h.dashless

pub with_component-suffix : (name s : Text) → IsSuffix s → with_component name s ≡ name ++ dash ∷ s
with_component-suffix name [] h = absurd (h.filled refl)
with_component-suffix name (c ∷ s) h = refl

-- What stands behind the last dash of such a name is the suffix.
pub last-child_resource_name :
    (m : ObjectMeta) (component suffix : Text)
    → IsComponent component
    → IsSuffix suffix
    → last (split (child_resource_name m component suffix) dash) ≡ suffix
last-child_resource_name m component suffix hc hs =
    rw
      (
        child_resource_name_lem m component suffix hc (IsSuffix-IsComponent suffix hs),
        with_component-suffix (with_component m.name component) suffix hs,
      )
      (last-split dash (with_component m.name component) suffix hs.dashless)

-- What the component adds to the name.
abbrev pub dashed : Text → Text
dashed [] = []
dashed (c ∷ s) = dash ∷ c ∷ s

pub with_component-dashed : (name a : Text) → with_component name a ≡ name ++ dashed a
with_component-dashed name [] = sym (append-nil name)
with_component-dashed name (c ∷ s) = refl

dashed-injective : (a b : Text) → dashed a ≡ dashed b → a ≡ b
dashed-injective [] [] e = refl
dashed-injective [] (d ∷ b) e = cc
dashed-injective (c ∷ a) [] e = cc
dashed-injective (c ∷ a) (d ∷ b) e = cc

pub with_component-injective :
    (name a b : Text) → with_component name a ≡ with_component name b → a ≡ b
with_component-injective name a b e = dashed-injective a b (
    append_cancel_left name (dashed a) (dashed b)
      (sym (with_component-dashed name a) ∙ e ∙ with_component-dashed name b))

-- Two children of one parent with the same name have the same component and the same suffix, where
-- no component ends in a dash and the suffixes are not empty and hold no dash.
pub child_resource_name-injective :
    (m : ObjectMeta) (a b s t : Text)
    → IsComponent a
    → IsComponent b
    → IsSuffix s
    → IsSuffix t
    → child_resource_name m a s ≡ child_resource_name m b t
    → (a ≡ b) × (s ≡ t)
child_resource_name-injective m a b s t ha hb hs ht e =
    let same : s ≡ t =
      sym (last-child_resource_name m a s ha hs)
      ∙ ap (λ n. last (split n dash)) e
      ∙ last-child_resource_name m b t hb ht in
    (
      with_component-injective m.name a b (
          append_cancel_right (with_component m.name a) (with_component m.name b) (dash ∷ s)
            (sym (whole a s ha hs) ∙ e ∙ whole b t hb ht ∙ rw same)),
      same,
    )
  where
    whole :
        (c u : Text)
        → IsComponent c
        → IsSuffix u
        → child_resource_name m c u ≡ with_component m.name c ++ dash ∷ u
    whole c u hc hu =
        child_resource_name_lem m c u hc (IsSuffix-IsComponent u hu)
        ∙ with_component-suffix (with_component m.name c) u hu
