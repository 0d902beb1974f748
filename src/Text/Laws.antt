-- ===== src/Text/Laws.antt =====
-- Equality of texts, and what trimming, joining and splitting at a dash do to names.
use osrm_operator.Base.{
  ℕ, ◌≤◌, List, [], ◌∷◌, ◌++◌, true, false, ◌≡◌, ◌≢◌, ◌↔◌, inl, inr, refl, arith, All, Bool-cases,
  length,
}
use osrm_operator.Text.{Text, dash, text_eq, trim_suffix, push_head, split, last}

pub text_eq_refl : (s : Text) → text_eq s s ≡ true
unfolding text_eq
text_eq_refl [] = refl
text_eq_refl (c ∷ s) = ground (arith, text_eq_refl s)

pub text_eq_sound : (s t : Text) → text_eq s t ≡ true → s ≡ t
unfolding text_eq
text_eq_sound [] [] h = refl
text_eq_sound [] (d ∷ t) h = cc
text_eq_sound (c ∷ s) [] h = cc
text_eq_sound (c ∷ s) (d ∷ t) h = ground (arith, text_eq_sound s t)

pub text_eq_complete : (s t : Text) → s ≡ t → text_eq s t ≡ true
text_eq_complete s t e = cc (ap_eq, text_eq_refl s)
  where
    ap_eq : text_eq s s ≡ text_eq s t
    ap_eq = rw e

pub text_eq_iff : (s t : Text) → (text_eq s t ≡ true) ↔ (s ≡ t)
text_eq_iff s t = (text_eq_sound s t, text_eq_complete s t)

pub text_eq_ne : (s t : Text) → s ≢ t → text_eq s t ≡ false
text_eq_ne s t h = elim (Bool-cases (text_eq s t)) [
  | inl e ↦ absurd (h (text_eq_sound s t e))
  | inr e ↦ e
]

pub text_eq-false : (s t : Text) → text_eq s t ≡ false → s ≢ t
text_eq-false s t h e = ground (arith, text_eq_iff s t)

length-push_head : (c : ℕ) (ts : List Text) → length ts ≤ length (push_head c ts)
length-push_head c [] = omega arith
length-push_head c (t ∷ ts) = omega arith

last-cons : (t : Text) (ts : List Text) → 1 ≤ length ts → last (t ∷ ts) ≡ last ts
unfolding last
last-cons t [] h = absurd (omega arith)
last-cons t (u ∷ ts) h = refl

last-push_head : (c : ℕ) (ts : List Text) → 2 ≤ length ts → last (push_head c ts) ≡ last ts
unfolding last
last-push_head c [] h = absurd (omega arith)
last-push_head c (t ∷ []) h = absurd (omega arith)
last-push_head c (t ∷ u ∷ ts) h = refl

last-single : (t : Text) → last (t ∷ []) ≡ t
unfolding last
last-single t = refl

-- No byte of the text is the separator.
abbrev pub Lacks : ℕ → Text → Type 0
Lacks sep = All (λ c. c ≢ sep)

abbrev pub LacksDash : Text → Type 0
LacksDash = Lacks dash

module _ (sep : ℕ) where
  split-Lacks : (t : Text) → Lacks sep t → split t sep ≡ t ∷ []
  unfolding split
  split-Lacks [] h = refl
  split-Lacks (c ∷ t) (hc, ht) = ground (arith, split-Lacks t ht)

  length-split : (s : Text) → 1 ≤ length (split s sep)
  unfolding split
  length-split [] = omega arith
  length-split (c ∷ s) = ground (arith, length-split s, length-push_head c (split s sep))

  length-split-sep : (s t : Text) → 2 ≤ length (split (s ++ sep ∷ t) sep)
  unfolding split
  length-split-sep [] t = ground (arith, length-split t)
  length-split-sep (c ∷ s) t =
      ground (arith, length-split-sep s t, length-push_head c (split (s ++ sep ∷ t) sep))

  -- The last part of a text is what stands behind its last separator.
  pub last-split : (s t : Text) → Lacks sep t → last (split (s ++ sep ∷ t) sep) ≡ t
  unfolding split
  last-split [] t h =
      let rest = split t sep in
      ground (arith, length-split t, last-cons [] rest, split-Lacks t h, last-single t)
  last-split (c ∷ s) t h =
      let rest = split (s ++ sep ∷ t) sep in
      ground
        (arith, last-split s t h, length-split-sep s t, last-cons [] rest, last-push_head c rest)

-- A text that does not end in a dash keeps its end.
abbrev pub EndsClear : Text → Type 0
EndsClear [] = ⊥
EndsClear (c ∷ []) = c ≢ dash
EndsClear (c ∷ d ∷ s) = EndsClear (d ∷ s)

pub EndsClear-append : (s t : Text) → EndsClear t → EndsClear (s ++ t)
EndsClear-append [] t h = h
EndsClear-append (c ∷ []) [] h = absurd h
EndsClear-append (c ∷ []) (d ∷ t) h = h
EndsClear-append (c ∷ d ∷ s) t h = EndsClear-append (d ∷ s) t h

pub LacksDash-EndsClear : (t : Text) → t ≢ [] → LacksDash t → EndsClear t
LacksDash-EndsClear [] h l = absurd (h refl)
LacksDash-EndsClear (c ∷ []) h l = l.0
LacksDash-EndsClear (c ∷ d ∷ t) h l = LacksDash-EndsClear (d ∷ t) (λ e. cc) l.1

pub trim_suffix-EndsClear : (s : Text) → EndsClear s → trim_suffix s (dash ∷ []) ≡ s
unfolding trim_suffix
trim_suffix-EndsClear [] h = refl
trim_suffix-EndsClear (c ∷ []) h = ground arith
trim_suffix-EndsClear (c ∷ d ∷ s) h = ground (arith, trim_suffix-EndsClear (d ∷ s) h)

-- One dash at the end is taken away.
pub trim_suffix-dash : (s : Text) → trim_suffix (s ++ dash ∷ []) (dash ∷ []) ≡ s
unfolding trim_suffix
trim_suffix-dash [] = refl
trim_suffix-dash (c ∷ []) = ground arith
trim_suffix-dash (c ∷ d ∷ s) = ground (arith, trim_suffix-dash (d ∷ s))
