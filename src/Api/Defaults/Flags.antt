-- ===== src/Api/Defaults/Flags.antt =====
-- The flags of osrm-routed depend on the order in which Go visits the entries of `flagMap`.
use osrm_operator.Base.{
  ℕ, ◌+◌, ◌*◌, ◌≤◌, List, [], ◌∷◌, ◌++◌, Option, none, some, not, ◌≡◌, ◌≢◌, inl, inr, refl, sym,
  ◌∙◌, ap, arith, All, Bool-cases, length, if◌then◌else◌, ◌==◌,
}
use mathlib.Core.List.{reverse}
use osrm_operator.Base.Int.{ℤ, pos, negsuc}
use osrm_operator.Text.{Text, codes, text_eq, join}
use osrm_operator.Text.Laws.{text_eq_ne}
use osrm_operator.Text.Decimal.{itoa}
use osrm_operator.Text.Decimal.RoundTrip.{itoa-ne-nil}
use osrm_operator.Dict.{Dict}
use osrm_operator.Api.{OsrmRoutedOptions}
use osrm_operator.Api.Defaults.{format_int, flag_map, format_flags, to_string}

-- The two bytes of a flag behind `--max-`, which tell the five flags apart.
abbrev mark : Text → ℕ
mark (a ∷ b ∷ c ∷ d ∷ e ∷ f ∷ x ∷ y ∷ t) = x * 256 + y
mark t = 0

abbrev IsLong : Text → Type 0
IsLong t = 8 ≤ length t

mark-append : (s t : Text) → IsLong s → mark (s ++ t) ≡ mark s
mark-append [] t h = absurd (omega arith)
mark-append (a ∷ []) t h = absurd (omega arith)
mark-append (a ∷ b ∷ []) t h = absurd (omega arith)
mark-append (a ∷ b ∷ c ∷ []) t h = absurd (omega arith)
mark-append (a ∷ b ∷ c ∷ d ∷ []) t h = absurd (omega arith)
mark-append (a ∷ b ∷ c ∷ d ∷ e ∷ []) t h = absurd (omega arith)
mark-append (a ∷ b ∷ c ∷ d ∷ e ∷ f ∷ []) t h = absurd (omega arith)
mark-append (a ∷ b ∷ c ∷ d ∷ e ∷ f ∷ x ∷ []) t h = absurd (omega arith)
mark-append (a ∷ b ∷ c ∷ d ∷ e ∷ f ∷ x ∷ y ∷ s) t h = refl

length-append : (s t : Text) → length (s ++ t) ≡ length s + length t
length-append [] t = omega arith
length-append (a ∷ s) t = omega (arith, length-append s t)

-- The mark of the first flag that has a value.
first_mark : Dict Text → ℕ
first_mark [] = 0
first_mark ((flag, val) ∷ m) = if not (text_eq val []) then mark flag else first_mark m

mark-join : (t : Text) (ts : List Text) → IsLong t → mark (join (t ∷ ts) (codes " ")) ≡ mark t
unfolding join
mark-join t [] h = refl
mark-join t (u ∷ ts) h = mark-append t (codes " " ++ join (u ∷ ts) (codes " ")) h

mark-flags :
    (m : Dict Text)
    → All (λ e. IsLong e.0) m
    → mark (join (format_flags m) (codes " ")) ≡ first_mark m
unfolding format_flags first_mark
mark-flags [] h = unfold join in refl
mark-flags ((flag, val) ∷ m) (h, hs) = elim (Bool-cases (text_eq val [])) [
  | inl y ↦ rw y (mark-flags m hs)
  | inr n ↦ rw n (
      mark-join (flag ++ (codes " " ++ val)) (format_flags m)
        (omega (arith, length-append flag (codes " " ++ val)))
      ∙ mark-append flag (codes " " ++ val) h)
]

-- Whether an option is set.
abbrev pub is_set : Option ℤ → ℕ
is_set none = 0
is_set (some v) = 1

-- How many of the options are set.
abbrev pub set_count : OsrmRoutedOptions → ℕ
set_count o =
    is_set o.max_via_route_size
    + is_set o.max_trip_size
    + is_set o.max_table_size
    + is_set o.max_matching_size
    + is_set o.max_nearest_size

format_int-set : (o : Option ℤ) → text_eq (format_int o) [] ≡ (is_set o == 0)
unfolding format_int text_eq
format_int-set none = refl
format_int-set (some (pos n)) = text_eq_ne (itoa (pos n)) [] (itoa-ne-nil n)
format_int-set (some (negsuc n)) = unfold itoa in refl

first_marks-differ :
    (o : OsrmRoutedOptions)
    → 2 ≤ set_count o
    → first_mark (flag_map o) ≢ first_mark (reverse (flag_map o))
unfolding first_mark flag_map
first_marks-differ o h =
    rw
      (
        format_int-set o.max_via_route_size,
        format_int-set o.max_trip_size,
        format_int-set o.max_table_size,
        format_int-set o.max_matching_size,
        format_int-set o.max_nearest_size,
      )
      (λ e. ground arith)

-- Where two options or more are set, the flags that come in the order of the source and those that
-- come in the reverse order are different texts.
pub to_string-order :
    (o : OsrmRoutedOptions)
    → 2 ≤ set_count o
    → to_string (λ m. m) (some o) ≢ to_string reverse (some o)
unfolding to_string
to_string-order o h e = first_marks-differ o h (
    sym (mark-flags (flag_map o) (unfold flag_map in omega arith))
    ∙ ap mark e
    ∙ mark-flags (reverse (flag_map o)) (unfold flag_map in omega arith))
