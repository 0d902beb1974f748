-- ===== src/Text.antt =====
-- Go strings as lists of bytes, and what the program uses of the packages `strings` and `strconv`.
pub mod Laws
pub mod Decimal
use Prim.Native.Char.{code}
use osrm_operator.Base.{
  ℕ, zero, suc, ◌-◌, String, List, [], ◌∷◌, ◌++◌, Bool, true, false, ◌&&◌, ◌≡◌, refl, ◌==◌, leb,
  length, if◌then◌else◌,
}

abbrev pub Text : Type 0
Text = List ℕ

-- The code points of a literal: its bytes, as every literal of the program is ASCII.
abbrev pub codes : String → Text
codes String.[] = []
codes (String.◌∷◌ c s) = code c ∷ codes s

abbrev pub dash : ℕ
dash = b'-'

-- `a == b` on strings.
unfoldable pub text_eq : Text → Text → Bool
text_eq [] [] = true
text_eq [] (d ∷ t) = false
text_eq (c ∷ s) [] = false
text_eq (c ∷ s) (d ∷ t) = c == d && text_eq s t

-- `strings.TrimSuffix`
unfoldable pub trim_suffix : Text → Text → Text
unfolding text_eq
trim_suffix [] suffix = []
trim_suffix (c ∷ s) suffix =
    let rest = c ∷ trim_suffix s suffix in if text_eq (c ∷ s) suffix then [] else rest

-- `strings.Join`
unfoldable pub join : List Text → Text → Text
join [] sep = []
join (t ∷ []) sep = t
join (t ∷ u ∷ ts) sep = t ++ (sep ++ join (u ∷ ts) sep)

abbrev pub push_head : ℕ → List Text → List Text
push_head c [] = (c ∷ []) ∷ []
push_head c (t ∷ ts) = (c ∷ t) ∷ ts

-- `strings.Split` at a separator of one byte; the result has a part at least.
unfoldable pub split : Text → ℕ → List Text
split [] sep = [] ∷ []
split (c ∷ s) sep = let rest = split s sep in if c == sep then [] ∷ rest else push_head c rest

-- `tokens[len(tokens)-1]` of a list that is not empty.
unfoldable pub last : List Text → Text
last [] = []
last (t ∷ []) = t
last (t ∷ u ∷ ts) = last (u ∷ ts)

-- `strings.HasPrefix(s, prefix)`
unfoldable pub has_prefix : Text → Text → Bool
has_prefix s [] = true
has_prefix [] (d ∷ prefix) = false
has_prefix (c ∷ s) (d ∷ prefix) = let rest = has_prefix s prefix in if c == d then rest else false

-- `strings.ReplaceAll` for a text `old` that is not empty; the first argument is how many bytes of a
-- match are still to be skipped.
unfoldable pub replace_from : ℕ → Text → Text → Text → Text
unfolding has_prefix
replace_from skip [] old new = []
replace_from (suc skip) (c ∷ s) old new = replace_from skip s old new
replace_from zero (c ∷ s) old new =
    let hit = has_prefix (c ∷ s) old in
    let rest = replace_from (if hit then length old - 1 else 0) s old new in
    if hit then new ++ rest else c ∷ rest

unfoldable pub replace_all : Text → Text → Text → Text
unfolding replace_from
replace_all s old new = replace_from 0 s old new

-- `strings.ToUpper` on ASCII.
unfoldable pub upper : ℕ → ℕ
upper c = if leb b'a' c && leb c b'z' then c - 32 else c

unfoldable pub to_upper : Text → Text
unfolding upper
to_upper [] = []
to_upper (c ∷ s) = upper c ∷ to_upper s

trim_suffix_once : trim_suffix (codes "a--") (codes "-") ≡ codes "a-"
unfolding trim_suffix
trim_suffix_once = refl

split_parts : split (codes "a--b") dash ≡ codes "a" ∷ [] ∷ codes "b" ∷ []
unfolding split
split_parts = refl

replace_all_parts :
    (replace_all (codes "a-b--c") (codes "-") (codes "__") ≡ codes "a__b____c")
    × (replace_all (codes "aaa") (codes "aa") (codes "b") ≡ codes "ba")
    × (to_upper (codes "a-Zz") ≡ codes "A-ZZ")
unfolding replace_all to_upper
replace_all_parts = (refl, refl, refl)
