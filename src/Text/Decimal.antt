-- ===== src/Text/Decimal.antt =====
-- What the program uses of the package `strconv`: `Atoi`, `Itoa` and `ParseBool`.
pub mod RoundTrip
use osrm_operator.Base.{
  ℕ, zero, suc, ◌+◌, ◌-◌, ◌*◌, ◌/◌, ◌%◌, ◌^◌, [], ◌∷◌, ◌++◌, Bool, true, false, ◌||◌, ◌≡◌, refl,
  ltb, leb, ◌==◌, if◌then◌else◌,
}
use osrm_operator.Base.Int.{ℤ, pos, negsuc, sub_ℕ}
use osrm_operator.Text.{Text, codes, dash, text_eq}

abbrev pub max_u64 : ℕ
max_u64 = 2 ^ 64 - 1

abbrev pub max_int64 : ℕ
max_int64 = 2 ^ 63 - 1

-- What `ParseUint` has read so far.
pub data Scan : Type 0 where
  number : ℕ → Scan
  bad_syntax out_of_range : Scan

-- One round of the loop of `ParseUint`; it returns at the first error.
unfoldable pub scan_digit : Scan → ℕ → Scan
scan_digit (number n) c =
    let m = n * 10 + (c - b'0') in
    if ltb c b'0' || ltb b'9' c
    then bad_syntax
    else if ltb max_u64 m
    then out_of_range
    else number m
scan_digit bad_syntax c = bad_syntax
scan_digit out_of_range c = out_of_range

unfoldable pub scan : Scan → Text → Scan
scan r [] = r
scan r (c ∷ s) = scan (scan_digit r c) s

-- The value that `Atoi` returns, and whether it returns a nil error. Out of range the value is the
-- nearest `int`.
abbrev pub signed : Bool → Scan → ℤ × Bool
signed neg bad_syntax = (pos 0, false)
signed true out_of_range = (negsuc max_int64, false)
signed false out_of_range = (pos max_int64, false)
signed true (number n) = if ltb (2 ^ 63) n then (negsuc max_int64, false) else (sub_ℕ 0 n, true)
signed false (number n) = if leb (2 ^ 63) n then (pos max_int64, false) else (pos n, true)

abbrev pub unsigned : Bool → Text → ℤ × Bool
unsigned neg [] = (pos 0, false)
unsigned neg (c ∷ s) = signed neg (scan (number 0) (c ∷ s))

-- `strconv.Atoi`
unfoldable pub atoi : Text → ℤ × Bool
unfolding scan scan_digit
atoi [] = (pos 0, false)
atoi (c ∷ s) =
    if c == dash
    then unsigned true s
    else if c == b'+'
    then unsigned false s
    else unsigned false (c ∷ s)

-- The decimal digits of `n`; fuel `n` is enough, as each round divides by ten.
unfoldable pub digits : ℕ → ℕ → Text
digits zero n = (b'0' + n % 10) ∷ []
digits (suc fuel) n =
    let front = digits fuel (n / 10) in
    if ltb n 10 then (b'0' + n) ∷ [] else front ++ (b'0' + n % 10) ∷ []

-- `strconv.Itoa`, and `strconv.FormatInt` at base 10.
unfoldable pub itoa : ℤ → Text
unfolding digits
itoa (pos n) = digits n n
itoa (negsuc n) = dash ∷ digits (suc n) (suc n)

-- `strconv.ParseBool`: the value, and whether the error is nil.
unfoldable pub parse_bool : Text → Bool × Bool
unfolding text_eq
parse_bool s =
    if text_eq s (codes "1")
      || text_eq s (codes "t")
      || text_eq s (codes "T")
      || text_eq s (codes "true")
      || text_eq s (codes "TRUE")
      || text_eq s (codes "True")
    then (true, true)
    else if text_eq s (codes "0")
        || text_eq s (codes "f")
        || text_eq s (codes "F")
        || text_eq s (codes "false")
        || text_eq s (codes "FALSE")
        || text_eq s (codes "False")
    then (false, true)
    else (false, false)

atoi_signs :
    (atoi (codes "-12") ≡ (negsuc 11, true))
    × (atoi (codes "+7") ≡ (pos 7, true))
    × (atoi (codes "-") ≡ (pos 0, false))
    × (atoi (codes "9223372036854775808") ≡ (pos max_int64, false))
unfolding atoi
atoi_signs = (refl, refl, refl, refl)

itoa_extremes :
    (itoa (pos 0) ≡ codes "0")
    × (itoa (pos 1204) ≡ codes "1204")
    × (itoa (negsuc max_int64) ≡ codes "-9223372036854775808")
unfolding itoa
itoa_extremes = (refl, refl, refl)
