-- ===== src/Text/Decimal/RoundTrip.antt =====
-- Printing a number in decimal and reading it back.
use osrm_operator.Base.{
  ℕ, zero, suc, ◌+◌, ◌/◌, ◌%◌, ◌≤◌, [], ◌∷◌, ◌++◌, true, false, ◌≡◌, ◌≢◌, refl, arith, All,
  All-append,
}
use osrm_operator.Base.Int.{pos}
use osrm_operator.Text.{Text}
use osrm_operator.Text.Laws.{LacksDash}
use osrm_operator.Text.Decimal.{
  max_u64, max_int64, Scan, number, scan_digit, scan, signed, atoi, digits, itoa,
}

scan-append : (r : Scan) (s t : Text) → scan r (s ++ t) ≡ scan (scan r s) t
unfolding scan
scan-append r [] t = refl
scan-append r (c ∷ s) t = scan-append (scan_digit r c) s t

scan_digit_next : (n : ℕ) → n ≤ max_u64 → scan_digit (number (n / 10)) (b'0' + n % 10) ≡ number n
unfolding scan_digit
scan_digit_next n h = ground arith

scan-digits : (fuel n : ℕ) → n ≤ fuel → n ≤ max_u64 → scan (number 0) (digits fuel n) ≡ number n
unfolding digits scan
scan-digits zero n h b = ground (arith, scan_digit_next n b)
scan-digits (suc fuel) n h b = ground (
  arith,
  scan_digit_next n b,
  scan-digits fuel (n / 10),
  scan-append (number 0) (digits fuel (n / 10)) ((b'0' + n % 10) ∷ []),
)

-- A printed number is a text of digits, not empty.
abbrev IsDigit : ℕ → Type 0
IsDigit c = (b'0' ≤ c) × (c ≤ b'9')

digits-IsDigit : (fuel n : ℕ) → All IsDigit (digits fuel n)
unfolding digits
digits-IsDigit zero n = omega arith
digits-IsDigit (suc fuel) n = ground (
  arith,
  All-append IsDigit (digits fuel (n / 10)) ((b'0' + n % 10) ∷ []) (digits-IsDigit fuel (n / 10)),
)

append-ne-nil : (s : Text) (c : ℕ) → s ++ c ∷ [] ≢ []
append-ne-nil [] c e = cc
append-ne-nil (d ∷ s) c e = cc

digits-ne-nil : (fuel n : ℕ) → digits fuel n ≢ []
unfolding digits
digits-ne-nil zero n e = cc
digits-ne-nil (suc fuel) n e = ground (arith, append-ne-nil (digits fuel (n / 10)) (b'0' + n % 10))

lacks : (s : Text) → All IsDigit s → LacksDash s
lacks [] h = tt
lacks (c ∷ s) (hc, hs) = (ground arith, lacks s hs)

pub itoa-LacksDash : (n : ℕ) → LacksDash (itoa (pos n))
unfolding itoa
itoa-LacksDash n = lacks (digits n n) (digits-IsDigit n n)

pub itoa-ne-nil : (n : ℕ) → itoa (pos n) ≢ []
unfolding itoa
itoa-ne-nil n = digits-ne-nil n n

atoi-unsigned : (s : Text) → s ≢ [] → All IsDigit s → atoi s ≡ signed false (scan (number 0) s)
unfolding atoi
atoi-unsigned [] h d = absurd (h refl)
atoi-unsigned (c ∷ s) h d = ground arith

-- Every nonnegative `int` is read back from its decimal print.
pub atoi-itoa : (n : ℕ) → n ≤ max_int64 → atoi (itoa (pos n)) ≡ (pos n, true)
unfolding itoa
atoi-itoa n h =
    rw
      (
        atoi-unsigned (digits n n) (digits-ne-nil n n) (digits-IsDigit n n),
        scan-digits n n (omega arith) (omega arith),
      )
      (ground arith)
