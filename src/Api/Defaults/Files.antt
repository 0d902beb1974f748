-- ===== src/Api/Defaults/Files.antt =====
-- The name of the file that the workers serve, which is made from the URL of the source data.
use osrm_operator.Base.{ℕ, [], ◌∷◌, ◌++◌, false, ◌≡◌, ◌≢◌, ◌∙◌, ap, arith, All-append, append-nil}
use osrm_operator.Text.{Text, codes, has_prefix, replace_from, replace_all}
use osrm_operator.Text.Laws.{Lacks, last-split}
use osrm_operator.Api.Defaults.{get_pbf_file_name, get_osrm_file_name}

abbrev pub extension : Text
extension = codes "osm.pbf"

-- The extension stands nowhere in the text.
abbrev pub LacksExtension : Text → Type 0
LacksExtension [] = Unit
LacksExtension (c ∷ s) = (has_prefix (c ∷ s) extension ≡ false) × LacksExtension s

-- No proper end of the extension begins it again, so a text that does not begin with the extension
-- does not do so either when the extension follows.
has_prefix-extension :
    (c : ℕ) (s : Text)
    → has_prefix (c ∷ s) extension ≡ false
    → has_prefix (c ∷ (s ++ extension)) extension ≡ false
unfolding has_prefix
has_prefix-extension c [] h = ground arith
has_prefix-extension c (c2 ∷ []) h = ground arith
has_prefix-extension c (c2 ∷ c3 ∷ []) h = ground arith
has_prefix-extension c (c2 ∷ c3 ∷ c4 ∷ []) h = ground arith
has_prefix-extension c (c2 ∷ c3 ∷ c4 ∷ c5 ∷ []) h = ground arith
has_prefix-extension c (c2 ∷ c3 ∷ c4 ∷ c5 ∷ c6 ∷ []) h = ground arith
has_prefix-extension c (c2 ∷ c3 ∷ c4 ∷ c5 ∷ c6 ∷ c7 ∷ s) h = h

replace_from-extension :
    (base new : Text)
    → LacksExtension base
    → replace_from 0 (base ++ extension) extension new ≡ base ++ new
unfolding replace_from
replace_from-extension [] new h = append-nil new
replace_from-extension (c ∷ base) new (h, hs) =
    rw (has_prefix-extension c base h) (ap (λ t. c ∷ t) (replace_from-extension base new hs))

slashless : Lacks b'/' extension
slashless = (
  λ h. omega arith,
  (
    λ h. omega arith,
    (
      λ h. omega arith,
      (λ h. omega arith, (λ h. omega arith, (λ h. omega arith, (λ h. omega arith, tt)))),
    ),
  ),
)

-- For a URL whose last part is a name with the extension `osm.pbf` at its end, and neither a slash nor
-- that extension before, the file of the source data is that part, and the file that is served has
-- the extension `osrm` in its place, whatever stands before the last slash.
pub get_osrm_file_name_lem :
    (path base : Text)
    → Lacks b'/' base
    → LacksExtension base
    → (get_pbf_file_name (path ++ b'/' ∷ (base ++ extension)) ≡ base ++ extension)
      × (get_osrm_file_name (path ++ b'/' ∷ (base ++ extension)) ≡ base ++ codes "osrm")
unfolding get_pbf_file_name get_osrm_file_name replace_all
get_osrm_file_name_lem path base slash lacks =
    let file =
      last-split b'/' path (base ++ extension)
        (All-append (λ c. c ≢ b'/') base extension slash slashless) in
    (
      file,
      ap (λ t. replace_from 0 t extension (codes "osrm")) file
          ∙ replace_from-extension base (codes "osrm") lacks,
    )
