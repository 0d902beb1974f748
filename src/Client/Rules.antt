-- ===== src/Client/Rules.antt =====
-- Reasoning about a sequence of calls: what holds of the final state on every outcome, and what a
-- successful outcome says of the parts.
use osrm_operator.Base.{◌≡◌, refl, arith, Result, ok, err, panic}
use osrm_operator.Text.{Text}
use osrm_operator.Client.{Action, gone, wrap_result, ◌>>=◌}
use osrm_operator.Client.Lawful.{IsGone}

module _ {W A B : Type 0} where
  -- What holds of the state after the first part, and is kept by the second, holds in the end.
  pub >>=-state :
      (P : W → Type 0) (m : Action W A) (f : A → Action W B) (w : W)
      → P (m w).1
      → ((a : A) → (m w).0 ≡ ok a → P (f a (m w).1).1)
      → P ((m >>= f) w).1
  >>=-state P m f w first second = go (m w).0 (m w).1 first second
    where
      go :
          (r : Result A) (w' : W)
          → P w'
          → ((a : A) → r ≡ ok a → P (f a w').1)
          → P (((λ v. (r, v)) >>= f) w').1
      go (ok a) w' p q = q a refl
      go (err e) w' p q = p
      go panic w' p q = p

  -- A sequence that succeeds has a first part that succeeds, and ends as the second part does.
  pub >>=-ok :
      (m : Action W A) (f : A → Action W B) (w : W) (b : B)
      → ((m >>= f) w).0 ≡ ok b
      → (a : A) × ((m w).0 ≡ ok a) × ((f a (m w).1).0 ≡ ok b) × (((m >>= f) w).1 ≡ (f a (m w).1).1)
  >>=-ok m f w b h = go (m w).0 (m w).1 h
    where
      go :
          (r : Result A) (w' : W)
          → (((λ v. (r, v)) >>= f) w').0 ≡ ok b
          → (a : A) × (r ≡ ok a) × ((f a w').0 ≡ ok b) × ((((λ v. (r, v)) >>= f) w').1 ≡ (f a w').1)
      go (ok a) w' h = (a, refl, h, refl)
      go (err e) w' h = absurd (cc)
      go panic w' h = absurd (cc)

pub wrap_result-ok :
    {A : Type 0} (message : Text) (r : Result A) (a : A) → wrap_result message r ≡ ok a → r ≡ ok a
wrap_result-ok message (ok b) a h = h
wrap_result-ok message (err e) a h = cc
wrap_result-ok message panic a h = cc

pub gone-ok : (message : Text) (r : Result (Unit {0})) → gone message r ≡ ok tt → IsGone r
gone-ok message (ok u) h = tt
gone-ok message (err e) h = ground arith
gone-ok message panic h = cc
