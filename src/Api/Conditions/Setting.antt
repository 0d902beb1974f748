-- ===== src/Api/Conditions/Setting.antt =====
-- What the conditions are after `SetCondition`.
use osrm_operator.Base.{
  ℕ, List, [], ◌∷◌, ◌++◌, ◌≡◌, ◌≢◌, ◌⊎◌, inl, inr, refl, ap, All, Bool-cases, if◌then◌else◌,
}
use osrm_operator.Text.{Text, text_eq}
use osrm_operator.Text.Laws.{text_eq_sound, text_eq-false}
use osrm_operator.Kube.{
  Condition, ConditionStatus, condition_true, condition_false, condition_unknown, status_eq,
}
use osrm_operator.Api.Conditions.{replaced, set_condition}

-- The condition as it is set anew: the time of the last change is kept if the status is the same, and
-- is the reading of the clock else.
pub record IsSetAnew (new : Condition) (now : ℕ) (old changed : Condition) : Type 0 where
  pub same_type : changed.type ≡ old.type
  pub new_status : changed.status ≡ new.status
  pub new_reason : changed.reason ≡ new.reason
  pub new_message : changed.message ≡ new.message
  pub time :
      ((old.status ≡ new.status) × (changed.last_transition_time ≡ old.last_transition_time))
      ⊎ ((old.status ≢ new.status) × (changed.last_transition_time ≡ now))

-- The conditions bear other types.
abbrev pub LackType : Text → List Condition → Type 0
LackType type = All (λ c. c.type ≢ type)

-- No condition has the type and nothing changes, or the first one that has it is set anew.
abbrev pub IsSetIn : Condition → ℕ → List Condition → List Condition → Type 0
IsSetIn new now cs result =
    (LackType new.type cs × (result ≡ cs))
    ⊎ ((pre : List Condition) × (old : Condition) × (changed : Condition) × (post : List Condition)
        × LackType new.type pre
        × (old.type ≡ new.type)
        × (cs ≡ pre ++ old ∷ post)
        × (result ≡ pre ++ changed ∷ post)
        × IsSetAnew new now old changed)

status_eq_time :
    (s t : ConditionStatus) (kept now : ℕ)
    → ((s ≡ t) × ((if status_eq s t then kept else now) ≡ kept))
      ⊎ ((s ≢ t) × ((if status_eq s t then kept else now) ≡ now))
status_eq_time condition_true condition_true kept now = inl (refl, refl)
status_eq_time condition_false condition_false kept now = inl (refl, refl)
status_eq_time condition_unknown condition_unknown kept now = inl (refl, refl)
status_eq_time condition_true condition_false kept now = inr (λ e. absurd (cc), refl)
status_eq_time condition_true condition_unknown kept now = inr (λ e. absurd (cc), refl)
status_eq_time condition_false condition_true kept now = inr (λ e. absurd (cc), refl)
status_eq_time condition_false condition_unknown kept now = inr (λ e. absurd (cc), refl)
status_eq_time condition_unknown condition_true kept now = inr (λ e. absurd (cc), refl)
status_eq_time condition_unknown condition_false kept now = inr (λ e. absurd (cc), refl)

replaced-IsSetAnew :
    (new : Condition) (now : ℕ) (old : Condition) → IsSetAnew new now old (replaced new now old)
replaced-IsSetAnew new now old = record {
  same_type = refl;
  new_status = refl;
  new_reason = refl;
  new_message = refl;
  time = status_eq_time old.status new.status old.last_transition_time now;
}

later-IsSetIn :
    (new : Condition) (now : ℕ) (c : Condition) (cs result : List Condition)
    → c.type ≢ new.type
    → IsSetIn new now cs result
    → IsSetIn new now (c ∷ cs) (c ∷ result)
later-IsSetIn new now c cs result other (inl (lack, same)) =
    inl ((other, lack), ap (λ xs. c ∷ xs) same)
later-IsSetIn new now c cs result other
      (inr (pre, old, changed, post, lack, typed, before, after, set)) =
    inr (
      c ∷ pre,
      old,
      changed,
      post,
      (other, lack),
      typed,
      ap (λ xs. c ∷ xs) before,
      ap (λ xs. c ∷ xs) after,
      set,
    )

-- Setting a condition changes nothing where no condition has its type. Else it sets the first one
-- that has it anew, with the status, the reason and the message given, and with the time of the last
-- change kept if the status is the same and read from the clock if it is not; all conditions before
-- it, and all behind it, of its type or not, stay as they are.
pub set_condition-IsSetIn :
    (new : Condition) (now : ℕ) (cs : List Condition)
    → IsSetIn new now cs (set_condition new now cs)
unfolding set_condition
set_condition-IsSetIn new now [] = inl (tt, refl)
set_condition-IsSetIn new now (c ∷ cs) = elim (Bool-cases (text_eq c.type new.type)) [
  | inl y ↦ rw y (
      inr (
        [],
        c,
        replaced new now c,
        cs,
        tt,
        text_eq_sound c.type new.type y,
        refl,
        refl,
        replaced-IsSetAnew new now c,
      ))
  | inr f ↦ rw f (
      later-IsSetIn new now c cs (set_condition new now cs) (text_eq-false c.type new.type f)
        (set_condition-IsSetIn new now cs))
]
