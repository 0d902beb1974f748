-- ===== src/Api/Conditions/Refresh.antt =====
-- What the conditions are after `SetConditions`, and after it is called again.
use osrm_operator.Base.{
  ℕ, List, [], ◌∷◌, Option, none, some, ◌≡◌, inl, inr, refl, ◌∙◌, arith, Bool-cases,
}
use mathlib.Core.List.{map}
use osrm_operator.Text.{text_eq}
use osrm_operator.Text.Laws.{text_eq_sound}
use osrm_operator.Kube.{Object, Condition}
use osrm_operator.Status.{
  condition_available, condition_all_replicas_ready, condition_reconciliation_success,
  available_condition, all_replicas_ready_condition, reconcile_success_condition,
}
use osrm_operator.Api.Conditions.{
  OldConditions, no_conditions, remember, remember_all, or_initialising, set_conditions,
}
use osrm_operator.Api.Conditions.Stamp.{
  available_again, replicas_again, scan_available-type, stamp-type,
}

available-type :
    (os : List Object) (old : Option Condition) (now : ℕ)
    → (available_condition os old now).type ≡ condition_available
unfolding available_condition
available-type os old now = stamp-type old now _ ∙ scan_available-type os _

replicas-type :
    (os : List Object) (old : Option Condition) (now : ℕ)
    → (all_replicas_ready_condition os old now).type ≡ condition_all_replicas_ready
unfolding all_replicas_ready_condition
replicas-type os old now = stamp-type old now _ ∙ ground arith

-- The success condition that the loop remembers has that type.
abbrev IsSuccess : Option Condition → Type 0
IsSuccess none = Unit
IsSuccess (some c) = c.type ≡ condition_reconciliation_success

remember-IsSuccess :
    (c : Condition) (old : OldConditions)
    → IsSuccess old.reconciliation_success
    → IsSuccess (remember c old).reconciliation_success
unfolding remember
remember-IsSuccess c old h =
    let all_ready = Bool-cases (text_eq c.type condition_all_replicas_ready) in
    let available = Bool-cases (text_eq c.type condition_available) in
    let success = Bool-cases (text_eq c.type condition_reconciliation_success) in
    elim all_ready [
      | inl a ↦ rw a h
      | inr a ↦ elim available [
        | inl b ↦ rw (a, b) h
        | inr b ↦ elim success [
          | inl d ↦ rw (a, b, d) (text_eq_sound c.type condition_reconciliation_success d)
          | inr d ↦ rw (a, b, d) h
        ]
      ]
    ]

remember_all-IsSuccess :
    (cs : List Condition) (old : OldConditions)
    → IsSuccess old.reconciliation_success
    → IsSuccess (remember_all cs old).reconciliation_success
unfolding remember_all
remember_all-IsSuccess [] old h = h
remember_all-IsSuccess (c ∷ cs) old h =
    remember_all-IsSuccess cs (remember c old) (remember-IsSuccess c old h)

success-type :
    (old : Option Condition) (now : ℕ)
    → IsSuccess old
    → (or_initialising old now).type ≡ condition_reconciliation_success
unfolding reconcile_success_condition
success-type none now h = refl
success-type (some c) now h = h

remember_three :
    (a r s : Condition)
    → a.type ≡ condition_available
    → r.type ≡ condition_all_replicas_ready
    → s.type ≡ condition_reconciliation_success
    → remember_all (a ∷ r ∷ s ∷ []) no_conditions
      ≡ record { available = some a; all_replicas_ready = some r; reconciliation_success = some s }
unfolding remember remember_all text_eq
remember_three a r s ha hr hs = rw (ha, hr, hs) refl

-- Whatever the conditions were before, a refresh leaves one of each of the three types, in this
-- order.
pub set_conditions-types :
    (os : List Object) (s v r : ℕ) (cs : List Condition)
    → map (λ c. c.type) (set_conditions os s v r cs)
      ≡ condition_available ∷ condition_all_replicas_ready ∷ condition_reconciliation_success ∷ []
unfolding set_conditions
set_conditions-types os s v r cs =
    let old = remember_all cs no_conditions in
    rw
      (
        available-type os old.available v,
        replicas-type os old.all_replicas_ready r,
        success-type old.reconciliation_success s (remember_all-IsSuccess cs no_conditions tt),
      )
      refl

-- A second refresh with the same objects, at whatever times, changes no condition, the times of the
-- last changes included.
pub set_conditions-again :
    (os : List Object) (s v r s' v' r' : ℕ) (cs : List Condition)
    → set_conditions os s' v' r' (set_conditions os s v r cs) ≡ set_conditions os s v r cs
unfolding set_conditions
set_conditions-again os s v r s' v' r' cs =
    let old = remember_all cs no_conditions in
    rw
      (remember_three (available_condition os old.available v)
        (all_replicas_ready_condition os old.all_replicas_ready r)
        (or_initialising old.reconciliation_success s) (available-type os old.available v)
        (replicas-type os old.all_replicas_ready r)
        (success-type old.reconciliation_success s (remember_all-IsSuccess cs no_conditions tt)))
      (rw (available_again os old.available v v', replicas_again os old.all_replicas_ready r r')
        refl)
