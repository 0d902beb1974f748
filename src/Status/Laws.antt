-- ===== src/Status/Laws.antt =====
-- When the conditions of internal/status/status.go are true, and when their transition time moves.
use osrm_operator.Base.{
  ℕ, List, [], ◌∷◌, Option, none, some, Bool, true, ◌&&◌, ◌≡◌, ◌↔◌, ◌⊎◌, inl, inr, refl, sym, ◌∙◌,
  arith, Any, Bool-cases, Option-cases, if◌then◌else◌,
}
use osrm_operator.Base.Int.{ℤ, ◌≤ℤ◌}
use osrm_operator.Text.{codes, text_eq}
use osrm_operator.Text.Laws.{text_eq_iff}
use osrm_operator.Kube.{
  ConditionStatus, condition_true, is_condition_true, condition_false, status_eq, Condition,
  Deployment, DeploymentCondition, Object, as_deployment, JobCondition, Job,
}
use osrm_operator.Status.{
  mark_available, scan_available, available_condition, has_ready_replicas, do_all_replicas_ready,
  all_replicas_ready_condition, stamp, has_complete, is_job_completed,
}

-- The object is a deployment with a wanted number of replicas, and at least so many are ready.
abbrev pub IsReadyDeployment : Object → Type 0
IsReadyDeployment o =
    (d : Deployment) × (wanted : ℤ) × (as_deployment o ≡ some d)
    × (d.spec_replicas ≡ some wanted)
    × (wanted ≤ℤ d.ready_replicas)

ready_deployment :
    (o : Object) (d : Deployment)
    → as_deployment o ≡ some d
    → has_ready_replicas d ≡ true
    → IsReadyDeployment o
ready_deployment o d e h = elim (Option-cases d.spec_replicas) [
  | inl n ↦ absurd (ground arith)
  | inr (wanted, s) ↦ (d, wanted, e, s, ground arith)
]

do_all_replicas_ready_sound :
    (os : List Object) → do_all_replicas_ready os ≡ true → Any IsReadyDeployment os
unfolding do_all_replicas_ready
do_all_replicas_ready_sound [] h = cc
do_all_replicas_ready_sound (o ∷ os) h = elim (Option-cases (as_deployment o)) [
  | inl n ↦ inr (do_all_replicas_ready_sound os (ground arith))
  | inr (d, e) ↦ elim (Bool-cases (has_ready_replicas d)) [
    | inl r ↦ inl (ready_deployment o d e r)
    | inr r ↦ inr (do_all_replicas_ready_sound os (ground arith))
  ]
]

do_all_replicas_ready_complete :
    (os : List Object) → Any IsReadyDeployment os → do_all_replicas_ready os ≡ true
unfolding do_all_replicas_ready
do_all_replicas_ready_complete [] h = absurd h
do_all_replicas_ready_complete (o ∷ os) (inl (d, wanted, e, s, h)) = ground arith
do_all_replicas_ready_complete (o ∷ os) (inr h) =
    ground (arith, do_all_replicas_ready_complete os h)

-- The test of `AllReplicasReady` holds exactly when some deployment among the objects has as many
-- ready replicas as it wants: one such deployment is enough, whatever the others have.
pub do_all_replicas_ready_iff :
    (os : List Object) → (do_all_replicas_ready os ≡ true) ↔ Any IsReadyDeployment os
do_all_replicas_ready_iff os = (do_all_replicas_ready_sound os, do_all_replicas_ready_complete os)

-- The first deployment among the objects.
unfoldable pub first_deployment : List Object → Option Deployment
first_deployment [] = none
first_deployment (o ∷ os) = elim (as_deployment o) [ none ↦ first_deployment os | some d ↦ some d ]

abbrev pub SaysAvailable : DeploymentCondition → Type 0
SaysAvailable c = (c.type ≡ codes "Available") × (c.status ≡ condition_true)

says_available : DeploymentCondition → Bool
says_available d = text_eq d.type (codes "Available") && is_condition_true d.status

says_available_iff : (d : DeploymentCondition) → (says_available d ≡ true) ↔ SaysAvailable d
unfolding says_available
says_available_iff d = ground (arith, text_eq_iff d.type (codes "Available"))

mark_available-status :
    (ds : List DeploymentCondition) (c : Condition)
    → (mark_available ds c).status ≡ condition_true
    → (c.status ≡ condition_true) ⊎ Any SaysAvailable ds
unfolding mark_available says_available
mark_available-status [] c h = inl h
mark_available-status (d ∷ ds) c h = elim (Bool-cases (says_available d)) [
  | inl y ↦ inr (inl ((says_available_iff d).0 y))
  | inr n ↦ elim (mark_available-status ds c (ground arith)) [ inl a ↦ inl a | inr a ↦ inr (inr a) ]
]

mark_available_true :
    (ds : List DeploymentCondition) (c : Condition)
    → (c.status ≡ condition_true) ⊎ Any SaysAvailable ds
    → (mark_available ds c).status ≡ condition_true
unfolding mark_available says_available
mark_available_true [] c (inl h) = h
mark_available_true [] c (inr h) = absurd h
mark_available_true (d ∷ ds) c (inl h) = mark_available_true ds _ (inl (ground arith))
mark_available_true (d ∷ ds) c (inr (inl h)) =
    mark_available_true ds _ (inl (ground (arith, text_eq_iff d.type (codes "Available"))))
mark_available_true (d ∷ ds) c (inr (inr h)) = mark_available_true ds _ (inr h)

module _ (old : Option Condition) (now : ℕ) where
  stamp-status : (c : Condition) → (stamp old now c).status ≡ c.status
  stamp-status c = ground arith

-- The first deployment among the objects reports that it is available.
abbrev pub HasAvailable : List Object → Type 0
HasAvailable os = (d : Deployment) × (first_deployment os ≡ some d) × Any SaysAvailable d.conditions

scan_available_sound :
    (os : List Object) (c : Condition)
    → c.status ≡ condition_false
    → (scan_available os c).status ≡ condition_true
    → HasAvailable os
unfolding scan_available first_deployment
scan_available_sound [] c f h = cc
scan_available_sound (o ∷ os) c f h = elim (Option-cases (as_deployment o)) [
  | inl n ↦ let (d, e, a) = scan_available_sound os c f (ground arith) in (d, ground arith, a)
  | inr (d, e) ↦ elim (mark_available-status d.conditions c (ground arith)) [
    | inl t ↦ cc
    | inr a ↦ (d, ground arith, a)
  ]
]

scan_available_complete :
    (os : List Object) (c : Condition) (d : Deployment)
    → first_deployment os ≡ some d
    → Any SaysAvailable d.conditions
    → (scan_available os c).status ≡ condition_true
unfolding scan_available first_deployment
scan_available_complete [] c d e a = cc
scan_available_complete (o ∷ os) c d e a = elim (Option-cases (as_deployment o)) [
  | inl n ↦ ground (arith, scan_available_complete os c d, a)
  | inr (d', e') ↦
      let same : d' ≡ d = ground arith in
      ground (arith, mark_available_true d'.conditions c (inr (rw same a)))
]

-- `Available` is true exactly when the first deployment among the objects has a condition of type
-- Available whose status is True; no other deployment counts.
pub available_condition_iff :
    (os : List Object) (old : Option Condition) (now : ℕ)
    → ((available_condition os old now).status ≡ condition_true) ↔ HasAvailable os
unfolding available_condition
available_condition_iff os old now = (
  λ h. scan_available_sound os _ refl (sym (stamp-status old now _) ∙ h),
  λ (d, e, a). stamp-status old now _ ∙ scan_available_complete os _ d e a,
)

mark_available-time :
    (ds : List DeploymentCondition) (c : Condition)
    → (mark_available ds c).last_transition_time ≡ c.last_transition_time
unfolding mark_available
mark_available-time [] c = refl
mark_available-time (d ∷ ds) c = mark_available-time ds _ ∙ ground arith

scan_available-time :
    (os : List Object) (c : Condition)
    → (scan_available os c).last_transition_time ≡ c.last_transition_time
unfolding scan_available
scan_available-time [] c = refl
scan_available-time (o ∷ os) c = elim (Option-cases (as_deployment o)) [
  | inl n ↦ ground (arith, scan_available-time os c)
  | inr (d, e) ↦ ground (arith, mark_available-time d.conditions c)
]

-- The time at which a condition that replaces `old` came to its status.
abbrev pub time_of : Condition → ConditionStatus → ℕ → ℕ
time_of old status now = if status_eq old.status status then old.last_transition_time else now

stamp-time :
    (old : Condition) (now : ℕ) (c : Condition)
    → c.last_transition_time ≡ old.last_transition_time
    → (stamp (some old) now c).last_transition_time ≡ time_of old c.status now
stamp-time old now c e = ground arith

-- Both conditions that are computed from the child objects keep the transition time of the old one
-- when the status stays, and take the time of now when it changes.
pub conditions-time :
    (os : List Object) (old : Condition) (now : ℕ)
    → let a = available_condition os (some old) now in
      let r = all_replicas_ready_condition os (some old) now in
      (a.last_transition_time ≡ time_of old a.status now)
      × (r.last_transition_time ≡ time_of old r.status now)
unfolding available_condition all_replicas_ready_condition
conditions-time os old now = (
  rw (stamp-status (some old) now _) (stamp-time old now _ (scan_available-time os _)),
  rw (stamp-status (some old) now _) (stamp-time old now _ (ground arith)),
)

abbrev pub SaysComplete : JobCondition → Type 0
SaysComplete c = (c.type ≡ codes "Complete") × (c.status ≡ condition_true)

says_complete : JobCondition → Bool
says_complete c = text_eq c.type (codes "Complete") && is_condition_true c.status

says_complete_iff : (c : JobCondition) → (says_complete c ≡ true) ↔ SaysComplete c
unfolding says_complete
says_complete_iff c = ground (arith, text_eq_iff c.type (codes "Complete"))

has_complete_sound : (cs : List JobCondition) → has_complete cs ≡ true → Any SaysComplete cs
unfolding has_complete says_complete
has_complete_sound [] h = cc
has_complete_sound (c ∷ cs) h = elim (Bool-cases (says_complete c)) [
  | inl y ↦ inl ((says_complete_iff c).0 y)
  | inr n ↦ inr (has_complete_sound cs (ground arith))
]

has_complete_complete : (cs : List JobCondition) → Any SaysComplete cs → has_complete cs ≡ true
unfolding has_complete
has_complete_complete [] h = absurd h
has_complete_complete (c ∷ cs) (inl h) = ground (arith, text_eq_iff c.type (codes "Complete"))
has_complete_complete (c ∷ cs) (inr h) = ground (arith, has_complete_complete cs h)

-- A job is completed exactly when one of its conditions has type Complete and status True.
pub is_job_completed_iff :
    (j : Job) → (is_job_completed (some j) ≡ true) ↔ Any SaysComplete j.conditions
unfolding is_job_completed
is_job_completed_iff j = (has_complete_sound j.conditions, has_complete_complete j.conditions)
