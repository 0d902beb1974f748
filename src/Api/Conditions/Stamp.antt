-- ===== src/Api/Conditions/Stamp.antt =====
-- A condition computed anew from the one it was itself.
use osrm_operator.Base.{
  ℕ, List, [], ◌∷◌, Option, none, some, Bool, true, false, ◌&&◌, ◌≡◌, inl, inr, refl, ◌∙◌, ap,
  arith, Bool-cases, Option-cases, if◌then◌else◌,
}
use osrm_operator.Text.{codes, text_eq}
use osrm_operator.Kube.{
  Object, as_deployment, DeploymentCondition, Condition, ConditionStatus, condition_true,
  condition_false, condition_unknown, status_eq, is_condition_true,
}
use osrm_operator.Status.{
  condition_available, condition_all_replicas_ready, old_time, stamp, mark_available,
  scan_available, available_condition, all_replicas_ready_condition, do_all_replicas_ready,
}

status_eq_refl : (s : ConditionStatus) → status_eq s s ≡ true
status_eq_refl condition_true = refl
status_eq_refl condition_false = refl
status_eq_refl condition_unknown = refl

abbrev timed : ℕ → Condition → Condition
timed t c = record c { last_transition_time = t }

timed-if :
    (b : Bool) (d : DeploymentCondition) (c : Condition) (t : ℕ)
    → (if b
        then record (timed t c) {
          status = condition_true;
          message = d.message;
          reason = codes "Available";
        }
        else timed t c)
      ≡ timed t (
          if b
          then record c { status = condition_true; message = d.message; reason = codes "Available" }
          else c)
timed-if true d c t = refl
timed-if false d c t = refl

mark_available-at :
    (ds : List DeploymentCondition) (c : Condition) (t : ℕ)
    → mark_available ds (timed t c) ≡ timed t (mark_available ds c)
unfolding mark_available
mark_available-at [] c t = refl
mark_available-at (d ∷ ds) c t =
    ap (mark_available ds)
      (timed-if (text_eq d.type (codes "Available") && is_condition_true d.status) d c t)
    ∙ mark_available-at ds _ t

scan_available-at :
    (os : List Object) (c : Condition) (t : ℕ)
    → scan_available os (timed t c) ≡ timed t (scan_available os c)
unfolding scan_available
scan_available-at [] c t = refl
scan_available-at (o ∷ os) c t = elim (Option-cases (as_deployment o)) [
  | inl e ↦ rw (scan_available, e) (scan_available-at os c t)
  | inr (d, e) ↦ rw (scan_available, e) (mark_available-at d.conditions c t)
]

mark_available-type :
    (ds : List DeploymentCondition) (c : Condition) → (mark_available ds c).type ≡ c.type
unfolding mark_available
mark_available-type [] c = refl
mark_available-type (d ∷ ds) c = mark_available-type ds _ ∙ ground arith

pub scan_available-type : (os : List Object) (c : Condition) → (scan_available os c).type ≡ c.type
unfolding scan_available
scan_available-type [] c = refl
scan_available-type (o ∷ os) c = elim (Option-cases (as_deployment o)) [
  | inl e ↦ rw (scan_available, e) (scan_available-type os c)
  | inr (d, e) ↦ rw (scan_available, e) (mark_available-type d.conditions c)
]

pub stamp-type :
    (old : Option Condition) (now : ℕ) (c : Condition) → (stamp old now c).type ≡ c.type
stamp-type old now c = ground arith

-- A condition stamped anew with the one it was itself is that one.
stamp-again :
    (old : Option Condition) (now later : ℕ) (c : Condition)
    → stamp (some (stamp old now c)) later (timed (stamp old now c).last_transition_time c)
      ≡ stamp old now c
stamp-again none now later c = rw (status_eq_refl c.status) refl
stamp-again (some old) now later c = elim (Bool-cases (status_eq old.status c.status)) [
  | inl y ↦ rw y (rw (status_eq_refl c.status) refl)
  | inr n ↦ rw n (rw (status_eq_refl c.status) refl)
]

-- What holds of every condition that depends on the old one in its time alone.
stamp-stable :
    (f : ℕ → Condition)
    → ((t u : ℕ) → f t ≡ timed t (f u))
    → (old : Option Condition) (now later : ℕ)
    → stamp
        (some (stamp old now (f (old_time old))))
        later
        (f (stamp old now (f (old_time old))).last_transition_time)
      ≡ stamp old now (f (old_time old))
stamp-stable f h old now later =
    ap (stamp (some (stamp old now (f (old_time old)))) later)
      (h (stamp old now (f (old_time old))).last_transition_time (old_time old))
    ∙ stamp-again old now later (f (old_time old))

-- Where `AvailableCondition` starts from.
abbrev unavailable : ℕ → Condition
unavailable t = record {
  type = condition_available;
  status = condition_false;
  last_transition_time = t;
  reason = codes "DeploymentUnavailable";
  message = codes "Deployment does not have minimum availability";
}

pub available_again :
    (os : List Object) (old : Option Condition) (now later : ℕ)
    → available_condition os (some (available_condition os old now)) later
      ≡ available_condition os old now
unfolding available_condition
available_again os old now later =
    stamp-stable (λ t. scan_available os (unavailable t))
      (λ t u. scan_available-at os (unavailable u) t) old now later

pub replicas_again :
    (os : List Object) (old : Option Condition) (now later : ℕ)
    → all_replicas_ready_condition os (some (all_replicas_ready_condition os old now)) later
      ≡ all_replicas_ready_condition os old now
unfolding all_replicas_ready_condition
replicas_again os old now later =
    stamp-stable
      (λ t.
        if do_all_replicas_ready os
        then record {
          type = condition_all_replicas_ready;
          status = condition_true;
          last_transition_time = t;
          reason = codes "AllReplicasReady";
          message = codes "All pods are ready";
        }
        else record {
          type = condition_all_replicas_ready;
          status = condition_false;
          last_transition_time = t;
          reason = codes "NotAllReplicasReady";
          message = codes "One or more pods are not ready";
        })
      (λ t u. elim (Bool-cases (do_all_replicas_ready os)) [
        | inl y ↦ rw y refl
        | inr n ↦ rw n refl
      ])
      old now later
