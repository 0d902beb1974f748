-- ===== src/Phases/Ready.antt =====
-- When the loops over claims, jobs and deployments come out true.
use osrm_operator.Base.{
  List, [], ◌∷◌, Bool, true, false, ◌&&◌, ◌≡◌, ◌⊎◌, inl, inr, refl, arith, All, Any, Bool-cases,
}
use osrm_operator.Base.Int.{pos, ◌<ℤ◌}
use osrm_operator.Text.{Text, text_eq}
use osrm_operator.Text.Laws.{text_eq_iff, text_eq_sound, text_eq_complete}
use osrm_operator.Kube.{Deployment}
use osrm_operator.Phases.{check_named, all_done, is_serving, has_serving, all_workers_deployed}

module _ {A : Type 0} (name_of : A → Text) (is_done : A → Bool) where
  -- There is an object of the name, and every object of the name is done.
  abbrev pub IsDone : List A → Text → Type 0
  IsDone xs name =
      Any (λ x. name_of x ≡ name) xs × All (λ x. name_of x ≡ name → is_done x ≡ true) xs

  module _ (name : Text) where
    abbrev pub DoneIfNamed : A → Type 0
    DoneIfNamed x = name_of x ≡ name → is_done x ≡ true

    done_sound :
        (xs : List A) (found : Bool)
        → (check_named name_of is_done name xs found).1 ≡ true
        → All DoneIfNamed xs
    unfolding check_named
    done_sound [] found h = tt
    done_sound (x ∷ xs) found h = elim (Bool-cases (text_eq (name_of x) name)) [
      | inl e ↦ elim (Bool-cases (is_done x)) [
        | inl d ↦ ((λ _. d), done_sound xs true (ground arith))
        | inr n ↦ absurd (ground arith)
      ]
      | inr n ↦ (
        (λ e. absurd (ground (arith, text_eq_iff (name_of x) name))),
        done_sound xs found (ground arith),
      )
    ]

    done_complete :
        (xs : List A) (found : Bool)
        → All DoneIfNamed xs
        → (check_named name_of is_done name xs found).1 ≡ true
    unfolding check_named
    done_complete [] found h = refl
    done_complete (x ∷ xs) found (h, hs) = elim (Bool-cases (text_eq (name_of x) name)) [
      | inl e ↦
          let d = h (text_eq_sound (name_of x) name e) in ground (arith, done_complete xs true hs)
      | inr n ↦ ground (arith, done_complete xs found hs)
    ]

    found_sound :
        (xs : List A) (found : Bool)
        → All DoneIfNamed xs
        → (check_named name_of is_done name xs found).0 ≡ true
        → (found ≡ true) ⊎ Any (λ x. name_of x ≡ name) xs
    unfolding check_named
    found_sound [] found d h = inl h
    found_sound (x ∷ xs) found (d, ds) h = elim (Bool-cases (text_eq (name_of x) name)) [
      | inl e ↦ inr (inl (text_eq_sound (name_of x) name e))
      | inr n ↦ elim (found_sound xs found ds (ground arith)) [
        | inl a ↦ inl a
        | inr a ↦ inr (inr a)
      ]
    ]

    found_complete :
        (xs : List A) (found : Bool)
        → All DoneIfNamed xs
        → (found ≡ true) ⊎ Any (λ x. name_of x ≡ name) xs
        → (check_named name_of is_done name xs found).0 ≡ true
    unfolding check_named
    found_complete [] found d (inl h) = h
    found_complete [] found d (inr h) = absurd h
    found_complete (x ∷ xs) found (d, ds) h = elim (Bool-cases (text_eq (name_of x) name)) [
      | inl e ↦
          let done = d (text_eq_sound (name_of x) name e) in
          ground (arith, found_complete xs true ds (inl refl))
      | inr n ↦
          let later : (found ≡ true) ⊎ Any (λ y. name_of y ≡ name) xs = elim h [
            | inl f ↦ inl f
            | inr (inl e) ↦ absurd (ground (arith, text_eq_iff (name_of x) name))
            | inr (inr a) ↦ inr a
          ] in
          ground (arith, found_complete xs found ds later)
    ]

  all_done-flag :
      (names : List Text) (xs : List A) → all_done name_of is_done names xs false ≡ false
  unfolding all_done
  all_done-flag [] xs = refl
  all_done-flag (name ∷ names) xs = ground (arith, all_done-flag names xs)

  pub all_done_sound :
      (names : List Text) (xs : List A)
      → all_done name_of is_done names xs true ≡ true
      → All (IsDone xs) names
  unfolding all_done
  all_done_sound [] xs h = tt
  all_done_sound (name ∷ names) xs h =
      let (found, done) = check_named name_of is_done name xs false in
      elim (Bool-cases done) [
        | inr n ↦ absurd (ground (arith, all_done-flag names xs))
        | inl d ↦ elim (Bool-cases found) [
          | inr n ↦ absurd (ground arith)
          | inl f ↦
              let each = done_sound name xs false d in
              (
                (elim (found_sound name xs false each f) [ inl a ↦ absurd (cc) | inr a ↦ a ], each),
                all_done_sound names xs (ground arith),
              )
        ]
      ]

  pub all_done_complete :
      (names : List Text) (xs : List A)
      → All (IsDone xs) names
      → all_done name_of is_done names xs true ≡ true
  unfolding all_done
  all_done_complete [] xs h = refl
  all_done_complete (name ∷ names) xs ((some_named, each), hs) = ground (
    arith,
    done_complete name xs false each,
    found_complete name xs false each (inr some_named),
    all_done_complete names xs hs,
  )

-- A deployment of the name that serves: at least one replica is ready, and all of them are.
abbrev pub IsServing : Deployment → Type 0
IsServing d = (pos 0 <ℤ d.ready_replicas) × (d.ready_replicas ≡ d.replicas)

is_serving_sound : (d : Deployment) → is_serving d ≡ true → IsServing d
is_serving_sound d h = ground arith

is_serving_complete : (d : Deployment) → IsServing d → is_serving d ≡ true
is_serving_complete d h = ground arith

-- Some deployment of the name serves.
abbrev pub HasServing : List Deployment → Text → Type 0
HasServing ds name = Any (λ d. (d.meta.name ≡ name) × IsServing d) ds

has_serving_sound :
    (name : Text) (ds : List Deployment) → has_serving name ds ≡ true → HasServing ds name
unfolding has_serving
has_serving_sound name [] h = cc
has_serving_sound name (d ∷ ds) h = elim (Bool-cases (text_eq d.meta.name name && is_serving d)) [
  | inl b ↦ inl (
    text_eq_sound d.meta.name name (ground arith),
    is_serving_sound d (and-right (text_eq d.meta.name name) b),
  )
  | inr n ↦ inr (has_serving_sound name ds (ground arith))
]
  where
    and-right : (b : Bool) → (b && is_serving d) ≡ true → is_serving d ≡ true
    and-right true h = h
    and-right false h = cc

has_serving_complete :
    (name : Text) (ds : List Deployment) → HasServing ds name → has_serving name ds ≡ true
unfolding has_serving
has_serving_complete name [] h = absurd h
has_serving_complete name (d ∷ ds) (inl (e, s)) =
    rw (text_eq_complete d.meta.name name e, is_serving_complete d s)
has_serving_complete name (d ∷ ds) (inr h) = ground (arith, has_serving_complete name ds h)

pub all_workers_deployed_sound :
    (names : List Text) (ds : List Deployment)
    → all_workers_deployed names ds ≡ true
    → All (HasServing ds) names
unfolding all_workers_deployed
all_workers_deployed_sound [] ds h = tt
all_workers_deployed_sound (name ∷ names) ds h = elim (Bool-cases (has_serving name ds)) [
  | inl s ↦ (has_serving_sound name ds s, all_workers_deployed_sound names ds (ground arith))
  | inr n ↦ absurd (ground arith)
]

pub all_workers_deployed_complete :
    (names : List Text) (ds : List Deployment)
    → All (HasServing ds) names
    → all_workers_deployed names ds ≡ true
unfolding all_workers_deployed
all_workers_deployed_complete [] ds h = refl
all_workers_deployed_complete (name ∷ names) ds (h, hs) =
    ground (arith, has_serving_complete name ds h, all_workers_deployed_complete names ds hs)
