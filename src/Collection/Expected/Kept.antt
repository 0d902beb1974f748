-- ===== src/Collection/Expected/Kept.antt =====
-- The lists of names that garbage collection makes, against what is expected.
use osrm_operator.Base.{
  List, [], ◌∷◌, Option, none, some, Bool, true, false, not, ◌&&◌, ◌||◌, ◌≡◌, ◌≢◌, ◌↔◌, ◌⊎◌, inl,
  inr, refl, sym, Any, Bool-cases, if◌then◌else◌,
}
use osrm_operator.Text.{Text, text_eq}
use osrm_operator.Text.Laws.{text_eq_sound, text_eq_ne, text_eq-false}
use osrm_operator.Dict.{contains}
use osrm_operator.Kube.{ObjectMeta}
use osrm_operator.Api.{
  Phase, building_map, updating_map, redeploying_workers, deploying_workers, workers_deployed,
  workers_redeployed, deleting, empty, phase_eq, ProfileSpec, SpeedUpdatesSpec, OsrmCluster,
  OsrmInstance, child_resource_name,
}
use osrm_operator.Builders.{cron_job_suffix}
use osrm_operator.Collection.{
  gateway_expected, profiles_expected, keeps_future, expected_generations, expected_resources,
  instance_expected_resources, instance_expected_generations,
}
use osrm_operator.Collection.Expected.{IsChanging, IsCurrent, IsNameOf, IsNamed}

is_changing :
    (phase : Phase)
    → ((phase_eq phase updating_map
          || phase_eq phase redeploying_workers
          || phase_eq phase deploying_workers)
        ≡ true)
      ↔ IsChanging phase
is_changing building_map = (λ h. absurd (cc), λ h. absurd h)
is_changing updating_map = (λ h. tt, λ h. refl)
is_changing redeploying_workers = (λ h. tt, λ h. refl)
is_changing deploying_workers = (λ h. tt, λ h. refl)
is_changing workers_deployed = (λ h. absurd (cc), λ h. absurd h)
is_changing workers_redeployed = (λ h. absurd (cc), λ h. absurd h)
is_changing deleting = (λ h. absurd (cc), λ h. absurd h)
is_changing empty = (λ h. absurd (cc), λ h. absurd h)

and_iff :
    {P Q : Type 0} (a b : Bool)
    → ((a ≡ true) ↔ P)
    → ((b ≡ false) ↔ Q)
    → ((not b && a) ≡ true) ↔ (P × Q)
and_iff true false p q = (λ h. (p.0 refl, q.0 refl), λ h. refl)
and_iff true true p q = (λ h. absurd (cc), λ h. absurd (cc (q.1 h.1)))
and_iff false false p q = (λ h. absurd (cc), λ h. absurd (cc (p.1 h.0)))
and_iff false true p q = (λ h. absurd (cc), λ h. absurd (cc (p.1 h.0)))

keeps_future_iff :
    (phase : Phase) (active future : Text)
    → (keeps_future phase active future ≡ true) ↔ (IsChanging phase × (active ≢ future))
keeps_future_iff phase active future =
    and_iff
      (phase_eq phase updating_map
        || phase_eq phase redeploying_workers
        || phase_eq phase deploying_workers)
      (text_eq active future) (is_changing phase)
      (text_eq-false active future, text_eq_ne active future)

contains-cons_iff :
    (n j : Text) (keys : List Text)
    → (contains n (j ∷ keys) ≡ true) ↔ ((n ≡ j) ⊎ (contains n keys ≡ true))
unfolding contains
contains-cons_iff n j keys = elim (Bool-cases (text_eq j n)) [
  | inl y ↦ (λ h. inl (sym (text_eq_sound j n y)), λ h. rw y refl)
  | inr f ↦ (
    λ h. inr (rw f at h),
    λ h. elim h [ inl e ↦ absurd (text_eq-false j n f (sym e)) | inr r ↦ rw f r ],
  )
]

contains_if_iff :
    {P : Type 0} (n j : Text) (b : Bool) (keys : List Text)
    → ((b ≡ true) ↔ P)
    → (contains n (if b then j ∷ keys else keys) ≡ true)
      ↔ ((P × (n ≡ j)) ⊎ (contains n keys ≡ true))
contains_if_iff n j true keys p = (
  λ h. elim ((contains-cons_iff n j keys).0 h) [ inl e ↦ inl (p.0 refl, e) | inr r ↦ inr r ],
  λ h. elim h [
    | inl x ↦ (contains-cons_iff n j keys).1 (inl x.1)
    | inr r ↦ (contains-cons_iff n j keys).1 (inr r)
  ],
)
contains_if_iff n j false keys p =
    (λ h. inr h, λ h. elim h [ inl x ↦ absurd (cc (p.1 x.0)) | inr r ↦ r ])

module _ (m : ObjectMeta) (component : Text) (phase : Phase) (active future n : Text) where
  IsCurrent-iff :
      (keys : List Text) {Rest : Type 0}
      → ((contains n keys ≡ true) ↔ Rest)
      → (contains n (
            child_resource_name m component active
            ∷ (if keeps_future phase active future
                then child_resource_name m component future ∷ keys
                else keys))
          ≡ true)
        ↔ (IsCurrent (child_resource_name m) component phase active future n ⊎ Rest)
  IsCurrent-iff keys rest =
      let a = child_resource_name m component active in
      let f = child_resource_name m component future in
      let b = keeps_future phase active future in
      let outer = contains-cons_iff n a (if b then f ∷ keys else keys) in
      let inner = contains_if_iff n f b keys (keeps_future_iff phase active future) in
      (
        λ h. elim (outer.0 h) [
          | inl e ↦ inl (inl e)
          | inr t ↦ elim (inner.0 t) [
            | inl ((changing, differ), e) ↦ inl (inr (changing, differ, e))
            | inr r ↦ inr (rest.0 r)
          ]
        ],
        λ h. elim h [
          | inl x ↦ elim x [
            | inl e ↦ outer.1 (inl e)
            | inr (changing, differ, e) ↦ outer.1 (inr (inner.1 (inl ((changing, differ), e))))
          ]
          | inr r ↦ outer.1 (inr (inner.1 (inr (rest.1 r))))
        ],
      )

nothing_iff : (n : Text) → (contains n [] ≡ true) ↔ ⊥
unfolding contains
nothing_iff n = (λ h. absurd (cc), λ h. absurd h)

pub expected_generations_iff :
    (m : ObjectMeta) (phase : Phase) (active future n : Text) (ps : List ProfileSpec)
    → (contains n (expected_generations m phase active future ps) ≡ true)
      ↔ Any (λ p. IsCurrent (child_resource_name m) p.name phase active future n) ps
unfolding expected_generations
expected_generations_iff m phase active future n [] = nothing_iff n
expected_generations_iff m phase active future n (p ∷ ps) =
    IsCurrent-iff m p.name phase active future n (expected_generations m phase active future ps)
      (expected_generations_iff m phase active future n ps)

pub instance_expected_generations_iff :
    (m : ObjectMeta) (phase : Phase) (active future n : Text)
    → (contains n (instance_expected_generations m phase active future) ≡ true)
      ↔ IsCurrent (child_resource_name m) [] phase active future n
unfolding instance_expected_generations
instance_expected_generations_iff m phase active future n =
    let both = IsCurrent-iff m [] phase active future n [] (nothing_iff n) in
    (λ h. elim (both.0 h) [ inl x ↦ x | inr x ↦ absurd x ], λ h. both.1 (inl h))

same_names_iff :
    (n j : Text) (keys : List Text)
    → (contains n (j ∷ j ∷ j ∷ j ∷ keys) ≡ true) ↔ ((n ≡ j) ⊎ (contains n keys ≡ true))
unfolding contains
same_names_iff n j keys =
    let one = contains-cons_iff n j keys in
    (
      λ h. one.0 (cc_four (text_eq j n) (contains n keys) h),
      λ h. four_cc (text_eq j n) (contains n keys) (one.1 h),
    )
  where
    cc_four :
        (a b : Bool)
        → (if a then true else if a then true else if a then true else if a then true else b) ≡ true
        → (if a then true else b) ≡ true
    cc_four true b h = refl
    cc_four false b h = h

    four_cc :
        (a b : Bool)
        → (if a then true else b) ≡ true
        → (if a then true else if a then true else if a then true else if a then true else b) ≡ true
    four_cc true b h = refl
    four_cc false b h = h

names_iff :
    (m : ObjectMeta) (component n : Text) (updates : Option SpeedUpdatesSpec) (keys : List Text)
    {Rest : Type 0}
    → ((contains n keys ≡ true) ↔ Rest)
    → (contains n (
          child_resource_name m component []
          ∷ child_resource_name m component []
          ∷ child_resource_name m component []
          ∷ child_resource_name m component []
          ∷ elim updates [
            | none ↦ keys
            | some u ↦ child_resource_name m component cron_job_suffix ∷ keys
          ])
        ≡ true)
      ↔ (IsNameOf (child_resource_name m) component updates n ⊎ Rest)
names_iff m component n none keys rest =
    let outer = same_names_iff n (child_resource_name m component []) keys in
    (
      λ h. elim (outer.0 h) [ inl e ↦ inl (inl e) | inr r ↦ inr (rest.0 r) ],
      λ h. elim h [
        | inl x ↦ elim x [ inl e ↦ outer.1 (inl e) | inr y ↦ absurd (y.0 refl) ]
        | inr r ↦ outer.1 (inr (rest.1 r))
      ],
    )
names_iff m component n (some u) keys rest =
    let job = child_resource_name m component cron_job_suffix in
    let outer = same_names_iff n (child_resource_name m component []) (job ∷ keys) in
    let inner = contains-cons_iff n job keys in
    (
      λ h. elim (outer.0 h) [
        | inl e ↦ inl (inl e)
        | inr t ↦ elim (inner.0 t) [
          | inl e ↦ inl (inr (λ none_is. absurd (cc), e))
          | inr r ↦ inr (rest.0 r)
        ]
      ],
      λ h. elim h [
        | inl x ↦ elim x [ inl e ↦ outer.1 (inl e) | inr y ↦ outer.1 (inr (inner.1 (inl y.1))) ]
        | inr r ↦ outer.1 (inr (inner.1 (inr (rest.1 r))))
      ],
    )

gateway_iff :
    (m : ObjectMeta) (n : Text) (ps : List ProfileSpec)
    → (contains n (gateway_expected m ps) ≡ true) ↔ ((ps ≢ []) × (n ≡ child_resource_name m [] []))
gateway_iff m n [] = (λ h. absurd ((nothing_iff n).0 h), λ h. absurd (h.0 refl))
gateway_iff m n (p ∷ ps) =
    let g = child_resource_name m [] [] in
    let one = contains-cons_iff n g (g ∷ g ∷ []) in
    let two = contains-cons_iff n g (g ∷ []) in
    let three = contains-cons_iff n g [] in
    (
      λ h. elim (one.0 h) [
        | inl e ↦ (λ nil. absurd (cc), e)
        | inr t ↦ elim (two.0 t) [
          | inl e ↦ (λ nil. absurd (cc), e)
          | inr t' ↦ elim (three.0 t') [
            | inl e ↦ (λ nil. absurd (cc), e)
            | inr t'' ↦ absurd ((nothing_iff n).0 t'')
          ]
        ]
      ],
      λ h. one.1 (inl h.1),
    )

profiles_expected_iff :
    (m : ObjectMeta) (n : Text) (rest : List Text) {Rest : Type 0} (ps : List ProfileSpec)
    → ((contains n rest ≡ true) ↔ Rest)
    → (contains n (profiles_expected m ps rest) ≡ true)
      ↔ (Any (λ p. IsNameOf (child_resource_name m) p.name p.speed_updates n) ps ⊎ Rest)
unfolding profiles_expected
profiles_expected_iff m n rest [] x =
    (λ h. inr (x.0 h), λ h. elim h [ inl y ↦ absurd y | inr r ↦ x.1 r ])
profiles_expected_iff m n rest (p ∷ ps) x =
    let tail = profiles_expected_iff m n rest ps x in
    let all = names_iff m p.name n p.speed_updates (profiles_expected m ps rest) tail in
    (
      λ h. elim (all.0 h) [
        | inl y ↦ inl (inl y)
        | inr t ↦ elim t [ inl z ↦ inl (inr z) | inr r ↦ inr r ]
      ],
      λ h. elim h [
        | inl t ↦ elim t [ inl y ↦ all.1 (inl y) | inr z ↦ all.1 (inr (inl z)) ]
        | inr r ↦ all.1 (inr (inr r))
      ],
    )

pub expected_resources_iff :
    (r : OsrmCluster) (n : Text)
    → (contains n (expected_resources r) ≡ true)
      ↔ IsNamed (child_resource_name r.meta) r.spec.profiles n
unfolding expected_resources
expected_resources_iff r n =
    profiles_expected_iff r.meta n (gateway_expected r.meta r.spec.profiles) r.spec.profiles
      (gateway_iff r.meta n r.spec.profiles)

pub instance_expected_resources_iff :
    (r : OsrmInstance) (n : Text)
    → (contains n (instance_expected_resources r) ≡ true)
      ↔ IsNameOf (child_resource_name r.meta) [] r.spec.speed_updates n
unfolding instance_expected_resources
instance_expected_resources_iff r n =
    let both = names_iff r.meta [] n r.spec.speed_updates [] (nothing_iff n) in
    (λ h. elim (both.0 h) [ inl x ↦ x | inr x ↦ absurd x ], λ h. both.1 (inl h))
