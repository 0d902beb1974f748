-- ===== src/Witnesses/Store.antt =====
-- A store of child objects by kind and name, which has the documented behaviour of the API server.
use osrm_operator.Base.{
  none, some, Error, List, [], ◌∷◌, ◌++◌, Bool, true, false, not, ◌&&◌, ◌≡◌, inl, inr, refl, ◌∙◌,
  ap, arith, All, Any, Bool-cases, not_found, Result, ok, err, panic, if◌then◌else◌,
}
use mathlib.Core.Path.{subst}
use osrm_operator.Text.{Text, codes, text_eq}
use osrm_operator.Text.Laws.{text_eq_iff, text_eq_sound, text_eq_refl}
use osrm_operator.Dict.{contains, contains-cons_self, contains-cons}
use osrm_operator.Kube.Fresh.{
  fresh_service, fresh_config_map, fresh_cron_job, fresh_autoscaler, fresh_disruption_budget,
}
use osrm_operator.Kube.{Kind, Item, item_meta, item_name}
use osrm_operator.Client.{Client}
use osrm_operator.Client.Lawful.{kind_eq, kind_eq_refl, Lawful, Child}
use osrm_operator.Contents.Adoption.{ok-injective}
use osrm_operator.Witnesses.{meta_of, claim_of, job_of, deployment_of}

-- The object of a kind and name; a deployment serves the map of generation 2.
abbrev pub item : (k : Kind) → Text → Text → Item k
item Kind.deployment namespace name = record (deployment_of name (name ++ codes "-2")) {
  meta = record (meta_of name) { namespace = namespace };
}
item Kind.service namespace name = fresh_service (record (meta_of name) { namespace = namespace })
item Kind.config_map namespace name =
    fresh_config_map (record (meta_of name) { namespace = namespace })
item Kind.cron_job namespace name = fresh_cron_job (record (meta_of name) { namespace = namespace })
item Kind.autoscaler namespace name =
    fresh_autoscaler (record (meta_of name) { namespace = namespace })
item Kind.disruption_budget namespace name =
    fresh_disruption_budget (record (meta_of name) { namespace = namespace })
item Kind.claim namespace name = record (claim_of name) {
  meta = record (meta_of name) { namespace = namespace };
}
item Kind.job namespace name = record (job_of name) {
  meta = record (meta_of name) { namespace = namespace };
}

item-name : (k : Kind) (namespace name : Text) → item_name k (item k namespace name) ≡ name
item-name Kind.deployment namespace name = refl
item-name _ namespace name = refl

item-namespace :
    (k : Kind) (namespace name : Text) → (item_meta k (item k namespace name)).namespace ≡ namespace
item-namespace Kind.deployment namespace name = refl
item-namespace _ namespace name = refl

unfoldable pub items : (k : Kind) → Text → List Text → List (Item k)
items k namespace [] = []
items k namespace (n ∷ ns) = item k namespace n ∷ items k namespace ns

unfoldable pub remove : Text → List Text → List Text
remove name [] = []
remove name (n ∷ ns) = let rest = remove name ns in if text_eq n name then rest else n ∷ rest

abbrev pub Names : Type 0
Names = Kind → List Text

unfoldable pub store_get : (k : Kind) → Text → Text → Names → Result (Item k) × Names
store_get k namespace name w =
    ((if contains name (w k) then ok (item k namespace name) else err not_found), w)

unfoldable pub store_list : (k : Kind) → Text → Text → Names → Result (List (Item k)) × Names
unfolding items
store_list k namespace owner w = (ok (items k namespace (w k)), w)

unfoldable pub store_delete : Kind → Text → Text → Names → Result (Unit {0}) × Names
unfolding remove
store_delete k namespace name w = (ok tt, λ k'. if kind_eq k k' then remove name (w k') else w k')

abbrev pub store : Client
store = record { World = Names; get = store_get; list = store_list; delete = store_delete }

contains-remove :
    (name n : Text) (ns : List Text)
    → contains n (remove name ns) ≡ (not (text_eq name n) && contains n ns)
unfolding contains remove
contains-remove name n [] = ground arith
contains-remove name n (j ∷ ns) =
    ground
      (arith, contains-remove name n ns, text_eq_iff j name, text_eq_iff j n, text_eq_iff name n)

items-contains :
    (k : Kind) (namespace n : Text) (ns : List Text)
    → contains n ns ≡ true
    → Any (λ x. item_name k x ≡ n) (items k namespace ns)
unfolding contains items
items-contains k namespace n [] h = cc
items-contains k namespace n (j ∷ ns) h = elim (Bool-cases (text_eq j n)) [
  | inl e ↦ inl (item-name k namespace j ∙ text_eq_sound j n e)
  | inr e ↦ inr (items-contains k namespace n ns (ground arith))
]

items-namespace :
    (k : Kind) (namespace : Text) (ns : List Text)
    → All (λ x. (item_meta k x).namespace ≡ namespace) (items k namespace ns)
unfolding items
items-namespace k namespace [] = tt
items-namespace k namespace (n ∷ ns) =
    (item-namespace k namespace n, items-namespace k namespace ns)

-- The list of a result, to compare results by.
abbrev list_of : {A : Type 0} → Result (List A) → List A
list_of (ok xs) = xs
list_of (err e) = []
list_of panic = []

-- The child is in the store.
abbrev pub is_stored : Names → Kind → Text → Bool
is_stored w k n = contains n (w k)

pub store_list_complete :
    (k : Kind) (namespace owner : Text) (w : Names) (xs : List (Item k))
    → (store_list k namespace owner w).0 ≡ ok xs
    → (n : Text) → is_stored w k n ≡ true
    → Any (λ x. item_name k x ≡ n) xs
unfolding store_list
store_list_complete k namespace owner w xs e n h =
    subst (Any (λ x. item_name k x ≡ n)) (ap list_of e) (items-contains k namespace n (w k) h)

pub list-namespace :
    (k : Kind) (namespace owner : Text) (w : Names) (xs : List (Item k))
    → (store_list k namespace owner w).0 ≡ ok xs
    → All (λ x. (item_meta k x).namespace ≡ namespace) xs
unfolding store_list
list-namespace k namespace owner w xs e =
    subst (All (λ x. (item_meta k x).namespace ≡ namespace)) (ap list_of e)
      (items-namespace k namespace (w k))

pub delete-others :
    (k : Kind) (namespace n : Text) (w : Names) (k' : Kind) (n' : Text)
    → (kind_eq k k' && text_eq n n') ≡ false
    → is_stored (store_delete k namespace n w).1 k' n' ≡ is_stored w k' n'
unfolding store_delete
delete-others k namespace n w k' n' h = elim (Bool-cases (kind_eq k k')) [
  | inl e ↦ rw e (contains-remove n n' (w k') ∙ ground arith)
  | inr e ↦ rw e refl
]

pub delete-gone :
    (k : Kind) (namespace n : Text) (w : Names)
    → is_stored (store_delete k namespace n w).1 k n ≡ false
unfolding store_delete
delete-gone k namespace n w =
    rw (kind_eq_refl k) (contains-remove n n (w k) ∙ rw (text_eq_refl n) refl)

-- What is seen of a child, which is in the store or not.
abbrev pub child_of : Text → Kind → Text → Bool → Child
child_of namespace k n there = record {
  is_owned = there;
  mounts = if there then some (item Kind.deployment namespace n).template.volumes else none;
}

pub store_get-mounts :
    (namespace n : Text) (w : Names) (d : Item Kind.deployment)
    → (store_get Kind.deployment namespace n w).0 ≡ ok d
    → (child_of namespace Kind.deployment n (is_stored w Kind.deployment n)).mounts
      ≡ some d.template.volumes
unfolding store_get
store_get-mounts namespace n w d h = go (is_stored w Kind.deployment n) h
  where
    go :
        (there : Bool)
        → (if there then ok (item Kind.deployment namespace n) else err not_found) ≡ ok d
        → (child_of namespace Kind.deployment n there).mounts ≡ some d.template.volumes
    go true e = ap (λ x. some x.template.volumes) (ok-injective e)
    go false e = absurd (cc)

pub store_get-nothing :
    (namespace n : Text) (w : Names) (e : Error)
    → (store_get Kind.deployment namespace n w).0 ≡ err e
    → (child_of namespace Kind.deployment n (is_stored w Kind.deployment n)).mounts ≡ none
unfolding store_get
store_get-nothing namespace n w e h = go (is_stored w Kind.deployment n) h
  where
    go :
        (there : Bool)
        → (if there then ok (item Kind.deployment namespace n) else err not_found) ≡ err e
        → (child_of namespace Kind.deployment n there).mounts ≡ none
    go true h' = absurd (cc)
    go false h' = refl

items-stored :
    (k : Kind) (namespace : Text) (all ns : List Text)
    → ((n : Text) → contains n ns ≡ true → contains n all ≡ true)
    → All (λ x. contains (item_name k x) all ≡ true) (items k namespace ns)
unfolding items
items-stored k namespace all [] h = tt
items-stored k namespace all (n ∷ ns) h = (
  rw (item-name k namespace n) (h n (contains-cons_self n ns)),
  items-stored k namespace all ns (λ n' there. h n' (contains-cons n' n ns there)),
)

pub store_list_sound :
    (k : Kind) (namespace owner : Text) (w : Names) (xs : List (Item k))
    → (store_list k namespace owner w).0 ≡ ok xs
    → All (λ x. is_stored w k (item_name k x) ≡ true) xs
unfolding store_list
store_list_sound k namespace owner w xs e =
    subst (All (λ x. is_stored w k (item_name k x) ≡ true)) (ap list_of e)
      (items-stored k namespace (w k) (w k) (λ n h. h))

unfoldable pub store-Lawful : (namespace owner : Text) → Lawful store namespace owner
unfolding store_get store_list
store-Lawful namespace owner = record {
  child = λ w k n. child_of namespace k n (is_stored w k n);
  get_keeps = λ k n w k' n'. refl;
  list_keeps = λ k w k' n'. refl;
  get_mounts = λ n w d h. store_get-mounts namespace n w d h;
  get_nothing = λ n w e h missing. store_get-nothing namespace n w e h;
  list_complete = λ k w xs e n h. store_list_complete k namespace owner w xs e n h;
  list_sound = λ k w xs e. store_list_sound k namespace owner w xs e;
  list_namespace = λ k w xs e. list-namespace k namespace owner w xs e;
  delete_others =
      λ k n w k' n' h. ap (child_of namespace k' n') (delete-others k namespace n w k' n' h);
  delete_gone = λ k n w h. delete-gone k namespace n w;
}
