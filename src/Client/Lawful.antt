-- ===== src/Client/Lawful.antt =====
-- What the API server documents of the calls of `Client`, as far as garbage collection relies on it:
-- seen from one reconciliation, no other party creates or deletes the children meanwhile.
use osrm_operator.Base.{
  ℕ, List, Option, none, some, Error, Bool, true, false, ◌&&◌, ◌≡◌, refl, Any, All, ◌==◌, Result,
  ok, err, panic,
}
use osrm_operator.Text.{Text, text_eq}
use osrm_operator.Kube.{Volume, Kind, Item, item_meta, item_name}
use osrm_operator.Client.{Client, is_not_found}

abbrev rank : Kind → ℕ
rank Kind.deployment = 0
rank Kind.service = 1
rank Kind.config_map = 2
rank Kind.cron_job = 3
rank Kind.autoscaler = 4
rank Kind.disruption_budget = 5
rank Kind.claim = 6
rank Kind.job = 7

abbrev pub kind_eq : Kind → Kind → Bool
kind_eq k j = rank k == rank j

pub kind_eq_refl : (k : Kind) → kind_eq k k ≡ true
kind_eq_refl Kind.deployment = refl
kind_eq_refl _ = refl

-- The call says that the object is no longer there.
abbrev pub IsGone : Result (Unit {0}) → Type 0
IsGone (ok u) = Unit
IsGone (err e) = is_not_found e ≡ true
IsGone panic = ⊥

-- What one reconciliation sees of an object of a kind and name in the namespace, and no other party
-- changes meanwhile: whether it is there and labelled with the owner, and the volumes that it mounts,
-- where it is a deployment.
pub record Child : Type 0 where
  pub is_owned : Bool
  pub mounts : Option (List Volume)

pub record Lawful (c : Client) (namespace owner : Text) : Type 0 where
  pub child : c.World → Kind → Text → Child
  -- Reads change no child.
  pub get_keeps :
      (k : Kind) (n : Text) (w : c.World) (k' : Kind) (n' : Text)
      → child (c.get k namespace n w).1 k' n' ≡ child w k' n'
  pub list_keeps :
      (k : Kind) (w : c.World) (k' : Kind) (n' : Text)
      → child (c.list k namespace owner w).1 k' n' ≡ child w k' n'
  -- A deployment is read as it is, and it is not found where there is none.
  pub get_mounts :
      (n : Text) (w : c.World) (d : Item Kind.deployment)
      → (c.get Kind.deployment namespace n w).0 ≡ ok d
      → (child w Kind.deployment n).mounts ≡ some d.template.volumes
  pub get_nothing :
      (n : Text) (w : c.World) (e : Error)
      → (c.get Kind.deployment namespace n w).0 ≡ err e
      → is_not_found e ≡ true
      → (child w Kind.deployment n).mounts ≡ none
  -- A listing that succeeds returns every child of the kind, and objects of the namespace alone that
  -- are children.
  pub list_complete :
      (k : Kind) (w : c.World) (xs : List (Item k))
      → (c.list k namespace owner w).0 ≡ ok xs
      → (n : Text) → (child w k n).is_owned ≡ true
      → Any (λ x. item_name k x ≡ n) xs
  pub list_sound :
      (k : Kind) (w : c.World) (xs : List (Item k))
      → (c.list k namespace owner w).0 ≡ ok xs
      → All (λ x. (child w k (item_name k x)).is_owned ≡ true) xs
  pub list_namespace :
      (k : Kind) (w : c.World) (xs : List (Item k))
      → (c.list k namespace owner w).0 ≡ ok xs
      → All (λ x. (item_meta k x).namespace ≡ namespace) xs
  -- A deletion touches the object named alone, and where it says so that object is gone.
  pub delete_others :
      (k : Kind) (n : Text) (w : c.World) (k' : Kind) (n' : Text)
      → (kind_eq k k' && text_eq n n') ≡ false
      → child (c.delete k namespace n w).1 k' n' ≡ child w k' n'
  pub delete_gone :
      (k : Kind) (n : Text) (w : c.World)
      → IsGone (c.delete k namespace n w).0
      → (child (c.delete k namespace n w).1 k n).is_owned ≡ false

-- Whether there is an object of the kind and name in the namespace, labelled with the owner.
abbrev pub owns :
    {c : Client} {namespace owner : Text} → Lawful c namespace owner → c.World → Kind → Text → Bool
owns laws w k n = (laws.child w k n).is_owned

-- The volumes of the deployment of a name.
abbrev pub mounted :
    {c : Client} {namespace owner : Text}
    → Lawful c namespace owner
    → c.World
    → Text
    → Option (List Volume)
mounted laws w n = (laws.child w Kind.deployment n).mounts
