-- ===== src/Reconcile/Realised/Stored.antt =====
-- What is at the server after the builders of a resource were applied.
use osrm_operator.Collection.Expected.{and_true_iff, or_true_iff}
use osrm_operator.Base.{
  Any, ◌↔◌, List, [], ◌∷◌, Bool, true, false, ◌&&◌, ◌||◌, ◌≡◌, refl, inl, inr, sym, ◌∙◌, ap, arith,
  All, All-map, Bool-cases, Result, ok,
}
use mathlib.Core.Path.{subst}
use osrm_operator.Text.{Text, text_eq}
use osrm_operator.Text.Laws.{text_eq_sound, text_eq_refl, text_eq_iff}
use osrm_operator.Collection.Sweep.{kind_eq_sound}
use osrm_operator.Kube.{ObjectMeta, Kind, Object, object_kind, object_meta}
use osrm_operator.Api.{Resource}
use osrm_operator.Client.{Client}
use osrm_operator.Client.Lawful.{kind_eq, kind_eq_refl, Lawful, owns}
use osrm_operator.Owner.{Owner}
use osrm_operator.Builders.{ResourceBuilder, built_kind, built_name}
use osrm_operator.Contents.Adoption.{ReferenceLawful, visiting-ReferenceLawful}
use osrm_operator.Contents.Identity.{IsCalled, IsLabelled, build-IsCalled, update-IsLabelled}
use osrm_operator.Reconcile.{Controller, ObjectStore, environment_at}
use osrm_operator.Reconcile.Success.{built, wanted, Applied, applied_none, applied_next}

-- What is documented of `CreateOrUpdate` with an update after which every object bears the owner's
-- label: it touches the object named alone, and where the call succeeds that object is a child.
pub record StoreLawful (c : Client) (objects : ObjectStore (c.World)) (namespace owner : Text)
    (laws : Lawful c namespace owner) : Type 0 where
  pub others :
      (o : Object) (f : Object → Result Object) (w : c.World) (k : Kind) (n : Text)
      → (kind_eq (object_kind o) k && text_eq (object_meta o).name n) ≡ false
      → laws.child (objects.create_or_update o f w).1 k n ≡ laws.child w k n
  pub stores :
      (o : Object) (f : Object → Result Object) (w : c.World)
      → ((x y : Object) → f x ≡ ok y → IsLabelled owner y)
      → (object_meta o).namespace ≡ namespace
      → (objects.create_or_update o f w).0 ≡ ok tt
      → owns laws (objects.create_or_update o f w).1 (object_kind o) (object_meta o).name ≡ true

-- Some builder builds the object of the kind and name.
unfoldable pub is_built : ObjectMeta → List ResourceBuilder → Kind → Text → Bool
is_built m [] k n = false
is_built m (b ∷ bs) k n =
    let rest = is_built m bs k n in (kind_eq (built_kind b) k && text_eq (built_name m b) n) || rest

-- Some builder builds the object of the kind and name.
abbrev pub IsBuilt : ObjectMeta → List ResourceBuilder → Kind → Text → Type 0
IsBuilt m bs k n = Any (λ b. (built_kind b ≡ k) × (built_name m b ≡ n)) bs

pub is_built_iff :
    (m : ObjectMeta) (bs : List ResourceBuilder) (k : Kind) (n : Text)
    → (is_built m bs k n ≡ true) ↔ IsBuilt m bs k n
unfolding is_built
is_built_iff m [] k n = (λ h. absurd (cc), λ h. absurd h)
is_built_iff m (b ∷ bs) k n =
    or_true_iff (kind_eq (built_kind b) k && text_eq (built_name m b) n) (is_built m bs k n)
      (and_true_iff (kind_eq (built_kind b) k) (text_eq (built_name m b) n)
        (
          kind_eq_sound (built_kind b) k,
          λ e. subst (λ k'. kind_eq (built_kind b) k' ≡ true) e (kind_eq_refl (built_kind b)),
        )
        (text_eq_iff (built_name m b) n))
      (is_built_iff m bs k n)

-- Each of the builders builds its object.
pub is_built-All :
    (m : ObjectMeta) (bs : List ResourceBuilder)
    → All (λ b. is_built m bs (built_kind b) (built_name m b) ≡ true) bs
unfolding is_built
is_built-All m [] = tt
is_built-All m (b ∷ bs) = (
  rw (kind_eq_refl (built_kind b), text_eq_refl (built_name m b)) refl,
  All-map bs (λ b' h. rw h (ground arith)) (is_built-All m bs),
)

module _ (c : Client) {S D : Type 0} (o : Owner (c.World) S) (controller : Controller (c.World) S D)
    (objects : ObjectStore (c.World)) (m : ObjectMeta) (laws : Lawful c m.namespace m.name)
    (stores : StoreLawful c objects m.namespace m.name laws)
    (reference : ReferenceLawful objects.environment m) (r : Resource S)
    (same : (controller.instance_of r).meta ≡ m) where
  open c use {World}

  wanted-IsLabelled :
      (w : World) (children : List Object) (b : ResourceBuilder) (x y : Object)
      → wanted c o controller objects w r children b x ≡ ok y
      → IsLabelled m.name y
  wanted-IsLabelled w children b x y h =
      subst (λ m'. IsLabelled m'.name y) same
        (update-IsLabelled (environment_at objects w) (controller.instance_of r)
          (subst (ReferenceLawful (environment_at objects w)) (sym same)
            (visiting-ReferenceLawful objects.environment m (objects.iterate_at w) reference))
          children b x y h)

  built-IsCalled :
      (b : ResourceBuilder) (x : Object)
      → built c o controller objects r b ≡ ok x
      → IsCalled (built_kind b) (built_name m b) m.namespace x
  built-IsCalled b x h =
      subst (λ m'. IsCalled (built_kind b) (built_name m' b) m'.namespace x) same
        (build-IsCalled objects.environment (controller.instance_of r) b x h)

  -- What one builder adds.
  stored-exact :
      (children : List Object) (b : ResourceBuilder) (x : Object) (w : World)
      → built c o controller objects r b ≡ ok x
      → (objects.create_or_update x (wanted c o controller objects w r children b) w).0 ≡ ok tt
      → (k : Kind) (n : Text)
      → owns laws
          (objects.create_or_update x (wanted c o controller objects w r children b) w).1
          k
          n
        ≡ (owns laws w k n || (kind_eq (built_kind b) k && text_eq (built_name m b) n))
  stored-exact children b x w made stored k n =
      let update_x = wanted c o controller objects w r children b in
      let after = (objects.create_or_update x update_x w).1 in
      let called = built-IsCalled b x made in
      let there =
        stores.stores x update_x w (wanted-IsLabelled w children b) called.has_namespace stored in
      elim (Bool-cases (kind_eq (built_kind b) k && text_eq (built_name m b) n)) [
        | inl y ↦
            let kinds = kind_eq_sound (built_kind b) k (ground arith) in
            let names = text_eq_sound (built_name m b) n (ground arith) in
            let child =
              subst (λ k'. owns laws after k' n ≡ true) (called.of_kind ∙ kinds)
                (subst (λ n'. owns laws after (object_kind x) n' ≡ true) (called.has_name ∙ names)
                  there) in
            rw (y, child) (ground arith)
        | inr f ↦ rw f (
            ap (λ o. o.is_owned)
              (stores.others x update_x w k n (rw (called.of_kind, called.has_name) f))
            ∙ ground arith)
      ]

  -- Where the builders were applied, the children are those that there were and what they build.
  pub Applied-exact :
      {children : List Object} {bs : List ResourceBuilder} {w w' : World}
      → Applied c o controller objects children r bs w w'
      → (k : Kind) (n : Text) → owns laws w' k n ≡ (owns laws w k n || is_built m bs k n)
  unfolding is_built
  Applied-exact {w = w} applied_none k n = ground arith
  Applied-exact {children} (applied_next {b = b} {bs = bs} {object = x} {w = w} made stored rest) k
        n =
      Applied-exact rest k n
      ∙ ap (λ z. z || is_built m bs k n) (stored-exact children b x w made stored k n)
      ∙ ground arith
