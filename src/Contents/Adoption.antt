-- ===== src/Contents/Adoption.antt =====
-- What `SetControllerReference` documents, and an update that ends in it: done a second time it
-- changes nothing.
use osrm_operator.Base.{◌≡◌, refl, sym, ◌∙◌, ap, Result, ok, err, panic, deref, Option, none, some}
use mathlib.Core.Path.{subst}
use osrm_operator.Text.{Text}
use osrm_operator.Dict.{Dict}
use osrm_operator.Kube.{ObjectMeta}
use osrm_operator.Api.Defaults.{ResourceInstance}
use osrm_operator.Contents.{Environment, visiting, relabelled, adopt}

-- The call writes owner references alone, and an object that it has adopted stays as it is.
pub record ReferenceLawful (e : Environment) (owner : ObjectMeta) : Type 0 where
  pub writes_owners :
      (m m' : ObjectMeta)
      → e.set_controller_reference owner m ≡ ok m'
      → m' ≡ record m { owners = m'.owners }
  pub adopts_once :
      (m m' : ObjectMeta)
      → e.set_controller_reference owner m ≡ ok m'
      → e.set_controller_reference owner m' ≡ ok m'

-- The order in which `range` visits a map plays no part in it.
pub visiting-ReferenceLawful :
    (e : Environment) (owner : ObjectMeta) (f : Dict Text → Dict Text)
    → ReferenceLawful e owner
    → ReferenceLawful (visiting f e) owner
visiting-ReferenceLawful e owner f laws = record {
  writes_owners = laws.writes_owners;
  adopts_once = laws.adopts_once;
}

abbrev pub value_or {ℓ} : {A : Type ℓ} → A → Result A → A
value_or a (ok b) = b
value_or a (err e) = a
value_or a panic = a

pub ok-injective {ℓ} : {A : Type ℓ} {a b : A} → ok a ≡ ok b → a ≡ b
ok-injective {a} h = ap (value_or a) h

pub deref-ok :
    {A B : Type 0} (o : Option A) (f : A → Result B) (y : B)
    → deref o f ≡ ok y
    → (a : A) × (o ≡ some a) × (f a ≡ ok y)
deref-ok none f y h = absurd (cc)
deref-ok (some a) f y h = (a, refl, h)

module _ (e : Environment) (i : ResourceInstance) where
  -- An update that succeeds has adopted the object.
  pub adopt-ok :
      {A : Type 0} (m : ObjectMeta) (finish : ObjectMeta → Result A) (y : A)
      → adopt i e m finish ≡ ok y
      → (m' : ObjectMeta) × (e.set_controller_reference i.meta m ≡ ok m') × (finish m' ≡ ok y)
  unfolding adopt
  adopt-ok m finish y h = go (e.set_controller_reference i.meta m) refl h
    where
      go :
          (r : Result ObjectMeta)
          → e.set_controller_reference i.meta m ≡ r
          → adopt i (record e { set_controller_reference = λ _ _. r }) m finish ≡ ok y
          → (m' : ObjectMeta) × (e.set_controller_reference i.meta m ≡ ok m') × (finish m' ≡ ok y)
      go (ok m') q h' = (m', q, h')
      go (err error) q h' = absurd (cc)
      go panic q h' = absurd (cc)

  pub adopt-adopts :
      {A : Type 0} (m m' : ObjectMeta) (finish : ObjectMeta → Result A)
      → e.set_controller_reference i.meta m ≡ ok m'
      → adopt i e m finish ≡ finish m'
  unfolding adopt
  adopt-adopts m m' finish h = rw (h, adopt)

  -- The labels are set already.
  pub relabelled-again :
      ReferenceLawful e i.meta
      → (component : Text) (m m' : ObjectMeta)
      → e.set_controller_reference i.meta (relabelled i component m) ≡ ok m'
      → relabelled i component m' ≡ m'
  unfolding relabelled
  relabelled-again laws component m m' h =
      ap (λ l. record m' { labels = l }) (sym (ap (λ x. x.labels) (laws.writes_owners _ m' h)))

  -- An update that prepares the metadata, has the object adopted and completes it: the second time it
  -- changes nothing, where preparing changes nothing in what was adopted and completing nothing in
  -- what was completed.
  pub adopt-again :
      {A : Type 0} (prepare : ObjectMeta → ObjectMeta) (meta_of : A → ObjectMeta)
      (complete : A → ObjectMeta → A)
      → ReferenceLawful e i.meta
      → ((m m' : ObjectMeta)
          → e.set_controller_reference i.meta (prepare m) ≡ ok m'
          → prepare m' ≡ m')
      → ((x : A) (m : ObjectMeta) → meta_of (complete x m) ≡ m)
      → ((x : A) (m : ObjectMeta) → complete (complete x m) m ≡ complete x m)
      → (x y : A) → adopt i e (prepare (meta_of x)) (λ m. ok (complete x m)) ≡ ok y
      → adopt i e (prepare (meta_of y)) (λ m. ok (complete y m)) ≡ ok y
  adopt-again prepare meta_of complete laws prepared has_meta completed x y h =
      let (m', adopted, finished) = adopt-ok (prepare (meta_of x)) (λ m. ok (complete x m)) y h in
      subst (λ z. adopt i e (prepare (meta_of z)) (λ m. ok (complete z m)) ≡ ok z)
        (ok-injective finished)
        (rw (has_meta x m', prepared (meta_of x) m' adopted)
          (adopt-adopts m' m' (λ m. ok (complete (complete x m') m)) (laws.adopts_once _ m' adopted)
            ∙ ap ok (completed x m')))
