-- ===== src/Collection/Sweep.antt =====
-- The loop that deletes what is not expected, for a client that keeps its laws.
use osrm_operator.Base.{
  List, [], ◌∷◌, ◌++◌, Bool, true, false, not, ◌&&◌, ◌≡◌, ◌⊎◌, inl, inr, refl, ◌∙◌, ap, arith, All,
  Any, ok, Bool-cases,
}
use osrm_operator.Text.{Text, codes, text_eq}
use osrm_operator.Text.Laws.{text_eq_sound, text_eq_complete}
use osrm_operator.Dict.{contains}
use osrm_operator.Kube.{ObjectMeta, Kind, Item, item_meta, item_name}
use osrm_operator.Client.{Client, gone, answer}
use osrm_operator.Client.Rules.{>>=-state, >>=-ok, gone-ok}
use osrm_operator.Client.Lawful.{kind_eq, IsGone, Lawful, owns}
use osrm_operator.Collection.{noun, sweep}

pub kind_eq_sound : (k j : Kind) → kind_eq k j ≡ true → k ≡ j
kind_eq_sound k j h = ground arith

module _ (c : Client) (m : ObjectMeta) (laws : Lawful c m.namespace m.name)
    (expected : List Text) where
  open c use {World, get, list, delete}
  open laws use {child, list_keeps, list_complete, list_namespace, delete_others, delete_gone}

  -- Between the two states nothing was lost but objects of the kinds, not expected.
  abbrev pub Keeps : (Kind → Bool) → World → World → Type 0
  Keeps S w w' =
      (k : Kind) (n : Text)
      → ((S k && not (contains n expected)) ≡ false)
      → child w' k n ≡ child w k n

  -- Between the two states just the objects of the kinds that are not expected were lost.
  abbrev pub Collects : (Kind → Bool) → World → World → Type 0
  Collects S w w' =
      (k : Kind) (n : Text)
      → owns laws w' k n ≡ (owns laws w k n && not (S k && not (contains n expected)))

  module _ (k : Kind) where
    unexpected-differs :
        (name : Text) (k' : Kind) (n : Text)
        → contains name expected ≡ false
        → (kind_eq k k' && not (contains n expected)) ≡ false
        → (kind_eq k k' && text_eq name n) ≡ false
    unexpected-differs name k' n h e = elim (Bool-cases (text_eq name n)) [
      | inl t ↦
          let gone_too : contains n expected ≡ false = rw (text_eq_sound name n t) at h in
          ground arith
      | inr f ↦ rw f (ground arith)
    ]

    pub sweep-Keeps :
        (xs : List (Item k)) (w : World)
        → All (λ x. (item_meta k x).namespace ≡ m.namespace) xs
        → Keeps (kind_eq k) w (sweep c k expected xs w).1
    unfolding sweep
    sweep-Keeps [] w h k' n e = refl
    sweep-Keeps (x ∷ xs) w (h, hs) k' n e =
        let name = item_name k x in
        elim (Bool-cases (contains name expected)) [
          | inl y ↦ rw y (sweep-Keeps xs w hs k' n e)
          | inr no_longer ↦
              let others = delete_others k name w k' n (unexpected-differs name k' n no_longer e) in
              rw (no_longer, h)
                (>>=-state (λ w'. child w' k' n ≡ child w k' n)
                  (answer (gone (codes "failed to delete " ++ (noun k ++ (codes " " ++ name))))
                    (delete k m.namespace name))
                  (λ _. sweep c k expected xs) w others
                  (λ _ _. sweep-Keeps xs (delete k m.namespace name w).1 hs k' n e ∙ others))
        ]

    -- The object is not there, or is listed.
    abbrev pub IsDoomed : List (Item k) → World → Text → Type 0
    IsDoomed xs w n = (owns laws w k n ≡ false) ⊎ Any (λ x. item_name k x ≡ n) xs

    IsDoomed-expected :
        (x : Item k) (xs : List (Item k)) (w : World) (n : Text)
        → contains (item_name k x) expected ≡ true
        → contains n expected ≡ false
        → IsDoomed (x ∷ xs) w n
        → IsDoomed xs w n
    IsDoomed-expected x xs w n y e (inl a) = inl a
    IsDoomed-expected x xs w n y e (inr (inl a)) = absurd (cc (rw a at y))
    IsDoomed-expected x xs w n y e (inr (inr a)) = inr a

    IsDoomed-deleted :
        (x : Item k) (xs : List (Item k)) (w : World) (n : Text)
        → IsGone (delete k m.namespace (item_name k x) w).0
        → IsDoomed (x ∷ xs) w n
        → IsDoomed xs (delete k m.namespace (item_name k x) w).1 n
    IsDoomed-deleted x xs w n g d =
        let name = item_name k x in
        elim (Bool-cases (text_eq name n)) [
          | inl t ↦ inl (rw (← text_eq_sound name n t) (delete_gone k name w g))
          | inr f ↦ elim d [
            | inl a ↦
                inl (ap (λ x. x.is_owned) (delete_others k name w k n (rw f (ground arith))) ∙ a)
            | inr (inl a) ↦ absurd (cc (text_eq_complete name n a, f))
            | inr (inr a) ↦ inr a
          ]
        ]

    -- Where the loop ends without an error, what is listed and not expected is gone.
    pub sweep-doomed :
        (xs : List (Item k)) (w : World) (n : Text)
        → All (λ x. (item_meta k x).namespace ≡ m.namespace) xs
        → (sweep c k expected xs w).0 ≡ ok tt
        → contains n expected ≡ false
        → IsDoomed xs w n
        → owns laws (sweep c k expected xs w).1 k n ≡ false
    unfolding sweep
    sweep-doomed [] w n hs h e (inl a) = a
    sweep-doomed [] w n hs h e (inr a) = absurd a
    sweep-doomed (x ∷ xs) w n (hx, hs) h e d =
        let name = item_name k x in
        elim (Bool-cases (contains name expected)) [
          | inl y ↦ rw y (sweep-doomed xs w n hs (rw y at h) e (IsDoomed-expected x xs w n y e d))
          | inr f ↦
              let message = codes "failed to delete " ++ (noun k ++ (codes " " ++ name)) in
              let first = answer (gone message) (delete k m.namespace name) in
              let (u, deleted, rest, state) =
                >>=-ok first (λ _. sweep c k expected xs) w tt (rw (f, hx) at h) in
              rw (f, hx)
                (rw state (
                  sweep-doomed xs (delete k m.namespace name w).1 n hs rest e (
                    IsDoomed-deleted x xs w n
                      (gone-ok message (delete k m.namespace name w).0 deleted) d)))
        ]

    -- Where the loop ends without an error and every child of the kind is listed, just those are
    -- lost that are not expected.
    pub sweep-Collects :
        (xs : List (Item k)) (w : World)
        → All (λ x. (item_meta k x).namespace ≡ m.namespace) xs
        → ((n : Text) → owns laws w k n ≡ true → Any (λ x. item_name k x ≡ n) xs)
        → (sweep c k expected xs w).0 ≡ ok tt
        → Collects (kind_eq k) w (sweep c k expected xs w).1
    sweep-Collects xs w hs listed h k' n =
        elim (Bool-cases (kind_eq k k' && not (contains n expected))) [
          | inr f ↦ rw f (ap (λ x. x.is_owned) (sweep-Keeps xs w hs k' n f) ∙ ground arith)
          | inl t ↦
              let same : k ≡ k' = kind_eq_sound k k' (ground arith) in
              let lost : owns laws (sweep c k expected xs w).1 k n ≡ false =
                sweep-doomed xs w n hs h (ground arith) (elim (Bool-cases (owns laws w k n)) [
                  | inl o ↦ inr (listed n o)
                  | inr o ↦ inl o
                ]) in
              rw (t, ← same) (lost ∙ ground arith)
        ]
