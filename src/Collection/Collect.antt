-- ===== src/Collection/Collect.antt =====
-- One kind after another: what a sequence of collections loses.
use osrm_operator.Base.{
  List, [], ◌∷◌, ◌++◌, Bool, false, ◌&&◌, ◌||◌, ◌≡◌, refl, sym, ap, ◌∙◌, arith, not, ok,
}
use osrm_operator.Text.{Text, codes}
use osrm_operator.Dict.{contains}
use osrm_operator.Kube.{ObjectMeta, Kind, Item}
use osrm_operator.Client.{Client, Action, answer, wrap_result, ◌>>◌}
use osrm_operator.Client.Rules.{>>=-state, >>=-ok, wrap_result-ok}
use osrm_operator.Client.Lawful.{kind_eq, Lawful}
use osrm_operator.Collection.{noun, sweep, collect, collect_kinds}
use osrm_operator.Collection.Sweep.{Keeps, Collects, sweep-Keeps, sweep-Collects}

pub and-false : (b : Bool) → (b && false) ≡ false
and-false b = ground arith

-- The kind is among those listed.
abbrev pub mem_kind : List Kind → Kind → Bool
mem_kind [] k = false
mem_kind (j ∷ js) k = kind_eq j k || mem_kind js k

module _ (c : Client) (m : ObjectMeta) (laws : Lawful c m.namespace m.name)
    (expected : List Text) where
  open c use {World, get, list, delete}
  open laws use {child, list_keeps, list_complete, list_namespace}

  abbrev Kept : (Kind → Bool) → World → World → Type 0
  Kept = Keeps c m laws expected

  abbrev Collected : (Kind → Bool) → World → World → Type 0
  Collected = Collects c m laws expected

  -- The listing succeeded, and what it found.
  module _ (k : Kind) (w : World) where
    listing : Action World (List (Item k))
    listing =
        answer (wrap_result (codes "failed to list " ++ (noun k ++ codes "s")))
          (list k m.namespace m.name)

    listed : (xs : List (Item k)) → (listing w).0 ≡ ok xs → (list k m.namespace m.name w).0 ≡ ok xs
    unfolding listing
    listed xs h =
        wrap_result-ok (codes "failed to list " ++ (noun k ++ codes "s"))
          (list k m.namespace m.name w).0 xs h

    pub collect-Keeps : Kept (kind_eq k) w (collect c k m expected w).1
    unfolding collect listing
    collect-Keeps k' n e =
        >>=-state (λ w'. child w' k' n ≡ child w k' n) listing (sweep c k expected) w
          (list_keeps k w k' n)
          (λ xs h.
            sweep-Keeps c m laws expected k xs (list k m.namespace m.name w).1
              (list_namespace k w xs (listed xs h)) k' n e
            ∙ list_keeps k w k' n)

    pub collect-Collects :
        (collect c k m expected w).0 ≡ ok tt → Collected (kind_eq k) w (collect c k m expected w).1
    unfolding collect listing
    collect-Collects h k' n =
        let (xs, found, rest, state) = >>=-ok listing (sweep c k expected) w tt h in
        let w1 = (list k m.namespace m.name w).1 in
        let xs_found = listed xs found in
        let lost =
          sweep-Collects c m laws expected k xs w1 (list_namespace k w xs xs_found)
            (λ n' o.
              list_complete k w xs xs_found n'
                (sym (ap (λ x. x.is_owned) (list_keeps k w k n')) ∙ o))
            rest k' n in
        rw state (
          lost
          ∙ ap (λ x. x.is_owned && not (kind_eq k k' && not (contains n expected)))
              (list_keeps k w k' n))

  -- A sequence of two parts loses what the parts lose.
  module _ {B : Type 0} (S T : Kind → Bool) (first : Action World (Unit {0}))
      (second : Action World B) (w : World) where
    pub >>-Keeps :
        Kept S w (first w).1
        → ((w' : World) → Kept T w' (second w').1)
        → Kept (λ k. S k || T k) w ((first >> second) w).1
    >>-Keeps one two k n e =
        let first_keeps = one k n (ground arith) in
        >>=-state (λ w'. child w' k n ≡ child w k n) first (λ _. second) w first_keeps
          (λ _ _. two (first w).1 k n (ground arith) ∙ first_keeps)

    pub >>-Collects :
        (b : B)
        → ((first >> second) w).0 ≡ ok b
        → ((first w).0 ≡ ok tt → Collected S w (first w).1)
        → ((second (first w).1).0 ≡ ok b → Collected T (first w).1 (second (first w).1).1)
        → Collected (λ k. S k || T k) w ((first >> second) w).1
    >>-Collects b h one two k n =
        let (u, done, rest, state) = >>=-ok first (λ _. second) w b h in
        rw state (two rest k n ∙ ground (arith, one done k n))

  pub collect_kinds-Keeps :
      (ks : List Kind) (w : World) → Kept (mem_kind ks) w (collect_kinds c ks m expected w).1
  unfolding collect_kinds
  collect_kinds-Keeps [] w = λ k n e. refl
  collect_kinds-Keeps (j ∷ js) w =
      >>-Keeps (kind_eq j) (mem_kind js) (collect c j m expected) (collect_kinds c js m expected) w
        (collect-Keeps j w) (collect_kinds-Keeps js)

  pub collect_kinds-Collects :
      (ks : List Kind) (w : World)
      → (collect_kinds c ks m expected w).0 ≡ ok tt
      → Collected (mem_kind ks) w (collect_kinds c ks m expected w).1
  unfolding collect_kinds
  collect_kinds-Collects [] w h = λ k n. ground arith
  collect_kinds-Collects (j ∷ js) w h =
      >>-Collects (kind_eq j) (mem_kind js) (collect c j m expected) (collect_kinds c js m expected)
        w tt h (collect-Collects j w) (collect_kinds-Collects js (collect c j m expected w).1)
