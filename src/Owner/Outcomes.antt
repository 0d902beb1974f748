-- ===== src/Owner/Outcomes.antt =====
-- What the steps on the custom resource itself do to its children.
use osrm_operator.Base.{List, ◌≡◌, inl, inr, refl, ◌∙◌, Bool-cases, Result, ok, err, panic}
use osrm_operator.Text.{Text, codes}
use osrm_operator.Kube.{Kind, ConditionStatus, Object}
use osrm_operator.Api.{Resource}
use osrm_operator.Client.{Client, answer, lift, wrap_result, ◌>>=◌}
use osrm_operator.Client.Lawful.{Lawful}
use osrm_operator.Client.Rules.{>>=-state}
use osrm_operator.Owner.{
  Owner, Step, modify, save, logged, requeue_delay, settle, release, release_if_claimed, observed,
  resulted, refreshed, claimed, condemned, disclaimed, set_reconciliation_result,
  refresh_status_conditions, update_resource, initialize_resource, cleanup_resource, annotated,
  apply_last_spec_annotation,
}

-- What is documented of the calls on the custom resource: they touch no child, and a status update
-- that succeeds returns the metadata as it was, since it fails where another party changed it.
pub record OwnerLawful (c : Client) (S : Type 0) (o : Owner (c.World) S) (namespace owner : Text)
    (laws : Lawful c namespace owner) : Type 0 where
  pub update_keeps :
      (r : Resource S) (w : c.World) (k : Kind) (n : Text)
      → laws.child (o.update r w).1 k n ≡ laws.child w k n
  pub status_keeps :
      (r : Resource S) (w : c.World) (k : Kind) (n : Text)
      → laws.child (o.update_status r w).1 k n ≡ laws.child w k n
  pub status_meta :
      (r r' : Resource S) (w : c.World) → (o.update_status r w).0 ≡ ok r' → r'.meta ≡ r.meta

module _ (c : Client) {S : Type 0} (o : Owner (c.World) S) (namespace owner : Text)
    (laws : Lawful c namespace owner) (owner_laws : OwnerLawful c S o namespace owner laws) where
  open c use {World}
  open laws use {child}
  open owner_laws use {update_keeps, status_keeps}

  -- No child came or went since the state `w`.
  abbrev pub Untouched : World → Resource S × World → Type 0
  Untouched w s = (k : Kind) (n : Text) → child s.1 k n ≡ child w k n

  -- The step touches no child.
  pub record Spares {A : Type 0} (m : Step World S A) : Type 0 where
    pub spared : (s : Resource S × World) → Untouched s.1 (m s).1

  pub >>=-Spares :
      {A B : Type 0} {m : Step World S A} {f : A → Step World S B}
      → Spares m
      → ((a : A) → Spares (f a))
      → Spares (m >>= f)
  >>=-Spares {m = m} {f = f} first second = record {
    spared = λ s k n.
        >>=-state (λ s'. child s'.1 k n ≡ child s.1 k n) m f s (first.spared s k n)
          (λ a _. (second a).spared (m s).1 k n ∙ first.spared s k n);
  }

  save-spared :
      (call : Resource S → World → Result (Resource S) × World)
      → ((r : Resource S) (w : World) (k : Kind) (n : Text) → child (call r w).1 k n ≡ child w k n)
      → (s : Resource S × World) → Untouched s.1 (save call s).1
  save-spared call keeps (r, w) k n = go (call r w).0 (call r w).1 (keeps r w k n)
    where
      go :
          (x : Result (Resource S)) (w' : World)
          → child w' k n ≡ child w k n
          → child (save (λ _ _. (x, w')) (r, w)).1.1 k n ≡ child w k n
      go (ok r') w' h = h
      go (err e) w' h = h
      go panic w' h = h

  pub save_status-Spares : Spares (save o.update_status)
  save_status-Spares = record { spared = save-spared o.update_status status_keeps }

  pub save_update-Spares : Spares (save o.update)
  save_update-Spares = record { spared = save-spared o.update update_keeps }

  pub modify-Spares : (f : Resource S → World → Resource S) → Spares (modify f)
  modify-Spares f = record { spared = λ s k n. refl }

  pub answer-Spares :
      {A B : Type 0} (f : Result A → Result B) {m : Step World S A} → Spares m → Spares (answer f m)
  answer-Spares f h = record { spared = λ s. h.spared s }

  pub set_reconciliation_result-Spares :
      (status : ConditionStatus) (reason message : Text)
      → Spares (set_reconciliation_result o status reason message)
  unfolding set_reconciliation_result
  set_reconciliation_result-Spares status reason message =
      >>=-Spares (modify-Spares (resulted o status reason message))
        (λ _. answer-Spares logged save_status-Spares)

  pub refresh_status_conditions-Spares :
      (children : List Object) → Spares (refresh_status_conditions o children)
  unfolding refresh_status_conditions
  refresh_status_conditions-Spares children =
      >>=-Spares (modify-Spares (refreshed o children))
        (λ _. answer-Spares requeue_delay save_status-Spares)

  pub update_resource-Spares : Spares (update_resource o)
  unfolding update_resource
  update_resource-Spares =
      >>=-Spares save_update-Spares
        (λ _. >>=-Spares (modify-Spares observed) (λ _. save_status-Spares))

  pub initialize_resource-Spares : (finalizer : Text) → Spares (initialize_resource o finalizer)
  unfolding initialize_resource
  initialize_resource-Spares finalizer =
      >>=-Spares (modify-Spares (claimed o finalizer)) (λ _. update_resource-Spares)

  release-Spares : (finalizer message : Text) → Spares (release o finalizer message)
  unfolding release
  release-Spares finalizer message = >>=-Spares (modify-Spares (condemned o message)) (λ _.
      >>=-Spares save_status-Spares
        (λ _. >>=-Spares (modify-Spares (disclaimed o finalizer)) (λ _. save_update-Spares)))

  release_if_claimed-Spares :
      (finalizer message : Text) → Spares (release_if_claimed o finalizer message)
  unfolding release_if_claimed
  release_if_claimed-Spares finalizer message = record {
    spared = λ (r, w) k n. elim (Bool-cases (o.contains_finalizer finalizer r.meta.finalizers)) [
      | inl y ↦ rw y ((release-Spares finalizer message).spared (r, w) k n)
      | inr y ↦ rw y refl
    ];
  }

  pub cleanup_resource-Spares :
      (finalizer message : Text) → Spares (cleanup_resource o finalizer message)
  unfolding cleanup_resource
  cleanup_resource-Spares finalizer message =
      >>=-Spares (release_if_claimed-Spares finalizer message)
        (λ _. >>=-Spares (modify-Spares observed) (λ _. answer-Spares settle save_status-Spares))

  lift-Spares : {A : Type 0} (x : Result A) → Spares (lift {A = A} x)
  lift-Spares x = record { spared = λ s k n. refl }

  pub apply_last_spec_annotation-Spares : (key : Text) → Spares (apply_last_spec_annotation o key)
  unfolding apply_last_spec_annotation
  apply_last_spec_annotation-Spares key = record {
    spared = λ (r, w).
        (>>=-Spares (lift-Spares (wrap_result (codes "failed to marshal spec") (o.marshal r.spec)))
            (λ json.
              >>=-Spares (modify-Spares (annotated key json)) (λ _. save_update-Spares))).spared
          (r, w);
  }
