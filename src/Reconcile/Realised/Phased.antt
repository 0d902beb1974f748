-- ===== src/Reconcile/Realised/Phased.antt =====
-- The phase of a resource as the server returns it in the course of a reconciliation.
use osrm_operator.Base.{
  List, Bool, true, false, ◌≡◌, refl, sym, ◌∙◌, ap, Result, ok, err, panic, if◌then◌else◌,
}
use osrm_operator.Text.{Text, codes}
use osrm_operator.Kube.{Object}
use osrm_operator.Api.{
  Phase, building_map, updating_map, redeploying_workers, deploying_workers, workers_deployed,
  workers_redeployed, deleting, empty, phase_eq, Resource,
}
use osrm_operator.Builders.{ResourceBuilder}
use osrm_operator.Client.{Client, wrap_result, lift, ◌>>=◌, ◌>>◌}
use osrm_operator.Owner.{Owner, modify, save, annotated, apply_last_spec_annotation}
use osrm_operator.Reconcile.{Controller, ObjectStore, entering, set_phase}
use osrm_operator.Reconcile.Success.{Applied, applied_none, applied_next}
use osrm_operator.Reconcile.Realised.Returned.{save-ok}

-- What is documented of a custom resource with a status subresource: the server holds a phase, which
-- updates of the status alone change, and what an update of the resource returns has the phase held.
pub record StatusLawful (c : Client) {S : Type 0} (o : Owner (c.World) S)
    (objects : ObjectStore (c.World)) (held : c.World → Phase) : Type 0 where
  pub update_returns :
      (r r' : Resource S) (w : c.World) → (o.update r w).0 ≡ ok r' → r'.status.phase ≡ held w
  pub status_returns :
      (r r' : Resource S) (w : c.World)
      → (o.update_status r w).0 ≡ ok r'
      → r'.status.phase ≡ r.status.phase
  pub status_holds :
      (r r' : Resource S) (w : c.World)
      → (o.update_status r w).0 ≡ ok r'
      → held (o.update_status r w).1 ≡ r.status.phase
  pub object_holds :
      (x : Object) (f : Object → Result Object) (w : c.World)
      → held (objects.create_or_update x f w).1 ≡ held w

phase_eq_sound : (p q : Phase) → phase_eq p q ≡ true → p ≡ q
phase_eq_sound building_map building_map h = refl
phase_eq_sound updating_map updating_map h = refl
phase_eq_sound redeploying_workers redeploying_workers h = refl
phase_eq_sound deploying_workers deploying_workers h = refl
phase_eq_sound workers_deployed workers_deployed h = refl
phase_eq_sound workers_redeployed workers_redeployed h = refl
phase_eq_sound deleting deleting h = refl
phase_eq_sound empty empty h = refl
phase_eq_sound _ _ h = absurd (cc)

save-state :
    {W S : Type 0} (call : Resource S → W → Result (Resource S) × W) (r : Resource S) (w : W)
    (r' : Resource S) (w' : W)
    → save call (r, w) ≡ (ok tt, (r', w'))
    → (call r w).1 ≡ w'
save-state {W} {S} call r w r' w' h = go (call r w).0 (call r w).1 h
  where
    go :
        (x : Result (Resource S)) (v : W) → save (λ _ _. (x, v)) (r, w) ≡ (ok tt, (r', w')) → v ≡ w'
    go (ok r1) v e = ap (λ x. x.1.1) e
    go (err error) v e = ap (λ x. x.1.1) e
    go panic v e = ap (λ x. x.1.1) e

module _ (c : Client) {S D : Type 0} (o : Owner (c.World) S) (controller : Controller (c.World) S D)
    (objects : ObjectStore (c.World)) (held : c.World → Phase)
    (status : StatusLawful c o objects held) where
  open c use {World}

  -- Where the phase is stored, the server holds it.
  pub set_phase-held :
      (phase : Phase) (r r' : Resource S) (w w' : World)
      → held w ≡ r.status.phase
      → set_phase c o controller objects phase (r, w) ≡ (ok tt, (r', w'))
      → held w' ≡ phase
  unfolding set_phase
  set_phase-held phase r r' w w' agree h = go (phase_eq r.status.phase phase) refl h
    where
      go :
          (same : Bool)
          → phase_eq r.status.phase phase ≡ same
          → (if same then lift (ok tt) else modify (entering phase) >> save o.update_status) (r, w)
            ≡ (ok tt, (r', w'))
          → held w' ≡ phase
      go true s e = sym (ap (λ x. held x.1.1) e) ∙ agree ∙ phase_eq_sound r.status.phase phase s
      go false s e =
          sym (ap held (save-state o.update_status (entering phase r w) w r' w' e))
          ∙ status.status_holds (entering phase r w) r' w
              (save-ok o.update_status (entering phase r w) w r' w' e)

  -- Applying builders leaves the phase held.
  pub Applied-held :
      {children : List Object} {r : Resource S} {bs : List ResourceBuilder} {w w' : World}
      → Applied c o controller objects children r bs w w'
      → held w' ≡ held w
  Applied-held applied_none = refl
  Applied-held (applied_next {object = x} {w = w} made stored rest) =
      Applied-held rest ∙ status.object_holds x _ w

  -- Where the spec is noted, the resource comes back with the phase held.
  pub noted-held :
      (r a : Resource S) (w v : World) (key : Text)
      → apply_last_spec_annotation o key (r, w) ≡ (ok tt, (a, v))
      → a.status.phase ≡ held w
  unfolding apply_last_spec_annotation
  noted-held r a w v key h = go (o.marshal r.spec) h
    where
      go :
          (json : Result Text)
          → (lift (wrap_result (codes "failed to marshal spec") json)
                >>= (λ json'. modify (annotated key json') >> save o.update))
              (r, w)
            ≡ (ok tt, (a, v))
          → a.status.phase ≡ held w
      go (ok json) e =
          status.update_returns (annotated key json r w) a w
            (save-ok o.update (annotated key json r w) w a v e)
      go (err error) e = absurd (cc)
      go panic e = absurd (cc)
