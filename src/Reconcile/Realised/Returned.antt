-- ===== src/Reconcile/Realised/Returned.antt =====
-- What stays of a resource when it is sent to the server and comes back.
use osrm_operator.Base.{
  Bool, true, false, ◌≡◌, refl, sym, ◌∙◌, ap, Result, ok, err, panic, if◌then◌else◌,
}
use osrm_operator.Text.{Text, codes}
use osrm_operator.Api.{phase_eq, Phase, Resource}
use osrm_operator.Client.{Client, wrap_result, lift, ◌>>=◌, ◌>>◌}
use osrm_operator.Owner.{Owner, modify, save, annotated, apply_last_spec_annotation}
use osrm_operator.Kube.{Kind}
use osrm_operator.Client.Lawful.{Lawful}
use osrm_operator.Owner.Outcomes.{OwnerLawful, save_status-Spares}
use osrm_operator.Reconcile.{Controller, ObjectStore, entering, set_phase}

-- What is documented of the calls on the resource itself: they return it with its name, namespace and
-- spec as they were sent.
pub record ReturnsLawful (c : Client) {S : Type 0} (o : Owner (c.World) S) : Type 0 where
  pub update_identity :
      (r r' : Resource S) (w : c.World)
      → (o.update r w).0 ≡ ok r'
      → (r'.meta.name ≡ r.meta.name) × (r'.meta.namespace ≡ r.meta.namespace)
  pub status_spec :
      (r r' : Resource S) (w : c.World) → (o.update_status r w).0 ≡ ok r' → r'.spec ≡ r.spec
  pub update_spec : (r r' : Resource S) (w : c.World) → (o.update r w).0 ≡ ok r' → r'.spec ≡ r.spec

pub save-ok :
    {W S : Type 0} (call : Resource S → W → Result (Resource S) × W) (r : Resource S) (w : W)
    (r' : Resource S) (w' : W)
    → save call (r, w) ≡ (ok tt, (r', w'))
    → (call r w).0 ≡ ok r'
save-ok {W} {S} call r w r' w' h = go (call r w).0 (call r w).1 h
  where
    go :
        (x : Result (Resource S)) (v : W)
        → save (λ _ _. (x, v)) (r, w) ≡ (ok tt, (r', w'))
        → x ≡ ok r'
    go (ok r1) v e = ap (λ x. ok x.1.0) e
    go (err error) v e = absurd (cc)
    go panic v e = absurd (cc)

module _ (c : Client) {S D : Type 0} (o : Owner (c.World) S) (controller : Controller (c.World) S D)
    (objects : ObjectStore (c.World)) (returns : ReturnsLawful c o) where
  open c use {World}

  -- Where the phase is stored, the resource has the metadata and the spec that it had.
  pub set_phase-same :
      (phase : Phase) (r r' : Resource S) (w w' : World)
      → ((x y : Resource S) (v : World) → (o.update_status x v).0 ≡ ok y → y.meta ≡ x.meta)
      → set_phase c o controller objects phase (r, w) ≡ (ok tt, (r', w'))
      → (r'.meta ≡ r.meta) × (r'.spec ≡ r.spec)
  unfolding set_phase
  set_phase-same phase r r' w w' status_meta h = go (phase_eq r.status.phase phase) h
    where
      go :
          (same : Bool)
          → (if same then lift (ok tt) else modify (entering phase) >> save o.update_status) (r, w)
            ≡ (ok tt, (r', w'))
          → (r'.meta ≡ r.meta) × (r'.spec ≡ r.spec)
      go true e = (sym (ap (λ x. x.1.0.meta) e), sym (ap (λ x. x.1.0.spec) e))
      go false e =
          let stored = save-ok o.update_status (entering phase r w) w r' w' e in
          (
            status_meta (entering phase r w) r' w stored,
            returns.status_spec (entering phase r w) r' w stored,
          )

  -- Where the spec is noted, the resource has the name, the namespace and the spec that it had.
  pub noted-same :
      (r a : Resource S) (w v : World) (key : Text)
      → apply_last_spec_annotation o key (r, w) ≡ (ok tt, (a, v))
      → (a.meta.name ≡ r.meta.name) × (a.meta.namespace ≡ r.meta.namespace) × (a.spec ≡ r.spec)
  unfolding apply_last_spec_annotation
  noted-same r a w v key h = go (o.marshal r.spec) h
    where
      go :
          (json : Result Text)
          → (lift (wrap_result (codes "failed to marshal spec") json)
                >>= (λ json'. modify (annotated key json') >> save o.update))
              (r, w)
            ≡ (ok tt, (a, v))
          → (a.meta.name ≡ r.meta.name) × (a.meta.namespace ≡ r.meta.namespace) × (a.spec ≡ r.spec)
      go (ok json) e =
          let noted = annotated key json r w in
          let stored = save-ok o.update noted w a v e in
          let (name, namespace) = returns.update_identity noted a w stored in
          (name, namespace, returns.update_spec noted a w stored)
      go (err error) e = absurd (cc)
      go panic e = absurd (cc)

module _ (c : Client) {S D : Type 0} (o : Owner (c.World) S) (controller : Controller (c.World) S D)
    (objects : ObjectStore (c.World)) (namespace owner : Text) (laws : Lawful c namespace owner)
    (owner_laws : OwnerLawful c S o namespace owner laws) where
  open c use {World}
  open laws use {child}

  -- Storing the phase touches no child.
  pub set_phase-untouched :
      (phase : Phase) (r r' : Resource S) (w w' : World)
      → set_phase c o controller objects phase (r, w) ≡ (ok tt, (r', w'))
      → (k : Kind) (n : Text) → child w' k n ≡ child w k n
  unfolding set_phase
  set_phase-untouched phase r r' w w' h k n =
      sym (ap (λ x. child x.1.1 k n) h) ∙ go (phase_eq r.status.phase phase)
    where
      go :
          (same : Bool)
          → child
              ((if same then lift (ok tt) else modify (entering phase) >> save o.update_status)
                (r, w)).1.1
              k
              n
            ≡ child w k n
      go true = refl
      go false =
          (save_status-Spares c o namespace owner laws owner_laws).spared (entering phase r w, w) k
            n
