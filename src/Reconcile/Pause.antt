-- ===== src/Reconcile/Pause.antt =====
-- What becomes of `Status.Paused` when a resource is paused.
use osrm_operator.Base.{◌≡◌, refl, ◌∙◌, ap, Result, ok, err, panic}
use osrm_operator.Api.{Status, Resource}
use osrm_operator.Client.{◌>>◌}
use osrm_operator.Client.Rules.{>>=-ok}
use osrm_operator.Owner.{Owner, modify, save, observed, update_resource}
use osrm_operator.Reconcile.{suspended}

-- What is documented of a resource whose status is a subresource: an update that succeeds leaves the
-- status that is stored and returns it, and a status update that succeeds stores the status sent.
pub record Subresource {W S : Type 0} (o : Owner W S) (stored : W → Status) : Type 0 where
  pub update_returns : (r r' : Resource S) (w : W) → (o.update r w).0 ≡ ok r' → r'.status ≡ stored w
  pub update_status_returns :
      (r r' : Resource S) (w : W) → (o.update_status r w).0 ≡ ok r' → r'.status ≡ r.status

module _ {W S : Type 0} where
  save-ok :
      (call : Resource S → W → Result (Resource S) × W) (s : Resource S × W)
      → (save call s).0 ≡ ok tt
      → (r' : Resource S) × ((call s.0 s.1).0 ≡ ok r') × ((save call s).1 ≡ (r', (call s.0 s.1).1))
  save-ok call (r, w) h = go (call r w).0 (call r w).1 h
    where
      go :
          (x : Result (Resource S)) (w' : W)
          → (save (λ _ _. (x, w')) (r, w)).0 ≡ ok tt
          → (r' : Resource S) × (x ≡ ok r') × ((save (λ _ _. (x, w')) (r, w)).1 ≡ (r', w'))
      go (ok r') w' h' = (r', refl, refl)
      go (err e) w' h' = absurd (cc)
      go panic w' h' = absurd (cc)

  -- Where pausing a resource succeeds, its status says paused exactly if the stored status said so
  -- before: the mark that is set is lost, because the update that comes first returns the stored
  -- status.
  pub update_resource-suspended :
      (o : Owner W S) (stored : W → Status)
      → Subresource o stored
      → (r : Resource S) (w : W) → ((modify suspended >> update_resource o) (r, w)).0 ≡ ok tt
      → ((modify suspended >> update_resource o) (r, w)).1.0.status.paused ≡ (stored w).paused
  unfolding update_resource
  update_resource-suspended o stored laws r w h =
      let s : Resource S × W = (suspended r w, w) in
      let (u, updated, rest, state) =
        >>=-ok (save o.update) (λ _. modify observed >> save o.update_status) s tt h in
      let (r', returned, state') = save-ok o.update s updated in
      let s' = (save o.update s).1 in
      let sent = observed s'.0 s'.1 in
      let (r'', returned', state'') = save-ok o.update_status (sent, s'.1) rest in
      ap (λ x. x.0.status.paused) (state ∙ state'')
      ∙ ap (λ x. x.paused) (laws.update_status_returns sent r'' s'.1 returned')
      ∙ ap (λ x. x.0.status.paused) state'
      ∙ ap (λ x. x.paused) (laws.update_returns s.0 r' w returned)
