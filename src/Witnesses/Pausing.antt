-- ===== src/Witnesses/Pausing.antt =====
-- A resource that is paused on a server that stores its status.
use osrm_operator.Base.{false, ◌≡◌, refl, sym, ap, Result, ok, err, panic}
use osrm_operator.Text.{codes}
use osrm_operator.Api.{Status, workers_deployed, Resource, ClusterSpec}
use osrm_operator.Client.{◌>>◌}
use osrm_operator.Owner.{Owner, modify, update_resource}
use osrm_operator.Reconcile.{suspended}
use osrm_operator.Reconcile.Pause.{Subresource, update_resource-suspended}
use osrm_operator.Witnesses.{cluster}

-- The state of the server is the stored status.
unfoldable keeper : Owner Status ClusterSpec
keeper = record {
  fetch_owner = λ namespace name w. (ok (record (cluster workers_deployed) { status = w }), w);
  update = λ r w. (ok (record r { status = w }), w);
  update_status = λ r w. (ok r, r.status);
  contains_finalizer = λ name names. false;
  add_finalizer = λ name names. names;
  remove_finalizer = λ name names. names;
  marshal = λ spec. ok (codes "spec");
  unmarshal = λ json. ok (cluster workers_deployed).spec;
  error_text = λ e. codes "failed";
  now = λ w. 7;
}

abbrev status_or : Status → Result (Resource ClusterSpec) → Status
status_or s (ok r) = r.status
status_or s (err e) = s
status_or s panic = s

keeper-Subresource : Subresource keeper (λ w. w)
unfolding keeper
keeper-Subresource = record {
  update_returns = λ r r' w e. ap (status_or w) (sym e);
  update_status_returns = λ r r' w e. ap (status_or w) (sym e);
}

abbrev stored : Status
stored = (cluster workers_deployed).status

update_resource-suspended_example :
    ((modify suspended >> update_resource keeper)
      (cluster workers_deployed, stored)).1.0.status.paused
    ≡ false
unfolding keeper update_resource
update_resource-suspended_example =
    update_resource-suspended keeper (λ w. w) keeper-Subresource (cluster workers_deployed) stored
      refl
