-- ===== src/Contents/Stable/Kinds.antt =====
-- The update of each kind of object, done a second time, changes nothing.
use osrm_operator.Base.{
  List, [], ◌∷◌, Option, none, some, ◌≡◌, refl, sym, ◌∙◌, ap, Result, ok, deref,
}
use osrm_operator.Base.Int.{pos}
use osrm_operator.Text.{Text, codes}
use osrm_operator.Dict.{Dict, insert}
use osrm_operator.Kube.{
  ObjectMeta, Object, Autoscaler, CronJob, ConfigMap, Service, PersistentVolumeClaim, Job,
  Deployment, PodDisruptionBudget,
}
use osrm_operator.Metadata.{get_labels, reconcile_annotations}
use osrm_operator.Metadata.Again.{insert-there, lookup-insert_self, reconcile_annotations-again}
use osrm_operator.Metadata.Precedence.{HasDistinctKeys}
use osrm_operator.Api.{ProfileSpec, child_resource_name, get_min_available}
use osrm_operator.Api.Defaults.{ResourceInstance, get_type}
use osrm_operator.Builders.Autoscaler.{completed_autoscaler, update_autoscaler}
use osrm_operator.Contents.{Environment, component_profile, component_gateway, relabelled, adopt}
use osrm_operator.Contents.Adoption.{ReferenceLawful, relabelled-again, adopt-again}
use osrm_operator.Contents.Storage.{update_persistent_volume_claim}
use osrm_operator.Contents.MapJob.{update_job}
use osrm_operator.Contents.Workers.{
  worker_labels, worker_template, set_worker_annotations, update_deployment,
}
use osrm_operator.Contents.SpeedUpdates.{completed_cron_job, update_cron_job}
use osrm_operator.Contents.Exposure.{worker_ports, update_service, update_pod_disruption_budget}
use osrm_operator.Contents.Gateway.{
  nginx_configuration_template_name, gateway_template, set_gateway_annotations, update_config_map,
  annotated_by, gateway_ports, balancer_ip, set_service_annotations, update_gateway_service,
  update_gateway_deployment,
}
use osrm_operator.Contents.Nginx.{generate_nginx_conf}

-- The annotations that the resource gives to the gateway's service are a Go map.
abbrev pub AreAnnotations : Option (Dict Text) → Type 0
AreAnnotations none = Unit
AreAnnotations (some m) = HasDistinctKeys m

annotated-again :
    (o : Option (Dict Text))
    → AreAnnotations o
    → (labels : Dict Text) (m m' : ObjectMeta)
    → m' ≡ record (annotated_by o (record m { labels = labels })) { owners = m'.owners }
    → annotated_by o (record m' { labels = labels }) ≡ m'
annotated-again none d labels m m' h =
    ap (λ l. record m' { labels = l }) (sym (ap (λ x. x.labels) h))
annotated-again (some a) d labels m m' h =
    let same = ap (λ x. x.labels) h in
    let merged = ap (λ x. x.annotations) h in
    let again =
      ap (λ x. reconcile_annotations x (a ∷ [])) merged
      ∙ reconcile_annotations-again m.annotations a d
      ∙ sym merged in
    λ t. record m' { labels = sym same t; annotations = again t }

balancer_ip-again :
    (o : Option Text) (ip : Text) → balancer_ip o (balancer_ip o ip) ≡ balancer_ip o ip
balancer_ip-again none ip = refl
balancer_ip-again (some ip') ip = refl

deref-again :
    {A B : Type 0} (o : Option B) (f : B → A → Result A)
    → ((b : B) (x y : A) → f b x ≡ ok y → f b y ≡ ok y)
    → (x y : A) → deref o (λ b. f b x) ≡ ok y
    → deref o (λ b. f b y) ≡ ok y
deref-again none f again x y h = absurd (cc)
deref-again (some b) f again x y h = again b x y h

module _ (e : Environment) (i : ResourceInstance) (laws : ReferenceLawful e i.meta) where
  -- An update of which only the metadata depends on what the object was.
  labels-again :
      {A : Type 0} (component : Text) (meta_of : A → ObjectMeta) (complete : A → ObjectMeta → A)
      → ((x : A) (m : ObjectMeta) → meta_of (complete x m) ≡ m)
      → ((x : A) (m : ObjectMeta) → complete (complete x m) m ≡ complete x m)
      → (x y : A) → adopt i e (relabelled i component (meta_of x)) (λ m. ok (complete x m)) ≡ ok y
      → adopt i e (relabelled i component (meta_of y)) (λ m. ok (complete y m)) ≡ ok y
  labels-again component meta_of complete =
      adopt-again e i (relabelled i component) meta_of complete laws
        (relabelled-again e i laws component)

  pub update_persistent_volume_claim-again :
      (p : ProfileSpec) (g : Text) (x y : PersistentVolumeClaim)
      → update_persistent_volume_claim e i p g x ≡ ok y
      → update_persistent_volume_claim e i p g y ≡ ok y
  unfolding update_persistent_volume_claim
  update_persistent_volume_claim-again p g =
      labels-again component_profile (λ x. x.meta) (λ x m. record x { meta = m }) (λ x m. refl)
        (λ x m. refl)

  pub update_cron_job-again :
      (p : ProfileSpec) (g : Text) (x y : CronJob)
      → update_cron_job e i p g x ≡ ok y
      → update_cron_job e i p g y ≡ ok y
  unfolding update_cron_job
  update_cron_job-again p g =
      deref-again p.speed_updates
        (λ u c.
          adopt i e (relabelled i component_profile c.meta)
            (λ m. ok (completed_cron_job e i p g u c m)))
        (λ u.
          unfold completed_cron_job in
          labels-again component_profile (λ x. x.meta) (completed_cron_job e i p g u) (λ x m. refl)
            (λ x m. refl))

  pub update_job-again :
      (p : ProfileSpec) (g : Text) (x y : Job)
      → update_job e i p g x ≡ ok y
      → update_job e i p g y ≡ ok y
  unfolding update_job
  update_job-again p g =
      labels-again component_profile (λ x. x.meta) (λ x m. record x { meta = m }) (λ x m. refl)
        (λ x m. refl)

  pub update_deployment-again :
      (p : ProfileSpec) (g : Text) (siblings : List Object) (x y : Deployment)
      → update_deployment e i p g siblings x ≡ ok y
      → update_deployment e i p g siblings y ≡ ok y
  unfolding update_deployment
  update_deployment-again p g siblings =
      labels-again component_profile (λ x. x.meta)
        (λ x m. record x {
          meta = m;
          selector = some (worker_labels e i p g);
          template = record (worker_template e i p g) {
            annotations = set_worker_annotations e i p g siblings [];
          };
        })
        (λ x m. refl) (λ x m. refl)

  pub update_service-again :
      (p : ProfileSpec) (x y : Service)
      → update_service e i p x ≡ ok y
      → update_service e i p y ≡ ok y
  unfolding update_service
  update_service-again p =
      labels-again component_profile (λ x. x.meta)
        (λ x m. record x {
          meta = m;
          type = codes "ClusterIP";
          ports = worker_ports e i p;
          selector = (codes "app", child_resource_name i.meta p.name []) ∷ [];
        })
        (λ x m. refl) (λ x m. refl)

  pub update_pod_disruption_budget-again :
      (p : ProfileSpec) (x y : PodDisruptionBudget)
      → update_pod_disruption_budget e i p x ≡ ok y
      → update_pod_disruption_budget e i p y ≡ ok y
  unfolding update_pod_disruption_budget
  update_pod_disruption_budget-again p =
      labels-again component_profile (λ x. x.meta)
        (λ x m. record {
          meta = m;
          min_available = some (get_min_available p.min_replicas);
          selector = some ((codes "app", child_resource_name i.meta p.name []) ∷ []);
        })
        (λ x m. refl) (λ x m. refl)

  pub update_autoscaler-again :
      (p : ProfileSpec) (x y : Autoscaler)
      → update_autoscaler i.meta p (e.set_controller_reference i.meta) x ≡ ok y
      → update_autoscaler i.meta p (e.set_controller_reference i.meta) y ≡ ok y
  unfolding update_autoscaler adopt relabelled
  update_autoscaler-again p =
      deref-again p.max_replicas
        (λ high x.
          adopt i e (relabelled i component_profile x.meta)
            (λ m. ok (completed_autoscaler i.meta p high m)))
        (λ high.
          unfold completed_autoscaler in
          labels-again component_profile (λ x. x.meta) (λ x. completed_autoscaler i.meta p high)
            (λ x m. refl) (λ x m. refl))

  pub update_config_map-again :
      (ps : List ProfileSpec) (x y : ConfigMap)
      → update_config_map e i ps x ≡ ok y
      → update_config_map e i ps y ≡ ok y
  unfolding update_config_map
  update_config_map-again ps =
      let conf = generate_nginx_conf i.meta ps i.service.exposing_services in
      let key = nginx_configuration_template_name in
      labels-again component_gateway (λ x. x.meta)
        (λ x m. record { meta = m; contents = insert key conf x.contents }) (λ x m. refl)
        (λ x m.
          ap (λ c. record { meta = m; contents = c })
            (insert-there key conf (insert key conf x.contents)
              (lookup-insert_self key conf x.contents)))

  pub update_gateway_deployment-again :
      (ps : List ProfileSpec) (siblings : List Object) (x y : Deployment)
      → update_gateway_deployment e i ps siblings x ≡ ok y
      → update_gateway_deployment e i ps siblings y ≡ ok y
  unfolding update_gateway_deployment
  update_gateway_deployment-again ps siblings =
      labels-again component_gateway (λ x. x.meta)
        (λ x m. record x {
          meta = m;
          spec_replicas = some (pos 2);
          selector = some ((codes "app", child_resource_name i.meta [] []) ∷ []);
          template = record (gateway_template e i ps) {
            annotations = set_gateway_annotations e i ps siblings [];
          };
        })
        (λ x m. refl) (λ x m. refl)

  pub update_gateway_service-again :
      (ps : List ProfileSpec)
      → AreAnnotations i.service.annotations
      → (x y : Service) → update_gateway_service e i ps x ≡ ok y
      → update_gateway_service e i ps y ≡ ok y
  unfolding update_gateway_service
  update_gateway_service-again ps distinct =
      adopt-again e i (λ m. set_service_annotations e i ps (relabelled i component_gateway m))
        (λ x. x.meta)
        (λ x m. record {
          meta = m;
          type = get_type i.service;
          ports = gateway_ports e i ps;
          selector = (codes "app", child_resource_name i.meta [] []) ∷ [];
          load_balancer_ip = balancer_ip i.service.load_balancer_ip x.load_balancer_ip;
        })
        laws
        (λ m m' h.
          unfold set_service_annotations relabelled in
          annotated-again i.service.annotations distinct (get_labels i.meta component_gateway) m m'
            (laws.writes_owners _ m' h))
        (λ x m. refl)
        (λ x m.
          ap
            (λ ip. record {
              meta = m;
              type = get_type i.service;
              ports = gateway_ports e i ps;
              selector = (codes "app", child_resource_name i.meta [] []) ∷ [];
              load_balancer_ip = ip;
            })
            (balancer_ip-again i.service.load_balancer_ip x.load_balancer_ip))
