-- ===== src/Contents/Rollout.antt =====
-- Which changes of the resource change the pods of the workers, and which do not.
use osrm_operator.Base.{◌≤◌, List, [], ◌∷◌, Option, none, some, ◌≡◌, ◌≢◌, refl, sym, ap, ok}
use mathlib.Core.List.{reverse, Perm, reverse_perm, append_cancel_left, append_cancel_right}
use osrm_operator.Base.Int.{ℤ}
use osrm_operator.Text.{Text, codes, replace_all}
use osrm_operator.Dict.{Dict}
use osrm_operator.Kube.{as_cron_job, PodTemplate, Object, Deployment}
use osrm_operator.Api.{ProfileSpec, OsrmRoutedOptions}
use osrm_operator.Api.Defaults.{ResourceInstance, get_profile, to_string}
use osrm_operator.Api.Defaults.Flags.{set_count, to_string-order}
use osrm_operator.Contents.{visiting, Environment, relabelled, adopt, component_profile}
use osrm_operator.Contents.Wiring.{update_deployment-writes}
use osrm_operator.Contents.Workers.{
  worker_labels, set_worker_annotations, annotate_traffic, worker_script, worker_container,
  worker_template, update_deployment,
}

abbrev script_of : PodTemplate → Text
script_of t = elim t.containers [
  | [] ↦ []
  | c ∷ cs ↦ elim c.args [ [] ↦ [] | script ∷ args ↦ script ]
]

module _ (e : Environment) (i : ResourceInstance) (p : ProfileSpec) (g : Text) where
  abbrev pub with_order : (Dict Text → Dict Text) → Environment
  with_order f = visiting f e

  scripts-differ :
      (f f' : Dict Text → Dict Text)
      → worker_script (with_order f) i p g ≡ worker_script (with_order f') i p g
      → to_string f p.osrm_routed_options ≡ to_string f' p.osrm_routed_options
  unfolding worker_script
  scripts-differ f f' h =
      let head : Text =
        codes "\n\t\t\t\t\t\t\tcd /data/customized && \\\n\t\t\t\t\t\t\tosrm-routed " in
      let file = replace_all i.pbf_file_name (codes "osm.pbf") (codes "osrm") in
      let options = λ (x : Dict Text → Dict Text). to_string x p.osrm_routed_options in
      let end : Text = codes "\n\t\t\t\t\t\t" in
      append_cancel_right (options f) (options f') end (
        append_cancel_left (codes " --algorithm mld ") _ _
          (append_cancel_left file _ _ (append_cancel_left head _ _ h)))

  -- Where two or more of the routing options are set, the order in which `range` visits a map decides
  -- what the pods of the workers are: there are two orders of the same entries for which the template
  -- of the pods differs, though neither the resource nor the builder does.
  pub worker_template-order :
      (o : OsrmRoutedOptions)
      → p.osrm_routed_options ≡ some o
      → 2 ≤ set_count o
      → ((m : Dict Text) → Perm (reverse m) m)
        × (worker_template (with_order (λ m. m)) i p g ≢ worker_template (with_order reverse) i p g)
  unfolding worker_template worker_container
  worker_template-order o has many = (
    λ m. reverse_perm m,
    λ h. to_string-order o many (rw has at (scripts-differ (λ m. m) reverse (ap script_of h))),
  )

  annotations-replicas :
      (wanted : Option ℤ) (siblings : List Object) (annotations : Dict Text)
      → set_worker_annotations e i (record p { replicas = wanted }) g siblings annotations
        ≡ set_worker_annotations e i p g siblings annotations
  unfolding set_worker_annotations annotate_traffic
  annotations-replicas wanted [] annotations = refl
  annotations-replicas wanted (o ∷ siblings) annotations =
      annotations-replicas wanted siblings (elim (as_cron_job o) [
        | none ↦ annotations
        | some cron ↦ annotate_traffic e i p g cron annotations
      ])

  -- An update of the workers writes the same whatever number of replicas the profile asks for, and
  -- leaves the number that the deployment has.
  pub update_deployment-replicas :
      (wanted : Option ℤ) (siblings : List Object) (d : Deployment)
      → (update_deployment e i (record p { replicas = wanted }) g siblings d
          ≡ update_deployment e i p g siblings d)
        × ((d' : Deployment)
            → update_deployment e i p g siblings d ≡ ok d'
            → d'.spec_replicas ≡ d.spec_replicas)
  unfolding update_deployment worker_template worker_container worker_script worker_labels
      get_profile
  update_deployment-replicas wanted siblings d = (
    ap
        (λ a. adopt i e (relabelled i component_profile d.meta) (λ m. ok (record d {
          meta = m;
          selector = some (worker_labels e i p g);
          template = record (worker_template e i p g) { annotations = a };
        })))
        (annotations-replicas wanted siblings []),
    λ d' h.
        let (m, written) = update_deployment-writes e i p g siblings d d' h in
        sym (ap (λ x. x.spec_replicas) written),
  )
