-- ===== src/Federate/Requests.antt =====
-- `ServiceMonitorsForService` and `ServiceMonitorsForPrometheus`: which reconcile requests an event
-- causes. An error of the list call is logged, and the result is nil.
pub mod Laws
use rancid_syncer.Base.{
  String, List, [], ◌∷◌, ◌++◌, map, Bool, true, false, ◌||◌, some, ◌==◌, if◌then◌else◌,
}
use rancid_syncer.Base.Outcome.{Outcome, ok, err, panic}
use rancid_syncer.Kube.{Labels, ObjectKey, ObjectMeta, object_key, ServiceMonitor}
use rancid_syncer.Federate.Client.{Client}
use rancid_syncer.Federate.Copy.{prometheus_key}
use rancid_syncer.Federate.Reconcile.{federated_value}

unfoldable pub contains : List String → String → Bool
contains [] x = false
contains (s ∷ arr) x = if s == x then true else contains arr x

-- The label that both functions list by.
abbrev pub federated_labels : Labels
federated_labels = (prometheus_key, federated_value) ∷ []

-- `nsMatches`
unfoldable pub ns_matches : ServiceMonitor → String → Bool
unfolding contains
ns_matches m namespace =
    m.spec.namespace_selector.any || contains m.spec.namespace_selector.match_names namespace

abbrev pub key_of : ServiceMonitor → ObjectKey
key_of m = object_key m.meta

module _ (c : Client) where
  -- The loop, with the requests that were appended so far. A selector that is not valid ends it
  -- with nil.
  unfoldable pub requests_loop :
      ObjectMeta → List ObjectKey → List ServiceMonitor → Outcome (List ObjectKey)
  unfolding ns_matches
  requests_loop obj req [] = ok req
  requests_loop obj req (m ∷ items) =
      let skipped = requests_loop obj req items in
      let selected = λ (sel : c.Selector).
        requests_loop obj (if c.matches sel obj.labels then req ++ key_of m ∷ [] else req) items in
      if ns_matches m obj.namespace
      then (elim (c.as_selector (some m.spec.selector)) [
        | ok sel ↦ selected sel
        | err e ↦ ok []
        | panic msg ↦ panic msg
      ])
      else skipped

  unfoldable pub service_monitors_for_service : ObjectMeta → c.State → Outcome (List ObjectKey)
  unfolding requests_loop
  service_monitors_for_service obj s = elim (c.list_service_monitors federated_labels s) [
    | ok items ↦ requests_loop obj [] items
    | err e ↦ ok []
    | panic msg ↦ panic msg
  ]

  unfoldable pub service_monitors_for_prometheus : c.State → Outcome (List ObjectKey)
  service_monitors_for_prometheus s = elim (c.list_service_monitors federated_labels s) [
    | ok items ↦ ok (map key_of items)
    | err e ↦ ok []
    | panic msg ↦ panic msg
  ]
