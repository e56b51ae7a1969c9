-- ===== src/Tests/Sync/Runs.antt =====
-- Runs of the reconciler.
use mathlib.Core.List.{append_assoc}
use rancid_syncer.Base.{
  String, ◌≡◌, refl, ◌∙◌, List, [], ◌∷◌, ◌++◌, true, false, ◌⊎◌, inl, All, All-append,
}
use rancid_syncer.Base.Outcome.{Error, Outcome, ok, ok-injective, err, panic, failure}
use rancid_syncer.Kube.{ObjectKey, object_key, new_meta, ServiceMonitor, Prometheus}
use rancid_syncer.Federate.Client.{Client}
use rancid_syncer.Federate.Copy.{change_service_monitor, metric_namespaces}
use rancid_syncer.Federate.Write.{
  new_service_monitor, copy_service_monitor, update_service_monitor_labels,
}
use rancid_syncer.Federate.Reconcile.{
  conflicts, is_default_prometheus, reconcile, sync_project, sync_prometheuses, sync_default,
  sync_services, sync_secrets,
}
use rancid_syncer.Federate.Reconcile.Runs.{AreVisits}
use rancid_syncer.Federate.Reconcile.Collected.{sync_prometheuses-AreVisits}
use rancid_syncer.Federate.Reconcile.Copies.{reconcile_copied}
use rancid_syncer.Federate.Reconcile.Writes.Frame.{IsFrame}
use rancid_syncer.Federate.Reconcile.Writes.{reconcile-Keeps}
use rancid_syncer.Federate.Requests.{service_monitors_for_service, ns_matches, contains}
use rancid_syncer.Federate.Requests.Laws.{AreRequested, service_monitors_for_service_lem}
use rancid_syncer.Tests.Machine.{machine}
use rancid_syncer.Tests.Sync.World.{
  World, assign, logged, stored, find_monitor, client, client-IsPatching, own, service, source,
  default, project, prometheus,
}

abbrev start : World
start = record { patched = []; monitors = source ∷ [] }

-- Every patch between the two states was in the namespace `p1` or of the source's key.
abbrev InProject : String → Type 0
InProject ns = ns ≡ "p1"

abbrev IsWritten : ObjectKey → Type 0
IsWritten key = (InProject key.namespace) ⊎ (key ≡ own)

abbrev Writes : World → World → Type 0
Writes v w = (more : List ObjectKey) × (w.patched ≡ more ++ v.patched) × All IsWritten more

Writes-chain : (u v w : World) → Writes u v → Writes v w → Writes u w
Writes-chain u v w (m, e, p) (n, f, q) =
    (n ++ m, f ∙ rw (e, append_assoc), All-append IsWritten n m q p)

monitors-Writes :
    (obj : ServiceMonitor) (r : Outcome ServiceMonitor) (w : World)
    → IsWritten (object_key obj.meta)
    → Writes w (stored r (logged obj.meta w))
monitors-Writes obj (ok m) w p = (object_key obj.meta ∷ [], refl, (p, tt))
monitors-Writes obj (err e) w p = (object_key obj.meta ∷ [], refl, (p, tt))
monitors-Writes obj (panic e) w p = (object_key obj.meta ∷ [], refl, (p, tt))

frame : IsFrame client InProject own Writes
frame = record {
  same = λ s. ([], refl, tt);
  chain = Writes-chain;
  monitors = λ obj change s p.
      monitors-Writes obj (assign (λ (m : ServiceMonitor). m.meta) obj change) s p;
  services = λ obj change s p. (object_key obj.meta ∷ [], refl, (inl p, tt));
  endpoints = λ obj change s p. (object_key obj.meta ∷ [], refl, (inl p, tt));
  secrets = λ obj change s p. (object_key obj.meta ∷ [], refl, (inl p, tt));
}

default-is_default : is_default_prometheus default ≡ true
unfolding is_default_prometheus
default-is_default = refl

project-not_default : is_default_prometheus project ≡ false
unfolding is_default_prometheus
project-not_default = refl

source_found :
    (m : ServiceMonitor) → client.get_service_monitor own start ≡ ok m → object_key m.meta ≡ own
unfolding find_monitor
source_found m h = rw (← ok-injective h) refl

projects_allowed :
    (t : World) (items : List Prometheus)
    → client.list_prometheuses t ≡ ok items
    → All
        (λ (prom : Prometheus). is_default_prometheus prom ≡ false → InProject prom.meta.namespace)
        items
projects_allowed t items h = rw (← ok-injective h) (λ e. cc (default-is_default), ((λ e. refl), tt))

reconcile-Keeps_example : Writes start (reconcile machine client own start).1
reconcile-Keeps_example =
    reconcile-Keeps machine client InProject own Writes frame client-IsPatching start source_found
      projects_allowed

abbrev copy : ServiceMonitor
copy =
    change_service_monitor client project
      (metric_namespaces machine (record { meta = new_meta "app" "" } ∷ [])) source
      (new_service_monitor "web" "p1")

source_copied : (copy_service_monitor machine client project source start).0 ≡ ok copy
unfolding copy_service_monitor change_service_monitor assign
source_copied = refl

abbrev later : World
later = record { patched = []; monitors = copy ∷ [] }

copy_found : client.get_service_monitor (record { namespace = "p1"; name = "web" }) later ≡ ok copy
unfolding find_monitor change_service_monitor
copy_found = refl

reconcile_copied_example :
    reconcile machine client (record { namespace = "p1"; name = "web" }) later ≡ (ok [], later)
reconcile_copied_example =
    reconcile_copied machine client client-IsPatching project source copy start later
      (record { namespace = "p1"; name = "web" }) source_copied copy_found

abbrev request : ObjectKey
request = record { namespace = "app"; name = "web" }

free : All (λ prom. conflicts request prom ≡ false) (default ∷ project ∷ [])
unfolding conflicts is_default_prometheus
free = (refl, (refl, tt))

-- The cluster, when it refuses to patch a ServiceMonitor.
abbrev refusing : Client
refusing = record client { patch_service_monitor = λ obj change w. (err (failure "refused"), w) }

refused :
    (update_service_monitor_labels machine refusing default source start).0
    ≡ err (failure "refused")
unfolding update_service_monitor_labels
refused = refl

conflicting : conflicts request (prometheus "prometheus" "app") ≡ true
unfolding conflicts is_default_prometheus
conflicting = refl

not_copied :
    copy_service_monitor machine refusing project source start ≡ (err (failure "refused"), start)
unfolding copy_service_monitor
not_copied = refl

abbrev refusal : Error
refusal = failure "refused"

synced :
    sync_prometheuses machine refusing request [] [] [] source (default ∷ project ∷ []) start
    ≡ (ok (refusal ∷ refusal ∷ []), start)
unfolding sync_prometheuses sync_default sync_project sync_services sync_secrets conflicts
    is_default_prometheus copy_service_monitor update_service_monitor_labels
synced = refl

sync_prometheuses-AreVisits_example :
    (more : List Error) × AreVisits machine refusing [] [] source
      (default ∷ project ∷ [])
      start
      more
      start
    × (refusal ∷ refusal ∷ [] ≡ [] ++ more)
sync_prometheuses-AreVisits_example =
    sync_prometheuses-AreVisits machine refusing [] [] request (default ∷ project ∷ []) []
      (refusal ∷ refusal ∷ []) source start start free synced

selected_example :
    (keys : List ObjectKey) × (service_monitors_for_service client service.meta start ≡ ok keys)
    × AreRequested client service.meta (source ∷ []) keys
selected_example =
    service_monitors_for_service_lem client service.meta start (source ∷ []) refl
      ((λ e. (tt, refl)), tt)

-- A ServiceMonitor with a selector that is refused.
abbrev invalid : ServiceMonitor
invalid = record source {
  spec = record source.spec {
    selector = record {
      match_labels = [];
      match_expressions = record { key = "app"; operator = "Like"; values = [] } ∷ [];
    };
  };
}

invalid_near : ns_matches invalid "app" ≡ true
unfolding ns_matches contains
invalid_near = refl

abbrev three : World
three = record { patched = []; monitors = source ∷ invalid ∷ source ∷ [] }
