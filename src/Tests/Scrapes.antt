-- ===== src/Tests/Scrapes.antt =====
-- The ServiceMonitor of panopticon on the cluster of the federation.
use rancid_syncer.Base.{String, false, ◌≡◌, refl, List, [], ◌∷◌}
use rancid_syncer.Base.Dict.{lookup}
use rancid_syncer.Base.Outcome.{ok}
use rancid_syncer.Kube.{object_key, new_meta, Namespace, ServiceMonitor}
use rancid_syncer.Federate.Write.{new_service_monitor}
use rancid_syncer.Panopticon.{
  Namespaces, list_project_namespaces, change_panopticon_monitor, create_service_monitor,
}
use rancid_syncer.Panopticon.Scope.{IsScope, AreEndpoints, create_service_monitor_lem}
use rancid_syncer.Tests.Machine.{machine, machine-IsRuntime, insertion_sort, insert_sorted}
use rancid_syncer.Tests.Sync.World.{World, assign, client, client-IsPatching, service, project}

abbrev labelled : String → Namespace
labelled name = record {
  meta = record (new_meta name "") { labels = ("field.cattle.io/projectId", "p-1") ∷ [] };
}

abbrev namespaces : Namespaces client
namespaces = record {
  get_namespace = λ name w. ok (labelled name);
  list_by_labels = λ labels w. ok (labelled "shop" ∷ labelled "p1" ∷ []);
}

abbrev start : World
start = record { patched = []; monitors = [] }

listed : list_project_namespaces machine client namespaces "p1" start ≡ ok ("p1" ∷ "shop" ∷ [])
unfolding list_project_namespaces lookup insertion_sort insert_sorted
listed = refl

abbrev created : ServiceMonitor
created =
    change_panopticon_monitor machine client namespaces project service ("p1" ∷ "shop" ∷ [])
      (new_service_monitor "web" "p1")

monitor_created :
    (create_service_monitor machine client namespaces project service start).0 ≡ ok created
unfolding create_service_monitor list_project_namespaces lookup insertion_sort insert_sorted assign
    change_panopticon_monitor
monitor_created = refl

create_service_monitor_example :
    (object_key created.meta ≡ record { namespace = "p1"; name = "web" })
    × (created.spec.namespace_selector ≡ record { any = false; match_names = "app" ∷ [] })
    × (created.spec.selector.match_labels ≡ [])
    × (names : List String) × IsScope machine client namespaces project names start
    × AreEndpoints machine client namespaces service names created.spec.endpoints
create_service_monitor_example =
    create_service_monitor_lem machine client namespaces client-IsPatching machine-IsRuntime project
      service start created monitor_created
