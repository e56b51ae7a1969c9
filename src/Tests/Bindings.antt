-- ===== src/Tests/Bindings.antt =====
-- The service and the AppBinding of a Prometheus.
use rancid_syncer.Base.{ℕ, String, ◌≡◌, refl, [], ◌∷◌, none, true}
use rancid_syncer.Base.Outcome.{ok}
use rancid_syncer.Kube.{ObjectKey, Prometheus, Service, ServicePort, from_int, new_meta}
use rancid_syncer.Setup.{AppBinding, Server, find_service_for_prometheus, first_exposed}

abbrev key : ObjectKey
key = record { namespace = "mon"; name = "main" }

abbrev port : String → ℕ → ServicePort
port name number = record {
  name = name;
  protocol = "";
  port = number;
  target_port = from_int number;
  node_port = 0;
}

abbrev pub service : String → String → Service
service name ip = record {
  meta = new_meta name "mon";
  type = "";
  cluster_ip = ip;
  ports = port "http-web" 9090 ∷ port "reloader-web" 8080 ∷ [];
}

abbrev server : Server
server = record {
  State = Unit {0};
  labels_for_selector = λ sel. [];
  marshal = λ presets. ok "{}";
  exposing_services = λ k s. ok (service "operated" "None" ∷ service "main" "10.0.0.9" ∷ []);
  patch_cluster_chart_preset = λ obj change s. (ok tt, s);
  patch_chart_preset = λ obj change s. (ok tt, s);
  patch_app_binding = λ obj change s. (ok true, s);
}

found : find_service_for_prometheus server key tt ≡ ok (service "main" "10.0.0.9")
unfolding find_service_for_prometheus first_exposed
found = refl

abbrev pub prometheus : Prometheus
prometheus = record {
  meta = new_meta "main" "mon";
  service_monitor_selector = none;
  service_monitor_namespace_selector = none;
  rule_selector = none;
  external_url = "";
}

abbrev binding : AppBinding
binding = record {
  meta = new_meta "default-prometheus" "mon";
  type = "";
  app_ref = none;
  service = none;
}
