-- ===== src/Tests/Mains.antt =====
-- A run of main.go on the cluster of the projects.
use rancid_syncer.Base.{◌≡◌, [], ◌∷◌}
use rancid_syncer.Base.Outcome.{ok}
use rancid_syncer.Projects.Listing.{list_rancher_projects}
use rancid_syncer.Commands.Console.{World}
use rancid_syncer.Commands.Projects.{Session, projects_main}
use rancid_syncer.Commands.Projects.Ending.{EndsWith, projects_text, projects_main-EndsWith}
use rancid_syncer.Tests.Machine.{machine}
use rancid_syncer.Tests.Rancher.{cluster, alertmanager}
use rancid_syncer.Tests.Access.{Cluster, empty, server, access}

abbrev session : Session cluster server
session = record {
  view = λ s. alertmanager ∷ [];
  marshal_projects = λ projects. ok "- metadata: {}";
  marshal_config = λ cfg. ok "{}";
}

abbrev world : World Cluster
world = record { cluster = empty; printed = [] }

projects_main-EndsWith_example :
    ((projects_main machine cluster server access session world).1.cluster ≡ empty)
    × EndsWith
        (projects_text
          (list_rancher_projects machine cluster (alertmanager ∷ []))
          session.marshal_projects)
        ("Using kubebuilder client" ∷ [])
        (projects_main machine cluster server access session world).0
        (projects_main machine cluster server access session world).1.printed
projects_main-EndsWith_example = projects_main-EndsWith machine cluster server access session world
