-- ===== src/Commands/Projects/Ending.antt =====
-- How main.go ends.
use rancid_syncer.Base.{String, ◌≡◌, refl, List, [], ◌∷◌, ◌++◌}
use rancid_syncer.Base.Outcome.{Outcome, ok, err, panic}
use rancid_syncer.Base.Runtime.{Runtime}
use rancid_syncer.Projects.Types.{Project, Cluster}
use rancid_syncer.Projects.Listing.{list_rancher_projects}
use rancid_syncer.Setup.{Server}
use rancid_syncer.Setup.Access.{Access}
use rancid_syncer.Commands.Console.{
  Finish, finished, exited, World, go_on, fatal, ◌>>=◌, lift, println, exit,
}
use rancid_syncer.Commands.Projects.{Session, show_preset_namespace, show_projects, projects_main}

-- The text of the projects, if they are listed and marshalled.
abbrev pub projects_text : Outcome (List Project) → (List Project → Outcome String) → Outcome String
projects_text (ok projects) marshal = marshal projects
projects_text (err e) marshal = err e
projects_text (panic m) marshal = panic m

-- Exit with status 1 after the text, and a panic otherwise.
abbrev pub EndsWith : Outcome String → List String → Finish (Unit {0}) → List String → Type 0
EndsWith (ok text) before r after = (r ≡ exited 1) × (after ≡ before ++ text ∷ [])
EndsWith (err e) before r after = (r ≡ finished (panic "main")) × (after ≡ before)
EndsWith (panic m) before r after = (r ≡ finished (panic m)) × (after ≡ before)

module _ (go : Runtime) (c : Cluster) (sv : Server) (a : Access sv) (session : Session c sv) where
  -- Whatever the cluster holds, the program of main.go leaves it as it was. If the projects are listed
  -- and marshalled, it prints their text and exits with status 1; else it panics and prints no more
  -- than its first line.
  pub projects_main-EndsWith :
      (w : World sv.State)
      → ((projects_main go c sv a session w).1.cluster ≡ w.cluster)
        × EndsWith
            (projects_text
              (list_rancher_projects go c (session.view w.cluster))
              session.marshal_projects)
            (w.printed ++ "Using kubebuilder client" ∷ [])
            (projects_main go c sv a session w).0
            (projects_main go c sv a session w).1.printed
  unfolding projects_main show_projects
  projects_main-EndsWith w = listed (list_rancher_projects go c (session.view w.cluster))
    where
      marshalled :
          (r : Outcome String)
          → (let p =
                go_on {S = sv.State}
                  (finished r)
                  (λ text.
                    println text >>= λ u. exit 1 >>= λ v. show_preset_namespace go c sv a session)
                  (record w { printed = w.printed ++ "Using kubebuilder client" ∷ [] }) in
              (p.1.cluster ≡ w.cluster)
              × EndsWith r (w.printed ++ "Using kubebuilder client" ∷ []) (fatal p.0) p.1.printed)
      marshalled (ok text) = (refl, (refl, refl))
      marshalled (err e) = (refl, (refl, refl))
      marshalled (panic m) = (refl, (refl, refl))

      listed :
          (r : Outcome (List Project))
          → (let p =
                go_on {S = sv.State}
                  (finished r)
                  (λ projects. lift (session.marshal_projects projects) >>= λ text.
                    println text >>= λ u. exit 1 >>= λ v. show_preset_namespace go c sv a session)
                  (record w { printed = w.printed ++ "Using kubebuilder client" ∷ [] }) in
              (p.1.cluster ≡ w.cluster)
              × EndsWith
                  (projects_text r session.marshal_projects)
                  (w.printed ++ "Using kubebuilder client" ∷ [])
                  (fatal p.0)
                  p.1.printed)
      listed (ok projects) = marshalled (session.marshal_projects projects)
      listed (err e) = (refl, (refl, refl))
      listed (panic m) = (refl, (refl, refl))
