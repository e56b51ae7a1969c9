-- ===== src/Projects/Presets/Used.antt =====
-- The visit of one project in the second loop.
use rancid_syncer.Base.{
  String, ◌≡◌, ◌∙◌, List, [], ◌∷◌, ◌++◌, none, some, ◌==◌, Bool, false, ◌||◌, inl, inr, any, arith,
  Bool-cases, if◌then◌else◌, subst,
}
use rancid_syncer.Base.Dict.{Dict, lookup, insert, erase, lookup-insert, lookup-erase}
use rancid_syncer.Base.Outcome.{ok, ok-injective, >>=-eq-ok}
use rancid_syncer.Base.Runtime.{Runtime}
use rancid_syncer.Presets.Types.{SourceLocator}
use rancid_syncer.Projects.Types.{Project, ProjectType, Cluster}
use rancid_syncer.Projects.Presets.{is_user_namespace, presets_in, visit_presets, preset_lt}

-- Some namespace of the project is not one of Rancher's own.
abbrev pub is_used : Project → Bool
is_used p = any is_user_namespace p.namespaces

module _ (c : Cluster) where
  pub visit_presets-used :
      (type : ProjectType) (namespaces : List String) (has_use_ns : Bool)
      → (presets : List SourceLocator) (s : c.State) (r : Bool × List SourceLocator)
      → visit_presets c type namespaces has_use_ns presets s ≡ ok r
      → r.0 ≡ (has_use_ns || any is_user_namespace namespaces)
  unfolding visit_presets
  visit_presets-used type [] has_use_ns presets s r h =
      subst (λ (x : Bool × List SourceLocator). x.0 ≡ (has_use_ns || false)) (ok-injective h)
        (ground arith)
  visit_presets-used type (ns ∷ namespaces) has_use_ns presets s r h =
      let (more, d, f) = >>=-eq-ok (presets_in c type ns s) _ h in
      visit_presets-used type namespaces (has_use_ns || is_user_namespace ns) (presets ++ more) s r
        f
      ∙ ground arith

  module _ (go : Runtime) where
    abbrev pub visited : Project → Bool × List SourceLocator → Project
    visited prj r = record prj { presets = go.sort_slice preset_lt r.1 }

    -- The map after the visit of one project, whose presets are `r.1`.
    abbrev pub step : String → Project → Bool × List SourceLocator → Dict Project → Dict Project
    step id prj r projects = if r.0 then insert id (visited prj r) projects else erase id projects

    pub lookup-step :
        (id : String) (prj : Project) (r : Bool × List SourceLocator) (projects : Dict Project)
        → (key : String)
        → lookup key (step id prj r projects) ≡ (
            if id == key then (if r.0 then some (visited prj r) else none) else lookup key projects)
    lookup-step id prj r projects key = elim (Bool-cases r.0) [
      | inl used ↦ rw used (lookup-insert id key (visited prj r) projects)
      | inr unused ↦ rw unused (lookup-erase id key projects)
    ]
