-- ===== src/Projects/Listing/Whole.antt =====
-- The three loops of `ListRancherProjects` together: what `GetRancherProject` finds.
use rancid_syncer.Base.{
  String, ◌≡◌, refl, sym, ◌∙◌, ap, subst, List, [], ◌∷◌, Option, none, some, Bool, true, false,
  ◌==◌, ◌⊎◌, inl, inr, any, eq_iff, Bool-cases, if◌then◌else◌,
}
use rancid_syncer.Base.Dict.{Dict, lookup, has_key}
use rancid_syncer.Base.Entries.{
  IsMap, IsMap-range, lookup-range, All-range, lookup-none, some_injective,
}
use rancid_syncer.Base.Outcome.{Outcome, ok, err, panic, not_found, ok-injective, >>=-eq-ok}
use rancid_syncer.Base.Runtime.{Runtime, IsRuntime}
use rancid_syncer.Kube.{Namespace}
use rancid_syncer.Presets.Types.{SourceLocator}
use rancid_syncer.Projects.Types.{Project, Cluster}
use rancid_syncer.Projects.Grouping.{new_project, group_namespaces}
use rancid_syncer.Projects.Grouping.Laws.{names_of, IsJoined, IsEntry, group_namespaces-IsEntry}
use rancid_syncer.Projects.Presets.{is_user_namespace, items_of, visit_presets, find_presets}
use rancid_syncer.Projects.Presets.Used.{is_used, step, lookup-step, visit_presets-used}
use rancid_syncer.Projects.Monitoring.Kept.{unmonitored, monitor_projects-unmonitored}
use rancid_syncer.Projects.Listing.{
  find_project, with_monitoring, list_rancher_projects, get_rancher_project,
}
use rancid_syncer.Projects.Listing.Order.{
  IsNamed, IsNamed-prop, Option-IsSet, AreProjects, found_or_missing, find_project-lookup,
  AreProjects-group_namespaces, AreProjects-find_presets, AreProjects-monitor_projects,
}

-- A project without what the last two loops set.
abbrev strip : Project → Project
strip p = record p { presets = []; monitoring = none }

abbrev stripped : Option Project → Option Project
stripped none = none
stripped (some p) = some (strip p)

abbrev kept : Option Project → Option Project
kept none = none
kept (some p) = if is_used p then some p else none

-- What is under a key after the second loop, by its entry and by what was there before.
abbrev survivor : Option Project → Option Project → Option Project
survivor none before = before
survivor (some p) before = kept (some p)

stripped-unmonitored :
    (a b : Option Project) → unmonitored a ≡ unmonitored b → stripped a ≡ stripped b
stripped-unmonitored none none e = refl
stripped-unmonitored none (some q) e = cc
stripped-unmonitored (some p) none e = cc
stripped-unmonitored (some p) (some q) e = ap stripped e

survivor-same : (o : Option Project) → survivor o o ≡ kept o
survivor-same none = refl
survivor-same (some p) = refl

module _ (c : Cluster) (go : Runtime) where
  find_presets-survivor :
      (key : String) (entries : List (String × Project)) (m final : Dict Project) (s : c.State)
      → IsMap entries
      → find_presets c go entries m s ≡ ok final
      → stripped (lookup key final) ≡ stripped (survivor (lookup key entries) (lookup key m))
  unfolding find_presets lookup
  find_presets-survivor key [] m final s h e =
      ap (λ x. stripped (lookup key x)) (sym (ok-injective e))
  find_presets-survivor key ((id, prj) ∷ entries) m final s (f, h) e =
      let (r, d, g) = >>=-eq-ok (visit_presets c prj.type prj.namespaces false prj.presets s) _ e in
      let used = visit_presets-used c prj.type prj.namespaces false prj.presets s r d in
      find_presets-survivor key entries (step c go id prj r m) final s h g
      ∙ next r used (Bool-cases (id == key))
    where
      next :
          (r : Bool × List SourceLocator)
          → r.0 ≡ is_used prj
          → ((id == key) ≡ true) ⊎ ((id == key) ≡ false)
          → stripped (survivor (lookup key entries) (lookup key (step c go id prj r m)))
            ≡ stripped
                (survivor (if id == key then some prj else lookup key entries) (lookup key m))
      next r used (inl same) =
          rw
            (
              lookup-none key entries
                  (subst (λ k. has_key k entries ≡ false) ((eq_iff id key).0 same) f),
              lookup-step c go id prj r m key,
            )
            (rw (same, used)
              (elim (Bool-cases (is_used prj)) [ inl u ↦ rw u refl | inr u ↦ rw u refl ]))
      next r used (inr other) = rw (lookup-step c go id prj r m key) (rw other refl)

-- The project has a namespace that is not one of Rancher's own.
abbrev pub has_users : String → List Namespace → Bool
has_users id items = any is_user_namespace (names_of id items)

module _ (c : Cluster) (id : String) (items : List Namespace) where
  -- A project that is found has a namespace that is not one of Rancher's own, the id as its name,
  -- the namespaces with the label of the id, in their order, and the least of their creation times.
  -- If no namespace of the id is of that kind, no project is found.
  abbrev pub IsFound : Outcome Project → Type 0
  IsFound (ok p) = (has_users id items ≡ true) × IsJoined id items (new_project c id) p
  IsFound (err e) = (e ≡ not_found) × (has_users id items ≡ false)
  IsFound (panic m) = ⊥

  IsJoined-strip :
      (old p q : Project) → strip p ≡ strip q → IsJoined id items old q → IsJoined id items old p
  IsJoined-strip old p q e j =
      let k : IsJoined id items old (strip q) = record {
        named = j.named;
        listed = j.listed;
        not_after = j.not_after;
        least = j.least;
        attained = j.attained;
      } in
      let l : IsJoined id items old (strip p) = subst (IsJoined id items old) (sym e) k in
      record {
        named = l.named;
        listed = l.listed;
        not_after = l.not_after;
        least = l.least;
        attained = l.attained;
      }

  IsFound-kept :
      (o g : Option Project)
      → stripped o ≡ stripped (kept g)
      → IsEntry c id items g
      → IsFound (found_or_missing o)
  unfolding new_project
  IsFound-kept none none e h = (refl, rw h refl)
  IsFound-kept (some p) none e h = cc
  IsFound-kept o (some q) e j = elim (Bool-cases (is_used q)) [
    | inl u ↦ used o (rw u at e) u
    | inr u ↦ unused o (rw u at e) u
  ]
    where
      used :
          (o : Option Project)
          → stripped o ≡ some (strip q)
          → is_used q ≡ true
          → IsFound (found_or_missing o)
      used none e u = cc
      used (some p) e u = (
        ap (any is_user_namespace) (sym j.listed) ∙ u,
        IsJoined-strip (new_project c id) p q (some_injective e) j,
      )

      unused :
          (o : Option Project)
          → stripped o ≡ none
          → is_used q ≡ false
          → IsFound (found_or_missing o)
      unused none e u = (refl, ap (any is_user_namespace) (sym j.listed) ∙ u)
      unused (some p) e u = cc

module _ (go : Runtime) (lawful : IsRuntime go) (c : Cluster) where
  with_monitoring-kept :
      (key : String) (m final : Dict Project) (s : c.State)
      → AreProjects m
      → with_monitoring go c m s ≡ ok final
      → AreProjects final × (stripped (lookup key final) ≡ stripped (lookup key m))
  unfolding with_monitoring
  with_monitoring-kept key m final s h e = elim (Bool-cases c.is_rancher_managed) [
    | inl managed ↦
        let (system, _, e1) = >>=-eq-ok (c.system_project_id s) _ (rw managed at e) in
        let (proms, _, e2) = >>=-eq-ok (items_of (c.list_prometheuses s)) _ e1 in
        (
          AreProjects-monitor_projects c system proms m final s h e2,
          stripped-unmonitored (lookup key final) (lookup key m)
              (monitor_projects-unmonitored c system proms m final s key e2),
        )
    | inr unmanaged ↦
        let d : m ≡ final = ok-injective (rw unmanaged at e) in
        (subst AreProjects d h, ap (λ x. stripped (lookup key x)) (sym d))
  ]

  get_rancher_project-find :
      (id : String) (s : c.State) (projects : List Project)
      → list_rancher_projects go c s ≡ ok projects
      → get_rancher_project go c id s ≡ find_project id projects
  unfolding get_rancher_project
  get_rancher_project-find id s projects h = rw h refl

  -- The maps between the loops, and what the search finds in the last one.
  pub get_rancher_project-maps :
      (id : String) (s : c.State) (items : List Namespace) (projects : List Project)
      → c.list_namespaces s ≡ ok items
      → list_rancher_projects go c s ≡ ok projects
      → (m1 : Dict Project) × (m2 : Dict Project) × (find_presets c go
            (go.range (group_namespaces c items []))
            (group_namespaces c items [])
            s
          ≡ ok m1)
        × (with_monitoring go c m1 s ≡ ok m2)
        × AreProjects (group_namespaces c items [])
        × (stripped (lookup id m2) ≡ stripped (lookup id m1))
        × (get_rancher_project go c id s ≡ found_or_missing (lookup id m2))
  unfolding list_rancher_projects
  get_rancher_project-maps id s items projects l h =
      let m0 = group_namespaces c items [] in
      let (m1, found, e1) =
        >>=-eq-ok (find_presets c go (go.range m0) m0 s) _ (rw (l, list_rancher_projects) at h) in
      let (m2, monitored, e2) = >>=-eq-ok (with_monitoring go c m1 s) _ e1 in
      let h0 : AreProjects m0 = AreProjects-group_namespaces c items [] (tt, tt) in
      let named = All-range Option-IsSet go lawful IsNamed IsNamed-prop m0 h0.1 in
      let h1 : AreProjects m1 =
        AreProjects-find_presets c go (go.range m0) m0 m1 s named h0 found in
      let (h2, same) = with_monitoring-kept id m1 m2 s h1 monitored in
      let searched : get_rancher_project go c id s ≡ found_or_missing (lookup id m2) =
        get_rancher_project-find id s projects h
        ∙ ap (find_project id) (sym (ok-injective e2))
        ∙ find_project-lookup id (go.range m2)
            (All-range Option-IsSet go lawful IsNamed IsNamed-prop m2 h2.1)
        ∙ ap found_or_missing (lookup-range Option-IsSet go lawful id m2 h2.0) in
      (m1, m2, found, monitored, h0, same, searched)

  -- With a runtime as documented (`IsRuntime`), when the namespaces of the cluster are listed and
  -- `ListRancherProjects` returns projects: `GetRancherProject` of an id returns a project if some
  -- namespace with the label of the id is not one of Rancher's own, and else NotFound. The project
  -- has the id as its name, its namespaces are all those with the label, in the order of the
  -- listing, and its creation time is the least of theirs and the present.
  pub get_rancher_project-IsFound :
      (id : String) (s : c.State) (items : List Namespace) (projects : List Project)
      → c.list_namespaces s ≡ ok items
      → list_rancher_projects go c s ≡ ok projects
      → IsFound c id items (get_rancher_project go c id s)
  get_rancher_project-IsFound id s items projects l h =
      let m0 = group_namespaces c items [] in
      let (m1, m2, found, monitored, h0, same, searched) =
        get_rancher_project-maps id s items projects l h in
      let mapped = IsMap-range Option-IsSet go lawful m0 h0.0 in
      let survived = find_presets-survivor c go id (go.range m0) m0 m1 s mapped found in
      let looked = lookup-range Option-IsSet go lawful id m0 h0.0 in
      let chain : stripped (lookup id m2) ≡ stripped (kept (lookup id m0)) =
        same
        ∙ survived
        ∙ ap (λ x. stripped (survivor x (lookup id m0))) looked
        ∙ ap stripped (survivor-same (lookup id m0)) in
      subst (IsFound c id items) (sym searched) (
        IsFound-kept c id items (lookup id m2) (lookup id m0) chain
          (group_namespaces-IsEntry c id items))
