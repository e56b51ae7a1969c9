-- ===== src/Projects/Grouping/Laws.antt =====
-- Which namespaces a project has, and when it was created.
use mathlib.Core.List.{append_assoc, append-nil}
use rancid_syncer.Base.{
  ℕ, ◌≤◌, String, ◌≡◌, refl, sym, ◌∙◌, ap, List, [], ◌∷◌, ◌++◌, Option, none, some, ◌==◌, Bool,
  true, false, ◌&&◌, ◌⊎◌, inl, inr, eqb, any, All, arith, eq_iff, Bool-cases, Option-cases,
  if◌then◌else◌,
}
use rancid_syncer.Base.Dict.{Dict, lookup, lookup-insert}
use rancid_syncer.Kube.{Namespace}
use rancid_syncer.Projects.Types.{Project, Cluster}
use rancid_syncer.Projects.Grouping.{
  project_id, with_namespace, new_project, known_or_new, add_namespace, group_namespaces,
}

-- The namespace has the label of the project.
abbrev pub is_member : String → Namespace → Bool
is_member id ns = elim (project_id ns) [ none ↦ false | some j ↦ j == id ]

-- The names of the project's namespaces, in their order.
abbrev pub names_of : String → List Namespace → List String
names_of id [] = []
names_of id (ns ∷ items) =
    if is_member id ns then ns.meta.name ∷ names_of id items else names_of id items

-- The time is that of a namespace of the project.
abbrev pub is_creation : String → ℕ → List Namespace → Bool
is_creation id t = any (λ (ns : Namespace). is_member id ns && eqb ns.meta.creation_timestamp t)

-- `new` is `old` with the namespaces of the project among `items`: their names are appended, and
-- its time is the least of its own and theirs.
pub record IsJoined (id : String) (items : List Namespace) (old new : Project) : Type 0 where
  pub named : new.name ≡ old.name
  pub listed : new.namespaces ≡ old.namespaces ++ names_of id items
  pub not_after : new.creation_timestamp ≤ old.creation_timestamp
  pub least :
      All
        (λ (ns : Namespace).
          is_member id ns ≡ true → new.creation_timestamp ≤ ns.meta.creation_timestamp)
        items
  pub attained :
      (new.creation_timestamp ≡ old.creation_timestamp)
      ⊎ (is_creation id new.creation_timestamp items ≡ true)

member_none : (id : String) (ns : Namespace) → project_id ns ≡ none → is_member id ns ≡ false
member_none id ns e = rw (e, is_member)

member_some :
    (id : String) (ns : Namespace) (j : String)
    → project_id ns ≡ some j
    → is_member id ns ≡ (j == id)
member_some id ns j e = rw (e, is_member)

module _ (c : Cluster) (id : String) where
  abbrev join : Namespace → Option Project → Option Project
  join ns o = if is_member id ns then some (with_namespace ns (known_or_new c id o)) else o

  lookup-add_namespace :
      (ns : Namespace) (projects : Dict Project)
      → lookup id (add_namespace c ns projects) ≡ join ns (lookup id projects)
  unfolding add_namespace
  lookup-add_namespace ns projects = elim (Option-cases (project_id ns)) [
    | inl e ↦ rw (e, add_namespace) (rw (member_none id ns e))
    | inr (j, e) ↦
        rw (e, add_namespace)
          (rw (member_some id ns j e, lookup-insert)
            (elim (Bool-cases (j == id)) [
              | inl same ↦
                  let d : j ≡ id = (eq_iff j id).0 same in
                  rw same
                    (ap (λ k. some (with_namespace ns (known_or_new c k (lookup k projects)))) d)
              | inr other ↦ rw other
            ]))
  ]

  joined : List Namespace → Option Project → Option Project
  joined [] o = o
  joined (ns ∷ items) o = joined items (join ns o)

  lookup-group_namespaces :
      (items : List Namespace) (projects : Dict Project)
      → lookup id (group_namespaces c items projects) ≡ joined items (lookup id projects)
  unfolding group_namespaces joined
  lookup-group_namespaces [] projects = refl
  lookup-group_namespaces (ns ∷ items) projects =
      lookup-group_namespaces items (add_namespace c ns projects)
      ∙ ap (joined items) (lookup-add_namespace ns projects)

  IsJoined-cons :
      (ns : Namespace) (items : List Namespace) (old new : Project)
      → is_member id ns ≡ true
      → IsJoined id items (with_namespace ns old) new
      → IsJoined id (ns ∷ items) old new
  unfolding with_namespace
  IsJoined-cons ns items old new e j = record {
    named = j.named;
    listed = j.listed ∙ rw (e, append_assoc);
    not_after = ground (arith, j.not_after);
    least = ((λ _. ground (arith, j.not_after)), j.least);
    attained = ground (arith, j.attained);
  }

  IsJoined-skip :
      (ns : Namespace) (items : List Namespace) (old new : Project)
      → is_member id ns ≡ false
      → IsJoined id items old new
      → IsJoined id (ns ∷ items) old new
  IsJoined-skip ns items old new e j = record {
    named = j.named;
    listed = j.listed ∙ rw e;
    not_after = j.not_after;
    least = ((λ d. cc), j.least);
    attained = ground (arith, j.attained);
  }

  joined-some :
      (items : List Namespace) (old : Project)
      → (new : Project) × (joined items (some old) ≡ some new) × IsJoined id items old new
  unfolding joined
  joined-some [] old = (
    old,
    refl,
    record {
      named = refl;
      listed = sym (append-nil old.namespaces);
      not_after = omega arith;
      least = tt;
      attained = inl refl;
    },
  )
  joined-some (ns ∷ items) old = elim (Bool-cases (is_member id ns)) [
    | inl e ↦
        let (new, d, j) = joined-some items (with_namespace ns old) in
        (new, rw (e, joined) d, IsJoined-cons ns items old new e j)
    | inr e ↦
        let (new, d, j) = joined-some items old in
        (new, rw (e, joined) d, IsJoined-skip ns items old new e j)
  ]

  -- There is no entry for a project without a namespace, and the entry of another is a new project
  -- that its namespaces have joined.
  abbrev pub IsEntry : List Namespace → Option Project → Type 0
  IsEntry items none = names_of id items ≡ []
  IsEntry items (some p) = IsJoined id items (new_project c id) p

  joined-none : (items : List Namespace) → IsEntry items (joined items none)
  unfolding joined
  joined-none [] = refl
  joined-none (ns ∷ items) = elim (Bool-cases (is_member id ns)) [
    | inl e ↦
        let (new, d, j) = joined-some items (with_namespace ns (new_project c id)) in
        rw (e, joined) (rw d (IsJoined-cons ns items (new_project c id) new e j))
    | inr e ↦ rw (e, joined) (skipped ns items e (joined items none) (joined-none items))
  ]
    where
      skipped :
          (ns : Namespace) (items : List Namespace)
          → is_member id ns ≡ false
          → (o : Option Project) → IsEntry items o
          → IsEntry (ns ∷ items) o
      skipped ns items e none h = rw e h
      skipped ns items e (some p) j = IsJoined-skip ns items (new_project c id) p e j

  -- Under each project id the grouping has no entry if no namespace has the id as its label. If
  -- some have, it has a project whose namespaces are just these, in their order, and whose creation
  -- time is the least of theirs and the present.
  pub group_namespaces-IsEntry :
      (items : List Namespace) → IsEntry items (lookup id (group_namespaces c items []))
  unfolding lookup
  group_namespaces-IsEntry items = rw lookup-group_namespaces (joined-none items)
