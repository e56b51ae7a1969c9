-- ===== src/Api/DeepCopy.antt =====
-- zz_generated.deepcopy.go. A `DeepCopyInto` takes the value of `*in`, and returns the value that it
-- leaves in `*out`; the structs `*in` and `*out` are not the same.
use rancid_syncer.Base.{ℕ, Option, none, some}
use rancid_syncer.Api.Memory.{M, ◌>>=◌, pure, copy_slice, copy_pointer}
use rancid_syncer.Api.Types.{
  Foreign, ProjectSpec, ProjectStatus, Project, ProjectList, Cell, Copies, strings, selectors,
  projects, project_lists, project_specs, project_statuses,
}

-- A value of `runtime.Object`, with the address of what it points to; nil is `none`.
pub data RuntimeObject : Type 0 where
  project_object : ℕ → RuntimeObject
  list_object : ℕ → RuntimeObject

module _ (f : Foreign) (c : Copies f) where
  open c use {copy_object_meta, copy_list_meta, copy_selector, copy_requirements}

  unfoldable pub spec_deep_copy_into : ProjectSpec f → M (Cell f) (ProjectSpec f)
  unfolding copy_slice copy_pointer
  spec_deep_copy_into in_spec = do
    namespaces ← copy_slice (strings f) pure in_spec.namespaces
    selector ← copy_pointer (selectors f) copy_selector in_spec.namespace_selector
    quota ← copy_requirements in_spec.quota
    pure (record in_spec { namespaces = namespaces; namespace_selector = selector; quota = quota })

  -- `*out = *in`
  unfoldable pub status_deep_copy_into : ProjectStatus f → M (Cell f) (ProjectStatus f)
  status_deep_copy_into in_status = pure in_status

  unfoldable pub project_deep_copy_into : Project f → M (Cell f) (Project f)
  unfolding spec_deep_copy_into
  project_deep_copy_into in_project = do
    object_meta ← copy_object_meta in_project.object_meta
    spec ← spec_deep_copy_into in_project.spec
    pure (record in_project { object_meta = object_meta; spec = spec })

  unfoldable pub list_deep_copy_into : ProjectList f → M (Cell f) (ProjectList f)
  unfolding copy_slice project_deep_copy_into
  list_deep_copy_into in_list = do
    list_meta ← copy_list_meta in_list.list_meta
    items ← copy_slice (projects f) project_deep_copy_into in_list.items
    pure (record in_list { list_meta = list_meta; items = items })

  unfoldable pub spec_deep_copy : Option ℕ → M (Cell f) (Option ℕ)
  unfolding copy_pointer spec_deep_copy_into
  spec_deep_copy = copy_pointer (project_specs f) spec_deep_copy_into

  unfoldable pub status_deep_copy : Option ℕ → M (Cell f) (Option ℕ)
  unfolding copy_pointer status_deep_copy_into
  status_deep_copy = copy_pointer (project_statuses f) status_deep_copy_into

  unfoldable pub project_deep_copy : Option ℕ → M (Cell f) (Option ℕ)
  unfolding copy_pointer project_deep_copy_into
  project_deep_copy = copy_pointer (projects f) project_deep_copy_into

  unfoldable pub list_deep_copy : Option ℕ → M (Cell f) (Option ℕ)
  unfolding copy_pointer list_deep_copy_into
  list_deep_copy = copy_pointer (project_lists f) list_deep_copy_into

  -- `if c := in.DeepCopy(); c != nil { return c }; return nil`
  unfoldable pub project_deep_copy_object : Option ℕ → M (Cell f) (Option RuntimeObject)
  unfolding project_deep_copy
  project_deep_copy_object p = do
    out ← project_deep_copy p
    pure (elim out [ none ↦ none | some a ↦ some (project_object a) ])

  unfoldable pub list_deep_copy_object : Option ℕ → M (Cell f) (Option RuntimeObject)
  unfolding list_deep_copy
  list_deep_copy_object p = do
    out ← list_deep_copy p
    pure (elim out [ none ↦ none | some a ↦ some (list_object a) ])
