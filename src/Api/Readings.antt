-- ===== src/Api/Readings.antt =====
-- What a project and a list of projects say, and the memory that they say it with.
use rancid_syncer.Base.{ℕ, String, Option}
use rancid_syncer.Api.Memory.{Slice}
use rancid_syncer.Api.Types.{
  Foreign, TypeMeta, ProjectSpec, Project, ProjectList, Cell, Copies, strings, selectors, projects,
}
use rancid_syncer.Api.Separate.{Reading, IsReading, IsCopy, slice_of, pointer_to, plain}
use rancid_syncer.Api.Separate.Cells.{plain-IsReading, slice_of-IsReading, pointer_to-IsReading}

-- How the types of the libraries are read.
pub record ForeignReadings (f : Foreign) : Type 1 where
  pub of_object_meta : Reading (Cell f) f.ObjectMeta
  pub of_list_meta : Reading (Cell f) f.ListMeta
  pub of_selector : Reading (Cell f) f.LabelSelector
  pub of_requirements : Reading (Cell f) f.ResourceRequirements

-- `DeepCopyInto` of these types is documented to be a deep copy.
pub record AreDeepCopies (f : Foreign) (c : Copies f) (r : ForeignReadings f) : Type 0 where
  pub object_meta-IsReading : IsReading r.of_object_meta
  pub list_meta-IsReading : IsReading r.of_list_meta
  pub selector-IsReading : IsReading r.of_selector
  pub requirements-IsReading : IsReading r.of_requirements
  pub object_meta-IsCopy : IsCopy r.of_object_meta c.copy_object_meta
  pub list_meta-IsCopy : IsCopy r.of_list_meta c.copy_list_meta
  pub selector-IsCopy : IsCopy r.of_selector c.copy_selector
  pub requirements-IsCopy : IsCopy r.of_requirements c.copy_requirements

module _ (f : Foreign) (r : ForeignReadings f) where
  abbrev pub of_namespaces : Reading (Cell f) (Option Slice)
  of_namespaces = slice_of (strings f) plain

  abbrev pub of_selector_pointer : Reading (Cell f) (Option ℕ)
  of_selector_pointer = pointer_to (selectors f) r.of_selector

  abbrev pub of_spec : Reading (Cell f) (ProjectSpec f)
  of_spec = record {
    Content =
        String × of_namespaces.Content × of_selector_pointer.Content × r.of_requirements.Content;
    Within = λ lo hi s m.
        of_namespaces.Within lo hi s.namespaces m
        × of_selector_pointer.Within lo hi s.namespace_selector m
        × r.of_requirements.Within lo hi s.quota m;
    read = λ s m. (
      s.project_type,
      of_namespaces.read s.namespaces m,
      of_selector_pointer.read s.namespace_selector m,
      r.of_requirements.read s.quota m,
    );
  }

  abbrev pub of_project : Reading (Cell f) (Project f)
  of_project = record {
    Content = TypeMeta × r.of_object_meta.Content × of_spec.Content;
    Within =
        λ lo hi p m. r.of_object_meta.Within lo hi p.object_meta m × of_spec.Within lo hi p.spec m;
    read = λ p m. (p.type_meta, r.of_object_meta.read p.object_meta m, of_spec.read p.spec m);
  }

  abbrev pub of_list : Reading (Cell f) (ProjectList f)
  of_list = record {
    Content = TypeMeta × r.of_list_meta.Content × (slice_of (projects f) of_project).Content;
    Within = λ lo hi l m.
        r.of_list_meta.Within lo hi l.list_meta m
        × (slice_of (projects f) of_project).Within lo hi l.items m;
    read = λ l m. (
      l.type_meta,
      r.of_list_meta.read l.list_meta m,
      (slice_of (projects f) of_project).read l.items m,
    );
  }

module _ (f : Foreign) (c : Copies f) (r : ForeignReadings f) (docs : AreDeepCopies f c r) where
  open docs use {
    object_meta-IsReading, list_meta-IsReading, selector-IsReading, requirements-IsReading,
    object_meta-IsCopy, list_meta-IsCopy, selector-IsCopy, requirements-IsCopy,
  }

  pub namespaces-IsReading : IsReading (of_namespaces f r)
  namespaces-IsReading = slice_of-IsReading (strings f) plain plain-IsReading

  pub pointer-IsReading : IsReading (of_selector_pointer f r)
  pointer-IsReading = pointer_to-IsReading (selectors f) r.of_selector selector-IsReading

  pub spec-IsReading : IsReading (of_spec f r)
  spec-IsReading = record {
    widen = λ lo hi lo' hi' s m a b (n, p, q). (
      namespaces-IsReading.widen lo hi lo' hi' s.namespaces m a b n,
      pointer-IsReading.widen lo hi lo' hi' s.namespace_selector m a b p,
      requirements-IsReading.widen lo hi lo' hi' s.quota m a b q,
    );
    frame = λ lo hi s m m' same (n, p, q). (
      namespaces-IsReading.frame lo hi s.namespaces m m' same n,
      pointer-IsReading.frame lo hi s.namespace_selector m m' same p,
      requirements-IsReading.frame lo hi s.quota m m' same q,
    );
    frame_read = λ lo hi s m m' same (n, p, q). cc (
      namespaces-IsReading.frame_read lo hi s.namespaces m m' same n,
      pointer-IsReading.frame_read lo hi s.namespace_selector m m' same p,
      requirements-IsReading.frame_read lo hi s.quota m m' same q,
    );
  }

  pub project-IsReading : IsReading (of_project f r)
  project-IsReading = record {
    widen = λ lo hi lo' hi' p m a b (o, s). (
      object_meta-IsReading.widen lo hi lo' hi' p.object_meta m a b o,
      spec-IsReading.widen lo hi lo' hi' p.spec m a b s,
    );
    frame = λ lo hi p m m' same (o, s). (
      object_meta-IsReading.frame lo hi p.object_meta m m' same o,
      spec-IsReading.frame lo hi p.spec m m' same s,
    );
    frame_read = λ lo hi p m m' same (o, s). cc (
      object_meta-IsReading.frame_read lo hi p.object_meta m m' same o,
      spec-IsReading.frame_read lo hi p.spec m m' same s,
    );
  }

  pub items-IsReading : IsReading (slice_of (projects f) (of_project f r))
  items-IsReading = slice_of-IsReading (projects f) (of_project f r) project-IsReading

  pub list-IsReading : IsReading (of_list f r)
  list-IsReading = record {
    widen = λ lo hi lo' hi' l m a b (o, s). (
      list_meta-IsReading.widen lo hi lo' hi' l.list_meta m a b o,
      items-IsReading.widen lo hi lo' hi' l.items m a b s,
    );
    frame = λ lo hi l m m' same (o, s). (
      list_meta-IsReading.frame lo hi l.list_meta m m' same o,
      items-IsReading.frame lo hi l.items m m' same s,
    );
    frame_read = λ lo hi l m m' same (o, s). cc (
      list_meta-IsReading.frame_read lo hi l.list_meta m m' same o,
      items-IsReading.frame_read lo hi l.items m m' same s,
    );
  }
