-- ===== src/Api/Copies.antt =====
-- The deep copies of a spec, a project and a list of projects say the same, in memory of their own.
use rancid_syncer.Base.{ℕ, ◌≡◌, refl, ◌∙◌, Option, some, arith}
use rancid_syncer.Api.Memory.{Memory, Slice, pure, copy_slice, copy_pointer}
use rancid_syncer.Api.Types.{
  Foreign, ProjectSpec, Project, ProjectList, Cell, Copies, strings, selectors, projects,
}
use rancid_syncer.Api.DeepCopy.{spec_deep_copy_into, project_deep_copy_into, list_deep_copy_into}
use rancid_syncer.Api.Separate.{IsCopy, plain}
use rancid_syncer.Api.Separate.Cells.{plain-IsReading}
use rancid_syncer.Api.Separate.Loops.{plain-IsCopy, copy_slice-IsCopy, copy_pointer-IsCopy}
use rancid_syncer.Api.Separate.Chains.{carried, settled, SameIn-trans, both_copied}
use rancid_syncer.Api.Readings.{
  ForeignReadings, AreDeepCopies, of_spec, of_project, of_list, namespaces-IsReading,
  pointer-IsReading, spec-IsReading, project-IsReading, items-IsReading,
}

module _ (f : Foreign) (c : Copies f) (r : ForeignReadings f) (docs : AreDeepCopies f c r) where
  open docs use {
    object_meta-IsReading, list_meta-IsReading, selector-IsReading, requirements-IsReading,
    object_meta-IsCopy, list_meta-IsCopy, selector-IsCopy, requirements-IsCopy,
  }

  spec-step :
      (s : ProjectSpec f) (m m1 m2 m3 : Memory (Cell f)) (names : Option Slice) (pointer : Option ℕ)
      (quota : f.ResourceRequirements)
      → copy_slice (strings f) pure s.namespaces m ≡ some (names, m1)
      → copy_pointer (selectors f) c.copy_selector s.namespace_selector m1 ≡ some (pointer, m2)
      → c.copy_requirements s.quota m2 ≡ some (quota, m3)
      → spec_deep_copy_into f c s m
        ≡ some (record s { namespaces = names; namespace_selector = pointer; quota = quota }, m3)
  unfolding spec_deep_copy_into
  spec-step s m m1 m2 m3 names pointer quota e1 e2 e3 = rw (e1, e2, e3) refl

  pub spec_deep_copy_into-IsCopy : IsCopy (of_spec f r) (spec_deep_copy_into f c)
  spec_deep_copy_into-IsCopy s m (n, p, q) =
      let (names, pointer, m1, m2, e1, e2, le, same, within1, within2, read1, read2) =
        both_copied (namespaces-IsReading f c r docs) (pointer-IsReading f c r docs)
          (copy_slice-IsCopy (strings f) (λ x. refl) plain plain-IsReading pure plain-IsCopy)
          (copy_pointer-IsCopy (selectors f) (λ x. refl) r.of_selector selector-IsReading
            c.copy_selector selector-IsCopy)
          s.namespaces s.namespace_selector m n p in
      let (quota, m3, e3, le3, same3, within3, read3) =
        requirements-IsCopy s.quota m2 (carried requirements-IsReading s.quota m m2 le same q) in
      let (w1, kept1) =
        settled (namespaces-IsReading f c r docs) m.next names m2 m3 le3 same3 within1 in
      let (w2, kept2) =
        settled (pointer-IsReading f c r docs) m.next pointer m2 m3 le3 same3 within2 in
      let quota_read = read3 ∙ requirements-IsReading.frame_read 0 m.next s.quota m m2 same q in
      (
        record s { namespaces = names; namespace_selector = pointer; quota = quota },
        m3,
        spec-step s m m1 m2 m3 names pointer quota e1 e2 e3,
        omega arith,
        SameIn-trans m m2 m3 le same same3,
        (
          w1,
          w2,
          requirements-IsReading.widen m2.next m3.next m.next m3.next quota m3 le (omega arith)
              within3,
        ),
        cc (kept1 ∙ read1, kept2 ∙ read2, quota_read),
      )

  project-step :
      (p : Project f) (m m1 m2 : Memory (Cell f)) (object_meta : f.ObjectMeta)
      (spec : ProjectSpec f)
      → c.copy_object_meta p.object_meta m ≡ some (object_meta, m1)
      → spec_deep_copy_into f c p.spec m1 ≡ some (spec, m2)
      → project_deep_copy_into f c p m
        ≡ some (record p { object_meta = object_meta; spec = spec }, m2)
  unfolding project_deep_copy_into
  project-step p m m1 m2 object_meta spec e1 e2 = rw (e1, e2) refl

  pub project_deep_copy_into-IsCopy : IsCopy (of_project f r) (project_deep_copy_into f c)
  project_deep_copy_into-IsCopy p m (o, s) =
      let (object_meta, spec, m1, m2, e1, e2, le, same, w1, w2, read1, read2) =
        both_copied object_meta-IsReading (spec-IsReading f c r docs) object_meta-IsCopy
          spec_deep_copy_into-IsCopy p.object_meta p.spec m o s in
      (
        record p { object_meta = object_meta; spec = spec },
        m2,
        project-step p m m1 m2 object_meta spec e1 e2,
        le,
        same,
        (w1, w2),
        cc (read1, read2),
      )

  list-step :
      (l : ProjectList f) (m m1 m2 : Memory (Cell f)) (list_meta : f.ListMeta)
      (items : Option Slice)
      → c.copy_list_meta l.list_meta m ≡ some (list_meta, m1)
      → copy_slice (projects f) (project_deep_copy_into f c) l.items m1 ≡ some (items, m2)
      → list_deep_copy_into f c l m ≡ some (record l { list_meta = list_meta; items = items }, m2)
  unfolding list_deep_copy_into
  list-step l m m1 m2 list_meta items e1 e2 = rw (e1, e2) refl

  pub list_deep_copy_into-IsCopy : IsCopy (of_list f r) (list_deep_copy_into f c)
  list_deep_copy_into-IsCopy l m (o, s) =
      let (list_meta, items, m1, m2, e1, e2, le, same, w1, w2, read1, read2) =
        both_copied list_meta-IsReading (items-IsReading f c r docs) list_meta-IsCopy
          (copy_slice-IsCopy (projects f) (λ x. refl) (of_project f r)
            (project-IsReading f c r docs) (project_deep_copy_into f c)
            project_deep_copy_into-IsCopy)
          l.list_meta l.items m o s in
      (
        record l { list_meta = list_meta; items = items },
        m2,
        list-step l m m1 m2 list_meta items e1 e2,
        le,
        same,
        (w1, w2),
        cc (read1, read2),
      )
