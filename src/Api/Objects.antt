-- ===== src/Api/Objects.antt =====
-- `DeepCopyObject` of a project and of a list of projects returns an object of its own.
use rancid_syncer.Base.{ℕ, ◌≤◌, ◌<◌, ◌≡◌, refl, sym, ap, subst, ◌∙◌, Option, none, some, arith}
use rancid_syncer.Base.Entries.{some_injective}
use rancid_syncer.Api.Memory.{Memory, Held}
use rancid_syncer.Api.Types.{Foreign, Cell, Copies, projects, project_lists}
use rancid_syncer.Api.DeepCopy.{
  project_object, list_object, project_deep_copy_into, list_deep_copy_into, project_deep_copy,
  list_deep_copy, project_deep_copy_object, list_deep_copy_object,
}
use rancid_syncer.Api.Separate.{Reading, IsCopy, SameIn, pointer_to}
use rancid_syncer.Api.Separate.Cells.{pointer_to-IsReading}
use rancid_syncer.Api.Separate.Loops.{copy_pointer-IsCopy}
use rancid_syncer.Api.Readings.{
  ForeignReadings, AreDeepCopies, of_project, of_list, project-IsReading, list-IsReading,
}
use rancid_syncer.Api.Copies.{project_deep_copy_into-IsCopy, list_deep_copy_into-IsCopy}

-- The copy of a pointer that is not nil is not nil.
pointed :
    {C X : Type 0} (h : Held C X) (r : Reading C X) (p : ℕ) (o : Option ℕ) (m m' : Memory C)
    → (pointer_to h r).Within m.next m'.next o m'
    → (pointer_to h r).read o m' ≡ (pointer_to h r).read (some p) m
    → (out : ℕ) × (o ≡ some out) × (m.next ≤ out) × (out < m'.next)
pointed h r p none m m' w e = cc
pointed h r p (some out) m m' (a, b, w) e = (out, refl, a, b)

module _ (f : Foreign) (r : ForeignReadings f) where
  abbrev pub project_pointer : Reading (Cell f) (Option ℕ)
  project_pointer = pointer_to (projects f) (of_project f r)

  abbrev pub list_pointer : Reading (Cell f) (Option ℕ)
  list_pointer = pointer_to (project_lists f) (of_list f r)

module _ (f : Foreign) (c : Copies f) (r : ForeignReadings f) (docs : AreDeepCopies f c r) where
  project_deep_copy-IsCopy : IsCopy (project_pointer f r) (project_deep_copy f c)
  unfolding project_deep_copy
  project_deep_copy-IsCopy =
      copy_pointer-IsCopy (projects f) (λ x. refl) (of_project f r) (project-IsReading f c r docs)
        (project_deep_copy_into f c) (project_deep_copy_into-IsCopy f c r docs)

  list_deep_copy-IsCopy : IsCopy (list_pointer f r) (list_deep_copy f c)
  unfolding list_deep_copy
  list_deep_copy-IsCopy =
      copy_pointer-IsCopy (project_lists f) (λ x. refl) (of_list f r) (list-IsReading f c r docs)
        (list_deep_copy_into f c) (list_deep_copy_into-IsCopy f c r docs)

  project_object-some :
      (p : Option ℕ) (out : ℕ) (o : Option ℕ) (m m' : Memory (Cell f))
      → project_deep_copy f c p m ≡ some (o, m')
      → o ≡ some out
      → project_deep_copy_object f c p m ≡ some (some (project_object out), m')
  unfolding project_deep_copy_object
  project_object-some p out o m m' e d = rw (e, d) refl

  list_object-some :
      (p : Option ℕ) (out : ℕ) (o : Option ℕ) (m m' : Memory (Cell f))
      → list_deep_copy f c p m ≡ some (o, m')
      → o ≡ some out
      → list_deep_copy_object f c p m ≡ some (some (list_object out), m')
  unfolding list_deep_copy_object
  list_object-some p out o m m' e d = rw (e, d) refl

  -- With deep copies of the types of the libraries (`AreDeepCopies`), for a pointer to a project
  -- whose memory is in use, and any cell in use: `DeepCopyObject` returns a pointer to a cell that
  -- was not in use, what the copy says is what the project said, and the cell is as it was. Nil
  -- gives nil, and nothing is allocated.
  pub project_deep_copy_object_lem :
      (p a : ℕ) (m : Memory (Cell f))
      → (project_pointer f r).Within 0 m.next (some p) m
      → a < m.next
      → (project_deep_copy_object f c none m ≡ some (none, m))
        × (out : ℕ) × (m' : Memory (Cell f)) × (project_deep_copy_object f c (some p) m
            ≡ some (some (project_object out), m'))
        × (m.next ≤ out)
        × (out < m'.next)
        × ((project_pointer f r).read (some out) m' ≡ (project_pointer f r).read (some p) m)
        × (m'.cell a ≡ m.cell a)
  unfolding project_deep_copy_object
  project_deep_copy_object_lem p a m w d =
      let (o, m', e, le, same, within, kept) = project_deep_copy-IsCopy (some p) m w in
      let (out, is_out, above, below) =
        pointed (projects f) (of_project f r) p o m m' within kept in
      (
        refl,
        out,
        m',
        project_object-some (some p) out o m m' e is_out,
        above,
        below,
        ap (λ x. (project_pointer f r).read x m') (sym is_out) ∙ kept,
        same a (omega arith) d,
      )

  -- With deep copies of the types of the libraries (`AreDeepCopies`), for a pointer to a list of
  -- projects whose memory is in use (`list_pointer`: the cells of its items, and what these point
  -- to), and any cell in use: `DeepCopyObject` returns a pointer to a cell that was not in use, what
  -- the copy says is what the list said, with each of its items, and the cell is as it was. Nil gives
  -- nil, and nothing is allocated.
  pub list_deep_copy_object_lem :
      (p a : ℕ) (m : Memory (Cell f))
      → (list_pointer f r).Within 0 m.next (some p) m
      → a < m.next
      → (list_deep_copy_object f c none m ≡ some (none, m))
        × (out : ℕ) × (m' : Memory (Cell f)) × (list_deep_copy_object f c (some p) m
            ≡ some (some (list_object out), m'))
        × (m.next ≤ out)
        × (out < m'.next)
        × ((list_pointer f r).read (some out) m' ≡ (list_pointer f r).read (some p) m)
        × (m'.cell a ≡ m.cell a)
  unfolding list_deep_copy_object
  list_deep_copy_object_lem p a m w d =
      let (o, m', e, le, same, within, kept) = list_deep_copy-IsCopy (some p) m w in
      let (out, is_out, above, below) =
        pointed (project_lists f) (of_list f r) p o m m' within kept in
      (
        refl,
        out,
        m',
        list_object-some (some p) out o m m' e is_out,
        above,
        below,
        ap (λ x. (list_pointer f r).read x m') (sym is_out) ∙ kept,
        same a (omega arith) d,
      )

  -- With deep copies of the types of the libraries (`AreDeepCopies`), for a pointer to a list of
  -- projects whose memory is in use, which `DeepCopy` has copied: whatever is then written to cells
  -- outside those that the call has allocated, the copy says what the list said; whatever is written
  -- to cells that were not in use before the call, the list says what it said.
  pub list_deep_copy-IsSeparate :
      (p : Option ℕ) (m m' : Memory (Cell f)) (out : Option ℕ)
      → (list_pointer f r).Within 0 m.next p m
      → list_deep_copy f c p m ≡ some (out, m')
      → (after_first after_second : Memory (Cell f)) → SameIn m.next m'.next m' after_first
      → SameIn 0 m.next m' after_second
      → ((list_pointer f r).read out after_first ≡ (list_pointer f r).read p m)
        × ((list_pointer f r).read p after_second ≡ (list_pointer f r).read p m)
  list_deep_copy-IsSeparate p m m' out w run after_first after_second same1 same2 =
      let (o, n, e, le, same, within, kept) = list_deep_copy-IsCopy p m w in
      let law = pointer_to-IsReading (project_lists f) (of_list f r) (list-IsReading f c r docs) in
      let (old, own, said) =
        subst
          (λ (x : Option ℕ × Memory (Cell f)).
            SameIn 0 m.next m x.1
            × (list_pointer f r).Within m.next x.1.next x.0 x.1
            × ((list_pointer f r).read x.0 x.1 ≡ (list_pointer f r).read p m))
          (some_injective (sym e ∙ run)) (same, within, kept) in
      let after = λ (a : ℕ) (x : 0 ≤ a) (y : a < m.next). same2 a x y ∙ old a x y in
      (
        law.frame_read m.next m'.next out m' after_first same1 own ∙ said,
        law.frame_read 0 m.next p m after_second after w,
      )
