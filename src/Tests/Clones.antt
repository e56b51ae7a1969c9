-- ===== src/Tests/Clones.antt =====
-- Deep copies of a list of two projects in a memory of seven cells.
use rancid_syncer.Base.{
  ℕ, ◌≤◌, ◌<◌, ◌≡◌, refl, String, Option, none, some, arith, eqb, if◌then◌else◌,
}
use rancid_syncer.Api.Memory.{Memory, Slice, Held, pure, copy_slice}
use rancid_syncer.Api.Types.{
  Foreign, TypeMeta, Project, ProjectList, Cell, Copies, zero_spec, string, selector, project,
  project_list, word,
}
use rancid_syncer.Api.DeepCopy.{list_object, list_deep_copy, list_deep_copy_object}
use rancid_syncer.Api.Separate.{plain, slice_of}
use rancid_syncer.Api.Separate.Cells.{plain-IsReading, slice_of-IsReading}
use rancid_syncer.Api.Separate.Loops.{
  plain-IsCopy, copy_slice-IsCopy, written, written_above, written_below,
}
use rancid_syncer.Api.Readings.{ForeignReadings, AreDeepCopies}
use rancid_syncer.Api.Objects.{list_pointer, list_deep_copy_object_lem, list_deep_copy-IsSeparate}

-- The labels of an object are a slice of texts.
abbrev foreign : Foreign
foreign = record {
  ObjectMeta = Option Slice;
  ListMeta = String;
  LabelSelector = String;
  ResourceRequirements = ℕ;
  Word = String;
  no_object_meta = none;
  no_list_meta = "";
  no_selector = "";
  no_requirements = 0;
}

abbrev words : Held (Cell foreign) String
words = record {
  of_cell = λ c. elim c [ word s ↦ some s | _ ↦ none ];
  to_cell = word;
  zero_value = "";
}

abbrev copies : Copies foreign
copies = record {
  copy_object_meta = copy_slice words pure;
  copy_list_meta = pure;
  copy_selector = pure;
  copy_requirements = pure;
}

abbrev readings : ForeignReadings foreign
readings = record {
  of_object_meta = slice_of words plain;
  of_list_meta = plain;
  of_selector = plain;
  of_requirements = plain;
}

deep : AreDeepCopies foreign copies readings
deep = record {
  object_meta-IsReading = slice_of-IsReading words plain plain-IsReading;
  list_meta-IsReading = plain-IsReading;
  selector-IsReading = plain-IsReading;
  requirements-IsReading = plain-IsReading;
  object_meta-IsCopy = copy_slice-IsCopy words (λ x. refl) plain plain-IsReading pure plain-IsCopy;
  list_meta-IsCopy = plain-IsCopy;
  selector-IsCopy = plain-IsCopy;
  requirements-IsCopy = plain-IsCopy;
}

abbrev kind : TypeMeta
kind = record { kind = "Project"; api_version = "management.k8s.appscode.com/v1alpha1" }

abbrev shop : Project foreign
shop = record {
  type_meta = kind;
  object_meta = some (record { start = 3; length = 1 });
  spec = record {
    project_type = "User";
    namespaces = some (record { start = 0; length = 2 });
    namespace_selector = some 2;
    quota = 5;
  };
  status = tt;
}

abbrev empty : Project foreign
empty = record { type_meta = kind; object_meta = none; spec = zero_spec foreign; status = tt }

abbrev both : ProjectList foreign
both = record { type_meta = kind; list_meta = "2"; items = some (record { start = 4; length = 2 }) }

abbrev memory : Memory (Cell foreign)
memory = record {
  next = 7;
  cell = λ a.
      if eqb a 0
      then string "default"
      else if eqb a 1
      then string "shop"
      else if eqb a 2
      then selector "app=web"
      else if eqb a 3
      then word "team=a"
      else if eqb a 4
      then project shop
      else if eqb a 5
      then project empty
      else project_list both;
}

list_deep_copy_object_example :
    (list_deep_copy_object foreign copies none memory ≡ some (none, memory))
    × (out : ℕ) × (m' : Memory (Cell foreign)) × (list_deep_copy_object foreign copies
          (some 6)
          memory
        ≡ some (some (list_object out), m'))
    × (7 ≤ out)
    × (out < m'.next)
    × ((list_pointer foreign readings).read (some out) m'
        ≡ (list_pointer foreign readings).read (some 6) memory)
    × (m'.cell 5 ≡ project empty)
list_deep_copy_object_example =
    list_deep_copy_object_lem foreign copies readings deep 6 5 memory (omega arith) (omega arith)

copied : Option ℕ × Memory (Cell foreign)
unfolding list_deep_copy
copied = elim (list_deep_copy foreign copies (some 6) memory) [ none ↦ (none, memory) | some r ↦ r ]

copied_at : copied.0 ≡ some 7
unfolding copied
copied_at = refl

copied_run : list_deep_copy foreign copies (some 6) memory ≡ some (copied.0, copied.1)
unfolding copied list_deep_copy
copied_run = refl

in_use : copied.1.next ≡ 14
unfolding copied
in_use = refl

list_deep_copy-IsSeparate_example :
    ((list_pointer foreign readings).read copied.0 (written copied.1 4 (project empty))
      ≡ (list_pointer foreign readings).read (some 6) memory)
    × ((list_pointer foreign readings).read (some 6) (written copied.1 8 (project empty))
        ≡ (list_pointer foreign readings).read (some 6) memory)
list_deep_copy-IsSeparate_example =
    list_deep_copy-IsSeparate foreign copies readings deep (some 6) memory copied.1 copied.0
      (omega arith) copied_run (written copied.1 4 (project empty))
      (written copied.1 8 (project empty))
      (written_above copied.1 7 copied.1.next 4 (project empty) (omega arith))
      (written_below copied.1 0 7 8 (project empty) (omega arith))
