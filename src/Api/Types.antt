-- ===== src/Api/Types.antt =====
-- project_types.go: the types of the API, as they stand in memory.
use rancid_syncer.Base.{ℕ, String, Option, none, some}
use rancid_syncer.Api.Memory.{Slice, Held, M}

-- The types of the Kubernetes libraries that the API uses, their zero values and their own deep
-- copies. `Word` is what the memory behind them holds.
pub record Foreign : Type 1 where
  pub ObjectMeta : Type 0
  pub ListMeta : Type 0
  pub LabelSelector : Type 0
  pub ResourceRequirements : Type 0
  pub Word : Type 0
  pub no_object_meta : ObjectMeta
  pub no_list_meta : ListMeta
  pub no_selector : LabelSelector
  pub no_requirements : ResourceRequirements

pub record TypeMeta : Type 0 where
  pub kind : String
  pub api_version : String

module _ (f : Foreign) where
  pub record ProjectSpec : Type 0 where
    pub project_type : String
    pub namespaces : Option Slice
    pub namespace_selector : Option ℕ
    pub quota : f.ResourceRequirements

  -- It has no fields.
  abbrev pub ProjectStatus : Type 0
  ProjectStatus = Unit {0}

  pub record Project : Type 0 where
    pub type_meta : TypeMeta
    pub object_meta : f.ObjectMeta
    pub spec : ProjectSpec
    pub status : ProjectStatus

  pub record ProjectList : Type 0 where
    pub type_meta : TypeMeta
    pub list_meta : f.ListMeta
    pub items : Option Slice

  pub data Cell : Type 0 where
    string : String → Cell
    selector : f.LabelSelector → Cell
    project : Project → Cell
    project_list : ProjectList → Cell
    project_spec : ProjectSpec → Cell
    project_status : ProjectStatus → Cell
    word : f.Word → Cell

  abbrev pub zero_spec : ProjectSpec
  zero_spec = record {
    project_type = "";
    namespaces = none;
    namespace_selector = none;
    quota = f.no_requirements;
  }

  abbrev pub zero_type : TypeMeta
  zero_type = record { kind = ""; api_version = "" }

  abbrev pub strings : Held Cell String
  strings = record {
    of_cell = λ c. elim c [ string s ↦ some s | _ ↦ none ];
    to_cell = string;
    zero_value = "";
  }

  abbrev pub selectors : Held Cell f.LabelSelector
  selectors = record {
    of_cell = λ c. elim c [ selector s ↦ some s | _ ↦ none ];
    to_cell = selector;
    zero_value = f.no_selector;
  }

  abbrev pub projects : Held Cell Project
  projects = record {
    of_cell = λ c. elim c [ project p ↦ some p | _ ↦ none ];
    to_cell = project;
    zero_value = record {
      type_meta = zero_type;
      object_meta = f.no_object_meta;
      spec = zero_spec;
      status = tt;
    };
  }

  abbrev pub project_lists : Held Cell ProjectList
  project_lists = record {
    of_cell = λ c. elim c [ project_list l ↦ some l | _ ↦ none ];
    to_cell = project_list;
    zero_value = record { type_meta = zero_type; list_meta = f.no_list_meta; items = none };
  }

  abbrev pub project_specs : Held Cell ProjectSpec
  project_specs = record {
    of_cell = λ c. elim c [ project_spec s ↦ some s | _ ↦ none ];
    to_cell = project_spec;
    zero_value = zero_spec;
  }

  abbrev pub project_statuses : Held Cell ProjectStatus
  project_statuses = record {
    of_cell = λ c. elim c [ project_status s ↦ some s | _ ↦ none ];
    to_cell = project_status;
    zero_value = tt;
  }

  -- `DeepCopyInto` of the types of the libraries.
  pub record Copies : Type 0 where
    pub copy_object_meta : f.ObjectMeta → M Cell f.ObjectMeta
    pub copy_list_meta : f.ListMeta → M Cell f.ListMeta
    pub copy_selector : f.LabelSelector → M Cell f.LabelSelector
    pub copy_requirements : f.ResourceRequirements → M Cell f.ResourceRequirements
