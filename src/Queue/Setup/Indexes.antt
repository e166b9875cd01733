-- ===== src/Queue/Setup/Indexes.antt =====
-- pkg/queue/postgres/setup.go: the statements of the indexes.
use go_base.Base.{
  concat, join, Bool, true, false, List, [], ◌∷◌, ◌++◌, map, String, str_eq, if◌then◌else◌,
}
use go_base.Casing.{Unicode, Runes, to_underscore_case}
use go_base.Queue.Setup.{ForeignReference}

pub record Index : Type 0 where
  pub name : String
  pub table : String
  pub columns : List String
  pub type : String
  pub unique : Bool
  pub condition : String

abbrev pub plain : String → List String → String → Index
plain table columns type = record {
  name = "";
  table = table;
  columns = columns;
  type = type;
  unique = false;
  condition = "";
}

abbrev pub retention_index : Index
retention_index = record {
  name = "unique_retention_idx";
  table = "schedules";
  columns =
      "task_queue" ∷ "task_type" ∷ "(task_spec->>'queueName')" ∷ "(task_spec->>'taskType')"
      ∷ "(task_spec->>'status')" ∷ [];
  type = "";
  unique = true;
  condition = "task_type='retention'";
}

abbrev pub indexes : List Index
indexes =
    plain "schedules" ("next_execution_time DESC" ∷ []) ""
    ∷ plain "schedules" ("task_queue" ∷ []) "hash"
    ∷ plain "schedules" ("task_type" ∷ []) "hash"
    ∷ plain "schedules" ("created_at DESC" ∷ "updated_at DESC" ∷ []) ""
    ∷ retention_index
    ∷ plain "tasks" ("queue" ∷ []) "hash"
    ∷ plain "tasks" ("type" ∷ []) "hash"
    ∷ plain "tasks" ("status" ∷ []) "hash"
    ∷ plain "tasks" ("schedule_id" ∷ []) "hash"
    ∷ plain "tasks" ("created_at" ∷ "last_heartbeat_at" ∷ []) ""
    ∷ plain "tasks" ("created_at DESC" ∷ "last_heartbeat_at DESC" ∷ []) ""
    ∷ plain "tasks" ("created_at DESC" ∷ []) ""
    ∷ plain "tasks" ("last_heartbeat_at DESC" ∷ []) ""
    ∷ plain "tasks" ("created_at DESC" ∷ "updated_at DESC" ∷ []) ""
    ∷ plain "tasks" ("started_at DESC" ∷ []) ""
    ∷ plain "tasks" ("finished_at DESC" ∷ []) ""
    ∷ []

-- Go's conversions between a string and its runes.
pub record Texts : Type 0 where
  pub unicode : Unicode
  pub runes : String → Runes
  pub text : Runes → String

abbrev pub unless_empty : String → String → String
unless_empty s text = if str_eq s "" then "" else text

module _ (t : Texts) where
  abbrev pub index_name : Index → String
  index_name i =
      if str_eq i.name ""
      then concat (
          i.table
          ∷ "_"
          ∷ t.text (to_underscore_case t.unicode (t.runes (join "," i.columns)))
          ∷ "_idx"
          ∷ [])
      else i.name

  abbrev pub index_statement : Index → String
  index_statement i = concat (
      "CREATE "
      ∷ (if i.unique then "UNIQUE " else "")
      ∷ "INDEX IF NOT EXISTS "
      ∷ index_name i
      ∷ " ON "
      ∷ i.table
      ∷ unless_empty i.type (concat (" USING " ∷ i.type ∷ " " ∷ []))
      ∷ "("
      ∷ join "," i.columns
      ∷ ")"
      ∷ unless_empty i.condition (concat (" WHERE " ∷ i.condition ∷ []))
      ∷ ";"
      ∷ [])

  abbrev pub generate_statements : List Index → List String
  generate_statements l = map index_statement l

-- The indexes on the columns of the references.
abbrev pub reference_indexes : List ForeignReference → List Index
reference_indexes [] = []
reference_indexes (ref ∷ refs) =
    plain "schedules" (ref.column_name ∷ []) "hash"
    ∷ plain "tasks" (ref.column_name ∷ []) "hash"
    ∷ reference_indexes refs

abbrev pub index_query : Texts → List ForeignReference → String
index_query t refs = join "\n" (generate_statements t (indexes ++ reference_indexes refs))
