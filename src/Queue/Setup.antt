-- ===== src/Queue/Setup.antt =====
-- pkg/queue/postgres/setup.go: the columns of the tables `schedules` and `tasks`, and their indexes.
pub mod Columns
pub mod Sync
pub mod Cascade
pub mod Alter
pub mod UpToDate
pub mod Again
pub mod Indexes
pub mod Tables
pub mod Examples
use go_base.Base.{
  concat, listed, ℕ, Bool, true, false, ◌||◌, not, Option, none, some, List, [], ◌∷◌, ◌++◌, map,
  filter, Memᴰ, String, str_append, str_eq, Result, ok, err, ◌>>=◌, ◌>>◌, unless, if◌then◌else◌,
}
use go_base.Casing.{Unicode, Runes, to_underscore_case}

-- The text of a system column's error, and Postgres's own errors.
pub data Error : Type 0 where
  system_column : String → Error
  undefined_column duplicate_column : String → Error
  system : String → Error

pub record ForeignReference : Type 0 where
  pub column_name : String
  pub column_type : String
  pub referenced_table : String
  pub referenced_column : String

-- A `tableColumnSet` is the list of its pairs.
abbrev pub ColumnSet : Type 0
ColumnSet = List (String × String)

-- A column of the database: `made` is the time at which it was added, so that a column that was
-- dropped and added again is another one.
pub record Column : Type 0 where
  pub name : String
  pub definition : String
  pub made : ℕ

pub record Table : Type 0 where
  pub name : String
  pub columns : List Column

-- A view, or a foreign key of a table that is not set up here, with the columns that it stands on,
-- directly or through other views: pairs of a table and a column.
pub record Dependent : Type 0 where
  pub name : String
  pub needs : List (String × String)

pub record Catalog : Type 0 where
  pub tables : List Table
  pub dependents : List Dependent

-- The folding of a name that is not quoted, and the order in which Go walks a map.
pub record Library : Type 0 where
  pub fold : String → String
  pub walk_set : ColumnSet → ColumnSet
  pub walk_names : List String → List String
  pub set_sound : (l : ColumnSet) (p : String × String) → Memᴰ p (walk_set l) → Memᴰ p l
  pub set_complete : (l : ColumnSet) (p : String × String) → Memᴰ p l → Memᴰ p (walk_set l)
  pub names_sound : (l : List String) (n : String) → Memᴰ n (walk_names l) → Memᴰ n l
  pub names_complete : (l : List String) (n : String) → Memᴰ n l → Memᴰ n (walk_names l)

abbrev pub names_of : ColumnSet → List String
names_of set = map (λ (p : String × String). p.0) set

abbrev pub column_names : List Column → List String
column_names cols = map (λ (c : Column). c.name) cols

abbrev pub reference_definition : ForeignReference → String
reference_definition ref = concat (
    ref.column_type ∷ " REFERENCES " ∷ ref.referenced_table ∷ " (" ∷ ref.referenced_column
    ∷ ") ON DELETE CASCADE" ∷ [])

-- The loop over the references, which takes no name twice.
abbrev pub expected_columns : ColumnSet → List ForeignReference → Result Error ColumnSet
expected_columns set [] = ok set
expected_columns set (ref ∷ refs) =
    let rest = expected_columns ((ref.column_name, reference_definition ref) ∷ set) refs in
    if listed ref.column_name (names_of set) then err (system_column ref.column_name) else rest

-- A catalog is of one schema: a name is of its first table.
abbrev pub columns_in : String → List Table → List Column
columns_in table [] = []
columns_in table (t ∷ ts) =
    let rest = columns_in table ts in if str_eq t.name table then t.columns else rest

abbrev pub find_columns : String → Catalog → List Column
find_columns table db = columns_in table db.tables

abbrev pub list_columns : String → Catalog → List String
list_columns table db = column_names (find_columns table db)

module _ (lib : Library) (now : ℕ) where
  abbrev pub new_columns : ColumnSet → List Column
  new_columns set =
      map (λ (p : String × String). record { name = lib.fold p.0; definition = p.1; made = now })
        set

  -- Postgres runs the DROP parts of an ALTER TABLE before its ADD parts; here what they do to the
  -- table itself.
  abbrev pub drop_columns : List String → List Column → Result Error (List Column)
  drop_columns [] cols = ok cols
  drop_columns (n ∷ ns) cols =
      let rest = drop_columns ns (filter (λ (c : Column). not (str_eq c.name (lib.fold n))) cols) in
      if listed (lib.fold n) (column_names cols) then rest else err (undefined_column n)

  abbrev pub add_columns : ColumnSet → List Column → Result Error (List Column)
  add_columns [] cols = ok cols
  add_columns ((n, d) ∷ set) cols =
      let rest = add_columns set (cols ++ new_columns ((n, d) ∷ [])) in
      if listed (lib.fold n) (column_names cols) then err (duplicate_column n) else rest

  -- `CREATE TABLE IF NOT EXISTS`
  abbrev pub create_table : String → ColumnSet → List Table → List Table
  create_table table set [] = record { name = table; columns = new_columns set } ∷ []
  create_table table set (t ∷ ts) =
      let rest = create_table table set ts in if str_eq t.name table then t ∷ ts else t ∷ rest

  abbrev pub altered : ColumnSet → List String → List Column → Result Error (List Column)
  altered adds drops cols = drop_columns drops cols >>= add_columns adds

  abbrev pub alter_table : String → ColumnSet → List String → List Table → Result Error (List Table)
  alter_table table adds drops [] = err (system "relation does not exist")
  alter_table table adds drops (t ∷ ts) =
      let here = altered adds drops t.columns >>= λ cols. ok (record t { columns = cols } ∷ ts) in
      let there = alter_table table adds drops ts >>= λ rest. ok (t ∷ rest) in
      if str_eq t.name table then here else there

  abbrev pub needs_column : String → String → List (String × String) → Bool
  needs_column table column [] = false
  needs_column table column ((t, c) ∷ l) =
      let rest = needs_column table column l in
      if str_eq t table then (if str_eq c column then true else rest) else rest

  abbrev pub stands_on : String → List String → Dependent → Bool
  stands_on table [] d = false
  stands_on table (n ∷ ns) d = needs_column table (lib.fold n) d.needs || stands_on table ns d

  -- `DROP COLUMN ... CASCADE`: what stands on a dropped column goes with it.
  abbrev pub cascade : String → List String → List Dependent → List Dependent
  cascade table drops ds = filter (λ d. not (stands_on table drops d)) ds

  abbrev pub alter_catalog : String → ColumnSet → List String → Catalog → Result Error Catalog
  alter_catalog table adds drops db = alter_table table adds drops db.tables >>= λ ts.
      ok (record { tables = ts; dependents = cascade table drops db.dependents })

pub record SyncEnv : Type 0 where
  pub now : ℕ
  pub list : Option Error
  pub exec : Option Error

abbrev pub drops_of : Library → ColumnSet → List String → List String
drops_of lib expected current =
    filter (λ n. not (listed n (names_of expected))) (lib.walk_names current)

abbrev pub adds_of : Library → ColumnSet → List String → ColumnSet
adds_of lib expected current =
    filter (λ (p : String × String). not (listed p.0 current)) (lib.walk_set expected)

module _ (lib : Library) (env : SyncEnv) where
  abbrev pub alter : String → ColumnSet → List String → Catalog → Result Error Catalog
  alter table [] [] db = ok db
  alter table [] (n ∷ ns) db = unless env.exec tt >> alter_catalog lib env.now table [] (n ∷ ns) db
  alter table (p ∷ ps) drops db =
      unless env.exec tt >> alter_catalog lib env.now table (p ∷ ps) drops db

  abbrev pub sync_with : String → ColumnSet → Catalog → List String → Result Error Catalog
  sync_with table expected db [] =
      unless env.exec
        (record db { tables = create_table lib env.now table (lib.walk_set expected) db.tables })
  sync_with table expected db (n ∷ ns) =
      alter table (adds_of lib expected (n ∷ ns)) (drops_of lib expected (n ∷ ns)) db

  unfoldable pub sync_table :
      String → ColumnSet → List ForeignReference → Catalog → Result Error Catalog
  sync_table table init refs db = do
    expected ← expected_columns init refs
    current ← unless env.list (list_columns table db)
    sync_with table expected db current

abbrev pub schedule_columns : ColumnSet
schedule_columns =
    ("schedule_id", "uuid PRIMARY KEY")
    ∷ ("task_queue", "citext NOT NULL")
    ∷ ("task_type", "citext NOT NULL")
    ∷ ("task_spec", "jsonb NOT NULL")
    ∷ ("cron_schedule", "citext NOT NULL DEFAULT ''")
    ∷ ("next_execution_time", "timestamptz")
    ∷ ("created_at", "timestamptz NOT NULL DEFAULT NOW()")
    ∷ ("updated_at", "timestamptz NOT NULL DEFAULT NOW()")
    ∷ []

abbrev pub task_columns : ColumnSet
task_columns =
    ("task_id", "uuid PRIMARY KEY")
    ∷ ("queue", "citext NOT NULL")
    ∷ ("type", "citext NOT NULL")
    ∷ ("spec", "jsonb NOT NULL")
    ∷ ("status", "citext NOT NULL")
    ∷ ("progress", "jsonb NOT NULL")
    ∷ ("created_at", "timestamptz NOT NULL DEFAULT NOW()")
    ∷ ("updated_at", "timestamptz NOT NULL DEFAULT NOW()")
    ∷ ("started_at", "timestamptz")
    ∷ ("finished_at", "timestamptz")
    ∷ ("last_heartbeat_at", "timestamptz")
    ∷ ("schedule_id", "uuid REFERENCES schedules ON DELETE CASCADE")
    ∷ []
