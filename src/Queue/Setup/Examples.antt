-- ===== src/Queue/Setup/Examples.antt =====
-- pkg/queue/postgres/setup.go: concrete tables.
use go_base.Base.{
  ℕ, ◌≡◌, refl, true, ◌&&◌, Bool, listed, map, false, none, List, [], ◌∷◌, Memᴰ, String, str_eq,
  apart, Result, ok, if◌then◌else◌, eq_iff, arith,
}
use go_base.Casing.Examples.{ascii}
use go_base.Queue.Setup.{
  ForeignReference, Column, Dependent, Catalog, Library, SyncEnv, names_of, sync_table,
  list_columns, Table, Error, schedule_columns, task_columns,
}
use go_base.Queue.Setup.Sync.{AreFolded}
use go_base.Queue.Setup.UpToDate.{IsUpToDate, sync_table-IsUpToDate}
use go_base.Queue.Setup.Again.{IsExact}
use go_base.Queue.Setup.Indexes.{Texts, retention_index, plain, index_statement}
use go_base.Queue.Setup.Tables.{SetupEnv, setup_tables, IsLowerCase, setup_tables_twice}

-- Two names have an upper-case letter.
abbrev fold : String → String
fold n = if str_eq n "projectId" then "projectid" else n

abbrev lib : Library
lib = record {
  fold = fold;
  walk_set = λ l. l;
  walk_names = λ l. l;
  set_sound = λ l p m. m;
  set_complete = λ l p m. m;
  names_sound = λ l n m. m;
  names_complete = λ l n m. m;
}

abbrev project : String → ForeignReference
project name = record {
  column_name = name;
  column_type = "uuid";
  referenced_table = "projects";
  referenced_column = "id";
}

abbrev at : ℕ → SyncEnv
at now = record { now = now; list = none; exec = none }

abbrev id_set : List (String × String)
id_set = ("id", "uuid") ∷ []

abbrev id_column : Column
id_column = record { name = "id"; definition = "uuid"; made = 1 }

abbrev reference_column : String → ℕ → Column
reference_column name made = record {
  name = name;
  definition = "uuid REFERENCES projects (id) ON DELETE CASCADE";
  made = made;
}

abbrev view : String → String → Dependent
view name column = record { name = name; needs = ("t", column) ∷ [] }

-- A view on a redundant column goes with it.
abbrev old : Catalog
old = record {
  tables = record { name = "t"; columns = id_column ∷ reference_column "gone" 1 ∷ [] } ∷ [];
  dependents = view "ids" "id" ∷ view "goners" "gone" ∷ [];
}

abbrev new : Catalog
new = record {
  tables = record { name = "t"; columns = id_column ∷ reference_column "project" 2 ∷ [] } ∷ [];
  dependents = view "ids" "id" ∷ [];
}

sync_test : sync_table lib (at 2) "t" id_set (project "project" ∷ []) old ≡ ok new
unfolding sync_table
sync_test = refl

abbrev all_folded : List String → Bool
all_folded [] = true
all_folded (n ∷ ns) = str_eq (fold n) n && all_folded ns

folded : (l : List String) → all_folded l ≡ true → AreFolded lib l
folded [] h n m = elim m [ ]
folded (x ∷ xs) h n (Memᴰ.head e) =
    let q : fold x ≡ x = (eq_iff (fold x) x).0 (ground arith) in rw e q
folded (x ∷ xs) h n (Memᴰ.tail m) = folded xs (ground arith) n m

sync_table-IsUpToDate_example : IsUpToDate lib (at 2) "t" id_set (project "project" ∷ []) old new
sync_table-IsUpToDate_example =
    sync_table-IsUpToDate lib (at 2) "t" id_set (project "project" ∷ []) old
      (folded ("id" ∷ []) refl) (folded ("project" ∷ []) refl) (folded ("id" ∷ "gone" ∷ []) refl)
      (λ h. absurd (cc)) sync_test

-- A reference with an upper-case letter: the column of the first call is not that of the second.
abbrev mixed : ℕ → Catalog
mixed made = record {
  tables = record { name = "t"; columns = id_column ∷ reference_column "projectid" made ∷ [] } ∷ [];
  dependents = [];
}

mixed_test : sync_table lib (at 3) "t" id_set (project "projectId" ∷ []) (mixed 1) ≡ ok (mixed 3)
unfolding sync_table
mixed_test = refl

not_in : (a b : String) → str_eq a b ≡ false → Memᴰ a (b ∷ []) → ⊥
not_in a b h (Memᴰ.head e) = apart a b h e
not_in a b h (Memᴰ.tail m) = elim m [ ]

abbrev empty : Catalog
empty = record { tables = []; dependents = [] }

-- The first set-up of a database, and the second.
abbrev texts : Texts
texts = record { unicode = ascii; runes = λ s. []; text = λ r. "columns" }

abbrev setup_env : SetupEnv
setup_env = record { schedules = at 1; tasks = at 1; notify = none; indexes = λ query. none }

abbrev first : Catalog
first = (setup_tables lib texts setup_env (project "project" ∷ []) empty).0

first_test : setup_tables lib texts setup_env (project "project" ∷ []) empty ≡ (first, none)
unfolding setup_tables sync_table
first_test = refl

lower_case : IsLowerCase lib texts (project "project" ∷ []) empty
lower_case = record {
  schedule_columns = folded (names_of schedule_columns) refl;
  task_columns = folded (names_of task_columns) refl;
  references = folded ("project" ∷ []) refl;
  schedules = λ n m. elim m [ ];
  tasks = λ n m. elim m [ ];
}

abbrev ok_catalog : Catalog → Result Error Catalog
ok_catalog db = ok db

no_tasks :
    (db : Catalog)
    → sync_table lib (at 1) "schedules" schedule_columns (project "project" ∷ []) empty ≡ ok db
    → list_columns "tasks" db ≡ []
    → listed "tasks" (map (λ (t : Table). t.name) db.tables) ≡ false
unfolding sync_table
no_tasks db h e = let t = ok-injective h in rw (← t) refl
  where
    ok-injective : {a b : Catalog} → ok_catalog a ≡ ok_catalog b → a ≡ b
    ok-injective h = cc

setup_tables_twice_example :
    IsExact lib "schedules" schedule_columns (project "project" ∷ []) first
    × IsExact lib "tasks" task_columns (project "project" ∷ []) first
    × (setup_tables lib texts setup_env (project "project" ∷ []) first ≡ (first, none))
setup_tables_twice_example =
    setup_tables_twice lib texts (project "project" ∷ []) setup_env setup_env empty lower_case
      (no_tasks, λ h. refl) first_test
      record { schedules = refl; tasks = refl; notify = refl; indexes = λ query. refl }

statement_test :
    index_statement texts (plain "tasks" ("queue" ∷ []) "hash")
    ≡ "CREATE INDEX IF NOT EXISTS tasks_columns_idx ON tasks USING hash (queue);"
statement_test = refl

retention_test :
    index_statement texts retention_index
    ≡ "CREATE UNIQUE INDEX IF NOT EXISTS unique_retention_idx ON schedules(task_queue,task_type,(task_spec->>'queueName'),(task_spec->>'taskType'),(task_spec->>'status')) WHERE task_type='retention';"
retention_test = refl
