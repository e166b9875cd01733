-- ===== src/Queue/Setup/Tables.antt =====
-- pkg/queue/postgres/setup.go: `SetupTables`, which sets both tables up.
use go_base.Base.{
  ◌≡◌, refl, sym, ap, subst, ◌∙◌, ◌⊎◌, ◌↔◌, Option, none, some, List, apart, Memᴰ, String, Result,
  ok, err,
}
use go_base.Queue.Setup.{
  Error, ForeignReference, Catalog, Library, SyncEnv, names_of, column_names, list_columns,
  sync_table, schedule_columns, task_columns,
}
use go_base.Queue.Setup.Columns.{reference_names}
use go_base.Queue.Setup.Sync.{AreFolded}
use go_base.Queue.Setup.UpToDate.{IsUsual, sync_table-IsSynced, sync_table-IsUpToDate}
use go_base.Queue.Setup.Again.{IsExact, exact_same}
use go_base.Queue.Setup.Indexes.{Texts, index_query}

-- What the statements answer: `indexes` to the text of the indexes' statements.
pub record SetupEnv : Type 0 where
  pub schedules : SyncEnv
  pub tasks : SyncEnv
  pub notify : Option Error
  pub indexes : String → Option Error

-- Every statement is committed on its own, so an error keeps what was done before it.
abbrev pub next :
    Catalog → Result Error Catalog → (Catalog → Catalog × Option Error) → Catalog × Option Error
next db (err e) rest = (db, some e)
next db (ok db') rest = rest db'

abbrev pub first_error : Option Error → Option Error → Option Error
first_error (some e) rest = some e
first_error none rest = rest

unfoldable pub setup_tables :
    Library → Texts → SetupEnv → List ForeignReference → Catalog → Catalog × Option Error
setup_tables lib t env refs db =
    next db (sync_table lib env.schedules "schedules" schedule_columns refs db) (λ db1.
      next db1 (sync_table lib env.tasks "tasks" task_columns refs db1)
        (λ db2. (db2, first_error env.notify (env.indexes (index_query t refs)))))

next-none :
    (db : Catalog) (m : Result Error Catalog) (rest : Catalog → Catalog × Option Error)
    {db' : Catalog}
    → next db m rest ≡ (db', none)
    → (mid : Catalog) × (m ≡ ok mid) × (rest mid ≡ (db', none))
next-none db (ok mid) rest h = (mid, refl, h)
next-none db (err e) rest h = absurd (cc)

module _ (lib : Library) (t : Texts) (refs : List ForeignReference) where
  -- What the names of the columns and of the tables must be.
  pub record IsLowerCase (db : Catalog) : Type 0 where
    pub schedule_columns : AreFolded lib (names_of schedule_columns)
    pub task_columns : AreFolded lib (names_of task_columns)
    pub references : AreFolded lib (reference_names refs)
    pub schedules : AreFolded lib (list_columns "schedules" db)
    pub tasks : AreFolded lib (list_columns "tasks" db)

  pub record IsQuiet (env : SetupEnv) : Type 0 where
    pub schedules : env.schedules.list ≡ none
    pub tasks : env.tasks.list ≡ none
    pub notify : env.notify ≡ none
    pub indexes : (query : String) → env.indexes query ≡ none

  abbrev pub IsUsualFor : SetupEnv → Catalog → Type 0
  IsUsualFor env db =
      ((db' : Catalog)
        → sync_table lib env.schedules "schedules" schedule_columns refs db ≡ ok db'
        → IsUsual lib env.tasks "tasks" db')
      × IsUsual lib env.schedules "schedules" db

  -- If the names are in lower case and each table is not there or has a column when its turn comes,
  -- then a `SetupTables` that returned no error leaves both tables with their system columns and
  -- the references only, and a second one with the same references, whose queries and last two
  -- statements do not fail, returns no error and changes no table.
  pub setup_tables_twice :
      (env env' : SetupEnv) (db : Catalog) {db' : Catalog}
      → IsLowerCase db
      → IsUsualFor env db
      → setup_tables lib t env refs db ≡ (db', none)
      → IsQuiet env'
      → IsExact lib "schedules" schedule_columns refs db'
        × IsExact lib "tasks" task_columns refs db'
        × (setup_tables lib t env' refs db' ≡ (db', none))
  unfolding setup_tables
  setup_tables_twice env env' db {db'} lower (usual', usual) h q =
      let (db1, a, h1) =
        next-none db (sync_table lib env.schedules "schedules" schedule_columns refs db) _ h in
      let (db2, b, h2) =
        next-none db1 (sync_table lib env.tasks "tasks" task_columns refs db1) _ h1 in
      let last : db2 ≡ db' = ap (λ (p : Catalog × Option Error). p.0) h2 in
      let (x, ex, _, _, _) =
        sync_table-IsSynced lib env.schedules "schedules" schedule_columns refs db lower.schedules
          usual a in
      let u =
        sync_table-IsUpToDate lib env.schedules "schedules" schedule_columns refs db
          lower.schedule_columns lower.references lower.schedules usual a in
      let same_tasks : list_columns "tasks" db1 ≡ list_columns "tasks" db =
        ap column_names (u.others "tasks" (apart "tasks" "schedules" refl)) in
      let folded : AreFolded lib (list_columns "tasks" db1) =
        subst (AreFolded lib) (sym same_tasks) lower.tasks in
      let (y, ey, _, others, _) =
        sync_table-IsSynced lib env.tasks "tasks" task_columns refs db1 folded (usual' db1 a) b in
      let v =
        sync_table-IsUpToDate lib env.tasks "tasks" task_columns refs db1 lower.task_columns
          lower.references folded (usual' db1 a) b in
      let same : list_columns "schedules" db1 ≡ list_columns "schedules" db' =
        ap column_names (sym (others "schedules" (apart "schedules" "tasks" refl)))
        ∙ ap (list_columns "schedules") last in
      let here : IsExact lib "schedules" schedule_columns refs db' = λ n.
        subst (λ l. Memᴰ n l ↔ (Memᴰ n (names_of schedule_columns) ⊎ Memᴰ n (reference_names refs)))
          same (u.exact n) in
      let there : IsExact lib "tasks" task_columns refs db' =
        subst (IsExact lib "tasks" task_columns refs) last v.exact in
      let id_in : Memᴰ {A = String} "schedule_id" (names_of schedule_columns) = Memᴰ.head refl in
      let id_in' : Memᴰ {A = String} "task_id" (names_of task_columns) = Memᴰ.head refl in
      let s1 =
        exact_same lib "schedules" schedule_columns refs env'.schedules db' q.schedules id_in ex
          here in
      let s2 = exact_same lib "tasks" task_columns refs env'.tasks db' q.tasks id_in' ey there in
      (here, there, rw (s1, s2, q.notify, q.indexes (index_query t refs)) refl)
