-- ===== src/Migrations/Prepare.antt =====
-- pkg/db/migrations/prepare.go and init.go: the function that sets up and migrates a database.
pub mod Laws
pub mod Recorded
pub mod Twice
use go_base.Base.{
  listed, listed-Mem, Mem-listed, ℕ, zero, suc, Bool, true, false, Option, none, some, List, [],
  ◌∷◌, String, str_eq, Result, ok, err, ◌>>=◌, ◌>>◌, unless, if◌then◌else◌,
}
use go_base.Backoff.{Retry}
use go_base.Migrations.{
  Error, duplicate_key, wrapped, migrations, Library, Database, wrap, get_sql, scan_version,
  sql_version, MigrateEnv, migrate,
}
use go_base.Migrations.Views.{ViewEnv, configure_views}

pub record Config : Type 0 where
  pub migration_statements : List String
  pub view_statements : List String

pub record PrepareEnv : Type 0 where
  pub create_table : Option Error
  pub create_index : Option Error
  pub begin : Option Error
  pub lock : Option Error
  pub select_app : Option Error
  pub select_init : Option Error
  pub init : ℕ → Option Error
  pub save_init : Option Error
  pub migrate : MigrateEnv
  pub views : ℕ → ViewEnv
  pub save : ℕ → Option Error
  pub insert : Option Error
  pub commit : Option Error

abbrev pub init_sql : String
init_sql = "000_init.sql"

unfoldable pub outcome {ℓ κ} :
    {A : Type ℓ} {S : Type κ} → (S × Option Error) → (S → S × Result Error A) → S × Result Error A
outcome (s, some e) next = (s, err e)
outcome (s, none) next = next s

abbrev pub wrap_error : {S : Type 0} → String → (S × Option Error) → S × Option Error
wrap_error text (s, none) = (s, none)
wrap_error text (s, some e) = (s, some (wrapped text e))

-- A result of the transaction on `migrations`, which changes no committed row.
unfoldable pub within {ℓ κ} :
    {A : Type ℓ} {B : Type ℓ} {S : Type κ}
    → Result Error A
    → S
    → (A → S × Result Error B)
    → S × Result Error B
within (ok a) s next = next a
within (err e) s next = (s, err e)

-- `ON CONFLICT (version) DO NOTHING`
abbrev pub upsert : String → List String → List String
upsert v versions = if listed v versions then versions else v ∷ versions

abbrev pub insert_version : String → List String → Result Error (List String)
insert_version v versions = if listed v versions then err duplicate_key else ok (v ∷ versions)

-- `queue` is what setting up the queue's tables does at an attempt, if there is a queue.
module _ {S : Type 0} (lib : Library S) (retry : Retry (Database S) Error)
    (queue : Option (ℕ → S → S × Option Error)) where
  abbrev pub setup_queue : Option (ℕ → S → S × Option Error) → ℕ → S → S × Option Error
  setup_queue none i s = (s, none)
  setup_queue (some setup) i s = wrap_error "queue initialization failed" (setup i s)

  abbrev pub with_schema : Database S → (S × Option Error) → Database S × Option Error
  with_schema db (s, e) = (record db { schema = s }, e)

  abbrev pub init_result : ℕ → Database S → Result Error S → Database S × Option Error
  init_result i db (err e) = (db, some e)
  init_result i db (ok s) = with_schema db (setup_queue queue i s)

  abbrev pub initialize : (ℕ → Option Error) → ℕ → Database S → Database S × Option Error
  initialize faults i db = init_result i db (do
    stmt ← wrap "can not read init statement" (get_sql lib init_sql migrations)
    wrap "init execution failed" (unless (faults i) tt >> lib.exec stmt db.schema))

  abbrev pub should_run_init : Option Error → List String → Result Error Bool
  should_run_init fault stored = do
    version ← sql_version lib "can not read init statement" "init statement hash failed" init_sql
    found ← wrap "version hash scan err" (unless fault (scan_version version stored))
    ok (if str_eq found version then false else true)

  -- Here and below `versions` are the rows that the transaction sees.
  abbrev pub save_version_hash : Option Error → String → List String → Result Error (List String)
  save_version_hash fault name versions = do
    version ← sql_version lib "can not load sql statement" "sql statement hash failed" name
    wrap "failed to save sql version" (unless fault (upsert version versions))

  abbrev pub save_all :
      (ℕ → Option Error) → ℕ → List String → List String → Result Error (List String)
  save_all faults i [] versions = ok versions
  save_all faults i (name ∷ names) versions = do
    versions' ← save_version_hash (faults i) name versions
    save_all faults (suc i) names versions'

  abbrev pub save_app : PrepareEnv → List String → String → List String → Result Error (List String)
  save_app env names app versions = do
    versions' ← save_all env.save 0 names versions
    wrap "can not save app version to migration tracking"
        (unless env.insert tt >> insert_version app versions')

  -- The views, and the versions that the transaction saves after them.
  abbrev pub views_and_save :
      PrepareEnv
      → Config
      → String
      → List String
      → Database S
      → Database S × Result Error (List String)
  views_and_save env config app versions db =
      outcome
        (wrap_error "configure views err"
          (retry.run (λ i. configure_views lib (env.views i) config.view_statements) db))
        (λ db'. (db', save_app env config.migration_statements app versions))

  abbrev pub migrate_and_save :
      PrepareEnv
      → Config
      → String
      → List String
      → Database S
      → Database S × Result Error (List String)
  migrate_and_save env config app versions db =
      outcome (wrap_error "migrate err" (migrate lib env.migrate config.migration_statements db))
        (λ db'. views_and_save env config app versions db')

  abbrev pub init_and_migrate :
      PrepareEnv → Config → String → Database S → Bool → Database S × Result Error (List String)
  init_and_migrate env config app db false = migrate_and_save env config app db.versions db
  init_and_migrate env config app db true =
      outcome (wrap_error "init err" (retry.run (initialize env.init) db)) (λ db'.
        within (save_version_hash env.save_init init_sql db.versions) db'
          (λ versions. migrate_and_save env config app versions db'))

  abbrev pub run_all :
      PrepareEnv → Config → String → Database S → Database S × Result Error (List String)
  run_all env config app db =
      within (should_run_init env.select_init db.versions) db
        (λ run. init_and_migrate env config app db run)

  -- Under the lock: a version of the application that is in the table needs nothing.
  abbrev pub prepare_locked :
      PrepareEnv → Config → String → Database S → Database S × Result Error (List String)
  prepare_locked env config app db =
      within
        (wrap "migrations table locked" (unless env.lock tt)
          >> wrap "version scan err" (unless env.select_app (scan_version app db.versions)))
        db
        (λ version. if str_eq version app then (db, ok db.versions) else run_all env config app db)

  -- The deferred function of the transaction that holds the lock.
  abbrev pub end_prepare :
      Option Error → (Database S × Result Error (List String)) → Database S × Option Error
  end_prepare commit (db, err e) = (db, some e)
  end_prepare none (db, ok versions) = (record db { versions = versions }, none)
  end_prepare (some e) (db, ok versions) = (db, some e)

  abbrev pub begin_prepare : PrepareEnv → Result Error (Unit {0})
  begin_prepare env =
      unless env.create_table tt >> unless env.create_index tt >> unless env.begin tt

  abbrev pub begun :
      Option Error
      → Database S
      → (Database S × Result Error (List String))
      → Result Error (Unit {0})
      → Database S × Option Error
  begun commit db body (ok u) = end_prepare commit body
  begun commit db body (err e) = (db, some e)

  unfoldable pub prepare : PrepareEnv → Config → String → Database S → Database S × Option Error
  prepare env config app db =
      begun env.commit db (prepare_locked env config app db) (begin_prepare env)
