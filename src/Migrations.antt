-- ===== src/Migrations.antt =====
-- pkg/db/migrations: the statements that set up an application's database, and the table
-- `migrations` of those that have been run.
pub mod Views
mod Examples
pub mod Prepare
pub mod Migrate
use go_base.Base.{
  listed, listed-Mem, Mem-listed, ℕ, zero, suc, Bool, true, false, ◌||◌, Option, none, some, List,
  [], ◌∷◌, String, str_append, str_eq, Result, ok, err, ◌>>=◌, ◌>>◌, unless, if◌then◌else◌,
}

-- `wrapped` is `fmt.Errorf` or `errors.Wrap` about another error.
pub data Error : Type 0 where
  system : String → Error
  duplicate_key : Error
  wrapped : String → Error → Error

pub data SqlKind : Type 0 where
  migrations views : SqlKind

abbrev pub kind_text : SqlKind → String
kind_text migrations = "migrations"
kind_text views = "views"

-- `http.FileSystem`: opening a path, and then reading the file to its end.
pub record Library (S : Type 0) : Type 0 where
  pub open_file : String → Result Error (Result Error String)
  pub join : List String → String
  pub hash : String → Result Error String
  -- What Postgres does with a text of statements, where `S` is everything in the database but the
  -- table `migrations`.
  pub exec : String → S → Result Error S

-- The committed state: the rows of `migrations` are their keys.
pub record Database (S : Type 0) : Type 0 where
  pub schema : S
  pub versions : List String

abbrev pub wrap {ℓ} : {A : Type ℓ} → String → Result Error A → Result Error A
wrap text (ok a) = ok a
wrap text (err e) = err (wrapped text e)

abbrev pub get_sql : {S : Type 0} → Library S → String → SqlKind → Result Error String
get_sql lib name kind = do
  file ← wrap "getSQL failed" (lib.open_file (lib.join ("/" ∷ kind_text kind ∷ name ∷ [])))
  wrap "getSQL failed" file

-- What `Scan` leaves in `version` after `SELECT version … WHERE version = $1`: no row leaves it empty.
abbrev pub scan_version : String → List String → String
scan_version v versions = if listed v versions then v else ""

-- `fmt.Sprintf("%s_%s", name, hash)`
abbrev pub version_of : String → String → String
version_of name hash = str_append name (str_append "_" hash)

-- The two texts are those of the errors.
abbrev pub sql_version : {S : Type 0} → Library S → String → String → String → Result Error String
sql_version lib load_text hash_text name = do
  stmt ← wrap load_text (get_sql lib name migrations)
  hash ← wrap hash_text (lib.hash stmt)
  ok (version_of name hash)

pub record StepEnv : Type 0 where
  pub select : Option Error
  pub exec : Option Error
  pub affected : Option Error

-- The answer to a COMMIT. "unexpected transaction status idle" is the driver's report that no
-- transaction is open, which does not say whether the server kept the changes.
pub data Commit : Type 0 where
  done : Commit
  idle : Bool → Commit
  failed : Error → Commit

pub record MigrateEnv : Type 0 where
  pub begin : Option Error
  pub steps : ℕ → StepEnv
  pub commit : Commit
  pub rollback : Option Error

module _ {S : Type 0} (lib : Library S) where
  abbrev pub exec_statement : StepEnv → String → S → Result Error S
  exec_statement env stmt s = do unless env.exec tt; s' ← lib.exec stmt s; unless env.affected s'

  -- The body of the loop of `migrate`, where `stored` are the versions that other transactions
  -- committed, since the SELECT goes to the database and not to the transaction.
  abbrev pub run_statement : StepEnv → List String → String → S → Result Error S
  run_statement env stored name s = do
    stmt ← wrap "migration failed" (get_sql lib name migrations)
    hash ← wrap "can not hash sql statement" (lib.hash stmt)
    version ←
        wrap "version hash scan err"
          (unless env.select (scan_version (version_of name hash) stored))
    if str_eq version (version_of name hash)
        then ok s
        else wrap "migration failed" (exec_statement env stmt s)

  pub run_statements : (ℕ → StepEnv) → ℕ → List String → List String → S → Result Error S
  run_statements env i stored [] s = ok s
  run_statements env i stored (name ∷ names) s = do
    s' ← run_statement (env i) stored name s
    run_statements env (suc i) stored names s'

  abbrev pub settle : Commit → Database S → S → Database S × Option Error
  settle done db s = (record db { schema = s }, none)
  settle (idle true) db s = (record db { schema = s }, none)
  settle (idle false) db s = (db, none)
  settle (failed e) db s = (db, some e)

  abbrev pub roll_back : Option Error → Error → Error
  roll_back none e = e
  roll_back (some r) e = wrapped "rollback" e

  -- The deferred function of `migrate`.
  abbrev pub end_migrate : MigrateEnv → Database S → Result Error S → Database S × Option Error
  end_migrate env db (ok s) = settle env.commit db s
  end_migrate env db (err e) = (db, some (roll_back env.rollback e))

  unfoldable pub migrate : MigrateEnv → List String → Database S → Database S × Option Error
  migrate env list db = elim env.begin [
    | some e ↦ (db, some e)
    | none ↦ end_migrate env db (run_statements env.steps 0 db.versions list db.schema)
  ]
