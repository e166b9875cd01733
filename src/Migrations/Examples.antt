-- ===== src/Migrations/Examples.antt =====
-- pkg/db/migrations: concrete runs.
use go_base.Base.{
  concat, ◌≡◌, refl, false, Option, none, some, List, [], ◌∷◌, ◌++◌, Memᴰ, String, str_eq, ◌↔◌,
  apart, ok, err, if◌then◌else◌,
}
use go_base.Backoff.{Retry}
use go_base.Migrations.{
  Error, system, wrapped, Library, Database, done, MigrateEnv, migrate, run_statements,
}
use go_base.Migrations.Migrate.{IsQuiet, Migrates, skip, execute, finished, Version, migrate_ok_iff}
use go_base.Migrations.Views.{ViewEnv, configure_views, Executes, configure_views_drops_commit}
use go_base.Migrations.Prepare.{Config, PrepareEnv, prepare, outcome, within}
use go_base.Migrations.Prepare.Laws.{prepare_failed}
use go_base.Migrations.Prepare.Recorded.{Recorded}
use go_base.Migrations.Prepare.Twice.{prepare-Recorded, prepare_twice}

-- A schema is the texts that were executed, a file holds its path, and the path of one view is
-- missing.
abbrev lib : Library (List String)
lib = record {
  open_file = λ path. if str_eq path "/viewslost" then err (system "no file") else ok (ok path);
  join = concat;
  hash = λ s. ok s;
  exec = λ stmt s. ok (s ++ stmt ∷ []);
}

abbrev once : Retry (Database (List String)) Error
once = record { run = λ op s. op 0 s; stops = λ op s s' h. h; runs = λ op s. (0, refl, λ h. h) }

abbrev quiet_migrate : MigrateEnv
quiet_migrate = record {
  begin = none;
  steps = λ j. record { select = none; exec = none; affected = none };
  commit = done;
  rollback = none;
}

abbrev quiet_view : Option Error → ViewEnv
quiet_view commit = record { begin = none; exec = λ i. none; commit = commit }

abbrev quiet_prepare : PrepareEnv
quiet_prepare = record {
  create_table = none;
  create_index = none;
  begin = none;
  lock = none;
  select_app = none;
  select_init = none;
  init = λ i. none;
  save_init = none;
  migrate = quiet_migrate;
  views = λ i. quiet_view none;
  save = λ i. none;
  insert = none;
  commit = none;
}

abbrev config : Config
config = record { migration_statements = "a" ∷ "b" ∷ []; view_statements = "v" ∷ [] }

abbrev lost : Config
lost = record config { view_statements = "lost" ∷ [] }

abbrev empty : Database (List String)
empty = record { schema = []; versions = [] }

abbrev prepared : Database (List String)
prepared = record {
  schema = "/migrations000_init.sql" ∷ "/migrationsa" ∷ "/migrationsb" ∷ "/viewsv" ∷ [];
  versions =
      "v1" ∷ "b_/migrationsb" ∷ "a_/migrationsa" ∷ "000_init.sql_/migrations000_init.sql" ∷ [];
}

prepare_test : prepare lib once none quiet_prepare config "v1" empty ≡ (prepared, none)
unfolding prepare outcome within migrate run_statements configure_views
prepare_test = refl

-- The next version of the application runs the views again, and none of the migrations.
upgrade_test :
    (prepare lib once none quiet_prepare config "v2" prepared).0.schema
    ≡ prepared.schema ++ "/viewsv" ∷ []
unfolding prepare outcome within migrate run_statements configure_views
upgrade_test = refl

quiet : IsQuiet lib quiet_migrate
quiet = record { begin = refl; steps = λ j. (refl, refl, refl); commit = refl }

prepare_twice_example : prepare lib once none quiet_prepare config "v1" prepared ≡ (prepared, none)
prepare_twice_example =
    prepare_twice lib once none quiet_prepare quiet_prepare config config "v1" empty prepare_test
      record {
        create_table = refl;
        create_index = refl;
        begin = refl;
        lock = refl;
        select_app = refl;
        commit = refl;
      }

prepare-Recorded_example : Recorded lib once none quiet_prepare config "v1" [] prepared.versions
prepare-Recorded_example =
    prepare-Recorded lib once none quiet_prepare config "v1" empty (apart "v1" "" refl)
      (λ m. elim m [ ]) prepare_test

-- A run whose view is missing keeps the migrations and records none of them, and the next run of
-- the corrected views executes them again.
abbrev half : Database (List String)
half = record {
  schema = "/migrations000_init.sql" ∷ "/migrationsa" ∷ "/migrationsb" ∷ [];
  versions = [];
}

abbrev view_error : Error
view_error =
    wrapped "configure views err"
      (wrapped "migration failed" (wrapped "getSQL failed" (system "no file")))

half_test : prepare lib once none quiet_prepare lost "v1" empty ≡ (half, some view_error)
unfolding prepare outcome within migrate run_statements configure_views
half_test = refl

again_test :
    (prepare lib once none quiet_prepare config "v1" half).0.schema ≡ half.schema ++ prepared.schema
unfolding prepare outcome within migrate run_statements configure_views
again_test = refl

prepare_failed_example : half.versions ≡ []
prepare_failed_example =
    prepare_failed lib once none quiet_prepare lost "v1" empty view_error half_test

-- Two statements, the first of which is recorded.
abbrev known : Database (List String)
known = record { schema = "x" ∷ []; versions = "a_/migrationsa" ∷ [] }

version :
    (name : String)
    → str_eq (concat ("/" ∷ "migrations" ∷ name ∷ [])) "/viewslost" ≡ false
    → Version lib name
version name h = record {
  stmt = concat ("/" ∷ "migrations" ∷ name ∷ []);
  hash = concat ("/" ∷ "migrations" ∷ name ∷ []);
  loaded = rw h refl;
  hashed = refl;
}

not_known : Memᴰ {A = String} "b_/migrationsb" ("a_/migrationsa" ∷ []) → ⊥
not_known (Memᴰ.head e) = apart "b_/migrationsb" "a_/migrationsa" refl e
not_known (Memᴰ.tail m) = elim m [ ]

migrate_ok_iff_example :
    (migrate lib quiet_migrate ("a" ∷ "b" ∷ []) known
      ≡ (record known { schema = "x" ∷ "/migrationsb" ∷ [] }, none))
    ↔ Migrates lib known.versions ("a" ∷ "b" ∷ []) ("x" ∷ []) ("x" ∷ "/migrationsb" ∷ [])
migrate_ok_iff_example =
    migrate_ok_iff lib quiet_migrate ("a" ∷ "b" ∷ []) known ("x" ∷ "/migrationsb" ∷ []) quiet

known_run : Migrates lib known.versions ("a" ∷ "b" ∷ []) ("x" ∷ []) ("x" ∷ "/migrationsb" ∷ [])
unfolding version
known_run =
    skip (version "a" refl) (Memᴰ.head refl) (execute (version "b" refl) not_known refl finished)

-- A commit that fails is not reported.
configure_views_drops_commit_example :
    ((configure_views lib (quiet_view (some (system "down"))) ("v" ∷ []) known).1 ≡ none)
    × (some (system "down") ≡ none
        → (configure_views lib (quiet_view (some (system "down"))) ("v" ∷ []) known).0
          ≡ record known { schema = "x" ∷ "/viewsv" ∷ [] })
    × ((e : Error)
        → some (system "down") ≡ some e
        → (configure_views lib (quiet_view (some (system "down"))) ("v" ∷ []) known).0 ≡ known)
configure_views_drops_commit_example =
    configure_views_drops_commit lib (quiet_view (some (system "down"))) ("v" ∷ []) known
      ("x" ∷ "/viewsv" ∷ []) refl (λ j. refl) (Executes.execute refl refl Executes.finished)
