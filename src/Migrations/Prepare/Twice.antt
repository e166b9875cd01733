-- ===== src/Migrations/Prepare/Twice.antt =====
-- pkg/db/migrations/prepare.go: what another call does after one that returned no error.
use go_base.Base.{
  ℕ, ◌≡◌, refl, ap, inl, inr, true, Option, none, some, List, [], ◌∷◌, Memᴰ, String, str_eq, Result,
  ok, err,
}
use go_base.Backoff.{Retry}
use go_base.Migrations.{Error, MigrateEnv, Library, Database, scan_version, migrate}
use go_base.Migrations.Migrate.{
  scan_version-Mem, Mem-scan_version, Migrates, finished, skip, IsQuiet, migrate_ok_iff,
}
use go_base.Migrations.Prepare.{
  Config, PrepareEnv, within, prepare_locked, end_prepare, begin_prepare, begun, prepare,
}
use go_base.Migrations.Prepare.Recorded.{IsRecorded, Recorded, locked-eq-ok}

-- The calls that a second `prepare` makes do not fail.
pub record IsQuietPrepare (env : PrepareEnv) : Type 0 where
  pub create_table : env.create_table ≡ none
  pub create_index : env.create_index ≡ none
  pub begin : env.begin ≡ none
  pub lock : env.lock ≡ none
  pub select_app : env.select_app ≡ none
  pub commit : env.commit ≡ none

module _ {S : Type 0} (lib : Library S) (retry : Retry (Database S) Error)
    (queue : Option (ℕ → S → S × Option Error)) where
  module _ (env : PrepareEnv) (config : Config) (app : String) where
    prepare-eq-ok :
        (db : Database S) {db' : Database S}
        → prepare lib retry queue env config app db ≡ (db', none)
        → (d : Database S) × (l : List String) × (prepare_locked lib retry queue env config app db
            ≡ (d, ok l))
          × (record d { versions = l } ≡ db')
    unfolding prepare
    prepare-eq-ok db {db'} h =
        began (begin_prepare lib retry queue env) (prepare_locked lib retry queue env config app db)
          h
      where
        ended :
            (c : Option Error) (p : Database S × Result Error (List String))
            → end_prepare lib retry queue c p ≡ (db', none)
            → (d : Database S) × (l : List String) × (p ≡ (d, ok l))
              × (record d { versions = l } ≡ db')
        ended c (d, err e) k = absurd (cc)
        ended none (d, ok l) k = (d, l, refl, ap (λ (q : Database S × Option Error). q.0) k)
        ended (some e) (d, ok l) k = absurd (cc)

        began :
            (m : Result Error (Unit {0})) (p : Database S × Result Error (List String))
            → begun lib retry queue env.commit db p m ≡ (db', none)
            → (d : Database S) × (l : List String) × (p ≡ (d, ok l))
              × (record d { versions = l } ≡ db')
        began (ok u) p k = ended env.commit p k
        began (err e) p k = absurd (cc)

    -- A call of the prepared function that returned no error for an application version that is not
    -- empty and is not in the table leaves in the table that version, the version of
    -- `000_init.sql`, that of every migration statement, and every row that was there.
    pub prepare-Recorded :
        (db : Database S) {db' : Database S}
        → (app ≡ "" → ⊥)
        → (Memᴰ app db.versions → ⊥)
        → prepare lib retry queue env config app db ≡ (db', none)
        → Recorded lib retry queue env config app db.versions db'.versions
    prepare-Recorded db n m h =
        let (d, l, k, e) = prepare-eq-ok db h in
        elim (locked-eq-ok lib retry queue env config app db k) [
          | inl (t, _, _) ↦ absurd (m (scan_version-Mem app db.versions n t))
          | inr r ↦ rw (← e) r
        ]

    -- After any call that returned no error the table answers for the application's version.
    prepare_matches :
        (db : Database S) {db' : Database S}
        → prepare lib retry queue env config app db ≡ (db', none)
        → str_eq (scan_version app db'.versions) app ≡ true
    prepare_matches db h =
        let (d, l, k, e) = prepare-eq-ok db h in
        elim (locked-eq-ok lib retry queue env config app db k) [
          | inl (t, _, same) ↦ rw (← e) (rw same t)
          | inr r ↦ rw (← e) (Mem-scan_version app l r.app_version)
        ]

  -- After a call of the prepared function that returned no error, a second one for the same version
  -- of the application, in which neither the set-up of the table, the lock, the query for that
  -- version nor the commit fails, returns no error and changes nothing, whatever its statements
  -- would do.
  pub prepare_twice :
      (env env' : PrepareEnv) (config config' : Config) (app : String) (db : Database S)
      {db' : Database S}
      → prepare lib retry queue env config app db ≡ (db', none)
      → IsQuietPrepare env'
      → prepare lib retry queue env' config' app db' ≡ (db', none)
  unfolding prepare within
  prepare_twice env env' config config' app db {db'} h q =
      let t = prepare_matches env config app db h in
      rw (q.create_table, q.create_index, q.begin, q.lock, q.select_app, t, q.commit)

  -- If every statement of the list has its version in the table, a `migrate` whose calls do not fail
  -- returns no error and changes nothing.
  migrate_recorded :
      (env : MigrateEnv) (list : List String) (db : Database S)
      → IsQuiet lib env
      → ((name : String) → Memᴰ name list → IsRecorded lib db.versions name)
      → migrate lib env list db ≡ (db, none)
  migrate_recorded env list db q all =
      (migrate_ok_iff lib env list db db.schema q).1 (skips list all)
    where
      skips :
          (names : List String)
          → ((name : String) → Memᴰ name names → IsRecorded lib db.versions name)
          → Migrates lib db.versions names db.schema db.schema
      skips [] all = finished
      skips (x ∷ xs) all =
          let (v, m) = all x (Memᴰ.head refl) in
          skip v m (skips xs (λ name n. all name (Memᴰ.tail n)))

  -- After a call that returned no error for an application version that is not empty and was not in
  -- the table, a `migrate` of the same statements whose calls do not fail executes none of them.
  pub prepare_then_migrate :
      (env : PrepareEnv) (config : Config) (app : String) (env' : MigrateEnv) (db : Database S)
      {db' : Database S}
      → (app ≡ "" → ⊥)
      → (Memᴰ app db.versions → ⊥)
      → prepare lib retry queue env config app db ≡ (db', none)
      → IsQuiet lib env'
      → migrate lib env' config.migration_statements db' ≡ (db', none)
  prepare_then_migrate env config app env' db {db'} n m h q =
      migrate_recorded env' config.migration_statements db' q
        (prepare-Recorded env config app db n m h).statements
