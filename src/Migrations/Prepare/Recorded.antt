-- ===== src/Migrations/Prepare/Recorded.antt =====
-- pkg/db/migrations/prepare.go: what a call that returned no error has recorded.
use go_base.Base.{
  listed, listed-Mem, ℕ, suc, ◌≡◌, refl, sym, ap, subst, ◌⊎◌, inl, inr, Bool, true, false, Option,
  none, some, List, [], ◌∷◌, Memᴰ, String, str_eq, Bool-cases, Result, ok, err, ◌>>◌, unless,
  >>=-eq-ok, unless-eq-ok, arith,
}
use go_base.Backoff.{Retry}
use go_base.Migrations.{
  Error, Library, Database, wrap, get_sql, migrations, scan_version, sql_version, migrate,
}
use go_base.Migrations.Migrate.{wrap-eq-ok, version_of-ne, scan_version-Mem, Version, version}
use go_base.Migrations.Prepare.{
  Config, PrepareEnv, init_sql, outcome, wrap_error, within, upsert, insert_version, initialize,
  should_run_init, save_version_hash, save_all, save_app, migrate_and_save, init_and_migrate,
  run_all, prepare_locked,
}

-- Inversion of the steps.
outcome-eq-ok {ℓ κ} :
    {A : Type ℓ} {S : Type κ} (p : S × Option Error) (next : S → S × Result Error A) {s : S} {a : A}
    → outcome p next ≡ (s, ok a)
    → next p.0 ≡ (s, ok a)
unfolding outcome
outcome-eq-ok (s, some e) next h = absurd (cc)
outcome-eq-ok (s, none) next h = h

within-eq-ok {ℓ κ} :
    {A B : Type ℓ} {S : Type κ} (m : Result Error A) (s0 : S) (next : A → S × Result Error B)
    {s : S} {b : B}
    → within m s0 next ≡ (s, ok b)
    → (a : A) × (m ≡ ok a) × (next a ≡ (s, ok b))
unfolding within
within-eq-ok (ok a) s0 next h = (a, refl, h)
within-eq-ok (err e) s0 next h = absurd (cc)

Mem-upsert : (v : String) (l : List String) → Memᴰ v (upsert v l)
Mem-upsert v l = elim (Bool-cases (listed v l)) [
  | inl e ↦ rw e (listed-Mem v l e)
  | inr e ↦ rw e (Memᴰ.head refl)
]

upsert_keeps : (v : String) (l : List String) {w : String} → Memᴰ w l → Memᴰ w (upsert v l)
upsert_keeps v l m = elim (Bool-cases (listed v l)) [ inl e ↦ rw e m | inr e ↦ rw e (Memᴰ.tail m) ]

insert_version-eq-ok :
    (v : String) (l : List String) {l' : List String} → insert_version v l ≡ ok l' → v ∷ l ≡ l'
insert_version-eq-ok v l h = elim (Bool-cases (listed v l)) [
  | inl e ↦ let h' = rw e at h in absurd (cc)
  | inr e ↦ let h' = rw e at h in ground arith
]

-- Every row of the one is a row of the other.
abbrev pub Keeps : List String → List String → Type 0
Keeps l l' = (w : String) → Memᴰ w l → Memᴰ w l'

module _ {S : Type 0} (lib : Library S) where
  sql_version-eq-ok :
      (load_text hash_text name : String) {x : String}
      → sql_version lib load_text hash_text name ≡ ok x
      → (v : Version lib name) × (version lib v ≡ x)
  sql_version-eq-ok load_text hash_text name h =
      let (stmt, l, h1) = >>=-eq-ok (wrap load_text (get_sql lib name migrations)) _ h in
      let (hash, k, h2) = >>=-eq-ok (wrap hash_text (lib.hash stmt)) _ h1 in
      (
        record { stmt = stmt; hash = hash; loaded = wrap-eq-ok _ _ l; hashed = wrap-eq-ok _ _ k },
        ground arith,
      )

  -- The version of the statement is in the table.
  abbrev pub IsRecorded : List String → String → Type 0
  IsRecorded versions name = (v : Version lib name) × Memᴰ (version lib v) versions

module _ {S : Type 0} (lib : Library S) (retry : Retry (Database S) Error)
    (queue : Option (ℕ → S → S × Option Error)) where
  save-eq-ok :
      (fault : Option Error) (name : String) (l : List String) {l' : List String}
      → save_version_hash lib retry queue fault name l ≡ ok l'
      → IsRecorded lib l' name × Keeps l l'
  save-eq-ok fault name l {l'} h =
      let (x, a, h1) =
        >>=-eq-ok (sql_version lib "can not load sql statement" "sql statement hash failed" name) _
          h in
      let (v, e) =
        sql_version-eq-ok lib "can not load sql statement" "sql statement hash failed" name a in
      let (_, same) = unless-eq-ok fault (wrap-eq-ok "failed to save sql version" _ h1) in
      (
        (v, subst (λ y. Memᴰ y l') (sym e) (subst (Memᴰ x) same (Mem-upsert x l))),
        λ w m. subst (Memᴰ w) same (upsert_keeps x l m),
      )

  save_all-eq-ok :
      (faults : ℕ → Option Error) (i : ℕ) (names l : List String) {l' : List String}
      → save_all lib retry queue faults i names l ≡ ok l'
      → ((name : String) → Memᴰ name names → IsRecorded lib l' name) × Keeps l l'
  save_all-eq-ok faults i [] l {l'} h =
      let e : l ≡ l' = ground arith in (λ name m. elim m [ ], λ w m. rw (← e) m)
  save_all-eq-ok faults i (x ∷ xs) l {l'} h =
      let (l1, a, h1) = >>=-eq-ok (save_version_hash lib retry queue (faults i) x l) _ h in
      let ((v, m1), k1) = save-eq-ok (faults i) x l a in
      let (all, k2) = save_all-eq-ok faults (suc i) xs l1 h1 in
      (
        λ name m. elim m [
          | Memᴰ.head e ↦ subst (IsRecorded lib l') (sym e) (v, k2 _ m1)
          | Memᴰ.tail m' ↦ all name m'
        ],
        λ w m. k2 w (k1 w m),
      )

  init-IsRecorded :
      (fault : Option Error) (l : List String)
      → should_run_init lib retry queue fault l ≡ ok false
      → IsRecorded lib l init_sql
  init-IsRecorded fault l h =
      let (x, a, h1) =
        >>=-eq-ok
          (sql_version lib "can not read init statement" "init statement hash failed" init_sql) _
          h in
      let (v, e) =
        sql_version-eq-ok lib "can not read init statement" "init statement hash failed" init_sql
          a in
      let (found, f, h2) =
        >>=-eq-ok (wrap "version hash scan err" (unless fault (scan_version x l))) _ h1 in
      let (_, same) = unless-eq-ok fault (wrap-eq-ok _ _ f) in
      let found_it : str_eq (scan_version x l) x ≡ true = elim (Bool-cases (str_eq found x)) [
        | inl t ↦ rw same t
        | inr t ↦ let h3 = rw t at h2 in absurd (cc)
      ] in
      (v, scan_version-Mem (version lib v) l (version_of-ne init_sql v.hash) (rw e found_it))

  module _ (env : PrepareEnv) (config : Config) (app : String) where
    -- What a call that ran everything saves.
    pub record Recorded (before after : List String) : Type 0 where
      pub app_version : Memᴰ app after
      pub statements :
          (name : String) → Memᴰ name config.migration_statements → IsRecorded lib after name
      pub init : IsRecorded lib after init_sql
      pub kept : Keeps before after

    migrate_and_save-eq-ok :
        (l : List String) (db : Database S) {db' : Database S} {l' : List String}
        → migrate_and_save lib retry queue env config app l db ≡ (db', ok l')
        → Memᴰ app l'
          × ((name : String) → Memᴰ name config.migration_statements → IsRecorded lib l' name)
          × Keeps l l'
    migrate_and_save-eq-ok l db {db'} {l'} h =
        let h1 =
          outcome-eq-ok
            (wrap_error "migrate err" (migrate lib env.migrate config.migration_statements db)) _
            h in
        let h2 : _ ≡ (db', ok l') = outcome-eq-ok _ _ h1 in
        let saved : save_app lib retry queue env config.migration_statements app l ≡ ok l' =
          ap (λ (p : Database S × Result Error (List String)). p.1) h2 in
        let (l1, a, h3) =
          >>=-eq-ok (save_all lib retry queue env.save 0 config.migration_statements l) _ saved in
        let (all, k) = save_all-eq-ok env.save 0 config.migration_statements l a in
        let (_, _, h4) = >>=-eq-ok (unless env.insert tt) _ (wrap-eq-ok _ _ h3) in
        let e = insert_version-eq-ok app l1 h4 in
        (
          subst (Memᴰ app) e (Memᴰ.head refl),
          λ name m. let (v, n) = all name m in (v, subst (Memᴰ (version lib v)) e (Memᴰ.tail n)),
          λ w m. subst (Memᴰ w) e (Memᴰ.tail (k w m)),
        )

    init_and_migrate-eq-ok :
        (db : Database S) (run : Bool) {db' : Database S} {l' : List String}
        → should_run_init lib retry queue env.select_init db.versions ≡ ok run
        → init_and_migrate lib retry queue env config app db run ≡ (db', ok l')
        → Recorded db.versions l'
    init_and_migrate-eq-ok db false i h =
        let (v, m) = init-IsRecorded env.select_init db.versions i in
        let (a, all, k) = migrate_and_save-eq-ok db.versions db h in
        record { app_version = a; statements = all; init = (v, k _ m); kept = k }
    init_and_migrate-eq-ok db true i h =
        let h1 =
          outcome-eq-ok (wrap_error "init err" (retry.run (initialize lib retry queue env.init) db))
            _ h in
        let (l1, s, h2) =
          within-eq-ok (save_version_hash lib retry queue env.save_init init_sql db.versions) _ _
            h1 in
        let ((v, m), k1) = save-eq-ok env.save_init init_sql db.versions s in
        let (a, all, k2) = migrate_and_save-eq-ok l1 _ h2 in
        record {
          app_version = a;
          statements = all;
          init = (v, k2 _ m);
          kept = λ w n. k2 w (k1 w n);
        }

    pub locked-eq-ok :
        (db : Database S) {db' : Database S} {l' : List String}
        → prepare_locked lib retry queue env config app db ≡ (db', ok l')
        → ((str_eq (scan_version app db.versions) app ≡ true) × (db' ≡ db) × (l' ≡ db.versions))
          ⊎ Recorded db.versions l'
    locked-eq-ok db h =
        let (x, a, h1) =
          within-eq-ok
            (wrap "migrations table locked" (unless env.lock tt)
              >> wrap "version scan err" (unless env.select_app (scan_version app db.versions)))
            db _ h in
        let (_, _, a1) = >>=-eq-ok (wrap "migrations table locked" (unless env.lock tt)) _ a in
        let (_, same) = unless-eq-ok env.select_app (wrap-eq-ok "version scan err" _ a1) in
        elim (Bool-cases (str_eq x app)) [
          | inl t ↦
              let h2 = rw t at h1 in
              inl (
                rw same t,
                ap (λ (p : Database S × Result Error (List String)). p.0) (sym h2),
                ground arith,
              )
          | inr t ↦
              let h2 : run_all lib retry queue env config app db ≡ _ = rw t at h1 in
              let (run, i, h3) =
                within-eq-ok (should_run_init lib retry queue env.select_init db.versions) db _
                  h2 in
              inr (init_and_migrate-eq-ok db run i h3)
        ]
