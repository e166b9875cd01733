-- ===== src/Migrations/Prepare/Laws.antt =====
-- pkg/db/migrations/prepare.go: what a run of the prepared function records, and what a second does.
use go_base.Base.{
  ℕ, zero, suc, ◌≡◌, refl, sym, ap, ◌∙◌, inl, inr, Bool, true, false, Option, none, some, List,
  String, str_eq, Bool-cases, Option-cases, Result, ok, err, ◌>>=◌, ◌>>◌, unless, arith,
}
use go_base.Backoff.{Retry, attempts}
use go_base.Migrations.{
  Error, Library, Database, scan_version, sql_version, Commit, done, idle, failed, run_statements,
  end_migrate, migrate, settle, wrap, get_sql, migrations,
}
use go_base.Migrations.Views.{ViewEnv, run_views, commit_views, end_views, configure_views}
use go_base.Migrations.Prepare.{
  Config, PrepareEnv, init_sql, outcome, wrap_error, within, upsert, insert_version, init_result,
  initialize, should_run_init, save_version_hash, save_all, save_app, views_and_save,
  migrate_and_save, init_and_migrate, run_all, prepare_locked, end_prepare, begin_prepare, begun,
  prepare,
}

-- No transaction but the one that holds the lock changes the table `migrations`.
module _ {S : Type 0} (lib : Library S) where
  migrate-versions :
      (env : go_base.Migrations.MigrateEnv) (list : List String) (db : Database S)
      → (migrate lib env list db).0.versions ≡ db.versions
  unfolding migrate
  migrate-versions env list db = elim (Option-cases env.begin) [
    | inl b ↦ rw b (ended (run_statements lib env.steps 0 db.versions list db.schema))
    | inr (e, b) ↦ rw b refl
  ]
    where
      settled : (c : Commit) (s : S) → (settle lib c db s).0.versions ≡ db.versions
      settled done s = refl
      settled (idle true) s = refl
      settled (idle false) s = refl
      settled (failed e) s = refl

      ended : (m : Result Error S) → (end_migrate lib env db m).0.versions ≡ db.versions
      ended (ok s) = settled env.commit s
      ended (err e) = refl

  views-versions :
      (env : ViewEnv) (list : List String) (db : Database S)
      → (configure_views lib env list db).0.versions ≡ db.versions
  unfolding configure_views
  views-versions env list db = elim (Option-cases env.begin) [
    | inl b ↦ rw b (committed env.commit (run_views lib env.exec 0 list db.schema))
    | inr (e, b) ↦ rw b refl
  ]
    where
      committed :
          (c : Option Error) (ran : go_base.Migrations.Views.Ran S)
          → (commit_views lib c ran db).versions ≡ db.versions
      committed (some e) ran = refl
      committed none ran = ground arith

  attempts-versions :
      (op : ℕ → Database S → Database S × Option Error)
      → ((i : ℕ) (db : Database S) → (op i db).0.versions ≡ db.versions)
      → (n : ℕ) (db : Database S) → (attempts n op db).0.versions ≡ db.versions
  attempts-versions op h zero db = h 0 db
  attempts-versions op h (suc n) db = h (suc n) (attempts n op db).0 ∙ attempts-versions op h n db

  retry-versions :
      (retry : Retry (Database S) Error) (op : ℕ → Database S → Database S × Option Error)
      → ((i : ℕ) (db : Database S) → (op i db).0.versions ≡ db.versions)
      → (db : Database S) → (retry.run op db).0.versions ≡ db.versions
  retry-versions retry op h db =
      let (n, same, _) = retry.runs op db in
      ap (λ (d : Database S). d.versions) same ∙ attempts-versions op h n db

wrap_error-state : {S : Type 0} (text : String) (p : S × Option Error) → (wrap_error text p).0 ≡ p.0
wrap_error-state text (s, none) = refl
wrap_error-state text (s, some e) = refl

-- What holds of the state that a step leaves and of every state that the rest leaves.
outcome-state {ℓ κ ι} :
    {A : Type ℓ} {S : Type κ} (P : S → Type ι) (p : S × Option Error)
    (next : S → S × Result Error A)
    → P p.0
    → ((s : S) → P s → P (next s).0)
    → P (outcome p next).0
unfolding outcome
outcome-state P (s, some e) next h k = h
outcome-state P (s, none) next h k = k s h

within-state {ℓ κ ι} :
    {A B : Type ℓ} {S : Type κ} (P : S → Type ι) (m : Result Error A) (s : S)
    (next : A → S × Result Error B)
    → P s
    → ((a : A) → P (next a).0)
    → P (within m s next).0
unfolding within
within-state P (ok a) s next h k = k a
within-state P (err e) s next h k = h

module _ {S : Type 0} (lib : Library S) (retry : Retry (Database S) Error)
    (queue : Option (ℕ → S → S × Option Error)) (env : PrepareEnv) (config : Config)
    (app : String) where
  -- The committed rows are those before the call.
  Same : Database S → Database S → Type 0
  Same db db' = db'.versions ≡ db.versions

  initialize-versions :
      (i : ℕ) (db : Database S)
      → (initialize lib retry queue env.init i db).0.versions ≡ db.versions
  initialize-versions i db = of_result (do
    stmt ← wrap "can not read init statement" (get_sql lib init_sql migrations)
    wrap "init execution failed" (unless (env.init i) tt >> lib.exec stmt db.schema))
    where
      of_setup :
          (p : S × Option Error)
          → (go_base.Migrations.Prepare.with_schema lib retry queue db p).0.versions ≡ db.versions
      of_setup (s, e) = refl

      of_result :
          (m : Result Error S) → (init_result lib retry queue i db m).0.versions ≡ db.versions
      of_result (err e) = refl
      of_result (ok s) = of_setup (go_base.Migrations.Prepare.setup_queue lib retry queue queue i s)

  views_and_save-Same :
      (db0 : Database S) (versions : List String) (db : Database S)
      → Same db0 db
      → Same db0 (views_and_save lib retry queue env config app versions db).0
  unfolding Same
  views_and_save-Same db0 versions db h =
      outcome-state (Same db0) _ _
        (ap (λ (d : Database S). d.versions) (wrap_error-state _ _)
          ∙ retry-versions lib retry _
              (λ i d. views-versions lib (env.views i) config.view_statements d) db
          ∙ h)
        (λ s k. k)

  migrate_and_save-Same :
      (db0 : Database S) (versions : List String) (db : Database S)
      → Same db0 db
      → Same db0 (migrate_and_save lib retry queue env config app versions db).0
  unfolding Same
  migrate_and_save-Same db0 versions db h =
      outcome-state (Same db0) _ _
        (ap (λ (d : Database S). d.versions) (wrap_error-state _ _)
          ∙ migrate-versions lib env.migrate config.migration_statements db
          ∙ h)
        (λ s k. views_and_save-Same db0 versions s k)

  init_and_migrate-Same :
      (db : Database S) (run : Bool)
      → Same db (init_and_migrate lib retry queue env config app db run).0
  unfolding Same
  init_and_migrate-Same db false = migrate_and_save-Same db db.versions db refl
  init_and_migrate-Same db true =
      outcome-state (Same db) _ _
        (ap (λ (d : Database S). d.versions) (wrap_error-state _ _)
          ∙ retry-versions lib retry _ initialize-versions db)
        (λ s k. within-state (Same db) _ s _ k (λ v. migrate_and_save-Same db v s k))

  locked-Same : (db : Database S) → Same db (prepare_locked lib retry queue env config app db).0
  unfolding Same
  locked-Same db = within-state (Same db) _ db _ refl (λ version.
      elim (Bool-cases (str_eq version app)) [
        | inl e ↦ rw e refl
        | inr e ↦ rw e (within-state (Same db) _ db _ refl (λ run. init_and_migrate-Same db run))
      ])

  -- A call of the prepared function that returns an error leaves the table `migrations` as it was,
  -- whatever the migrations and views that it ran have changed.
  pub prepare_failed :
      (db : Database S) (e : Error) {db' : Database S}
      → prepare lib retry queue env config app db ≡ (db', some e)
      → db'.versions ≡ db.versions
  unfolding prepare Same
  prepare_failed db e h =
      began (begin_prepare lib retry queue env) (prepare_locked lib retry queue env config app db)
        (locked-Same db) h
    where
      ended :
          (c : Option Error) (p : Database S × Result Error (List String)) {db' : Database S}
          → p.0.versions ≡ db.versions
          → end_prepare lib retry queue c p ≡ (db', some e)
          → db'.versions ≡ db.versions
      ended c (d, err x) k h = ap (λ (q : Database S × Option Error). q.0.versions) (sym h) ∙ k
      ended none (d, ok v) k h = absurd (cc)
      ended (some x) (d, ok v) k h =
          ap (λ (q : Database S × Option Error). q.0.versions) (sym h) ∙ k

      began :
          (m : Result Error (Unit {0})) (p : Database S × Result Error (List String))
          {db' : Database S}
          → p.0.versions ≡ db.versions
          → begun lib retry queue env.commit db p m ≡ (db', some e)
          → db'.versions ≡ db.versions
      began (ok u) p k h = ended env.commit p k h
      began (err x) p k h = ap (λ (q : Database S × Option Error). q.0.versions) (sym h)
