-- ===== src/Migrations/Views.antt =====
-- pkg/db/migrations/views.go: the statements of the views, in one transaction.
use go_base.Base.{
  ℕ, suc, ◌≡◌, refl, Bool, true, false, Option, none, some, List, [], ◌∷◌, String, Result, ok, err,
  ◌>>◌, unless, if◌then◌else◌,
}
use go_base.Migrations.{Error, wrapped, views, Library, Database, get_sql}

-- The transaction as the loop leaves it. A statement that failed makes it aborted.
pub record Ran (S : Type 0) : Type 0 where
  pub schema : S
  pub is_aborted : Bool
  pub error : Option Error

pub record ViewEnv : Type 0 where
  pub begin : Option Error
  pub exec : ℕ → Option Error
  pub commit : Option Error

module _ {S : Type 0} (lib : Library S) where
  abbrev pub next_view : Result Error S → S → (S → Ran S) → Ran S
  next_view (ok s') s rest = rest s'
  next_view (err e) s rest = record {
    schema = s;
    is_aborted = true;
    error = some (wrapped "configure view failed" e);
  }

  abbrev pub load_view : Result Error String → S → (String → Ran S) → Ran S
  load_view (ok stmt) s rest = rest stmt
  load_view (err e) s rest = record {
    schema = s;
    is_aborted = false;
    error = some (wrapped "migration failed" e);
  }

  abbrev pub run_views : (ℕ → Option Error) → ℕ → List String → S → Ran S
  run_views faults i [] s = record { schema = s; is_aborted = false; error = none }
  run_views faults i (name ∷ names) s = load_view (get_sql lib name views) s (λ stmt.
      next_view (unless (faults i) tt >> lib.exec stmt s) s
        (λ s'. run_views faults (suc i) names s'))

  -- A COMMIT that succeeds rolls an aborted transaction back.
  abbrev pub commit_views : Option Error → Ran S → Database S → Database S
  commit_views (some e) ran db = db
  commit_views none ran db = if ran.is_aborted then db else record db { schema = ran.schema }

  abbrev pub end_views : Option Error → Ran S → Database S → Database S × Option Error
  end_views commit ran db = (commit_views commit ran db, ran.error)

  -- The deferred function reads the variable `err` of the outer block, which the loop never sets, so
  -- it always commits, and its own error is not what `configureViews` returns.
  unfoldable pub configure_views : ViewEnv → List String → Database S → Database S × Option Error
  configure_views env list db = elim env.begin [
    | some e ↦ (db, some e)
    | none ↦ end_views env.commit (run_views env.exec 0 list db.schema) db
  ]

  -- The statements are found and run one after the other, from the first schema to the second.
  pub data Executes : List String → S → S → Type 0 where
    finished : {s : S} → Executes [] s s
    execute :
        {name stmt : String} {names : List String} {s s' s'' : S}
        → get_sql lib name views ≡ ok stmt
        → lib.exec stmt s ≡ ok s'
        → Executes names s' s''
        → Executes (name ∷ names) s s''

  run_views-Executes :
      (faults : ℕ → Option Error) (i : ℕ) {names : List String} {s s' : S}
      → ((j : ℕ) → faults j ≡ none)
      → Executes names s s'
      → run_views faults i names s ≡ record { schema = s'; is_aborted = false; error = none }
  run_views-Executes faults i q finished = refl
  run_views-Executes faults i q (execute l x rest) =
      rw (l, q i, x) (run_views-Executes faults (suc i) q rest)

  -- If the transaction begins and the statements of the views are found and run, `configureViews`
  -- returns no error. The database has the new schema if the commit succeeds, and is as it was if
  -- the commit fails.
  pub configure_views_drops_commit :
      (env : ViewEnv) (list : List String) (db : Database S) (s : S)
      → env.begin ≡ none
      → ((j : ℕ) → env.exec j ≡ none)
      → Executes list db.schema s
      → ((configure_views env list db).1 ≡ none)
        × (env.commit ≡ none → (configure_views env list db).0 ≡ record db { schema = s })
        × ((e : Error) → env.commit ≡ some e → (configure_views env list db).0 ≡ db)
  unfolding configure_views
  configure_views_drops_commit env list db s b q x =
      let r = run_views-Executes env.exec 0 q x in
      (rw (b, r) refl, λ c. rw (b, r, c) refl, λ e c. rw (b, r, c) refl)
