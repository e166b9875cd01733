-- ===== src/Queue/Database.antt =====
-- The tables `tasks` and `schedules` (pkg/queue/postgres/setup.go) as lists of rows, a transaction as
-- the code runs it, and what the statements of pkg/queue/postgres ask of Postgres beyond the rows.
use go_base.Base.{
  ℕ, ◌≤◌, ◌≡◌, Bool, true, false, Option, none, some, List, [], map, Memᴰ, String, str_eq, ltb,
  Result, ok, err, if◌then◌else◌, arith, ◌⊎◌, ◌≢◌, eq_iff, Mem-map,
}
use go_base.Queue.{Error, wrapped, Task, References}

-- A row of `tasks`: the eleven columns that `dequeuer.columns` reads, and the reference columns.
pub record TaskRow : Type 0 where
  pub task : Task
  pub open task use *
  pub references : References

-- A row of `schedules`. `next_execution_time` is NULL once a one-time job has run.
pub record ScheduleRow : Type 0 where
  pub schedule_id : String
  pub task_queue : String
  pub task_type : String
  pub task_spec : String
  pub cron_schedule : String
  pub next_execution_time : Option ℕ
  pub references : References

pub record Database : Type 0 where
  pub tasks : List TaskRow
  pub schedules : List ScheduleRow

-- The statements' own part of Postgres, as its manual states it. `fold` is the folding by which
-- `citext` columns compare, `distinct` the rows of a SELECT DISTINCT in some order, and `latest` the
-- row of an ORDER BY created_at DESC LIMIT 1, where equal times are in some order.
pub record Sql : Type 0 where
  pub fold : String → String
  pub distinct : List String → List String
  pub distinct_sound : (l : List String) (q : String) → Memᴰ q (distinct l) → Memᴰ q l
  pub distinct_complete :
      (l : List String) (q : String)
      → Memᴰ q l
      → (p : String) × Memᴰ p (distinct l) × (fold p ≡ fold q)
  pub latest : List TaskRow → Option TaskRow
  pub latest_none : (l : List TaskRow) → latest l ≡ none → l ≡ []
  pub latest_mem : (l : List TaskRow) (r : TaskRow) → latest l ≡ some r → Memᴰ r l
  pub latest_max :
      (l : List TaskRow) (r s : TaskRow)
      → latest l ≡ some r
      → Memᴰ s l
      → s.created_at ≤ r.created_at

-- A comparison with NULL is not true, so it selects no row.
abbrev pub null_lt : Option ℕ → ℕ → Bool
null_lt none t = false
null_lt (some a) t = ltb a t

abbrev pub lt_null : ℕ → Option ℕ → Bool
lt_null t none = false
lt_null t (some a) = ltb t a

abbrev pub is_null : Option ℕ → Bool
is_null none = true
is_null (some a) = false

-- `UPDATE tasks SET … WHERE task_id = id`.
abbrev pub set_row : String → (Task → Task) → TaskRow → TaskRow
set_row id f r = if str_eq r.id id then record r { task = f r.task } else r

abbrev pub update_tasks : String → (Task → Task) → Database → Database
update_tasks id f db = record db { tasks = map (set_row id f) db.tasks }

-- Which of the calls that frame a transaction fail, and how.
pub record Tx : Type 0 where
  pub begin : Option Error
  pub commit : Option Error
  pub rollback : Option Error

-- The deferred function: it commits if the body returned no error, and rolls back if it did. `v` is
-- what the function returns beside the error when the body fails; a failed commit keeps the value.
unfoldable pub end_tx {ℓ} :
    {A : Type ℓ} → Tx → Database → A → Result Error (Database × A) → Database × A × Option Error
end_tx tx db v (ok (db', a)) = elim tx.commit [ none ↦ (db', a, none) | some e ↦ (db, a, some e) ]
end_tx tx db v (err e) = elim tx.rollback [
  | none ↦ (db, v, some e)
  | some r ↦ (db, v, some (wrapped e r))
]

-- A whole transaction: nothing is deferred when it cannot begin.
unfoldable pub with_tx {ℓ} :
    {A : Type ℓ} → Tx → Database → A → Result Error (Database × A) → Database × A × Option Error
unfolding end_tx
with_tx tx db v body = elim tx.begin [ none ↦ end_tx tx db v body | some e ↦ (db, v, some e) ]

module _ {ℓ} {A : Type ℓ} (tx : Tx) (db : Database) (v : A)
    (body : Result Error (Database × A)) where
  -- A transaction that returns no error began, ran its body and committed.
  pub with_tx-eq-ok :
      {db' : Database} {a : A} → with_tx tx db v body ≡ (db', a, none) → body ≡ ok (db', a)
  unfolding with_tx
  with_tx-eq-ok h = ground arith

  -- One that begins, runs its body and commits returns what the body returned.
  pub with_tx-commit :
      {db' : Database} {a : A}
      → tx.begin ≡ none
      → tx.commit ≡ none
      → body ≡ ok (db', a)
      → with_tx tx db v body ≡ (db', a, none)
  unfolding with_tx
  with_tx-commit b c h = ground arith

  pub with_tx-rollback :
      {e : Error}
      → tx.begin ≡ none
      → tx.rollback ≡ none
      → body ≡ err e
      → with_tx tx db v body ≡ (db, v, some e)
  unfolding with_tx
  with_tx-rollback b r h = ground arith

  -- One that returns an error leaves the database as it was.
  pub with_tx_error :
      {e : Error} → (with_tx tx db v body).2 ≡ some e → (with_tx tx db v body).0 ≡ db
  unfolding with_tx
  with_tx_error h = ground arith

  -- Either nothing was written, or the body's database was committed.
  pub with_tx-cases :
      ((with_tx tx db v body).0 ≡ db)
      ⊎ (body ≡ ok ((with_tx tx db v body).0, (with_tx tx db v body).1))
  unfolding with_tx
  with_tx-cases = ground arith

-- A row that an update does not address stays.
pub Mem-update_tasks :
    (id : String) (f : Task → Task) (db : Database) {r : TaskRow}
    → Memᴰ r db.tasks
    → r.id ≢ id
    → Memᴰ r (update_tasks id f db).tasks
Mem-update_tasks id f db {r} m ne =
    let e : set_row id f r ≡ r = ground (arith, eq_iff r.id id) in
    rw e at (Mem-map (set_row id f) _ m)
