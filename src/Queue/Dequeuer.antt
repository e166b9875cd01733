-- ===== src/Queue/Dequeuer.antt =====
-- pkg/queue/postgres/dequeuer.go: one attempt to take a task, and the updates of a running one.
pub mod Taken
pub mod Wait
pub mod Race
pub mod Liveness
pub mod Effect
pub mod Exclusive
use go_base.Base.{
  ℕ, ◌-◌, ◌*◌, Bool, false, ◌&&◌, ◌||◌, not, Option, none, some, List, [], ◌∷◌, map, filter, length,
  get_elem?, String, str_eq, Result, ok, err, ◌>>=◌, unless, if◌then◌else◌,
}
use go_base.Queue.{Error, index_out_of_range, running, Task}
use go_base.Queue.Database.{
  Sql, Tx, TaskRow, Database, null_lt, lt_null, is_null, update_tasks, with_tx,
}
use go_base.Queue.Queuer.{empty_json}

-- What one attempt takes from outside: the clock, `rand.Intn`, and the failure of each statement.
pub record AttemptEnv : Type 0 where
  pub now : ℕ
  pub draw : ℕ → ℕ
  pub tx : Tx
  pub list_unfinished : Option Error
  pub list_inflight : Option Error
  pub select : Option Error
  pub update : Option Error

-- Times are far above a TTL, so the truncated difference is `now.Add(-2 * ttl)`.
abbrev pub double_ttl : ℕ → ℕ → ℕ
double_ttl now ttl = now - 2 * ttl

abbrev pub is_unfinished : TaskRow → Bool
is_unfinished r = is_null r.finished_at

abbrev pub is_inflight : ℕ → TaskRow → Bool
is_inflight cut r = lt_null cut r.last_heartbeat_at && is_null r.finished_at

-- `rows.Next` and `rows.Scan` over the queue column of the selected rows.
pub generate_queue_list :
    Sql → Option Error → (TaskRow → Bool) → Database → Result Error (List String)
generate_queue_list sql fault where_ db =
    unless fault (sql.distinct (map (λ r. r.queue) (filter where_ db.tasks)))

-- Membership in `inflightMap`.
abbrev pub contains : String → List String → Bool
contains s [] = false
contains s (q ∷ qs) = str_eq q s || contains s qs

pub processable_queues : List String → List String → List String
processable_queues inflight potential = filter (λ s. not (contains s inflight)) potential

-- The WHERE clause of the selection; `queue` is a `citext` column.
pub is_available : Sql → String → ℕ → TaskRow → Bool
is_available sql q cut r =
    let same = str_eq (sql.fold r.queue) (sql.fold q) in
    (same && is_null r.started_at)
    || ((same && is_null r.finished_at) && null_lt r.last_heartbeat_at cut)

abbrev pub default_text : String → String
default_text s = if str_eq s "" then empty_json else s

abbrev pub default_nil : Option String → Option String
default_nil none = some empty_json
default_nil (some s) = some (default_text s)

pub scan : TaskRow → Task
scan r =
    let t = r.task in
    record t {
      progress = default_text r.progress;
      base = record (t.base) { spec = default_nil r.spec };
    }

abbrev pub start : ℕ → Task → Task
start now t = record t { started_at = some now; last_heartbeat_at = some now; status = running }

-- What follows the scan: no row is no task, and a row is marked as started.
pub claim_row : AttemptEnv → Database → Option TaskRow → Result Error (Database × Option Task)
unfolding scan
claim_row env db none = ok (db, none)
claim_row env db (some r) = unless env.update (
  update_tasks r.id (start env.now) db,
  some (record (scan r) { started_at = some env.now; last_heartbeat_at = some env.now }),
)

-- The selection from one queue, and the update of the row that it locks.
pub take_task : Sql → ℕ → AttemptEnv → String → Database → Result Error (Database × Option Task)
unfolding is_available claim_row
take_task sql ttl env q db = do
  found ←
      unless env.select (sql.latest (filter (is_available sql q (double_ttl env.now ttl)) db.tasks))
  claim_row env db found

-- `rand.Intn` of the number of queues; an index out of range would be a run-time panic.
pub choose_queue : AttemptEnv → List String → Result Error (Option String)
choose_queue env [] = ok none
choose_queue env (q ∷ qs) = elim (get_elem? (q ∷ qs) (env.draw (length (q ∷ qs)))) [
  | none ↦ err index_out_of_range
  | some p ↦ ok (some p)
]

abbrev pub potential_queues : Sql → AttemptEnv → List String → Database → Result Error (List String)
potential_queues sql env [] db = generate_queue_list sql env.list_unfinished is_unfinished db
potential_queues sql env (q ∷ qs) db = ok (q ∷ qs)

-- What is read before the row is locked: the queue to take from. The two lists are read outside the
-- transaction.
pub plan : Sql → ℕ → AttemptEnv → List String → Database → Result Error (Option String)
unfolding generate_queue_list processable_queues choose_queue
plan sql ttl env queues db = do
  potential ← potential_queues sql env queues db
  inflight ← generate_queue_list sql env.list_inflight (is_inflight (double_ttl env.now ttl)) db
  choose_queue env (processable_queues inflight potential)

abbrev pub follow_plan :
    Sql → ℕ → AttemptEnv → Database → Option String → Result Error (Database × Option Task)
follow_plan sql ttl env db none = ok (db, none)
follow_plan sql ttl env db (some q) = take_task sql ttl env q db

-- The body of the transaction.
pub attempt_body :
    Sql → ℕ → AttemptEnv → List String → Database → Result Error (Database × Option Task)
unfolding plan take_task
attempt_body sql ttl env queues db = do
  choice ← plan sql ttl env queues db
  follow_plan sql ttl env db choice

unfoldable pub attempt_dequeue :
    Sql → ℕ → AttemptEnv → List String → Database → Database × Option Task × Option Error
unfolding attempt_body with_tx
attempt_dequeue sql ttl env queues db = with_tx env.tx db none (attempt_body sql ttl env queues db)
