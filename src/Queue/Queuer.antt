-- ===== src/Queue/Queuer.antt =====
-- pkg/queue/postgres/queuer.go: adding a task to the queue.
use go_base.Base.{
  ℕ, Option, none, some, ◌∷◌, ◌++◌, String, str_eq, Result, err, if◌then◌else◌, [], unless,
}
use go_base.Queue.{
  Error, task_queue_not_specified, task_type_not_specified, waiting, TaskEnqueueRequest,
}
use go_base.Queue.Database.{TaskRow, Database}

abbrev pub empty_json : String
empty_json = "{}"

-- What the insertion takes from outside: the time of `DEFAULT NOW()`, the new UUID, and the failure
-- of the statement.
pub record EnqueueEnv : Type 0 where
  pub now : ℕ
  pub uuid : String
  pub insert : Option Error

-- `if task.Spec == nil { task.Spec = emptyJSON }`
abbrev pub default_spec : Option String → String
default_spec none = empty_json
default_spec (some spec) = spec

-- The row that the INSERT adds.
unfoldable pub new_row : EnqueueEnv → TaskEnqueueRequest → TaskRow
new_row env req = record {
  task = record {
    base = record req.base { spec = some (default_spec req.spec) };
    id = env.uuid;
    status = waiting;
    progress = empty_json;
    created_at = env.now;
    updated_at = env.now;
    started_at = none;
    finished_at = none;
    last_heartbeat_at = none;
  };
  references = req.references;
}

unfoldable pub enqueue : EnqueueEnv → TaskEnqueueRequest → Database → Result Error Database
unfolding new_row
enqueue env req db =
    if str_eq req.queue ""
    then err task_queue_not_specified
    else if str_eq req.type ""
    then err task_type_not_specified
    else unless env.insert (record db { tasks = db.tasks ++ new_row env req ∷ [] })
