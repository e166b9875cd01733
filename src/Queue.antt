-- ===== src/Queue.antt =====
-- pkg/queue/task.go and pkg/queue/queue.go: the values that the queue's parts exchange.
pub mod Database
pub mod Queuer
pub mod Dequeuer
pub mod Progress
pub mod Lifecycle
pub mod Retention
pub mod Setup
pub mod Handlers
pub mod Scheduler
pub mod ScheduleWorker
pub mod TaskWorker
pub mod Examples
use go_base.Base.{ℕ, String, Option, List}

-- The sentinel errors of queue.go, scheduler.go and the workers, the errors that a driver returns,
-- and `errors.Wrap(e, text)` with the text of another error.
pub data Error : Type 0 where
  task_cancelled task_finished task_not_running task_not_found task_failed : Error
  task_queue_not_specified task_type_not_specified not_scheduled : Error
  schedule_queue_is_empty heartbeat_timeout : Error
  no_rows index_out_of_range nil_task nil_dereference : Error
  driver : String → Error
  wrapped : Error → Error → Error

-- `TaskStatus` is a string type, so a row can hold a value that is none of the constants.
pub data TaskStatus : Type 0 where
  waiting running cancelled finished failed : TaskStatus
  other : String → TaskStatus

-- `References`: the extra columns of a row, as names with printed values.
abbrev pub References : Type 0
References = List (String × String)

-- `Spec` is a byte slice: `none` is the nil slice.
pub record TaskBase : Type 0 where
  pub queue : String
  pub type : String
  pub spec : Option String

pub record TaskEnqueueRequest : Type 0 where
  pub base : TaskBase
  pub open base use *
  pub references : References

pub record TaskScheduleRequest : Type 0 where
  pub base : TaskBase
  pub open base use *
  pub cron_schedule : String
  pub references : References

-- Times are nanoseconds since the zero time. A nil `*time.Time` is `none`.
pub record Task : Type 0 where
  pub base : TaskBase
  pub open base use *
  pub id : String
  pub status : TaskStatus
  pub progress : String
  pub created_at : ℕ
  pub updated_at : ℕ
  pub started_at : Option ℕ
  pub finished_at : Option ℕ
  pub last_heartbeat_at : Option ℕ
