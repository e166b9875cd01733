-- ===== src/Queue/Handlers/Sql.antt =====
-- pkg/queue/handlers/sql_task.go: a task that executes one statement.
use go_base.Base.{
  ℕ, ◌≡◌, refl, Bool, true, Option, none, some, List, [], ◌∷◌, String, Result, ok, err,
}
use go_base.Queue.Handlers.{Error, wrapped, Event, beat, closed, Session, after, send, close}

pub record SqlTaskProgress : Type 0 where
  pub duration : Option ℕ
  pub rows_affected : Option ℕ
  pub error_message : Option String

abbrev pub no_progress : SqlTaskProgress
no_progress = record { duration = none; rows_affected = none; error_message = none }

-- `json.Marshal`, `json.Unmarshal` of the specification, the text of an error, and what the database
-- answers to the statement: the affected rows, and the time that it took.
pub record SqlEnv : Type 0 where
  pub marshals : SqlTaskProgress → Bool
  pub unmarshal : String → Result Error String
  pub text : Error → String
  pub exec : String → Result Error (Result Error ℕ)
  pub took : ℕ

abbrev pub wrap {ℓ} : {A : Type ℓ} → String → Result Error A → Result Error A
wrap text (ok a) = ok a
wrap text (err e) = err (wrapped text e)

module _ (env : SqlEnv) where
  abbrev pub set_error : Error → SqlTaskProgress → SqlTaskProgress
  set_error e p = record p { error_message = some (env.text e) }

  abbrev pub set_duration : Session SqlTaskProgress → Session SqlTaskProgress
  set_duration s = record s { progress = record s.progress { duration = some env.took } }

  abbrev pub send_rows :
      Session SqlTaskProgress → ℕ → Session SqlTaskProgress × Result Error (Unit {0})
  send_rows s rows =
      send env.marshals (record s { progress = record s.progress { rows_affected = some rows } })

  abbrev pub exec_sql :
      Session SqlTaskProgress → String → Session SqlTaskProgress × Result Error (Unit {0})
  exec_sql s sql =
      after (set_duration s, wrap "sql execution failed" (env.exec sql))
        (λ s' result. after (s', wrap "can not get rows affected" result) send_rows)

  abbrev pub sql_body : String → Session SqlTaskProgress × Result Error (Unit {0})
  sql_body spec =
      after (send env.marshals record { beats = []; progress = no_progress })
        (λ s u. after (s, wrap "can not parse the sql task spec" (env.unmarshal spec)) exec_sql)

  unfoldable pub sql_process : String → List (Event SqlTaskProgress) × Option Error
  sql_process spec = close env.marshals set_error (sql_body spec)

  -- What the task's channel receives when every progress can be serialized, for each outcome: a first
  -- heartbeat, one with the outcome, and the close.
  abbrev pub outcome : SqlTaskProgress → Option Error → List (Event SqlTaskProgress) × Option Error
  outcome p e = (beat no_progress ∷ beat p ∷ closed ∷ [], e)

  abbrev pub failure : Option ℕ → Error → List (Event SqlTaskProgress) × Option Error
  failure took e =
      outcome record { duration = took; rows_affected = none; error_message = some (env.text e) }
        (some e)

  abbrev pub executed : Result Error (Result Error ℕ) → List (Event SqlTaskProgress) × Option Error
  executed (err e) = failure (some env.took) (wrapped "sql execution failed" e)
  executed (ok (err e)) = failure (some env.took) (wrapped "can not get rows affected" e)
  executed (ok (ok rows)) =
      outcome record { duration = some env.took; rows_affected = some rows; error_message = none }
        none

  abbrev pub expected : Result Error String → List (Event SqlTaskProgress) × Option Error
  expected (err e) = failure none (wrapped "can not parse the sql task spec" e)
  expected (ok sql) = executed (env.exec sql)

  -- If every progress can be serialized, the channel receives an empty heartbeat, then one that has
  -- the affected rows and the duration, or the error's text and the duration if the statement was
  -- executed, and then the close.
  pub sql_process-expected :
      (spec : String)
      → ((p : SqlTaskProgress) → env.marshals p ≡ true)
      → sql_process spec ≡ expected (env.unmarshal spec)
  unfolding sql_process after
  sql_process-expected spec m = of_spec (env.unmarshal spec)
    where
      sent : Session SqlTaskProgress
      sent = record { beats = no_progress ∷ []; progress = no_progress }

      of_rows :
          (r : Result Error (Result Error ℕ))
          → close env.marshals set_error (
              after
                (set_duration sent, wrap "sql execution failed" r)
                (λ s' result. after (s', wrap "can not get rows affected" result) send_rows))
            ≡ executed r
      of_rows (err e) = rw (m _) refl
      of_rows (ok (err e)) = rw (m _) refl
      of_rows (ok (ok rows)) = rw (m _) refl

      of_spec :
          (r : Result Error String)
          → close env.marshals set_error (
              after
                (send env.marshals record { beats = []; progress = no_progress })
                (λ s u. after (s, wrap "can not parse the sql task spec" r) exec_sql))
            ≡ expected r
      of_spec (err e) = rw (m no_progress) (rw (m _) refl)
      of_spec (ok sql) = rw (m no_progress) (of_rows (env.exec sql))
