-- ===== src/Queue/Dequeuer/Wait.antt =====
-- pkg/queue/postgres/dequeuer.go: `Dequeue`, which attempts until there is a task or an error.
use go_base.Base.{
  ℕ, ◌≡◌, refl, ◌≢◌, Option, none, some, List, [], ◌∷◌, String, subst, ◌⊎◌, inl, inr,
}
use go_base.Queue.{Error, Task}
use go_base.Queue.Database.{Sql, Database}
use go_base.Queue.Dequeuer.{AttemptEnv, attempt_dequeue}

-- What the `select` receives, with what other clients did to the tables since the last attempt, the
-- answers to the attempt that follows, and whether the `Ping` after it fails.
pub data Event : Type 0 where
  cancelled : Error → Event
  ticked notified : (Database → Database) → AttemptEnv → Option Error → Event

-- `blocked`: the events are used up, and the call still waits.
pub data Outcome : Type 0 where
  returned : Option Task → Option Error → Outcome
  blocked : Outcome

-- `if task != nil || err != nil { return task, err }`, then `Ping`.
abbrev pub after_attempt :
    Database × Option Task × Option Error → Option Error → Database × Outcome → Database × Outcome
after_attempt (db, some t, e) ping rest = (db, returned (some t) e)
after_attempt (db, none, some e) ping rest = (db, returned none (some e))
after_attempt (db, none, none) (some e) rest = (db, returned none (some e))
after_attempt (db, none, none) none rest = rest

module _ (sql : Sql) (ttl : ℕ) (queues : List String) where
  pub wait : List Event → Database → Database × Outcome
  wait [] db = (db, blocked)
  wait (cancelled e ∷ es) db = (db, returned none (some e))
  wait (ticked others env ping ∷ es) db =
      let r = attempt_dequeue sql ttl env queues (others db) in
      let rest = wait es r.0 in after_attempt r ping rest
  wait (notified others env ping ∷ es) db =
      let r = attempt_dequeue sql ttl env queues (others db) in
      let rest = wait es r.0 in after_attempt r ping rest

-- The deferred `Unlisten`: its error is returned only in place of no error.
abbrev pub unlisten : Option Error → Database × Outcome → Database × Outcome
unlisten fault (db, blocked) = (db, blocked)
unlisten fault (db, returned t (some e)) = (db, returned t (some e))
unlisten fault (db, returned t none) = (db, returned t fault)

abbrev pub first_attempt :
    Database × Option Task × Option Error
    → Option Error
    → Option Error
    → Database × Outcome
    → Database × Outcome
first_attempt (db, some t, e) listen fault rest = (db, returned (some t) e)
first_attempt (db, none, some e) listen fault rest = (db, returned none (some e))
first_attempt (db, none, none) (some e) fault rest = (db, returned none (some e))
first_attempt (db, none, none) none fault rest = unlisten fault rest

unfoldable pub dequeue :
    Sql
    → ℕ
    → List String
    → AttemptEnv
    → Option Error
    → Option Error
    → List Event
    → Database
    → Database × Outcome
unfolding wait
dequeue sql ttl queues env listen fault events db =
    let r = attempt_dequeue sql ttl env queues db in
    let rest = wait sql ttl queues events r.0 in first_attempt r listen fault rest

module _ (sql : Sql) (ttl : ℕ) (queues : List String) where
  -- An attempt on a database that took a task and left the database so.
  abbrev pub IsTaken : AttemptEnv → Database → Database → Task → Type 0
  IsTaken env before db' t =
      ((attempt_dequeue sql ttl env queues before).0 ≡ db')
      × ((attempt_dequeue sql ttl env queues before).1 ≡ some t)

  -- The tables that an attempt leaves.
  abbrev after : AttemptEnv → Database → Database
  after env before = (attempt_dequeue sql ttl env queues before).0

  -- An attempt on a database that took no task, with no error.
  abbrev pub IsIdle : AttemptEnv → Database → Type 0
  IsIdle env before =
      ((attempt_dequeue sql ttl env queues before).1 ≡ none)
      × ((attempt_dequeue sql ttl env queues before).2 ≡ none)

  -- The attempt that took the task: the one of some tick or notification before any cancellation, on
  -- the tables as the other clients left them, all earlier ones of the call being idle.
  pub TakenAt : List Event → Database → Database → Task → Type 0
  TakenAt [] db db' t = ⊥
  TakenAt (cancelled e ∷ es) db db' t = ⊥
  TakenAt (ticked others env ping ∷ es) db db' t =
      IsTaken env (others db) db' t
      ⊎ (IsIdle env (others db) × (ping ≡ none) × TakenAt es (after env (others db)) db' t)
  TakenAt (notified others env ping ∷ es) db db' t =
      IsTaken env (others db) db' t
      ⊎ (IsIdle env (others db) × (ping ≡ none) × TakenAt es (after env (others db)) db' t)

  -- The same with the attempt before the wait, which comes first.
  abbrev pub Takes : AttemptEnv → Option Error → List Event → Database → Database → Task → Type 0
  Takes env listen events db db' t =
      IsTaken env db db' t ⊎ (IsIdle env db × (listen ≡ none) × TakenAt events (after env db) db' t)

  -- What an answer may be: never no task with no error, and a task only as the property says.
  abbrev Answers : (Database → Task → Type 0) → Database × Outcome → Type 0
  Answers P (db, blocked) = Unit {0}
  Answers P (db, returned none none) = ⊥
  Answers P (db, returned none (some e)) = Unit {0}
  Answers P (db, returned (some t) e) = P db t

  Answers-map :
      (P Q : Database → Task → Type 0)
      → ((db : Database) (t : Task) → P db t → Q db t)
      → (r : Database × Outcome) → Answers P r
      → Answers Q r
  Answers-map P Q f (db, blocked) a = tt
  Answers-map P Q f (db, returned none none) a = a
  Answers-map P Q f (db, returned none (some e)) a = tt
  Answers-map P Q f (db, returned (some t) e) a = f db t a

  after_attempt-Answers :
      (P : Database → Task → Type 0) (env : AttemptEnv) (before : Database)
      (r : Database × Option Task × Option Error) (ping : Option Error) (rest : Database × Outcome)
      → attempt_dequeue sql ttl env queues before ≡ r
      → Answers P rest
      → Answers
          (λ db' t. IsTaken env before db' t ⊎ (IsIdle env before × (ping ≡ none) × P db' t))
          (after_attempt r ping rest)
  after_attempt-Answers P env before (db, some t, e) ping rest h a =
      inl ((λ i. (h i).0), λ i. (h i).1)
  after_attempt-Answers P env before (db, none, some e) ping rest h a = tt
  after_attempt-Answers P env before (db, none, none) (some e) rest h a = tt
  after_attempt-Answers P env before (db, none, none) none rest h a =
      Answers-map P
        (λ db' t.
          IsTaken env before db' t
          ⊎ (IsIdle env before × (◌≡◌ {A = Option Error} none none) × P db' t))
        (λ db' t p. inr (((λ i. (h i).1), λ i. (h i).2), refl, p)) rest a

  wait-Answers :
      (events : List Event) (db : Database)
      → Answers (TakenAt events db) (wait sql ttl queues events db)
  unfolding wait TakenAt
  wait-Answers [] db = tt
  wait-Answers (cancelled e ∷ es) db = tt
  wait-Answers (ticked others env ping ∷ es) db =
      after_attempt-Answers (TakenAt es (after env (others db))) env (others db) _ ping _ refl
        (wait-Answers es _)
  wait-Answers (notified others env ping ∷ es) db =
      after_attempt-Answers (TakenAt es (after env (others db))) env (others db) _ ping _ refl
        (wait-Answers es _)

  unlisten-Answers :
      (P : Database → Task → Type 0) (fault : Option Error) (r : Database × Outcome)
      → Answers P r
      → Answers P (unlisten fault r)
  unlisten-Answers P fault (db, blocked) a = a
  unlisten-Answers P fault (db, returned none (some e)) a = a
  unlisten-Answers P fault (db, returned (some t) (some e)) a = a
  unlisten-Answers P fault (db, returned none none) a = absurd a
  unlisten-Answers P fault (db, returned (some t) none) a = a

  dequeue-Answers :
      (env : AttemptEnv) (listen fault : Option Error) (events : List Event) (db : Database)
      → Answers (Takes env listen events db) (dequeue sql ttl queues env listen fault events db)
  unfolding dequeue
  dequeue-Answers env listen fault events db =
      go _ listen refl
        (unlisten-Answers (TakenAt events (after env db)) fault _ (wait-Answers events _))
    where
      go :
          (r : Database × Option Task × Option Error) (listen : Option Error)
          → attempt_dequeue sql ttl env queues db ≡ r
          → Answers
              (TakenAt events (after env db))
              (unlisten fault (wait sql ttl queues events r.0))
          → Answers
              (Takes env listen events db)
              (first_attempt r listen fault (wait sql ttl queues events r.0))
      go (d, some t, e) listen h a = inl ((λ i. (h i).0), λ i. (h i).1)
      go (d, none, some e) listen h a = tt
      go (d, none, none) (some e) h a = tt
      go (d, none, none) none h a =
          Answers-map (TakenAt events (after env db)) (Takes env none events db)
            (λ db' t p. inr (((λ i. (h i).1), λ i. (h i).2), refl, p))
            (unlisten fault (wait sql ttl queues events d)) a

  -- `Dequeue` never returns no task together with no error, whatever fails and whatever it
  -- receives.
  pub dequeue-ne-nil :
      (env : AttemptEnv) (listen fault : Option Error) (events : List Event) (db : Database)
      → (dequeue sql ttl queues env listen fault events db).1 ≢ returned none none
  dequeue-ne-nil env listen fault events db h =
      subst
        (λ (o : Outcome).
          Answers (Takes env listen events db)
            ((dequeue sql ttl queues env listen fault events db).0, o))
        h (dequeue-Answers env listen fault events db)

  -- A task that `Dequeue` returns was taken by its first attempt, or by the attempt after one of
  -- the ticks and notifications that it received before any cancellation, on the tables as the
  -- attempt before and then the other clients left them; every attempt before took nothing and met
  -- no error, listening and the pings before did not fail, and the database is as the attempt that
  -- took the task left it.
  pub dequeue-Takes :
      (env : AttemptEnv) (listen fault : Option Error) (events : List Event) (db : Database)
      {t : Task} {e : Option Error}
      → (dequeue sql ttl queues env listen fault events db).1 ≡ returned (some t) e
      → Takes env listen events db (dequeue sql ttl queues env listen fault events db).0 t
  dequeue-Takes env listen fault events db h =
      subst
        (λ (o : Outcome).
          Answers (Takes env listen events db)
            ((dequeue sql ttl queues env listen fault events db).0, o))
        h (dequeue-Answers env listen fault events db)
