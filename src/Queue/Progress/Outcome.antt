-- ===== src/Queue/Progress/Outcome.antt =====
-- pkg/queue/postgres/dequeuer.go: which tasks `updateProgress` accepts and what it writes.
use go_base.Base.{
  ℕ, ◌≡◌, refl, sym, ap, ◌∙◌, ◌⊎◌, ◌↔◌, inl, inr, Bool, true, false, Option, none, some, List, [],
  ◌∷◌, Memᴰ, String, str_eq, eq_iff, ok, err, >>=-eq-ok, unless-eq-ok, >>=_ok, unless_ok, arith,
  map, Bool-cases,
}
use go_base.Queue.{Error, task_finished, TaskStatus, waiting, cancelled, finished, Task}
use go_base.Queue.Database.{
  TaskRow, Database, set_row, update_tasks, with_tx-eq-ok, with_tx-commit, with_tx-rollback,
  with_tx-cases,
}
use go_base.Queue.Progress.{
  ProgressEnv, find_row, or_not_found, check_status, set_progress, valid_progress, progress_body,
  write_found, update_progress, finish,
}

pub find_row-Mem :
    (id : String) (rows : List TaskRow) {r : TaskRow}
    → find_row id rows ≡ some r
    → Memᴰ r rows × (r.id ≡ id)
find_row-Mem id [] h = absurd (cc)
find_row-Mem id (x ∷ xs) h = elim (Bool-cases (str_eq x.id id)) [
  | inl same ↦
      let e : x ≡ _ = ground arith in
      (Memᴰ.head (sym e), ap (λ (y : TaskRow). y.id) (sym e) ∙ (eq_iff x.id id).0 same)
  | inr differs ↦ let (m, e) = find_row-Mem id xs (ground arith) in (Memᴰ.tail m, e)
]

-- The row that an update leaves under the identifier.
find_row-update :
    (id : String) (f : Task → Task) (rows : List TaskRow) {r : TaskRow}
    → ((t : Task) → (f t).id ≡ t.id)
    → find_row id rows ≡ some r
    → find_row id (map (set_row id f) rows) ≡ some (record r { task = f r.task })
find_row-update id f [] keep h = absurd (cc)
find_row-update id f (x ∷ xs) {r} keep h = elim (Bool-cases (str_eq x.id id)) [
  | inl same ↦
      let e : x ≡ r = ground arith in
      ground (arith, eq_iff x.id id, eq_iff (f x.task).id id, keep x.task)
  | inr differs ↦
      let e : find_row id xs ≡ some r = ground arith in
      ground (arith, find_row-update id f xs keep e)
]

pub set_progress-id :
    (now : ℕ) (progress : String) (is_final is_failed : Bool) (t : Task)
    → (set_progress now progress is_final is_failed t).id ≡ t.id
set_progress-id now progress is_final is_failed t = ground arith

-- The statuses that pass the switch: `waiting`, `cancelled` and `finished` do not.
abbrev pub IsOpen : TaskStatus → Type 0
IsOpen waiting = ⊥
IsOpen cancelled = ⊥
IsOpen finished = ⊥
IsOpen _ = Unit {0}

check_status-eq-ok : (s : TaskStatus) {u : Unit {0}} → check_status s ≡ ok u → IsOpen s
check_status-eq-ok waiting h = cc
check_status-eq-ok cancelled h = cc
check_status-eq-ok finished h = cc
check_status-eq-ok _ h = tt

check_status_open : (s : TaskStatus) → IsOpen s → check_status s ≡ ok tt
check_status_open waiting h = elim h [ ]
check_status_open cancelled h = elim h [ ]
check_status_open finished h = elim h [ ]
check_status_open _ h = refl

or_not_found-eq-ok :
    (found : Option TaskRow) {r : TaskRow} → or_not_found found ≡ ok r → found ≡ some r
or_not_found-eq-ok none h = cc
or_not_found-eq-ok (some x) h = ground arith

module _ (env : ProgressEnv) (id progress : String) (is_final is_failed : Bool)
    (db : Database) where
  pub progress_body-eq-ok :
      {d : Database} {u : Unit {0}}
      → progress_body env id progress is_final is_failed db ≡ ok (d, u)
      → (r : TaskRow) × (find_row id db.tasks ≡ some r)
        × IsOpen r.status
        × (d ≡ update_tasks id (set_progress env.now progress is_final is_failed) db)
  unfolding progress_body write_found
  progress_body-eq-ok h =
      let (found, e, rest) = >>=-eq-ok _ _ h in
      let (_, l) = unless-eq-ok env.select e in
      let (row, f, rest') = >>=-eq-ok (or_not_found found) _ rest in
      let (_, c, write) = >>=-eq-ok (check_status row.status) _ rest' in
      let (_, w) = unless-eq-ok env.update write in
      (row, l ∙ or_not_found-eq-ok found f, check_status-eq-ok row.status c, ground arith)

  write_found_refused :
      (r : TaskRow) {e : Error}
      → check_status r.status ≡ err e
      → write_found env id progress is_final is_failed db (some r) ≡ err e
  unfolding write_found
  write_found_refused r c = rw c

  write_found_accepted :
      (r : TaskRow)
      → IsOpen r.status
      → env.update ≡ none
      → write_found env id progress is_final is_failed db (some r)
        ≡ ok (update_tasks id (set_progress env.now progress is_final is_failed) db, tt)
  unfolding write_found
  write_found_accepted r o u = rw (check_status_open r.status o, u)

-- Nothing of a statement or of the transaction fails.
pub record IsQuiet (env : ProgressEnv) : Type 0 where
  pub begin : env.tx.begin ≡ none
  pub commit : env.tx.commit ≡ none
  pub rollback : env.tx.rollback ≡ none
  pub select : env.select ≡ none
  pub update : env.update ≡ none

module _ (env : ProgressEnv) (id progress : String) (is_final is_failed : Bool)
    (db : Database) where
  -- An update writes the row of an existing open task, or nothing.
  pub update_progress-cases :
      ((update_progress env id progress is_final is_failed db).0 ≡ db)
      ⊎ ((r : TaskRow) × (find_row id db.tasks ≡ some r)
          × IsOpen r.status
          × ((update_progress env id progress is_final is_failed db).0
              ≡ update_tasks id
                  (set_progress env.now (valid_progress progress) is_final is_failed)
                  db))
  unfolding update_progress
  update_progress-cases =
      elim (with_tx-cases env.tx db tt
        (progress_body env id (valid_progress progress) is_final is_failed db)) [
          | inl e ↦ inl e
          | inr e ↦
              inr (progress_body-eq-ok env id (valid_progress progress) is_final is_failed db e)
        ]

  pub update_progress-eq-ok :
      {db' : Database}
      → update_progress env id progress is_final is_failed db ≡ (db', none)
      → (r : TaskRow) × (find_row id db.tasks ≡ some r)
        × IsOpen r.status
        × (db'
            ≡ update_tasks id
                (set_progress env.now (valid_progress progress) is_final is_failed)
                db)
  unfolding update_progress
  update_progress-eq-ok {db'} h =
      progress_body-eq-ok env id (valid_progress progress) is_final is_failed db {u = tt}
        (with_tx-eq-ok env.tx db tt _ {a = tt} (λ i. ((h i).0, tt, (h i).1)))

  -- With no failing statement, the status decides: a refused update writes nothing.
  update_progress_refused :
      {r : TaskRow} {e : Error}
      → IsQuiet env
      → find_row id db.tasks ≡ some r
      → check_status r.status ≡ err e
      → update_progress env id progress is_final is_failed db ≡ (db, some e)
  unfolding update_progress progress_body
  update_progress_refused {r} quiet f c =
      let rest = λ (found : Option TaskRow).
        write_found env id (valid_progress progress) is_final is_failed db found in
      let body =
        >>=_ok rest (unless_ok (find_row id db.tasks) quiet.select)
        ∙ ap rest f
        ∙ write_found_refused env id (valid_progress progress) is_final is_failed db r c in
      let done = with_tx-rollback env.tx db tt _ quiet.begin quiet.rollback body in
      λ i. ((done i).0, (done i).2)

  pub update_progress_accepted :
      {r : TaskRow}
      → IsQuiet env
      → find_row id db.tasks ≡ some r
      → IsOpen r.status
      → (update_progress env id progress is_final is_failed db).1 ≡ none
  unfolding update_progress progress_body
  update_progress_accepted {r} quiet f o =
      let rest = λ (found : Option TaskRow).
        write_found env id (valid_progress progress) is_final is_failed db found in
      let body =
        >>=_ok rest (unless_ok (find_row id db.tasks) quiet.select)
        ∙ ap rest f
        ∙ write_found_accepted env id (valid_progress progress) is_final is_failed db r o
            quiet.update in
      let done = with_tx-commit env.tx db tt _ quiet.begin quiet.commit body in
      ap (λ (x : Database × Unit {0} × Option Error). x.2) done

  -- With no failing statement an update of the progress succeeds exactly when the task exists and
  -- is neither waiting, cancelled nor finished.
  pub update_progress_ok_iff :
      IsQuiet env
      → ((update_progress env id progress is_final is_failed db).1 ≡ none)
        ↔ ((r : TaskRow) × (find_row id db.tasks ≡ some r) × IsOpen r.status)
  update_progress_ok_iff quiet = (
    λ h.
        let (r, f, o, _) =
          update_progress-eq-ok
            (λ i. ((update_progress env id progress is_final is_failed db).0, h i)) in
        (r, f, o),
    λ x. update_progress_accepted quiet x.1 x.2,
  )

  -- An update that returned no error leaves the task that was under its identifier there, with the
  -- progress, or an empty object for none, and the status, heartbeat and end that the flags say.
  pub find_row-update_progress :
      {db' : Database} {r : TaskRow}
      → update_progress env id progress is_final is_failed db ≡ (db', none)
      → find_row id db.tasks ≡ some r
      → find_row id db'.tasks
        ≡ some (record r {
          task = set_progress env.now (valid_progress progress) is_final is_failed r.task;
        })
  find_row-update_progress {db'} {r} h f =
      let (_, _, _, e) = update_progress-eq-ok h in
      let g = set_progress env.now (valid_progress progress) is_final is_failed in
      rw e (
        find_row-update id g db.tasks
          (set_progress-id env.now (valid_progress progress) is_final is_failed) f)

-- After a `finish` that returned no error, every update of the task for which no statement fails
-- reports that it is finished, and leaves the database as it is.
pub finish_closes :
    (env env' : ProgressEnv) (id p p' : String) (is_final is_failed : Bool) (db : Database)
    {db' : Database}
    → finish env id p db ≡ (db', none)
    → IsQuiet env'
    → update_progress env' id p' is_final is_failed db' ≡ (db', some task_finished)
unfolding finish
finish_closes env env' id p p' is_final is_failed db {db'} h quiet =
    let (r, f, _, _) = update_progress-eq-ok env id p true false db h in
    let g = find_row-update_progress env id p true false db h f in
    update_progress_refused env' id p' is_final is_failed db' quiet g refl
