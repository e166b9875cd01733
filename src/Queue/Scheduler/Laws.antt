-- ===== src/Queue/Scheduler/Laws.antt =====
-- pkg/queue/postgres/scheduler.go: what `AssertSchedule` leaves behind, and what a second call does.
use go_base.Base.{
  ◌+◌, ◌≡◌, refl, sym, ap, ◌∙◌, Bool, true, false, Option, none, some, List, [], ◌∷◌, ◌++◌, Memᴰ,
  String, eq_iff, Result, ok, err, unless, >>=-eq-ok, unless-eq-ok, >>=_ok, unless_ok, ◌⊎◌, inl,
  inr, arith, length, length-append,
}
use go_base.Queue.{Error, not_scheduled, References, TaskScheduleRequest}
use go_base.Queue.Database.{Sql, Tx, ScheduleRow, Database}
use go_base.Queue.Scheduler.{
  Formats, ScheduleEnv, AssertEnv, check_request, check_cron, new_schedule, schedule, column,
  references_match, matches, any, ensure_schedule, when_missing, begun, assert_body,
  assert_schedule,
}

-- No statement of an `AssertSchedule` fails.
pub record IsQuiet (env : AssertEnv) : Type 0 where
  pub begin : env.tx.begin ≡ none
  pub commit : env.tx.commit ≡ none
  pub lock : env.lock ≡ none
  pub select : env.select ≡ none
  pub insert : env.schedule.insert ≡ none

any_snoc {ℓ} :
    {A : Type ℓ} (p : A → Bool) (l : List A) (a : A) → p a ≡ true → any p (l ++ a ∷ []) ≡ true
any_snoc p [] a h = ground arith
any_snoc p (x ∷ xs) a h = ground (arith, any_snoc p xs a h)

-- A Go map: every pair is what its key is mapped to.
abbrev pub AreKeys : References → Type 0
AreKeys refs = (k v : String) → Memᴰ (k, v) refs → column k refs ≡ some v

references_match_self :
    (refs row : References)
    → ((k v : String) → Memᴰ (k, v) refs → column k row ≡ some v)
    → references_match refs row ≡ true
references_match_self [] row h = refl
references_match_self ((k, v) ∷ refs) row h =
    let ih = references_match_self refs row (λ k' v' m. h k' v' (Memᴰ.tail m)) in
    ground (arith, h k v (Memᴰ.head refl), ih, eq_iff v v)

module _ (tx : Tx) (db : Database) (body : Result Error Database) where
  begun-eq-ok : {db' : Database} → begun tx db body ≡ (db', none) → body ≡ ok db'
  begun-eq-ok h = ground arith

  begun_ok :
      {db' : Database}
      → tx.begin ≡ none
      → tx.commit ≡ none
      → body ≡ ok db'
      → begun tx db body ≡ (db', none)
  begun_ok b c h = ground arith

module _ (sql : Sql) (f : Formats) (req : TaskScheduleRequest) where
  matches_new :
      (env : ScheduleEnv) (spec : String)
      → req.spec ≡ some spec
      → AreKeys req.references
      → matches sql f req (new_schedule f env req) ≡ true
  unfolding matches new_schedule
  matches_new env spec e keys = ground (
    arith,
    references_match_self req.references req.references keys,
    eq_iff (sql.fold req.queue) (sql.fold req.queue),
    eq_iff (sql.fold req.type) (sql.fold req.type),
    eq_iff (f.jsonb spec) (f.jsonb spec),
  )

  ensure_found :
      (db : Database)
      → check_request req ≡ ok tt
      → any (matches sql f req) db.schedules ≡ true
      → ensure_schedule sql f none req db ≡ ok tt
  unfolding ensure_schedule
  ensure_found db c e = rw (c, e)

  ensure-eq-ok :
      (fault : Option Error) (db : Database) (u : Unit {0})
      → ensure_schedule sql f fault req db ≡ ok u
      → ensure_schedule sql f none req db ≡ ok tt
  unfolding ensure_schedule
  ensure-eq-ok none db u h = h
  ensure-eq-ok (some x) db u h = ground arith

  schedule-eq-ok :
      (env : ScheduleEnv) (db : Database) {db' : Database}
      → schedule f env req db ≡ ok db'
      → (check_request req ≡ ok tt)
        × (db' ≡ record db { schedules = db.schedules ++ new_schedule f env req ∷ [] })
  unfolding schedule
  schedule-eq-ok env db h =
      let (_, c, h') = >>=-eq-ok (check_request req) _ h in
      let (_, _, h'') = >>=-eq-ok (check_cron f req.cron_schedule) _ h' in
      let (_, e) = unless-eq-ok env.insert h'' in (c, sym e)

  -- The body keeps a schedule that exists, and adds one that is missing.
  missing-eq-ok :
      (m : Result Error (Unit {0})) (db : Database) (add : Result Error Database) {db' : Database}
      → when_missing m db add ≡ ok db'
      → ((u : Unit {0}) × (m ≡ ok u) × (db' ≡ db)) ⊎ ((m ≡ err not_scheduled) × (add ≡ ok db'))
  missing-eq-ok (ok u) db add h = inl (u, refl, ground arith)
  missing-eq-ok (err not_scheduled) db add h = inr (refl, h)
  missing-eq-ok (err _) db add h = absurd (cc)

  assert-eq-ok :
      (env : AssertEnv) (db : Database) {db' : Database}
      → assert_schedule sql f env req db ≡ (db', none)
      → ((u : Unit {0}) × (ensure_schedule sql f env.select req db ≡ ok u) × (db' ≡ db))
        ⊎ ((ensure_schedule sql f env.select req db ≡ err not_scheduled)
            × (schedule f env.schedule req db ≡ ok db'))
  unfolding assert_schedule assert_body
  assert-eq-ok env db {db'} h =
      let body : assert_body sql f env req db ≡ ok db' =
        begun-eq-ok env.tx db (assert_body sql f env req db) h in
      let (_, _, h') = >>=-eq-ok (unless env.lock tt) _ body in missing-eq-ok _ db _ h'

  schedule_ok :
      (env : ScheduleEnv) (db : Database)
      → check_request req ≡ ok tt
      → check_cron f req.cron_schedule ≡ ok tt
      → env.insert ≡ none
      → schedule f env req db
        ≡ ok (record db { schedules = db.schedules ++ new_schedule f env req ∷ [] })
  unfolding schedule
  schedule_ok env db c c' i = rw (c, c', i)

  any_nil_spec : req.spec ≡ none → (l : List ScheduleRow) → any (matches sql f req) l ≡ false
  unfolding matches
  any_nil_spec e [] = refl
  any_nil_spec e (r ∷ rs) = ground (arith, any_nil_spec e rs)

  ensure_nil :
      (db : Database)
      → req.spec ≡ none
      → check_request req ≡ ok tt
      → ensure_schedule sql f none req db ≡ err not_scheduled
  unfolding ensure_schedule
  ensure_nil db e c = rw (c, any_nil_spec e db.schedules)

  -- An `AssertSchedule` that returned no error, for a request with a specification and with one
  -- value for each reference, leaves a schedule that `EnsureSchedule` finds.
  pub assert_ensures :
      (env : AssertEnv) (spec : String) (db : Database) {db' : Database}
      → req.spec ≡ some spec
      → AreKeys req.references
      → assert_schedule sql f env req db ≡ (db', none)
      → ensure_schedule sql f none req db' ≡ ok tt
  assert_ensures env spec db {db'} e keys h = elim (assert-eq-ok env db h) [
    | inl (u, found, same) ↦ rw same (ensure-eq-ok env.select db u found)
    | inr (_, added) ↦
        let (c, new) = schedule-eq-ok env.schedule db added in
        ensure_found db' c (
          rw new
            (any_snoc (matches sql f req) db.schedules _ (matches_new env.schedule spec e keys)))
  ]

  -- After an `AssertSchedule` that returned no error, for a request with a specification and with
  -- one value for each reference, a second one with no failing statement returns no error and
  -- changes nothing.
  pub assert_twice :
      (env env' : AssertEnv) (spec : String) (db : Database) {db' : Database}
      → req.spec ≡ some spec
      → AreKeys req.references
      → assert_schedule sql f env req db ≡ (db', none)
      → IsQuiet env'
      → assert_schedule sql f env' req db' ≡ (db', none)
  unfolding assert_schedule assert_body
  assert_twice env env' spec db {db'} e keys h quiet =
      let found = assert_ensures env spec db e keys h in
      begun_ok env'.tx db' (assert_body sql f env' req db') quiet.begin quiet.commit (
        >>=_ok _ (unless_ok tt quiet.lock)
        ∙ ap (λ m. when_missing m db' (schedule f env'.schedule req db'))
            (ap (λ fault. ensure_schedule sql f fault req db') quiet.select ∙ found))

  -- With no failing statement, `AssertSchedule` for a valid request with no specification adds
  -- another schedule every time and returns no error.
  pub assert_nil_spec :
      (env : AssertEnv) (db : Database)
      → IsQuiet env
      → req.spec ≡ none
      → check_request req ≡ ok tt
      → check_cron f req.cron_schedule ≡ ok tt
      → ((assert_schedule sql f env req db).1 ≡ none)
        × (length (assert_schedule sql f env req db).0.schedules ≡ length db.schedules + 1)
  unfolding assert_schedule assert_body
  assert_nil_spec env db quiet e c c' =
      let added = record db { schedules = db.schedules ++ new_schedule f env.schedule req ∷ [] } in
      let done = begun_ok env.tx db (assert_body sql f env req db) quiet.begin quiet.commit (
        >>=_ok _ (unless_ok tt quiet.lock)
        ∙ ap (λ m. when_missing m db (schedule f env.schedule req db))
            (ap (λ fault. ensure_schedule sql f fault req db) quiet.select ∙ ensure_nil db e c)
        ∙ schedule_ok env.schedule db c c' quiet.insert) in
      (
        (λ i. (done i).1),
        (λ i. length (done i).0.schedules)
            ∙ length-append db.schedules (new_schedule f env.schedule req ∷ [])
            ∙ omega arith,
      )
