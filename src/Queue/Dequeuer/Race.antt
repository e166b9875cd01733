-- ===== src/Queue/Dequeuer/Race.antt =====
-- pkg/queue/postgres/dequeuer.go: the lists of `attemptDequeue` are read outside its transaction and
-- before any row is locked, so two attempts can choose one queue.
use go_base.Base.{
  ℕ, ◌≤◌, ◌<◌, ◌≡◌, refl, sym, ap, ◌∙◌, ◌≢◌, true, false, Option, none, some, List, Memᴰ, String,
  eq_iff, Result, ok, ◌>>=◌, >>=-eq-ok, arith, Mem-map, Mem-map_inv, subst,
}
use mathlib.Core.Bool.{false≢true}
use go_base.Queue.{Error, Task}
use go_base.Queue.Database.{Sql, TaskRow, Database, set_row, Mem-update_tasks}
use go_base.Queue.Dequeuer.{
  AttemptEnv, double_ttl, is_available, is_inflight, start, scan, take_task, plan, follow_plan,
}
use go_base.Queue.Dequeuer.Taken.{Took, follow_plan-Took}
use go_base.Queue.Dequeuer.Exclusive.{IsExclusive}

-- Two attempts that both read the lists before the first one takes its row.
unfoldable pub interleaved :
    Sql
    → ℕ
    → AttemptEnv
    → AttemptEnv
    → List String
    → Database
    → Result Error (Database × Option Task × Option Task)
unfolding plan take_task
interleaved sql ttl env env' queues db = do
  choice ← plan sql ttl env queues db
  choice' ← plan sql ttl env' queues db
  taken ← follow_plan sql ttl env db choice
  taken' ← follow_plan sql ttl env' taken.0 choice'
  ok (taken'.0, taken.1, taken'.1)

-- A row that was just started is not available until two TTLs have passed.
started-not-available :
    (sql : Sql) (q id : String) (cut now : ℕ) (r : TaskRow)
    → (set_row id (start now) r).id ≡ id
    → cut ≤ now
    → is_available sql q cut (set_row id (start now) r) ≡ false
unfolding is_available
started-not-available sql q id cut now r same late = ground (arith, eq_iff r.id id)

started-is_inflight :
    (id : String) (cut now : ℕ) (r : TaskRow)
    → r.id ≡ id
    → r.finished_at ≡ none
    → cut < now
    → is_inflight cut (set_row id (start now) r) ≡ true
started-is_inflight id cut now r same f c = ground (arith, eq_iff r.id id)

started-id : (now : ℕ) (r : TaskRow) → (set_row r.id (start now) r).id ≡ r.id
started-id now r = ground arith

started-queue : (now : ℕ) (r : TaskRow) → (set_row r.id (start now) r).queue ≡ r.queue
started-queue now r = ground arith

module _ (sql : Sql) (ttl : ℕ) (env env' : AttemptEnv) where
  both_taken :
      (cut : ℕ) (q q' : String) (db d db' : Database) {t t' : Task}
      → Took sql ttl env q db d t
      → Took sql ttl env' q' d db' t'
      → sql.fold t.queue ≡ sql.fold t'.queue
      → t.finished_at ≡ none
      → t'.finished_at ≡ none
      → double_ttl env'.now ttl ≤ env.now
      → cut < env.now
      → cut < env'.now
      → ¬ IsExclusive sql cut db'
  unfolding scan
  both_taken cut q q' db d db' a b same f f' soon c c' excl =
      let r = a.row in
      let s = b.row in
      let first = set_row r.id (start env.now) r in
      let second = set_row s.id (start env'.now) s in
      let held_s = subst (λ (x : Database). Memᴰ s x.tasks) a.updated b.held in
      let (x, _, e) = Mem-map_inv (set_row r.id (start env.now)) db.tasks held_s in
      let apart : s.id ≢ r.id = λ i. false≢true (
        sym (
          started-not-available sql q' r.id (double_ttl env'.now ttl) env.now x
            (ap (λ (y : TaskRow). y.id) (sym e) ∙ i) soon)
        ∙ ap (is_available sql q' (double_ttl env'.now ttl)) (sym e)
        ∙ b.available) in
      let in_d =
        subst (λ (y : Database). Memᴰ first y.tasks) (sym a.updated)
          (Mem-map (set_row r.id (start env.now)) db.tasks a.held) in
      let in_db =
        Mem-update_tasks s.id (start env'.now) d in_d (λ i. apart (sym i ∙ started-id env.now r)) in
      let first_held = subst (λ (y : Database). Memᴰ first y.tasks) (sym b.updated) in_db in
      let second_held =
        subst (λ (y : Database). Memᴰ second y.tasks) (sym b.updated)
          (Mem-map (set_row s.id (start env'.now)) d.tasks b.held) in
      let ended = λ (u : Task) (v : Task) (i : u ≡ v). ap (λ (y : Task). y.finished_at) i in
      let name = λ (u : Task) (v : Task) (i : u ≡ v). ap (λ (y : Task). sql.fold y.queue) i in
      let queues =
        ap sql.fold (started-queue env.now r)
        ∙ sym (name _ _ a.taken)
        ∙ same
        ∙ name _ _ b.taken
        ∙ sym (ap sql.fold (started-queue env'.now s)) in
      let ids =
        excl first second first_held second_held
          (started-is_inflight r.id cut env.now r refl (sym (ended _ _ a.taken) ∙ f) c)
          (started-is_inflight s.id cut env'.now s refl (sym (ended _ _ b.taken) ∙ f') c') queues in
      apart (sym (started-id env'.now s) ∙ sym ids ∙ started-id env.now r)

module _ (sql : Sql) (ttl : ℕ) (env env' : AttemptEnv) (queues : List String) (db : Database) where
  -- If two attempts read the lists before either takes its row, and take tasks of one queue within
  -- two TTLs of one another, neither of them finished, then the queue has two tasks in flight.
  pub interleaved-not-IsExclusive :
      (cut : ℕ) {db' : Database} {t t' : Task}
      → interleaved sql ttl env env' queues db ≡ ok (db', some t, some t')
      → sql.fold t.queue ≡ sql.fold t'.queue
      → t.finished_at ≡ none
      → t'.finished_at ≡ none
      → double_ttl env'.now ttl ≤ env.now
      → cut < env.now
      → cut < env'.now
      → ¬ IsExclusive sql cut db'
  unfolding interleaved
  interleaved-not-IsExclusive cut {db'} {t} {t'} h same f f' soon c c' =
      let (choice, _, h1) = >>=-eq-ok (plan sql ttl env queues db) _ h in
      let (choice', _, h2) = >>=-eq-ok (plan sql ttl env' queues db) _ h1 in
      let (taken, e3, h3) = >>=-eq-ok (follow_plan sql ttl env db choice) _ h2 in
      let (taken', e4, h4) = >>=-eq-ok (follow_plan sql ttl env' taken.0 choice') _ h3 in
      let e5 : follow_plan sql ttl env db choice ≡ ok (taken.0, some t) = ground arith in
      let e6 : follow_plan sql ttl env' taken.0 choice' ≡ ok (db', some t') = ground arith in
      let (q, _, a) = follow_plan-Took sql ttl env choice db e5 in
      let (q', _, b) = follow_plan-Took sql ttl env' choice' taken.0 e6 in
      both_taken sql ttl env env' cut q q' db taken.0 db' a b same f f' soon c c'
