-- ===== src/Queue/Dequeuer/Taken.antt =====
-- What a successful attempt took, and that an attempt which takes nothing changes nothing.
use go_base.Base.{
  ℕ, ◌≤◌, ◌≡◌, refl, ap, ◌∙◌, true, false, not, Option, none, some, List, [], ◌∷◌, Memᴰ, filter,
  map, String, ok, >>=-eq-ok, unless-eq-ok, arith, Mem-filter_inv, Mem-filter, eq_iff, get_elem?,
  length,
}
use go_base.Queue.{Task}
use go_base.Queue.Database.{Sql, TaskRow, Database, update_tasks, with_tx-eq-ok}
use go_base.Queue.Dequeuer.{
  AttemptEnv, double_ttl, is_available, is_inflight, scan, start, claim_row, take_task, follow_plan,
  plan, attempt_body, attempt_dequeue, contains, choose_queue, potential_queues,
}

pub contains_of_Mem : (q : String) (qs : List String) → Memᴰ q qs → contains q qs ≡ true
contains_of_Mem q [] m = elim m [ ]
contains_of_Mem q (p ∷ ps) (Memᴰ.head e) = ground (arith, eq_iff p q)
contains_of_Mem q (p ∷ ps) (Memᴰ.tail m) = ground (arith, contains_of_Mem q ps m)

Mem-get_elem? : (qs : List String) (n : ℕ) (q : String) → get_elem? qs n ≡ some q → Memᴰ q qs
Mem-get_elem? [] n q h = cc
Mem-get_elem? (p ∷ ps) ℕ.zero q h = Memᴰ.head (ground arith)
Mem-get_elem? (p ∷ ps) (ℕ.suc n) q h = Memᴰ.tail (Mem-get_elem? ps n q h)

choose_queue-Mem :
    (env : AttemptEnv) (qs : List String) (q : String)
    → choose_queue env qs ≡ ok (some q)
    → Memᴰ q qs
unfolding choose_queue
choose_queue-Mem env [] q h = cc
choose_queue-Mem env (p ∷ ps) q h =
    Mem-get_elem? (p ∷ ps) (env.draw (length (p ∷ ps))) q (ground arith)

module _ (sql : Sql) (ttl : ℕ) (env : AttemptEnv) where
  -- The row behind a taken task: the newest of the available rows.
  pub record Took (q : String) (db db' : Database) (t : Task) : Type 0 where
    pub row : TaskRow
    pub held : Memᴰ row db.tasks
    pub available : is_available sql q (double_ttl env.now ttl) row ≡ true
    pub newest :
        (s : TaskRow)
        → Memᴰ s db.tasks
        → is_available sql q (double_ttl env.now ttl) s ≡ true
        → s.created_at ≤ row.created_at
    pub updated : db' ≡ update_tasks row.id (start env.now) db
    pub taken :
        t ≡ record (scan row) { started_at = some env.now; last_heartbeat_at = some env.now }

  claim_row-eq-ok :
      (found : Option TaskRow) (db : Database) {db' : Database} {t : Task}
      → claim_row env db found ≡ ok (db', some t)
      → (row : TaskRow) × (found ≡ some row)
        × (db' ≡ update_tasks row.id (start env.now) db)
        × (t ≡ record (scan row) { started_at = some env.now; last_heartbeat_at = some env.now })
  unfolding claim_row
  claim_row-eq-ok none db h = cc
  claim_row-eq-ok (some row) db h =
      let (_, e) = unless-eq-ok env.update h in (row, refl, ground arith, ground arith)

  pub take_task-Took :
      (q : String) (db : Database) {db' : Database} {t : Task}
      → take_task sql ttl env q db ≡ ok (db', some t)
      → Took q db db' t
  unfolding take_task
  take_task-Took q db h =
      let p = is_available sql q (double_ttl env.now ttl) in
      let (found, e, claim) = >>=-eq-ok _ _ h in
      let (_, l) = unless-eq-ok env.select e in
      let (row, f, updated, taken) = claim_row-eq-ok found db claim in
      let top = l ∙ f in
      let (held, available) = Mem-filter_inv p db.tasks (sql.latest_mem _ row top) in
      record {
        row = row;
        held = held;
        available = available;
        newest = λ s m a. sql.latest_max _ row s top (Mem-filter p db.tasks m a);
        updated = updated;
        taken = taken;
      }

  pub follow_plan-Took :
      (choice : Option String) (db : Database) {db' : Database} {t : Task}
      → follow_plan sql ttl env db choice ≡ ok (db', some t)
      → (q : String) × (choice ≡ some q) × Took q db db' t
  follow_plan-Took none db h = absurd (cc)
  follow_plan-Took (some q) db h = (q, refl, take_task-Took q db h)

  pub attempt_body-Took :
      (queues : List String) (db : Database) {db' : Database} {t : Task}
      → attempt_body sql ttl env queues db ≡ ok (db', some t)
      → (q : String) × (plan sql ttl env queues db ≡ ok (some q)) × Took q db db' t
  unfolding attempt_body
  attempt_body-Took queues db h =
      let (choice, e, rest) =
        >>=-eq-ok (plan sql ttl env queues db) (follow_plan sql ttl env db) h in
      let (q, c, took) = follow_plan-Took choice db rest in (q, e ∙ ap ok c, took)

  pub attempt-Took :
      (queues : List String) (db : Database) {db' : Database} {t : Task}
      → attempt_dequeue sql ttl env queues db ≡ (db', some t, none)
      → (q : String) × (plan sql ttl env queues db ≡ ok (some q)) × Took q db db' t
  unfolding attempt_dequeue
  attempt-Took queues db h =
      attempt_body-Took queues db
        (with_tx-eq-ok env.tx db none (attempt_body sql ttl env queues db) h)

  pub plan-eq-ok :
      (queues : List String) (db : Database) {q : String}
      → plan sql ttl env queues db ≡ ok (some q)
      → (potential : List String) × (potential_queues sql env queues db ≡ ok potential)
        × Memᴰ q potential
        × (contains q (
              sql.distinct
                (map (λ r. r.queue) (filter (is_inflight (double_ttl env.now ttl)) db.tasks)))
            ≡ false)
  unfolding plan
  plan-eq-ok queues db {q} h =
      let (potential, e, rest) = >>=-eq-ok (potential_queues sql env queues db) _ h in
      let (inflight, e', choice) = >>=-eq-ok _ _ rest in
      let (_, l) = unless-eq-ok env.list_inflight e' in
      let (m, free) =
        Mem-filter_inv (λ s. not (contains s inflight)) potential
          (choose_queue-Mem env _ q choice) in
      (potential, e, m, rw l (ground arith))
