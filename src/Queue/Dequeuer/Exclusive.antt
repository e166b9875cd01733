-- ===== src/Queue/Dequeuer/Exclusive.antt =====
-- pkg/queue/postgres/dequeuer.go: "Allows only one task per queue to be worked on at once".
use go_base.Base.{
  ℕ, ◌≡◌, sym, ap, ◌∙◌, ◌≢◌, Bool, true, none, some, List, Memᴰ, String, eq_iff, Mem-filter,
  Mem-map, Mem-map_inv, Mem-filter_inv, arith, map, filter, ok, unless-eq-ok, [], ◌∷◌,
}
use go_base.Queue.{Task}
use go_base.Queue.Database.{Sql, TaskRow, Database, set_row}
use go_base.Queue.Dequeuer.{
  AttemptEnv, double_ttl, is_available, is_inflight, is_unfinished, start, contains,
  attempt_dequeue, generate_queue_list, potential_queues, scan,
}
use go_base.Queue.Dequeuer.Taken.{attempt-Took, plan-eq-ok, contains_of_Mem}

module _ (sql : Sql) where
  -- Every queue name is its own folding: the names differ by more than the case of letters.
  pub record AreFolded (queues : List String) (db : Database) : Type 0 where
    pub rows : (r : TaskRow) → Memᴰ r db.tasks → sql.fold r.queue ≡ r.queue
    pub asked : (q : String) → Memᴰ q queues → sql.fold q ≡ q

  -- A name that SELECT DISTINCT lists is the queue of some row that is selected.
  listed_row :
      (where_ : TaskRow → Bool) (db : Database) (q : String)
      → Memᴰ q (sql.distinct (map (λ r. r.queue) (filter where_ db.tasks)))
      → (r : TaskRow) × Memᴰ r db.tasks × (where_ r ≡ true) × (q ≡ r.queue)
  listed_row where_ db q m =
      let (r, held, e) = Mem-map_inv (λ (r : TaskRow). r.queue) _ (sql.distinct_sound _ q m) in
      let (m', w) = Mem-filter_inv where_ db.tasks held in (r, m', w, e)

  listed_folded :
      (queues : List String) (where_ : TaskRow → Bool) (db : Database) (q : String)
      → AreFolded queues db
      → Memᴰ q (sql.distinct (map (λ r. r.queue) (filter where_ db.tasks)))
      → sql.fold q ≡ q
  listed_folded queues where_ db q f m =
      let (r, held, _, e) = listed_row where_ db q m in rw e (f.rows r held)

  -- With folded names the list holds the queue of every selected row.
  listed :
      (queues : List String) (where_ : TaskRow → Bool) (db : Database) (r : TaskRow)
      → AreFolded queues db
      → Memᴰ r db.tasks
      → where_ r ≡ true
      → Memᴰ r.queue (sql.distinct (map (λ r. r.queue) (filter where_ db.tasks)))
  listed queues where_ db r f held w =
      let (p, m, e) =
        sql.distinct_complete _ r.queue
          (Mem-map (λ (r : TaskRow). r.queue) _ (Mem-filter where_ db.tasks held w)) in
      let same : p ≡ r.queue = sym (listed_folded queues where_ db p f m) ∙ e ∙ f.rows r held in
      rw same at m

  potential_folded :
      (env : AttemptEnv) (queues : List String) (db : Database) {potential : List String}
      {q : String}
      → AreFolded queues db
      → potential_queues sql env queues db ≡ ok potential
      → Memᴰ q potential
      → sql.fold q ≡ q
  unfolding generate_queue_list
  potential_folded env [] db {q = q} f e m =
      let (_, l) = unless-eq-ok env.list_unfinished e in
      listed_folded [] is_unfinished db q f (rw (← l) at m)
  potential_folded env (p ∷ ps) db {potential} {q = q} f e m =
      let l : p ∷ ps ≡ potential = ground arith in f.asked q (rw (← l) at m)

  pub available_same :
      (q : String) (cut : ℕ) (r : TaskRow)
      → is_available sql q cut r ≡ true
      → sql.fold r.queue ≡ sql.fold q
  unfolding is_available
  available_same q cut r h = ground (arith, eq_iff (sql.fold r.queue) (sql.fold q))

  -- Where the queue names are their own case foldings, an attempt that takes a task takes it from a
  -- queue none of whose tasks is in flight.
  pub attempt_exclusive :
      (ttl : ℕ) (env : AttemptEnv) (queues : List String) (db : Database) {db' : Database}
      {t : Task} (r : TaskRow)
      → attempt_dequeue sql ttl env queues db ≡ (db', some t, none)
      → AreFolded queues db
      → Memᴰ r db.tasks
      → is_inflight (double_ttl env.now ttl) r ≡ true
      → sql.fold r.queue ≢ sql.fold t.queue
  unfolding scan
  attempt_exclusive ttl env queues db {t = t} r h f held inflight same =
      let cut = double_ttl env.now ttl in
      let (q, e, took) = attempt-Took sql ttl env queues db h in
      let (potential, pe, m, free) = plan-eq-ok sql ttl env queues db e in
      let fq = potential_folded env queues db f pe m in
      let from_queue : sql.fold t.queue ≡ q =
        ap (λ (u : Task). sql.fold u.queue) took.taken
        ∙ available_same q cut took.row took.available
        ∙ fq in
      let eq : r.queue ≡ q = sym (f.rows r held) ∙ same ∙ from_queue in
      let names =
        sql.distinct (map (λ (s : TaskRow). s.queue) (filter (is_inflight cut) db.tasks)) in
      let found =
        contains_of_Mem r.queue names (listed queues (is_inflight cut) db r f held inflight) in
      cc (ap (λ s. contains s names) eq)

  -- The key of the table: rows with one identifier are one row.
  abbrev pub HasKeys : Database → Type 0
  HasKeys db = (r s : TaskRow) → Memᴰ r db.tasks → Memᴰ s db.tasks → r.id ≡ s.id → r ≡ s

  -- No queue has two tasks in flight.
  abbrev pub IsExclusive : ℕ → Database → Type 0
  IsExclusive cut db =
      (r s : TaskRow)
      → Memᴰ r db.tasks
      → Memᴰ s db.tasks
      → is_inflight cut r ≡ true
      → is_inflight cut s ≡ true
      → sql.fold r.queue ≡ sql.fold s.queue
      → r.id ≡ s.id

  set_row-id : (id : String) (now : ℕ) (r : TaskRow) → (set_row id (start now) r).id ≡ r.id
  set_row-id id now r = ground arith

  set_row-queue : (id : String) (now : ℕ) (r : TaskRow) → (set_row id (start now) r).queue ≡ r.queue
  set_row-queue id now r = ground arith

  module _ (ttl : ℕ) (env : AttemptEnv) (queues : List String) (db : Database) {db' : Database}
      {t : Task} (h : attempt_dequeue sql ttl env queues db ≡ (db', some t, none))
      (f : AreFolded queues db) (keys : HasKeys db) where
    taken_row : TaskRow
    taken_row = (attempt-Took sql ttl env queues db h).2.row

    -- Beside the taken row nothing of its queue is in flight.
    taken_alone :
        (r s : TaskRow)
        → Memᴰ r db.tasks
        → Memᴰ s db.tasks
        → r.id ≡ taken_row.id
        → is_inflight (double_ttl env.now ttl) s ≡ true
        → sql.fold r.queue ≢ sql.fold s.queue
    unfolding taken_row scan
    taken_alone r s hr hs e inflight same =
        let took = (attempt-Took sql ttl env queues db h).2 in
        let eq : r ≡ took.row = keys r took.row hr took.held e in
        attempt_exclusive ttl env queues db s h f hs inflight (
          sym same
          ∙ ap (λ (u : TaskRow). sql.fold u.queue) eq
          ∙ sym (ap (λ (u : Task). sql.fold u.queue) took.taken))

    mark : TaskRow → TaskRow
    unfolding taken_row
    mark = set_row taken_row.id (start env.now)

    marked_same :
        (r s : TaskRow)
        → Memᴰ r db.tasks
        → Memᴰ s db.tasks
        → IsExclusive (double_ttl env.now ttl) db
        → is_inflight (double_ttl env.now ttl) (mark r) ≡ true
        → is_inflight (double_ttl env.now ttl) (mark s) ≡ true
        → sql.fold r.queue ≡ sql.fold s.queue
        → r.id ≡ s.id
    unfolding mark
    marked_same r s hr hs excl ir is_ same = ground (
      arith,
      eq_iff r.id taken_row.id,
      eq_iff s.id taken_row.id,
      taken_alone r s hr hs,
      taken_alone s r hs hr,
      excl r s hr hs,
    )

    -- If no queue has two tasks in flight, the queue names are their own case foldings and the task
    -- identifiers are a key, then after an attempt that takes a task still no queue has two tasks
    -- in flight.
    pub attempt-IsExclusive :
        IsExclusive (double_ttl env.now ttl) db → IsExclusive (double_ttl env.now ttl) db'
    unfolding mark taken_row
    attempt-IsExclusive excl r' s' mr ms ir is_ same =
        let took = (attempt-Took sql ttl env queues db h).2 in
        let (r, hr, er) = Mem-map_inv mark db.tasks (rw took.updated at mr) in
        let (s, hs, es) = Mem-map_inv mark db.tasks (rw took.updated at ms) in
        let cut = double_ttl env.now ttl in
        let to_id = λ (a : TaskRow) (b : TaskRow) (e : b ≡ mark a).
          ap (λ (x : TaskRow). x.id) e ∙ set_row-id taken_row.id env.now a in
        let to_queue = λ (a : TaskRow) (b : TaskRow) (e : b ≡ mark a).
          ap (λ (x : TaskRow). sql.fold x.queue) e
          ∙ ap sql.fold (set_row-queue taken_row.id env.now a) in
        to_id r r' er
        ∙ marked_same r s hr hs excl (ap (is_inflight cut) (sym er) ∙ ir)
            (ap (is_inflight cut) (sym es) ∙ is_) (sym (to_queue r r' er) ∙ same ∙ to_queue s s' es)
        ∙ sym (to_id s s' es)
