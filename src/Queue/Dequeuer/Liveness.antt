-- ===== src/Queue/Dequeuer/Liveness.antt =====
-- pkg/queue/postgres/dequeuer.go: an attempt takes a task when there is one to take.
use go_base.Base.{
  ℕ, suc, ◌<◌, ◌≡◌, refl, sym, ap, ◌∙◌, ◌≢◌, true, false, not, none, some, List, [], ◌∷◌, Memᴰ,
  String, str_eq, eq_iff, ok, arith, filter, map, get_elem?, length, Mem-filter, Mem-filter_inv,
  Mem-map_inv, Bool-cases, inl, inr, Option-cases, >>=_ok, unless_ok,
}
use go_base.Queue.{Task}
use go_base.Queue.Database.{Sql, TaskRow, Database, with_tx-commit}
use go_base.Queue.Dequeuer.{
  AttemptEnv, double_ttl, is_available, is_inflight, claim_row, take_task, plan, attempt_body,
  attempt_dequeue, follow_plan, choose_queue, contains,
}

-- No statement fails, and the random number is in the range that `rand.Intn` promises.
pub record IsQuiet (env : AttemptEnv) : Type 0 where
  pub begin : env.tx.begin ≡ none
  pub commit : env.tx.commit ≡ none
  pub inflight : env.list_inflight ≡ none
  pub select : env.select ≡ none
  pub update : env.update ≡ none
  pub in_range : (n : ℕ) → env.draw (suc n) < suc n

Mem_of_contains : (q : String) (l : List String) → contains q l ≡ true → Memᴰ q l
Mem_of_contains q [] h = cc
Mem_of_contains q (p ∷ ps) h = elim (Bool-cases (str_eq p q)) [
  | inl same ↦ Memᴰ.head (sym ((eq_iff p q).0 same))
  | inr other ↦ Memᴰ.tail (Mem_of_contains q ps (ground arith))
]

get_elem?_in_range :
    (l : List String) (n : ℕ) → n < length l → (q : String) × (get_elem? l n ≡ some q) × Memᴰ q l
get_elem?_in_range [] n h = absurd (omega arith)
get_elem?_in_range (x ∷ xs) ℕ.zero h = (x, refl, Memᴰ.head refl)
get_elem?_in_range (x ∷ xs) (suc n) h =
    let (q, e, m) = get_elem?_in_range xs n (omega arith) in (q, e, Memᴰ.tail m)

choose_queue-some :
    (env : AttemptEnv) (l : List String) {p : String}
    → ((n : ℕ) → env.draw (suc n) < suc n)
    → Memᴰ p l
    → (q : String) × (choose_queue env l ≡ ok (some q)) × Memᴰ q l
unfolding choose_queue
choose_queue-some env [] h m = elim m [ ]
choose_queue-some env (x ∷ xs) h m =
    let (q, e, m') = get_elem?_in_range (x ∷ xs) _ (h (length xs)) in (q, rw (e, choose_queue), m')

module _ (sql : Sql) (ttl : ℕ) (env : AttemptEnv) (db : Database) (quiet : IsQuiet env) where
  not-listed :
      (p : String)
      → ((r : TaskRow)
          → Memᴰ r db.tasks
          → is_inflight (double_ttl env.now ttl) r ≡ true
          → r.queue ≢ p)
      → contains p (
          sql.distinct
            (map (λ r. r.queue) (filter (is_inflight (double_ttl env.now ttl)) db.tasks)))
        ≡ false
  not-listed p idle = elim (Bool-cases _) [
    | inr e ↦ e
    | inl e ↦
        let m = sql.distinct_sound _ p (Mem_of_contains p _ e) in
        let (r, m', e') = Mem-map_inv (λ (r : TaskRow). r.queue) _ m in
        let (held, w) = Mem-filter_inv (is_inflight (double_ttl env.now ttl)) db.tasks m' in
        absurd (idle r held w (sym e'))
  ]

  plan-some :
      (p q : String) (qs : List String)
      → Memᴰ p (q ∷ qs)
      → ((r : TaskRow)
          → Memᴰ r db.tasks
          → is_inflight (double_ttl env.now ttl) r ≡ true
          → r.queue ≢ p)
      → (c : String) × (plan sql ttl env (q ∷ qs) db ≡ ok (some c)) × Memᴰ c (q ∷ qs)
  unfolding plan
  plan-some p q qs m idle =
      let names =
        sql.distinct
          (map (λ r. r.queue) (filter (is_inflight (double_ttl env.now ttl)) db.tasks)) in
      let free = λ (s : String). not (contains s names) in
      let kept = Mem-filter free (q ∷ qs) m (ap not (not-listed p idle)) in
      let (c, e, mc) = choose_queue-some env (filter free (q ∷ qs)) quiet.in_range kept in
      (c, >>=_ok _ (unless_ok names quiet.inflight) ∙ e, (Mem-filter_inv free (q ∷ qs) mc).0)

  take_some :
      (c : String) (r : TaskRow)
      → Memᴰ r db.tasks
      → sql.fold r.queue ≡ sql.fold c
      → r.started_at ≡ none
      → (d : Database) × (t : Task) × (take_task sql ttl env c db ≡ ok (d, some t))
  unfolding take_task is_available claim_row
  take_some c r m same unstarted =
      let available = is_available sql c (double_ttl env.now ttl) in
      let kept =
        Mem-filter available db.tasks m (ground (arith, eq_iff (sql.fold r.queue) (sql.fold c))) in
      elim (Option-cases (sql.latest (filter available db.tasks))) [
        | inl e ↦ absurd (elim (rw (sql.latest_none _ e) at kept) [ ])
        | inr (row, e) ↦ (
          _,
          _,
          >>=_ok (claim_row env db) (unless_ok _ quiet.select)
              ∙ ap (claim_row env db) e
              ∙ unless_ok _ quiet.update,
        )
      ]

  -- If no statement fails and the random number is in its range, one of the asked queues has
  -- nothing in flight, and each asked queue has a task that was never started, then an attempt
  -- takes a task.
  pub attempt_takes :
      (p q : String) (qs : List String)
      → Memᴰ p (q ∷ qs)
      → ((r : TaskRow)
          → Memᴰ r db.tasks
          → is_inflight (double_ttl env.now ttl) r ≡ true
          → r.queue ≢ p)
      → ((c : String)
          → Memᴰ c (q ∷ qs)
          → (r : TaskRow) × Memᴰ r db.tasks
            × (sql.fold r.queue ≡ sql.fold c)
            × (r.started_at ≡ none))
      → (d : Database) × (t : Task) × (attempt_dequeue sql ttl env (q ∷ qs) db ≡ (d, some t, none))
  unfolding attempt_dequeue attempt_body
  attempt_takes p q qs m idle full =
      let (c, e, mc) = plan-some p q qs m idle in
      let (r, held, same, unstarted) = full c mc in
      let (d, t, e') = take_some c r held same unstarted in
      let body = >>=_ok {m = plan sql ttl env (q ∷ qs) db} (follow_plan sql ttl env db) e ∙ e' in
      (d, t, with_tx-commit env.tx db none _ quiet.begin quiet.commit body)
