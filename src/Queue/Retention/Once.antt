-- ===== src/Queue/Retention/Once.antt =====
-- pkg/queue/postgres/retention.go: a retention task is scheduled exactly once.
use go_base.Base.{
  suc, ◌≤◌, ◌≡◌, refl, sym, ap, subst, ◌∙◌, inl, inr, Bool, true, false, ◌&&◌, not, Option, none,
  some, List, [], ◌∷◌, ◌++◌, map, filter, length, Memᴰ, String, str_eq, eq_iff, Bool-cases, ok,
  ◌>>=◌, unless, unless_ok, if◌then◌else◌, arith,
}
use go_base.Queue.Database.{Sql, ScheduleRow, Database}
use go_base.Queue.Scheduler.{Formats, any}
use go_base.Queue.Retention.{
  RetentionTaskSpec, Library, RetentionEnv, maintenance_task_queue, retention_task, new_schedule,
  same_key, conflicts, excluded, update_conflict, upsert, wrap, prepare, execute, with_row,
  assert_retention_schedule_with_spec,
}

-- What a map that keeps a test does to the rows that pass it and to the others.
module _ {A : Type 0} (p : A → Bool) (f : A → A) where
  any-false : (l : List A) → any p l ≡ false → filter p l ≡ []
  any-false [] h = refl
  any-false (x ∷ xs) h = ground (arith, any-false xs (ground arith))

  any-true : (l : List A) → any p l ≡ true → 1 ≤ length (filter p l)
  any-true [] h = absurd (cc)
  any-true (x ∷ xs) h = elim (Bool-cases (p x)) [
    | inl e ↦ rw e (omega arith)
    | inr e ↦ rw e (any-true xs (ground arith))
  ]

  module _ (keeps : (a : A) → p a ≡ true → p (f a) ≡ true) where
    length-update :
        (l : List A) → length (filter p (map (λ a. if p a then f a else a) l)) ≡ length (filter p l)
    length-update [] = refl
    length-update (x ∷ xs) = elim (Bool-cases (p x)) [
      | inl e ↦ rw (e, keeps x e) (ap suc (length-update xs))
      | inr e ↦ rw e (rw e (length-update xs))
    ]

    others-update :
        (l : List A)
        → filter (λ a. not (p a)) (map (λ a. if p a then f a else a) l) ≡ filter (λ a. not (p a)) l
    others-update [] = refl
    others-update (x ∷ xs) = elim (Bool-cases (p x)) [
      | inl e ↦ rw (e, keeps x e) (others-update xs)
      | inr e ↦ rw e (rw e (ap (λ (l : List A). x ∷ l) (others-update xs)))
    ]

    updated-Mem :
        (l : List A) (a : A)
        → Memᴰ a (map (λ a. if p a then f a else a) l)
        → p a ≡ true
        → (b : A) × (a ≡ f b)
    updated-Mem [] a m h = elim m [ ]
    updated-Mem (x ∷ xs) a (Memᴰ.head q) h = elim (Bool-cases (p x)) [
      | inl e ↦ (x, q ∙ rw e refl)
      | inr e ↦ let same : a ≡ x = q ∙ rw e refl in absurd (ground (arith, ap p same))
    ]
    updated-Mem (x ∷ xs) a (Memᴰ.tail m) h = updated-Mem xs a m h

length-filter_snoc :
    {A : Type 0} (p : A → Bool) (l : List A) (a : A)
    → p a ≡ true
    → (length (filter p (l ++ a ∷ [])) ≡ suc (length (filter p l)))
      × (filter (λ b. not (p b)) (l ++ a ∷ []) ≡ filter (λ b. not (p b)) l)
length-filter_snoc p [] a h = rw h (refl, refl)
length-filter_snoc p (x ∷ xs) a h =
    let (n, o) = length-filter_snoc p xs a h in
    elim (Bool-cases (p x)) [ inl e ↦ rw e (ap suc n, o) | inr e ↦ rw e (n, ap (λ l. x ∷ l) o) ]

snoc-inv :
    {A : Type 0} (p : A → Bool) (l : List A) (a b : A)
    → any p l ≡ false
    → Memᴰ b (l ++ a ∷ [])
    → p b ≡ true
    → b ≡ a
snoc-inv p [] a b h (Memᴰ.head e) t = e
snoc-inv p [] a b h (Memᴰ.tail m) t = elim m [ ]
snoc-inv p (x ∷ xs) a b h (Memᴰ.head e) t = absurd (ground (arith, ap p e))
snoc-inv p (x ∷ xs) a b h (Memᴰ.tail m) t = snoc-inv p xs a b (ground arith) m t

module _ (sql : Sql) (f : Formats) (lib : Library f) where
  abbrev pub holds : Option String → String → Bool
  holds none v = false
  holds (some w) v = str_eq w v

  -- A retention schedule for the queue, the type and the status of a specification.
  abbrev pub is_for : RetentionTaskSpec → ScheduleRow → Bool
  is_for spec r =
      str_eq (sql.fold r.task_type) (sql.fold retention_task)
      && (str_eq (sql.fold r.task_queue) (sql.fold maintenance_task_queue)
          && (holds (lib.field r.task_spec "queueName") spec.queue_name
              && (holds (lib.field r.task_spec "taskType") spec.task_type
                  && holds (lib.field r.task_spec "status") spec.status)))

  module _ (spec : RetentionTaskSpec) (env : RetentionEnv) (bytes : String)
      (m : lib.marshal spec ≡ ok bytes) where
    same_key-holds :
        (o o' : Option String) (v : String) → o' ≡ some v → same_key sql f lib o o' ≡ holds o v
    same_key-holds none o' v e = refl
    same_key-holds (some w) o' v e = rw e refl

    conflicts-is_for :
        (r : ScheduleRow) → conflicts sql f lib (new_schedule sql f lib env bytes) r ≡ is_for spec r
    conflicts-is_for r =
        let a =
          same_key-holds (lib.field r.task_spec "queueName") (lib.field (f.jsonb bytes) "queueName")
            spec.queue_name (lib.queue_name_field spec bytes m) in
        let b =
          same_key-holds (lib.field r.task_spec "taskType") (lib.field (f.jsonb bytes) "taskType")
            spec.task_type (lib.task_type_field spec bytes m) in
        let c =
          same_key-holds (lib.field r.task_spec "status") (lib.field (f.jsonb bytes) "status")
            spec.status (lib.status_field spec bytes m) in
        ground (arith, a, b, c)

    new-fields :
        (holds (lib.field (f.jsonb bytes) "queueName") spec.queue_name ≡ true)
        × (holds (lib.field (f.jsonb bytes) "taskType") spec.task_type ≡ true)
        × (holds (lib.field (f.jsonb bytes) "status") spec.status ≡ true)
    new-fields = (
      rw (lib.queue_name_field spec bytes m) ((eq_iff spec.queue_name spec.queue_name).1 refl),
      rw (lib.task_type_field spec bytes m) ((eq_iff spec.task_type spec.task_type).1 refl),
      rw (lib.status_field spec bytes m) ((eq_iff spec.status spec.status).1 refl),
    )

    excluded-is_for :
        (r : ScheduleRow)
        → is_for spec r ≡ true
        → is_for spec (excluded sql f lib (new_schedule sql f lib env bytes) r) ≡ true
    excluded-is_for r h = let (a, b, c) = new-fields in ground (arith, a, b, c)

    new-is_for : is_for spec (new_schedule sql f lib env bytes) ≡ true
    new-is_for =
        let (a, b, c) = new-fields in
        let t = (eq_iff (sql.fold retention_task) (sql.fold retention_task)).1 refl in
        let q =
          (eq_iff (sql.fold maintenance_task_queue) (sql.fold maintenance_task_queue)).1 refl in
        ground (arith, a, b, c, t, q)

    -- One schedule is for the specification, with its text and due at once, and the others are as they
    -- were.
    pub record IsScheduledOnce (before after : List ScheduleRow) : Type 0 where
      pub once : length (filter (is_for spec) after) ≡ 1
      pub current :
          (r : ScheduleRow)
          → Memᴰ r after
          → is_for spec r ≡ true
          → (r.task_spec ≡ f.jsonb bytes) × (r.next_execution_time ≡ some env.now)
      pub others :
          filter (λ r. not (is_for spec r)) after ≡ filter (λ r. not (is_for spec r)) before

    -- The statement, with the conflict written as the description above.
    upserted : List ScheduleRow → List ScheduleRow
    upserted rows =
        let new = new_schedule sql f lib env bytes in
        if any (is_for spec) rows
        then map (λ r. if is_for spec r then excluded sql f lib new r else r) rows
        else rows ++ new ∷ []

    any-same :
        (rows : List ScheduleRow)
        → any (conflicts sql f lib (new_schedule sql f lib env bytes)) rows ≡ any (is_for spec) rows
    any-same [] = refl
    any-same (r ∷ rs) = ground (arith, conflicts-is_for r, any-same rs)

    map-same :
        (rows : List ScheduleRow)
        → map (update_conflict sql f lib (new_schedule sql f lib env bytes)) rows
          ≡ map
              (λ r.
                if is_for spec r
                then excluded sql f lib (new_schedule sql f lib env bytes) r
                else r)
              rows
    map-same [] = refl
    map-same (r ∷ rs) =
        let new = new_schedule sql f lib env bytes in
        ap
          (λ (b : Bool).
            (if b then excluded sql f lib new r else r) ∷ map (update_conflict sql f lib new) rs)
          (conflicts-is_for r)
        ∙ ap (λ (l : List ScheduleRow). (if is_for spec r then excluded sql f lib new r else r) ∷ l)
            (map-same rs)

    upsert-same :
        (rows : List ScheduleRow)
        → upsert sql f lib (new_schedule sql f lib env bytes) rows ≡ upserted rows
    unfolding upserted
    upsert-same rows = rw (any-same rows, map-same rows) refl

    upserted-IsScheduledOnce :
        (rows : List ScheduleRow)
        → length (filter (is_for spec) rows) ≤ 1
        → IsScheduledOnce rows (upserted rows)
    unfolding upserted
    upserted-IsScheduledOnce rows few =
        let new = new_schedule sql f lib env bytes in
        elim (Bool-cases (any (is_for spec) rows)) [
          | inl t ↦
              let n = length-update (is_for spec) (excluded sql f lib new) excluded-is_for rows in
              let one = any-true (is_for spec) (excluded sql f lib new) rows t in
              rw t record {
                once = omega (arith, n, one, few);
                current = λ r k h.
                    let (b, e) =
                      updated-Mem (is_for spec) (excluded sql f lib new) excluded-is_for rows r k
                        h in
                    (
                      ap (λ (x : ScheduleRow). x.task_spec) e,
                      ap (λ (x : ScheduleRow). x.next_execution_time) e,
                    );
                others = others-update (is_for spec) (excluded sql f lib new) excluded-is_for rows;
              }
          | inr t ↦
              let none_yet = any-false (is_for spec) (excluded sql f lib new) rows t in
              let (n, o) = length-filter_snoc (is_for spec) rows new new-is_for in
              rw t record {
                once = n ∙ ap (λ (l : List ScheduleRow). suc (length l)) none_yet;
                current = λ r k h.
                    let e = snoc-inv (is_for spec) rows new r t k h in
                    (
                      ap (λ (x : ScheduleRow). x.task_spec) e,
                      ap (λ (x : ScheduleRow). x.next_execution_time) e,
                    );
                others = o;
              }
        ]

    -- If the specification can be serialized, its cron expression is accepted, the statement does
    -- not fail and at most one schedule is for the queue, the type and the status of the
    -- specification, then afterwards exactly one is, whether or not the count of the rows fails: it
    -- has the specification's text and is due at once, and every other schedule and every task is
    -- as it was.
    pub assert_retention-IsScheduledOnce :
        (db : Database)
        → f.cron_tab (lib.cron env.minute) ≡ none
        → env.exec ≡ none
        → length (filter (is_for spec) db.schedules) ≤ 1
        → IsScheduledOnce db.schedules
            (assert_retention_schedule_with_spec sql f lib env spec db).0.schedules
          × ((assert_retention_schedule_with_spec sql f lib env spec db).0.tasks ≡ db.tasks)
    unfolding assert_retention_schedule_with_spec
    assert_retention-IsScheduledOnce db c x few =
        let ready : prepare sql f lib env spec ≡ ok (new_schedule sql f lib env bytes) =
          ap
            (λ r. wrap sql f lib "can not build retention task spec" r >>= λ (b : String).
              unless (f.cron_tab (lib.cron env.minute)) (new_schedule sql f lib env b))
            m
          ∙ unless_ok (new_schedule sql f lib env bytes) c in
        let new = new_schedule sql f lib env bytes in
        let done : (assert_retention_schedule_with_spec sql f lib env spec db).0
            ≡ record db { schedules = upsert sql f lib new db.schedules } =
          ap (λ r. (with_row sql f lib env r db).0) ready
          ∙ ap (λ e. (execute sql f lib env e new db).0) x in
        (
          subst (IsScheduledOnce db.schedules)
              (sym (upsert-same db.schedules) ∙ ap (λ (d : Database). d.schedules) (sym done))
              (upserted-IsScheduledOnce db.schedules few),
          ap (λ (d : Database). d.tasks) done,
        )
