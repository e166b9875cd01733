-- ===== src/Queue/Retention/Deletion.antt =====
-- pkg/queue/postgres/retention.go: which tasks a retention task deletes.
use go_base.Base.{
  ℕ, sym, ◌∙◌, ◌+◌, ◌≤◌, ◌≡◌, refl, ◌⊎◌, ◌↔◌, inl, inr, Bool, true, false, ◌&&◌, Option, none, some,
  List, [], ◌∷◌, ◌++◌, String, str_eq, eq_iff, leb, Bool-cases, arith,
}
use go_base.Queue.{TaskStatus, waiting, running, cancelled, finished, failed, other}
use go_base.Queue.Database.{Sql, TaskRow}
use go_base.Queue.Retention.Quotes.{is_plain}
use go_base.Queue.Retention.{
  Condition, status_is, queue_is, type_is, finished_before, unless_empty, conditions,
}

abbrev pub status_text : TaskStatus → String
status_text waiting = "waiting"
status_text running = "running"
status_text cancelled = "cancelled"
status_text finished = "finished"
status_text failed = "failed"
status_text (other text) = text

-- `finished_at <= now() - interval`, which is not true of NULL.
abbrev pub ended_before : ℕ → ℕ → Option ℕ → Bool
ended_before now age none = false
ended_before now age (some t) = leb (t + age) now

-- The texts that `squirrel.DebugSqlizer` puts between quotes, as they are.
abbrev pub are_plain : List Condition → Bool
are_plain [] = true
are_plain (status_is s ∷ cs) = is_plain s && are_plain cs
are_plain (queue_is q ∷ cs) = is_plain q && are_plain cs
are_plain (type_is t ∷ cs) = is_plain t && are_plain cs
are_plain (finished_before age ∷ cs) = are_plain cs

module _ (sql : Sql) (now : ℕ) where
  abbrev pub meets : TaskRow → Condition → Bool
  meets r (status_is s) = str_eq (sql.fold (status_text r.status)) (sql.fold s)
  meets r (queue_is q) = str_eq (sql.fold r.queue) (sql.fold q)
  meets r (type_is t) = str_eq (sql.fold r.type) (sql.fold t)
  meets r (finished_before age) = ended_before now age r.finished_at

  -- A row that a DELETE with these clauses deletes, their texts read as they are.
  abbrev pub deletes : List Condition → TaskRow → Bool
  deletes [] r = true
  deletes (c ∷ cs) r = meets r c && deletes cs r

  ended_iff :
      (age : ℕ) (o : Option ℕ)
      → (ended_before now age o ≡ true) ↔ ((t : ℕ) × (o ≡ some t) × (t + age ≤ now))
  ended_iff age none = (λ h. absurd (cc), λ (t, e, h). absurd (cc))
  ended_iff age (some t) = (
    λ h. (t, refl, ground arith),
    λ (u, e, h). let same : t ≡ u = ground arith in ground (arith, same),
  )

  append_iff :
      (cs ds : List Condition) (r : TaskRow) → deletes (cs ++ ds) r ≡ (deletes cs r && deletes ds r)
  append_iff [] ds r = refl
  append_iff (c ∷ cs) ds r = ground (arith, append_iff cs ds r)

  unless_empty_iff :
      (s : String) (c : Condition) (r : TaskRow)
      → (deletes (unless_empty s c) r ≡ true) ↔ ((s ≡ "") ⊎ (meets r c ≡ true))
  unless_empty_iff s c r = elim (Bool-cases (str_eq s "")) [
    | inl h ↦ rw h (λ e. inl ((eq_iff s "").0 h), λ e. refl)
    | inr h ↦ rw h (
      λ e. inr (ground arith),
      λ e. elim e [
        | inl i ↦ let t = (eq_iff s "").1 i in absurd (ground arith)
        | inr i ↦ ground arith
      ],
    )
  ]

  -- The same of the clauses, read as they are.
  clauses_iff :
      (queue type status : String) (age : ℕ) (r : TaskRow)
      → (deletes (conditions queue type status age) r ≡ true) ↔ (
          (sql.fold (status_text r.status) ≡ sql.fold status)
          × ((t : ℕ) × (r.finished_at ≡ some t) × (t + age ≤ now))
          × ((queue ≡ "") ⊎ (sql.fold r.queue ≡ sql.fold queue))
          × ((type ≡ "") ⊎ (sql.fold r.type ≡ sql.fold type)))
  clauses_iff queue type status age r =
      let of_status = eq_iff (sql.fold (status_text r.status)) (sql.fold status) in
      let of_end = ended_iff age r.finished_at in
      let of_queue = eq_iff (sql.fold r.queue) (sql.fold queue) in
      let of_type = eq_iff (sql.fold r.type) (sql.fold type) in
      let joined =
        append_iff (unless_empty queue (queue_is queue)) (unless_empty type (type_is type)) r in
      let u = unless_empty_iff queue (queue_is queue) r in
      let v = unless_empty_iff type (type_is type) r in
      (
        λ h.
            let a : str_eq (sql.fold (status_text r.status)) (sql.fold status) ≡ true =
              ground arith in
            let b : ended_before now age r.finished_at ≡ true = ground arith in
            let c : deletes (unless_empty queue (queue_is queue)) r ≡ true =
              ground (arith, joined) in
            let d : deletes (unless_empty type (type_is type)) r ≡ true = ground (arith, joined) in
            (
              of_status.0 a,
              of_end.0 b,
              elim (u.0 c) [ inl e ↦ inl e | inr e ↦ inr (of_queue.0 e) ],
              elim (v.0 d) [ inl e ↦ inl e | inr e ↦ inr (of_type.0 e) ],
            ),
        λ (a, b, c, d).
            let a' = of_status.1 a in
            let b' = of_end.1 b in
            let c' = u.1 (elim c [ inl e ↦ inl e | inr e ↦ inr (of_queue.1 e) ]) in
            let d' = v.1 (elim d [ inl e ↦ inl e | inr e ↦ inr (of_type.1 e) ]) in
            ground (arith, a', b', c', d', joined),
      )

  -- Which rows Postgres deletes when it executes the text that `squirrel.DebugSqlizer` writes of a
  -- DELETE with these clauses. A quote in a text is not escaped there, so what is read is sure only
  -- without one. Ages are in millionths of a minute, which is what `%f` writes.
  pub record Execution : Type 0 where
    pub executed : List Condition → TaskRow → Bool
    pub reads_plain :
        (cs : List Condition) (r : TaskRow) → are_plain cs ≡ true → executed cs r ≡ deletes cs r

  plain-conditions :
      (queue type status : String) (age : ℕ)
      → is_plain queue ≡ true
      → is_plain type ≡ true
      → is_plain status ≡ true
      → are_plain (conditions queue type status age) ≡ true
  plain-conditions queue type status age q t s = elim (Bool-cases (str_eq queue "")) [
    | inl a ↦ elim (Bool-cases (str_eq type "")) [
      | inl b ↦ rw (a, b, s) refl
      | inr b ↦ rw (a, b, s, t) refl
    ]
    | inr a ↦ elim (Bool-cases (str_eq type "")) [
      | inl b ↦ rw (a, b, s, q) refl
      | inr b ↦ rw (a, b, s, q, t) refl
    ]
  ]

  -- If the queue, the type and the status have no quote and no NUL, the deletion of a retention
  -- task for them and an age deletes a task exactly if the task has that status, was ended at least
  -- that age ago, and has that queue, unless the queue is empty, and that type, unless the type is
  -- empty. A task with no end is never deleted.
  pub deletes_iff :
      (x : Execution) (queue type status : String) (age : ℕ) (r : TaskRow)
      → is_plain queue ≡ true
      → is_plain type ≡ true
      → is_plain status ≡ true
      → (x.executed (conditions queue type status age) r ≡ true) ↔ (
          (sql.fold (status_text r.status) ≡ sql.fold status)
          × ((t : ℕ) × (r.finished_at ≡ some t) × (t + age ≤ now))
          × ((queue ≡ "") ⊎ (sql.fold r.queue ≡ sql.fold queue))
          × ((type ≡ "") ⊎ (sql.fold r.type ≡ sql.fold type)))
  deletes_iff x queue type status age r q t s =
      let same =
        x.reads_plain (conditions queue type status age) r
          (plain-conditions queue type status age q t s) in
      let (to, from) = clauses_iff queue type status age r in
      (λ h. to (sym same ∙ h), λ h. same ∙ from h)
