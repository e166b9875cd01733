-- ===== src/Queue/ScheduleWorker/Due.antt =====
-- pkg/queue/workers/schedule_worker.go: the number of schedules that are due, and what setting a
-- next execution does to it.
use go_base.Base.{
  ℕ, suc, ◌≤◌, ◌<◌, ◌≡◌, refl, ap, true, false, Option, none, some, List, [], ◌∷◌, map, filter,
  Memᴰ, String, eq_iff, arith, if◌then◌else◌,
}
use go_base.Queue.Database.{ScheduleRow}
use go_base.Queue.ScheduleWorker.{TaskEnv, is_due, set_next, null_le}

-- No statement fails, no row is locked, and the clock reads a time between two others.
pub record IsQuiet (first last : ℕ) (env : TaskEnv) : Type 0 where
  pub since : first ≤ env.now
  pub until : env.now ≤ last
  pub later : first ≤ env.later
  pub begin : env.tx.begin ≡ none
  pub commit : env.tx.commit ≡ none
  pub rollback : env.tx.rollback ≡ none
  pub select : env.select ≡ none
  pub insert : env.enqueue.insert ≡ none
  pub update : env.update ≡ none
  pub affected : env.affected ≡ none
  pub unlocked : (r : ScheduleRow) → env.locked r ≡ false

-- The number of schedules that are due.
abbrev pub due : ℕ → List ScheduleRow → ℕ
due now [] = 0
due now (r ∷ rs) =
    let rest = due now rs in if null_le r.next_execution_time now then suc rest else rest

-- A next execution that is not due: NULL, or later.
abbrev pub IsLater : ℕ → Option ℕ → Type 0
IsLater now none = Unit {0}
IsLater now (some t) = now < t

-- What is not due at a time was not due before it.
null_le_mono : (o : Option ℕ) (t u : ℕ) → t ≤ u → null_le o u ≡ false → null_le o t ≡ false
null_le_mono none t u h e = refl
null_le_mono (some a) t u h e = ground arith

pub null_le_late : (o : Option ℕ) (t u : ℕ) → t ≤ u → null_le o t ≡ true → null_le o u ≡ true
null_le_late none t u h e = absurd (cc)
null_le_late (some a) t u h e = ground arith

pub due-set_next-le :
    (now : ℕ) (id : String) (t : Option ℕ) (rows : List ScheduleRow)
    → IsLater now t
    → due now (map (set_next id t) rows) ≤ due now rows
due-set_next-le now id t [] h = omega arith
due-set_next-le now id none (r ∷ rs) h = ground (arith, due-set_next-le now id none rs h)
due-set_next-le now id (some u) (r ∷ rs) h = ground (arith, due-set_next-le now id (some u) rs h)

pub due-set_next-lt :
    (now : ℕ) (r : ScheduleRow) (t : Option ℕ) (rows : List ScheduleRow)
    → IsLater now t
    → Memᴰ r rows
    → null_le r.next_execution_time now ≡ true
    → due now (map (set_next r.schedule_id t) rows) < due now rows
due-set_next-lt now r t [] h m d = elim m [ ]
due-set_next-lt now r none (x ∷ rs) h (Memᴰ.head e) d =
    let d' : null_le x.next_execution_time now ≡ true = rw e at d in
    ground (
      arith,
      due-set_next-le now r.schedule_id none rs h,
      eq_iff x.schedule_id r.schedule_id,
      ap (λ y. y.schedule_id) e,
    )
due-set_next-lt now r (some u) (x ∷ rs) h (Memᴰ.head e) d =
    let d' : null_le x.next_execution_time now ≡ true = rw e at d in
    ground (
      arith,
      due-set_next-le now r.schedule_id (some u) rs h,
      eq_iff x.schedule_id r.schedule_id,
      ap (λ y. y.schedule_id) e,
    )
due-set_next-lt now r none (x ∷ rs) h (Memᴰ.tail m) d =
    ground (arith, due-set_next-lt now r none rs h m d)
due-set_next-lt now r (some u) (x ∷ rs) h (Memᴰ.tail m) d =
    ground (arith, due-set_next-lt now r (some u) rs h m d)

pub no_due :
    (first last : ℕ) (env : TaskEnv) (rows : List ScheduleRow)
    → IsQuiet first last env
    → filter (is_due env) rows ≡ []
    → due first rows ≡ 0
no_due first last env [] q h = refl
no_due first last env (r ∷ rs) q h =
    let not_now : is_due env r ≡ false = ground arith in
    let later : null_le r.next_execution_time env.now ≡ false = ground (arith, q.unlocked r) in
    let sooner = null_le_mono r.next_execution_time first env.now q.since later in
    ground (arith, no_due first last env rs q (ground arith))
