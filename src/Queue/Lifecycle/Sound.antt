-- ===== src/Queue/Lifecycle/Sound.antt =====
-- pkg/queue/postgres: what holds of every row of the table of tasks.
use go_base.Base.{
  ℕ, ◌≡◌, sym, ap, subst, ◌∙◌, ◌≢◌, ◌⊎◌, inl, inr, Bool, true, false, none, Memᴰ, String, str_eq,
  eq_iff, arith, Mem-map_inv, Bool-cases,
}
use go_base.Queue.{TaskStatus, waiting, finished, Task, TaskEnqueueRequest}
use go_base.Queue.Database.{TaskRow, Database, set_row, update_tasks, is_null}
use go_base.Queue.Queuer.{EnqueueEnv, new_row}
use go_base.Queue.Dequeuer.{start}
use go_base.Queue.Progress.{set_progress}
use go_base.Queue.Progress.Outcome.{IsOpen}

-- What holds of every row: only a waiting task has not started, a task that has started has a
-- heartbeat, and a finished one has the time of its end.
pub record IsSound (r : TaskRow) : Type 0 where
  pub unstarted_waits : is_null r.started_at ≡ true → r.status ≡ waiting
  pub started_beats : is_null r.last_heartbeat_at ≡ is_null r.started_at
  pub finished_ends : r.status ≡ finished → is_null r.finished_at ≡ false

abbrev pub AreSound : Database → Type 0
AreSound db = (r : TaskRow) → Memᴰ r db.tasks → IsSound r

pub new_row-IsSound : (env : EnqueueEnv) (req : TaskEnqueueRequest) → IsSound (new_row env req)
unfolding new_row
new_row-IsSound env req = ground arith

pub start-IsSound :
    (id : String) (now : ℕ) (r : TaskRow) → IsSound r → IsSound (set_row id (start now) r)
start-IsSound id now r s = ground arith

open-ne-waiting : (s : TaskStatus) → IsOpen s → s ≢ waiting
open-ne-waiting waiting o e = o
open-ne-waiting _ o e = cc

pub open-ne-finished : (s : TaskStatus) → IsOpen s → s ≢ finished
open-ne-finished finished o e = o
open-ne-finished _ o e = cc

pub set_progress-IsSound :
    (id : String) (now : ℕ) (progress : String) (is_final is_failed : Bool) (r : TaskRow)
    → (r.id ≡ id → IsOpen r.status)
    → IsSound r
    → IsSound (set_row id (set_progress now progress is_final is_failed) r)
set_progress-IsSound id now progress is_final is_failed r o s = elim (Bool-cases (str_eq r.id id)) [
  | inl same ↦
      let o' = open-ne-waiting r.status (o ((eq_iff r.id id).0 same)) in
      set_open is_final is_failed o' same
  | inr differs ↦ rw differs s
]
  where
    set_open :
        (a b : Bool)
        → r.status ≢ waiting
        → str_eq r.id id ≡ true
        → IsSound (set_row id (set_progress now progress a b) r)
    set_open true true w e = ground arith
    set_open true false w e = ground arith
    set_open false true w e = ground arith
    set_open false false w e = ground arith

-- The identifiers are a key, and the rows are sound.
pub record Sound (db : Database) : Type 0 where
  pub keys : (r s : TaskRow) → Memᴰ r db.tasks → Memᴰ s db.tasks → r.id ≡ s.id → r ≡ s
  pub rows : AreSound db

set_row-id :
    (id : String) (f : Task → Task) (r : TaskRow)
    → ((t : Task) → (f t).id ≡ t.id)
    → (set_row id f r).id ≡ r.id
set_row-id id f r keep = ground (arith, keep r.task)

pub update-keys :
    (id : String) (f : Task → Task) (db : Database)
    → ((t : Task) → (f t).id ≡ t.id)
    → Sound db
    → (r s : TaskRow) → Memᴰ r (update_tasks id f db).tasks
    → Memᴰ s (update_tasks id f db).tasks
    → r.id ≡ s.id
    → r ≡ s
update-keys id f db keep sound r s mr ms e =
    let (r', hr, er) = Mem-map_inv (set_row id f) db.tasks mr in
    let (s', hs, es) = Mem-map_inv (set_row id f) db.tasks ms in
    let ids = λ (x : TaskRow) (y : TaskRow) (q : y ≡ set_row id f x).
      ap (λ (z : TaskRow). z.id) q ∙ set_row-id id f x keep in
    er ∙ ap (set_row id f) (sound.keys r' s' hr hs (sym (ids r' r er) ∙ e ∙ ids s' s es)) ∙ sym es

pub finished_closed :
    (r row : TaskRow)
    → IsSound r
    → r.status ≡ finished
    → (row.started_at ≡ none) ⊎ (row.finished_at ≡ none)
    → r ≡ row
    → ⊥
finished_closed r row s f why e = ended why'
  where
    why' : (r.started_at ≡ none) ⊎ (r.finished_at ≡ none)
    why' = subst (λ (y : TaskRow). (y.started_at ≡ none) ⊎ (y.finished_at ≡ none)) (sym e) why

    ended : (r.started_at ≡ none) ⊎ (r.finished_at ≡ none) → ⊥
    ended (inl a) = ground arith
    ended (inr b) = ground arith
