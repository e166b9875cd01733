-- ===== src/Queue/Lifecycle/Reachable.antt =====
-- pkg/queue/postgres: what every sequence of calls keeps.
use go_base.Base.{
  ℕ, ◌≡◌, refl, sym, ap, subst, ◌∙◌, inl, inr, Memᴰ, Mem-map_inv, Mem-append_left, Mem-snoc_inv,
}
use go_base.Queue.{finished}
use go_base.Queue.Database.{Sql, TaskRow, Database, set_row, Mem-update_tasks}
use go_base.Queue.Queuer.{new_row}
use go_base.Queue.Dequeuer.{start}
use go_base.Queue.Progress.{set_progress}
use go_base.Queue.Progress.Outcome.{IsOpen, set_progress-id}
use go_base.Queue.Lifecycle.{
  Reach, here, next, Change, unchanged, added, started, updated, Step-Change,
}
use go_base.Queue.Lifecycle.Sound.{
  Sound, new_row-IsSound, start-IsSound, open-ne-finished, set_progress-IsSound, update-keys,
  finished_closed,
}

module _ (sql : Sql) (ttl : ℕ) where
  Change-Sound : {db db' : Database} → Change sql ttl db db' → Sound db → Sound db'
  unfolding new_row
  Change-Sound (unchanged e) s = rw e s
  Change-Sound (added env req fresh e) s = record {
    keys = λ r r' m m' i. elim (Mem-snoc_inv _ (rw e at m)) [
      | inl h ↦ elim (Mem-snoc_inv _ (rw e at m')) [
        | inl h' ↦ s.keys r r' h h' i
        | inr n' ↦ absurd (fresh r h (i ∙ ap (λ (x : TaskRow). x.id) n'))
      ]
      | inr n ↦ elim (Mem-snoc_inv _ (rw e at m')) [
        | inl h' ↦ absurd (fresh r' h' (sym i ∙ ap (λ (x : TaskRow). x.id) n))
        | inr n' ↦ n ∙ sym n'
      ]
    ];
    rows = λ r m. elim (Mem-snoc_inv _ (rw e at m)) [
      | inl h ↦ s.rows r h
      | inr n ↦ rw n (new_row-IsSound env req)
    ];
  }
  Change-Sound {db} (started row now m why e) s = record {
    keys = rw e (update-keys row.id (start now) db (λ t. refl) s);
    rows = λ r h.
        let (x, hx, ex) = Mem-map_inv (set_row row.id (start now)) db.tasks (rw e at h) in
        rw ex (start-IsSound row.id now x (s.rows x hx));
  }
  Change-Sound {db} (updated row now progress is_final is_failed m o e) s = record {
    keys = rw e (
        update-keys row.id (set_progress now progress is_final is_failed) db
          (set_progress-id now progress is_final is_failed) s);
    rows = λ r h.
        let f = set_progress now progress is_final is_failed in
        let (x, hx, ex) = Mem-map_inv (set_row row.id f) db.tasks (rw e at h) in
        let open_row = λ (i : x.id ≡ row.id).
          subst (λ (y : TaskRow). IsOpen y.status) (sym (s.keys x row hx m i)) o in
        rw ex
          (set_progress-IsSound row.id now progress is_final is_failed x open_row (s.rows x hx));
  }

  -- Every sequence of enqueueings with new identifiers, attempts and updates, whatever fails in
  -- them, keeps the identifiers a key and the rows sound: only a waiting task has not started, a
  -- task has a heartbeat exactly when it has started, and a finished one has the time of its end.
  pub Reach-Sound : {db db' : Database} → Sound db → Reach sql ttl db db' → Sound db'
  Reach-Sound s here = s
  Reach-Sound s (next r st) = Change-Sound (Step-Change sql ttl st) (Reach-Sound s r)

  finished_Change :
      {db db' : Database} {r : TaskRow}
      → Sound db
      → Memᴰ r db.tasks
      → r.status ≡ finished
      → Change sql ttl db db'
      → Memᴰ r db'.tasks
  finished_Change s m f (unchanged e) = rw e m
  finished_Change {db} s m f (added env req fresh e) = rw e (Mem-append_left db.tasks _ m)
  finished_Change {db} {r = r} s m f (started row now h why e) = rw e (
      Mem-update_tasks row.id (start now) db m
        (λ i. finished_closed r row (s.rows r m) f why (s.keys r row m h i)))
  finished_Change {db} {r = r} s m f (updated row now progress is_final is_failed h o e) = rw e (
      Mem-update_tasks row.id (set_progress now progress is_final is_failed) db m (λ i.
        open-ne-finished row.status o
          (ap (λ (x : TaskRow). x.status) (sym (s.keys r row m h i)) ∙ f)))

  -- In tables whose identifiers are a key and whose rows are sound, a finished task stays as it is:
  -- no sequence of enqueueings, attempts and updates, whatever fails in them, changes its row or
  -- removes it.
  pub finished_kept :
      {db db' : Database} {r : TaskRow}
      → Sound db
      → Memᴰ r db.tasks
      → r.status ≡ finished
      → Reach sql ttl db db'
      → Memᴰ r db'.tasks
  finished_kept s m f here = m
  finished_kept s m f (next r st) =
      finished_Change (Reach-Sound s r) (finished_kept s m f r) f (Step-Change sql ttl st)
