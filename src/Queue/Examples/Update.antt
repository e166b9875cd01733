-- ===== src/Queue/Examples/Update.antt =====
-- pkg/queue/postgres/dequeuer.go: heartbeats and final updates on the concrete tables, and the life of
-- a task.
use go_base.Base.{◌≡◌, refl, true, false, none, some, ◌↔◌}
use go_base.Queue.{task_finished}
use go_base.Queue.Database.{TaskRow, Database}
use go_base.Queue.Examples.Tables.{tables, progress_env}
use go_base.Queue.Progress.{find_row, update_progress, finish, fail}
use go_base.Queue.Progress.Outcome.{IsOpen, IsQuiet, update_progress_ok_iff, finish_closes}

quiet : IsQuiet progress_env
quiet = record { begin = refl; commit = refl; rollback = refl; select = refl; update = refl }

abbrev finished_tables : Database
finished_tables = (finish progress_env "c" "{}" tables).0

abbrev failed_tables : Database
failed_tables = (fail progress_env "c" "{}" tables).0

finish_test : finish progress_env "c" "{}" tables ≡ (finished_tables, none)
unfolding finish
finish_test = refl

fail_test : fail progress_env "c" "{}" tables ≡ (failed_tables, none)
unfolding fail
fail_test = refl

update_progress_ok_iff_example :
    ((update_progress progress_env "a" "{}" true false tables).1 ≡ none)
    ↔ ((r : TaskRow) × (find_row "a" tables.tasks ≡ some r) × IsOpen r.status)
update_progress_ok_iff_example =
    update_progress_ok_iff progress_env "a" "{}" true false tables quiet

finish_closes_example :
    update_progress progress_env "c" "{}" true true finished_tables
    ≡ (finished_tables, some task_finished)
finish_closes_example =
    finish_closes progress_env progress_env "c" "{}" "{}" true true tables finish_test quiet
