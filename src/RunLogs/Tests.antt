-- ===== src/RunLogs/Tests.antt =====
-- Runs and witnesses of the run logs of app/run_logs.py.
use borg_backup_manager.Prelude.{
  arith, false, refl, true, List, [], ◌∷◌, ◌++◌, ◌≡◌, length, ◌≤◌, ◌<◌, ◌+◌, max,
}
use borg_backup_manager.Text.{codes}
use borg_backup_manager.RunLogs.{open_writer, Bytes}
use borg_backup_manager.RunLogs.Contents.{
  Operation, appends, polls, closes, play, promised, writer_refines,
}
use borg_backup_manager.RunLogs.Bounds.{log_bounded}
use borg_backup_manager.RunLogs.Polling.{follow, polls_follow, IsEnd}

abbrev operations : List Operation
operations =
    appends (codes "one ") 1
    ∷ polls 2
    ∷ appends (codes "two") 3
    ∷ closes 4
    ∷ appends (codes "late") 5
    ∷ []

writer_refines_example :
    ((play operations (open_writer (codes "old ") 0 8192 750000 0)).file
        ++ (play operations (open_writer (codes "old ") 0 8192 750000 0)).buffer
      ≡ (promised operations (record { content = codes "old "; over = false })).content)
    × ((promised operations (record { content = codes "old "; over = false })).over ≡ true
        → (play operations (open_writer (codes "old ") 0 8192 750000 0)).file
          ≡ (promised operations (record { content = codes "old "; over = false })).content)
writer_refines_example = writer_refines operations (codes "old ") 8192 750000 0

written_run :
    (play operations (open_writer (codes "old ") 0 8192 750000 0)).file ≡ codes "old one two"
unfolding play open_writer
written_run = refl

log_bounded_example :
    (length (play operations (open_writer [] 1000 8192 750000 0)).file ≤ 1000 + 1048576)
    × (length (play operations (open_writer [] 1000 8192 750000 0)).buffer < max 4096 8192)
log_bounded_example = log_bounded operations [] 1000 8192 750000 0 (omega arith) (omega arith)

abbrev same : Bytes → Bytes
same bytes = bytes

abbrev chunks : List Bytes
chunks = codes "first" ∷ [] ∷ codes " second" ∷ []

polls_follow_example :
    IsEnd same 4096
      (follow same 4096 chunks [] (record { texts = []; offset = 0 })).0
      (follow same 4096 chunks [] (record { texts = []; offset = 0 })).1
polls_follow_example = polls_follow same 4096 chunks
