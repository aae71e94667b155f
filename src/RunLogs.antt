-- ===== src/RunLogs.antt =====
-- app/run_logs.py, the log file of a run and its buffered writer. A file is the list of its bytes.
-- The file system does what it is asked to: an OSError, permissions and directories are left out.
-- Instants are those of one monotonic clock.
pub mod Reading
pub mod Contents
pub mod Bounds
pub mod Polling
mod Tests
use borg_backup_manager.Prelude.{
  is_empty, is_empty_lem, ℕ, ◌+◌, ◌-◌, ◌*◌, ◌/◌, min, max, Bool, true, false, not, ◌&&◌, ◌||◌,
  Option, none, some, List, [], ◌∷◌, ◌++◌, leb, ltb, ◌==◌, if◌then◌else◌, length,
}
use borg_backup_manager.Text.{Text, codes, take, drop}

abbrev pub Bytes : Type 0
Bytes = List ℕ

-- The text in UTF-8: the umlaut is two bytes.
unfoldable pub truncation_marker : Bytes
truncation_marker =
    10 ∷ 10 ∷ codes "================ PROTOKOLL GEK"
    ++ 195 ∷ 156 ∷ codes "RZT ================"
    ++ 10 ∷ codes "Der mittlere Teil wurde wegen der konfigurierten Maximalgr"
    ++ 195 ∷ 182 ∷ 195 ∷ 159 ∷ codes "e entfernt."
    ++ 10 ∷ codes "===================================================="
    ++ 10 ∷ 10 ∷ []

abbrev pub head_bytes : ℕ
head_bytes = 64 * 1024

abbrev pub compact_margin : ℕ
compact_margin = 1024 * 1024

-- `handle.seek(-n, SEEK_END)` and `read(n)`, for an `n` that is not more than the size.
abbrev pub last_bytes : ℕ → Bytes → Bytes
last_bytes n file = drop (length file - n) file

abbrev pub head_size : ℕ → ℕ
head_size max_bytes = min head_bytes (max_bytes / 4)

abbrev pub tail_size : ℕ → ℕ
tail_size max_bytes = max_bytes - head_size max_bytes - length truncation_marker

-- The beginning and the end of the file with the marker in between.
unfoldable pub shortened : ℕ → Bytes → Bytes
unfolding take drop truncation_marker
shortened max_bytes file =
    take (head_size max_bytes) file ++ (truncation_marker ++ last_bytes (tail_size max_bytes) file)

-- A limit that is not positive is 0 here and means that there is none.
unfoldable pub compact_run_log : ℕ → Bytes → Bytes
unfolding shortened
compact_run_log max_bytes file =
    if max_bytes == 0 || leb (length file) (max_bytes + compact_margin)
    then file
    else shortened max_bytes file

pub record Writer : Type 0 where
  pub file : Bytes
  pub max_bytes : ℕ
  pub buffer_bytes : ℕ
  pub flush_interval : ℕ
  pub buffer : Bytes
  pub last_flush : ℕ
  pub closed : Bool
  pub written_size : ℕ

-- A new `RunLogWriter` on what the log file has.
unfoldable pub open_writer : Bytes → ℕ → ℕ → ℕ → ℕ → Writer
open_writer file max_bytes buffer_bytes flush_interval now = record {
  file = file;
  max_bytes = max_bytes;
  buffer_bytes = max 4096 buffer_bytes;
  flush_interval = flush_interval;
  buffer = [];
  last_flush = now;
  closed = false;
  written_size = length file;
}

-- The write of the buffer, without the compaction that may follow.
abbrev pub drained : ℕ → Writer → Writer
drained now w = record w {
  file = w.file ++ w.buffer;
  written_size = w.written_size + length w.buffer;
  buffer = [];
  last_flush = now;
}

-- The file is closed, compacted and opened again, which reads its size.
abbrev pub reopened : Writer → Writer
reopened w = record w {
  file = compact_run_log w.max_bytes w.file;
  written_size = length (compact_run_log w.max_bytes w.file);
}

unfoldable pub flush : ℕ → Writer → Writer
unfolding compact_run_log
flush now w =
    if w.closed || is_empty w.buffer
    then w
    else if not (w.max_bytes == 0)
        && ltb (w.max_bytes + compact_margin) (drained now w).written_size
    then reopened (drained now w)
    else drained now w

unfoldable pub append_bytes : Bytes → ℕ → Writer → Writer
unfolding flush
append_bytes input now w =
    let longer = record w { buffer = w.buffer ++ input } in
    if w.closed || is_empty input
    then w
    else if leb w.buffer_bytes (length longer.buffer) || leb (w.last_flush + w.flush_interval) now
    then flush now longer
    else longer

unfoldable pub flush_if_due : ℕ → Writer → Writer × Bool
unfolding flush
flush_if_due now w =
    if w.closed || is_empty w.buffer
    then (w, false)
    else if ltb now (w.last_flush + w.flush_interval)
    then (w, false)
    else (flush now w, true)

unfoldable pub close : ℕ → Writer → Writer
unfolding flush
close now w = if w.closed then w else record (flush now w) { closed = true }

-- `encode`: `text.encode("utf-8", errors="replace")`.
module _ (encode : Text → Bytes) where
  unfoldable pub append : Text → ℕ → Writer → Writer
  unfolding append_bytes
  append text now w = if is_empty text then w else append_bytes (encode text) now w

  -- Another writer's life; `file` is what the log has, and the instants are one.
  unfoldable pub append_run_log : Text → ℕ → ℕ → Bytes → Bytes
  unfolding append close open_writer
  append_run_log text max_bytes now file =
      if is_empty text
      then file
      else (close now (append text now (open_writer file max_bytes 4096 0 now))).file
