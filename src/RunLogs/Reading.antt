-- ===== src/RunLogs/Reading.antt =====
-- app/run_logs.py, the reads of a log file, which is `none` if there is none. `decode` is
-- `payload.decode("utf-8", errors="replace")`.
use borg_backup_manager.Prelude.{
  ℕ, ◌+◌, ◌-◌, max, Bool, true, false, not, ◌||◌, Option, none, some, [], leb, ltb, ◌==◌,
  if◌then◌else◌, length,
}
use borg_backup_manager.Text.{Text, take, drop}
use borg_backup_manager.RunLogs.{Bytes, shortened}

pub record Delta : Type 0 where
  pub text : Text
  pub offset : ℕ
  pub reset : Bool
  pub truncated : Bool

-- `max_bytes is None or max_bytes <= 0 or size <= max_bytes`; a limit that is not positive is 0.
abbrev pub is_whole : Option ℕ → ℕ → Bool
is_whole none size = true
is_whole (some m) size = m == 0 || leb size m

abbrev limit_of : Option ℕ → ℕ
limit_of none = 0
limit_of (some m) = m

-- Where the read starts: behind what the client has, unless the file is shorter by now, or at the
-- last bytes if more than the limit are new.
abbrev pub first_start : ℕ → ℕ → ℕ
first_start size offset = if ltb size offset then 0 else offset

abbrev pub is_late : ℕ → ℕ → ℕ → Bool
is_late limit size offset = ltb limit (size - first_start size offset)

abbrev pub start_of : ℕ → ℕ → ℕ → ℕ
start_of limit size offset =
    if is_late limit size offset then size - limit else first_start size offset

-- `handle.seek(start)` and `handle.read(limit)`
unfoldable pub payload_of : ℕ → ℕ → Bytes → Bytes
unfolding take drop
payload_of limit offset file = take limit (drop (start_of limit (length file) offset) file)

module _ (decode : Bytes → Text) where
  unfoldable pub read_run_log : Option Bytes → Option ℕ → Option Text
  unfolding shortened
  read_run_log none max_bytes = none
  read_run_log (some file) max_bytes =
      if is_whole max_bytes (length file)
      then some (decode file)
      else some (decode (shortened (limit_of max_bytes) file))

  unfoldable pub read_run_log_delta : Option Bytes → ℕ → ℕ → Delta
  unfolding payload_of
  read_run_log_delta none offset max_bytes = record {
    text = [];
    offset = 0;
    reset = not (offset == 0);
    truncated = false;
  }
  read_run_log_delta (some file) offset max_bytes = record {
    text = decode (payload_of (max 4096 max_bytes) offset file);
    offset =
        start_of (max 4096 max_bytes) (length file) offset
        + length (payload_of (max 4096 max_bytes) offset file);
    reset = ltb (length file) offset || is_late (max 4096 max_bytes) (length file) offset;
    truncated = is_late (max 4096 max_bytes) (length file) offset;
  }
