-- ===== src/Telemetry/Rates.antt =====
-- app/borg_progress.py, `BorgNetworkStreamFilter._parse`: the rates between two records of an interface.
use borg_backup_manager.Prelude.{Bool-cases, Bool-cases, ◌≢◌, ℕ, some, ◌≡◌}
use borg_backup_manager.Text.{Text, Text-discrete}
use borg_backup_manager.Dict
use borg_backup_manager.Dict.{Dict}
use borg_backup_manager.ItemActivity.{Bytes}
use borg_backup_manager.Telemetry.{Counters, Sample, Tracker}
use borg_backup_manager.Telemetry.Tracking.{name_of}
use borg_backup_manager.Telemetry.Traffic.{Fits}

module _ (decode : Bytes → Text) (name : Text) (p : Sample) where
  abbrev Other : ℕ × Counters → Type 0
  Other (now, d) = Fits d × (name_of decode d.interface ≢ name)

  abbrev Sampled : Tracker → Type 0
  Sampled t = Dict.get Text-discrete name t.previous ≡ some p
