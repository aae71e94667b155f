-- ===== src/Telemetry/Tests.antt =====
-- Streams and records of app/borg_progress.py.
use borg_backup_manager.Prelude.{
  true, some, false, ◌+◌, ℕ, ◌≤◌, ◌≡◌, List, [], ◌∷◌, ◌++◌, length, arith, refl,
}
use borg_backup_manager.Text.{Text, codes}
use borg_backup_manager.ItemActivity.{Bytes}
use borg_backup_manager.Telemetry.{network_prefix}
use borg_backup_manager.Telemetry.Scan.{unseen, new_filter, see}
use borg_backup_manager.Telemetry.Machine.{passing}
use borg_backup_manager.Telemetry.Loop.{IsScanned, scan_ends}
use borg_backup_manager.Telemetry.Chunks.{feeds, reads, IsFiltering, feeds_refine}
use borg_backup_manager.Telemetry.Bounds.{feeds_few}
use borg_backup_manager.Telemetry.{Counters, Tracker}
use borg_backup_manager.Telemetry.Tracking.{too_large}
use borg_backup_manager.Telemetry.Traffic.{parse_all, last_selected, traffic_counted}

abbrev latin : Bytes → Text
latin s = s

-- A clock that reads a microsecond more each time.
abbrev now : ℕ → ℕ
now n = 1 + n

abbrev frame : Bytes
frame =
    network_prefix
    ++ codes "eth0"
    ++ 9 ∷ codes "10.0.0.1"
    ++ 9 ∷ codes "70"
    ++ 9 ∷ codes "8"
    ++ 10 ∷ []

abbrev stream : List ((ℕ → ℕ) × Bytes)
stream = (now, codes "A x" ++ network_prefix) ∷ (now, codes "eth0") ∷ []

-- The bytes around a record pass.
record_is_taken :
    (feeds latin ((now, codes "a" ++ frame ++ codes "b") ∷ []) new_filter).0 ≡ codes "ab"
unfolding feeds
record_is_taken = refl

scan_ends_example : IsScanned (see latin now) 40 frame (unseen new_filter.tracker)
scan_ends_example = scan_ends (see latin now) 40 frame (unseen new_filter.tracker) (omega arith)

feeds_refine_example :
    ((feeds latin stream new_filter).0 ≡ (reads latin stream passing new_filter.tracker).output)
    × IsFiltering
        (feeds latin stream new_filter).1
        (reads latin stream passing new_filter.tracker).mode
        (reads latin stream passing new_filter.tracker).tracker
feeds_refine_example = feeds_refine latin stream

feeds_few_example : length (feeds latin stream new_filter).1.tracker.latest_interfaces ≤ 3
feeds_few_example = feeds_few latin stream

-- Counters of the interface `eth0`, which is selected, and of one that is not.
abbrev eth : ℕ → ℕ → Counters
eth rx tx = record {
  interface = codes "eth0";
  ip = codes "10.0.0.1";
  rx = rx;
  tx = tx;
  route = true;
}

abbrev wifi : ℕ → ℕ → Counters
wifi rx tx = record {
  interface = codes "wlan0";
  ip = codes "10.0.0.2";
  rx = rx;
  tx = tx;
  route = false;
}

abbrev seconds : List (ℕ × Counters)
seconds = (2, wifi 5 5) ∷ (3, eth 100 20) ∷ (4, eth 170 28) ∷ []

abbrev tracker : Tracker
tracker = new_filter.tracker

traffic_counted_example :
    (u : Tracker) × ((parse_all latin ((1, eth 70 8) ∷ seconds) tracker ≡ some u)
      × ((u.download_bytes + 70 ≡ (last_selected (eth 70 8) seconds).rx)
          × (u.upload_bytes + 8 ≡ (last_selected (eth 70 8) seconds).tx)))
unfolding too_large
traffic_counted_example =
    traffic_counted latin 1 (eth 70 8) seconds tracker refl refl (refl, refl)
      (
        ((refl, refl), λ e. cc),
        (
          ((refl, refl), λ e. (refl, (omega arith, omega arith))),
          (((refl, refl), λ e. (refl, (omega arith, omega arith))), tt),
        ),
      )
