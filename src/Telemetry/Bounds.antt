-- ===== src/Telemetry/Bounds.antt =====
-- app/borg_progress.py, `BorgNetworkStreamFilter`: the dictionary of the latest activities has at most
-- three entries, whatever the output of Borg says. The samples in `previous` are not bounded.
use borg_backup_manager.Prelude.{
  ℕ, ◌≤◌, List, [], ◌∷◌, length, ◌≡◌, refl, sym, subst, arith, inl, inr,
}
use borg_backup_manager.Text.{Text, Text-discrete}
use borg_backup_manager.Dict
use borg_backup_manager.ItemActivity.{Bytes}
use borg_backup_manager.BackupTasks.Tidy.{found_cases}
use borg_backup_manager.Telemetry.{
  Counters, InterfaceActivity, Tracker, match_record, sorted_activities, first_three,
}
use borg_backup_manager.Telemetry.Scan.{unseen, taken, new_filter, Seen, see}
use borg_backup_manager.Telemetry.Tracking.{
  parse_record, by_interface, note_activity, track, name_of, activity_of, sampled, follow_route,
}
use borg_backup_manager.Telemetry.Machine.{Ran, Mode, passing, waiting, step, run}
use borg_backup_manager.Telemetry.Chunks.{settle, feeds, reads, feeds_refine}

length-by_interface : (xs : List InterfaceActivity) → length (by_interface xs) ≡ length xs
unfolding by_interface
length-by_interface [] = refl
length-by_interface (x ∷ xs) = omega (arith, length-by_interface xs)

length-first_three : (xs : List InterfaceActivity) → length (first_three xs) ≤ 3
length-first_three [] = omega arith
length-first_three (a ∷ []) = omega arith
length-first_three (a ∷ b ∷ []) = omega arith
length-first_three (a ∷ b ∷ c ∷ xs) = omega arith

noted_few : (a : InterfaceActivity) (t : Tracker) → length (note_activity a t).latest_interfaces ≤ 3
unfolding note_activity
noted_few a t =
    let all = sorted_activities (Dict.put Text-discrete a.interface a t.latest_interfaces) in
    omega (arith, length-by_interface (first_three all), length-first_three all)

-- A record leaves at most three interfaces, whatever was there.
track_few :
    (decode : Bytes → Text) (now : ℕ) (c : Counters) (t : Tracker)
    → length (track decode now c t).latest_interfaces ≤ 3
unfolding track
track_few decode now c t =
    noted_few (activity_of decode now c t)
      (follow_route (name_of decode c.interface) (name_of decode c.ip) c (sampled decode now c t))

abbrev IsFew : Seen → Type 0
IsFew s = length s.tracker.latest_interfaces ≤ 3

module _ (decode : Bytes → Text) (clock : ℕ → ℕ) where
  seen-IsFew : (c : Counters) (s : Seen) → IsFew s → IsFew (see decode clock c s)
  unfolding see parse_record
  seen-IsFew c s h = ground (arith, h, track_few decode (clock s.ticks) c s.tracker)

  taken-IsFew : (line : Bytes) (s : Seen) → IsFew s → IsFew (taken (see decode clock) line s)
  unfolding taken
  taken-IsFew line s h = elim (found_cases (match_record line)) [
    | inl e ↦ rw (e, taken) h
    | inr (c, e) ↦ rw (e, taken) (seen-IsFew c s h)
  ]

  step-IsFew : (c : ℕ) (m : Mode) (s : Seen) → IsFew s → IsFew (step (see decode clock) c m s).state
  unfolding step
  step-IsFew c passing s h = ground (arith, h)
  step-IsFew c (waiting seen []) s h = ground (arith, h, taken-IsFew seen s h)
  step-IsFew c (waiting seen (e ∷ rest)) s h = ground (arith, h)

  run-IsFew :
      (bytes : Bytes) (m : Mode) (s : Seen)
      → IsFew s
      → IsFew (run (see decode clock) bytes m s).state
  unfolding run
  run-IsFew [] m s h = h
  run-IsFew (c ∷ bytes) m s h =
      let r = step (see decode clock) c m s in run-IsFew bytes r.mode r.state (step-IsFew c m s h)

settled-IsFew : (x : Ran Seen) → IsFew x.state → IsFew (settle x).state
unfolding settle
settled-IsFew x h = ground (arith, h)

reads_few :
    (decode : Bytes → Text) (chunks : List ((ℕ → ℕ) × Bytes)) (m : Mode) (t : Tracker)
    → length t.latest_interfaces ≤ 3
    → length (reads decode chunks m t).tracker.latest_interfaces ≤ 3
unfolding reads
reads_few decode [] m t h = h
reads_few decode ((clock, chunk) ∷ chunks) m t h =
    let x = run (see decode clock) chunk m (unseen t) in
    reads_few decode chunks (settle x).mode (settle x).state.tracker
      (settled-IsFew x (run-IsFew decode clock chunk m (unseen t) h))

-- After any stream the dictionary of the latest activities of a filter that was new has at most
-- three entries.
pub feeds_few :
    (decode : Bytes → Text) (chunks : List ((ℕ → ℕ) × Bytes))
    → length (feeds decode chunks new_filter).1.tracker.latest_interfaces ≤ 3
feeds_few decode chunks =
    subst (λ (t : Tracker). length t.latest_interfaces ≤ 3)
      (sym (feeds_refine decode chunks).1.tracker)
      (reads_few decode chunks passing new_filter.tracker (omega arith))
