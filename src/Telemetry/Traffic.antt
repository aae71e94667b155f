-- ===== src/Telemetry/Traffic.antt =====
-- app/borg_progress.py, `BorgNetworkStreamFilter._parse`: the bytes that a series of records amounts to.
use borg_backup_manager.Prelude.{
  inl, inr, Bool-cases, Bool-cases, ◌≤◌, All, true, if◌then◌else◌, ◌+◌, ℕ, ◌-◌, false, Option, none,
  some, List, [], ◌∷◌, ◌≡◌, refl, arith, leb,
}
use borg_backup_manager.Text.{text_eq_refl, Text, Text-discrete}
use borg_backup_manager.Dict
use borg_backup_manager.Dict.{get-put, Dict}
use borg_backup_manager.ItemActivity.{Bytes}
use borg_backup_manager.Telemetry.{Counters, Sample, Tracker}
use borg_backup_manager.Telemetry.Tracking.{
  sampled, restarted, advanced, follow_route, note_activity, name_of, rates_overflow, too_large,
  track, parse_record,
}

-- `_parse` of one record after the other, each with its instant, until one raises.
unfoldable pub parse_all : (Bytes → Text) → List (ℕ × Counters) → Tracker → Option Tracker
unfolding parse_record
parse_all decode [] t = some t
parse_all decode ((now, c) ∷ records) t = elim (parse_record decode now c t) [
  | none ↦ none
  | some u ↦ parse_all decode records u
]

small_difference : (limit a b : ℕ) → leb limit a ≡ false → leb limit (a - b) ≡ false
small_difference limit a b h = ground (arith, h)

too_large-difference : (a b : ℕ) → too_large a ≡ false → too_large (a - b) ≡ false
unfolding too_large
too_large-difference a b h = small_difference _ a b h

-- Counters that a float holds never raise.
rates_fit :
    (p : Option Sample) (ip : Text) (c : Counters) (now : ℕ)
    → too_large c.rx ≡ false
    → too_large c.tx ≡ false
    → rates_overflow p ip c now ≡ false
unfolding rates_overflow
rates_fit none ip c now h g = refl
rates_fit (some p) ip c now h g =
    ground (arith, too_large-difference c.rx p.rx h, too_large-difference c.tx p.tx g)

pub parse_record_lem :
    (decode : Bytes → Text) (now : ℕ) (c : Counters) (t : Tracker)
    → too_large c.rx ≡ false
    → too_large c.tx ≡ false
    → parse_record decode now c t ≡ some (track decode now c t)
unfolding parse_record
parse_record_lem decode now c t h g =
    rw
      (
        rates_fit (Dict.get Text-discrete (name_of decode c.interface) t.previous)
            (name_of decode c.ip) c now h g,
        parse_record,
      )
      refl

-- The last record of the selected interface, where `c` is the one before.
unfoldable pub last_selected : Counters → List (ℕ × Counters) → Counters
last_selected c [] = c
last_selected c ((now, d) ∷ records) = last_selected (if d.route then d else c) records

-- A float holds the counters.
abbrev pub Fits : Counters → Type 0
Fits c = (too_large c.rx ≡ false) × (too_large c.tx ≡ false)

module _ (decode : Bytes → Text) (base : Counters) where
  abbrev named : Counters → Text
  named c = name_of decode c.interface

  -- A record that, if its interface is selected, is of the interface of `base` and has not fallen
  -- below its counters.
  abbrev pub Steady : ℕ × Counters → Type 0
  Steady (now, d) =
      Fits d × (d.route ≡ true → (named d ≡ named base) × ((base.rx ≤ d.rx) × (base.tx ≤ d.tx)))

  abbrev Counted : Counters → Tracker → Type 0
  Counted last t =
      (t.baseline_route ≡ some (record { interface = named base; rx = base.rx; tx = base.tx }))
      × ((t.download_bytes + base.rx ≡ last.rx) × (t.upload_bytes + base.tx ≡ last.tx))

  track-Counted :
      (now : ℕ) (d last : Counters) (t : Tracker)
      → Steady (now, d)
      → Counted last t
      → Counted (if d.route then d else last) (track decode now d t)
  unfolding track note_activity follow_route advanced restarted sampled
  track-Counted now d last t (f, s) (b, (x, y)) = elim (Bool-cases d.route) [
    | inl r ↦
        let (name, (above, more)) = s r in
        ground (arith, r, b, name, above, more, text_eq_refl (named base))
    | inr r ↦ ground (arith, r, b, x, y)
  ]

  records-Counted :
      (records : List (ℕ × Counters)) (last : Counters) (t : Tracker)
      → All Steady records
      → Counted last t
      → (u : Tracker) × ((parse_all decode records t ≡ some u)
          × Counted (last_selected last records) u)
  unfolding parse_all last_selected
  records-Counted [] last t h c = (t, (refl, c))
  records-Counted ((now, d) ∷ records) last t (h, hs) c =
      let rest =
        records-Counted records (if d.route then d else last) (track decode now d t) hs
          (track-Counted now d last t h c) in
      (rest.0, (rw (parse_record_lem decode now d t h.0.0 h.0.1, parse_all) rest.1.0, rest.1.1))

  first-Counted :
      (now : ℕ) (t : Tracker)
      → base.route ≡ true
      → t.baseline_route ≡ none
      → Counted base (track decode now base t)
  unfolding track note_activity follow_route advanced restarted sampled
  first-Counted now t r b = ground (arith, r, b)

-- In a tracker that has no baseline yet, after a first record of the selected interface, and any
-- records of which the selected ones are of that interface and not below its counters, where a float
-- holds all counters: none raises, and the bytes received and sent are what the last selected record
-- has more than the first, whatever the other interfaces told.
pub traffic_counted :
    (decode : Bytes → Text) (now : ℕ) (base : Counters) (records : List (ℕ × Counters))
    (t : Tracker)
    → base.route ≡ true
    → t.baseline_route ≡ none
    → Fits base
    → All (Steady decode base) records
    → (u : Tracker) × ((parse_all decode ((now, base) ∷ records) t ≡ some u)
        × ((u.download_bytes + base.rx ≡ (last_selected base records).rx)
            × (u.upload_bytes + base.tx ≡ (last_selected base records).tx)))
unfolding parse_all
traffic_counted decode now base records t r b f h =
    let rest =
      records-Counted decode base records base (track decode now base t) h
        (first-Counted decode base now t r b) in
    (rest.0, (rw (parse_record_lem decode now base t f.0 f.1, parse_all) rest.1.0, rest.1.1.1))
