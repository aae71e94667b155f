-- ===== src/Telemetry/Tracking.antt =====
-- app/borg_progress.py, `BorgNetworkStreamFilter._parse`: what a record does to the counters of the
-- interfaces.
use borg_backup_manager.Prelude.{
  ℕ, ◌-◌, ◌*◌, ◌^◌, Bool, false, ◌||◌, ◌&&◌, Option, none, some, List, [], ◌∷◌, leb, ltb,
  if◌then◌else◌,
}
use borg_backup_manager.Text.{Text, Text-discrete, is_space, strip, text_eq}
use borg_backup_manager.Dict
use borg_backup_manager.Dict.{Dict}
use borg_backup_manager.ItemActivity.{Bytes}
use borg_backup_manager.Telemetry.{
  Counters, Rate, InterfaceActivity, Sample, Tracker, sorted_activities, first_three,
}

-- The rates since the sample before, if they can be told.
unfoldable pub rates_of : Option Sample → Text → Counters → ℕ → Option Rate × Option Rate
unfolding text_eq
rates_of none ip c now = (none, none)
rates_of (some p) ip c now =
    if text_eq ip p.ip_address && (ltb p.time now && (leb p.rx c.rx && leb p.tx c.tx))
    then (
      some (record { bits = (c.rx - p.rx) * 8; micros = now - p.time }),
      some (record { bits = (c.tx - p.tx) * 8; micros = now - p.time }),
    )
    else (none, none)

-- `difference * 8.0` raises an OverflowError: the float next to the difference is not finite.
unfoldable pub too_large : ℕ → Bool
too_large d = leb (2 ^ 1024 - 2 ^ 970) d

-- The rates are computed, and one of the two products raises.
unfoldable pub rates_overflow : Option Sample → Text → Counters → ℕ → Bool
unfolding text_eq too_large
rates_overflow none ip c now = false
rates_overflow (some p) ip c now =
    (text_eq ip p.ip_address && (ltb p.time now && (leb p.rx c.rx && leb p.tx c.tx)))
    && (too_large (c.rx - p.rx) || too_large (c.tx - p.tx))

-- `{item.interface: item for item in ordered}`
unfoldable pub by_interface : List InterfaceActivity → Dict Text InterfaceActivity
by_interface [] = []
by_interface (a ∷ activities) = (a.interface, a) ∷ by_interface activities

-- The bytes since the baseline, or what they were where the counter fell.
abbrev since : ℕ → ℕ → ℕ → ℕ
since base now old = if leb base now then now - base else old

unfoldable pub restarted : Text → Counters → Tracker → Tracker
restarted interface c t = record t {
  baseline_route = some (record { interface = interface; rx = c.rx; tx = c.tx });
  download_bytes = 0;
  upload_bytes = 0;
}

unfoldable pub advanced : Text → Counters → Tracker → Tracker
unfolding restarted text_eq
advanced interface c t = elim t.baseline_route [
  | none ↦ restarted interface c t
  | some b ↦
      if text_eq b.interface interface
      then record t {
        download_bytes = since b.rx c.rx t.download_bytes;
        upload_bytes = since b.tx c.tx t.upload_bytes;
      }
      else restarted interface c t
]

-- `if route_selected:`
unfoldable pub follow_route : Text → Text → Counters → Tracker → Tracker
unfolding advanced
follow_route interface ip c t =
    if c.route
    then record (advanced interface c t) { route_interface = interface; route_ip_address = ip }
    else t

unfoldable pub note_activity : InterfaceActivity → Tracker → Tracker
unfolding by_interface sorted_activities
note_activity a t = record t {
  latest_interfaces =
      by_interface (
        first_three (sorted_activities (Dict.put Text-discrete a.interface a t.latest_interfaces)));
}

-- `.decode("utf-8", errors="replace").strip()`
abbrev pub name_of : (Bytes → Text) → Bytes → Text
name_of decode s = strip is_space (decode s)

-- The `NetworkInterfaceActivity` of a record, from the sample before.
unfoldable pub activity_of : (Bytes → Text) → ℕ → Counters → Tracker → InterfaceActivity
unfolding rates_of strip is_space Dict.get
activity_of decode now c t =
    let rates =
      rates_of (Dict.get Text-discrete (name_of decode c.interface) t.previous)
        (name_of decode c.ip) c now in
    record {
      interface = name_of decode c.interface;
      ip_address = name_of decode c.ip;
      download = rates.0;
      upload = rates.1;
      route_selected = c.route;
    }

-- `self._previous[interface] = (ip_address, rx, tx, now)`
unfoldable pub sampled : (Bytes → Text) → ℕ → Counters → Tracker → Tracker
unfolding strip is_space
sampled decode now c t = record t {
  previous =
      Dict.put Text-discrete (name_of decode c.interface)
        (record { ip_address = name_of decode c.ip; rx = c.rx; tx = c.tx; time = now }) t.previous;
}

-- What `_parse` makes of the fields at the instant `now`, if it does not raise.
unfoldable pub track : (Bytes → Text) → ℕ → Counters → Tracker → Tracker
unfolding activity_of sampled follow_route note_activity
track decode now c t =
    note_activity (activity_of decode now c t)
      (follow_route (name_of decode c.interface) (name_of decode c.ip) c (sampled decode now c t))

-- `_parse` of a record that matches, at the instant `now`. It raises before it has changed anything.
unfoldable pub parse_record : (Bytes → Text) → ℕ → Counters → Tracker → Option Tracker
unfolding rates_overflow track Dict.get strip is_space
parse_record decode now c t =
    if rates_overflow (Dict.get Text-discrete (name_of decode c.interface) t.previous)
      (name_of decode c.ip) c now
    then none
    else some (track decode now c t)
