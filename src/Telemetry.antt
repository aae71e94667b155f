-- ===== src/Telemetry.antt =====
-- app/borg_progress.py, `BorgNetworkStreamFilter`: the filter that takes the counters of network
-- interfaces out of the output of Borg. `decode` is `bytes.decode("utf-8", errors="replace")`.
-- Instants are microseconds, and a rate is its bits and the microseconds that they took.
pub mod Tracking
pub mod Scan
pub mod Machine
pub mod Resume
pub mod Loop
pub mod Settled
pub mod Chunks
pub mod Bounds
pub mod Traffic
pub mod Rates
mod Tests
use borg_backup_manager.Prelude.{
  ℕ, zero, suc, ◌+◌, ◌-◌, ◌*◌, Bool, true, false, not, ◌&&◌, ◌||◌, Option, none, some, List, [],
  ◌∷◌, ◌++◌, leb, ltb, ◌==◌, if◌then◌else◌, length, is_empty, ite, map,
}
use borg_backup_manager.Text.{Text, Text-discrete, codes, is_space, strip, take, text_eq, text_leb}
use borg_backup_manager.Dict
use borg_backup_manager.Dict.{Dict}
use borg_backup_manager.ItemActivity.{Bytes}

-- The byte `\x1e`.
abbrev pub mark : ℕ
mark = 30

-- `_NETWORK_PREFIX`, after its first byte and whole.
abbrev pub prefix_tail : Bytes
prefix_tail = 66 ∷ 66 ∷ 77 ∷ 78 ∷ 69 ∷ 84 ∷ 9 ∷ []

abbrev pub network_prefix : Bytes
network_prefix = mark ∷ prefix_tail

-- The groups of `_NETWORK_RECORD_RE`, with the digits read as numbers.
pub record Counters : Type 0 where
  pub interface : Bytes
  pub ip : Bytes
  pub rx : ℕ
  pub tx : ℕ
  pub route : Bool

abbrev is_digit : ℕ → Bool
is_digit c = leb 48 c && leb c 57

-- `[^\t\r\n]`
abbrev is_field : ℕ → Bool
is_field c = not (c == 9 || (c == 13 || c == 10))

-- The longest run of bytes that pass the test, and what is left.
unfoldable pub run_of : (ℕ → Bool) → Bytes → Bytes × Bytes
run_of p [] = ([], [])
run_of p (c ∷ s) = let rest = run_of p s in if p c then (c ∷ rest.0, rest.1) else ([], c ∷ s)

-- A run that is not empty and that a tab ends.
abbrev ended_by_tab : Bytes × Bytes → Option (Bytes × Bytes)
ended_by_tab ([], s) = none
ended_by_tab (c ∷ cs, []) = none
ended_by_tab (c ∷ cs, d ∷ s) = if d == 9 then some (c ∷ cs, s) else none

unfoldable pub decimal : ℕ → Bytes → ℕ
decimal n [] = n
decimal n (c ∷ s) = decimal (n * 10 + (c - 48)) s

-- `int(digits)`, which raises a ValueError above 4300 digits.
unfoldable pub number_of : Bytes → Option ℕ
unfolding decimal
number_of s = if leb (length s) 4300 then some (decimal 0 s) else none

-- `(?:\t(?P<route>[01]))?$`, and `(match.group("route") or b"1") == b"1"`.
abbrev route_of : Bytes → Option Bool
route_of [] = some true
route_of (t ∷ []) = none
route_of (t ∷ d ∷ []) =
    if t == 9 && d == 49 then some true else if t == 9 && d == 48 then some false else none
route_of (t ∷ d ∷ e ∷ s) = none

counters_of : Bytes → Bytes → Bytes → Bytes × Bytes → Option Counters
unfolding number_of
counters_of interface ip rx ([], s) = none
counters_of interface ip rx (c ∷ cs, s) = elim (route_of s) [
  | none ↦ none
  | some route ↦ elim (number_of rx) [
    | none ↦ none
    | some n ↦ elim (number_of (c ∷ cs)) [
      | none ↦ none
      | some m ↦ some (record { interface = interface; ip = ip; rx = n; tx = m; route = route })
    ]
  ]
]

unfoldable pub after_prefix : Bytes → Bytes → Option Bytes
after_prefix [] s = some s
after_prefix (p ∷ ps) [] = none
after_prefix (p ∷ ps) (c ∷ s) = let rest = after_prefix ps s in if c == p then rest else none

record_body : Bytes → Option Counters
unfolding run_of counters_of
record_body s = elim (ended_by_tab (run_of is_field s)) [
  | none ↦ none
  | some (interface, s) ↦ elim (ended_by_tab (run_of is_field s)) [
    | none ↦ none
    | some (ip, s) ↦ elim (ended_by_tab (run_of is_digit s)) [
      | none ↦ none
      | some (rx, s) ↦ counters_of interface ip rx (run_of is_digit s)
    ]
  ]
]

-- `_NETWORK_RECORD_RE.match(record)` and the numbers, in a record without `\n`.
unfoldable pub match_record : Bytes → Option Counters
unfolding after_prefix record_body
match_record s = elim (after_prefix network_prefix s) [ none ↦ none | some body ↦ record_body body ]

pub record Rate : Type 0 where
  pub bits : ℕ
  pub micros : ℕ

-- `NetworkInterfaceActivity`
pub record InterfaceActivity : Type 0 where
  pub interface : Text
  pub ip_address : Text
  pub download : Option Rate
  pub upload : Option Rate
  pub route_selected : Bool

-- `self._previous[interface]`
pub record Sample : Type 0 where
  pub ip_address : Text
  pub rx : ℕ
  pub tx : ℕ
  pub time : ℕ

-- `self._baseline_route`
pub record Baseline : Type 0 where
  pub interface : Text
  pub rx : ℕ
  pub tx : ℕ

-- The attributes of the filter but its carry.
pub record Tracker : Type 0 where
  pub previous : Dict Text Sample
  pub baseline_route : Option Baseline
  pub latest_interfaces : Dict Text InterfaceActivity
  pub route_interface : Text
  pub route_ip_address : Text
  pub download_bytes : ℕ
  pub upload_bytes : ℕ

-- `(not item.route_selected, item.interface)` of one is not above that of the other.
unfoldable pub is_before : InterfaceActivity → InterfaceActivity → Bool
unfolding text_leb
is_before a b =
    if a.route_selected
    then not b.route_selected || text_leb a.interface b.interface
    else not b.route_selected && text_leb a.interface b.interface

unfoldable pub insert_activity : InterfaceActivity → List InterfaceActivity → List InterfaceActivity
unfolding is_before
insert_activity a [] = a ∷ []
insert_activity a (b ∷ bs) =
    let rest = insert_activity a bs in if is_before a b then a ∷ b ∷ bs else b ∷ rest

unfoldable pub sorted_activities : Dict Text InterfaceActivity → List InterfaceActivity
unfolding insert_activity
sorted_activities [] = []
sorted_activities ((k, a) ∷ d) = insert_activity a (sorted_activities d)

-- `[:3]`
abbrev first_three : List InterfaceActivity → List InterfaceActivity
first_three (a ∷ b ∷ c ∷ rest) = a ∷ b ∷ c ∷ []
first_three activities = activities

-- `NetworkActivity`
pub record Activity : Type 0 where
  pub interfaces : List InterfaceActivity
  pub download_bytes : ℕ
  pub upload_bytes : ℕ
  pub route_interface : Text
  pub route_ip_address : Text

unfoldable pub snapshot : Tracker → Activity
unfolding sorted_activities
snapshot t = record {
  interfaces = first_three (sorted_activities t.latest_interfaces);
  download_bytes = t.download_bytes;
  upload_bytes = t.upload_bytes;
  route_interface = t.route_interface;
  route_ip_address = t.route_ip_address;
}
