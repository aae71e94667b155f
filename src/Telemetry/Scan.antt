-- ===== src/Telemetry/Scan.antt =====
-- app/borg_progress.py, `BorgNetworkStreamFilter`: the loop of `feed` over a payload, `feed` and
-- `finalize`. `fuel` bounds the turns of the loop, each of which ends behind a newline, so that one
-- more than the length of the payload is enough.
use borg_backup_manager.Prelude.{
  ℕ, zero, suc, ◌+◌, Bool, true, false, not, ◌&&◌, ◌||◌, Option, none, some, [], ◌∷◌, ◌++◌, ◌==◌,
  if◌then◌else◌, length, is_empty, contains,
}
use borg_backup_manager.Text.{Text, rstrip}
use borg_backup_manager.ItemActivity.{Bytes}
use borg_backup_manager.Telemetry.{
  mark, network_prefix, Counters, match_record, Tracker, Activity, snapshot,
}
use borg_backup_manager.Telemetry.Tracking.{parse_record}

-- `text.startswith(start)`
unfoldable pub starts_with : Bytes → Bytes → Bool
starts_with [] s = true
starts_with (p ∷ ps) [] = false
starts_with (p ∷ ps) (c ∷ s) = let rest = starts_with ps s in c == p && rest

abbrev pub put_before : ℕ → Option (Bytes × Bytes) → Option (Bytes × Bytes)
put_before c none = none
put_before c (some (before, rest)) = some (c ∷ before, rest)

-- `payload.find(_NETWORK_PREFIX, cursor)`: what stands before it, and the rest from it on.
unfoldable pub find_prefix : Bytes → Option (Bytes × Bytes)
unfolding starts_with
find_prefix [] = none
find_prefix (c ∷ s) =
    let rest = find_prefix s in
    if starts_with network_prefix (c ∷ s) then some ([], c ∷ s) else put_before c rest

-- `payload.find(b"\n", marker)`: what stands before it and behind it.
unfoldable pub find_newline : Bytes → Option (Bytes × Bytes)
find_newline [] = none
find_newline (c ∷ s) =
    let rest = find_newline s in if c == 10 then some ([], s) else put_before c rest

-- `payload.rfind(b"\x1e", cursor)`: what stands before it, and the rest from it on.
unfoldable pub last_mark : Bytes → Option (Bytes × Bytes)
last_mark [] = none
last_mark (c ∷ s) = elim (last_mark s) [
  | some (before, rest) ↦ some (c ∷ before, rest)
  | none ↦ if c == mark then some ([], c ∷ s) else none
]

-- The output, the new carry, and the state that the records leave.
pub record Scanned (T : Type 0) : Type 0 where
  pub output : Bytes
  pub carry : Bytes
  pub state : T

-- `if marker < 0:`
unfoldable pub tail_of : Bytes → Bytes × Bytes
unfolding last_mark starts_with
tail_of s = elim (last_mark s) [
  | none ↦ (s, [])
  | some (before, rest) ↦ if starts_with rest network_prefix then (before, rest) else (s, [])
]

abbrev pub after_output : {T : Type 0} → Bytes → Scanned T → Scanned T
after_output s r = record r { output = s ++ r.output }

-- The output for a line: nothing for a record.
unfoldable pub passed : Bytes → Bytes
unfolding match_record
passed line = elim (match_record line) [ none ↦ line ++ 10 ∷ [] | some c ↦ [] ]

-- The loop of `feed` from the cursor on; `on` is what a record that matches does.
module _ {T : Type 0} (on : Counters → T → T) where
  unfoldable pub taken : Bytes → T → T
  unfolding match_record
  taken line t = elim (match_record line) [ none ↦ t | some c ↦ on c t ]

  abbrev pub scanned_after : Bytes → Option (Scanned T) → Option (Scanned T)
  scanned_after s none = none
  scanned_after s (some r) = some (after_output s r)

  unfoldable pub scan : ℕ → Bytes → T → Option (Scanned T)
  unfolding find_prefix find_newline tail_of passed taken
  scan zero s t = none
  scan (suc fuel) s t = elim (find_prefix s) [
    | none ↦ some (record { output = (tail_of s).0; carry = (tail_of s).1; state = t })
    | some (before, marked) ↦ elim (find_newline marked) [
      | none ↦ some (record { output = before; carry = marked; state = t })
      | some (line, after) ↦ scanned_after (before ++ passed line) (scan fuel after (taken line t))
    ]
  ]

pub record Filter : Type 0 where
  pub carry : Bytes
  pub tracker : Tracker

-- `__init__`
abbrev pub new_filter : Filter
new_filter = record {
  carry = [];
  tracker = record {
    previous = [];
    baseline_route = none;
    latest_interfaces = [];
    route_interface = [];
    route_ip_address = [];
    download_bytes = 0;
    upload_bytes = 0;
  };
}

-- What a call of `feed` knows: the tracker and `latest`, how often it has read the clock, and whether
-- a record has raised. From then on nothing happens.
pub record Seen : Type 0 where
  pub tracker : Tracker
  pub latest : Option Activity
  pub ticks : ℕ
  pub raised : Bool

-- At the beginning of a call.
abbrev pub unseen : Tracker → Seen
unseen t = record { tracker = t; latest = none; ticks = 0; raised = false }

abbrev seen_next : Seen → Option Tracker → Seen
seen_next seen none = record seen { ticks = seen.ticks + 1; raised = true }
seen_next seen (some t) = record {
  tracker = t;
  latest = some (snapshot t);
  ticks = seen.ticks + 1;
  raised = false;
}

-- A record that matches, where `clock` has the instants that `time.monotonic()` returns in this call.
unfoldable pub see : (Bytes → Text) → (ℕ → ℕ) → Counters → Seen → Seen
unfolding parse_record snapshot
see decode clock c seen =
    if seen.raised
    then seen
    else seen_next seen (parse_record decode (clock seen.ticks) c seen.tracker)

-- The result of a call, and whether it raised instead.
pub record Fed : Type 0 where
  pub output : Bytes
  pub latest : Option Activity
  pub raised : Bool
  pub filter : Filter

-- A call that raises has no result; the carry is empty by then.
abbrev pub interrupted : Tracker → Fed
interrupted t = record {
  output = [];
  latest = none;
  raised = true;
  filter = record { carry = []; tracker = t };
}

unfoldable pub fed : Filter → Option (Scanned Seen) → Fed
fed f none = record { output = []; latest = none; raised = false; filter = f }
fed f (some r) = if r.state.raised then interrupted r.state.tracker else record {
  output = r.output;
  latest = r.state.latest;
  raised = false;
  filter = record { carry = r.carry; tracker = r.state.tracker };
}

-- `feed`
unfoldable pub feed : (Bytes → Text) → (ℕ → ℕ) → Bytes → Filter → Fed
unfolding scan see fed
feed decode clock chunk f =
    let payload = f.carry ++ chunk in
    if is_empty chunk || (is_empty f.carry && not (contains mark chunk))
    then record { output = chunk; latest = none; raised = false; filter = f }
    else fed f (scan (see decode clock) (suc (length payload)) payload (unseen f.tracker))

-- `self._snapshot() if self._latest_interfaces else None`
abbrev last_activity : Tracker → Option Activity
last_activity t = if is_empty t.latest_interfaces then none else some (snapshot t)

abbrev is_line_end : ℕ → Bool
is_line_end c = c == 13 || c == 10

abbrev finalized : Option Tracker → Tracker → Fed
finalized none t = interrupted t
finalized (some u) t = record {
  output = [];
  latest = some (snapshot u);
  raised = false;
  filter = record { carry = []; tracker = u };
}

-- `finalize`, at the instant `now`.
unfoldable pub finalize : (Bytes → Text) → ℕ → Filter → Fed
unfolding match_record parse_record snapshot rstrip
finalize decode now f =
    if is_empty f.carry
    then record { output = []; latest = last_activity f.tracker; raised = false; filter = f }
    else elim (match_record (rstrip is_line_end f.carry)) [
      | none ↦ record {
        output = f.carry;
        latest = last_activity f.tracker;
        raised = false;
        filter = record { carry = []; tracker = f.tracker };
      }
      | some c ↦ finalized (parse_record decode now c f.tracker) f.tracker
    ]
