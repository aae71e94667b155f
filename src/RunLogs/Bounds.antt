-- ===== src/RunLogs/Bounds.antt =====
-- app/run_logs.py: how large a log file and the buffer of its writer become.
use borg_backup_manager.Prelude.{
  is_empty, is_empty_lem, max, ◌∙◌, ap, arith, ◌≡◌, ℕ, ◌+◌, ◌-◌, ◌≤◌, ◌<◌, true, false, List, [],
  ◌∷◌, ◌++◌, length, length-append, refl, Bool-cases, inl, inr,
}
use borg_backup_manager.Text.{take, length-drop, length-take_le}
use borg_backup_manager.RunLogs.{
  Bytes, Writer, truncation_marker, head_size, tail_size, last_bytes, shortened, compact_run_log,
  drained, reopened, flush, append_bytes, flush_if_due, close, open_writer,
}
use borg_backup_manager.RunLogs.Contents.{Operation, appends, flushes, polls, closes, apply, play}

length-truncation_marker : length truncation_marker ≡ 183
unfolding truncation_marker
length-truncation_marker = refl

length-shortened : (m : ℕ) (file : Bytes) → length (shortened m file) ≤ m + 183
unfolding shortened
length-shortened m file =
    let h : ℕ = head_size m in
    let t : ℕ = tail_size m in
    let parts : length (shortened m file)
        ≡ length (take h file ++ (truncation_marker ++ last_bytes t file)) =
      refl in
    omega (
      arith,
      parts,
      length-append (take h file) (truncation_marker ++ last_bytes t file),
      length-append truncation_marker (last_bytes t file),
      length-truncation_marker,
      length-take_le h file,
      length-drop (length file - t) file,
    )

-- The file is within its limit and a margin, and its size is known; the buffer is not full.
pub record IsBounded (w : Writer) : Type 0 where
  pub size : w.written_size ≡ length w.file
  pub room : length w.file ≤ w.max_bytes + 1048576
  pub limited : 0 < w.max_bytes
  pub unfilled : length w.buffer < w.buffer_bytes

length-compact_run_log :
    (m : ℕ) (file : Bytes) → 0 < m → length (compact_run_log m file) ≤ m + 1048576
unfolding compact_run_log
length-compact_run_log m file h = ground (arith, h, length-shortened m file)

-- What is flushed is bounded, however full the buffer was.
flush-IsBounded :
    (now : ℕ) (w : Writer)
    → w.written_size ≡ length w.file
    → length w.file ≤ w.max_bytes + 1048576
    → 0 < w.max_bytes
    → 0 < w.buffer_bytes
    → w.closed ≡ false
    → IsBounded (flush now w)
unfolding flush
flush-IsBounded now w size room limited wide c = elim (Bool-cases (is_empty w.buffer)) [
  | inl h ↦
      let kept : length w.buffer ≡ 0 → IsBounded w = λ e. record {
        size = size;
        room = room;
        limited = limited;
        unfilled = omega (arith, e, wide);
      } in
      ground (arith, c, h, kept (ap length (is_empty_lem w.buffer h)))
  | inr h ↦
      let cut : IsBounded (reopened (drained now w)) = record {
        size = refl;
        room = length-compact_run_log w.max_bytes (w.file ++ w.buffer) limited;
        limited = limited;
        unfilled = wide;
      } in
      let sum = length-append w.file w.buffer in
      let uncut : w.written_size + length w.buffer ≤ w.max_bytes + 1048576
          → IsBounded (drained now w) =
        λ e. record {
          size = omega (arith, size, sum);
          room = omega (arith, size, sum, e);
          limited = limited;
          unfilled = wide;
        } in
      ground (arith, c, h, cut, uncut, limited)
]

append_bytes-IsBounded :
    (input : Bytes) (now : ℕ) (w : Writer)
    → w.closed ≡ false
    → IsBounded w
    → IsBounded (append_bytes input now w)
unfolding append_bytes
append_bytes-IsBounded input now w c b =
    let read : Writer = record w { buffer = w.buffer ++ input } in
    let flushed : IsBounded (flush now read) =
      flush-IsBounded now read b.size b.room b.limited (omega (arith, b.unfilled)) c in
    let waiting : length read.buffer < w.buffer_bytes → IsBounded read =
      λ e. record { size = b.size; room = b.room; limited = b.limited; unfilled = e } in
    ground (arith, c, b, flushed, waiting)

shut-IsBounded :
    (o : Operation) (w : Writer) → w.closed ≡ true → IsBounded w → IsBounded (apply o w)
unfolding apply append_bytes flush flush_if_due close
shut-IsBounded (appends input now) w c b = ground (arith, c, b)
shut-IsBounded (flushes now) w c b = ground (arith, c, b)
shut-IsBounded (polls now) w c b = ground (arith, c, b)
shut-IsBounded (closes now) w c b = ground (arith, c, b)

open_flush-IsBounded :
    (now : ℕ) (w : Writer) → w.closed ≡ false → IsBounded w → IsBounded (flush now w)
open_flush-IsBounded now w c b =
    flush-IsBounded now w b.size b.room b.limited (omega (arith, b.unfilled)) c

open-IsBounded :
    (o : Operation) (w : Writer) → w.closed ≡ false → IsBounded w → IsBounded (apply o w)
unfolding apply flush_if_due close
open-IsBounded (appends input now) w c b = append_bytes-IsBounded input now w c b
open-IsBounded (flushes now) w c b = open_flush-IsBounded now w c b
open-IsBounded (polls now) w c b = ground (arith, c, b, open_flush-IsBounded now w c b)
open-IsBounded (closes now) w c b =
    let f = open_flush-IsBounded now w c b in
    let done : IsBounded (record (flush now w) { closed = true }) = record {
      size = f.size;
      room = f.room;
      limited = f.limited;
      unfilled = f.unfilled;
    } in
    ground (arith, c, done)

apply-IsBounded : (o : Operation) (w : Writer) → IsBounded w → IsBounded (apply o w)
unfolding apply append_bytes flush_if_due close
apply-IsBounded o w b = elim (Bool-cases w.closed) [
  | inl c ↦ shut-IsBounded o w c b
  | inr c ↦ open-IsBounded o w c b
]

play-IsBounded : (os : List Operation) (w : Writer) → IsBounded w → IsBounded (play os w)
unfolding play
play-IsBounded [] w b = b
play-IsBounded (o ∷ os) w b = play-IsBounded os (apply o w) (apply-IsBounded o w b)

flush_limits :
    (now : ℕ) (w : Writer)
    → ((flush now w).max_bytes ≡ w.max_bytes) × ((flush now w).buffer_bytes ≡ w.buffer_bytes)
unfolding flush
flush_limits now w = (ground arith, ground arith)

apply_limits :
    (o : Operation) (w : Writer)
    → ((apply o w).max_bytes ≡ w.max_bytes) × ((apply o w).buffer_bytes ≡ w.buffer_bytes)
unfolding apply append_bytes flush_if_due close
apply_limits (appends input now) w =
    let f = flush_limits now (record w { buffer = w.buffer ++ input }) in
    (ground (arith, f.0), ground (arith, f.1))
apply_limits (flushes now) w = flush_limits now w
apply_limits (polls now) w =
    (ground (arith, (flush_limits now w).0), ground (arith, (flush_limits now w).1))
apply_limits (closes now) w =
    (ground (arith, (flush_limits now w).0), ground (arith, (flush_limits now w).1))

play_limits :
    (os : List Operation) (w : Writer)
    → ((play os w).max_bytes ≡ w.max_bytes) × ((play os w).buffer_bytes ≡ w.buffer_bytes)
unfolding play
play_limits [] w = (refl, refl)
play_limits (o ∷ os) w = (
  (play_limits os (apply o w)).0 ∙ (apply_limits o w).0,
  (play_limits os (apply o w)).1 ∙ (apply_limits o w).1,
)

-- The log file of a writer with a limit stays within the limit and one mebibyte, however much is
-- appended at once, if it is so when it is opened, and the buffer stays below its size, which is at
-- least 4096 bytes.
pub log_bounded :
    (os : List Operation) (file : Bytes) (max_bytes buffer_bytes flush_interval now : ℕ)
    → 0 < max_bytes
    → length file ≤ max_bytes + 1048576
    → (length (play os (open_writer file max_bytes buffer_bytes flush_interval now)).file
        ≤ max_bytes + 1048576)
      × (length (play os (open_writer file max_bytes buffer_bytes flush_interval now)).buffer
          < max 4096 buffer_bytes)
unfolding open_writer
log_bounded os file max_bytes buffer_bytes flush_interval now p h =
    let w = open_writer file max_bytes buffer_bytes flush_interval now in
    let b =
      play-IsBounded os w (record { size = refl; room = h; limited = p; unfilled = omega arith }) in
    let limits = play_limits os w in
    (omega (arith, b.room, limits.0), omega (arith, b.unfilled, limits.1))
