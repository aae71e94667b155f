-- ===== src/RunLogs/Contents.antt =====
-- app/run_logs.py: what a buffered writer makes of its log file.
use borg_backup_manager.Prelude.{
  is_empty, is_empty_lem, ap, sym, append_nil, append_assoc, ◌∙◌, arith, if◌then◌else◌, ◌≡◌, ℕ,
  Bool, true, false, List, [], ◌∷◌, ◌++◌, refl, Bool-cases, inl, inr,
}
use borg_backup_manager.RunLogs.{
  Bytes, Writer, drained, flush, append_bytes, flush_if_due, close, open_writer,
}

pub data Operation : Type 0 where
  appends : (input : Bytes) (now : ℕ) → Operation
  flushes : (now : ℕ) → Operation
  polls : (now : ℕ) → Operation
  closes : (now : ℕ) → Operation

unfoldable pub apply : Operation → Writer → Writer
unfolding append_bytes flush flush_if_due close
apply (appends input now) w = append_bytes input now w
apply (flushes now) w = flush now w
apply (polls now) w = (flush_if_due now w).0
apply (closes now) w = close now w

unfoldable pub play : List Operation → Writer → Writer
unfolding apply
play [] w = w
play (o ∷ os) w = play os (apply o w)

-- The log as it is promised: what is appended stands in it at once, until it is closed.
pub record Promise : Type 0 where
  pub content : Bytes
  pub over : Bool

abbrev pub promise_step : Operation → Promise → Promise
promise_step (appends input now) p = if p.over then p else record p { content = p.content ++ input }
promise_step (flushes now) p = p
promise_step (polls now) p = p
promise_step (closes now) p = record p { over = true }

unfoldable pub promised : List Operation → Promise → Promise
promised [] p = p
promised (o ∷ os) p = promised os (promise_step o p)

-- The file and the buffer are the promised content; a closed writer has nothing left to write.
pub record Keeps (w : Writer) (p : Promise) : Type 0 where
  pub content : w.file ++ w.buffer ≡ p.content
  pub over : w.closed ≡ p.over
  pub written : w.closed ≡ true → w.buffer ≡ []
  pub unlimited : w.max_bytes ≡ 0

drained-Keeps :
    (now : ℕ) (w : Writer) (p : Promise) → w.closed ≡ false → Keeps w p → Keeps (drained now w) p
drained-Keeps now w p c k = record {
  content = append_nil (w.file ++ w.buffer) ∙ k.content;
  over = k.over;
  written = λ e. refl;
  unlimited = k.unlimited;
}

flush-Keeps : (now : ℕ) (w : Writer) (p : Promise) → Keeps w p → Keeps (flush now w) p
unfolding flush
flush-Keeps now w p k = ground (arith, k.unlimited, drained-Keeps now w p)

flush_closed : (now : ℕ) (w : Writer) → (flush now w).closed ≡ w.closed
unfolding flush
flush_closed now w = ground arith

flush_empties : (now : ℕ) (w : Writer) → w.closed ≡ false → (flush now w).buffer ≡ []
unfolding flush
flush_empties now w c = elim (Bool-cases (is_empty w.buffer)) [
  | inl h ↦ ground (arith, c, h, is_empty_lem w.buffer h)
  | inr h ↦ ground (arith, c, h)
]

abbrev longer : Bytes → Writer → Writer
longer input w = record w { buffer = w.buffer ++ input }

append_bytes-Keeps :
    (input : Bytes) (now : ℕ) (w : Writer) (p : Promise)
    → w.closed ≡ false
    → Keeps w p
    → Keeps (append_bytes input now w) (record p { content = p.content ++ input })
unfolding append_bytes
append_bytes-Keeps input now w p c k =
    let read : Promise = record p { content = p.content ++ input } in
    let kept : Keeps (longer input w) read = record {
      content = sym (append_assoc w.file w.buffer input) ∙ ap (λ s. s ++ input) k.content;
      over = k.over;
      written = λ e. ground (arith, c, e);
      unlimited = k.unlimited;
    } in
    let nothing : is_empty input ≡ true → Keeps w read = λ h. record {
      content =
          k.content
          ∙ sym (append_nil p.content)
          ∙ ap (λ s. p.content ++ s) (sym (is_empty_lem input h));
      over = k.over;
      written = k.written;
      unlimited = k.unlimited;
    } in
    ground (arith, c, nothing, kept, flush-Keeps now (longer input w) read kept)

apply-Keeps :
    (o : Operation) (w : Writer) (p : Promise) → Keeps w p → Keeps (apply o w) (promise_step o p)
unfolding apply append_bytes flush_if_due close
apply-Keeps (appends input now) w p k = elim (Bool-cases w.closed) [
  | inl c ↦ ground (arith, c, k.over, k)
  | inr c ↦ ground (arith, c, k.over, append_bytes-Keeps input now w p c k)
]
apply-Keeps (flushes now) w p k = flush-Keeps now w p k
apply-Keeps (polls now) w p k = ground (arith, flush-Keeps now w p k)
apply-Keeps (closes now) w p k = elim (Bool-cases w.closed) [
  | inl c ↦
      let done : Keeps w (record p { over = true }) = record {
        content = k.content;
        over = c;
        written = k.written;
        unlimited = k.unlimited;
      } in
      ground (arith, c, done)
  | inr c ↦
      let f = flush-Keeps now w p k in
      let done : Keeps (record (flush now w) { closed = true }) (record p { over = true }) =
        record {
          content = f.content;
          over = refl;
          written = λ e. flush_empties now w c;
          unlimited = f.unlimited;
        } in
      ground (arith, c, done)
]

play-Keeps :
    (os : List Operation) (w : Writer) (p : Promise) → Keeps w p → Keeps (play os w) (promised os p)
unfolding play promised
play-Keeps [] w p k = k
play-Keeps (o ∷ os) w p k = play-Keeps os (apply o w) (promise_step o p) (apply-Keeps o w p k)

-- A writer without a limit refines a log that is written at once: whatever is appended, flushed and
-- polled when, the file with the buffer behind it is what the log had and all that was appended
-- before the close, in order; after the close the file alone is.
pub writer_refines :
    (os : List Operation) (file : Bytes) (buffer_bytes flush_interval now : ℕ)
    → ((play os (open_writer file 0 buffer_bytes flush_interval now)).file
          ++ (play os (open_writer file 0 buffer_bytes flush_interval now)).buffer
        ≡ (promised os (record { content = file; over = false })).content)
      × ((promised os (record { content = file; over = false })).over ≡ true
          → (play os (open_writer file 0 buffer_bytes flush_interval now)).file
            ≡ (promised os (record { content = file; over = false })).content)
unfolding open_writer
writer_refines os file buffer_bytes flush_interval now =
    let w = open_writer file 0 buffer_bytes flush_interval now in
    let start : Keeps w (record { content = file; over = false }) = record {
      content = append_nil file;
      over = refl;
      written = λ e. refl;
      unlimited = refl;
    } in
    let k = play-Keeps os w _ start in
    (
      k.content,
      λ over.
          sym (append_nil _)
          ∙ ap (λ b. (play os w).file ++ b) (sym (k.written (k.over ∙ over)))
          ∙ k.content,
    )
