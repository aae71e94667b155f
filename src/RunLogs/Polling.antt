-- ===== src/RunLogs/Polling.antt =====
-- app/run_logs.py, `read_run_log_delta`: a client that polls a growing log.
use borg_backup_manager.Prelude.{
  concat, subst, All, ◌||◌, ltb, sym, ◌∙◌, ap, arith, ◌≡◌, ℕ, zero, suc, ◌+◌, ◌≤◌, max, true, false,
  List, [], ◌∷◌, ◌++◌, some, length, length-append, map, refl, Bool-cases, inl, inr, map-append,
  append_nil, append_assoc, if◌then◌else◌,
}
use borg_backup_manager.Text.{Text, take, drop, length-drop}
use borg_backup_manager.RunLogs.{Bytes}
use borg_backup_manager.RunLogs.Reading.{Delta, read_run_log_delta, payload_of, start_of, is_late}

-- What the client shows, piece by piece, and the offset of its next poll.
pub record View : Type 0 where
  pub texts : List Text
  pub offset : ℕ

-- A reset replaces what is shown.
abbrev pub show : Delta → View → View
show d v = record {
  texts = if d.reset then d.text ∷ [] else v.texts ++ d.text ∷ [];
  offset = d.offset;
}

drop-append : (s t : Bytes) → drop (length s) (s ++ t) ≡ t
unfolding drop
drop-append [] t = refl
drop-append (c ∷ s) t = drop-append s t

take_all : (n : ℕ) (s : Bytes) → length s ≤ n → take n s ≡ s
unfolding take
take_all zero [] h = refl
take_all zero (c ∷ s) h = ground arith
take_all (suc n) [] h = refl
take_all (suc n) (c ∷ s) h = ap (λ t. c ∷ t) (take_all n s (omega (arith, h)))

take-drop : (n : ℕ) (s : Bytes) → take n s ++ drop n s ≡ s
unfolding take drop
take-drop zero s = refl
take-drop (suc n) [] = refl
take-drop (suc n) (c ∷ s) = ap (λ t. c ∷ t) (take-drop n s)

payload_rest :
    (limit offset : ℕ) (file : Bytes)
    → offset ≤ length file
    → payload_of limit offset file ≡ drop (start_of limit (length file) offset) file
unfolding payload_of
payload_rest limit offset file h =
    take_all limit _ (ground (arith, length-drop (start_of limit (length file) offset) file))

concat-append : (ps : List Bytes) (b : Bytes) → concat (ps ++ b ∷ []) ≡ concat ps ++ b
concat-append [] b = append_nil b
concat-append (p ∷ ps) b =
    ap (λ t. p ++ t) (concat-append ps b) ∙ sym (append_assoc p (concat ps) b)

module _ (decode : Bytes → Text) (max_bytes : ℕ) where
  abbrev poll : Bytes → View → View
  poll file v = show (read_run_log_delta decode (some file) v.offset max_bytes) v

  -- The log grows by each chunk before a poll.
  unfoldable pub follow : List Bytes → Bytes → View → Bytes × View
  unfolding read_run_log_delta
  follow [] file v = (file, v)
  follow (chunk ∷ chunks) file v = follow chunks (file ++ chunk) (poll (file ++ chunk) v)

  -- What is shown is the end of the file, and the next poll starts behind it.
  pub record IsEnd (file : Bytes) (v : View) : Type 0 where
    pub before : Bytes
    pub pieces : List Bytes
    pub shown : v.texts ≡ map decode pieces
    pub whole : file ≡ before ++ concat pieces
    pub position : v.offset ≡ length file

  abbrev limit : ℕ
  limit = max 4096 max_bytes

  poll_position :
      (file : Bytes) (offset : ℕ)
      → offset ≤ length file
      → start_of limit (length file) offset + length (payload_of limit offset file) ≡ length file
  poll_position file offset h =
      let start = start_of limit (length file) offset in
      ground (arith, h, ap length (payload_rest limit offset file h), length-drop start file)

  late-IsEnd :
      (file : Bytes) (v : View)
      → v.offset ≤ length file
      → is_late limit (length file) v.offset ≡ true
      → IsEnd file (poll file v)
  unfolding read_run_log_delta
  late-IsEnd file v o h =
      let start : ℕ = start_of limit (length file) v.offset in
      let payload : Bytes = payload_of limit v.offset file in
      let reset : ltb (length file) v.offset || is_late limit (length file) v.offset ≡ true =
        ground (arith, h) in
      record {
        before = take start file;
        pieces = payload ∷ [];
        shown = ap (λ r. if r then decode payload ∷ [] else v.texts ++ decode payload ∷ []) reset;
        whole = sym (
            ap (λ t. take start file ++ t) (append_nil payload ∙ payload_rest limit v.offset file o)
            ∙ take-drop start file);
        position = poll_position file v.offset o;
      }

  soon-IsEnd :
      (file chunk : Bytes) (v : View)
      → is_late limit (length (file ++ chunk)) v.offset ≡ false
      → (e : IsEnd file v)
      → (r : IsEnd (file ++ chunk) (poll (file ++ chunk) v)) × (r.before ≡ e.before)
  unfolding read_run_log_delta
  soon-IsEnd file chunk v h e =
      let now : Bytes = file ++ chunk in
      let payload : Bytes = payload_of limit v.offset now in
      let o : v.offset ≤ length now = omega (arith, e.position, length-append file chunk) in
      let start : start_of limit (length now) v.offset ≡ length file =
        ground (arith, h, o, e.position) in
      let new : payload ≡ chunk =
        payload_rest limit v.offset now o ∙ ap (λ n. drop n now) start ∙ drop-append file chunk in
      let kept : ltb (length now) v.offset || is_late limit (length now) v.offset ≡ false =
        ground (arith, h, o) in
      (
        record {
          before = e.before;
          pieces = e.pieces ++ payload ∷ [];
          shown =
              ap (λ r. if r then decode payload ∷ [] else v.texts ++ decode payload ∷ []) kept
              ∙ ap (λ ts. ts ++ decode payload ∷ []) e.shown
              ∙ sym (map-append decode e.pieces (payload ∷ []));
          whole =
              ap (λ t. t ++ chunk) e.whole
              ∙ append_assoc e.before (concat e.pieces) chunk
              ∙ ap (λ t. e.before ++ (concat e.pieces ++ t)) (sym new)
              ∙ ap (λ t. e.before ++ t) (sym (concat-append e.pieces payload));
          position = poll_position now v.offset o;
        },
        refl,
      )

  poll-IsEnd :
      (file chunk : Bytes) (v : View)
      → IsEnd file v
      → IsEnd (file ++ chunk) (poll (file ++ chunk) v)
  poll-IsEnd file chunk v e = elim (Bool-cases (is_late limit (length (file ++ chunk)) v.offset)) [
    | inl h ↦ late-IsEnd (file ++ chunk) v (omega (arith, e.position, length-append file chunk)) h
    | inr h ↦ (soon-IsEnd file chunk v h e).0
  ]

  follow-IsEnd :
      (chunks : List Bytes) (file : Bytes) (v : View)
      → IsEnd file v
      → IsEnd (follow chunks file v).0 (follow chunks file v).1
  unfolding follow
  follow-IsEnd [] file v e = e
  follow-IsEnd (chunk ∷ chunks) file v e =
      follow-IsEnd chunks (file ++ chunk) (poll (file ++ chunk) v) (poll-IsEnd file chunk v e)

  -- A client that polls a log while it grows shows the decoded pieces of an end of the file, without
  -- a gap or a repetition, and its next poll starts behind it.
  pub polls_follow :
      (chunks : List Bytes)
      → IsEnd
          (follow chunks [] (record { texts = []; offset = 0 })).0
          (follow chunks [] (record { texts = []; offset = 0 })).1
  polls_follow chunks =
      follow-IsEnd chunks [] (record { texts = []; offset = 0 })
        (record { before = []; pieces = []; shown = refl; whole = refl; position = refl })

  abbrev IsComplete : Bytes → View → Type 0
  IsComplete file v = (e : IsEnd file v) × (e.before ≡ [])

  prompt :
      (file chunk : Bytes) (v : View)
      → v.offset ≡ length file
      → length chunk ≤ limit
      → is_late limit (length (file ++ chunk)) v.offset ≡ false
  prompt file chunk v o h = ground (arith, o, h, length-append file chunk)

  follow-IsComplete :
      (chunks : List Bytes) (file : Bytes) (v : View)
      → All (λ c. length c ≤ limit) chunks
      → IsComplete file v
      → IsComplete (file ++ concat chunks) (follow chunks file v).1
  unfolding follow
  follow-IsComplete [] file v a c = subst (λ f. IsComplete f v) (sym (append_nil file)) c
  follow-IsComplete (chunk ∷ chunks) file v a c =
      let soon = soon-IsEnd file chunk v (prompt file chunk v c.0.position a.0) c.0 in
      let rest =
        follow-IsComplete chunks (file ++ chunk) (poll (file ++ chunk) v) a.1
          (soon.0, soon.1 ∙ c.1) in
      subst (λ f. IsComplete f (follow chunks (file ++ chunk) (poll (file ++ chunk) v)).1)
        (append_assoc file chunk (concat chunks)) rest

  -- If between two polls never more is written than one answer holds, at least 4096 bytes, then what
  -- the client shows is the whole log, cut into pieces that are decoded one by one.
  pub polls_complete :
      (chunks : List Bytes)
      → All (λ c. length c ≤ max 4096 max_bytes) chunks
      → (pieces : List Bytes) × (((follow chunks [] (record { texts = []; offset = 0 })).1.texts
            ≡ map decode pieces)
          × (concat pieces ≡ concat chunks))
  polls_complete chunks a =
      let c =
        follow-IsComplete chunks [] (record { texts = []; offset = 0 }) a
          (
            record { before = []; pieces = []; shown = refl; whole = refl; position = refl },
            refl,
          ) in
      (c.0.pieces, (c.0.shown, sym (c.0.whole ∙ ap (λ b. b ++ concat c.0.pieces) c.1)))
