-- ===== src/Telemetry/Chunks.antt =====
-- app/borg_progress.py, `BorgNetworkStreamFilter`: chunk by chunk the filter is the machine that reads
-- byte by byte, wherever the chunks are cut.
use borg_backup_manager.Prelude.{
  ℕ, suc, false, some, not, ◌&&◌, none, List, [], ◌∷◌, ◌++◌, is_empty, is_empty_lem, length,
  contains, ◌≡◌, refl, sym, ap, ◌∙◌, subst, arith, inl, inr, Bool-cases, if◌then◌else◌,
}
use borg_backup_manager.Text.{Text}
use borg_backup_manager.ItemActivity.{Bytes}
use borg_backup_manager.Telemetry.{mark, Tracker}
use borg_backup_manager.Telemetry.Scan.{
  scan, Scanned, unseen, Filter, new_filter, Seen, see, Fed, fed, feed,
}
use borg_backup_manager.Telemetry.Machine.{
  Mode, passing, pending, Ran, ran, prepend, run, run-append,
}
use borg_backup_manager.Telemetry.Resume.{Agrees}
use borg_backup_manager.Telemetry.Loop.{IsScanned, scan_ends}
use borg_backup_manager.Telemetry.Settled.{
  IsSettled, passing-IsSettled, run-IsSettled, run_unmarked,
}

-- The filter agrees with the machine: it holds the bytes that wait, and the tracker.
pub record IsFiltering (f : Filter) (m : Mode) (t : Tracker) : Type 0 where
  pub carry : f.carry ≡ pending m
  pub tracker : f.tracker ≡ t
  pub settled : IsSettled m

-- The machine after a chunk: where a record has raised, the output of the chunk and what waits are
-- lost, and the records before it count.
unfoldable pub settle : Ran Seen → Ran Seen
settle x =
    if x.state.raised
    then record { output = []; mode = passing; state = record x.state { latest = none } }
    else x

-- What a chunk makes of the filter and of the machine.
pub record IsFed (r : Fed) (x : Ran Seen) : Type 0 where
  pub output : r.output ≡ x.output
  pub latest : r.latest ≡ x.state.latest
  pub raised : r.raised ≡ x.state.raised
  pub filtering : IsFiltering r.filter x.mode x.state.tracker

-- A call that lets the chunk through.
abbrev let_through : Bytes → Filter → Fed
let_through chunk f = record { output = chunk; latest = none; raised = false; filter = f }

module _ (decode : Bytes → Text) (clock : ℕ → ℕ) where
  abbrev machine : Bytes → Mode → Tracker → Ran Seen
  machine chunk m t = run (see decode clock) chunk m (unseen t)

  -- Nothing waits only while bytes pass.
  passing_of : (m : Mode) (t : Seen) → IsSettled m → pending m ≡ [] → m ≡ passing
  unfolding IsSettled run
  passing_of m t h e =
      ap (λ (r : Ran Seen). r.mode)
        (sym (
          subst (λ s. run (see decode clock) s passing t ≡ ran (see decode clock) [] m t) e
            (h (see decode clock) t)))

  fed-IsFed :
      (f : Filter) (x : Ran Seen) (r : Scanned Seen)
      → Agrees (see decode clock) x r.output r.carry r.state
      → IsSettled x.mode
      → IsFed (fed f (some r)) (settle x)
  unfolding fed settle pending
  fed-IsFed f x r a h =
      let same : x.state.raised ≡ r.state.raised = ap (λ (s : Seen). s.raised) a.1.1 in
      let trackers : r.state.tracker ≡ x.state.tracker = sym (ap (λ (s : Seen). s.tracker) a.1.1) in
      elim (Bool-cases r.state.raised) [
        | inl e ↦
            rw (e, same ∙ e, fed, settle)
              (record {
                output = refl;
                latest = refl;
                raised = refl;
                filtering = record {
                  carry = refl;
                  tracker = trackers;
                  settled = passing-IsSettled;
                };
              })
        | inr e ↦
            rw (e, same ∙ e, fed, settle)
              (record {
                output = sym a.0;
                latest = sym (ap (λ (s : Seen). s.latest) a.1.1);
                raised = refl;
                filtering = record { carry = sym a.1.0; tracker = trackers; settled = h };
              })
      ]

  fed_whole :
      (f : Filter) (m : Mode) (chunk : Bytes)
      → IsFiltering f m f.tracker
      → IsFed
          (fed f (
            scan
              (see decode clock)
              (suc (length (f.carry ++ chunk)))
              (f.carry ++ chunk)
              (unseen f.tracker)))
          (settle (machine chunk m f.tracker))
  unfolding IsSettled
  fed_whole f m chunk h =
      let scanned : IsScanned (see decode clock) (suc (length (f.carry ++ chunk)))
          (f.carry ++ chunk) (unseen f.tracker) =
        scan_ends (see decode clock) (suc (length (f.carry ++ chunk))) (f.carry ++ chunk)
          (unseen f.tracker) (omega arith) in
      let resumed : run (see decode clock) (f.carry ++ chunk) passing (unseen f.tracker)
          ≡ machine chunk m f.tracker =
        ap (λ s. run (see decode clock) (s ++ chunk) passing (unseen f.tracker)) h.carry
        ∙ run-append (see decode clock) (pending m) chunk passing (unseen f.tracker)
        ∙ ap
            (λ (r : Ran Seen).
              prepend (see decode clock) r.output (run (see decode clock) chunk r.mode r.state))
            (h.settled (see decode clock) (unseen f.tracker)) in
      let agrees =
        subst
          (λ r.
            Agrees (see decode clock) r scanned.result.output scanned.result.carry
              scanned.result.state)
          resumed scanned.agrees in
      subst (λ o. IsFed (fed f o) (settle (machine chunk m f.tracker))) (sym scanned.ended)
        (fed-IsFed f (machine chunk m f.tracker) scanned.result agrees
          (run-IsSettled (see decode clock) chunk m (unseen f.tracker) h.settled))

  -- The two ways around the loop: an empty chunk, and one without a marker while nothing waits.
  IsFed-nothing :
      (f : Filter) (m : Mode)
      → IsFiltering f m f.tracker
      → IsFed (let_through [] f) (settle (machine [] m f.tracker))
  unfolding run settle
  IsFed-nothing f m h = record { output = refl; latest = refl; raised = refl; filtering = h }

  IsFed-plain :
      (f : Filter) (m : Mode) (chunk : Bytes)
      → IsFiltering f m f.tracker
      → f.carry ≡ []
      → contains mark chunk ≡ false
      → IsFed (let_through chunk f) (settle (machine chunk m f.tracker))
  unfolding settle
  IsFed-plain f m chunk h e g =
      let mode : m ≡ passing = passing_of m (unseen f.tracker) h.settled (sym h.carry ∙ e) in
      let ran_on : ran (see decode clock) chunk m (unseen f.tracker) ≡ machine chunk m f.tracker =
        ap (λ n. ran (see decode clock) chunk n (unseen f.tracker)) mode
        ∙ sym (run_unmarked (see decode clock) chunk (unseen f.tracker) g)
        ∙ ap (λ n. machine chunk n f.tracker) (sym mode) in
      subst (λ x. IsFed (let_through chunk f) (settle x)) ran_on
        (record { output = refl; latest = refl; raised = refl; filtering = h })

  feed_same :
      (f : Filter) (m : Mode) (chunk : Bytes)
      → IsFiltering f m f.tracker
      → IsFed (feed decode clock chunk f) (settle (machine chunk m f.tracker))
  unfolding feed
  feed_same f m chunk h = elim (Bool-cases (is_empty chunk)) [
    | inl e ↦
        subst (λ c. IsFed (feed decode clock c f) (settle (machine c m f.tracker)))
          (sym (is_empty_lem chunk e)) (IsFed-nothing f m h)
    | inr e ↦ elim (Bool-cases (is_empty f.carry && not (contains mark chunk))) [
      | inl g ↦
          rw (e, g, feed)
            (IsFed-plain f m chunk h (is_empty_lem f.carry (ground (arith, g))) (ground (arith, g)))
      | inr g ↦ rw (e, g, feed) (fed_whole f m chunk h)
    ]
  ]

  -- A chunk is read as the machine reads its bytes.
  pub feed_lem :
      (f : Filter) (m : Mode) (t : Tracker) (chunk : Bytes)
      → IsFiltering f m t
      → IsFed (feed decode clock chunk f) (settle (machine chunk m t))
  feed_lem f m t chunk h =
      subst (λ (u : Tracker). IsFed (feed decode clock chunk f) (settle (machine chunk m u)))
        h.tracker
        (feed_same f m chunk (record { carry = h.carry; tracker = refl; settled = h.settled }))

-- The chunks of a stream, each with the instants that the clock tells in its call.
unfoldable pub feeds : (Bytes → Text) → List ((ℕ → ℕ) × Bytes) → Filter → Bytes × Filter
unfolding feed
feeds decode [] f = ([], f)
feeds decode ((clock, chunk) ∷ chunks) f =
    let r = feed decode clock chunk f in
    let rest = feeds decode chunks r.filter in (r.output ++ rest.0, rest.1)

-- The machine on the same stream.
pub record Read : Type 0 where
  pub output : Bytes
  pub mode : Mode
  pub tracker : Tracker

unfoldable pub reads : (Bytes → Text) → List ((ℕ → ℕ) × Bytes) → Mode → Tracker → Read
unfolding run settle
reads decode [] m t = record { output = []; mode = m; tracker = t }
reads decode ((clock, chunk) ∷ chunks) m t =
    let x = settle (run (see decode clock) chunk m (unseen t)) in
    let rest = reads decode chunks x.mode x.state.tracker in
    record rest { output = x.output ++ rest.output }

reads-feeds :
    (decode : Bytes → Text) (chunks : List ((ℕ → ℕ) × Bytes)) (f : Filter) (m : Mode) (t : Tracker)
    → IsFiltering f m t
    → (let r = feeds decode chunks f in
        let x = reads decode chunks m t in (r.0 ≡ x.output) × IsFiltering r.1 x.mode x.tracker)
unfolding feeds reads
reads-feeds decode [] f m t h = (refl, h)
reads-feeds decode ((clock, chunk) ∷ chunks) f m t h =
    let x = settle (run (see decode clock) chunk m (unseen t)) in
    let r = feed decode clock chunk f in
    let one = feed_lem decode clock f m t chunk h in
    let rest = reads-feeds decode chunks r.filter x.mode x.state.tracker one.filtering in
    (
      ap (λ o. o ++ (feeds decode chunks r.filter).0) one.output ∙ ap (λ o. x.output ++ o) rest.0,
      rest.1,
    )

-- A new filter turns a stream, in whatever chunks it comes and whatever the clock tells at each
-- record, into the output of the machine that reads it byte by byte, and ends with the bytes that
-- wait there and with the same tracker. Of a chunk in which a record raises, both have no output,
-- both forget what waits, and both keep what the records before it in that chunk have changed.
pub feeds_refine :
    (decode : Bytes → Text) (chunks : List ((ℕ → ℕ) × Bytes))
    → (let r = feeds decode chunks new_filter in
        let x = reads decode chunks passing new_filter.tracker in
        (r.0 ≡ x.output) × IsFiltering r.1 x.mode x.tracker)
unfolding pending
feeds_refine decode chunks =
    reads-feeds decode chunks new_filter passing new_filter.tracker
      (record { carry = refl; tracker = refl; settled = passing-IsSettled })
