-- ===== src/ItemActivity/Cuts.antt =====
-- app/borg_progress.py: how Borg's output is cut into chunks does not matter to the item filter.
use borg_backup_manager.Prelude.{
  keep-append, Bool, arith, append_nil, subst, Option, none, some, not, keep, if◌then◌else◌, concat,
  sym, ◌∙◌, ◌≡◌, true, false, List, [], ◌∷◌, ◌++◌, append_assoc, ap, refl,
}
use borg_backup_manager.Text.{Text}
use borg_backup_manager.ItemActivity.{
  finalize, new_filter, item_activity, count_item, Status, added, modified, changed, error,
  is_added_modified, Bytes, Filter, split_lines, join_lines, consume_complete, feed,
}
use borg_backup_manager.ItemActivity.Lines.{split_lines-append, split_lines_rest, join_lines-append}

module _ (decode : Bytes → Text) where
  consume_complete-append :
      (ks ls : List Bytes) (f : Filter)
      → consume_complete decode (ks ++ ls) f
        ≡ consume_complete decode ls (consume_complete decode ks f)
  unfolding consume_complete
  consume_complete-append [] ls f = refl
  consume_complete-append (k ∷ ks) ls f = consume_complete-append ks ls _

  -- The chunks in turn, with all that is passed on.
  unfoldable pub feed_all : List Bytes → Filter → Filter × Bytes
  unfolding feed
  feed_all [] f = (f, [])
  feed_all (chunk ∷ chunks) f =
      let (g, out) = feed decode chunk f in let (h, rest) = feed_all chunks g in (h, out ++ rest)

  abbrev result : Filter → Bytes → List Bytes × Bytes → Filter × Bytes
  result f input cut = (
    consume_complete decode cut.0 (record f { carry = cut.1 }),
    if f.strip_added_modified
        then join_lines (keep (λ l. not (is_added_modified l)) cut.0)
        else input,
  )

  -- What one chunk makes of the state.
  abbrev whole : Filter → Bytes → Filter × Bytes
  whole f input = result f input (split_lines (f.carry ++ input))

  count_carry :
      (o : Option (Status × Bytes)) (f : Filter) (r : Bytes)
      → count_item decode o (record f { carry = r }) ≡ record (count_item decode o f) { carry = r }
  count_carry none f r = refl
  count_carry (some (added, path)) f r = refl
  count_carry (some (modified, path)) f r = refl
  count_carry (some (changed, path)) f r = refl
  count_carry (some (error, path)) f r = refl

  count_strip :
      (o : Option (Status × Bytes)) (f : Filter)
      → (count_item decode o f).strip_added_modified ≡ f.strip_added_modified
  count_strip none f = refl
  count_strip (some (added, path)) f = refl
  count_strip (some (modified, path)) f = refl
  count_strip (some (changed, path)) f = refl
  count_strip (some (error, path)) f = refl

  consume_carry :
      (ls : List Bytes) (f : Filter) (r : Bytes)
      → consume_complete decode ls (record f { carry = r })
        ≡ record (consume_complete decode ls f) { carry = r }
  unfolding consume_complete
  consume_carry [] f r = refl
  consume_carry (l ∷ ls) f r =
      ap (consume_complete decode ls) (count_carry (item_activity l) f r)
      ∙ consume_carry ls (count_item decode (item_activity l) f) r

  consume_strip :
      (ls : List Bytes) (f : Filter)
      → (consume_complete decode ls f).strip_added_modified ≡ f.strip_added_modified
  unfolding consume_complete
  consume_strip [] f = refl
  consume_strip (l ∷ ls) f =
      consume_strip ls (count_item decode (item_activity l) f) ∙ count_strip (item_activity l) f

  abbrev IsRest : Filter → Type 0
  IsRest f = split_lines f.carry ≡ ([], f.carry)

  nothing_lem : (f : Filter) → IsRest f → whole f [] ≡ (f, [])
  unfolding consume_complete join_lines
  nothing_lem f h =
      ap (λ s. result f [] (split_lines s)) (append_nil f.carry) ∙ ap (result f []) h ∙ ground arith

  feed_lem : (chunk : Bytes) (f : Filter) → IsRest f → feed decode chunk f ≡ whole f chunk
  unfolding feed
  feed_lem [] f h = sym (nothing_lem f h)
  feed_lem (c ∷ s) f h = refl

  carry_lem :
      (f : Filter) (input : Bytes) → (whole f input).0.carry ≡ (split_lines (f.carry ++ input)).1
  carry_lem f input =
      ap (λ g. g.carry)
        (consume_carry (split_lines (f.carry ++ input)).0 f (split_lines (f.carry ++ input)).1)

  whole-IsRest : (f : Filter) (input : Bytes) → IsRest (whole f input).0
  whole-IsRest f input =
      subst (λ r. split_lines r ≡ ([], r)) (sym (carry_lem f input))
        (split_lines_rest (f.carry ++ input))

  abbrev passed : Bool → List Bytes → Bytes → Bytes
  passed strips ls input =
      if strips then join_lines (keep (λ l. not (is_added_modified l)) ls) else input

  abbrev holding : Bytes → Filter → Filter
  holding r f = record f { carry = r }

  passed-append :
      (strips : Bool) (ks ls : List Bytes) (s t : Bytes)
      → passed strips (ks ++ ls) (s ++ t) ≡ passed strips ks s ++ passed strips ls t
  passed-append true ks ls s t =
      let kept : Bytes → Bool = λ l. not (is_added_modified l) in
      ap join_lines (keep-append kept ks ls) ∙ join_lines-append (keep kept ks) (keep kept ls)
  passed-append false ks ls s t = refl

  whole-append :
      (f : Filter) (s t : Bytes)
      → whole f (s ++ t) ≡ ((whole (whole f s).0 t).0, (whole f s).1 ++ (whole (whole f s).0 t).1)
  whole-append f s t =
      let p : List Bytes × Bytes = split_lines (f.carry ++ s) in
      let q : List Bytes × Bytes = split_lines (p.1 ++ t) in
      let g : Filter = (whole f s).0 in
      let cut : split_lines (f.carry ++ (s ++ t)) ≡ (p.0 ++ q.0, q.1) =
        ap split_lines (sym (append_assoc f.carry s t)) ∙ split_lines-append (f.carry ++ s) t in
      let moved : record (consume_complete decode p.0 f) { carry = q.1 }
          ≡ record g { carry = q.1 } =
        sym (ap (holding q.1) (consume_carry p.0 f p.1)) in
      let state : consume_complete decode (p.0 ++ q.0) (record f { carry = q.1 })
          ≡ consume_complete decode q.0 (record g { carry = q.1 }) =
        consume_complete-append p.0 q.0 (record f { carry = q.1 })
        ∙ ap (consume_complete decode q.0) (consume_carry p.0 f q.1 ∙ moved) in
      let same : f.strip_added_modified ≡ g.strip_added_modified =
        sym (consume_strip p.0 (record f { carry = p.1 })) in
      let out : passed f.strip_added_modified (p.0 ++ q.0) (s ++ t)
          ≡ (whole f s).1 ++ passed g.strip_added_modified q.0 t =
        passed-append f.strip_added_modified p.0 q.0 s t
        ∙ ap (λ b. (whole f s).1 ++ passed b q.0 t) same in
      ap (result f (s ++ t)) cut
      ∙ ap (λ x. (x, passed f.strip_added_modified (p.0 ++ q.0) (s ++ t))) state
      ∙ ap (λ o. (consume_complete decode q.0 (record g { carry = q.1 }), o)) out
      ∙ ap
          (λ r. (
            (result g t (split_lines (r ++ t))).0,
            (whole f s).1 ++ (result g t (split_lines (r ++ t))).1,
          ))
          (sym (carry_lem f s))

  feed_all_lem :
      (chunks : List Bytes) (f : Filter) → IsRest f → feed_all chunks f ≡ whole f (concat chunks)
  unfolding feed_all
  feed_all_lem [] f h = sym (nothing_lem f h)
  feed_all_lem (chunk ∷ chunks) f h =
      ap (λ p. ((feed_all chunks p.0).0, p.1 ++ (feed_all chunks p.0).1)) (feed_lem chunk f h)
      ∙ ap (λ p. (p.0, (whole f chunk).1 ++ p.1))
          (feed_all_lem chunks (whole f chunk).0 (whole-IsRest f chunk))
      ∙ sym (whole-append f chunk (concat chunks))

  -- Two streams of chunks with the same bytes leave the filter in the same state, its counts, its
  -- last item and what it holds back, and pass the same bytes on.
  pub cuts_do_not_matter :
      (strip_added_modified : Bool) (chunks others : List Bytes)
      → concat chunks ≡ concat others
      → feed_all chunks (new_filter strip_added_modified)
        ≡ feed_all others (new_filter strip_added_modified)
  unfolding new_filter split_lines
  cuts_do_not_matter strip_added_modified chunks others h =
      let f = new_filter strip_added_modified in
      feed_all_lem chunks f refl ∙ ap (whole f) h ∙ sym (feed_all_lem others f refl)

  finalize_lem : (f : Filter) → f.strip_added_modified ≡ false → (finalize decode f).1 ≡ []
  unfolding finalize
  finalize_lem f h = ground (arith, h)

  strip_lem : (input : Bytes) → (whole (new_filter false) input).0.strip_added_modified ≡ false
  unfolding new_filter
  strip_lem input =
      consume_strip (split_lines input).0
        (record (new_filter false) { carry = (split_lines input).1 })

  -- With the full list of files the output passes through: all bytes are passed on as they are, and
  -- nothing follows at the end.
  pub full_list_passes :
      (chunks : List Bytes)
      → ((feed_all chunks (new_filter false)).1 ≡ concat chunks)
        × ((finalize decode (feed_all chunks (new_filter false)).0).1 ≡ [])
  unfolding new_filter split_lines finalize
  full_list_passes chunks =
      let e = feed_all_lem chunks (new_filter false) refl in
      (
        ap (λ p. p.1) e,
        finalize_lem (feed_all chunks (new_filter false)).0
            (ap (λ p. p.0.strip_added_modified) e ∙ strip_lem (concat chunks)),
      )
