-- ===== src/Schedules/RoundTrip.antt =====
-- app/schedules.py: a normalized schedule is read back as the expressions that it was made of.
use borg_backup_manager.Prelude.{
  is_empty, append_nil, append_assoc, none, subst, Option, ◌≤◌, sym, length, some, ◌∙◌, ap, arith,
  ◌≡◌, Bool, Bool-cases, true, false, not, ◌||◌, List, [], ◌∷◌, ◌++◌, refl, All, All_imp, inl, inr,
}
use borg_backup_manager.Text.{Text, is_space, strip, any_of}
use borg_backup_manager.Schedules.Expressions.{
  normalize_schedule, joined, join, compact, raw_items, collect, is_listed, schedule_expressions,
}
use borg_backup_manager.Schedules.Words.{
  any-append, compact_solid, IsLine, compact-compact, compact-IsLine,
}
use borg_backup_manager.Schedules.Lines.{
  replaced, replaced-IsReplaced, split-IsLine, raw_items-join, strip_full, any_full,
}

module _ (is_crontab : Text → Bool) where
  -- An expression of the result.
  abbrev IsExpression : Text → Type 0
  IsExpression e =
      (any_of (λ c. not (is_space c)) e ≡ true)
      × ((compact e ≡ e) × (IsLine e × (is_crontab e ≡ true)))

  -- None of the texts is among those before it, or among `seen`.
  abbrev IsNew : List Text → List Text → Type 0
  IsNew seen [] = Unit
  IsNew seen (e ∷ es) = (is_listed e seen ≡ false) × IsNew (seen ++ e ∷ []) es

  collected :
      (seen raws es : List Text)
      → All IsLine raws
      → collect is_crontab seen raws ≡ some es
      → (news : List Text) × ((es ≡ seen ++ news) × (All IsExpression news × IsNew seen news))
  unfolding collect
  collected seen [] es a h = ([], (ground (arith, h, append_nil seen), (tt, tt)))
  collected seen (raw ∷ raws) es a h =
      elim (Bool-cases (is_empty (compact raw) || is_listed (compact raw) seen)) [
        | inl p ↦ collected seen raws es a.1 (ground (arith, p, h))
        | inr p ↦ elim (Bool-cases (is_crontab (compact raw))) [
          | inr c ↦ ground (arith, p, c, h)
          | inl c ↦
              let rest =
                collected (seen ++ compact raw ∷ []) raws es a.1 (ground (arith, p, c, h)) in
              (
                compact raw ∷ rest.0,
                (
                  rest.1.0 ∙ append_assoc seen (compact raw ∷ []) rest.0,
                  (
                    (
                      (
                        compact_solid raw (ground (arith, p)),
                        (compact-compact raw, (compact-IsLine raw a.0, c)),
                      ),
                      rest.1.1.0,
                    ),
                    (ground (arith, p), rest.1.1.1),
                  ),
                ),
              )
        ]
      ]

  collect_again :
      (seen es : List Text)
      → All IsExpression es
      → IsNew seen es
      → collect is_crontab seen es ≡ some (seen ++ es)
  unfolding collect
  collect_again seen [] a n = ap (λ us. some us) (sym (append_nil seen))
  collect_again seen (e ∷ es) a n =
      let full : is_empty (compact e) ≡ false =
        ap is_empty a.0.1.0 ∙ any_full (λ c. not (is_space c)) e a.0.0 in
      let new : is_listed (compact e) seen ≡ false = ap (λ t. is_listed t seen) a.0.1.0 ∙ n.0 in
      let valid : is_crontab (compact e) ≡ true = ap is_crontab a.0.1.0 ∙ a.0.1.1.1 in
      let added : collect is_crontab (seen ++ compact e ∷ []) es ≡ some ((seen ++ e ∷ []) ++ es) =
        ap (λ t. collect is_crontab (seen ++ t ∷ []) es) a.0.1.0
        ∙ collect_again (seen ++ e ∷ []) es a.1 n.1 in
      ground (arith, full, new, valid, added, append_assoc seen (e ∷ []) es)

  join_solid :
      (e : Text) (es : List Text)
      → any_of (λ c. not (is_space c)) e ≡ true
      → any_of (λ c. not (is_space c)) (join 59 (e ∷ es)) ≡ true
  unfolding join
  join_solid e [] h = h
  join_solid e (f ∷ es) h =
      ground (arith, h, any-append (λ c. not (is_space c)) e (59 ∷ join 59 (f ∷ es)))

  -- What is read back from a list of expressions that a schedule may have.
  read_back :
      (e : Text) (es : List Text)
      → All IsExpression (e ∷ es)
      → IsNew [] (e ∷ es)
      → length (e ∷ es) ≤ 24
      → schedule_expressions is_crontab (some (join 59 (e ∷ es))) ≡ some (e ∷ es)
  unfolding schedule_expressions
  read_back e es a n l =
      let value = join 59 (e ∷ es) in
      let full : is_empty (strip is_space value) ≡ false =
        strip_full is_space value (join_solid e es a.0.0) in
      let lines : All IsLine (e ∷ es) = All_imp IsExpression IsLine (λ t x. x.1.1.0) (e ∷ es) a in
      let again : collect is_crontab [] (raw_items value) ≡ some (e ∷ es) =
        ap (collect is_crontab []) (raw_items-join e es lines) ∙ collect_again [] (e ∷ es) a n in
      ground (arith, full, again, l)

  -- The expressions that are read from a text are fit to be read again.
  reads_back :
      (value : Text) (e : Text) (es : List Text)
      → schedule_expressions is_crontab (some value) ≡ some (e ∷ es)
      → schedule_expressions is_crontab (some (join 59 (e ∷ es))) ≡ some (e ∷ es)
  unfolding schedule_expressions
  reads_back value e es h =
      let lines : All IsLine (raw_items value) =
        split-IsLine (replaced value) (replaced-IsReplaced value) in
      let found : collect is_crontab [] (raw_items value) ≡ some (e ∷ es) = ground (arith, h) in
      let short : length (e ∷ es) ≤ 24 = ground (arith, h) in
      let news = collected [] (raw_items value) (e ∷ es) lines found in
      let good : All IsExpression (e ∷ es) = subst (All IsExpression) (sym news.1.0) news.1.1.0 in
      let fresh : IsNew [] (e ∷ es) = subst (IsNew []) (sym news.1.0) news.1.1.1 in
      read_back e es good fresh short

  by_result :
      (value : Text) (r : Option (List Text)) (t : Text)
      → schedule_expressions is_crontab (some value) ≡ r
      → joined r ≡ some (some t)
      → (schedule_expressions is_crontab (some t) ≡ r)
        × (joined (schedule_expressions is_crontab (some t)) ≡ some (some t))
  by_result value none t h q = cc
  by_result value (some []) t h q = cc
  by_result value (some (e ∷ es)) t h q =
      let same : join 59 (e ∷ es) ≡ t = ground (arith, q) in
      let again =
        subst (λ u. schedule_expressions is_crontab (some u) ≡ some (e ∷ es)) same
          (reads_back value e es h) in
      (again, ap joined again ∙ q)

  -- A normalized schedule is read as the same expressions as the text that it was made of, and it
  -- is its own normal form.
  pub normalize_reads_back :
      (value : Option Text) (t : Text)
      → normalize_schedule is_crontab value ≡ some (some t)
      → (schedule_expressions is_crontab (some t) ≡ schedule_expressions is_crontab value)
        × (normalize_schedule is_crontab (some t) ≡ some (some t))
  unfolding normalize_schedule
  normalize_reads_back none t h = ground (arith, h)
  normalize_reads_back (some value) t h =
      by_result value (schedule_expressions is_crontab (some value)) t refl h
