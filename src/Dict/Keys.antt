-- ===== src/Dict/Keys.antt =====
-- Dictionaries whose keys are distinct, and properties of all their entries.
use borg_backup_manager.Prelude.{
  sym, subst, ◌+◌, ◌≤◌, none, some, [], ◌∷◌, length, ite, ◌≡◌, refl, arith, All,
}
use borg_backup_manager.Dict
use borg_backup_manager.Dict.{Dict, get-put, get-pop}

module _ {V : Type 0} {K : Type 0} (dec : Discrete K) where
  abbrev pub Distinct : Dict K V → Type 0
  Distinct [] = Unit
  Distinct ((k, v) ∷ d) = (Dict.get dec k d ≡ none) × Distinct d

  pub put-Distinct : (k : K) (v : V) (d : Dict K V) → Distinct d → Distinct (Dict.put dec k v d)
  unfolding Dict.put Dict.get
  put-Distinct k v [] h = (refl, tt)
  put-Distinct k v ((j, w) ∷ d) h = ground (arith, put-Distinct k v d h.1, get-put dec k j v d)

  pub pop-Distinct : (k : K) (d : Dict K V) → Distinct d → Distinct (Dict.pop dec k d)
  unfolding Dict.pop
  pop-Distinct k [] h = tt
  pop-Distinct k ((j, w) ∷ d) h = ground (arith, pop-Distinct k d h.1, get-pop dec k j d)

  pub length-pop-none :
      (k : K) (d : Dict K V) → Dict.get dec k d ≡ none → length (Dict.pop dec k d) ≡ length d
  unfolding Dict.pop Dict.get
  length-pop-none k [] g = refl
  length-pop-none k ((j, w) ∷ d) g = ground (arith, length-pop-none k d)

  pub length-pop :
      (k : K) (d : Dict K V) (v : V)
      → Distinct d
      → Dict.get dec k d ≡ some v
      → length (Dict.pop dec k d) + 1 ≡ length d
  unfolding Dict.pop Dict.get
  length-pop k [] v h g = cc
  length-pop k ((j, w) ∷ d) v h g = elim (dec j k) [
    | yes e ↦
        let gone : Dict.get dec k d ≡ none = subst (λ i. Dict.get dec i d ≡ none) e h.0 in
        ground (arith, e, length-pop-none k d gone)
    | no n ↦ ground (arith, n, length-pop k d v h.1)
  ]

  pub length-pop-le : (k : K) (d : Dict K V) → length (Dict.pop dec k d) ≤ length d
  unfolding Dict.pop
  length-pop-le k [] = omega arith
  length-pop-le k ((j, w) ∷ d) = ground (arith, length-pop-le k d)

  pub length-put : (k : K) (v : V) (d : Dict K V) → length (Dict.put dec k v d) ≤ length d + 1
  unfolding Dict.put
  length-put k v [] = omega arith
  length-put k v ((j, w) ∷ d) = ground (arith, length-put k v d)

  pub length-put-some :
      (k : K) (v w : V) (d : Dict K V)
      → Dict.get dec k d ≡ some w
      → length (Dict.put dec k v d) ≡ length d
  unfolding Dict.put Dict.get
  length-put-some k v w [] g = cc
  length-put-some k v w ((j, u) ∷ d) g = ground (arith, length-put-some k v w d)

  module _ (P : K × V → Type 0) where
    -- The key of the row that is written is the one that stands there.
    pub All-put : (k : K) (v : V) (d : Dict K V) → P (k, v) → All P d → All P (Dict.put dec k v d)
    unfolding Dict.put
    All-put k v [] p a = (p, tt)
    All-put k v ((j, w) ∷ d) p a =
        elim (dec j k) as (λ o. All P (ite o ((j, v) ∷ d) ((j, w) ∷ Dict.put dec k v d))) [
          | yes e ↦ (subst (λ i. P (i, v)) (sym e) p, a.1)
          | no n ↦ (a.0, All-put k v d p a.1)
        ]

    pub All-pop : (k : K) (d : Dict K V) → All P d → All P (Dict.pop dec k d)
    unfolding Dict.pop
    All-pop k [] a = tt
    All-pop k ((j, w) ∷ d) a =
        elim (dec j k) as (λ o. All P (ite o (Dict.pop dec k d) ((j, w) ∷ Dict.pop dec k d))) [
          | yes e ↦ All-pop k d a.1
          | no n ↦ (a.0, All-pop k d a.1)
        ]

    pub All-get : (k : K) (v : V) (d : Dict K V) → All P d → Dict.get dec k d ≡ some v → P (k, v)
    unfolding Dict.get
    All-get k v [] a g = cc
    All-get k v ((j, w) ∷ d) a g = elim (dec j k) [
      | yes e ↦
          let same : w ≡ v = ground (arith, e, g) in
          subst (λ i. P (i, v)) e (subst (λ u. P (j, u)) same a.0)
      | no n ↦ All-get k v d a.1 (ground (arith, n, g))
    ]
