-- ===== src/Prelude/Everywhere.antt =====
-- What holds of every element of a list, and lists of distinct numbers.
use Prim.Native.Nat.{ℕ, ◌≤◌}
use mathlib.Core.Path.{◌≡◌, refl, ap, subst}
use mathlib.Core.Logic.{◌≢◌, inl, inr}
use mathlib.Core.Bool.{Bool, true, false, ◌&&◌}
use mathlib.Core.List.{List, [], ◌∷◌, ◌++◌, map}
use native.Mathlib.Omega.{arith}
use borg_backup_manager.Prelude.Tests.{Bool-cases}
use borg_backup_manager.Prelude.Lists.{All, keep, length, contains}

module _ {ℓ κ λ'} {A : Type ℓ} where
  pub All_imp :
      (P : A → Type κ) (Q : A → Type λ') (f : (a : A) → P a → Q a) (xs : List A)
      → All P xs
      → All Q xs
  All_imp P Q f [] a = tt
  All_imp P Q f (x ∷ xs) a = (f x a.0, All_imp P Q f xs a.1)

  pub All_and :
      (P : A → Type κ) (Q : A → Type λ') (xs : List A)
      → All P xs
      → All Q xs
      → All (λ x. P x × Q x) xs
  All_and P Q [] a b = tt
  All_and P Q (x ∷ xs) a b = ((a.0, b.0), All_and P Q xs a.1 b.1)

pub All_always {ℓ κ} : {A : Type ℓ} (P : A → Type κ) → ((x : A) → P x) → (xs : List A) → All P xs
All_always P f [] = tt
All_always P f (x ∷ xs) = (f x, All_always P f xs)

module _ {ℓ κ} {A : Type ℓ} (P : A → Type κ) where
  pub All-map : {B : Type ℓ} (f : B → A) (xs : List B) → All (λ x. P (f x)) xs → All P (map f xs)
  All-map f [] a = tt
  All-map f (x ∷ xs) a = (a.0, All-map f xs a.1)

  pub All-keep : (p : A → Bool) (xs : List A) → All P xs → All P (keep p xs)
  All-keep p [] a = tt
  All-keep p (x ∷ xs) a = ground (arith, All-keep p xs a.1)

  pub All-append : (xs ys : List A) → All P xs → All P ys → All P (xs ++ ys)
  All-append [] ys a b = b
  All-append (x ∷ xs) ys a b = (a.0, All-append xs ys a.1 b)

module _ {ℓ} {A : Type ℓ} where
  -- A test that passes less often keeps fewer elements.
  pub length-keep-fewer :
      (p q : A → Bool) (xs : List A)
      → All (λ x. p x ≡ true → q x ≡ true) xs
      → length (keep p xs) ≤ length (keep q xs)
  length-keep-fewer p q [] a = omega arith
  length-keep-fewer p q (x ∷ xs) a = ground (arith, a.0, length-keep-fewer p q xs a.1)

  pub length-keep-map :
      (p : A → Bool) (f : A → A) (xs : List A)
      → length (keep p (map f xs)) ≡ length (keep (λ x. p (f x)) xs)
  length-keep-map p f [] = refl
  length-keep-map p f (x ∷ xs) = ground (arith, length-keep-map p f xs)

  pub length-keep-kept :
      (p q : A → Bool) (xs : List A) → length (keep p (keep q xs)) ≤ length (keep p xs)
  length-keep-kept p q [] = omega arith
  length-keep-kept p q (x ∷ xs) = ground (arith, length-keep-kept p q xs)

  pub keep-keep : (p q : A → Bool) (xs : List A) → keep p (keep q xs) ≡ keep (λ x. q x && p x) xs
  keep-keep p q [] = refl
  keep-keep p q (x ∷ xs) = ground (arith, keep-keep p q xs)

pub map-append {ℓ κ} :
    {A : Type ℓ} {B : Type κ} (f : A → B) (xs ys : List A) → map f (xs ++ ys) ≡ map f xs ++ map f ys
map-append f [] ys = refl
map-append f (x ∷ xs) ys = ap (λ zs. f x ∷ zs) (map-append f xs ys)

pub append_nil {ℓ} : {A : Type ℓ} (s : List A) → s ++ [] ≡ s
append_nil [] = refl
append_nil (c ∷ s) = ap (λ t. c ∷ t) (append_nil s)

pub append_assoc {ℓ} : {A : Type ℓ} (r s t : List A) → (r ++ s) ++ t ≡ r ++ (s ++ t)
append_assoc [] s t = refl
append_assoc (c ∷ r) s t = ap (λ u. c ∷ u) (append_assoc r s t)

abbrev pub concat {ℓ} : {A : Type ℓ} → List (List A) → List A
concat [] = []
concat (b ∷ bs) = b ++ concat bs

abbrev pub Unique : List ℕ → Type 0
Unique [] = Unit
Unique (n ∷ ns) = (contains n ns ≡ false) × Unique ns

pub contains-append :
    (n : ℕ) (ms ns : List ℕ)
    → contains n ms ≡ false
    → contains n ns ≡ false
    → contains n (ms ++ ns) ≡ false
contains-append n [] ns h g = g
contains-append n (m ∷ ms) ns h g = ground (arith, contains-append n ms ns)

-- What a filtered list contains, the list contains.
pub contains_kept :
    (n : ℕ) (p : ℕ → Bool) (ms : List ℕ) → contains n (keep p ms) ≡ true → contains n ms ≡ true
contains_kept n p [] h = h
contains_kept n p (m ∷ ms) h = ground (arith, contains_kept n p ms)

pub append-Unique :
    (n : ℕ) (ns : List ℕ) → contains n ns ≡ false → Unique ns → Unique (ns ++ n ∷ [])
append-Unique n [] h u = (refl, tt)
append-Unique n (m ∷ ms) h u = (
  contains-append m ms (n ∷ []) u.0 (ground (arith, h)),
  append-Unique n ms (ground (arith, h)) u.1,
)

module _ {ℓ} {A : Type ℓ} (key : A → ℕ) where
  pub contains-keep :
      (n : ℕ) (p : A → Bool) (xs : List A)
      → contains n (map key xs) ≡ false
      → contains n (map key (keep p xs)) ≡ false
  contains-keep n p [] h = refl
  contains-keep n p (x ∷ xs) h = ground (arith, contains-keep n p xs)

  pub keep-Unique :
      (p : A → Bool) (xs : List A) → Unique (map key xs) → Unique (map key (keep p xs))
  keep-Unique p [] u = tt
  keep-Unique p (x ∷ xs) u = ground (arith, contains-keep (key x) p xs u.0, keep-Unique p xs u.1)

  -- A kept element's key is among the kept ones'.
  pub kept_keys :
      (p : A → Bool) (xs : List A)
      → All (λ x. p x ≡ true → contains (key x) (map key (keep p xs)) ≡ true) xs
  kept_keys p [] = tt
  kept_keys p (x ∷ xs) = (
    λ h. ground (arith, h),
    All_imp (λ y. p y ≡ true → contains (key y) (map key (keep p xs)) ≡ true) _
        (λ y f h. ground (arith, f h)) xs (kept_keys p xs),
  )

  pub missing_keys :
      (n : ℕ) (xs : List A) → contains n (map key xs) ≡ false → All (λ x. key x ≢ n) xs
  missing_keys n [] h = tt
  missing_keys n (x ∷ xs) h = (λ e. ground (arith, h, e), missing_keys n xs (ground (arith, h)))

  -- If the keys are distinct, an element whose key is among the kept ones' is kept.
  pub unkept_keys :
      (p : A → Bool) (xs : List A)
      → Unique (map key xs)
      → All (λ x. contains (key x) (map key (keep p xs)) ≡ true → p x ≡ true) xs
  unkept_keys p [] u = tt
  unkept_keys p (x ∷ xs) u = (
    λ h. ground (arith, h, contains-keep (key x) p xs u.0),
    All_imp (λ y. (key y ≢ key x) × (contains (key y) (map key (keep p xs)) ≡ true → p y ≡ true)) _
        (λ y f h. f.1 (ground (arith, f.0, h))) xs
        (All_and _ _ xs (missing_keys (key x) xs u.0) (unkept_keys p xs u.1)),
  )

  keep_nothing :
      (n : ℕ) (p : A → Bool) (xs : List A)
      → contains n (map key xs) ≡ false
      → All (λ x. p x ≡ true → key x ≡ n) xs
      → length (keep p xs) ≡ 0
  keep_nothing n p [] h a = refl
  keep_nothing n p (x ∷ xs) h a = ground (arith, h, a.0, keep_nothing n p xs)

  -- At most one element has a given key.
  pub length-keep-one :
      (n : ℕ) (p : A → Bool) (xs : List A)
      → Unique (map key xs)
      → All (λ x. p x ≡ true → key x ≡ n) xs
      → length (keep p xs) ≤ 1
  length-keep-one n p [] u a = omega arith
  length-keep-one n p (x ∷ xs) u a = elim (Bool-cases (p x)) [
    | inl h ↦ ground (
      arith,
      h,
      keep_nothing n p xs (subst (λ i. contains i (map key xs) ≡ false) (a.0 h) u.0) a.1,
    )
    | inr h ↦ ground (arith, h, length-keep-one n p xs u.1 a.1)
  ]
