-- ===== src/Accounts/Recovery.antt =====
-- The recovery codes of app/security_store.py.
use borg_backup_manager.Prelude.{
  sym, not, ◌||◌, ◌≢◌, if◌then◌else◌, Bool, ℕ, ◌⊎◌, subst, true, false, Option, none, some, List,
  [], ◌∷◌, ◌≡◌, inl, inr, refl, arith, ◌==◌, Bool-cases,
}
use borg_backup_manager.Text.{Text, text_eq, eq_of_text_eq, strip, is_space}
use borg_backup_manager.TwoFactor.{Crypto, verify_totp, normalize_recovery_code, hash_recovery_code}
use borg_backup_manager.Accounts.{Scrypt, Store, User, same_name, verify_password}
use borg_backup_manager.Accounts.Users.{find_name, find_user, set_user}
use borg_backup_manager.Accounts.Authentication.{
  authenticate_user, invalid_credentials, Status, recovery_code, by_factor, by_code, by_row,
  authenticate_user, encrypted_factor, second_factor, with_codes, second_factor, with_codes,
  popped_factor, code_factor, recovered_by, secret_factor, passed, recovery_factor, Vault, wrong,
  Factor, pop_hash,
}

-- No hash stands twice.
abbrev pub NoneTwice : List Text → Type 0
NoneTwice [] = Unit
NoneTwice (h ∷ hashes) = (pop_hash h hashes ≡ none) × NoneTwice hashes

pop-once :
    (c : Text) (hashes left : List Text)
    → NoneTwice hashes
    → pop_hash c hashes ≡ some left
    → pop_hash c left ≡ none
unfolding pop_hash
pop-once c [] left o p = cc
pop-once c (h ∷ hashes) left o p = elim (Bool-cases (text_eq h c)) [
  | inl e ↦
      let gone : pop_hash c hashes ≡ none =
        subst (λ g. pop_hash g hashes ≡ none) (eq_of_text_eq h c e) o.0 in
      ground (arith, e, gone, p)
  | inr e ↦ go (pop_hash c hashes) refl p e λ rest f. pop-once c hashes rest o.1 f
]
  where
    go :
        (q : Option (List Text))
        → pop_hash c hashes ≡ q
        → pop_hash c (h ∷ hashes) ≡ some left
        → text_eq h c ≡ false
        → ((rest : List Text) → pop_hash c hashes ≡ some rest → pop_hash c rest ≡ none)
        → pop_hash c left ≡ none
    go none f p e again = ground (arith, f, p, e)
    go (some rest) f p e again =
        let shape : left ≡ h ∷ rest = ground (arith, f, p, e) in
        rw shape (ground (arith, e, again rest f))

name-found :
    (name : Text) (users : List User) (u : User)
    → find_name name users ≡ some u
    → same_name u.username name ≡ true
unfolding find_name
name-found name [] u f = cc
name-found name (v ∷ users) u f = ground (arith, name-found name users u)

find-set :
    (name : Text) (change : User → User) (users : List User) (u : User)
    → find_name name users ≡ some u
    → find_user u.ident users ≡ some u
    → (change u).username ≡ u.username
    → find_name name (set_user u.ident change users) ≡ some (change u)
unfolding find_name find_user set_user
find-set name change [] u f g e = cc
find-set name change (v ∷ users) u f g e = elim (Bool-cases (v.ident == u.ident)) [
  | inl same ↦
      let is : v ≡ u = ground (arith, g, same) in
      let named : same_name (change v).username name ≡ true =
        rw (is, e) (name-found name (v ∷ users) u f) in
      rw is (ground (arith, same, named, is))
  | inr other ↦ ground (arith, other, f, g, find-set name change users u)
]

-- Not by a recovery code.
abbrev ByOther : Factor → Type 0
ByOther f = (f ≡ wrong) ⊎ (f ≡ passed)

popped_is :
    (q : Option (List Text)) (left : List Text)
    → popped_factor q ≡ recovered_by left
    → q ≡ some left
unfolding popped_factor
popped_is none left p = cc
popped_is (some rest) left p = cc

code_spent :
    (h : Crypto) (n : Text) (hashes left : List Text)
    → NoneTwice hashes
    → code_factor h n hashes ≡ recovered_by left
    → code_factor h n left ≡ wrong
unfolding code_factor popped_factor
code_spent h [] hashes left o r = cc
code_spent h (c ∷ n) hashes left o r =
    let hash = hash_recovery_code h (c ∷ n) in
    rw (pop-once hash hashes left o (popped_is (pop_hash hash hashes) left r)) refl

module _ (h : Crypto) (v : Vault) (now later : ℕ) (code : Text) (left : List Text) where
  secret_spent :
      (secret : Option Text) (hashes : List Text)
      → NoneTwice hashes
      → secret_factor h v now secret code hashes ≡ recovered_by left
      → ByOther (secret_factor h v later secret code left)
  unfolding secret_factor recovery_factor
  secret_spent none hashes o r = inl refl
  secret_spent (some secret) hashes o r = elim (Bool-cases (verify_totp h secret code now)) [
    | inl e ↦ ground (arith, e, r)
    | inr e ↦
        let found : code_factor h (normalize_recovery_code h code) hashes ≡ recovered_by left =
          ground (arith, e, r) in
        again (verify_totp h secret code later)
          (code_spent h (normalize_recovery_code h code) hashes left o found)
  ]
    where
      again :
          (b : Bool)
          → code_factor h (normalize_recovery_code h code) left ≡ wrong
          → ByOther (if b then passed else code_factor h (normalize_recovery_code h code) left)
      again true e = inr refl
      again false e = inl e

  encrypted_spent :
      (secret : Option Text) (hashes : List Text)
      → NoneTwice hashes
      → encrypted_factor h v now secret code hashes ≡ recovered_by left
      → ByOther (encrypted_factor h v later secret code left)
  unfolding encrypted_factor
  encrypted_spent none hashes o r = inl refl
  encrypted_spent (some e) hashes o r = secret_spent (v.decrypt_value e) hashes o r

  second_spent :
      (u : User)
      → NoneTwice u.recovery_codes
      → second_factor h v now u code ≡ recovered_by left
      → ByOther (second_factor h v later (with_codes h v now left u) code)
  unfolding second_factor
  second_spent u o r = go u.two_factor_enabled r
    where
      go :
          (b : Bool)
          → (if b
              then encrypted_factor h v now u.two_factor_secret code u.recovery_codes
              else passed)
            ≡ recovered_by left
          → ByOther (if b then encrypted_factor h v later u.two_factor_secret code left else passed)
      go true e = encrypted_spent u.two_factor_secret u.recovery_codes o e
      go false e = inr refl

module _ (h : Crypto) (v : Vault) (now : ℕ) (c : ℕ) (code : Text) (s : Store) (u : User) where
  -- What a sign-in that used a recovery code has done.
  abbrev Used : Store → Type 0
  Used t =
      (left : List Text) × ((second_factor h v now u (c ∷ code) ≡ recovered_by left)
        × (t ≡ record s { users = set_user u.ident (with_codes h v now left) s.users }))

  by_factor-Used :
      (f : Factor)
      → second_factor h v now u (c ∷ code) ≡ f
      → (by_factor h v now u s f).2 ≡ recovery_code
      → Used (by_factor h v now u s f).0
  unfolding by_factor
  by_factor-Used wrong e r = cc
  by_factor-Used passed e r = cc
  by_factor-Used (recovered_by left) e r = (left, (e, refl))

  by_row-Used :
      (k : Scrypt) (password : Text)
      → (by_row h v now k password (some (c ∷ code)) s (some u)).2 ≡ recovery_code
      → Used (by_row h v now k password (some (c ∷ code)) s (some u)).0
  unfolding by_row by_code by_factor
  by_row-Used k password r =
      go (not u.enabled || not (verify_password k password u.password_hash)) u.two_factor_enabled r
    where
      end : Bool → Bool → Store × Option User × Status
      end refuse with_factor =
          if refuse
          then (s, none, invalid_credentials)
          else if with_factor
          then by_code h v now u s (some (c ∷ code))
          else by_factor h v now u s passed

      go : (a b : Bool) → (end a b).2 ≡ recovery_code → Used (end a b).0
      go true b e = cc
      go false true e = by_factor-Used (second_factor h v now u (c ∷ code)) refl e
      go false false e = cc

  by_row-otherwise :
      (k : Scrypt) (password : Text)
      → ByOther (second_factor h v now u (c ∷ code))
      → (by_row h v now k password (some (c ∷ code)) s (some u)).2 ≢ recovery_code
  unfolding by_row by_code
  by_row-otherwise k password o r =
      let used = by_row-Used k password r in
      let by_recovery : second_factor h v now u (c ∷ code) ≡ recovered_by used.0 = used.1.0 in
      elim o [ inl e ↦ cc | inr e ↦ cc ]

-- A recovery code signs in once: after a sign-in by it, no sign-in to the same account with the same
-- code is by a recovery code, at whatever time and with whatever password. The row is the one that
-- the name and its id find, and no hash of its recovery codes stands twice.
pub recovery_code_once :
    (h : Crypto) (v : Vault) (k : Scrypt) (now later : ℕ) (username password again : Text) (c : ℕ)
    (code : Text) (s : Store) (u : User)
    → find_name (strip is_space username) s.users ≡ some u
    → find_user u.ident s.users ≡ some u
    → NoneTwice u.recovery_codes
    → (authenticate_user h v now k username password (some (c ∷ code)) s).2 ≡ recovery_code
    → (authenticate_user h v later k username again
        (some (c ∷ code))
        (authenticate_user h v now k username password (some (c ∷ code)) s).0).2
      ≢ recovery_code
unfolding authenticate_user
recovery_code_once h v k now later username password again c code s u named key once first =
    let used = by_row-Used h v now c code s u k password (
      subst (λ o. (by_row h v now k password (some (c ∷ code)) s o).2 ≡ recovery_code) named
        first) in
    let left = used.0 in
    let t : Store = record s { users = set_user u.ident (with_codes h v now left) s.users } in
    let written : (authenticate_user h v now k username password (some (c ∷ code)) s).0 ≡ t =
      subst (λ o. (by_row h v now k password (some (c ∷ code)) s o).0 ≡ t) (sym named) used.1.1 in
    let found : find_name (strip is_space username) t.users ≡ some (with_codes h v now left u) =
      find-set (strip is_space username) (with_codes h v now left) s.users u named key refl in
    subst
      (λ r. (authenticate_user h v later k username again (some (c ∷ code)) r).2 ≢ recovery_code)
      (sym written)
      (subst (λ o. (by_row h v later k again (some (c ∷ code)) t o).2 ≢ recovery_code) (sym found)
        (by_row-otherwise h v later c code t (with_codes h v now left u) k again
          (second_spent h v now later (c ∷ code) left u once used.1.0)))
