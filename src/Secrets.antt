-- ===== src/Secrets.antt =====
-- app/security_store.py, the encrypted secrets: the table `secrets` is a dictionary from a scope and a
-- name to an encrypted value. A ValueError is `none`; the dates of a row are not kept.
pub mod RoundTrip
mod Tests
use borg_backup_manager.Prelude.{
  ℕ, ◌+◌, ◌-◌, Bool, true, false, not, ◌&&◌, ◌||◌, Option, none, some, List, [], ◌∷◌, leb, ltb,
  ◌==◌, if◌then◌else◌, keep, length, ite,
}
use borg_backup_manager.Text.{text_leb, Text, Text-discrete, text_eq, strip, is_space, any_of}
use borg_backup_manager.Dict
use borg_backup_manager.Dict.{Dict}
use borg_backup_manager.Accounts.{is_alphanumeric}
use borg_backup_manager.Accounts.Authentication.{Vault}

pub record Key : Type 0 where
  pub scope : Text
  pub name : Text

unfoldable pub Key-discrete : Discrete Key
unfolding Text-discrete
Key-discrete = hlevel Text-discrete

abbrev pub Table : Type 0
Table = Dict Key Text

-- `[A-Za-z0-9_.:-]`
abbrev is_key_char : ℕ → Bool
is_key_char c = is_alphanumeric c || (c == 95 || (c == 46 || (c == 58 || c == 45)))

abbrev is_bad_key_char : ℕ → Bool
is_bad_key_char c = not (is_key_char c)

-- `_SECRET_SCOPE_RE.fullmatch` and `_SECRET_NAME_RE.fullmatch`
unfoldable pub is_key_text : Text → Bool
unfolding any_of
is_key_text t = leb 1 (length t) && (leb (length t) 160 && not (any_of is_bad_key_char t))

unfoldable pub validate_secret_key : Text → Text → Option Key
unfolding is_key_text strip
validate_secret_key scope name =
    let s = strip is_space scope in
    let n = strip is_space name in
    if is_key_text s && is_key_text n then some (record { scope = s; name = n }) else none

unfoldable pub validate_scope : Text → Option Text
unfolding is_key_text strip
validate_scope scope = let s = strip is_space scope in if is_key_text s then some s else none

abbrev is_nul : ℕ → Bool
is_nul c = c == 0

-- `not value or "\x00" in value`, negated.
unfoldable pub is_value : Text → Bool
unfolding any_of
is_value value = leb 1 (length value) && not (any_of is_nul value)

module _ (v : Vault) where
  abbrev pub stored : Text → Table → Key → Option Table
  stored value t k =
      if is_value value then some (Dict.put Key-discrete k (v.encrypt_value value) t) else none

  unfoldable pub write_at : Option Key → Text → Table → Option Table
  write_at none value t = none
  write_at (some k) value t = stored value t k

  unfoldable pub set_secret : Text → Text → Text → Table → Option Table
  unfolding write_at
  set_secret scope name = write_at (validate_secret_key scope name)

  abbrev pub decrypted : Option Text → Option Text → Option (Option Text)
  decrypted default none = some default
  decrypted default (some encrypted) = elim (v.decrypt_value encrypted) [
    | none ↦ none
    | some value ↦ some (some value)
  ]

  unfoldable pub read_at : Option Key → Option Text → Table → Option (Option Text)
  read_at none default t = none
  read_at (some k) default t = decrypted default (Dict.get Key-discrete k t)

  -- The ValueError of a key or of the vault is `none`, and the default is the answer if no row is
  -- there.
  unfoldable pub get_secret : Text → Text → Option Text → Table → Option (Option Text)
  unfolding read_at
  get_secret scope name = read_at (validate_secret_key scope name)

abbrev is_there : Option Text → Bool
is_there none = false
is_there (some encrypted) = true

unfoldable pub secret_exists : Text → Text → Table → Option Bool
secret_exists scope name t = elim (validate_secret_key scope name) [
  | none ↦ none
  | some k ↦ some (is_there (Dict.get Key-discrete k t))
]

-- The table, and whether a row was deleted.
unfoldable pub delete_secret : Text → Text → Table → Option (Table × Bool)
delete_secret scope name t = elim (validate_secret_key scope name) [
  | none ↦ none
  | some k ↦ some (Dict.pop Key-discrete k t, is_there (Dict.get Key-discrete k t))
]

abbrev pub has_scope : Text → Key × Text → Bool
has_scope scope row = text_eq row.0.scope scope

-- The table, and how many rows were deleted.
unfoldable pub delete_secret_scope : Text → Table → Option (Table × ℕ)
delete_secret_scope scope t = elim (validate_scope scope) [
  | none ↦ none
  | some s ↦ some (keep (λ row. not (has_scope s row)) t, length (keep (has_scope s) t))
]

unfoldable pub insert_text : Text → List Text → List Text
unfolding text_leb
insert_text t [] = t ∷ []
insert_text t (u ∷ us) =
    let rest = insert_text t us in if text_leb t u then t ∷ u ∷ us else u ∷ rest

unfoldable pub names_of : Text → Table → List Text
unfolding insert_text
names_of scope [] = []
names_of scope (row ∷ t) =
    let rest = names_of scope t in if has_scope scope row then insert_text row.0.name rest else rest

unfoldable pub list_secret_names : Text → Table → Option (List Text)
unfolding names_of
list_secret_names scope t = elim (validate_scope scope) [
  | none ↦ none
  | some s ↦ some (names_of s t)
]
