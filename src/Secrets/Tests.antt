-- ===== src/Secrets/Tests.antt =====
-- Runs and witnesses of the secrets of app/security_store.py.
use borg_backup_manager.Dict
use borg_backup_manager.Prelude.{ite, none, some, [], ◌∷◌, ◌≡◌, refl}
use borg_backup_manager.Text.{codes, text_eq, is_space}
use borg_backup_manager.Dict.{Dict}
use borg_backup_manager.Accounts.Authentication.{Vault}
use borg_backup_manager.Secrets.{
  is_value, validate_scope, Key, Key-discrete, Table, validate_secret_key, set_secret, get_secret,
  list_secret_names,
}
use borg_backup_manager.Secrets.RoundTrip.{set-get}

abbrev vault : Vault
vault = record {
  encrypt_value = λ t. 1 ∷ t;
  decrypt_value = λ t. elim t [ [] ↦ none | c ∷ s ↦ some s ];
}

abbrev mail : Key
mail = record { scope = codes "smtp"; name = codes "password" }

abbrev other : Key
other = record { scope = codes "smtp"; name = codes "user" }

abbrev table : Table
table = (other, codes "xu") ∷ []

abbrev after : Table
after = (other, codes "xu") ∷ (mail, 1 ∷ codes "pw") ∷ []

set-get_example :
    get_secret vault (codes "smtp") (codes " user") none after
    ≡ ite
        (Key-discrete mail other)
        (some (some (codes "pw")))
        (get_secret vault (codes "smtp") (codes " user") none table)
unfolding set_secret validate_secret_key is_space is_value Dict.put Key-discrete
set-get_example =
    set-get vault (codes "smtp") (codes "password") (codes "pw") (codes "smtp") (codes " user") none
      table after mail other refl refl refl refl

names_run : list_secret_names (codes "smtp") after ≡ some (codes "password" ∷ codes "user" ∷ [])
unfolding list_secret_names validate_scope is_space text_eq
names_run = refl
