-- ===== src/Secrets/RoundTrip.antt =====
-- What is read back of the secrets of app/security_store.py.
use borg_backup_manager.Prelude.{subst, sym, Option, some, ite, ◌≡◌, refl, arith}
use borg_backup_manager.Text.{Text}
use borg_backup_manager.Dict
use borg_backup_manager.Dict.{Dict, get-put, get-pop}
use borg_backup_manager.Accounts.Authentication.{Vault}
use borg_backup_manager.Secrets.{
  Key, Key-discrete, Table, validate_secret_key, stored, set_secret, decrypted, get_secret, read_at,
  write_at,
}

stored-put :
    (v : Vault) (value : Text) (t r : Table) (k : Key)
    → stored v value t k ≡ some r
    → r ≡ Dict.put Key-discrete k (v.encrypt_value value) t
stored-put v value t r k e = ground (arith, e)

read-put :
    (v : Vault) (value : Text) (default : Option Text) (t : Table) (k j : Key)
    → v.decrypt_value (v.encrypt_value value) ≡ some value
    → read_at v (some j) default (Dict.put Key-discrete k (v.encrypt_value value) t)
      ≡ ite (Key-discrete k j) (some (some value)) (read_at v (some j) default t)
unfolding read_at
read-put v value default t k j restores =
    rw (get-put Key-discrete k j (v.encrypt_value value) t)
      (elim (Key-discrete k j)
        as (λ o.
          decrypted v default (ite o (some (v.encrypt_value value)) (Dict.get Key-discrete j t))
          ≡ ite o (some (some value)) (decrypted v default (Dict.get Key-discrete j t))) [
            | yes same ↦ rw (restores) refl
            | no other ↦ refl
          ])

-- A secret that was stored is read back under its scope and name, and every other secret is read as
-- before, if the vault decrypts what it encrypted. Both keys are valid.
pub set-get :
    (v : Vault) (scope name value scope2 name2 : Text) (default : Option Text) (t r : Table)
    (k j : Key)
    → v.decrypt_value (v.encrypt_value value) ≡ some value
    → validate_secret_key scope name ≡ some k
    → validate_secret_key scope2 name2 ≡ some j
    → set_secret v scope name value t ≡ some r
    → get_secret v scope2 name2 default r
      ≡ ite (Key-discrete k j) (some (some value)) (get_secret v scope2 name2 default t)
unfolding set_secret get_secret write_at
set-get v scope name value scope2 name2 default t r k j restores valid valid2 e =
    let written : stored v value t k ≡ some r =
      subst (λ o. write_at v o value t ≡ some r) valid e in
    subst
      (λ o.
        read_at v o default r ≡ ite (Key-discrete k j) (some (some value)) (read_at v o default t))
      (sym valid2)
      (subst
        (λ q.
          read_at v (some j) default q
          ≡ ite (Key-discrete k j) (some (some value)) (read_at v (some j) default t))
        (sym (stored-put v value t r k written)) (read-put v value default t k j restores))
