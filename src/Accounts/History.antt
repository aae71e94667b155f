-- ===== src/Accounts/History.antt =====
-- The operations of app/security_store.py on accounts with their arguments, each as the code runs it while
-- no other request writes.
use borg_backup_manager.Prelude.{ℕ, Bool, true, false, Option, none, some, ◌≡◌, refl}
use borg_backup_manager.Text.{Text}
use borg_backup_manager.Accounts.{Store, Outcome, done, refused, require, reject, Refusal, Scrypt}
use borg_backup_manager.Accounts.Users.{
  apply_write, Write, then_write, create_user, set_user_password, change_own_password,
  recover_account, update_user, update_user_preferences, unlock_account, delete_user_as,
}

-- The operations with their arguments; a salt and a temporary password are among them.
pub data Operation : Type 0 where
  create : (salt username password role : Text) (must_change : Bool) → Operation
  set_password : (salt : Text) (n : ℕ) (password : Text) (must_change : Bool) → Operation
  change_password : (salt : Text) (n : ℕ) (current_password new_password : Text) → Operation
  recover : (salt temporary_password username : Text) (make_admin : Bool) → Operation
  update : (n : ℕ) (username role : Text) (enabled : Bool) → Operation
  prefer : (n : ℕ) (language appearance : Text) → Operation
  delete : (n current : ℕ) → Operation
  unlock : (username : Text) → Operation

unfoldable pub without_answer : Outcome (Store × Bool) → Outcome Store
without_answer (done (s, b)) = done s
without_answer (refused why) = refused why

unfoldable pub execute : Scrypt → Operation → Store → Outcome Store
execute k (create salt username password role must_change) =
    create_user k salt username password role must_change
execute k (set_password salt n password must_change) =
    set_user_password k salt n password must_change
execute k (change_password salt n current_password new_password) =
    change_own_password k salt n current_password new_password
execute k (recover salt temporary_password username make_admin) =
    recover_account k salt temporary_password username make_admin
execute k (update n username role enabled) = update_user n username role enabled
execute k (prefer n language appearance) = update_user_preferences n language appearance
execute k (delete n current) = delete_user_as n current
execute k (unlock username) = λ s. without_answer (unlock_account username s)

-- What holds of the result if the operation went through.
unfoldable pub OnDone {ℓ} : {A : Type ℓ} → (A → Type 0) → Outcome A → Type 0
OnDone P (done a) = P a
OnDone P (refused why) = Unit

module _ {B : Type 0} (P : B → Type 0) where
  pub OnDone-require :
      {A : Type 0} (o : Option A) (why : Refusal) (next : A → Outcome B)
      → ((a : A) → o ≡ some a → OnDone P (next a))
      → OnDone P (require o why next)
  unfolding OnDone require
  OnDone-require none why next h = tt
  OnDone-require (some a) why next h = h a refl

  pub OnDone-reject :
      (b : Bool) (why : Refusal) (next : Outcome B)
      → (b ≡ false → OnDone P next)
      → OnDone P (reject b why next)
  unfolding OnDone reject
  OnDone-reject true why next h = tt
  OnDone-reject false why next h = h refl

pub OnDone-answer :
    (P : Store → Type 0) (o : Outcome (Store × Bool))
    → OnDone (λ answer. P answer.0) o
    → OnDone P (without_answer o)
unfolding OnDone without_answer
OnDone-answer P (done (s, b)) h = h
OnDone-answer P (refused why) h = tt

-- What the checks make sure of, the write may use.
pub OnDone-then :
    (P : Store → Type 0) (o : Outcome Write) (s : Store)
    → OnDone (λ w. (t : Store) → OnDone P (apply_write w t)) o
    → OnDone P (then_write o s)
unfolding OnDone then_write
OnDone-then P (done w) s h = h s
OnDone-then P (refused why) s h = tt
