-- ===== src/SshActions/Tests.antt =====
-- Runs and witnesses of the SSH actions of app/security_store.py.
use borg_backup_manager.Prelude.{true, none, some, List, [], ◌∷◌, ◌≡◌, refl}
use borg_backup_manager.Text.{codes}
use borg_backup_manager.Accounts.Authentication.{Vault}
use borg_backup_manager.SshActions.{
  delete_host_ssh_action, Fields, create_host_ssh_action, delete_orphan_host_ssh_actions,
}
use borg_backup_manager.SshActions.Orphans.{Exact}
use borg_backup_manager.SshActions.History.{
  apply, Operation, create, delete, play, empty, delete_orphans-Exact,
}

abbrev vault : Vault
vault = record {
  encrypt_value = λ t. 1 ∷ t;
  decrypt_value = λ t. elim t [ [] ↦ none | c ∷ s ↦ some s ];
}

abbrev reboot : Fields
reboot = record {
  host_id = 4;
  name = codes "reboot";
  command = codes "reboot now";
  timeout_seconds = 30;
  enabled = true;
}

abbrev operations : List Operation
operations = create reboot ∷ create (record reboot { host_id = 5 }) ∷ delete 1 ∷ []

delete_orphans-Exact_example :
    Exact
      (4 ∷ [])
      (play vault operations empty)
      (delete_orphan_host_ssh_actions (4 ∷ []) (play vault operations empty))
delete_orphans-Exact_example = delete_orphans-Exact vault operations (4 ∷ [])

orphan_run : (delete_orphan_host_ssh_actions (4 ∷ []) (play vault operations empty)).1 ≡ 1
unfolding delete_orphan_host_ssh_actions play apply delete_host_ssh_action create_host_ssh_action
orphan_run = refl
