-- ===== src/Accounts/Tests.antt =====
-- Requests of src/admin-accounts/ on concrete tables, and an example of each property.
use bom_media_api.Common.{◌≡◌, ◌≢◌, refl, true, false, none, [], ◌∷◌, text_eq, units, arith}
use bom_media_api.AdminAuth.Tables.{AccountStatus, revoke_tokens, revoke_sessions, update_sessions}
use bom_media_api.Accounts.{
  AdminRole, Account, Db, done, find_account, update_accounts, revoke_target_sessions,
  recheck_owner, load_mutable_target, update_target, on_target, set_role, set_status, end_sessions,
  set_password, delete_target, change_role_tx, change_status_tx, revoke_sessions_tx,
  reset_password_tx, delete_tx, create_tx,
}
use bom_media_api.Accounts.Requests.{Tx, role_tx, status_tx, creation_tx, run_tx, run_all}
use bom_media_api.Accounts.Owners.{owner_of, run_all-owner_of}
use bom_media_api.Accounts.Sessions.{is_signed_out, run_tx-is_signed_out}
use bom_media_api.Accounts.Versions.{run_tx-run_tx}

abbrev olga : Account
olga = record {
  id = units "o";
  username = units "olga";
  password_hash = units "p";
  role = AdminRole.owner;
  status = AccountStatus.active;
  must_change_password = false;
  temporary_password_expires_at = none;
  deleted_at = none;
  updated_at = 1;
}

abbrev sam : Account
sam = record olga { id = units "s"; username = units "sam"; role = AdminRole.staff; updated_at = 2 }

abbrev office : Db
office = record {
  accounts = olga ∷ sam ∷ [];
  sessions =
      record {
        id = units "s1";
        admin_id = units "s";
        expires_at = 900;
        revoked_at = none;
        revoked_reason = none;
        last_used_at = none;
      }
      ∷ [];
  tokens = [];
  active_uploads = [];
  audits = [];
}

abbrev disable_sam : Tx
disable_sam = status_tx olga (units "s") AccountStatus.disabled 2

abbrev promote_sam : Tx
promote_sam = role_tx olga (units "s") AdminRole.admin 2

accounts : Unit {0}
unfolding text_eq revoke_tokens revoke_sessions update_sessions find_account update_accounts
    revoke_target_sessions recheck_owner load_mutable_target update_target on_target set_role
    set_status end_sessions set_password delete_target change_role_tx change_status_tx
    revoke_sessions_tx reset_password_tx delete_tx create_tx run_tx run_all
accounts = tt

sam_disabled : (run_tx disable_sam 10 office).1 ≡ done
unfolding accounts
sam_disabled = refl

run_all-owner_of_example :
    owner_of (units "o") (
      run_all
        ((disable_sam, 10)
          ∷ (status_tx olga (units "o") AccountStatus.disabled 1, 11)
          ∷ (creation_tx olga (units "n") (units "ned") AdminRole.owner (units "h") 99, 12)
          ∷ [])
        office)
    ≡ owner_of (units "o") office
run_all-owner_of_example =
    run_all-owner_of
      ((disable_sam, 10)
        ∷ (status_tx olga (units "o") AccountStatus.disabled 1, 11)
        ∷ (creation_tx olga (units "n") (units "ned") AdminRole.owner (units "h") 99, 12)
        ∷ [])
      office (units "o")

run_tx-is_signed_out_example : is_signed_out (units "s") (run_tx disable_sam 10 office).0 ≡ true
run_tx-is_signed_out_example =
    run_tx-is_signed_out disable_sam 10 office (units "s") refl sam_disabled

run_tx-run_tx_example : (run_tx promote_sam 11 (run_tx disable_sam 10 office).0).1 ≢ done
run_tx-run_tx_example =
    run_tx-run_tx disable_sam promote_sam (units "s") 2 10 11 office refl refl (omega arith)
      sam_disabled
