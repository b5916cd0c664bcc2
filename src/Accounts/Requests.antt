-- ===== src/Accounts/Requests.antt =====
-- The requests of src/admin-accounts/admin-accounts.service.ts, and their transactions in any order.
use bom_media_api.Common.{
  ℕ, Bool, true, ◌&&◌, not, Option, none, some, List, [], ◌∷◌, if◌then◌else◌, Text,
}
use bom_media_api.AdminAuth.Tables.{AccountStatus}
use bom_media_api.AdminAuth.Base.{Env}
use bom_media_api.Accounts.{
  AdminRole, Account, Db, Result, is_owner, find_account, audit, is_active_owner, change_role_tx,
  change_status_tx, revoke_sessions_tx, reset_password_tx, delete_tx, create_tx, step_up_failed,
  management_disabled, role_not_allowed, owner_reauth_required, err,
}

-- The transactions as they may follow each other, each at its time, with the actor's row as it was
-- read before.
pub data Tx : Type 0 where
  role_tx : Account → Text → AdminRole → (expected : ℕ) → Tx
  status_tx : Account → Text → AccountStatus → (expected : ℕ) → Tx
  sessions_tx : Account → Text → Tx
  password_tx : Account → Text → (hash : Text) → (expires expected : ℕ) → Tx
  deletion_tx : Account → Text → (confirmed hash : Text) → (expected : ℕ) → Tx
  creation_tx : Account → (id username : Text) → AdminRole → (hash : Text) → (expires : ℕ) → Tx

-- `ensureManagedRole`, which comes before the transactions that set a role.
abbrev pub is_managed_role : AdminRole → Bool
is_managed_role role = not (is_owner role)

unfoldable pub run_tx : Tx → ℕ → Db → Db × Result
unfolding change_role_tx change_status_tx revoke_sessions_tx reset_password_tx delete_tx create_tx
run_tx (role_tx actor id role expected) now db =
    (if is_managed_role role
      then change_role_tx actor id role expected now db
      else (db, err role_not_allowed))
run_tx (status_tx actor id status expected) now db =
    change_status_tx actor id status expected now db
run_tx (sessions_tx actor id) now db = revoke_sessions_tx actor id now db
run_tx (password_tx actor id hash expires expected) now db =
    reset_password_tx actor id hash expires expected now db
run_tx (deletion_tx actor id confirmed hash expected) now db =
    delete_tx actor id confirmed hash expected now db
run_tx (creation_tx actor id username role hash expires) now db =
    (if is_managed_role role
      then create_tx actor id username role hash expires now db
      else (db, err role_not_allowed))

unfoldable pub run_all : List (Tx × ℕ) → Db → Db
unfolding run_tx
run_all [] db = db
run_all ((tx, now) ∷ txs) db = run_all txs (run_tx tx now db).0

-- The requests: the service is enabled, the role is managed, the actor is an active owner who gives
-- the right password, and then the transaction.
module _ (env : Env) (enabled : Bool) where
  abbrev may_set : Option AdminRole → Bool
  may_set none = true
  may_set (some role) = is_managed_role role

  -- `ensureEnabled`, `ensureManagedRole` where the request names a role, `verifyOwner`, and the
  -- transaction that it lets through.
  unfoldable pub as_owner : Text → Text → Option AdminRole → (Account → Tx) → ℕ → Db → Db × Result
  unfolding find_account run_tx
  as_owner actor_id password role tx now db =
      if not enabled
      then (db, err management_disabled)
      else if not (may_set role)
      then (db, err role_not_allowed)
      else elim (find_account actor_id db.accounts) [
        | none ↦ (audit actor_id step_up_failed db, err owner_reauth_required)
        | some actor ↦
            if is_active_owner actor && env.compare_password password actor.password_hash
            then run_tx (tx actor) now db
            else (audit actor_id step_up_failed db, err owner_reauth_required)
      ]
