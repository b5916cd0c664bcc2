-- ===== src/Accounts.antt =====
-- src/admin-accounts/admin-accounts.service.ts: owners manage the accounts of the other admins. Each
-- request proves that its actor is an owner, then runs one transaction that proves it again; an error
-- in the transaction undoes it. The sessions and refresh tokens are those of AdminAuth.
pub mod Requests
pub mod Owners
pub mod Sessions
pub mod Versions
pub mod Tests
use bom_media_api.Common.{
  ℕ, ◌+◌, ◌*◌, Bool, true, false, ◌&&◌, ◌||◌, not, Option, none, some, List, [], ◌∷◌, ◌==◌,
  if◌then◌else◌, is_some, count, any, Text, text_eq,
}
use bom_media_api.AdminAuth.Tables.{
  AccountStatus, Session, Token, RevokedReason, is_active, is_of_admin, revoke_tokens,
  revoke_sessions, role_change, account_disabled, owner_revoke_all, password_reset,
}
use bom_media_api.AdminAuth.Base.{Env, normalize_username}

pub data AdminRole : Type 0 where
  owner admin staff : AdminRole

-- The columns of AdminUser that the service works on.
pub record Account : Type 0 where
  pub id : Text
  pub username : Text
  pub password_hash : Text
  pub role : AdminRole
  pub status : AccountStatus
  pub must_change_password : Bool
  pub temporary_password_expires_at : Option ℕ
  pub deleted_at : Option ℕ
  pub updated_at : ℕ

pub data AuditAction : Type 0 where
  step_up_failed create role_changed status_changed revoke_sessions_action password_reset_action
        logical_delete :
      AuditAction

-- The tables; of an upload session, the admin it belongs to, if it is ACTIVE or COMPLETING.
pub record Db : Type 0 where
  pub accounts : List Account
  pub sessions : List Session
  pub tokens : List Token
  pub active_uploads : List Text
  pub audits : List (Text × AuditAction)

pub data Error : Type 0 where
  management_disabled role_not_allowed owner_reauth_required concurrent_mutation account_not_found
        self_action_forbidden owner_protected account_deleted role_already_current already_disabled
        already_active active_upload_blocks_delete username_taken :
      Error

pub data Result : Type 0 where
  done : Result
  err : Error → Result

abbrev pub is_owner : AdminRole → Bool
is_owner owner = true
is_owner admin = false
is_owner staff = false

abbrev pub same_role : AdminRole → AdminRole → Bool
same_role owner owner = true
same_role admin admin = true
same_role staff staff = true
same_role _ _ = false

abbrev pub same_status : AccountStatus → AccountStatus → Bool
same_status AccountStatus.active AccountStatus.active = true
same_status AccountStatus.disabled AccountStatus.disabled = true
same_status _ _ = false

pub find_account : Text → List Account → Option Account
find_account id [] = none
find_account id (a ∷ as') = if text_eq a.id id then some a else find_account id as'

-- An `updateMany` of accounts; `@updatedAt` is set by every update.
pub update_accounts : (Account → Bool) → (Account → Account) → ℕ → List Account → List Account
update_accounts test change now [] = []
update_accounts test change now (a ∷ as') =
    (if test a then record (change a) { updated_at = now } else a)
    ∷ update_accounts test change now as'

abbrev pub audit : Text → AuditAction → Db → Db
audit actor action db = record db { audits = (actor, action) ∷ db.audits }

-- `revokeTargetSessions`.
pub revoke_target_sessions : Text → RevokedReason → ℕ → Db → Db
unfolding revoke_tokens revoke_sessions
revoke_target_sessions id reason now db = record db {
  tokens = revoke_tokens (is_of_admin id) now db.tokens;
  sessions = revoke_sessions id reason now db.sessions;
}

-- An active owner.
abbrev pub is_active_owner : Account → Bool
is_active_owner a = is_owner a.role && is_active a.status && not (is_some a.deleted_at)

-- `recheckOwner`; `actor` is the row as it was when the password was compared.
abbrev pub is_still_owner : Account → Option Account → Bool
is_still_owner actor none = false
is_still_owner actor (some current) =
    text_eq current.password_hash actor.password_hash && is_active_owner current

pub recheck_owner : Account → Db → Bool
unfolding find_account text_eq
recheck_owner actor db = is_still_owner actor (find_account actor.id db.accounts)

-- `loadMutableTarget`.
pub data Loaded : Type 0 where
  refused : Error → Loaded
  target : Account → Loaded

pub load_mutable_target : Text → Text → Db → Loaded
unfolding find_account text_eq
load_mutable_target actor_id target_id db = elim (find_account target_id db.accounts) [
  | none ↦ refused account_not_found
  | some t ↦
      if text_eq t.id actor_id
      then refused self_action_forbidden
      else if is_owner t.role
      then refused owner_protected
      else if is_some t.deleted_at
      then refused account_deleted
      else target t
]

-- The rows of the guarded update of a target.
abbrev pub is_version : Text → ℕ → Account → Bool
is_version id expected a = text_eq a.id id && a.updated_at == expected && not (is_some a.deleted_at)

-- The guarded update, and what a request does after it.
pub update_target : Text → ℕ → (Account → Account) → ℕ → (Db → Db) → Db → Db × Result
unfolding update_accounts text_eq
update_target id expected change now after db =
    (if count (is_version id expected) db.accounts == 1
      then (
        after (record db {
          accounts = update_accounts (is_version id expected) change now db.accounts;
        }),
        done,
      )
      else (db, err concurrent_mutation))

-- What each transaction on a target does first; `body` is the rest.
pub on_target : Account → Text → (Account → Db → Db × Result) → Db → Db × Result
unfolding recheck_owner load_mutable_target
on_target actor target_id body db =
    (if recheck_owner actor db
      then (elim (load_mutable_target actor.id target_id db) [
        | refused e ↦ (db, err e)
        | target t ↦ body t db
      ])
      else (db, err concurrent_mutation))

-- The transactions. `expected` is `expectedUpdatedAt`.
pub set_role : Account → AdminRole → ℕ → ℕ → Account → Db → Db × Result
unfolding update_target revoke_target_sessions
set_role actor role expected now t db =
    (if not (t.updated_at == expected)
      then (db, err concurrent_mutation)
      else if same_role t.role role
      then (db, err role_already_current)
      else update_target t.id expected (λ a. record a { role = role }) now
          (λ d. audit actor.id role_changed (revoke_target_sessions t.id role_change now d)) db)

pub change_role_tx : Account → Text → AdminRole → ℕ → ℕ → Db → Db × Result
unfolding on_target set_role
change_role_tx actor target_id role expected now =
    on_target actor target_id (set_role actor role expected now)

-- Only disabling ends the sessions.
abbrev pub revoke_if_disabled : AccountStatus → Text → ℕ → Db → Db
revoke_if_disabled AccountStatus.active id now db = db
revoke_if_disabled AccountStatus.disabled id now db =
    revoke_target_sessions id account_disabled now db

abbrev pub already : AccountStatus → Error
already AccountStatus.active = already_active
already AccountStatus.disabled = already_disabled

pub set_status : Account → AccountStatus → ℕ → ℕ → Account → Db → Db × Result
unfolding update_target revoke_target_sessions
set_status actor status expected now t db =
    (if not (t.updated_at == expected)
      then (db, err concurrent_mutation)
      else if same_status t.status status
      then (db, err (already status))
      else update_target t.id expected (λ a. record a { status = status }) now
          (λ d. audit actor.id status_changed (revoke_if_disabled status t.id now d)) db)

pub change_status_tx : Account → Text → AccountStatus → ℕ → ℕ → Db → Db × Result
unfolding on_target set_status
change_status_tx actor target_id status expected now =
    on_target actor target_id (set_status actor status expected now)

pub end_sessions : Account → ℕ → Account → Db → Db × Result
unfolding revoke_target_sessions
end_sessions actor now t db =
    ((
      audit actor.id revoke_sessions_action (revoke_target_sessions t.id owner_revoke_all now db),
      done,
    ))

pub revoke_sessions_tx : Account → Text → ℕ → Db → Db × Result
unfolding on_target end_sessions
revoke_sessions_tx actor target_id now = on_target actor target_id (end_sessions actor now)

-- `hash` is that of the new temporary password, `expires` the end of its life.
pub set_password : Account → Text → ℕ → ℕ → ℕ → Account → Db → Db × Result
unfolding update_target revoke_target_sessions
set_password actor hash expires expected now t db =
    (if not (t.updated_at == expected)
      then (db, err concurrent_mutation)
      else update_target t.id expected
          (λ a. record a {
            password_hash = hash;
            must_change_password = true;
            temporary_password_expires_at = some expires;
          })
          now
          (λ d.
            audit actor.id password_reset_action (revoke_target_sessions t.id password_reset now d))
          db)

pub reset_password_tx : Account → Text → Text → ℕ → ℕ → ℕ → Db → Db × Result
unfolding on_target set_password
reset_password_tx actor target_id hash expires expected now =
    on_target actor target_id (set_password actor hash expires expected now)

-- `confirmed` is the normalised name that confirms the deletion, `hash` that of no password.
pub delete_target : Account → Text → Text → ℕ → ℕ → Account → Db → Db × Result
unfolding update_target revoke_target_sessions text_eq
delete_target actor confirmed hash expected now t db =
    (if not (t.updated_at == expected)
      then (db, err concurrent_mutation)
      else if not (text_eq confirmed t.username)
      then (db, err self_action_forbidden)
      else if is_active t.status
      then (db, err already_active)
      else if any (λ u. text_eq u t.id) db.active_uploads
      then (db, err active_upload_blocks_delete)
      else update_target t.id expected
          (λ a. record a {
            status = AccountStatus.disabled;
            deleted_at = some now;
            password_hash = hash;
            must_change_password = false;
            temporary_password_expires_at = none;
          })
          now
          (λ d.
            audit actor.id logical_delete
              (revoke_target_sessions t.id RevokedReason.account_deleted now d))
          db)

pub delete_tx : Account → Text → Text → Text → ℕ → ℕ → Db → Db × Result
unfolding on_target delete_target
delete_tx actor target_id confirmed hash expected now =
    on_target actor target_id (delete_target actor confirmed hash expected now)

-- A new account; its id is random, and neither the id nor the username may be taken.
pub create_tx : Account → Text → Text → AdminRole → Text → ℕ → ℕ → Db → Db × Result
unfolding recheck_owner find_account text_eq
create_tx actor id username role hash expires now db =
    (if not (recheck_owner actor db)
      then (db, err concurrent_mutation)
      else if is_some (find_account id db.accounts)
          || any (λ a. text_eq a.username username) db.accounts
      then (db, err username_taken)
      else (
        audit actor.id create (record db {
          accounts =
              record {
                id = id;
                username = username;
                password_hash = hash;
                role = role;
                status = AccountStatus.active;
                must_change_password = true;
                temporary_password_expires_at = some expires;
                deleted_at = none;
                updated_at = now;
              }
              ∷ db.accounts;
        }),
        done,
      ))
