-- ===== src/AdminAuth/Tables.antt =====
-- The tables of prisma/schema.prisma that src/admin-auth/ works on (AdminUser, AdminSession,
-- AdminRefreshToken, AdminAuditLog) and the queries that it makes. Times are milliseconds.
use bom_media_api.Common.{
  ℕ, Bool, true, false, ◌&&◌, not, Option, none, some, List, [], ◌∷◌, if◌then◌else◌, is_some, Text,
  text_eq,
}

pub data AccountStatus : Type 0 where
  active disabled : AccountStatus

pub record Admin : Type 0 where
  pub id : Text
  pub username : Text
  pub password_hash : Text
  pub status : AccountStatus
  pub must_change_password : Bool
  pub temporary_password_expires_at : Option ℕ
  pub deleted_at : Option ℕ
  pub last_login_at : Option ℕ
  pub password_changed_at : Option ℕ

pub data RevokedReason : Type 0 where
  logout refresh_replay account_state_changed password_change self_revoke token_sign_failure
        role_change account_disabled owner_revoke_all password_reset account_deleted :
      RevokedReason

pub record Session : Type 0 where
  pub id : Text
  pub admin_id : Text
  pub expires_at : ℕ
  pub revoked_at : Option ℕ
  pub revoked_reason : Option RevokedReason
  pub last_used_at : Option ℕ

pub record Token : Type 0 where
  pub admin_id : Text
  pub session_id : Option Text
  pub token_hash : Text
  pub expires_at : ℕ
  pub revoked_at : Option ℕ

pub data Action : Type 0 where
  login_success login_failure refresh_success refresh_failure refresh_replayed logout_success
        password_change_success password_change_failure session_revoke_success :
      Action

pub record Audit : Type 0 where
  pub admin_id : Option Text
  pub action : Action

pub record Db : Type 0 where
  pub admins : List Admin
  pub sessions : List Session
  pub tokens : List Token
  pub audits : List Audit

abbrev pub is_active : AccountStatus → Bool
is_active AccountStatus.active = true
is_active AccountStatus.disabled = false

-- `status === ACTIVE && deletedAt === null`.
abbrev pub is_usable : Admin → Bool
is_usable a = is_active a.status && not (is_some a.deleted_at)

unfoldable pub find_admin : Text → List Admin → Option Admin
find_admin id [] = none
find_admin id (a ∷ as') = if text_eq a.id id then some a else find_admin id as'

unfoldable pub find_username : Text → List Admin → Option Admin
find_username name [] = none
find_username name (a ∷ as') = if text_eq a.username name then some a else find_username name as'

unfoldable pub find_session : Text → List Session → Option Session
find_session id [] = none
find_session id (s ∷ ss) = if text_eq s.id id then some s else find_session id ss

unfoldable pub find_token : Text → List Token → Option Token
find_token hash [] = none
find_token hash (t ∷ ts) = if text_eq t.token_hash hash then some t else find_token hash ts

abbrev pub is_of : Option Text → Text → Bool
is_of none id = false
is_of (some s) id = text_eq s id

-- The rows of `updateMany` with `adminId`, `sessionId` and `revokedAt: null`.
abbrev pub is_live_token : Text → Text → Token → Bool
is_live_token admin session t =
    text_eq t.admin_id admin && is_of t.session_id session && not (is_some t.revoked_at)

-- `adminId` and `revokedAt: null`.
abbrev pub is_of_admin : Text → Token → Bool
is_of_admin admin t = text_eq t.admin_id admin && not (is_some t.revoked_at)

abbrev pub is_live_session : Text → Text → Session → Bool
is_live_session admin session s =
    text_eq s.id session && text_eq s.admin_id admin && not (is_some s.revoked_at)

unfoldable pub revoke_tokens : (Token → Bool) → ℕ → List Token → List Token
revoke_tokens test now [] = []
revoke_tokens test now (t ∷ ts) =
    (if test t then record t { revoked_at = some now } else t) ∷ revoke_tokens test now ts

unfoldable pub update_sessions :
    (Session → Bool) → (Session → Session) → List Session → List Session
update_sessions test change [] = []
update_sessions test change (s ∷ ss) =
    (if test s then change s else s) ∷ update_sessions test change ss

unfoldable pub update_admin : Text → (Admin → Admin) → List Admin → List Admin
update_admin id change [] = []
update_admin id change (a ∷ as') =
    (if text_eq a.id id then change a else a) ∷ update_admin id change as'

abbrev pub revoke : ℕ → RevokedReason → Session → Session
revoke now reason s = record s { revoked_at = some now; revoked_reason = some reason }

-- The update that ends every session of an admin.
unfoldable pub revoke_sessions : Text → RevokedReason → ℕ → List Session → List Session
unfolding update_sessions
revoke_sessions admin reason now ss =
    update_sessions (λ s. text_eq s.admin_id admin && not (is_some s.revoked_at))
      (revoke now reason) ss

-- The two updates by which one session is ended: its live refresh tokens, then the session.
unfoldable pub revoke_session : Text → Text → RevokedReason → ℕ → Db → Db
unfolding revoke_tokens update_sessions
revoke_session admin session reason now db = record db {
  tokens = revoke_tokens (is_live_token admin session) now db.tokens;
  sessions = update_sessions (is_live_session admin session) (revoke now reason) db.sessions;
}

abbrev pub audit : Option Text → Action → Db → Db
audit admin action db = record db {
  audits = record { admin_id = admin; action = action } ∷ db.audits;
}
