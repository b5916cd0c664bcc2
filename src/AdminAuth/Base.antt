-- ===== src/AdminAuth/Base.antt =====
-- What the sign-in of admins is given, its errors, and what its routines share
-- (src/admin-auth/admin-auth.service.ts and admin-credential.service.ts).
use bom_media_api.Common.{
  ℕ, ◌+◌, ◌*◌, Bool, false, ◌&&◌, Option, none, some, leb, ◌==◌, if◌then◌else◌, Text, trim,
}
use bom_media_api.AdminAuth.Tables.{Admin, Session, Token}

-- What the service is given: bcrypt, the peppered digest of refresh tokens, the signer of access
-- tokens (which may fail), and the configured lifetime of refresh tokens in days.
pub record Env : Type 0 where
  pub compare_password : Text → Text → Bool
  pub hash_password : Text → Text
  pub hash_refresh_token : Text → Text
  pub sign_access_token : Text → Text → Option Text
  pub nfc : Text → Text
  pub to_lower_case : Text → Text
  pub refresh_token_expires_days : ℕ

pub data Error : Type 0 where
  unauthorized temp_password_expired unique_violation sign_failure not_found
        password_change_required current_password_invalid policy_violation password_reused :
      Error

pub data Result (A : Type 0) : Type 0 where
  ok : A → Result A
  err : Error → Result A

pub record Tokens : Type 0 where
  pub access_token : Text
  pub refresh_token : Text
  pub session_id : Text

-- Days of 24 hours, as on a server whose clock is UTC.
unfoldable pub get_refresh_token_expires_at : Env → ℕ → ℕ
get_refresh_token_expires_at env now =
    (if env.refresh_token_expires_days == 0
      then now + 30 * 86_400_000
      else now + env.refresh_token_expires_days * 86_400_000)

-- `mustChangePassword && temporaryPasswordExpiresAt !== null && temporaryPasswordExpiresAt <= now`.
abbrev pub is_past : Option ℕ → ℕ → Bool
is_past none now = false
is_past (some t) now = leb t now

abbrev pub is_temp_expired : Admin → ℕ → Bool
is_temp_expired a now = a.must_change_password && is_past a.temporary_password_expires_at now

module _ (env : Env) where
  unfoldable pub normalize_username : Text → Text
  unfolding trim
  normalize_username value = env.to_lower_case (trim (env.nfc value))

  abbrev pub fresh_session : Text → Text → ℕ → Session
  fresh_session id admin now = record {
    id = id;
    admin_id = admin;
    expires_at = get_refresh_token_expires_at env now;
    revoked_at = none;
    revoked_reason = none;
    last_used_at = some now;
  }

  abbrev pub fresh_token : Text → Text → Text → ℕ → Token
  fresh_token hash admin session now = record {
    admin_id = admin;
    session_id = some session;
    token_hash = hash;
    expires_at = get_refresh_token_expires_at env now;
    revoked_at = none;
  }
