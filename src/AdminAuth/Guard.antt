-- ===== src/AdminAuth/Guard.antt =====
-- src/admin-auth/guards/admin-access-token.guard.ts, and the ways to end one session in
-- src/admin-auth/admin-auth.service.ts.
use bom_media_api.Common.{
  ℕ, ◌-◌, Bool, ◌&&◌, ◌||◌, not, Option, none, some, ltb, leb, if◌then◌else◌, is_some, Text,
  text_eq, trim, is_empty, units,
}
use bom_media_api.AdminAuth.Tables.{
  Admin, Session, Db, self_revoke, logout_success, session_revoke_success, is_usable, find_admin,
  find_session, update_sessions, revoke_session, audit, RevokedReason,
}
use bom_media_api.AdminAuth.Base.{
  Result, ok, err, unauthorized, not_found, password_change_required,
}

-- `logout`; the database does not fail here.
unfoldable pub logout_session : Text → Text → ℕ → Db → Db
unfolding revoke_session
logout_session admin session now db =
    audit (some admin) logout_success (revoke_session admin session RevokedReason.logout now db)

-- `revokeOwnSession`; the result tells whether the session is the caller's own.
unfoldable pub revoke_own_session : Text → Text → Text → ℕ → Db → Db × Result Bool
unfolding find_session revoke_session
revoke_own_session admin current session now db = elim (find_session session db.sessions) [
  | none ↦ (db, err not_found)
  | some s ↦
      if text_eq s.admin_id admin
      then (
        audit (some admin) session_revoke_success (revoke_session admin session self_revoke now db),
        ok (text_eq session current),
      )
      else (db, err not_found)
]

-- The payload of an access token whose signature was verified.
pub record Payload : Type 0 where
  pub type : Text
  pub sub : Text
  pub sid : Text
  pub jti : Text

abbrev is_blank : Text → Bool
is_blank s = is_empty (trim s)

abbrev pub is_valid_access_token_payload : Payload → Bool
is_valid_access_token_payload p =
    text_eq p.type (units "admin_access")
    && not (is_blank p.sub)
    && not (is_blank p.sid)
    && not (is_blank p.jti)

abbrev time_of : Option ℕ → ℕ
time_of none = 0
time_of (some t) = t

-- `touchSession`.
abbrev pub touch_session : Text → Option ℕ → ℕ → Db → Db
touch_session id last_used_at now db =
    (if ltb (now - time_of last_used_at) 60_000 then db else record db {
      sessions =
          update_sessions (λ s. text_eq s.id id && not (is_some s.revoked_at))
            (λ s. record s { last_used_at = some now }) db.sessions;
    })

-- What the guard does once the payload names a session and its admin.
abbrev admit : Session → Admin → Payload → Bool → ℕ → Db → Db × Result Text
admit s a p allowed now db =
    (if not (text_eq s.admin_id p.sub)
        || is_some s.revoked_at
        || leb s.expires_at now
        || not (is_usable a)
      then (db, err unauthorized)
      else if a.must_change_password && not allowed
      then (db, err password_change_required)
      else (touch_session s.id s.last_used_at now db, ok a.id))

-- `canActivate`, from the payload of the verified token; the flag is the metadata of the route that
-- lets an admin in who must change the password. The result is the admin let in.
unfoldable pub can_activate : Payload → Bool → ℕ → Db → Db × Result Text
unfolding find_session find_admin update_sessions text_eq trim
can_activate p allowed now db =
    (if not (is_valid_access_token_payload p)
      then (db, err unauthorized)
      else elim (find_session p.sid db.sessions) [
        | none ↦ (db, err unauthorized)
        | some s ↦ elim (find_admin s.admin_id db.admins) [
          | none ↦ (db, err unauthorized)
          | some a ↦ admit s a p allowed now db
        ]
      ])
