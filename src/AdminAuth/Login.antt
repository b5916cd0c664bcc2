-- ===== src/AdminAuth/Login.antt =====
-- src/admin-auth/admin-auth.service.ts: login.
use bom_media_api.Common.{ℕ, ◌||◌, not, none, some, ◌∷◌, if◌then◌else◌, is_some, Text, text_eq}
use bom_media_api.AdminAuth.Tables.{
  Admin, Db, token_sign_failure, login_success, login_failure, is_usable, find_admin, find_username,
  find_session, find_token, update_admin, revoke_session, audit,
}
use bom_media_api.AdminAuth.Base.{
  Env, Result, Tokens, ok, err, unauthorized, temp_password_expired, unique_violation, sign_failure,
  get_refresh_token_expires_at, is_temp_expired, fresh_session, fresh_token, normalize_username,
}

module _ (env : Env) where
  -- The transaction of `createLoginTokenResponse`; the session id and the raw token are random.
  unfoldable pub open_session : Admin → Text → Text → ℕ → Db → Db × Result Admin
  unfolding find_admin update_admin find_session find_token get_refresh_token_expires_at
  open_session initial session raw now db = elim (find_admin initial.id db.admins) [
    | none ↦ (db, err unauthorized)
    | some current ↦
        if not (text_eq current.password_hash initial.password_hash) || not (is_usable current)
        then (db, err unauthorized)
        else if is_temp_expired current now
        then (db, err temp_password_expired)
        else if is_some (find_session session db.sessions)
            || is_some (find_token (env.hash_refresh_token raw) db.tokens)
        then (db, err unique_violation)
        else (
          record db {
            admins = update_admin current.id (λ a. record a { last_login_at = some now }) db.admins;
            sessions = fresh_session env session current.id now ∷ db.sessions;
            tokens =
                fresh_token env (env.hash_refresh_token raw) current.id session now ∷ db.tokens;
          },
          ok current,
        )
  ]

  -- After the transaction: sign, or end the session again.
  unfoldable pub sign_session : Text → Text → ℕ → Db × Result Admin → Db × Result Tokens
  unfolding revoke_session
  sign_session session raw now (db, err e) = (db, err e)
  sign_session session raw now (db, ok admin) = elim (env.sign_access_token admin.id session) [
    | none ↦ (revoke_session admin.id session token_sign_failure now db, err sign_failure)
    | some access ↦ (
      audit (some admin.id) login_success db,
      ok (record { access_token = access; refresh_token = raw; session_id = session }),
    )
  ]

  unfoldable pub login : Text → Text → Text → Text → ℕ → Db → Db × Result Tokens
  unfolding find_username open_session sign_session
  login username password session raw now db =
      elim (find_username (normalize_username env username) db.admins) [
        | none ↦ (audit none login_failure db, err unauthorized)
        | some admin ↦
            if not (is_usable admin) || not (env.compare_password password admin.password_hash)
            then (audit (some admin.id) login_failure db, err unauthorized)
            else if is_temp_expired admin now
            then (db, err temp_password_expired)
            else sign_session session raw now (open_session admin session raw now db)
      ]
