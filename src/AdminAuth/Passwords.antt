-- ===== src/AdminAuth/Passwords.antt =====
-- src/admin-auth/admin-auth.service.ts: the change of one's own password, with the rules of
-- src/admin-auth/admin-credential.service.ts.
use bom_media_api.Common.{
  ℕ, Bool, false, ◌||◌, not, Option, none, some, ltb, if◌then◌else◌, Text, text_eq, length,
}
use bom_media_api.AdminAuth.Tables.{
  Admin, Db, password_change, password_change_success, password_change_failure, is_usable,
  find_admin, revoke_tokens, update_admin, audit, is_of_admin, revoke_sessions,
}
use bom_media_api.AdminAuth.Base.{
  Env, Error, Result, ok, err, unauthorized, current_password_invalid, policy_violation,
  password_reused, normalize_username,
}

module _ (env : Env) where
  -- `validateNewPassword`; none if the password is accepted.
  unfoldable pub validate_new_password : Text → Text → Text → Option Error
  unfolding normalize_username text_eq
  validate_new_password username current_password new_password =
      (if ltb (length new_password) 12 || ltb 128 (length new_password)
        then some policy_violation
        else if text_eq new_password current_password
        then some password_reused
        else if text_eq (normalize_username env new_password) (normalize_username env username)
        then some policy_violation
        else none)

  -- The transaction of the password change, on the database as it is when it runs; `seen` is the
  -- row read before.
  unfoldable pub replace_password : Admin → Text → ℕ → Db → Db × Result Unit
  unfolding find_admin update_admin revoke_tokens revoke_sessions
  replace_password seen password now db = elim (find_admin seen.id db.admins) [
    | none ↦ (db, err unauthorized)
    | some current ↦
        if not (text_eq current.password_hash seen.password_hash) || not (is_usable current)
        then (db, err unauthorized)
        else (
          audit (some seen.id) password_change_success (record db {
            admins =
                update_admin seen.id
                  (λ a. record a {
                    password_hash = env.hash_password password;
                    must_change_password = false;
                    password_changed_at = some now;
                    temporary_password_expires_at = none;
                  })
                  db.admins;
            tokens = revoke_tokens (is_of_admin seen.id) now db.tokens;
            sessions = revoke_sessions seen.id password_change now db.sessions;
          }),
          ok tt,
        )
  ]

  -- `changeOwnPasswordInternal` with `useStableCurrentPasswordError`.
  unfoldable pub change_own_password : Text → Text → Text → Bool → ℕ → Db → Db × Result Unit
  unfolding find_admin validate_new_password replace_password
  change_own_password id current_password new_password stable now db =
      elim (find_admin id db.admins) [
        | none ↦ (audit (some id) password_change_failure db, err unauthorized)
        | some a ↦
            if not (is_usable a)
            then (audit (some id) password_change_failure db, err unauthorized)
            else if not (env.compare_password current_password a.password_hash)
            then (
              audit (some a.id) password_change_failure db,
              err (if stable then current_password_invalid else unauthorized),
            )
            else elim (validate_new_password a.username current_password new_password) [
              | some e ↦ (db, err e)
              | none ↦ replace_password a new_password now db
            ]
      ]
