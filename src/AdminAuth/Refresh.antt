-- ===== src/AdminAuth/Refresh.antt =====
-- src/admin-auth/admin-auth.service.ts: the rotation of refresh tokens, and the reaction to a
-- token that was used before.
use bom_media_api.Common.{
  ℕ, Bool, true, false, ◌&&◌, not, Option, none, some, [], ◌∷◌, ltb, ◌==◌, if◌then◌else◌, is_some,
  count, Text, text_eq,
}
use bom_media_api.AdminAuth.Tables.{
  Admin, Session, Token, Db, refresh_replay, account_state_changed, refresh_success,
  refresh_failure, refresh_replayed, is_usable, find_admin, find_session, find_token, is_live_token,
  is_live_session, revoke_tokens, update_sessions, revoke_session, audit,
}
use bom_media_api.AdminAuth.Base.{
  Env, Result, Tokens, ok, err, unauthorized, unique_violation, sign_failure,
  get_refresh_token_expires_at, fresh_token,
}

pub data Rotation : Type 0 where
  replay invalid clash : Rotation
  rotated : Admin → Rotation

abbrev pub is_rotated : Rotation → Bool
is_rotated (rotated a) = true
is_rotated replay = false
is_rotated invalid = false
is_rotated clash = false

-- The checks inside the transaction of `refresh`, once the token is claimed.
abbrev pub is_current : Option Admin → Option Session → Text → ℕ → Bool
is_current none s admin now = false
is_current (some a) none admin now = false
is_current (some a) (some s) admin now =
    is_usable a && text_eq s.admin_id admin && not (is_some s.revoked_at) && ltb now s.expires_at

-- The claim: `updateMany` on the row that was read, if it is not revoked by now.
abbrev pub is_claimable : Token → Text → Token → Bool
is_claimable read session t =
    text_eq t.token_hash read.token_hash && is_live_token read.admin_id session t

-- The checks of `refresh` before its transaction: the token that was read, and its session.
pub data Reading : Type 0 where
  unknown : Reading
  used unusable : Token → Reading
  usable : Token → Text → Reading

-- `existingToken.session` and `existingToken.admin`, read with the token.
abbrev pub session_of : Option Text → Db → Option Session
session_of none db = none
session_of (some id) db = find_session id db.sessions

unfoldable pub is_session_usable : Option Session → ℕ → Bool
is_session_usable none now = false
is_session_usable (some s) now = not (is_some s.revoked_at) && ltb now s.expires_at

unfoldable pub is_admin_usable : Option Admin → Bool
is_admin_usable none = false
is_admin_usable (some a) = is_usable a

abbrev pub session_id_of : Option Session → Text
session_id_of none = []
session_id_of (some s) = s.id

abbrev pub judge : Token → ℕ → Db → Reading
judge t now db =
    (if is_some t.revoked_at
      then used t
      else if is_session_usable (session_of t.session_id db) now
          && ltb now t.expires_at
          && is_admin_usable (find_admin t.admin_id db.admins)
      then usable t (session_id_of (session_of t.session_id db))
      else unusable t)

-- `revokeSessionForRefreshReplay`.
unfoldable pub revoke_session_for_refresh_replay : Token → ℕ → Db → Db
unfolding revoke_session
revoke_session_for_refresh_replay t now db = elim t.session_id [
  | none ↦ db
  | some session ↦ revoke_session t.admin_id session refresh_replay now db
]

module _ (env : Env) where
  unfoldable pub after_claim : Token → Text → Text → ℕ → Db → Db × Rotation
  unfolding find_admin find_session find_token revoke_session update_sessions
      get_refresh_token_expires_at
  after_claim read session hash now db =
      let admin = find_admin read.admin_id db.admins in
      if is_current admin (find_session session db.sessions) read.admin_id now
      then (elim admin [
        | none ↦ (db, invalid)
        | some a ↦ (
          record db {
            sessions =
                update_sessions (is_live_session read.admin_id session)
                  (λ s. record s {
                    last_used_at = some now;
                    expires_at = get_refresh_token_expires_at env now;
                  })
                  db.sessions;
            tokens = fresh_token env hash a.id session now ∷ db.tokens;
          },
          rotated a,
        )
      ])
      else (revoke_session read.admin_id session account_state_changed now db, invalid)

  -- The transaction of `refresh` on the database as it is when it runs. A new token whose digest is
  -- taken breaks the unique key when it is written, and the transaction is undone.
  unfoldable pub rotate : Token → Text → Text → ℕ → Db → Db × Rotation
  unfolding revoke_tokens after_claim find_token
  rotate read session hash now db =
      if count (is_claimable read session) db.tokens == 1
      then (let claimed = record db {
        tokens = revoke_tokens (is_claimable read session) now db.tokens;
      } in
          let rest = after_claim read session hash now claimed in
          if is_some (find_token hash db.tokens) && is_rotated rest.1 then (db, clash) else rest)
      else (db, replay)

  -- What `refresh` does with the outcome of the transaction.
  unfoldable pub after_rotation : Token → Text → Text → ℕ → Db × Rotation → Db × Result Tokens
  unfolding revoke_session
  after_rotation read session raw now (db, replay) = (
    audit (some read.admin_id) refresh_replayed
        (revoke_session read.admin_id session refresh_replay now db),
    err unauthorized,
  )
  after_rotation read session raw now (db, invalid) = (db, err unauthorized)
  after_rotation read session raw now (db, clash) = (db, err unique_violation)
  after_rotation read session raw now (db, rotated a) = elim (env.sign_access_token a.id session) [
    | none ↦ (db, err sign_failure)
    | some access ↦ (
      audit (some a.id) refresh_success db,
      ok (record { access_token = access; refresh_token = raw; session_id = session }),
    )
  ]

  unfoldable pub read_refresh_token : Text → ℕ → Db → Reading
  unfolding find_token find_admin find_session is_session_usable is_admin_usable
  read_refresh_token raw now db = elim (find_token (env.hash_refresh_token raw) db.tokens) [
    | none ↦ unknown
    | some t ↦ judge t now db
  ]

  unfoldable pub refresh_with : Reading → Text → ℕ → Db → Db × Result Tokens
  unfolding rotate after_rotation revoke_session_for_refresh_replay
  refresh_with unknown new_raw now db = (audit none refresh_failure db, err unauthorized)
  refresh_with (used t) new_raw now db = (
    audit (some t.admin_id) refresh_replayed (revoke_session_for_refresh_replay t now db),
    err unauthorized,
  )
  refresh_with (unusable t) new_raw now db =
      (audit (some t.admin_id) refresh_failure db, err unauthorized)
  refresh_with (usable t session) new_raw now db =
      after_rotation t session new_raw now
        (rotate t session (env.hash_refresh_token new_raw) now db)

  -- `refresh`, alone on the database; `new_raw` is the random token it makes.
  unfoldable pub refresh : Text → Text → ℕ → Db → Db × Result Tokens
  unfolding read_refresh_token refresh_with
  refresh raw new_raw now db = refresh_with (read_refresh_token raw now db) new_raw now db
