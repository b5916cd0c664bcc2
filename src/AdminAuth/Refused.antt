-- ===== src/AdminAuth/Refused.antt =====
-- What an ended session is worth to the guard and to the refresh of src/admin-auth/.
use bom_media_api.Common.{
  ℕ, ◌≡◌, refl, ap, ◌∙◌, Bool, true, ◌&&◌, not, some, List, arith, is_some, Text, text_eq,
  text_eq_iff, Bool-cases, Option-cases, inl, inr,
}
use bom_media_api.AdminAuth.Tables.{
  Db, Admin, Session, Token, RevokedReason, find_session, find_token, find_admin, revoke_sessions,
  revoke_session, revoke, is_live_session, password_change, self_revoke, logout,
}
use bom_media_api.AdminAuth.Base.{Env, ok, err, unauthorized}
use bom_media_api.AdminAuth.Refresh.{read_refresh_token, refresh_with, refresh, is_session_usable}
use bom_media_api.AdminAuth.Passwords.{replace_password, change_own_password, validate_new_password}
use bom_media_api.AdminAuth.Guard.{Payload, logout_session, revoke_own_session, can_activate}
use bom_media_api.AdminAuth.Requests.{Request, serve_all}
use bom_media_api.AdminAuth.Queries.{find_session-update_sessions, find_session_id, find_admin_id}
use bom_media_api.AdminAuth.Revoked.{is_ended, serve_all-ended}

-- The guard and an ended session.
can_activate-ended :
    (p : Payload) (allowed : Bool) (now : ℕ) (db : Db)
    → is_ended p.sid db ≡ true
    → can_activate p allowed now db ≡ (db, err unauthorized)
unfolding can_activate
can_activate-ended p allowed now db h = elim (Option-cases (find_session p.sid db.sessions)) [
  | inl e ↦ ground (arith, e)
  | inr (s, e) ↦ elim (Option-cases (find_admin s.admin_id db.admins)) [
    | inl k ↦ ground (arith, e, k)
    | inr (a, k) ↦ ground (arith, e, k)
  ]
]

-- The refresh and a token of an ended session.
refresh-ended :
    (env : Env) (raw new_raw : Text) (now : ℕ) (db : Db) (t : Token) (session : Text)
    → find_token (env.hash_refresh_token raw) db.tokens ≡ some t
    → t.session_id ≡ some session
    → is_ended session db ≡ true
    → (refresh env raw new_raw now db).1 ≡ err unauthorized
unfolding refresh refresh_with read_refresh_token is_session_usable
refresh-ended env raw new_raw now db t session e k h =
    elim (Option-cases (find_session session db.sessions)) [
      | inl f ↦ ground (arith, e, k, f)
      | inr (s, f) ↦ elim (Bool-cases (is_some t.revoked_at)) [
        | inl g ↦ ground (arith, e, k, f, g)
        | inr g ↦ ground (arith, e, k, f, g)
      ]
    ]

-- The session that is revoked is ended by it.
pub revoke_session-IsEnded :
    (admin session : Text) (reason : RevokedReason) (now : ℕ) (db : Db) (s : Session)
    → find_session session db.sessions ≡ some s
    → s.admin_id ≡ admin
    → is_ended session (revoke_session admin session reason now db) ≡ true
unfolding revoke_session
revoke_session-IsEnded admin session reason now db s e k = ground (
  arith,
  e,
  find_session-update_sessions (is_live_session admin session) (revoke now reason) (λ _. refl)
      session db.sessions,
  text_eq_iff s.id session,
  find_session_id session db.sessions s e,
  text_eq_iff s.admin_id admin,
)

-- A password change ends every session of the admin.
replace_password-IsEnded :
    (env : Env) (seen : Admin) (password : Text) (now : ℕ) (db : Db) (session : Text) (s : Session)
    → (replace_password env seen password now db).1 ≡ ok tt
    → find_session session db.sessions ≡ some s
    → s.admin_id ≡ seen.id
    → is_ended session (replace_password env seen password now db).0 ≡ true
unfolding replace_password revoke_sessions
replace_password-IsEnded env seen password now db session s done e k =
    elim (Option-cases (find_admin seen.id db.admins)) [
      | inl f ↦ ground (arith, f)
      | inr (a, f) ↦ ground (
        arith,
        f,
        e,
        find_session-update_sessions (λ x. text_eq x.admin_id seen.id && not (is_some x.revoked_at))
            (revoke now password_change) (λ _. refl) session db.sessions,
        text_eq_iff s.admin_id seen.id,
      )
    ]

change_own_password-IsEnded :
    (env : Env) (admin current new_password : Text) (stable : Bool) (now : ℕ) (db : Db)
    → (session : Text) (s : Session)
    → (change_own_password env admin current new_password stable now db).1 ≡ ok tt
    → find_session session db.sessions ≡ some s
    → s.admin_id ≡ admin
    → is_ended session (change_own_password env admin current new_password stable now db).0 ≡ true
unfolding change_own_password
change_own_password-IsEnded env admin current new_password stable now db session s done e k =
    elim (Option-cases (find_admin admin db.admins)) [
      | inl f ↦ ground (arith, f)
      | inr (a, f) ↦
          elim (Option-cases (validate_new_password env a.username current new_password)) [
            | inl g ↦ ground (
              arith,
              f,
              g,
              find_admin_id admin db.admins a f,
              replace_password-IsEnded env a new_password now db session s,
            )
            | inr (x, g) ↦ ground (arith, f, g)
          ]
    ]

revoke_own_session-IsEnded :
    (admin current session : Text) (now : ℕ) (db : Db) (s : Session)
    → find_session session db.sessions ≡ some s
    → s.admin_id ≡ admin
    → is_ended session (revoke_own_session admin current session now db).0 ≡ true
unfolding revoke_own_session
revoke_own_session-IsEnded admin current session now db s e k = ground (
  arith,
  e,
  revoke_session-IsEnded admin session self_revoke now db s,
  text_eq_iff s.admin_id admin,
)

-- After an admin logs out of a session of theirs, and whatever requests are served after it, the
-- guard refuses every access token of that session, on every route and at every time, and changes
-- nothing.
pub can_activate-logout_session :
    (env : Env) (rs : List (Request × ℕ)) (p : Payload) (allowed : Bool) (later now : ℕ)
    → (admin session : Text) (db : Db) (s : Session) → find_session session db.sessions ≡ some s
    → s.admin_id ≡ admin
    → p.sid ≡ session
    → can_activate p allowed later (serve_all env rs (logout_session admin session now db))
      ≡ (serve_all env rs (logout_session admin session now db), err unauthorized)
unfolding logout_session
can_activate-logout_session env rs p allowed later now admin session db s e k sid =
    can_activate-ended p allowed later (serve_all env rs (logout_session admin session now db))
      (serve_all-ended env rs (logout_session admin session now db) p.sid ended)
  where
    ended : is_ended p.sid (logout_session admin session now db) ≡ true
    ended =
        ap (λ i. is_ended i (logout_session admin session now db)) sid
        ∙ revoke_session-IsEnded admin session logout now db s e k

-- After an admin revokes a session of theirs, and whatever requests are served after it, every
-- refresh with a token of that session fails as unauthorized.
pub refresh-revoke_own_session :
    (env : Env) (rs : List (Request × ℕ)) (raw new_raw : Text) (later now : ℕ)
    → (admin current session : Text) (db : Db) (s : Session) (t : Token)
    → find_session session db.sessions ≡ some s
    → s.admin_id ≡ admin
    → find_token
        (env.hash_refresh_token raw)
        (serve_all env rs (revoke_own_session admin current session now db).0).tokens
      ≡ some t
    → t.session_id ≡ some session
    → (refresh env raw new_raw later
        (serve_all env rs (revoke_own_session admin current session now db).0)).1
      ≡ err unauthorized
refresh-revoke_own_session env rs raw new_raw later now admin current session db s t e k f m =
    refresh-ended env raw new_raw later
      (serve_all env rs (revoke_own_session admin current session now db).0) t session f m
      (serve_all-ended env rs (revoke_own_session admin current session now db).0 session
        (revoke_own_session-IsEnded admin current session now db s e k))

-- After an admin has changed the password with success, and whatever requests are served after it,
-- the guard refuses every access token of a session that the admin had before the change.
pub can_activate-change_own_password :
    (env : Env) (rs : List (Request × ℕ)) (p : Payload) (allowed : Bool) (later now : ℕ)
    → (admin current new_password : Text) (stable : Bool) (db : Db) (s : Session)
    → (change_own_password env admin current new_password stable now db).1 ≡ ok tt
    → find_session p.sid db.sessions ≡ some s
    → s.admin_id ≡ admin
    → can_activate p allowed later
        (serve_all env rs (change_own_password env admin current new_password stable now db).0)
      ≡ (
        serve_all env rs (change_own_password env admin current new_password stable now db).0,
        err unauthorized,
      )
can_activate-change_own_password env rs p allowed later now admin current new_password stable db s
      done e k =
    can_activate-ended p allowed later
      (serve_all env rs (change_own_password env admin current new_password stable now db).0)
      (serve_all-ended env rs (change_own_password env admin current new_password stable now db).0
        p.sid
        (change_own_password-IsEnded env admin current new_password stable now db p.sid s done e k))
