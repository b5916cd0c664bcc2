-- ===== src/AdminAuth/Revoked.antt =====
-- A session of src/admin-auth/ that was ended stays ended: what follows for the guard and for the
-- refresh tokens of the session.
use bom_media_api.Common.{
  ℕ, ◌≡◌, refl, ap, ◌∙◌, Bool, true, false, ◌&&◌, not, Option, none, some, List, [], ◌∷◌, arith,
  is_some, Text, text_eq, text_eq_iff, Option-cases, inl, inr,
}
use bom_media_api.AdminAuth.Tables.{
  Db, Admin, Session, Token, RevokedReason, find_session, find_admin, find_username, revoke_tokens,
  update_sessions, revoke_sessions, revoke_session, revoke, is_live_session, password_change,
  token_sign_failure, account_state_changed, refresh_replay, self_revoke, logout,
}
use bom_media_api.AdminAuth.Base.{
  Env, normalize_username, get_refresh_token_expires_at, Result, ok, err,
}
use bom_media_api.AdminAuth.Login.{open_session, sign_session, login}
use bom_media_api.AdminAuth.Refresh.{
  Rotation, replay, invalid, clash, rotated, is_claimable, after_claim, rotate, after_rotation,
  revoke_session_for_refresh_replay, Reading, unknown, used, usable, unusable, read_refresh_token,
  refresh_with, refresh,
}
use bom_media_api.AdminAuth.Passwords.{replace_password, change_own_password, validate_new_password}
use bom_media_api.AdminAuth.Guard.{Payload, logout_session, revoke_own_session, can_activate}
use bom_media_api.AdminAuth.Requests.{
  Request, login_request, refresh_request, logout_request, password_request, revoke_request,
  guarded_request, serve, serve_all,
}
use bom_media_api.AdminAuth.Queries.{find_session-update_sessions, change_if}

abbrev pub is_revoked : Option Session → Bool
is_revoked none = false
is_revoked (some s) = is_some s.revoked_at

-- The session is in the table, revoked.
abbrev pub is_ended : Text → Db → Bool
is_ended id db = is_revoked (find_session id db.sessions)

abbrev ended_among : Text → List Session → Bool
ended_among id ss = is_revoked (find_session id ss)

-- An update that keeps the ids and clears no revocation keeps an ended session ended.
update_sessions-ended :
    (test : Session → Bool) (change : Session → Session)
    → ((s : Session) → (change s).id ≡ s.id)
    → ((s : Session) → is_some s.revoked_at ≡ true → is_some (change s).revoked_at ≡ true)
    → (id : Text) (ss : List Session) → ended_among id ss ≡ true
    → ended_among id (update_sessions test change ss) ≡ true
update_sessions-ended test change keep stays id ss h =
    ap is_revoked (find_session-update_sessions test change keep id ss) ∙ lem (find_session id ss) h
  where
    lem : (o : Option Session) → is_revoked o ≡ true → is_revoked (change_if test change o) ≡ true
    lem none e = cc
    lem (some s) e = ground (arith, stays s)

revoke_session-ended :
    (admin session : Text) (reason : RevokedReason) (now : ℕ) (db : Db) (id : Text)
    → is_ended id db ≡ true
    → is_ended id (revoke_session admin session reason now db) ≡ true
unfolding revoke_session
revoke_session-ended admin session reason now db id h =
    update_sessions-ended (is_live_session admin session) (revoke now reason) (λ _. refl)
      (λ _ _. refl) id db.sessions h

open_session-ended :
    (env : Env) (a : Admin) (session raw : Text) (now : ℕ) (db : Db) (id : Text)
    → is_ended id db ≡ true
    → is_ended id (open_session env a session raw now db).0 ≡ true
unfolding open_session find_session
open_session-ended env a session raw now db id h = elim (Option-cases (find_admin a.id db.admins)) [
  | inl e ↦ ground (arith, e)
  | inr (c, e) ↦ ground (arith, e, text_eq_iff session id)
]

sign_session-ended :
    (env : Env) (session raw : Text) (now : ℕ) (opened : Db × Result Admin) (id : Text)
    → is_ended id opened.0 ≡ true
    → is_ended id (sign_session env session raw now opened).0 ≡ true
unfolding sign_session
sign_session-ended env session raw now (db, err e) id h = h
sign_session-ended env session raw now (db, ok a) id h =
    elim (Option-cases (env.sign_access_token a.id session)) [
      | inl e ↦ ground (arith, e, revoke_session-ended a.id session token_sign_failure now db id)
      | inr (c, e) ↦ ground (arith, e)
    ]

login-ended :
    (env : Env) (username password session raw : Text) (now : ℕ) (db : Db) (id : Text)
    → is_ended id db ≡ true
    → is_ended id (login env username password session raw now db).0 ≡ true
unfolding login
login-ended env username password session raw now db id h =
    elim (Option-cases (find_username (normalize_username env username) db.admins)) [
      | inl e ↦ ground (arith, e)
      | inr (a, e) ↦ ground (
        arith,
        e,
        sign_session-ended env session raw now (open_session env a session raw now db) id,
        open_session-ended env a session raw now db id,
      )
    ]

after_claim-ended :
    (env : Env) (t : Token) (session hash : Text) (now : ℕ) (db : Db) (id : Text)
    → is_ended id db ≡ true
    → is_ended id (after_claim env t session hash now db).0 ≡ true
unfolding after_claim
after_claim-ended env t session hash now db id h =
    elim (Option-cases (find_admin t.admin_id db.admins)) [
      | inl e ↦
          ground (arith, e, revoke_session-ended t.admin_id session account_state_changed now db id)
      | inr (a, e) ↦ ground (
        arith,
        e,
        revoke_session-ended t.admin_id session account_state_changed now db id,
        update_sessions-ended (is_live_session t.admin_id session)
            (λ s. record s {
              last_used_at = some now;
              expires_at = get_refresh_token_expires_at env now;
            })
            (λ _. refl) (λ _ k. k) id db.sessions,
      )
    ]

after_rotation-ended :
    (env : Env) (t : Token) (session raw : Text) (now : ℕ) (r : Db × Rotation) (id : Text)
    → is_ended id r.0 ≡ true
    → is_ended id (after_rotation env t session raw now r).0 ≡ true
unfolding after_rotation
after_rotation-ended env t session raw now (db, replay) id h =
    revoke_session-ended t.admin_id session refresh_replay now db id h
after_rotation-ended env t session raw now (db, invalid) id h = h
after_rotation-ended env t session raw now (db, clash) id h = h
after_rotation-ended env t session raw now (db, rotated a) id h =
    elim (Option-cases (env.sign_access_token a.id session)) [
      | inl e ↦ ground (arith, e)
      | inr (c, e) ↦ ground (arith, e)
    ]

rotate-ended :
    (env : Env) (t : Token) (session hash : Text) (now : ℕ) (db : Db) (id : Text)
    → is_ended id db ≡ true
    → is_ended id (rotate env t session hash now db).0 ≡ true
unfolding rotate
rotate-ended env t session hash now db id h = ground (
  arith,
  after_claim-ended env t session hash now
      (record db { tokens = revoke_tokens (is_claimable t session) now db.tokens }) id,
)

replay_reaction-ended :
    (t : Token) (now : ℕ) (db : Db) (id : Text)
    → is_ended id db ≡ true
    → is_ended id (revoke_session_for_refresh_replay t now db) ≡ true
unfolding revoke_session_for_refresh_replay
replay_reaction-ended t now db id h = elim (Option-cases t.session_id) [
  | inl e ↦ ground (arith, e)
  | inr (s, e) ↦ ground (arith, e, revoke_session-ended t.admin_id s refresh_replay now db id)
]

refresh_with-ended :
    (env : Env) (r : Reading) (raw : Text) (now : ℕ) (db : Db) (id : Text)
    → is_ended id db ≡ true
    → is_ended id (refresh_with env r raw now db).0 ≡ true
unfolding refresh_with
refresh_with-ended env unknown raw now db id h = h
refresh_with-ended env (used t) raw now db id h = replay_reaction-ended t now db id h
refresh_with-ended env (unusable t) raw now db id h = h
refresh_with-ended env (usable t session) raw now db id h =
    after_rotation-ended env t session raw now
      (rotate env t session (env.hash_refresh_token raw) now db) id
      (rotate-ended env t session (env.hash_refresh_token raw) now db id h)

replace_password-ended :
    (env : Env) (seen : Admin) (password : Text) (now : ℕ) (db : Db) (id : Text)
    → is_ended id db ≡ true
    → is_ended id (replace_password env seen password now db).0 ≡ true
unfolding replace_password revoke_sessions
replace_password-ended env seen password now db id h =
    elim (Option-cases (find_admin seen.id db.admins)) [
      | inl f ↦ ground (arith, f)
      | inr (a, f) ↦ ground (
        arith,
        f,
        update_sessions-ended (λ s. text_eq s.admin_id seen.id && not (is_some s.revoked_at))
            (revoke now password_change) (λ _. refl) (λ _ _. refl) id db.sessions,
      )
    ]

change_own_password-ended :
    (env : Env) (admin current new_password : Text) (stable : Bool) (now : ℕ) (db : Db) (id : Text)
    → is_ended id db ≡ true
    → is_ended id (change_own_password env admin current new_password stable now db).0 ≡ true
unfolding change_own_password
change_own_password-ended env admin current new_password stable now db id h =
    elim (Option-cases (find_admin admin db.admins)) [
      | inl f ↦ ground (arith, f)
      | inr (a, f) ↦
          elim (Option-cases (validate_new_password env a.username current new_password)) [
            | inl g ↦ ground (arith, f, g, replace_password-ended env a new_password now db id)
            | inr (x, g) ↦ ground (arith, f, g)
          ]
    ]

revoke_own_session-ended :
    (admin current session : Text) (now : ℕ) (db : Db) (id : Text)
    → is_ended id db ≡ true
    → is_ended id (revoke_own_session admin current session now db).0 ≡ true
unfolding revoke_own_session
revoke_own_session-ended admin current session now db id h =
    elim (Option-cases (find_session session db.sessions)) [
      | inl f ↦ ground (arith, f)
      | inr (s, f) ↦ ground (arith, f, revoke_session-ended admin session self_revoke now db id)
    ]

can_activate-ended_table :
    (p : Payload) (allowed : Bool) (now : ℕ) (db : Db) (id : Text)
    → is_ended id db ≡ true
    → is_ended id (can_activate p allowed now db).0 ≡ true
unfolding can_activate
can_activate-ended_table p allowed now db id h =
    elim (Option-cases (find_session p.sid db.sessions)) [
      | inl e ↦ ground (arith, e)
      | inr (s, e) ↦ elim (Option-cases (find_admin s.admin_id db.admins)) [
        | inl k ↦ ground (arith, e, k)
        | inr (a, k) ↦ ground (
          arith,
          e,
          k,
          update_sessions-ended (λ x. text_eq x.id s.id && not (is_some x.revoked_at))
              (λ x. record x { last_used_at = some now }) (λ _. refl) (λ _ m. m) id db.sessions,
        )
      ]
    ]

-- No request brings an ended session back.
serve-ended :
    (env : Env) (r : Request) (now : ℕ) (db : Db) (id : Text)
    → is_ended id db ≡ true
    → is_ended id (serve env r now db) ≡ true
unfolding serve refresh logout_session
serve-ended env (login_request username password session raw) now db id =
    login-ended env username password session raw now db id
serve-ended env (refresh_request raw new_raw) now db id =
    refresh_with-ended env (read_refresh_token env raw now db) new_raw now db id
serve-ended env (logout_request admin session) now db id =
    revoke_session-ended admin session logout now db id
serve-ended env (password_request admin current new_password stable) now db id =
    change_own_password-ended env admin current new_password stable now db id
serve-ended env (revoke_request admin current session) now db id =
    revoke_own_session-ended admin current session now db id
serve-ended env (guarded_request p allowed) now db id = can_activate-ended_table p allowed now db id

pub serve_all-ended :
    (env : Env) (rs : List (Request × ℕ)) (db : Db) (id : Text)
    → is_ended id db ≡ true
    → is_ended id (serve_all env rs db) ≡ true
unfolding serve_all
serve_all-ended env [] db id h = h
serve_all-ended env ((r, now) ∷ rs) db id h =
    serve_all-ended env rs (serve env r now db) id (serve-ended env r now db id h)
