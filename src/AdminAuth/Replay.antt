-- ===== src/AdminAuth/Replay.antt =====
-- src/admin-auth/admin-auth.service.ts, refresh: a refresh token is good for one use.
use bom_media_api.Common.{
  ℕ, ◌≡◌, refl, ap, sym, subst, ◌∙◌, Bool, true, false, Option, none, some, List, arith, Text,
  text_eq, text_eq_iff, text_eq_refl, Bool-cases, Option-cases, inl, inr,
}
use bom_media_api.AdminAuth.Tables.{
  Db, Admin, Session, Token, find_session, find_token, find_admin, revoke_tokens, is_live_session,
  refresh_replay,
}
use bom_media_api.AdminAuth.Base.{Env, get_refresh_token_expires_at, Tokens, ok, err, unauthorized}
use bom_media_api.AdminAuth.Refresh.{
  revoke_session_for_refresh_replay, Rotation, replay, rotated, invalid, clash, is_claimable,
  after_claim, rotate, after_rotation, Reading, unknown, used, usable, unusable, read_refresh_token,
  refresh_with, refresh, is_session_usable,
}
use bom_media_api.AdminAuth.Revoked.{is_ended}
use bom_media_api.AdminAuth.Refused.{revoke_session-IsEnded}
use bom_media_api.AdminAuth.Queries.{
  find_session-update_sessions, find_token-revoke_tokens, find_session_id, revoked_token,
}

find_token_ne :
    (h k : Text) (ts : List Token) (t : Token)
    → find_token h ts ≡ none
    → find_token k ts ≡ some t
    → text_eq h k ≡ false
find_token_ne h k ts t e f = elim (Bool-cases (text_eq h k)) [
  | inl g ↦ ground (arith, e, f, ap (λ x. find_token x ts) ((text_eq_iff h k).0 g))
  | inr g ↦ g
]

after_claim-find :
    (env : Env) (read : Token) (session hash k : Text) (now : ℕ) (db : Db) (a : Admin)
    → (after_claim env read session hash now db).1 ≡ rotated a
    → text_eq hash k ≡ false
    → find_token k (after_claim env read session hash now db).0.tokens ≡ find_token k db.tokens
unfolding after_claim find_token
after_claim-find env read session hash k now db a r n =
    elim (Option-cases (find_admin read.admin_id db.admins)) [
      | inl e ↦ ground (arith, e)
      | inr (x, e) ↦ ground (arith, e)
    ]

-- The token that was rotated is found revoked.
rotate-find :
    (env : Env) (read : Token) (session hash k : Text) (now : ℕ) (db : Db) (a : Admin)
    → (rotate env read session hash now db).1 ≡ rotated a
    → find_token k db.tokens ≡ some read
    → is_claimable read session read ≡ true
    → find_token k (rotate env read session hash now db).0.tokens ≡ some (revoked_token now read)
unfolding rotate
rotate-find env read session hash k now db a r e c =
    elim (Option-cases (find_token hash db.tokens)) [
      | inl f ↦ ground (
        arith,
        f,
        after_claim-find env read session hash k now
            (record db { tokens = revoke_tokens (is_claimable read session) now db.tokens }) a,
        find_token_ne hash k db.tokens read f e,
        find_token-revoke_tokens k (is_claimable read session) now db.tokens,
      )
      | inr (x, f) ↦ ground (arith, f)
    ]

-- The session of a rotated token is in the table and belongs to the owner of the token.
abbrev is_owned : Option Session → Text → Bool
is_owned none admin = false
is_owned (some s) admin = text_eq s.admin_id admin

after_claim-owned :
    (env : Env) (read : Token) (session hash : Text) (now : ℕ) (db : Db) (a : Admin)
    → (after_claim env read session hash now db).1 ≡ rotated a
    → is_owned
        (find_session session (after_claim env read session hash now db).0.sessions)
        read.admin_id
      ≡ true
unfolding after_claim
after_claim-owned env read session hash now db a r =
    elim (Option-cases (find_admin read.admin_id db.admins)) [
      | inl e ↦ ground (arith, e)
      | inr (x, e) ↦ elim (Option-cases (find_session session db.sessions)) [
        | inl f ↦ ground (arith, e, f)
        | inr (s, f) ↦ ground (
          arith,
          e,
          f,
          find_session-update_sessions (is_live_session read.admin_id session)
              (λ y. record y {
                last_used_at = some now;
                expires_at = get_refresh_token_expires_at env now;
              })
              (λ _. refl) session db.sessions,
        )
      ]
    ]

rotate-owned :
    (env : Env) (read : Token) (session hash : Text) (now : ℕ) (db : Db) (a : Admin)
    → (rotate env read session hash now db).1 ≡ rotated a
    → is_owned (find_session session (rotate env read session hash now db).0.sessions) read.admin_id
      ≡ true
unfolding rotate
rotate-owned env read session hash now db a r = elim (Option-cases (find_token hash db.tokens)) [
  | inl f ↦ ground (
    arith,
    f,
    after_claim-owned env read session hash now
        (record db { tokens = revoke_tokens (is_claimable read session) now db.tokens }) a,
  )
  | inr (x, f) ↦ ground (arith, f)
]

-- What a rotation leaves: the old token revoked, its session owned.
abbrev Spent : Token → Text → Text → ℕ → Db → Type 0
Spent t session k now db =
    (find_token k db.tokens ≡ some (revoked_token now t))
    × (is_owned (find_session session db.sessions) t.admin_id ≡ true)

after_rotation-Spent :
    (env : Env) (t : Token) (session raw k : Text) (now : ℕ) (db : Db) (tokens : Tokens)
    → find_token k db.tokens ≡ some t
    → is_claimable t session t ≡ true
    → (after_rotation env t session raw now
        (rotate env t session (env.hash_refresh_token raw) now db)).1
      ≡ ok tokens
    → Spent t session k now
        (after_rotation env t session raw now
          (rotate env t session (env.hash_refresh_token raw) now db)).0
unfolding after_rotation
after_rotation-Spent env t session raw k now db tokens e c =
    go (rotate env t session (env.hash_refresh_token raw) now db)
      (λ a r. rotate-find env t session (env.hash_refresh_token raw) k now db a r e c)
      (rotate-owned env t session (env.hash_refresh_token raw) now db)
  where
    go :
        (r : Db × Rotation)
        → ((a : Admin) → r.1 ≡ rotated a → find_token k r.0.tokens ≡ some (revoked_token now t))
        → ((a : Admin)
            → r.1 ≡ rotated a
            → is_owned (find_session session r.0.sessions) t.admin_id ≡ true)
        → (after_rotation env t session raw now r).1 ≡ ok tokens
        → Spent t session k now (after_rotation env t session raw now r).0
    go (d, replay) p q h = ground arith
    go (d, invalid) p q h = ground arith
    go (d, clash) p q h = ground arith
    go (d, rotated a) p q h = elim (Option-cases (env.sign_access_token a.id session)) [
      | inl e ↦ ground (arith, e)
      | inr (x, e) ↦ ground (arith, e, p a refl, q a refl)
    ]

-- A second use of a spent token.
refresh-Spent :
    (env : Env) (t : Token) (session raw new_raw : Text) (now later : ℕ) (db : Db)
    → t.session_id ≡ some session
    → Spent t session (env.hash_refresh_token raw) now db
    → ((refresh env raw new_raw later db).1 ≡ err unauthorized)
      × (is_ended session (refresh env raw new_raw later db).0 ≡ true)
unfolding refresh refresh_with read_refresh_token revoke_session_for_refresh_replay
refresh-Spent env t session raw new_raw now later db e (f, o) =
    elim (Option-cases (find_session session db.sessions)) [
      | inl g ↦ ground (arith, g)
      | inr (s, g) ↦ ground (
        arith,
        e,
        f,
        g,
        text_eq_iff s.admin_id t.admin_id,
        revoke_session-IsEnded t.admin_id session refresh_replay later db s,
      )
    ]

-- The reading of a usable token.
read_refresh_token-usable :
    (env : Env) (raw : Text) (now : ℕ) (db : Db) (t : Token) (session : Text)
    → read_refresh_token env raw now db ≡ usable t session
    → (find_token (env.hash_refresh_token raw) db.tokens ≡ some t)
      × (t.session_id ≡ some session)
      × (is_claimable t session t ≡ true)
unfolding read_refresh_token is_session_usable
read_refresh_token-usable env raw now db t session h =
    elim (Option-cases (find_token (env.hash_refresh_token raw) db.tokens)) [
      | inl e ↦ ground (arith, e)
      | inr (x, e) ↦ elim (Option-cases x.session_id) [
        | inl f ↦ ground (arith, e, f)
        | inr (i, f) ↦ elim (Option-cases (find_session i db.sessions)) [
          | inl g ↦ ground (arith, e, f, g)
          | inr (s, g) ↦ ground (
            arith,
            e,
            f,
            g,
            find_session_id i db.sessions s g,
            text_eq_refl x.token_hash,
            text_eq_refl x.admin_id,
            text_eq_refl i,
          )
        ]
      ]
    ]

after_rotation_session_id :
    (env : Env) (t : Token) (session raw : Text) (now : ℕ) (r : Db × Rotation) (tokens : Tokens)
    → (after_rotation env t session raw now r).1 ≡ ok tokens
    → tokens.session_id ≡ session
unfolding after_rotation
after_rotation_session_id env t session raw now (d, replay) tokens h = ground arith
after_rotation_session_id env t session raw now (d, invalid) tokens h = ground arith
after_rotation_session_id env t session raw now (d, clash) tokens h = ground arith
after_rotation_session_id env t session raw now (d, rotated a) tokens h =
    elim (Option-cases (env.sign_access_token a.id session)) [
      | inl e ↦ ground (arith, e)
      | inr (x, e) ↦ ground (arith, e)
    ]

-- What a refresh that succeeds leaves.
refresh_with-Spent :
    (env : Env) (r : Reading) (raw new_raw : Text) (now : ℕ) (db : Db) (tokens : Tokens)
    → read_refresh_token env raw now db ≡ r
    → (refresh_with env r new_raw now db).1 ≡ ok tokens
    → (t : Token) × (t.session_id ≡ some tokens.session_id)
      × Spent t tokens.session_id
          (env.hash_refresh_token raw)
          now
          (refresh_with env r new_raw now db).0
unfolding refresh_with
refresh_with-Spent env unknown raw new_raw now db tokens e h = ground arith
refresh_with-Spent env (used t) raw new_raw now db tokens e h = ground arith
refresh_with-Spent env (unusable t) raw new_raw now db tokens e h = ground arith
refresh_with-Spent env (usable t session) raw new_raw now db tokens e h =
    let read = read_refresh_token-usable env raw now db t session e in
    let id =
      after_rotation_session_id env t session new_raw now
        (rotate env t session (env.hash_refresh_token new_raw) now db) tokens h in
    let spent =
      after_rotation-Spent env t session new_raw (env.hash_refresh_token raw) now db tokens read.0
        read.2 h in
    (
      t,
      read.1 ∙ ap some (sym id),
      subst
          (λ i.
            Spent t i (env.hash_refresh_token raw) now
              (refresh_with env (usable t session) new_raw now db).0)
          (sym id) spent,
    )

-- A refresh token that was rotated with success and is presented again by the next request, whatever
-- its time, is refused as unauthorized, and afterwards the session of the tokens that the first use
-- gave out is revoked.
pub refresh-refresh :
    (env : Env) (raw new_raw other : Text) (now later : ℕ) (db : Db) (tokens : Tokens)
    → (refresh env raw new_raw now db).1 ≡ ok tokens
    → ((refresh env raw other later (refresh env raw new_raw now db).0).1 ≡ err unauthorized)
      × (is_ended tokens.session_id
            (refresh env raw other later (refresh env raw new_raw now db).0).0
          ≡ true)
unfolding refresh
refresh-refresh env raw new_raw other now later db tokens h =
    let (t, e, spent) =
      refresh_with-Spent env (read_refresh_token env raw now db) raw new_raw now db tokens refl h in
    refresh-Spent env t tokens.session_id raw other now later (refresh env raw new_raw now db).0 e
      spent
