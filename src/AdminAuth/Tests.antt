-- ===== src/AdminAuth/Tests.antt =====
-- Concrete requests to src/admin-auth/, and an example of each property.
use bom_media_api.Common.{
  ℕ, ◌≡◌, refl, true, false, none, some, List, [], ◌∷◌, ◌++◌, text_eq, trim, units,
}
use bom_media_api.AdminAuth.Tables.{
  Db, Admin, Session, Token, AccountStatus, find_session, find_token, find_admin, find_username,
  revoke_tokens, update_sessions, update_admin, revoke_sessions, revoke_session,
}
use bom_media_api.AdminAuth.Base.{
  Env, Tokens, ok, err, unauthorized, get_refresh_token_expires_at, normalize_username,
}
use bom_media_api.AdminAuth.Login.{login, open_session, sign_session}
use bom_media_api.AdminAuth.Refresh.{
  replay, after_claim, rotate, after_rotation, revoke_session_for_refresh_replay,
  read_refresh_token, refresh_with, refresh, is_session_usable, is_admin_usable,
}
use bom_media_api.AdminAuth.Passwords.{validate_new_password, replace_password, change_own_password}
use bom_media_api.AdminAuth.Guard.{Payload, logout_session, revoke_own_session, can_activate}
use bom_media_api.AdminAuth.Requests.{
  Request, login_request, refresh_request, guarded_request, serve, serve_all,
}
use bom_media_api.AdminAuth.Revoked.{is_ended}
use bom_media_api.AdminAuth.Refused.{
  can_activate-logout_session, refresh-revoke_own_session, can_activate-change_own_password,
}
use bom_media_api.AdminAuth.Claim.{rotate-rotate}
use bom_media_api.AdminAuth.Replay.{refresh-refresh}

-- Passwords are stored as they are, digests start with a mark, tokens name admin and session.
abbrev plain : Env
plain = record {
  compare_password = text_eq;
  hash_password = λ p. p;
  hash_refresh_token = λ raw. 35 ∷ raw;
  sign_access_token = λ admin session. some (admin ++ session);
  nfc = λ s. s;
  to_lower_case = λ s. s;
  refresh_token_expires_days = 30;
}

abbrev ann : Admin
ann = record {
  id = units "a1";
  username = units "ann";
  password_hash = units "old password";
  status = AccountStatus.active;
  must_change_password = false;
  temporary_password_expires_at = none;
  deleted_at = none;
  last_login_at = none;
  password_changed_at = none;
}

abbrev laptop : Session
laptop = record {
  id = units "s1";
  admin_id = units "a1";
  expires_at = 5000;
  revoked_at = none;
  revoked_reason = none;
  last_used_at = none;
}

abbrev first : Token
first = record {
  admin_id = units "a1";
  session_id = some (units "s1");
  token_hash = units "#r1";
  expires_at = 5000;
  revoked_at = none;
}

abbrev signed_in : Db
signed_in = record { admins = ann ∷ []; sessions = laptop ∷ []; tokens = first ∷ []; audits = [] }

abbrev laptop_token : Payload
laptop_token = record {
  type = units "admin_access";
  sub = units "a1";
  sid = units "s1";
  jti = units "j";
}

abbrev later_requests : List (Request × ℕ)
later_requests =
    (login_request (units "ann") (units "new password") (units "s2") (units "r2"), 200)
    ∷ (refresh_request (units "r1") (units "r3"), 300)
    ∷ (guarded_request laptop_token false, 400)
    ∷ []

-- Before it is ended, the session is good.
guard_lets_in : (can_activate laptop_token false 100 signed_in).1 ≡ ok (units "a1")
unfolding can_activate find_session find_admin update_sessions text_eq
guard_lets_in = refl

can_activate-logout_session_example :
    can_activate laptop_token false 500
      (serve_all plain later_requests (logout_session (units "a1") (units "s1") 100 signed_in))
    ≡ (
      serve_all plain later_requests (logout_session (units "a1") (units "s1") 100 signed_in),
      err unauthorized,
    )
unfolding find_session text_eq
can_activate-logout_session_example =
    can_activate-logout_session plain later_requests laptop_token false 500 100 (units "a1")
      (units "s1") signed_in laptop refl refl refl

requests : Unit {0}
unfolding serve_all serve login open_session sign_session refresh refresh_with rotate after_claim
    after_rotation read_refresh_token revoke_session_for_refresh_replay is_session_usable
    is_admin_usable change_own_password replace_password validate_new_password normalize_username
    can_activate logout_session revoke_own_session find_session find_token find_admin find_username
    revoke_tokens update_sessions update_admin revoke_sessions revoke_session
    get_refresh_token_expires_at text_eq trim
requests = tt

-- The tokens that a refresh of the first token gives out.
abbrev second : Tokens
second = record { access_token = units "a1s1"; refresh_token = units "r2"; session_id = units "s1" }

refresh_gives : (refresh plain (units "r1") (units "r2") 100 signed_in).1 ≡ ok second
unfolding requests
refresh_gives = refl

refresh-revoke_own_session_example :
    (refresh plain (units "r1") (units "r4") 500 (
      serve_all plain later_requests
        (revoke_own_session (units "a1") (units "s1") (units "s1") 100 signed_in).0)).1
    ≡ err unauthorized
unfolding requests
refresh-revoke_own_session_example =
    refresh-revoke_own_session plain later_requests (units "r1") (units "r4") 500 100 (units "a1")
      (units "s1") (units "s1") signed_in laptop (record first { revoked_at = some 100 }) refl refl
      refl refl

can_activate-change_own_password_example :
    can_activate laptop_token false 500 (
      serve_all plain later_requests
        (change_own_password plain
          (units "a1")
          (units "old password")
          (units "new password")
          true
          100
          signed_in).0)
    ≡ (
      serve_all plain later_requests
          (change_own_password plain
            (units "a1")
            (units "old password")
            (units "new password")
            true
            100
            signed_in).0,
      err unauthorized,
    )
unfolding requests
can_activate-change_own_password_example =
    can_activate-change_own_password plain later_requests laptop_token false 500 100 (units "a1")
      (units "old password") (units "new password") true signed_in laptop refl refl refl

rotate-rotate_example :
    rotate plain first
      (units "s1")
      (units "#r3")
      110
      (rotate plain first (units "s1") (units "#r2") 100 signed_in).0
    ≡ ((rotate plain first (units "s1") (units "#r2") 100 signed_in).0, replay)
unfolding requests
rotate-rotate_example =
    rotate-rotate plain first (units "s1") (units "#r2") (units "#r3") 100 110 signed_in ann refl

refresh-refresh_example :
    ((refresh plain
        (units "r1")
        (units "r3")
        200
        (refresh plain (units "r1") (units "r2") 100 signed_in).0).1
      ≡ err unauthorized)
    × (is_ended
          (units "s1")
          (refresh plain
            (units "r1")
            (units "r3")
            200
            (refresh plain (units "r1") (units "r2") 100 signed_in).0).0
        ≡ true)
refresh-refresh_example =
    refresh-refresh plain (units "r1") (units "r2") (units "r3") 100 200 signed_in second
      refresh_gives
