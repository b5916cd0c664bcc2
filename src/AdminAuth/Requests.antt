-- ===== src/AdminAuth/Requests.antt =====
-- The requests that src/admin-auth/ serves, one after the other.
use bom_media_api.Common.{ℕ, Bool, List, [], ◌∷◌, Text}
use bom_media_api.AdminAuth.Tables.{Db}
use bom_media_api.AdminAuth.Base.{Env}
use bom_media_api.AdminAuth.Login.{login}
use bom_media_api.AdminAuth.Refresh.{refresh}
use bom_media_api.AdminAuth.Passwords.{change_own_password}
use bom_media_api.AdminAuth.Guard.{Payload, logout_session, revoke_own_session, can_activate}

pub data Request : Type 0 where
  login_request : Text → Text → Text → Text → Request
  refresh_request : Text → Text → Request
  logout_request : Text → Text → Request
  password_request : Text → Text → Text → Bool → Request
  revoke_request : Text → Text → Text → Request
  guarded_request : Payload → Bool → Request

-- A request, at its time.
unfoldable pub serve : Env → Request → ℕ → Db → Db
serve env (login_request username password session raw) now db =
    (login env username password session raw now db).0
serve env (refresh_request raw new_raw) now db = (refresh env raw new_raw now db).0
serve env (logout_request admin session) now db = logout_session admin session now db
serve env (password_request admin current new_password stable) now db =
    (change_own_password env admin current new_password stable now db).0
serve env (revoke_request admin current session) now db =
    (revoke_own_session admin current session now db).0
serve env (guarded_request p allowed) now db = (can_activate p allowed now db).0

unfoldable pub serve_all : Env → List (Request × ℕ) → Db → Db
unfolding serve
serve_all env [] db = db
serve_all env ((r, now) ∷ rs) db = serve_all env rs (serve env r now db)
