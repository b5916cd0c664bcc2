-- ===== src/AdminAuth/Queries.antt =====
-- What an update of a table changes for a later look-up of src/admin-auth/.
use bom_media_api.Common.{
  ℕ, ◌≡◌, refl, Bool, Option, none, some, List, [], ◌∷◌, arith, if◌then◌else◌, Text, text_eq_iff,
}
use bom_media_api.AdminAuth.Tables.{
  Admin, find_admin, Session, Token, find_session, find_token, revoke_tokens, update_sessions,
}

abbrev pub revoked_token : ℕ → Token → Token
revoked_token now t = record t { revoked_at = some now }

abbrev pub change_if {ℓ} : {A : Type ℓ} → (A → Bool) → (A → A) → Option A → Option A
change_if test change none = none
change_if test change (some a) = if test a then some (change a) else some a

pub find_token-revoke_tokens :
    (hash : Text) (test : Token → Bool) (now : ℕ) (ts : List Token)
    → find_token hash (revoke_tokens test now ts)
      ≡ change_if test (revoked_token now) (find_token hash ts)
unfolding find_token revoke_tokens
find_token-revoke_tokens hash test now [] = refl
find_token-revoke_tokens hash test now (t ∷ ts) =
    ground (arith, find_token-revoke_tokens hash test now ts)

module _ (test : Session → Bool) (change : Session → Session) where
  pub find_session-update_sessions :
      ((s : Session) → (change s).id ≡ s.id)
      → (id : Text) (ss : List Session)
      → find_session id (update_sessions test change ss)
        ≡ change_if test change (find_session id ss)
  unfolding find_session update_sessions
  find_session-update_sessions keep id [] = refl
  find_session-update_sessions keep id (s ∷ ss) =
      ground (arith, find_session-update_sessions keep id ss, keep s)

pub find_session_id :
    (id : Text) (ss : List Session) (s : Session) → find_session id ss ≡ some s → s.id ≡ id
unfolding find_session
find_session_id id [] s e = cc
find_session_id id (x ∷ ss) s e = ground (arith, find_session_id id ss s, text_eq_iff x.id id)

pub find_token_hash :
    (hash : Text) (ts : List Token) (t : Token) → find_token hash ts ≡ some t → t.token_hash ≡ hash
unfolding find_token
find_token_hash hash [] t e = cc
find_token_hash hash (x ∷ ts) t e =
    ground (arith, find_token_hash hash ts t, text_eq_iff x.token_hash hash)

pub find_admin_id :
    (id : Text) (as' : List Admin) (a : Admin) → find_admin id as' ≡ some a → a.id ≡ id
unfolding find_admin
find_admin_id id [] a e = cc
find_admin_id id (x ∷ as') a e = ground (arith, find_admin_id id as' a, text_eq_iff x.id id)
