-- ===== src/AdminAuth/Claim.antt =====
-- src/admin-auth/admin-auth.service.ts, the transaction of refresh: a refresh token is claimed once.
use bom_media_api.Common.{
  ℕ, ◌≡◌, refl, false, none, List, [], ◌∷◌, arith, Text, text_eq, text_eq_iff, Option-cases, inl,
  inr, count,
}
use bom_media_api.AdminAuth.Tables.{Db, Admin, Token, find_token, find_admin, revoke_tokens}
use bom_media_api.AdminAuth.Base.{Env}
use bom_media_api.AdminAuth.Refresh.{replay, rotated, is_claimable, after_claim, rotate}

-- None of the rows that an update revokes is live after it.
count-revoke_tokens :
    (read : Token) (session : Text) (now : ℕ) (ts : List Token)
    → count (is_claimable read session) (revoke_tokens (is_claimable read session) now ts) ≡ 0
unfolding revoke_tokens
count-revoke_tokens read session now [] = refl
count-revoke_tokens read session now (t ∷ ts) =
    ground (arith, count-revoke_tokens read session now ts)

-- A digest that no row has is not that of a claimed row.
count-find_token :
    (read : Token) (session hash : Text) (ts : List Token)
    → find_token hash ts ≡ none
    → count (is_claimable read session) ts ≡ 1
    → text_eq hash read.token_hash ≡ false
unfolding find_token
count-find_token read session hash [] e k = ground arith
count-find_token read session hash (t ∷ ts) e k = ground (
  arith,
  count-find_token read session hash ts,
  text_eq_iff t.token_hash hash,
  text_eq_iff hash read.token_hash,
  text_eq_iff t.token_hash read.token_hash,
)

after_claim-count :
    (env : Env) (read : Token) (session hash : Text) (now : ℕ) (db : Db) (a : Admin)
    → text_eq hash read.token_hash ≡ false
    → count (is_claimable read session) db.tokens ≡ 0
    → (after_claim env read session hash now db).1 ≡ rotated a
    → count (is_claimable read session) (after_claim env read session hash now db).0.tokens ≡ 0
unfolding after_claim
after_claim-count env read session hash now db a n c r =
    elim (Option-cases (find_admin read.admin_id db.admins)) [
      | inl e ↦ ground (arith, e)
      | inr (x, e) ↦ ground (arith, e)
    ]

-- Two requests that read the same refresh token do not both rotate it: when the transaction of one
-- has rotated it, the transaction of the other, run right after it, reports a replay and changes
-- nothing.
pub rotate-rotate :
    (env : Env) (read : Token) (session hash other : Text) (now later : ℕ) (db : Db) (a : Admin)
    → (rotate env read session hash now db).1 ≡ rotated a
    → rotate env read session other later (rotate env read session hash now db).0
      ≡ ((rotate env read session hash now db).0, replay)
unfolding rotate
rotate-rotate env read session hash other now later db a r = ground (
  arith,
  after_claim-count env read session hash now
      (record db { tokens = revoke_tokens (is_claimable read session) now db.tokens }) a,
  count-revoke_tokens read session now db.tokens,
  count-find_token read session hash db.tokens,
  Option-cases (find_token hash db.tokens),
)
