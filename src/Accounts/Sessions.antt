-- ===== src/Accounts/Sessions.antt =====
-- src/admin-accounts/admin-accounts.service.ts: what becomes of the sessions of the account that a
-- request is about.
use bom_media_api.Common.{
  ℕ, ◌≡◌, inl, inr, refl, ap, Bool, true, false, ◌&&◌, ◌||◌, not, Option, none, some, List, [], ◌∷◌,
  ◌==◌, is_some, count, all, Text, text_eq, arith, Bool-cases,
}
use bom_media_api.AdminAuth.Tables.{
  AccountStatus, Session, Token, RevokedReason, is_of_admin, revoke_tokens, revoke_sessions,
  update_sessions, role_change, account_disabled, owner_revoke_all, password_reset,
}
use bom_media_api.Accounts.{
  AdminRole, Account, Db, Result, done, Loaded, refused, target, is_version, update_accounts, audit,
  revoke_target_sessions, load_mutable_target, update_target, on_target, set_role, set_status,
  end_sessions, set_password, delete_target, change_role_tx, change_status_tx, revoke_sessions_tx,
  reset_password_tx, delete_tx, revoke_if_disabled, role_changed, status_changed,
  password_reset_action, logical_delete,
}
use bom_media_api.Accounts.Requests.{
  Tx, role_tx, status_tx, sessions_tx, password_tx, deletion_tx, creation_tx, run_tx,
}
use bom_media_api.Accounts.Owners.{load_mutable_target-target, find_account_id}

-- No session and no refresh token of the admin is live.
abbrev pub is_signed_out : Text → Db → Bool
is_signed_out id db =
    all (λ s. not (text_eq s.admin_id id) || is_some s.revoked_at) db.sessions
    && all (λ t. not (text_eq t.admin_id id) || is_some t.revoked_at) db.tokens

revoke_tokens-all :
    (id : Text) (now : ℕ) (ts : List Token)
    → all
        (λ t. not (text_eq t.admin_id id) || is_some t.revoked_at)
        (revoke_tokens (is_of_admin id) now ts)
      ≡ true
unfolding revoke_tokens
revoke_tokens-all id now [] = refl
revoke_tokens-all id now (t ∷ ts) = ground (arith, revoke_tokens-all id now ts)

revoke_sessions-all :
    (id : Text) (reason : RevokedReason) (now : ℕ) (ss : List Session)
    → all
        (λ s. not (text_eq s.admin_id id) || is_some s.revoked_at)
        (revoke_sessions id reason now ss)
      ≡ true
unfolding revoke_sessions update_sessions
revoke_sessions-all id reason now [] = refl
revoke_sessions-all id reason now (s ∷ ss) = ground (arith, revoke_sessions-all id reason now ss)

revoke_target_sessions-is_signed_out :
    (id : Text) (reason : RevokedReason) (now : ℕ) (db : Db)
    → is_signed_out id (revoke_target_sessions id reason now db) ≡ true
unfolding revoke_target_sessions
revoke_target_sessions-is_signed_out id reason now db =
    ground
      (arith, revoke_tokens-all id now db.tokens, revoke_sessions-all id reason now db.sessions)

update_target-is_signed_out :
    (id : Text) (expected : ℕ) (change : Account → Account) (now : ℕ) (after : Db → Db) (db : Db)
    → ((d : Db) → is_signed_out id (after d) ≡ true)
    → (update_target id expected change now after db).1 ≡ done
    → is_signed_out id (update_target id expected change now after db).0 ≡ true
unfolding update_target
update_target-is_signed_out id expected change now after db ends h =
    elim (Bool-cases (count (is_version id expected) db.accounts == 1)) [
      | inl e ↦ ground (
        arith,
        e,
        ends (record db {
          accounts = update_accounts (is_version id expected) change now db.accounts;
        }),
      )
      | inr e ↦ ground (arith, e)
    ]

-- A transaction signs its target out if its body does.
on_target-is_signed_out :
    (actor : Account) (target_id : Text) (body : Account → Db → Db × Result) (db : Db)
    → ((t : Account) → (body t db).1 ≡ done → is_signed_out t.id (body t db).0 ≡ true)
    → (on_target actor target_id body db).1 ≡ done
    → is_signed_out target_id (on_target actor target_id body db).0 ≡ true
unfolding on_target
on_target-is_signed_out actor target_id body db signs h =
    go (load_mutable_target actor.id target_id db) refl
  where
    go :
        (l : Loaded)
        → load_mutable_target actor.id target_id db ≡ l
        → is_signed_out target_id (on_target actor target_id body db).0 ≡ true
    go (refused e) q = ground (arith, q, h)
    go (target t) q =
        let (e, n) = load_mutable_target-target actor.id target_id db t q in
        let same = find_account_id target_id db.accounts t e in
        let moved = ap (λ x. is_signed_out x (body t db).0) same in
        let signed = signs t in ground (arith, q, h, moved, signed)

-- The account that a transaction signs out when it is done: each but that of a new account and of
-- one that is enabled.
abbrev pub disabled_id : AccountStatus → Text → Option Text
disabled_id AccountStatus.active id = none
disabled_id AccountStatus.disabled id = some id

abbrev pub signs_out : Tx → Option Text
signs_out (role_tx actor id role expected) = some id
signs_out (status_tx actor id status expected) = disabled_id status id
signs_out (sessions_tx actor id) = some id
signs_out (password_tx actor id hash expires expected) = some id
signs_out (deletion_tx actor id confirmed hash expected) = some id
signs_out (creation_tx actor id username role hash expires) = none

change_role_tx-is_signed_out :
    (actor : Account) (id : Text) (role : AdminRole) (expected now : ℕ) (db : Db)
    → (change_role_tx actor id role expected now db).1 ≡ done
    → is_signed_out id (change_role_tx actor id role expected now db).0 ≡ true
unfolding change_role_tx set_role
change_role_tx-is_signed_out actor id role expected now db =
    on_target-is_signed_out actor id (set_role actor role expected now) db (λ t h. ground (
      arith,
      h,
      update_target-is_signed_out t.id expected (λ a. record a { role = role }) now
          (λ d. audit actor.id role_changed (revoke_target_sessions t.id role_change now d)) db
          (revoke_target_sessions-is_signed_out t.id role_change now),
    ))

change_status_tx-is_signed_out :
    (actor : Account) (id : Text) (expected now : ℕ) (db : Db)
    → (change_status_tx actor id AccountStatus.disabled expected now db).1 ≡ done
    → is_signed_out id (change_status_tx actor id AccountStatus.disabled expected now db).0 ≡ true
unfolding change_status_tx set_status
change_status_tx-is_signed_out actor id expected now db =
    on_target-is_signed_out actor id (set_status actor AccountStatus.disabled expected now) db
      (λ t h. ground (
        arith,
        h,
        update_target-is_signed_out t.id expected
            (λ a. record a { status = AccountStatus.disabled }) now
            (λ d.
              audit actor.id status_changed (revoke_if_disabled AccountStatus.disabled t.id now d))
            db (revoke_target_sessions-is_signed_out t.id account_disabled now),
      ))

revoke_sessions_tx-is_signed_out :
    (actor : Account) (id : Text) (now : ℕ) (db : Db)
    → (revoke_sessions_tx actor id now db).1 ≡ done
    → is_signed_out id (revoke_sessions_tx actor id now db).0 ≡ true
unfolding revoke_sessions_tx end_sessions
revoke_sessions_tx-is_signed_out actor id now db =
    on_target-is_signed_out actor id (end_sessions actor now) db
      (λ t _. revoke_target_sessions-is_signed_out t.id owner_revoke_all now db)

reset_password_tx-is_signed_out :
    (actor : Account) (id hash : Text) (expires expected now : ℕ) (db : Db)
    → (reset_password_tx actor id hash expires expected now db).1 ≡ done
    → is_signed_out id (reset_password_tx actor id hash expires expected now db).0 ≡ true
unfolding reset_password_tx set_password
reset_password_tx-is_signed_out actor id hash expires expected now db =
    on_target-is_signed_out actor id (set_password actor hash expires expected now) db (λ t h.
      ground (
        arith,
        h,
        update_target-is_signed_out t.id expected
            (λ a. record a {
              password_hash = hash;
              must_change_password = true;
              temporary_password_expires_at = some expires;
            })
            now
            (λ d.
              audit actor.id password_reset_action
                (revoke_target_sessions t.id password_reset now d))
            db (revoke_target_sessions-is_signed_out t.id password_reset now),
      ))

delete_tx-is_signed_out :
    (actor : Account) (id confirmed hash : Text) (expected now : ℕ) (db : Db)
    → (delete_tx actor id confirmed hash expected now db).1 ≡ done
    → is_signed_out id (delete_tx actor id confirmed hash expected now db).0 ≡ true
unfolding delete_tx delete_target
delete_tx-is_signed_out actor id confirmed hash expected now db =
    on_target-is_signed_out actor id (delete_target actor confirmed hash expected now) db (λ t h.
      ground (
        arith,
        h,
        update_target-is_signed_out t.id expected
            (λ a. record a {
              status = AccountStatus.disabled;
              deleted_at = some now;
              password_hash = hash;
              must_change_password = false;
              temporary_password_expires_at = none;
            })
            now
            (λ d.
              audit actor.id logical_delete
                (revoke_target_sessions t.id RevokedReason.account_deleted now d))
            db (revoke_target_sessions-is_signed_out t.id RevokedReason.account_deleted now),
      ))

-- A change of role, a disabling, a revocation, a password reset or a deletion that is done leaves no
-- session and no refresh token of its target live.
pub run_tx-is_signed_out :
    (tx : Tx) (now : ℕ) (db : Db) (id : Text)
    → signs_out tx ≡ some id
    → (run_tx tx now db).1 ≡ done
    → is_signed_out id (run_tx tx now db).0 ≡ true
unfolding run_tx
run_tx-is_signed_out (role_tx actor i role expected) now db id e h =
    ground (arith, e, h, change_role_tx-is_signed_out actor i role expected now db)
run_tx-is_signed_out (status_tx actor i AccountStatus.active expected) now db id e h =
    ground (arith, e)
run_tx-is_signed_out (status_tx actor i AccountStatus.disabled expected) now db id e h =
    ground (arith, e, h, change_status_tx-is_signed_out actor i expected now db)
run_tx-is_signed_out (sessions_tx actor i) now db id e h =
    ground (arith, e, h, revoke_sessions_tx-is_signed_out actor i now db)
run_tx-is_signed_out (password_tx actor i hash expires expected) now db id e h =
    ground (arith, e, h, reset_password_tx-is_signed_out actor i hash expires expected now db)
run_tx-is_signed_out (deletion_tx actor i confirmed hash expected) now db id e h =
    ground (arith, e, h, delete_tx-is_signed_out actor i confirmed hash expected now db)
run_tx-is_signed_out (creation_tx actor i username role hash expires) now db id e h =
    ground (arith, e)
