-- ===== src/Accounts/Versions.antt =====
-- src/admin-accounts/admin-accounts.service.ts: `expectedUpdatedAt`, the version of an account that a
-- request was made for.
use bom_media_api.Common.{
  ℕ, ◌≡◌, ◌≢◌, ◌<◌, inl, inr, refl, ap, sym, ◌∙◌, Bool, true, false, not, Option, none, some, ◌==◌,
  is_some, Text, text_eq_iff, arith, Option-cases,
}
use bom_media_api.AdminAuth.Tables.{AccountStatus, RevokedReason, role_change, password_reset}
use bom_media_api.Accounts.{
  AdminRole, Account, Db, Result, done, Loaded, refused, target, is_version, find_account,
  update_accounts, audit, revoke_target_sessions, load_mutable_target, update_target, on_target,
  set_role, set_status, set_password, delete_target, change_role_tx, change_status_tx,
  reset_password_tx, delete_tx, revoke_if_disabled, role_changed, status_changed,
  password_reset_action, logical_delete,
}
use bom_media_api.Accounts.Requests.{
  Tx, role_tx, status_tx, sessions_tx, password_tx, deletion_tx, creation_tx, run_tx,
}
use bom_media_api.Accounts.Owners.{find_account-update_accounts, find_account_id}

-- The account and the version that a transaction is for, if it names a version.
abbrev pub version_of : Tx → Option (Text × ℕ)
version_of (role_tx actor id role expected) = some (id, expected)
version_of (status_tx actor id status expected) = some (id, expected)
version_of (sessions_tx actor id) = none
version_of (password_tx actor id hash expires expected) = some (id, expected)
version_of (deletion_tx actor id confirmed hash expected) = some (id, expected)
version_of (creation_tx actor id username role hash expires) = none

-- The account is not at the version.
abbrev is_off : ℕ → Option Account → Bool
is_off v none = true
is_off v (some a) = not (a.updated_at == v)

abbrev is_stale : Text → ℕ → Db → Bool
is_stale id v db = is_off v (find_account id db.accounts)

load_mutable_target-live :
    (actor_id target_id : Text) (db : Db) (t : Account)
    → load_mutable_target actor_id target_id db ≡ target t
    → (find_account target_id db.accounts ≡ some t) × (is_some t.deleted_at ≡ false)
unfolding load_mutable_target
load_mutable_target-live actor_id target_id db t h =
    elim (Option-cases (find_account target_id db.accounts)) [
      | inl e ↦ ground (arith, e)
      | inr (a, e) ↦ ground (arith, e)
    ]

-- What is done on a target that was loaded is known from its body.
on_target-cases :
    (actor : Account) (id : Text) (body : Account → Db → Db × Result) (db : Db)
    → (on_target actor id body db).1 ≡ done
    → (t : Account) × (find_account id db.accounts ≡ some t)
      × (is_some t.deleted_at ≡ false)
      × (t.id ≡ id)
      × (on_target actor id body db ≡ body t db)
unfolding on_target
on_target-cases actor id body db h = go (load_mutable_target actor.id id db) refl
  where
    go :
        (l : Loaded)
        → load_mutable_target actor.id id db ≡ l
        → (t : Account) × (find_account id db.accounts ≡ some t)
          × (is_some t.deleted_at ≡ false)
          × (t.id ≡ id)
          × (on_target actor id body db ≡ body t db)
    go (refused e) q = ground (arith, q, h)
    go (target t) q =
        let (e, live) = load_mutable_target-live actor.id id db t q in
        (t, e, live, find_account_id id db.accounts t e, ground (arith, q, h))

module _ (id : Text) (v : ℕ) (change : Account → Account) (now : ℕ) (after : Db → Db)
    (keep : (a : Account) → (change a).id ≡ a.id)
    (accounts_stay : (d : Db) → (after d).accounts ≡ d.accounts) where
  update_target-stale :
      (db : Db) (t : Account)
      → find_account id db.accounts ≡ some t
      → is_some t.deleted_at ≡ false
      → t.id ≡ id
      → (t.updated_at == v) ≡ true
      → (now == v) ≡ false
      → (update_target id v change now after db).1 ≡ done
      → is_stale id v (update_target id v change now after db).0 ≡ true
  unfolding update_target
  update_target-stale db t e live i at later h = ground (
    arith,
    e,
    find_account-update_accounts id v change now keep db.accounts id,
    accounts_stay
        (record db { accounts = update_accounts (is_version id v) change now db.accounts }),
    text_eq_iff t.id id,
  )

-- A transaction that is done when the target is at the version, by the guarded update, is done only at
-- that version, and moves the account off it.
abbrev OneStep : Text → ℕ → ℕ → Db → Db × Result → Type 0
OneStep id v now db r =
    r.1 ≡ done → (is_stale id v db ≡ false) × ((now == v) ≡ false → is_stale id v r.0 ≡ true)

on_target-OneStep :
    (actor : Account) (id : Text) (v now : ℕ) (db : Db) (body : Account → Db → Db × Result)
    → (change : Account → Account) (after : Account → Db → Db)
    → ((a : Account) → (change a).id ≡ a.id)
    → ((t : Account) (d : Db) → (after t d).accounts ≡ d.accounts)
    → ((t : Account)
        → (body t db).1 ≡ done
        → ((t.updated_at == v) ≡ true) × (body t db ≡ update_target t.id v change now (after t) db))
    → OneStep id v now db (on_target actor id body db)
on_target-OneStep actor id v now db body change after keep stay form h =
    let (t, e, live, i, q) = on_target-cases actor id body db h in
    let (at, same) = form t (sym (ap (λ r. r.1) q) ∙ h) in
    let found = ap (λ x. find_account x db.accounts) i ∙ e in
    let finished = sym (ap (λ r. r.1) same) ∙ sym (ap (λ r. r.1) q) ∙ h in
    (
      ground (arith, e, at),
      λ later.
          ap (λ r. is_stale id v r.0) (q ∙ same)
          ∙ ap (λ x. is_stale x v (update_target t.id v change now (after t) db).0) (sym i)
          ∙ update_target-stale t.id v change now (after t) keep (stay t) db t found live refl at
              later finished,
    )

module _ (actor : Account) (id : Text) (v now : ℕ) (db : Db) where
  change_role_tx-OneStep :
      (role : AdminRole) → OneStep id v now db (change_role_tx actor id role v now db)
  unfolding change_role_tx set_role revoke_target_sessions
  change_role_tx-OneStep role =
      on_target-OneStep actor id v now db (set_role actor role v now)
        (λ a. record a { role = role })
        (λ t d. audit actor.id role_changed (revoke_target_sessions t.id role_change now d))
        (λ _. refl) (λ _ _. refl) (λ t h. ground (arith, h))

  change_status_tx-OneStep :
      (status : AccountStatus) → OneStep id v now db (change_status_tx actor id status v now db)
  unfolding change_status_tx set_status revoke_target_sessions
  change_status_tx-OneStep status =
      on_target-OneStep actor id v now db (set_status actor status v now)
        (λ a. record a { status = status })
        (λ t d. audit actor.id status_changed (revoke_if_disabled status t.id now d)) (λ _. refl)
        (stays status) (λ t h. ground (arith, h))
    where
      stays :
          (s : AccountStatus) (t : Account) (d : Db)
          → (revoke_if_disabled s t.id now d).accounts ≡ d.accounts
      stays AccountStatus.active t d = refl
      stays AccountStatus.disabled t d = refl

  reset_password_tx-OneStep :
      (hash : Text) (expires : ℕ)
      → OneStep id v now db (reset_password_tx actor id hash expires v now db)
  unfolding reset_password_tx set_password revoke_target_sessions
  reset_password_tx-OneStep hash expires =
      on_target-OneStep actor id v now db (set_password actor hash expires v now)
        (λ a. record a {
          password_hash = hash;
          must_change_password = true;
          temporary_password_expires_at = some expires;
        })
        (λ t d.
          audit actor.id password_reset_action (revoke_target_sessions t.id password_reset now d))
        (λ _. refl) (λ _ _. refl) (λ t h. ground (arith, h))

  delete_tx-OneStep :
      (confirmed hash : Text) → OneStep id v now db (delete_tx actor id confirmed hash v now db)
  unfolding delete_tx delete_target revoke_target_sessions
  delete_tx-OneStep confirmed hash =
      on_target-OneStep actor id v now db (delete_target actor confirmed hash v now)
        (λ a. record a {
          status = AccountStatus.disabled;
          deleted_at = some now;
          password_hash = hash;
          must_change_password = false;
          temporary_password_expires_at = none;
        })
        (λ t d.
          audit actor.id logical_delete
            (revoke_target_sessions t.id RevokedReason.account_deleted now d))
        (λ _. refl) (λ _ _. refl) (λ t h. ground (arith, h))

run_tx-OneStep :
    (tx : Tx) (id : Text) (v now : ℕ) (db : Db)
    → version_of tx ≡ some (id, v)
    → OneStep id v now db (run_tx tx now db)
unfolding run_tx
run_tx-OneStep (role_tx actor i role w) id v now db e h =
    ground (arith, e, h, change_role_tx-OneStep actor i w now db role)
run_tx-OneStep (status_tx actor i status w) id v now db e h =
    ground (arith, e, h, change_status_tx-OneStep actor i w now db status)
run_tx-OneStep (sessions_tx actor i) id v now db e h = ground (arith, e)
run_tx-OneStep (password_tx actor i hash expires w) id v now db e h =
    ground (arith, e, h, reset_password_tx-OneStep actor i w now db hash expires)
run_tx-OneStep (deletion_tx actor i confirmed hash w) id v now db e h =
    ground (arith, e, h, delete_tx-OneStep actor i w now db confirmed hash)
run_tx-OneStep (creation_tx actor i username role hash expires) id v now db e h = ground (arith, e)

-- Two changes of an account that were made for the same version of it are not both done: if one is
-- done, in a later millisecond than that of the version, the other, right after it, is not.
pub run_tx-run_tx :
    (tx other : Tx) (id : Text) (v now later : ℕ) (db : Db)
    → version_of tx ≡ some (id, v)
    → version_of other ≡ some (id, v)
    → v < now
    → (run_tx tx now db).1 ≡ done
    → (run_tx other later (run_tx tx now db).0).1 ≢ done
run_tx-run_tx tx other id v now later db e f l h k = ground (
  arith,
  (run_tx-OneStep tx id v now db e h).1 (ground (arith, l)),
  (run_tx-OneStep other id v later (run_tx tx now db).0 f k).0,
)
