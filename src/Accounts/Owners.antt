-- ===== src/Accounts/Owners.antt =====
-- src/admin-accounts/admin-accounts.service.ts: owners are out of the reach of every request.
use bom_media_api.Common.{
  ℕ, ◌≡◌, inl, inr, refl, ap, ◌∙◌, true, false, Option, none, some, List, [], ◌∷◌, if◌then◌else◌,
  Text, text_eq, text_eq_iff, arith, Bool-cases, Option-cases,
}
use bom_media_api.AdminAuth.Tables.{AccountStatus, RevokedReason, role_change, password_reset}
use bom_media_api.Accounts.{
  AdminRole, Account, Db, Result, Loaded, refused, target, is_owner, is_version, find_account,
  update_accounts, audit, revoke_target_sessions, load_mutable_target, update_target, on_target,
  set_role, set_status, end_sessions, set_password, delete_target, change_role_tx, change_status_tx,
  revoke_sessions_tx, reset_password_tx, delete_tx, create_tx, revoke_if_disabled, role_changed,
  status_changed, password_reset_action, logical_delete,
}
use bom_media_api.Accounts.Requests.{
  Tx, role_tx, status_tx, sessions_tx, password_tx, deletion_tx, creation_tx, run_tx, run_all,
}

-- The owner's row under an id, if the row is an owner's.
abbrev if_owner : Option Account → Option Account
if_owner none = none
if_owner (some a) = if is_owner a.role then some a else none

abbrev pub owner_of : Text → Db → Option Account
owner_of id db = if_owner (find_account id db.accounts)

-- An update of rows with another id, or that makes no owner of a row that is none.
abbrev pub changed : Text → ℕ → (Account → Account) → ℕ → Option Account → Option Account
changed id expected change now none = none
changed id expected change now (some a) =
    if is_version id expected a then some (record (change a) { updated_at = now }) else some a

pub find_account-update_accounts :
    (id : Text) (expected : ℕ) (change : Account → Account) (now : ℕ)
    → ((a : Account) → (change a).id ≡ a.id)
    → (as' : List Account) (j : Text)
    → find_account j (update_accounts (is_version id expected) change now as')
      ≡ changed id expected change now (find_account j as')
unfolding find_account update_accounts
find_account-update_accounts id expected change now keep [] j = refl
find_account-update_accounts id expected change now keep (a ∷ as') j =
    ground (arith, find_account-update_accounts id expected change now keep as' j, keep a)

pub find_account_id :
    (id : Text) (as' : List Account) (a : Account) → find_account id as' ≡ some a → a.id ≡ id
unfolding find_account
find_account_id id [] a e = cc
find_account_id id (x ∷ as') a e = ground (arith, find_account_id id as' a, text_eq_iff x.id id)

-- The target of a transaction is no owner.
pub load_mutable_target-target :
    (actor_id target_id : Text) (db : Db) (t : Account)
    → load_mutable_target actor_id target_id db ≡ target t
    → (find_account target_id db.accounts ≡ some t) × (is_owner t.role ≡ false)
unfolding load_mutable_target
load_mutable_target-target actor_id target_id db t h =
    elim (Option-cases (find_account target_id db.accounts)) [
      | inl e ↦ ground (arith, e)
      | inr (a, e) ↦ ground (arith, e)
    ]

-- An update of a target that is no owner, to what is no owner, leaves the owners.
module _ (id : Text) (expected : ℕ) (change : Account → Account) (now : ℕ) (after : Db → Db)
    (keep : (a : Account) → (change a).id ≡ a.id)
    (humble : (a : Account) → is_owner a.role ≡ false → is_owner (change a).role ≡ false)
    (accounts_stay : (d : Db) → (after d).accounts ≡ d.accounts) where
  update_target-owner_of :
      (db : Db) (t : Account) (j : Text)
      → find_account id db.accounts ≡ some t
      → is_owner t.role ≡ false
      → owner_of j (update_target id expected change now after db).0 ≡ owner_of j db
  unfolding update_target
  update_target-owner_of db t j e n = elim (Option-cases (find_account j db.accounts)) [
    | inl f ↦ ground (arith, f, found, stay)
    | inr (a, f) ↦ ground (
      arith,
      f,
      e,
      n,
      found,
      stay,
      find_account_id j db.accounts a f,
      text_eq_iff a.id id,
      same j,
      humble a,
    )
  ]
    where
      found :
          find_account j (update_accounts (is_version id expected) change now db.accounts)
          ≡ changed id expected change now (find_account j db.accounts)
      found = find_account-update_accounts id expected change now keep db.accounts j

      stay :
          (after (record db {
            accounts = update_accounts (is_version id expected) change now db.accounts;
          })).accounts
          ≡ update_accounts (is_version id expected) change now db.accounts
      stay =
          accounts_stay (record db {
            accounts = update_accounts (is_version id expected) change now db.accounts;
          })

      same : (k : Text) → k ≡ id → find_account k db.accounts ≡ some t
      same k q = ap (λ x. find_account x db.accounts) q ∙ e

-- A transaction leaves the owners if what it does with a target that is none leaves them.
on_target-owner_of :
    (actor : Account) (target_id : Text) (body : Account → Db → Db × Result) (db : Db) (j : Text)
    → ((t : Account)
        → find_account t.id db.accounts ≡ some t
        → is_owner t.role ≡ false
        → owner_of j (body t db).0 ≡ owner_of j db)
    → owner_of j (on_target actor target_id body db).0 ≡ owner_of j db
unfolding on_target
on_target-owner_of actor target_id body db j leaves =
    go (load_mutable_target actor.id target_id db) refl
  where
    go :
        (l : Loaded)
        → load_mutable_target actor.id target_id db ≡ l
        → owner_of j (on_target actor target_id body db).0 ≡ owner_of j db
    go (refused e) q = ground (arith, q)
    go (target t) q =
        let (e, n) = load_mutable_target-target actor.id target_id db t q in
        let found =
          ap (λ x. find_account x db.accounts) (find_account_id target_id db.accounts t e) ∙ e in
        let left = leaves t found n in ground (arith, q, left)

change_role_tx-owner_of :
    (actor : Account) (id : Text) (role : AdminRole) (expected now : ℕ) (db : Db) (j : Text)
    → is_owner role ≡ false
    → owner_of j (change_role_tx actor id role expected now db).0 ≡ owner_of j db
unfolding change_role_tx set_role revoke_target_sessions
change_role_tx-owner_of actor id role expected now db j m =
    on_target-owner_of actor id (set_role actor role expected now) db j (λ t e n. ground (
      arith,
      update_target-owner_of t.id expected (λ a. record a { role = role }) now
          (λ d. audit actor.id role_changed (revoke_target_sessions t.id role_change now d))
          (λ _. refl) (λ _ _. m) (λ _. refl) db t j e n,
    ))

change_status_tx-owner_of :
    (actor : Account) (id : Text) (status : AccountStatus) (expected now : ℕ) (db : Db) (j : Text)
    → owner_of j (change_status_tx actor id status expected now db).0 ≡ owner_of j db
unfolding change_status_tx set_status revoke_target_sessions
change_status_tx-owner_of actor id status expected now db j =
    on_target-owner_of actor id (set_status actor status expected now) db j (λ t e n. ground (
      arith,
      update_target-owner_of t.id expected (λ a. record a { status = status }) now
          (λ d. audit actor.id status_changed (revoke_if_disabled status t.id now d)) (λ _. refl)
          (λ _ k. k) (stays status t.id) db t j e n,
    ))
  where
    stays :
        (s : AccountStatus) (i : Text) (d : Db)
        → (revoke_if_disabled s i now d).accounts ≡ d.accounts
    stays AccountStatus.active i d = refl
    stays AccountStatus.disabled i d = refl

revoke_sessions_tx-owner_of :
    (actor : Account) (id : Text) (now : ℕ) (db : Db) (j : Text)
    → owner_of j (revoke_sessions_tx actor id now db).0 ≡ owner_of j db
unfolding revoke_sessions_tx end_sessions revoke_target_sessions
revoke_sessions_tx-owner_of actor id now db j =
    on_target-owner_of actor id (end_sessions actor now) db j (λ _ _ _. refl)

reset_password_tx-owner_of :
    (actor : Account) (id hash : Text) (expires expected now : ℕ) (db : Db) (j : Text)
    → owner_of j (reset_password_tx actor id hash expires expected now db).0 ≡ owner_of j db
unfolding reset_password_tx set_password revoke_target_sessions
reset_password_tx-owner_of actor id hash expires expected now db j =
    on_target-owner_of actor id (set_password actor hash expires expected now) db j (λ t e n.
      ground (
        arith,
        update_target-owner_of t.id expected
            (λ a. record a {
              password_hash = hash;
              must_change_password = true;
              temporary_password_expires_at = some expires;
            })
            now
            (λ d.
              audit actor.id password_reset_action
                (revoke_target_sessions t.id password_reset now d))
            (λ _. refl) (λ _ k. k) (λ _. refl) db t j e n,
      ))

delete_tx-owner_of :
    (actor : Account) (id confirmed hash : Text) (expected now : ℕ) (db : Db) (j : Text)
    → owner_of j (delete_tx actor id confirmed hash expected now db).0 ≡ owner_of j db
unfolding delete_tx delete_target revoke_target_sessions
delete_tx-owner_of actor id confirmed hash expected now db j =
    on_target-owner_of actor id (delete_target actor confirmed hash expected now) db j (λ t e n.
      ground (
        arith,
        update_target-owner_of t.id expected
            (λ a. record a {
              status = AccountStatus.disabled;
              deleted_at = some now;
              password_hash = hash;
              must_change_password = false;
              temporary_password_expires_at = none;
            })
            now
            (λ d.
              audit actor.id logical_delete
                (revoke_target_sessions t.id RevokedReason.account_deleted now d))
            (λ _. refl) (λ _ k. k) (λ _. refl) db t j e n,
      ))

create_tx-owner_of :
    (actor : Account) (id username : Text) (role : AdminRole) (hash : Text) (expires now : ℕ)
    → (db : Db) (j : Text) → is_owner role ≡ false
    → owner_of j (create_tx actor id username role hash expires now db).0 ≡ owner_of j db
unfolding create_tx find_account
create_tx-owner_of actor id username role hash expires now db j m =
    elim (Option-cases (find_account id db.accounts)) [
      | inl e ↦ elim (Bool-cases (text_eq id j)) [
        | inl f ↦
            ground (arith, e, f, m, ap (λ x. find_account x db.accounts) ((text_eq_iff id j).0 f))
        | inr f ↦ ground (arith, e, f, m)
      ]
      | inr (a, e) ↦ ground (arith, e)
    ]

run_tx-owner_of :
    (tx : Tx) (now : ℕ) (db : Db) (j : Text) → owner_of j (run_tx tx now db).0 ≡ owner_of j db
unfolding run_tx
run_tx-owner_of (role_tx actor id role expected) now db j =
    ground (arith, change_role_tx-owner_of actor id role expected now db j)
run_tx-owner_of (status_tx actor id status expected) now db j =
    change_status_tx-owner_of actor id status expected now db j
run_tx-owner_of (sessions_tx actor id) now db j = revoke_sessions_tx-owner_of actor id now db j
run_tx-owner_of (password_tx actor id hash expires expected) now db j =
    reset_password_tx-owner_of actor id hash expires expected now db j
run_tx-owner_of (deletion_tx actor id confirmed hash expected) now db j =
    delete_tx-owner_of actor id confirmed hash expected now db j
run_tx-owner_of (creation_tx actor id username role hash expires) now db j =
    ground (arith, create_tx-owner_of actor id username role hash expires now db j)

-- Whatever transactions run, each with any row read for its actor, every id
-- belongs to the same owner as before, with each column as it was, or to no owner as before: no owner
-- is changed, disabled or deleted, and none is made.
pub run_all-owner_of :
    (txs : List (Tx × ℕ)) (db : Db) (id : Text) → owner_of id (run_all txs db) ≡ owner_of id db
unfolding run_all
run_all-owner_of [] db id = refl
run_all-owner_of ((tx, now) ∷ txs) db id =
    run_all-owner_of txs (run_tx tx now db).0 id ∙ run_tx-owner_of tx now db id
