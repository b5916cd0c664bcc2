-- ===== src/CanonicalLinks/Reuse.antt =====
-- src/admin-websites/canonical-share-link.service.ts: handing out a canonical link that exists, with
-- the checks that stand before it, and giving it a transport alias if it has none.
use bom_media_api.Common.{
  ℕ, zero, suc, Bool, true, false, ◌&&◌, not, Option, none, some, List, [], ◌∷◌, if◌then◌else◌,
  is_some, any, Text, text_eq, is_empty, trim,
}
use bom_media_api.ShareLinks.{is_active, is_revoked}
use bom_media_api.CanonicalLinks.Tables.{
  Db, Link, Domain, Canonical, transport_alias_backfill, find_canonical, find_link, find_domain,
  is_eligible, is_only,
}
use bom_media_api.CanonicalLinks.Outcome.{
  Env, Result, ok, err, ◌>>=◌, check, found, inactive, revoked, domain_unavailable,
  video_not_shareable, evidence_drift, not_found, contract, link_alias_missing, website_mismatch,
  membership_mismatch, has_expiry, has_max_views,
}
use bom_media_api.CanonicalLinks.Evidence.{compute_current_fingerprint}
use bom_media_api.CanonicalLinks.Response.{Kind, Response, to_response, reused}

-- A mapping with its link, which it cannot be without: the relation restricts deletion.
pub record Loaded : Type 0 where
  pub canonical : Canonical
  pub link : Link

abbrev with_link : Canonical → Option Link → Option Loaded
with_link c none = none
with_link c (some l) = some (record { canonical = c; link = l })

abbrev with_canonical : List Link → Option Canonical → Option Loaded
with_canonical ls none = none
with_canonical ls (some c) = with_link c (find_link c.share_link_id ls)

-- `loadCanonical`.
unfoldable pub load_canonical : Text → Text → Db → Option Loaded
unfolding find_canonical find_link
load_canonical website video db =
    with_canonical db.links (find_canonical website video db.canonicals)

abbrev pub is_blank : Option Text → Bool
is_blank none = true
is_blank (some s) = is_empty (trim s)

-- `assertAnchoredLinkHonoursContract`.
unfoldable pub assert_anchored_link_honours_contract : Loaded → Result (Unit {0})
unfolding trim text_eq
assert_anchored_link_honours_contract loaded =
    let record { canonical = c; link = l } = loaded in
    do
      _ ← check (not (is_blank l.alias)) (contract link_alias_missing)
      _ ← check (text_eq l.website_id c.website_id) (contract website_mismatch)
      _ ← check (is_only c.video_id l.video_ids) (contract membership_mismatch)
      _ ← check (not (is_some l.expires_at)) (contract has_expiry)
      check (not (is_some l.max_views)) (contract has_max_views)

abbrev is_of : Option Text → Text → Bool
is_of none id = false
is_of (some w) id = text_eq w id

abbrev pub is_domain_kept : Option Domain → Text → Canonical → Bool
is_domain_kept none website c = false
is_domain_kept (some d) website c =
    d.is_active && is_of d.website_id website && text_eq d.domain c.canonical_host_snapshot

abbrev pub is_drifted : Option Text → Text → Bool
is_drifted none current = false
is_drifted (some stored) current = not (text_eq current stored)

-- The row that the backfill may claim.
abbrev pub may_claim : Text → Link → Bool
may_claim id l = text_eq l.id id && not (is_some l.transport_alias) && is_active l.status

abbrev pub has_transport_alias : Text → Link → Bool
has_transport_alias alias l = is_of l.transport_alias alias

unfoldable pub claim_links : Text → Text → List Link → List Link
claim_links id alias [] = []
claim_links id alias (l ∷ ls) =
    (if may_claim id l then record l { transport_alias = some alias } else l)
    ∷ claim_links id alias ls

pub data Claim : Type 0 where
  collided missed claimed : Claim

-- The `updateMany` of `ensureTransportAlias`; the alias is unique.
unfoldable pub claim_transport_alias : Text → Text → Db → Db × Claim
unfolding claim_links text_eq
claim_transport_alias id alias db =
    if not (any (may_claim id) db.links)
    then (db, missed)
    else if any (has_transport_alias alias) db.links
    then (db, collided)
    else (record db { links = claim_links id alias db.links }, claimed)

-- A collision is tried again.
abbrev pub after_claim : Db × Claim → (Db → Db × Claim) → Db × Claim
after_claim (d, collided) again = again d
after_claim (d, missed) again = (d, missed)
after_claim (d, claimed) again = (d, claimed)

-- The attempts that are left, with the aliases they draw.
unfoldable pub claim_attempts : ℕ → ℕ → Text → (ℕ → Text) → Db → Db × Claim
unfolding claim_transport_alias
claim_attempts zero attempt id draw db = (db, collided)
claim_attempts (suc left) attempt id draw db =
    after_claim (claim_transport_alias id (draw attempt) db)
      (λ d. claim_attempts left (suc attempt) id draw d)

-- The audit row of a claim; its failure to be written is ignored by the code.
abbrev pub audit_claim : Text → Text → Db × Claim → Db
audit_claim admin id (d, claimed) = record d {
  audits =
      record { admin_id = admin; action = transport_alias_backfill; entity_id = id } ∷ d.audits;
}
audit_claim admin id (d, _) = d

abbrev pub max_attempts : ℕ
max_attempts = 5

unfoldable pub ensure_transport_alias :
    Text → Text → Text → (ℕ → Text) → Loaded → Db → Db × Result Loaded
unfolding claim_attempts load_canonical
ensure_transport_alias website video admin draw loaded db =
    if is_some loaded.link.transport_alias
    then (db, ok loaded)
    else let db' =
        audit_claim admin loaded.link.id (claim_attempts max_attempts 1 loaded.link.id draw db) in
      (db', found (load_canonical website video db') not_found)

module _ (env : Env) where
  -- `assertReusable`, on the mapping as it was loaded.
  unfoldable pub assert_reusable : Text → Text → ℕ → Loaded → Db → Result (Unit {0})
  unfolding assert_anchored_link_honours_contract find_domain is_eligible
      compute_current_fingerprint text_eq
  assert_reusable website video now loaded db = do
    _ ← check (not (is_revoked loaded.link.status)) revoked
    _ ← check (is_active loaded.link.status) inactive
    _ ← assert_anchored_link_honours_contract loaded
    _ ←
        check
          (is_domain_kept (find_domain loaded.canonical.canonical_domain_id db.domains) website
            loaded.canonical)
          domain_unavailable
    _ ← check (is_eligible website video db) video_not_shareable
    current ← compute_current_fingerprint env loaded.canonical video now db
    check (not (is_drifted loaded.canonical.evidence_fingerprint current)) evidence_drift

  abbrev pub answer : Kind → Bool → Db × Result Loaded → Db × Result Response
  answer kind drift (db, err e) = (db, err e)
  answer kind drift (db, ok r) = (db, to_response env kind drift r.canonical r.link)

  abbrev pub after_check :
      Result (Unit {0}) → Db → (Db → Db × Result Response) → Db × Result Response
  after_check (err e) db go = (db, err e)
  after_check (ok _) db go = go db

  -- `reuseCanonical`.
  unfoldable pub reuse_canonical :
      Text → Text → Text → (ℕ → Text) → ℕ → Loaded → Db → Db × Result Response
  unfolding assert_reusable ensure_transport_alias to_response
  reuse_canonical website video admin draw now loaded db =
      after_check (assert_reusable website video now loaded db) db
        (λ d. answer reused false (ensure_transport_alias website video admin draw loaded d))

  -- `getCanonical`: the link as it is, and whether the video has drifted.
  unfoldable pub get_canonical : Text → Text → ℕ → Db → Result Response
  unfolding load_canonical compute_current_fingerprint to_response text_eq
  get_canonical website video now db = do
    loaded ← found (load_canonical website video db) not_found
    current ← compute_current_fingerprint env loaded.canonical video now db
    to_response env reused (is_drifted loaded.canonical.evidence_fingerprint current)
        loaded.canonical loaded.link
