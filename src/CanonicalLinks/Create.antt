-- ===== src/CanonicalLinks/Create.antt =====
-- src/admin-websites/canonical-share-link.service.ts: createOrGetCanonical and
-- adoptExistingShareLink.
use bom_media_api.Common.{
  ℕ, zero, suc, ◌+◌, ◌*◌, Bool, true, false, ◌||◌, not, Option, none, some, [], ◌∷◌, if◌then◌else◌,
  is_some, any, Text, text_eq, is_empty, trim, units, starts_with, ltb,
}
use bom_media_api.ShareLinks.{ShareLinkStatus, is_active}
use bom_media_api.Canonical.{Candidate, Selection, select_canonical_historical_winner}
use bom_media_api.CanonicalLinks.Tables.{
  Db, Link, Domain, Canonical, Snapshot, Action, create, auto_adopt, operator_adopt,
  is_active_website, find_active_domain, find_link, is_eligible, is_pair, is_only,
  find_exact_single_video_candidates,
}
use bom_media_api.CanonicalLinks.Outcome.{
  Env, Result, ok, err, ◌>>=◌, pure, check, found, website_not_found, video_not_active,
  no_active_domain, pin_blocked, pair_conflict, credential_collision, serialization_conflict,
  id_taken, pepper_required, not_unique, wrong_website, wrong_members, inactive, alias_required,
  options_present,
}
use bom_media_api.CanonicalLinks.Evidence.{build_evidence_snapshot, compute_fingerprint}
use bom_media_api.CanonicalLinks.Response.{Response, to_response, created}
use bom_media_api.CanonicalLinks.Reuse.{
  Loaded, load_canonical, reuse_canonical, answer, max_attempts,
}

-- What an attempt draws at random: the credentials, the ids of the rows, and whether the database
-- reports a serialization conflict (P2034).
pub record Draw : Type 0 where
  pub token : Text
  pub alias : Text
  pub transport_alias : Text
  pub link_id : Text
  pub canonical_id : Text
  pub conflicts : Bool

-- `isLocalhostDomain`.
is_localhost_domain : Text → Bool
unfolding text_eq starts_with
is_localhost_domain d =
    text_eq d (units "localhost")
    || starts_with d (units "localhost:")
    || text_eq d (units "127.0.0.1")
    || starts_with d (units "127.0.0.1:")
    || text_eq d (units "0.0.0.0")
    || starts_with d (units "0.0.0.0:")
    || text_eq d (units "[::1]")
    || starts_with d (units "[::1]:")

abbrev pub trimmed : Option Text → Option Text
trimmed none = none
trimmed (some s) = some (trim s)

-- `a || b`.
abbrev or_filled : Option Text → Option Text → Option Text
or_filled none b = b
or_filled (some a) b = if is_empty a then b else some a

-- `getConfiguredPublicSiteProtocol`.
unfoldable pub get_configured_public_site_protocol : Env → Text → Option Text
unfolding is_localhost_domain trim
get_configured_public_site_protocol env domain =
    if is_localhost_domain domain
    then or_filled (trimmed env.public_share_local_protocol) (trimmed env.public_site_protocol)
    else trimmed env.public_site_protocol

abbrev pub or_https : Option Text → Text
or_https none = units "https"
or_https (some p) = p

-- What the transaction of a creation finds out before it writes: the domain, the evidence, and the
-- historical link that it adopts, if there is one.
pub record Plan : Type 0 where
  pub domain : Domain
  pub snapshot : Snapshot
  pub adopted : Option Candidate

abbrev pub winner_of : Selection → Result (Option Candidate)
winner_of s = elim s.winner [
  | none ↦ ok none
  | some w ↦ elim s.pin_blocker [
    | none ↦ ok (some w)
    | some b ↦ err (pin_blocked b s.historical_candidate_count)
  ]
]

unfoldable pub plan : Text → Text → ℕ → Db → Result Plan
unfolding is_active_website is_eligible find_active_domain build_evidence_snapshot
    find_exact_single_video_candidates
plan website video now db = do
  _ ← check (is_active_website website db.websites) website_not_found
  _ ← check (is_eligible website video db) video_not_active
  domain ← found (find_active_domain website db.domains) no_active_domain
  snapshot ← build_evidence_snapshot video now db
  adopted ← winner_of (
      select_canonical_historical_winner
        (find_exact_single_video_candidates website video db.canonicals db.links)
        (record { website_id = website; video_id = video }))
  pure (record { domain = domain; snapshot = snapshot; adopted = adopted })

-- The unique columns of a link: its id is the database's, the others are credentials.
abbrev is_value : Option Text → Text → Bool
is_value none s = false
is_value (some t) s = text_eq t s

abbrev pub shares_credential : Link → Link → Bool
shares_credential new l =
    text_eq l.token_hash new.token_hash
    || (elim new.alias [ none ↦ false | some a ↦ is_value l.alias a ])
    || (elim new.transport_alias [ none ↦ false | some a ↦ is_value l.transport_alias a ])

unfoldable pub insert_link : Link → Db → Result Db
unfolding text_eq
insert_link new db =
    if any (λ l. text_eq l.id new.id) db.links
    then err id_taken
    else if any (shares_credential new) db.links
    then err credential_collision
    else ok (record db { links = new ∷ db.links })

-- A pair has one mapping, and a link anchors one.
unfoldable pub insert_canonical : Canonical → Db → Result Db
unfolding text_eq
insert_canonical new db =
    if any (λ c. text_eq c.id new.id) db.canonicals
    then err id_taken
    else if any
        (λ c. is_pair new.website_id new.video_id c || text_eq c.share_link_id new.share_link_id)
        db.canonicals
    then err pair_conflict
    else ok (record db { canonicals = new ∷ db.canonicals })

-- A mapping that was written, its link, and whether the link was adopted.
pub record Settled : Type 0 where
  pub row : Loaded
  pub adopted : Bool

-- A transaction: an error undoes it.
abbrev pub commit : {A : Type 0} → Db → Result (Db × A) → Db × Result A
commit db (err e) = (db, err e)
commit db (ok (d, a)) = (d, ok a)

abbrev pub audited : Text → Action → Text → Db → Db
audited admin action entity db = record db {
  audits = record { admin_id = admin; action = action; entity_id = entity } ∷ db.audits;
}

module _ (env : Env) (website video admin : Text) where
  unfoldable pub fresh_link : Text → Draw → ℕ → Link
  fresh_link pepper d now = record {
    id = d.link_id;
    website_id = website;
    token_hash = env.hash_share_token d.token pepper;
    alias = some d.alias;
    transport_alias = some d.transport_alias;
    expires_at = none;
    max_views = none;
    status = ShareLinkStatus.active;
    created_at = now;
    video_ids = video ∷ [];
  }

  unfoldable pub mapping : Text → Text → Domain → Snapshot → Canonical
  unfolding get_configured_public_site_protocol compute_fingerprint
  mapping id link domain snapshot = record {
    id = id;
    website_id = website;
    video_id = video;
    share_link_id = link;
    canonical_domain_id = domain.id;
    canonical_host_snapshot = domain.domain;
    canonical_protocol = or_https (get_configured_public_site_protocol env domain.domain);
    evidence_fingerprint = some (compute_fingerprint env snapshot);
    evidence_snapshot = some snapshot;
  }

  -- The id of the link to pin, which is written first if none is adopted.
  unfoldable pub pin_link : Text → Draw → ℕ → Option Candidate → Db → Result (Db × Text)
  unfolding insert_link fresh_link
  pin_link pepper d now (some w) db = ok (db, w.id)
  pin_link pepper d now none db = do
    db' ← insert_link (fresh_link pepper d now) db
    pure (db', d.link_id)

  abbrev action_of : Option Candidate → Action
  action_of none = create
  action_of (some _) = auto_adopt

  -- What the transaction writes.
  unfoldable pub write : Text → Draw → ℕ → Plan → Db → Result (Db × Settled)
  unfolding pin_link insert_canonical mapping load_canonical
  write pepper d now p db = do
    (linked, id) ← pin_link pepper d now p.adopted db
    mapped ← insert_canonical (mapping d.canonical_id id p.domain p.snapshot) linked
    row ← found (load_canonical website video mapped) id_taken
    pure (
      audited admin (action_of p.adopted) d.canonical_id mapped,
      record { row = row; adopted = is_some p.adopted },
    )

  -- The transaction of an attempt.
  unfoldable pub create_tx : Text → Draw → ℕ → Db → Db × Result Settled
  unfolding plan write
  create_tx pepper d now db =
      if d.conflicts
      then (db, err serialization_conflict)
      else commit db (do p ← plan website video now db; write pepper d now p db)

  -- A loaded mapping, or else the rest.
  abbrev pub reuse_or :
      (ℕ → Text) → ℕ → Db → Option Loaded → (Db → Db × Result Response) → Db × Result Response
  reuse_or draw now db none rest = rest db
  reuse_or draw now db (some l) rest = reuse_canonical env website video admin draw now l db

  -- What an attempt makes of its transaction; `retry` is the next attempt, if there is one.
  unfoldable pub after_tx :
      (ℕ → Text)
      → ℕ
      → Bool
      → Db × Result Settled
      → (Db → Db × Result Response)
      → Db × Result Response
  unfolding reuse_canonical load_canonical to_response
  after_tx draw now last (db, ok s) retry =
      if s.adopted
      then reuse_canonical env website video admin draw now s.row db
      else answer env created false (db, ok s.row)
  after_tx draw now last (db, err pair_conflict) retry =
      reuse_or draw now db (load_canonical website video db) retry
  after_tx draw now last (db, err credential_collision) retry =
      if last then (db, err credential_collision) else retry db
  after_tx draw now last (db, err serialization_conflict) retry =
      if last then (db, err serialization_conflict) else retry db
  after_tx draw now last (db, err e) retry = (db, err e)

  abbrev pub is_zero : ℕ → Bool
  is_zero zero = true
  is_zero (suc _) = false

  -- The attempts that are left. Other requests run before each look-up (`2 * attempt`) and before
  -- each transaction (`2 * attempt + 1`).
  unfoldable pub create_attempts :
      ℕ → ℕ → Text → (ℕ → Draw) → (ℕ → Text) → (ℕ → Db → Db) → ℕ → Db → Db × Result Response
  unfolding create_tx after_tx load_canonical reuse_canonical
  create_attempts zero attempt pepper draws draw others now db = (db, err not_unique)
  create_attempts (suc left) attempt pepper draws draw others now db =
      reuse_or draw now (others (2 * attempt) db)
        (if ltb 1 attempt then load_canonical website video (others (2 * attempt) db) else none)
        (λ d.
          after_tx draw now (is_zero left)
            (create_tx pepper (draws attempt) now (others (2 * attempt + 1) d))
            (λ d'. create_attempts left (suc attempt) pepper draws draw others now d'))

  abbrev pub with_pepper :
      Option Text → (Text → Db → Db × Result Response) → Db → Db × Result Response
  with_pepper none go db = (db, err pepper_required)
  with_pepper (some p) go db = if is_empty p then (db, err pepper_required) else go p db

  -- `createOrGetCanonical`.
  unfoldable pub create_or_get_canonical :
      (ℕ → Draw) → (ℕ → Text) → (ℕ → Db → Db) → ℕ → Db → Db × Result Response
  unfolding is_active_website load_canonical reuse_canonical create_attempts trim
  create_or_get_canonical draws draw others now db =
      if not (is_active_website website db.websites)
      then (db, err website_not_found)
      else reuse_or draw now db (load_canonical website video db) (
          with_pepper (trimmed env.share_token_pepper)
            (λ pepper d. create_attempts max_attempts 1 pepper draws draw others now d))

  -- The checks of `adoptExistingShareLink`, and the mapping that it will write.
  unfoldable pub plan_adoption : Text → Text → ℕ → Db → Result Canonical
  unfolding is_active_website find_link is_eligible find_active_domain build_evidence_snapshot
      mapping text_eq
  plan_adoption link_id id now db = do
    _ ← check (is_active_website website db.websites) website_not_found
    l ← found (find_link link_id db.links) wrong_website
    _ ← check (text_eq l.website_id website) wrong_website
    _ ← check (is_active l.status) inactive
    _ ← check (is_only video l.video_ids) wrong_members
    _ ← check (elim l.alias [ none ↦ false | some a ↦ not (is_empty a) ]) alias_required
    _ ← check (not (is_some l.expires_at || is_some l.max_views)) options_present
    _ ← check (is_eligible website video db) video_not_active
    domain ← found (find_active_domain website db.domains) no_active_domain
    snapshot ← build_evidence_snapshot video now db
    pure (mapping id link_id domain snapshot)

  -- The transaction of `adoptExistingShareLink`.
  unfoldable pub adopt_tx : Canonical → Db → Db × Result Loaded
  unfolding insert_canonical load_canonical
  adopt_tx c db = commit db (do
    mapped ← insert_canonical c db
    row ← found (load_canonical c.website_id c.video_id mapped) id_taken
    pure (audited admin operator_adopt c.id mapped, row))

  unfoldable pub adopt_existing_share_link : Text → Text → ℕ → Db → Db × Result Response
  unfolding plan_adoption adopt_tx to_response
  adopt_existing_share_link link_id id now db = elim (plan_adoption link_id id now db) [
    | err e ↦ (db, err e)
    | ok c ↦ answer env created false (adopt_tx c db)
  ]
