-- ===== src/CanonicalLinks/Response.antt =====
-- src/admin-websites/canonical-share-link.service.ts: what a canonical link is answered as, with the
-- host and protocol of its mapping.
use bom_media_api.Common.{
  Bool, ◌&&◌, ◌||◌, not, Option, none, some, [], if◌then◌else◌, is_some, Text, text_eq,
}
use bom_media_api.ShareLinks.{is_active}
use bom_media_api.ShareUrls.{
  is_compatibility_capable_host, is_well_formed_transport_alias, build_canonical_public_share_url,
  build_canonical_review_url, build_canonical_compatibility_url,
}
use bom_media_api.CanonicalLinks.Tables.{Link, Canonical, is_only}
use bom_media_api.CanonicalLinks.Outcome.{Env, Result, ◌>>=◌, pure, of_url}

pub data Kind : Type 0 where
  created reused : Kind

pub record Response : Type 0 where
  pub outcome : Kind
  pub evidence_drift : Bool
  pub share_link : Link
  pub public_url : Text
  pub review_url : Text
  pub compatibility_url : Option Text
  pub alias : Text

abbrev pub or_empty : Option Text → Text
or_empty none = []
or_empty (some s) = s

module _ (env : Env) where
  -- `isCompatibilityUrlEligible`.
  unfoldable pub is_compatibility_url_eligible : Canonical → Link → Bool
  unfolding is_compatibility_capable_host is_well_formed_transport_alias text_eq
  is_compatibility_url_eligible c l =
      is_compatibility_capable_host env.js (some c.canonical_host_snapshot)
        env.public_compatibility_url_hosts
      && is_well_formed_transport_alias l.transport_alias
      && is_active l.status
      && not (is_some l.expires_at || is_some l.max_views)
      && text_eq l.website_id c.website_id
      && is_only c.video_id l.video_ids

  unfoldable pub compatibility_url : Canonical → Link → Result (Option Text)
  unfolding is_compatibility_url_eligible build_canonical_compatibility_url
  compatibility_url c l =
      if is_compatibility_url_eligible c l
      then (do
        u ← of_url (
            build_canonical_compatibility_url env.js c.canonical_host_snapshot
              (or_empty l.transport_alias) c.canonical_protocol)
        pure (some u))
      else pure none

  -- `toResponse`.
  unfoldable pub to_response : Kind → Bool → Canonical → Link → Result Response
  unfolding build_canonical_public_share_url build_canonical_review_url compatibility_url
  to_response outcome drift c l = do
    public ← of_url (
        build_canonical_public_share_url env.js c.canonical_host_snapshot (or_empty l.alias)
          c.canonical_protocol)
    review ← of_url (
        build_canonical_review_url env.js c.canonical_host_snapshot (or_empty l.alias)
          c.canonical_protocol)
    compatibility ← compatibility_url c l
    pure (record {
      outcome = outcome;
      evidence_drift = drift;
      share_link = l;
      public_url = public;
      review_url = review;
      compatibility_url = compatibility;
      alias = or_empty l.alias;
    })
