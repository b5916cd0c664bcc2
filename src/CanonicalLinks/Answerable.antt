-- ===== src/CanonicalLinks/Answerable.antt =====
-- src/admin-websites/canonical-share-link.service.ts: a link whose host and alias can be told is answered.
use bom_media_api.Common.{
  ◌≡◌, inl, inr, refl, Bool, true, false, Option, none, some, arith, Text, is_empty, trim,
  Bool-cases, Option-cases,
}
use bom_media_api.ShareUrls.{normalize_website_domain, is_well_formed_transport_alias}
use bom_media_api.ShareUrls.Builds.{
  build_canonical_public_share_url-eq-url, build_canonical_review_url-eq-url,
  build_canonical_compatibility_url-eq-url,
}
use bom_media_api.CanonicalLinks.Tables.{Link, Canonical}
use bom_media_api.CanonicalLinks.Outcome.{Env, ok}
use bom_media_api.CanonicalLinks.Response.{
  Kind, Response, to_response, compatibility_url, is_compatibility_url_eligible, or_empty,
}

module _ (env : Env) (c : Canonical) (host : Text)
    (named : normalize_website_domain env.js (trim c.canonical_host_snapshot) ≡ some host) where
  eligible_alias :
      (l : Link)
      → is_compatibility_url_eligible env c l ≡ true
      → is_well_formed_transport_alias (some (or_empty l.transport_alias)) ≡ true
  unfolding is_compatibility_url_eligible is_well_formed_transport_alias
  eligible_alias l e = elim (Option-cases l.transport_alias) [
    | inl n ↦ ground (arith, e, n)
    | inr (t, n) ↦ ground (arith, e, n)
  ]

  compatibility_url-ok : (l : Link) → (o : Option Text) × (compatibility_url env c l ≡ ok o)
  unfolding compatibility_url
  compatibility_url-ok l = elim (Bool-cases (is_compatibility_url_eligible env c l)) [
    | inl e ↦
        let (u, q) =
          build_canonical_compatibility_url-eq-url env.js c.canonical_host_snapshot host
            c.canonical_protocol named (or_empty l.transport_alias) (eligible_alias l e) in
        (some u, rw (e, q) refl)
    | inr e ↦ (none, rw e refl)
  ]

  -- The response tells the link as it is.
  pub to_response-ok :
      (k : Kind) (drift : Bool) (l : Link)
      → is_empty (trim (or_empty l.alias)) ≡ false
      → (r : Response) × (to_response env k drift c l ≡ ok r)
        × (r.outcome ≡ k)
        × (r.alias ≡ or_empty l.alias)
        × (r.share_link ≡ l)
  unfolding to_response
  to_response-ok k drift l a =
      let (public, p) =
        build_canonical_public_share_url-eq-url env.js c.canonical_host_snapshot host
          c.canonical_protocol named (or_empty l.alias) a in
      let (review, q) =
        build_canonical_review_url-eq-url env.js c.canonical_host_snapshot host c.canonical_protocol
          named (or_empty l.alias) a in
      let (compatibility, s) = compatibility_url-ok l in
      (
        record {
          outcome = k;
          evidence_drift = drift;
          share_link = l;
          public_url = public;
          review_url = review;
          compatibility_url = compatibility;
          alias = or_empty l.alias;
        },
        rw (p, q, s) refl,
        refl,
        refl,
        refl,
      )
