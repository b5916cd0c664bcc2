-- ===== src/CanonicalLinks/Standing.antt =====
-- src/admin-websites/canonical-share-link.service.ts: each answer for a pair tells of the mapping that
-- stands in the database.
use bom_media_api.Common.{
  ℕ, ◌≡◌, inl, inr, refl, ap, ◌∙◌, Bool, false, Option, none, some, arith, Text, Bool-cases,
  Option-cases, is_some,
}
use bom_media_api.ShareLinks.{ShareLinkStatus}
use bom_media_api.ShareUrls.{build_canonical_public_share_url, build_canonical_review_url}
use bom_media_api.CanonicalLinks.Loading.{load_canonical-rows}
use bom_media_api.CanonicalLinks.Tables.{Db, Link, Canonical, find_link}
use bom_media_api.CanonicalLinks.Outcome.{
  Env, Result, ok, err, ◌>>=◌, pure, of_url, bind-ok, found-ok,
}
use bom_media_api.CanonicalLinks.Response.{
  Kind, Response, created, reused, to_response, or_empty, compatibility_url,
}
use bom_media_api.CanonicalLinks.Reuse.{
  Loaded, load_canonical, assert_reusable, ensure_transport_alias, reuse_canonical, answer,
  after_check, claim_attempts, audit_claim, max_attempts,
}
use bom_media_api.CanonicalLinks.Create.{Draw, create_tx, create_or_get_canonical}
use bom_media_api.CanonicalLinks.Pinned.{pinned, identity, identity_of, Keeps, create_tx-row}
use bom_media_api.CanonicalLinks.Answers.{create_or_get_canonical-answers}

-- The two URLs of a mapping whose link has an alias.
abbrev pub urls_of : Env → Canonical → Option Text → Result (Text × Text)
urls_of env c alias = do
  public ← of_url (
      build_canonical_public_share_url env.js c.canonical_host_snapshot (or_empty alias)
        c.canonical_protocol)
  review ← of_url (
      build_canonical_review_url env.js c.canonical_host_snapshot (or_empty alias)
        c.canonical_protocol)
  pure (public, review)

-- A response tells of the mapping that stands in the database.
abbrev pub Stands : Env → Text → Text → Response → Db → Type 0
Stands env website video r db =
    (c : Canonical) × (l : Link) × (pinned website video db ≡ some c)
    × (identity c.share_link_id db ≡ some l)
    × (urls_of env c l.alias ≡ ok (r.public_url, r.review_url))
    × (r.alias ≡ or_empty l.alias)

abbrev cleared : Link → Link
cleared l = record l { transport_alias = none; status = ShareLinkStatus.active }

load_canonical-tables :
    (website video : Text) (db : Db) (r : Loaded)
    → load_canonical website video db ≡ some r
    → (pinned website video db ≡ some r.canonical)
      × (identity r.canonical.share_link_id db ≡ some (cleared r.link))
load_canonical-tables website video db r e =
    let (c, l) = load_canonical-rows website video db r e in (c, ap identity_of l)

module _ (env : Env) where
  to_response-urls :
      (k : Kind) (drift : Bool) (c : Canonical) (l : Link) (r : Response)
      → to_response env k drift c l ≡ ok r
      → (urls_of env c l.alias ≡ ok (r.public_url, r.review_url))
        × (r.alias ≡ or_empty l.alias)
        × (r.outcome ≡ k)
  unfolding to_response
  to_response-urls k drift c l r e =
      let (public, p, e1) =
        bind-ok
          (of_url (
            build_canonical_public_share_url env.js c.canonical_host_snapshot (or_empty l.alias)
              c.canonical_protocol))
          _ _ e in
      let (review, q, e2) =
        bind-ok
          (of_url (
            build_canonical_review_url env.js c.canonical_host_snapshot (or_empty l.alias)
              c.canonical_protocol))
          _ _ e1 in
      let (compatibility, s, e3) = bind-ok (compatibility_url env c l) _ _ e2 in
      ground (arith, p, q, e3)

  module _ (website video : Text) where
    to_response-Stands :
        (k : Kind) (drift : Bool) (db : Db) (loaded : Loaded) (r : Response)
        → load_canonical website video db ≡ some loaded
        → to_response env k drift loaded.canonical loaded.link ≡ ok r
        → Stands env website video r db
    to_response-Stands k drift db loaded r e h =
        let (p, l) = load_canonical-tables website video db loaded e in
        let (u, a, _) = to_response-urls k drift loaded.canonical loaded.link r h in
        (loaded.canonical, cleared loaded.link, p, l, u, a)

    pub Stands-Keeps :
        (db after : Db) (r : Response)
        → Keeps db after
        → Stands env website video r db
        → Stands env website video r after
    Stands-Keeps db after r k (c, l, p, i, u, a) =
        (c, l, k.canonicals_kept website video c p, k.links_kept c.share_link_id l i, u, a)

    -- Two responses that stand at once tell the same URLs.
    pub Stands-unique :
        (db : Db) (r s : Response)
        → Stands env website video r db
        → Stands env website video s db
        → (s.review_url ≡ r.review_url) × (s.public_url ≡ r.public_url) × (s.alias ≡ r.alias)
    Stands-unique db r s (c, l, p, i, u, a) (c', l', p', i', u', a') =
        let same : c' ≡ c = ground (arith, p, p') in
        let link : l' ≡ l =
          ground (arith, i, i', ap (λ (x : Canonical). identity x.share_link_id db) same) in
        let aliases : l'.alias ≡ l.alias = ap (λ (x : Link). x.alias) link in
        ground (
          arith,
          u,
          u',
          a,
          a',
          ap (λ x. urls_of env x l'.alias) same ∙ ap (urls_of env c) aliases,
          ap or_empty aliases,
        )

    ensure_transport_alias-loaded :
        (admin : Text) (draw : ℕ → Text) (loaded again : Loaded) (db : Db)
        → load_canonical website video db ≡ some loaded
        → (ensure_transport_alias website video admin draw loaded db).1 ≡ ok again
        → load_canonical website video (ensure_transport_alias website video admin draw loaded db).0
          ≡ some again
    unfolding ensure_transport_alias
    ensure_transport_alias-loaded admin draw loaded again db e h =
        elim (Bool-cases (is_some loaded.link.transport_alias)) [
          | inl t ↦ ground (arith, t, e, h)
          | inr t ↦ ground (
            arith,
            t,
            h,
            found-ok
                (load_canonical website video (
                  audit_claim admin loaded.link.id
                    (claim_attempts max_attempts 1 loaded.link.id draw db)))
                _ again,
          )
        ]

    answer-Stands :
        (k : Kind) (drift : Bool) (m : Db × Result Loaded) (r : Response)
        → ((again : Loaded) → m.1 ≡ ok again → load_canonical website video m.0 ≡ some again)
        → (answer env k drift m).1 ≡ ok r
        → Stands env website video r (answer env k drift m).0 × (r.outcome ≡ k)
    answer-Stands k drift (db, err x) r l h = ground arith
    answer-Stands k drift (db, ok again) r l h = (
      to_response-Stands k drift db again r (l again refl) h,
      (to_response-urls k drift again.canonical again.link r h).2,
    )

    pub reuse_canonical-Stands :
        (admin : Text) (draw : ℕ → Text) (now : ℕ) (loaded : Loaded) (db : Db) (r : Response)
        → load_canonical website video db ≡ some loaded
        → (reuse_canonical env website video admin draw now loaded db).1 ≡ ok r
        → Stands env website video r (reuse_canonical env website video admin draw now loaded db).0
          × (r.outcome ≡ reused)
    unfolding reuse_canonical
    reuse_canonical-Stands admin draw now loaded db r e =
        go (assert_reusable env website video now loaded db)
      where
        go :
            (c : Result (Unit {0}))
            → (after_check env c db (λ d.
                answer env reused false
                  (ensure_transport_alias website video admin draw loaded d))).1
              ≡ ok r
            → Stands env website video r
                (after_check env c db (λ d.
                  answer env reused false
                    (ensure_transport_alias website video admin draw loaded d))).0
              × (r.outcome ≡ reused)
        go (err x) h = ground arith
        go (ok _) h =
            answer-Stands reused false (ensure_transport_alias website video admin draw loaded db) r
              (λ again. ensure_transport_alias-loaded admin draw loaded again db e) h

    pub create_or_get_canonical-Stands :
        (admin : Text) (draws : ℕ → Draw) (draw : ℕ → Text) (others : ℕ → Db → Db) (now : ℕ)
        (db : Db)
        → (r : Response)
        → (create_or_get_canonical env website video admin draws draw others now db).1 ≡ ok r
        → Stands env website video r
            (create_or_get_canonical env website video admin draws draw others now db).0
    create_or_get_canonical-Stands admin =
        create_or_get_canonical-answers env website video admin (Stands env website video)
          (λ draw now loaded db r e h. (reuse_canonical-Stands admin draw now loaded db r e h).0)
          (λ pepper d now db s r e _.
            to_response-Stands created false (create_tx env website video admin pepper d now db).0
              s.row r (create_tx-row env website video admin pepper d now db s e))

    -- Where a response stands, the mapping is found and handed out again.
    pub Stands-load :
        (db : Db) (r : Response)
        → Stands env website video r db
        → (loaded : Loaded) × (load_canonical website video db ≡ some loaded)
    unfolding load_canonical
    Stands-load db r (c, l, p, i, u, a) = elim (Option-cases (find_link c.share_link_id db.links)) [
      | inl n ↦ ground (arith, i, n)
      | inr (m, n) ↦ (record { canonical = c; link = m }, ground (arith, p, n))
    ]
