-- ===== src/CanonicalLinks/Permanent.antt =====
-- src/admin-websites/canonical-share-link.service.ts: the URL of a pair does not change.
use bom_media_api.Common.{
  ℕ, zero, suc, ◌≡◌, refl, sym, subst, Bool, true, false, not, Option, some, List, if◌then◌else◌,
  arith, Text, is_some,
}
use bom_media_api.CanonicalLinks.Tables.{Db, is_active_website}
use bom_media_api.CanonicalLinks.Outcome.{Env, Result, ok, err, found, website_not_found, not_found}
use bom_media_api.CanonicalLinks.Response.{Kind, Response, reused}
use bom_media_api.CanonicalLinks.Reuse.{
  Loaded, load_canonical, assert_reusable, ensure_transport_alias, reuse_canonical, answer,
  after_check, claim_attempts, audit_claim, after_claim, max_attempts,
}
use bom_media_api.CanonicalLinks.Create.{
  Draw, create_attempts, create_or_get_canonical, reuse_or, with_pepper, trimmed,
}
use bom_media_api.CanonicalLinks.Steps.{Step, run}
use bom_media_api.CanonicalLinks.Pinned.{Keeps, run-Keeps}
use bom_media_api.CanonicalLinks.Pinned.{
  Keeps-refl, Keeps-trans, Keeps-tables, claim_transport_alias-Keeps,
}
use bom_media_api.CanonicalLinks.Reuse.{Claim, collided, missed, claimed, claim_transport_alias}
use bom_media_api.CanonicalLinks.Standing.{
  Stands, Stands-Keeps, Stands-unique, Stands-load, reuse_canonical-Stands,
  create_or_get_canonical-Stands,
}

after_claim-Keeps :
    (db : Db) (m : Db × Claim) (again : Db → Db × Claim)
    → Keeps db m.0
    → ((d : Db) → Keeps d (again d).0)
    → Keeps db (after_claim m again).0
after_claim-Keeps db (d, collided) again k h = Keeps-trans db d _ k (h d)
after_claim-Keeps db (d, missed) again k h = k
after_claim-Keeps db (d, claimed) again k h = k

claim_attempts-Keeps :
    (left attempt : ℕ) (id : Text) (draw : ℕ → Text) (db : Db)
    → Keeps db (claim_attempts left attempt id draw db).0
unfolding claim_attempts
claim_attempts-Keeps zero attempt id draw db = Keeps-refl db
claim_attempts-Keeps (suc left) attempt id draw db =
    after_claim-Keeps db (claim_transport_alias id (draw attempt) db)
      (λ d. claim_attempts left (suc attempt) id draw d)
      (claim_transport_alias-Keeps id (draw attempt) db)
      (λ d. claim_attempts-Keeps left (suc attempt) id draw d)

audit_claim-Keeps :
    (admin id : Text) (db : Db) (m : Db × Claim) → Keeps db m.0 → Keeps db (audit_claim admin id m)
audit_claim-Keeps admin id db (d, collided) k = k
audit_claim-Keeps admin id db (d, missed) k = k
audit_claim-Keeps admin id db (d, claimed) k = Keeps-trans db d _ k (Keeps-tables d _ refl refl)

module _ (env : Env) where
  module _ (website video : Text) where
    ensure_transport_alias-Keeps :
        (admin : Text) (draw : ℕ → Text) (loaded : Loaded) (db : Db)
        → Keeps db (ensure_transport_alias website video admin draw loaded db).0
    unfolding ensure_transport_alias
    ensure_transport_alias-Keeps admin draw loaded db = go (is_some loaded.link.transport_alias)
      where
        after : Db
        after =
            audit_claim admin loaded.link.id (claim_attempts max_attempts 1 loaded.link.id draw db)

        go :
            (b : Bool)
            → Keeps db
                (if◌then◌else◌ {A = Db × Result Loaded} b
                  (db, ok loaded)
                  (after, found (load_canonical website video after) not_found)).0
        go true = Keeps-refl db
        go false =
            audit_claim-Keeps admin loaded.link.id db
              (claim_attempts max_attempts 1 loaded.link.id draw db)
              (claim_attempts-Keeps max_attempts 1 loaded.link.id draw db)

    answer-Keeps :
        (k : Kind) (drift : Bool) (db : Db) (m : Db × Result Loaded)
        → Keeps db m.0
        → Keeps db (answer env k drift m).0
    answer-Keeps k drift db (d, err x) h = h
    answer-Keeps k drift db (d, ok r) h = h

    reuse_canonical-Keeps :
        (admin : Text) (draw : ℕ → Text) (now : ℕ) (loaded : Loaded) (db : Db)
        → Keeps db (reuse_canonical env website video admin draw now loaded db).0
    unfolding reuse_canonical
    reuse_canonical-Keeps admin draw now loaded db =
        go (assert_reusable env website video now loaded db)
      where
        go :
            (c : Result (Unit {0}))
            → Keeps db
                (after_check env c db (λ d.
                  answer env reused false
                    (ensure_transport_alias website video admin draw loaded d))).0
        go (err x) = Keeps-refl db
        go (ok _) =
            answer-Keeps reused false db (ensure_transport_alias website video admin draw loaded db)
              (ensure_transport_alias-Keeps admin draw loaded db)

    -- A request for a pair whose mapping stands keeps what is there, and what it answers, if it
    -- answers, is that mapping, reused.
    create_or_get_canonical-again :
        (admin : Text) (draws : ℕ → Draw) (draw : ℕ → Text) (others : ℕ → Db → Db) (now : ℕ)
        (db : Db)
        → (r s : Response) → Stands env website video r db
        → (create_or_get_canonical env website video admin draws draw others now db).1 ≡ ok s
        → Keeps db (create_or_get_canonical env website video admin draws draw others now db).0
          × (s.outcome ≡ reused)
    unfolding create_or_get_canonical
    create_or_get_canonical-again admin draws draw others now db r s st =
        let (loaded, e) = Stands-load env website video db r st in
        λ h.
          subst
            (λ o.
              (answered (is_active_website website db.websites) o).1 ≡ ok s
              → Keeps db (answered (is_active_website website db.websites) o).0
                × (s.outcome ≡ reused))
            (sym e) (go (is_active_website website db.websites) loaded e) h
      where
        rest : Db → Db × Result Response
        rest = with_pepper env website video admin (trimmed env.share_token_pepper) (λ pepper d.
            create_attempts env website video admin max_attempts 1 pepper draws draw others now d)

        answered : Bool → Option Loaded → Db × Result Response
        answered b o =
            if not b
            then (db, err website_not_found)
            else reuse_or env website video admin draw now db o rest

        go :
            (b : Bool) (loaded : Loaded)
            → (e : load_canonical website video db ≡ some loaded)
            → (answered b (some loaded)).1 ≡ ok s
            → Keeps db (answered b (some loaded)).0 × (s.outcome ≡ reused)
        go false loaded e h = ground arith
        go true loaded e h = (
          reuse_canonical-Keeps admin draw now loaded db,
          (reuse_canonical-Stands env website video admin draw now loaded db s e h).1,
        )

  -- The URLs of a website and a video are permanent. Once a request for the canonical link of the
  -- pair has been answered, whatever other requests ran between its attempts, and whatever
  -- creations, adoptions, claims of transport aliases, changes of links' statuses and changes of
  -- websites, domains, videos and assignments follow, each later request for the pair that is
  -- answered tells the same alias and the same two URLs, of a link that is reused.
  pub create_or_get_canonical-permanent :
      (website video admin admin' : Text) (draws draws' : ℕ → Draw) (draw draw' : ℕ → Text)
      → (others others' : ℕ → Db → Db) (now later : ℕ) (db : Db) (steps : List Step)
        (r s : Response)
      → (create_or_get_canonical env website video admin draws draw others now db).1 ≡ ok r
      → (create_or_get_canonical env website video admin' draws' draw' others' later (
          run env
            (create_or_get_canonical env website video admin draws draw others now db).0
            steps)).1
        ≡ ok s
      → (s.review_url ≡ r.review_url)
        × (s.public_url ≡ r.public_url)
        × (s.alias ≡ r.alias)
        × (s.outcome ≡ reused)
  create_or_get_canonical-permanent website video admin admin' draws draws' draw draw' others
        others' now later db steps r s h k =
      let first : Db =
        (create_or_get_canonical env website video admin draws draw others now db).0 in
      let then' : Db = run env first steps in
      let last : Db =
        (create_or_get_canonical env website video admin' draws' draw' others' later then').0 in
      let stands : Stands env website video r then' =
        Stands-Keeps env website video first then' r (run-Keeps env first steps)
          (create_or_get_canonical-Stands env website video admin draws draw others now db r h) in
      let (kept, outcome) =
        create_or_get_canonical-again website video admin' draws' draw' others' later then' r s
          stands k in
      let (review, public, alias) =
        Stands-unique env website video last r s
          (Stands-Keeps env website video then' last r kept stands)
          (create_or_get_canonical-Stands env website video admin' draws' draw' others' later then'
            s k) in
      (review, public, alias, outcome)
