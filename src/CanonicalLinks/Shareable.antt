-- ===== src/CanonicalLinks/Shareable.antt =====
-- src/admin-websites/canonical-share-link.service.ts: when a canonical link is answered, its video may be
-- shared on the website.
use bom_media_api.Common.{
  ℕ, ◌≡◌, inl, inr, refl, Bool, true, false, not, arith, Text, Bool-cases, is_some,
}
use bom_media_api.CanonicalLinks.Tables.{Db, is_active_website, is_eligible}
use bom_media_api.CanonicalLinks.Outcome.{Env, Result, ok, err, check, found, bind-ok, check-ok}
use bom_media_api.CanonicalLinks.Response.{Kind, Response, reused}
use bom_media_api.CanonicalLinks.Reuse.{
  Loaded, load_canonical, assert_reusable, assert_anchored_link_honours_contract, is_domain_kept,
  reuse_canonical, ensure_transport_alias, answer, after_check, max_attempts,
}
use bom_media_api.CanonicalLinks.Create.{
  Draw, Plan, Settled, plan, pin_link, insert_link, insert_canonical, mapping, write, create_tx,
}
use bom_media_api.CanonicalLinks.History.{create_tx-ok}
use bom_media_api.CanonicalLinks.Backfill.{claim_attempts-OnlyClaims, audit_claim-OnlyClaims}
use bom_media_api.CanonicalLinks.Tables.{find_domain}
use bom_media_api.ShareLinks.{is_active, is_revoked}

-- The tables that decide whether a video may be shared are as they were.
abbrev SameVideos : Db → Db → Type 0
SameVideos db after = (after.videos ≡ db.videos) × (after.assignments ≡ db.assignments)

is_eligible-SameVideos :
    (website video : Text) (db after : Db)
    → SameVideos db after
    → is_eligible website video db ≡ true
    → is_eligible website video after ≡ true
unfolding is_eligible
is_eligible-SameVideos website video db after (v, a) h = rw (v, a) h

module _ (env : Env) (website video : Text) where
  assert_reusable-is_eligible :
      (now : ℕ) (loaded : Loaded) (db : Db) (u : Unit {0})
      → assert_reusable env website video now loaded db ≡ ok u
      → is_eligible website video db ≡ true
  unfolding assert_reusable
  assert_reusable-is_eligible now loaded db u e =
      let (_, _, e1) = bind-ok (check (not (is_revoked loaded.link.status)) _) _ _ e in
      let (_, _, e2) = bind-ok (check (is_active loaded.link.status) _) _ _ e1 in
      let (_, _, e3) = bind-ok (assert_anchored_link_honours_contract loaded) _ _ e2 in
      let (_, _, e4) =
        bind-ok
          (check
            (is_domain_kept (find_domain loaded.canonical.canonical_domain_id db.domains) website
              loaded.canonical)
            _)
          _ _ e3 in
      let (x, eligible, _) = bind-ok (check (is_eligible website video db) _) _ _ e4 in
      check-ok (is_eligible website video db) _ x eligible

  ensure_transport_alias-SameVideos :
      (admin : Text) (draw : ℕ → Text) (loaded : Loaded) (db : Db)
      → SameVideos db (ensure_transport_alias website video admin draw loaded db).0
  unfolding ensure_transport_alias
  ensure_transport_alias-SameVideos admin draw loaded db =
      let (_, _, v, a) =
        audit_claim-OnlyClaims admin loaded.link.id db _
          (claim_attempts-OnlyClaims max_attempts 1 loaded.link.id draw db) in
      elim (Bool-cases (is_some loaded.link.transport_alias)) [
        | inl t ↦ rw t (refl, refl)
        | inr t ↦ rw t (v, a)
      ]

  answer-SameVideos :
      (k : Kind) (drift : Bool) (db : Db) (m : Db × Result Loaded)
      → SameVideos db m.0
      → SameVideos db (answer env k drift m).0
  answer-SameVideos k drift db (d, err e) h = h
  answer-SameVideos k drift db (d, ok l) h = h

  pub reuse_canonical-is_eligible :
      (admin : Text) (draw : ℕ → Text) (now : ℕ) (loaded : Loaded) (db : Db) (r : Response)
      → (reuse_canonical env website video admin draw now loaded db).1 ≡ ok r
      → is_eligible website video (reuse_canonical env website video admin draw now loaded db).0
        ≡ true
  unfolding reuse_canonical
  reuse_canonical-is_eligible admin draw now loaded db r =
      go (assert_reusable env website video now loaded db) refl
    where
      go :
          (c : Result (Unit {0}))
          → assert_reusable env website video now loaded db ≡ c
          → (after_check env c db (λ d.
              answer env reused false (ensure_transport_alias website video admin draw loaded d))).1
            ≡ ok r
          → is_eligible website video
              (after_check env c db (λ d.
                answer env reused false
                  (ensure_transport_alias website video admin draw loaded d))).0
            ≡ true
      go (err x) a h = ground arith
      go (ok u) a h =
          let m = ensure_transport_alias website video admin draw loaded db in
          is_eligible-SameVideos website video db (answer env reused false m).0
            (answer-SameVideos reused false db m
              (ensure_transport_alias-SameVideos admin draw loaded db))
            (assert_reusable-is_eligible now loaded db u a)

  plan-is_eligible :
      (now : ℕ) (db : Db) (p : Plan)
      → plan website video now db ≡ ok p
      → is_eligible website video db ≡ true
  unfolding plan
  plan-is_eligible now db p e =
      let (_, _, e1) = bind-ok (check (is_active_website website db.websites) _) _ _ e in
      let (x, eligible, _) = bind-ok (check (is_eligible website video db) _) _ _ e1 in
      check-ok (is_eligible website video db) _ x eligible

  module _ (admin pepper : Text) (d : Draw) (now : ℕ) where
    write-SameVideos :
        (p : Plan) (db after : Db) (s : Settled)
        → write env website video admin pepper d now p db ≡ ok (after, s)
        → SameVideos db after
    unfolding write pin_link insert_link insert_canonical
    write-SameVideos p db after s e =
        let ((linked, id), p1, e1) =
          bind-ok (pin_link env website video admin pepper d now p.adopted db) _ _ e in
        let (mapped, p2, e2) =
          bind-ok
            (insert_canonical
              (mapping env website video admin d.canonical_id id p.domain p.snapshot) linked)
            _ _ e1 in
        let (row, _, e3) = bind-ok (found (load_canonical website video mapped) _) _ _ e2 in
        (ground (arith, p1, p2, e3), ground (arith, p1, p2, e3))

    pub create_tx-is_eligible :
        (db : Db) (s : Settled)
        → (create_tx env website video admin pepper d now db).1 ≡ ok s
        → is_eligible website video (create_tx env website video admin pepper d now db).0 ≡ true
    create_tx-is_eligible db s h =
        let (p, q, e) = create_tx-ok env website video admin pepper d now db s h in
        is_eligible-SameVideos website video db _ (write-SameVideos p db _ s e)
          (plan-is_eligible now db p q)
