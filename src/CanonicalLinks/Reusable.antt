-- ===== src/CanonicalLinks/Reusable.antt =====
-- src/admin-websites/canonical-share-link.service.ts: what the checks of a reuse find out about the link,
-- and that the backfill of its transport alias leaves it so.
use bom_media_api.Common.{
  ℕ, ◌≡◌, inl, inr, refl, ap, ◌∙◌, true, not, Option, none, some, [], ◌∷◌, arith, Text, text_eq,
  is_some, Bool-cases,
}
use bom_media_api.ShareLinks.{ShareLinkStatus, is_active, is_revoked}
use bom_media_api.CanonicalLinks.Exact.{only_of}
use bom_media_api.CanonicalLinks.Tables.{Db, Link, is_only}
use bom_media_api.CanonicalLinks.Outcome.{Env, ok, check, bind-ok, check-ok, found-ok, not_found}
use bom_media_api.CanonicalLinks.Reuse.{
  Loaded, is_blank, load_canonical, assert_reusable, assert_anchored_link_honours_contract,
  ensure_transport_alias, claim_attempts, audit_claim, max_attempts,
}
use bom_media_api.CanonicalLinks.Backfill.{
  without, claim_attempts-OnlyClaims, audit_claim-OnlyClaims, load_canonical-without,
}

-- Active, without expiry and limit, with one video.
abbrev pub IsPermanent : Text → Link → Type 0
IsPermanent video l =
    (l.status ≡ ShareLinkStatus.active)
    × (l.expires_at ≡ none)
    × (l.max_views ≡ none)
    × (l.video_ids ≡ video ∷ [])

active_of : (s : ShareLinkStatus) → is_active s ≡ true → s ≡ ShareLinkStatus.active
active_of s h = ground arith

none_of : {A : Type 0} (o : Option A) → not (is_some o) ≡ true → o ≡ none
none_of none h = refl
none_of (some a) h = ground arith

assert_anchored_link_honours_contract-ok :
    (loaded : Loaded) (u : Unit {0})
    → assert_anchored_link_honours_contract loaded ≡ ok u
    → (loaded.link.expires_at ≡ none)
      × (loaded.link.max_views ≡ none)
      × (loaded.link.video_ids ≡ loaded.canonical.video_id ∷ [])
unfolding assert_anchored_link_honours_contract
assert_anchored_link_honours_contract-ok loaded u e =
    let record { canonical = c; link = l } = loaded in
    let (_, _, e1) = bind-ok (check (not (is_blank l.alias)) _) _ _ e in
    let (_, _, e2) = bind-ok (check (text_eq l.website_id c.website_id) _) _ _ e1 in
    let (m, only, e3) = bind-ok (check (is_only c.video_id l.video_ids) _) _ _ e2 in
    let (x, expiry, e4) = bind-ok (check (not (is_some l.expires_at)) _) _ _ e3 in
    (
      none_of l.expires_at (check-ok (not (is_some l.expires_at)) _ x expiry),
      none_of l.max_views (check-ok (not (is_some l.max_views)) _ u e4),
      only_of c.video_id l.video_ids (check-ok (is_only c.video_id l.video_ids) _ m only),
    )

pub IsPermanent-without :
    (video : Text) (l m : Link) → without m ≡ without l → IsPermanent video l → IsPermanent video m
IsPermanent-without video l m e (s, x, v, o) = (
  ap (λ (y : Link). y.status) e ∙ s,
  ap (λ (y : Link). y.expires_at) e ∙ x,
  ap (λ (y : Link). y.max_views) e ∙ v,
  ap (λ (y : Link). y.video_ids) e ∙ o,
)

module _ (env : Env) (website video : Text) where
  pub assert_reusable-ok :
      (now : ℕ) (loaded : Loaded) (db : Db) (u : Unit {0})
      → assert_reusable env website video now loaded db ≡ ok u
      → IsPermanent loaded.canonical.video_id loaded.link
  unfolding assert_reusable
  assert_reusable-ok now loaded db u e =
      let (_, _, e1) = bind-ok (check (not (is_revoked loaded.link.status)) _) _ _ e in
      let (a, active, e2) = bind-ok (check (is_active loaded.link.status) _) _ _ e1 in
      let (c, contract, _) = bind-ok (assert_anchored_link_honours_contract loaded) _ _ e2 in
      let (expiry, limit, only) = assert_anchored_link_honours_contract-ok loaded c contract in
      (
        active_of loaded.link.status (check-ok (is_active loaded.link.status) _ a active),
        expiry,
        limit,
        only,
      )

  pub ensure_transport_alias-without :
      (admin : Text) (draw : ℕ → Text) (loaded again : Loaded) (db : Db)
      → load_canonical website video db ≡ some loaded
      → (ensure_transport_alias website video admin draw loaded db).1 ≡ ok again
      → without again.link ≡ without loaded.link
  unfolding ensure_transport_alias
  ensure_transport_alias-without admin draw loaded again db e h =
      elim (Bool-cases (is_some loaded.link.transport_alias)) [
        | inl t ↦ ground (arith, t, h)
        | inr t ↦
            let after : Db =
              audit_claim admin loaded.link.id
                (claim_attempts max_attempts 1 loaded.link.id draw db) in
            load_canonical-without website video db after loaded again
              (audit_claim-OnlyClaims admin loaded.link.id db _
                (claim_attempts-OnlyClaims max_attempts 1 loaded.link.id draw db))
              e
              (found-ok (load_canonical website video after) not_found again (ground (arith, t, h)))
      ]
