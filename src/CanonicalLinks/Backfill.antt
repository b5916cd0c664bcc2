-- ===== src/CanonicalLinks/Backfill.antt =====
-- src/admin-websites/canonical-share-link.service.ts: the backfill of a transport alias leaves all else of a
-- link as it is.
use bom_media_api.Common.{
  ℕ, zero, suc, ◌≡◌, refl, ap, sym, ◌∙◌, Option, none, some, List, [], ◌∷◌, arith, Text,
}
use bom_media_api.CanonicalLinks.Loading.{load_canonical-rows}
use bom_media_api.CanonicalLinks.Tables.{Db, Link, Canonical, find_canonical, find_link}
use bom_media_api.CanonicalLinks.Reuse.{
  Loaded, load_canonical, claim_links, claim_attempts, claim_transport_alias, Claim, collided,
  missed, claimed, audit_claim, after_claim,
}

-- A claim of a transport alias changes nothing else of the link.
abbrev pub without : Link → Link
without l = record l { transport_alias = none }

abbrev without_of : Option Link → Option Link
without_of none = none
without_of (some l) = some (without l)

abbrev pub OnlyClaims : Db → Db → Type 0
OnlyClaims db after =
    (after.canonicals ≡ db.canonicals)
    × ((i : Text) → without_of (find_link i after.links) ≡ without_of (find_link i db.links))
    × (after.videos ≡ db.videos)
    × (after.assignments ≡ db.assignments)

without-claim_links :
    (id alias i : Text) (ls : List Link)
    → without_of (find_link i (claim_links id alias ls)) ≡ without_of (find_link i ls)
unfolding find_link claim_links
without-claim_links id alias i [] = refl
without-claim_links id alias i (l ∷ ls) = ground (arith, without-claim_links id alias i ls)

claim_transport_alias-OnlyClaims :
    (id alias : Text) (db : Db) → OnlyClaims db (claim_transport_alias id alias db).0
unfolding claim_transport_alias
claim_transport_alias-OnlyClaims id alias db = (
  ground arith,
  λ i. ground (arith, without-claim_links id alias i db.links),
  ground arith,
  ground arith,
)

OnlyClaims-trans : (a b c : Db) → OnlyClaims a b → OnlyClaims b c → OnlyClaims a c
OnlyClaims-trans a b c (p, f, v, x) (q, g, w, y) = (q ∙ p, λ i. g i ∙ f i, w ∙ v, y ∙ x)

after_claim-OnlyClaims :
    (db : Db) (m : Db × Claim) (again : Db → Db × Claim)
    → OnlyClaims db m.0
    → ((d : Db) → OnlyClaims d (again d).0)
    → OnlyClaims db (after_claim m again).0
after_claim-OnlyClaims db (d, collided) again k h = OnlyClaims-trans db d (again d).0 k (h d)
after_claim-OnlyClaims db (d, missed) again k h = k
after_claim-OnlyClaims db (d, claimed) again k h = k

pub claim_attempts-OnlyClaims :
    (left attempt : ℕ) (id : Text) (draw : ℕ → Text) (db : Db)
    → OnlyClaims db (claim_attempts left attempt id draw db).0
unfolding claim_attempts
claim_attempts-OnlyClaims zero attempt id draw db = (refl, λ _. refl, refl, refl)
claim_attempts-OnlyClaims (suc left) attempt id draw db =
    after_claim-OnlyClaims db (claim_transport_alias id (draw attempt) db)
      (λ d. claim_attempts left (suc attempt) id draw d)
      (claim_transport_alias-OnlyClaims id (draw attempt) db)
      (λ d. claim_attempts-OnlyClaims left (suc attempt) id draw d)

pub audit_claim-OnlyClaims :
    (admin id : Text) (db : Db) (m : Db × Claim)
    → OnlyClaims db m.0
    → OnlyClaims db (audit_claim admin id m)
audit_claim-OnlyClaims admin id db (d, collided) k = k
audit_claim-OnlyClaims admin id db (d, missed) k = k
audit_claim-OnlyClaims admin id db (d, claimed) k = k

pub load_canonical-without :
    (website video : Text) (db after : Db) (loaded again : Loaded)
    → OnlyClaims db after
    → load_canonical website video db ≡ some loaded
    → load_canonical website video after ≡ some again
    → without again.link ≡ without loaded.link
load_canonical-without website video db after loaded again (c, l, _, _) e f =
    let (c1, l1) = load_canonical-rows website video db loaded e in
    let (c2, l2) = load_canonical-rows website video after again f in
    let same : again.canonical ≡ loaded.canonical =
      ground (arith, sym c2 ∙ (ap (find_canonical website video) c ∙ c1)) in
    let found_link : find_link loaded.canonical.share_link_id after.links ≡ some again.link =
      ap (λ (x : Canonical). find_link x.share_link_id after.links) (sym same) ∙ l2 in
    ground (
      arith,
      sym (ap without_of found_link) ∙ (l loaded.canonical.share_link_id ∙ ap without_of l1),
    )
