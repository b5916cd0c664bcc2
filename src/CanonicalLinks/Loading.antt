-- ===== src/CanonicalLinks/Loading.antt =====
-- src/admin-websites/canonical-share-link.service.ts: what the look-up of a mapping answers.
use bom_media_api.Common.{
  ◌≡◌, inl, inr, refl, ap, sym, ◌∙◌, none, some, List, [], ◌∷◌, arith, Text, text_eq_iff,
  Option-cases,
}
use bom_media_api.CanonicalLinks.Tables.{Db, Canonical, find_canonical, find_link}
use bom_media_api.CanonicalLinks.Reuse.{Loaded, load_canonical}

pub load_canonical-rows :
    (website video : Text) (db : Db) (r : Loaded)
    → load_canonical website video db ≡ some r
    → (find_canonical website video db.canonicals ≡ some r.canonical)
      × (find_link r.canonical.share_link_id db.links ≡ some r.link)
unfolding load_canonical
load_canonical-rows website video db r e =
    elim (Option-cases (find_canonical website video db.canonicals)) [
      | inl n ↦ ground (arith, e, n)
      | inr (c, n) ↦ elim (Option-cases (find_link c.share_link_id db.links)) [
        | inl m ↦ ground (arith, e, n, m)
        | inr (l, m) ↦
            let loaded : r ≡ record { canonical = c; link = l } = ground (arith, e, n, m) in
            let same = ap (λ (x : Loaded). x.canonical) loaded in
            (
              n ∙ ap some (sym same),
              ap (λ (x : Canonical). find_link x.share_link_id db.links) same
                  ∙ (m ∙ ap (λ (x : Loaded). some x.link) (sym loaded)),
            )
      ]
    ]

pub find_canonical-video_id :
    (website video : Text) (cs : List Canonical) (c : Canonical)
    → find_canonical website video cs ≡ some c
    → c.video_id ≡ video
unfolding find_canonical
find_canonical-video_id website video [] c e = ground arith
find_canonical-video_id website video (d ∷ cs) c e =
    ground (arith, e, find_canonical-video_id website video cs c, text_eq_iff d.video_id video)

-- A mapping that is first in the table is the one of its pair.
pub load_canonical-first :
    (website video : Text) (db : Db) (c : Canonical) (cs : List Canonical) (r : Loaded)
    → db.canonicals ≡ c ∷ cs
    → c.website_id ≡ website
    → c.video_id ≡ video
    → load_canonical website video db ≡ some r
    → r.canonical ≡ c
unfolding load_canonical find_canonical
load_canonical-first website video db c cs r e w v h =
    elim (Option-cases (find_link c.share_link_id db.links)) [
      | inl n ↦
          ground
            (arith, e, w, v, h, n, text_eq_iff c.website_id website, text_eq_iff c.video_id video)
      | inr (l, n) ↦
          ground
            (arith, e, w, v, h, n, text_eq_iff c.website_id website, text_eq_iff c.video_id video)
    ]

pub load_canonical-none :
    (website video : Text) (db : Db)
    → find_canonical website video db.canonicals ≡ none
    → load_canonical website video db ≡ none
unfolding load_canonical
load_canonical-none website video db e = rw e refl
