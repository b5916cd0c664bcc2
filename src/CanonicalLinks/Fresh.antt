-- ===== src/CanonicalLinks/Fresh.antt =====
-- src/admin-websites/canonical-share-link.service.ts: a creation whose draws collide draws again.
use bom_media_api.Common.{
  ℕ, zero, suc, ◌+◌, ◌<◌, ◌≡◌, ◌⊎◌, inl, inr, refl, ap, subst, ◌∙◌, Bool, true, false, ◌||◌, Option,
  none, some, List, [], ◌∷◌, if◌then◌else◌, arith, Text, text_eq, text_eq_refl, trim, any, is_empty,
  ltb,
}
use bom_media_api.CanonicalLinks.Loading.{load_canonical-none}
use bom_media_api.CanonicalLinks.Tables.{
  Db, Canonical, Action, find_canonical, find_link, is_pair, is_active_website,
}
use bom_media_api.ShareUrls.{normalize_website_domain}
use bom_media_api.CanonicalLinks.Answerable.{to_response-ok}
use bom_media_api.CanonicalLinks.Outcome.{
  Env, Result, ok, err, check, bind-ok, check-ok, serialization_conflict, credential_collision,
}
use bom_media_api.CanonicalLinks.Response.{Response, to_response, created}
use bom_media_api.CanonicalLinks.Reuse.{Loaded, load_canonical, max_attempts}
use bom_media_api.CanonicalLinks.Create.{
  Draw, Plan, plan, write, pin_link, insert_link, insert_canonical, mapping, fresh_link,
  shares_credential, create_tx, after_tx, create_attempts, create_or_get_canonical, trimmed,
  reuse_or, is_zero, audited,
}

abbrev pub no_others : ℕ → Db → Db
no_others n db = db

-- The pair is not in the table, and no mapping has the link.
any-none :
    (website video link : Text) (cs : List Canonical)
    → find_canonical website video cs ≡ none
    → any (λ c. text_eq c.share_link_id link) cs ≡ false
    → any (λ c. is_pair website video c || text_eq c.share_link_id link) cs ≡ false
unfolding find_canonical
any-none website video link [] e f = refl
any-none website video link (c ∷ cs) e f = ground (arith, e, f, any-none website video link cs)

plan-is_active_website :
    (website video : Text) (now : ℕ) (db : Db) (p : Plan)
    → plan website video now db ≡ ok p
    → is_active_website website db.websites ≡ true
unfolding plan
plan-is_active_website website video now db p e =
    let (u, h, _) = bind-ok (check (is_active_website website db.websites) _) _ _ e in
    check-ok (is_active_website website db.websites) _ u h

module _ (env : Env) (website video admin : Text) (pepper : Text) (now : ℕ) (db : Db) where
  -- A draw that meets no row.
  abbrev pub IsFresh : Draw → Type 0
  IsFresh d =
      (d.conflicts ≡ false)
      × (any (λ l. text_eq l.id d.link_id) db.links ≡ false)
      × (any (shares_credential (fresh_link env website video admin pepper d now)) db.links ≡ false)
      × (any (λ c. text_eq c.id d.canonical_id) db.canonicals ≡ false)
      × (any (λ c. text_eq c.share_link_id d.link_id) db.canonicals ≡ false)

  -- A draw whose transaction conflicts with another, or whose credential is in use.
  abbrev pub IsLost : Draw → Type 0
  IsLost d =
      (d.conflicts ≡ true)
      ⊎ ((d.conflicts ≡ false)
          × (any (λ l. text_eq l.id d.link_id) db.links ≡ false)
          × (any (shares_credential (fresh_link env website video admin pepper d now)) db.links
              ≡ true))

  module _ (p : Plan) (planned : plan website video now db ≡ ok p) (new : p.adopted ≡ none)
      (absent : find_canonical website video db.canonicals ≡ none) where
    row_of : Draw → Loaded
    row_of d = record {
      canonical = mapping env website video admin d.canonical_id d.link_id p.domain p.snapshot;
      link = fresh_link env website video admin pepper d now;
    }

    created_db : Draw → Db
    created_db d = record db {
      links = fresh_link env website video admin pepper d now ∷ db.links;
      canonicals =
          mapping env website video admin d.canonical_id d.link_id p.domain p.snapshot
          ∷ db.canonicals;
    }

    linked_db : Draw → Db
    linked_db d = record db { links = fresh_link env website video admin pepper d now ∷ db.links }

    inserted_link :
        (d : Draw)
        → IsFresh d
        → insert_link (fresh_link env website video admin pepper d now) db ≡ ok (linked_db d)
    unfolding insert_link fresh_link linked_db
    inserted_link d (_, i, s, _, _) = ground (arith, i, s)

    inserted_canonical :
        (d : Draw)
        → IsFresh d
        → insert_canonical
            (mapping env website video admin d.canonical_id d.link_id p.domain p.snapshot)
            (linked_db d)
          ≡ ok (created_db d)
    unfolding insert_canonical mapping linked_db created_db
    inserted_canonical d (_, _, _, i, l) =
        ground (arith, i, any-none website video d.link_id db.canonicals absent l)

    loaded : (d : Draw) → load_canonical website video (created_db d) ≡ some (row_of d)
    unfolding load_canonical find_canonical find_link created_db row_of mapping fresh_link
    loaded d = rw (text_eq_refl website, text_eq_refl video, text_eq_refl d.link_id) refl

    pinned_link :
        (d : Draw) (o : Option _)
        → o ≡ none
        → IsFresh d
        → pin_link env website video admin pepper d now o db ≡ ok (linked_db d, d.link_id)
    unfolding pin_link
    pinned_link d o n f = rw (n, inserted_link d f) refl

    written :
        (d : Draw)
        → IsFresh d
        → write env website video admin pepper d now p db
          ≡ ok (
            audited admin Action.create d.canonical_id (created_db d),
            record { row = row_of d; adopted = false },
          )
    unfolding write
    written d f = rw (pinned_link d p.adopted new f, inserted_canonical d f, loaded d, new) refl

    create_tx-fresh :
        (d : Draw)
        → IsFresh d
        → create_tx env website video admin pepper d now db ≡ (
          audited admin Action.create d.canonical_id (created_db d),
          ok (record { row = row_of d; adopted = false }),
        )
    unfolding create_tx created_db row_of
    create_tx-fresh d f = rw (f.0, planned, written d f) refl

    lost :
        (d : Draw)
        → (any (λ l. text_eq l.id d.link_id) db.links ≡ false)
        → (any (shares_credential (fresh_link env website video admin pepper d now)) db.links
            ≡ true)
        → write env website video admin pepper d now p db ≡ err credential_collision
    unfolding write pin_link insert_link fresh_link
    lost d i s = rw (new, i, s) refl

    create_tx-lost :
        (d : Draw)
        → IsLost d
        → (create_tx env website video admin pepper d now db ≡ (db, err credential_collision))
          ⊎ (create_tx env website video admin pepper d now db ≡ (db, err serialization_conflict))
    unfolding create_tx
    create_tx-lost d (inl c) = inr (rw c refl)
    create_tx-lost d (inr (c, i, s)) = inl (rw (c, planned, lost d i s) refl)

    created_state : Draw → Db
    unfolding created_db
    created_state d = audited admin Action.create d.canonical_id (created_db d)

    response_of : Draw → Result Response
    unfolding row_of
    response_of d =
        to_response env created false
          (mapping env website video admin d.canonical_id d.link_id p.domain p.snapshot)
          (fresh_link env website video admin pepper d now)

    after_fresh :
        (draw : ℕ → Text) (last : Bool) (d : Draw) (retry : Db → Db × Result Response)
        → IsFresh d
        → after_tx env website video admin draw now last
            (create_tx env website video admin pepper d now db)
            retry
          ≡ (created_state d, response_of d)
    unfolding after_tx response_of row_of created_state created_db
    after_fresh draw last d retry f = rw (create_tx-fresh d f) refl

    after_lost :
        (draw : ℕ → Text) (d : Draw) (retry : Db → Db × Result Response)
        → IsLost d
        → after_tx env website video admin draw now false
            (create_tx env website video admin pepper d now db)
            retry
          ≡ retry db
    unfolding after_tx
    after_lost draw d retry l = elim (create_tx-lost d l) [ inl e ↦ rw e refl | inr e ↦ rw e refl ]

    no_reuse :
        (draw : ℕ → Text) (b : Bool) (rest : Db → Db × Result Response)
        → reuse_or env website video admin draw now db
            (if b then load_canonical website video db else none)
            rest
          ≡ rest db
    no_reuse draw true rest = rw (load_canonical-none website video db absent) refl
    no_reuse draw false rest = refl

    create_attempts-fresh :
        (left attempt j : ℕ) (draws : ℕ → Draw) (draw : ℕ → Text)
        → j < left
        → ((i : ℕ) → i < j → IsLost (draws (i + attempt)))
        → IsFresh (draws (j + attempt))
        → create_attempts env website video admin left attempt pepper draws draw no_others now db
          ≡ (created_state (draws (j + attempt)), response_of (draws (j + attempt)))
    unfolding create_attempts
    create_attempts-fresh zero attempt j draws draw b l f = ground arith
    create_attempts-fresh (suc left) attempt zero draws draw b l f =
        no_reuse draw (ltb 1 attempt) _
        ∙ (after_fresh draw (is_zero env website video admin left) (draws attempt) _
              (subst (λ n. IsFresh (draws n)) (omega arith) f)
            ∙ ap (λ n. (created_state (draws n), response_of (draws n))) (omega arith))
    create_attempts-fresh (suc (suc left)) attempt (suc j) draws draw b l f =
        no_reuse draw (ltb 1 attempt) _
        ∙ (after_lost draw (draws attempt) _
              (subst (λ n. IsLost (draws n)) (omega arith) (l 0 (omega arith)))
            ∙ (create_attempts-fresh (suc left) (suc attempt) j draws draw (omega arith)
                  (λ i h. subst (λ n. IsLost (draws n)) (omega arith) (l (suc i) (omega arith)))
                  (subst (λ n. IsFresh (draws n)) (omega arith) f)
                ∙ ap (λ n. (created_state (draws n), response_of (draws n))) (omega arith)))
    create_attempts-fresh (suc zero) attempt (suc j) draws draw b l f = ground arith

    -- A creation whose draws collide draws again, and is done with the first draw that does not.
    -- If the website and the video allow a link, no link of the website holds just the video,
    -- nothing is pinned, up to four draws are lost to a serialization conflict or to a credential in
    -- use and the next meets no row, then the answer is a created link, with the new row and the
    -- alias of that draw; the database has that row and its mapping besides what it had, and an
    -- audit row. The domain of the website names a host, the alias that was drawn is not blank, and
    -- no other requests run meanwhile.
    pub create_or_get_canonical-created :
        (draws : ℕ → Draw) (draw : ℕ → Text) (j : ℕ) (host : Text)
        → trimmed env.share_token_pepper ≡ some pepper
        → is_empty pepper ≡ false
        → j < max_attempts
        → ((i : ℕ) → i < j → IsLost (draws (i + 1)))
        → IsFresh (draws (j + 1))
        → normalize_website_domain env.js (trim p.domain.domain) ≡ some host
        → is_empty (trim (draws (j + 1)).alias) ≡ false
        → (r : Response) × (create_or_get_canonical env website video admin draws draw no_others now
              db
            ≡ (
              audited admin Action.create (draws (j + 1)).canonical_id (record db {
                links = fresh_link env website video admin pepper (draws (j + 1)) now ∷ db.links;
                canonicals =
                    mapping env website video admin
                      (draws (j + 1)).canonical_id
                      (draws (j + 1)).link_id
                      p.domain
                      p.snapshot
                    ∷ db.canonicals;
              }),
              ok r,
            ))
          × (r.outcome ≡ created)
          × (r.alias ≡ (draws (j + 1)).alias)
          × (r.share_link ≡ fresh_link env website video admin pepper (draws (j + 1)) now)
    unfolding create_or_get_canonical response_of created_state created_db row_of mapping fresh_link
    create_or_get_canonical-created draws draw j host e n b l f h a =
        let d = draws (j + 1) in
        let (r, q, outcome, alias, link) =
          to_response-ok env
            (mapping env website video admin d.canonical_id d.link_id p.domain p.snapshot) host h
            created false (fresh_link env website video admin pepper d now) a in
        (
          r,
          rw
              (
                plan-is_active_website website video now db p planned,
                load_canonical-none website video db absent,
                e,
                n,
              )
              (create_attempts-fresh max_attempts 1 j draws draw b l f
                ∙ ap (λ x. (created_state d, x)) q),
          outcome,
          alias,
          link,
        )
