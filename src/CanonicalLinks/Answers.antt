-- ===== src/CanonicalLinks/Answers.antt =====
-- src/admin-websites/canonical-share-link.service.ts: what holds of a reused and of a created link
-- holds of each answer of createOrGetCanonical, whatever attempts and other requests come before.
use bom_media_api.Common.{
  ℕ, zero, suc, ◌+◌, ◌*◌, ◌≡◌, refl, Bool, true, false, not, Option, none, some, [], ◌∷◌,
  if◌then◌else◌, arith, Text, ltb,
}
use bom_media_api.CanonicalLinks.Tables.{Db, is_active_website}
use bom_media_api.CanonicalLinks.Outcome.{
  Env, Result, ok, err, website_not_found, pair_conflict, credential_collision,
  serialization_conflict,
}
use bom_media_api.CanonicalLinks.Response.{Response, created, to_response}
use bom_media_api.CanonicalLinks.Reuse.{
  Loaded, load_canonical, reuse_canonical, answer, max_attempts,
}
use bom_media_api.CanonicalLinks.Create.{
  Draw, Settled, create_tx, after_tx, create_attempts, create_or_get_canonical, reuse_or,
  with_pepper, trimmed, is_zero,
}
use bom_media_api.CanonicalLinks.Pinned.{create_tx-row}

module _ (env : Env) (website video admin : Text) (Holds : Response → Db → Type 0) where
  module _
      (reuses : (draw : ℕ → Text) (now : ℕ) (loaded : Loaded) (db : Db) (r : Response)
        → load_canonical website video db ≡ some loaded
        → (reuse_canonical env website video admin draw now loaded db).1 ≡ ok r
        → Holds r (reuse_canonical env website video admin draw now loaded db).0)
      (creates : (pepper : Text) (d : Draw) (now : ℕ) (db : Db) (s : Settled) (r : Response)
        → (create_tx env website video admin pepper d now db).1 ≡ ok s
        → s.adopted ≡ false
        → to_response env created false s.row.canonical s.row.link ≡ ok r
        → Holds r (create_tx env website video admin pepper d now db).0) where
    reuse_or-answers :
        (draw : ℕ → Text) (now : ℕ) (db : Db) (o : Option Loaded)
        → (rest : Db → Db × Result Response) (r : Response)
        → ((loaded : Loaded) → o ≡ some loaded → load_canonical website video db ≡ some loaded)
        → ((d : Db) → (rest d).1 ≡ ok r → Holds r (rest d).0)
        → (reuse_or env website video admin draw now db o rest).1 ≡ ok r
        → Holds r (reuse_or env website video admin draw now db o rest).0
    reuse_or-answers draw now db none rest r e k h = k db h
    reuse_or-answers draw now db (some loaded) rest r e k h =
        reuses draw now loaded db r (e loaded refl) h

    after_tx-answers :
        (draw : ℕ → Text) (now : ℕ) (last : Bool) (m : Db × Result Settled)
        → (retry : Db → Db × Result Response) (r : Response)
        → ((s : Settled) → m.1 ≡ ok s → load_canonical website video m.0 ≡ some s.row)
        → ((s : Settled)
            → m.1 ≡ ok s
            → s.adopted ≡ false
            → to_response env created false s.row.canonical s.row.link ≡ ok r
            → Holds r m.0)
        → ((d : Db) → (retry d).1 ≡ ok r → Holds r (retry d).0)
        → (after_tx env website video admin draw now last m retry).1 ≡ ok r
        → Holds r (after_tx env website video admin draw now last m retry).0
    unfolding after_tx
    after_tx-answers draw now last (db, ok s) retry r e c k h = go s.adopted refl h
      where
        go :
            (b : Bool)
            → s.adopted ≡ b
            → (if b
                then reuse_canonical env website video admin draw now s.row db
                else answer env created false (db, ok s.row)).1
              ≡ ok r
            → Holds r
                (if b
                  then reuse_canonical env website video admin draw now s.row db
                  else answer env created false (db, ok s.row)).0
        go true _ g = reuses draw now s.row db r (e s refl) g
        go false f g = c s refl f g
    after_tx-answers draw now last (db, err pair_conflict) retry r e c k h =
        reuse_or-answers draw now db (load_canonical website video db) retry r (λ _ q. q) k h
    after_tx-answers draw now true (db, err credential_collision) retry r e c k h = ground arith
    after_tx-answers draw now false (db, err credential_collision) retry r e c k h = k db h
    after_tx-answers draw now true (db, err serialization_conflict) retry r e c k h = ground arith
    after_tx-answers draw now false (db, err serialization_conflict) retry r e c k h = k db h
    after_tx-answers draw now last (db, err x) retry r e c k h = ground arith

    create_attempts-answers :
        (left attempt : ℕ) (pepper : Text) (draws : ℕ → Draw) (draw : ℕ → Text)
        → (others : ℕ → Db → Db) (now : ℕ) (db : Db) (r : Response)
        → (create_attempts env website video admin left attempt pepper draws draw others now db).1
          ≡ ok r
        → Holds r
            (create_attempts env website video admin left attempt pepper draws draw others now db).0
    unfolding create_attempts
    create_attempts-answers zero attempt pepper draws draw others now db r h = ground arith
    create_attempts-answers (suc left) attempt pepper draws draw others now db r h =
        reuse_or-answers draw now (others (2 * attempt) db) _ _ r (raced (ltb 1 attempt))
          (λ d.
            after_tx-answers draw now (is_zero env website video admin left)
              (create_tx env website video admin pepper (draws attempt) now
                (others (2 * attempt + 1) d))
              _ r
              (create_tx-row env website video admin pepper (draws attempt) now
                (others (2 * attempt + 1) d))
              (λ s. creates pepper (draws attempt) now (others (2 * attempt + 1) d) s r)
              (λ d'. create_attempts-answers left (suc attempt) pepper draws draw others now d' r))
          h
      where
        raced :
            (b : Bool) (loaded : Loaded)
            → (if b then load_canonical website video (others (2 * attempt) db) else none)
              ≡ some loaded
            → load_canonical website video (others (2 * attempt) db) ≡ some loaded
        raced true loaded e = e
        raced false loaded e = ground arith

    pub create_or_get_canonical-answers :
        (draws : ℕ → Draw) (draw : ℕ → Text) (others : ℕ → Db → Db) (now : ℕ) (db : Db)
        → (r : Response)
        → (create_or_get_canonical env website video admin draws draw others now db).1 ≡ ok r
        → Holds r (create_or_get_canonical env website video admin draws draw others now db).0
    unfolding create_or_get_canonical
    create_or_get_canonical-answers draws draw others now db r =
        go (is_active_website website db.websites) (trimmed env.share_token_pepper)
      where
        attempts : Text → Db → Db × Result Response
        attempts pepper d =
            create_attempts env website video admin max_attempts 1 pepper draws draw others now d

        peppered :
            (p : Option Text) (d : Db)
            → (with_pepper env website video admin p attempts d).1 ≡ ok r
            → Holds r (with_pepper env website video admin p attempts d).0
        peppered none d h = ground arith
        peppered (some []) d h = ground arith
        peppered (some (c ∷ p)) d h =
            create_attempts-answers max_attempts 1 (c ∷ p) draws draw others now d r h

        go :
            (b : Bool) (p : Option Text)
            → (if not b
                then (db, err website_not_found)
                else reuse_or env website video admin draw now db
                    (load_canonical website video db)
                    (with_pepper env website video admin p attempts)).1
              ≡ ok r
            → Holds r
                (if not b
                  then (db, err website_not_found)
                  else reuse_or env website video admin draw now db
                      (load_canonical website video db)
                      (with_pepper env website video admin p attempts)).0
        go false p h = ground arith
        go true p h =
            reuse_or-answers draw now db (load_canonical website video db) _ r (λ _ q. q)
              (peppered p) h
