-- ===== src/CanonicalLinks/Pinned.antt =====
-- A canonical link is permanent: src/admin-websites/canonical-share-link.service.ts and what runs
-- beside it.
use bom_media_api.Common.{
  ℕ, ◌≡◌, inl, inr, refl, ap, ◌∙◌, true, false, ◌||◌, Option, none, some, List, [], ◌∷◌, any, arith,
  Text, text_eq, text_eq_iff, Bool-cases, Option-cases,
}
use bom_media_api.ShareLinks.{ShareLinkStatus}
use bom_media_api.Canonical.{Candidate}
use bom_media_api.CanonicalLinks.Tables.{Db, Link, Canonical, find_canonical, find_link, is_pair}
use bom_media_api.CanonicalLinks.Outcome.{Env, Result, ok, err, ◌>>=◌, found, bind-ok, found-ok}
use bom_media_api.CanonicalLinks.Reuse.{load_canonical, claim_links, claim_transport_alias}
use bom_media_api.CanonicalLinks.Create.{
  Draw, Plan, Settled, plan, insert_link, insert_canonical, pin_link, fresh_link, mapping, write,
  create_tx, adopt_tx,
}
use bom_media_api.CanonicalLinks.Steps.{
  Step, creates, adopts, claims, sets_link_status, edits, set_link_status, step, run,
}

-- What identifies a link never changes: all but its transport alias and its status.
abbrev pub identity_of : Option Link → Option Link
identity_of none = none
identity_of (some l) = some (record l { transport_alias = none; status = ShareLinkStatus.active })

-- The mapping of a pair, and the identity of a link.
abbrev pub pinned : Text → Text → Db → Option Canonical
pinned website video db = find_canonical website video db.canonicals

abbrev pub identity : Text → Db → Option Link
identity id db = identity_of (find_link id db.links)

-- An operation keeps what is there: each mapping, and the identity of each link.
pub record Keeps (db after : Db) : Type 0 where
  pub canonicals_kept :
      (website video : Text) (c : Canonical)
      → pinned website video db ≡ some c
      → pinned website video after ≡ some c
  pub links_kept : (id : Text) (l : Link) → identity id db ≡ some l → identity id after ≡ some l

pub Keeps-refl : (db : Db) → Keeps db db
Keeps-refl db = record { canonicals_kept = λ _ _ _ h. h; links_kept = λ _ _ h. h }

pub Keeps-trans : (a b c : Db) → Keeps a b → Keeps b c → Keeps a c
Keeps-trans a b c k m = record {
  canonicals_kept = λ w v x h. m.canonicals_kept w v x (k.canonicals_kept w v x h);
  links_kept = λ i l h. m.links_kept i l (k.links_kept i l h);
}

-- An inserted row is found behind none of its pair.
any_pair :
    (website video : Text) (cs : List Canonical) (new c : Canonical)
    → is_pair website video new ≡ true
    → find_canonical website video cs ≡ some c
    → any
        (λ d. is_pair new.website_id new.video_id d || text_eq d.share_link_id new.share_link_id)
        cs
      ≡ true
unfolding find_canonical
any_pair website video [] new c p h = cc
any_pair website video (d ∷ ds) new c p h = ground (
  arith,
  any_pair website video ds new c p,
  text_eq_iff new.website_id website,
  text_eq_iff new.video_id video,
  text_eq_iff d.website_id website,
  text_eq_iff d.video_id video,
  text_eq_iff d.website_id new.website_id,
  text_eq_iff d.video_id new.video_id,
)

insert_canonical-Keeps :
    (new : Canonical) (db after : Db) → insert_canonical new db ≡ ok after → Keeps db after
unfolding insert_canonical find_canonical
insert_canonical-Keeps new db after e = record {
  canonicals_kept = λ w v c h. kept w v c h;
  links_kept = λ i l h. ground (arith, e, h);
}
  where
    kept : (w v : Text) (c : Canonical) → pinned w v db ≡ some c → pinned w v after ≡ some c
    kept w v c h = elim (Bool-cases (is_pair w v new)) [
      | inl p ↦ ground (arith, e, h, p, any_pair w v db.canonicals new c p h)
      | inr p ↦ ground (arith, e, h, p)
    ]

-- A new link takes no id that is taken.
any_id :
    (id : Text) (ls : List Link) (new l : Link)
    → text_eq new.id id ≡ true
    → find_link id ls ≡ some l
    → any (λ m. text_eq m.id new.id) ls ≡ true
unfolding find_link
any_id id [] new l p h = cc
any_id id (m ∷ ls) new l p h = ground (
  arith,
  any_id id ls new l p,
  text_eq_iff new.id id,
  text_eq_iff m.id id,
  text_eq_iff m.id new.id,
)

insert_link-Keeps : (new : Link) (db after : Db) → insert_link new db ≡ ok after → Keeps db after
unfolding insert_link find_link
insert_link-Keeps new db after e = record {
  canonicals_kept = λ w v c h. ground (arith, e, h);
  links_kept = λ i l h. kept i l h;
}
  where
    kept : (i : Text) (l : Link) → identity i db ≡ some l → identity i after ≡ some l
    kept i l h = elim (Option-cases (find_link i db.links)) [
      | inl n ↦ ground (arith, h, n)
      | inr (m, n) ↦ elim (Bool-cases (text_eq new.id i)) [
        | inl p ↦ ground (arith, e, h, n, p, any_id i db.links new m p n)
        | inr p ↦ ground (arith, e, h, n, p)
      ]
    ]

-- The other changes of links keep their identities.
identity-claim_links :
    (id alias i : Text) (ls : List Link)
    → identity_of (find_link i (claim_links id alias ls)) ≡ identity_of (find_link i ls)
unfolding find_link claim_links
identity-claim_links id alias i [] = refl
identity-claim_links id alias i (l ∷ ls) = ground (arith, identity-claim_links id alias i ls)

identity-set_link_status :
    (id i : Text) (status : ShareLinkStatus) (ls : List Link)
    → identity_of (find_link i (set_link_status id status ls)) ≡ identity_of (find_link i ls)
unfolding find_link set_link_status
identity-set_link_status id i status [] = refl
identity-set_link_status id i status (l ∷ ls) =
    ground (arith, identity-set_link_status id i status ls)

pub claim_transport_alias-Keeps :
    (id alias : Text) (db : Db) → Keeps db (claim_transport_alias id alias db).0
unfolding claim_transport_alias
claim_transport_alias-Keeps id alias db = record {
  canonicals_kept = λ w v c h. ground (arith, h);
  links_kept = λ i l h. ground (arith, h, identity-claim_links id alias i db.links);
}

-- Equal tables of mappings and links.
pub Keeps-tables :
    (db after : Db) → after.canonicals ≡ db.canonicals → after.links ≡ db.links → Keeps db after
Keeps-tables db after c l = record {
  canonicals_kept = λ w v x h. ap (find_canonical w v) c ∙ h;
  links_kept = λ i x h. ap (λ ls. identity_of (find_link i ls)) l ∙ h;
}

module _ (env : Env) (website video admin : Text) where
  pin_link-Keeps :
      (pepper : Text) (d : Draw) (now : ℕ) (w : Option Candidate) (db after : Db) (id : Text)
      → pin_link env website video admin pepper d now w db ≡ ok (after, id)
      → Keeps db after
  unfolding pin_link
  pin_link-Keeps pepper d now (some w) db after id e =
      Keeps-tables db after (ground (arith, e)) (ground (arith, e))
  pin_link-Keeps pepper d now none db after id e =
      let (db', p, q) =
        bind-ok (insert_link (fresh_link env website video admin pepper d now) db) _ _ e in
      insert_link-Keeps (fresh_link env website video admin pepper d now) db after
        (p ∙ ap ok (ground (arith, q)))

  -- What a creation that succeeds writes: it keeps what is there, and leaves the mapping it answers.
  pub write-Keeps :
      (pepper : Text) (d : Draw) (now : ℕ) (p : Plan) (db after : Db) (s : Settled)
      → write env website video admin pepper d now p db ≡ ok (after, s)
      → Keeps db after × (load_canonical website video after ≡ some s.row)
  unfolding write load_canonical
  write-Keeps pepper d now p db after s e =
      let ((linked, id), p1, e1) =
        bind-ok (pin_link env website video admin pepper d now p.adopted db) _ _ e in
      let (mapped, p2, e2) =
        bind-ok
          (insert_canonical (mapping env website video admin d.canonical_id id p.domain p.snapshot)
            linked)
          _ _ e1 in
      let (row, p3, e3) = bind-ok (found (load_canonical website video mapped) _) _ _ e2 in
      (
        Keeps-trans db linked after (pin_link-Keeps pepper d now p.adopted db linked id p1) (
            Keeps-trans linked mapped after (insert_canonical-Keeps _ linked mapped p2)
              (Keeps-tables mapped after (ground (arith, e3)) (ground (arith, e3)))),
        ground (arith, e3, found-ok (load_canonical website video mapped) _ row p3),
      )

  -- A creation keeps what is there, and leaves the mapping that it answers.
  pub create_tx-Keeps :
      (pepper : Text) (d : Draw) (now : ℕ) (db : Db)
      → Keeps db (create_tx env website video admin pepper d now db).0
  unfolding create_tx
  create_tx-Keeps pepper d now db = elim (Bool-cases d.conflicts) [
    | inl c ↦ Keeps-tables db _ (ground (arith, c)) (ground (arith, c))
    | inr c ↦
        go (plan website video now db >>= λ p. write env website video admin pepper d now p db) refl
          c
  ]
    where
      go :
          (r : Result (Db × Settled))
          → (plan website video now db >>= λ p. write env website video admin pepper d now p db) ≡ r
          → d.conflicts ≡ false
          → Keeps db (create_tx env website video admin pepper d now db).0
      go (err x) e c = Keeps-tables db _ (ground (arith, e, c)) (ground (arith, e, c))
      go (ok (after, s)) e c =
          let (p, _, w) = bind-ok (plan website video now db) _ _ e in
          let k = (write-Keeps pepper d now p db after s w).0 in
          Keeps-trans db after _ k
            (Keeps-tables after _ (ground (arith, e, c)) (ground (arith, e, c)))

  pub create_tx-row :
      (pepper : Text) (d : Draw) (now : ℕ) (db : Db) (s : Settled)
      → (create_tx env website video admin pepper d now db).1 ≡ ok s
      → load_canonical website video (create_tx env website video admin pepper d now db).0
        ≡ some s.row
  unfolding create_tx
  create_tx-row pepper d now db s h = elim (Bool-cases d.conflicts) [
    | inl c ↦ ground (arith, c)
    | inr c ↦
        go (plan website video now db >>= λ p. write env website video admin pepper d now p db) refl
          c
  ]
    where
      go :
          (r : Result (Db × Settled))
          → (plan website video now db >>= λ p. write env website video admin pepper d now p db) ≡ r
          → d.conflicts ≡ false
          → load_canonical website video (create_tx env website video admin pepper d now db).0
            ≡ some s.row
      go (err x) e c = ground (arith, e, c, h)
      go (ok (after, r)) e c =
          let (p, _, w) = bind-ok (plan website video now db) _ _ e in
          let row = (write-Keeps pepper d now p db after r w).1 in ground (arith, e, c, h, row)

  adopt_tx-Keeps : (c : Canonical) (db : Db) → Keeps db (adopt_tx env website video admin c db).0
  unfolding adopt_tx
  adopt_tx-Keeps c db = go (insert_canonical c db) refl
    where
      go :
          (r : Result Db)
          → insert_canonical c db ≡ r
          → Keeps db (adopt_tx env website video admin c db).0
      go (err x) e = Keeps-tables db _ (ground (arith, e)) (ground (arith, e))
      go (ok mapped) e = elim (Option-cases (load_canonical c.website_id c.video_id mapped)) [
        | inl n ↦ Keeps-tables db _ (ground (arith, e, n)) (ground (arith, e, n))
        | inr (row, n) ↦
            Keeps-trans db mapped _ (insert_canonical-Keeps c db mapped e)
              (Keeps-tables mapped _ (ground (arith, e, n)) (ground (arith, e, n)))
      ]

pub step-Keeps : (env : Env) (db : Db) (s : Step) → Keeps db (step env db s)
unfolding step
step-Keeps env db (creates website video admin pepper d now) =
    create_tx-Keeps env website video admin pepper d now db
step-Keeps env db (adopts website video admin c) = adopt_tx-Keeps env website video admin c db
step-Keeps env db (claims link alias) = claim_transport_alias-Keeps link alias db
step-Keeps env db (sets_link_status link status) = record {
  canonicals_kept = λ _ _ _ h. h;
  links_kept = λ i l h. identity-set_link_status link i status db.links ∙ h;
}
step-Keeps env db (edits ws ds vs as') = Keeps-tables db _ refl refl

pub run-Keeps : (env : Env) (db : Db) (ss : List Step) → Keeps db (run env db ss)
unfolding run
run-Keeps env db [] = Keeps-refl db
run-Keeps env db (s ∷ ss) =
    Keeps-trans db (step env db s) _ (step-Keeps env db s) (run-Keeps env (step env db s) ss)
