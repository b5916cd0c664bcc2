-- ===== src/CanonicalLinks/History.antt =====
-- src/admin-websites/canonical-share-link.service.ts: which link the transaction of a creation pins.
use bom_media_api.CanonicalLinks.Exact.{
  InLinks, IsExact, candidate_of, In-candidates, candidates-In,
}
use bom_media_api.Common.{
  ◌<◌, ◌≢◌, subst, text_lt, trim, ℕ, ◌≡◌, ◌⊎◌, inl, inr, refl, ap, sym, ◌∙◌, Bool, true, false,
  Option, none, some, List, [], ◌∷◌, if◌then◌else◌, arith, Text, is_some, Option-cases,
}
use bom_media_api.Canonical.{AnchoredPair, Candidate, select_canonical_historical_winner}
use bom_media_api.Canonical.Winner.{In, IsNewest, winner-IsNewest, winner-eq-none_iff}
use bom_media_api.Canonical.Blockers.{IsPinnable, assess-eq-none_iff, select-blocker}
use bom_media_api.CanonicalLinks.Loading.{load_canonical-first}
use bom_media_api.CanonicalLinks.Tables.{
  Db, Link, Canonical, find_anchored, pair_of, find_active_domain, is_active_website, is_eligible,
  find_exact_single_video_candidates,
}
use bom_media_api.CanonicalLinks.Outcome.{
  Env, Result, ok, err, check, found, bind-ok, found-ok, serialization_conflict,
}
use bom_media_api.CanonicalLinks.Evidence.{build_evidence_snapshot}
use bom_media_api.CanonicalLinks.Reuse.{Loaded, load_canonical}
use bom_media_api.CanonicalLinks.Create.{
  Draw, Plan, Settled, plan, winner_of, write, pin_link, insert_link, insert_canonical, mapping,
  fresh_link, create_tx, commit,
}

abbrev pub candidates : Text → Text → Db → List Candidate
candidates website video db =
    find_exact_single_video_candidates website video db.canonicals db.links

abbrev pub pair : Text → Text → AnchoredPair
pair website video = record { website_id = website; video_id = video }

-- The latest link of the website with the video and no other.
abbrev pub IsLatest : Text → Text → Link → Db → Type 0
IsLatest website video l db =
    InLinks l db.links
    × IsExact website video l
    × ((m : Link)
        → InLinks m db.links
        → IsExact website video m
        → (m.created_at < l.created_at)
          ⊎ ((m.created_at ≡ l.created_at) × (text_lt l.id m.id ≡ false)))

-- With an alias, without expiry and limit, and not the link of another pair.
abbrev pub IsUnrestricted : Text → Text → Link → Db → Type 0
IsUnrestricted website video l db =
    ((t : Text) × (l.alias ≡ some t) × (trim t ≢ []))
    × (l.expires_at ≡ none)
    × (l.max_views ≡ none)
    × ((c : Canonical)
        → find_anchored l.id db.canonicals ≡ some c
        → (c.website_id ≡ website) × (c.video_id ≡ video))

none-IsExact :
    (website video : Text) (db : Db)
    → candidates website video db ≡ []
    → (l : Link) → InLinks l db.links
    → ¬ IsExact website video l
none-IsExact website video db e l i x =
    subst (In (candidate_of db.canonicals l)) e
      (candidates-In website video db.canonicals db.links l i x)

anchored_of :
    (website video : Text) (o : Option Canonical)
    → (pair_of o ≡ none) ⊎ (pair_of o ≡ some (pair website video))
    → (c : Canonical) → o ≡ some c
    → (c.website_id ≡ website) × (c.video_id ≡ video)
anchored_of website video none h c e = ground arith
anchored_of website video (some d) h c e = ground (arith, h, e)

newest-IsLatest :
    (website video : Text) (db : Db) (w : Candidate)
    → IsNewest w (candidates website video db)
    → IsPinnable w (pair website video)
    → (l : Link) × IsLatest website video l db × IsUnrestricted website video l db × (w.id ≡ l.id)
newest-IsLatest website video db w (i, newest) p =
    let (l, held, exact, same) = In-candidates website video db.canonicals db.links w i in
    let (alias, expiry, limit, anchored) =
      subst (λ (x : Candidate). IsPinnable x (pair website video)) same p in
    (
      l,
      (
        held,
        exact,
        λ m j x.
            subst
              (λ (y : Candidate).
                (m.created_at < y.created_at)
                ⊎ ((m.created_at ≡ y.created_at) × (text_lt y.id m.id ≡ false)))
              same
              (newest (candidate_of db.canonicals m)
                (candidates-In website video db.canonicals db.links m j x)),
      ),
      (alias, expiry, limit, anchored_of website video (find_anchored l.id db.canonicals) anchored),
      ap (λ (x : Candidate). x.id) same,
    )

winner_of-ok :
    (cs : List Candidate) (p : AnchoredPair) (o : Option Candidate)
    → winner_of (select_canonical_historical_winner cs p) ≡ ok o
    → ((o ≡ none) × (cs ≡ [])) ⊎ ((w : Candidate) × (o ≡ some w) × IsNewest w cs × IsPinnable w p)
winner_of-ok cs p o h = elim (Option-cases (select_canonical_historical_winner cs p).winner) [
  | inl n ↦ inl (ground (arith, n, h), (winner-eq-none_iff cs p).0 n)
  | inr (w, n) ↦
      let free : (select_canonical_historical_winner cs p).pin_blocker ≡ none =
        ground (arith, n, h) in
      inr (
        w,
        ground (arith, n, h, free),
        winner-IsNewest cs p w n,
        (assess-eq-none_iff w p).0 (sym (select-blocker cs p w n) ∙ free),
      )
]

tx-ok :
    (b : Bool) (db : Db) (m : Result (Db × Settled)) (s : Settled)
    → (if◌then◌else◌ {A = Db × Result Settled} b (db, err serialization_conflict) (commit db m)).1
      ≡ ok s
    → m
      ≡ ok (
        (if◌then◌else◌ {A = Db × Result Settled} b
            (db, err serialization_conflict)
            (commit db m)).0,
        s,
      )
tx-ok true db m s h = ground arith
tx-ok false db (err e) s h = ground arith
tx-ok false db (ok (d, a)) s h = ground arith

inserted :
    (new : Canonical) (db after : Db)
    → insert_canonical new db ≡ ok after
    → (after.canonicals ≡ new ∷ db.canonicals) × (after.links ≡ db.links)
unfolding insert_canonical
inserted new db after e = (ground (arith, e), ground (arith, e))

module _ (env : Env) (website video admin : Text) where
  plan-adopted :
      (now : ℕ) (db : Db) (p : Plan)
      → plan website video now db ≡ ok p
      → winner_of
          (select_canonical_historical_winner (candidates website video db) (pair website video))
        ≡ ok p.adopted
  unfolding plan
  plan-adopted now db p e =
      let (_, _, e1) = bind-ok (check (is_active_website website db.websites) _) _ _ e in
      let (_, _, e2) = bind-ok (check (is_eligible website video db) _) _ _ e1 in
      let (_, _, e3) = bind-ok (found (find_active_domain website db.domains) _) _ _ e2 in
      let (_, _, e4) = bind-ok (build_evidence_snapshot video now db) _ _ e3 in
      let (o, e5, e6) =
        bind-ok
          (winner_of
            (select_canonical_historical_winner (candidates website video db) (pair website video)))
          _ _ e4 in
      e5 ∙ ap ok (ground (arith, e6))

  pinned_fresh :
      (pepper : Text) (d : Draw) (now : ℕ) (o : Option Candidate) (db linked : Db) (id : Text)
      → o ≡ none
      → pin_link env website video admin pepper d now o db ≡ ok (linked, id)
      → (linked.links ≡ fresh_link env website video admin pepper d now ∷ db.links)
        × (id ≡ d.link_id)
  unfolding pin_link insert_link
  pinned_fresh pepper d now o db linked id n e = (ground (arith, n, e), ground (arith, n, e))

  pinned_winner :
      (pepper : Text) (d : Draw) (now : ℕ) (o : Option Candidate) (w : Candidate)
      → (db linked : Db) (id : Text) → o ≡ some w
      → pin_link env website video admin pepper d now o db ≡ ok (linked, id)
      → (linked.links ≡ db.links) × (id ≡ w.id)
  unfolding pin_link
  pinned_winner pepper d now o w db linked id n e = (ground (arith, n, e), ground (arith, n, e))

  -- What is written: the mapping to the link that is pinned, which is the only new link, if it is new.
  write-ok :
      (pepper : Text) (d : Draw) (now : ℕ) (p : Plan) (db after : Db) (s : Settled)
      → write env website video admin pepper d now p db ≡ ok (after, s)
      → (linked : Db) × (id : Text) × (pin_link env website video admin pepper d now p.adopted db
          ≡ ok (linked, id))
        × (after.links ≡ linked.links)
        × (s.adopted ≡ is_some p.adopted)
        × (s.row.canonical.share_link_id ≡ id)
  unfolding write
  write-ok pepper d now p db after s e =
      let ((linked, id), p1, e1) =
        bind-ok (pin_link env website video admin pepper d now p.adopted db) _ _ e in
      let (mapped, p2, e2) =
        bind-ok
          (insert_canonical (mapping env website video admin d.canonical_id id p.domain p.snapshot)
            linked)
          _ _ e1 in
      let (row, p3, e3) = bind-ok (found (load_canonical website video mapped) _) _ _ e2 in
      let same : s.row ≡ row = ground (arith, e3) in
      let links : after.links ≡ mapped.links = ground (arith, e3) in
      let (rows, linked_links) = inserted _ linked mapped p2 in
      let c =
        load_canonical-first website video mapped _ _ row rows refl refl
          (found-ok (load_canonical website video mapped) _ row p3) in
      (
        linked,
        id,
        p1,
        links ∙ linked_links,
        ground (arith, e3),
        ap (λ (x : Loaded). x.canonical.share_link_id) same
            ∙ ap (λ (x : Canonical). x.share_link_id) c,
      )

  pub create_tx-ok :
      (pepper : Text) (d : Draw) (now : ℕ) (db : Db) (s : Settled)
      → (create_tx env website video admin pepper d now db).1 ≡ ok s
      → (p : Plan) × (plan website video now db ≡ ok p)
        × (write env website video admin pepper d now p db
            ≡ ok ((create_tx env website video admin pepper d now db).0, s))
  unfolding create_tx
  create_tx-ok pepper d now db s h =
      bind-ok (plan website video now db) (λ p. write env website video admin pepper d now p db) _
        (tx-ok d.conflicts db _ s h)

  -- The same, by the candidates.
  create_tx-candidates :
      (pepper : Text) (d : Draw) (now : ℕ) (db : Db) (s : Settled)
      → (create_tx env website video admin pepper d now db).1 ≡ ok s
      → ((candidates website video db ≡ [])
          × (s.adopted ≡ false)
          × (s.row.canonical.share_link_id ≡ d.link_id)
          × ((create_tx env website video admin pepper d now db).0.links
              ≡ fresh_link env website video admin pepper d now ∷ db.links))
        ⊎ ((w : Candidate) × IsNewest w (candidates website video db)
            × IsPinnable w (pair website video)
            × (s.adopted ≡ true)
            × (s.row.canonical.share_link_id ≡ w.id)
            × ((create_tx env website video admin pepper d now db).0.links ≡ db.links))
  create_tx-candidates pepper d now db s h =
      let (p, q, e) = create_tx-ok pepper d now db s h in
      let (linked, id, l, links, adopted, row) = write-ok pepper d now p db _ s e in
      elim (winner_of-ok (candidates website video db) (pair website video) p.adopted
        (plan-adopted now db p q)) [
          | inl (n, c) ↦
              let (new, same) = pinned_fresh pepper d now p.adopted db linked id n l in
              inl (c, adopted ∙ ap is_some n, row ∙ same, links ∙ new)
          | inr (w, n, newest, pinnable) ↦
              let (new, same) = pinned_winner pepper d now p.adopted w db linked id n l in
              inr (w, newest, pinnable, adopted ∙ ap is_some n, row ∙ same, links ∙ new)
        ]

  -- A creation that succeeds adopts the latest of the website's links that hold the video and no
  -- other, whatever its status, if there is any: that link has an alias that is not blank, no expiry
  -- and no view limit, it anchors no mapping of another pair, and the table of links stays as it was.
  -- A link is written only where the website has none that holds just the video. Latest is the link
  -- that was created last, and of those created in one millisecond the one with the highest id.
  pub create_tx-history :
      (pepper : Text) (d : Draw) (now : ℕ) (db : Db) (s : Settled)
      → (create_tx env website video admin pepper d now db).1 ≡ ok s
      → (((l : Link) → InLinks l db.links → ¬ IsExact website video l)
          × (s.adopted ≡ false)
          × (s.row.canonical.share_link_id ≡ d.link_id)
          × ((create_tx env website video admin pepper d now db).0.links
              ≡ fresh_link env website video admin pepper d now ∷ db.links))
        ⊎ ((l : Link) × IsLatest website video l db
            × IsUnrestricted website video l db
            × (s.adopted ≡ true)
            × (s.row.canonical.share_link_id ≡ l.id)
            × ((create_tx env website video admin pepper d now db).0.links ≡ db.links))
  create_tx-history pepper d now db s h = elim (create_tx-candidates pepper d now db s h) [
    | inl (c, a, i, links) ↦ inl (none-IsExact website video db c, a, i, links)
    | inr (w, newest, pinnable, a, i, links) ↦
        let (l, latest, free, same) = newest-IsLatest website video db w newest pinnable in
        inr (l, latest, free, a, i ∙ same, links)
  ]
