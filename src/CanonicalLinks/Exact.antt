-- ===== src/CanonicalLinks/Exact.antt =====
-- src/admin-websites/canonical-share-link.service.ts: the candidates of findExactSingleVideoCandidates
-- are the links of the website that hold the video and no other.
use bom_media_api.Common.{
  ◌≡◌, ◌⊎◌, inl, inr, refl, ap, subst, Bool, true, false, ◌&&◌, List, [], ◌∷◌, arith, Text, text_eq,
  text_eq_iff, text_eq_refl, if◌then◌else◌,
}
use bom_media_api.Canonical.{Candidate}
use bom_media_api.Canonical.Winner.{In}
use bom_media_api.CanonicalLinks.Tables.{
  Link, Canonical, find_anchored, find_exact_single_video_candidates, is_only, pair_of,
}

pub only_of : (video : Text) (vs : List Text) → is_only video vs ≡ true → vs ≡ video ∷ []
only_of video [] h = ground arith
only_of video (v ∷ []) h = ground (arith, h, text_eq_iff v video)
only_of video (v ∷ w ∷ vs) h = ground arith

abbrev pub InLinks : Link → List Link → Type 0
InLinks l [] = ⊥
InLinks l (m ∷ ms) = (l ≡ m) ⊎ InLinks l ms

-- A link of the website with the video and no other.
abbrev pub IsExact : Text → Text → Link → Type 0
IsExact website video l = (l.website_id ≡ website) × (l.video_ids ≡ video ∷ [])

abbrev pub candidate_of : List Canonical → Link → Candidate
candidate_of cs l = record {
  id = l.id;
  alias = l.alias;
  status = l.status;
  expires_at = l.expires_at;
  max_views = l.max_views;
  created_at = l.created_at;
  anchored_pair = pair_of (find_anchored l.id cs);
}

module _ (website video : Text) (cs : List Canonical) where
  is_only-IsExact :
      (l : Link)
      → (text_eq l.website_id website && is_only video l.video_ids) ≡ true
      → IsExact website video l
  is_only-IsExact l e = (
    (text_eq_iff l.website_id website).0 (ground (arith, e)),
    only_of video l.video_ids (ground (arith, e)),
  )

  IsExact-is_only :
      (l : Link)
      → IsExact website video l
      → (text_eq l.website_id website && is_only video l.video_ids) ≡ true
  IsExact-is_only l (w, v) = rw (w, v, text_eq_refl website, text_eq_refl video) refl

  pub In-candidates :
      (ls : List Link) (c : Candidate)
      → In c (find_exact_single_video_candidates website video cs ls)
      → (l : Link) × InLinks l ls × IsExact website video l × (c ≡ candidate_of cs l)
  unfolding find_exact_single_video_candidates
  In-candidates [] c i = elim i [ ]
  In-candidates (l ∷ ls) c i =
      go (text_eq l.website_id website && is_only video l.video_ids) refl (In-candidates ls c) i
    where
      rest : List Candidate
      rest = find_exact_single_video_candidates website video cs ls

      Found : List Link → Type 0
      Found ms = (x : Link) × InLinks x ms × IsExact website video x × (c ≡ candidate_of cs x)

      go :
          (b : Bool)
          → (text_eq l.website_id website && is_only video l.video_ids) ≡ b
          → (In c rest → Found ls)
          → In c (if b then candidate_of cs l ∷ rest else rest)
          → Found (l ∷ ls)
      go true e h (inl j) = (l, inl refl, is_only-IsExact l e, j)
      go true e h (inr j) = let (x, k, y, q) = h j in (x, inr k, y, q)
      go false e h j = let (x, k, y, q) = h j in (x, inr k, y, q)

  pub candidates-In :
      (ls : List Link) (l : Link)
      → InLinks l ls
      → IsExact website video l
      → In (candidate_of cs l) (find_exact_single_video_candidates website video cs ls)
  unfolding find_exact_single_video_candidates
  candidates-In [] l i e = elim i [ ]
  candidates-In (m ∷ ls) l i e =
      go (text_eq m.website_id website && is_only video m.video_ids) refl (candidates-In ls l) i
    where
      rest : List Candidate
      rest = find_exact_single_video_candidates website video cs ls

      go :
          (b : Bool)
          → (text_eq m.website_id website && is_only video m.video_ids) ≡ b
          → (InLinks l ls → IsExact website video l → In (candidate_of cs l) rest)
          → InLinks l (m ∷ ls)
          → In (candidate_of cs l) (if b then candidate_of cs m ∷ rest else rest)
      go true t h (inl j) = inl (ap (candidate_of cs) j)
      go true t h (inr j) = inr (h j e)
      go false t h (inl j) =
          let same = IsExact-is_only m (subst (IsExact website video) j e) in
          ground (arith, t, same)
      go false t h (inr j) = h j e
