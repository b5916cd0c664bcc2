-- ===== src/Canonical/Blockers.antt =====
-- Identity is not usability: what the statuses change, and what blocks a pin.
use bom_media_api.Common.{
  ℕ, suc, ◌≡◌, ◌≢◌, ◌⊎◌, ◌↔◌, inl, inr, refl, ap, false, Option, none, some, List, [], ◌∷◌, map,
  length, Text, text_eq_iff, trim, arith,
}
use bom_media_api.ShareLinks.{ShareLinkStatus}
use bom_media_api.Canonical.{
  AnchoredPair, Candidate, compare_canonical_candidates, insert, sort, is_blank, is_other_pair,
  first_of_sorted, select_canonical_historical_winner, assess_historical_winner_pinnability,
}

-- The candidates with other statuses.
abbrev pub with_status : (Candidate → ShareLinkStatus) → Candidate → Candidate
with_status f c = record c { status = f c }

abbrev pub map_option : (Candidate → Candidate) → Option Candidate → Option Candidate
map_option f none = none
map_option f (some c) = some (f c)

module _ (f : Candidate → ShareLinkStatus) where
  insert-with_status :
      (c : Candidate) (cs : List Candidate)
      → insert (with_status f c) (map (with_status f) cs) ≡ map (with_status f) (insert c cs)
  unfolding insert compare_canonical_candidates
  insert-with_status c [] = refl
  insert-with_status c (d ∷ ds) = ground (arith, insert-with_status c ds)

  sort-with_status :
      (cs : List Candidate) → sort (map (with_status f) cs) ≡ map (with_status f) (sort cs)
  unfolding sort
  sort-with_status [] = refl
  sort-with_status (c ∷ cs) = rw (sort-with_status cs) (insert-with_status c (sort cs))

  length-with_status : (cs : List Candidate) → length (map (with_status f) cs) ≡ length cs
  length-with_status [] = refl
  length-with_status (c ∷ cs) = ap suc (length-with_status cs)

  first-with_status :
      (cs : List Candidate) (n : ℕ) (pair : AnchoredPair)
      → let s = first_of_sorted cs n pair in
        first_of_sorted (map (with_status f) cs) n pair
        ≡ record s { winner = map_option (with_status f) s.winner }
  unfolding first_of_sorted assess_historical_winner_pinnability
  first-with_status [] n pair = refl
  first-with_status (c ∷ cs) n pair = refl

  -- The statuses of the links have no say: whatever they are changed to, the same link wins, with
  -- the same pin blocker and the same count.
  pub select-with_status :
      (cs : List Candidate) (pair : AnchoredPair)
      → let s = select_canonical_historical_winner cs pair in
        select_canonical_historical_winner (map (with_status f) cs) pair
        ≡ record s { winner = map_option (with_status f) s.winner }
  unfolding select_canonical_historical_winner
  select-with_status cs pair =
      rw (sort-with_status cs, length-with_status cs) (first-with_status (sort cs) (length cs) pair)

-- A link that can stand for the pair for good.
abbrev pub IsPinnable : Candidate → AnchoredPair → Type 0
IsPinnable c pair =
    ((t : Text) × (c.alias ≡ some t) × (trim t ≢ []))
    × (c.expires_at ≡ none)
    × (c.max_views ≡ none)
    × ((c.anchored_pair ≡ none) ⊎ (c.anchored_pair ≡ some pair))

not_blank : (a : Option Text) → is_blank a ≡ false → (t : Text) × (a ≡ some t) × (trim t ≢ [])
not_blank none h = cc
not_blank (some t) h = (t, refl, λ e. ground arith)

blank_of_some : (a : Option Text) (t : Text) → a ≡ some t → trim t ≢ [] → is_blank a ≡ false
blank_of_some a t e h = ground arith

same_pair :
    (o : Option AnchoredPair) (pair : AnchoredPair)
    → is_other_pair o pair ≡ false
    → (o ≡ none) ⊎ (o ≡ some pair)
same_pair none pair h = inl refl
same_pair (some a) pair h =
    inr (
      ground
        (arith, text_eq_iff a.website_id pair.website_id, text_eq_iff a.video_id pair.video_id))

other_of_same :
    (o : Option AnchoredPair) (pair : AnchoredPair)
    → (o ≡ none) ⊎ (o ≡ some pair)
    → is_other_pair o pair ≡ false
other_of_same o pair h =
    ground
      (arith, text_eq_iff pair.website_id pair.website_id, text_eq_iff pair.video_id pair.video_id)

-- The winner has no pin blocker exactly if it has an alias that is not blank, no expiry, no view
-- limit, and anchors no pair or this one.
pub assess-eq-none_iff :
    (c : Candidate) (pair : AnchoredPair)
    → (assess_historical_winner_pinnability c pair ≡ none) ↔ IsPinnable c pair
unfolding assess_historical_winner_pinnability
assess-eq-none_iff c pair = (
  λ h. (
    not_blank c.alias (ground arith),
    ground arith,
    ground arith,
    same_pair c.anchored_pair pair (ground arith),
  ),
  λ h.
      ground
        (arith, blank_of_some c.alias h.0.0 h.0.1 h.0.2, other_of_same c.anchored_pair pair h.3),
)

first_of_sorted-blocker :
    (cs : List Candidate) (n : ℕ) (p : AnchoredPair) (w : Candidate)
    → (first_of_sorted cs n p).winner ≡ some w
    → (first_of_sorted cs n p).pin_blocker ≡ assess_historical_winner_pinnability w p
unfolding first_of_sorted
first_of_sorted-blocker [] n p w h = ground arith
first_of_sorted-blocker (c ∷ cs) n p w h =
    let same : c ≡ w = ground (arith, h) in ap (λ x. assess_historical_winner_pinnability x p) same

-- What stops a selection from being pinned is what the policy says of its winner.
pub select-blocker :
    (cs : List Candidate) (p : AnchoredPair) (w : Candidate)
    → (select_canonical_historical_winner cs p).winner ≡ some w
    → (select_canonical_historical_winner cs p).pin_blocker
      ≡ assess_historical_winner_pinnability w p
unfolding select_canonical_historical_winner
select-blocker cs p w h = first_of_sorted-blocker (sort cs) (length cs) p w h
