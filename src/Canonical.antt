-- ===== src/Canonical.antt =====
-- src/admin-websites/utils/canonical-adoption-policy.util.ts: which historical share link becomes
-- the permanent canonical link of a website and video, and whether it can be pinned as such.
pub mod Winner
pub mod Blockers
pub mod Tests
use bom_media_api.Common.{
  ℕ, ◌+◌, Bool, true, false, not, ◌&&◌, ◌||◌, Option, none, some, List, [], ◌∷◌, ltb, leb, ◌==◌,
  if◌then◌else◌, is_some, length, Text, text_eq, text_lt, trim, is_empty,
}
use bom_media_api.ShareLinks.{ShareLinkStatus, is_active}

pub record AnchoredPair : Type 0 where
  pub website_id : Text
  pub video_id : Text

-- `createdAt` is in milliseconds.
pub record Candidate : Type 0 where
  pub id : Text
  pub alias : Option Text
  pub status : ShareLinkStatus
  pub expires_at : Option ℕ
  pub max_views : Option ℕ
  pub created_at : ℕ
  pub anchored_pair : Option AnchoredPair

pub data PinBlocker : Type 0 where
  alias_missing has_expiry has_max_views anchored_to_other_pair : PinBlocker

pub record Selection : Type 0 where
  pub winner : Option Candidate
  pub historical_candidate_count : ℕ
  pub pin_blocker : Option PinBlocker

-- The sign of the number that a comparison returns, all that `sort` reads of it.
pub data Sign : Type 0 where
  negative zero positive : Sign

unfoldable pub compare_canonical_candidates : Candidate → Candidate → Sign
compare_canonical_candidates a b =
    if ltb a.created_at b.created_at
    then positive
    else if ltb b.created_at a.created_at
    then negative
    else if text_lt a.id b.id
    then positive
    else if text_lt b.id a.id
    then negative
    else zero

-- `[...candidates].sort(compareCanonicalCandidates)`, a stable sort.
abbrev pub is_positive : Sign → Bool
is_positive positive = true
is_positive _ = false

pub insert : Candidate → List Candidate → List Candidate
insert c [] = c ∷ []
insert c (d ∷ ds) =
    if is_positive (compare_canonical_candidates c d) then d ∷ insert c ds else c ∷ d ∷ ds

pub sort : List Candidate → List Candidate
unfolding insert
sort [] = []
sort (c ∷ cs) = insert c (sort cs)

abbrev pub is_blank : Option Text → Bool
is_blank none = true
is_blank (some t) = is_empty (trim t)

abbrev pub is_other_pair : Option AnchoredPair → AnchoredPair → Bool
is_other_pair none pair = false
is_other_pair (some a) pair =
    not (text_eq a.website_id pair.website_id) || not (text_eq a.video_id pair.video_id)

pub assess_historical_winner_pinnability : Candidate → AnchoredPair → Option PinBlocker
assess_historical_winner_pinnability winner pair =
    if is_blank winner.alias
    then some alias_missing
    else if is_some winner.expires_at
    then some has_expiry
    else if is_some winner.max_views
    then some has_max_views
    else if is_other_pair winner.anchored_pair pair
    then some anchored_to_other_pair
    else none

first_of_sorted : List Candidate → ℕ → AnchoredPair → Selection
unfolding assess_historical_winner_pinnability
first_of_sorted [] n pair = record {
  winner = none;
  historical_candidate_count = n;
  pin_blocker = none;
}
first_of_sorted (c ∷ cs) n pair = record {
  winner = some c;
  historical_candidate_count = n;
  pin_blocker = assess_historical_winner_pinnability c pair;
}

unfoldable pub select_canonical_historical_winner : List Candidate → AnchoredPair → Selection
unfolding sort first_of_sorted
select_canonical_historical_winner candidates pair =
    first_of_sorted (sort candidates) (length candidates) pair

pub is_denying_share_link_status : ShareLinkStatus → Bool
is_denying_share_link_status s = not (is_active s)
