-- ===== src/Canonical/Tests.antt =====
-- The adoption policy on concrete candidates.
use bom_media_api.Common.{
  ap, ◌≡◌, ◌≢◌, ne_of_text_eq, refl, none, some, [], ◌∷◌, map, units, text_eq, text_lt, trim, inl,
  inr,
}
use bom_media_api.ShareLinks.{ShareLinkStatus}
use bom_media_api.Canonical.{
  AnchoredPair, Candidate, Selection, compare_canonical_candidates, has_expiry,
  select_canonical_historical_winner, assess_historical_winner_pinnability,
}
use bom_media_api.Canonical.Winner.{
  In, IsNewest, HasUniqueIds, winner-IsNewest, winner_order_irrelevant,
}
use bom_media_api.Canonical.Blockers.{with_status, select-with_status}

abbrev pair : AnchoredPair
pair = record { website_id = units "w"; video_id = units "v" }

abbrev older : Candidate
older = record {
  id = units "a";
  alias = some (units "alias");
  status = ShareLinkStatus.active;
  expires_at = none;
  max_views = none;
  created_at = 10;
  anchored_pair = none;
}

abbrev newer : Candidate
newer = record older {
  id = units "b";
  status = ShareLinkStatus.revoked;
  expires_at = some 5;
  created_at = 20;
}

policy : Unit {0}
unfolding compare_canonical_candidates select_canonical_historical_winner
    assess_historical_winner_pinnability text_eq text_lt trim
policy = tt

revoked_link_wins :
    (select_canonical_historical_winner (older ∷ newer ∷ []) pair).winner ≡ some newer
unfolding policy
revoked_link_wins = refl

winner-IsNewest_example : IsNewest newer (older ∷ newer ∷ [])
winner-IsNewest_example = winner-IsNewest (older ∷ newer ∷ []) pair newer revoked_link_wins

select-with_status_example :
    (select_canonical_historical_winner
      (map (with_status (λ c. ShareLinkStatus.disabled)) (older ∷ newer ∷ []))
      pair).pin_blocker
    ≡ some has_expiry
unfolding policy
select-with_status_example =
    ap (λ (s : Selection). s.pin_blocker)
      (select-with_status (λ c. ShareLinkStatus.disabled) (older ∷ newer ∷ []) pair)

swap_In : (a b x : Candidate) → In x (a ∷ b ∷ []) → In x (b ∷ a ∷ [])
swap_In a b x (inl e) = inr (inl e)
swap_In a b x (inr (inl e)) = inl e
swap_In a b x (inr (inr h)) = elim h [ ]

two-HasUniqueIds : (a b : Candidate) → a.id ≢ b.id → HasUniqueIds (a ∷ b ∷ [])
two-HasUniqueIds a b h x y (inl p) (inl q) e = cc
two-HasUniqueIds a b h x y (inl p) (inr (inl q)) e = absurd (h (cc))
two-HasUniqueIds a b h x y (inr (inl p)) (inl q) e = absurd (h (cc))
two-HasUniqueIds a b h x y (inr (inl p)) (inr (inl q)) e = cc
two-HasUniqueIds a b h x y (inr (inr p)) j e = elim p [ ]
two-HasUniqueIds a b h x y i (inr (inr q)) e = elim q [ ]

winner_order_irrelevant_example :
    (select_canonical_historical_winner (older ∷ newer ∷ []) pair).winner
    ≡ (select_canonical_historical_winner (newer ∷ older ∷ []) pair).winner
unfolding text_eq
winner_order_irrelevant_example =
    winner_order_irrelevant (older ∷ newer ∷ []) (newer ∷ older ∷ []) pair (swap_In older newer)
      (swap_In newer older)
      (two-HasUniqueIds older newer (ne_of_text_eq (units "a") (units "b") refl))
