-- ===== src/ShareLinks/Tests.antt =====
-- Share links on concrete tables.
use bom_media_api.Common.{
  ◌+◌, ◌≤◌, ◌≡◌, ◌↔◌, refl, true, none, some, [], ◌∷◌, arith, units, text_eq,
}
use bom_media_api.ShareLinks.{
  ShareLink, ShareLinkStatus, VideoStatus, Db, disables, sets_status, revokes, may_count,
  get_denied_reason, has_unavailable_member, status_of, step, run,
}
use bom_media_api.ShareLinks.Budget.{granted, views_of, granted-le, get_denied_reason-may_count}
use bom_media_api.ShareLinks.Lifecycle.{
  AllServable, AllDenied, run-AllServable, disable_video-AllDenied, disable_restore,
}

abbrev link : ShareLink
link = record {
  id = units "l";
  website_id = units "w";
  status = ShareLinkStatus.active;
  expires_at = some 1000;
  max_views = some 2;
  current_views = 1;
  last_viewed_at = none;
  updated_at = 1;
  video_ids = units "v" ∷ units "u" ∷ [];
}

abbrev db : Db
db = record {
  links = link ∷ [];
  videos =
      record { id = units "v"; status = VideoStatus.ready }
      ∷ record { id = units "u"; status = VideoStatus.ready }
      ∷ [];
}

links : Unit {0}
unfolding step run text_eq get_denied_reason granted has_unavailable_member status_of
links = tt

-- The second stale request finds the budget used up.
stale_reads : granted (units "l") ((link, 5, 5) ∷ (link, 6, 7) ∷ []) (link ∷ []) ≡ 1
unfolding links
stale_reads = refl

disabled_then_restored :
    (run db (
      disables (units "v") (λ _. 20)
      ∷ sets_status (units "v") VideoStatus.disabled VideoStatus.ready (λ _. 30)
      ∷ [])).links
    ≡ record link { updated_at = 30 } ∷ []
unfolding links
disabled_then_restored = refl

get_denied_reason-may_count_example :
    (get_denied_reason link 5 ≡ none) ↔ (may_count (units "l") (some 2) 5 link ≡ true)
get_denied_reason-may_count_example = get_denied_reason-may_count link 5

granted-le_example :
    granted (units "l") ((link, 5, 5) ∷ (link, 6, 7) ∷ []) (link ∷ [])
      + views_of (units "l") (link ∷ [])
    ≤ 2
unfolding links
granted-le_example =
    granted-le (units "l") 2 ((link, 5, 5) ∷ (link, 6, 7) ∷ []) (link ∷ []) refl
      (λ h. (refl, omega arith), tt) (λ h. refl, (λ h. refl, tt))

run-AllServable_example :
    AllServable (run db (disables (units "v") (λ _. 20) ∷ revokes (units "l") 40 ∷ []))
unfolding links
run-AllServable_example =
    run-AllServable db (disables (units "v") (λ _. 20) ∷ revokes (units "l") 40 ∷ [])
      (λ h. refl, tt)

disable_video-AllDenied_example : AllDenied (units "v") (step db (disables (units "v") (λ _. 20)))
unfolding links
disable_video-AllDenied_example =
    disable_video-AllDenied (units "v") VideoStatus.ready (λ _. 20) db refl

disable_restore_example :
    (step
      (step db (disables (units "v") (λ _. 20)))
      (sets_status (units "v") VideoStatus.disabled VideoStatus.ready (λ _. 30))).links
    ≡ record link { updated_at = 30 } ∷ []
unfolding links
disable_restore_example =
    disable_restore (units "v") VideoStatus.ready (λ _. 20) (λ _. 30) db refl refl
      ((λ h. refl, λ h. cc h), tt)
