-- ===== src/ShareLinks/Lifecycle.antt =====
-- Disabling and restoring a video: what becomes of the links that hold it.
use bom_media_api.Common.{
  ℕ, ◌≡◌, inl, inr, Bool-cases, refl, Bool, true, false, not, ◌&&◌, Option, none, some, List, [],
  ◌∷◌, arith, if◌then◌else◌, any, All, Text, text_eq, text_eq_iff,
}
use bom_media_api.ShareLinks.{
  ShareLink, ShareLinkStatus, VideoStatus, Video, Db, Op, views, disables, sets_status, revokes,
  is_active, is_revoked, is_disabled_link, is_disabled, is_dark, contains, status_of,
  has_unavailable_member, set_status, to_status, update_where, may_count, count_view,
  may_reactivate, increment_share_link_view, disable_active_share_links_for_video,
  reactivate_share_links_disabled_with_video, disable_video, update_video_status, revoke_share_link,
  step, run, get_denied_reason, invalid_link,
}

and_false_right : (a b : Bool) → a ≡ true → (a && b) ≡ false → b ≡ false
and_false_right a b h e = ground arith

abbrev set_to : VideoStatus → Option VideoStatus → Option VideoStatus
set_to s none = none
set_to s (some _) = some s

status_of-set_status :
    (j id : Text) (s : VideoStatus) (vs : List Video)
    → status_of j (set_status id s vs)
      ≡ (if text_eq id j then set_to s (status_of j vs) else status_of j vs)
unfolding status_of set_status
status_of-set_status j id s [] = ground arith
status_of-set_status j id s (v ∷ vs) = ground (
  arith,
  status_of-set_status j id s vs,
  text_eq_iff v.id id,
  text_eq_iff v.id j,
  text_eq_iff id j,
)

-- Members: what a change of one video's status means for a link.
module _ (id : Text) (s : VideoStatus) (vs : List Video) where
  any_dark_other :
      (ids : List Text)
      → any (λ v. text_eq v id) ids ≡ false
      → any (is_dark (set_status id s vs)) ids ≡ any (is_dark vs) ids
  any_dark_other [] h = refl
  any_dark_other (v ∷ ids) h = ground (
    arith,
    any_dark_other ids,
    status_of-set_status v id s vs,
    text_eq_iff v id,
    text_eq_iff id v,
  )

  any_dark_lighter :
      (ids : List Text)
      → is_disabled s ≡ false
      → any (is_dark vs) ids ≡ false
      → any (is_dark (set_status id s vs)) ids ≡ false
  any_dark_lighter [] lit h = refl
  any_dark_lighter (v ∷ ids) lit h =
      ground (arith, any_dark_lighter ids lit, status_of-set_status v id s vs)

-- No active link holds a disabled video.
abbrev pub IsServable : List Video → ShareLink → Type 0
IsServable vs l = is_active l.status ≡ true → has_unavailable_member vs l ≡ false

update_where-All :
    (P Q : ShareLink → Type 0) (test : ShareLink → Bool) (change : ShareLink → ShareLink)
    → ((l : ShareLink) → P l → test l ≡ true → Q (change l))
    → ((l : ShareLink) → P l → test l ≡ false → Q l)
    → (ls : List ShareLink) → All P ls
    → All Q (update_where test change ls)
unfolding update_where
update_where-All P Q test change hit miss [] h = tt
update_where-All P Q test change hit miss (l ∷ ls) h = elim (Bool-cases (test l)) [
  | inl e ↦ rw e (hit l h.0 e, update_where-All P Q test change hit miss ls h.1)
  | inr e ↦ rw e (miss l h.0 e, update_where-All P Q test change hit miss ls h.1)
]

All-map :
    (P Q : ShareLink → Type 0)
    → ((l : ShareLink) → P l → Q l)
    → (ls : List ShareLink) → All P ls
    → All Q ls
All-map P Q f [] h = tt
All-map P Q f (l ∷ ls) h = (f l h.0, All-map P Q f ls h.1)

abbrev pub AllServable : Db → Type 0
AllServable db = All (IsServable db.videos) db.links

-- The sweep after which a video counts as disabled.
swept-AllServable :
    (id : Text) (stamps : Text → ℕ) (vs : List Video) (db : Db)
    → ((l : ShareLink)
        → contains id l ≡ false
        → has_unavailable_member vs l ≡ has_unavailable_member db.videos l)
    → AllServable db
    → AllServable (disable_active_share_links_for_video id stamps (record db { videos = vs })).0
unfolding disable_active_share_links_for_video
swept-AllServable id stamps vs db same h =
    update_where-All (IsServable db.videos) (IsServable vs)
      (λ l. is_active l.status && contains id l) (to_status stamps ShareLinkStatus.disabled)
      (λ l k e a. cc) (λ l k e a. rw (same l (and_false_right _ _ a e)) (k a)) db.links h

lighter-AllServable :
    (id : Text) (s : VideoStatus) (db : Db)
    → is_disabled s ≡ false
    → AllServable db
    → All (IsServable (set_status id s db.videos)) db.links
unfolding has_unavailable_member
lighter-AllServable id s db lit =
    All-map (IsServable db.videos) (IsServable (set_status id s db.videos))
      (λ l k a. any_dark_lighter id s db.videos l.video_ids lit (k a)) db.links

restored-AllServable :
    (id : Text) (stamps : Text → ℕ) (db : Db)
    → AllServable db
    → AllServable (reactivate_share_links_disabled_with_video id stamps db).0
unfolding reactivate_share_links_disabled_with_video
restored-AllServable id stamps db =
    update_where-All (IsServable db.videos) (IsServable db.videos) (may_reactivate id db.videos)
      (to_status stamps ShareLinkStatus.active) (λ l k e a. ground arith) (λ l k e. k) db.links

-- A link that does not hold the video has the same dark members as before.
other-has_unavailable_member :
    (id : Text) (s : VideoStatus) (vs : List Video) (l : ShareLink)
    → contains id l ≡ false
    → has_unavailable_member (set_status id s vs) l ≡ has_unavailable_member vs l
unfolding has_unavailable_member
other-has_unavailable_member id s vs l h = any_dark_other id s vs l.video_ids h

disabled-AllServable :
    (id : Text) (stamps : Text → ℕ) (db : Db)
    → AllServable db
    → AllServable
        (disable_active_share_links_for_video id stamps
          (record db { videos = set_status id VideoStatus.disabled db.videos })).0
disabled-AllServable id stamps db =
    swept-AllServable id stamps (set_status id VideoStatus.disabled db.videos) db
      (other-has_unavailable_member id VideoStatus.disabled db.videos)

counted-AllServable :
    (read : ShareLink) (now stamp : ℕ) (db : Db)
    → AllServable db
    → All (IsServable db.videos) (increment_share_link_view read now stamp db.links).0
unfolding increment_share_link_view has_unavailable_member
counted-AllServable read now stamp db =
    update_where-All (IsServable db.videos) (IsServable db.videos)
      (may_count read.id read.max_views now) (count_view now stamp) (λ l k e. k) (λ l k e. k)
      db.links

revoked-AllServable :
    (link : Text) (stamp : ℕ) (db : Db)
    → AllServable db
    → AllServable (step db (revokes link stamp))
unfolding step revoke_share_link
revoked-AllServable link stamp db h =
    let kept =
      update_where-All (IsServable db.videos) (IsServable db.videos)
        (λ l. text_eq l.id link && not (is_revoked l.status))
        (to_status (λ _. stamp) ShareLinkStatus.revoked) (λ l k c a. cc) (λ l k c. k) db.links h in
    ground arith

step-AllServable : (db : Db) (op : Op) → AllServable db → AllServable (step db op)
unfolding step
step-AllServable db (views read now stamp) h = counted-AllServable read now stamp db h
step-AllServable db (disables id stamps) h = ground (
  arith,
  disabled-AllServable id stamps db h,
  swept-AllServable id stamps db.videos db (λ l e. refl) h,
)
step-AllServable db (sets_status id previous s stamps) h = ground (
  arith,
  disabled-AllServable id stamps db h,
  lighter-AllServable id s db,
  restored-AllServable id stamps (record db { videos = set_status id s db.videos }),
)
step-AllServable db (revokes link stamp) h = revoked-AllServable link stamp db h

-- Whatever views, disablings, status changes and revocations happen, no active link ever holds a
-- disabled video, if none did at the start.
pub run-AllServable : (db : Db) (ops : List Op) → AllServable db → AllServable (run db ops)
unfolding run
run-AllServable db [] h = h
run-AllServable db (op ∷ ops) h = run-AllServable (step db op) ops (step-AllServable db op h)

-- Every link that holds the video is refused by the public gate, at any time.
abbrev pub AllDenied : Text → Db → Type 0
AllDenied id db =
    All (λ l. contains id l ≡ true → (now : ℕ) → get_denied_reason l now ≡ some invalid_link)
      db.links

swept-AllDenied :
    (id : Text) (stamps : Text → ℕ) (db : Db)
    → AllDenied id (disable_active_share_links_for_video id stamps db).0
unfolding disable_active_share_links_for_video get_denied_reason
swept-AllDenied id stamps db =
    update_where-All (λ l. Unit {0})
      (λ l. contains id l ≡ true → (now : ℕ) → get_denied_reason l now ≡ some invalid_link)
      (λ l. is_active l.status && contains id l) (to_status stamps ShareLinkStatus.disabled)
      (λ l k e c now. refl) (λ l k e c now. ground arith) db.links (all_unit db.links)
  where
    all_unit : (ls : List ShareLink) → All (λ l. Unit {0}) ls
    all_unit = elim [ [] ↦ tt | l ∷ (ls → ih) ↦ (tt, ih) ]

-- Once `disableVideo` has found the video, every link that holds it is refused as invalid, also
-- where the video was disabled before.
pub disable_video-AllDenied :
    (id : Text) (s : VideoStatus) (stamps : Text → ℕ) (db : Db)
    → status_of id db.videos ≡ some s
    → AllDenied id (step db (disables id stamps))
unfolding step disable_video
disable_video-AllDenied id s stamps db found = ground (
  arith,
  swept-AllDenied id stamps db,
  swept-AllDenied id stamps (record db { videos = set_status id VideoStatus.disabled db.videos }),
)

-- The status of each link accounts for its members: an active link has no disabled video, and a
-- disabled link has one.
abbrev pub IsExplained : List Video → ShareLink → Type 0
IsExplained vs l =
    IsServable vs l × (is_disabled_link l.status ≡ true → has_unavailable_member vs l ≡ true)

-- An update that leaves all else as it was.
abbrev pub stamped : (Text → ℕ) → ShareLink → ShareLink
stamped stamps l = record l { updated_at = stamps l.id }

module _ (id : Text) (s : VideoStatus) (vs : List Video) (swept_at restored_at : Text → ℕ)
    (found : status_of id vs ≡ some s) (lit : is_disabled s ≡ false) where
  abbrev restored : List Video
  restored = set_status id VideoStatus.ready (set_status id VideoStatus.disabled vs)

  is_dark-restored : (j : Text) → is_dark restored j ≡ is_dark vs j
  is_dark-restored j = ground (
    arith,
    status_of-set_status j id VideoStatus.ready (set_status id VideoStatus.disabled vs),
    status_of-set_status j id VideoStatus.disabled vs,
    text_eq_iff id j,
  )

  any_dark-restored : (ids : List Text) → any (is_dark restored) ids ≡ any (is_dark vs) ids
  any_dark-restored [] = refl
  any_dark-restored (j ∷ ids) = ground (arith, is_dark-restored j, any_dark-restored ids)

  has_unavailable_member-restored :
      (l : ShareLink) → has_unavailable_member restored l ≡ has_unavailable_member vs l
  unfolding has_unavailable_member
  has_unavailable_member-restored l = any_dark-restored l.video_ids

  abbrev swept_row : ShareLink → ShareLink
  swept_row l =
      if is_active l.status && contains id l
      then to_status swept_at ShareLinkStatus.disabled l
      else l

  has_unavailable_member-swept_row :
      (l : ShareLink) → has_unavailable_member restored (swept_row l) ≡ has_unavailable_member vs l
  unfolding has_unavailable_member
  has_unavailable_member-swept_row l = ground (arith, any_dark-restored l.video_ids)

  row_round_trip :
      (l : ShareLink)
      → IsExplained vs l
      → (if may_reactivate id restored (swept_row l)
          then to_status restored_at ShareLinkStatus.active (swept_row l)
          else swept_row l)
        ≡ (if is_active l.status && contains id l then stamped restored_at l else l)
  row_round_trip l e = ground (arith, has_unavailable_member-swept_row l)

  rows_round_trip :
      (ls : List ShareLink)
      → All (IsExplained vs) ls
      → update_where (may_reactivate id restored) (to_status restored_at ShareLinkStatus.active) (
          update_where
            (λ l. is_active l.status && contains id l)
            (to_status swept_at ShareLinkStatus.disabled)
            ls)
        ≡ update_where (λ l. is_active l.status && contains id l) (stamped restored_at) ls
  unfolding update_where
  rows_round_trip [] h = refl
  rows_round_trip (l ∷ ls) h = cc (row_round_trip l h.0, rows_round_trip ls h.1)

-- Disabling a video that is not disabled and setting it to READY again, by a request that has read it
-- as disabled, gives back the links that there were, if each active link had no disabled
-- video and each disabled link had one: the links that hold the video and were active are as they
-- were but for `updatedAt`, which is the time of their last update, and no other link was touched.
pub disable_restore :
    (id : Text) (s : VideoStatus) (swept_at restored_at : Text → ℕ) (db : Db)
    → status_of id db.videos ≡ some s
    → is_disabled s ≡ false
    → All (IsExplained db.videos) db.links
    → (step
        (step db (disables id swept_at))
        (sets_status id VideoStatus.disabled VideoStatus.ready restored_at)).links
      ≡ update_where (λ l. is_active l.status && contains id l) (stamped restored_at) db.links
unfolding step disable_video update_video_status disable_active_share_links_for_video
    reactivate_share_links_disabled_with_video
disable_restore id s swept_at restored_at db found lit h = ground (
  arith,
  rows_round_trip id s db.videos swept_at restored_at found lit db.links h,
  status_of-set_status id id VideoStatus.disabled db.videos,
  text_eq_iff id id,
)
