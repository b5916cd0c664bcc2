-- ===== src/ShareLinks.antt =====
-- Share links and the videos in them: the public gate and the view budget of
-- src/public/public.service.ts, the sweeps of src/videos/videos.service.ts when a video is
-- disabled or restored, and the revocation of src/admin-websites/admin-websites.service.ts.
-- A database transaction is a function on the two tables; times are milliseconds.
pub mod Budget
pub mod Lifecycle
pub mod Tests
use bom_media_api.Common.{
  ℕ, ◌+◌, ◌≡◌, Bool, true, false, not, ◌&&◌, ◌||◌, ◌==◌, Option, none, some, List, [], ◌∷◌, ltb,
  leb, if◌then◌else◌, any, count, Text, text_eq,
}

pub data ShareLinkStatus : Type 0 where
  active revoked expired disabled : ShareLinkStatus

pub data VideoStatus : Type 0 where
  draft processing ready failed disabled : VideoStatus

-- The columns of a link that an operation here reads or writes.
pub record ShareLink : Type 0 where
  pub id : Text
  pub website_id : Text
  pub status : ShareLinkStatus
  pub expires_at : Option ℕ
  pub max_views : Option ℕ
  pub current_views : ℕ
  pub last_viewed_at : Option ℕ
  pub updated_at : ℕ
  pub video_ids : List Text

pub record Video : Type 0 where
  pub id : Text
  pub status : VideoStatus

pub record Db : Type 0 where
  pub links : List ShareLink
  pub videos : List Video

pub data ReasonCode : Type 0 where
  invalid_link expired_link view_limit_reached : ReasonCode

abbrev pub is_active : ShareLinkStatus → Bool
is_active ShareLinkStatus.active = true
is_active _ = false

abbrev pub is_disabled_link : ShareLinkStatus → Bool
is_disabled_link ShareLinkStatus.disabled = true
is_disabled_link _ = false

abbrev pub is_disabled : VideoStatus → Bool
is_disabled VideoStatus.disabled = true
is_disabled _ = false

abbrev pub is_ready : VideoStatus → Bool
is_ready VideoStatus.ready = true
is_ready _ = false

-- `expiresAt !== null && expiresAt <= now`.
abbrev pub is_past : Option ℕ → ℕ → Bool
is_past none now = false
is_past (some t) now = leb t now

-- `maxViews !== null && currentViews >= maxViews`.
abbrev pub is_used_up : Option ℕ → ℕ → Bool
is_used_up none views = false
is_used_up (some top) views = leb top views

unfoldable pub get_denied_reason : ShareLink → ℕ → Option ReasonCode
get_denied_reason l now =
    if not (is_active l.status)
    then some invalid_link
    else if is_past l.expires_at now
    then some expired_link
    else if is_used_up l.max_views l.current_views
    then some view_limit_reached
    else none

pub get_denied_reason_for_media_playback : ShareLink → ℕ → Option ReasonCode
get_denied_reason_for_media_playback l now =
    if not (is_active l.status)
    then some invalid_link
    else if is_past l.expires_at now
    then some expired_link
    else none

-- The `where` of `incrementShareLinkView`: the row as it is now, against the budget as it was read.
abbrev pub may_count : Text → Option ℕ → ℕ → ShareLink → Bool
may_count id max_views now l =
    text_eq l.id id
    && is_active l.status
    && not (is_past l.expires_at now)
    && not (is_used_up max_views l.current_views)

-- The database client stamps each update with its own time, the `updatedAt` of the row.
pub count_view : ℕ → ℕ → ShareLink → ShareLink
count_view now stamp l = record l {
  current_views = l.current_views + 1;
  last_viewed_at = some now;
  updated_at = stamp;
}

-- `updateMany` on the links: the rows that satisfy a test are changed.
pub update_where : (ShareLink → Bool) → (ShareLink → ShareLink) → List ShareLink → List ShareLink
update_where test change [] = []
update_where test change (l ∷ ls) = (if test l then change l else l) ∷ update_where test change ls

-- The link that was read, the time, the stamp of the update, the table; whether exactly one row was counted.
pub increment_share_link_view : ShareLink → ℕ → ℕ → List ShareLink → List ShareLink × Bool
unfolding update_where count_view
increment_share_link_view read now stamp links = (
  update_where (may_count read.id read.max_views now) (count_view now stamp) links,
  count (may_count read.id read.max_views now) links == 1,
)

abbrev pub contains : Text → ShareLink → Bool
contains video l = any (λ v. text_eq v video) l.video_ids

-- The status of the video with an id.
pub status_of : Text → List Video → Option VideoStatus
status_of id [] = none
status_of id (v ∷ vs) = if text_eq v.id id then some v.status else status_of id vs

abbrev pub is_dark : List Video → Text → Bool
is_dark videos id = elim (status_of id videos) [ some s ↦ is_disabled s | none ↦ false ]

pub has_unavailable_member : List Video → ShareLink → Bool
unfolding status_of
has_unavailable_member videos l = any (is_dark videos) l.video_ids

pub set_status : Text → VideoStatus → List Video → List Video
set_status id s [] = []
set_status id s (v ∷ vs) =
    (if text_eq v.id id then record v { status = s } else v) ∷ set_status id s vs

-- A status is written; `stamps` gives the time of the update of the link with an id, the same time for
-- all rows of one statement.
abbrev pub to_status : (Text → ℕ) → ShareLinkStatus → ShareLink → ShareLink
to_status stamps s l = record l { status = s; updated_at = stamps l.id }

pub disable_active_share_links_for_video : Text → (Text → ℕ) → Db → Db × ℕ
unfolding update_where
disable_active_share_links_for_video video stamps db =
    let test = λ (l : ShareLink). is_active l.status && contains video l in
    (
      record db { links = update_where test (to_status stamps ShareLinkStatus.disabled) db.links },
      count test db.links,
    )

-- The loop updates each candidate by its id; as a test on the row.
abbrev pub may_reactivate : Text → List Video → ShareLink → Bool
may_reactivate video videos l =
    is_disabled_link l.status && contains video l && not (has_unavailable_member videos l)

pub reactivate_share_links_disabled_with_video : Text → (Text → ℕ) → Db → Db × ℕ
unfolding update_where has_unavailable_member
reactivate_share_links_disabled_with_video video stamps db = (
  record db {
    links =
        update_where (may_reactivate video db.videos) (to_status stamps ShareLinkStatus.active)
          db.links;
  },
  count (may_reactivate video db.videos) db.links,
)

-- `disableVideo`: `none` where the video is not found.
pub disable_video : Text → (Text → ℕ) → Db → Option (Db × ℕ)
unfolding status_of set_status disable_active_share_links_for_video
disable_video id stamps db = elim (status_of id db.videos) [
  | none ↦ none
  | some s ↦
      let swept =
        if is_disabled s
        then db
        else record db { videos = set_status id VideoStatus.disabled db.videos } in
      some (disable_active_share_links_for_video id stamps swept)
]

-- The transaction of `updateVideo` for a request that gives a status, after the row of the video was
-- read with the status `previous`.
pub update_video_status : Text → VideoStatus → VideoStatus → (Text → ℕ) → Db → Option (Db × ℕ)
unfolding status_of set_status disable_active_share_links_for_video
    reactivate_share_links_disabled_with_video
update_video_status id previous next stamps db = elim (status_of id db.videos) [
  | none ↦ none
  | some _ ↦
      let updated = record db { videos = set_status id next db.videos } in
      some (
        if is_disabled next
        then disable_active_share_links_for_video id stamps updated
        else if is_ready next && is_disabled previous
        then reactivate_share_links_disabled_with_video id stamps updated
        else (updated, 0))
]

abbrev pub is_revoked : ShareLinkStatus → Bool
is_revoked ShareLinkStatus.revoked = true
is_revoked _ = false

-- `revokeShareLink`: `none` where the link is not found.
pub revoke_share_link : Text → ℕ → Db → Option Db
unfolding update_where
revoke_share_link id stamp db =
    let fresh = λ (l : ShareLink). text_eq l.id id && not (is_revoked l.status) in
    if any (λ l. text_eq l.id id) db.links
    then some (record db {
      links = update_where fresh (to_status (λ _. stamp) ShareLinkStatus.revoked) db.links;
    })
    else none

-- What the services may do next: a public view of a link as it was read, a video disabled, a video
-- given a status after it was read with some status, a link revoked. A request that finds no row changes nothing.
pub data Op : Type 0 where
  views : (read : ShareLink) (now stamp : ℕ) → Op
  disables : (video : Text) (stamps : Text → ℕ) → Op
  sets_status : (video : Text) (previous next : VideoStatus) (stamps : Text → ℕ) → Op
  revokes : (link : Text) (stamp : ℕ) → Op

abbrev or_same : Db → Option (Db × ℕ) → Db
or_same db none = db
or_same db (some (d, n)) = d

pub step : Db → Op → Db
unfolding increment_share_link_view disable_video update_video_status revoke_share_link
step db (views read now stamp) = record db {
  links = (increment_share_link_view read now stamp db.links).0;
}
step db (disables video stamps) = or_same db (disable_video video stamps db)
step db (sets_status video previous next stamps) =
    or_same db (update_video_status video previous next stamps db)
step db (revokes link stamp) = elim (revoke_share_link link stamp db) [ none ↦ db | some d ↦ d ]

pub run : Db → List Op → Db
run db [] = db
run db (op ∷ ops) = run (step db op) ops
