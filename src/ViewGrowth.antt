-- ===== src/ViewGrowth.antt =====
-- src/videos/video-view-growth.service.ts: what one public view adds to a video's counter.
-- Times are milliseconds. The tables are lists of rows; `sha256` and `randomInt` are parameters.
pub mod Cap
pub mod Once
pub mod Conserved
pub mod Tests
use bom_media_api.Common.{
  ℕ, ◌+◌, ◌-◌, ◌*◌, ◌/◌, min, max, Bool, true, false, ◌&&◌, Option, none, some, List, [], ◌∷◌, ◌++◌,
  map, ltb, leb, ◌==◌, if◌then◌else◌, is_some, any, count, Text, text_eq, units, trim, slice_to,
  is_empty,
}

-- The section `videoViewGrowth` of the configuration; its numbers are positive integers.
pub record GrowthConfig : Type 0 where
  pub enabled : Bool
  pub max_increment_per_event : ℕ
  pub max_increment_per_video_hour : ℕ
  pub dedupe_window_minutes : ℕ
  pub random_min_increment : ℕ

pub record Event : Type 0 where
  pub video_id : Text
  pub share_link_id : Text
  pub website_id : Text
  pub viewer_hash : Text
  pub window_start : ℕ
  pub increment : ℕ
  pub created_at : ℕ

pub record Bucket : Type 0 where
  pub video_id : Text
  pub bucket_start : ℕ
  pub increment_total : ℕ

pub record Video : Type 0 where
  pub id : Text
  pub view_count : ℕ
  pub published_at : Option ℕ

pub record Db : Type 0 where
  pub events : List Event
  pub buckets : List Bucket
  pub videos : List Video

pub record RequestMeta : Type 0 where
  pub ip : Option Text
  pub user_agent : Option Text

-- The parameters of `recordPublicVideoView`, with `now` filled in.
pub record Params : Type 0 where
  pub video_id : Text
  pub share_link_id : Text
  pub website_id : Text
  pub request_meta : RequestMeta
  pub now : ℕ

pub record Counter : Type 0 where
  pub video_id : Text
  pub view_count : ℕ
  pub published_at : Option ℕ
  pub increment : ℕ

pub data Failure : Type 0 where
  not_found unique_constraint foreign_key : Failure

pub data Result (A : Type 0) : Type 0 where
  ok : A → Result A
  err : Failure → Result A

-- `value?.trim() || fallback`.
abbrev trim_or : Option Text → Text → Text
trim_or none fallback = fallback
trim_or (some t) fallback = if is_empty (trim t) then fallback else trim t

-- `value?.trim().slice(0, 512) || fallback`.
abbrev trim_slice_or : Option Text → Text → Text
trim_slice_or none fallback = fallback
trim_slice_or (some t) fallback =
    let s = slice_to 512 (trim t) in if is_empty s then fallback else s

-- `parts.join("\n")`.
abbrev join_lines : List Text → Text
join_lines [] = []
join_lines (s ∷ []) = s
join_lines (s ∷ t ∷ ts) = s ++ (10 ∷ join_lines (t ∷ ts))

viewer_key : Text → Params → Text
viewer_key pepper p = join_lines (
    trim pepper
    ∷ p.video_id
    ∷ p.share_link_id
    ∷ p.website_id
    ∷ trim_or p.request_meta.ip (units "unknown-ip")
    ∷ trim_slice_or p.request_meta.user_agent (units "unknown-user-agent")
    ∷ [])

pub floor_to_window : ℕ → ℕ → ℕ
floor_to_window date window_minutes =
    let window_ms = window_minutes * 60 * 1000 in date / window_ms * window_ms

pub floor_to_hour : ℕ → ℕ
floor_to_hour date = date / 3_600_000 * 3_600_000

-- Elapsed minutes below n are elapsed milliseconds below n * 60000.
pub compute_time_based_max_increment : Option ℕ → ℕ → ℕ → ℕ
compute_time_based_max_increment none now absolute_max = absolute_max
compute_time_based_max_increment (some latest) now absolute_max =
    if ltb now (latest + 300_000)
    then min absolute_max 10
    else if ltb now (latest + 900_000)
    then min absolute_max 30
    else if ltb now (latest + 1_800_000)
    then min absolute_max 75
    else absolute_max

abbrev pub same_event : Text → Text → ℕ → Event → Bool
same_event video viewer window e =
    text_eq e.video_id video && text_eq e.viewer_hash viewer && e.window_start == window

abbrev pub same_bucket : Text → ℕ → Bucket → Bool
same_bucket video start b = text_eq b.video_id video && b.bucket_start == start

-- The newest `createdAt` among the video's events that added something.
abbrev later : ℕ → Option ℕ → Option ℕ
later t none = some t
later t (some u) = some (max t u)

pub latest_event_at : Text → List Event → Option ℕ
latest_event_at video [] = none
latest_event_at video (e ∷ es) =
    let rest = latest_event_at video es in
    if text_eq e.video_id video && ltb 0 e.increment then later e.created_at rest else rest

find_bucket : Text → ℕ → List Bucket → Option Bucket
find_bucket video start [] = none
find_bucket video start (b ∷ bs) =
    if same_bucket video start b then some b else find_bucket video start bs

abbrev fresh_bucket : Text → ℕ → Bucket
fresh_bucket video start = record { video_id = video; bucket_start = start; increment_total = 0 }

-- The upsert: the bucket of the hour, and the table that holds it.
pub upsert_bucket : Text → ℕ → List Bucket → Bucket × List Bucket
unfolding find_bucket
upsert_bucket video start bs = elim (find_bucket video start bs) [
  | some b ↦ (b, bs)
  | none ↦ (fresh_bucket video start, fresh_bucket video start ∷ bs)
]

-- The test of `bucketUpdate`: `incrementTotal <= cap - increment`, over the integers.
abbrev pub has_budget : Text → ℕ → ℕ → ℕ → Bucket → Bool
has_budget video start cap increment b =
    same_bucket video start b && leb (b.increment_total + increment) cap

pub add_to_bucket : Text → ℕ → ℕ → ℕ → List Bucket → List Bucket
add_to_bucket video start cap increment [] = []
add_to_bucket video start cap increment (b ∷ bs) =
    (if has_budget video start cap increment b
      then record b { increment_total = b.increment_total + increment }
      else b)
    ∷ add_to_bucket video start cap increment bs

pub find_video : Text → List Video → Option Video
find_video id [] = none
find_video id (v ∷ vs) = if text_eq v.id id then some v else find_video id vs

pub add_views : Text → ℕ → List Video → List Video
add_views id n [] = []
add_views id n (v ∷ vs) =
    if text_eq v.id id
    then record v { view_count = v.view_count + n } ∷ vs
    else v ∷ add_views id n vs

pub read_video_counter : Text → Db → Result Counter
unfolding find_video
read_video_counter id db = elim (find_video id db.videos) [
  | none ↦ err not_found
  | some v ↦ ok (record {
    video_id = v.id;
    view_count = v.view_count;
    published_at = v.published_at;
    increment = 0;
  })
]

-- The catch: a second event for the window is no failure, the counter is read instead.
abbrev pub recover : Text → Db × Result Counter → Db × Result Counter
recover id (db, err unique_constraint) = (db, read_video_counter id db)
recover id (db, r) = (db, r)

-- A transaction that fails leaves the database as it found it.
abbrev pub rolled_back : Db → Db × Result Counter → Db × Result Counter
rolled_back old (db, ok counter) = (db, ok counter)
rolled_back old (db, err e) = (old, err e)

-- What the service is given. `randomInt(lo, hi)` is `random_int draw lo hi`, where the draw stands
-- for the state of its source.
pub record Service : Type 0 where
  pub random_int : ℕ → ℕ → ℕ → ℕ
  pub sha256 : Text → Text
  pub pepper : Text
  pub config : GrowthConfig

module _ (service : Service) where
  pub pick_increment : ℕ → ℕ → ℕ → ℕ
  pick_increment draw lo hi =
      let low = min lo hi in
      if leb hi 0 then 0 else if leb hi low then hi else service.random_int draw low (hi + 1)

  pub build_viewer_hash : Params → Text
  unfolding viewer_key
  build_viewer_hash p = service.sha256 (viewer_key service.pepper p)

  pub window_of : Params → ℕ
  unfolding floor_to_window
  window_of p = floor_to_window p.now service.config.dedupe_window_minutes

  -- The increment that the transaction decides on, from the bucket's total and the events read.
  pub choose_increment : ℕ → Params → ℕ → List Event → ℕ
  unfolding compute_time_based_max_increment latest_event_at pick_increment
  choose_increment draw p total events =
      let remaining_hour_budget = service.config.max_increment_per_video_hour - total in
      let time_based_max =
        compute_time_based_max_increment (latest_event_at p.video_id events) p.now
          service.config.max_increment_per_event in
      let max_increment =
        min (min service.config.max_increment_per_event remaining_hour_budget) time_based_max in
      if leb max_increment 0
      then 0
      else pick_increment draw service.config.random_min_increment max_increment

  -- What the conditional update of the bucket leaves of the increment, and the buckets after it.
  pub claim_budget : Params → ℕ → List Bucket → ℕ × List Bucket
  unfolding floor_to_hour add_to_bucket
  claim_budget p increment bs =
      let start = floor_to_hour p.now in
      let cap = service.config.max_increment_per_video_hour in
      if ltb 0 increment
      then (
        (if count (has_budget p.video_id start cap increment) bs == 1 then increment else 0),
        add_to_bucket p.video_id start cap increment bs,
      )
      else (0, bs)

  event_of : Params → ℕ → Event
  unfolding build_viewer_hash window_of
  event_of p increment = record {
    video_id = p.video_id;
    share_link_id = p.share_link_id;
    website_id = p.website_id;
    viewer_hash = build_viewer_hash p;
    window_start = window_of p;
    increment = increment;
    created_at = p.now;
  }

  -- From the update of the bucket on. The database is the one at that moment: other requests may
  -- have committed since the increment was chosen. The constraints of the event table (its unique
  -- key, the video that it refers to) are tested first: a failure undoes the other writes anyway.
  pub commit : Params → ℕ → Db → Db × Result Counter
  unfolding claim_budget event_of build_viewer_hash window_of read_video_counter add_views
      find_video
  commit p chosen db =
      let (increment, buckets) = claim_budget p chosen db.buckets in
      let events = event_of p increment ∷ db.events in
      rolled_back db (
        if any (same_event p.video_id (build_viewer_hash p) (window_of p)) db.events
        then (db, err unique_constraint)
        else (elim (find_video p.video_id db.videos) [
          | none ↦ (db, err foreign_key)
          | some v ↦
              if leb increment 0
              then (
                record db { events = events; buckets = buckets },
                read_video_counter p.video_id db,
              )
              else (
                record {
                  events = events;
                  buckets = buckets;
                  videos = add_views p.video_id increment db.videos;
                },
                ok (record {
                  video_id = v.id;
                  view_count = v.view_count + increment;
                  published_at = v.published_at;
                  increment = increment;
                }),
              )
        ]))

  pub record_public_video_view : ℕ → Params → Db → Db × Result Counter
  unfolding upsert_bucket choose_increment commit read_video_counter find_video build_viewer_hash
      window_of floor_to_hour
  record_public_video_view draw p db =
      if service.config.enabled
      then (if any (same_event p.video_id (build_viewer_hash p) (window_of p)) db.events
          then (db, read_video_counter p.video_id db)
          else (elim (find_video p.video_id db.videos) [
            | none ↦ (db, err foreign_key)
            | some v ↦
                let (bucket, buckets) = upsert_bucket p.video_id (floor_to_hour p.now) db.buckets in
                let chosen = choose_increment draw p bucket.increment_total db.events in
                recover p.video_id
                  (rolled_back db (commit p chosen (record db { buckets = buckets })))
          ]))
      else (db, read_video_counter p.video_id db)

  -- What may reach the database next: a whole request, or the second half of one whose increment
  -- was chosen earlier, from whatever it read then.
  pub data Turn : Type 0 where
    whole : (draw : ℕ) → Params → Turn
    late : (chosen : ℕ) → Params → Turn

  pub turn : Db → Turn → Db
  turn db (whole draw p) = (record_public_video_view draw p db).0
  turn db (late chosen p) = (commit p chosen db).0

  pub turns : Db → List Turn → Db
  turns db [] = db
  turns db (t ∷ ts) = turns (turn db t) ts
