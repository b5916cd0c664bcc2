-- ===== src/ViewGrowth/Once.antt =====
-- A viewer is counted once per window.
use bom_media_api.Common.{ℕ, ◌≡◌, Bool, true, arith, any, text_eq_iff}
use bom_media_api.ViewGrowth.{
  Service, Params, Db, Counter, ok, same_event, upsert_bucket, floor_to_hour, build_viewer_hash,
  window_of, event_of, choose_increment, commit, record_public_video_view, read_video_counter,
}

module _ (service : Service) where
  -- Whether the viewer of a request is already on record for its window.
  abbrev pub seen : Params → Db → Bool
  seen p db =
      any (same_event p.video_id (build_viewer_hash service p) (window_of service p)) db.events

  seen-commit :
      (p : Params) (n : ℕ) (db : Db) (counter : Counter)
      → (commit service p n db).1 ≡ ok counter
      → seen p (commit service p n db).0 ≡ true
  unfolding commit event_of
  seen-commit p n db counter h = ground (
    arith,
    text_eq_iff p.video_id p.video_id,
    text_eq_iff (build_viewer_hash service p) (build_viewer_hash service p),
  )

  seen-record :
      (draw : ℕ) (p : Params) (db : Db) (counter : Counter)
      → service.config.enabled ≡ true
      → (record_public_video_view service draw p db).1 ≡ ok counter
      → seen p (record_public_video_view service draw p db).0 ≡ true
  unfolding record_public_video_view
  seen-record draw p db counter on h =
      let up = upsert_bucket p.video_id (floor_to_hour p.now) db.buckets in
      ground (
        arith,
        seen-commit p (choose_increment service draw p up.0.increment_total db.events)
            (record db { buckets = up.1 }) counter,
      )

  record_of_seen :
      (draw : ℕ) (p : Params) (db : Db)
      → seen p db ≡ true
      → record_public_video_view service draw p db ≡ (db, read_video_counter p.video_id db)
  unfolding record_public_video_view
  record_of_seen draw p db h = ground arith

  -- If view growth is enabled, then after a request that succeeded, a further request of the same
  -- viewer for the same video in the same window changes nothing in the database and answers what a
  -- reading of the video's counter answers.
  pub record-record :
      (draw draw' : ℕ) (p p' : Params) (db : Db) {counter : Counter}
      → service.config.enabled ≡ true
      → (record_public_video_view service draw p db).1 ≡ ok counter
      → p'.video_id ≡ p.video_id
      → build_viewer_hash service p' ≡ build_viewer_hash service p
      → window_of service p' ≡ window_of service p
      → let db' = (record_public_video_view service draw p db).0 in
        record_public_video_view service draw' p' db' ≡ (db', read_video_counter p.video_id db')
  record-record draw draw' p p' db {counter} on h same_video same_viewer same_window = ground (
    arith,
    record_of_seen draw' p' (record_public_video_view service draw p db).0,
    seen-record draw p db counter on h,
  )
