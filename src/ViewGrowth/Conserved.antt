-- ===== src/ViewGrowth/Conserved.antt =====
-- A video's counter moves by exactly the increments of its events.
use bom_media_api.Common.{
  ℕ, ◌+◌, ◌≡◌, refl, Option, none, some, List, [], ◌∷◌, arith, if◌then◌else◌, Text, text_eq,
  text_eq_iff, Option-cases, inl, inr,
}
use bom_media_api.ViewGrowth.{
  Service, Turn, whole, late, turn, turns, Event, Video, Params, Db, upsert_bucket, floor_to_hour,
  event_of, add_views, choose_increment, claim_budget, commit, record_public_video_view, find_video,
}

abbrev views_of : Option Video → ℕ
views_of none = 0
views_of (some v) = v.view_count

-- The counter of a video.
abbrev pub views : Text → Db → ℕ
views id db = views_of (find_video id db.videos)

-- The sum of the increments on record for a video.
abbrev pub recorded : Text → List Event → ℕ
recorded id [] = 0
recorded id (e ∷ es) =
    if text_eq e.video_id id then e.increment + recorded id es else recorded id es

find_video-add_views :
    (id j : Text) (n : ℕ) (vs : List Video) (v : Video)
    → find_video j vs ≡ some v
    → views_of (find_video id (add_views j n vs))
      ≡ views_of (find_video id vs) + (if text_eq j id then n else 0)
unfolding find_video add_views
find_video-add_views id j n [] v h = ground arith
find_video-add_views id j n (w ∷ vs) v h = ground (
  arith,
  find_video-add_views id j n vs v,
  text_eq_iff w.id j,
  text_eq_iff w.id id,
  text_eq_iff j id,
)

module _ (service : Service) where
  commit_conserves :
      (id : Text) (p : Params) (n : ℕ) (db : Db)
      → let db' = (commit service p n db).0 in
        views id db' + recorded id db.events ≡ views id db + recorded id db'.events
  unfolding commit event_of
  commit_conserves id p n db = elim (Option-cases (find_video p.video_id db.videos)) [
    | inl missing ↦ ground arith
    | inr (v, found) ↦ ground (
      arith,
      find_video-add_views id p.video_id (claim_budget service p n db.buckets).0 db.videos v found,
    )
  ]

  record_conserves :
      (id : Text) (draw : ℕ) (p : Params) (db : Db)
      → let db' = (record_public_video_view service draw p db).0 in
        views id db' + recorded id db.events ≡ views id db + recorded id db'.events
  unfolding record_public_video_view
  record_conserves id draw p db =
      let up = upsert_bucket p.video_id (floor_to_hour p.now) db.buckets in
      ground (
        arith,
        commit_conserves id p (choose_increment service draw p up.0.increment_total db.events)
            (record db { buckets = up.1 }),
      )

  turn_conserves :
      (id : Text) (db : Db) (t : Turn service)
      → views id (turn service db t) + recorded id db.events
        ≡ views id db + recorded id (turn service db t).events
  unfolding turn
  turn_conserves id db (whole draw p) = record_conserves id draw p db
  turn_conserves id db (late chosen p) = commit_conserves id p chosen db

  -- Whatever requests run and however their halves interleave, a video's counter moves by exactly
  -- the sum of the increments that its new events record: no view is lost and none is counted twice.
  pub turns_conserve :
      (id : Text) (db : Db) (ts : List (Turn service))
      → views id (turns service db ts) + recorded id db.events
        ≡ views id db + recorded id (turns service db ts).events
  unfolding turns
  turns_conserve id db [] = refl
  turns_conserve id db (t ∷ ts) =
      omega (arith, turn_conserves id db t, turns_conserve id (turn service db t) ts)
