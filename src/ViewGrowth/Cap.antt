-- ===== src/ViewGrowth/Cap.antt =====
-- The hourly budget of a video, and the bounds on one increment.
use bom_media_api.Common.{
  ℕ, ◌+◌, ◌-◌, ◌≤◌, ◌<◌, ◌≡◌, min, Option, none, some, List, [], ◌∷◌, arith, All, Text,
}
use bom_media_api.ViewGrowth.{
  Service, Turn, whole, late, turn, turns, Bucket, Event, Params, Db, Counter, ok, upsert_bucket,
  add_to_bucket, floor_to_hour, compute_time_based_max_increment, latest_event_at, pick_increment,
  choose_increment, claim_budget, commit, record_public_video_view, read_video_counter,
}

abbrev pub IsCapped : ℕ → List Bucket → Type 0
IsCapped cap = All (λ b. b.increment_total ≤ cap)

add_to_bucket-IsCapped :
    (video : Text) (start cap n : ℕ) (bs : List Bucket)
    → IsCapped cap bs
    → IsCapped cap (add_to_bucket video start cap n bs)
unfolding add_to_bucket
add_to_bucket-IsCapped video start cap n [] h = h
add_to_bucket-IsCapped video start cap n (b ∷ bs) h =
    ground (arith, add_to_bucket-IsCapped video start cap n bs h.1)

upsert_bucket-IsCapped :
    (video : Text) (start cap : ℕ) (bs : List Bucket)
    → IsCapped cap bs
    → IsCapped cap (upsert_bucket video start bs).1
unfolding upsert_bucket
upsert_bucket-IsCapped video start cap bs h = ground arith

module _ (service : Service) where
  abbrev cap : ℕ
  cap = service.config.max_increment_per_video_hour

  claim_budget-IsCapped :
      (p : Params) (n : ℕ) (bs : List Bucket)
      → IsCapped cap bs
      → IsCapped cap (claim_budget service p n bs).1
  unfolding claim_budget
  claim_budget-IsCapped p n bs h =
      ground (arith, add_to_bucket-IsCapped p.video_id (floor_to_hour p.now) cap n bs h)

  commit-IsCapped :
      (p : Params) (n : ℕ) (db : Db)
      → IsCapped cap db.buckets
      → IsCapped cap (commit service p n db).0.buckets
  unfolding commit
  commit-IsCapped p n db h = ground (arith, claim_budget-IsCapped p n db.buckets h)

  record-IsCapped :
      (draw : ℕ) (p : Params) (db : Db)
      → IsCapped cap db.buckets
      → IsCapped cap (record_public_video_view service draw p db).0.buckets
  unfolding record_public_video_view
  record-IsCapped draw p db h =
      let up = upsert_bucket p.video_id (floor_to_hour p.now) db.buckets in
      ground (
        arith,
        commit-IsCapped p (choose_increment service draw p up.0.increment_total db.events)
            (record db { buckets = up.1 }),
        upsert_bucket-IsCapped p.video_id (floor_to_hour p.now) cap db.buckets h,
      )

  turn-IsCapped :
      (db : Db) (t : Turn service)
      → IsCapped cap db.buckets
      → IsCapped cap (turn service db t).buckets
  unfolding turn
  turn-IsCapped db (whole draw p) h = record-IsCapped draw p db h
  turn-IsCapped db (late chosen p) h = commit-IsCapped p chosen db h

  -- Whatever requests run and however their halves interleave, no bucket of a video and hour ever
  -- holds more than `maxIncrementPerVideoHour`, if none did at the start.
  pub turns-IsCapped :
      (db : Db) (ts : List (Turn service))
      → IsCapped cap db.buckets
      → IsCapped cap (turns service db ts).buckets
  unfolding turns
  turns-IsCapped db [] h = h
  turns-IsCapped db (t ∷ ts) h = turns-IsCapped (turn service db t) ts (turn-IsCapped db t h)

  -- What `randomInt` documents.
  abbrev pub IsInRange : Type 0
  IsInRange =
      (draw lo hi : ℕ)
      → lo < hi
      → (lo ≤ service.random_int draw lo hi) × (service.random_int draw lo hi < hi)

  pick_increment-le : IsInRange → (draw lo hi : ℕ) → pick_increment service draw lo hi ≤ hi
  unfolding pick_increment
  pick_increment-le law draw lo hi = ground (arith, law draw (min lo hi) (hi + 1))

  -- The limits in force after the newest counted event.
  abbrev pub IsPaced : Option ℕ → ℕ → ℕ → Type 0
  IsPaced none now n = Unit
  IsPaced (some latest) now n =
      (now < latest + 300_000 → n ≤ 10)
      × (now < latest + 900_000 → n ≤ 30)
      × (now < latest + 1_800_000 → n ≤ 75)

  time_based-IsPaced :
      (latest : Option ℕ) (now top n : ℕ)
      → n ≤ compute_time_based_max_increment latest now top
      → (n ≤ top) × IsPaced latest now n
  unfolding compute_time_based_max_increment
  time_based-IsPaced none now top n h = ground arith
  time_based-IsPaced (some latest) now top n h =
      (ground arith, (λ p. ground arith, λ p. ground arith, λ p. ground arith))

  choose_increment_bounds :
      IsInRange
      → (draw : ℕ) (p : Params) (total : ℕ) (events : List Event)
      → (choose_increment service draw p total events ≤ service.config.max_increment_per_event)
        × (choose_increment service draw p total events ≤ cap - total)
        × IsPaced
            (latest_event_at p.video_id events)
            p.now
            (choose_increment service draw p total events)
  unfolding choose_increment
  choose_increment_bounds law draw p total events =
      let top = service.config.max_increment_per_event in
      let latest = latest_event_at p.video_id events in
      let paced = compute_time_based_max_increment latest p.now top in
      let most = min (min top (cap - total)) paced in
      let picked = pick_increment-le law draw service.config.random_min_increment most in
      let n = choose_increment service draw p total events in
      let within : n ≤ most = ground (arith, picked) in
      (omega arith, omega arith, (time_based-IsPaced latest p.now top n (omega arith)).1)

  IsPaced-mono :
      (latest : Option ℕ) (now m n : ℕ) → m ≤ n → IsPaced latest now n → IsPaced latest now m
  IsPaced-mono none now m n h k = tt
  IsPaced-mono (some latest) now m n h k = ground arith

  commit-increment-le :
      (p : Params) (n : ℕ) (db : Db) (counter : Counter)
      → (commit service p n db).1 ≡ ok counter
      → counter.increment ≤ n
  unfolding commit claim_budget read_video_counter
  commit-increment-le p n db counter h = ground arith

  read_video_counter-increment :
      (id : Text) (db : Db) (counter : Counter)
      → read_video_counter id db ≡ ok counter
      → counter.increment ≡ 0
  unfolding read_video_counter
  read_video_counter-increment id db counter h = ground arith

  -- The increment that a request reports is at most the increment of a whole request.
  record-increment-le :
      (draw : ℕ) (p : Params) (db : Db) (counter : Counter)
      → (record_public_video_view service draw p db).1 ≡ ok counter
      → let total = (upsert_bucket p.video_id (floor_to_hour p.now) db.buckets).0.increment_total in
        counter.increment ≤ choose_increment service draw p total db.events
  unfolding record_public_video_view
  record-increment-le draw p db counter h =
      let up = upsert_bucket p.video_id (floor_to_hour p.now) db.buckets in
      ground (
        arith,
        commit-increment-le p (choose_increment service draw p up.0.increment_total db.events)
            (record db { buckets = up.1 }) counter,
        read_video_counter-increment p.video_id db counter,
      )

  -- If `randomInt` answers within its bounds, the increment that a request reports is at most
  -- `maxIncrementPerEvent` and what the hour's bucket has left, and at most 10, 30 or 75 where the
  -- video's newest counted event is less than 5, 15 or 30 minutes old.
  pub record-increment_bounds :
      IsInRange
      → (draw : ℕ) (p : Params) (db : Db) (counter : Counter)
      → (record_public_video_view service draw p db).1 ≡ ok counter
      → let total = (upsert_bucket p.video_id (floor_to_hour p.now) db.buckets).0.increment_total in
        (counter.increment ≤ service.config.max_increment_per_event)
        × (counter.increment ≤ service.config.max_increment_per_video_hour - total)
        × IsPaced (latest_event_at p.video_id db.events) p.now counter.increment
  record-increment_bounds law draw p db counter h =
      let total = (upsert_bucket p.video_id (floor_to_hour p.now) db.buckets).0.increment_total in
      let below = record-increment-le draw p db counter h in
      let (event, hour, paced) = choose_increment_bounds law draw p total db.events in
      (omega arith, omega arith, IsPaced-mono _ _ _ _ below paced)
