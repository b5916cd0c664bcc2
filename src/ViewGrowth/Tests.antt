-- ===== src/ViewGrowth/Tests.antt =====
-- The view counter on concrete requests.
use bom_media_api.Common.{
  ◌+◌, ◌-◌, ◌≤◌, ◌≡◌, refl, true, none, some, [], ◌∷◌, arith, units, text_eq, trim, slice_to,
}
use bom_media_api.ViewGrowth.{
  Service, Params, Db, whole, late, turns, record_public_video_view, read_video_counter,
  upsert_bucket, latest_event_at, floor_to_hour, ok, Counter,
}
use bom_media_api.ViewGrowth.Cap.{IsCapped, IsPaced, turns-IsCapped, record-increment_bounds}
use bom_media_api.ViewGrowth.Once.{record-record}
use bom_media_api.ViewGrowth.Conserved.{views, recorded, turns_conserve}

-- The least number of the range, and a digest that tells its inputs apart.
abbrev service : Service
service = record {
  random_int = λ draw lo hi. lo;
  sha256 = λ t. t;
  pepper = units "pepper";
  config = record {
    enabled = true;
    max_increment_per_event = 99;
    max_increment_per_video_hour = 5000;
    dedupe_window_minutes = 30;
    random_min_increment = 2;
  };
}

abbrev request : Params
request = record {
  video_id = units "v";
  share_link_id = units "s";
  website_id = units "w";
  request_meta = record { ip = some (units " 1.2.3.4 "); user_agent = none };
  now = 7_200_000;
}

abbrev db : Db
db = record {
  events = [];
  buckets = [];
  videos = record { id = units "v"; view_count = 40; published_at = none } ∷ [];
}

abbrev counter : Counter
counter = record { video_id = units "v"; view_count = 42; published_at = none; increment = 2 }

growth : Unit {0}
unfolding record_public_video_view text_eq trim slice_to turns
growth = tt

adds_two : (record_public_video_view service 0 request db).1 ≡ ok counter
unfolding growth
adds_two = refl

turns-IsCapped_example :
    IsCapped 5000 (turns service db (whole 0 request ∷ late 99 request ∷ [])).buckets
turns-IsCapped_example = turns-IsCapped service db (whole 0 request ∷ late 99 request ∷ []) tt

record-increment_bounds_example :
    (counter.increment ≤ 99)
    × (counter.increment
        ≤ 5000 - (upsert_bucket (units "v") (floor_to_hour 7_200_000) []).0.increment_total)
    × IsPaced service (latest_event_at (units "v") []) 7_200_000 2
unfolding growth
record-increment_bounds_example =
    record-increment_bounds service (λ d lo hi h. (omega arith, h)) 0 request db counter adds_two

record-record_example :
    let db' = (record_public_video_view service 0 request db).0 in
    record_public_video_view service 5 request db' ≡ (db', read_video_counter (units "v") db')
record-record_example = record-record service 0 5 request request db refl adds_two refl refl refl

turns_conserve_example :
    views (units "v") (turns service db (whole 0 request ∷ late 7 request ∷ [])) + 0
    ≡ 40 + recorded (units "v") (turns service db (whole 0 request ∷ late 7 request ∷ [])).events
unfolding growth
turns_conserve_example =
    turns_conserve service (units "v") db (whole 0 request ∷ late 7 request ∷ [])
