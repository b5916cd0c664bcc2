-- ===== src/CanonicalLinks/Tests.antt =====
-- Canonical links in small databases: a website with a domain, and a video that may be shared.
use bom_media_api.Common.{
  ℕ, zero, suc, ◌+◌, ◌<◌, ◌≡◌, ◌⊎◌, inr, refl, true, false, none, some, List, [], ◌∷◌, ◌++◌, arith,
  Text, units, text_eq, trim, starts_with,
}
use bom_media_api.ShareLinks.{ShareLinkStatus, VideoStatus}
use bom_media_api.Canonical.{compare_canonical_candidates, select_canonical_historical_winner}
use bom_media_api.ShareUrls.{Js, normalize_website_domain}
use bom_media_api.CanonicalLinks.Tables.{
  Db, Domain, Video, Assignment, Link, SourceType, Snapshot, Canonical, Action, find_canonical,
  find_exact_single_video_candidates,
}
use bom_media_api.CanonicalLinks.Outcome.{Env, Result, ok}
use bom_media_api.CanonicalLinks.Response.{Response, Kind, created, reused, to_response}
use bom_media_api.CanonicalLinks.Create.{
  audited, Draw, Plan, Settled, plan, create_tx, create_or_get_canonical, mapping, fresh_link,
}
use bom_media_api.CanonicalLinks.Exact.{InLinks, IsExact}
use bom_media_api.CanonicalLinks.History.{IsLatest, IsUnrestricted, create_tx-history}
use bom_media_api.CanonicalLinks.Fresh.{IsFresh, IsLost, no_others, create_or_get_canonical-created}
use bom_media_api.CanonicalLinks.Permanent.{create_or_get_canonical-permanent}
use bom_media_api.CanonicalLinks.Steps.{Step, creates, edits, run}

abbrev js : Js
js = record { to_lower_case = λ s. s; url_host = λ s. some s; encode_uri_component = λ s. s }

abbrev env : Env
env = record {
  js = js;
  sha256_json = λ s. s.title;
  hash_share_token = λ token pepper. token ++ pepper;
  share_token_pepper = some (units "pepper");
  public_share_local_protocol = none;
  public_site_protocol = none;
  public_compatibility_url_hosts = none;
}

abbrev domain : Domain
domain = record {
  id = units "d";
  website_id = some (units "w");
  domain = units "a.example";
  is_primary = false;
  is_active = true;
  created_at = 1;
}

abbrev video : Video
video = record {
  id = units "v";
  status = VideoStatus.ready;
  source_type = SourceType.direct_url;
  title = units "title";
  duration_seconds = none;
  published_at = none;
  playback_url = some (units "https://cdn.example/v");
  provider_asset_id = none;
  embed_provider = none;
  embed_url = none;
  embed_public_id = none;
  local_file_asset = none;
  binary_asset = none;
}

abbrev assignment : Assignment
assignment = record { website_id = units "w"; video_id = units "v"; is_active = true }

abbrev link : Text → List Text → Link
link name videos = record {
  id = name;
  website_id = units "w";
  token_hash = name;
  alias = some name;
  transport_alias = none;
  expires_at = none;
  max_views = none;
  status = ShareLinkStatus.active;
  created_at = 5;
  video_ids = videos;
}

abbrev db : List Link → Db
db links = record {
  websites = record { id = units "w"; is_active = true } ∷ [];
  domains = domain ∷ [];
  videos = video ∷ [];
  assignments = assignment ∷ [];
  links = links;
  canonicals = [];
  audits = [];
}

abbrev drawn : Text → Draw
drawn name = record {
  token = name;
  alias = name;
  transport_alias = name;
  link_id = units "l" ++ name;
  canonical_id = units "c" ++ name;
  conflicts = false;
}

-- The first draw is "1", the second "2".
abbrev draws : ℕ → Draw
draws n = drawn ((48 + n) ∷ [])

abbrev aliases : ℕ → Text
aliases n = n ∷ []

service : Unit {0}
unfolding create_or_get_canonical create_tx plan to_response mapping fresh_link run text_eq trim
    starts_with normalize_website_domain find_exact_single_video_candidates find_canonical
    select_canonical_historical_winner compare_canonical_candidates
service = tt

-- The link that the draw of a name leaves, and what is told of it.
abbrev minted : Text → Link
minted name = record {
  id = units "l" ++ name;
  website_id = units "w";
  token_hash = name ++ units "pepper";
  alias = some name;
  transport_alias = some name;
  expires_at = none;
  max_views = none;
  status = ShareLinkStatus.active;
  created_at = 10;
  video_ids = units "v" ∷ [];
}

abbrev told : Kind → Response
told outcome = record {
  outcome = outcome;
  evidence_drift = false;
  share_link = minted (units "1");
  public_url = units "https://a.example/#/s/1/videos";
  review_url = units "https://a.example/watch#k=1";
  compatibility_url = none;
  alias = units "1";
}

abbrev others : ℕ → Db → Db
others n d = d

answer : Db → Db × Result Response
answer d =
    create_or_get_canonical env (units "w") (units "v") (units "admin") draws aliases others 10 d

created_1 : (answer (db [])).1 ≡ ok (told created)
unfolding service answer
created_1 = refl

-- Another domain becomes the primary one, and another request is too late.
abbrev new_domain : Domain
new_domain = record domain { id = units "e"; domain = units "b.example"; is_primary = true }

abbrev steps : List Step
steps =
    edits (record { id = units "w"; is_active = true } ∷ []) (new_domain ∷ domain ∷ []) (video ∷ [])
      (assignment ∷ [])
    ∷ creates (units "w") (units "v") (units "admin") (units "pepper") (drawn (units "9")) 15
    ∷ []

later : Db
later = run env (answer (db [])).0 steps

reused_1 :
    (create_or_get_canonical env
      (units "w")
      (units "v")
      (units "other")
      draws
      aliases
      others
      20
      later).1
    ≡ ok (told reused)
unfolding service answer later
reused_1 = refl

create_or_get_canonical-permanent_example :
    ((told reused).review_url ≡ (told created).review_url)
    × ((told reused).public_url ≡ (told created).public_url)
    × ((told reused).alias ≡ (told created).alias)
    × ((told reused).outcome ≡ reused)
unfolding answer later
create_or_get_canonical-permanent_example =
    create_or_get_canonical-permanent env (units "w") (units "v") (units "admin") (units "other")
      draws draws aliases aliases others others 10 20 (db []) steps (told created) (told reused)
      created_1 reused_1

abbrev snapshot : Snapshot
snapshot = record {
  video_id = units "v";
  source_type = SourceType.direct_url;
  title = units "title";
  duration_seconds = none;
  published_at = none;
  playback_url = some (units "https://cdn.example/v");
  provider_asset_id = none;
  embed_provider = none;
  embed_url = none;
  embed_public_id = none;
  checksum_sha256 = none;
  size_bytes = none;
  mime_type = none;
  snapshot_at = 10;
}

abbrev mapped : Text → Text → Canonical
mapped id to = mapping env (units "w") (units "v") (units "admin") id to domain snapshot

-- A revoked link of before, which a creation adopts, an older link, and a later link to two videos.
abbrev old : Link
old = record (link (units "old") (units "v" ∷ [])) { status = ShareLinkStatus.revoked }

abbrev history : Db
history = db (
    record (link (units "both") (units "v" ∷ units "x" ∷ [])) { created_at = 9 }
    ∷ record (link (units "zero") (units "v" ∷ [])) { created_at = 0 }
    ∷ old
    ∷ [])

tx : Db × Result Settled
tx =
    create_tx env (units "w") (units "v") (units "admin") (units "pepper") (drawn (units "1")) 10
      history

abbrev adopted_old : Settled
adopted_old = record {
  row = record { canonical = mapped (units "c1") (units "old"); link = old };
  adopted = true;
}

adopts_old : tx.1 ≡ ok adopted_old
unfolding service tx
adopts_old = refl

create_tx-history_example :
    (((l : Link) → InLinks l history.links → ¬ IsExact (units "w") (units "v") l)
      × (adopted_old.adopted ≡ false)
      × (adopted_old.row.canonical.share_link_id ≡ units "l1")
      × (tx.0.links
          ≡ fresh_link env
              (units "w")
              (units "v")
              (units "admin")
              (units "pepper")
              (drawn (units "1"))
              10
            ∷ history.links))
    ⊎ ((l : Link) × IsLatest (units "w") (units "v") l history
        × IsUnrestricted (units "w") (units "v") l history
        × (adopted_old.adopted ≡ true)
        × (adopted_old.row.canonical.share_link_id ≡ l.id)
        × (tx.0.links ≡ history.links))
unfolding tx
create_tx-history_example =
    create_tx-history env (units "w") (units "v") (units "admin") (units "pepper")
      (drawn (units "1")) 10 history adopted_old adopts_old

-- The alias of the first draw is in use, by a link of another video.
abbrev crowded : Db
crowded = db (link (units "1") (units "x" ∷ []) ∷ [])

abbrev planned : Plan
planned = record { domain = domain; snapshot = snapshot; adopted = none }

crowded-plan : plan (units "w") (units "v") 10 crowded ≡ ok planned
unfolding service
crowded-plan = refl

one-IsLost :
    (i : ℕ)
    → i < 1
    → IsLost env (units "w") (units "v") (units "admin") (units "pepper") 10 crowded (draws (i + 1))
unfolding service
one-IsLost zero h = inr (refl, refl, refl)
one-IsLost (suc i) h = ground arith

two-IsFresh :
    IsFresh env (units "w") (units "v") (units "admin") (units "pepper") 10 crowded (draws 2)
unfolding service
two-IsFresh = (refl, refl, refl, refl, refl)

create_or_get_canonical-created_example :
    (r : Response) × (create_or_get_canonical env
        (units "w")
        (units "v")
        (units "admin")
        draws
        aliases
        no_others
        10
        crowded
      ≡ (
        audited (units "admin") Action.create (units "c2") (record crowded {
          links =
              fresh_link env
                (units "w")
                (units "v")
                (units "admin")
                (units "pepper")
                (drawn (units "2"))
                10
              ∷ crowded.links;
          canonicals = mapped (units "c2") (units "l2") ∷ [];
        }),
        ok r,
      ))
    × (r.outcome ≡ created)
    × (r.alias ≡ units "2")
    × (r.share_link
        ≡ fresh_link env
            (units "w")
            (units "v")
            (units "admin")
            (units "pepper")
            (drawn (units "2"))
            10)
unfolding service
create_or_get_canonical-created_example =
    create_or_get_canonical-created env (units "w") (units "v") (units "admin") (units "pepper") 10
      crowded planned crowded-plan refl refl draws aliases 1 (units "a.example") refl refl
      (omega arith) one-IsLost two-IsFresh refl refl
