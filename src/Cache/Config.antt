-- ===== src/Cache/Config.antt =====
-- The cache's configuration: `clampInteger`, `resolveRuntimeConfig` and the two TTL rules.
use bom_media_api.Common.{ℕ, ◌*◌, min, max, Bool, true, Option, none, some}
pub use bom_media_api.Common.Numbers.{JsNumber, nat, neg, no_integer}

-- `Math.max(value, lo)` at an integer; `neg n` is -(n + 1), below every bound in use.
abbrev pub max_with : Option JsNumber → ℕ → ℕ → ℕ
max_with (some (nat n)) lo fallback = max n lo
max_with (some (neg n)) lo fallback = lo
max_with _ lo fallback = max fallback lo

unfoldable pub clamp_integer : Option JsNumber → ℕ → ℕ → ℕ → ℕ
clamp_integer value lo hi fallback = min (max_with value lo fallback) hi

pub record RuntimeConfig : Type 0 where
  pub enabled : Bool
  pub max_entries : ℕ
  pub default_ttl_seconds : ℕ
  pub inflight_ttl_ms : ℕ
  pub admin_videos_list_ttl_seconds : ℕ
  pub admin_websites_list_ttl_seconds : ℕ
  pub public_watch_metadata_ttl_seconds : ℕ
  pub media_metadata_ttl_seconds : ℕ

-- The section `memoryCache` of the configuration, each value as it is found there.
pub record ApiMemoryCache : Type 0 where
  pub enabled : Option Bool
  pub max_entries : Option JsNumber
  pub default_ttl_seconds : Option JsNumber
  pub inflight_ttl_ms : Option JsNumber
  pub admin_videos_list_ttl_seconds : Option JsNumber
  pub admin_websites_list_ttl_seconds : Option JsNumber
  pub public_watch_metadata_ttl_seconds : Option JsNumber
  pub media_metadata_ttl_seconds : Option JsNumber

abbrev pub default_config : RuntimeConfig
default_config = record {
  enabled = true;
  max_entries = 1000;
  default_ttl_seconds = 60;
  inflight_ttl_ms = 5000;
  admin_videos_list_ttl_seconds = 30;
  admin_websites_list_ttl_seconds = 60;
  public_watch_metadata_ttl_seconds = 10;
  media_metadata_ttl_seconds = 300;
}

abbrev or_default : Option Bool → Bool → Bool
or_default none d = d
or_default (some b) d = b

unfoldable pub resolve_runtime_config : ApiMemoryCache → RuntimeConfig
unfolding clamp_integer
resolve_runtime_config m = record {
  enabled = or_default m.enabled default_config.enabled;
  max_entries = clamp_integer m.max_entries 100 10_000 default_config.max_entries;
  default_ttl_seconds =
      clamp_integer m.default_ttl_seconds 1 600 default_config.default_ttl_seconds;
  inflight_ttl_ms = clamp_integer m.inflight_ttl_ms 500 30_000 default_config.inflight_ttl_ms;
  admin_videos_list_ttl_seconds =
      clamp_integer m.admin_videos_list_ttl_seconds 1 600
        default_config.admin_videos_list_ttl_seconds;
  admin_websites_list_ttl_seconds =
      clamp_integer m.admin_websites_list_ttl_seconds 1 600
        default_config.admin_websites_list_ttl_seconds;
  public_watch_metadata_ttl_seconds =
      clamp_integer m.public_watch_metadata_ttl_seconds 1 60
        default_config.public_watch_metadata_ttl_seconds;
  media_metadata_ttl_seconds =
      clamp_integer m.media_metadata_ttl_seconds 1 3600 default_config.media_metadata_ttl_seconds;
}

-- `ttl ?? fallback`.
abbrev pub or_number : Option JsNumber → ℕ → Option JsNumber
or_number none d = some (nat d)
or_number (some n) d = some n

unfoldable pub resolve_ttl_ms : RuntimeConfig → Option JsNumber → ℕ
unfolding clamp_integer
resolve_ttl_ms c ttl =
    clamp_integer (or_number ttl c.default_ttl_seconds) 1 3600 c.default_ttl_seconds * 1000

unfoldable pub resolve_inflight_ttl_ms : RuntimeConfig → Option JsNumber → ℕ
unfolding clamp_integer
resolve_inflight_ttl_ms c ttl =
    clamp_integer (or_number ttl c.inflight_ttl_ms) 500 30_000 c.inflight_ttl_ms
