-- ===== src/Cache.antt =====
-- src/cache/memory-cache.service.ts: the in-process LRU cache with expiry and shared loads.
-- `now` is what `Date.now()` returns, a value is `Option V` with `none` for `null`, a promise is a
-- number that stands for its identity. Between two awaits the code runs alone, so each operation
-- is one function; `getOrSet` is cut at its `await` into `begin`, `settle` and `finish`.
mod Config
pub mod Invariant
pub mod Lookup
pub mod Recency
pub mod Sharing
pub mod Tests
unfoldable pub use Config.*
use bom_media_api.Common.{
  ℕ, suc, ◌+◌, ◌*◌, min, max, Bool, true, Option, none, some, List, [], ◌∷◌, ltb, leb, ◌==◌,
  if◌then◌else◌, length, count, filter, Text, starts_with,
}
use bom_media_api.Common.JsMap.{find, put, remove, has}
use Config.{JsNumber, RuntimeConfig, resolve_ttl_ms, resolve_inflight_ttl_ms}

pub record Entry (V : Type 0) : Type 0 where
  pub value : Option V
  pub expires_at : ℕ

pub record Inflight : Type 0 where
  pub promise : ℕ
  pub expires_at : ℕ

pub record Cache (V : Type 0) : Type 0 where
  pub config : RuntimeConfig
  pub entries : List (Text × Entry V)
  pub inflight : List (Text × Inflight)
  pub hits : ℕ
  pub misses : ℕ
  pub sets : ℕ
  pub deletes : ℕ
  pub evictions : ℕ

pub record Stats : Type 0 where
  pub enabled : Bool
  pub size : ℕ
  pub max_entries : ℕ
  pub hits : ℕ
  pub misses : ℕ
  pub sets : ℕ
  pub deletes : ℕ
  pub evictions : ℕ
  pub inflight : ℕ

abbrev pub one_if : Bool → ℕ
one_if b = if b then 1 else 0

module _ {V : Type 0} where
  pub init : RuntimeConfig → Cache V
  init config = record {
    config = config;
    entries = [];
    inflight = [];
    hits = 0;
    misses = 0;
    sets = 0;
    deletes = 0;
    evictions = 0;
  }

  -- The loop of `evictOverflow`: drop the oldest key while there are too many; the number dropped.
  pub evict_from : ℕ → List (Text × Entry V) → ℕ → List (Text × Entry V) × ℕ
  evict_from cap [] n = ([], n)
  evict_from cap (e ∷ es) n =
      if ltb cap (length (e ∷ es)) then evict_from cap es (suc n) else (e ∷ es, n)

  pub evict_overflow : Cache V → Cache V
  unfolding evict_from
  evict_overflow c =
      let (kept, n) = evict_from c.config.max_entries c.entries 0 in
      record c { entries = kept; evictions = c.evictions + n }

  pub get_found : Text → Entry V → ℕ → Cache V → Cache V × Option V
  get_found key entry now c =
      if leb entry.expires_at now
      then (
        record c { entries = remove key c.entries; misses = c.misses + 1; deletes = c.deletes + 1 },
        none,
      )
      else (
        record c { entries = put key entry (remove key c.entries); hits = c.hits + 1 },
        entry.value,
      )

  pub get : Text → ℕ → Cache V → Cache V × Option V
  unfolding get_found
  get key now c =
      if c.config.enabled
      then (elim (find key c.entries) [
        | none ↦ (record c { misses = c.misses + 1 }, none)
        | some entry ↦ get_found key entry now c
      ])
      else (c, none)

  pub set : Text → Option V → Option JsNumber → ℕ → Cache V → Cache V
  unfolding evict_overflow resolve_ttl_ms
  set key value ttl now c =
      if c.config.enabled
      then evict_overflow (record c {
        entries =
            put key (record { value = value; expires_at = now + resolve_ttl_ms c.config ttl })
              (remove key c.entries);
        sets = c.sets + 1;
      })
      else c

  pub delete : Text → Cache V → Cache V
  delete key c = record c {
    entries = remove key c.entries;
    inflight = remove key c.inflight;
    deletes = c.deletes + one_if (has key c.entries) + one_if (has key c.inflight);
  }

  pub clear : Cache V → Cache V
  clear c = record c {
    entries = [];
    inflight = [];
    deletes = c.deletes + (length c.entries + length c.inflight);
  }

-- The loop over the keys of one map in `deleteByPrefix`.
pub drop_prefix {ℓ} : {A : Type ℓ} → Text → List (Text × A) → List (Text × A)
drop_prefix prefix [] = []
drop_prefix prefix ((k, a) ∷ m) =
    if starts_with k prefix then drop_prefix prefix m else (k, a) ∷ drop_prefix prefix m

pub count_prefix {ℓ} : {A : Type ℓ} → Text → List (Text × A) → ℕ
count_prefix prefix m = count (λ e. starts_with e.0 prefix) m

-- The loop of `pruneExpiredInflight`: an entry that has expired is deleted and counted.
pub live_inflight : ℕ → List (Text × Inflight) → List (Text × Inflight)
live_inflight now m = filter (λ e. ltb now e.1.expires_at) m

module _ {V : Type 0} where
  pub delete_by_prefix : Text → Cache V → Cache V × ℕ
  unfolding drop_prefix count_prefix
  delete_by_prefix prefix c =
      let deleted_count = count_prefix prefix c.entries + count_prefix prefix c.inflight in
      (
        record c {
          entries = drop_prefix prefix c.entries;
          inflight = drop_prefix prefix c.inflight;
          deletes = c.deletes + deleted_count;
        },
        deleted_count,
      )

  pub prune_expired_inflight : ℕ → Cache V → Cache V
  unfolding live_inflight
  prune_expired_inflight now c = record c {
    inflight = live_inflight now c.inflight;
    deletes = c.deletes + count (λ e. leb e.1.expires_at now) c.inflight;
  }

  pub get_stats : ℕ → Cache V → Cache V × Stats
  unfolding prune_expired_inflight
  get_stats now c =
      let d = prune_expired_inflight now c in
      (
        d,
        record {
          enabled = d.config.enabled;
          size = length d.entries;
          max_entries = d.config.max_entries;
          hits = d.hits;
          misses = d.misses;
          sets = d.sets;
          deletes = d.deletes;
          evictions = d.evictions;
          inflight = length d.inflight;
        },
      )

  pub read_inflight : Text → ℕ → Cache V → Cache V × Option ℕ
  read_inflight key now c = elim (find key c.inflight) [
    | none ↦ (c, none)
    | some entry ↦
        if leb entry.expires_at now
        then (record c { inflight = remove key c.inflight; deletes = c.deletes + 1 }, none)
        else (c, some entry.promise)
  ]

-- How a call of `getOrSet` goes on at its `await`.
pub data Begun (V : Type 0) : Type 0 where
  bypassed : Begun V
  cached : V → Begun V
  joined : ℕ → Begun V
  started : ℕ → Begun V

-- The options of `getOrSet`.
pub record GetOrSetOptions : Type 0 where
  pub ttl_seconds : Option JsNumber
  pub dedupe_key : Option Text
  pub dedupe_ttl_ms : Option JsNumber

abbrev pub dedupe : Text → GetOrSetOptions → Text
dedupe key options = elim options.dedupe_key [ none ↦ key | some d ↦ d ]

module _ {V : Type 0} where
  -- From the look for a load under way on; `promise` is the one that the loader would return.
  pub join_or_start : Text → GetOrSetOptions → ℕ → ℕ → Cache V → Cache V × Begun V
  unfolding read_inflight resolve_inflight_ttl_ms
  join_or_start key options promise now c =
      let (d, existing) = read_inflight (dedupe key options) now c in
      elim existing [
        | some p ↦ (d, joined p)
        | none ↦ (
          record d {
            inflight =
                put (dedupe key options)
                  (record {
                    promise = promise;
                    expires_at = now + resolve_inflight_ttl_ms d.config options.dedupe_ttl_ms;
                  })
                  d.inflight;
          },
          started promise,
        )
      ]

  -- `getOrSet` up to its `await`.
  pub begin : Text → GetOrSetOptions → ℕ → ℕ → Cache V → Cache V × Begun V
  unfolding get join_or_start
  begin key options promise now c =
      if c.config.enabled
      then (let (d, found) = get key now c in
          elim found [ some v ↦ (d, cached v) | none ↦ join_or_start key options promise now d ])
      else (c, bypassed)

  -- The loader's result arrives: `.then` stores it.
  pub settle : Text → GetOrSetOptions → Option V → ℕ → Cache V → Cache V
  unfolding set
  settle key options value now c = set key value options.ttl_seconds now c

  -- The `finally` of `getOrSet`: only the promise that it put there is taken away.
  pub finish : Text → GetOrSetOptions → ℕ → Cache V → Cache V
  finish key options promise c = elim (find (dedupe key options) c.inflight) [
    | none ↦ c
    | some entry ↦
        if entry.promise == promise
        then record c { inflight = remove (dedupe key options) c.inflight }
        else c
  ]

-- What the event loop may do with the cache next.
pub data Op (V : Type 0) : Type 0 where
  gets : Text → (now : ℕ) → Op V
  sets_value : Text → Option V → Option JsNumber → (now : ℕ) → Op V
  deletes_key : Text → Op V
  deletes_prefix : Text → Op V
  clears : Op V
  begins : Text → GetOrSetOptions → (promise now : ℕ) → Op V
  settles : Text → GetOrSetOptions → Option V → (now : ℕ) → Op V
  finishes : Text → GetOrSetOptions → (promise : ℕ) → Op V
  reads_stats : (now : ℕ) → Op V

module _ {V : Type 0} where
  pub step : Cache V → Op V → Cache V
  step c (gets key now) = (get key now c).0
  step c (sets_value key value ttl now) = set key value ttl now c
  step c (deletes_key key) = delete key c
  step c (deletes_prefix prefix) = (delete_by_prefix prefix c).0
  step c clears = clear c
  step c (begins key options promise now) = (begin key options promise now c).0
  step c (settles key options value now) = settle key options value now c
  step c (finishes key options promise) = finish key options promise c
  step c (reads_stats now) = (get_stats now c).0

  pub run : Cache V → List (Op V) → Cache V
  run c [] = c
  run c (op ∷ ops) = run (step c op) ops
