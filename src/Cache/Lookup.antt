-- ===== src/Cache/Lookup.antt =====
-- What `get` answers after `set`, and what `deleteByPrefix` leaves.
use bom_media_api.Common.{
  ℕ, suc, ◌+◌, ◌≤◌, ◌≡◌, refl, ap, ◌∙◌, true, Option, none, some, List, [], ◌∷◌, ◌++◌, arith, leb,
  if◌then◌else◌, length, Text, text_eq_iff, starts_with,
}
use bom_media_api.Common.JsMap.{find, remove, find-append, put_absent, find-remove_self}
use bom_media_api.Cache.{
  Cache, GetOrSetOptions, Entry, RuntimeConfig, Op, JsNumber, gets, begins, evict_from,
  evict_overflow, get_found, get, set, delete_by_prefix, resolve_ttl_ms, join_or_start,
  read_inflight, begin, step, run, settle, delete, clear, finish, get_stats, prune_expired_inflight,
}
use bom_media_api.Cache.Invariant.{find-drop_prefix, length-drop_prefix}

module _ {V : Type 0} where
  -- Eviction never reaches the newest entry.
  evict_from_newest :
      (cap : ℕ) (m : List (Text × Entry V)) (k : Text) (e : Entry V) (n : ℕ)
      → 1 ≤ cap
      → find k m ≡ none
      → find k (evict_from cap (m ++ (k, e) ∷ []) n).0 ≡ some e
  unfolding evict_from find
  evict_from_newest cap [] k e n p h = ground (arith, text_eq_iff k k)
  evict_from_newest cap ((j, w) ∷ m) k e n p h =
      ground (
        arith,
        evict_from_newest cap m k e (suc n) p,
        find-append k m ((k, e) ∷ []),
        text_eq_iff k k,
      )

  pub find-set_self :
      (key : Text) (value : Option V) (ttl : Option JsNumber) (now : ℕ) (c : Cache V)
      → c.config.enabled ≡ true
      → 1 ≤ c.config.max_entries
      → find key (set key value ttl now c).entries
        ≡ some (record { value = value; expires_at = now + resolve_ttl_ms c.config ttl })
  unfolding set evict_overflow
  find-set_self key value ttl now c on room =
      let entry : Entry V = record {
        value = value;
        expires_at = now + resolve_ttl_ms c.config ttl;
      } in
      let m = remove key c.entries in
      ground (
        arith,
        put_absent key entry m (find-remove_self key c.entries),
        evict_from_newest c.config.max_entries m key entry 0 room (find-remove_self key c.entries),
      )

  pub get_of_find :
      (key : Text) (now : ℕ) (c : Cache V) (entry : Entry V)
      → c.config.enabled ≡ true
      → find key c.entries ≡ some entry
      → (get key now c).1 ≡ (if leb entry.expires_at now then none else entry.value)
  unfolding get get_found
  get_of_find key now c entry on h = ground arith

  config-set :
      (key : Text) (value : Option V) (ttl : Option JsNumber) (now : ℕ) (c : Cache V)
      → (set key value ttl now c).config ≡ c.config
  unfolding set evict_overflow
  config-set key value ttl now c = ground arith

  -- On an enabled cache with room for an entry, `get` after `set` answers the value that was set
  -- until its time to live is over, and nothing from then on.
  pub get-set :
      (key : Text) (value : Option V) (ttl : Option JsNumber) (now later : ℕ) (c : Cache V)
      → c.config.enabled ≡ true
      → 1 ≤ c.config.max_entries
      → (get key later (set key value ttl now c)).1
        ≡ (if leb (now + resolve_ttl_ms c.config ttl) later then none else value)
  get-set key value ttl now later c on room =
      get_of_find key later (set key value ttl now c) _
        (ap (λ (r : RuntimeConfig). r.enabled) (config-set key value ttl now c) ∙ on)
        (find-set_self key value ttl now c on room)

  -- `deleteByPrefix` removes from both maps exactly the keys with the prefix, keeps the entry of
  -- every other key, and returns the number of entries that it took away.
  pub delete_by_prefix_lem :
      (prefix : Text) (c : Cache V)
      → let (d, n) = delete_by_prefix prefix c in
        ((k : Text) → find k d.entries ≡ (if starts_with k prefix then none else find k c.entries))
        × ((k : Text)
            → find k d.inflight ≡ (if starts_with k prefix then none else find k c.inflight))
        × (length d.entries + length d.inflight + n ≡ length c.entries + length c.inflight)
        × (d.deletes ≡ c.deletes + n)
  unfolding delete_by_prefix
  delete_by_prefix_lem prefix c = (
    λ k. find-drop_prefix k prefix c.entries,
    λ k. find-drop_prefix k prefix c.inflight,
    omega (arith, length-drop_prefix prefix c.entries, length-drop_prefix prefix c.inflight),
    refl,
  )

  -- Each `get`, also the one inside `getOrSet`, is a hit or a miss.
  abbrev looks_up : Op V → ℕ
  looks_up (gets key now) = 1
  looks_up (begins key options promise now) = 1
  looks_up _ = 0

  abbrev pub lookups : List (Op V) → ℕ
  lookups [] = 0
  lookups (op ∷ ops) = looks_up op + lookups ops

  hits_misses-get :
      (key : Text) (now : ℕ) (c : Cache V)
      → c.config.enabled ≡ true
      → let d = (get key now c).0 in
        (d.hits + d.misses ≡ c.hits + c.misses + 1) × (d.config ≡ c.config)
  unfolding get get_found
  hits_misses-get key now c on = ground arith

  hits_misses-join_or_start :
      (key : Text) (options : GetOrSetOptions) (promise now : ℕ) (c : Cache V)
      → let d = (join_or_start key options promise now c).0 in
        (d.hits ≡ c.hits) × (d.misses ≡ c.misses) × (d.config ≡ c.config)
  unfolding join_or_start read_inflight
  hits_misses-join_or_start key options promise now c = ground arith

  hits_misses-step :
      (c : Cache V) (op : Op V)
      → c.config.enabled ≡ true
      → let d = step c op in
        (d.hits + d.misses ≡ c.hits + c.misses + looks_up op) × (d.config ≡ c.config)
  unfolding step set evict_overflow delete clear delete_by_prefix begin settle finish get_stats
      prune_expired_inflight
  hits_misses-step c (gets key now) on = hits_misses-get key now c on
  hits_misses-step c (begins key options promise now) on = ground (
    arith,
    hits_misses-get key now c on,
    hits_misses-join_or_start key options promise now (get key now c).0,
  )
  hits_misses-step c _ on = ground arith

  -- On an enabled cache the hits and misses counted over any history are the lookups made in it:
  -- the calls of `get` and, one each, the calls of `getOrSet`.
  pub hits_misses-run :
      (c : Cache V) (ops : List (Op V))
      → c.config.enabled ≡ true
      → (run c ops).hits + (run c ops).misses ≡ c.hits + c.misses + lookups ops
  unfolding run
  hits_misses-run c [] on = omega arith
  hits_misses-run c (op ∷ ops) on =
      let (counted, same) = hits_misses-step c op on in
      omega (
        arith,
        hits_misses-run (step c op) ops (ap (λ (r : RuntimeConfig). r.enabled) same ∙ on),
        counted,
      )
