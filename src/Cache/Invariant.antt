-- ===== src/Cache/Invariant.antt =====
-- The invariant of the cache: distinct keys, and no more entries than the configured capacity.
use bom_media_api.Common.{
  ℕ, suc, ◌+◌, ◌≤◌, ◌≡◌, refl, Option, none, some, List, [], ◌∷◌, arith, if◌then◌else◌, length,
  Text, text_eq_iff, starts_with, Option-cases, inl, inr,
}
use bom_media_api.Common.JsMap.{
  find, put, remove, Distinct, put-Distinct, remove-Distinct, length-remove, refresh-Distinct,
  length-refresh_found,
}
use bom_media_api.Cache.{
  Cache, Entry, Inflight, RuntimeConfig, GetOrSetOptions, JsNumber, Op, gets, sets_value,
  deletes_key, deletes_prefix, clears, begins, settles, finishes, reads_stats, init, evict_from,
  evict_overflow, get_found, get, set, delete, clear, drop_prefix, count_prefix, live_inflight,
  delete_by_prefix, prune_expired_inflight, get_stats, read_inflight, join_or_start, begin, settle,
  finish, step, run, dedupe, resolve_ttl_ms, resolve_inflight_ttl_ms,
}

pub record IsValid {V : Type 0} (c : Cache V) : Type 0 where
  pub entries_distinct : Distinct c.entries
  pub inflight_distinct : Distinct c.inflight
  pub bounded : length c.entries ≤ c.config.max_entries

module _ {V : Type 0} where
  pub evict_from-le :
      (cap : ℕ) (m : List (Text × Entry V)) (n : ℕ) → length (evict_from cap m n).0 ≤ cap
  unfolding evict_from
  evict_from-le cap [] n = omega arith
  evict_from-le cap (e ∷ m) n = ground (arith, evict_from-le cap m (suc n))

  evict_from-Distinct :
      (cap : ℕ) (m : List (Text × Entry V)) (n : ℕ) → Distinct m → Distinct (evict_from cap m n).0
  unfolding evict_from
  evict_from-Distinct cap [] n d = d
  evict_from-Distinct cap (e ∷ m) n d = ground (arith, evict_from-Distinct cap m (suc n))

  get_found-IsValid :
      (key : Text) (entry : Entry V) (now : ℕ) (c : Cache V)
      → find key c.entries ≡ some entry
      → IsValid c
      → IsValid (get_found key entry now c).0
  unfolding get_found
  get_found-IsValid key entry now c h v = ground (
    arith,
    refresh-Distinct key entry c.entries v.entries_distinct,
    length-refresh_found key entry c.entries entry h v.entries_distinct,
    remove-Distinct key c.entries v.entries_distinct,
    length-remove key c.entries v.entries_distinct,
  )

  pub get-IsValid : (key : Text) (now : ℕ) (c : Cache V) → IsValid c → IsValid (get key now c).0
  unfolding get
  get-IsValid key now c v = elim (Option-cases (find key c.entries)) [
    | inl e ↦ ground arith
    | inr (entry, e) ↦ ground (arith, get_found-IsValid key entry now c e v)
  ]

  pub set-IsValid :
      (key : Text) (value : Option V) (ttl : Option JsNumber) (now : ℕ) (c : Cache V)
      → IsValid c
      → IsValid (set key value ttl now c)
  unfolding set evict_overflow
  set-IsValid key value ttl now c v =
      let entry : Entry V = record {
        value = value;
        expires_at = now + resolve_ttl_ms c.config ttl;
      } in
      let m = put key entry (remove key c.entries) in
      ground (
        arith,
        evict_from-le c.config.max_entries m 0,
        evict_from-Distinct c.config.max_entries m 0
            (refresh-Distinct key entry c.entries v.entries_distinct),
      )

  delete-IsValid : (key : Text) (c : Cache V) → IsValid c → IsValid (delete key c)
  unfolding delete
  delete-IsValid key c v = ground (
    arith,
    remove-Distinct key c.entries v.entries_distinct,
    remove-Distinct key c.inflight v.inflight_distinct,
    length-remove key c.entries v.entries_distinct,
  )

  clear-IsValid : (c : Cache V) → IsValid (clear c)
  unfolding clear
  clear-IsValid c = ground arith

pub find-drop_prefix {ℓ} :
    {A : Type ℓ} (k prefix : Text) (m : List (Text × A))
    → find k (drop_prefix prefix m) ≡ (if starts_with k prefix then none else find k m)
unfolding drop_prefix find
find-drop_prefix k prefix [] = ground arith
find-drop_prefix k prefix ((j, a) ∷ m) =
    ground (arith, find-drop_prefix k prefix m, text_eq_iff j k)

drop_prefix-Distinct {ℓ} :
    {A : Type ℓ} (prefix : Text) (m : List (Text × A))
    → Distinct m
    → Distinct (drop_prefix prefix m)
unfolding drop_prefix
drop_prefix-Distinct prefix [] d = d
drop_prefix-Distinct prefix ((k, a) ∷ m) d =
    ground (arith, drop_prefix-Distinct prefix m, find-drop_prefix k prefix m)

-- What `deleteByPrefix` counts is what it takes away.
pub length-drop_prefix {ℓ} :
    {A : Type ℓ} (prefix : Text) (m : List (Text × A))
    → length (drop_prefix prefix m) + count_prefix prefix m ≡ length m
unfolding drop_prefix count_prefix
length-drop_prefix prefix [] = omega arith
length-drop_prefix prefix ((k, a) ∷ m) = ground (arith, length-drop_prefix prefix m)

-- An expired load is gone after a prune; a live one stays, if its key stands once.
pub find-live_inflight :
    (k : Text) (now : ℕ) (m : List (Text × Inflight))
    → find k m ≡ none
    → find k (live_inflight now m) ≡ none
unfolding live_inflight find
find-live_inflight k now [] h = refl
find-live_inflight k now ((j, e) ∷ m) h = ground (arith, find-live_inflight k now m)

live_inflight-Distinct :
    (now : ℕ) (m : List (Text × Inflight)) → Distinct m → Distinct (live_inflight now m)
unfolding live_inflight
live_inflight-Distinct now [] d = d
live_inflight-Distinct now ((k, e) ∷ m) d =
    ground (arith, live_inflight-Distinct now m, find-live_inflight k now m)

module _ {V : Type 0} where
  delete_by_prefix-IsValid :
      (prefix : Text) (c : Cache V) → IsValid c → IsValid (delete_by_prefix prefix c).0
  unfolding delete_by_prefix
  delete_by_prefix-IsValid prefix c v = ground (
    arith,
    drop_prefix-Distinct prefix c.entries v.entries_distinct,
    drop_prefix-Distinct prefix c.inflight v.inflight_distinct,
    length-drop_prefix prefix c.entries,
  )

  get_stats-IsValid : (now : ℕ) (c : Cache V) → IsValid c → IsValid (get_stats now c).0
  unfolding get_stats prune_expired_inflight
  get_stats-IsValid now c v =
      ground (arith, live_inflight-Distinct now c.inflight v.inflight_distinct)

  join_or_start-IsValid :
      (key : Text) (options : GetOrSetOptions) (promise now : ℕ) (c : Cache V)
      → IsValid c
      → IsValid (join_or_start key options promise now c).0
  unfolding join_or_start read_inflight
  join_or_start-IsValid key options promise now c v =
      let d = dedupe key options in
      let e : Inflight = record {
        promise = promise;
        expires_at = now + resolve_inflight_ttl_ms c.config options.dedupe_ttl_ms;
      } in
      ground (
        arith,
        put-Distinct d e c.inflight v.inflight_distinct,
        refresh-Distinct d e c.inflight v.inflight_distinct,
      )

  begin-IsValid :
      (key : Text) (options : GetOrSetOptions) (promise now : ℕ) (c : Cache V)
      → IsValid c
      → IsValid (begin key options promise now c).0
  unfolding begin
  begin-IsValid key options promise now c v = ground (
    arith,
    get-IsValid key now c v,
    join_or_start-IsValid key options promise now (get key now c).0,
  )

  finish-IsValid :
      (key : Text) (options : GetOrSetOptions) (promise : ℕ) (c : Cache V)
      → IsValid c
      → IsValid (finish key options promise c)
  unfolding finish
  finish-IsValid key options promise c v =
      ground (arith, remove-Distinct (dedupe key options) c.inflight v.inflight_distinct)

  -- Every operation keeps the keys of both maps distinct and the entries within the capacity.
  pub step-IsValid : (c : Cache V) (op : Op V) → IsValid c → IsValid (step c op)
  unfolding step settle
  step-IsValid c (gets key now) v = get-IsValid key now c v
  step-IsValid c (sets_value key value ttl now) v = set-IsValid key value ttl now c v
  step-IsValid c (deletes_key key) v = delete-IsValid key c v
  step-IsValid c (deletes_prefix prefix) v = delete_by_prefix-IsValid prefix c v
  step-IsValid c clears v = clear-IsValid c
  step-IsValid c (begins key options promise now) v = begin-IsValid key options promise now c v
  step-IsValid c (settles key options value now) v =
      set-IsValid key value options.ttl_seconds now c v
  step-IsValid c (finishes key options promise) v = finish-IsValid key options promise c v
  step-IsValid c (reads_stats now) v = get_stats-IsValid now c v

  run-IsValid : (c : Cache V) (ops : List (Op V)) → IsValid c → IsValid (run c ops)
  unfolding run
  run-IsValid c [] v = v
  run-IsValid c (op ∷ ops) v = run-IsValid (step c op) ops (step-IsValid c op v)

  init-IsValid : (config : RuntimeConfig) → IsValid (init {V = V} config)
  unfolding init
  init-IsValid config = ground arith

  -- After any sequence of operations on a new cache, in any interleaving of the calls of
  -- `getOrSet`, the keys of both maps are distinct and the entries are within the capacity.
  pub run-init-IsValid :
      (config : RuntimeConfig) (ops : List (Op V)) → IsValid (run (init config) ops)
  run-init-IsValid config ops = run-IsValid (init config) ops (init-IsValid config)
