-- ===== src/Cache/Sharing.antt =====
-- Shared loads: `getOrSet` starts one load per key while a load for it is under way.
use bom_media_api.Common.{
  ℕ, ◌+◌, ◌<◌, ◌≡◌, ◌≢◌, ◌⊎◌, true, false, some, List, [], ◌∷◌, arith, All, Text, text_eq_iff,
  starts_with, Option-cases, inl, inr,
}
use bom_media_api.Common.JsMap.{find, remove, find-remove, find-put}
use bom_media_api.Cache.{
  Cache, Inflight, Op, GetOrSetOptions, cached, joined, started, gets, sets_value, deletes_key,
  deletes_prefix, clears, begins, settles, finishes, reads_stats, evict_overflow, get_found, get,
  set, delete, clear, delete_by_prefix, live_inflight, prune_expired_inflight, get_stats,
  read_inflight, join_or_start, begin, settle, finish, step, run, resolve_inflight_ttl_ms, dedupe,
}
use bom_media_api.Cache.Invariant.{find-drop_prefix}

live_inflight-find :
    (d : Text) (e : Inflight) (now : ℕ) (m : List (Text × Inflight))
    → find d m ≡ some e
    → now < e.expires_at
    → find d (live_inflight now m) ≡ some e
unfolding live_inflight find
live_inflight-find d e now [] h p = ground arith
live_inflight-find d e now ((j, w) ∷ m) h p = ground (arith, live_inflight-find d e now m)

module _ {V : Type 0} where
  -- The cache is on and the load is under way.
  pub record Loads (d : Text) (e : Inflight) (c : Cache V) : Type 0 where
    pub on : c.config.enabled ≡ true
    pub found : find d c.inflight ≡ some e

  -- Operations that neither end this load nor happen after its time.
  abbrev pub Leaves : Text → Inflight → Op V → Type 0
  Leaves d e (gets key now) = Unit
  Leaves d e (sets_value key value ttl now) = Unit
  Leaves d e (deletes_key key) = key ≢ d
  Leaves d e (deletes_prefix prefix) = starts_with d prefix ≡ false
  Leaves d e clears = ⊥
  Leaves d e (begins key options promise now) = now < e.expires_at
  Leaves d e (settles key options value now) = Unit
  Leaves d e (finishes key options promise) = promise ≢ e.promise
  Leaves d e (reads_stats now) = now < e.expires_at

  get-inflight :
      (key : Text) (now : ℕ) (c : Cache V)
      → ((get key now c).0.inflight ≡ c.inflight) × ((get key now c).0.config ≡ c.config)
  unfolding get get_found
  get-inflight key now c = ground arith

  join_or_start-Loads :
      (d : Text) (e : Inflight) (c : Cache V) (key : Text) (options : GetOrSetOptions)
      (promise now : ℕ)
      → Loads d e c
      → now < e.expires_at
      → Loads d e (join_or_start key options promise now c).0
  unfolding join_or_start read_inflight
  join_or_start-Loads d e c key options promise now h live =
      let k = dedupe key options in
      let fresh : Inflight = record {
        promise = promise;
        expires_at = now + resolve_inflight_ttl_ms c.config options.dedupe_ttl_ms;
      } in
      ground (
        arith,
        find-put d k fresh c.inflight,
        find-put d k fresh (remove k c.inflight),
        find-remove d k c.inflight,
        text_eq_iff k d,
      )

  step-Loads :
      (d : Text) (e : Inflight) (c : Cache V) (op : Op V)
      → Loads d e c
      → Leaves d e op
      → Loads d e (step c op)
  unfolding step set evict_overflow delete clear delete_by_prefix begin settle finish get_stats
      prune_expired_inflight
  step-Loads d e c (gets key now) h l = ground (arith, get-inflight key now c)
  step-Loads d e c (begins key options promise now) h l = ground (
    arith,
    get-inflight key now c,
    join_or_start-Loads d e (get key now c).0 key options promise now,
  )
  step-Loads d e c (deletes_key key) h l =
      ground (arith, find-remove d key c.inflight, text_eq_iff key d)
  step-Loads d e c (deletes_prefix prefix) h l =
      ground (arith, find-drop_prefix d prefix c.inflight)
  step-Loads d e c clears h l = absurd l
  step-Loads d e c (finishes key options promise) h l =
      ground
        (arith, find-remove d (dedupe key options) c.inflight, text_eq_iff (dedupe key options) d)
  step-Loads d e c (reads_stats now) h l = ground (arith, live_inflight-find d e now c.inflight)
  step-Loads d e c (sets_value key value ttl now) h l = ground arith
  step-Loads d e c (settles key options value now) h l = ground arith

  run-Loads :
      (d : Text) (e : Inflight) (c : Cache V) (ops : List (Op V))
      → Loads d e c
      → All (Leaves d e) ops
      → Loads d e (run c ops)
  unfolding run
  run-Loads d e c [] h l = h
  run-Loads d e c (op ∷ ops) h l = run-Loads d e (step c op) ops (step-Loads d e c op h l.0) l.1

  abbrev load : ℕ → ℕ → GetOrSetOptions → Cache V → Inflight
  load promise now options c = record {
    promise = promise;
    expires_at = now + resolve_inflight_ttl_ms c.config options.dedupe_ttl_ms;
  }

  join_or_start-started :
      (key : Text) (options : GetOrSetOptions) (promise p now : ℕ) (c : Cache V)
      → c.config.enabled ≡ true
      → (join_or_start key options promise now c).1 ≡ started p
      → (p ≡ promise)
        × Loads
            (dedupe key options)
            (load promise now options c)
            (join_or_start key options promise now c).0
  unfolding join_or_start read_inflight
  join_or_start-started key options promise p now c on h =
      let k = dedupe key options in
      ground (
        arith,
        find-put k k (load promise now options c) c.inflight,
        find-put k k (load promise now options c) (remove k c.inflight),
        text_eq_iff k k,
      )

  begin-started :
      (key : Text) (options : GetOrSetOptions) (promise p now : ℕ) (c : Cache V)
      → (begin key options promise now c).1 ≡ started p
      → (p ≡ promise)
        × Loads
            (dedupe key options)
            (load promise now options c)
            (begin key options promise now c).0
  unfolding begin
  begin-started key options promise p now c h = ground (
    arith,
    get-inflight key now c,
    join_or_start-started key options promise p now (get key now c).0,
  )

  join_or_start-joins :
      (key : Text) (options : GetOrSetOptions) (promise now : ℕ) (e : Inflight) (c : Cache V)
      → Loads (dedupe key options) e c
      → now < e.expires_at
      → (join_or_start key options promise now c).1 ≡ joined e.promise
  unfolding join_or_start read_inflight
  join_or_start-joins key options promise now e c h live = ground arith

  begin-joins :
      (key : Text) (options : GetOrSetOptions) (promise now : ℕ) (e : Inflight) (c : Cache V)
      → Loads (dedupe key options) e c
      → now < e.expires_at
      → ((v : V) × ((begin key options promise now c).1 ≡ cached v))
        ⊎ ((begin key options promise now c).1 ≡ joined e.promise)
  unfolding begin
  begin-joins key options promise now e c h live = elim (Option-cases (get key now c).1) [
    | inl miss ↦ inr (
        ground (
          arith,
          get-inflight key now c,
          join_or_start-joins key options promise now e (get key now c).0,
        ))
    | inr (v, hit) ↦ inl (v, ground arith)
  ]

  -- While a load that a call of `getOrSet` started is under way and not out of its time, a later
  -- call under the same dedupe key is answered from the cache or joins that very promise, and
  -- starts no load. In between, any operations may have run that do not delete the dedupe key, do
  -- not end this load, and come before the load's time is over.
  pub begin-run-begin :
      (key : Text) (options : GetOrSetOptions) (promise p now : ℕ) (c : Cache V) (ops : List (Op V))
      (key' : Text) (options' : GetOrSetOptions) (promise' later : ℕ)
      → (begin key options promise now c).1 ≡ started p
      → All (Leaves (dedupe key options) (load promise now options c)) ops
      → dedupe key' options' ≡ dedupe key options
      → later < now + resolve_inflight_ttl_ms c.config options.dedupe_ttl_ms
      → let d = run (begin key options promise now c).0 ops in
        ((v : V) × ((begin key' options' promise' later d).1 ≡ cached v))
        ⊎ ((begin key' options' promise' later d).1 ≡ joined p)
  begin-run-begin key options promise p now c ops key' options' promise' later h l same live =
      let (own, loads) = begin-started key options promise p now c h in
      let still =
        run-Loads (dedupe key options) _ (begin key options promise now c).0 ops loads l in
      rw own (begin-joins key' options' promise' later _ _ (rw same still) live)
