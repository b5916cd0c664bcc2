-- ===== src/Cache/Recency.antt =====
-- Least recently used: a key that was touched outlives fewer than `maxEntries` other operations.
use bom_media_api.Common.{
  ℕ, suc, ◌+◌, ◌≤◌, ◌<◌, ◌≡◌, ◌≢◌, true, false, Option, none, some, List, [], ◌∷◌, ◌++◌, arith,
  if◌then◌else◌, length, length-append, All, ◌∙◌, Text, text_eq, text_eq_iff, starts_with,
  Option-cases, inl, inr,
}
use bom_media_api.Common.JsMap.{
  find, put, remove, find-remove, find-put, find-append, put_absent, find-remove_self,
}
use bom_media_api.Cache.{
  Cache, Entry, Op, JsNumber, GetOrSetOptions, gets, sets_value, deletes_key, deletes_prefix,
  clears, begins, settles, finishes, reads_stats, evict_from, evict_overflow, get_found, get, set,
  delete, drop_prefix, delete_by_prefix, prune_expired_inflight, get_stats, read_inflight,
  join_or_start, begin, settle, finish, step, run, resolve_ttl_ms,
}
use bom_media_api.Cache.Invariant.{find-drop_prefix}
use bom_media_api.Cache.Lookup.{get_of_find}

module _ {ℓ} {A : Type ℓ} where
  -- The number of entries that are newer than a key's.
  abbrev pub newer : Text → List (Text × A) → ℕ
  newer k [] = 0
  newer k ((j, a) ∷ m) = if text_eq j k then length m else newer k m

  newer-append-le :
      (k j : Text) (a : A) (m : List (Text × A)) → newer k (m ++ (j, a) ∷ []) ≤ newer k m + 1
  newer-append-le k j a [] = ground arith
  newer-append-le k j a ((i, b) ∷ m) =
      ground (arith, newer-append-le k j a m, length-append m ((j, a) ∷ []))

  length-remove-le : (j : Text) (m : List (Text × A)) → length (remove j m) ≤ length m
  unfolding remove
  length-remove-le j [] = omega arith
  length-remove-le j ((i, b) ∷ m) = ground (arith, length-remove-le j m)

  newer-remove-le : (k j : Text) (m : List (Text × A)) → j ≢ k → newer k (remove j m) ≤ newer k m
  unfolding remove
  newer-remove-le k j [] h = omega arith
  newer-remove-le k j ((i, b) ∷ m) h =
      ground
        (arith, newer-remove-le k j m h, length-remove-le j m, text_eq_iff i j, text_eq_iff i k)

  length-drop_prefix-le :
      (prefix : Text) (m : List (Text × A)) → length (drop_prefix prefix m) ≤ length m
  unfolding drop_prefix
  length-drop_prefix-le prefix [] = omega arith
  length-drop_prefix-le prefix ((i, b) ∷ m) = ground (arith, length-drop_prefix-le prefix m)

  newer-drop_prefix-le :
      (k prefix : Text) (m : List (Text × A))
      → starts_with k prefix ≡ false
      → newer k (drop_prefix prefix m) ≤ newer k m
  unfolding drop_prefix
  newer-drop_prefix-le k prefix [] h = omega arith
  newer-drop_prefix-le k prefix ((i, b) ∷ m) h =
      ground
        (arith, newer-drop_prefix-le k prefix m h, length-drop_prefix-le prefix m, text_eq_iff i k)

  -- Moving another key to the recent end makes at most one more entry newer.
  newer-refresh-le :
      (k j : Text) (a : A) (m : List (Text × A))
      → j ≢ k
      → newer k (put j a (remove j m)) ≤ newer k m + 1
  newer-refresh-le k j a m h =
      rw (put_absent j a (remove j m) (find-remove_self j m))
        (omega (arith, newer-append-le k j a (remove j m), newer-remove-le k j m h))

  find-refresh_other :
      (k j : Text) (a : A) (m : List (Text × A)) → j ≢ k → find k (put j a (remove j m)) ≡ find k m
  find-refresh_other k j a m h =
      ground (arith, find-put k j a (remove j m), find-remove k j m, text_eq_iff j k)

  newer-append_self :
      (k : Text) (a : A) (m : List (Text × A)) → find k m ≡ none → newer k (m ++ (k, a) ∷ []) ≡ 0
  unfolding find
  newer-append_self k a [] h = ground (arith, text_eq_iff k k)
  newer-append_self k a ((j, b) ∷ m) h = ground (arith, newer-append_self k a m)

module _ {V : Type 0} where
  -- Eviction keeps a key with fewer newer entries than the capacity.
  evict_from_recent :
      (cap : ℕ) (m : List (Text × Entry V)) (n : ℕ) (k : Text) (e : Entry V)
      → find k m ≡ some e
      → newer k m < cap
      → (find k (evict_from cap m n).0 ≡ some e) × (newer k (evict_from cap m n).0 ≡ newer k m)
  unfolding evict_from find
  evict_from_recent cap [] n k e h p = ground arith
  evict_from_recent cap ((j, w) ∷ m) n k e h p = ground (arith, evict_from_recent cap m (suc n) k e)

  -- The cache is on, holds the entry, and can take `room` more newer ones without losing it.
  pub record Holds (k : Text) (e : Entry V) (room : ℕ) (c : Cache V) : Type 0 where
    pub on : c.config.enabled ≡ true
    pub found : find k c.entries ≡ some e
    pub recent : newer k c.entries + room < c.config.max_entries

  -- What an operation on other keys looks like.
  abbrev pub Spares : Text → Op V → Type 0
  Spares k (gets key now) = key ≢ k
  Spares k (sets_value key value ttl now) = key ≢ k
  Spares k (deletes_key key) = key ≢ k
  Spares k (deletes_prefix prefix) = starts_with k prefix ≡ false
  Spares k clears = ⊥
  Spares k (begins key options promise now) = key ≢ k
  Spares k (settles key options value now) = key ≢ k
  Spares k (finishes key options promise) = Unit
  Spares k (reads_stats now) = Unit

  module _ (k : Text) (e : Entry V) (room : ℕ) (c : Cache V) (h : Holds k e (suc room) c) where
    get-Holds : (key : Text) (now : ℕ) → key ≢ k → Holds k e room (get key now c).0
    unfolding get get_found
    get-Holds key now ne = elim (Option-cases (find key c.entries)) [
      | inl miss ↦ ground arith
      | inr (entry, hit) ↦ ground (
        arith,
        find-refresh_other k key entry c.entries ne,
        newer-refresh-le k key entry c.entries ne,
        find-remove k key c.entries,
        newer-remove-le k key c.entries ne,
        text_eq_iff key k,
      )
    ]

    set-Holds :
        (key : Text) (value : Option V) (ttl : Option JsNumber) (now : ℕ)
        → key ≢ k
        → Holds k e room (set key value ttl now c)
    unfolding set evict_overflow
    set-Holds key value ttl now ne =
        let entry : Entry V = record {
          value = value;
          expires_at = now + resolve_ttl_ms c.config ttl;
        } in
        ground (
          arith,
          find-refresh_other k key entry c.entries ne,
          newer-refresh-le k key entry c.entries ne,
          evict_from_recent c.config.max_entries (put key entry (remove key c.entries)) 0 k e,
        )

    delete-Holds : (key : Text) → key ≢ k → Holds k e room (delete key c)
    unfolding delete
    delete-Holds key ne =
        ground (
          arith,
          find-remove k key c.entries,
          newer-remove-le k key c.entries ne,
          text_eq_iff key k,
        )

    delete_by_prefix-Holds :
        (prefix : Text)
        → starts_with k prefix ≡ false
        → Holds k e room (delete_by_prefix prefix c).0
    unfolding delete_by_prefix
    delete_by_prefix-Holds prefix apart =
        ground (
          arith,
          find-drop_prefix k prefix c.entries,
          newer-drop_prefix-le k prefix c.entries apart,
        )

  join_or_start-Holds :
      (k : Text) (e : Entry V) (room : ℕ) (c : Cache V) (key : Text) (options : GetOrSetOptions)
      (promise now : ℕ)
      → Holds k e room c
      → Holds k e room (join_or_start key options promise now c).0
  unfolding join_or_start read_inflight
  join_or_start-Holds k e room c key options promise now h = ground arith

  step-Holds :
      (k : Text) (e : Entry V) (room : ℕ) (c : Cache V) (op : Op V)
      → Holds k e (suc room) c
      → Spares k op
      → Holds k e room (step c op)
  unfolding step settle begin finish get_stats prune_expired_inflight
  step-Holds k e room c (gets key now) h s = get-Holds k e room c h key now s
  step-Holds k e room c (sets_value key value ttl now) h s =
      set-Holds k e room c h key value ttl now s
  step-Holds k e room c (deletes_key key) h s = delete-Holds k e room c h key s
  step-Holds k e room c (deletes_prefix prefix) h s = delete_by_prefix-Holds k e room c h prefix s
  step-Holds k e room c clears h s = absurd s
  step-Holds k e room c (begins key options promise now) h s = ground (
    arith,
    get-Holds k e room c h key now s,
    join_or_start-Holds k e room (get key now c).0 key options promise now,
  )
  step-Holds k e room c (settles key options value now) h s =
      set-Holds k e room c h key value options.ttl_seconds now s
  step-Holds k e room c (finishes key options promise) h s = ground arith
  step-Holds k e room c (reads_stats now) h s = ground arith

  run-Holds :
      (k : Text) (e : Entry V) (c : Cache V) (ops : List (Op V))
      → Holds k e (length ops) c
      → All (Spares k) ops
      → Holds k e 0 (run c ops)
  unfolding run
  run-Holds k e c [] h s = h
  run-Holds k e c (op ∷ ops) h s =
      run-Holds k e (step c op) ops (step-Holds k e (length ops) c op h s.0) s.1

  set-Holds_self :
      (key : Text) (value : Option V) (ttl : Option JsNumber) (now room : ℕ) (c : Cache V)
      → c.config.enabled ≡ true
      → room < c.config.max_entries
      → Holds key
          (record { value = value; expires_at = now + resolve_ttl_ms c.config ttl })
          room
          (set key value ttl now c)
  unfolding set evict_overflow
  set-Holds_self key value ttl now room c on fits =
      let entry : Entry V = record {
        value = value;
        expires_at = now + resolve_ttl_ms c.config ttl;
      } in
      let m = remove key c.entries in
      let last = put_absent key entry m (find-remove_self key c.entries) in
      ground (
        arith,
        last,
        find-append key m ((key, entry) ∷ []),
        find-put key key entry m,
        text_eq_iff key key,
        newer-append_self key entry m (find-remove_self key c.entries),
        evict_from_recent c.config.max_entries (put key entry m) 0 key entry,
      )

  -- A value that was set is still answered before its expiry after any sequence of fewer than
  -- `maxEntries` operations that read, set, load, settle or delete other keys, drop prefixes that
  -- the key does not have, end loads or read the statistics.
  pub get-run-set :
      (key : Text) (value : Option V) (ttl : Option JsNumber) (now later : ℕ) (c : Cache V)
      (ops : List (Op V))
      → c.config.enabled ≡ true
      → length ops < c.config.max_entries
      → All (Spares key) ops
      → later < now + resolve_ttl_ms c.config ttl
      → (get key later (run (set key value ttl now c) ops)).1 ≡ value
  get-run-set key value ttl now later c ops on fits spares live =
      let h =
        run-Holds key _ (set key value ttl now c) ops
          (set-Holds_self key value ttl now (length ops) c on fits) spares in
      get_of_find key later _ _ h.on h.found ∙ ground arith
