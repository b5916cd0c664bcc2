-- ===== src/Cache/Tests.antt =====
-- Runs of the cache on concrete input, and the theorems at concrete input.
use Prim.Native.String.{String}
use bom_media_api.Common.{
  ℕ, ◌≡◌, ◌⊎◌, refl, none, some, List, [], ◌∷◌, arith, units, text_eq, ne_of_text_eq, starts_with,
}
use bom_media_api.Common.JsMap.{find, put, remove}
use bom_media_api.Cache.{
  Cache, Op, GetOrSetOptions, RuntimeConfig, joined, cached, default_config, gets, sets_value,
  finishes, init, get, set, begin, run, step, delete_by_prefix, resolve_ttl_ms,
  resolve_inflight_ttl_ms,
}
use bom_media_api.Cache.Invariant.{IsValid, run-init-IsValid}
use bom_media_api.Cache.Lookup.{get-set, delete_by_prefix_lem}
use bom_media_api.Cache.Recency.{get-run-set}
use bom_media_api.Cache.Sharing.{begin-run-begin}

cache : Unit {0}
unfolding resolve_ttl_ms resolve_inflight_ttl_ms init get set begin run step delete_by_prefix find
    put remove text_eq starts_with
cache = tt

abbrev small : RuntimeConfig
small = record default_config { max_entries = 2 }

abbrev empty : Cache ℕ
empty = record {
  config = small;
  entries = [];
  inflight = [];
  hits = 0;
  misses = 0;
  sets = 0;
  deletes = 0;
  evictions = 0;
}

abbrev options : GetOrSetOptions
options = record { ttl_seconds = none; dedupe_key = none; dedupe_ttl_ms = none }

abbrev put_at : String → ℕ → ℕ → Op ℕ
put_at k v now = sets_value (units k) (some v) none now

abbrev history : List (Op ℕ)
history = put_at "a" 1 0 ∷ put_at "b" 2 0 ∷ gets (units "a") 5 ∷ put_at "c" 3 6 ∷ []

-- The read of "a" made "b" the oldest, so "c" pushes "b" out.
evicts_oldest :
    (find (units "a") (run empty history).entries
      ≡ some (record { value = some 1; expires_at = 60_000 }))
    × (find (units "b") (run empty history).entries ≡ none)
    × ((run empty history).evictions ≡ 1)
unfolding cache
evicts_oldest = (refl, refl, refl)

second_caller_joins :
    (begin (units "k") options 8 10 (begin (units "k") options 7 0 empty).0).1 ≡ joined 7
unfolding cache
second_caller_joins = refl

run-init-IsValid_example : IsValid (run (init small) history)
run-init-IsValid_example = run-init-IsValid small history

get-set_example : (get (units "k") 59_999 (set (units "k") (some 4) none 0 empty)).1 ≡ some 4
unfolding resolve_ttl_ms
get-set_example = get-set (units "k") (some 4) none 0 59_999 empty refl (omega arith)

delete_by_prefix_lem_example : (delete_by_prefix (units "v:") (run empty history)).0.deletes ≡ 0
unfolding cache
delete_by_prefix_lem_example = (delete_by_prefix_lem (units "v:") (run empty history)).3

get-run-set_example :
    (get
      (units "k")
      59_999
      (run (set (units "k") (some 4) none 0 empty) (gets (units "a") 5 ∷ []))).1
    ≡ some 4
unfolding resolve_ttl_ms text_eq
get-run-set_example =
    get-run-set (units "k") (some 4) none 0 59_999 empty (gets (units "a") 5 ∷ []) refl
      (omega arith) (ne_of_text_eq (units "a") (units "k") refl, tt) (omega arith)

begin-run-begin_example :
    let d =
      run
        (begin (units "k") options 7 0 empty).0
        (gets (units "a") 5 ∷ finishes (units "j") options 6 ∷ []) in
    ((v : ℕ) × ((begin (units "k") options 8 10 d).1 ≡ cached v))
    ⊎ ((begin (units "k") options 8 10 d).1 ≡ joined 7)
unfolding cache
begin-run-begin_example =
    begin-run-begin (units "k") options 7 7 0 empty
      (gets (units "a") 5 ∷ finishes (units "j") options 6 ∷ []) (units "k") options 8 10 refl
      (omega arith) refl (omega arith)
