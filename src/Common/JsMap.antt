-- ===== src/Common/JsMap.antt =====
-- A JavaScript `Map` with string keys: its entries in insertion order.
use Prim.Native.Nat.{◌+◌, ◌≤◌}
use mathlib.Core.Path.{◌≡◌, refl}
use mathlib.Core.Bool.{Bool}
use mathlib.Core.Option.{Option, none, some}
use mathlib.Core.List.{List, [], ◌∷◌, ◌++◌}
use native.Mathlib.Omega.{arith}
use bom_media_api.Common.Tests.{if◌then◌else◌, is_some}
use bom_media_api.Common.Lists.{length}
use bom_media_api.Common.Strings.{Text, text_eq, text_eq_iff}

module _ {ℓ} {V : Type ℓ} where
  unfoldable pub find : Text → List (Text × V) → Option V
  find k [] = none
  find k ((j, v) ∷ m) = if text_eq j k then some v else find k m

  -- `map.set`: in place if the key is there, at the end otherwise.
  unfoldable pub put : Text → V → List (Text × V) → List (Text × V)
  put k v [] = (k, v) ∷ []
  put k v ((j, w) ∷ m) = if text_eq j k then (k, v) ∷ m else (j, w) ∷ put k v m

  -- `map.delete`.
  unfoldable pub remove : Text → List (Text × V) → List (Text × V)
  remove k [] = []
  remove k ((j, w) ∷ m) = if text_eq j k then remove k m else (j, w) ∷ remove k m

  abbrev pub has : Text → List (Text × V) → Bool
  has k m = is_some (find k m)

  -- No key stands twice.
  abbrev pub Distinct : List (Text × V) → Type ℓ
  Distinct [] = Unit
  Distinct ((k, v) ∷ m) = (find k m ≡ none) × Distinct m

  pub find-remove :
      (j k : Text) (m : List (Text × V))
      → find j (remove k m) ≡ (if text_eq k j then none else find j m)
  unfolding find remove
  find-remove j k [] = ground arith
  find-remove j k ((i, w) ∷ m) =
      ground (arith, text_eq_iff k j, text_eq_iff i k, text_eq_iff i j, find-remove j k m)

  pub find-put :
      (j k : Text) (v : V) (m : List (Text × V))
      → find j (put k v m) ≡ (if text_eq k j then some v else find j m)
  unfolding find put
  find-put j k v [] = refl
  find-put j k v ((i, w) ∷ m) =
      ground (arith, text_eq_iff k j, text_eq_iff i k, text_eq_iff i j, find-put j k v m)

  pub find-append :
      (j : Text) (m n : List (Text × V))
      → find j (m ++ n) ≡ (if is_some (find j m) then find j m else find j n)
  unfolding find
  find-append j [] n = refl
  find-append j ((i, w) ∷ m) n = ground (arith, find-append j m n)

  pub remove-Distinct : (k : Text) (m : List (Text × V)) → Distinct m → Distinct (remove k m)
  unfolding remove
  remove-Distinct k [] d = d
  remove-Distinct k ((i, w) ∷ m) d = ground (arith, remove-Distinct k m, find-remove i k m)

  pub put-Distinct : (k : Text) (v : V) (m : List (Text × V)) → Distinct m → Distinct (put k v m)
  unfolding put find
  put-Distinct k v [] d = (refl, tt)
  put-Distinct k v ((i, w) ∷ m) d =
      ground (arith, put-Distinct k v m, text_eq_iff i k, text_eq_iff k i, find-put i k v m)

  pub append-Distinct :
      (k : Text) (v : V) (m : List (Text × V))
      → find k m ≡ none
      → Distinct m
      → Distinct (m ++ (k, v) ∷ [])
  unfolding find
  append-Distinct k v [] h d = (refl, tt)
  append-Distinct k v ((i, w) ∷ m) h d = ground (
    arith,
    append-Distinct k v m,
    text_eq_iff k i,
    text_eq_iff i k,
    find-append i m ((k, v) ∷ []),
  )

  pub remove_absent : (k : Text) (m : List (Text × V)) → find k m ≡ none → remove k m ≡ m
  unfolding find remove
  remove_absent k [] h = refl
  remove_absent k ((i, w) ∷ m) h = ground (arith, remove_absent k m)

  -- Deleting removes one entry if the key is there, and none otherwise.
  pub length-remove :
      (k : Text) (m : List (Text × V))
      → Distinct m
      → length (remove k m) + (if has k m then 1 else 0) ≡ length m
  unfolding find remove
  length-remove k [] d = omega arith
  length-remove k ((i, w) ∷ m) d =
      ground (arith, length-remove k m, text_eq_iff i k, remove_absent k m)

pub length-put {ℓ} :
    {A : Type ℓ} (k : Text) (a : A) (m : List (Text × A))
    → find k m ≡ none
    → length (put k a m) ≡ length m + 1
unfolding find put
length-put k a [] h = omega arith
length-put k a ((j, b) ∷ m) h = ground (arith, length-put k a m)

-- A key that was just deleted is not there.
pub find-remove_self {ℓ} :
    {A : Type ℓ} (k : Text) (m : List (Text × A)) → find k (remove k m) ≡ none
find-remove_self k m = ground (arith, find-remove k k m, text_eq_iff k k)

-- The two steps by which `get` and `set` move a key to the recent end.
module _ {ℓ} {A : Type ℓ} (k : Text) (a : A) (m : List (Text × A)) where
  pub refresh-Distinct : Distinct m → Distinct (put k a (remove k m))
  refresh-Distinct d = put-Distinct k a (remove k m) (remove-Distinct k m d)

  pub length-refresh : Distinct m → length (put k a (remove k m)) ≤ length m + 1
  length-refresh d =
      ground (arith, length-put k a (remove k m), find-remove_self k m, length-remove k m d)

  pub length-refresh_found :
      (b : A) → find k m ≡ some b → Distinct m → length (put k a (remove k m)) ≡ length m
  length-refresh_found b h d =
      ground (arith, length-put k a (remove k m), find-remove_self k m, length-remove k m d)

-- A key that is not there is added at the recent end.
pub put_absent {ℓ} :
    {A : Type ℓ} (k : Text) (a : A) (m : List (Text × A))
    → find k m ≡ none
    → put k a m ≡ m ++ (k, a) ∷ []
unfolding find put
put_absent k a [] h = refl
put_absent k a ((j, b) ∷ m) h = ground (arith, put_absent k a m)
