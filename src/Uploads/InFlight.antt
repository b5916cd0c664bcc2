-- ===== src/Uploads/InFlight.antt =====
-- Requests in flight, and the branches of a test.
use bom_media_api.Common.{
  ℕ, zero, suc, ◌≡◌, inl, inr, subst, Bool, true, false, some, List, [], ◌∷◌, if◌then◌else◌, length,
  All, arith, Option-cases,
}
use bom_media_api.Uploads.Chunks.{taken}

pub taken-All {ℓ} :
    {A : Type ℓ} (P : A → Type 0) (k : ℕ) (xs : List A) (x : A) (ys : List A)
    → taken k xs ≡ some (x, ys)
    → All P xs
    → P x × All P ys
unfolding taken
taken-All P zero [] x ys e a = ground arith
taken-All P (suc k) [] x ys e a = ground arith
taken-All P zero (z ∷ xs) x ys e a = ground (arith, e, a)
taken-All P (suc k) (z ∷ xs) x ys e a = elim (Option-cases (taken k xs)) [
  | inl n ↦ ground (arith, e, n)
  | inr ((y, rest), n) ↦
      let (p, q) = taken-All P k xs y rest n a.1 in
      let same : y ≡ x = ground (arith, e, n) in
      let others : (z ∷ rest) ≡ ys = ground (arith, e, n) in
      (subst P same p, subst (All P) others (a.0, q))
]

pub taken-length {ℓ} :
    {A : Type ℓ} (k : ℕ) (xs : List A) (x : A) (ys : List A)
    → taken k xs ≡ some (x, ys)
    → length xs ≡ suc (length ys)
unfolding taken
taken-length zero [] x ys e = ground arith
taken-length (suc k) [] x ys e = ground arith
taken-length zero (z ∷ xs) x ys e = ground (arith, e)
taken-length (suc k) (z ∷ xs) x ys e = elim (Option-cases (taken k xs)) [
  | inl n ↦ ground (arith, e, n)
  | inr ((y, rest), n) ↦ ground (arith, e, n, taken-length k xs y rest n)
]

-- What holds of both branches of a test.
pub if-holds {ℓ κ} :
    {A : Type ℓ} (P : A → Type κ) (b : Bool) (x y : A) → P x → P y → P (if b then x else y)
if-holds P true x y p q = p
if-holds P false x y p q = q
