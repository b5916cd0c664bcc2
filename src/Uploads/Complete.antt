-- ===== src/Uploads/Complete.antt =====
-- What holds of an upload, whatever requests are served and however they interleave.
use bom_media_api.Common.{
  ℕ, zero, suc, ◌+◌, ◌-◌, ◌*◌, ◌<◌, ◌≤◌, ◌≡◌, refl, ap, ◌∙◌, some, List, [], ◌∷◌, length, All,
  arith, Text,
}
use native.Mathlib.Nat.{mul-div-le, lt-mul-div-succ, mul-suc}
use bom_media_api.Uploads.Sessions.{
  ceil_div, Session, Video, Env, InitRequest, opened, init_local_video_upload,
  validate_local_video_upload_init,
}
use bom_media_api.Uploads.Steps.{
  Step, run, receives, expires, commits, checks, claims, finishes, cancels, cleans,
}
use bom_media_api.Uploads.Invariant.{opened-IsValid}
use bom_media_api.Uploads.Owned.{Said, run-IsValid}
use bom_media_api.Uploads.Whole.{IsExpected, length-merge_from}

-- `Math.ceil` cuts a size into pieces of which only the last may be short.
pub ceil_div-bounds :
    (total size : ℕ)
    → 0 < size
    → 0 < total
    → (m : ℕ) × (ceil_div total size ≡ suc m) × (total ≤ size * suc m) × (size * m < total)
ceil_div-bounds total size s t = go (ceil_div total size) refl
  where
    go :
        (q : ℕ)
        → ceil_div total size ≡ q
        → (m : ℕ) × (q ≡ suc m) × (total ≤ size * suc m) × (size * m < total)
    go zero e =
        absurd
          (omega (arith, lt-mul-div-succ (total + (size - 1)) s, s, t, ap (λ x. size * (x + 1)) e))
    go (suc m) e = (
      m,
      refl,
      omega (
        arith,
        lt-mul-div-succ (total + (size - 1)) s,
        s,
        mul-suc size (suc m),
        mul-suc size m,
        ap (λ x. size * (x + 1)) e,
      ),
      omega (arith, mul-div-le (total + (size - 1)) size, s, mul-suc size m, ap (λ x. size * x) e),
    )

pub init_local_video_upload-columns :
    (env : Env) (dto : InitRequest) (admin : Text) (now : ℕ) (u : Session)
    → init_local_video_upload env dto admin now ≡ some u
    → (u.total_bytes ≡ dto.total_bytes)
      × (u.total_chunks ≡ ceil_div dto.total_bytes dto.chunk_size_bytes)
      × (u.chunk_size_bytes ≡ dto.chunk_size_bytes)
      × (u.chunks ≡ [])
unfolding init_local_video_upload validate_local_video_upload_init
init_local_video_upload-columns env dto admin now u e = ground (arith, e)

pub All-first {ℓ κ μ} :
    {A : Type ℓ} (P : A → Type κ) (Q : A → Type μ) (xs : List A)
    → All (λ x. P x × Q x) xs
    → All P xs
All-first P Q [] a = tt
All-first P Q (x ∷ xs) ((p, q), a) = (p, All-first P Q xs a)

abbrev Nothing : ℕ → List ℕ → Type 0
Nothing i content = Unit

module _ (total m size : ℕ) (Made : List ℕ → Type 0) where
  All-Said : (xs : List Step) → All (Said total m size Nothing Made) xs
  All-Said [] = tt
  All-Said (receives admin dto now ∷ xs) = (tt, All-Said xs)
  All-Said (expires ∷ xs) = (tt, All-Said xs)
  All-Said (commits k ∷ xs) = (tt, All-Said xs)
  All-Said (checks admin now ∷ xs) = (tt, All-Said xs)
  All-Said (claims k ∷ xs) = (tt, All-Said xs)
  All-Said (finishes k video_id checksum is_valid ∷ xs) = (tt, All-Said xs)
  All-Said (cancels admin ∷ xs) = (tt, All-Said xs)
  All-Said (cleans now ∷ xs) = (tt, All-Said xs)

-- At most one video is ever made of an upload, and it has exactly the number of bytes that was
-- announced when the upload was opened: whatever chunks are sent, in any order and repeatedly, and
-- however these requests, completions, cancellations and expiries interleave between their reads
-- and their writes. The announced sizes are positive.
pub run-videos :
    (env : Env) (dto : InitRequest) (admin : Text) (now : ℕ) (u : Session) (steps : List Step)
    → init_local_video_upload env dto admin now ≡ some u
    → 0 < dto.chunk_size_bytes
    → 0 < dto.total_bytes
    → (length (run env (opened u) steps).videos ≤ 1)
      × All (λ (v : Video). length v.content ≡ dto.total_bytes) (run env (opened u) steps).videos
run-videos env dto admin now u steps e s t =
    let (m, n, upper, lower) = ceil_div-bounds dto.total_bytes dto.chunk_size_bytes s t in
    let (tb, tc, cs, none_yet) = init_local_video_upload-columns env dto admin now u e in
    let Made : List ℕ → Type 0 = λ content. length content ≡ dto.total_bytes in
    let (_, _, _, _, videos, one) =
      run-IsValid dto.total_bytes m dto.chunk_size_bytes Nothing Made
        (λ cs a l k. omega (
          arith,
          length-merge_from dto.total_bytes m dto.chunk_size_bytes 0 cs upper lower a
              (All-first (IsExpected dto.total_bytes m dto.chunk_size_bytes) (λ _. Unit) cs l)
              (omega (arith, k)),
        ))
        env (opened u) steps (All-Said dto.total_bytes m dto.chunk_size_bytes Made steps)
        (opened-IsValid dto.total_bytes m dto.chunk_size_bytes Nothing Made u tb (tc ∙ n) cs
          none_yet) in
    (omega (arith, one), videos)
