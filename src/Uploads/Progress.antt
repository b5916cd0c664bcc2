-- ===== src/Uploads/Progress.antt =====
-- An upload whose pieces are sent one after the other is completed.
use bom_media_api.Common.{
  ℕ, suc, ◌+◌, ◌<◌, ◌≤◌, ◌≡◌, ap, ◌∙◌, true, none, some, List, [], ◌∷◌, ◌++◌, length, arith, Text,
}
use bom_media_api.Uploads.Sessions.{
  Session, State, Env, InitRequest, VideoUploadSessionStatus, opened, init_local_video_upload,
  map_text, validate_local_video_upload_init,
}
use bom_media_api.Uploads.Steps.{cleans, checks, claims, finishes, run}
use bom_media_api.Uploads.Complete.{ceil_div-bounds, init_local_video_upload-columns}
use bom_media_api.Uploads.Pieces.{sent, send_from}
use bom_media_api.Uploads.Sending.{IsFresh, counted, part, run-send_from, completes}

-- A time since the opening at which the upload has not expired and is not stale.
abbrev pub IsTimely : Env → (opened_at t : ℕ) → Type 0
IsTimely env opened_at t =
    (t < opened_at + env.get_upload_session_ttl_ms)
    × (t ≤ opened_at + env.get_stale_upload_max_age_ms)

IsTimely-IsFresh :
    (env : Env) (u : Session) (opened_at t : ℕ)
    → u.created_at ≡ opened_at
    → u.expires_at ≡ opened_at + env.get_upload_session_ttl_ms
    → IsTimely env opened_at t
    → IsFresh env u t
IsTimely-IsFresh env u opened_at t c x (live, young) =
    (omega (arith, x, live), omega (arith, c, young))

init_local_video_upload-limits :
    (env : Env) (dto : InitRequest) (admin : Text) (now : ℕ) (u : Session)
    → init_local_video_upload env dto admin now ≡ some u
    → (u.admin_id ≡ admin)
      × (u.status ≡ VideoUploadSessionStatus.active)
      × (u.created_at ≡ now)
      × (u.expires_at ≡ now + env.get_upload_session_ttl_ms)
      × (u.checksum_sha256 ≡ map_text env.to_lower_case dto.checksum_sha256)
      × (dto.chunk_size_bytes ≤ env.get_chunk_size_bytes)
unfolding init_local_video_upload validate_local_video_upload_init
init_local_video_upload-limits env dto admin now u e = ground (arith, e)

-- An upload comes to an end: if the pieces of a file of the announced length are sent in their order,
-- each in its own request at its own time, with room on the disk, and the upload is then completed in
-- one more request, while no other request about the upload comes between, and no check of the final
-- file fails, then a video is made with the content of the file. Each request starts with the
-- clean-up of stale uploads; each comes before the upload expires and before it is older than the age
-- at which uploads become stale. No checksum was announced, and the announced sizes are positive.
pub run-completes :
    (env : Env) (dto : InitRequest) (admin : Text) (now : ℕ) (u : Session) (video_id : Text)
    → (file : List ℕ) (cleaned times : ℕ → ℕ) (done_at later : ℕ)
    → init_local_video_upload env dto admin now ≡ some u
    → 0 < dto.chunk_size_bytes
    → 0 < dto.total_bytes
    → length file ≡ dto.total_bytes
    → dto.checksum_sha256 ≡ none
    → ((k : ℕ) → k < u.total_chunks → IsTimely env now (cleaned k))
    → ((k : ℕ) → k < u.total_chunks → IsTimely env now (times k))
    → IsTimely env now done_at
    → IsTimely env now later
    → (run env (opened u) (
        send_from env admin cleaned times dto.chunk_size_bytes file u.total_chunks 0
        ++ (cleans done_at
            ∷ checks admin later
            ∷ claims 0
            ∷ finishes 0 video_id none true
            ∷ []))).videos
      ≡ record { id = video_id; content = file; checksum_sha256 = env.sha256 file } ∷ []
unfolding part sent counted
run-completes env dto admin now u video_id file cleaned times done_at later e s t same unchecked
      cleaned_early early done_early last =
    let (m, n, upper, lower) = ceil_div-bounds dto.total_bytes dto.chunk_size_bytes s t in
    let (tb, tc, cs, none_yet) = init_local_video_upload-columns env dto admin now u e in
    let (owned, open_, created, expiry, checksum, fits) =
      init_local_video_upload-limits env dto admin now u e in
    let size = dto.chunk_size_bytes in
    let rest =
      cleans done_at ∷ checks admin later ∷ claims 0 ∷ finishes 0 video_id none true ∷ [] in
    let live : (k : ℕ) → k < suc m → times k < u.expires_at =
      λ k h. omega (arith, expiry, (early k (omega (arith, tc, n, h))).0) in
    let fresh : (k : ℕ) → k < suc m → IsFresh env u (cleaned k) = λ k h.
      IsTimely-IsFresh env u now (cleaned k) created expiry
        (cleaned_early k (omega (arith, tc, n, h))) in
    ap (λ n. (run env (opened u) (send_from env admin cleaned times size file n 0 ++ rest)).videos)
      (tc ∙ n)
    ∙ (ap
          (λ chunks.
            (run env (opened (record u { chunks = chunks }))
              (send_from env admin cleaned times size file (suc m) 0 ++ rest)).videos)
          none_yet
        ∙ (ap (λ (x : State). x.videos)
              (run-send_from env admin cleaned times size file u dto.total_bytes m same upper lower
                owned open_ tb (tc ∙ n) cs live fresh s fits (suc m) 0 rest (omega arith))
            ∙ completes env admin cleaned times size file u dto.total_bytes m same upper lower owned
                open_ tb (tc ∙ n) cs live fresh s fits done_at later video_id
                (IsTimely-IsFresh env u now done_at created expiry done_early)
                (omega (arith, expiry, last.0))
                (checksum ∙ ap (map_text env.to_lower_case) unchecked)))
