-- ===== src/Uploads/Tests.antt =====
-- An upload of five bytes in pieces of two, with a digest that is the content itself.
use bom_media_api.Common.{
  ℕ, ◌+◌, ◌*◌, ◌≡◌, ◌≤◌, refl, none, some, true, List, [], ◌∷◌, ◌++◌, length, All, arith, units,
  text_eq,
}
use bom_media_api.Uploads.Sessions.{
  Env, InitRequest, Session, Video, VideoUploadSessionStatus, init_local_video_upload, opened,
}
use bom_media_api.Uploads.Steps.{Step, cleans, receives, commits, checks, claims, finishes, run}
use bom_media_api.Uploads.Complete.{run-videos}
use bom_media_api.Uploads.Roundtrip.{run-roundtrip}
use bom_media_api.Uploads.Pieces.{send_from}
use bom_media_api.Uploads.Progress.{run-completes}

abbrev env : Env
env = record {
  sha256 = λ content. content;
  to_lower_case = λ s. s;
  get_upload_max_bytes = 100;
  get_chunk_size_bytes = 10;
  get_upload_session_ttl_ms = 1000;
  get_stale_upload_max_age_ms = 500;
}

abbrev request : InitRequest
request = record {
  is_supported = true;
  total_bytes = 5;
  total_chunks = 3;
  chunk_size_bytes = 2;
  checksum_sha256 = none;
}

abbrev session : Session
session = record {
  admin_id = units "admin";
  status = VideoUploadSessionStatus.active;
  total_bytes = 5;
  total_chunks = 3;
  chunk_size_bytes = 2;
  received_chunks = 0;
  checksum_sha256 = none;
  expires_at = 1010;
  created_at = 10;
  video_id = none;
  chunks = [];
}

opens : init_local_video_upload env request (units "admin") 10 ≡ some session
unfolding init_local_video_upload
opens = refl

abbrev sends : ℕ → List ℕ → Step
sends i content =
    receives (units "admin")
      (record { chunk_index = i; checksum_sha256 = none; file = content; has_capacity = true }) 20

-- The last piece first, the first one twice, and two completions at once.
abbrev steps : List Step
steps =
    sends 2 (5 ∷ [])
    ∷ sends 0 (1 ∷ 2 ∷ [])
    ∷ sends 0 (1 ∷ 2 ∷ [])
    ∷ commits 0
    ∷ commits 0
    ∷ sends 1 (3 ∷ 4 ∷ [])
    ∷ commits 1
    ∷ commits 0
    ∷ checks (units "admin") 30
    ∷ checks (units "admin") 30
    ∷ claims 1
    ∷ claims 0
    ∷ finishes 0 (units "v") none true
    ∷ []

abbrev file : List ℕ
file = 1 ∷ 2 ∷ 3 ∷ 4 ∷ 5 ∷ []

uploads : Unit {0}
unfolding run text_eq
uploads = tt

made :
    (run env (opened session) steps).videos
    ≡ record { id = units "v"; content = file; checksum_sha256 = file } ∷ []
unfolding uploads
made = refl

run-videos_example :
    (length (run env (opened session) steps).videos ≤ 1)
    × All (λ (v : Video). length v.content ≡ 5) (run env (opened session) steps).videos
run-videos_example =
    run-videos env request (units "admin") 10 session steps opens (omega arith) (omega arith)

run-roundtrip_example :
    All (λ (v : Video). v.content ≡ file) (run env (opened session) steps).videos
run-roundtrip_example =
    run-roundtrip env request (units "admin") 10 session steps file opens (omega arith)
      (omega arith) refl
      (refl, (refl, (refl, (tt, (tt, (refl, (tt, (tt, (tt, (tt, (tt, (tt, (tt, tt)))))))))))))

abbrev cleaned_at : ℕ → ℕ
cleaned_at k = 20 + 10 * k

abbrev received_at : ℕ → ℕ
received_at k = 25 + 10 * k

run-completes_example :
    (run env (opened session) (
      send_from env (units "admin") cleaned_at received_at 2 file 3 0
      ++ (cleans 60
          ∷ checks (units "admin") 61
          ∷ claims 0
          ∷ finishes 0 (units "v") none true
          ∷ []))).videos
    ≡ record { id = units "v"; content = file; checksum_sha256 = file } ∷ []
run-completes_example =
    run-completes env request (units "admin") 10 session (units "v") file cleaned_at received_at 60
      61 opens (omega arith) (omega arith) refl refl (λ k h. (omega (arith, h), omega (arith, h)))
      (λ k h. (omega (arith, h), omega (arith, h))) (omega arith, omega arith)
      (omega arith, omega arith)
