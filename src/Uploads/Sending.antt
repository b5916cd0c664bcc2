-- ===== src/Uploads/Sending.antt =====
-- The requests that send a file piece by piece, in order, and the completion after them.
use bom_media_api.Common.{
  ℕ, zero, suc, ◌+◌, ◌*◌, ◌<◌, ◌≤◌, ◌≡◌, inl, inr, refl, ap, sym, ◌∙◌, true, false, none, List, [],
  ◌∷◌, ◌++◌, ◌==◌, length, arith, Text, text_eq_refl, Bool-cases,
}
use bom_media_api.Uploads.Sessions.{Session, State, Env, VideoUploadSessionStatus, Outcome, opened}
use bom_media_api.Uploads.Steps.{Step, cleans, checks, claims, finishes, run}
use bom_media_api.Uploads.Completion.{
  merge_chunks_to_final_file, ensure_all_upload_chunks_present, check_completion, claim_completion,
  finish_completion, complete_owned, cleanup_stale,
}
use bom_media_api.Uploads.Chunks.{
  ChunkRequest, find_chunk, check_chunk, receive_chunk, commit_chunk, taken, add_chunk,
}
use bom_media_api.Uploads.Roundtrip.{skip, piece, length-skip, empty_of_length}
use bom_media_api.Uploads.Pieces.{
  append_nil, length-take_le, insert_chunk-last, sent_chunk, sent, send_from, sent-below,
  length-sent, find_chunk-sent, has_indices-sent, merge-sent, length-piece,
}

-- A clean-up at this time leaves the upload alone: it has not expired, and it is not older than the
-- age at which uploads become stale.
abbrev pub IsFresh : Env → Session → ℕ → Type 0
IsFresh env u t = (t ≤ u.expires_at) × (t ≤ u.created_at + env.get_stale_upload_max_age_ms)

module _ (env : Env) (admin : Text) (cleaned times : ℕ → ℕ) (size : ℕ) (file : List ℕ) where
  abbrev sent_request : ℕ → ChunkRequest
  sent_request k = record {
    chunk_index = k;
    checksum_sha256 = none;
    file = piece size k file;
    has_capacity = true;
  }

  module _ (u : Session) where
    unfoldable pub counted : ℕ → ℕ
    counted zero = u.received_chunks
    counted (suc k) = counted k + 1

    -- The upload when the first pieces are there.
    unfoldable pub part : ℕ → State
    part k = opened (record u {
      received_chunks = counted k;
      chunks = sent env admin cleaned times size file k;
    })

    module _ (total m : ℕ) (same : length file ≡ total) (upper : total ≤ size * suc m)
        (lower : size * m < total) (owned : u.admin_id ≡ admin)
        (open_ : u.status ≡ VideoUploadSessionStatus.active) (t : u.total_bytes ≡ total)
        (n : u.total_chunks ≡ suc m) (z : u.chunk_size_bytes ≡ size)
        (early : (k : ℕ) → k < suc m → times k < u.expires_at)
        (fresh : (k : ℕ) → k < suc m → IsFresh env u (cleaned k)) (positive : 0 < size)
        (fits : size ≤ env.get_chunk_size_bytes) where
      check_chunk-part :
          (k : ℕ) → k < suc m → check_chunk env (part k).upload (sent_request k) ≡ none
      unfolding check_chunk part
      check_chunk-part k h = ground (
        arith,
        t,
        n,
        z,
        length-piece env admin cleaned times size file total m k same upper lower h,
        find_chunk-sent env admin cleaned times size file k k,
      )

      length-piece_positive : (k : ℕ) → k < suc m → 0 < length (piece size k file)
      length-piece_positive k h = elim (Bool-cases (suc k == suc m)) [
        | inl b ↦
            let last : k ≡ m = ground (arith, b) in
            ground (
              arith,
              b,
              length-piece env admin cleaned times size file total m k same upper lower h,
              lower,
              ap (λ j. size * j) last,
            )
        | inr b ↦ ground (
          arith,
          b,
          length-piece env admin cleaned times size file total m k same upper lower h,
          positive,
        )
      ]

      length-piece_le : (k : ℕ) → length (piece size k file) ≤ size
      length-piece_le k = length-take_le size (skip size k file)

      saved : ℕ → State
      saved k = record (part k) {
        saving =
            record { admin_id = admin; chunk = sent_chunk env admin cleaned times size file k }
            ∷ [];
      }

      receive_part :
          (k : ℕ)
          → k < suc m
          → receive_chunk env admin (sent_request k) (times k) (part k) ≡ (saved k, Outcome.pending)
      unfolding receive_chunk part saved sent_chunk
      receive_part k h =
          rw (owned, open_, text_eq_refl admin, check_chunk-part k h)
            (ground (arith, length-piece_positive k h, length-piece_le k, fits, early k h))

      clean_part : (k t : ℕ) → IsFresh env u t → cleanup_stale env t (part k) ≡ part k
      unfolding cleanup_stale part
      clean_part k t (live, young) = ground (arith, live, young)

      absent : (k : ℕ) → find_chunk k (sent env admin cleaned times size file k) ≡ none
      absent k = ground (arith, find_chunk-sent env admin cleaned times size file k k)

      added :
          (k : ℕ)
          → add_chunk
              (record { admin_id = admin; chunk = sent_chunk env admin cleaned times size file k })
              (part k).upload
            ≡ ((part (suc k)).upload, Outcome.done)
      unfolding add_chunk part counted sent sent_chunk
      added k =
          rw
            (
              absent k,
              insert_chunk-last (sent_chunk env admin cleaned times size file k)
                  (sent env admin cleaned times size file k)
                  (sent-below env admin cleaned times size file k),
              owned,
              open_,
              text_eq_refl admin,
            )
            refl

      commit_saved : (k : ℕ) → commit_chunk 0 (saved k) ≡ (part (suc k), Outcome.done)
      unfolding commit_chunk part saved
      commit_saved k = ap (λ (r : Session × Outcome). (opened r.0, r.1)) (added k)

      pub run-send_from :
          (left k : ℕ) (rest : List Step)
          → k + left ≡ suc m
          → run env (part k) (send_from env admin cleaned times size file left k ++ rest)
            ≡ run env (part (suc m)) rest
      unfolding run
      run-send_from zero k rest e = ap (λ j. run env (part j) rest) (omega (arith, e))
      run-send_from (suc left) k rest e =
          let next = send_from env admin cleaned times size file left (suc k) ++ rest in
          ap
            (λ (x : State).
              run env (commit_chunk 0 (receive_chunk env admin (sent_request k) (times k) x).0).0
                next)
            (clean_part k (cleaned k) (fresh k (omega (arith, e))))
          ∙ (ap (λ (r : State × Outcome). run env (commit_chunk 0 r.0).0 next)
                (receive_part k (omega (arith, e)))
              ∙ (ap (λ (r : State × Outcome). run env r.0 next) (commit_saved k)
                  ∙ run-send_from left (suc k) rest (omega (arith, e))))

      all_present : ensure_all_upload_chunks_present (part (suc m)).upload ≡ true
      unfolding ensure_all_upload_chunks_present part
      all_present = rw n (
          ground (
            arith,
            length-sent env admin cleaned times size file (suc m),
            has_indices-sent env admin cleaned times size file (suc m) (suc m) (omega arith),
          ))

      merged : merge_chunks_to_final_file (sent env admin cleaned times size file (suc m)) ≡ file
      merged =
          sym (
            append_nil
              (merge_chunks_to_final_file (sent env admin cleaned times size file (suc m))))
          ∙ (ap
                (λ xs.
                  merge_chunks_to_final_file (sent env admin cleaned times size file (suc m)) ++ xs)
                (sym (
                  empty_of_length (skip size (suc m) file)
                    (omega (arith, length-skip size (suc m) file, same, upper))))
              ∙ merge-sent env admin cleaned times size file (suc m))

      all_sent : Session
      all_sent = (part (suc m)).upload

      checked_part :
          (later : ℕ)
          → later < u.expires_at
          → check_completion admin later (part (suc m))
            ≡ (record (part (suc m)) { checked = all_sent ∷ [] }, Outcome.pending)
      unfolding check_completion all_sent part
      checked_part later h = rw (owned, open_, text_eq_refl admin, all_present) (ground (arith, h))

      owned_part : State
      owned_part = record (part (suc m)) {
        upload = record all_sent { status = VideoUploadSessionStatus.completing };
        completing = all_sent ∷ [];
      }

      claimed_part :
          claim_completion 0 (record (part (suc m)) { checked = all_sent ∷ [] })
          ≡ (owned_part, Outcome.pending)
      unfolding claim_completion taken owned_part all_sent part
      claimed_part = rw open_ refl

      finished_part :
          (video_id : Text)
          → u.checksum_sha256 ≡ none
          → (finish_completion env 0 video_id none true owned_part).0.videos
            ≡ record { id = video_id; content = file; checksum_sha256 = env.sha256 file } ∷ []
      unfolding finish_completion taken complete_owned owned_part all_sent part
      finished_part video_id c =
          let some_sent : (length (sent env admin cleaned times size file (suc m)) == 0) ≡ false =
            ground (arith, length-sent env admin cleaned times size file (suc m)) in
          rw (some_sent, c, merged) refl

      pub completes :
          (done_at later : ℕ) (video_id : Text)
          → IsFresh env u done_at
          → later < u.expires_at
          → u.checksum_sha256 ≡ none
          → (run env (part (suc m)) (
              cleans done_at
              ∷ checks admin later
              ∷ claims 0
              ∷ finishes 0 video_id none true
              ∷ [])).videos
            ≡ record { id = video_id; content = file; checksum_sha256 = env.sha256 file } ∷ []
      unfolding run
      completes done_at later video_id f h c =
          ap
            (λ (x : State).
              (finish_completion env 0 video_id none true
                (claim_completion 0 (check_completion admin later x).0).0).0.videos)
            (clean_part (suc m) done_at f)
          ∙ (ap
                (λ (r : State × Outcome).
                  (finish_completion env 0 video_id none true (claim_completion 0 r.0).0).0.videos)
                (checked_part later h)
              ∙ (ap
                    (λ (r : State × Outcome).
                      (finish_completion env 0 video_id none true r.0).0.videos)
                    claimed_part
                  ∙ finished_part video_id c))
