-- ===== src/Uploads/Owned.antt =====
-- Completions, and runs of requests, keep an upload valid.
use bom_media_api.Common.{
  ◌-◌, ℕ, suc, ◌+◌, ◌≤◌, ◌≡◌, refl, Bool, true, false, not, ◌||◌, Option, none, some, List, [], ◌∷◌,
  ltb, leb, ◌==◌, if◌then◌else◌, length, All, arith, Text, text_eq,
}
use bom_media_api.Uploads.Sessions.{
  Chunk, Session, State, Env, VideoUploadSessionStatus, is_active, is_completing,
  is_active_or_failed, set_status_where, refused, unknown_request, pending, missing_chunks,
  in_progress,
}
use bom_media_api.Uploads.Steps.{
  Step, step, run, receives, expires, commits, checks, claims, finishes, cancels, cleans,
}
use bom_media_api.Uploads.Chunks.{taken}
use bom_media_api.Uploads.Completion.{
  ensure_all_upload_chunks_present, check_completion, claim_completion, merge_chunks_to_final_file,
  complete_owned, finish_completion, cancel_local_video_upload, cleanup_stale,
}
use bom_media_api.Uploads.Whole.{IsAscending}
use bom_media_api.Uploads.InFlight.{taken-All, taken-length, if-holds}
use bom_media_api.Uploads.Invariant.{
  IsFit, IsPart, IsReady, open_count, IsValid, set_status_where-IsValid, Kept,
  receive_chunk-IsValid, expire_read-IsValid, commit_chunk-IsValid,
}

module _ (total m size : ℕ) (Says : ℕ → List ℕ → Type 0) (Made : List ℕ → Type 0) where
  all_present :
      (u : Session)
      → IsPart total m size Says Made u
      → ensure_all_upload_chunks_present u ≡ true
      → length u.chunks ≡ suc m
  unfolding ensure_all_upload_chunks_present
  all_present u (_, n, _, _, _) e = ground (arith, n, e)

  check_completion-IsValid :
      (admin : Text) (now : ℕ) (s : State)
      → IsValid total m size Says Made s
      → IsValid total m size Says Made (check_completion admin now s).0
  unfolding check_completion
  check_completion-IsValid admin now s v =
      if-holds (Kept total m size Says Made) (not (text_eq s.upload.admin_id admin)) _ _ v (
        if-holds (Kept total m size Says Made) _ _ _ v (
          if-holds (Kept total m size Says Made) (not (is_active s.upload.status)) _ _ v (
            if-holds (Kept total m size Says Made) (leb s.upload.expires_at now) _ _
              (set_status_where-IsValid total m size Says Made is_active
                VideoUploadSessionStatus.expired s refl v)
              (go (ensure_all_upload_chunks_present s.upload) refl))))
    where
      go :
          (b : Bool)
          → ensure_all_upload_chunks_present s.upload ≡ b
          → Kept total m size Says Made (
              if b
              then (record s { checked = s.upload ∷ s.checked }, pending)
              else (s, refused missing_chunks))
      go true e = let (u, g, h, i, j, n) = v in (u, g, ((u, all_present s.upload u e), h), i, j, n)
      go false e = v

  claim_completion-IsValid :
      (k : ℕ) (s : State)
      → IsValid total m size Says Made s
      → IsValid total m size Says Made (claim_completion k s).0
  unfolding claim_completion
  claim_completion-IsValid k s v = go (taken k s.checked) refl
    where
      claimed :
          (u : Session) (rest : List Session) (b : Bool)
          → is_active s.upload.status ≡ b
          → IsReady total m size Says Made u
          → All (IsReady total m size Says Made) rest
          → Kept total m size Says Made (
              if b
              then (
                record s {
                  checked = rest;
                  completing = u ∷ s.completing;
                  upload = record s.upload { status = VideoUploadSessionStatus.completing };
                },
                pending,
              )
              else (record s { checked = rest }, refused in_progress))
      claimed u rest true e p q =
          let (w, g, h, i, j, n) = v in (w, g, q, (p, i), j, ground (arith, e, n))
      claimed u rest false e p q = let (w, g, h, i, j, n) = v in (w, g, q, i, j, n)

      go :
          (o : Option (Session × List Session))
          → taken k s.checked ≡ o
          → Kept total m size Says Made (elim o [
            | none ↦ (s, refused unknown_request)
            | some (u, rest) ↦
                if is_active s.upload.status
                then (
                  record s {
                    checked = rest;
                    completing = u ∷ s.completing;
                    upload = record s.upload { status = VideoUploadSessionStatus.completing };
                  },
                  pending,
                )
                else (record s { checked = rest }, refused in_progress)
          ])
      go none e = v
      go (some (u, rest)) e =
          let (w, g, h, i, j, n) = v in
          let (p, q) = taken-All (IsReady total m size Says Made) k s.checked u rest e h in
          claimed u rest (is_active s.upload.status) refl p q

  -- What the request of a step says.
  abbrev pub Said : Step → Type 0
  Said (receives admin dto now) = Says dto.chunk_index dto.file
  Said _ = Unit

  module _
      (makes : (cs : List Chunk)
        → IsAscending 0 cs
        → All (IsFit total m size Says Made) cs
        → length cs ≡ suc m
        → Made (merge_chunks_to_final_file cs)) where
    complete_owned-IsValid :
        (env : Env) (video_id : Text) (checksum : Option Text) (is_valid : Bool) (u : Session)
        → (s : State) → IsReady total m size Says Made u
        → IsValid total m size Says Made s
        → length s.videos
            + length s.completing
            + open_count total m size Says Made (is_active s.upload.status)
          ≤ 0
        → Kept total m size Says Made (complete_owned env video_id checksum is_valid u s)
    unfolding complete_owned
    complete_owned-IsValid env video_id checksum is_valid u s ((_, _, _, a, l), n) v z =
        if-holds (Kept total m size Says Made) (length u.chunks == 0) _ _ failed (
          if-holds (Kept total m size Says Made) _ _ _ failed (
            if-holds (Kept total m size Says Made) (not is_valid) _ _ failed (
              if-holds (Kept total m size Says Made) (is_completing s.upload.status) _ _ made
                failed)))
      where
        failed : IsValid total m size Says Made (record s {
          upload = set_status_where is_completing VideoUploadSessionStatus.failed s.upload;
        })
        failed =
            set_status_where-IsValid total m size Says Made is_completing
              VideoUploadSessionStatus.failed s refl v

        made : IsValid total m size Says Made (record s {
          videos =
              record {
                id = video_id;
                content = merge_chunks_to_final_file u.chunks;
                checksum_sha256 = env.sha256 (merge_chunks_to_final_file u.chunks);
              }
              ∷ s.videos;
          upload = record s.upload {
            status = VideoUploadSessionStatus.completed;
            video_id = some video_id;
            checksum_sha256 = some (env.sha256 (merge_chunks_to_final_file u.chunks));
            received_chunks = u.total_chunks;
            chunks = [];
          };
        })
        made =
            let ((t, c, y, _, _), g, h, i, j, k) = v in
            ((t, c, y, tt, tt), g, h, i, (makes u.chunks a l n, j), omega (arith, z))

    finish_completion-IsValid :
        (env : Env) (k : ℕ) (video_id : Text) (checksum : Option Text) (is_valid : Bool) (s : State)
        → IsValid total m size Says Made s
        → IsValid total m size Says Made (finish_completion env k video_id checksum is_valid s).0
    unfolding finish_completion
    finish_completion-IsValid env k video_id checksum is_valid s v = go (taken k s.completing) refl
      where
        go :
            (o : Option (Session × List Session))
            → taken k s.completing ≡ o
            → Kept total m size Says Made (elim o [
              | none ↦ (s, refused unknown_request)
              | some (u, rest) ↦
                  complete_owned env video_id checksum is_valid u (record s { completing = rest })
            ])
        go none e = v
        go (some (u, rest)) e =
            let (w, g, h, i, j, n) = v in
            let (p, q) = taken-All (IsReady total m size Says Made) k s.completing u rest e i in
            let fewer = taken-length k s.completing u rest e in
            complete_owned-IsValid env video_id checksum is_valid u (record s { completing = rest })
              p (w, g, h, q, j, omega (arith, n, fewer)) (omega (arith, n, fewer))

    step-IsValid :
        (env : Env) (s : State) (x : Step)
        → Said x
        → IsValid total m size Says Made s
        → IsValid total m size Says Made (step env s x)
    unfolding step cancel_local_video_upload cleanup_stale
    step-IsValid env s (receives admin dto now) said v =
        receive_chunk-IsValid total m size Says Made env admin dto now s said v
    step-IsValid env s expires said v = expire_read-IsValid total m size Says Made s v
    step-IsValid env s (commits k) said v = commit_chunk-IsValid total m size Says Made k s v
    step-IsValid env s (checks admin now) said v = check_completion-IsValid admin now s v
    step-IsValid env s (claims k) said v = claim_completion-IsValid k s v
    step-IsValid env s (finishes k video_id checksum is_valid) said v =
        finish_completion-IsValid env k video_id checksum is_valid s v
    step-IsValid env s (cancels admin) said v =
        if-holds (Kept total m size Says Made) (not (text_eq s.upload.admin_id admin)) _ _ v (
          if-holds (Kept total m size Says Made) (is_completing s.upload.status) _ _ v (
            set_status_where-IsValid total m size Says Made is_active_or_failed
              VideoUploadSessionStatus.aborted s refl v))
    step-IsValid env s (cleans now) said v =
        if-holds (IsValid total m size Says Made)
          (ltb s.upload.expires_at now
            || ltb s.upload.created_at (now - env.get_stale_upload_max_age_ms))
          _ _
          (set_status_where-IsValid total m size Says Made is_active_or_failed
            VideoUploadSessionStatus.expired s refl v)
          v

    pub run-IsValid :
        (env : Env) (s : State) (xs : List Step)
        → All Said xs
        → IsValid total m size Says Made s
        → IsValid total m size Says Made (run env s xs)
    unfolding run
    run-IsValid env s [] said v = v
    run-IsValid env s (x ∷ xs) (said, rest) v =
        run-IsValid env (step env s x) xs rest (step-IsValid env s x said v)
