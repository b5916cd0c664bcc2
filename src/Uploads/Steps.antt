-- ===== src/Uploads/Steps.antt =====
-- The requests for an upload in a row, each cut where it waits.
use bom_media_api.Common.{ℕ, Bool, Option, List, [], ◌∷◌, Text}
use bom_media_api.Uploads.Sessions.{Env, State}
use bom_media_api.Uploads.Chunks.{ChunkRequest, commit_chunk, expire_read, receive_chunk}
use bom_media_api.Uploads.Completion.{
  cancel_local_video_upload, check_completion, claim_completion, cleanup_stale, finish_completion,
}

-- The requests, each cut where it waits. The requests that send a chunk, that complete an upload and
-- that cancel one begin with a clean-up.
pub data Step : Type 0 where
  receives : (admin : Text) → ChunkRequest → (now : ℕ) → Step
  expires : Step
  commits : ℕ → Step
  checks : (admin : Text) → (now : ℕ) → Step
  claims : ℕ → Step
  finishes : ℕ → (video_id : Text) → (checksum : Option Text) → (is_valid : Bool) → Step
  cancels : (admin : Text) → Step
  cleans : (now : ℕ) → Step

unfoldable pub step : Env → State → Step → State
unfolding receive_chunk expire_read commit_chunk check_completion claim_completion finish_completion
    cancel_local_video_upload cleanup_stale
step env s (receives admin dto now) = (receive_chunk env admin dto now s).0
step env s expires = expire_read s
step env s (commits k) = (commit_chunk k s).0
step env s (checks admin now) = (check_completion admin now s).0
step env s (claims k) = (claim_completion k s).0
step env s (finishes k video checksum is_valid) =
    (finish_completion env k video checksum is_valid s).0
step env s (cancels admin) = (cancel_local_video_upload admin s).0
step env s (cleans now) = cleanup_stale env now s

unfoldable pub run : Env → State → List Step → State
unfolding step
run env s [] = s
run env s (x ∷ xs) = run env (step env s x) xs
