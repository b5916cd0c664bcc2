-- ===== src/Uploads/Invariant.antt =====
-- What holds of an upload, whatever requests are served and however they interleave.
use bom_media_api.Common.{
  ℕ, zero, suc, ◌+◌, ◌≤◌, ◌≡◌, inl, inr, refl, sym, subst, Bool, true, false, not, ◌&&◌, Option,
  none, some, List, [], ltb, leb, ◌==◌, length, All, arith, Bool-cases, Text, text_eq,
}
use bom_media_api.Uploads.Sessions.{
  Chunk, Session, State, Saved, Video, Env, Outcome, VideoUploadSessionStatus, is_active,
  set_status_where, opened, refused, unknown_request,
}
use bom_media_api.Uploads.Chunks.{
  ChunkRequest, taken, find_chunk, add_chunk, add_unless_found, check_chunk, save_chunk,
  checksum_of, receive_chunk, expire_read, commit_chunk,
}
use bom_media_api.Uploads.Whole.{
  IsAscending, IsExpected, insert_chunk-IsAscending, insert_chunk-All,
}
use bom_media_api.Uploads.InFlight.{taken-All, if-holds}

module _ (total m size : ℕ) (Says : ℕ → List ℕ → Type 0) (Made : List ℕ → Type 0) where
  -- A chunk that the row lets through, and of which the requests say something.
  abbrev pub IsFit : Chunk → Type 0
  IsFit c = IsExpected total m size c × Says c.chunk_index c.content

  -- A row with the columns of the upload, and with chunks that fit it.
  abbrev pub IsPart : Session → Type 0
  IsPart u =
      (u.total_bytes ≡ total)
      × (u.total_chunks ≡ suc m)
      × (u.chunk_size_bytes ≡ size)
      × IsAscending 0 u.chunks
      × All IsFit u.chunks

  abbrev pub IsReady : Session → Type 0
  IsReady u = IsPart u × (length u.chunks ≡ suc m)

  abbrev pub open_count : Bool → ℕ
  open_count true = 1
  open_count false = 0

  -- The rows that were read are parts of the upload, the videos are as they should be, and at most one
  -- video was made or will be.
  abbrev pub IsValid : State → Type 0
  IsValid s =
      IsPart s.upload
      × All (λ (r : Saved). IsFit r.chunk) s.saving
      × All IsReady s.checked
      × All IsReady s.completing
      × All (λ (v : Video). Made v.content) s.videos
      × (length s.videos + length s.completing + open_count (is_active s.upload.status) ≤ 1)

  -- A change of the status alone, that does not make the upload active.
  pub set_status_where-IsValid :
      (p : VideoUploadSessionStatus → Bool) (status : VideoUploadSessionStatus) (s : State)
      → is_active status ≡ false
      → IsValid s
      → IsValid (record s { upload = set_status_where p status s.upload })
  set_status_where-IsValid p status s e ((a, b, c, d, f), g, h, i, j, k) =
      elim (Bool-cases (p s.upload.status)) [
        | inl t ↦ rw (t, e) ((a, b, c, d, f), g, h, i, j, omega (arith, k))
        | inr t ↦ rw t ((a, b, c, d, f), g, h, i, j, k)
      ]

  abbrev pub Kept : State × Outcome → Type 0
  Kept r = IsValid r.0

  check_chunk-IsExpected :
      (env : Env) (u : Session) (dto : ChunkRequest) (checksum : Text)
      → IsPart u
      → check_chunk env u dto ≡ none
      → IsExpected total m size
          (record { chunk_index = dto.chunk_index; content = dto.file; checksum_sha256 = checksum })
  unfolding check_chunk
  check_chunk-IsExpected env u dto checksum (t, n, z, _, _) e = ground (arith, e, t, n, z)

  pub receive_chunk-IsValid :
      (env : Env) (admin : Text) (dto : ChunkRequest) (now : ℕ) (s : State)
      → Says dto.chunk_index dto.file
      → IsValid s
      → IsValid (receive_chunk env admin dto now s).0
  unfolding receive_chunk
  receive_chunk-IsValid env admin dto now s said v = if-holds Kept (length dto.file == 0) _ _ v (
      if-holds Kept (ltb env.get_chunk_size_bytes (length dto.file)) _ _ v (
        if-holds Kept (not (text_eq s.upload.admin_id admin)) _ _ v (
          if-holds Kept (not (is_active s.upload.status)) _ _ v (
            if-holds Kept (leb s.upload.expires_at now) _ _ v
              (saved (check_chunk env s.upload dto) refl)))))
    where
      saved :
          (o : Option Outcome)
          → check_chunk env s.upload dto ≡ o
          → Kept (
              save_chunk admin
                (record {
                  chunk_index = dto.chunk_index;
                  content = dto.file;
                  checksum_sha256 = checksum_of env dto;
                })
                o
                s)
      saved none e =
          let (u, g, h, i, j, k) = v in
          (
            u,
            ((check_chunk-IsExpected env s.upload dto (checksum_of env dto) u e, said), g),
            h,
            i,
            j,
            k,
          )
      saved (some o) e = v

  pub expire_read-IsValid : (s : State) → IsValid s → IsValid (expire_read s)
  unfolding expire_read
  expire_read-IsValid s v = go s.expiring
    where
      go :
          (n : ℕ)
          → IsValid (elim n [
            | zero ↦ s
            | suc n ↦ record s {
              expiring = n;
              upload = record s.upload { status = VideoUploadSessionStatus.expired };
            }
          ])
      go zero = v
      go (suc n) = let (u, g, h, i, j, k) = v in (u, g, h, i, j, omega (arith, k))

  add_chunk-IsPart :
      (r : Saved) (u : Session)
      → IsFit r.chunk
      → IsPart u
      → IsPart (add_chunk r u).0 × ((add_chunk r u).0.status ≡ u.status)
  unfolding add_chunk
  add_chunk-IsPart r u c p = go (find_chunk r.chunk.chunk_index u.chunks) refl
    where
      Stays : Session × Outcome → Type 0
      Stays x = IsPart x.0 × (x.0.status ≡ u.status)

      go :
          (o : Option Chunk)
          → find_chunk r.chunk.chunk_index u.chunks ≡ o
          → Stays (add_unless_found r u o)
      go (some d) e =
          if-holds Stays
            (length d.content == length r.chunk.content
              && text_eq d.checksum_sha256 r.chunk.checksum_sha256)
            _ _ (p, refl) (p, refl)
      go none e =
          let (t, n, z, a, l) = p in
          if-holds Stays (text_eq u.admin_id r.admin_id && is_active u.status) _ _
            (
              (
                t,
                n,
                z,
                insert_chunk-IsAscending 0 r.chunk u.chunks e (omega arith) a,
                insert_chunk-All IsFit r.chunk u.chunks c l,
              ),
              refl,
            )
            (p, refl)

  pub commit_chunk-IsValid : (k : ℕ) (s : State) → IsValid s → IsValid (commit_chunk k s).0
  unfolding commit_chunk
  commit_chunk-IsValid k s v = go (taken k s.saving) refl
    where
      go :
          (o : Option (Saved × List Saved))
          → taken k s.saving ≡ o
          → Kept (elim o [
            | none ↦ (s, refused unknown_request)
            | some (r, rest) ↦
                let m = add_chunk r s.upload in (record s { saving = rest; upload = m.0 }, m.1)
          ])
      go none e = v
      go (some (r, rest)) e =
          let (u, g, h, i, j, n) = v in
          let (c, g') = taken-All (λ (x : Saved). IsFit x.chunk) k s.saving r rest e g in
          let (p, same) = add_chunk-IsPart r s.upload c u in (p, g', h, i, j, rw same n)

  open_count_le : (b : Bool) → 0 + open_count b ≤ 1
  open_count_le true = omega arith
  open_count_le false = omega arith

  -- A row without chunks is the start of a valid upload.
  pub opened-IsValid :
      (u : Session)
      → u.total_bytes ≡ total
      → u.total_chunks ≡ suc m
      → u.chunk_size_bytes ≡ size
      → u.chunks ≡ []
      → IsValid (opened u)
  opened-IsValid u t n z c = (
    (t, n, z, subst (IsAscending 0) (sym c) tt, subst (All IsFit) (sym c) tt),
    tt,
    tt,
    tt,
    tt,
    open_count_le (is_active u.status),
  )
