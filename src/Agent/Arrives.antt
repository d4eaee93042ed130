-- ===== src/Agent/Arrives.antt =====
-- src/agent.rs: a changed file from one end of a sync to the other, by signature, delta and PUT.
use cargo_remote.Prelude.{
  ℕ, ◌^◌, ◌≤◌, ◌<◌, ◌≡◌, refl, sym, ap, ◌∙◌, subst, [], ◌∷◌, Text, Bytes, true, false, some, Result,
  ok, err, ◌==◌, length, arith, is_empty, inl, inr, Bool-cases, ltb,
}
use cargo_remote.Prelude.LeBytes.{to_le_bytes}
use cargo_remote.Rsync.Checksum.{chunks, chunks_from, signature, block_len_for}
use cargo_remote.Rsync.Wire.{record_bytes, sig_to_bytes, sig_from_bytes-sig_to_bytes}
use cargo_remote.Rsync.Sizes.{block_len_for_range, signature-IsSig}
use cargo_remote.Rsync.Patch.{patch}
use cargo_remote.Rsync.RoundTrip.{NoCollision, patch-delta}
use cargo_remote.Agent.Frames.{max_hdr_json, unpack_hdr}
use cargo_remote.Agent.Framing.{unpack_hdr-pack_hdr}
use cargo_remote.Agent.Paths.{hdr_block_len, resolve_under}
use cargo_remote.Agent.SigSize.{check_sig_size-signature}
use cargo_remote.Agent.Plan.{FileMeta, kind_file}
use cargo_remote.Agent.Disk.{FilePath, contents, Disk, AgentError, go_on}
use cargo_remote.Agent.Storing.{pos, write_file_atomic}
use cargo_remote.Agent.Messages.{SigHdr, FileHdr, Json, IsI64, FitsSig, FitsFile, ReadsBack}
use cargo_remote.Agent.Server.{
  Served, apply_put, count_put, put_file, put_content, read_or_empty, serve_put, sig_payload,
  sig_answer, map_err,
}
use cargo_remote.Agent.Sending.{Sigs, file_hdr, file_body, delta_or_full, collect_sig}

-- The header is one for the file, and the agent makes the new bytes from it, the body and the old.
pub record Carries (m : FileMeta) (old new : Bytes) (hdr : FileHdr) (body : Bytes) : Type 0 where
  pub path_kept : hdr.path ≡ m.path
  pub link_kept : hdr.link ≡ m.link
  pub mode_kept : hdr.mode ≡ m.mode
  pub mtime_kept : hdr.mtime ≡ pos m.mtime
  pub kind_kept : hdr.kind ≡ m.kind
  pub exists_kept : hdr.exists ≡ true
  pub len_kept : hdr.len ≡ m.len
  pub block_len_fits : hdr.block_len < 2 ^ 32
  pub gives : put_content hdr body old ≡ ok new

module _ (digest : Bytes → Bytes) (m : FileMeta) (old new : Bytes) where
  full-Carries : Carries m old new (file_hdr m) new
  unfolding file_hdr put_content
  full-Carries = record {
    path_kept = refl;
    link_kept = refl;
    mode_kept = refl;
    mtime_kept = refl;
    kind_kept = refl;
    exists_kept = refl;
    len_kept = refl;
    block_len_fits = omega arith;
    gives = refl;
  }

  delta-Carries :
      (bl : ℕ) (d : Bytes)
      → 0 < bl
      → bl ≤ 2 ^ 20
      → patch old d bl m.len ≡ ok new
      → Carries m old new (record (file_hdr m) { delta = true; block_len = bl }) d
  unfolding file_hdr put_content hdr_block_len map_err
  delta-Carries bl d l top h =
      let same : hdr_block_len bl ≡ bl = ground arith in
      record {
        path_kept = refl;
        link_kept = refl;
        mode_kept = refl;
        mtime_kept = refl;
        kind_kept = refl;
        exists_kept = refl;
        len_kept = refl;
        block_len_fits = omega arith;
        gives = rw (same, h) refl;
      }

  -- Whether there is a signature or not, `file_body` gives something that carries the file.
  abbrev Sends : Result AgentError (FileHdr × Bytes) → Type 0
  Sends r = (hdr : FileHdr) × ((body : Bytes) × ((r ≡ ok (hdr, body)) × Carries m old new hdr body))

  delta_or_full-Sends :
      (bl : ℕ) (d : Bytes)
      → 0 < bl
      → bl ≤ 2 ^ 20
      → patch old d bl m.len ≡ ok new
      → Sends (delta_or_full (file_hdr m) bl new (some d))
  unfolding delta_or_full
  delta_or_full-Sends bl d l top h = elim (Bool-cases (ltb (length d) (length new))) [
    | inl short ↦ (_, (d, (rw short refl, delta-Carries bl d l top h)))
    | inr long ↦ (_, (new, (rw long refl, full-Carries)))
  ]

  pub file_body-Sends :
      (bl : ℕ)
      → 0 < bl
      → bl ≤ 2 ^ 20
      → length new < 2 ^ 32
      → length new ≡ m.len
      → NoCollision digest old new bl
      → Sends (file_body digest (file_hdr m) new (some (bl, signature digest old bl)))
  unfolding file_body
  file_body-Sends bl l top fits len safe =
      let (d, made, back) = patch-delta digest old new bl l top fits safe in
      subst (λ o. Sends (delta_or_full (file_hdr m) bl new o)) (sym made)
        (delta_or_full-Sends bl d l top (ap (λ n. patch old d bl n) (sym len) ∙ back))

-- The header of a file whose numbers fit is one whose numbers fit.
pub Carries-FitsFile :
    (m : FileMeta) (old new : Bytes) (hdr : FileHdr) (body : Bytes)
    → m.mode < 2 ^ 32
    → m.mtime < 2 ^ 63
    → m.kind ≡ kind_file
    → m.len < 2 ^ 32
    → Carries m old new hdr body
    → FitsFile hdr
Carries-FitsFile m old new hdr body mode mtime kind len c =
    let kind_is : hdr.kind ≡ kind_file = c.kind_kept ∙ kind in
    record {
      mode_fits = subst (λ n. n < 2 ^ 32) (sym c.mode_kept) mode;
      mtime_fits = subst IsI64 (sym c.mtime_kept) mtime;
      kind_fits = subst (λ n. n < 2 ^ 8) (sym kind_is) (omega arith);
      block_len_fits = c.block_len_fits;
      len_fits = let e = c.len_kept in omega arith;
    }

pub signature_nonempty :
    (digest : Bytes → Bytes) (old : Bytes) (bl : ℕ)
    → is_empty old ≡ false
    → is_empty (sig_to_bytes (signature digest old bl)) ≡ false
unfolding signature chunks chunks_from sig_to_bytes record_bytes to_le_bytes
signature_nonempty digest [] bl h = cc
signature_nonempty digest (x ∷ old) bl h = refl

block_len_kept : (n : ℕ) → hdr_block_len (block_len_for n) ≡ block_len_for n
unfolding hdr_block_len
block_len_kept n = ground (arith, block_len_for_range n)

module _ (D : Disk) (J : Json) (back : ReadsBack J) (digest : Bytes → Bytes)
    (digest_length : (w : Bytes) → 16 ≤ length (digest w)) where
  -- The client takes the signature that the agent made of its file.
  pub collect_sig-sig_payload :
      (path : Text) (old : Bytes) (sigs : Sigs)
      → is_empty old ≡ false
      → length old < 2 ^ 58
      → ((h : SigHdr) → FitsSig h → h.path ≡ path → length (J.encode_sig h) ≤ max_hdr_json)
      → collect_sig J digest (length old) (sig_payload D J digest path (contents old)) sigs
        ≡ ok (
            (path, (block_len_for (length old), signature digest old (block_len_for (length old))))
            ∷ sigs)
  unfolding collect_sig sig_payload sig_answer map_err
  collect_sig-sig_payload path old sigs nonempty small fits =
      let bl = block_len_for (length old) in
      let hdr : SigHdr = record { path = path; block_len = bl } in
      let body = sig_to_bytes (signature digest old bl) in
      let (low, top) = block_len_for_range (length old) in
      let in_range : bl < 2 ^ 32 = omega arith in
      rw (
        nonempty,
        unpack_hdr-pack_hdr J.encode_sig J.decode_sig hdr body (back.sig_back hdr in_range)
            (fits hdr in_range refl),
        signature_nonempty digest old bl nonempty,
        block_len_kept (length old),
        check_sig_size-signature digest digest_length old bl (omega arith) small,
        sig_from_bytes-sig_to_bytes (signature digest old bl)
            (signature-IsSig digest digest_length old bl),
      )

module _ (D : Disk) where
  pub apply_put-write_file_atomic :
      (root dest : FilePath) (hdr : FileHdr) (body new : Bytes) (s : D.State)
      → resolve_under root hdr.path ≡ ok dest
      → hdr.kind ≡ kind_file
      → put_content hdr body (read_or_empty (D.read s dest)) ≡ ok new
      → apply_put D root hdr body s ≡ write_file_atomic D dest new hdr.mode hdr.mtime s
  unfolding apply_put put_file go_on map_err
  apply_put-write_file_atomic root dest hdr body new s resolved kind content =
      rw (resolved, kind, content) refl

  -- The result of a step of the agent and the disk that it leaves.
  abbrev pub disk_result :
      Result AgentError (Unit {0}) × Served D → Result AgentError (Unit {0}) × D.State
  disk_result r = (r.0, r.1.disk)

  pub count_put-disk :
      (hdr : FileHdr) (body : Bytes) (s : Served D) → (count_put D hdr body s).1.disk ≡ s.disk
  unfolding count_put
  count_put-disk hdr body s = elim (Bool-cases (hdr.kind == kind_file)) [
    | inl e ↦ rw e refl
    | inr e ↦ rw e refl
  ]

  -- The counters change neither the result nor the disk.
  counted :
      (hdr : FileHdr) (body : Bytes) (r : Result AgentError (Unit {0})) (s : Served D)
      → disk_result (go_on r s λ _. count_put D hdr body) ≡ (r, s.disk)
  unfolding go_on count_put
  counted hdr body (err e) s = refl
  counted hdr body (ok u) s = ap (λ d. (ok u, d)) (count_put-disk hdr body s)

  -- The result and the disk of a PUT are those of `apply_put`.
  pub serve_put-apply_put :
      (J : Json) (digest : Bytes → Bytes) (root : FilePath) (payload body : Bytes) (hdr : FileHdr)
      (s : Served D)
      → unpack_hdr J.encode_file J.decode_file payload ≡ ok (hdr, body)
      → disk_result (serve_put D J digest root payload s) ≡ apply_put D root hdr body s.disk
  unfolding serve_put map_err go_on
  serve_put-apply_put J digest root payload body hdr s read =
      let r = apply_put D root hdr body s.disk in
      rw read (counted hdr body r.0 (record s { disk = r.1 }))
