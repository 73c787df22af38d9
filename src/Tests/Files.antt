-- ===== src/Tests/Files.antt =====
-- Files in messages at concrete inputs.
use remote_backup_m.Prelude.{
  ℕ, ◌+◌, ◌≡◌, ◌≢◌, ◌≤◌, true, ◌∷◌, [], List, Bytes, ok, err, some, runtime_error, arith, length,
  replicate, length-replicate, All,
}
use remote_backup_m.Shared.View.{view_of, verify_end, segments}
use remote_backup_m.Shared.Chunks.{chunk_size}
use remote_backup_m.Shared.Chunks.Step.{content_tlv, middle_frame}
use remote_backup_m.Shared.Chunks.Transfer.{
  send_file, send_file-Fits, send_file-gap, header, frames, concat,
}
use remote_backup_m.Shared.Chunks.Ends.{end_bytes, verify_end-middle_frame}

send_file-Fits_example :
    (pieces : List Bytes) × (send_file 5 1 (some (7 ∷ 8 ∷ 9 ∷ [])) (97 ∷ [])
      ≡ ok (frames (header 1 (97 ∷ [])) pieces))
    × (concat pieces ≡ 7 ∷ 8 ∷ 9 ∷ [])
    × All (λ m. length m.raw ≤ chunk_size) (frames (header 1 (97 ∷ [])) pieces)
    × (pieces ≢ [])
send_file-Fits_example =
    send_file-Fits 1 (7 ∷ 8 ∷ 9 ∷ []) (97 ∷ []) (omega arith) (omega arith) (omega arith)

-- One byte short of a full chunk.
short_file : Bytes
short_file = replicate 65527 0

length-short_file : length short_file ≡ 65527
unfolding short_file
length-short_file = length-replicate {A = ℕ} 65527 0

send_file-gap_example :
    send_file (length short_file + 2) 1 (some short_file) (97 ∷ []) ≡ err runtime_error
send_file-gap_example =
    send_file-gap 1 short_file (97 ∷ []) (omega arith) (omega (arith, length-short_file))
      (omega (arith, length-short_file))

verify_end-middle_frame_example :
    (verify_end (view_of (middle_frame (header 1 (97 ∷ [])) (7 ∷ end_bytes))) ≡ ok true)
    × (segments (middle_frame (header 1 (97 ∷ [])) (7 ∷ end_bytes))
        ≡ ok (record { tag = 2; value = 97 ∷ [] } ∷ content_tlv (7 ∷ end_bytes) ∷ []))
verify_end-middle_frame_example = verify_end-middle_frame 1 (97 ∷ []) (7 ∷ [])
