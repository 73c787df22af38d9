-- ===== src/Server/Delivery/Last.antt =====
-- The last chunk.
use remote_backup_m.Prelude.{
  ◌≡◌, refl, sym, ◌∙◌, Bool, true, false, [], ◌++◌, Bytes, ok, Eq, ◌=?◌, bytes_eq, bytes_beq_iff,
  ◌>>=◌,
}
use remote_backup_m.Shared.Types.{ErrType}
use remote_backup_m.Shared.View.{View, value, verify_end}
use remote_backup_m.Shared.Platform.{Platform, contents}
use remote_backup_m.Shared.Tools.{hashed, md5_hash, md5_file}
use remote_backup_m.Shared.Dir.{put, without, insert_or_assign}
use remote_backup_m.Shared.Dir.Entries.{beq_refl, find-without, put-NodupKeys, without-NodupKeys}
use remote_backup_m.Server.User.{dir}
use remote_backup_m.Server.Streams.{Streams, erase_stream}
use remote_backup_m.Server.Queue.{Queue}
use remote_backup_m.Server.Session.{Session, accept}
use remote_backup_m.Server.Handler.Upload.{
  temp_digest, verify_upload, close_stream, note_chunk, create_content,
}
use remote_backup_m.Server.Delivery.Chunk.{
  Upload, Entries, session, Tidy, Untouched, Going, Complete, Opened, Untouched-Opened,
  Going-Opened, flushed, create_content-noting, flushed-Written, entry, Tidy-put, find-put_self,
}

module _ (P : Platform) ⦃e : Eq P.FsPath⦄ (U : Upload P) where
  open U use {u, root, shared, rel, digest, c0, laws}

  -- The last chunk was received.
  pub record Completes (c : Entries P U) (streams : Streams P) (disk : P.Disk) (bytes : Bytes)
      (v : View) (q : Queue) : Type 0 where
    pub entries : Entries P U
    pub streams' : Streams P
    pub disk' : P.Disk
    pub served :
        create_content P rel digest v (session P U c streams disk q)
        ≡ accept P (session P U entries streams' disk' q)
    pub complete : Complete P U entries streams' disk' bytes

  md5_file-stored :
      (disk : P.Disk) (bytes : Bytes)
      → P.read_file (P.join root rel) disk ≡ contents bytes
      → md5_file P (P.join root rel) rel disk ≡ hashed (md5_hash P (P.string rel ++ bytes))
  unfolding md5_file
  md5_file-stored disk bytes r = rw (md5_file, r)

  verify_upload-stored :
      (s : Session P) (bytes : Bytes)
      → P.read_file (P.join root rel) s.disk ≡ contents bytes
      → digest ≡ md5_hash P (P.string rel ++ bytes)
      → verify_upload P (P.join root rel) rel digest ErrType.create_no_match ErrType.create_failed s
        ≡ accept P s
  unfolding verify_upload
  verify_upload-stored s bytes r same =
      let e : (md5_hash P (P.string rel ++ bytes) =? digest) ≡ true =
        (bytes_beq_iff (md5_hash P (P.string rel ++ bytes)) digest).1 (sym same) in
      rw (verify_upload, md5_file-stored s.disk bytes r, e)

  Opened-Completes :
      (first : Bool) (c : Entries P U) (streams : Streams P) (disk : P.Disk) (bytes chunk : Bytes)
      (v : View) (q : Queue)
      → Tidy P U c streams
      → Opened P U first c streams disk bytes
      → value v ≡ ok chunk
      → verify_end v ≡ ok true
      → digest ≡ md5_hash P (P.string rel ++ (bytes ++ chunk))
      → Completes c streams disk (bytes ++ chunk) v q
  unfolding close_stream erase_stream note_chunk dir insert_or_assign
  Opened-Completes first c streams disk bytes chunk v q t o shown ends same =
      let f = flushed P U first true c streams disk bytes chunk v q o shown ends in
      let w = flushed-Written P U first true c streams disk bytes chunk v q o shown ends in
      let open_streams = put u.id f.1 o.streams' in
      let n = put-NodupKeys u.id f.1 o.streams' o.users in
      let closed = P.close f.1 f.0 in
      let stored = laws.close f.1 (bytes ++ chunk) f.0 w in
      record {
        entries = put rel (entry P U true digest) c;
        streams' = without u.id open_streams;
        disk' = closed.0;
        served =
            create_content-noting P U first true c streams disk bytes chunk v q o shown ends
            ∙ noted first open_streams f
            ∙ verify_upload-stored
                (session P U (put rel (entry P U true digest) c) (without u.id open_streams)
                  closed.0 q)
                (bytes ++ chunk) stored same;
        complete = record {
          tidy =
              Tidy-put P U c streams (without u.id open_streams) (entry P U true digest) t
                (without-NodupKeys u.id open_streams n);
          entry = find-put_self P U rel (entry P U true digest) c;
          closed = find-without u.id u.id open_streams n ∙ rw (beq_refl u.id);
          stored = stored;
        };
      }
    where
      noted :
          (first : Bool) (streams' : Streams P) (f : P.Disk × P.Stream)
          → (note_chunk P first true rel digest temp_digest (session P U c streams' f.0 q) >>= λ s.
              verify_upload P
                (P.join root rel)
                rel
                digest
                ErrType.create_no_match
                ErrType.create_failed
                (close_stream P f.1 s))
            ≡ verify_upload P
                (P.join root rel)
                rel
                digest
                ErrType.create_no_match
                ErrType.create_failed
                (session P U
                  (put rel (entry P U true digest) c)
                  (without u.id streams')
                  (P.close f.1 f.0).0
                  q)
      noted true streams' f = refl
      noted false streams' f = refl

  pub Untouched-Completes :
      (c : Entries P U) (streams : Streams P) (disk : P.Disk) (chunk : Bytes) (v : View) (q : Queue)
      → Untouched P U c streams disk
      → value v ≡ ok chunk
      → verify_end v ≡ ok true
      → digest ≡ md5_hash P (P.string rel ++ chunk)
      → Completes c streams disk chunk v q
  Untouched-Completes c streams disk chunk v q b =
      Opened-Completes true c streams disk [] chunk v q b.tidy
        (Untouched-Opened P U c streams disk b)

  pub Going-Completes :
      (c : Entries P U) (streams : Streams P) (disk : P.Disk) (bytes chunk : Bytes) (v : View)
      (q : Queue)
      → Going P U c streams disk bytes
      → value v ≡ ok chunk
      → verify_end v ≡ ok true
      → digest ≡ md5_hash P (P.string rel ++ (bytes ++ chunk))
      → Completes c streams disk (bytes ++ chunk) v q
  Going-Completes c streams disk bytes chunk v q b =
      Opened-Completes false c streams disk bytes chunk v q b.tidy
        (Going-Opened P U c streams disk bytes b)
