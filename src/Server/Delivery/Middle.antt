-- ===== src/Server/Delivery/Middle.antt =====
-- A chunk before the last one.
use remote_backup_m.Prelude.{◌≡◌, true, false, [], ◌++◌, Bytes, ok, Eq, bytes_eq}
use remote_backup_m.Shared.View.{View, value, verify_end}
use remote_backup_m.Shared.Platform.{Platform}
use remote_backup_m.Shared.Dir.{put, insert_or_assign}
use remote_backup_m.Shared.Dir.Entries.{put-NodupKeys}
use remote_backup_m.Server.User.{dir}
use remote_backup_m.Server.Streams.{Streams}
use remote_backup_m.Server.Queue.{Queue}
use remote_backup_m.Server.Session.{accept}
use remote_backup_m.Server.Handler.Upload.{temp_digest, note_chunk, create_content}
use remote_backup_m.Server.Delivery.Chunk.{
  Upload, Entries, session, Untouched, Going, Untouched-Opened, Going-Opened, flushed,
  create_content-noting, flushed-Written, entry, Tidy-put, find-put_self,
}

module _ (P : Platform) ⦃e : Eq P.FsPath⦄ (U : Upload P) where
  open U use {u, root, shared, rel, digest, c0, laws}

  -- One more chunk was received.
  pub record Continues (c : Entries P U) (streams : Streams P) (disk : P.Disk) (bytes : Bytes)
      (v : View) (q : Queue) : Type 0 where
    pub entries : Entries P U
    pub streams' : Streams P
    pub disk' : P.Disk
    pub served :
        create_content P rel digest v (session P U c streams disk q)
        ≡ accept P (session P U entries streams' disk' q)
    pub going : Going P U entries streams' disk' bytes

  pub Untouched-Continues :
      (c : Entries P U) (streams : Streams P) (disk : P.Disk) (chunk : Bytes) (v : View) (q : Queue)
      → Untouched P U c streams disk
      → value v ≡ ok chunk
      → verify_end v ≡ ok false
      → Continues c streams disk chunk v q
  unfolding note_chunk dir insert_or_assign
  Untouched-Continues c streams disk chunk v q b shown ends =
      let o = Untouched-Opened P U c streams disk b in
      let f = flushed P U true false c streams disk [] chunk v q o shown ends in
      record {
        entries = put rel (entry P U false temp_digest) c;
        streams' = put u.id f.1 o.streams';
        disk' = f.0;
        served = create_content-noting P U true false c streams disk [] chunk v q o shown ends;
        going = record {
          tidy =
              Tidy-put P U c streams (put u.id f.1 o.streams') (entry P U false temp_digest) b.tidy
                (put-NodupKeys u.id f.1 o.streams' o.users);
          entry = find-put_self P U rel (entry P U false temp_digest) c;
          stream = f.1;
          found = find-put_self P U u.id f.1 o.streams';
          written = flushed-Written P U true false c streams disk [] chunk v q o shown ends;
        };
      }

  pub Going-Continues :
      (c : Entries P U) (streams : Streams P) (disk : P.Disk) (bytes chunk : Bytes) (v : View)
      (q : Queue)
      → Going P U c streams disk bytes
      → value v ≡ ok chunk
      → verify_end v ≡ ok false
      → Continues c streams disk (bytes ++ chunk) v q
  unfolding note_chunk dir
  Going-Continues c streams disk bytes chunk v q b shown ends =
      let o = Going-Opened P U c streams disk bytes b in
      let f = flushed P U false false c streams disk bytes chunk v q o shown ends in
      record {
        entries = c;
        streams' = put u.id f.1 o.streams';
        disk' = f.0;
        served = create_content-noting P U false false c streams disk bytes chunk v q o shown ends;
        going = record {
          tidy = record {
            entries = b.tidy.entries;
            users = put-NodupKeys u.id f.1 o.streams' o.users;
            others = b.tidy.others;
          };
          entry = b.entry;
          stream = f.1;
          found = find-put_self P U u.id f.1 o.streams';
          written = flushed-Written P U false false c streams disk bytes chunk v q o shown ends;
        };
      }
