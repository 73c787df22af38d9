-- ===== src/Backup/Restored.antt =====
-- A file of the server's that the client does not have.
use remote_backup_m.Prelude.{
  suc, ◌+◌, ◌^◌, ◌<◌, ◌≤◌, ◌≡◌, refl, sym, ap, ◌∙◌, true, false, List, [], ◌∷◌, ◌++◌, append_assoc,
  append-nil, subst, Bytes, bytes_eq, bytes_beq_iff, length, some, ok, Eq,
}
use remote_backup_m.Shared.Types.{MsgType, msg_code}
use remote_backup_m.Shared.Message.{Message}
use remote_backup_m.Shared.View.{view_of}
use remote_backup_m.Shared.Platform.{Platform, contents}
use remote_backup_m.Shared.Tools.{split_sign, md5_file, md5_hash}
use remote_backup_m.Shared.Dir.{Dir}
use remote_backup_m.Shared.Chunks.{chunk_size}
use remote_backup_m.Shared.Chunks.Transfer.{header, concat, Fits}
use remote_backup_m.Server.Resource.{SResource}
use remote_backup_m.Server.Session.{Session}
use remote_backup_m.Server.Handler.{handle_request}
use remote_backup_m.Client.Resource.{yes}
use remote_backup_m.Client.Incoming.{Incoming, read}
use remote_backup_m.Client.Incoming.Joined.{arrivals}
use remote_backup_m.Client.Posting.{
  WriteEnd, done, Socket, sync_post, write, read_answer, cancel_keepalive, schedule_keepalive,
}
use remote_backup_m.Client.Retrieve.{
  retrieve_request, retrieve, before_request, handle_answer, store_reply, verify_retrieved,
}
use remote_backup_m.Client.Retrieve.Whole.{write_all, Copies, send_file-Retrieved}
use remote_backup_m.Backup.Requested.{file_queue, handle_request-sent}

-- A file at `path` that is made anew and only written through one stream. `Fresh` is a disk where there
-- is none and it can be made, and `Written` one where it has these bytes, some of them maybe still in
-- the stream.
pub record Truncates (P : Platform) (path : P.FsPath) : Type 1 where
  pub Fresh : P.Disk → Type 0
  pub Written : P.Stream → Bytes → P.Disk → Type 0
  pub absent : (disk : P.Disk) → Fresh disk → P.exists path disk ≡ false
  pub dirs_fresh :
      (disk : P.Disk)
      → Fresh disk
      → (made : P.Disk) × (P.create_directories (P.parent_path path) disk ≡ (made, false))
        × Fresh made
  pub open_fresh :
      (disk : P.Disk)
      → Fresh disk
      → (opened : P.Disk) × (stream : P.Stream) × (P.open_truncate path disk
          ≡ some (opened, stream))
        × Written stream [] opened
  pub good :
      (stream : P.Stream) (bytes : Bytes) (disk : P.Disk)
      → Written stream bytes disk
      → P.good stream ≡ true
  pub write :
      (stream : P.Stream) (bytes chunk : Bytes) (disk : P.Disk)
      → Written stream bytes disk
      → Written (P.write stream chunk disk).1 (bytes ++ chunk) (P.write stream chunk disk).0
  pub close :
      (stream : P.Stream) (bytes : Bytes) (disk : P.Disk)
      → Written stream bytes disk
      → P.read_file path (P.close stream disk).0 ≡ contents bytes

module _ (P : Platform) (path : P.FsPath) (laws : Truncates P path) where
  write_all-Written :
      (ps : List Bytes) (stream : P.Stream) (bytes : Bytes) (disk : P.Disk)
      → laws.Written stream bytes disk
      → laws.Written
          (write_all P ps stream disk).0
          (bytes ++ concat ps)
          (write_all P ps stream disk).1
  write_all-Written [] stream bytes disk w =
      subst (λ b. laws.Written stream b disk) (sym (append-nil bytes)) w
  write_all-Written (p ∷ ps) stream bytes disk w =
      let x = P.write stream p disk in
      subst (λ b. laws.Written (write_all P ps x.1 x.0).0 b (write_all P ps x.1 x.0).1)
        (append_assoc bytes p (concat ps))
        (write_all-Written ps x.1 (bytes ++ p) x.0 (laws.write stream bytes p disk w))

-- The client posts a request that is answered.
sync_post-answered :
    (request reply : Message) (s : Socket) (ends : List WriteEnd) (replies later : List Incoming)
    → read replies ≡ ok ((yes, some reply), later)
    → sync_post request (record s { writes = done ∷ ends; incoming = replies })
      ≡ ok (
        (yes, some reply),
        record s {
          writes = ends;
          incoming = later;
          sent = s.sent ++ (request ∷ []);
          keepalive = true;
        },
      )
unfolding sync_post write read_answer cancel_keepalive schedule_keepalive
sync_post-answered request reply s ends replies later h = rw h

module _ (P : Platform) where
  -- The stored file is the one that was sent.
  record Stored (absolute rel : P.FsPath) (digest sign content : Bytes) (reply : Message)
      (disk : P.Disk) : Type 0 where
    pub disk' : P.Disk
    pub handled : store_reply P absolute rel digest sign reply disk ≡ ok (disk', true)
    pub stored : P.read_file absolute disk' ≡ contents content

  verify_retrieved-stored :
      (absolute rel : P.FsPath) (digest content : Bytes) (disk : P.Disk)
      → P.read_file absolute disk ≡ contents content
      → digest ≡ md5_hash P (P.string rel ++ content)
      → verify_retrieved P absolute rel digest disk ≡ ok (disk, true)
  unfolding verify_retrieved md5_file
  verify_retrieved-stored absolute rel digest content disk h d =
      rw (verify_retrieved, h, d, (bytes_beq_iff (md5_hash P (P.string rel ++ content)) _).1 refl)

  store_reply-Stored :
      (absolute rel : P.FsPath) (digest sign content : Bytes) (reply : Message) (ps : List Bytes)
      (disk : P.Disk) (laws : Truncates P absolute)
      → laws.Fresh disk
      → ((stream : P.Stream) (d : P.Disk)
          → Copies P (suc (length reply.raw)) sign (view_of reply) ps stream d)
      → concat ps ≡ content
      → digest ≡ md5_hash P (P.string rel ++ content)
      → Stored absolute rel digest sign content reply disk
  unfolding store_reply
  store_reply-Stored absolute rel digest sign content reply ps disk laws fresh copies whole same =
      let (made, m, f) = laws.dirs_fresh disk fresh in
      let (opened, stream, o, w) = laws.open_fresh made f in
      let c = copies stream opened in
      let x = write_all P ps stream opened in
      let closed : P.Disk = (P.close x.0 x.1).0 in
      let stored : P.read_file absolute closed ≡ contents content =
        laws.close x.0 (concat ps) x.1 (write_all-Written P absolute laws ps stream [] opened w)
        ∙ ap contents whole in
      record {
        disk' = closed;
        handled =
            rw (m, o, laws.good stream [] opened w, c.copied, c.at_end)
              (verify_retrieved-stored absolute rel digest content closed stored same);
        stored = stored;
      }

module _ (P : Platform) ⦃e : Eq P.FsPath⦄ (backup_root credentials : P.FsPath) where
  -- The request of the client was served, and what the server replied was stored.
  pub record Restored (root rel : P.FsPath) (sign content : Bytes) (s : Session P) (socket : Socket)
      (ends : List WriteEnd) (later : List Incoming) (disk : P.Disk) : Type 0 where
    pub ms : List Message
    pub served :
        handle_request P backup_root credentials (retrieve_request sign) s
        ≡ ok (record s { replies = file_queue ms })
    pub disk' : P.Disk
    pub retrieved :
        retrieve P root sign
          (record socket { writes = done ∷ ends; incoming = arrivals ms ++ later })
          disk
        ≡ ok (
          record socket {
            writes = ends;
            incoming = later;
            sent = socket.sent ++ (retrieve_request sign ∷ []);
            keepalive = true;
          },
          disk',
          true,
        )
    pub stored : P.read_file (P.join root rel) disk' ≡ contents content

  -- A user who is authenticated and has listed his files has a file with this content on the server,
  -- and the client, which has no file at the path, retrieves it by its sign. If the sign is split
  -- into the path and the digest of the file, if it leaves room for ten bytes in a message, and if
  -- the file's length has 64 bits and, modulo the content of a full message, leaves room for an END;
  -- and if the client's write ends well and what arrives is what the server replies: then the server
  -- replies with messages and changes nothing else, the client sends the request for the sign alone,
  -- leaves what arrives later, says that the file was retrieved, and has it with this content. It
  -- relies on a file system where what is written to a new file through one stream is what is read
  -- from it.
  pub retrieve-Restored :
      (content sign digest : Bytes) (root rel : P.FsPath) (d : Dir P.FsPath SResource)
      (s : Session P) (socket : Socket) (ends : List WriteEnd) (later : List Incoming)
      (disk : P.Disk) (laws : Truncates P (P.join root rel))
      → s.user.auth ≡ true
      → s.user.synced ≡ true
      → s.user.dir_ptr ≡ some d
      → P.read_file (P.join d.path rel) s.disk ≡ contents content
      → split_sign P sign ≡ ok (rel, digest)
      → digest ≡ md5_hash P (P.string rel ++ content)
      → length sign + 10 ≤ chunk_size
      → length content < 2 ^ 64
      → Fits (header (msg_code MsgType.retrieve) sign) (length content)
      → laws.Fresh disk
      → Restored root rel sign content s socket ends later disk
  unfolding retrieve before_request handle_answer
  retrieve-Restored content sign digest root rel d s socket ends later disk laws auth synced has_dir
        r split same short bounded fits fresh =
      let (ms, sent, pieces, whole, got) = send_file-Retrieved content sign short bounded fits in
      let t =
        store_reply-Stored P (P.join root rel) rel digest sign content got.reply pieces disk laws
          fresh (λ stream x. got.copied P stream x) whole same in
      record {
        ms = ms;
        served =
            handle_request-sent P backup_root credentials content sign digest rel d s ms auth synced
              has_dir split r short sent;
        disk' = t.disk';
        retrieved = rw (
          split,
          before_request,
          laws.absent disk fresh,
          sync_post-answered (retrieve_request sign) got.reply socket ends (arrivals ms ++ later)
              later (got.received later),
          got.typed,
          t.handled,
        );
        stored = t.stored;
      }
