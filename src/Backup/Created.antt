-- ===== src/Backup/Created.antt =====
-- A file of the client's that the server does not have.
use remote_backup_m.Prelude.{
  ◌+◌, ◌^◌, ◌<◌, ◌≡◌, ◌≢◌, refl, sym, ap, ◌∙◌, Bool, true, false, List, [], ◌∷◌, ◌++◌, Bytes,
  length, none, some, ok, Eq, ◌=?◌,
}
use remote_backup_m.Shared.Types.{MsgType}
use remote_backup_m.Shared.Message.{Message}
use remote_backup_m.Shared.Platform.{Platform, contents}
use remote_backup_m.Shared.Tools.{create_sign, md5_hash}
use remote_backup_m.Shared.Chunks.{FMessage}
use remote_backup_m.Shared.Chunks.Transfer.{header, Fits, frames, send_file, send_file-Fits}
use remote_backup_m.Shared.Dir.{Dir, rsrc, insert_or_assign}
use remote_backup_m.Shared.Dir.Entries.{NodupKeys, insert_or_assign_lem, beq_refl}
use remote_backup_m.Server.Resource.{SResource}
use remote_backup_m.Server.Session.{Session}
use remote_backup_m.Server.Streams.{Streams}
use remote_backup_m.Server.Queue.{Queue}
use remote_backup_m.Server.Delivery.{serve_all}
use remote_backup_m.Server.Delivery.Reply.{ok_reply, echoes, one_reply, accepted}
use remote_backup_m.Server.Delivery.Chunk.{Upload, Untouched, Complete}
use remote_backup_m.Server.Delivery.Served.{Uploads, at}
use remote_backup_m.Server.Delivery.Whole.{Unended, frames-some, send_file-Delivered}
use remote_backup_m.Client.Resource.{yes, CResource}
use remote_backup_m.Client.Tasks.{Task, file, Client, pending, enter, post_file, run_task}
use remote_backup_m.Client.Incoming.{Incoming}
use remote_backup_m.Client.Incoming.Joined.{arrivals}
use remote_backup_m.Client.Posting.{WriteEnd, Socket, async_post_file}
use remote_backup_m.Client.Replies.{handle_create}
use remote_backup_m.Client.Replies.Closing.{handle_create-Leaves}
use remote_backup_m.Backup.{flatten, all_done}
use remote_backup_m.Backup.Exchanges.{Opened, send_file-Opened, async_post_file-echoes}

module _ (P : Platform) ⦃e : Eq P.FsPath⦄ (backup_root credentials : P.FsPath) (U : Upload P)
    (handle_reconnection : Socket → Socket × Bool) where
  open U use {u, root, rel, digest}

  abbrev pub sign : Bytes
  sign = create_sign P rel digest

  -- The task of the client ran, and what it posted was sent: the server served each message and has the
  -- file with a synced entry, and the handler of the reply leaves the client's entry synced and on the
  -- server.
  pub record BackedUp (content : Bytes) (c : Client P) (socket : Socket) (ends : List WriteEnd)
      (later : List Incoming) (s : Session P) : Type 0 where
    pub client : Client P
    pub ran : run_task P (Task.create rel digest) c ≡ ok client
    pub f : FMessage
    pub posted :
        client.posted
        ≡ c.posted
          ++ (record { kind = MsgType.create; relative_path = rel; sign = sign; body = file f }
              ∷ [])
    pub ms : List Message
    pub replies : List (List Message)
    pub entries : List (P.FsPath × SResource)
    pub streams : Streams P
    pub disk : P.Disk
    pub queue : Queue
    pub served :
        serve_all P backup_root credentials ms s
        ≡ ok (replies, at P backup_root credentials U entries streams disk queue)
    pub complete : Complete P U entries streams disk content
    pub reply : Message
    pub answered :
        async_post_file handle_reconnection (length content + 2) f (record socket {
          writes = all_done ms ends;
          incoming = arrivals (flatten replies) ++ later;
        })
        ≡ ok (
          some reply,
          record socket {
            writes = ends;
            incoming = later;
            sent = socket.sent ++ ms;
            keepalive = true;
          },
        )
    pub dir : Dir P.FsPath CResource
    pub handled : handle_create rel sign (some reply) client.dir ≡ ok dir
    pub entry :
        rsrc rel dir ≡ some (record { synced = yes; exist_on_server = true; digest = digest })
    pub others : (j : P.FsPath) → (rel =? j) ≡ false → rsrc j dir ≡ rsrc j c.dir

  run_task-create :
      (content : Bytes) (c : Client P) (ms : List Message)
      → P.read_file (P.join c.dir.path rel) c.disk ≡ contents content
      → (o : Opened (length content + 2) 1 (some content) sign ms)
      → run_task P (Task.create rel digest) c
        ≡ ok (record (enter P rel (pending P false digest) c) {
          posted =
              c.posted
              ++ (record {
                kind = MsgType.create;
                relative_path = rel;
                sign = sign;
                body = file o.f;
              }
                  ∷ []);
        })
  unfolding run_task post_file insert_or_assign
  run_task-create content c ms r o = rw (run_task, post_file, r, o.opened)

  sent-some :
      (content : Bytes) (ms : List Message)
      → Uploads P u rel digest
      → length content < 2 ^ 64
      → Fits (header 1 sign) (length content)
      → send_file (length content + 2) 1 (some content) sign ≡ ok ms
      → ms ≢ []
  sent-some content ms b bounded fits h none_sent =
      let (pieces, sent, whole, within, nonempty) =
        send_file-Fits 1 content sign b.short bounded fits in
      frames-nonempty pieces nonempty
        (inj (frames (header 1 sign) pieces) (sym sent ∙ h ∙ ap ok none_sent))
    where
      inj : (xs : List Message) → ok xs ≡ ok [] → xs ≡ []
      inj xs p = cc

      frames-nonempty : (ps : List Bytes) → ps ≢ [] → frames (header 1 sign) ps ≢ []
      frames-nonempty [] n = absurd (n refl)
      frames-nonempty (p ∷ ps) n = frames-some (header 1 sign) p ps

  -- A client has a file with this content and no two entries for one path. Its task for a CREATE of the
  -- file is run, and the server has a session of a user who is authenticated and has listed his files,
  -- with no entry for the file's path and no stream open. If the digest is the one of the file and has
  -- no zero byte, the sign leaves room for ten bytes in a message, the file's length has 64 bits and
  -- leaves room for an END behind its full chunks, and no message before the last one passes
  -- `verify_end`; and if the client's writes end well and what arrives is what the server replies: then
  -- the task posts the file, the server serves its messages and has the file with this content and a
  -- synced entry with the digest, the client gets an OK, and its handler leaves the entry of the path
  -- synced, on the server and with the digest, and the other entries as they were. It relies on a file
  -- system where what is appended to a file that only this stream writes is what is read from it, on a
  -- regular expression that matches greedily, and on a path that is its own text.
  pub create-BackedUp :
      (content : Bytes) (c : Client P) (socket : Socket) (ends : List WriteEnd)
      (later : List Incoming) (entries : List (P.FsPath × SResource)) (streams : Streams P)
      (disk : P.Disk) (q : Queue)
      → P.read_file (P.join c.dir.path rel) c.disk ≡ contents content
      → NodupKeys c.dir.content
      → Uploads P u rel digest
      → digest ≡ md5_hash P (P.string rel ++ content)
      → length content < 2 ^ 64
      → Fits (header 1 sign) (length content)
      → Untouched P U entries streams disk
      → ((ms : List Message)
          → send_file (length content + 2) 1 (some content) sign ≡ ok ms
          → Unended ms)
      → BackedUp content c socket ends later (at P backup_root credentials U entries streams disk q)
  create-BackedUp content c socket ends later entries streams disk q r nodup b same bounded fits
        untouched unended =
      let (ms, sent, d) =
        send_file-Delivered P backup_root credentials U content entries streams disk q b same
          bounded fits untouched unended in
      let o = send_file-Opened (length content + 2) 1 (some content) sign ms sent in
      let waiting = pending P false digest in
      let inserted = λ (j : P.FsPath). insert_or_assign_lem rel j waiting c.dir nodup in
      let h =
        handle_create-Leaves rel sign none (ok_reply sign) waiting
          (insert_or_assign rel waiting c.dir).0 (inserted rel).2
          ((inserted rel).0 ∙ rw (beq_refl rel)) tt refl in
      record {
        client = record (enter P rel waiting c) {
          posted =
              c.posted
              ++ (record {
                kind = MsgType.create;
                relative_path = rel;
                sign = sign;
                body = file o.f;
              }
                  ∷ []);
        };
        ran = run_task-create content c ms r o;
        f = o.f;
        posted = refl;
        ms = ms;
        replies = echoes sign ms;
        entries = d.entries;
        streams = d.streams;
        disk = d.disk;
        queue = one_reply (accepted sign);
        served = d.served;
        complete = d.complete;
        reply = ok_reply sign;
        answered =
            async_post_file-echoes sign handle_reconnection (length content + 2) o.f socket ms ends
              later (sent-some content ms b bounded fits sent) o.chunks;
        dir = h.0;
        handled = h.1;
        entry = h.2;
        others = λ j n. h.3 j n ∙ (inserted j).0 ∙ rw n;
      }
