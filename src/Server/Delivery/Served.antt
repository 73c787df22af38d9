-- ===== src/Server/Delivery/Served.antt =====
-- One message of an upload, served.
use remote_backup_m.Prelude.{
  ◌+◌, ◌≤◌, ◌≡◌, refl, sym, ap, ◌∙◌, true, false, List, [], ◌∷◌, ◌++◌, append-nil, Bytes, length,
  Outcome, ok, Eq, arith,
}
use remote_backup_m.Shared.Message.{Message, Tlv, encode, encode_all}
use remote_backup_m.Shared.View.{view_of, value, verify_end}
use remote_backup_m.Shared.Platform.{Platform}
use remote_backup_m.Shared.Tools.{create_sign, split_sign}
use remote_backup_m.Shared.Tools.Sign.{IsGreedy, NoZero, split_sign-create_sign}
use remote_backup_m.Shared.Chunks.{chunk_size}
use remote_backup_m.Shared.Chunks.Step.{content_tlv, end_tlv, middle_frame, last_frame}
use remote_backup_m.Shared.Chunks.Transfer.{header}
use remote_backup_m.Shared.Chunks.Ends.{verify_end-last_frame}
use remote_backup_m.Server.Resource.{SResource}
use remote_backup_m.Server.User.{User}
use remote_backup_m.Server.Streams.{Streams}
use remote_backup_m.Server.Queue.{Queue}
use remote_backup_m.Server.Queue
use remote_backup_m.Server.Session.{Session, accept}
use remote_backup_m.Server.Handler.{handle_request}
use remote_backup_m.Server.Handler.Upload.{create_content}
use remote_backup_m.Server.Delivery.{serve_all}
use remote_backup_m.Server.Delivery.Middle.{Continues}
use remote_backup_m.Server.Delivery.Last.{Completes}
use remote_backup_m.Server.Delivery.Chunk.{Upload, session, Going, Complete}
use remote_backup_m.Server.Delivery.Reply.{sign_tlv, one_reply, accepted, echoes, accept-one_reply}
use remote_backup_m.Server.Delivery.Request.{
  content_view, verify_end-content_view, value-content, handle_request-content,
}

-- What the upload relies on of the user, the file's name and its sign.
pub record Uploads (P : Platform) (u : User P.FsPath) (rel : P.FsPath) (digest : Bytes)
    : Type 0 where
  pub greedy : IsGreedy P
  pub same_path : P.path (P.string rel) ≡ rel
  pub no_zero : NoZero digest
  pub short : length (create_sign P rel digest) + 10 ≤ chunk_size
  pub auth : u.auth ≡ true
  pub synced : u.synced ≡ true

module _ (P : Platform) ⦃e : Eq P.FsPath⦄ (backup_root credentials : P.FsPath) (U : Upload P) where
  open U use {u, rel, digest}

  abbrev pub sign : Bytes
  sign = create_sign P rel digest

  abbrev pub at : List (P.FsPath × SResource) → Streams P → P.Disk → Queue → Session P
  at c streams disk q = session P U c streams disk q

  -- The messages are served: the entry of the file is synced with the digest, the other entries are as
  -- they were, the user has no stream open, the file has this content, and each message had its reply.
  pub record Delivered (content : Bytes) (ms : List Message)
      (r : Outcome (List (List Message) × Session P)) : Type 0 where
    pub entries : List (P.FsPath × SResource)
    pub streams : Streams P
    pub disk : P.Disk
    pub served : r ≡ ok (echoes sign ms, at entries streams disk (one_reply (accepted sign)))
    pub complete : Complete P U entries streams disk content

  -- The replies with the sign.
  abbrev pub begun : Queue
  begun = one_reply (sign_tlv sign ∷ [])

  -- A message with a chunk, given what its content does.
  request :
      (b : Uploads P u rel digest) (m : Message) (p : Bytes) (rest : List Tlv)
      (c c' : List (P.FsPath × SResource)) (streams streams' : Streams P) (disk disk' : P.Disk)
      (q : Queue)
      → m.raw ≡ 1 ∷ encode_all (sign_tlv sign ∷ content_tlv p ∷ rest)
      → create_content P rel digest (content_view m sign p) (at c streams disk begun)
        ≡ accept P (at c' streams' disk' begun)
      → handle_request P backup_root credentials m (at c streams disk q)
        ≡ ok (at c' streams' disk' (one_reply (accepted sign)))
  request b m p rest c c' streams streams' disk disk' q w served =
      let split : split_sign P sign ≡ ok (rel, digest) =
        split_sign-create_sign P rel digest b.greedy b.no_zero
        ∙ ap (λ r. ok (r, digest)) b.same_path in
      let short : length sign + 10 ≤ Queue.chunk_size = omega (arith, b.short) in
      handle_request-content m 1 sign p rest w P backup_root credentials rel digest
        (at c streams disk q) short refl b.auth b.synced split
      ∙ served
      ∙ accept-one_reply sign short P (at c' streams' disk' begun)

  serve_all-cons :
      (m : Message) (ms : List Message) (s s' : Session P) (replies : List (List Message))
      (s'' : Session P)
      → handle_request P backup_root credentials m s ≡ ok s'
      → serve_all P backup_root credentials ms s' ≡ ok (replies, s'')
      → serve_all P backup_root credentials (m ∷ ms) s ≡ ok (s'.replies.msgs ∷ replies, s'')
  unfolding serve_all
  serve_all-cons m ms s s' replies s'' h k = rw (h, k)

  serve_all-nil : (s : Session P) → serve_all P backup_root credentials [] s ≡ ok ([], s)
  unfolding serve_all
  serve_all-nil s = refl

  abbrev pub H : Bytes
  H = header 1 sign

  middle-raw :
      (p : Bytes) → (middle_frame H p).raw ≡ 1 ∷ encode_all (sign_tlv sign ∷ content_tlv p ∷ [])
  middle-raw p = ap (λ b. H ++ b) (sym (append-nil (encode (content_tlv p))))

  -- The last message, in either state.
  pub last_served :
      (b : Uploads P u rel digest) (c : List (P.FsPath × SResource)) (streams : Streams P)
      (disk : P.Disk) (q : Queue) (content p : Bytes)
      → Completes P U c streams disk content (content_view (last_frame H p) sign p) begun
      → Delivered content
          (last_frame H p ∷ [])
          (serve_all P backup_root credentials (last_frame H p ∷ []) (at c streams disk q))
  last_served b c streams disk q content p done = record {
    entries = done.entries;
    streams = done.streams';
    disk = done.disk';
    served =
        serve_all-cons (last_frame H p) [] _ _ [] _
          (request b (last_frame H p) p (end_tlv ∷ []) c done.entries streams done.streams' disk
            done.disk' q refl done.served)
          (serve_all-nil _);
    complete = done.complete;
  }

  -- A message before the last, in either state.
  pub middle_served :
      (b : Uploads P u rel digest) (c : List (P.FsPath × SResource)) (streams : Streams P)
      (disk : P.Disk) (q : Queue) (bytes content p : Bytes) (ms : List Message)
      → Continues P U c streams disk bytes (content_view (middle_frame H p) sign p) begun
      → ((c' : List (P.FsPath × SResource)) (streams' : Streams P) (disk' : P.Disk) (q' : Queue)
          → Going P U c' streams' disk' bytes
          → Delivered content ms (serve_all P backup_root credentials ms (at c' streams' disk' q')))
      → Delivered content
          (middle_frame H p ∷ ms)
          (serve_all P backup_root credentials (middle_frame H p ∷ ms) (at c streams disk q))
  middle_served b c streams disk q bytes content p ms on later =
      let d = later on.entries on.streams' on.disk' (one_reply (accepted sign)) on.going in
      record {
        entries = d.entries;
        streams = d.streams;
        disk = d.disk;
        served =
            serve_all-cons (middle_frame H p) ms _ _ (echoes sign ms) _
              (request b (middle_frame H p) p [] c on.entries streams on.streams' disk on.disk' q
                (middle-raw p) on.served)
              d.served;
        complete = d.complete;
      }

  pub shown_last : (p : Bytes) → value (content_view (last_frame H p) sign p) ≡ ok p
  shown_last p = value-content (last_frame H p) 1 sign p (end_tlv ∷ []) refl

  pub shown_middle : (p : Bytes) → value (content_view (middle_frame H p) sign p) ≡ ok p
  shown_middle p = value-content (middle_frame H p) 1 sign p [] (middle-raw p)

  pub ends_last : (p : Bytes) → verify_end (content_view (last_frame H p) sign p) ≡ ok true
  ends_last p = verify_end-content_view (last_frame H p) sign p ∙ verify_end-last_frame H p

  pub ends_middle :
      (p : Bytes)
      → verify_end (view_of (middle_frame H p)) ≡ ok false
      → verify_end (content_view (middle_frame H p) sign p) ≡ ok false
  ends_middle p h = verify_end-content_view (middle_frame H p) sign p ∙ h
