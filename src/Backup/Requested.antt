-- ===== src/Backup/Requested.antt =====
-- What the server replies to the RETRIEVE of a file that it has.
use remote_backup_m.Prelude.{
  ℕ, ◌+◌, ◌≡◌, sym, ap, ◌∙◌, ◌≤◌, true, List, [], ◌∷◌, ◌++◌, append_assoc, append-nil, deref, Bytes,
  length, some, ok, Eq, arith,
}
use remote_backup_m.Shared.Types.{MsgType, msg_code, TlvType, tlv_code}
use remote_backup_m.Shared.Message.{
  Message, encode, encode_all, new_message, add_tlv, add_tlv-raw, msg_type-cons,
}
use remote_backup_m.Shared.View.{View, view_of, tlv_type}
use remote_backup_m.Shared.View.Walk.{view_of-Rest, shift, next_tlv-encode, shift-Shows}
use remote_backup_m.Shared.Platform.{Platform, contents}
use remote_backup_m.Shared.Tools.{split_sign}
use remote_backup_m.Shared.Dir.{Dir}
use remote_backup_m.Shared.Chunks.{FMessage, chunk_size, all_chunks}
use remote_backup_m.Shared.Chunks.Step.{end_tlv}
use remote_backup_m.Shared.Chunks.Transfer.{send_file}
use remote_backup_m.Server.Resource.{SResource}
use remote_backup_m.Server.User.{dir}
use remote_backup_m.Server.Session.{Session}
use remote_backup_m.Server.Queue.{Queue, new_queue, add_message}
use remote_backup_m.Server.Handler.Remove.{handle_retrieve, retrieve_file, add_messages}
use remote_backup_m.Server.Handler.{handle_request, dispatch, handle_synced}
use remote_backup_m.Client.Incoming.Joined.{item}
use remote_backup_m.Client.Retrieve.{retrieve_request}
use remote_backup_m.Backup.Exchanges.{send_file-Opened}

add_messages-msgs :
    (ms : List Message) (q : Queue) → add_messages ms q ≡ record q { msgs = q.msgs ++ ms }
unfolding add_message
add_messages-msgs [] q = ap (λ x. record q { msgs = x }) (sym (append-nil q.msgs))
add_messages-msgs (m ∷ ms) q =
    add_messages-msgs ms (add_message m q)
    ∙ ap (λ x. record q { msgs = x }) (append_assoc q.msgs (m ∷ []) ms)

retrieve_request-raw :
    (sign : Bytes)
    → length sign + 10 ≤ chunk_size
    → (retrieve_request sign).raw
      ≡ msg_code MsgType.retrieve ∷ encode_all (item sign ∷ end_tlv ∷ [])
unfolding retrieve_request new_message
retrieve_request-raw sign short =
    let m = new_message (msg_code MsgType.retrieve) in
    let with_item = add_tlv (tlv_code TlvType.item) (length sign) sign m in
    add_tlv-raw end_tlv with_item (omega arith, omega arith)
    ∙ ap (λ x. x ++ encode end_tlv) (add_tlv-raw (item sign) m (omega arith, omega arith))
    ∙ append_assoc (msg_code MsgType.retrieve ∷ []) (encode (item sign)) (encode end_tlv)

-- The queue of a RETRIEVE with these messages.
abbrev pub file_queue : List Message → Queue
file_queue ms = record (new_queue (msg_code MsgType.retrieve)) { msgs = ms }

module _ (P : Platform) ⦃e : Eq P.FsPath⦄ (root credentials : P.FsPath) where
  dispatch-retrieve :
      (v : View) (s : Session P)
      → s.user.auth ≡ true
      → s.user.synced ≡ true
      → dispatch P root credentials (msg_code MsgType.retrieve) v s ≡ handle_retrieve P v s
  unfolding dispatch handle_synced
  dispatch-retrieve v s a b = ground arith

  retrieve_file-sent :
      (f : FMessage) (n : ℕ) (s : Session P) (ms : List Message)
      → all_chunks n f ≡ ok ms
      → retrieve_file P f n s ≡ ok (record s { replies = file_queue ms })
  unfolding retrieve_file new_queue
  retrieve_file-sent f n s ms h =
      rw (retrieve_file, h, add_messages-msgs ms (new_queue (msg_code MsgType.retrieve)))

  -- The reply to a RETRIEVE is the messages of the file, and nothing else of the session changes.
  pub handle_request-sent :
      (content sign digest : Bytes) (rel : P.FsPath) (d : Dir P.FsPath SResource) (s : Session P)
      (ms : List Message)
      → s.user.auth ≡ true
      → s.user.synced ≡ true
      → s.user.dir_ptr ≡ some d
      → split_sign P sign ≡ ok (rel, digest)
      → P.read_file (P.join d.path rel) s.disk ≡ contents content
      → length sign + 10 ≤ chunk_size
      → send_file (length content + 2) (msg_code MsgType.retrieve) (some content) sign ≡ ok ms
      → handle_request P root credentials (retrieve_request sign) s
        ≡ ok (record s { replies = file_queue ms })
  unfolding handle_request handle_retrieve tlv_type dir
  handle_request-sent content sign digest rel d s ms auth synced has_dir split r short sent =
      let o =
        send_file-Opened (length content + 2) (msg_code MsgType.retrieve) (some content) sign ms
          sent in
      let w = retrieve_request-raw sign short in
      let v = view_of (retrieve_request sign) in
      let rest = encode_all (end_tlv ∷ []) in
      let start = view_of-Rest (retrieve_request sign) _ (encode (item sign) ++ rest) w in
      let fresh : Session P = record s { replies = new_queue (msg_code MsgType.retrieve) } in
      rw
        (
          msg_type-cons (retrieve_request sign) _ (encode (item sign) ++ rest) w,
          next_tlv-encode v (item sign) rest start,
          dispatch-retrieve (shift v (item sign)) fresh auth synced,
          handle_retrieve,
          (shift-Shows v (item sign) rest start).shown,
          split,
          ap deref has_dir,
          r,
          o.opened,
        )
        (retrieve_file-sent o.f (length content + 2) fresh ms o.chunks)
