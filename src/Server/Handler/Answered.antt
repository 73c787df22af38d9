-- ===== src/Server/Handler/Answered.antt =====
-- A request that is served leaves a reply in the queue: what the handlers share, AUTH, LIST and
-- RETRIEVE.
pub mod Files
pub mod Any
use remote_backup_m.Prelude.{
  ℕ, zero, suc, ◌+◌, ◌<◌, ◌≡◌, ◌≢◌, refl, Bool, true, false, not, List, [], ◌∷◌, ◌++◌, Bytes,
  length, take, Option, none, some, Outcome, ok, err, ◌>>=◌, ◌==◌, ◌=?◌, bytes_eq, length_error,
  if◌then◌else◌, Eq, Post, Post-ok, Post-err, Post-if, Post-bind, arith,
}
use remote_backup_m.Shared.Types.{MsgType, msg_code, TlvType, tlv_code, ErrType}
use remote_backup_m.Shared.Decimal.{stoi}
use remote_backup_m.Shared.Message.{Message}
use remote_backup_m.Shared.View.{View, tlv_type, value, next_is, verify_end}
use remote_backup_m.Shared.Platform.{Platform}
use remote_backup_m.Shared.Tools.{
  Digest, hashed, too_long, filesystem_error, md5_file, verify_password, split_sign,
}
use remote_backup_m.Shared.Dir.{Dir}
use remote_backup_m.Shared.Chunks.More.{all_chunks-some, open_f_message-unfinished}
use remote_backup_m.Shared.Chunks.{
  FMessage, open_f_message, all_chunks, next_chunk, middle_chunk, last_chunk, read_chunk, poke,
  file_bytes,
}
use remote_backup_m.Server.User.{dir}
use remote_backup_m.Server.Resource.{SResource}
use remote_backup_m.Server.Streams.{GetStream, get_stream}
use remote_backup_m.Server.Queue.{Queue, new_queue, push_tlv, note_error, add_tlv, add_message}
use remote_backup_m.Server.Session.{
  Session, close_response, error_text, dangling, close, accept, refuse,
}
use remote_backup_m.Server.Handler.Auth.{
  handle_auth, check_password, authenticated, handle_list, list_files, finish_list, ListEnd, listed,
  repeated, raised,
}
use remote_backup_m.Server.Handler.Upload.{
  handle_create, handle_update, create_content, create_stream, create_write, update_content,
  update_found, update_stream, update_write, verify_upload, discard,
}
use remote_backup_m.Server.Handler.Remove.{
  handle_erase, erase_file, handle_retrieve, retrieve_file, add_messages, file_of, is_exception,
}
use remote_backup_m.Server.Handler.{handle_request, dispatch, handle_synced}

abbrev pub Answers : Queue → Type 0
Answers q = q.msgs ≢ []

append-Cons : (ms : List Message) (m : Message) → ms ++ (m ∷ []) ≢ []
append-Cons [] m e = cc
append-Cons (n ∷ ms) m e = cc

push_tlv-Answers :
    (msg_type tlv_type len : ℕ) (buffer : Bytes) (ms : List Message)
    → Post (λ ns. ns ≢ []) (push_tlv msg_type tlv_type len buffer ms)
unfolding push_tlv
push_tlv-Answers msg_type tlv_type len buffer [] = Post-err
push_tlv-Answers msg_type tlv_type len buffer (m ∷ []) = Post-ok (λ e. ground arith)
push_tlv-Answers msg_type tlv_type len buffer (m ∷ n ∷ ms) =
    Post-bind (push_tlv msg_type tlv_type len buffer (n ∷ ms)) λ rest _. Post-ok (λ e. cc)

add_tlv-Answers :
    (tlv_type len : ℕ) (buffer : Bytes) (q : Queue) → Post Answers (add_tlv tlv_type len buffer q)
unfolding add_tlv note_error
add_tlv-Answers tlv_type len buffer q =
    Post-bind (push_tlv q.msg_type tlv_type len buffer q.msgs) λ ms h.
      let n = (push_tlv-Answers q.msg_type tlv_type len buffer q.msgs).get ms h in
      Post-if (tlv_type == tlv_code TlvType.error)
        (λ _. Post-bind (stoi (take len buffer)) λ code _. Post-ok n) (λ _. Post-ok n)

close_response-Answers :
    (P : Platform) (tlv : TlvType) (err_type : ErrType) (q : Queue)
    → Post Answers (close_response P tlv err_type q)
unfolding close_response
close_response-Answers P tlv err_type q =
    Post-bind (add_tlv (tlv_code tlv) (length (error_text err_type)) (dangling P err_type) q)
      λ closed _. add_tlv-Answers (tlv_code TlvType.end) 0 [] closed

module _ (P : Platform) where
  abbrev pub Answered : Session P → Type 0
  Answered s = Answers s.replies

  close-Answered : (tlv : TlvType) (e : ErrType) (s : Session P) → Post Answered (close P tlv e s)
  unfolding close
  close-Answered tlv e s =
      Post-bind (close_response P tlv e s.replies)
        λ q h. Post-ok ((close_response-Answers P tlv e s.replies).get q h)

  pub accept-Answered : (s : Session P) → Post Answered (accept P s)
  unfolding accept
  accept-Answered s = close-Answered TlvType.ok ErrType.none s

  pub refuse-Answered : (e : ErrType) (s : Session P) → Post Answered (refuse P e s)
  unfolding refuse
  refuse-Answered e s = close-Answered TlvType.error e s

  check_password-Answered :
      (root credentials : P.FsPath) (username password : Bytes) (s : Session P)
      → Post Answered (check_password P root credentials username password s)
  unfolding check_password
  check_password-Answered root credentials username password s =
      Post-bind (verify_password P credentials username password s.disk) λ verified _.
        Post-if verified
          (λ _.
            accept-Answered (record s { user = authenticated P root credentials username s.user }))
          (λ _. refuse-Answered ErrType.auth_failed s)

  pub handle_auth-Answered :
      (root credentials : P.FsPath) (v : View) (s : Session P)
      → Post Answered (handle_auth P root credentials v s)
  unfolding handle_auth
  handle_auth-Answered root credentials v s = Post-bind (tlv_type v) λ t _.
      Post-if (not (t == tlv_code TlvType.usrn)) (λ _. refuse-Answered ErrType.auth_no_usrn s)
        (λ _. Post-bind (value v) λ username _. Post-bind (next_is TlvType.pswd v) λ r _.
          Post-if (not r.1) (λ _. refuse-Answered ErrType.auth_no_pswd s)
            (λ _.
              Post-bind (value r.0)
                λ password _. check_password-Answered root credentials username password s))

  add_messages-Answers : (ms : List Message) (q : Queue) → Answers q → Answers (add_messages ms q)
  unfolding add_message
  add_messages-Answers [] q n = n
  add_messages-Answers (m ∷ ms) q n =
      add_messages-Answers ms (add_message m q) (append-Cons q.msgs m)

  add_messages-some : (ms : List Message) (q : Queue) → ms ≢ [] → Answers (add_messages ms q)
  unfolding add_message
  add_messages-some [] q n = absurd (n refl)
  add_messages-some (m ∷ ms) q n = add_messages-Answers ms (add_message m q) (append-Cons q.msgs m)

  retrieve_file-Answered :
      (f : FMessage) (fuel : ℕ) (s : Session P)
      → f.completed ≡ false
      → 0 < fuel
      → Post Answered (retrieve_file P f fuel s)
  unfolding retrieve_file
  retrieve_file-Answered f fuel s c l = split (all_chunks fuel f) (all_chunks-some fuel f c l)
    where
      fresh : Session P
      fresh = record s { replies = new_queue (msg_code MsgType.retrieve) }

      split :
          (r : Outcome (List Message))
          → Post (λ ms. ms ≢ []) r
          → Post Answered (elim r [
            | ok ms ↦ ok (record fresh { replies = add_messages ms fresh.replies })
            | err failure ↦
                if is_exception failure then refuse P ErrType.retrieve_failed fresh else err failure
          ])
      split (ok ms) q = Post-ok (add_messages-some ms fresh.replies (q.get ms refl))
      split (err failure) q =
          Post-if (is_exception failure) (λ _. refuse-Answered ErrType.retrieve_failed fresh)
            (λ _. Post-err)

  pub handle_retrieve-Answered : (v : View) (s : Session P) → Post Answered (handle_retrieve P v s)
  unfolding handle_retrieve
  handle_retrieve-Answered v s = Post-bind (tlv_type v) λ t _.
      Post-if (not (t == tlv_code TlvType.item)) (λ _. refuse-Answered ErrType.erase_no_item s)
        (λ _. Post-bind (value v) λ c_sign _. Post-bind (split_sign P c_sign) λ c _.
          Post-bind (dir s.user) λ d _.
            let file = file_of (P.read_file (P.join d.path c.0) s.disk) in
            Post-bind (open_f_message (msg_code MsgType.retrieve) file c_sign) λ f h.
              retrieve_file-Answered f (length (file_bytes file) + 2) s
                ((open_f_message-unfinished (msg_code MsgType.retrieve) file c_sign).get f h)
                (omega arith))

module _ (P : Platform) ⦃e : Eq P.FsPath⦄ where
  finish_list-Answered : (r : ListEnd P) → Post (Answered P) (finish_list P r)
  unfolding finish_list
  finish_list-Answered (listed s) = accept-Answered P _
  finish_list-Answered (repeated s) = Post-bind (dir s.user) λ d _. refuse-Answered P _ _
  finish_list-Answered (raised s) = Post-bind (dir s.user) λ d _. refuse-Answered P _ _

  pub handle_list-Answered : (s : Session P) → Post (Answered P) (handle_list P s)
  unfolding handle_list
  handle_list-Answered s = Post-bind (dir s.user) λ d _.
      let files = P.regular_files d.path s.disk in
      Post-bind (list_files P (length (P.string d.path)) files.1 files.0 s)
        λ r _. finish_list-Answered r
