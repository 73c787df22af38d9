-- ===== src/Server/Handler/Moves/Changes.antt =====
-- What the handlers of UPDATE, ERASE and RETRIEVE do to a session.
use remote_backup_m.Prelude.{
  ℕ, suc, ◌+◌, not, ◌≡◌, refl, Bytes, List, length, Option, none, some, Outcome, ok, err, ◌==◌,
  ◌=?◌, bytes_eq, if◌then◌else◌, Eq, Post, Post-ok, Post-err, Post-if, Post-bind, Post-bind-on,
}
use remote_backup_m.Shared.Types.{MsgType, msg_code, TlvType, tlv_code, ErrType}
use remote_backup_m.Shared.Message.{Message}
use remote_backup_m.Shared.View.{View, tlv_type, value, next_is, verify_end}
use remote_backup_m.Shared.Platform.{Platform}
use remote_backup_m.Shared.Tools.{split_sign}
use remote_backup_m.Shared.Chunks.{FMessage, open_f_message, all_chunks, file_bytes}
use remote_backup_m.Shared.Dir.{Dir, rsrc, put}
use remote_backup_m.Shared.Dir
use remote_backup_m.Server.User.{dir}
use remote_backup_m.Server.Resource.{SResource}
use remote_backup_m.Server.Streams.{GetStream, get_stream}
use remote_backup_m.Server.Queue.{new_queue}
use remote_backup_m.Server.Session.{Session, refuse}
use remote_backup_m.Server.Handler.Upload.{
  handle_update, replace_file, temp_suffix, update_content, update_found, update_stream,
  update_write,
}
use remote_backup_m.Server.Handler.Remove.{
  handle_erase, erase_file, has_digest, remove_empty, handle_retrieve, retrieve_file, add_messages,
  file_of, is_exception,
}
use remote_backup_m.Server.Handler.Moves.{
  Moves, replies, files, directory, opens, Moves-accept, Moves-refuse, Moves-reply_tlv,
}
use remote_backup_m.Server.Handler.Moves.Files.{
  verify_upload-Moves, close_stream-Moves, note_chunk-Moves, got-Moves,
}

module _ (P : Platform) ⦃e : Eq P.FsPath⦄ (s : Session P) where
  replace_file-Moves :
      (temp_path absolute_path : P.FsPath) (t : Session P)
      → Moves P s t
      → Post (Moves P s) (replace_file P temp_path absolute_path t)
  unfolding replace_file
  replace_file-Moves temp_path absolute_path t m =
      let r = P.remove absolute_path t.disk in
      let q = P.rename temp_path absolute_path r.0 in
      Post-if r.1 (λ _. Post-err) (λ _. Post-if q.1 (λ _. Post-err) (λ _. Post-ok (files t q.0 m)))

  update_write-Moves :
      (g : GetStream P) (temp_path absolute_path relative_path : P.FsPath)
      (c_digest old_digest : Bytes) (v : View) (t : Session P)
      → Moves P s (record t { disk = g.disk; streams = g.streams })
      → Post
          (Moves P s)
          (update_write P g temp_path absolute_path relative_path c_digest old_digest v t)
  unfolding update_write
  update_write-Moves g temp_path absolute_path relative_path c_digest old_digest v t m =
      Post-bind (value v) λ chunk _.
        let w = P.write g.stream chunk g.disk in
        let stored = record t { disk = w.0; streams = put t.user.id w.1 g.streams } in
        Post-bind (verify_end v) λ is_last _.
          Post-bind-on
            (note_chunk-Moves P s g.inserted is_last relative_path c_digest old_digest stored
              (files _ w.0 (opens _ w.1 m)))
            λ noted n.
              Post-if is_last
                (λ _.
                  Post-bind-on
                    (replace_file-Moves temp_path absolute_path _
                      (close_stream-Moves P s w.1 noted n))
                    λ replaced n'.
                      verify_upload-Moves P s absolute_path relative_path c_digest
                        ErrType.update_no_match ErrType.update_failed replaced n')
                (λ _. Moves-accept P s noted n)

  update_stream-Moves :
      (temp_path absolute_path relative_path : P.FsPath) (c_digest old_digest : Bytes) (v : View)
      (t : Session P)
      → Moves P s t
      → Post
          (Moves P s)
          (update_stream P temp_path absolute_path relative_path c_digest old_digest v t)
  unfolding update_stream
  update_stream-Moves temp_path absolute_path relative_path c_digest old_digest v t m =
      split (get_stream P t.user.id temp_path t.disk t.streams) refl
    where
      split :
          (o : Option (GetStream P))
          → get_stream P t.user.id temp_path t.disk t.streams ≡ o
          → Post (Moves P s) (elim o [
            | none ↦ refuse P ErrType.update_failed t
            | some g ↦
                if not (P.good g.stream)
                then refuse P ErrType.update_failed
                    (record t { disk = g.disk; streams = g.streams })
                else update_write P g temp_path absolute_path relative_path c_digest old_digest v t
          ])
      split none h = Moves-refuse P s t ErrType.update_failed m
      split (some g) h =
          let got = got-Moves P s temp_path t g h m in
          Post-if (not (P.good g.stream)) (λ _. Moves-refuse P s _ ErrType.update_failed got)
            (λ _.
              update_write-Moves g temp_path absolute_path relative_path c_digest old_digest v t
                got)

  update_found-Moves :
      (relative_path : P.FsPath) (c_digest : Bytes) (v : View) (d : Dir P.FsPath SResource)
      (o : Option SResource) (t : Session P)
      → Moves P s t
      → Post (Moves P s) (update_found P relative_path c_digest v d o t)
  unfolding update_found
  update_found-Moves relative_path c_digest v d none t m =
      Moves-refuse P s t ErrType.update_not_exist m
  update_found-Moves relative_path c_digest v d (some r) t m =
      let absolute_path = P.join d.path relative_path in
      Post-if (r.digest =? c_digest) (λ _. Moves-refuse P s t ErrType.update_already_updated m)
        (λ _.
          update_stream-Moves (P.append_text absolute_path temp_suffix) absolute_path relative_path
            c_digest r.digest v t m)

  pub handle_update-Moves :
      (v : View) (t : Session P) → Moves P s t → Post (Moves P s) (handle_update P v t)
  unfolding handle_update update_content
  handle_update-Moves v t m = Post-bind (tlv_type v) λ x _.
      Post-if (not (x == tlv_code TlvType.item)) (λ _. Moves-refuse P s t ErrType.update_no_item m)
        (λ _. Post-bind (value v) λ c_sign _. Post-bind (split_sign P c_sign) λ c _.
          Post-bind-on (Moves-reply_tlv P s t TlvType.item c_sign m) λ t' m'.
            Post-bind (next_is TlvType.content v) λ r _.
              Post-if (not r.1) (λ _. Moves-refuse P s t' ErrType.update_no_content m')
                (λ _.
                  Post-bind (dir t'.user)
                    λ d _. update_found-Moves c.0 c.1 r.0 d (rsrc c.0 d) t' m'))

  erase_file-Moves :
      (relative_path : P.FsPath) (c_digest : Bytes) (t : Session P)
      → Moves P s t
      → Post (Moves P s) (erase_file P relative_path c_digest t)
  unfolding erase_file
  erase_file-Moves relative_path c_digest t m = Post-bind (dir t.user) λ d _.
      let absolute_path = P.join d.path relative_path in
      let r = P.remove absolute_path t.disk in
      let above = P.parent_path absolute_path in
      Post-if (not (has_digest P c_digest (rsrc relative_path d)))
        (λ _. Moves-refuse P s t ErrType.erase_no_match m)
        (λ _.
          Post-bind-on
            (Post-if r.1 (λ _. Moves-refuse P s _ ErrType.erase_failed (files t r.0 m))
              (λ _. Moves-accept P s _ (directory _ (Dir.erase relative_path d).0 (files t r.0 m))))
            λ closed n.
              Post-bind
                (remove_empty P (suc (length (P.string above))) d.path r.1 above closed.disk)
                λ swept _. Post-ok (files closed swept n))

  pub handle_erase-Moves :
      (v : View) (t : Session P) → Moves P s t → Post (Moves P s) (handle_erase P v t)
  unfolding handle_erase
  handle_erase-Moves v t m = Post-bind (tlv_type v) λ x _.
      Post-if (not (x == tlv_code TlvType.item)) (λ _. Moves-refuse P s t ErrType.erase_no_item m)
        (λ _. Post-bind (value v) λ c_sign _. Post-bind (split_sign P c_sign) λ c _.
          Post-bind-on (Moves-reply_tlv P s t TlvType.item c_sign m)
            λ t' m'. erase_file-Moves c.0 c.1 t' m')

  retrieve_file-Moves :
      (f : FMessage) (fuel : ℕ) (t : Session P)
      → Moves P s t
      → Post (Moves P s) (retrieve_file P f fuel t)
  unfolding retrieve_file
  retrieve_file-Moves f fuel t m = split (all_chunks fuel f)
    where
      fresh : Session P
      fresh = record t { replies = new_queue (msg_code MsgType.retrieve) }

      split :
          (r : Outcome (List Message))
          → Post (Moves P s) (elim r [
            | ok ms ↦ ok (record fresh { replies = add_messages ms fresh.replies })
            | err failure ↦
                if is_exception failure then refuse P ErrType.retrieve_failed fresh else err failure
          ])
      split (ok ms) = Post-ok (
          replies fresh (add_messages ms fresh.replies)
            (replies t (new_queue (msg_code MsgType.retrieve)) m))
      split (err failure) =
          Post-if (is_exception failure)
            (λ _.
              Moves-refuse P s fresh ErrType.retrieve_failed
                (replies t (new_queue (msg_code MsgType.retrieve)) m))
            (λ _. Post-err)

  pub handle_retrieve-Moves :
      (v : View) (t : Session P) → Moves P s t → Post (Moves P s) (handle_retrieve P v t)
  unfolding handle_retrieve
  handle_retrieve-Moves v t m = Post-bind (tlv_type v) λ x _.
      Post-if (not (x == tlv_code TlvType.item)) (λ _. Moves-refuse P s t ErrType.erase_no_item m)
        (λ _. Post-bind (value v) λ c_sign _. Post-bind (split_sign P c_sign) λ c _.
          Post-bind (dir t.user) λ d _.
            let file = file_of (P.read_file (P.join d.path c.0) t.disk) in
            Post-bind (open_f_message (msg_code MsgType.retrieve) file c_sign)
              λ f _. retrieve_file-Moves f (length (file_bytes file) + 2) t m)
