-- ===== src/Server/Handler/Answered/Files.antt =====
-- A request that is served leaves a reply in the queue: CREATE, UPDATE and ERASE.
use remote_backup_m.Prelude.{
  suc, not, Bytes, length, Option, none, some, err, ◌==◌, ◌=?◌, bytes_eq, length_error,
  if◌then◌else◌, Eq, Post, Post-ok, Post-err, Post-if, Post-bind, Post-bind-on,
}
use remote_backup_m.Shared.Types.{TlvType, tlv_code, ErrType}
use remote_backup_m.Shared.View.{View, tlv_type, value, next_is, verify_end}
use remote_backup_m.Shared.Platform.{Platform}
use remote_backup_m.Shared.Tools.{Digest, hashed, too_long, filesystem_error, md5_file, split_sign}
use remote_backup_m.Shared.Dir.{Dir, rsrc, put}
use remote_backup_m.Shared.Dir
use remote_backup_m.Server.User.{dir}
use remote_backup_m.Server.Resource.{SResource}
use remote_backup_m.Server.Streams.{GetStream, get_stream}
use remote_backup_m.Server.Session.{Session, reply_tlv, with_dir, accept, refuse}
use remote_backup_m.Server.Handler.Upload.{
  handle_create, handle_update, update_content, note_chunk, close_stream, replace_file, temp_digest,
  temp_suffix, is_synced, create_content, create_stream, create_write, update_content, update_found,
  update_stream, update_write, verify_upload, discard,
}
use remote_backup_m.Server.Handler.Remove.{handle_erase, erase_file, has_digest, remove_empty}
use remote_backup_m.Server.Handler.Answered.{Answered, accept-Answered, refuse-Answered}

module _ (P : Platform) ⦃e : Eq P.FsPath⦄ where
  discard-Answered :
      (absolute_path relative_path : P.FsPath) (err_type : ErrType) (s : Session P)
      → Post (Answered P) (discard P absolute_path relative_path err_type s)
  unfolding discard
  discard-Answered absolute_path relative_path err_type s =
      let r = P.remove absolute_path s.disk in
      Post-if r.1 (λ _. Post-err) (λ _. Post-bind (dir s.user) λ d _. refuse-Answered P err_type _)

  verify_upload-Answered :
      (absolute_path relative_path : P.FsPath) (c_digest : Bytes) (no_match failed : ErrType)
      (s : Session P)
      → Post (Answered P) (verify_upload P absolute_path relative_path c_digest no_match failed s)
  unfolding verify_upload
  verify_upload-Answered absolute_path relative_path c_digest no_match failed s =
      split (md5_file P absolute_path relative_path s.disk)
    where
      split :
          (r : Digest)
          → Post (Answered P) (elim r [
            | hashed s_digest ↦
                if s_digest =? c_digest
                then accept P s
                else discard P absolute_path relative_path no_match s
            | too_long ↦ err length_error
            | filesystem_error ↦ discard P absolute_path relative_path failed s
          ])
      split (hashed s_digest) =
          Post-if (s_digest =? c_digest) (λ _. accept-Answered P s)
            (λ _. discard-Answered absolute_path relative_path no_match s)
      split too_long = Post-err
      split filesystem_error = discard-Answered absolute_path relative_path failed s

  create_write-Answered :
      (g : GetStream P) (absolute_path relative_path : P.FsPath) (c_digest : Bytes) (v : View)
      (s : Session P)
      → Post (Answered P) (create_write P g absolute_path relative_path c_digest v s)
  unfolding create_write
  create_write-Answered g absolute_path relative_path c_digest v s = Post-bind (value v) λ chunk _.
      let w = P.write g.stream chunk g.disk in
      let f = P.flush w.1 w.0 in
      let stored = record s { disk = f.0; streams = put s.user.id f.1 g.streams } in
      Post-bind (verify_end v) λ is_last _.
        Post-bind (note_chunk P g.inserted is_last relative_path c_digest temp_digest stored)
          λ noted _.
            Post-if is_last
              (λ _.
                verify_upload-Answered absolute_path relative_path c_digest ErrType.create_no_match
                  ErrType.create_failed (close_stream P f.1 noted))
              (λ _. accept-Answered P noted)

  create_stream-Answered :
      (absolute_path relative_path : P.FsPath) (c_digest : Bytes) (v : View) (s : Session P)
      → Post (Answered P) (create_stream P absolute_path relative_path c_digest v s)
  unfolding create_stream
  create_stream-Answered absolute_path relative_path c_digest v s =
      split (get_stream P s.user.id absolute_path s.disk s.streams)
    where
      split :
          (o : Option (GetStream P))
          → Post (Answered P) (elim o [
            | none ↦ refuse P ErrType.create_failed s
            | some g ↦
                if not (P.good g.stream)
                then refuse P ErrType.create_failed
                    (record s { disk = g.disk; streams = g.streams })
                else create_write P g absolute_path relative_path c_digest v s
          ])
      split none = refuse-Answered P ErrType.create_failed s
      split (some g) =
          Post-if (not (P.good g.stream)) (λ _. refuse-Answered P ErrType.create_failed _)
            (λ _. create_write-Answered g absolute_path relative_path c_digest v s)

  create_content-Answered :
      (relative_path : P.FsPath) (c_digest : Bytes) (v : View) (s : Session P)
      → Post (Answered P) (create_content P relative_path c_digest v s)
  unfolding create_content
  create_content-Answered relative_path c_digest v s = Post-bind (dir s.user) λ d _.
      let absolute_path = P.join d.path relative_path in
      let r = P.create_directories (P.parent_path absolute_path) s.disk in
      Post-if (is_synced P (rsrc relative_path d))
        (λ _. refuse-Answered P ErrType.create_already_exist s)
        (λ _.
          Post-if r.1 (λ _. refuse-Answered P ErrType.create_failed _)
            (λ _.
              create_stream-Answered absolute_path relative_path c_digest v
                (record s { disk = r.0 })))

  pub handle_create-Answered : (v : View) (s : Session P) → Post (Answered P) (handle_create P v s)
  unfolding handle_create
  handle_create-Answered v s = Post-bind (tlv_type v) λ t _.
      Post-if (not (t == tlv_code TlvType.item)) (λ _. refuse-Answered P ErrType.create_no_item s)
        (λ _. Post-bind (value v) λ c_sign _. Post-bind (split_sign P c_sign) λ c _.
          Post-bind (reply_tlv P TlvType.item c_sign s) λ s' _.
            Post-bind (next_is TlvType.content v) λ r _.
              Post-if (not r.1) (λ _. refuse-Answered P ErrType.create_no_content s')
                (λ _. create_content-Answered c.0 c.1 r.0 s'))

  update_write-Answered :
      (g : GetStream P) (temp_path absolute_path relative_path : P.FsPath)
      (c_digest old_digest : Bytes) (v : View) (s : Session P)
      → Post
          (Answered P)
          (update_write P g temp_path absolute_path relative_path c_digest old_digest v s)
  unfolding update_write
  update_write-Answered g temp_path absolute_path relative_path c_digest old_digest v s =
      Post-bind (value v) λ chunk _.
        let w = P.write g.stream chunk g.disk in
        let stored = record s { disk = w.0; streams = put s.user.id w.1 g.streams } in
        Post-bind (verify_end v) λ is_last _.
          Post-bind (note_chunk P g.inserted is_last relative_path c_digest old_digest stored)
            λ noted _.
              Post-if is_last
                (λ _.
                  Post-bind (replace_file P temp_path absolute_path (close_stream P w.1 noted))
                    λ replaced _.
                      verify_upload-Answered absolute_path relative_path c_digest
                        ErrType.update_no_match ErrType.update_failed replaced)
                (λ _. accept-Answered P noted)

  update_stream-Answered :
      (temp_path absolute_path relative_path : P.FsPath) (c_digest old_digest : Bytes) (v : View)
      (s : Session P)
      → Post
          (Answered P)
          (update_stream P temp_path absolute_path relative_path c_digest old_digest v s)
  unfolding update_stream
  update_stream-Answered temp_path absolute_path relative_path c_digest old_digest v s =
      split (get_stream P s.user.id temp_path s.disk s.streams)
    where
      split :
          (o : Option (GetStream P))
          → Post (Answered P) (elim o [
            | none ↦ refuse P ErrType.update_failed s
            | some g ↦
                if not (P.good g.stream)
                then refuse P ErrType.update_failed
                    (record s { disk = g.disk; streams = g.streams })
                else update_write P g temp_path absolute_path relative_path c_digest old_digest v s
          ])
      split none = refuse-Answered P ErrType.update_failed s
      split (some g) =
          Post-if (not (P.good g.stream)) (λ _. refuse-Answered P ErrType.update_failed _)
            (λ _.
              update_write-Answered g temp_path absolute_path relative_path c_digest old_digest v s)

  update_found-Answered :
      (relative_path : P.FsPath) (c_digest : Bytes) (v : View) (d : Dir P.FsPath SResource)
      (o : Option SResource) (s : Session P)
      → Post (Answered P) (update_found P relative_path c_digest v d o s)
  unfolding update_found
  update_found-Answered relative_path c_digest v d none s =
      refuse-Answered P ErrType.update_not_exist s
  update_found-Answered relative_path c_digest v d (some r) s =
      let absolute_path = P.join d.path relative_path in
      Post-if (r.digest =? c_digest) (λ _. refuse-Answered P ErrType.update_already_updated s)
        (λ _.
          update_stream-Answered (P.append_text absolute_path temp_suffix) absolute_path
            relative_path c_digest r.digest v s)

  pub handle_update-Answered : (v : View) (s : Session P) → Post (Answered P) (handle_update P v s)
  unfolding handle_update update_content
  handle_update-Answered v s = Post-bind (tlv_type v) λ t _.
      Post-if (not (t == tlv_code TlvType.item)) (λ _. refuse-Answered P ErrType.update_no_item s)
        (λ _. Post-bind (value v) λ c_sign _. Post-bind (split_sign P c_sign) λ c _.
          Post-bind (reply_tlv P TlvType.item c_sign s) λ s' _.
            Post-bind (next_is TlvType.content v) λ r _.
              Post-if (not r.1) (λ _. refuse-Answered P ErrType.update_no_content s')
                (λ _.
                  Post-bind (dir s'.user)
                    λ d _. update_found-Answered c.0 c.1 r.0 d (rsrc c.0 d) s'))

  erase_file-Answered :
      (relative_path : P.FsPath) (c_digest : Bytes) (s : Session P)
      → Post (Answered P) (erase_file P relative_path c_digest s)
  unfolding erase_file
  erase_file-Answered relative_path c_digest s = Post-bind (dir s.user) λ d _.
      let absolute_path = P.join d.path relative_path in
      let r = P.remove absolute_path s.disk in
      let above = P.parent_path absolute_path in
      Post-if (not (has_digest P c_digest (rsrc relative_path d)))
        (λ _. refuse-Answered P ErrType.erase_no_match s)
        (λ _.
          Post-bind-on
            (Post-if r.1 (λ _. refuse-Answered P ErrType.erase_failed (record s { disk = r.0 }))
              (λ _.
                accept-Answered P
                  (with_dir P (Dir.erase relative_path d).0 (record s { disk = r.0 }))))
            λ closed n.
              Post-bind
                (remove_empty P (suc (length (P.string above))) d.path r.1 above closed.disk)
                λ swept _. Post-ok n)

  pub handle_erase-Answered : (v : View) (s : Session P) → Post (Answered P) (handle_erase P v s)
  unfolding handle_erase
  handle_erase-Answered v s = Post-bind (tlv_type v) λ t _.
      Post-if (not (t == tlv_code TlvType.item)) (λ _. refuse-Answered P ErrType.erase_no_item s)
        (λ _. Post-bind (value v) λ c_sign _. Post-bind (split_sign P c_sign) λ c _.
          Post-bind (reply_tlv P TlvType.item c_sign s) λ s' _. erase_file-Answered c.0 c.1 s')
