-- ===== src/Server/Handler/Moves/Files.antt =====
-- What the handlers of CREATE, UPDATE and ERASE do to a session.
use remote_backup_m.Prelude.{
  not, ◌≡◌, refl, Bool, true, false, Bytes, Option, none, some, err, ◌==◌, ◌=?◌, bytes_eq,
  length_error, subst, if◌then◌else◌, Eq, Post, Post-ok, Post-err, Post-if, Post-bind, Post-bind-on,
}
use remote_backup_m.Shared.Types.{TlvType, tlv_code, ErrType}
use remote_backup_m.Shared.View.{View, tlv_type, value, next_is, verify_end}
use remote_backup_m.Shared.Platform.{Platform}
use remote_backup_m.Shared.Tools.{Digest, hashed, too_long, filesystem_error, md5_file, split_sign}
use remote_backup_m.Shared.Dir.{Dir, rsrc, find, put, insert_or_assign}
use remote_backup_m.Shared.Dir
use remote_backup_m.Server.User.{dir}
use remote_backup_m.Server.Streams.{GetStream, get_stream, emplace}
use remote_backup_m.Server.Session.{Session, accept, refuse}
use remote_backup_m.Server.Handler.Upload.{
  handle_create, note_chunk, close_stream, temp_digest, is_synced, create_content, create_stream,
  create_write, verify_upload, discard,
}
use remote_backup_m.Server.Handler.Moves.{
  Moves, files, directory, opens, closes, Moves-accept, Moves-refuse, Moves-reply_tlv,
}

module _ (P : Platform) ⦃e : Eq P.FsPath⦄ (s : Session P) where
  discard-Moves :
      (absolute_path relative_path : P.FsPath) (err_type : ErrType) (t : Session P)
      → Moves P s t
      → Post (Moves P s) (discard P absolute_path relative_path err_type t)
  unfolding discard
  discard-Moves absolute_path relative_path err_type t m =
      let r = P.remove absolute_path t.disk in
      Post-if r.1 (λ _. Post-err)
        (λ _. Post-bind (dir t.user) λ d _.
          Moves-refuse P s _ err_type (directory _ (Dir.erase relative_path d).0 (files t r.0 m)))

  pub verify_upload-Moves :
      (absolute_path relative_path : P.FsPath) (c_digest : Bytes) (no_match failed : ErrType)
      (t : Session P)
      → Moves P s t
      → Post (Moves P s) (verify_upload P absolute_path relative_path c_digest no_match failed t)
  unfolding verify_upload
  verify_upload-Moves absolute_path relative_path c_digest no_match failed t m =
      split (md5_file P absolute_path relative_path t.disk)
    where
      split :
          (r : Digest)
          → Post (Moves P s) (elim r [
            | hashed s_digest ↦
                if s_digest =? c_digest
                then accept P t
                else discard P absolute_path relative_path no_match t
            | too_long ↦ err length_error
            | filesystem_error ↦ discard P absolute_path relative_path failed t
          ])
      split (hashed s_digest) =
          Post-if (s_digest =? c_digest) (λ _. Moves-accept P s t m)
            (λ _. discard-Moves absolute_path relative_path no_match t m)
      split too_long = Post-err
      split filesystem_error = discard-Moves absolute_path relative_path failed t m

  pub close_stream-Moves :
      (stream : P.Stream) (t : Session P) → Moves P s t → Moves P s (close_stream P stream t)
  unfolding close_stream
  close_stream-Moves stream t m = closes _ (files t (P.close stream t.disk).0 m)

  pub note_chunk-Moves :
      (is_first is_last : Bool) (relative_path : P.FsPath) (c_digest before : Bytes) (t : Session P)
      → Moves P s t
      → Post (Moves P s) (note_chunk P is_first is_last relative_path c_digest before t)
  unfolding note_chunk
  note_chunk-Moves true is_last relative_path c_digest before t m =
      Post-bind (dir t.user) λ d _. Post-ok (directory t _ m)
  note_chunk-Moves false true relative_path c_digest before t m =
      Post-bind (dir t.user) λ d _. Post-ok (directory t _ m)
  note_chunk-Moves false false relative_path c_digest before t m =
      Post-bind (dir t.user) λ d _. Post-ok m

  -- A stream that was made for the user is in the table now.
  pub got-Moves :
      (path : P.FsPath) (t : Session P) (g : GetStream P)
      → get_stream P t.user.id path t.disk t.streams ≡ some g
      → Moves P s t
      → Moves P s (record t { disk = g.disk; streams = g.streams })
  unfolding get_stream
  got-Moves path t g h m = split (P.open_append path t.disk) h
    where
      made :
          (disk : P.Disk) (stream : P.Stream) (o : Option P.Stream) (g : GetStream P)
          → some (emplace P t.user.id stream disk t.streams o) ≡ some g
          → Moves P s (record t { disk = g.disk; streams = g.streams })
      made disk stream none g k =
          let same : emplace P t.user.id stream disk t.streams none ≡ g = cc in
          subst (λ x. Moves P s (record t { disk = x.disk; streams = x.streams })) same
            (opens _ stream (files t disk m))
      made disk stream (some old) g k =
          let same : emplace P t.user.id stream disk t.streams (some old) ≡ g = cc in
          subst (λ x. Moves P s (record t { disk = x.disk; streams = x.streams })) same
            (files t disk m)

      split :
          (o : Option (P.Disk × P.Stream))
          → (elim o [
            | none ↦ none
            | some (disk', stream) ↦
                some (emplace P t.user.id stream disk' t.streams (find t.user.id t.streams))
          ])
            ≡ some g
          → Moves P s (record t { disk = g.disk; streams = g.streams })
      split none k = absurd (cc)
      split (some (disk', stream)) k = made disk' stream (find t.user.id t.streams) g k

  create_write-Moves :
      (g : GetStream P) (absolute_path relative_path : P.FsPath) (c_digest : Bytes) (v : View)
      (t : Session P)
      → Moves P s (record t { disk = g.disk; streams = g.streams })
      → Post (Moves P s) (create_write P g absolute_path relative_path c_digest v t)
  unfolding create_write
  create_write-Moves g absolute_path relative_path c_digest v t m = Post-bind (value v) λ chunk _.
      let w = P.write g.stream chunk g.disk in
      let f = P.flush w.1 w.0 in
      let stored = record t { disk = f.0; streams = put t.user.id f.1 g.streams } in
      Post-bind (verify_end v) λ is_last _.
        Post-bind-on
          (note_chunk-Moves g.inserted is_last relative_path c_digest temp_digest stored
            (files _ f.0 (opens _ f.1 m)))
          λ noted n.
            Post-if is_last
              (λ _.
                verify_upload-Moves absolute_path relative_path c_digest ErrType.create_no_match
                  ErrType.create_failed _ (close_stream-Moves f.1 noted n))
              (λ _. Moves-accept P s noted n)

  create_stream-Moves :
      (absolute_path relative_path : P.FsPath) (c_digest : Bytes) (v : View) (t : Session P)
      → Moves P s t
      → Post (Moves P s) (create_stream P absolute_path relative_path c_digest v t)
  unfolding create_stream
  create_stream-Moves absolute_path relative_path c_digest v t m =
      split (get_stream P t.user.id absolute_path t.disk t.streams) refl
    where
      split :
          (o : Option (GetStream P))
          → get_stream P t.user.id absolute_path t.disk t.streams ≡ o
          → Post (Moves P s) (elim o [
            | none ↦ refuse P ErrType.create_failed t
            | some g ↦
                if not (P.good g.stream)
                then refuse P ErrType.create_failed
                    (record t { disk = g.disk; streams = g.streams })
                else create_write P g absolute_path relative_path c_digest v t
          ])
      split none h = Moves-refuse P s t ErrType.create_failed m
      split (some g) h =
          let got = got-Moves absolute_path t g h m in
          Post-if (not (P.good g.stream)) (λ _. Moves-refuse P s _ ErrType.create_failed got)
            (λ _. create_write-Moves g absolute_path relative_path c_digest v t got)

  create_content-Moves :
      (relative_path : P.FsPath) (c_digest : Bytes) (v : View) (t : Session P)
      → Moves P s t
      → Post (Moves P s) (create_content P relative_path c_digest v t)
  unfolding create_content
  create_content-Moves relative_path c_digest v t m = Post-bind (dir t.user) λ d _.
      let absolute_path = P.join d.path relative_path in
      let r = P.create_directories (P.parent_path absolute_path) t.disk in
      Post-if (is_synced P (rsrc relative_path d))
        (λ _. Moves-refuse P s t ErrType.create_already_exist m)
        (λ _.
          Post-if r.1 (λ _. Moves-refuse P s _ ErrType.create_failed (files t r.0 m))
            (λ _. create_stream-Moves absolute_path relative_path c_digest v _ (files t r.0 m)))

  pub handle_create-Moves :
      (v : View) (t : Session P) → Moves P s t → Post (Moves P s) (handle_create P v t)
  unfolding handle_create
  handle_create-Moves v t m = Post-bind (tlv_type v) λ x _.
      Post-if (not (x == tlv_code TlvType.item)) (λ _. Moves-refuse P s t ErrType.create_no_item m)
        (λ _. Post-bind (value v) λ c_sign _. Post-bind (split_sign P c_sign) λ c _.
          Post-bind-on (Moves-reply_tlv P s t TlvType.item c_sign m) λ t' m'.
            Post-bind (next_is TlvType.content v) λ r _.
              Post-if (not r.1) (λ _. Moves-refuse P s t' ErrType.create_no_content m')
                (λ _. create_content-Moves c.0 c.1 r.0 t' m'))
