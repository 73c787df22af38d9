-- ===== src/Server/Handler/Upload.antt =====
-- `handle_create` and `handle_update` of server/core/request_handler.cpp: a chunk of a file is
-- written, and behind the last one the file's digest is compared with the one in its sign.
pub mod Finish
pub mod Served
pub mod Contents
use remote_backup_m.Prelude.{
  ℕ, Bool, true, false, not, ◌&&◌, [], ◌∷◌, Bytes, Outcome, ok, err, length_error, exit_failure,
  ◌>>=◌, ◌==◌, ◌=?◌, bytes_eq, bytes_beq, if◌then◌else◌, Option, none, some, Eq,
}
use remote_backup_m.Shared.Types.{TlvType, tlv_code, ErrType}
use remote_backup_m.Shared.View.{View, tlv_type, value, verify_end}
use remote_backup_m.Shared.Platform.{Platform}
use remote_backup_m.Shared.Tools.{hashed, too_long, filesystem_error, md5_file, split_sign}
use remote_backup_m.Shared.Dir.{Dir, rsrc, insert_or_assign, put}
use remote_backup_m.Shared.Dir
use remote_backup_m.Server.Resource.{SResource}
use remote_backup_m.Server.User.{dir}
use remote_backup_m.Server.Streams.{GetStream, get_stream, erase_stream}
use remote_backup_m.Server.Session.{Session, accept, refuse, reply_tlv, with_dir}
use remote_backup_m.Shared.View.{next_is}

-- "TEMP".
abbrev pub temp_digest : Bytes
temp_digest = b'T' ∷ b'E' ∷ b'M' ∷ b'P' ∷ []

-- ".temp".
abbrev pub temp_suffix : Bytes
temp_suffix = b'.' ∷ b't' ∷ b'e' ∷ b'm' ∷ b'p' ∷ []

module _ (P : Platform) ⦃e : Eq P.FsPath⦄ where
  -- The file and its entry are removed; a file that cannot be removed ends the server.
  unfoldable pub discard : P.FsPath → P.FsPath → ErrType → Session P → Outcome (Session P)
  discard absolute_path relative_path err_type s = do
    let (disk, failed) = P.remove absolute_path s.disk
    if failed then err exit_failure else do
      d ← dir s.user
      refuse P err_type (with_dir P (Dir.erase relative_path d).0 (record s { disk = disk }))

  -- The digest of the stored file against the one that was sent.
  unfoldable pub verify_upload :
      P.FsPath → P.FsPath → Bytes → ErrType → ErrType → Session P → Outcome (Session P)
  verify_upload absolute_path relative_path c_digest no_match failed s =
      elim (md5_file P absolute_path relative_path s.disk) [
        | hashed s_digest ↦
            if s_digest =? c_digest
            then accept P s
            else discard absolute_path relative_path no_match s
        | too_long ↦ err length_error
        | filesystem_error ↦ discard absolute_path relative_path failed s
      ]

  -- The stream is closed, and the user has none any more.
  unfoldable pub close_stream : P.Stream → Session P → Session P
  close_stream stream s =
      let (disk, _) = P.close stream s.disk in
      record s { disk = disk; streams = erase_stream P s.user.id s.streams }

  -- The entry of a file of which a chunk was written. `before` is the digest that the entry has
  -- until the last chunk.
  unfoldable pub note_chunk :
      Bool → Bool → P.FsPath → Bytes → Bytes → Session P → Outcome (Session P)
  note_chunk is_first is_last relative_path c_digest before s = do
    d ← dir s.user
    let first : SResource = record {
      synced = is_last;
      digest = if is_last then c_digest else before;
    }
    let last : SResource = record { synced = true; digest = c_digest }
    ok (
        if is_first
        then with_dir P (insert_or_assign relative_path first d).0 s
        else if is_last
        then with_dir P (insert_or_assign relative_path last d).0 s
        else s)

  -- `create` from the write of the chunk on. The stream is good.
  unfoldable pub create_write :
      GetStream P → P.FsPath → P.FsPath → Bytes → View → Session P → Outcome (Session P)
  create_write g absolute_path relative_path c_digest v s = do
    chunk ← value v
    let (disk, written) = P.write g.stream chunk g.disk
    let (disk', stream) = P.flush written disk
    is_last ← verify_end v
    let stored = record s { disk = disk'; streams = put s.user.id stream g.streams }
    noted ← note_chunk g.inserted is_last relative_path c_digest temp_digest stored
    if is_last
        then verify_upload absolute_path relative_path c_digest ErrType.create_no_match
            ErrType.create_failed (close_stream stream noted)
        else accept P noted

  unfoldable pub create_stream :
      P.FsPath → P.FsPath → Bytes → View → Session P → Outcome (Session P)
  create_stream absolute_path relative_path c_digest v s =
      elim (get_stream P s.user.id absolute_path s.disk s.streams) [
        | none ↦ refuse P ErrType.create_failed s
        | some g ↦
            if not (P.good g.stream)
            then refuse P ErrType.create_failed (record s { disk = g.disk; streams = g.streams })
            else create_write g absolute_path relative_path c_digest v s
      ]

  -- Whether an upload of the file was completed.
  abbrev pub is_synced : Option SResource → Bool
  is_synced none = false
  is_synced (some r) = r.synced

  unfoldable pub create_content : P.FsPath → Bytes → View → Session P → Outcome (Session P)
  create_content relative_path c_digest v s = do
    d ← dir s.user
    if is_synced (rsrc relative_path d) then refuse P ErrType.create_already_exist s else do
      let absolute_path = P.join d.path relative_path
      let (disk, failed) = P.create_directories (P.parent_path absolute_path) s.disk
      let s' = record s { disk = disk }
      if failed
          then refuse P ErrType.create_failed s'
          else create_stream absolute_path relative_path c_digest v s'

  unfoldable pub handle_create : View → Session P → Outcome (Session P)
  handle_create v s = do
    t ← tlv_type v
    if not (t == tlv_code TlvType.item) then refuse P ErrType.create_no_item s else do
      c_sign ← value v
      c ← split_sign P c_sign
      s' ← reply_tlv P TlvType.item c_sign s
      r ← next_is TlvType.content v
      if not r.1 then refuse P ErrType.create_no_content s' else create_content c.0 c.1 r.0 s'

  -- The new file takes the old one's place. Where that fails, the server ends.
  unfoldable pub replace_file : P.FsPath → P.FsPath → Session P → Outcome (Session P)
  replace_file temp_path absolute_path s = do
    let (disk, failed) = P.remove absolute_path s.disk
    if failed then err exit_failure else do
      let (disk', failed') = P.rename temp_path absolute_path disk
      if failed' then err exit_failure else ok (record s { disk = disk' })

  unfoldable pub update_write :
      GetStream P
      → P.FsPath
      → P.FsPath
      → P.FsPath
      → Bytes
      → Bytes
      → View
      → Session P
      → Outcome (Session P)
  update_write g temp_path absolute_path relative_path c_digest old_digest v s = do
    chunk ← value v
    let (disk, stream) = P.write g.stream chunk g.disk
    is_last ← verify_end v
    let stored = record s { disk = disk; streams = put s.user.id stream g.streams }
    noted ← note_chunk g.inserted is_last relative_path c_digest old_digest stored
    if is_last
        then (replace_file temp_path absolute_path (close_stream stream noted) >>= λ replaced.
            verify_upload absolute_path relative_path c_digest ErrType.update_no_match
              ErrType.update_failed replaced)
        else accept P noted

  unfoldable pub update_stream :
      P.FsPath → P.FsPath → P.FsPath → Bytes → Bytes → View → Session P → Outcome (Session P)
  update_stream temp_path absolute_path relative_path c_digest old_digest v s =
      elim (get_stream P s.user.id temp_path s.disk s.streams) [
        | none ↦ refuse P ErrType.update_failed s
        | some g ↦
            if not (P.good g.stream)
            then refuse P ErrType.update_failed (record s { disk = g.disk; streams = g.streams })
            else update_write g temp_path absolute_path relative_path c_digest old_digest v s
      ]

  -- The update of a file that has this entry, or none.
  unfoldable pub update_found :
      P.FsPath
      → Bytes
      → View
      → Dir P.FsPath SResource
      → Option SResource
      → Session P
      → Outcome (Session P)
  update_found relative_path c_digest v d none s = refuse P ErrType.update_not_exist s
  update_found relative_path c_digest v d (some r) s =
      if r.digest =? c_digest
      then refuse P ErrType.update_already_updated s
      else let absolute_path = P.join d.path relative_path in
        update_stream (P.append_text absolute_path temp_suffix) absolute_path relative_path c_digest
          r.digest v s

  unfoldable pub update_content : P.FsPath → Bytes → View → Session P → Outcome (Session P)
  update_content relative_path c_digest v s = do
    d ← dir s.user
    update_found relative_path c_digest v d (rsrc relative_path d) s

  unfoldable pub handle_update : View → Session P → Outcome (Session P)
  handle_update v s = do
    t ← tlv_type v
    if not (t == tlv_code TlvType.item) then refuse P ErrType.update_no_item s else do
      c_sign ← value v
      c ← split_sign P c_sign
      s' ← reply_tlv P TlvType.item c_sign s
      r ← next_is TlvType.content v
      if not r.1 then refuse P ErrType.update_no_content s' else update_content c.0 c.1 r.0 s'
