-- ===== src/Client/Retrieve.antt =====
-- `retrieve` of client/core/scheduler.cpp: a file of the server's replaces the client's.
pub mod Whole
use remote_backup_m.Prelude.{
  ℕ, zero, suc, ◌+◌, Bool, true, false, not, List, [], ◌∷◌, Bytes, length, Option, none, some,
  Outcome, ok, err, undefined_behaviour, runtime_error, length_error, exit_failure, out_of_fuel,
  ◌>>=◌, ◌==◌, ◌=?◌, bytes_eq, if◌then◌else◌, deref,
}
use remote_backup_m.Shared.Types.{MsgType, msg_code, TlvType, tlv_code}
use remote_backup_m.Shared.Message.{Message, new_message, add_tlv, msg_type}
use remote_backup_m.Shared.View.{View, view_of, next_is, tlv_type, value}
use remote_backup_m.Shared.Platform.{Platform}
use remote_backup_m.Shared.Tools.{Digest, hashed, too_long, filesystem_error, md5_file, split_sign}
use remote_backup_m.Client.Resource.{Tribool, yes, no, indeterminate}
use remote_backup_m.Client.Incoming.{Answer}
use remote_backup_m.Client.Posting.{Socket, sync_post}

unfoldable pub retrieve_request : Bytes → Message
retrieve_request sign =
    add_tlv (tlv_code TlvType.end) 0 []
      (add_tlv (tlv_code TlvType.item) (length sign) sign (new_message (msg_code MsgType.retrieve)))

module _ (P : Platform) where
  open P use {FsPath, Disk, Stream}

  -- An ITEM with the sign and a CONTENT, which is written, as long as there are such. The view is left
  -- on the segment that ends the loop.
  unfoldable pub copy_contents : ℕ → Bytes → View → Stream → Disk → Outcome (View × Stream × Disk)
  copy_contents zero sign v stream disk = err out_of_fuel
  copy_contents (suc fuel) sign v stream disk = next_is TlvType.item v >>= λ r.
      if not r.1
      then ok (r.0, stream, disk)
      else (value r.0 >>= λ x.
          if not (sign =? x)
          then ok (r.0, stream, disk)
          else (next_is TlvType.content r.0 >>= λ c.
              if not c.1
              then ok (c.0, stream, disk)
              else (value c.0 >>= λ chunk.
                  let w = P.write stream chunk disk in copy_contents fuel sign c.0 w.1 w.0)))

  -- A file that does not have the digest is removed; where that fails, the client ends.
  unfoldable pub remove_or_exit : FsPath → Disk → Outcome (Disk × Bool)
  remove_or_exit absolute_path disk =
      let r = P.remove absolute_path disk in if r.1 then err exit_failure else ok (r.0, false)

  unfoldable pub verify_retrieved : FsPath → FsPath → Bytes → Disk → Outcome (Disk × Bool)
  verify_retrieved absolute_path relative_path digest disk =
      elim (md5_file P absolute_path relative_path disk) [
        | hashed c_digest ↦
            if not (c_digest =? digest) then remove_or_exit absolute_path disk else ok (disk, true)
        | too_long ↦ err length_error
        | filesystem_error ↦ remove_or_exit absolute_path disk
      ]

  -- The reply's file. A stream that is dropped is closed.
  unfoldable pub store_reply :
      FsPath → FsPath → Bytes → Bytes → Message → Disk → Outcome (Disk × Bool)
  store_reply absolute_path relative_path digest sign m disk = do
    let made = P.create_directories (P.parent_path absolute_path) disk
    if made.1
        then remove_or_exit absolute_path made.0
        else elim (P.open_truncate absolute_path made.0) [
          | none ↦ remove_or_exit absolute_path made.0
          | some (opened, ofs) ↦
              if not (P.good ofs)
              then ok (opened, false)
              else (copy_contents (suc (length m.raw)) sign (view_of m) ofs opened >>= λ c.
                  tlv_type c.0 >>= λ t.
                  let closed = (P.close c.1 c.2).0 in
                  if not (t == tlv_code TlvType.end)
                  then ok (closed, false)
                  else verify_retrieved absolute_path relative_path digest closed)
        ]

  -- What is done before the request: `some` is the result where none is sent.
  unfoldable pub before_request : FsPath → FsPath → Bytes → Disk → Outcome (Disk × Option Bool)
  before_request absolute_path relative_path digest disk =
      if not (P.exists absolute_path disk)
      then ok (disk, none)
      else elim (md5_file P absolute_path relative_path disk) [
        | too_long ↦ err length_error
        | filesystem_error ↦ err runtime_error
        | hashed c_digest ↦
            if c_digest =? digest
            then ok (disk, some true)
            else let r = P.remove absolute_path disk in
              if r.1 then ok (r.0, some false) else ok (r.0, none)
      ]

  unfoldable pub handle_answer :
      FsPath → FsPath → Bytes → Bytes → Answer → Disk → Outcome (Disk × Bool)
  handle_answer absolute_path relative_path digest sign (yes, m) disk = do
    response ← deref m
    t ← msg_type response
    if not (t == msg_code MsgType.retrieve)
        then ok (disk, false)
        else store_reply absolute_path relative_path digest sign response disk
  handle_answer absolute_path relative_path digest sign (_, m) disk = ok (disk, false)

  unfoldable pub retrieve : FsPath → Bytes → Socket → Disk → Outcome (Socket × Disk × Bool)
  retrieve root sign socket disk = do
    c ← split_sign P sign
    let absolute_path = P.join root c.0
    b ← before_request absolute_path c.0 c.1 disk
    elim b.1 [
      | some done ↦ ok (socket, b.0, done)
      | none ↦ do
        r ← sync_post (retrieve_request sign) socket
        d ← handle_answer absolute_path c.0 c.1 sign r.0 b.0
        ok (r.1, d.0, d.1)
    ]
