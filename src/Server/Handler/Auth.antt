-- ===== src/Server/Handler/Auth.antt =====
-- `handle_auth` and `handle_list` of server/core/request_handler.cpp.
use remote_backup_m.Prelude.{
  ℕ, Bool, true, false, not, List, [], ◌∷◌, Bytes, length, drop, Outcome, ok, err, length_error,
  out_of_range, ◌>>=◌, ◌==◌, leb, if◌then◌else◌, Eq,
}
use remote_backup_m.Shared.Types.{MsgType, msg_code, TlvType, tlv_code, ErrType}
use remote_backup_m.Shared.View.{View, tlv_type, value}
use remote_backup_m.Shared.Platform.{Platform}
use remote_backup_m.Shared.Tools.{
  hashed, too_long, filesystem_error, md5_hash, md5_file, create_sign, verify_password,
}
use remote_backup_m.Shared.Dir.{insert_or_assign, clear}
use remote_backup_m.Server.User.{User, dir, set_dir}
use remote_backup_m.Server.Queue.{new_queue}
use remote_backup_m.Server.Session.{Session, accept, refuse, reply_tlv, with_dir}
use remote_backup_m.Shared.View.{next_is}

module _ (P : Platform) (backup_root credentials_path : P.FsPath) where
  -- The user's record, once the password is verified.
  unfoldable pub authenticated : Bytes → User P.FsPath → User P.FsPath
  authenticated username u =
      let user_id = md5_hash P username in
      record (set_dir (P.join backup_root (P.path user_id))
        (record u { id = user_id; username = username })) { auth = true }

  unfoldable pub check_password : Bytes → Bytes → Session P → Outcome (Session P)
  check_password username password s = do
    verified ← verify_password P credentials_path username password s.disk
    if verified
        then accept P (record s { user = authenticated username s.user })
        else refuse P ErrType.auth_failed s

  unfoldable pub handle_auth : View → Session P → Outcome (Session P)
  handle_auth v s = do
    t ← tlv_type v
    if not (t == tlv_code TlvType.usrn) then refuse P ErrType.auth_no_usrn s else do
      username ← value v
      r ← next_is TlvType.pswd v
      if not r.1
          then refuse P ErrType.auth_no_pswd s
          else (value r.0 >>= λ password. check_password username password s)

module _ (P : Platform) ⦃e : Eq P.FsPath⦄ where
  -- How the walk over the files ends: at its end, at an entry that was not new, or with a
  -- `filesystem_error`.
  pub data ListEnd : Type 0 where
    listed repeated raised : Session P → ListEnd

  -- `std::string::substr` of the path's text, from the length of the directory's path on.
  unfoldable pub relative_to : ℕ → P.FsPath → Outcome P.FsPath
  relative_to n p =
      if leb n (length (P.string p)) then ok (P.path (drop n (P.string p))) else err out_of_range

  -- One file: its entry, then its ITEM.
  unfoldable pub list_file : P.FsPath → Bytes → Session P → Outcome (Session P × Bool)
  list_file relative_path file_digest s = do
    d ← dir s.user
    let r = insert_or_assign relative_path (record { synced = true; digest = file_digest }) d
    if not r.1 then ok (with_dir P r.0 s, false) else do
      s' ← reply_tlv P TlvType.item (create_sign P relative_path file_digest) (with_dir P r.0 s)
      ok (s', true)

  unfoldable pub list_files : ℕ → Bool → List P.FsPath → Session P → Outcome ListEnd
  list_files n fails [] s = ok (if fails then raised s else listed s)
  list_files n fails (absolute_path ∷ rest) s = do
    relative_path ← relative_to n absolute_path
    elim (md5_file P absolute_path relative_path s.disk) [
      | too_long ↦ err length_error
      | filesystem_error ↦ ok (raised s)
      | hashed file_digest ↦ do
        r ← list_file relative_path file_digest s
        if r.1 then list_files n fails rest r.0 else ok (repeated r.0)
    ]

  unfoldable pub finish_list : ListEnd → Outcome (Session P)
  finish_list (listed s) = accept P (record s { user = record s.user { synced = true } })
  finish_list (repeated s) = do
    d ← dir s.user
    refuse P ErrType.list_failed (with_dir P (clear d) s)
  finish_list (raised s) = do
    d ← dir s.user
    refuse P ErrType.list_failed
        (record (with_dir P (clear d) s) { replies = new_queue (msg_code MsgType.list) })

  unfoldable pub handle_list : Session P → Outcome (Session P)
  handle_list s = do
    d ← dir s.user
    let (files, fails) = P.regular_files d.path s.disk
    end ← list_files (length (P.string d.path)) fails files s
    finish_list end
