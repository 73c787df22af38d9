-- ===== src/Server/Handler.antt =====
-- server/core/request_handler.cpp. A handler starts with the view on the first segment and with the
-- replies of the request's type.
pub mod Auth
pub mod Upload
pub mod Remove
pub mod Gate
pub mod Unanswered
pub mod Answered
pub mod Moves
use remote_backup_m.Prelude.{
  ℕ, ◌+◌, Bool, true, false, not, ◌&&◌, List, [], ◌∷◌, Bytes, length, Outcome, ok, err, ◌>>=◌, ◌==◌,
  if◌then◌else◌, Option, Eq,
}
use remote_backup_m.Shared.Types.{MsgType, msg_code, TlvType, ErrType}
use remote_backup_m.Shared.Message.{Message, msg_type}
use remote_backup_m.Shared.View.{View, view_of, next_tlv}
use remote_backup_m.Shared.Platform.{Platform}
use remote_backup_m.Server.Queue.{new_queue}
use remote_backup_m.Server.Session.{Session, accept, refuse}
use Auth.{handle_auth, handle_list}
use Upload.{handle_create, handle_update}
use Remove.{handle_erase, handle_retrieve}

module _ (P : Platform) ⦃e : Eq P.FsPath⦄ (backup_root credentials_path : P.FsPath) where
  -- A user who is authenticated and has listed his files.
  unfoldable pub handle_synced : ℕ → View → Session P → Outcome (Session P)
  handle_synced t v s =
      if t == msg_code MsgType.create
      then handle_create P v s
      else if t == msg_code MsgType.update
      then handle_update P v s
      else if t == msg_code MsgType.erase
      then handle_erase P v s
      else if t == msg_code MsgType.retrieve
      then handle_retrieve P v s
      else if t == msg_code MsgType.keep_alive
      then accept P s
      else refuse P ErrType.msg_type_rejected s

  unfoldable pub dispatch : ℕ → View → Session P → Outcome (Session P)
  dispatch t v s =
      if not s.user.auth
      then if t == msg_code MsgType.auth
        then handle_auth P backup_root credentials_path v s
        else refuse P ErrType.msg_type_rejected s
      else if not s.user.synced
      then if t == msg_code MsgType.list
        then handle_list P s
        else refuse P ErrType.msg_type_rejected s
      else handle_synced t v s

  unfoldable pub handle_request : Message → Session P → Outcome (Session P)
  handle_request request s = do
    t ← msg_type request
    let fresh = record s { replies = new_queue t }
    r ← next_tlv (view_of request)
    if r.1 then dispatch t r.0 fresh else refuse P ErrType.no_content fresh
