-- ===== src/Server/Session.antt =====
-- What a request can change, and `close_response` of server/core/request_handler.cpp.
pub mod Closed
pub mod Frame
use remote_backup_m.Prelude.{
  ℕ, ◌+◌, Bool, true, false, not, ◌&&◌, List, [], ◌∷◌, Bytes, length, Outcome, ok, err, ◌>>=◌, ◌==◌,
  if◌then◌else◌, Option,
}
use remote_backup_m.Shared.Types.{TlvType, tlv_code, ErrType, err_code}
use remote_backup_m.Shared.Decimal.{to_string}
use remote_backup_m.Shared.View.{View, next_tlv, tlv_type}
use remote_backup_m.Shared.Platform.{Platform}
use remote_backup_m.Shared.Dir.{Dir}
use remote_backup_m.Server.Resource.{SResource}
use remote_backup_m.Server.User.{User}
use remote_backup_m.Server.Streams.{Streams}
use remote_backup_m.Server.Queue.{Queue, add_tlv}

-- The text of an error code.
unfoldable pub error_text : ErrType → Bytes
error_text err_type =
    if err_code err_type == err_code ErrType.none then [] else to_string (err_code err_type)

module _ (P : Platform) where
  open P use {FsPath, Disk}

  pub record Session : Type 0 where
    pub disk : Disk
    pub streams : Streams P
    pub user : User FsPath
    pub replies : Queue

  -- The text is a local of an inner block, and its buffer is read after the block's end.
  abbrev pub dangling : ErrType → Bytes
  dangling err_type =
      if err_code err_type == err_code ErrType.none then [] else P.released (error_text err_type)

  unfoldable pub close_response : TlvType → ErrType → Queue → Outcome Queue
  unfolding error_text
  close_response tlv err_type replies = do
    closed ← add_tlv (tlv_code tlv) (length (error_text err_type)) (dangling err_type) replies
    add_tlv (tlv_code TlvType.end) 0 [] closed

  -- `return close_response(replies, …)`.
  unfoldable pub close : TlvType → ErrType → Session → Outcome Session
  close tlv err_type s = do
    replies ← close_response tlv err_type s.replies
    ok (record s { replies = replies })

  unfoldable pub accept : Session → Outcome Session
  unfolding close
  accept s = close TlvType.ok ErrType.none s

  unfoldable pub refuse : ErrType → Session → Outcome Session
  unfolding close
  refuse err_type s = close TlvType.error err_type s

  unfoldable pub reply_tlv : TlvType → Bytes → Session → Outcome Session
  reply_tlv tlv text s = do
    replies ← add_tlv (tlv_code tlv) (length text) text s.replies
    ok (record s { replies = replies })

  -- The user's directory, changed in place through `user_dir`.
  abbrev pub with_dir : Dir FsPath SResource → Session → Session
  with_dir d s = record s { user = record s.user { dir_ptr = Option.some d } }
