-- ===== src/Shared/Types.antt =====
-- shared/communication/types.h. The enums are unscoped and a value is made from a byte by
-- `static_cast`, so a variable of such a type may hold any number: variables are numbers here, and
-- the code compares them with the code of an enumerator.
use remote_backup_m.Prelude.{ℕ}

pub data MsgType : Type 0 where
  none create update erase list auth retrieve keep_alive : MsgType

pub data TlvType : Type 0 where
  usrn pswd item end ok error content : TlvType

pub data ErrType : Type 0 where
  none no_content msg_type_rejected : ErrType
  create_no_item create_no_content create_already_exist create_failed create_no_match : ErrType
  update_no_item update_no_content update_not_exist update_already_updated : ErrType
  update_failed update_no_match : ErrType
  erase_no_item erase_no_match erase_failed : ErrType
  list_failed auth_no_usrn auth_no_pswd auth_failed retrieve_failed : ErrType

pub data ConnRes : Type 0 where
  none ok err : ConnRes

abbrev pub msg_code : MsgType → ℕ
msg_code MsgType.none = 0
msg_code MsgType.create = 1
msg_code MsgType.update = 2
msg_code MsgType.erase = 3
msg_code MsgType.list = 4
msg_code MsgType.auth = 5
msg_code MsgType.retrieve = 6
msg_code MsgType.keep_alive = 7

abbrev pub tlv_code : TlvType → ℕ
tlv_code TlvType.usrn = 0
tlv_code TlvType.pswd = 1
tlv_code TlvType.item = 2
tlv_code TlvType.end = 3
tlv_code TlvType.ok = 4
tlv_code TlvType.error = 5
tlv_code TlvType.content = 6

abbrev pub err_code : ErrType → ℕ
err_code ErrType.none = 0
err_code ErrType.no_content = 1
err_code ErrType.msg_type_rejected = 2
err_code ErrType.create_no_item = 101
err_code ErrType.create_no_content = 102
err_code ErrType.create_already_exist = 103
err_code ErrType.create_failed = 104
err_code ErrType.create_no_match = 105
err_code ErrType.update_no_item = 201
err_code ErrType.update_no_content = 202
err_code ErrType.update_not_exist = 203
err_code ErrType.update_already_updated = 204
err_code ErrType.update_failed = 205
err_code ErrType.update_no_match = 206
err_code ErrType.erase_no_item = 301
err_code ErrType.erase_no_match = 302
err_code ErrType.erase_failed = 303
err_code ErrType.list_failed = 401
err_code ErrType.auth_no_usrn = 501
err_code ErrType.auth_no_pswd = 502
err_code ErrType.auth_failed = 503
err_code ErrType.retrieve_failed = 601
