-- ===== src/Server/Logger.antt =====
-- server/utilities/logger.cpp: what is written to the log file and to the console. The names are in
-- hash tables; `table.find(key)->second` of a key that is not there is undefined behaviour.
pub mod Lines
use remote_backup_m.Prelude.{
  ℕ, zero, suc, ◌+◌, Bool, true, false, List, [], ◌∷◌, ◌++◌, Bytes, length, ascii, Option, none,
  some, Outcome, ok, err, undefined_behaviour, out_of_fuel, ◌>>=◌, ◌==◌, if◌then◌else◌,
}
use remote_backup_m.Shared.Types.{MsgType, msg_code, TlvType, tlv_code, ErrType, err_code, ConnRes}
use remote_backup_m.Shared.Decimal.{ℤ, pos, negsuc, to_string, stoi}
use remote_backup_m.Shared.Message.{Message, msg_type}
use remote_backup_m.Shared.View.{View, view_of, next_tlv, tlv_type, tlv_length, value}
use remote_backup_m.Shared.Platform.{Platform}
use remote_backup_m.Shared.Tools.{split_sign}
use remote_backup_m.Server.User.{User}

-- `now` has the texts of the clock at the calls to come, by their number.
pub record Logger : Type 0 where
  pub ofs : Bytes
  pub cout : Bytes
  pub now : ℕ → Bytes
  pub calls : ℕ

unfoldable pub name_in : List (ℕ × Bytes) → ℕ → Outcome Bytes
name_in [] key = err undefined_behaviour
name_in ((k, name) ∷ rest) key = if k == key then ok name else name_in rest key

unfoldable pub msg_names : List (ℕ × Bytes)
msg_names =
    (msg_code MsgType.none, ascii "-")
    ∷ (msg_code MsgType.create, ascii "CREATE")
    ∷ (msg_code MsgType.update, ascii "UPDATE")
    ∷ (msg_code MsgType.erase, ascii "ERASE")
    ∷ (msg_code MsgType.auth, ascii "AUTH")
    ∷ (msg_code MsgType.keep_alive, ascii "KEEP_ALIVE")
    ∷ (msg_code MsgType.list, ascii "LIST")
    ∷ (msg_code MsgType.retrieve, ascii "RETRIEVE")
    ∷ []

unfoldable pub tlv_names : List (ℕ × Bytes)
tlv_names =
    (tlv_code TlvType.usrn, ascii "USRN")
    ∷ (tlv_code TlvType.pswd, ascii "PSWD")
    ∷ (tlv_code TlvType.item, ascii "ITEM")
    ∷ (tlv_code TlvType.end, ascii "END")
    ∷ (tlv_code TlvType.ok, ascii "OK")
    ∷ (tlv_code TlvType.error, ascii "ERROR")
    ∷ (tlv_code TlvType.content, ascii "CONTENT")
    ∷ []

unfoldable pub err_names : List (ℕ × Bytes)
err_names =
    (err_code ErrType.none, ascii "OK")
    ∷ (err_code ErrType.no_content, ascii "ERR_NO_CONTENT")
    ∷ (err_code ErrType.msg_type_rejected, ascii "ERR_MSG_TYPE_REJECTED")
    ∷ (err_code ErrType.create_no_item, ascii "ERR_CREATE_NO_ITEM")
    ∷ (err_code ErrType.create_no_content, ascii "ERR_CREATE_NO_CONTENT")
    ∷ (err_code ErrType.create_already_exist, ascii "ERR_CREATE_ALREADY_EXIST")
    ∷ (err_code ErrType.create_failed, ascii "ERR_CREATE_FAILED")
    ∷ (err_code ErrType.create_no_match, ascii "ERR_CREATE_NO_MATCH")
    ∷ (err_code ErrType.update_no_item, ascii "ERR_UPDATE_NO_ITEM")
    ∷ (err_code ErrType.update_no_content, ascii "ERR_UPDATE_NO_CONTENT")
    ∷ (err_code ErrType.update_not_exist, ascii "ERR_UPDATE_NOT_EXIST")
    ∷ (err_code ErrType.update_already_updated, ascii "ERR_UPDATE_ALREADY_UPDATED")
    ∷ (err_code ErrType.update_failed, ascii "ERR_UPDATE_FAILED")
    ∷ (err_code ErrType.update_no_match, ascii "ERR_UPDATE_NO_MATCH")
    ∷ (err_code ErrType.erase_no_item, ascii "ERR_ERASE_NO_ITEM")
    ∷ (err_code ErrType.erase_no_match, ascii "ERR_ERASE_NO_MATCH")
    ∷ (err_code ErrType.erase_failed, ascii "ERR_ERASE_FAILED")
    ∷ (err_code ErrType.list_failed, ascii "ERR_LIST_FAILED")
    ∷ (err_code ErrType.auth_no_usrn, ascii "ERR_AUTH_NO_USRN")
    ∷ (err_code ErrType.auth_no_pswd, ascii "ERR_AUTH_NO_PSWD")
    ∷ (err_code ErrType.auth_failed, ascii "ERR_AUTH_FAILED")
    ∷ (err_code ErrType.retrieve_failed, ascii "ERR_RETRIEVE_FAILED")
    ∷ []

-- A table with every enumerator of its type as a key.
unfoldable pub conn_name : ConnRes → Bytes
conn_name ConnRes.none = ascii "-"
conn_name ConnRes.ok = ascii "OK"
conn_name ConnRes.err = ascii "ERR"

-- An ERR_TYPE that `stoi` made may be no enumerator, or negative.
unfoldable pub err_name : ℤ → Outcome Bytes
unfolding name_in
err_name (pos n) = name_in err_names n
err_name (negsuc n) = err undefined_behaviour

-- `std::getline(iss, text, ',')`.
unfoldable pub before_comma : Bytes → Bytes
before_comma [] = []
before_comma (c ∷ cs) = if c == b',' then [] else c ∷ before_comma cs

unfoldable pub get_time : Logger → Bytes × Logger
unfolding before_comma
get_time l = (before_comma (l.now l.calls), record l { calls = suc l.calls })

module _ {K : Type 0} where
  -- `[today][username@ip][`.
  unfoldable pub prefix : Bytes → User K → Bytes
  prefix today usr =
      ascii "["
      ++ today
      ++ ascii "]["
      ++ usr.username
      ++ (elim usr.username [ [] ↦ [] | c ∷ cs ↦ ascii "@" ])
      ++ usr.ip
      ++ ascii "]["

  unfoldable pub log_text : User K → Bytes → Logger → Logger
  unfolding prefix get_time
  log_text usr message l =
      let (today, l') = get_time l in
      record l' { ofs = l'.ofs ++ prefix today usr ++ message ++ ascii "]\n" }

  unfoldable pub log_result : User K → ℕ → ℤ → ConnRes → Logger → Outcome Logger
  unfolding prefix get_time
  log_result usr type message_result connection_result l = do
    let (today, l') = get_time l
    msg_type_str ← name_in msg_names type
    msg_res_str ← err_name message_result
    ok (record l' {
      ofs =
          l'.ofs
          ++ prefix today usr
          ++ ascii "TYPE: "
          ++ msg_type_str
          ++ ascii " RES: "
          ++ msg_res_str
          ++ ascii " CONN: "
          ++ conn_name connection_result
          ++ ascii "]\n";
    })

module _ (P : Platform) where
  -- What is shown of a value: the path of an ITEM, the name of an ERROR, any other as it is.
  unfoldable pub shown_value : ℕ → Bytes → Outcome Bytes
  shown_value t str =
      if t == tlv_code TlvType.item
      then (split_sign P str >>= λ c. ok (P.string c.0))
      else if t == tlv_code TlvType.error
      then (stoi str >>= λ code. err_name code)
      else ok str

  unfoldable pub log_segment : View → Outcome Bytes
  log_segment v = do
    t ← tlv_type v
    tlv_type_str ← name_in tlv_names t
    len ← tlv_length v
    shown ←
        (if t == tlv_code TlvType.content
          then ok []
          else (value v >>= λ str. shown_value t str >>= λ s. ok (ascii "\tV: " ++ s)))
    ok (ascii "\tT: " ++ tlv_type_str ++ ascii "\tL: " ++ to_string len ++ shown ++ ascii "\n")

  unfoldable pub log_segments : ℕ → View → Outcome Bytes
  log_segments zero v = err out_of_fuel
  log_segments (suc fuel) v = next_tlv v >>= λ r.
      if r.1
      then (log_segment r.0 >>= λ line. log_segments fuel r.0 >>= λ rest. ok (line ++ rest))
      else ok []

  unfoldable pub log_message : User P.FsPath → Message → Logger → Outcome Logger
  log_message usr message l = do
    t ← msg_type message
    msg_type_str ← name_in msg_names t
    lines ← log_segments (suc (length message.raw)) (view_of message)
    ok (record l {
      cout = l.cout ++ usr.username ++ ascii ":" ++ msg_type_str ++ ascii "\n" ++ lines;
    })
