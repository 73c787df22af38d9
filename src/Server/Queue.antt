-- ===== src/Server/Queue.antt =====
-- server/communication/message_queue.cpp: the replies to one request, front first.
pub mod Holds
use remote_backup_m.Prelude.{
  ℕ, ◌+◌, ◌*◌, Bool, true, false, not, ◌&&◌, List, [], ◌∷◌, ◌++◌, Bytes, length, take, Outcome, ok,
  err, undefined_behaviour, ◌>>=◌, ◌==◌, leb, if◌then◌else◌,
}
use remote_backup_m.Shared.Types.{MsgType, msg_code, TlvType, tlv_code, ErrType, err_code}
use remote_backup_m.Shared.Decimal.{ℤ, pos, stoi}
use remote_backup_m.Shared.Message.{Message, new_message, size}
use remote_backup_m.Shared.Message

abbrev pub chunk_size : ℕ
chunk_size = 64 * 1024

pub record Queue : Type 0 where
  pub msgs : List Message
  pub msg_type : ℕ
  pub err_type : ℤ

-- The first message is made at once, but not for the types NONE and RETRIEVE.
unfoldable pub new_queue : ℕ → Queue
new_queue msg_type = record {
  msgs =
      if not (msg_type == msg_code MsgType.none) && not (msg_type == msg_code MsgType.retrieve)
      then new_message msg_type ∷ []
      else [];
  msg_type = msg_type;
  err_type = pos (err_code ErrType.none);
}

-- The segment goes to the last message, or to a new one where it does not fit. The back of an
-- empty queue is no message.
unfoldable pub push_tlv : ℕ → ℕ → ℕ → Bytes → List Message → Outcome (List Message)
push_tlv msg_type tlv_type len buffer [] = err undefined_behaviour
push_tlv msg_type tlv_type len buffer (last ∷ []) = ok (
    if leb (size last + 1 + 2 + len) chunk_size
    then Message.add_tlv tlv_type len buffer last ∷ []
    else last ∷ Message.add_tlv tlv_type len buffer (new_message msg_type) ∷ [])
push_tlv msg_type tlv_type len buffer (m ∷ n ∷ ms) =
    push_tlv msg_type tlv_type len buffer (n ∷ ms) >>= λ rest. ok (m ∷ rest)

-- The code of an ERROR segment is kept beside the messages.
unfoldable pub note_error : ℕ → Bytes → Queue → Outcome Queue
note_error tlv_type text q =
    if tlv_type == tlv_code TlvType.error
    then (stoi text >>= λ code. ok (record q { err_type = code }))
    else ok q

unfoldable pub add_tlv : ℕ → ℕ → Bytes → Queue → Outcome Queue
add_tlv tlv_type len buffer q = do
  msgs ← push_tlv q.msg_type tlv_type len buffer q.msgs
  note_error tlv_type (take len buffer) (record q { msgs = msgs })

unfoldable pub add_message : Message → Queue → Queue
add_message m q = record q { msgs = q.msgs ++ (m ∷ []) }

-- `pop` and `front` of an empty queue are undefined.
unfoldable pub pop : Queue → Outcome Queue
pop q = elim q.msgs [ [] ↦ err undefined_behaviour | m ∷ ms ↦ ok (record q { msgs = ms }) ]

unfoldable pub front : Queue → Outcome Message
front q = elim q.msgs [ [] ↦ err undefined_behaviour | m ∷ ms ↦ ok m ]

unfoldable pub empty : Queue → Bool
empty q = elim q.msgs [ [] ↦ true | m ∷ ms ↦ false ]
