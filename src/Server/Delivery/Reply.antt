-- ===== src/Server/Delivery/Reply.antt =====
-- A reply to a CREATE that fits into one message.
use remote_backup_m.Prelude.{
  suc, ◌+◌, ◌≤◌, ◌<◌, ◌≡◌, ◌≢◌, refl, true, List, [], ◌∷◌, ◌++◌, Bytes, length, length-append,
  take-length, ok, leb, arith,
}
use remote_backup_m.Shared.Types.{TlvType, ErrType}
use remote_backup_m.Shared.Message.{Message, Tlv, encode_all, size, new_message}
use remote_backup_m.Shared.Platform.{Platform}
use remote_backup_m.Server.Queue.{Queue, chunk_size, new_queue, push_tlv, note_error, add_tlv}
use remote_backup_m.Server.Queue.Holds.{frame, add_tlv-frame}
use remote_backup_m.Server.Session.{Session, accept, close, close_response, error_text}
use remote_backup_m.Server.Session.Closed.{closing}

abbrev pub sign_tlv : Bytes → Tlv
sign_tlv sign = record { tag = 2; value = sign }

-- The replies are one message with these segments.
abbrev pub one_reply : List Tlv → Queue
one_reply ts = record (new_queue 1) { msgs = frame 1 ts ∷ [] }

abbrev pub accepted : Bytes → List Tlv
accepted sign = sign_tlv sign ∷ closing TlvType.ok ErrType.none

-- The reply to a message of an upload that is accepted.
abbrev pub ok_reply : Bytes → Message
ok_reply sign = frame 1 (accepted sign)

-- Each message has one reply.
abbrev pub echoes : Bytes → List Message → List (List Message)
echoes sign [] = []
echoes sign (m ∷ ms) = (ok_reply sign ∷ []) ∷ echoes sign ms

pub one_reply-nil : new_queue 1 ≡ one_reply []
unfolding new_queue new_message
one_reply-nil = refl

-- A segment for which there is room.
add_tlv-room :
    (ts : List Tlv) (t : Tlv)
    → t.tag < 256
    → t.tag ≢ 5
    → length (encode_all ts) + length t.value + 4 ≤ chunk_size
    → add_tlv t.tag (length t.value) t.value (one_reply ts) ≡ ok (one_reply (ts ++ (t ∷ [])))
unfolding add_tlv push_tlv note_error size new_queue
add_tlv-room ts t f n room =
    let fits : leb (suc (length (encode_all ts)) + 1 + 2 + length t.value) chunk_size ≡ true =
      ground arith in
    rw (fits, add_tlv-frame 1 ts t (f, omega arith), take-length t.value) (ground arith)

module _ (sign : Bytes) (short : length sign + 10 ≤ chunk_size) where
  pub add_tlv-sign :
      add_tlv 2 (length sign) sign (new_queue 1) ≡ ok (one_reply (sign_tlv sign ∷ []))
  add_tlv-sign =
      rw one_reply-nil (add_tlv-room [] (sign_tlv sign) (omega arith) (omega arith) (omega arith))

  pub accept-one_reply :
      (P : Platform) (s : Session P)
      → accept P (record s { replies = one_reply (sign_tlv sign ∷ []) })
        ≡ ok (record s { replies = one_reply (accepted sign) })
  unfolding accept close close_response error_text
  accept-one_reply P s =
      let end : Tlv = record { tag = 3; value = [] } in
      let t : Tlv = record { tag = 4; value = [] } in
      rw (
        add_tlv-room (sign_tlv sign ∷ []) t (omega arith) (omega arith)
            (omega (arith, length-append sign [])),
        add_tlv-room (sign_tlv sign ∷ t ∷ []) end (omega arith) (omega arith)
            (omega (arith, length-append sign (encode_all (t ∷ [])))),
      )
