-- ===== src/Client/Posting.antt =====
-- `connect`, `sync_post`, `async_post` and `write` of client/core/connection.cpp. A posted function
-- runs alone on the connection's strand, so a call of `async_post` is what that function does.
pub mod Whole
pub mod Stale
use remote_backup_m.Prelude.{
  ℕ, zero, suc, Bool, true, false, List, [], ◌∷◌, ◌++◌, Option, none, some, Outcome, ok, err,
  Failure, runtime_error, exit_failure, blocked, out_of_fuel, ◌>>=◌, if◌then◌else◌,
}
use remote_backup_m.Shared.Types.{MsgType, msg_code, TlvType, tlv_code}
use remote_backup_m.Shared.Message.{Message, new_message, add_tlv}
use remote_backup_m.Shared.Chunks.{FMessage, next_chunk}
use remote_backup_m.Server.Handler.Remove.{is_exception}
use remote_backup_m.Client.Resource.{Tribool, yes, no, indeterminate}
use remote_backup_m.Client.Incoming.{Incoming, Answer, read}

-- How a write ends: it is done, it fails since the connection is lost, it fails otherwise, or an
-- exception other than `system_error` is thrown.
pub data WriteEnd : Type 0 where
  done lost failed thrown : WriteEnd

-- What the network does next: how connecting and handshakes end (true for an error), how writes end
-- and what arrives. `sent` is what the client wrote, each message behind its length, and `keepalive`
-- whether the timer is on.
pub record Socket : Type 0 where
  pub connects : List Bool
  pub handshakes : List Bool
  pub writes : List WriteEnd
  pub incoming : List Incoming
  pub sent : List Message
  pub keepalive : Bool

unfoldable pub cancel_keepalive : Socket → Socket
cancel_keepalive s = record s { keepalive = false }

unfoldable pub schedule_keepalive : Socket → Socket
schedule_keepalive s = record s { keepalive = true }

unfoldable pub handshake : List Bool → Socket → Outcome Socket
handshake [] s = err blocked
handshake (true ∷ rest) s = err exit_failure
handshake (false ∷ rest) s = ok (record s { handshakes = rest })

-- It is tried again until it works.
unfoldable pub connect_from : List Bool → Socket → Outcome Socket
connect_from [] s = err blocked
connect_from (true ∷ rest) s = connect_from rest s
connect_from (false ∷ rest) s = handshake s.handshakes (record s { connects = rest })

unfoldable pub connect : Socket → Outcome Socket
connect s = connect_from s.connects s

abbrev pub write_end : WriteEnd → Message → Socket → Tribool × Socket
write_end done m s = (yes, schedule_keepalive (record s { sent = s.sent ++ (m ∷ []) }))
write_end lost m s = (indeterminate, s)
write_end failed m s = (no, s)
write_end thrown m s = (no, schedule_keepalive s)

unfoldable pub write : Message → Socket → Outcome (Tribool × Socket)
unfolding cancel_keepalive schedule_keepalive
write m s = elim s.writes [
  | [] ↦ err blocked
  | e ∷ rest ↦ ok (write_end e m (cancel_keepalive (record s { writes = rest })))
]

-- `read`, with what it does to the timer.
abbrev pub read_end : Answer → Socket → Answer × Socket
read_end (yes, m) s = ((yes, m), schedule_keepalive s)
read_end (t, m) s = ((t, m), s)

unfoldable pub read_answer : Socket → Outcome (Answer × Socket)
unfolding cancel_keepalive schedule_keepalive
read_answer s = do
  r ← read s.incoming
  ok (read_end r.0 (cancel_keepalive (record s { incoming = r.1 })))

unfoldable pub sync_post : Message → Socket → Outcome (Answer × Socket)
sync_post request s = write request s >>= λ w. elim w.0 [
  | yes ↦ read_answer w.1
  | no ↦ ok ((no, none), w.1)
  | indeterminate ↦ ok ((indeterminate, none), w.1)
]

unfoldable pub keepalive_request : Message
keepalive_request = add_tlv (tlv_code TlvType.end) 0 [] (new_message (msg_code MsgType.keep_alive))

-- How a round of the loop over the chunks of a file ends: the function is called with this message,
-- or the loop goes on.
pub data Round : Type 0 where
  finished : Option Message × Socket → Round
  onward : Option Message → FMessage → Socket → Round

-- `handle_reconnection` is what is connected to the signal of that name: the socket behind it, and
-- whether it ends with an exception.
module _ (handle_reconnection : Socket → Socket × Bool) where
  -- An exception of the handler that nothing catches.
  unfoldable pub reconnected : Socket → Outcome Socket
  reconnected s =
      let (s', threw) = handle_reconnection s in if threw then err runtime_error else ok s'

  -- The timer's handler, when the timer expires.
  unfoldable pub expire_keepalive : Socket → Outcome Socket
  expire_keepalive s = sync_post keepalive_request (cancel_keepalive s) >>= λ r. elim r.0.0 [
    | yes ↦ ok r.1
    | no ↦ ok r.1
    | indeterminate ↦ reconnected r.1
  ]

  -- The function is called once, with the message that is returned here.
  unfoldable pub async_post : Message → Socket → Outcome (Option Message × Socket)
  async_post request s = write request s >>= λ w. elim w.0 [
    | no ↦ ok (none, w.1)
    | indeterminate ↦ (reconnected w.1 >>= λ s'. ok (none, s'))
    | yes ↦
        (read_answer w.1 >>= λ r. elim r.0.0 [
          | yes ↦ ok (r.0.1, r.1)
          | no ↦ ok (r.0.1, r.1)
          | indeterminate ↦ (reconnected r.1 >>= λ s'. ok (r.0.1, s'))
        ])
  ]

  -- `handle_reconnection_(); return fn(message);` within the `try` of the second `async_post`.
  abbrev pub give_up : Option Message → Socket → Option Message × Socket
  give_up message s =
      let (s', threw) = handle_reconnection s in (if threw then none else message, s')

  -- `last` is `result.second`, which a failed write leaves as it was.
  abbrev pub after_read : FMessage → Answer × Socket → Round
  after_read f ((yes, m), s) = onward m f s
  after_read f ((no, m), s) = finished (m, s)
  after_read f ((indeterminate, m), s) = finished (give_up m s)

  abbrev pub after_write : Option Message → FMessage → Tribool × Socket → Outcome Round
  after_write last f (yes, s) = read_answer s >>= λ r. ok (after_read f r)
  after_write last f (no, s) = ok (finished (last, s))
  after_write last f (indeterminate, s) = ok (finished (give_up last s))

  abbrev pub with_chunk : Option Message → Socket → Outcome (FMessage × Bool) → Outcome Round
  with_chunk last s (err failure) =
      if is_exception failure then ok (finished (none, s)) else err failure
  with_chunk last s (ok (f, false)) = ok (finished (last, s))
  with_chunk last s (ok (f, true)) = write f.message s >>= λ w. after_write last f w

  -- `while (request_msg->next_chunk()) …`.
  unfoldable pub post_chunks :
      ℕ → Option Message → FMessage → Socket → Outcome (Option Message × Socket)
  post_chunks zero last f s = err out_of_fuel
  post_chunks (suc fuel) last f s = with_chunk last s (next_chunk f) >>= λ r. elim r [
    | finished result ↦ ok result
    | onward m g s' ↦ post_chunks fuel m g s'
  ]

  unfoldable pub async_post_file : ℕ → FMessage → Socket → Outcome (Option Message × Socket)
  async_post_file fuel request s = post_chunks fuel none request s
