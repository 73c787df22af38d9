-- ===== src/Server/Session/Closed.antt =====
-- What `close_response` leaves of the replies.
use remote_backup_m.Prelude.{
  ◌≡◌, ◌<◌, ◌≢◌, subst, ◌∙◌, List, [], ◌∷◌, ◌++◌, append_assoc, ok, arith,
}
use remote_backup_m.Shared.Types.{TlvType, tlv_code, ErrType, err_code}
use remote_backup_m.Shared.Decimal.{ℤ, pos, stoi, stoi-to_string}
use remote_backup_m.Shared.Message.{Tlv}
use remote_backup_m.Shared.Platform.{Platform}
use remote_backup_m.Server.Queue.{Queue}
use remote_backup_m.Server.Queue.Holds.{Holds, add_tlv-plain}
use remote_backup_m.Server.Session.{error_text, close_response}

-- The two segments that end a reply.
abbrev pub closing : TlvType → ErrType → List Tlv
closing tlv err_type =
    record { tag = tlv_code tlv; value = error_text err_type } ∷ record { tag = 3; value = [] } ∷ []

err_code-lt : (err_type : ErrType) → err_code err_type < 1000
err_code-lt ErrType.none = omega arith
err_code-lt _ = omega arith

pub stoi-error_text :
    (err_type : ErrType)
    → err_code err_type ≢ 0
    → stoi (error_text err_type) ≡ ok (pos (err_code err_type))
unfolding error_text
stoi-error_text err_type n =
    ground (arith, stoi-to_string (err_code err_type), err_code-lt err_type)

pub record Closed (P : Platform) (q : Queue) (ts : List Tlv) (tlv : TlvType) (err_type : ErrType)
    (code : ℤ) : Type 0 where
  pub after : Queue
  pub closed : close_response P tlv err_type q ≡ ok after
  pub holds : Holds after (ts ++ closing tlv err_type)
  pub same_type : after.msg_type ≡ q.msg_type
  pub noted : after.err_type ≡ code

-- `close_response` with OK, on a queue that holds some segments, returns a queue that holds them,
-- an empty OK and END, within messages of at most CHUNK_SIZE bytes, and that has the code it had.
pub close_response-ok :
    (P : Platform) (q : Queue) (ts : List Tlv)
    → Holds q ts
    → Closed P q ts TlvType.ok ErrType.none q.err_type
unfolding error_text close_response
close_response-ok P q ts h =
    let end : Tlv = record { tag = 3; value = [] } in
    let t : Tlv = record { tag = 4; value = [] } in
    let a = add_tlv-plain q ts t h (omega arith, omega arith) (omega arith) in
    let b = add_tlv-plain a.after (ts ++ (t ∷ [])) end a.holds (omega arith) (omega arith) in
    record {
      after = b.after;
      closed = rw a.added b.added;
      holds = subst (Holds b.after) (append_assoc ts (t ∷ []) (end ∷ [])) b.holds;
      same_type = b.same_type ∙ a.same_type;
      noted = b.noted ∙ a.noted;
    }
