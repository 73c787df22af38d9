-- ===== src/Client/Incoming.antt =====
-- `read` of client/core/connection.cpp: the messages of a reply are put together until a segment END
-- is in them.
pub mod Joined
use remote_backup_m.Prelude.{
  ℕ, zero, suc, ◌+◌, Bool, true, false, ◌||◌, List, [], ◌∷◌, ◌++◌, Bytes, length, drop, Option,
  none, some, Outcome, ok, err, undefined_behaviour, blocked, out_of_fuel, ◌>>=◌, ◌==◌,
  if◌then◌else◌,
}
use remote_backup_m.Shared.Types.{TlvType, tlv_code}
use remote_backup_m.Shared.Message.{Message}
use remote_backup_m.Shared.View.{View, view_of, next_tlv, tlv_type}
use remote_backup_m.Client.Resource.{Tribool, yes, no, indeterminate}

-- What the socket delivers next: a length and as many bytes, or an error. The connection is lost with
-- the codes `eof`, `connection_reset` and `broken_pipe`.
pub data Incoming : Type 0 where
  arrived : Bytes → Incoming
  lost failed : Incoming

-- `while (view.next_tlv()) if (view.tlv_type() == END) ended = true;`.
unfoldable pub find_end : ℕ → View → Bool → Outcome Bool
find_end zero v ended = err out_of_fuel
find_end (suc fuel) v ended = next_tlv v >>= λ r.
    if r.1
    then (tlv_type r.0 >>= λ t. find_end fuel r.0 (ended || t == tlv_code TlvType.end))
    else ok ended

unfoldable pub has_end : Bytes → Outcome Bool
has_end raw = find_end (suc (length raw)) (view_of (record { raw = raw })) false

abbrev pub Answer : Type 0
Answer = Tribool × Option Message

-- The bytes of a message that are kept: behind the first message, not its type. Of a message without
-- a byte the length wraps there, and the bytes are read behind the end of the vector.
unfoldable pub kept : Bool → Bytes → Outcome Bytes
kept true bytes = ok bytes
kept false [] = err undefined_behaviour
kept false (t ∷ bytes) = ok bytes

-- `raw` is what was received before. What the socket delivers behind the answer is left.
unfoldable pub read_from : Bool → Bytes → List Incoming → Outcome (Answer × List Incoming)
read_from first raw [] = err blocked
read_from first raw (lost ∷ rest) = ok ((indeterminate, none), rest)
read_from first raw (failed ∷ rest) = ok ((no, none), rest)
read_from first raw (arrived bytes ∷ rest) =
    let again : Bytes → Outcome (Answer × List Incoming) =
      λ more. read_from false (raw ++ more) rest in
    kept first bytes >>= λ more. has_end (raw ++ more) >>= λ ended.
    if ended then ok ((yes, some (record { raw = raw ++ more })), rest) else again more

unfoldable pub read : List Incoming → Outcome (Answer × List Incoming)
read incoming = read_from true [] incoming
