-- ===== src/Shared/Chunks.antt =====
-- shared/communication/f_message.cpp: a file sent in messages of at most CHUNK_SIZE bytes, all in
-- one buffer. A `size_t` is a number below 2 ^ 64 and its differences wrap.
pub mod Split
pub mod Step
pub mod Transfer
pub mod Ends
pub mod More
use remote_backup_m.Prelude.{
  ℕ, zero, suc, ◌+◌, ◌-◌, ◌*◌, ◌/◌, ◌%◌, ◌^◌, ◌≡◌, Bool, true, false, List, [], ◌∷◌, ◌++◌, Bytes,
  length, take, drop, Option, none, some, Outcome, ok, err, undefined_behaviour, runtime_error,
  out_of_fuel, ◌>>=◌, ltb, leb, if◌then◌else◌,
}
use remote_backup_m.Shared.Types.{TlvType, tlv_code}
use remote_backup_m.Shared.Message.{Message, new_message, add_tlv, size, resize}

abbrev pub chunk_size : ℕ
chunk_size = 64 * 1024

abbrev pub sub64 : ℕ → ℕ → ℕ
sub64 a b = (a + 2 ^ 64 - b) % 2 ^ 64

-- `ifs` is what the stream has still to give. `content_at` is the offset of `f_content_`.
pub record FMessage : Type 0 where
  pub message : Message
  pub ifs : Bytes
  pub content_at : ℕ
  pub header_size : ℕ
  pub remaining : ℕ
  pub completed : Bool

-- A write of `bytes` from offset `i`, within the buffer or not at all.
unfoldable pub poke : ℕ → Bytes → Message → Outcome Message
poke i bytes m =
    if leb (i + length bytes) (length m.raw)
    then ok (record m { raw = take i m.raw ++ (bytes ++ drop (i + length bytes) m.raw) })
    else err undefined_behaviour

-- The length that `tellg` gives for a file that was opened, and -1 as a `size_t` for another.
abbrev pub file_size : Option Bytes → ℕ
file_size none = 2 ^ 64 - 1
file_size (some bytes) = length bytes

abbrev pub file_bytes : Option Bytes → Bytes
file_bytes none = []
file_bytes (some bytes) = bytes

-- The constructor, given the file's bytes (`none` where it could not be opened).
unfoldable pub open_f_message : ℕ → Option Bytes → Bytes → Outcome FMessage
open_f_message msg_type file sign = do
  let headed = add_tlv (tlv_code TlvType.item) (length sign) sign (new_message msg_type)
  let header = size headed
  m ← poke header (tlv_code TlvType.content ∷ []) (resize chunk_size headed)
  ok (record {
    message = m;
    ifs = file_bytes file;
    content_at = header + 1;
    header_size = header;
    remaining = file_size file;
    completed = false;
  })

-- The bytes that the read delivers go into the buffer also where they are too few.
unfoldable pub read_chunk : ℕ → FMessage → Outcome FMessage
read_chunk to_read f = do
  m ← poke f.content_at ((to_read / 256) % 256 ∷ to_read % 256 ∷ []) f.message
  m' ← poke (f.content_at + 2) (take to_read f.ifs) m
  if ltb (length f.ifs) to_read
      then err runtime_error
      else ok (record f { message = m'; ifs = drop to_read f.ifs })

-- The chunk that is not the last.
unfoldable pub middle_chunk : FMessage → Outcome (FMessage × Bool)
middle_chunk f = do
  let to_read = sub64 (sub64 chunk_size f.header_size) 3
  g ← read_chunk to_read f
  ok (record g { remaining = sub64 g.remaining to_read }, true)

-- The chunk that completes the message.
unfoldable pub last_chunk : FMessage → Outcome (FMessage × Bool)
last_chunk f = do
  g ← read_chunk f.remaining (record f { completed = true })
  let cut = resize (g.header_size + 3 + g.remaining) g.message
  ok (
    record g {
      message = add_tlv (tlv_code TlvType.end) 0 [] cut;
      remaining = sub64 g.remaining f.remaining;
    },
    true,
  )

unfoldable pub next_chunk : FMessage → Outcome (FMessage × Bool)
next_chunk f =
    if f.completed
    then ok (f, false)
    else if ltb (sub64 (sub64 (sub64 chunk_size f.header_size) 3) 3) f.remaining
    then middle_chunk f
    else last_chunk f

-- `while (f_msg->next_chunk()) …`, for the bodies that send or store each message.
unfoldable pub all_chunks : ℕ → FMessage → Outcome (List Message)
all_chunks zero f = err out_of_fuel
all_chunks (suc fuel) f = next_chunk f >>= λ r.
    if r.1 then (all_chunks fuel r.0 >>= λ rest. ok (r.0.message ∷ rest)) else ok []
