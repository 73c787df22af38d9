-- ===== src/Shared/Message.antt =====
-- shared/communication/message.cpp. A message is a byte vector behind a shared pointer; no two
-- copies of a message are used after one of them is written, so it is a value here.
use remote_backup_m.Prelude.{
  ℕ, ◌-◌, ◌/◌, ◌%◌, ◌<◌, ◌≡◌, refl, sym, List, [], ◌∷◌, ◌++◌, Bytes, length, take, replicate,
  take-length, append_assoc, Outcome, ok, fetch, Bool, ◌=?◌, bytes_eq, arith,
}

pub record Message : Type 0 where
  pub raw : Bytes

-- `message(MSG_TYPE)`.
unfoldable pub new_message : ℕ → Message
new_message msg_type = record { raw = (msg_type % 256) ∷ [] }

-- The tag, the length in two bytes, high one first, and the bytes at `buffer`. Every caller passes
-- the length of the buffer.
unfoldable pub add_tlv : ℕ → ℕ → Bytes → Message → Message
add_tlv tlv_type len buffer m = record m {
  raw = m.raw ++ ((tlv_type % 256) ∷ (len / 256) % 256 ∷ len % 256 ∷ take len buffer);
}

unfoldable pub msg_type : Message → Outcome ℕ
msg_type m = fetch m.raw 0

unfoldable pub size : Message → ℕ
size m = length m.raw

-- `std::vector::resize`: new bytes are 0.
unfoldable pub resize : ℕ → Message → Message
resize n m = record m { raw = take n m.raw ++ replicate (n - length m.raw) 0 }

unfoldable pub same_message : Message → Message → Bool
same_message m other = m.raw =? other.raw

-- The wire format, described apart from the code that writes it.
pub record Tlv : Type 0 where
  pub tag : ℕ
  pub value : Bytes

abbrev pub IsTlv : Tlv → Type 0
IsTlv t = (t.tag < 256) × (length t.value < 65536)

abbrev pub encode : Tlv → Bytes
encode t = t.tag ∷ (length t.value / 256) ∷ (length t.value % 256) ∷ t.value

abbrev pub encode_all : List Tlv → Bytes
encode_all [] = []
encode_all (t ∷ ts) = encode t ++ encode_all ts

-- `add_TLV` appends a segment of the wire format.
pub add_tlv-raw :
    (t : Tlv) (m : Message)
    → IsTlv t
    → (add_tlv t.tag (length t.value) t.value m).raw ≡ m.raw ++ encode t
unfolding add_tlv
add_tlv-raw t m (p, q) =
    let a : t.tag % 256 ≡ t.tag = omega arith in
    let b : (length t.value / 256) % 256 ≡ length t.value / 256 = omega arith in
    rw (a, b, take-length t.value)

pub encode_all-append : (ts us : List Tlv) → encode_all (ts ++ us) ≡ encode_all ts ++ encode_all us
encode_all-append [] us = refl
encode_all-append (t ∷ ts) us =
    rw (encode_all-append ts us) (sym (append_assoc (encode t) (encode_all ts) (encode_all us)))

pub msg_type-cons :
    (request : Message) (t : ℕ) (bs : Bytes) → request.raw ≡ t ∷ bs → msg_type request ≡ ok t
unfolding msg_type
msg_type-cons request t bs w = rw w
