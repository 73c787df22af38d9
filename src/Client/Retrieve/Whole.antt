-- ===== src/Client/Retrieve/Whole.antt =====
-- A file that the server sends for RETRIEVE arrives whole.
use remote_backup_m.Prelude.{
  ℕ, zero, suc, ◌+◌, ◌^◌, ◌<◌, ◌≤◌, ◌≡◌, ◌≢◌, refl, true, List, [], ◌∷◌, ◌++◌, Bytes, length,
  length-append, some, ok, ◌==◌, ◌=?◌, bytes_eq, bytes_beq_iff, arith,
}
use remote_backup_m.Shared.Types.{MsgType, msg_code, TlvType, tlv_code}
use remote_backup_m.Shared.Message.{Message, msg_type, msg_type-cons, Tlv, encode, encode_all}
use remote_backup_m.Shared.View.{View, view_of, next_is, tlv_type}
use remote_backup_m.Shared.View.Walk.{
  Rest, view_of-Rest, shift, next_tlv-encode, shift-Rest, shift-Shows,
}
use remote_backup_m.Shared.Platform.{Platform}
use remote_backup_m.Shared.Chunks.{chunk_size}
use remote_backup_m.Shared.Chunks.Step.{content_tlv, end_tlv}
use remote_backup_m.Shared.Chunks.Transfer.{frames, header, concat, Fits, send_file, send_file-Fits}
use remote_backup_m.Client.Resource.{yes}
use remote_backup_m.Client.Incoming.{Incoming, read}
use remote_backup_m.Client.Incoming.Joined.{item, file_tlvs, arrivals, read-frames}
use remote_backup_m.Client.Retrieve.{copy_contents}

module _ (P : Platform) where
  -- The pieces, written one after the other.
  abbrev pub write_all : List Bytes → P.Stream → P.Disk → P.Stream × P.Disk
  write_all [] stream disk = (stream, disk)
  write_all (p ∷ ps) stream disk = let w = P.write stream p disk in write_all ps w.1 w.0

  -- The loop writes the pieces and stops at END.
  pub record Copies (fuel : ℕ) (sign : Bytes) (v : View) (ps : List Bytes) (stream : P.Stream)
      (disk : P.Disk) : Type 0 where
    pub after : View
    pub copied :
        copy_contents P fuel sign v stream disk
        ≡ ok (after, (write_all ps stream disk).0, (write_all ps stream disk).1)
    pub at_end : tlv_type after ≡ ok (tlv_code TlvType.end)

  next_is-encode :
      (expected : TlvType) (v : View) (t : Tlv) (rest : Bytes)
      → Rest v (encode t ++ rest)
      → next_is expected v ≡ ok (shift v t, t.tag == tlv_code expected)
  unfolding next_is tlv_type
  next_is-encode expected v t rest r = rw (next_tlv-encode v t rest r)

  copy_contents-Copies :
      (fuel : ℕ) (sign : Bytes) (v : View) (ps : List Bytes) (stream : P.Stream) (disk : P.Disk)
      → Rest v (encode_all (file_tlvs sign ps))
      → length ps < fuel
      → Copies fuel sign v ps stream disk
  unfolding copy_contents tlv_type
  copy_contents-Copies zero sign v ps stream disk r h = elim h [ ]
  copy_contents-Copies (suc fuel) sign v [] stream disk r h = record {
    after = shift v end_tlv;
    copied = rw (next_is-encode TlvType.item v end_tlv [] r);
    at_end = refl;
  }
  copy_contents-Copies (suc fuel) sign v (p ∷ ps) stream disk r h =
      let same : (sign =? sign) ≡ true = (bytes_beq_iff sign sign).1 refl in
      let rest = encode_all (content_tlv p ∷ file_tlvs sign ps) in
      let r' = shift-Rest v (item sign) rest r in
      let r'' =
        shift-Rest (shift v (item sign)) (content_tlv p) (encode_all (file_tlvs sign ps)) r' in
      let w = P.write stream p disk in
      let c =
        copy_contents-Copies fuel sign (shift (shift v (item sign)) (content_tlv p)) ps w.1 w.0 r''
          (omega arith) in
      record {
        after = c.after;
        copied = rw (
          next_is-encode TlvType.item v (item sign) rest r,
          (shift-Shows v (item sign) rest r).shown,
          same,
          next_is-encode TlvType.content (shift v (item sign)) (content_tlv p)
              (encode_all (file_tlvs sign ps)) r',
          (shift-Shows (shift v (item sign)) (content_tlv p) (encode_all (file_tlvs sign ps))
              r').shown,
          c.copied,
        );
        at_end = c.at_end;
      }

length-file_tlvs :
    (sign : Bytes) (ps : List Bytes) → length ps ≤ length (encode_all (file_tlvs sign ps))
length-file_tlvs sign [] = omega arith
length-file_tlvs sign (p ∷ ps) = omega (
  arith,
  length-file_tlvs sign ps,
  length-append sign (encode_all (content_tlv p ∷ file_tlvs sign ps)),
  length-append p (encode_all (file_tlvs sign ps)),
)

-- What the client has of a file that was sent in pieces: whatever the socket delivers later, `read`
-- returns a message of type RETRIEVE and leaves that, and copying its contents writes the pieces, in order, to whatever stream.
pub record Retrieved (sign : Bytes) (sent : List Message) (pieces : List Bytes) : Type 1 where
  pub reply : Message
  pub received :
      (later : List Incoming) → read (arrivals sent ++ later) ≡ ok ((yes, some reply), later)
  pub typed : msg_type reply ≡ ok (msg_code MsgType.retrieve)
  pub copied :
      (P : Platform) (stream : P.Stream) (disk : P.Disk)
      → Copies P (suc (length reply.raw)) sign (view_of reply) pieces stream disk

frames-Retrieved :
    (sign : Bytes) (ps : List Bytes)
    → ps ≢ []
    → Retrieved sign (frames (header (msg_code MsgType.retrieve) sign) ps) ps
frames-Retrieved sign ps n =
    let raw : Bytes = msg_code MsgType.retrieve ∷ encode_all (file_tlvs sign ps) in
    record {
      reply = record { raw = raw };
      received = λ later. read-frames (msg_code MsgType.retrieve) sign ps later n;
      typed = msg_type-cons _ (msg_code MsgType.retrieve) (encode_all (file_tlvs sign ps)) refl;
      copied = λ P stream disk.
          copy_contents-Copies P (suc (length raw)) sign _ ps stream disk
            (view_of-Rest _ (msg_code MsgType.retrieve) (encode_all (file_tlvs sign ps)) refl)
            (omega (arith, length-file_tlvs sign ps));
    }

-- A file that the server sends for a RETRIEVE reaches the client whole, if its sign leaves room for
-- ten bytes in a message, its length has 64 bits and, modulo the content of a full message, leaves room
-- for an END: sending ends with messages that `read` puts together to a reply, and `retrieve` writes
-- from that reply pieces that are the file's bytes.
pub send_file-Retrieved :
    (content sign : Bytes)
    → length sign + 10 ≤ chunk_size
    → length content < 2 ^ 64
    → Fits (header (msg_code MsgType.retrieve) sign) (length content)
    → (sent : List Message) × (send_file
          (length content + 2)
          (msg_code MsgType.retrieve)
          (some content)
          sign
        ≡ ok sent)
      × (pieces : List Bytes) × (concat pieces ≡ content)
      × Retrieved sign sent pieces
send_file-Retrieved content sign short bounded fits =
    let (pieces, sent, whole, within, nonempty) =
      send_file-Fits (msg_code MsgType.retrieve) content sign short bounded fits in
    (
      frames (header (msg_code MsgType.retrieve) sign) pieces,
      sent,
      pieces,
      whole,
      frames-Retrieved sign pieces nonempty,
    )
