-- ===== src/Backup/Exchanges.antt =====
-- The exchanges of an upload: each message, and the reply to it.
use remote_backup_m.Prelude.{
  ℕ, ◌≡◌, ◌≢◌, refl, sym, ap, ◌∙◌, Bool, true, List, [], ◌∷◌, ◌++◌, Bytes, Option, some, Outcome,
  ok, err, ◌>>=◌,
}
use remote_backup_m.Shared.Message.{Message, encode_all}
use remote_backup_m.Shared.Chunks.{FMessage, open_f_message, all_chunks}
use remote_backup_m.Shared.Chunks.Transfer.{send_file}
use remote_backup_m.Server.Delivery.Reply.{accepted, ok_reply, echoes}
use remote_backup_m.Client.Resource.{yes}
use remote_backup_m.Client.Incoming.{Incoming, arrived, read}
use remote_backup_m.Client.Incoming.Joined.{arrivals, read-first, read_from-more}
use remote_backup_m.Client.Posting.{WriteEnd, Socket, async_post_file}
use remote_backup_m.Client.Posting.Whole.{
  Exchange, requests, written, arriving, last_reply, async_post_file-sent,
}
use remote_backup_m.Backup.{flatten, all_done}

-- A file that is sent was opened.
pub record Opened (fuel msg_type : ℕ) (file : Option Bytes) (sign : Bytes) (ms : List Message)
    : Type 0 where
  pub f : FMessage
  pub opened : open_f_message msg_type file sign ≡ ok f
  pub chunks : all_chunks fuel f ≡ ok ms

pub send_file-Opened :
    (fuel msg_type : ℕ) (file : Option Bytes) (sign : Bytes) (ms : List Message)
    → send_file fuel msg_type file sign ≡ ok ms
    → Opened fuel msg_type file sign ms
unfolding send_file
send_file-Opened fuel msg_type file sign ms h = split (open_f_message msg_type file sign) refl h
  where
    split :
        (r : Outcome FMessage)
        → open_f_message msg_type file sign ≡ r
        → (r >>= all_chunks fuel) ≡ ok ms
        → Opened fuel msg_type file sign ms
    split (err failure) e k = absurd (cc)
    split (ok f) e k = record { f = f; opened = e; chunks = k }

module _ (sign : Bytes) where
  -- The client reads the reply at once.
  read-ok_reply :
      (later : List Incoming)
      → read (arrived (ok_reply sign).raw ∷ later) ≡ ok ((yes, some (ok_reply sign)), later)
  read-ok_reply later =
      read-first 1 (encode_all (accepted sign)) later
      ∙ read_from-more 1 1 sign [] (accepted sign) (ok_reply sign).raw later refl

  abbrev exchange : Message → Exchange
  exchange m = record {
    request = m;
    arriving = arrived (ok_reply sign).raw ∷ [];
    reply = ok_reply sign;
    reads = read-ok_reply;
  }

  abbrev exchanges : List Message → List Exchange
  exchanges [] = []
  exchanges (m ∷ ms) = exchange m ∷ exchanges ms

  requests-exchanges : (ms : List Message) → requests (exchanges ms) ≡ ms
  requests-exchanges [] = refl
  requests-exchanges (m ∷ ms) = ap (◌∷◌ m) (requests-exchanges ms)

  arriving-exchanges :
      (ms : List Message) (later : List Incoming)
      → arriving (exchanges ms) later ≡ arrivals (flatten (echoes sign ms)) ++ later
  arriving-exchanges [] later = refl
  arriving-exchanges (m ∷ ms) later =
      ap (◌∷◌ (arrived (ok_reply sign).raw)) (arriving-exchanges ms later)

  written-exchanges :
      (ms : List Message) (ends : List WriteEnd) → written (exchanges ms) ends ≡ all_done ms ends
  written-exchanges [] ends = refl
  written-exchanges (m ∷ ms) ends = ap (◌∷◌ WriteEnd.done) (written-exchanges ms ends)

  last_reply-exchanges :
      (ms : List Message) → last_reply (some (ok_reply sign)) (exchanges ms) ≡ some (ok_reply sign)
  last_reply-exchanges [] = refl
  last_reply-exchanges (m ∷ ms) = last_reply-exchanges ms

  -- A file is posted, and every message is answered with an OK.
  pub async_post_file-echoes :
      (handle_reconnection : Socket → Socket × Bool) (n : ℕ) (f : FMessage) (s : Socket)
      (ms : List Message) (ends : List WriteEnd) (later : List Incoming)
      → ms ≢ []
      → all_chunks n f ≡ ok ms
      → async_post_file handle_reconnection n f (record s {
        writes = all_done ms ends;
        incoming = arrivals (flatten (echoes sign ms)) ++ later;
      })
        ≡ ok (
          some (ok_reply sign),
          record s { writes = ends; incoming = later; sent = s.sent ++ ms; keepalive = true },
        )
  async_post_file-echoes hr n f s [] ends later nonempty h = absurd (nonempty refl)
  async_post_file-echoes hr n f s (m ∷ ms) ends later nonempty h =
      ap
        (λ w.
          async_post_file hr n f (record s {
            writes = w;
            incoming = arrivals (flatten (echoes sign (m ∷ ms))) ++ later;
          }))
        (sym (written-exchanges (m ∷ ms) ends))
      ∙ ap
          (λ i.
            async_post_file hr n f
              (record s { writes = written (exchanges (m ∷ ms)) ends; incoming = i }))
          (sym (arriving-exchanges (m ∷ ms) later))
      ∙ async_post_file-sent hr n f s (exchange m) (exchanges ms) ends later
          (h ∙ ap ok (sym (requests-exchanges (m ∷ ms))))
      ∙ ap
          (λ o. ok (
            o,
            record s {
              writes = ends;
              incoming = later;
              sent = s.sent ++ requests (exchanges (m ∷ ms));
              keepalive = true;
            },
          ))
          (last_reply-exchanges ms)
      ∙ ap
          (λ x. ok (
            some (ok_reply sign),
            record s { writes = ends; incoming = later; sent = s.sent ++ x; keepalive = true },
          ))
          (requests-exchanges (m ∷ ms))
