-- ===== src/Tests/Posts.antt =====
-- A client that posts files.
use remote_backup_m.Prelude.{
  ◌≡◌, refl, true, false, [], ◌∷◌, Bytes, List, some, none, ok, bytes_eq, replicate,
}
use remote_backup_m.Shared.Message.{Message, encode_all, resize, add_tlv}
use remote_backup_m.Shared.View.{view_of, next_tlv, tlv_type}
use remote_backup_m.Shared.Chunks.{
  FMessage, next_chunk, middle_chunk, last_chunk, read_chunk, poke, all_chunks,
}
use remote_backup_m.Server.Session.{error_text}
use remote_backup_m.Client.Resource.{yes}
use remote_backup_m.Client.Incoming.{Incoming, arrived, read, read_from, kept, has_end, find_end}
use remote_backup_m.Client.Replies.{handle_create}
use remote_backup_m.Client.Replies.Closing.{Leaves}
use remote_backup_m.Client.Posting.{Socket, failed, async_post_file}
use remote_backup_m.Client.Posting.Whole.{Exchange, scripted, async_post_file-sent}
use remote_backup_m.Tests.Answers
use remote_backup_m.Client.Posting.Stale.{create-stale}

abbrev pub idle : Socket
idle = record {
  connects = [];
  handshakes = [];
  writes = [];
  incoming = [];
  sent = [];
  keepalive = false;
}

-- The server's OK for the sign.
abbrev sign : Bytes
sign = 97 ∷ 0 ∷ 120 ∷ []

abbrev accepted : Message
accepted = record {
  raw =
      1
      ∷ encode_all (
          record { tag = 2; value = sign }
          ∷ record { tag = 4; value = [] }
          ∷ record { tag = 3; value = [] }
          ∷ []);
}

-- A file of two bytes, with a small buffer.
abbrev opened : FMessage
opened = record {
  message = record { raw = 1 ∷ 2 ∷ 0 ∷ 3 ∷ 97 ∷ 0 ∷ 120 ∷ 6 ∷ replicate 12 0 };
  ifs = 7 ∷ 8 ∷ [];
  content_at = 8;
  header_size = 7;
  remaining = 2;
  completed = false;
}

abbrev whole : Message
whole = record { raw = 1 ∷ 2 ∷ 0 ∷ 3 ∷ 97 ∷ 0 ∷ 120 ∷ 6 ∷ 0 ∷ 2 ∷ 7 ∷ 8 ∷ 3 ∷ 0 ∷ 0 ∷ [] }

accepted-read :
    (later : List Incoming) → read (arrived accepted.raw ∷ later) ≡ ok ((yes, some accepted), later)
unfolding read read_from kept has_end find_end view_of next_tlv tlv_type
accepted-read later = refl

abbrev exchange : Message → Exchange
exchange m = record {
  request = m;
  arriving = arrived accepted.raw ∷ [];
  reply = accepted;
  reads = accepted-read;
}

opened-chunks : all_chunks 3 opened ≡ ok (whole ∷ [])
unfolding all_chunks next_chunk middle_chunk last_chunk read_chunk poke resize add_tlv
opened-chunks = refl

async_post_file-sent_example :
    async_post_file (λ s. (s, false)) 3 opened (scripted idle (exchange whole ∷ []) [] [])
    ≡ ok (some accepted, record idle { sent = whole ∷ []; keepalive = true })
async_post_file-sent_example =
    async_post_file-sent (λ s. (s, false)) 3 opened idle (exchange whole) [] [] [] opened-chunks

-- A file of eight bytes, of which a message takes six.
abbrev large : FMessage
large = record opened {
  ifs = 1 ∷ 2 ∷ 3 ∷ 4 ∷ 5 ∷ 6 ∷ 7 ∷ 8 ∷ [];
  header_size = 65527;
  remaining = 8;
}

abbrev first : Message
first = record {
  raw = 1 ∷ 2 ∷ 0 ∷ 3 ∷ 97 ∷ 0 ∷ 120 ∷ 6 ∷ 0 ∷ 6 ∷ 1 ∷ 2 ∷ 3 ∷ 4 ∷ 5 ∷ 6 ∷ replicate 4 0;
}

abbrev second : Message
second = add_tlv 3 0 [] (
    resize 65532 (record {
      raw = 1 ∷ 2 ∷ 0 ∷ 3 ∷ 97 ∷ 0 ∷ 120 ∷ 6 ∷ 0 ∷ 2 ∷ 7 ∷ 8 ∷ 3 ∷ 4 ∷ 5 ∷ 6 ∷ replicate 4 0;
    }))

large-chunks : all_chunks 3 large ≡ ok (first ∷ second ∷ [])
unfolding all_chunks next_chunk middle_chunk last_chunk read_chunk poke
large-chunks = refl

create-stale_example :
    (s' : Socket) × (async_post_file
        (λ s. (s, false))
        3
        large
        (scripted idle (exchange first ∷ []) (failed ∷ []) [])
      ≡ ok (some accepted, s'))
    × (s'.sent ≡ first ∷ [])
    × Leaves
        (97 ∷ [])
        sign
        none
        accepted
        Answers.waiting
        Answers.watched
        (handle_create (97 ∷ []) sign (some accepted) Answers.watched)
        (some (record Answers.waiting { synced = yes; exist_on_server = true }))
unfolding error_text
create-stale_example =
    create-stale (λ s. (s, false)) (97 ∷ []) sign accepted Answers.waiting Answers.watched 3 large
      idle (exchange first ∷ []) second [] [] [] large-chunks refl refl Answers.watched-NodupKeys
      Answers.watched-entry
