-- ===== src/Tests/Deliveries.antt =====
-- A file that is uploaded on the toy platform.
use remote_backup_m.Prelude.{
  ◌≡◌, refl, ap, ◌∙◌, true, false, [], ◌∷◌, ◌++◌, Bytes, List, some, none, ok, bytes_eq, subst, sym,
  arith,
}
use remote_backup_m.Shared.Message.{Message, new_message, add_tlv, resize, size}
use remote_backup_m.Shared.Tools.{create_sign, md5_hash, md5_to_string}
use remote_backup_m.Shared.Dir.{find, put}
use remote_backup_m.Shared.Dir.Entries.{find-put, beq_refl}
use remote_backup_m.Shared.Chunks.{
  open_f_message, poke, read_chunk, middle_chunk, last_chunk, next_chunk, all_chunks,
}
use remote_backup_m.Shared.Chunks.Step.{last_frame}
use remote_backup_m.Shared.Chunks.Transfer.{header, send_file}
use remote_backup_m.Server.User.{User}
use remote_backup_m.Server.Queue.{new_queue}
use remote_backup_m.Server.Delivery.{serve_all}
use remote_backup_m.Server.Delivery.Laws.{Appends}
use remote_backup_m.Server.Delivery.Chunk.{Upload, session}
use remote_backup_m.Server.Delivery.Served.{Delivered, Uploads}
use remote_backup_m.Server.Delivery.Whole.{Unended, send_file-Delivered}
use remote_backup_m.Tests.Toy.{toy, Files, append_to, touch}
use remote_backup_m.Tests.Toy
use remote_backup_m.Tests.Greedy.{toy-IsGreedy}

pub find-put_same : (p : Bytes) (b : Bytes) (d : Files) → find p (put p b d) ≡ some b
find-put_same p b d = find-put p p b d ∙ rw (beq_refl p)

pub touch-none : (p : Bytes) (d : Files) → find p d ≡ none → find p (touch p d) ≡ some []
touch-none p d h = rw (touch, h) (find-put_same p [] d)

pub touch-some : (p b : Bytes) (d : Files) → find p d ≡ some b → find p (touch p d) ≡ some b
touch-some p b d h = rw (touch, h) h

pub append_to-some :
    (p old b : Bytes) (d : Files) → find p d ≡ some old → find p (append_to p b d) ≡ some (old ++ b)
append_to-some p old b d h = rw (append_to, h) (find-put_same p (old ++ b) d)

abbrev toy_appends : (path : Bytes) → Appends toy path
toy_appends path = record {
  Fresh = λ d. find path d ≡ none;
  Written = λ s b d. (s ≡ path) × (find path d ≡ some b);
  dirs_fresh = λ d h. (d, refl, h);
  dirs_written = λ s b d h. (d, refl, h);
  open_fresh = λ d h. (touch path d, path, refl, (refl, touch-none path d h));
  open_again = λ s b d h. (touch path d, path, refl, (h.0, touch-some path b d h.1));
  good = λ s b d h. refl;
  write = λ s b chunk d h. (
    h.0,
    subst (λ p. find path (append_to p chunk d) ≡ some (b ++ chunk)) (sym h.0)
        (append_to-some path b chunk d h.1),
  );
  flush = λ s b d h. h;
  close = λ s b d h. ap Toy.read h.1;
}

-- The user, and a file "a" of two bytes.
abbrev pub uploader : User Bytes
uploader = record {
  id = 117 ∷ [];
  username = 117 ∷ [];
  ip = [];
  auth = true;
  synced = true;
  dir_ptr = none;
}

abbrev pub content : Bytes
content = 7 ∷ 8 ∷ []

abbrev digest : Bytes
digest = 97 ∷ 7 ∷ 8 ∷ []

abbrev sign : Bytes
sign = 97 ∷ 0 ∷ digest

sign-create_sign : create_sign toy (97 ∷ []) digest ≡ sign
unfolding create_sign
sign-create_sign = refl

sent : send_file 4 1 (some content) sign ≡ ok (last_frame (header 1 sign) content ∷ [])
unfolding send_file open_f_message new_message add_tlv size resize poke all_chunks next_chunk
    middle_chunk last_chunk read_chunk
sent = refl

pub unended : (ms : List Message) → send_file 4 1 (some content) sign ≡ ok ms → Unended ms
unended ms h =
    let same : last_frame (header 1 sign) content ∷ [] ≡ ms = cc sent in
    subst Unended same (λ e. absurd (e refl), tt)

pub uploads : Uploads toy uploader (97 ∷ []) digest
unfolding create_sign
uploads = record {
  greedy = toy-IsGreedy;
  same_path = refl;
  no_zero = (omega arith, (omega arith, (omega arith, tt)));
  short = omega arith;
  auth = refl;
  synced = refl;
}

abbrev pub upload : Upload toy
upload = record {
  u = uploader;
  root = 114 ∷ [];
  shared = false;
  rel = 97 ∷ [];
  digest = digest;
  c0 = [];
  laws = toy_appends (114 ∷ 47 ∷ 97 ∷ []);
}

send_file-Delivered_example :
    (ms : List Message) × (send_file 4 1 (some content) sign ≡ ok ms)
    × Delivered toy
        (114 ∷ [])
        (99 ∷ [])
        upload
        content
        ms
        (serve_all toy (114 ∷ []) (99 ∷ []) ms (session toy upload [] [] [] (new_queue 0)))
unfolding create_sign md5_hash md5_to_string find
send_file-Delivered_example =
    send_file-Delivered toy (114 ∷ []) (99 ∷ []) upload content [] [] [] (new_queue 0) uploads refl
      (omega arith) (omega arith)
      (record {
        tidy = record { entries = tt; users = tt; others = λ j h. refl };
        no_entry = refl;
        no_stream = refl;
        fresh = refl;
      })
      unended
