-- ===== src/Shared/Chunks/Transfer.antt =====
-- A whole file in messages.
use remote_backup_m.Prelude.{
  ℕ, zero, suc, ◌+◌, ◌-◌, ◌%◌, ◌^◌, ◌≡◌, ◌<◌, ◌≤◌, ◌≢◌, refl, ap, ◌∙◌, true, false, List, [], ◌∷◌,
  ◌++◌, append-nil, Bytes, All, length, length-append, take, drop, length-take_le, replicate,
  length-replicate, length-drop, take-append-drop, take-past, Option, some, Outcome, ok, err,
  runtime_error, ◌>>=◌, arith, dec_lt,
}
use native.Mathlib.Nat.{mod-eq_of_lt, mod-eq-sub-mod}
use remote_backup_m.Shared.Types.{TlvType, tlv_code}
use remote_backup_m.Shared.Message.{
  Message, encode, add_tlv, add_tlv-raw, new_message, resize, size,
}
use remote_backup_m.Shared.Chunks.{
  FMessage, chunk_size, poke, open_f_message, next_chunk, all_chunks,
}
use remote_backup_m.Shared.Chunks.Split.{Ready, poke-append}
use remote_backup_m.Shared.Chunks.Step.{
  content_tlv, end_tlv, middle_frame, last_frame, capacity, next_chunk-middle, next_chunk-last,
  next_chunk-gap, after_middle, after_middle-Ready,
}

-- The messages for the pieces of a file: the last one has an END.
abbrev pub frames : Bytes → List Bytes → List Message
frames H [] = []
frames H (p ∷ []) = last_frame H p ∷ []
frames H (p ∷ q ∷ ps) = middle_frame H p ∷ frames H (q ∷ ps)

abbrev pub concat : List Bytes → Bytes
concat [] = []
concat (p ∷ ps) = p ++ concat ps

-- The file is split as `f` will send it.
pub record Sends (H : Bytes) (fuel : ℕ) (f : FMessage) : Type 0 where
  pub pieces : List Bytes
  pub sent : all_chunks fuel f ≡ ok (frames H pieces)
  pub nonempty : pieces ≢ []
  pub whole : concat pieces ≡ f.ifs
  pub within : All (λ m. length m.raw ≤ chunk_size) (frames H pieces)

-- What is left over behind the full chunks leaves room for an END, or is nothing.
abbrev pub Fits : Bytes → ℕ → Type 0
Fits H n = n % capacity H + 3 ≤ capacity H

all_chunks-done :
    (fuel : ℕ) (f : FMessage) → f.completed ≡ true → 0 < fuel → all_chunks fuel f ≡ ok []
unfolding all_chunks next_chunk
all_chunks-done zero f e h = elim h [ ]
all_chunks-done (suc fuel) f e h = rw e

frames-cons :
    (H p : Bytes) (ps : List Bytes) → ps ≢ [] → frames H (p ∷ ps) ≡ middle_frame H p ∷ frames H ps
frames-cons H p [] n = absurd (n refl)
frames-cons H p (q ∷ ps) n = refl

Ready-Sends :
    (fuel : ℕ) (H tail : Bytes) (f : FMessage)
    → Ready H tail f
    → f.completed ≡ false
    → length f.ifs + 1 < fuel
    → Fits H (length f.ifs)
    → Sends H fuel f
unfolding all_chunks
Ready-Sends zero H tail f r u h fit = elim h [ ]
Ready-Sends (suc fuel) H tail f r u h fit = elim (dec_lt (length f.ifs) (capacity H)) [
  | yes short ↦
      let e = mod-eq_of_lt short in
      record {
        pieces = f.ifs ∷ [];
        sent = rw (
          next_chunk-last H tail f r u (omega (arith, e)),
          all_chunks-done fuel
              (record f { message = last_frame H f.ifs; ifs = []; remaining = 0; completed = true })
              refl (omega arith),
        );
        nonempty = λ p. cc;
        whole = append-nil f.ifs;
        within = (
          omega (
            arith,
            r.room,
            length-append H (encode (content_tlv f.ifs) ++ encode end_tlv),
            length-append f.ifs (encode end_tlv),
          ),
          tt,
        );
      }
  | no long ↦
      let e = mod-eq-sub-mod {n = length f.ifs} {m = capacity H} (omega arith) in
      let l = length-drop (capacity H) f.ifs in
      let rest =
        Ready-Sends fuel H (drop 1 (encode (content_tlv (take (capacity H) f.ifs))))
          (after_middle H tail f r u) (after_middle-Ready H tail f r u (omega arith)) u
          (omega (arith, l, r.room)) (rw l (rw e at fit)) in
      record {
        pieces = take (capacity H) f.ifs ∷ rest.pieces;
        sent = rw (
          next_chunk-middle H tail f r u (omega arith),
          rest.sent,
          frames-cons H (take (capacity H) f.ifs) rest.pieces rest.nonempty,
        );
        nonempty = λ p. cc;
        whole = rw rest.whole (take-append-drop (capacity H) f.ifs);
        within = rw (frames-cons H (take (capacity H) f.ifs) rest.pieces rest.nonempty) (
          omega (
            arith,
            r.room,
            length-append H (encode (content_tlv (take (capacity H) f.ifs))),
            length-take_le (capacity H) f.ifs (omega arith),
          ),
          rest.within,
        );
      }
]

Ready-gap :
    (fuel : ℕ) (H tail : Bytes) (f : FMessage)
    → Ready H tail f
    → f.completed ≡ false
    → length f.ifs + 1 < fuel
    → ¬ Fits H (length f.ifs)
    → all_chunks fuel f ≡ err runtime_error
unfolding all_chunks
Ready-gap zero H tail f r u h gap = elim h [ ]
Ready-gap (suc fuel) H tail f r u h gap = elim (dec_lt (length f.ifs) (capacity H)) [
  | yes short ↦
      let e = mod-eq_of_lt short in rw (next_chunk-gap H tail f r u (omega (arith, e)) short)
  | no long ↦
      let e = mod-eq-sub-mod {n = length f.ifs} {m = capacity H} (omega arith) in
      let l = length-drop (capacity H) f.ifs in
      rw (
        next_chunk-middle H tail f r u (omega arith),
        Ready-gap fuel H (drop 1 (encode (content_tlv (take (capacity H) f.ifs))))
            (after_middle H tail f r u) (after_middle-Ready H tail f r u (omega arith)) u
            (omega (arith, l, r.room)) (rw l (rw e at gap)),
      )
]

-- The bytes before the content of every message of a file.
abbrev pub header : ℕ → Bytes → Bytes
header msg_type sign = (msg_type % 256) ∷ encode (record { tag = 2; value = sign })

-- A file is opened and all its messages are taken, as `async_post` and `handle_retrieve` do.
unfoldable pub send_file : ℕ → ℕ → Option Bytes → Bytes → Outcome (List Message)
send_file fuel msg_type file sign = open_f_message msg_type file sign >>= all_chunks fuel

pub record Opens (msg_type : ℕ) (content sign : Bytes) : Type 0 where
  pub f : FMessage
  pub tail : Bytes
  pub opened : open_f_message msg_type (some content) sign ≡ ok f
  pub ready : Ready (header msg_type sign) tail f
  pub unfinished : f.completed ≡ false
  pub unread : f.ifs ≡ content

resize-longer :
    (n : ℕ) (A : Bytes)
    → length A ≤ n
    → resize n (record { raw = A }) ≡ record { raw = A ++ replicate (n - length A) 0 }
unfolding resize
resize-longer n A h = rw (take-past n A h)

module _ (msg_type : ℕ) (content sign : Bytes) (short : length sign + 10 ≤ chunk_size) where
  headed :
      add_tlv (tlv_code TlvType.item) (length sign) sign (new_message msg_type)
      ≡ record { raw = header msg_type sign }
  unfolding new_message
  headed =
      ap (λ b. record { raw = b })
        (add_tlv-raw (record { tag = 2; value = sign }) (new_message msg_type)
          (omega arith, omega arith))

  abbrev blank : Bytes
  blank = replicate (chunk_size - length (header msg_type sign)) 0

  blank_buffer :
      resize chunk_size (record { raw = header msg_type sign })
      ≡ record { raw = header msg_type sign ++ blank }
  blank_buffer = resize-longer chunk_size (header msg_type sign) (omega arith)

  tagged :
      poke (length (header msg_type sign)) (6 ∷ []) (record { raw = header msg_type sign ++ blank })
      ≡ ok (record { raw = header msg_type sign ++ (6 ∷ drop 1 blank) })
  tagged =
      poke-append (length (header msg_type sign)) (6 ∷ []) (header msg_type sign) blank _ refl refl
        (omega (arith, length-replicate {A = ℕ} (chunk_size - length (header msg_type sign)) 0))

  opened : FMessage
  opened = record {
    message = record { raw = header msg_type sign ++ (6 ∷ drop 1 blank) };
    ifs = content;
    content_at = length (header msg_type sign) + 1;
    header_size = length (header msg_type sign);
    remaining = length content;
    completed = false;
  }

  open_f_message-opened : open_f_message msg_type (some content) sign ≡ ok opened
  unfolding open_f_message size opened
  open_f_message-opened = rw (headed, blank_buffer, tagged)

  open_f_message-Opens : length content < 2 ^ 64 → Opens msg_type content sign
  unfolding opened
  open_f_message-Opens bounded = record {
    f = opened;
    tail = drop 1 blank;
    opened = open_f_message-opened;
    ready = record {
      buffer = refl;
      full = omega (
        arith,
        length-drop 1 blank,
        length-replicate {A = ℕ} (chunk_size - length (header msg_type sign)) 0,
      );
      room = omega arith;
      at_content = refl;
      header = refl;
      rest = refl;
      bounded = bounded;
    };
    unfinished = refl;
    unread = refl;
  }

  -- A file whose length modulo the content of a full message leaves room for an END is sent whole,
  -- if its sign leaves room for ten bytes in a message and its length has 64 bits: opening it and
  -- taking its messages ends with messages of at most CHUNK_SIZE bytes that carry the pieces of the
  -- file, in order and one at least, each behind the sign, and an END behind the last piece alone.
  pub send_file-Fits :
      length content < 2 ^ 64
      → Fits (header msg_type sign) (length content)
      → (pieces : List Bytes) × (send_file (length content + 2) msg_type (some content) sign
          ≡ ok (frames (header msg_type sign) pieces))
        × (concat pieces ≡ content)
        × All (λ m. length m.raw ≤ chunk_size) (frames (header msg_type sign) pieces)
        × (pieces ≢ [])
  unfolding send_file
  send_file-Fits bounded fits =
      let o = open_f_message-Opens bounded in
      let s =
        Ready-Sends (length content + 2) (header msg_type sign) o.tail o.f o.ready o.unfinished
          (omega (arith, ap length o.unread)) (rw o.unread fits) in
      (s.pieces, rw o.opened s.sent, s.whole ∙ o.unread, s.within, s.nonempty)

  -- A file whose length modulo the content of a full message does not leave room for an END, whose
  -- sign leaves room for ten bytes in a message and whose length has 64 bits, is never sent: one or
  -- two bytes less than a full chunk remain behind its full chunks, and the read of the missing
  -- ones throws.
  pub send_file-gap :
      length content < 2 ^ 64
      → ¬ Fits (header msg_type sign) (length content)
      → send_file (length content + 2) msg_type (some content) sign ≡ err runtime_error
  unfolding send_file
  send_file-gap bounded gap =
      let o = open_f_message-Opens bounded in
      rw o.opened (
        Ready-gap (length content + 2) (header msg_type sign) o.tail o.f o.ready o.unfinished
          (omega (arith, ap length o.unread)) (rw o.unread gap))
