-- ===== src/Shared/Chunks/Step.antt =====
-- `next_chunk` on a file that has more than one chunk, at most one, or a length in between.
use remote_backup_m.Prelude.{
  ℕ, ◌+◌, ◌-◌, ◌/◌, ◌%◌, ◌≡◌, ◌<◌, ◌≤◌, refl, ap, ◌∙◌, true, false, [], ◌∷◌, ◌++◌, append_assoc,
  append-nil, Bytes, length, length-append, take, take-append, take-length, drop, length-take_le,
  length-drop, drop-past, take-past, ok, err, runtime_error, ltb, arith,
}
use remote_backup_m.Shared.Message.{Message, Tlv, encode, add_tlv, resize}
use remote_backup_m.Shared.Chunks.{
  FMessage, chunk_size, sub64, read_chunk, middle_chunk, last_chunk, next_chunk,
}
use remote_backup_m.Shared.Chunks.Split.{
  Ready, content_header, filled, read_chunk-Ready, read_chunk-short,
}

abbrev pub content_tlv : Bytes → Tlv
content_tlv chunk = record { tag = 6; value = chunk }

abbrev pub end_tlv : Tlv
end_tlv = record { tag = 3; value = [] }

-- The messages that carry a chunk, behind the bytes `H`.
abbrev pub middle_frame : Bytes → Bytes → Message
middle_frame H chunk = record { raw = H ++ encode (content_tlv chunk) }

abbrev pub last_frame : Bytes → Bytes → Message
last_frame H chunk = record { raw = H ++ (encode (content_tlv chunk) ++ encode end_tlv) }

-- The bytes of content that fill a message.
abbrev pub capacity : Bytes → ℕ
capacity H = chunk_size - length H - 3

content_header-encode :
    (H chunk : Bytes)
    → length chunk < 65536
    → (H ++ content_header (length chunk)) ++ chunk ≡ H ++ encode (content_tlv chunk)
content_header-encode H chunk h =
    let e : (length chunk / 256) % 256 ≡ length chunk / 256 = omega arith in
    rw e (append_assoc H (6 ∷ length chunk / 256 ∷ length chunk % 256 ∷ []) chunk)

content_header-encode_of :
    (H chunk : Bytes) (n : ℕ)
    → length chunk ≡ n
    → n < 65536
    → (H ++ content_header n) ++ chunk ≡ H ++ encode (content_tlv chunk)
content_header-encode_of H chunk n l h = rw (← l) (content_header-encode H chunk (omega arith))

resize-prefix :
    (n : ℕ) (A D : Bytes) → n ≡ length A → resize n (record { raw = A ++ D }) ≡ record { raw = A }
unfolding resize
resize-prefix n A D e =
    let z : length A - length (A ++ D) ≡ 0 = omega (arith, length-append A D) in
    rw (e, z, take-append A D, append-nil A)

module _ (H tail : Bytes) (f : FMessage) (r : Ready H tail f)
    (unfinished : f.completed ≡ false) where
  abbrev pub after_middle : FMessage
  after_middle = record f {
    message = middle_frame H (take (capacity H) f.ifs);
    ifs = drop (capacity H) f.ifs;
    remaining = length f.ifs - capacity H;
  }

  pub after_middle-Ready :
      capacity H ≤ length f.ifs
      → Ready H (drop 1 (encode (content_tlv (take (capacity H) f.ifs)))) after_middle
  after_middle-Ready h = record {
    buffer = refl;
    full = omega (arith, r.room, length-take_le (capacity H) f.ifs h);
    room = r.room;
    at_content = r.at_content;
    header = r.header;
    rest = omega (arith, length-drop (capacity H) f.ifs);
    bounded = omega (arith, r.bounded, length-drop (capacity H) f.ifs);
  }

  middle_filled :
      capacity H ≤ length f.ifs
      → filled H tail (capacity H) (take (capacity H) f.ifs)
        ≡ middle_frame H (take (capacity H) f.ifs)
  middle_filled h =
      let l = length-take_le (capacity H) f.ifs h in
      let past =
        drop-past (length (take (capacity H) f.ifs)) (drop 2 tail)
          (omega (arith, l, r.full, r.room, length-drop 2 tail)) in
      let e' =
        content_header-encode_of H (take (capacity H) f.ifs) (capacity H) l
          (omega (arith, r.room)) in
      rw (past, append-nil (take (capacity H) f.ifs), e')

  to_read : sub64 (sub64 chunk_size f.header_size) 3 ≡ capacity H
  to_read = omega (arith, r.header, r.room)

  limit : sub64 (sub64 (sub64 chunk_size f.header_size) 3) 3 ≡ capacity H - 3
  limit = omega (arith, r.header, r.room)

  next_chunk-more : capacity H < f.remaining + 3 → next_chunk f ≡ middle_chunk f
  unfolding next_chunk
  next_chunk-more h =
      let more : ltb (sub64 (sub64 (sub64 chunk_size f.header_size) 3) 3) f.remaining ≡ true =
        rw limit (ground (arith, r.room)) in
      simp (unfinished, more)

  next_chunk-less : f.remaining + 3 ≤ capacity H → next_chunk f ≡ last_chunk f
  unfolding next_chunk
  next_chunk-less h =
      let less : ltb (sub64 (sub64 (sub64 chunk_size f.header_size) 3) 3) f.remaining ≡ false =
        rw limit (ground arith) in
      simp (unfinished, less)

  middle_chunk-Ready : capacity H ≤ length f.ifs → middle_chunk f ≡ ok (after_middle, true)
  unfolding middle_chunk
  middle_chunk-Ready h =
      let left : sub64 f.remaining (capacity H) ≡ length f.ifs - capacity H =
        omega (arith, r.rest, r.bounded) in
      rw (
        to_read,
        read_chunk-Ready H tail f r (capacity H) h (omega (arith, r.full, r.room)),
        left,
        middle_filled h,
      )

  -- A full chunk is taken from the file, and the buffer is ready for the next one.
  pub next_chunk-middle : capacity H ≤ length f.ifs → next_chunk f ≡ ok (after_middle, true)
  next_chunk-middle h = next_chunk-more (omega (arith, r.rest)) ∙ middle_chunk-Ready h

  last_filled :
      length f.ifs + 3 ≤ capacity H
      → resize (f.header_size + 3 + f.remaining) (filled H tail (length f.ifs) f.ifs)
        ≡ middle_frame H f.ifs
  last_filled h =
      let w : length f.ifs < 65536 = omega arith in
      let n = length-append (H ++ content_header (length f.ifs)) f.ifs in
      let n' = length-append H (content_header (length f.ifs)) in
      rw (
        ← append_assoc (H ++ content_header (length f.ifs)) f.ifs
            (drop (length f.ifs) (drop 2 tail)),
        resize-prefix (f.header_size + 3 + f.remaining)
            ((H ++ content_header (length f.ifs)) ++ f.ifs) (drop (length f.ifs) (drop 2 tail))
            (omega (arith, r.header, r.rest, n, n')),
        content_header-encode H f.ifs w,
      )

  last_chunk-Ready :
      length f.ifs + 3 ≤ capacity H
      → last_chunk f
        ≡ ok (
          record f { message = last_frame H f.ifs; ifs = []; remaining = 0; completed = true },
          true,
        )
  unfolding last_chunk add_tlv
  last_chunk-Ready h =
      rw (reading, drop-past (length f.ifs) f.ifs (omega arith), gone, last_filled h)
        (ap
          (λ b. ok (
            record f { message = record { raw = b }; ifs = []; remaining = 0; completed = true },
            true,
          ))
          (append_assoc H (encode (content_tlv f.ifs)) (encode end_tlv)))
    where
      completing : FMessage
      completing = record f { completed = true }

      ready : Ready H tail completing
      ready = record {
        buffer = r.buffer;
        full = r.full;
        room = r.room;
        at_content = r.at_content;
        header = r.header;
        rest = r.rest;
        bounded = r.bounded;
      }

      reading :
          read_chunk f.remaining completing
          ≡ ok (record completing {
            message = filled H tail (length f.ifs) f.ifs;
            ifs = drop (length f.ifs) f.ifs;
          })
      reading =
          ap (λ n. read_chunk n completing) r.rest
          ∙ read_chunk-Ready H tail completing ready (length f.ifs) (omega arith)
              (omega (arith, r.full, r.room))
          ∙ rw (take-length f.ifs)

      gone : sub64 f.remaining f.remaining ≡ 0
      gone = omega (arith, r.rest, r.bounded)

  -- What is left of the file fits into the message, and the message is completed with END.
  pub next_chunk-last :
      length f.ifs + 3 ≤ capacity H
      → next_chunk f
        ≡ ok (
          record f { message = last_frame H f.ifs; ifs = []; remaining = 0; completed = true },
          true,
        )
  next_chunk-last h = next_chunk-less (omega (arith, r.rest)) ∙ last_chunk-Ready h

  middle_chunk-gap : length f.ifs < capacity H → middle_chunk f ≡ err runtime_error
  unfolding middle_chunk
  middle_chunk-gap g = rw (
    to_read,
    read_chunk-short H tail f r (capacity H) g (omega (arith, r.full, r.room))
        (take-past (capacity H) f.ifs (omega arith)),
  )

  -- What is left is one or two bytes short of a full chunk: more than the file has is read.
  pub next_chunk-gap :
      capacity H < length f.ifs + 3 → length f.ifs < capacity H → next_chunk f ≡ err runtime_error
  next_chunk-gap h g = next_chunk-more (omega (arith, r.rest)) ∙ middle_chunk-gap g
