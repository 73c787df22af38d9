-- ===== src/Shared/Chunks/Split.antt =====
-- One chunk: what the buffer holds before it and after it.
use remote_backup_m.Prelude.{
  ℕ, ◌+◌, ◌/◌, ◌%◌, ◌^◌, ◌≡◌, ◌<◌, ◌≤◌, refl, sym, ap, ◌∙◌, true, false, [], ◌∷◌, ◌++◌,
  append_assoc, Bytes, length, length-append, take, take-append, drop, drop-add, drop-append,
  length-take_le, length-drop, ok, err, runtime_error, leb, ltb, arith,
}
use remote_backup_m.Shared.Message.{Message}
use remote_backup_m.Shared.Chunks.{FMessage, chunk_size, poke, read_chunk}

-- The buffer of a message between two chunks: a header `H`, the CONTENT tag and the rest up to
-- CHUNK_SIZE.
pub record Ready (H tail : Bytes) (f : FMessage) : Type 0 where
  pub buffer : f.message.raw ≡ H ++ (6 ∷ tail)
  pub full : length H + 1 + length tail ≡ chunk_size
  pub room : length H + 6 ≤ chunk_size
  pub at_content : f.content_at ≡ length H + 1
  pub header : f.header_size ≡ length H
  pub rest : f.remaining ≡ length f.ifs
  pub bounded : length f.ifs < 2 ^ 64

-- A write behind `A` replaces what stands there.
pub poke-append :
    (i : ℕ) (bytes A D : Bytes) (m : Message)
    → m.raw ≡ A ++ D
    → i ≡ length A
    → length bytes ≤ length D
    → poke i bytes m ≡ ok (record { raw = A ++ (bytes ++ drop (length bytes) D) })
unfolding poke
poke-append i bytes A D m e a h =
    rw (e, a, inside, take-append A D, drop-add (A ++ D) (length A) (length bytes), drop-append A D)
  where
    inside : leb (length A + length bytes) (length (A ++ D)) ≡ true
    inside = ground (arith, length-append A D)

-- The tag and the length of a CONTENT segment.
abbrev pub content_header : ℕ → Bytes
content_header n = 6 ∷ (n / 256) % 256 ∷ n % 256 ∷ []

abbrev pub filled : Bytes → Bytes → ℕ → Bytes → Message
filled H tail n chunk = record {
  raw = (H ++ content_header n) ++ (chunk ++ drop (length chunk) (drop 2 tail));
}

module _ (H tail : Bytes) (f : FMessage) (r : Ready H tail f) (n : ℕ) where
  first_poke :
      2 ≤ length tail
      → poke f.content_at ((n / 256) % 256 ∷ n % 256 ∷ []) f.message
        ≡ ok (record { raw = (H ++ content_header n) ++ drop 2 tail })
  first_poke h =
      poke-append f.content_at ((n / 256) % 256 ∷ n % 256 ∷ []) (H ++ (6 ∷ [])) tail f.message
        (r.buffer ∙ sym (append_assoc H (6 ∷ []) tail))
        (omega (arith, r.at_content, length-append H (6 ∷ []))) h
      ∙ ap (λ b. ok (record { raw = b })) regroup
    where
      regroup :
          (H ++ (6 ∷ [])) ++ (((n / 256) % 256 ∷ n % 256 ∷ []) ++ drop 2 tail)
          ≡ (H ++ content_header n) ++ drop 2 tail
      regroup = simp append_assoc

  second_poke :
      (chunk : Bytes)
      → length chunk + 2 ≤ length tail
      → poke (f.content_at + 2) chunk (record { raw = (H ++ content_header n) ++ drop 2 tail })
        ≡ ok (filled H tail n chunk)
  second_poke chunk h =
      poke-append (f.content_at + 2) chunk (H ++ content_header n) (drop 2 tail) _ refl
        (omega (arith, r.at_content, length-append H (content_header n)))
        (omega (arith, length-drop 2 tail))

  pub read_chunk-Ready :
      n ≤ length f.ifs
      → n + 2 ≤ length tail
      → read_chunk n f
        ≡ ok (record f { message = filled H tail n (take n f.ifs); ifs = drop n f.ifs })
  unfolding read_chunk
  read_chunk-Ready h w =
      let enough : ltb (length f.ifs) n ≡ false = ground arith in
      let l = length-take_le n f.ifs h in
      rw (first_poke (omega arith), second_poke (take n f.ifs) (omega (arith, l)), enough)

  -- A file that ends before the chunk does stops the transfer.
  pub read_chunk-short :
      length f.ifs < n
      → n + 2 ≤ length tail
      → take n f.ifs ≡ f.ifs
      → read_chunk n f ≡ err runtime_error
  unfolding read_chunk
  read_chunk-short h w e =
      let short : ltb (length f.ifs) n ≡ true = ground arith in
      rw (first_poke (omega arith), e, second_poke f.ifs (omega arith), short)
