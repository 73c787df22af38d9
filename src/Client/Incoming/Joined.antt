-- ===== src/Client/Incoming/Joined.antt =====
-- The messages of a file, put together.
use remote_backup_m.Prelude.{
  ℕ, zero, suc, ◌<◌, ◌%◌, ◌≡◌, ◌≢◌, refl, sym, ap, ◌∙◌, Bool, false, ◌||◌, List, [], ◌∷◌, ◌++◌,
  append_assoc, append-nil, Bytes, length, some, ok, ◌==◌, if◌then◌else◌, arith,
}
use remote_backup_m.Shared.Message.{Message, Tlv, encode, encode_all, encode_all-append}
use remote_backup_m.Shared.View.{View, view_of, tlv_type}
use remote_backup_m.Shared.View.Walk.{
  length-encode_all, Rest, view_of-Rest, shift, next_tlv-encode, next_tlv-nil, shift-Rest,
}
use remote_backup_m.Shared.Chunks.Step.{content_tlv, end_tlv, middle_frame, last_frame}
use remote_backup_m.Shared.Chunks.Transfer.{frames, header}
use remote_backup_m.Client.Resource.{yes}
use remote_backup_m.Client.Incoming.{Incoming, arrived, find_end, has_end, kept, read_from, read}

-- Whether one of the segments is END, or `ended`.
abbrev pub ended_by : Bool → List Tlv → Bool
ended_by ended [] = ended
ended_by ended (t ∷ ts) = ended_by (ended || t.tag == 3) ts

ended_by-append :
    (ended : Bool) (ts us : List Tlv) → ended_by ended (ts ++ us) ≡ ended_by (ended_by ended ts) us
ended_by-append ended [] us = refl
ended_by-append ended (t ∷ ts) us = ended_by-append (ended || t.tag == 3) ts us

find_end-encode_all :
    (fuel : ℕ) (v : View) (ended : Bool) (ts : List Tlv)
    → Rest v (encode_all ts)
    → length ts < fuel
    → find_end fuel v ended ≡ ok (ended_by ended ts)
unfolding find_end tlv_type
find_end-encode_all zero v ended ts r h = elim h [ ]
find_end-encode_all (suc fuel) v ended [] r h = rw (next_tlv-nil v r)
find_end-encode_all (suc fuel) v ended (t ∷ ts) r h = rw (
  next_tlv-encode v t (encode_all ts) r,
  find_end-encode_all fuel (shift v t) (ended || t.tag == 3) ts (shift-Rest v t (encode_all ts) r)
      (omega arith),
)

has_end-encode_all : (b : ℕ) (ts : List Tlv) → has_end (b ∷ encode_all ts) ≡ ok (ended_by false ts)
unfolding has_end
has_end-encode_all b ts =
    find_end-encode_all _ (view_of (record { raw = b ∷ encode_all ts })) false ts
      (view_of-Rest _ b (encode_all ts) refl) (omega (arith, length-encode_all ts))

abbrev pub item : Bytes → Tlv
item sign = record { tag = 2; value = sign }

-- What the reply to a RETRIEVE says: the sign before every piece, and an END.
abbrev pub file_tlvs : Bytes → List Bytes → List Tlv
file_tlvs sign [] = end_tlv ∷ []
file_tlvs sign (p ∷ ps) = item sign ∷ content_tlv p ∷ file_tlvs sign ps

abbrev pub arrivals : List Message → List Incoming
arrivals [] = []
arrivals (m ∷ ms) = arrived m.raw ∷ arrivals ms

module _ (b t : ℕ) (sign : Bytes) where
  abbrev so_far : List Tlv → Message
  so_far ts = record { raw = b ∷ encode_all ts }

  -- One more message.
  pub read_from-more :
      (done ts : List Tlv) (bytes : Bytes) (rest : List Incoming)
      → bytes ≡ (t % 256) ∷ encode_all ts
      → read_from false (so_far done).raw (arrived bytes ∷ rest) ≡ (
          if ended_by false (done ++ ts)
          then ok ((yes, some (so_far (done ++ ts))), rest)
          else read_from false (so_far (done ++ ts)).raw rest)
  unfolding read_from kept
  read_from-more done ts bytes rest e =
      rw (e, sym (encode_all-append done ts), has_end-encode_all b (done ++ ts))

  read_from-frames :
      (done : List Tlv) (ps : List Bytes) (later : List Incoming)
      → ps ≢ []
      → ended_by false done ≡ false
      → read_from false (so_far done).raw (arrivals (frames (header t sign) ps) ++ later)
        ≡ ok ((yes, some (so_far (done ++ file_tlvs sign ps))), later)
  read_from-frames done [] later n h = absurd (n refl)
  read_from-frames done (p ∷ []) later n h =
      let e = ended_by-append false done (file_tlvs sign (p ∷ [])) in
      rw (
        read_from-more done (file_tlvs sign (p ∷ [])) (last_frame (header t sign) p).raw later refl,
        e,
        h,
      )
  read_from-frames done (p ∷ q ∷ ps) later n h =
      let ts : List Tlv = item sign ∷ content_tlv p ∷ [] in
      let e : ended_by false (done ++ ts) ≡ false = ended_by-append false done ts ∙ rw h in
      rw (
        read_from-more done ts (middle_frame (header t sign) p).raw
            (arrivals (frames (header t sign) (q ∷ ps)) ++ later)
            (ap (λ x. header t sign ++ x) (sym (append-nil (encode (content_tlv p))))),
        e,
        read_from-frames (done ++ ts) (q ∷ ps) later (λ x. cc) e,
        append_assoc done ts (file_tlvs sign (q ∷ ps)),
      )

-- The first message is kept whole.
pub read-first :
    (t : ℕ) (bytes : Bytes) (rest : List Incoming)
    → read (arrived (t ∷ bytes) ∷ rest) ≡ read_from false (t ∷ []) (arrived (t ∷ bytes) ∷ rest)
unfolding read read_from kept
read-first t bytes rest = refl

-- The client's `read` puts the messages of a file together, as the server sends them for pieces of it,
-- one at least, whatever the socket delivers later: it answers with one message that has the type
-- byte, and then the sign before every piece and one END, and leaves what came later unread.
pub read-frames :
    (t : ℕ) (sign : Bytes) (ps : List Bytes) (later : List Incoming)
    → ps ≢ []
    → read (arrivals (frames (header t sign) ps) ++ later)
      ≡ ok ((yes, some (record { raw = (t % 256) ∷ encode_all (file_tlvs sign ps) })), later)
read-frames t sign [] later n = absurd (n refl)
read-frames t sign (p ∷ []) later n =
    read-first (t % 256) _ later ∙ read_from-frames (t % 256) t sign [] (p ∷ []) later n refl
read-frames t sign (p ∷ q ∷ ps) later n =
    read-first (t % 256) _ _ ∙ read_from-frames (t % 256) t sign [] (p ∷ q ∷ ps) later n refl
