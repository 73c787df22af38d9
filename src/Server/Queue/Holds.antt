-- ===== src/Server/Queue/Holds.antt =====
-- A queue against the list of the segments that were added to it.
use remote_backup_m.Prelude.{
  ℕ, suc, ◌+◌, ◌%◌, ◌≡◌, ◌<◌, ◌≤◌, ◌≢◌, inl, inr, refl, sym, ap, ◌∙◌, List, [], ◌∷◌, ◌++◌,
  append_assoc, append-nil, All, length, length-append, take-length, ok, leb, arith, Bool-cases,
}
use remote_backup_m.Shared.Decimal.{ℤ, stoi}
use remote_backup_m.Shared.Message.{
  Message, Tlv, IsTlv, encode, encode_all, add_tlv-raw, encode_all-append, new_message, size,
}
use remote_backup_m.Shared.Message
use remote_backup_m.Server.Queue.{Queue, chunk_size, new_queue, push_tlv, note_error, add_tlv}

abbrev pub frame : ℕ → List Tlv → Message
frame msg_type ts = record { raw = (msg_type % 256) ∷ encode_all ts }

abbrev pub frames : ℕ → List (List Tlv) → List Message
frames msg_type [] = []
frames msg_type (g ∷ gs) = frame msg_type g ∷ frames msg_type gs

abbrev pub flat : List (List Tlv) → List Tlv
flat [] = []
flat (g ∷ gs) = g ++ flat gs

abbrev pub Bounded : List Message → Type 0
Bounded = All (λ m. length m.raw ≤ chunk_size)

-- The queue holds these segments: it has a message, each message is the type byte and segments,
-- none is longer than CHUNK_SIZE, and together they have the segments, in order.
pub record Holds (q : Queue) (ts : List Tlv) : Type 0 where
  pub groups : List (List Tlv)
  pub nonempty : groups ≢ []
  pub framed : q.msgs ≡ frames q.msg_type groups
  pub whole : flat groups ≡ ts
  pub bounded : Bounded q.msgs

-- The segment is one of the wire format and fits into a message.
abbrev pub FitsQueue : Tlv → Type 0
FitsQueue t = (t.tag < 256) × (length t.value + 4 ≤ chunk_size)

record Pushed (msg_type : ℕ) (groups : List (List Tlv)) (t : Tlv) : Type 0 where
  more : List (List Tlv)
  pushed :
      push_tlv msg_type t.tag (length t.value) t.value (frames msg_type groups)
      ≡ ok (frames msg_type more)
  nonempty : more ≢ []
  whole : flat more ≡ flat groups ++ (t ∷ [])
  bounded : Bounded (frames msg_type more)

pub add_tlv-frame :
    (msg_type : ℕ) (g : List Tlv) (t : Tlv)
    → IsTlv t
    → Message.add_tlv t.tag (length t.value) t.value (frame msg_type g)
      ≡ frame msg_type (g ++ (t ∷ []))
add_tlv-frame msg_type g t h =
    ap (λ b. record { raw = b })
      (add_tlv-raw t (frame msg_type g) h
        ∙ ap (◌∷◌ (msg_type % 256)) (
            ap (◌++◌ (encode_all g)) (sym (append-nil (encode t)))
            ∙ sym (encode_all-append g (t ∷ []))))

length-frame :
    (msg_type : ℕ) (g : List Tlv) (t : Tlv)
    → length (frame msg_type (g ++ (t ∷ []))).raw
      ≡ length (frame msg_type g).raw + 3 + length t.value
length-frame msg_type g t = omega (
  arith,
  ap length (encode_all-append g (t ∷ [])),
  length-append (encode_all g) (encode_all (t ∷ [])),
  length-append t.value [],
)

push_tlv-Pushed :
    (msg_type : ℕ) (groups : List (List Tlv)) (t : Tlv)
    → groups ≢ []
    → FitsQueue t
    → Bounded (frames msg_type groups)
    → Pushed msg_type groups t
unfolding push_tlv size new_message
push_tlv-Pushed msg_type [] t n f b = absurd (n refl)
push_tlv-Pushed msg_type (g ∷ []) t n f b =
    elim (Bool-cases (leb (suc (length (encode_all g)) + 1 + 2 + length t.value) chunk_size)) [
      | inl room ↦ record {
        more = (g ++ (t ∷ [])) ∷ [];
        pushed = rw (room, add_tlv-frame msg_type g t (f.0, omega arith));
        nonempty = λ p. cc;
        whole = append-nil (g ++ (t ∷ [])) ∙ ap (λ xs. xs ++ (t ∷ [])) (sym (append-nil g));
        bounded = (ground (arith, length-frame msg_type g t), tt);
      }
      | inr full ↦ record {
        more = g ∷ (t ∷ []) ∷ [];
        pushed = rw (full, add_tlv-frame msg_type [] t (f.0, omega arith));
        nonempty = λ p. cc;
        whole = ap (λ xs. xs ++ (t ∷ [])) (sym (append-nil g));
        bounded = (b.0, (omega (arith, f.1, length-frame msg_type [] t), tt));
      }
    ]
push_tlv-Pushed msg_type (g ∷ h ∷ gs) t n f b =
    let r = push_tlv-Pushed msg_type (h ∷ gs) t (λ p. cc) f b.1 in
    record {
      more = g ∷ r.more;
      pushed = rw r.pushed;
      nonempty = λ p. cc;
      whole = rw r.whole (sym (append_assoc g (h ++ flat gs) (t ∷ [])));
      bounded = (b.0, r.bounded);
    }

-- The queue that `add_tlv` leaves.
pub record Added (q : Queue) (ts : List Tlv) (t : Tlv) (code : ℤ) : Type 0 where
  pub after : Queue
  pub added : add_tlv t.tag (length t.value) t.value q ≡ ok after
  pub holds : Holds after (ts ++ (t ∷ []))
  pub same_type : after.msg_type ≡ q.msg_type
  pub noted : after.err_type ≡ code

module _ (q : Queue) (ts : List Tlv) (h : Holds q ts) (t : Tlv) (f : FitsQueue t) (code : ℤ) where
  pushed : Pushed q.msg_type h.groups t
  pushed = push_tlv-Pushed q.msg_type h.groups t h.nonempty f (rw (← h.framed) h.bounded)

  abbrev after : Queue
  after = record q { msgs = frames q.msg_type pushed.more; err_type = code }

  add_tlv-Added :
      note_error t.tag t.value (record q { msgs = frames q.msg_type pushed.more }) ≡ ok after
      → Added q ts t code
  unfolding add_tlv
  add_tlv-Added e = record {
    after = after;
    added = rw (h.framed, pushed.pushed, take-length t.value) e;
    holds = record {
      groups = pushed.more;
      nonempty = pushed.nonempty;
      framed = refl;
      whole = pushed.whole ∙ ap (λ xs. xs ++ (t ∷ [])) h.whole;
      bounded = pushed.bounded;
    };
    same_type = refl;
    noted = refl;
  }

-- `add_TLV` of a segment that is no ERROR and fits into a message, on a queue that holds some
-- segments in messages of at most CHUNK_SIZE bytes, returns a queue that holds them and the segment
-- behind them in such messages, with the same type and code.
pub add_tlv-plain :
    (q : Queue) (ts : List Tlv) (t : Tlv)
    → Holds q ts
    → FitsQueue t
    → t.tag ≢ 5
    → Added q ts t q.err_type
unfolding note_error
add_tlv-plain q ts t h f n = add_tlv-Added q ts h t f q.err_type (ground arith)

-- `add_TLV` of an ERROR segment that fits into a message and whose text std::stoi reads, on a queue
-- that holds some segments, returns a queue that holds them and the segment behind them, with the
-- same type and with the code that was read.
pub add_tlv-error :
    (q : Queue) (ts : List Tlv) (t : Tlv) (code : ℤ)
    → Holds q ts
    → FitsQueue t
    → t.tag ≡ 5
    → stoi t.value ≡ ok code
    → Added q ts t code
unfolding note_error
add_tlv-error q ts t code h f e r = add_tlv-Added q ts h t f code (rw (e, r))

pub new_queue-Holds : (msg_type : ℕ) → msg_type ≢ 0 → msg_type ≢ 6 → Holds (new_queue msg_type) []
unfolding new_queue new_message
new_queue-Holds msg_type n r = record {
  groups = [] ∷ [];
  nonempty = λ p. cc;
  framed = ground arith;
  whole = refl;
  bounded = ground arith;
}
