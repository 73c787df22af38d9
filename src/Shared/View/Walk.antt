-- ===== src/Shared/View/Walk.antt =====
-- What a view shows of a well-formed message.
use remote_backup_m.Prelude.{
  ℕ, zero, suc, ◌+◌, ◌-◌, ◌*◌, ◌/◌, ◌%◌, ◌≡◌, ◌<◌, ◌≤◌, refl, append-nil, append_assoc, sym, ap,
  ◌∙◌, true, false, List, [], ◌∷◌, ◌++◌, Bytes, All, length, length-append, take-append, drop,
  drop-add, drop-append, get_elem?-add, ok, fetch, leb, arith,
}
use native.Mathlib.Nat.{add-zero}
use remote_backup_m.Shared.Message.{
  Message, Tlv, IsTlv, encode, encode_all, add_tlv, add_tlv-raw, new_message,
}
use remote_backup_m.Shared.View.{View, view_of, next_tlv, read_header, value, walk, segments}

-- The bytes that the view has not shown yet are `bs`.
pub record Rest (v : View) (bs : Bytes) : Type 0 where
  pub unfinished : v.finished ≡ false
  pub sized : v.data_end + length bs ≡ length v.raw
  pub ahead : drop v.data_end v.raw ≡ bs

-- The view stands on a segment with this type and this value.
pub record Shows (v : View) (t : Tlv) : Type 0 where
  pub valid : v.valid ≡ true
  pub tag : v.tag ≡ t.tag
  pub shown : value v ≡ ok t.value

pub view_of-Rest : (m : Message) (b : ℕ) (bs : Bytes) → m.raw ≡ b ∷ bs → Rest (view_of m) bs
unfolding view_of
view_of-Rest m b bs e = rw e (record { unfinished = refl; sized = omega arith; ahead = refl })

-- The view behind `encode t`, reached from offset `p`.
abbrev pub shift : View → Tlv → View
shift v t = record v {
  tag = t.tag;
  len = length t.value;
  data_begin = v.data_end + 3;
  data_end = v.data_end + 3 + length t.value;
  valid = true;
}

pub fetch-ahead :
    (v : View) (bs : Bytes) (k : ℕ) → Rest v bs → fetch v.raw (v.data_end + k) ≡ fetch bs k
fetch-ahead v bs k r = rw (get_elem?-add v.raw v.data_end k, r.ahead)

pub fetch-ahead_first : (v : View) (bs : Bytes) → Rest v bs → fetch v.raw v.data_end ≡ fetch bs 0
fetch-ahead_first v bs r = rw add-zero at (fetch-ahead v bs 0 r)

read_header-encode :
    (v : View) (t : Tlv) (rest : Bytes)
    → Rest v (encode t ++ rest)
    → read_header v v.data_end ≡ ok (shift v t, true)
unfolding read_header
read_header-encode v t rest r =
    let n : length t.value / 256 * 256 + length t.value % 256 ≡ length t.value = omega arith in
    let bs = encode t ++ rest in
    rw (fetch-ahead_first v bs r, fetch-ahead v bs 1 r, fetch-ahead v bs 2 r, n)

-- A segment ahead is read: the view moves on to it, and what follows is ahead.
pub next_tlv-encode :
    (v : View) (t : Tlv) (rest : Bytes)
    → Rest v (encode t ++ rest)
    → next_tlv v ≡ ok (shift v t, true)
unfolding next_tlv
next_tlv-encode v t rest r =
    rw r.unfinished (ground (arith, read_header-encode v t rest r, r.sized))

-- With nothing ahead the view ends.
pub next_tlv-nil :
    (v : View)
    → Rest v []
    → next_tlv v ≡ ok (record v { data_begin = v.data_end; finished = true; valid = false }, false)
unfolding next_tlv
next_tlv-nil v r = rw r.unfinished (ground (arith, r.sized))

drop-encode :
    (v : View) (t : Tlv) (rest : Bytes)
    → Rest v (encode t ++ rest)
    → drop (v.data_end + 3) v.raw ≡ t.value ++ rest
drop-encode v t rest r = rw (drop-add v.raw v.data_end 3, r.ahead)

pub shift-Rest :
    (v : View) (t : Tlv) (rest : Bytes) → Rest v (encode t ++ rest) → Rest (shift v t) rest
shift-Rest v t rest r = record {
  unfinished = r.unfinished;
  sized = omega (arith, r.sized, length-append t.value rest);
  ahead =
      drop-add v.raw (v.data_end + 3) (length t.value)
      ∙ ap (drop (length t.value)) (drop-encode v t rest r)
      ∙ drop-append t.value rest;
}

pub shift-Shows :
    (v : View) (t : Tlv) (rest : Bytes) → Rest v (encode t ++ rest) → Shows (shift v t) t
unfolding value
shift-Shows v t rest r = record { valid = refl; tag = refl; shown = shown }
  where
    width : v.data_end + 3 + length t.value - (v.data_end + 3) ≡ length t.value
    width = omega arith

    inside : leb (v.data_end + 3 + length t.value) (length v.raw) ≡ true
    inside = ground (arith, r.sized, length-append t.value rest)

    shown : value (shift v t) ≡ ok t.value
    shown = rw (inside, width, drop-encode v t rest r, take-append t.value rest)

-- The loop shows the segments that are ahead, in order, and then ends.
walk-encode_all :
    (fuel : ℕ) (v : View) (ts : List Tlv)
    → Rest v (encode_all ts)
    → length ts < fuel
    → walk fuel v ≡ ok ts
unfolding walk
walk-encode_all zero v ts r h = elim h [ ]
walk-encode_all (suc fuel) v [] r h = rw (next_tlv-nil v r)
walk-encode_all (suc fuel) v (t ∷ ts) r h = rw (
  next_tlv-encode v t (encode_all ts) r,
  (shift-Shows v t (encode_all ts) r).shown,
  walk-encode_all fuel (shift v t) ts (shift-Rest v t (encode_all ts) r) (omega arith),
)

pub length-encode_all : (ts : List Tlv) → length ts ≤ length (encode_all ts)
length-encode_all [] = omega arith
length-encode_all (t ∷ ts) =
    omega (arith, length-encode_all ts, length-append t.value (encode_all ts))

-- A message that is a type byte and encoded segments is read back as those segments, whatever the
-- type byte and the segments are.
pub segments-encode_all :
    (m : Message) (b : ℕ) (ts : List Tlv) → m.raw ≡ b ∷ encode_all ts → segments m ≡ ok ts
unfolding segments
segments-encode_all m b ts e =
    walk-encode_all (suc (length m.raw)) (view_of m) ts (view_of-Rest m b (encode_all ts) e)
      (omega (arith, ap length e, length-encode_all ts))

-- The segments, added one after the other.
abbrev pub add_tlvs : List Tlv → Message → Message
add_tlvs [] m = m
add_tlvs (t ∷ ts) m = add_tlvs ts (add_tlv t.tag (length t.value) t.value m)

add_tlvs-raw :
    (ts : List Tlv) (m : Message) → All IsTlv ts → (add_tlvs ts m).raw ≡ m.raw ++ encode_all ts
add_tlvs-raw [] m h = sym (append-nil m.raw)
add_tlvs-raw (t ∷ ts) m h =
    add_tlvs-raw ts (add_tlv t.tag (length t.value) t.value m) h.1
    ∙ ap (λ b. b ++ encode_all ts) (add_tlv-raw t m h.0)
    ∙ append_assoc m.raw (encode t) (encode_all ts)

-- What is added to a message is what a view shows of it: the same segments, in the order in which
-- they were added, if their types are bytes and their lengths have 16 bits.
pub segments-add_tlvs :
    (msg_type : ℕ) (ts : List Tlv)
    → All IsTlv ts
    → segments (add_tlvs ts (new_message msg_type)) ≡ ok ts
unfolding new_message
segments-add_tlvs msg_type ts h =
    segments-encode_all (add_tlvs ts (new_message msg_type)) (msg_type % 256) ts
      (add_tlvs-raw ts (new_message msg_type) h)
