-- ===== src/Shared/View/Limits.antt =====
-- What the loop over a view does of any message: it shows its segments, or reads past its end.
use remote_backup_m.Prelude.{
  ℕ, zero, suc, ◌+◌, ◌*◌, ◌/◌, ◌%◌, ◌≡◌, ◌<◌, ◌≤◌, inl, inr, refl, ap, sym, ◌∙◌, true, false, List,
  [], ◌∷◌, ◌++◌, Bytes, length, length-append, take, drop, length-take_le, length-drop,
  take-append-drop, All, ok, err, undefined_behaviour, leb, arith, Bool-cases,
}
use remote_backup_m.Shared.Message.{Message, Tlv, encode, encode_all}
use remote_backup_m.Shared.View.{View, view_of, next_tlv, read_header, value, walk, segments}
use remote_backup_m.Shared.View.Walk.{
  Rest, shift, fetch-ahead, fetch-ahead_first, view_of-Rest, next_tlv-encode, shift-Rest,
  shift-Shows, segments-encode_all,
}

-- Segments with bytes behind them.
abbrev pub behind : List Tlv → Bytes → Bytes
behind [] bs = bs
behind (t ∷ ts) bs = encode t ++ behind ts bs

-- One byte or two: less than a header.
abbrev pub IsStub : Bytes → Type 0
IsStub bs = (0 < length bs) × (length bs < 3)

read_header-stub :
    (v : View) (stub : Bytes)
    → Rest v stub
    → IsStub stub
    → read_header v v.data_end ≡ err undefined_behaviour
unfolding read_header
read_header-stub v [] r h = absurd (omega arith)
read_header-stub v (x ∷ []) r h = rw (fetch-ahead_first v (x ∷ []) r, fetch-ahead v (x ∷ []) 1 r)
read_header-stub v (x ∷ y ∷ []) r h = rw (
  fetch-ahead_first v (x ∷ y ∷ []) r,
  fetch-ahead v (x ∷ y ∷ []) 1 r,
  fetch-ahead v (x ∷ y ∷ []) 2 r,
)
read_header-stub v (x ∷ y ∷ z ∷ stub) r h = absurd (omega arith)

next_tlv-stub :
    (v : View) (stub : Bytes) → Rest v stub → IsStub stub → next_tlv v ≡ err undefined_behaviour
unfolding next_tlv
next_tlv-stub v stub r h = rw r.unfinished (ground (arith, read_header-stub v stub r h, r.sized))

-- The loop on segments and bytes behind them at which it reads past the end.
walk-behind :
    (fuel : ℕ) (v : View) (ts : List Tlv) (bs : Bytes)
    → Rest v (behind ts bs)
    → ((n : ℕ) (u : View) → Rest u bs → walk (suc n) u ≡ err undefined_behaviour)
    → length ts < fuel
    → walk fuel v ≡ err undefined_behaviour
unfolding walk
walk-behind zero v ts bs r h l = elim l [ ]
walk-behind (suc fuel) v [] bs r h l = h fuel v r
walk-behind (suc fuel) v (t ∷ ts) bs r h l = rw (
  next_tlv-encode v t (behind ts bs) r,
  (shift-Shows v t (behind ts bs) r).shown,
  walk-behind fuel (shift v t) ts bs (shift-Rest v t (behind ts bs) r) h (omega arith),
)

length-behind : (ts : List Tlv) (bs : Bytes) → length ts ≤ length (behind ts bs)
length-behind [] bs = omega arith
length-behind (t ∷ ts) bs = omega (arith, length-behind ts bs, length-append t.value (behind ts bs))

segments-behind :
    (m : Message) (b : ℕ) (ts : List Tlv) (bs : Bytes)
    → m.raw ≡ b ∷ behind ts bs
    → ((n : ℕ) (u : View) → Rest u bs → walk (suc n) u ≡ err undefined_behaviour)
    → segments m ≡ err undefined_behaviour
unfolding segments
segments-behind m b ts bs e h =
    walk-behind (suc (length m.raw)) (view_of m) ts bs (view_of-Rest m b (behind ts bs) e) h
      (omega (arith, ap length e, length-behind ts bs))

walk-stub :
    (stub : Bytes)
    → IsStub stub
    → (n : ℕ) (u : View) → Rest u stub
    → walk (suc n) u ≡ err undefined_behaviour
unfolding walk
walk-stub stub h n u r = rw (next_tlv-stub u stub r h)

-- A message with one or two bytes behind its last segment is read past its end, whatever the
-- segments are.
pub segments-stub :
    (m : Message) (b : ℕ) (ts : List Tlv) (stub : Bytes)
    → m.raw ≡ b ∷ behind ts stub
    → IsStub stub
    → segments m ≡ err undefined_behaviour
segments-stub m b ts stub e h = segments-behind m b ts stub e (walk-stub stub h)

-- The value behind a header is shorter than the header says.
abbrev pub IsShort : Bytes → Type 0
IsShort (t ∷ hi ∷ lo ∷ rest) = length rest < hi * 256 + lo
IsShort _ = ⊥

-- The view that such a header gives.
abbrev past : View → ℕ → ℕ → ℕ → View
past v t hi lo = record v {
  tag = t;
  len = hi * 256 + lo;
  data_begin = v.data_end + 3;
  data_end = v.data_end + 3 + (hi * 256 + lo);
  valid = true;
}

read_header-past :
    (v : View) (t hi lo : ℕ) (rest : Bytes)
    → Rest v (t ∷ hi ∷ lo ∷ rest)
    → read_header v v.data_end ≡ ok (past v t hi lo, true)
unfolding read_header
read_header-past v t hi lo rest r =
    let bs : Bytes = t ∷ hi ∷ lo ∷ rest in
    rw (fetch-ahead_first v bs r, fetch-ahead v bs 1 r, fetch-ahead v bs 2 r)

next_tlv-past :
    (v : View) (t hi lo : ℕ) (rest : Bytes)
    → Rest v (t ∷ hi ∷ lo ∷ rest)
    → next_tlv v ≡ ok (past v t hi lo, true)
unfolding next_tlv
next_tlv-past v t hi lo rest r =
    rw r.unfinished (ground (arith, read_header-past v t hi lo rest r, r.sized))

value-past :
    (v : View) (t hi lo : ℕ) (rest : Bytes)
    → Rest v (t ∷ hi ∷ lo ∷ rest)
    → length rest < hi * 256 + lo
    → value (past v t hi lo) ≡ err undefined_behaviour
unfolding value
value-past v t hi lo rest r h = rw outside
  where
    outside : leb (v.data_end + 3 + (hi * 256 + lo)) (length v.raw) ≡ false
    outside = ground (arith, r.sized)

walk-short :
    (bs : Bytes)
    → IsShort bs
    → (n : ℕ) (u : View) → Rest u bs
    → walk (suc n) u ≡ err undefined_behaviour
unfolding walk
walk-short [] h n u r = absurd h
walk-short (t ∷ []) h n u r = absurd h
walk-short (t ∷ hi ∷ []) h n u r = absurd h
walk-short (t ∷ hi ∷ lo ∷ rest) h n u r =
    rw (next_tlv-past u t hi lo rest r, value-past u t hi lo rest r h)

-- Bytes are encoded segments, or such with too few bytes behind them.
pub data Parsed (bs : Bytes) : Type 0 where
  whole : (ts : List Tlv) → bs ≡ encode_all ts → Parsed bs
  stub : (ts : List Tlv) (rest : Bytes) → bs ≡ behind ts rest → IsStub rest → Parsed bs
  short : (ts : List Tlv) (rest : Bytes) → bs ≡ behind ts rest → IsShort rest → Parsed bs

abbrev pub AreBytes : Bytes → Type 0
AreBytes bs = All (λ b. b < 256) bs

AreBytes-drop : (n : ℕ) (bs : Bytes) → AreBytes bs → AreBytes (drop n bs)
AreBytes-drop zero bs h = h
AreBytes-drop (suc n) [] h = h
AreBytes-drop (suc n) (x ∷ bs) h = AreBytes-drop n bs h.1

Parsed-cons : (t : Tlv) (bs cs : Bytes) → cs ≡ encode t ++ bs → Parsed bs → Parsed cs
Parsed-cons t bs cs e (whole ts p) = whole (t ∷ ts) (e ∙ ap (λ x. encode t ++ x) p)
Parsed-cons t bs cs e (stub ts rest p h) = stub (t ∷ ts) rest (e ∙ ap (λ x. encode t ++ x) p) h
Parsed-cons t bs cs e (short ts rest p h) = short (t ∷ ts) rest (e ∙ ap (λ x. encode t ++ x) p) h

-- The bytes of the first segment, and those behind it.
split-segment :
    (t hi lo : ℕ) (rest : Bytes)
    → lo < 256
    → hi * 256 + lo ≤ length rest
    → t ∷ hi ∷ lo ∷ rest
      ≡ encode (record { tag = t; value = take (hi * 256 + lo) rest }) ++ drop (hi * 256 + lo) rest
split-segment t hi lo rest b h =
    let n = length-take_le (hi * 256 + lo) rest h in
    let q : (hi * 256 + lo) / 256 ≡ hi = omega arith in
    let r : (hi * 256 + lo) % 256 ≡ lo = omega arith in
    rw (n, q, r) (ap (λ x. t ∷ hi ∷ lo ∷ x) (sym (take-append-drop (hi * 256 + lo) rest)))

parse : (fuel : ℕ) (bs : Bytes) → length bs ≤ fuel → AreBytes bs → Parsed bs
parse fuel [] l h = whole [] refl
parse fuel (x ∷ []) l h = stub [] (x ∷ []) refl (omega arith, omega arith)
parse fuel (x ∷ y ∷ []) l h = stub [] (x ∷ y ∷ []) refl (omega arith, omega arith)
parse zero (t ∷ hi ∷ lo ∷ rest) l h = absurd (omega arith)
parse (suc fuel) (t ∷ hi ∷ lo ∷ rest) l (ht, (hhi, (hlo, hrest))) =
    let n : ℕ = hi * 256 + lo in
    elim (Bool-cases (leb n (length rest))) [
      | inl b ↦
          Parsed-cons (record { tag = t; value = take n rest }) (drop n rest) _
            (split-segment t hi lo rest hlo (ground arith))
            (parse fuel (drop n rest) (omega (arith, length-drop n rest))
              (AreBytes-drop n rest hrest))
      | inr b ↦ short [] (t ∷ hi ∷ lo ∷ rest) refl (ground arith)
    ]

-- The loop over a message that is not empty, and what the message is.
pub data Shown (m : Message) : Type 0 where
  all_shown : (b : ℕ) (ts : List Tlv) → m.raw ≡ b ∷ encode_all ts → segments m ≡ ok ts → Shown m
  header_cut :
      (b : ℕ) (ts : List Tlv) (rest : Bytes)
      → m.raw ≡ b ∷ behind ts rest
      → IsStub rest
      → segments m ≡ err undefined_behaviour
      → Shown m
  value_cut :
      (b : ℕ) (ts : List Tlv) (rest : Bytes)
      → m.raw ≡ b ∷ behind ts rest
      → IsShort rest
      → segments m ≡ err undefined_behaviour
      → Shown m

-- Every message of bytes that is not empty is a type byte with segments, and then the loop ends within
-- the rounds that are given to it and shows just these, or with segments and one or two bytes, or
-- with segments and a header for more bytes than there are, and then the loop reads past its end.
pub segments-Shown : (m : Message) (b : ℕ) (bs : Bytes) → m.raw ≡ b ∷ bs → AreBytes bs → Shown m
segments-Shown m b bs e h = elim (parse (length bs) bs (omega arith) h) [
  | whole ts p ↦
      (let w : m.raw ≡ b ∷ encode_all ts = e ∙ ap (◌∷◌ b) p in
        all_shown b ts w (segments-encode_all m b ts w))
  | stub ts rest p c ↦
      (let w : m.raw ≡ b ∷ behind ts rest = e ∙ ap (◌∷◌ b) p in
        header_cut b ts rest w c (segments-stub m b ts rest w c))
  | short ts rest p c ↦
      (let w : m.raw ≡ b ∷ behind ts rest = e ∙ ap (◌∷◌ b) p in
        value_cut b ts rest w c (segments-behind m b ts rest w (walk-short rest c)))
]
