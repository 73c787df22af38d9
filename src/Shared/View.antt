-- ===== src/Shared/View.antt =====
-- shared/communication/tlv_view.cpp. Iterators are offsets into the vector; a read at or past its
-- end is undefined behaviour, as in the source, which does not check.
pub mod Walk
pub mod Limits
use remote_backup_m.Prelude.{
  ℕ, zero, suc, ◌+◌, ◌-◌, ◌*◌, ◌≡◌, Bool, true, false, List, [], ◌∷◌, Bytes, length, take, drop,
  Outcome, ok, err, undefined_behaviour, logic_error, out_of_fuel, fetch, ◌>>=◌, ◌==◌, leb,
  if◌then◌else◌, not,
}
use remote_backup_m.Shared.Types.{TlvType, tlv_code}
use remote_backup_m.Shared.Message.{Message, Tlv}

-- `begin_` is 0 and `end_` is the vector's length.
pub record View : Type 0 where
  pub tag : ℕ
  pub len : ℕ
  pub raw : Bytes
  pub data_begin : ℕ
  pub data_end : ℕ
  pub valid : Bool
  pub finished : Bool

unfoldable pub view_of : Message → View
view_of m = record {
  tag = 0;
  len = 0;
  raw = m.raw;
  data_begin = 1;
  data_end = 1;
  valid = false;
  finished = false;
}

-- The part of `next_tlv` behind its two early returns: three bytes are read.
unfoldable pub read_header : View → ℕ → Outcome (View × Bool)
read_header v p = do
  t ← fetch v.raw p
  hi ← fetch v.raw (p + 1)
  lo ← fetch v.raw (p + 2)
  ok (
    record v {
      tag = t;
      len = hi * 256 + lo;
      data_begin = p + 3;
      data_end = p + 3 + (hi * 256 + lo);
      valid = true;
    },
    true,
  )

unfoldable pub next_tlv : View → Outcome (View × Bool)
unfolding read_header
next_tlv v =
    if v.finished
    then ok (v, false)
    else if v.data_end == length v.raw
    then ok (record v { data_begin = v.data_end; finished = true; valid = false }, false)
    else read_header v v.data_end

-- The two last bytes are 0 and the one before is the END tag, read from the end backwards.
unfoldable pub verify_end : View → Outcome Bool
verify_end v = do
  a ← fetch_back v 1
  if not (a == 0) then ok false else do
    b ← fetch_back v 2
    if not (b == 0) then ok false else do c ← fetch_back v 3; ok (c == tlv_code TlvType.end)
  where
    fetch_back : View → ℕ → Outcome ℕ
    fetch_back u k =
        if leb k (length u.raw) then fetch u.raw (length u.raw - k) else err undefined_behaviour

unfoldable pub tlv_type : View → Outcome ℕ
tlv_type v = if v.valid then ok v.tag else err logic_error

unfoldable pub tlv_length : View → Outcome ℕ
tlv_length v = if v.valid then ok v.len else err logic_error

unfoldable pub data_begin : View → Outcome ℕ
data_begin v = if v.valid then ok v.data_begin else err logic_error

unfoldable pub data_end : View → Outcome ℕ
data_end v = if v.valid then ok v.data_end else err logic_error

-- `std::string{view.cbegin(), view.cend()}`.
unfoldable pub value : View → Outcome Bytes
unfolding data_begin data_end
value v = do
  b ← data_begin v
  e ← data_end v
  if leb e (length v.raw) then ok (take (e - b) (drop b v.raw)) else err undefined_behaviour

-- `!view.next_tlv() || view.tlv_type() != t`, negated.
unfoldable pub next_is : TlvType → View → Outcome (View × Bool)
next_is t v = do
  r ← next_tlv v
  if r.1 then (tlv_type r.0 >>= λ tag. ok (r.0, tag == tlv_code t)) else ok (r.0, false)

-- `while (view.next_tlv()) …`, for the bodies that read each segment's type and value.
unfoldable pub walk : ℕ → View → Outcome (List Tlv)
unfolding next_tlv value
walk zero v = err out_of_fuel
walk (suc fuel) v = next_tlv v >>= λ r.
    if r.1
    then (value r.0 >>= λ x.
        walk fuel r.0 >>= λ rest. ok (record { tag = r.0.tag; value = x } ∷ rest))
    else ok []

-- A round consumes three bytes at least.
unfoldable pub segments : Message → Outcome (List Tlv)
unfolding walk view_of
segments m = walk (suc (length m.raw)) (view_of m)
