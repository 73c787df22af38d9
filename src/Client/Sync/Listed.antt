-- ===== src/Client/Sync/Listed.antt =====
-- The loop over a LIST reply reads the values of its ITEM segments.
use remote_backup_m.Prelude.{
  ℕ, zero, suc, ◌<◌, ◌≡◌, ◌≢◌, ap, false, List, [], ◌∷◌, ◌++◌, Bytes, length, length-append, ok,
  ◌>>=◌, ◌==◌, if◌then◌else◌, arith, Bool-cases, inl, inr,
}
use remote_backup_m.Shared.Message.{Message, msg_type-cons, Tlv, encode, encode_all}
use remote_backup_m.Shared.View.{View, view_of, next_tlv, tlv_type}
use remote_backup_m.Shared.View.Walk.{
  length-encode_all, Rest, view_of-Rest, shift, next_tlv-encode, next_tlv-nil, shift-Rest,
  shift-Shows,
}
use remote_backup_m.Client.Sync.{list_view, items_from, listed_signs}

abbrev pub items_of : List Tlv → List Bytes
items_of [] = []
items_of (t ∷ ts) = if t.tag == 2 then t.value ∷ items_of ts else items_of ts

-- One segment, given what the loop reads behind it.
items_from-round :
    (fuel : ℕ) (u : View) (t : Tlv) (rest : Bytes) (xs : List Bytes)
    → Rest u (encode t ++ rest)
    → (next_tlv (shift u t) >>= λ r. if r.1 then items_from fuel r.0 else ok []) ≡ ok xs
    → items_from (suc fuel) (shift u t) ≡ ok (if t.tag == 2 then t.value ∷ xs else xs)
unfolding items_from tlv_type
items_from-round fuel u t rest xs r h = elim (Bool-cases (t.tag == 2)) [
  | inl b ↦ rw (b, (shift-Shows u t rest r).shown, h)
  | inr b ↦ rw (b, h)
]

items_from-items_of :
    (fuel : ℕ) (u : View) (t : Tlv) (ts : List Tlv)
    → Rest u (encode t ++ encode_all ts)
    → length ts < fuel
    → items_from fuel (shift u t) ≡ ok (items_of (t ∷ ts))
items_from-items_of zero u t ts r h = elim h [ ]
items_from-items_of (suc fuel) u t [] r h =
    items_from-round fuel u t [] [] r (rw (next_tlv-nil (shift u t) (shift-Rest u t [] r)))
items_from-items_of (suc fuel) u t (t' ∷ ts) r h =
    let r' = shift-Rest u t (encode_all (t' ∷ ts)) r in
    items_from-round fuel u t (encode_all (t' ∷ ts)) (items_of (t' ∷ ts)) r (
      rw (next_tlv-encode (shift u t) t' (encode_all ts) r')
        (items_from-items_of fuel (shift u t) t' ts r' (omega arith)))

list_view-first :
    (m : Message) (t : Tlv) (ts : List Tlv)
    → m.raw ≡ 4 ∷ encode_all (t ∷ ts)
    → t.tag ≢ 5
    → list_view m ≡ ok (shift (view_of m) t)
unfolding list_view tlv_type
list_view-first m t ts w n =
    let r = view_of-Rest m 4 (encode_all (t ∷ ts)) w in
    let b : (t.tag == 5) ≡ false = ground arith in
    rw (
      msg_type-cons m 4 (encode_all (t ∷ ts)) w,
      next_tlv-encode (view_of m) t (encode_all ts) r,
      b,
    )

-- A LIST reply that does not begin with an ERROR lists the values of its ITEM segments, in order.
pub listed_signs-items_of :
    (m : Message) (t : Tlv) (ts : List Tlv)
    → m.raw ≡ 4 ∷ encode_all (t ∷ ts)
    → t.tag ≢ 5
    → listed_signs m ≡ ok (items_of (t ∷ ts))
unfolding listed_signs
listed_signs-items_of m t ts w n = rw (list_view-first m t ts w n) (
    items_from-items_of (suc (length m.raw)) (view_of m) t ts
      (view_of-Rest m 4 (encode_all (t ∷ ts)) w)
      (omega (arith, ap length w, length-encode_all ts, length-append t.value (encode_all ts))))
