-- ===== src/Shared/Chunks/Ends.antt =====
-- Which messages `verify_end` takes for the last one of a file.
use remote_backup_m.Prelude.{
  ℕ, ◌+◌, ◌-◌, ◌/◌, ◌%◌, ◌≡◌, ◌≤◌, ap, sym, true, [], ◌∷◌, ◌++◌, append_assoc, append-nil, Bytes,
  length, length-append, get_elem?-add, drop-append, ok, leb, fetch, arith,
}
use remote_backup_m.Shared.Message.{Message, Tlv, encode, encode_all}
use remote_backup_m.Shared.View.{View, view_of, verify_end, segments}
use remote_backup_m.Shared.View.Walk.{segments-encode_all}
use remote_backup_m.Shared.Chunks.Step.{content_tlv, middle_frame, last_frame}
use remote_backup_m.Shared.Chunks.Transfer.{header}

abbrev pub end_bytes : Bytes
end_bytes = 3 ∷ 0 ∷ 0 ∷ []

fetch-suffix : (xs ys : Bytes) (k n : ℕ) → n ≡ length xs + k → fetch (xs ++ ys) n ≡ fetch ys k
fetch-suffix xs ys k n e = rw (e, get_elem?-add (xs ++ ys) (length xs) k, drop-append xs ys)

-- A view of bytes that end in the three bytes of END passes.
verify_end-suffix : (v : View) (xs : Bytes) → v.raw ≡ xs ++ end_bytes → verify_end v ≡ ok true
unfolding verify_end
verify_end-suffix v xs e = rw (
  e,
  inside 1 (omega arith),
  last 1 2 (omega arith),
  inside 2 (omega arith),
  last 2 1 (omega arith),
  inside 3 (omega arith),
  last 3 0 (omega arith),
)
  where
    inside : (k : ℕ) → k ≤ 3 → leb k (length (xs ++ end_bytes)) ≡ true
    inside k h = ground (arith, length-append xs end_bytes)

    last :
        (k i : ℕ)
        → k + i ≡ 3
        → fetch (xs ++ end_bytes) (length (xs ++ end_bytes) - k) ≡ fetch end_bytes i
    last k i h = fetch-suffix xs end_bytes i _ (omega (arith, length-append xs end_bytes))

-- The message that ends with a CONTENT segment and END, as the last one of a file does, passes
-- `verify_end`, whatever stands before.
pub verify_end-last_frame : (H chunk : Bytes) → verify_end (view_of (last_frame H chunk)) ≡ ok true
unfolding view_of
verify_end-last_frame H chunk =
    verify_end-suffix (view_of (last_frame H chunk)) (H ++ encode (content_tlv chunk))
      (sym (append_assoc H (encode (content_tlv chunk)) end_bytes))

-- A message of a file that is not the last one also passes `verify_end` if the file's bytes in it
-- end with 03 00 00, though all that it says as segments is an ITEM and a CONTENT, with no END.
pub verify_end-middle_frame :
    (msg_type : ℕ) (sign p : Bytes)
    → (verify_end (view_of (middle_frame (header msg_type sign) (p ++ end_bytes))) ≡ ok true)
      × (segments (middle_frame (header msg_type sign) (p ++ end_bytes))
          ≡ ok (record { tag = 2; value = sign } ∷ content_tlv (p ++ end_bytes) ∷ []))
unfolding view_of
verify_end-middle_frame msg_type sign p = (
  verify_end-suffix (view_of m) (header msg_type sign ++ (6 ∷ hi ∷ lo ∷ p)) raw,
  segments-encode_all m (msg_type % 256) (item ∷ content_tlv (p ++ end_bytes) ∷ []) frame,
)
  where
    m : Message
    m = middle_frame (header msg_type sign) (p ++ end_bytes)

    item : Tlv
    item = record { tag = 2; value = sign }

    hi : ℕ
    hi = length (p ++ end_bytes) / 256

    lo : ℕ
    lo = length (p ++ end_bytes) % 256

    raw : (view_of m).raw ≡ (header msg_type sign ++ (6 ∷ hi ∷ lo ∷ p)) ++ end_bytes
    raw = sym (append_assoc (header msg_type sign) (6 ∷ hi ∷ lo ∷ p) end_bytes)

    frame : m.raw ≡ (msg_type % 256) ∷ encode_all (item ∷ content_tlv (p ++ end_bytes) ∷ [])
    frame =
        ap (λ b. header msg_type sign ++ b)
          (sym (append-nil (encode (content_tlv (p ++ end_bytes)))))
