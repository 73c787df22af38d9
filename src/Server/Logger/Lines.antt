-- ===== src/Server/Logger/Lines.antt =====
-- What the logger writes of a well-formed message.
use remote_backup_m.Prelude.{
  Outcome, ◌>>=◌, ℕ, zero, suc, ◌<◌, ◌≤◌, ◌≡◌, refl, ap, inl, inr, List, [], ◌∷◌, ◌++◌, Bytes, All,
  length, ascii, ok, err, undefined_behaviour, ◌==◌, arith, Bool-cases,
}
use remote_backup_m.Shared.Types.{ErrType, err_code, ConnRes}
use remote_backup_m.Shared.Decimal.{pos, stoi, to_string}
use remote_backup_m.Shared.Message.{Message, Tlv, encode, encode_all, msg_type-cons}
use remote_backup_m.Shared.View.{View, view_of, tlv_type, tlv_length}
use remote_backup_m.Shared.View.Walk.{
  length-encode_all, Rest, view_of-Rest, shift, next_tlv-encode, next_tlv-nil, shift-Rest,
  shift-Shows,
}
use remote_backup_m.Shared.Platform.{Platform}
use remote_backup_m.Shared.Tools.{split_sign}
use remote_backup_m.Server.User.{User}
use remote_backup_m.Server.Logger.{
  Logger, name_in, msg_names, tlv_names, err_names, err_name, shown_value, log_segment,
  log_segments, log_message, log_result,
}

pub msg_names-known : (t : ℕ) → t < 8 → (name : Bytes) × (name_in msg_names t ≡ ok name)
unfolding name_in msg_names
msg_names-known zero h = (_, refl)
msg_names-known (suc zero) h = (_, refl)
msg_names-known (suc (suc zero)) h = (_, refl)
msg_names-known (suc (suc (suc zero))) h = (_, refl)
msg_names-known (suc (suc (suc (suc zero)))) h = (_, refl)
msg_names-known (suc (suc (suc (suc (suc zero))))) h = (_, refl)
msg_names-known (suc (suc (suc (suc (suc (suc zero)))))) h = (_, refl)
msg_names-known (suc (suc (suc (suc (suc (suc (suc zero))))))) h = (_, refl)
msg_names-known (suc (suc (suc (suc (suc (suc (suc (suc t)))))))) h = absurd (omega arith)

pub msg_names-unknown : (t : ℕ) → 8 ≤ t → name_in msg_names t ≡ err undefined_behaviour
unfolding name_in msg_names
msg_names-unknown t h = ground arith

tlv_names-known : (t : ℕ) → t < 7 → (name : Bytes) × (name_in tlv_names t ≡ ok name)
unfolding name_in tlv_names
tlv_names-known zero h = (_, refl)
tlv_names-known (suc zero) h = (_, refl)
tlv_names-known (suc (suc zero)) h = (_, refl)
tlv_names-known (suc (suc (suc zero))) h = (_, refl)
tlv_names-known (suc (suc (suc (suc zero)))) h = (_, refl)
tlv_names-known (suc (suc (suc (suc (suc zero))))) h = (_, refl)
tlv_names-known (suc (suc (suc (suc (suc (suc zero)))))) h = (_, refl)
tlv_names-known (suc (suc (suc (suc (suc (suc (suc t))))))) h = absurd (omega arith)

pub err_name-known :
    (err_type : ErrType) → (name : Bytes) × (err_name (pos (err_code err_type)) ≡ ok name)
unfolding err_name err_names name_in
err_name-known ErrType.none = (_, refl)
err_name-known _ = (_, refl)

module _ (P : Platform) where
  -- The segment's type is an enumerator's, an ITEM can be split as a sign, and an ERROR writes the
  -- code of an enumerator.
  pub record Readable (t : Tlv) : Type 0 where
    pub known : t.tag < 7
    pub sign : t.tag ≡ 2 → (c : P.FsPath × Bytes) × (split_sign P t.value ≡ ok c)
    pub code : t.tag ≡ 5 → (err_type : ErrType) × (stoi t.value ≡ ok (pos (err_code err_type)))

  shown_value-Readable : (t : Tlv) → Readable t → (s : Bytes) × (shown_value P t.tag t.value ≡ ok s)
  unfolding shown_value
  shown_value-Readable t r = elim (Bool-cases (t.tag == 2)) [
    | inl a ↦ (let (c, e) = r.sign (ground arith) in (P.string c.0, rw (a, e)))
    | inr a ↦ elim (Bool-cases (t.tag == 5)) [
      | inl b ↦
          let (err_type, e) = r.code (ground arith) in
          let (name, n) = err_name-known err_type in (name, rw (a, b, e) n)
      | inr b ↦ (t.value, rw (a, b))
    ]
  ]

  log_segment-Readable :
      (v : View) (t : Tlv) (rest : Bytes)
      → Rest v (encode t ++ rest)
      → Readable t
      → (line : Bytes) × (log_segment P (shift v t) ≡ ok line)
  unfolding log_segment tlv_type tlv_length
  log_segment-Readable v t rest r q =
      let (name, n) = tlv_names-known t.tag q.known in
      let (s, e) = shown_value-Readable t q in
      let line : Bytes → Bytes = λ shown.
        ascii "\tT: "
        ++ name
        ++ ascii "\tL: "
        ++ to_string (length t.value)
        ++ shown
        ++ ascii "\n" in
      elim (Bool-cases (t.tag == 6)) [
        | inl b ↦ (line [], rw (n, b))
        | inr b ↦ (line (ascii "\tV: " ++ s), rw (n, b, (shift-Shows v t rest r).shown, e))
      ]

  log_segments-Readable :
      (fuel : ℕ) (v : View) (ts : List Tlv)
      → Rest v (encode_all ts)
      → All Readable ts
      → length ts < fuel
      → (lines : Bytes) × (log_segments P fuel v ≡ ok lines)
  unfolding log_segments
  log_segments-Readable zero v ts r q h = elim h [ ]
  log_segments-Readable (suc fuel) v [] r q h = ([], rw (next_tlv-nil v r))
  log_segments-Readable (suc fuel) v (t ∷ ts) r q h =
      let n = next_tlv-encode v t (encode_all ts) r in
      let (line, a) = log_segment-Readable v t (encode_all ts) r q.0 in
      let (lines, b) =
        log_segments-Readable fuel (shift v t) ts (shift-Rest v t (encode_all ts) r) q.1
          (omega arith) in
      (line ++ lines, rw (n, a, b))

  -- The logger writes a well-formed message whose type is an enumerator's, whose segments have the
  -- types of enumerators, whose ITEMs can be split as signs and whose ERRORs write codes of
  -- enumerators: the call ends, and all that it changes is the console, where the user's name, the
  -- name of the type and further lines follow.
  pub log_message-Readable :
      (usr : User P.FsPath) (m : Message) (l : Logger) (t : ℕ) (ts : List Tlv)
      → m.raw ≡ t ∷ encode_all ts
      → t < 8
      → All Readable ts
      → (name : Bytes) × (lines : Bytes) × (name_in msg_names t ≡ ok name)
        × (log_message P usr m l
            ≡ ok (record l {
              cout = l.cout ++ usr.username ++ ascii ":" ++ name ++ ascii "\n" ++ lines;
            }))
  unfolding log_message
  log_message-Readable usr m l t ts w h q =
      let (name, n) = msg_names-known t h in
      let (lines, b) =
        log_segments-Readable (suc (length m.raw)) (view_of m) ts
          (view_of-Rest m t (encode_all ts) w) q
          (omega (arith, length-encode_all ts, ap length w)) in
      (name, lines, n, rw (msg_type-cons m t (encode_all ts) w, n, b))

  -- A message of a type that is no enumerator's cannot be logged.
  pub log_message-unknown :
      (usr : User P.FsPath) (m : Message) (l : Logger) (t : ℕ) (bs : Bytes)
      → m.raw ≡ t ∷ bs
      → 8 ≤ t
      → log_message P usr m l ≡ err undefined_behaviour
  unfolding log_message
  log_message-unknown usr m l t bs w h = rw (msg_type-cons m t bs w, msg_names-unknown t h)

  -- A message that the logger can write.
  pub record ReadableMessage (m : Message) : Type 0 where
    pub type : ℕ
    pub segments : List Tlv
    pub framed : m.raw ≡ type ∷ encode_all segments
    pub known : type < 8
    pub readable : All Readable segments

  pub log_message-ok :
      (usr : User P.FsPath) (m : Message) (l : Logger)
      → ReadableMessage m
      → (l' : Logger) × (log_message P usr m l ≡ ok l')
  log_message-ok usr m l r =
      let (name, lines, n, e) =
        log_message-Readable usr m l r.type r.segments r.framed r.known r.readable in
      (_, e)

named :
    {x y : Outcome Bytes} {a b : Bytes} (g : Bytes → Bytes → Logger)
    → x ≡ ok a
    → y ≡ ok b
    → (l : Logger) × ((x >>= λ a'. y >>= λ b'. ok (g a' b')) ≡ ok l)
named {a} {b} g p q = (g a b, rw (p, q))

pub log_result-ok :
    {K : Type 0} (usr : User K) (t : ℕ) (err_type : ErrType) (connection_result : ConnRes)
    (l : Logger)
    → t < 8
    → (l' : Logger) × (log_result usr t (pos (err_code err_type)) connection_result l ≡ ok l')
unfolding log_result
log_result-ok usr t err_type connection_result l h =
    let (name, n) = msg_names-known t h in let (result, r) = err_name-known err_type in named _ n r
