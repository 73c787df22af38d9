-- ===== src/Client/Replies/Closing.antt =====
-- What the client makes of the replies that the server closes.
use remote_backup_m.Prelude.{
  ◌≡◌, ◌≢◌, refl, ◌∙◌, Bool, true, false, not, List, [], ◌∷◌, Bytes, Option, none, some, Outcome,
  ok, ◌==◌, ◌=?◌, bytes_eq, bytes_beq_iff, if◌then◌else◌, Eq, arith, Bool-cases, inl, inr,
}
use remote_backup_m.Shared.Types.{MsgType, msg_code, TlvType, tlv_code, ErrType, err_code}
use remote_backup_m.Shared.Message.{Message, msg_type-cons, Tlv, encode_all}
use remote_backup_m.Shared.View.{View, view_of, next_is, tlv_type, value}
use remote_backup_m.Shared.View.Walk.{
  Rest, view_of-Rest, shift, next_tlv-encode, shift-Rest, shift-Shows,
}
use remote_backup_m.Shared.Dir.{Dir, is_some, rsrc, insert_or_assign}
use remote_backup_m.Shared.Dir
use remote_backup_m.Shared.Dir.Entries.{NodupKeys, insert_or_assign_lem, erase_lem, beq_refl}
use remote_backup_m.Server.Session.{error_text}
use remote_backup_m.Server.Session.Closed.{closing, stoi-error_text}
use remote_backup_m.Client.Incoming.Joined.{item}
use remote_backup_m.Client.Resource.{yes, no, CResource}
use remote_backup_m.Client.Replies.{
  next_item, answers, says_ok_or, says_ok, confirms, found, handle_create, handle_update,
  handle_erase,
}

module _ (t : MsgType) (sign : Bytes) (x : Tlv) (ts : List Tlv) (m : Message)
    (w : m.raw ≡ msg_code t ∷ encode_all (item sign ∷ x ∷ ts)) where
  start : Rest (view_of m) (encode_all (item sign ∷ x ∷ ts))
  start = view_of-Rest m (msg_code t) (encode_all (item sign ∷ x ∷ ts)) w

  behind_item : Rest (shift (view_of m) (item sign)) (encode_all (x ∷ ts))
  behind_item = shift-Rest (view_of m) (item sign) (encode_all (x ∷ ts)) start

  abbrev pub shown : View
  shown = shift (shift (view_of m) (item sign)) x

  next_item-item : next_item sign (view_of m) ≡ ok (shown, true)
  unfolding next_item next_is tlv_type
  next_item-item =
      let same : (sign =? sign) ≡ true = (bytes_beq_iff sign sign).1 refl in
      rw (
        next_tlv-encode (view_of m) (item sign) (encode_all (x ∷ ts)) start,
        (shift-Shows (view_of m) (item sign) (encode_all (x ∷ ts)) start).shown,
        same,
        next_tlv-encode (shift (view_of m) (item sign)) x (encode_all ts) behind_item,
      )

  pub answers-item : answers t sign m ≡ ok (shown, true)
  unfolding answers
  answers-item =
      let same : (msg_code t == msg_code t) ≡ true = ground arith in
      rw (msg_type-cons m (msg_code t) (encode_all (item sign ∷ x ∷ ts)) w, same, next_item-item)

  pub shown-value : value shown ≡ ok x.value
  shown-value = (shift-Shows (shift (view_of m) (item sign)) x (encode_all ts) behind_item).shown

-- How a reply is closed: with OK, or with an ERROR of this code.
abbrev pub reply_closing : Option ErrType → List Tlv
reply_closing none = closing TlvType.ok ErrType.none
reply_closing (some err_type) = closing TlvType.error err_type

-- What the client takes as done: OK, and one error.
abbrev pub is_done : ErrType → Option ErrType → Bool
is_done expected none = true
is_done expected (some err_type) = err_code err_type == err_code expected

abbrev pub IsError : Option ErrType → Type 0
IsError none = Unit {0}
IsError (some err_type) = err_code err_type ≢ 0

-- A message is the server's reply to a request of this type on this sign, with the code of an error as
-- its decimal text.
abbrev pub IsReply : MsgType → Bytes → Option ErrType → Message → Type 0
IsReply t sign closed m = m.raw ≡ msg_code t ∷ encode_all (item sign ∷ reply_closing closed)

abbrev says : TlvType → ErrType → Tlv
says tlv err_type = record { tag = tlv_code tlv; value = error_text err_type }

abbrev ended : List Tlv
ended = record { tag = 3; value = [] } ∷ []

confirms-reply :
    (t : MsgType) (sign : Bytes) (expected : ErrType) (closed : Option ErrType) (m : Message)
    → IsError closed
    → IsReply t sign closed m
    → confirms t (says_ok_or expected) sign m ≡ ok (is_done expected closed)
unfolding confirms says_ok_or tlv_type
confirms-reply t sign expected none m z w =
    rw (answers-item t sign (says TlvType.ok ErrType.none) ended m w)
confirms-reply t sign expected (some err_type) m z w = rw (
  answers-item t sign (says TlvType.error err_type) ended m w,
  shown-value t sign (says TlvType.error err_type) ended m w,
  stoi-error_text err_type z,
)

confirms-ok :
    (t : MsgType) (sign : Bytes) (closed : Option ErrType) (m : Message)
    → IsReply t sign closed m
    → confirms t says_ok sign m ≡ ok (not (is_some closed))
unfolding confirms says_ok tlv_type
confirms-ok t sign none m w = rw (answers-item t sign (says TlvType.ok ErrType.none) ended m w)
confirms-ok t sign (some err_type) m w =
    rw (answers-item t sign (says TlvType.error err_type) ended m w)

module _ {K : Type 0} ⦃e : Eq K⦄ (relative_path : K) (sign : Bytes) (closed : Option ErrType)
    (m : Message) (r : CResource) (d : Dir K CResource) where
  -- The directory after a reply: the entry of the path, and the others as they were.
  abbrev pub Leaves : Outcome (Dir K CResource) → Option CResource → Type 0
  Leaves handled entry =
      (d' : Dir K CResource) × (handled ≡ ok d')
      × (rsrc relative_path d' ≡ entry)
      × ((j : K) → (relative_path =? j) ≡ false → rsrc j d' ≡ rsrc j d)

  insert-Leaves :
      (r' : CResource)
      → NodupKeys d.content
      → Leaves (ok (insert_or_assign relative_path r' d).0) (some r')
  insert-Leaves r' u = (
    (insert_or_assign relative_path r' d).0,
    refl,
    (insert_or_assign_lem relative_path relative_path r' d u).0 ∙ rw (beq_refl relative_path),
    λ j n. (insert_or_assign_lem relative_path j r' d u).0 ∙ rw n,
  )

  found-some : rsrc relative_path d ≡ some r → found relative_path d ≡ ok r
  unfolding found
  found-some h = rw (h, found)

  -- The server's reply to a CREATE, closed with OK or with any error, leaves a client that has an
  -- entry for the path, and one at most for each, with an entry that is synced and on the server
  -- where the reply is OK or says that the file exists, and with one that is not synced otherwise.
  -- Other entries stay.
  pub handle_create-Leaves :
      NodupKeys d.content
      → rsrc relative_path d ≡ some r
      → IsError closed
      → IsReply MsgType.create sign closed m
      → Leaves (handle_create relative_path sign (some m) d) (
          some (
            if is_done ErrType.create_already_exist closed
            then record r { synced = yes; exist_on_server = true }
            else record r { synced = no }))
  unfolding handle_create
  handle_create-Leaves u h z w =
      let c = confirms-reply MsgType.create sign ErrType.create_already_exist closed m z w in
      elim (Bool-cases (is_done ErrType.create_already_exist closed)) [
        | inl b ↦
            rw (found-some h, c, b)
              (insert-Leaves (record r { synced = yes; exist_on_server = true }) u)
        | inr b ↦ rw (found-some h, c, b) (insert-Leaves (record r { synced = no }) u)
      ]

  -- The server's reply to an UPDATE, closed with OK or with any error, leaves a client that has an
  -- entry for the path, and one at most for each, with an entry that is synced where the reply is
  -- OK or says that the file is up to date, and not synced otherwise. Other entries stay.
  pub handle_update-Leaves :
      NodupKeys d.content
      → rsrc relative_path d ≡ some r
      → IsError closed
      → IsReply MsgType.update sign closed m
      → Leaves (handle_update relative_path sign (some m) d) (
          some (
            if is_done ErrType.update_already_updated closed
            then record r { synced = yes }
            else record r { synced = no }))
  unfolding handle_update
  handle_update-Leaves u h z w =
      let c = confirms-reply MsgType.update sign ErrType.update_already_updated closed m z w in
      elim (Bool-cases (is_done ErrType.update_already_updated closed)) [
        | inl b ↦ rw (found-some h, c, b) (insert-Leaves (record r { synced = yes }) u)
        | inr b ↦ rw (found-some h, c, b) (insert-Leaves (record r { synced = no }) u)
      ]

  -- The server's reply to an ERASE, closed with OK or with an error, leaves a client that has an
  -- entry for the path, and one at most for each, without that entry where the reply is OK, and
  -- with one that is not synced where it is an error. Other entries stay.
  pub handle_erase-Leaves :
      NodupKeys d.content
      → rsrc relative_path d ≡ some r
      → IsReply MsgType.erase sign closed m
      → Leaves
          (handle_erase relative_path sign (some m) d)
          (if is_some closed then some (record r { synced = no }) else none)
  unfolding handle_erase
  handle_erase-Leaves u h w =
      let c = confirms-ok MsgType.erase sign closed m w in
      elim (Bool-cases (is_some closed)) [
        | inl b ↦ rw (found-some h, c, b) (insert-Leaves (record r { synced = no }) u)
        | inr b ↦
            rw (found-some h, c, b)
              (
                (Dir.erase relative_path d).0,
                refl,
                (erase_lem relative_path relative_path d u).0 ∙ rw (beq_refl relative_path),
                λ j n. (erase_lem relative_path j d u).0 ∙ rw n,
              )
      ]
