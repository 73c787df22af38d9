-- ===== src/Server/Delivery/Request.antt =====
-- A CREATE message of a file, served for a user who may send it.
use remote_backup_m.Prelude.{
  ℕ, ◌+◌, ◌≤◌, ◌≡◌, refl, ◌∙◌, true, List, [], ◌∷◌, Bytes, length, ok, Eq, arith,
}
use remote_backup_m.Shared.Types.{TlvType}
use remote_backup_m.Shared.Message.{Message, Tlv, encode_all, msg_type-cons}
use remote_backup_m.Shared.View.{View, view_of, next_tlv, next_is, tlv_type, value, verify_end}
use remote_backup_m.Shared.View.Walk.{
  Rest, view_of-Rest, shift, next_tlv-encode, shift-Rest, shift-Shows,
}
use remote_backup_m.Shared.Platform.{Platform}
use remote_backup_m.Shared.Tools.{split_sign}
use remote_backup_m.Shared.Chunks.Step.{content_tlv}
use remote_backup_m.Server.Queue.{Queue, chunk_size, new_queue, add_tlv}
use remote_backup_m.Server.Session.{Session, reply_tlv}
use remote_backup_m.Server.Delivery.Reply.{sign_tlv, one_reply, add_tlv-sign}
use remote_backup_m.Server.Handler.{handle_request, dispatch, handle_synced}
use remote_backup_m.Server.Handler.Upload.{handle_create, create_content}

-- The view on the CONTENT of a message that has an ITEM and a CONTENT first.
abbrev pub content_view : Message → Bytes → Bytes → View
content_view m sign p = shift (shift (view_of m) (sign_tlv sign)) (content_tlv p)

pub verify_end-content_view :
    (m : Message) (sign p : Bytes) → verify_end (content_view m sign p) ≡ verify_end (view_of m)
unfolding verify_end
verify_end-content_view m sign p = refl

module _ (m : Message) (t : ℕ) (sign p : Bytes) (rest : List Tlv)
    (w : m.raw ≡ t ∷ encode_all (sign_tlv sign ∷ content_tlv p ∷ rest)) where
  at_item : Rest (view_of m) (encode_all (sign_tlv sign ∷ content_tlv p ∷ rest))
  at_item = view_of-Rest m t (encode_all (sign_tlv sign ∷ content_tlv p ∷ rest)) w

  at_content : Rest (shift (view_of m) (sign_tlv sign)) (encode_all (content_tlv p ∷ rest))
  at_content = shift-Rest (view_of m) (sign_tlv sign) (encode_all (content_tlv p ∷ rest)) at_item

  next_tlv-item : next_tlv (view_of m) ≡ ok (shift (view_of m) (sign_tlv sign), true)
  next_tlv-item =
      next_tlv-encode (view_of m) (sign_tlv sign) (encode_all (content_tlv p ∷ rest)) at_item

  value-item : value (shift (view_of m) (sign_tlv sign)) ≡ ok sign
  value-item =
      (shift-Shows (view_of m) (sign_tlv sign) (encode_all (content_tlv p ∷ rest)) at_item).shown

  next_is-content :
      next_is TlvType.content (shift (view_of m) (sign_tlv sign)) ≡ ok (content_view m sign p, true)
  unfolding next_is tlv_type
  next_is-content = rw (
      next_tlv-encode (shift (view_of m) (sign_tlv sign)) (content_tlv p) (encode_all rest)
        at_content)

  pub value-content : value (content_view m sign p) ≡ ok p
  value-content =
      (shift-Shows (shift (view_of m) (sign_tlv sign)) (content_tlv p) (encode_all rest)
        at_content).shown

  module _ (P : Platform) ⦃e : Eq P.FsPath⦄ (root credentials : P.FsPath) where
    handle_create-content :
        (rel : P.FsPath) (digest : Bytes) (s : Session P) (q : Queue)
        → split_sign P sign ≡ ok (rel, digest)
        → add_tlv 2 (length sign) sign s.replies ≡ ok q
        → handle_create P (shift (view_of m) (sign_tlv sign)) s
          ≡ create_content P rel digest (content_view m sign p) (record s { replies = q })
    unfolding handle_create reply_tlv tlv_type
    handle_create-content rel digest s q split added =
        rw (value-item, split, added, next_is-content)

    dispatch-create :
        (v : View) (s : Session P)
        → s.user.auth ≡ true
        → s.user.synced ≡ true
        → dispatch P root credentials 1 v s ≡ handle_create P v s
    unfolding dispatch handle_synced
    dispatch-create v s a b = ground arith

    pub handle_request-content :
        (rel : P.FsPath) (digest : Bytes) (s : Session P) (short : length sign + 10 ≤ chunk_size)
        → t ≡ 1
        → s.user.auth ≡ true
        → s.user.synced ≡ true
        → split_sign P sign ≡ ok (rel, digest)
        → handle_request P root credentials m s
          ≡ create_content P rel digest
              (content_view m sign p)
              (record s { replies = one_reply (sign_tlv sign ∷ []) })
    unfolding handle_request
    handle_request-content rel digest s short one a b split =
        let fresh : Session P = record s { replies = new_queue 1 } in
        let c =
          dispatch-create (shift (view_of m) (sign_tlv sign)) fresh a b
          ∙ handle_create-content rel digest fresh (one_reply (sign_tlv sign ∷ [])) split
              (add_tlv-sign sign short) in
        rw
          (
            msg_type-cons m t (encode_all (sign_tlv sign ∷ content_tlv p ∷ rest)) w,
            one,
            next_tlv-item,
          )
          c
